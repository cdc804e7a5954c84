-- ===== src/Config/Groups.antt =====
-- crates/fractald-config/src/syscall_groups.rs: the system calls in each group.
use fractal_d.Base.{Option, List, [], ◌∷◌, ◌++◌, Text, codes, words}
use Prim.Native.String.{String}
use fractal_d.BTree.Map.{TextMap, get}

-- The names of a group, which stand in one text here.
abbrev names : String → List Text
names text = words (codes text)

abbrev pub sandbox_group : List Text
sandbox_group = names "landlock_add_rule landlock_create_ruleset landlock_restrict_self seccomp"

abbrev pub default_group : List Text
default_group =
    names "arch_prctl brk cacheflush clock_getres clock_getres_time64 clock_gettime"
    ++ names "clock_gettime64 clock_nanosleep clock_nanosleep_time64 execve exit exit_group"
    ++ names "futex futex_time64 futex_waitv get_robust_list get_thread_area getegid"
    ++ names "getegid32 geteuid geteuid32 getgid getgid32 getgroups getgroups32 getpgid"
    ++ names "getpgrp getpid getppid getrandom getresgid getresgid32 getresuid getresuid32"
    ++ names "getrlimit getsid gettid gettimeofday getuid getuid32 landlock_add_rule"
    ++ names "landlock_create_ruleset landlock_restrict_self lsm_get_self_attr"
    ++ names "lsm_list_modules membarrier mmap mmap2 mprotect mseal munmap nanosleep pause"
    ++ names "prlimit64 restart_syscall riscv_flush_icache riscv_hwprobe rseq rt_sigreturn"
    ++ names "sched_getaffinity sched_yield seccomp set_robust_list set_thread_area"
    ++ names "set_tid_address set_tls sigreturn time ugetrlimit uretprobe"

abbrev pub basic_io_group : List Text
basic_io_group =
    names "_llseek close close_range dup dup2 dup3 llseek lseek pread64 preadv preadv2"
    ++ names "pwrite64 pwritev pwritev2 read readv write writev"

abbrev pub file_system_group : List Text
file_system_group =
    names "access chdir chmod close creat faccessat faccessat2 fallocate fchdir fchmod"
    ++ names "fchmodat fchmodat2 fcntl fcntl64 fgetxattr file_getattr file_setattr"
    ++ names "flistxattr fremovexattr fsetxattr fstat fstat64 fstatat fstatat64 fstatfs"
    ++ names "fstatfs64 ftruncate ftruncate64 futimesat getcwd getdents getdents64 getxattr"
    ++ names "getxattrat inotify_add_watch inotify_init inotify_init1 inotify_rm_watch"
    ++ names "lgetxattr link linkat listmount listxattr listxattrat llistxattr lremovexattr"
    ++ names "lsetxattr lstat lstat64 mkdir mkdirat mknod mknodat newfstat newfstatat"
    ++ names "oldfstat oldlstat oldstat open open_tree openat openat2 readlink readlinkat"
    ++ names "removexattr removexattrat rename renameat renameat2 rmdir setxattr setxattrat"
    ++ names "stat stat64 statfs statfs64 statmount statx symlink symlinkat truncate"
    ++ names "truncate64 unlink unlinkat utime utimensat utimensat_time64 utimes"

abbrev pub io_event_group : List Text
io_event_group =
    names "_newselect epoll_create epoll_create1 epoll_ctl epoll_ctl_old epoll_pwait"
    ++ names "epoll_pwait2 epoll_wait epoll_wait_old eventfd eventfd2 poll ppoll"
    ++ names "ppoll_time64 pselect6 pselect6_time64 select"

abbrev pub ipc_group : List Text
ipc_group =
    names "ipc memfd_create mq_getsetattr mq_notify mq_open mq_timedreceive"
    ++ names "mq_timedreceive_time64 mq_timedsend mq_timedsend_time64 mq_unlink msgctl"
    ++ names "msgget msgrcv msgsnd pipe pipe2 process_madvise process_vm_readv"
    ++ names "process_vm_writev semctl semget semop semtimedop semtimedop_time64 shmat"
    ++ names "shmctl shmdt shmget"

abbrev pub network_io_group : List Text
network_io_group =
    names "accept accept4 bind connect getpeername getsockname getsockopt listen recv"
    ++ names "recvfrom recvmmsg recvmmsg_time64 recvmsg send sendmmsg sendmsg sendto"
    ++ names "setsockopt shutdown socket socketcall socketpair"

abbrev pub process_group : List Text
process_group =
    names "capget clone clone3 execveat fork getrusage kill pidfd_open pidfd_send_signal"
    ++ names "prctl rt_sigqueueinfo rt_tgsigqueueinfo setns swapcontext tgkill times tkill"
    ++ names "unshare vfork wait4 waitid waitpid"

abbrev pub sync_group : List Text
sync_group = names "fdatasync fsync msync sync sync_file_range sync_file_range2 syncfs"

abbrev pub signal_group : List Text
signal_group =
    names "rt_sigaction rt_sigpending rt_sigprocmask rt_sigsuspend rt_sigtimedwait"
    ++ names "rt_sigtimedwait_time64 sigaction sigaltstack signal signalfd signalfd4"
    ++ names "sigpending sigprocmask sigsuspend"

abbrev pub timer_group : List Text
timer_group =
    names "alarm getitimer setitimer timer_create timer_delete timer_getoverrun"
    ++ names "timer_gettime timer_gettime64 timer_settime timer_settime64 timerfd_create"
    ++ names "timerfd_gettime timerfd_gettime64 timerfd_settime timerfd_settime64 times"

abbrev pub clock_group : List Text
clock_group =
    names "adjtimex clock_adjtime clock_adjtime64 clock_settime clock_settime64"
    ++ names "settimeofday"

abbrev pub mount_group : List Text
mount_group =
    names "chroot fsconfig fsmount fsopen fspick mount mount_setattr move_mount"
    ++ names "open_tree_attr pivot_root umount umount2"

abbrev pub resources_group : List Text
resources_group =
    names "ioprio_set mbind migrate_pages move_pages nice sched_setaffinity sched_setattr"
    ++ names "sched_setparam sched_setscheduler set_mempolicy set_mempolicy_home_node"
    ++ names "setpriority setrlimit"

abbrev pub privileged_group : List Text
privileged_group =
    names "_sysctl acct adjtimex bpf capset chown chown32 chroot clock_adjtime"
    ++ names "clock_adjtime64 clock_settime clock_settime64 delete_module fanotify_init"
    ++ names "fanotify_mark fchown fchown32 fchownat finit_module init_module ioperm iopl"
    ++ names "kexec_file_load kexec_load lchown lchown32 nfsservctl open_by_handle_at"
    ++ names "pciconfig_iobase pciconfig_read pciconfig_write pivot_root quotactl"
    ++ names "quotactl_fd reboot s390_pci_mmio_read s390_pci_mmio_write setdomainname"
    ++ names "setfsuid setfsuid32 setgroups setgroups32 sethostname setresuid setresuid32"
    ++ names "setreuid setreuid32 settimeofday setuid setuid32 swapoff swapon vhangup"

abbrev pub debug_group : List Text
debug_group =
    names "lookup_dcookie perf_event_open pidfd_getfd ptrace rtas s390_runtime_instr"
    ++ names "sys_debug_setcontext"

abbrev pub module_group : List Text
module_group = names "delete_module finit_module init_module"

abbrev pub raw_io_group : List Text
raw_io_group =
    names "ioperm iopl pciconfig_iobase pciconfig_read pciconfig_write s390_pci_mmio_read"
    ++ names "s390_pci_mmio_write"

abbrev pub reboot_group : List Text
reboot_group = names "kexec_file_load kexec_load reboot"

abbrev pub swap_group : List Text
swap_group = names "swapoff swapon"

abbrev pub cpu_emulation_group : List Text
cpu_emulation_group = names "modify_ldt subpage_prot switch_endian vm86 vm86old"

abbrev pub obsolete_group : List Text
obsolete_group =
    names "_sysctl afs_syscall bdflush break create_module ftime get_kernel_syms getpmsg"
    ++ names "gtty idle lock mpx prof profil putpmsg query_module security sgetmask ssetmask"
    ++ names "stime stty sysfs tuxcall ulimit uselib ustat vserver"

abbrev pub aio_group : List Text
aio_group =
    names "io_cancel io_destroy io_getevents io_pgetevents io_pgetevents_time64 io_setup"
    ++ names "io_submit io_uring_enter io_uring_register io_uring_setup"

abbrev pub chown_group : List Text
chown_group = names "chown chown32 fchown fchown32 fchownat lchown lchown32"

abbrev pub keyring_group : List Text
keyring_group = names "add_key keyctl request_key"

abbrev pub memlock_group : List Text
memlock_group = names "mlock mlock2 mlockall munlock munlockall"

abbrev pub setuid_group : List Text
setuid_group =
    names "setgid setgid32 setgroups setgroups32 setregid setregid32 setresgid"
    ++ names "setresgid32 setresuid setresuid32 setreuid setreuid32 setuid setuid32"

abbrev pub pkey_group : List Text
pkey_group = names "pkey_alloc pkey_free pkey_mprotect"

abbrev pub system_service_group : List Text
system_service_group =
    names "_llseek _newselect accept accept4 access add_key alarm arch_prctl"
    ++ names "arm_fadvise64_64 bind brk cacheflush capget capset chdir chmod chown chown32"
    ++ names "clock_getres clock_getres_time64 clock_gettime clock_gettime64 clock_nanosleep"
    ++ names "clock_nanosleep_time64 clone clone3 close close_range connect copy_file_range"
    ++ names "creat dup dup2 dup3 epoll_create epoll_create1 epoll_ctl epoll_ctl_old"
    ++ names "epoll_pwait epoll_pwait2 epoll_wait epoll_wait_old eventfd eventfd2 execve"
    ++ names "execveat exit exit_group faccessat faccessat2 fadvise64 fadvise64_64 fallocate"
    ++ names "fchdir fchmod fchmodat fchmodat2 fchown fchown32 fchownat fcntl fcntl64"
    ++ names "fdatasync fgetxattr file_getattr file_setattr flistxattr flock fork"
    ++ names "fremovexattr fsetxattr fstat fstat64 fstatat fstatat64 fstatfs fstatfs64 fsync"
    ++ names "ftruncate ftruncate64 futex futex_time64 futex_waitv futimesat get_mempolicy"
    ++ names "get_robust_list get_thread_area getcpu getcwd getdents getdents64 getegid"
    ++ names "getegid32 geteuid geteuid32 getgid getgid32 getgroups getgroups32 getitimer"
    ++ names "getpeername getpgid getpgrp getpid getppid getpriority getrandom getresgid"
    ++ names "getresgid32 getresuid getresuid32 getrlimit getrusage getsid getsockname"
    ++ names "getsockopt gettid gettimeofday getuid getuid32 getxattr getxattrat"
    ++ names "inotify_add_watch inotify_init inotify_init1 inotify_rm_watch io_cancel"
    ++ names "io_destroy io_getevents io_pgetevents io_pgetevents_time64 io_setup io_submit"
    ++ names "io_uring_enter io_uring_register io_uring_setup ioctl ioprio_get ioprio_set"
    ++ names "ipc kcmp keyctl kill landlock_add_rule landlock_create_ruleset"
    ++ names "landlock_restrict_self lchown lchown32 lgetxattr link linkat listen listmount"
    ++ names "listxattr listxattrat llistxattr llseek lremovexattr lseek lsetxattr"
    ++ names "lsm_get_self_attr lsm_list_modules lstat lstat64 madvise mbind membarrier"
    ++ names "memfd_create migrate_pages mkdir mkdirat mknod mknodat mlock mlock2 mlockall"
    ++ names "mmap mmap2 move_pages mprotect mq_getsetattr mq_notify mq_open mq_timedreceive"
    ++ names "mq_timedreceive_time64 mq_timedsend mq_timedsend_time64 mq_unlink mremap mseal"
    ++ names "msgctl msgget msgrcv msgsnd msync munlock munlockall munmap name_to_handle_at"
    ++ names "nanosleep newfstat newfstatat nice oldfstat oldlstat oldolduname oldstat"
    ++ names "olduname open open_tree openat openat2 pause personality pidfd_open"
    ++ names "pidfd_send_signal pipe pipe2 poll ppoll ppoll_time64 prctl pread64 preadv"
    ++ names "preadv2 prlimit64 process_madvise process_vm_readv process_vm_writev pselect6"
    ++ names "pselect6_time64 pwrite64 pwritev pwritev2 read readahead readdir readlink"
    ++ names "readlinkat readv recv recvfrom recvmmsg recvmmsg_time64 recvmsg"
    ++ names "remap_file_pages removexattr removexattrat rename renameat renameat2"
    ++ names "request_key restart_syscall riscv_flush_icache riscv_hwprobe rmdir rseq"
    ++ names "rt_sigaction rt_sigpending rt_sigprocmask rt_sigqueueinfo rt_sigreturn"
    ++ names "rt_sigsuspend rt_sigtimedwait rt_sigtimedwait_time64 rt_tgsigqueueinfo"
    ++ names "sched_get_priority_max sched_get_priority_min sched_getaffinity sched_getattr"
    ++ names "sched_getparam sched_getscheduler sched_rr_get_interval"
    ++ names "sched_rr_get_interval_time64 sched_setaffinity sched_setattr sched_setparam"
    ++ names "sched_setscheduler sched_yield seccomp select semctl semget semop semtimedop"
    ++ names "semtimedop_time64 send sendfile sendfile64 sendmmsg sendmsg sendto"
    ++ names "set_mempolicy set_mempolicy_home_node set_robust_list set_thread_area"
    ++ names "set_tid_address set_tls setfsgid setfsgid32 setfsuid setfsuid32 setgid"
    ++ names "setgid32 setgroups setgroups32 setitimer setns setpgid setpriority setregid"
    ++ names "setregid32 setresgid setresgid32 setresuid setresuid32 setreuid setreuid32"
    ++ names "setrlimit setsid setsockopt setuid setuid32 setxattr setxattrat shmat shmctl"
    ++ names "shmdt shmget shutdown sigaction sigaltstack signal signalfd signalfd4"
    ++ names "sigpending sigprocmask sigreturn sigsuspend socket socketcall socketpair"
    ++ names "splice stat stat64 statfs statfs64 statmount statx swapcontext symlink"
    ++ names "symlinkat sync sync_file_range sync_file_range2 syncfs sysinfo tee tgkill time"
    ++ names "timer_create timer_delete timer_getoverrun timer_gettime timer_gettime64"
    ++ names "timer_settime timer_settime64 timerfd_create timerfd_gettime timerfd_gettime64"
    ++ names "timerfd_settime timerfd_settime64 times tkill truncate truncate64 ugetrlimit"
    ++ names "umask uname unlink unlinkat unshare uretprobe userfaultfd utime utimensat"
    ++ names "utimensat_time64 utimes vfork vmsplice wait4 waitid waitpid write writev"

abbrev pub groups : TextMap (List Text)
groups =
    (codes "@sandbox", sandbox_group)
    ∷ (codes "@default", default_group)
    ∷ (codes "@basic-io", basic_io_group)
    ∷ (codes "@file-system", file_system_group)
    ∷ (codes "@io-event", io_event_group)
    ∷ (codes "@ipc", ipc_group)
    ∷ (codes "@network-io", network_io_group)
    ∷ (codes "@process", process_group)
    ∷ (codes "@sync", sync_group)
    ∷ (codes "@signal", signal_group)
    ∷ (codes "@timer", timer_group)
    ∷ (codes "@clock", clock_group)
    ∷ (codes "@mount", mount_group)
    ∷ (codes "@resources", resources_group)
    ∷ (codes "@privileged", privileged_group)
    ∷ (codes "@debug", debug_group)
    ∷ (codes "@module", module_group)
    ∷ (codes "@raw-io", raw_io_group)
    ∷ (codes "@reboot", reboot_group)
    ∷ (codes "@swap", swap_group)
    ∷ (codes "@cpu-emulation", cpu_emulation_group)
    ∷ (codes "@obsolete", obsolete_group)
    ∷ (codes "@aio", aio_group)
    ∷ (codes "@chown", chown_group)
    ∷ (codes "@keyring", keyring_group)
    ∷ (codes "@memlock", memlock_group)
    ∷ (codes "@setuid", setuid_group)
    ∷ (codes "@pkey", pkey_group)
    ∷ (codes "@system-service", system_service_group)
    ∷ []

unfoldable pub expand_group : Text → Option (List Text)
unfolding get
expand_group name = get groups name
