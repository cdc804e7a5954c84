-- ===== src/Config/Schema/Keys.antt =====
-- The keys of each section that a declaration may have.
use fractal_d.Base.{List, [], ◌∷◌, Text, codes}
use fractal_d.BTree.Map.{TextMap}

abbrev service_keys : List Text
service_keys =
    codes "description"
    ∷ codes "kind"
    ∷ codes "exec"
    ∷ codes "exec_pre"
    ∷ codes "exec_post"
    ∷ codes "exec_stop_post"
    ∷ codes "exec_condition"
    ∷ codes "stop"
    ∷ codes "reload"
    ∷ codes "restart"
    ∷ codes "restart_delay"
    ∷ codes "start_timeout"
    ∷ codes "stop_timeout"
    ∷ codes "runtime_limit"
    ∷ codes "kill_signal"
    ∷ codes "restart_kill_signal"
    ∷ codes "send_sighup"
    ∷ codes "ignore_sigpipe"
    ∷ codes "remain_after_exit"
    ∷ codes "refuse_manual_start"
    ∷ codes "refuse_manual_stop"
    ∷ codes "stop_when_unneeded"
    ∷ codes "default_dependencies"
    ∷ codes "allow_isolate"
    ∷ codes "ignore_on_isolate"
    ∷ codes "working_directory"
    ∷ codes "pid_file"
    ∷ codes "user"
    ∷ codes "group"
    ∷ codes "dynamic_user"
    ∷ codes "supplementary_groups"
    ∷ codes "cgroup_slice"
    ∷ codes "environment"
    ∷ codes "environment_file"
    ∷ codes "unset_environment"
    ∷ codes "stdout"
    ∷ codes "stderr"
    ∷ codes "stdin"
    ∷ codes "tty"
    ∷ codes "watchdog"
    ∷ codes "notify_access"
    ∷ codes "success_exit_status"
    ∷ codes "restart_prevent_exit_status"
    ∷ codes "bus_name"
    ∷ []

abbrev dependencies_keys : List Text
dependencies_keys =
    codes "requires"
    ∷ codes "wants"
    ∷ codes "after"
    ∷ codes "before"
    ∷ codes "conflicts"
    ∷ codes "part_of"
    ∷ codes "binds_to"
    ∷ codes "requisite"
    ∷ codes "on_success"
    ∷ codes "on_failure"
    ∷ codes "requires_mount"
    ∷ codes "wants_mount"
    ∷ codes "default_dependencies"
    ∷ codes "allow_isolate"
    ∷ codes "ignore_on_isolate"
    ∷ codes "stop_when_unneeded"
    ∷ []

abbrev install_keys : List Text
install_keys =
    codes "alias"
    ∷ codes "profile"
    ∷ codes "profiles"
    ∷ codes "default_dependencies"
    ∷ codes "allow_isolate"
    ∷ codes "ignore_on_isolate"
    ∷ codes "stop_when_unneeded"
    ∷ []

abbrev paths_keys : List Text
paths_keys =
    codes "configuration"
    ∷ codes "configuration_mode"
    ∷ codes "configuration_preserve"
    ∷ codes "runtime"
    ∷ codes "runtime_mode"
    ∷ codes "runtime_preserve"
    ∷ codes "state"
    ∷ codes "state_mode"
    ∷ codes "state_preserve"
    ∷ codes "cache"
    ∷ codes "cache_mode"
    ∷ codes "cache_preserve"
    ∷ codes "logs"
    ∷ codes "logs_mode"
    ∷ codes "logs_preserve"
    ∷ []

abbrev credentials_keys : List Text
credentials_keys = codes "file" ∷ codes "value" ∷ codes "store" ∷ codes "import" ∷ []

abbrev conditions_keys : List Text
conditions_keys =
    codes "path_exists"
    ∷ codes "path_exists_glob"
    ∷ codes "directory_not_empty"
    ∷ codes "executable"
    ∷ codes "read_write"
    ∷ codes "directory"
    ∷ codes "file_not_empty"
    ∷ codes "mount_point"
    ∷ codes "symlink"
    ∷ codes "kernel_command_line"
    ∷ codes "virtualization"
    ∷ codes "security"
    ∷ codes "ac_power"
    ∷ codes "capability"
    ∷ codes "kernel_module"
    ∷ codes "firmware"
    ∷ codes "first_boot"
    ∷ codes "credential"
    ∷ codes "cgroup_controller"
    ∷ codes "environment"
    ∷ codes "needs_update"
    ∷ []

abbrev security_keys : List Text
security_keys =
    codes "no_new_privileges"
    ∷ codes "memory_deny_write_execute"
    ∷ codes "restrict_realtime"
    ∷ codes "restrict_suid_sgid"
    ∷ codes "protect_control_groups"
    ∷ codes "protect_kernel_modules"
    ∷ codes "protect_kernel_tunables"
    ∷ codes "protect_kernel_logs"
    ∷ codes "protect_clock"
    ∷ codes "protect_hostname"
    ∷ codes "lock_personality"
    ∷ codes "umask"
    ∷ codes "nice"
    ∷ codes "oom_score_adjust"
    ∷ codes "oom_policy"
    ∷ codes "private_tmp"
    ∷ codes "private_devices"
    ∷ codes "private_mounts"
    ∷ codes "private_ipc"
    ∷ codes "private_network"
    ∷ codes "device_policy"
    ∷ codes "device_allow"
    ∷ codes "delegate"
    ∷ codes "private_users"
    ∷ codes "restrict_namespaces"
    ∷ codes "protect_system"
    ∷ codes "protect_home"
    ∷ codes "protect_proc"
    ∷ codes "proc_subset"
    ∷ codes "read_write"
    ∷ codes "read_only"
    ∷ codes "inaccessible"
    ∷ codes "capability_bounding_set"
    ∷ codes "ambient_capabilities"
    ∷ codes "address_families"
    ∷ codes "syscall_architectures"
    ∷ codes "syscall_error_number"
    ∷ codes "syscall_filter"
    ∷ []

abbrev resources_keys : List Text
resources_keys =
    codes "memory_max"
    ∷ codes "memory_high"
    ∷ codes "memory_min"
    ∷ codes "memory_low"
    ∷ codes "memory_swap_max"
    ∷ codes "tasks_max"
    ∷ codes "cpu_weight"
    ∷ codes "io_weight"
    ∷ codes "cpu_quota"
    ∷ codes "cpu_quota_period"
    ∷ codes "nofile"
    ∷ codes "memlock"
    ∷ codes "nproc"
    ∷ codes "start_limit_interval"
    ∷ codes "start_limit_burst"
    ∷ []

abbrev manager_keys : List Text
manager_keys =
    codes "failure_action"
    ∷ codes "success_action"
    ∷ codes "job_timeout"
    ∷ codes "job_timeout_action"
    ∷ []

abbrev listen_keys : List Text
listen_keys =
    codes "accept"
    ∷ codes "service"
    ∷ codes "fd_name"
    ∷ codes "remove_on_stop"
    ∷ codes "mode"
    ∷ codes "user"
    ∷ codes "group"
    ∷ codes "stream"
    ∷ codes "datagram"
    ∷ codes "sequential_packet"
    ∷ codes "fifo"
    ∷ codes "netlink"
    ∷ codes "special"
    ∷ []

abbrev timer_keys : List Text
timer_keys =
    codes "service"
    ∷ codes "on_boot"
    ∷ codes "on_active"
    ∷ codes "on_inactive"
    ∷ codes "calendar"
    ∷ codes "persistent"
    ∷ codes "random_delay"
    ∷ codes "accuracy"
    ∷ []

abbrev watch_keys : List Text
watch_keys =
    codes "service"
    ∷ codes "changed"
    ∷ codes "modified"
    ∷ codes "exists"
    ∷ codes "exists_glob"
    ∷ codes "directory_not_empty"
    ∷ []

abbrev mount_keys : List Text
mount_keys =
    codes "what"
    ∷ codes "where"
    ∷ codes "type"
    ∷ codes "options"
    ∷ codes "directory_mode"
    ∷ codes "lazy"
    ∷ codes "force"
    ∷ codes "timeout"
    ∷ []

abbrev swap_keys : List Text
swap_keys = codes "what" ∷ codes "options" ∷ codes "priority" ∷ codes "timeout" ∷ []

abbrev device_keys : List Text
device_keys = codes "path" ∷ []

abbrev pub sections_allowed : TextMap (List Text)
sections_allowed =
    (codes "service", service_keys)
    ∷ (codes "dependencies", dependencies_keys)
    ∷ (codes "install", install_keys)
    ∷ (codes "paths", paths_keys)
    ∷ (codes "credentials", credentials_keys)
    ∷ (codes "conditions", conditions_keys)
    ∷ (codes "assertions", conditions_keys)
    ∷ (codes "security", security_keys)
    ∷ (codes "resources", resources_keys)
    ∷ (codes "manager", manager_keys)
    ∷ (codes "listen", listen_keys)
    ∷ (codes "timer", timer_keys)
    ∷ (codes "watch", watch_keys)
    ∷ (codes "mount", mount_keys)
    ∷ (codes "swap", swap_keys)
    ∷ (codes "device", device_keys)
    ∷ []
