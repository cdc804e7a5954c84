-- ===== src/Spec/Types.antt =====
-- crates/fractald-core/src/lib.rs: the descriptor of a service. A path or an OS string is a `Text`, a set is
-- the ascending list of its members, a map the list of its entries, a `Duration` its nanoseconds.
use fractal_d.Base.{ℕ, Bool, Option, List, Text, ℤ}
use fractal_d.Spec.Policy.{RestartPolicy}
use fractal_d.Spec.Limits.{LimitRange, ResourceLimits}
use fractal_d.Spec.Modes.{
  OomPolicy, ManagerAction, ServiceType, KillMode, DevicePolicy, DeviceAccessRule, DelegateMode,
  PrivateUsersMode, NotifyAccess, OutputMode, InputMode, PrivateTmpMode, ProtectSystemMode,
  ProtectHomeMode, ProtectProcMode, ProcSubsetMode, SystemCallFilter, SystemCallArchitectures,
}
use fractal_d.Spec.Commands.{
  CommandSpec, EnvironmentFileSpec, CredentialSpec, CredentialImportSpec, ListenerSpec, TriggerSpec,
  DirectorySpec,
}
use fractal_d.Spec.Condition.{Condition}

pub record DependencySet : Type 0 where
  pub requires : List Text
  pub wants : List Text
  pub after : List Text
  pub before : List Text
  pub conflicts : List Text
  pub part_of : List Text
  pub binds_to : List Text
  pub requisite : List Text
  pub on_success : List Text
  pub on_failure : List Text

pub record ServiceSpec : Type 0 where
  pub name : Text
  pub aliases : List Text
  pub profiles : List Text
  pub default_dependencies : Bool
  pub allow_isolate : Bool
  pub ignore_on_isolate : Bool
  pub refuse_manual_start : Bool
  pub refuse_manual_stop : Bool
  pub program : Text
  pub args : List Text
  pub main_ignore_failure : Bool
  pub main_argv0 : Option Text
  pub main_expand_environment : Bool
  pub environment : List (Text × Text)
  pub unset_environment : List Text
  pub environment_files : List EnvironmentFileSpec
  pub credentials : List CredentialSpec
  pub credential_imports : List CredentialImportSpec
  pub exec_conditions : List CommandSpec
  pub directories : List DirectorySpec
  pub conditions : List Condition
  pub assertions : List Condition
  pub listeners : List ListenerSpec
  pub file_descriptor_name : Option Text
  pub socket_service : Option Text
  pub socket_accept : Bool
  pub socket_mode : ℕ
  pub socket_user : Option Text
  pub socket_group : Option Text
  pub remove_on_stop : Bool
  pub trigger : Option TriggerSpec
  pub success_exit_status : List ℤ
  pub restart_prevent_exit_status : List ℤ
  pub restart : RestartPolicy
  pub restart_limit : ℕ
  pub start_limit_interval : Option ℕ
  pub start_limit_burst : Option ℕ
  pub start_timeout : ℕ
  pub stop_timeout : ℕ
  pub job_timeout : Option ℕ
  pub job_timeout_action : ManagerAction
  pub runtime_max : Option ℕ
  pub restart_backoff : ℕ
  pub kill_signal : ℤ
  pub restart_kill_signal : Option ℤ
  pub failure_action : ManagerAction
  pub success_action : ManagerAction
  pub send_sighup : Bool
  pub ignore_sigpipe : Bool
  pub kill_mode : KillMode
  pub dependencies : DependencySet
  pub stop_when_unneeded : Bool
  pub requires_mounts_for : List Text
  pub wants_mounts_for : List Text
  pub mount_where : Option Text
  pub mount_filesystem : Option Text
  pub device_path : Option Text
  pub service_type : ServiceType
  pub bus_names : List Text
  pub working_directory : Option Text
  pub pid_file : Option Text
  pub dynamic_user : Bool
  pub user : Option Text
  pub group : Option Text
  pub supplementary_groups : Option (List Text)
  pub capability_bounding_set : Option ℕ
  pub ambient_capabilities : Option ℕ
  pub restrict_address_families : Option ℕ
  pub system_call_filter : Option SystemCallFilter
  pub system_call_architectures : Option SystemCallArchitectures
  pub system_call_error_number : Option ℤ
  pub no_new_privileges : Bool
  pub memory_deny_write_execute : Bool
  pub restrict_realtime : Bool
  pub restrict_suid_sgid : Bool
  pub protect_control_groups : Bool
  pub protect_kernel_modules : Bool
  pub protect_kernel_tunables : Bool
  pub protect_kernel_logs : Bool
  pub protect_clock : Bool
  pub protect_hostname : Bool
  pub lock_personality : Bool
  pub umask : Option ℕ
  pub nice : Option ℤ
  pub oom_score_adjust : Option ℤ
  pub oom_policy : OomPolicy
  pub nofile : Option LimitRange
  pub memlock : Option LimitRange
  pub nproc : Option LimitRange
  pub watchdog : Option ℕ
  pub notify_access : NotifyAccess
  pub private_tmp : PrivateTmpMode
  pub private_devices : Bool
  pub device_policy : DevicePolicy
  pub device_allow : List DeviceAccessRule
  pub delegate : DelegateMode
  pub private_users : PrivateUsersMode
  pub private_mounts : Bool
  pub private_ipc : Bool
  pub private_network : Bool
  pub restrict_namespaces : Option ℕ
  pub protect_system : ProtectSystemMode
  pub protect_home : ProtectHomeMode
  pub protect_proc : ProtectProcMode
  pub proc_subset : ProcSubsetMode
  pub read_write_paths : List Text
  pub read_only_paths : List Text
  pub inaccessible_paths : List Text
  pub standard_input : InputMode
  pub tty_path : Option Text
  pub stdout : OutputMode
  pub stderr : OutputMode
  pub remain_after_exit : Bool
  pub stop : Option CommandSpec
  pub reload : Option CommandSpec
  pub start_pre : List CommandSpec
  pub start_post : List CommandSpec
  pub stop_post : List CommandSpec
  pub cgroup_slice : Option Text
  pub resources : ResourceLimits
