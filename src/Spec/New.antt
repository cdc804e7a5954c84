-- ===== src/Spec/New.antt =====
-- crates/fractald-core/src/lib.rs: the descriptor before a file says more.
use fractal_d.Base.{true, false, none, [], Text, ℤ, pos}
use fractal_d.Spec.Limits.{no_limits}
use fractal_d.Spec.Modes.{
  OomPolicy, ManagerAction, ServiceType, KillMode, DevicePolicy, DelegateMode, PrivateUsersMode,
  NotifyAccess, OutputMode, InputMode, PrivateTmpMode, ProtectSystemMode, ProtectHomeMode,
  ProtectProcMode, ProcSubsetMode,
}
use fractal_d.Spec.Policy.{RestartPolicy}
use fractal_d.Spec.Types.{DependencySet, ServiceSpec}

abbrev pub sigterm : ℤ
sigterm = pos 15

abbrev pub no_dependencies : DependencySet
no_dependencies = record {
  requires = [];
  wants = [];
  after = [];
  before = [];
  conflicts = [];
  part_of = [];
  binds_to = [];
  requisite = [];
  on_success = [];
  on_failure = [];
}

-- `ServiceSpec::new`
abbrev pub new : Text → Text → ServiceSpec
new name program = record {
  name = name;
  aliases = [];
  profiles = [];
  default_dependencies = true;
  allow_isolate = false;
  ignore_on_isolate = false;
  refuse_manual_start = false;
  refuse_manual_stop = false;
  program = program;
  args = [];
  main_ignore_failure = false;
  main_argv0 = none;
  main_expand_environment = true;
  environment = [];
  unset_environment = [];
  environment_files = [];
  credentials = [];
  credential_imports = [];
  exec_conditions = [];
  directories = [];
  conditions = [];
  assertions = [];
  listeners = [];
  file_descriptor_name = none;
  socket_service = none;
  socket_accept = false;
  socket_mode = 0o666;
  socket_user = none;
  socket_group = none;
  remove_on_stop = false;
  trigger = none;
  success_exit_status = [];
  restart_prevent_exit_status = [];
  restart = RestartPolicy.never;
  restart_limit = 5;
  start_limit_interval = none;
  start_limit_burst = none;
  start_timeout = 30_000_000_000;
  stop_timeout = 5_000_000_000;
  job_timeout = none;
  job_timeout_action = ManagerAction.none;
  runtime_max = none;
  restart_backoff = 250_000_000;
  kill_signal = sigterm;
  restart_kill_signal = none;
  failure_action = ManagerAction.none;
  success_action = ManagerAction.none;
  send_sighup = false;
  ignore_sigpipe = true;
  kill_mode = KillMode.control_group;
  dependencies = no_dependencies;
  stop_when_unneeded = false;
  requires_mounts_for = [];
  wants_mounts_for = [];
  mount_where = none;
  mount_filesystem = none;
  device_path = none;
  service_type = ServiceType.simple;
  bus_names = [];
  working_directory = none;
  pid_file = none;
  dynamic_user = false;
  user = none;
  group = none;
  supplementary_groups = none;
  capability_bounding_set = none;
  ambient_capabilities = none;
  restrict_address_families = none;
  system_call_filter = none;
  system_call_architectures = none;
  system_call_error_number = none;
  no_new_privileges = false;
  memory_deny_write_execute = false;
  restrict_realtime = false;
  restrict_suid_sgid = false;
  protect_control_groups = false;
  protect_kernel_modules = false;
  protect_kernel_tunables = false;
  protect_kernel_logs = false;
  protect_clock = false;
  protect_hostname = false;
  lock_personality = false;
  umask = none;
  nice = none;
  oom_score_adjust = none;
  oom_policy = OomPolicy.continue;
  nofile = none;
  memlock = none;
  nproc = none;
  watchdog = none;
  notify_access = NotifyAccess.none;
  private_tmp = PrivateTmpMode.no;
  private_devices = false;
  device_policy = DevicePolicy.auto;
  device_allow = [];
  delegate = DelegateMode.no;
  private_users = PrivateUsersMode.no;
  private_mounts = false;
  private_ipc = false;
  private_network = false;
  restrict_namespaces = none;
  protect_system = ProtectSystemMode.no;
  protect_home = ProtectHomeMode.no;
  protect_proc = ProtectProcMode.default;
  proc_subset = ProcSubsetMode.all;
  read_write_paths = [];
  read_only_paths = [];
  inaccessible_paths = [];
  standard_input = InputMode.null;
  tty_path = none;
  stdout = OutputMode.journal;
  stderr = OutputMode.journal;
  remain_after_exit = false;
  stop = none;
  reload = none;
  start_pre = [];
  start_post = [];
  stop_post = [];
  cgroup_slice = none;
  resources = no_limits;
}
