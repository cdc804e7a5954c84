-- ===== src/Spec/Modes.antt =====
-- crates/fractald-core/src/lib.rs: the modes that a descriptor chooses from.
use fractal_d.Base.{ℕ, Bool, List, Text, ℤ}

pub data OomPolicy : Type 0 where
  continue : OomPolicy
  stop : OomPolicy
  kill : OomPolicy

pub data ManagerAction : Type 0 where
  none : ManagerAction
  exit : ManagerAction
  halt : ManagerAction
  halt_force : ManagerAction
  poweroff : ManagerAction
  poweroff_force : ManagerAction
  reboot : ManagerAction
  reboot_force : ManagerAction
  kexec : ManagerAction
  kexec_force : ManagerAction
  soft_reboot : ManagerAction
  soft_reboot_force : ManagerAction

pub data ServiceType : Type 0 where
  simple : ServiceType
  forking : ServiceType
  oneshot : ServiceType
  notify : ServiceType
  dbus : ServiceType
  idle : ServiceType
  socket : ServiceType
  timer : ServiceType
  path : ServiceType
  mount : ServiceType
  swap : ServiceType

pub data KillMode : Type 0 where
  control_group : KillMode
  process : KillMode
  mixed : KillMode
  none : KillMode

pub data DevicePolicy : Type 0 where
  auto : DevicePolicy
  closed : DevicePolicy
  strict : DevicePolicy

pub record DeviceAccessRule : Type 0 where
  pub device : Text
  pub access : ℕ

pub data DelegateMode : Type 0 where
  no : DelegateMode
  all : DelegateMode
  controllers : List Text → DelegateMode

pub data PrivateUsersMode : Type 0 where
  no : PrivateUsersMode
  self_mapping : PrivateUsersMode
  identity : PrivateUsersMode
  full : PrivateUsersMode

pub data NotifyAccess : Type 0 where
  none : NotifyAccess
  main : NotifyAccess
  exec : NotifyAccess
  all : NotifyAccess

pub data OutputMode : Type 0 where
  journal : OutputMode
  null : OutputMode
  inherit : OutputMode
  tty : OutputMode
  socket : OutputMode
  file : Text → Bool → OutputMode

pub data InputMode : Type 0 where
  null : InputMode
  inherit : InputMode
  tty : InputMode
  file : Text → InputMode
  socket : InputMode

pub data PrivateTmpMode : Type 0 where
  no : PrivateTmpMode
  yes : PrivateTmpMode
  disconnected : PrivateTmpMode

pub data ProtectSystemMode : Type 0 where
  no : ProtectSystemMode
  yes : ProtectSystemMode
  full : ProtectSystemMode
  strict : ProtectSystemMode

pub data ProtectHomeMode : Type 0 where
  no : ProtectHomeMode
  yes : ProtectHomeMode
  read_only : ProtectHomeMode
  tmpfs : ProtectHomeMode

pub data ProtectProcMode : Type 0 where
  default : ProtectProcMode
  no_access : ProtectProcMode
  invisible : ProtectProcMode
  ptraceable : ProtectProcMode

pub data ProcSubsetMode : Type 0 where
  all : ProcSubsetMode
  pid : ProcSubsetMode

pub data SystemCallRuleAction : Type 0 where
  allow : SystemCallRuleAction
  deny : SystemCallRuleAction
  deny_with_errno : ℤ → SystemCallRuleAction

pub record SystemCallRule : Type 0 where
  pub name : Text
  pub action : SystemCallRuleAction

pub record SystemCallFilter : Type 0 where
  pub default_allow : Bool
  pub rules : List SystemCallRule

pub data SystemCallArchitectures : Type 0 where
  native : SystemCallArchitectures
  x86_64 : SystemCallArchitectures
  all : SystemCallArchitectures
