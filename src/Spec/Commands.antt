-- ===== src/Spec/Commands.antt =====
-- crates/fractald-core/src/lib.rs: commands, credentials, directories, listeners and triggers.
use fractal_d.Base.{ℕ, Bool, Option, List, Text}

pub record CommandSpec : Type 0 where
  pub program : Text
  pub args : List Text
  pub ignore_failure : Bool
  pub argv0 : Option Text
  pub expand_environment : Bool

pub record EnvironmentFileSpec : Type 0 where
  pub path : Text
  pub optional : Bool

pub data CredentialSource : Type 0 where
  file : Text → CredentialSource
  store : Text → CredentialSource
  value : List ℕ → CredentialSource

pub record CredentialSpec : Type 0 where
  pub name : Text
  pub source : CredentialSource

pub record CredentialImportSpec : Type 0 where
  pub pattern : Text
  pub rename : Option Text

pub data ListenerKind : Type 0 where
  stream : ListenerKind
  datagram : ListenerKind
  sequential_packet : ListenerKind
  fifo : ListenerKind
  netlink : ListenerKind
  special : ListenerKind

pub record ListenerSpec : Type 0 where
  pub kind : ListenerKind
  pub address : Text

pub data PathWatch : Type 0 where
  changed : Text → PathWatch
  modified : Text → PathWatch
  exists : Text → PathWatch
  exists_glob : Text → PathWatch
  directory_not_empty : Text → PathWatch

pub data TriggerSpec : Type 0 where
  timer :
      Text → Option ℕ → Option ℕ → Option ℕ → List Text → Bool → Option ℕ → Option ℕ → TriggerSpec
  path : Text → List PathWatch → TriggerSpec

pub data DirectoryKind : Type 0 where
  configuration : DirectoryKind
  runtime : DirectoryKind
  state : DirectoryKind
  cache : DirectoryKind
  logs : DirectoryKind

pub record DirectorySpec : Type 0 where
  pub kind : DirectoryKind
  pub path : Text
  pub mode : ℕ
  pub preserve : Bool
