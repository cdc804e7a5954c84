-- ===== src/Spec/Condition.antt =====
-- crates/fractald-core/src/lib.rs: the conditions and assertions of a descriptor.
use fractal_d.Base.{Bool, Option, Text}

mutual
  pub data Condition : Type 0 where
    any_of : Conditions → Condition
    path_exists : Text → Bool → Condition
    path_exists_glob : Text → Bool → Condition
    directory_not_empty : Text → Bool → Condition
    file_is_executable : Text → Bool → Condition
    path_is_read_write : Text → Bool → Condition
    path_is_directory : Text → Bool → Condition
    file_not_empty : Text → Bool → Condition
    path_is_mount_point : Text → Bool → Condition
    path_is_symbolic_link : Text → Bool → Condition
    kernel_command_line : Text → Bool → Condition
    virtualization : Text → Bool → Condition
    security : Text → Bool → Condition
    ac_power : Bool → Bool → Condition
    capability : Text → Bool → Condition
    kernel_module_loaded : Text → Bool → Condition
    firmware : Text → Bool → Condition
    first_boot : Bool → Bool → Condition
    credential : Text → Bool → Condition
    control_group_controller : Text → Bool → Condition
    environment : Text → Option Text → Bool → Condition
    needs_update : Text → Bool → Condition

  -- `Vec<Condition>`
  pub data Conditions : Type 0 where
    nil : Conditions
    cons : Condition → Conditions → Conditions
