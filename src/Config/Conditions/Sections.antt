-- ===== src/Config/Conditions/Sections.antt =====
-- The sections `conditions` and `assertions`.
use fractal_d.Base.{Bool, List, [], ◌∷◌, ◌++◌, Text, codes, if◌then◌else◌}
use fractal_d.BTree.Map.{TextMap}
use fractal_d.Config.Error.{at, Parsed, ok, err, ◌>>=◌}
use fractal_d.Config.Schema.{Directive}
use fractal_d.Config.File.{NativeFile, effective_directives, is_empty}
use fractal_d.Config.Values.{parse_bool}
use fractal_d.Config.Words.{split_words}
use fractal_d.Config.Conditions.{
  condition_prefix, push_condition, parse_environment_condition, parse_needs_update_path,
}
use fractal_d.Spec.{ServiceSpec}
use fractal_d.Spec.Condition.{Condition}

-- An arm of the `match` on the kind, given the key, the value and whether it is negated.
abbrev pub Kind : Type 0
Kind = Text → Text → Bool → Parsed Condition

abbrev pub plain : (Text → Bool → Condition) → Kind
plain make key text negate = ok (make text negate)

abbrev pub on_bool : (Bool → Bool → Condition) → Kind
on_bool make key text negate = parse_bool text key >>= λ b. ok (make b negate)

abbrev pub on_environment : Kind
on_environment key text negate =
    parse_environment_condition text key >>= λ pair. ok (Condition.environment pair.0 pair.1 negate)

abbrev pub on_update : Kind
on_update key text negate =
    parse_needs_update_path text key >>= λ path. ok (Condition.needs_update path negate)

abbrev pub kinds : TextMap Kind
kinds =
    (codes "path_exists", (plain Condition.path_exists))
    ∷ (codes "path_exists_glob", (plain Condition.path_exists_glob))
    ∷ (codes "directory_not_empty", (plain Condition.directory_not_empty))
    ∷ (codes "executable", (plain Condition.file_is_executable))
    ∷ (codes "read_write", (plain Condition.path_is_read_write))
    ∷ (codes "directory", (plain Condition.path_is_directory))
    ∷ (codes "file_not_empty", (plain Condition.file_not_empty))
    ∷ (codes "mount_point", (plain Condition.path_is_mount_point))
    ∷ (codes "symlink", (plain Condition.path_is_symbolic_link))
    ∷ (codes "kernel_command_line", (plain Condition.kernel_command_line))
    ∷ (codes "virtualization", (plain Condition.virtualization))
    ∷ (codes "security", (plain Condition.security))
    ∷ (codes "ac_power", (on_bool Condition.ac_power))
    ∷ (codes "capability", (plain Condition.capability))
    ∷ (codes "kernel_module", (plain Condition.kernel_module_loaded))
    ∷ (codes "firmware", (plain Condition.firmware))
    ∷ (codes "first_boot", (on_bool Condition.first_boot))
    ∷ (codes "credential", (plain Condition.credential))
    ∷ (codes "cgroup_controller", (plain Condition.control_group_controller))
    ∷ (codes "environment", on_environment)
    ∷ (codes "needs_update", on_update)
    ∷ []

-- The loop over the words of a value
unfoldable pub read_conditions :
    Text → Text → Kind → Directive → List Text → List Condition → Parsed (List Condition)
unfolding condition_prefix push_condition
read_conditions section key kind d [] destination = ok destination
read_conditions section key kind d (raw ∷ rest) destination =
    let (alternative, negate, text) = condition_prefix raw in
    if is_empty text
    then err (at d.line (section ++ b'.' ∷ (key ++ codes " is empty")))
    else (kind key text negate >>= λ condition.
        read_conditions section key kind d rest (push_condition destination condition alternative))

-- The loop over the directives of a key
unfoldable pub read_directives :
    Text → Text → Kind → List Directive → List Condition → Parsed (List Condition)
unfolding read_conditions
read_directives section key kind [] destination = ok destination
read_directives section key kind (d ∷ ds) destination = split_words d.value d.line >>= λ words.
    read_conditions section key kind d words destination >>= read_directives section key kind ds

-- The loop over the keys
unfoldable pub read_kinds :
    NativeFile → Text → TextMap Kind → List Condition → Parsed (List Condition)
unfolding read_directives effective_directives
read_kinds file section [] destination = ok destination
read_kinds file section ((key, kind) ∷ rest) destination =
    read_directives section key kind (effective_directives section key file) destination
    >>= read_kinds file section rest

unfoldable pub parse_condition_section :
    NativeFile → Text → List Condition → Parsed (List Condition)
unfolding read_kinds
parse_condition_section file section destination = read_kinds file section kinds destination

unfoldable pub parse_conditions : NativeFile → ServiceSpec → Parsed ServiceSpec
unfolding parse_condition_section
parse_conditions file spec =
    parse_condition_section file (codes "conditions") spec.conditions >>= λ conditions.
    parse_condition_section file (codes "assertions") spec.assertions >>= λ assertions.
    ok (record spec { conditions = conditions; assertions = assertions })
