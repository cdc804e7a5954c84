-- ===== src/Config/File.antt =====
-- `NativeFile`: the directives of a declaration by section, the questions about them, and the merge
-- of an overlay.
pub mod Merge
use fractal_d.Base.{
  ℕ, Bool, true, false, not, ◌&&◌, Option, none, some, List, [], ◌∷◌, ◌++◌, Text, codes, text_eq,
  keep, to_ascii_lowercase, if◌then◌else◌,
}
use fractal_d.BTree.Set.{contains}
use fractal_d.BTree.Map.{TextMap, get, insert_key, has_value}
use fractal_d.Config.Schema.{Directive}

pub record NativeFile : Type 0 where
  pub sections : TextMap (List Directive)

-- The pairs that `is_reset_key` matches, by section.
abbrev pub reset_keys : TextMap (List Text)
reset_keys =
    (
      codes "service",
      codes "exec"
          ∷ codes "exec_pre"
          ∷ codes "exec_post"
          ∷ codes "exec_stop_post"
          ∷ codes "exec_condition"
          ∷ codes "environment"
          ∷ codes "environment_file"
          ∷ codes "unset_environment"
          ∷ codes "success_exit_status"
          ∷ codes "restart_prevent_exit_status"
          ∷ codes "bus_name"
          ∷ [],
    )
    ∷ (
      codes "dependencies",
      codes "requires"
          ∷ codes "wants"
          ∷ codes "after"
          ∷ codes "before"
          ∷ codes "conflicts"
          ∷ codes "part_of"
          ∷ codes "binds_to"
          ∷ codes "requisite"
          ∷ codes "on_success"
          ∷ codes "on_failure"
          ∷ codes "requires_mount"
          ∷ codes "wants_mount"
          ∷ [],
    )
    ∷ (codes "credentials", codes "file" ∷ codes "value" ∷ codes "store" ∷ codes "import" ∷ [])
    ∷ []

unfoldable pub is_reset_key : Text → Text → Bool
unfolding get contains to_ascii_lowercase
is_reset_key section key = elim (get reset_keys (to_ascii_lowercase section)) [
  | none ↦ false
  | some keys ↦ contains keys (to_ascii_lowercase key)
]

-- `entry(section).or_default()`
unfoldable pub directives_of : Text → NativeFile → List Directive
unfolding get
directives_of section file = elim (get file.sections section) [ none ↦ [] | some ds ↦ ds ]

unfoldable pub directives : Text → Text → NativeFile → List Directive
unfolding directives_of to_ascii_lowercase
directives section key file =
    keep (λ d. text_eq d.key (to_ascii_lowercase key))
      (directives_of (to_ascii_lowercase section) file)

abbrev pub is_empty : Text → Bool
is_empty [] = true
is_empty (x ∷ xs) = false

-- The loop of `effective_directives`, where an empty value clears what came before.
unfoldable pub effective_from : Bool → List Directive → List Directive → List Directive
effective_from resets effective [] = effective
effective_from resets effective (d ∷ ds) =
    effective_from resets (if is_empty d.value && resets then [] else effective ++ d ∷ []) ds

unfoldable pub effective_directives : Text → Text → NativeFile → List Directive
unfolding directives effective_from is_reset_key
effective_directives section key file =
    effective_from (is_reset_key section key) [] (directives section key file)

unfoldable pub has_section : Text → NativeFile → Bool
unfolding get to_ascii_lowercase
has_section section file = has_value (get file.sections (to_ascii_lowercase section))

-- `self.sections.entry(section).or_default().extend(more)`
unfoldable pub extend_section : Text → List Directive → NativeFile → NativeFile
unfolding directives_of insert_key
extend_section section more file = record {
  sections = insert_key section (directives_of section file ++ more) file.sections;
}

unfoldable pub merge_sections : NativeFile → TextMap (List Directive) → NativeFile
unfolding extend_section
merge_sections file [] = file
merge_sections file ((section, ds) ∷ rest) = merge_sections (extend_section section ds file) rest

unfoldable pub merge : NativeFile → NativeFile → NativeFile
unfolding merge_sections
merge file overlay = merge_sections file overlay.sections

-- `last`
abbrev pub last : List Directive → Option Directive
last [] = none
last (d ∷ []) = some d
last (d ∷ e ∷ ds) = last (e ∷ ds)

abbrev pub text_of : Option Directive → Option Text
text_of none = none
text_of (some d) = if is_empty d.value then none else some d.value

unfoldable pub value : Text → Text → NativeFile → Option Text
unfolding effective_directives
value section key file = text_of (last (effective_directives section key file))
