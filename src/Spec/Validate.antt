-- ===== src/Spec/Validate.antt =====
-- crates/fractald-core/src/lib.rs: `ServiceSpec::validate` and the name checks under it. `none` is
-- `Ok(())`, and `some e` is `Err(e)`.
pub mod Sound
use fractal_d.Base.{
  ℕ, ◌+◌, Bool, true, false, not, ◌&&◌, ◌||◌, Option, none, some, List, [], ◌∷◌, Text, codes, ℤ,
  text_eq, ltb, leb, ◌==◌, any, count_by, strip_suffix, split_slash, is_absolute, is_whitespace,
  is_control, is_ascii_alphanumeric, byte_len, is_not_positive, if◌then◌else◌,
}
use fractal_d.BTree.Set.{contains, insert}
use fractal_d.Spec.Commands.{
  CredentialSpec, CredentialSource, CredentialImportSpec, file, store, value,
}
use fractal_d.Spec.Types.{ServiceSpec}

pub data SpecError : Type 0 where
  empty_name : SpecError
  invalid_name : Text → SpecError
  empty_program : SpecError
  zero_start_timeout : SpecError
  zero_stop_timeout : SpecError
  invalid_kill_signal : ℤ → SpecError
  invalid_read_write_path : Text → SpecError
  invalid_read_only_path : Text → SpecError
  invalid_inaccessible_path : Text → SpecError
  invalid_device_path : Text → SpecError
  invalid_alias : Text → SpecError
  invalid_slice : Text → SpecError
  invalid_file_descriptor_name : Text → SpecError
  invalid_credential : Text → SpecError

abbrev pub is_empty : Text → Bool
is_empty [] = true
is_empty (x ∷ xs) = false

-- `trim().is_empty()`
unfoldable pub is_blank : Text → Bool
is_blank [] = true
is_blank (c ∷ cs) = is_whitespace c && is_blank cs

abbrev pub has_char : Text → ℕ → Bool
has_char t c = any (λ x. x == c) t

-- White space, a control character, a slash, or a name for a directory.
unfoldable pub is_unsafe_name : Text → Bool
is_unsafe_name name =
    any (λ c. is_whitespace c || is_control c) name
    || has_char name b'/'
    || text_eq name (codes ".")
    || text_eq name (codes "..")

unfoldable pub valid_slice_name : Text → Bool
valid_slice_name name =
    if text_eq name (codes "-.slice") then true else elim (strip_suffix (codes ".slice") name) [
      | none ↦ false
      | some stem ↦
          ltb 6 (byte_len name)
          && not (is_empty stem)
          && not (has_char name b'/')
          && not (has_char name 0)
          && not (any (λ c. is_whitespace c || is_control c) name)
    ]

unfoldable pub valid_file_descriptor_name : Text → Bool
valid_file_descriptor_name name =
    not (is_empty name)
    && leb (byte_len name) 255
    && not (any (λ c. leb 0x80 c) name)
    && not (has_char name b':')
    && not (any is_control name)

abbrev pub is_name_char : ℕ → Bool
is_name_char c = is_ascii_alphanumeric c || c == b'_' || c == b'-' || c == b'.'

abbrev pub is_reserved_name : Text → Bool
is_reserved_name name =
    is_empty name
    || text_eq name (codes ".")
    || text_eq name (codes "..")
    || text_eq name (codes ".fractald-owner")

unfoldable pub valid_credential_name : Text → Bool
valid_credential_name name =
    not (is_reserved_name name) && not (any (λ c. not (is_name_char c)) name)

abbrev pub is_specifier : ℕ → Bool
is_specifier c = has_char (codes "%nNpPiIfuUvbmH") c

-- The loop over the characters, where `%` takes the next one with it.
unfoldable pub template_chars : Text → Bool
template_chars [] = true
template_chars (c ∷ []) = not (c == b'%') && is_name_char c
template_chars (c ∷ d ∷ rest) = elim (c == b'%') [
  | true ↦ is_specifier d && template_chars rest
  | false ↦ is_name_char c && template_chars (d ∷ rest)
]

unfoldable pub valid_credential_name_template : Text → Bool
valid_credential_name_template name = not (is_reserved_name name) && template_chars name

unfoldable pub valid_credential_import_pattern : Text → Bool
valid_credential_import_pattern name =
    let wildcard_count = count_by (λ c. c == b'*') name in
    if ltb 1 wildcard_count || any (λ c. c == b'?' || c == b'[' || c == b']') name
    then false
    else elim (strip_suffix (codes "*") name) [
      | some prefix ↦ is_empty prefix || valid_credential_name_template prefix
      | none ↦ wildcard_count == 0 && valid_credential_name_template name
    ]

unfoldable pub valid_credential_import_rename : Text → Bool
valid_credential_import_rename name =
    valid_credential_name_template name && not (has_char name b'*')

abbrev pub is_bad_source : CredentialSource → Bool
is_bad_source (file path) = is_empty path
is_bad_source (store name) = not (valid_credential_name_template name)
is_bad_source (value bytes) = false

-- `credential_names.insert` says false for a name that is there.
unfoldable pub find_bad_credential : List Text → List CredentialSpec → Option Text
find_bad_credential seen [] = none
find_bad_credential seen (c ∷ cs) =
    let rest = find_bad_credential (insert c.name seen) cs in
    if not (valid_credential_name c.name) || is_bad_source c.source || contains seen c.name
    then some c.name
    else rest

abbrev pub is_bad_import : CredentialImportSpec → Bool
is_bad_import i =
    not (valid_credential_import_pattern i.pattern)
    || elim i.rename [ none ↦ false | some name ↦ not (valid_credential_import_rename name) ]

unfoldable pub find_bad_import : List CredentialImportSpec → Option Text
find_bad_import [] = none
find_bad_import (i ∷ is) =
    let rest = find_bad_import is in if is_bad_import i then some i.pattern else rest

-- A relative path, or one with a parent component.
unfoldable pub is_unsafe_path : Text → Bool
is_unsafe_path path =
    not (is_absolute path) || any (λ piece. text_eq piece (codes "..")) (split_slash path)

-- `iter().find(...)`
abbrev pub find {ℓ} : {A : Type ℓ} → (A → Bool) → List A → Option A
find p [] = none
find p (x ∷ xs) = if p x then some x else find p xs

-- The first error of two checks in turn.
infixr 6 ◌or_else◌
unfoldable pub ◌or_else◌ : Option SpecError → Option SpecError → Option SpecError
some e or_else r = some e
none or_else r = r

-- An error about the value that a search found.
unfoldable pub report {ℓ} : {A : Type ℓ} → (A → SpecError) → Option A → Option SpecError
report f none = none
report f (some a) = some (f a)

-- The value, if it is there and fails the check.
abbrev pub failing {ℓ} : {A : Type ℓ} → (A → Bool) → Option A → Option A
failing bad none = none
failing bad (some a) = if bad a then some a else none

unfoldable pub fails_if : Bool → SpecError → Option SpecError
fails_if true e = some e
fails_if false e = none

unfoldable pub validate : ServiceSpec → Option SpecError
validate spec =
    fails_if (is_blank spec.name) empty_name
    or_else fails_if (is_unsafe_name spec.name) (invalid_name spec.name)
    or_else fails_if (is_empty spec.program) empty_program
    or_else report invalid_alias (find (λ a. is_blank a || is_unsafe_name a) spec.aliases)
    or_else report invalid_slice (failing (λ s. not (valid_slice_name s)) spec.cgroup_slice)
    or_else report invalid_file_descriptor_name
        (failing (λ s. not (valid_file_descriptor_name s)) spec.file_descriptor_name)
    or_else report invalid_credential (find_bad_credential [] spec.credentials)
    or_else report invalid_credential (find_bad_import spec.credential_imports)
    or_else report invalid_read_write_path (find is_unsafe_path spec.read_write_paths)
    or_else report invalid_read_only_path (find is_unsafe_path spec.read_only_paths)
    or_else report invalid_inaccessible_path (find is_unsafe_path spec.inaccessible_paths)
    or_else report invalid_device_path (failing is_unsafe_path spec.device_path)
    or_else fails_if (is_not_positive spec.kill_signal) (invalid_kill_signal spec.kill_signal)
    or_else report invalid_kill_signal (failing is_not_positive spec.restart_kill_signal)
