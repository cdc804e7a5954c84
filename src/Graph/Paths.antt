-- ===== src/Graph/Paths.antt =====
-- crates/fractald-core/src/graph.rs `normalize_absolute_path`, and crates/fractald-core/src/lib.rs
-- `expand_mount_path`. A normalised absolute path is the list of its names below the root.
use fractal_d.Base.{
  ℕ, Bool, true, false, not, ◌&&◌, ◌||◌, Option, none, some, List, [], ◌∷◌, ◌++◌, map, Text, codes,
  text_eq, strip_suffix, rsplit_once, split_slash, is_absolute, ◌==◌, if◌then◌else◌,
}
use fractal_d.Spec.{ServiceSpec}

-- `PathBuf::pop` on a path below the root
unfoldable pub drop_last : List Text → List Text
drop_last [] = []
drop_last (x ∷ []) = []
drop_last (x ∷ y ∷ ys) = x ∷ drop_last (y ∷ ys)

-- The loop over the components. Repeated slashes and `.` are no components of an absolute path.
unfoldable pub normalize_pieces : List Text → List Text → List Text
unfolding text_eq drop_last
normalize_pieces normalized [] = normalized
normalize_pieces normalized (piece ∷ pieces) =
    normalize_pieces
      (if text_eq piece [] || text_eq piece (codes ".")
        then normalized
        else if text_eq piece (codes "..")
        then drop_last normalized
        else normalized ++ piece ∷ [])
      pieces

unfoldable pub normalize_absolute_path : Text → Option (List Text)
unfolding split_slash normalize_pieces
normalize_absolute_path path =
    if not (is_absolute path) then none else some (normalize_pieces [] (split_slash path))

-- `Path::starts_with`, by whole components
unfoldable pub path_starts_with : List Text → List Text → Bool
unfolding text_eq
path_starts_with path [] = true
path_starts_with [] (y ∷ ys) = false
path_starts_with (x ∷ xs) (y ∷ ys) = text_eq x y && path_starts_with xs ys

-- The process environment, as far as mount paths refer to it.
pub record Environment : Type 0 where
  pub fractald_runtime_dir : Option Text
  pub xdg_runtime_dir : Option Text
  pub fractald_state_dir : Option Text
  pub xdg_state_home : Option Text
  pub home : Option Text

abbrev pub or_else {ℓ} : {A : Type ℓ} → Option A → A → A
or_else none d = d
or_else (some a) d = a

abbrev pub or_option {ℓ} : {A : Type ℓ} → Option A → Option A → Option A
or_option none o = o
or_option (some a) o = some a

abbrev pub service_stem : ServiceSpec → Text
service_stem spec = or_else (strip_suffix (codes ".svc") spec.name) spec.name

-- What stands for a specifier: itself behind `%`, if it is unknown.
unfoldable pub replacement : Environment → ServiceSpec → ℕ → Text
unfolding strip_suffix rsplit_once
replacement env spec c =
    let stem = service_stem spec in
    let split = rsplit_once stem b'@' in
    if c == b'%'
    then codes "%"
    else if c == b'n'
    then spec.name
    else if c == b'N'
    then stem
    else if c == b'p' || c == b'P'
    then elim split [ some (prefix, instance_name) ↦ prefix | none ↦ stem ]
    else if c == b'i' || c == b'I' || c == b'f'
    then elim split [ some (prefix, instance_name) ↦ instance_name | none ↦ [] ]
    else if c == b't'
    then or_else (or_option env.fractald_runtime_dir env.xdg_runtime_dir) (codes "/run")
    else if c == b'S'
    then or_else (or_option env.fractald_state_dir env.xdg_state_home) (codes "/var/lib/fractald")
    else if c == b'h'
    then or_else env.home (codes "/root")
    else b'%' ∷ c ∷ []

unfoldable pub expand_text : Environment → ServiceSpec → Text → Text
unfolding replacement
expand_text env spec [] = []
expand_text env spec (c ∷ []) = c ∷ []
expand_text env spec (c ∷ d ∷ rest) = elim (c == b'%') [
  | true ↦ replacement env spec d ++ expand_text env spec rest
  | false ↦ c ∷ expand_text env spec (d ∷ rest)
]

unfoldable pub expand_mount_path : Environment → Text → ServiceSpec → Text
unfolding expand_text
expand_mount_path env path spec = expand_text env spec path

unfoldable pub expanded_requires_mounts_for : Environment → ServiceSpec → List Text
unfolding expand_mount_path
expanded_requires_mounts_for env spec =
    map (λ path. expand_mount_path env path spec) spec.requires_mounts_for

unfoldable pub expanded_wants_mounts_for : Environment → ServiceSpec → List Text
unfolding expand_mount_path
expanded_wants_mounts_for env spec =
    map (λ path. expand_mount_path env path spec) spec.wants_mounts_for
