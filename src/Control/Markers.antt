-- ===== src/Control/Markers.antt =====
-- `StatePaths` and the `service_*` functions: the markers of the services that are enabled or masked,
-- as files named for the service. A directory is the map of its entries, or `none` if it is not there;
-- the calls of `std::fs` fail for what is stored, and not otherwise.
pub mod Effects
pub mod Listing
use fractal_d.Base.{
  ℕ, Bool, true, false, not, ◌&&◌, ◌||◌, Option, none, some, List, [], ◌∷◌, ◌++◌, Text, codes,
  text_eq, any, ◌==◌, is_whitespace, strip_suffix, if◌then◌else◌,
}
use fractal_d.BTree.Map.{TextMap, get, insert_key, remove_key}
use fractal_d.BTree.Set.{TextSet, insert}

pub data Kind : Type 0 where
  file symlink directory special : Kind

pub data Marker : Type 0 where
  enabled_marker masked_marker : Marker

-- The errors, by their kinds and messages.
pub data IoError : Type 0 where
  invalid_name : IoError
  already_a_symlink already_not_a_file is_a_symlink is_not_a_file : Marker → IoError
  cannot_remove_directory : IoError

pub data Io {ℓ} (A : Type ℓ) : Type ℓ where
  ok : A → Io A
  err : IoError → Io A

infixl 5 ◌>>=◌
abbrev pub ◌>>=◌ {ℓ κ} : {A : Type ℓ} {B : Type κ} → Io A → (A → Io B) → Io B
ok a >>= f = f a
err e >>= f = err e

abbrev pub Directory : Type 0
Directory = Option (TextMap Kind)

pub record StatePaths : Type 0 where
  pub enabled : Directory
  pub masked : Directory

abbrev pub is_dots : Text → Bool
is_dots name = text_eq name [] || text_eq name (codes ".") || text_eq name (codes "..")

-- `fs::symlink_metadata(directory.join(name))`; `none` is the error NotFound. An empty name is the
-- directory itself.
unfoldable pub symlink_metadata : Directory → Text → Option Kind
symlink_metadata none name = none
symlink_metadata (some entries) name = if is_dots name then some directory else get entries name

-- `validate_service_name(name).is_ok()`
unfoldable pub is_valid_name : Text → Bool
is_valid_name name =
    not (is_dots name)
    && not (any (λ c. c == b'/') name)
    && not (any (λ c. c == 0 || is_whitespace c) name)

unfoldable pub native_service_name : Text → Text
native_service_name name = elim (strip_suffix (codes ".svc") name) [
  | none ↦ name
  | some stem ↦ stem
]

-- `fs::create_dir_all`
abbrev pub created : Directory → Directory
created none = some []
created (some entries) = some entries

unfoldable pub ensure_directory : StatePaths → StatePaths
ensure_directory s = record { enabled = created s.enabled; masked = created s.masked }

-- `fs::write(path, ...)` of a new file
abbrev pub write_file : Text → Directory → Directory
write_file name none = none
write_file name (some entries) = some (insert_key name file entries)

-- The marker of a name is written, unless it is there.
unfoldable pub mark : Marker → Text → Directory → Directory × Io (Unit {0})
unfolding symlink_metadata
mark marker name d = elim (symlink_metadata d name) [
  | some symlink ↦ (d, err (already_a_symlink marker))
  | some file ↦ (d, ok tt)
  | some directory ↦ (d, err (already_not_a_file marker))
  | some special ↦ (d, err (already_not_a_file marker))
  | none ↦ (write_file name d, ok tt)
]

-- `fs::remove_file`, where a missing file is no error.
unfoldable pub unmark : Text → Directory → Directory × Io (Unit {0})
unfolding symlink_metadata
unmark name none = (none, ok tt)
unmark name (some entries) = elim (symlink_metadata (some entries) name) [
  | none ↦ (some entries, ok tt)
  | some directory ↦ (some entries, err cannot_remove_directory)
  | some other ↦ (some (remove_key name entries), ok tt)
]

unfoldable pub is_marked : Marker → Text → Directory → Io Bool
unfolding symlink_metadata
is_marked marker name d = elim (symlink_metadata d name) [
  | some file ↦ ok true
  | some symlink ↦ err (is_a_symlink marker)
  | some directory ↦ err (is_not_a_file marker)
  | some special ↦ err (is_not_a_file marker)
  | none ↦ ok false
]

abbrev pub with_enabled : StatePaths → Directory × Io (Unit {0}) → StatePaths × Io (Unit {0})
with_enabled s (d, r) = (record s { enabled = d }, r)

abbrev pub with_masked : StatePaths → Directory × Io (Unit {0}) → StatePaths × Io (Unit {0})
with_masked s (d, r) = (record s { masked = d }, r)

unfoldable pub enable : Text → StatePaths → StatePaths × Io (Unit {0})
unfolding mark ensure_directory
enable name s =
    if is_valid_name name
    then (let s' = ensure_directory s in
        with_enabled s' (mark enabled_marker (native_service_name name) s'.enabled))
    else (s, err invalid_name)

unfoldable pub mask : Text → StatePaths → StatePaths × Io (Unit {0})
unfolding mark ensure_directory
mask name s =
    if is_valid_name name
    then (let s' = ensure_directory s in
        with_masked s' (mark masked_marker (native_service_name name) s'.masked))
    else (s, err invalid_name)

unfoldable pub disable : Text → StatePaths → StatePaths × Io (Unit {0})
unfolding unmark
disable name s =
    if is_valid_name name
    then with_enabled s (unmark (native_service_name name) s.enabled)
    else (s, err invalid_name)

unfoldable pub unmask : Text → StatePaths → StatePaths × Io (Unit {0})
unfolding unmark
unmask name s =
    if is_valid_name name
    then with_masked s (unmark (native_service_name name) s.masked)
    else (s, err invalid_name)

unfoldable pub is_enabled : Text → StatePaths → Io Bool
unfolding is_marked
is_enabled name s =
    if is_valid_name name
    then is_marked enabled_marker (native_service_name name) s.enabled
    else err invalid_name

unfoldable pub is_masked : Text → StatePaths → Io Bool
unfolding is_marked
is_masked name s =
    if is_valid_name name
    then is_marked masked_marker (native_service_name name) s.masked
    else err invalid_name

abbrev pub is_file : Kind → Bool
is_file file = true
is_file other = false

-- The names of the regular files among the entries that are valid names, sorted.
unfoldable pub marker_names : TextMap Kind → TextSet
marker_names [] = []
marker_names ((name, kind) ∷ entries) =
    let rest = marker_names entries in
    if is_file kind && is_valid_name name then insert name rest else rest

unfoldable pub enabled_names : StatePaths → TextSet
unfolding marker_names
enabled_names s = elim s.enabled [ none ↦ [] | some entries ↦ marker_names entries ]

-- The loop over the directories: the first of them with an entry decides.
unfoldable pub first_decides : Text → List Directory → Bool
unfolding symlink_metadata
first_decides name [] = false
first_decides name (d ∷ ds) = elim (symlink_metadata d name) [
  | none ↦ first_decides name ds
  | some kind ↦ is_file kind
]

abbrev pub reversed : List Directory → List Directory
reversed [] = []
reversed (d ∷ ds) = reversed ds ++ d ∷ []

unfoldable pub service_is_enabled : Text → List Directory → Io Bool
unfolding first_decides
service_is_enabled name directories =
    let native = native_service_name name in
    if is_valid_name native
    then ok (first_decides (native ++ codes ".enabled") directories)
    else err invalid_name

unfoldable pub service_is_masked : Text → List Directory → Io Bool
unfolding first_decides
service_is_masked name directories =
    let native = native_service_name name in
    if is_valid_name native
    then ok (first_decides (native ++ codes ".masked") (reversed directories))
    else err invalid_name

-- `file_name.strip_suffix(".enabled")` of each entry, valid and a regular file.
unfoldable pub enabled_entries : TextMap Kind → TextSet → TextSet
enabled_entries [] names = names
enabled_entries ((file_name, kind) ∷ entries) names =
    enabled_entries entries (elim (strip_suffix (codes ".enabled") file_name) [
      | none ↦ names
      | some name ↦ if is_valid_name name && is_file kind then insert name names else names
    ])

unfoldable pub service_enabled_names : List Directory → TextSet → TextSet
unfolding enabled_entries
service_enabled_names [] names = names
service_enabled_names (none ∷ ds) names = service_enabled_names ds names
service_enabled_names (some entries ∷ ds) names =
    service_enabled_names ds (enabled_entries entries names)
