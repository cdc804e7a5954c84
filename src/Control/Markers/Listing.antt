-- ===== src/Control/Markers/Listing.antt =====
-- The lists of enabled services beside the questions about one.
use fractal_d.Base.{
  ◌≡◌, refl, ◌∙◌, ap, subst, Bool, true, false, ◌&&◌, Option, none, some, List, [], ◌∷◌, ◌++◌,
  arith, Text, codes, text_eq, text_eq_iff, text_eq_refl, length, length-append, strip_suffix,
  Bool-cases, Option-cases, inl, inr,
}
use fractal_d.BTree.Map.{TextMap, get, keys, contains-keys}
use fractal_d.BTree.Set.{
  TextSet, contains, insert, contains-insert, IsAscending, IsDistinct, ascending-IsDistinct,
  insert-IsAscending,
}
use fractal_d.Control.Markers.{
  Kind, file, ok, Directory, StatePaths, is_dots, symlink_metadata, is_valid_name,
  native_service_name, is_file, marker_names, enabled_names, first_decides, service_is_enabled,
  enabled_entries, service_enabled_names,
}
use fractal_d.Control.Markers.Effects.{Holds}

abbrev listed : Option Kind → Bool
listed none = false
listed (some kind) = is_file kind

contains-marker_names :
    (entries : TextMap Kind) (n : Text)
    → IsDistinct (keys entries)
    → contains (marker_names entries) n ≡ (listed (get entries n) && is_valid_name n)
unfolding marker_names get keys contains
contains-marker_names [] n d = refl
contains-marker_names ((k, kind) ∷ m) n d = ground (
  arith,
  contains-marker_names m n d.1,
  contains-insert k n (marker_names m),
  contains-keys m n,
  text_eq_iff k n,
  d.0,
)

marker_names-IsAscending : (entries : TextMap Kind) → IsAscending (marker_names entries)
unfolding marker_names
marker_names-IsAscending [] = tt
marker_names-IsAscending ((k, kind) ∷ m) =
    ground (arith, marker_names-IsAscending m, insert-IsAscending k (marker_names m))

directory_names : Directory → TextSet
directory_names none = []
directory_names (some entries) = marker_names entries

directory_names_lem :
    (d : Directory) (f : Text → Bool)
    → Holds d f
    → IsAscending (directory_names d)
      × ((n : Text) → contains (directory_names d) n ≡ (f n && is_valid_name n))
unfolding directory_names contains
directory_names_lem none f h = (tt, λ n. ground (arith, h n))
directory_names_lem (some entries) f h = (
  marker_names-IsAscending entries,
  λ n.
      ground
        (arith, contains-marker_names entries n (ascending-IsDistinct (keys entries) h.0), h.1 n),
)

directory_names-eq : (s : StatePaths) → directory_names s.enabled ≡ enabled_names s
unfolding directory_names enabled_names
directory_names-eq s = ground arith

-- Where the directory of the enabled services holds a set, `enabled_names` lists in order, once
-- each, the names of the set that are valid.
pub enabled_names_lem :
    (s : StatePaths) (f : Text → Bool)
    → Holds s.enabled f
    → IsAscending (enabled_names s)
      × ((n : Text) → contains (enabled_names s) n ≡ (f n && is_valid_name n))
enabled_names_lem s f h =
    subst (λ l. IsAscending l × ((n : Text) → contains l n ≡ (f n && is_valid_name n)))
      (directory_names-eq s) (directory_names_lem s.enabled f h)

append-eq_self : (xs ys : Text) → (xs ++ ys) ≡ ys → xs ≡ []
append-eq_self [] ys h = refl
append-eq_self (x ∷ xs) ys h = absurd (omega (arith, ap length h, length-append (x ∷ xs) ys))

strip_suffix-append : (suffix xs : Text) → strip_suffix suffix (xs ++ suffix) ≡ some xs
unfolding strip_suffix
strip_suffix-append [] [] = refl
strip_suffix-append (s ∷ ss) [] = ground (arith, text_eq_refl (s ∷ ss))
strip_suffix-append suffix (x ∷ xs) = ground (
  arith,
  strip_suffix-append suffix xs,
  text_eq_iff (x ∷ (xs ++ suffix)) suffix,
  append-eq_self (x ∷ xs) suffix,
)

-- The names that stand for an enabled service in one directory, and in several.
contains-enabled_entries :
    (entries : TextMap Kind) (names : TextSet) (n : Text)
    → contains names n ≡ true
    → contains (enabled_entries entries names) n ≡ true
unfolding enabled_entries
contains-enabled_entries [] names n h = h
contains-enabled_entries ((k, kind) ∷ m) names n h =
    elim (Option-cases (strip_suffix (codes ".enabled") k)) [
      | inl e ↦ ground (arith, e, contains-enabled_entries m names n h)
      | inr (stem, e) ↦ ground (
        arith,
        e,
        contains-enabled_entries m names n h,
        contains-enabled_entries m (insert stem names) n,
        contains-insert stem n names,
      )
    ]

contains-service_enabled_names :
    (ds : List Directory) (names : TextSet) (n : Text)
    → contains names n ≡ true
    → contains (service_enabled_names ds names) n ≡ true
unfolding service_enabled_names
contains-service_enabled_names [] names n h = h
contains-service_enabled_names (none ∷ ds) names n h = contains-service_enabled_names ds names n h
contains-service_enabled_names (some entries ∷ ds) names n h =
    contains-service_enabled_names ds (enabled_entries entries names) n
      (contains-enabled_entries entries names n h)

enabled_entries-finds :
    (entries : TextMap Kind) (names : TextSet) (n : Text)
    → is_valid_name n ≡ true
    → get entries (n ++ codes ".enabled") ≡ some file
    → contains (enabled_entries entries names) n ≡ true
unfolding enabled_entries get
enabled_entries-finds [] names n v h = cc
enabled_entries-finds ((k, kind) ∷ m) names n v h =
    elim (Bool-cases (text_eq k (n ++ codes ".enabled"))) [
      | inl hit ↦
          let same : k ≡ n ++ codes ".enabled" = (text_eq_iff k (n ++ codes ".enabled")).0 hit in
          let stem : strip_suffix (codes ".enabled") k ≡ some n =
            ap (strip_suffix (codes ".enabled")) same ∙ strip_suffix-append (codes ".enabled") n in
          let is : kind ≡ file = ground (arith, hit, h) in
          ground (
            arith,
            stem,
            is,
            v,
            contains-enabled_entries m (insert n names) n,
            contains-insert n n names,
            text_eq_refl n,
          )
      | inr miss ↦ enabled_entries-finds m _ n v (ground (arith, miss, h))
    ]

file_of : (kind : Kind) → is_file kind ≡ true → kind ≡ file
file_of file h = refl
file_of kind h = cc

suffixed_dots : (n : Text) → is_dots (n ++ codes ".enabled") ≡ false
unfolding text_eq
suffixed_dots [] = refl
suffixed_dots (a ∷ []) = ground arith
suffixed_dots (a ∷ b ∷ []) = ground arith
suffixed_dots (a ∷ b ∷ c ∷ n) = ground arith

first_decides-lists :
    (n : Text) (ds : List Directory) (names : TextSet)
    → is_valid_name n ≡ true
    → first_decides (n ++ codes ".enabled") ds ≡ true
    → contains (service_enabled_names ds names) n ≡ true
unfolding first_decides service_enabled_names symlink_metadata
first_decides-lists n [] names v h = cc
first_decides-lists n (none ∷ ds) names v h = first_decides-lists n ds names v h
first_decides-lists n (some entries ∷ ds) names v h =
    elim (Option-cases (get entries (n ++ codes ".enabled"))) [
      | inl e ↦
          first_decides-lists n ds (enabled_entries entries names) v
            (ground (arith, suffixed_dots n, e, h))
      | inr (kind, e) ↦
          let is : kind ≡ file = file_of kind (ground (arith, suffixed_dots n, e, h)) in
          contains-service_enabled_names ds (enabled_entries entries names) n
            (enabled_entries-finds entries names n v (e ∙ ap some is))
    ]

-- A service that `service_is_enabled` says is enabled stands in `service_enabled_names` under its
-- native name.
pub service_enabled_names-lists :
    (name : Text) (ds : List Directory)
    → service_is_enabled name ds ≡ ok true
    → contains (service_enabled_names ds []) (native_service_name name) ≡ true
unfolding service_is_enabled
service_enabled_names-lists name ds h =
    let v : is_valid_name (native_service_name name) ≡ true = ground arith in
    first_decides-lists (native_service_name name) ds [] v (ground (arith, v, h))
