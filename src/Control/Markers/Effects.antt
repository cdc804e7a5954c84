-- ===== src/Control/Markers/Effects.antt =====
-- The marker files as two sets of names.
use fractal_d.Base.{
  ◌≡◌, refl, sym, ◌∙◌, ap, subst, Bool, true, false, not, ◌&&◌, ◌||◌, none, some, List, [], ◌∷◌,
  All, arith, Text, text_eq, text_eq_iff, Bool-cases, inl, inr, if◌then◌else◌,
}
use fractal_d.BTree.Map.{
  TextMap, get, insert_key, remove_key, keys, get-insert_key, get-remove_key, keys-insert_key,
  keys-remove_key,
}
use fractal_d.BTree.Set.{IsAscending, ascending-IsDistinct, insert-IsAscending, remove-IsAscending}
use fractal_d.Control.Markers.{
  Kind, file, Marker, enabled_marker, masked_marker, Io, ok, Directory, StatePaths, is_dots,
  symlink_metadata, is_valid_name, native_service_name, created, ensure_directory, mark, unmark,
  is_marked, enable, disable, mask, unmask, is_enabled, is_masked,
}

-- The names that the commands take: valid, and not made up of the suffix and dots alone.
abbrev pub IsProper : Text → Type 0
IsProper name = (is_valid_name name ≡ true) × (is_dots (native_service_name name) ≡ false)

-- A directory holds one regular file for each name of a set, and nothing else.
abbrev pub Holds : Directory → (Text → Bool) → Type 0
Holds none f = (n : Text) → f n ≡ false
Holds (some entries) f =
    IsAscending (keys entries) × ((n : Text) → get entries n ≡ (if f n then some file else none))

abbrev pub with_name : Text → (Text → Bool) → Text → Bool
with_name name f n = text_eq name n || f n

abbrev pub without_name : Text → (Text → Bool) → Text → Bool
without_name name f n = not (text_eq name n) && f n

created-Holds : (d : Directory) (f : Text → Bool) → Holds d f → Holds (created d) f
unfolding get keys
created-Holds none f h = (tt, λ n. rw (h n) refl)
created-Holds (some entries) f h = h

pub metadata-entries :
    (entries : TextMap Kind) (name : Text)
    → is_dots name ≡ false
    → symlink_metadata (some entries) name ≡ get entries name
unfolding symlink_metadata
metadata-entries entries name p = ground arith

module _ (marker : Marker) (name : Text) (entries : TextMap Kind) where
  mark_new :
      symlink_metadata (some entries) name ≡ none
      → mark marker name (some entries) ≡ (some (insert_key name file entries), ok tt)
  unfolding mark
  mark_new h = rw (h, mark) refl

  mark_old :
      symlink_metadata (some entries) name ≡ some file
      → mark marker name (some entries) ≡ (some entries, ok tt)
  unfolding mark
  mark_old h = rw (h, mark) refl

  unmark_new :
      symlink_metadata (some entries) name ≡ none
      → unmark name (some entries) ≡ (some entries, ok tt)
  unfolding unmark
  unmark_new h = rw (h, unmark) refl

  unmark_old :
      symlink_metadata (some entries) name ≡ some file
      → unmark name (some entries) ≡ (some (remove_key name entries), ok tt)
  unfolding unmark
  unmark_old h = rw (h, unmark) refl

  is_marked_new :
      symlink_metadata (some entries) name ≡ none → is_marked marker name (some entries) ≡ ok false
  unfolding is_marked
  is_marked_new h = rw (h, is_marked) refl

  is_marked_old :
      symlink_metadata (some entries) name ≡ some file
      → is_marked marker name (some entries) ≡ ok true
  unfolding is_marked
  is_marked_old h = rw (h, is_marked) refl

-- A command succeeded and left a directory that holds `f`.
abbrev pub Leaves : (Text → Bool) → Directory × Io (Unit {0}) → Type 0
Leaves f (d, r) = (r ≡ ok tt) × Holds d f

here_file :
    (entries : TextMap Kind) (f : Text → Bool) (name : Text)
    → is_dots name ≡ false
    → Holds (some entries) f
    → f name ≡ true
    → symlink_metadata (some entries) name ≡ some file
here_file entries f name p h e = ground (arith, metadata-entries entries name p, h.1 name, e)

here_none :
    (entries : TextMap Kind) (f : Text → Bool) (name : Text)
    → is_dots name ≡ false
    → Holds (some entries) f
    → f name ≡ false
    → symlink_metadata (some entries) name ≡ none
here_none entries f name p h e = ground (arith, metadata-entries entries name p, h.1 name, e)

mark-Holds :
    (marker : Marker) (name : Text) (entries : TextMap Kind) (f : Text → Bool)
    → is_dots name ≡ false
    → Holds (some entries) f
    → Leaves (with_name name f) (mark marker name (some entries))
mark-Holds marker name entries f p h = elim (Bool-cases (f name)) [
  | inl old ↦
      subst (Leaves (with_name name f))
        (sym (mark_old marker name entries (here_file entries f name p h old)))
        (refl, (h.0, λ n. ground (arith, old, h.1 n, text_eq_iff name n)))
  | inr new ↦
      subst (Leaves (with_name name f))
        (sym (mark_new marker name entries (here_none entries f name p h new)))
        (
          refl,
          (
            rw (keys-insert_key entries name file) (insert-IsAscending name (keys entries) h.0),
            λ n. ground (arith, h.1 n, get-insert_key entries name n file),
          ),
        )
]

unmark-Holds :
    (name : Text) (d : Directory) (f : Text → Bool)
    → is_dots name ≡ false
    → Holds d f
    → Leaves (without_name name f) (unmark name d)
unfolding unmark
unmark-Holds name none f p h = (refl, λ n. ground (arith, h n))
unmark-Holds name (some entries) f p h = elim (Bool-cases (f name)) [
  | inl old ↦
      subst (Leaves (without_name name f))
        (sym (unmark_old enabled_marker name entries (here_file entries f name p h old)))
        (
          refl,
          (
            rw (keys-remove_key entries name) (remove-IsAscending name (keys entries) h.0),
            λ n. ground (
              arith,
              h.1 n,
              get-remove_key entries name n (ascending-IsDistinct (keys entries) h.0),
            ),
          ),
        )
  | inr new ↦
      subst (Leaves (without_name name f))
        (sym (unmark_new enabled_marker name entries (here_none entries f name p h new)))
        (refl, (h.0, λ n. ground (arith, new, h.1 n, text_eq_iff name n)))
]

is_marked-Holds :
    (marker : Marker) (name : Text) (d : Directory) (f : Text → Bool)
    → is_dots name ≡ false
    → Holds d f
    → is_marked marker name d ≡ ok (f name)
unfolding is_marked symlink_metadata
is_marked-Holds marker name none f p h = ap ok (sym (h name))
is_marked-Holds marker name (some entries) f p h = elim (Bool-cases (f name)) [
  | inl old ↦ is_marked_old marker name entries (here_file entries f name p h old) ∙ ap ok (sym old)
  | inr new ↦ is_marked_new marker name entries (here_none entries f name p h new) ∙ ap ok (sym new)
]

-- The commands of a client, on the files and on the two sets.
pub data Order : Type 0 where
  enabling disabling masking unmasking : Text → Order

unfoldable pub carry_out : Order → StatePaths → StatePaths × Io (Unit {0})
carry_out (enabling name) s = enable name s
carry_out (disabling name) s = disable name s
carry_out (masking name) s = mask name s
carry_out (unmasking name) s = unmask name s

-- The two sets.
pub record Sets : Type 0 where
  pub enabled : Text → Bool
  pub masked : Text → Bool

abbrev pub update : Order → Sets → Sets
update (enabling name) t = record t { enabled = with_name (native_service_name name) t.enabled }
update (disabling name) t = record t { enabled = without_name (native_service_name name) t.enabled }
update (masking name) t = record t { masked = with_name (native_service_name name) t.masked }
update (unmasking name) t = record t { masked = without_name (native_service_name name) t.masked }

abbrev pub Represents : StatePaths → Sets → Type 0
Represents s t = Holds s.enabled t.enabled × Holds s.masked t.masked

abbrev pub subject : Order → Text
subject (enabling name) = name
subject (disabling name) = name
subject (masking name) = name
subject (unmasking name) = name

mark-created-Holds :
    (marker : Marker) (name : Text) (d : Directory) (f : Text → Bool)
    → is_dots name ≡ false
    → Holds d f
    → Leaves (with_name name f) (mark marker name (created d))
mark-created-Holds marker name none f p h = mark-Holds marker name [] f p (created-Holds none f h)
mark-created-Holds marker name (some entries) f p h = mark-Holds marker name entries f p h

-- A command with a proper name succeeds, and does to the files what it says of the sets.
pub carry_out-Represents :
    (order : Order) (s : StatePaths) (t : Sets)
    → IsProper (subject order)
    → Represents s t
    → ((carry_out order s).1 ≡ ok tt) × Represents (carry_out order s).0 (update order t)
unfolding carry_out enable disable mask unmask ensure_directory
carry_out-Represents (enabling name) s t p h =
    let (done, held) =
      mark-created-Holds enabled_marker (native_service_name name) s.enabled t.enabled p.1 h.0 in
    rw p.0 (done, (held, created-Holds s.masked t.masked h.1))
carry_out-Represents (disabling name) s t p h =
    let (done, held) = unmark-Holds (native_service_name name) s.enabled t.enabled p.1 h.0 in
    rw p.0 (done, (held, h.1))
carry_out-Represents (masking name) s t p h =
    let (done, held) =
      mark-created-Holds masked_marker (native_service_name name) s.masked t.masked p.1 h.1 in
    rw p.0 (done, (created-Holds s.enabled t.enabled h.0, held))
carry_out-Represents (unmasking name) s t p h =
    let (done, held) = unmark-Holds (native_service_name name) s.masked t.masked p.1 h.1 in
    rw p.0 (done, (h.0, held))

abbrev pub run_orders : List Order → StatePaths → StatePaths
run_orders [] s = s
run_orders (order ∷ orders) s = run_orders orders (carry_out order s).0

abbrev pub update_all : List Order → Sets → Sets
update_all [] t = t
update_all (order ∷ orders) t = update_all orders (update order t)

run_orders-Represents :
    (orders : List Order) (s : StatePaths) (t : Sets)
    → All (λ order. IsProper (subject order)) orders
    → Represents s t
    → Represents (run_orders orders s) (update_all orders t)
run_orders-Represents [] s t p h = h
run_orders-Represents (order ∷ orders) s t p h =
    run_orders-Represents orders (carry_out order s).0 (update order t) p.1
      (carry_out-Represents order s t p.0 h).1

-- A machine on which nothing was ever enabled or masked: there are no directories yet.
abbrev pub fresh : StatePaths
fresh = record { enabled = none; masked = none }

abbrev pub no_sets : Sets
no_sets = record { enabled = λ n. false; masked = λ n. false }

-- After any commands with proper names on a fresh machine, `is_enabled` and `is_masked` say of a
-- proper name whether its native name is in the set that the commands describe.
pub run_orders-is_enabled :
    (orders : List Order) (name : Text)
    → All (λ order. IsProper (subject order)) orders
    → IsProper name
    → (is_enabled name (run_orders orders fresh)
        ≡ ok ((update_all orders no_sets).enabled (native_service_name name)))
      × (is_masked name (run_orders orders fresh)
          ≡ ok ((update_all orders no_sets).masked (native_service_name name)))
unfolding is_enabled is_masked
run_orders-is_enabled orders name p q =
    let (e, m) = run_orders-Represents orders fresh no_sets p ((λ n. refl), (λ n. refl)) in
    (
      rw q.0 (is_marked-Holds enabled_marker (native_service_name name) _ _ q.1 e),
      rw q.0 (is_marked-Holds masked_marker (native_service_name name) _ _ q.1 m),
    )
