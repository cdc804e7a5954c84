-- ===== src/BTree/Set.antt =====
-- `BTreeSet<String>`: an ascending list without repetitions.
use fractal_d.Base.{
  ◌≡◌, refl, Bool, true, false, not, ◌&&◌, ◌||◌, List, [], ◌∷◌, arith, Text, text_eq, text_lt,
  text_eq_iff, text_lt_irrefl, text_lt_trans, text_lt_total, if◌then◌else◌,
}

abbrev pub TextSet : Type 0
TextSet = List Text

unfoldable pub contains : TextSet → Text → Bool
contains [] k = false
contains (x ∷ xs) k = text_eq x k || contains xs k

unfoldable pub insert : Text → TextSet → TextSet
insert k [] = k ∷ []
insert k (x ∷ xs) =
    if text_lt k x then k ∷ x ∷ xs else if text_lt x k then x ∷ insert k xs else x ∷ xs

unfoldable pub remove : Text → TextSet → TextSet
remove k [] = []
remove k (x ∷ xs) = if text_eq x k then xs else x ∷ remove k xs

-- `extend`, and `collect` into an empty set.
unfoldable pub extend : TextSet → List Text → TextSet
extend s [] = s
extend s (k ∷ ks) = extend (insert k s) ks

-- Every member is above `k`.
abbrev pub Above : Text → TextSet → Type 0
Above k [] = Unit {0}
Above k (x ∷ xs) = (text_lt k x ≡ true) × Above k xs

abbrev pub IsAscending : TextSet → Type 0
IsAscending [] = Unit {0}
IsAscending (x ∷ xs) = Above x xs × IsAscending xs

pub contains-insert :
    (k j : Text) (s : TextSet) → contains (insert k s) j ≡ (text_eq k j || contains s j)
unfolding contains insert
contains-insert k j [] = refl
contains-insert k j (x ∷ xs) =
    ground (arith, contains-insert k j xs, text_lt_total k x, text_eq_iff k j, text_eq_iff x j)

pub contains-extend :
    (s : TextSet) (ks : List Text) (j : Text)
    → contains (extend s ks) j ≡ (contains s j || contains ks j)
unfolding contains extend
contains-extend s [] j = ground arith
contains-extend s (k ∷ ks) j =
    ground (arith, contains-extend (insert k s) ks j, contains-insert k j s)

Above-trans : (j k : Text) (s : TextSet) → text_lt j k ≡ true → Above k s → Above j s
Above-trans j k [] h a = tt
Above-trans j k (x ∷ xs) h a = (text_lt_trans j k x h a.0, Above-trans j k xs h a.1)

Above-insert : (j k : Text) (s : TextSet) → text_lt j k ≡ true → Above j s → Above j (insert k s)
unfolding insert
Above-insert j k [] h a = (h, tt)
Above-insert j k (x ∷ xs) h a = ground (arith, Above-insert j k xs h a.1)

pub insert-IsAscending : (k : Text) (s : TextSet) → IsAscending s → IsAscending (insert k s)
unfolding insert
insert-IsAscending k [] a = (tt, tt)
insert-IsAscending k (x ∷ xs) a =
    ground (arith, insert-IsAscending k xs a.1, Above-insert x k xs, Above-trans k x xs)

pub extend-IsAscending : (s : TextSet) (ks : List Text) → IsAscending s → IsAscending (extend s ks)
unfolding extend
extend-IsAscending s [] a = a
extend-IsAscending s (k ∷ ks) a = extend-IsAscending (insert k s) ks (insert-IsAscending k s a)

pub not_contains_of_Above : (k : Text) (s : TextSet) → Above k s → contains s k ≡ false
unfolding contains
not_contains_of_Above k [] a = refl
not_contains_of_Above k (x ∷ xs) a =
    ground (arith, not_contains_of_Above k xs a.1, text_eq_iff x k, text_lt_irrefl k)

-- No member stands twice: what the proofs use of the order.
abbrev pub IsDistinct : List Text → Type 0
IsDistinct [] = Unit {0}
IsDistinct (x ∷ xs) = (contains xs x ≡ false) × IsDistinct xs

pub ascending-IsDistinct : (s : TextSet) → IsAscending s → IsDistinct s
ascending-IsDistinct [] a = tt
ascending-IsDistinct (x ∷ xs) a = (not_contains_of_Above x xs a.0, ascending-IsDistinct xs a.1)

pub contains-remove :
    (k j : Text) (s : TextSet)
    → IsDistinct s
    → contains (remove k s) j ≡ (contains s j && not (text_eq k j))
unfolding contains remove
contains-remove k j [] d = refl
contains-remove k j (x ∷ xs) d =
    ground (arith, contains-remove k j xs d.1, text_eq_iff k j, text_eq_iff x k, text_eq_iff x j)

pub remove-IsDistinct : (k : Text) (s : TextSet) → IsDistinct s → IsDistinct (remove k s)
unfolding remove
remove-IsDistinct k [] d = tt
remove-IsDistinct k (x ∷ xs) d =
    ground (arith, remove-IsDistinct k xs d.1, contains-remove k x xs d.1)

Above-remove : (j k : Text) (s : TextSet) → Above j s → Above j (remove k s)
unfolding remove
Above-remove j k [] a = tt
Above-remove j k (x ∷ xs) a = ground (arith, Above-remove j k xs a.1)

pub remove-IsAscending : (k : Text) (s : TextSet) → IsAscending s → IsAscending (remove k s)
unfolding remove
remove-IsAscending k [] a = tt
remove-IsAscending k (x ∷ xs) a =
    ground (arith, remove-IsAscending k xs a.1, Above-remove x k xs a.0)
