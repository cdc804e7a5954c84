-- ===== src/BTree/Count.antt =====
-- Counting the members of a set that pass a test, while the test changes.
use fractal_d.Base.{
  suc, ◌≤◌, ◌<◌, ◌≡◌, refl, Bool, true, false, ◌||◌, List, [], ◌∷◌, arith, Text, text_eq,
  text_eq_iff, text_eq_refl, count_by, Bool-cases, inl, inr, length,
}
use fractal_d.BTree.Set.{contains, IsDistinct}

pub contains_self : (x : Text) (xs : List Text) → contains (x ∷ xs) x ≡ true
unfolding contains
contains_self x xs = ground (arith, text_eq_refl x)

pub contains-tail :
    (x y : Text) (xs : List Text) → contains xs y ≡ true → contains (x ∷ xs) y ≡ true
unfolding contains
contains-tail x y xs h = ground arith

pub count_by-congr :
    (p q : Text → Bool) (xs : List Text)
    → ((x : Text) → contains xs x ≡ true → q x ≡ p x)
    → count_by q xs ≡ count_by p xs
count_by-congr p q [] e = refl
count_by-congr p q (x ∷ xs) e =
    ground
      (arith, e x (contains_self x xs), count_by-congr p q xs (λ y m. e y (contains-tail x y xs m)))

-- A test that one more member passes counts one more.
pub count_by-set :
    (p q : Text → Bool) (a : Text) (xs : List Text)
    → IsDistinct xs
    → contains xs a ≡ true
    → p a ≡ false
    → ((x : Text) → q x ≡ (text_eq a x || p x))
    → count_by q xs ≡ suc (count_by p xs)
unfolding contains
count_by-set p q a [] d m h e = cc
count_by-set p q a (x ∷ xs) d m h e = elim (Bool-cases (text_eq a x)) [
  | inl hit ↦ ground (
    arith,
    e x,
    text_eq_iff a x,
    count_by-congr p q xs (λ y n. ground (arith, e y, text_eq_iff a x, text_eq_iff a y)),
  )
  | inr miss ↦ ground (arith, e x, text_eq_iff a x, text_eq_iff x a, count_by-set p q a xs d.1)
]

-- A test that no member passes counts nothing.
pub count_by-zero :
    (p : Text → Bool) (xs : List Text)
    → ((x : Text) → contains xs x ≡ true → p x ≡ false)
    → count_by p xs ≡ 0
count_by-zero p [] e = refl
count_by-zero p (x ∷ xs) e =
    ground
      (arith, e x (contains_self x xs), count_by-zero p xs (λ y m. e y (contains-tail x y xs m)))

-- Where something is counted there is a member that passes, and where nothing is, none does.
pub count_by-pos :
    (p : Text → Bool) (xs : List Text)
    → 0 < count_by p xs
    → (x : Text) × (contains xs x ≡ true) × (p x ≡ true)
count_by-pos p [] h = absurd (omega arith)
count_by-pos p (x ∷ xs) h = elim (Bool-cases (p x)) [
  | inl hit ↦ (x, contains_self x xs, hit)
  | inr miss ↦ let (y, m, e) = count_by-pos p xs (ground arith) in (y, contains-tail x y xs m, e)
]

pub count_by_none :
    (p : Text → Bool) (xs : List Text) (x : Text)
    → count_by p xs ≡ 0
    → contains xs x ≡ true
    → p x ≡ false
unfolding contains
count_by_none p [] x h m = cc
count_by_none p (y ∷ ys) x h m = ground (arith, text_eq_iff y x, count_by_none p ys x)

pub count_by-le : (p : Text → Bool) (xs : List Text) → count_by p xs ≤ length xs
count_by-le p [] = omega arith
count_by-le p (x ∷ xs) = ground (arith, count_by-le p xs)

-- A test that every member passes counts them all.
pub count_by-all :
    (p : Text → Bool) (xs : List Text)
    → ((x : Text) → contains xs x ≡ true → p x ≡ true)
    → count_by p xs ≡ length xs
count_by-all p [] e = refl
count_by-all p (x ∷ xs) e =
    ground
      (arith, e x (contains_self x xs), count_by-all p xs (λ y m. e y (contains-tail x y xs m)))
