-- ===== src/BTree/Before.antt =====
-- Positions in a list of names: what stands before what.
use fractal_d.Base.{
  ◌≡◌, refl, Bool, true, false, ◌||◌, List, [], ◌∷◌, ◌++◌, arith, Text, text_eq, text_eq_iff,
  if◌then◌else◌,
}
use fractal_d.BTree.Set.{contains, IsDistinct}

-- `p` occurs, and before any `n`.
unfoldable pub before : Text → Text → List Text → Bool
before p n [] = false
before p n (x ∷ xs) = if text_eq x n then false else if text_eq x p then true else before p n xs

pub contains-append :
    (xs ys : List Text) (k : Text) → contains (xs ++ ys) k ≡ (contains xs k || contains ys k)
unfolding contains
contains-append [] ys k = refl
contains-append (x ∷ xs) ys k = ground (arith, contains-append xs ys k)

pub contains-concat :
    (xs : List Text) (x k : Text) → contains (xs ++ x ∷ []) k ≡ (contains xs k || text_eq x k)
unfolding contains
contains-concat xs x k = ground (arith, contains-append xs (x ∷ []) k)

pub IsDistinct-concat :
    (xs : List Text) (x : Text) → IsDistinct xs → contains xs x ≡ false → IsDistinct (xs ++ x ∷ [])
unfolding contains
IsDistinct-concat [] x d h = (refl, tt)
IsDistinct-concat (y ∷ ys) x d h =
    ground
      (arith, IsDistinct-concat ys x d.1, contains-concat ys x y, text_eq_iff x y, text_eq_iff y x)

pub before-append :
    (p n : Text) (xs ys : List Text) → before p n xs ≡ true → before p n (xs ++ ys) ≡ true
unfolding before
before-append p n [] ys h = cc
before-append p n (x ∷ xs) ys h = ground (arith, before-append p n xs ys)

pub before-concat :
    (p n : Text) (xs : List Text)
    → contains xs n ≡ false
    → contains xs p ≡ true
    → before p n (xs ++ n ∷ []) ≡ true
unfolding before contains
before-concat p n [] h k = cc
before-concat p n (x ∷ xs) h k = ground (arith, before-concat p n xs)

pub contains_of_before : (p n : Text) (xs : List Text) → before p n xs ≡ true → contains xs p ≡ true
unfolding before contains
contains_of_before p n [] h = cc
contains_of_before p n (x ∷ xs) h = ground (arith, contains_of_before p n xs)

-- `Vec::reverse`
unfoldable pub reverse : List Text → List Text
reverse [] = []
reverse (x ∷ xs) = reverse xs ++ x ∷ []

pub contains-reverse : (xs : List Text) (k : Text) → contains (reverse xs) k ≡ contains xs k
unfolding reverse contains
contains-reverse [] k = refl
contains-reverse (x ∷ xs) k =
    ground (arith, contains-reverse xs k, contains-concat (reverse xs) x k)

pub reverse-IsDistinct : (xs : List Text) → IsDistinct xs → IsDistinct (reverse xs)
unfolding reverse
reverse-IsDistinct [] d = tt
reverse-IsDistinct (x ∷ xs) d =
    IsDistinct-concat (reverse xs) x (reverse-IsDistinct xs d.1) (rw (contains-reverse xs x) d.0)

-- In the reversed list the order of two members is the other way round.
pub before-reverse :
    (p n : Text) (xs : List Text)
    → IsDistinct xs
    → contains xs n ≡ true
    → before p n xs ≡ true
    → before n p (reverse xs) ≡ true
unfolding before contains reverse
before-reverse p n [] d m h = cc
before-reverse p n (x ∷ xs) d m h = ground (
  arith,
  before-reverse p n xs d.1,
  text_eq_iff x p,
  text_eq_iff x n,
  before-append n p (reverse xs) (x ∷ []),
  before-concat n p (reverse xs),
  contains-reverse xs p,
  contains-reverse xs n,
)
