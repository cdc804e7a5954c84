-- ===== src/Base/Pieces.antt =====
-- Texts in pieces: `str::split` at one character, and `join`.
use Prim.Native.Nat.{ℕ}
use mathlib.Core.Path.{◌≡◌, refl, ◌∙◌, ap}
use mathlib.Core.Logic.{◌≢◌, inl, inr}
use mathlib.Core.Bool.{false}
use mathlib.Core.List.{List, [], ◌∷◌, ◌++◌}
use native.Mathlib.Omega.{arith}
use fractal_d.Base.Lists.{All}
use fractal_d.Base.Tests.{◌==◌, if◌then◌else◌, List-cases}
use fractal_d.Base.Texts.{Text}

-- `str::split` at one character
unfoldable pub split_at : ℕ → Text → List Text
split_at c [] = [] ∷ []
split_at c (x ∷ xs) = elim (split_at c xs) [
  | [] ↦ []
  | piece ∷ pieces ↦ if x == c then [] ∷ piece ∷ pieces else (x ∷ piece) ∷ pieces
]

-- The pieces with a separator between them.
unfoldable pub join : ℕ → List Text → Text
join separator [] = []
join separator (piece ∷ []) = piece
join separator (piece ∷ next ∷ rest) = piece ++ separator ∷ join separator (next ∷ rest)

-- The separator does not stand in the text.
abbrev pub Lacks : ℕ → Text → Type 0
Lacks c = All (λ b. (b == c) ≡ false)

pub Lacks-append : (c : ℕ) (xs ys : Text) → Lacks c xs → Lacks c ys → Lacks c (xs ++ ys)
Lacks-append c [] ys h k = k
Lacks-append c (x ∷ xs) ys h k = (h.0, Lacks-append c xs ys h.1 k)

split_at-Lacks : (c : ℕ) (xs : Text) → Lacks c xs → split_at c xs ≡ xs ∷ []
unfolding split_at
split_at-Lacks c [] h = refl
split_at-Lacks c (x ∷ xs) h = ground (arith, split_at-Lacks c xs h.1)

split_at_pieces : (c : ℕ) (xs : Text) → split_at c xs ≢ []
unfolding split_at
split_at_pieces c [] h = cc
split_at_pieces c (x ∷ xs) h = elim (List-cases (split_at c xs)) [
  | inl e ↦ split_at_pieces c xs e
  | inr (p, ps, e) ↦ ground (arith, e)
]

split_at-cons : (c : ℕ) (xs ys : Text) → Lacks c xs → split_at c (xs ++ c ∷ ys) ≡ xs ∷ split_at c ys
unfolding split_at
split_at-cons c [] ys h = elim (List-cases (split_at c ys)) [
  | inl e ↦ absurd (split_at_pieces c ys e)
  | inr (p, ps, e) ↦ ground (arith, e)
]
split_at-cons c (x ∷ xs) ys h = ground (arith, split_at-cons c xs ys h.1)

pub split_at-join :
    (c : ℕ) (piece : Text) (pieces : List Text)
    → All (Lacks c) (piece ∷ pieces)
    → split_at c (join c (piece ∷ pieces)) ≡ piece ∷ pieces
unfolding join
split_at-join c piece [] h = split_at-Lacks c piece h.0
split_at-join c piece (next ∷ rest) h =
    split_at-cons c piece (join c (next ∷ rest)) h.0
    ∙ ap (λ l. piece ∷ l) (split_at-join c next rest h.1)
