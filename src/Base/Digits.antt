-- ===== src/Base/Digits.antt =====
-- Unsigned numbers in decimal: their `Display`, and `str::parse`.
use Prim.Native.Nat.{ℕ, zero, suc, ◌+◌, ◌-◌, ◌*◌, ◌/◌, ◌%◌, ◌<◌}
use mathlib.Core.Path.{◌≡◌, ◌∙◌, ap, sym}
use mathlib.Core.Logic.{inl, inr}
use mathlib.Core.Bool.{Bool, true, ◌&&◌}
use mathlib.Core.List.{[], ◌∷◌}
use mathlib.Core.Option.{Option, none, some}
use native.Mathlib.Omega.{arith}
use fractal_d.Base.Lists.{All}
use fractal_d.Base.Tests.{ltb, leb, ◌==◌, if◌then◌else◌, Bool-cases}
use fractal_d.Base.Texts.{Text}

abbrev pub is_digit : ℕ → Bool
is_digit c = leb b'0' c && leb c b'9'

-- The digits of `n` before `more`; `n + 1` rounds are enough.
unfoldable pub digits_onto : ℕ → ℕ → Text → Text
digits_onto zero n more = more
digits_onto (suc fuel) n more =
    let rest = digits_onto fuel (n / 10) ((b'0' + n % 10) ∷ more) in
    if ltb n 10 then (b'0' + n) ∷ more else rest

unfoldable pub digits : ℕ → Text
digits n = digits_onto (suc n) n []

-- `checked_mul(10)` and `checked_add` of each digit, below the limit of the type.
unfoldable pub parse_from : ℕ → ℕ → Text → Option ℕ
parse_from limit n [] = some n
parse_from limit n (c ∷ cs) =
    let rest = parse_from limit (n * 10 + (c - b'0')) cs in
    if is_digit c && ltb (n * 10 + (c - b'0')) limit then rest else none

-- `str::parse` for an unsigned type below `limit`: a plus sign may lead, and a digit must follow.
unfoldable pub parse_number : ℕ → Text → Option ℕ
unfolding parse_from
parse_number limit [] = none
parse_number limit (c ∷ []) = if is_digit c then parse_from limit 0 (c ∷ []) else none
parse_number limit (c ∷ d ∷ cs) =
    if c == b'+' then parse_from limit 0 (d ∷ cs) else parse_from limit 0 (c ∷ d ∷ cs)

parse_from-digits_onto :
    (limit fuel n : ℕ) (more : Text)
    → n < limit
    → n < fuel
    → parse_from limit 0 (digits_onto fuel n more) ≡ parse_from limit n more
unfolding parse_from digits_onto
parse_from-digits_onto limit zero n more h k = absurd (omega arith)
parse_from-digits_onto limit (suc fuel) n more h k = elim (Bool-cases (ltb n 10)) [
  | inl small ↦ ground (arith, small)
  | inr big ↦
      let ih =
        parse_from-digits_onto limit fuel (n / 10) ((b'0' + n % 10) ∷ more) (omega arith)
          (ground (arith, big)) in
      let same : n / 10 * 10 + (b'0' + n % 10 - b'0') ≡ n = omega arith in
      rw big (ih ∙ ground (arith, same))
]

-- A number begins with a digit.
digits_onto-head :
    (fuel n : ℕ) (more : Text)
    → n < fuel
    → (c : ℕ) × (cs : Text) × (digits_onto fuel n more ≡ c ∷ cs) × (is_digit c ≡ true)
unfolding digits_onto
digits_onto-head zero n more h = absurd (omega arith)
digits_onto-head (suc fuel) n more h = elim (Bool-cases (ltb n 10)) [
  | inl small ↦ (b'0' + n, more, rw small, ground (arith, small))
  | inr big ↦
      let (c, cs, e, d) =
        digits_onto-head fuel (n / 10) ((b'0' + n % 10) ∷ more) (ground (arith, big)) in
      (c, cs, ground (arith, big, e), d)
]

parse_number-from :
    (limit c : ℕ) (cs : Text)
    → is_digit c ≡ true
    → parse_number limit (c ∷ cs) ≡ parse_from limit 0 (c ∷ cs)
unfolding parse_number
parse_number-from limit c [] h = ground arith
parse_number-from limit c (d ∷ cs) h = ground arith

-- What is printed is read again.
pub parse_number-digits : (limit n : ℕ) → n < limit → parse_number limit (digits n) ≡ some n
unfolding digits parse_from
parse_number-digits limit n h =
    let (c, cs, e, d) = digits_onto-head (suc n) n [] (omega arith) in
    ap (parse_number limit) e
    ∙ parse_number-from limit c cs d
    ∙ ap (parse_from limit 0) (sym e)
    ∙ parse_from-digits_onto limit (suc n) n [] h (omega arith)

parse_from-lt : (limit n m : ℕ) (cs : Text) → n < limit → parse_from limit n cs ≡ some m → m < limit
unfolding parse_from
parse_from-lt limit n m [] h e = ground arith
parse_from-lt limit n m (c ∷ cs) h e =
    ground (arith, parse_from-lt limit (n * 10 + (c - b'0')) m cs)

-- What is read fits the type.
pub parse_number-lt :
    (limit n : ℕ) (text : Text) → 0 < limit → parse_number limit text ≡ some n → n < limit
unfolding parse_number
parse_number-lt limit n [] h e = cc
parse_number-lt limit n (c ∷ []) h e = ground (arith, parse_from-lt limit 0 n (c ∷ []))
parse_number-lt limit n (c ∷ d ∷ cs) h e =
    ground (arith, parse_from-lt limit 0 n (d ∷ cs), parse_from-lt limit 0 n (c ∷ d ∷ cs))

All-digits_onto :
    (fuel n : ℕ) (more : Text)
    → All (λ c. is_digit c ≡ true) more
    → All (λ c. is_digit c ≡ true) (digits_onto fuel n more)
unfolding digits_onto
All-digits_onto zero n more h = h
All-digits_onto (suc fuel) n more h = elim (Bool-cases (ltb n 10)) [
  | inl small ↦ rw small (ground (arith, small), h)
  | inr big ↦ rw big (All-digits_onto fuel (n / 10) ((b'0' + n % 10) ∷ more) (ground arith, h))
]

pub All-digits : (n : ℕ) → All (λ c. is_digit c ≡ true) (digits n)
unfolding digits parse_from
All-digits n = All-digits_onto (suc n) n [] tt

pub digits_head : (n : ℕ) → (c : ℕ) × (cs : Text) × (digits n ≡ c ∷ cs) × (is_digit c ≡ true)
unfolding digits parse_from
digits_head n = digits_onto-head (suc n) n [] (omega arith)
