-- ===== src/Config/Values/Bounds.antt =====
-- What the values that are accepted keep to.
use fractal_d.Base.{
  ℕ, ◌^◌, ◌≤◌, ◌<◌, ◌≡◌, subst, Bool, false, ◌||◌, Option, none, some, Text, codes, if◌then◌else◌,
  arith, inl, inr, Bool-cases, parse_number, trim, split_once,
}
use fractal_d.Config.Error.{ok, bind_ok}
use fractal_d.Spec.{LimitValue, max, value, LimitRange}
use fractal_d.Config.Values.{
  invalid, or_invalid, checked_mul, limit_of, parse_limit, is_disordered, parse_limit_range,
  cut_suffix, size_suffixes, equals_ignoring_case,
}

-- A limit that a `u64` holds
abbrev pub IsU64 : LimitValue → Type 0
IsU64 max = Unit {0}
IsU64 (value n) = n < 2 ^ 64

-- The order of limits, where `max` is above the numbers.
abbrev pub IsBelow : LimitValue → LimitValue → Type 0
IsBelow soft max = Unit {0}
IsBelow max (value hard) = ⊥
IsBelow (value soft) (value hard) = soft ≤ hard

or_invalid_ok {ℓ} :
    {A : Type ℓ} (key text : Text) (o : Option A) (a : A)
    → or_invalid key text o ≡ ok a
    → o ≡ some a
or_invalid_ok key text none a h = cc
or_invalid_ok key text (some b) a h = ground (arith, h)

checked_mul-lt : (a b n : ℕ) → checked_mul a b ≡ some n → n < 2 ^ 64
unfolding checked_mul
checked_mul-lt a b n h = ground arith

limit_of-IsU64 :
    (key text : Text) (multiplier : ℕ) (number_text : Text) (l : LimitValue)
    → limit_of key text multiplier number_text ≡ ok l
    → IsU64 l
limit_of-IsU64 key text multiplier number_text l h =
    let (number, e, f) = bind_ok (or_invalid key text (parse_number (2 ^ 64) number_text)) _ h in
    let (product, g, k) = bind_ok (or_invalid key text (checked_mul number multiplier)) _ f in
    let same : value product ≡ l = ground (arith, k) in
    subst IsU64 same (
      checked_mul-lt number multiplier product
        (or_invalid_ok key text (checked_mul number multiplier) product g))

parse_limit-IsU64 :
    (text key : Text) (bytes : Bool) (l : LimitValue) → parse_limit text key bytes ≡ ok l → IsU64 l
unfolding parse_limit
parse_limit-IsU64 text key bytes l h =
    let whole = trim text in
    let cut : Text × ℕ = if bytes then cut_suffix size_suffixes whole else (whole, 1) in
    elim (Bool-cases
      (equals_ignoring_case whole (codes "max") || equals_ignoring_case whole (codes "infinity"))) [
        | inl all ↦ let same : max ≡ l = ground (arith, all, h) in subst IsU64 same tt
        | inr some_number ↦ limit_of-IsU64 key whole cut.1 cut.0 l (ground (arith, some_number, h))
      ]

is_disordered-IsBelow :
    (soft hard : LimitValue) → is_disordered soft hard ≡ false → IsBelow soft hard
is_disordered-IsBelow max max h = tt
is_disordered-IsBelow (value soft) max h = tt
is_disordered-IsBelow max (value hard) h = cc
is_disordered-IsBelow (value soft) (value hard) h = ground (arith, h)

ordered_range :
    (key text : Text) (soft hard : LimitValue) (range : LimitRange)
    → (if is_disordered soft hard
        then invalid key text
        else ok (record { soft = soft; hard = hard }))
      ≡ ok range
    → IsU64 soft
    → IsU64 hard
    → IsU64 range.soft × IsU64 range.hard × IsBelow range.soft range.hard
ordered_range key text soft hard range h s t = elim (Bool-cases (is_disordered soft hard)) [
  | inl bad ↦ absurd (ground (arith, bad, h))
  | inr good ↦
      let same : record { soft = soft; hard = hard } ≡ range = ground (arith, good, h) in
      subst (λ r. IsU64 r.soft × IsU64 r.hard × IsBelow r.soft r.hard) same
        (s, t, is_disordered-IsBelow soft hard good)
]

-- The limits of every range that is accepted fit in a `u64`, and the soft one is not above the hard
-- one.
pub parse_limit_range-IsBelow :
    (text key : Text) (bytes : Bool) (range : LimitRange)
    → parse_limit_range text key bytes ≡ ok range
    → IsU64 range.soft × IsU64 range.hard × IsBelow range.soft range.hard
unfolding parse_limit_range
parse_limit_range-IsBelow text key bytes range h =
    let pair : Text × Text = elim (split_once text b':') [ none ↦ (text, text) | some p ↦ p ] in
    let (soft, e, f) = bind_ok (parse_limit pair.0 key bytes) _ h in
    let (hard, g, k) = bind_ok (parse_limit pair.1 key bytes) _ f in
    ordered_range key text soft hard range k (parse_limit-IsU64 pair.0 key bytes soft e)
      (parse_limit-IsU64 pair.1 key bytes hard g)
