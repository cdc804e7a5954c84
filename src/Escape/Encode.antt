-- ===== src/Escape/Encode.antt =====
-- `escape`, `path_escape` and `mangle`.
use fractal_d.Base.{
  join, ℕ, ◌+◌, ◌-◌, Bool, true, false, not, ◌||◌, List, [], ◌∷◌, ◌++◌, map, keep, Text, codes, ltb,
  ◌==◌, split_slash, is_ascii_alphanumeric, if◌then◌else◌,
}
use Prim.Native.Nat.{◌/◌, ◌%◌}

abbrev pub is_plain : ℕ → Bool
is_plain b = is_ascii_alphanumeric b || b == b'_' || b == b'.' || b == b':'

-- A digit of `{byte:02x}`.
unfoldable pub hex_digit : ℕ → ℕ
hex_digit n = if ltb n 10 then b'0' + n else b'a' + (n - 10)

unfoldable pub escape_byte : ℕ → Text
unfolding hex_digit is_ascii_alphanumeric
escape_byte b =
    if is_plain b then b ∷ [] else b'\\' ∷ b'x' ∷ hex_digit (b / 16) ∷ hex_digit (b % 16) ∷ []

unfoldable pub escape : Text → Text
unfolding escape_byte
escape [] = []
escape (b ∷ bs) = escape_byte b ++ escape bs

abbrev pub is_empty : Text → Bool
is_empty [] = true
is_empty (x ∷ xs) = false

-- `value.split('/').filter(|component| !component.is_empty())`
unfoldable pub components : Text → List Text
unfolding split_slash
components value = keep (λ c. not (is_empty c)) (split_slash value)

unfoldable pub path_escape : Text → Text
unfolding join components
path_escape value =
    let output = join b'-' (map escape (components value)) in
    if is_empty output then codes "-" else output

-- `trim_start_matches` and `trim_end_matches` at one character
unfoldable pub trim_start_at : ℕ → Text → Text
trim_start_at c [] = []
trim_start_at c (x ∷ xs) = if x == c then trim_start_at c xs else x ∷ xs

unfoldable pub trim_end_at : ℕ → Text → Text
trim_end_at c [] = []
trim_end_at c (x ∷ xs) = elim (trim_end_at c xs) [
  | [] ↦ if x == c then [] else x ∷ []
  | y ∷ ys ↦ x ∷ y ∷ ys
]

unfoldable pub mangle : Text → Text
unfolding trim_start_at trim_end_at
mangle value =
    trim_end_at b'-' (trim_start_at b'-' (map (λ c. if c == b'/' then b'-' else c) value))
