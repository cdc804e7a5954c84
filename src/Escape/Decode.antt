-- ===== src/Escape/Decode.antt =====
-- `unescape`, `path_unescape` and `instance_part`. A slice that cuts a character is a panic.
use fractal_d.Base.{
  ℕ, ◌+◌, ◌-◌, ◌*◌, Bool, true, false, not, ◌&&◌, Option, none, some, List, [], ◌∷◌, Text, codes,
  text_eq, ◌==◌, rsplit_once, split_at, join, if◌then◌else◌,
}
use fractal_d.Escape.Utf8.{is_utf8, is_continuation, within}

-- One constructor for each message, with what it prints.
pub data EscapeError : Type 0 where
  bad_escape : ℕ → EscapeError
  bad_digit : ℕ → EscapeError
  not_utf8 : EscapeError

pub data Run {ℓ} (A : Type ℓ) : Type ℓ where
  done : A → Run A
  fails : EscapeError → Run A
  panics : Run A

infixl 5 ◌>>=◌
abbrev pub ◌>>=◌ {ℓ κ} : {A : Type ℓ} {B : Type κ} → Run A → (A → Run B) → Run B
done a >>= f = f a
fails e >>= f = fails e
panics >>= f = panics

-- `char::to_digit(16)`
unfoldable pub hex_value : ℕ → Option ℕ
hex_value c =
    if within b'0' b'9' c
    then some (c - b'0')
    else if within b'a' b'f' c
    then some (c - b'a' + 10)
    else if within b'A' b'F' c
    then some (c - b'A' + 10)
    else none

-- `u8::from_str_radix` of two characters in base 16, where a plus sign may lead.
unfoldable pub parse_pair : ℕ → ℕ → Option ℕ
unfolding hex_value
parse_pair h l = elim (h == b'+') [
  | true ↦ hex_value l
  | false ↦ elim (hex_value h) [
    | none ↦ none
    | some a ↦ elim (hex_value l) [ none ↦ none | some b ↦ some (a * 16 + b) ]
  ]
]

-- `str::is_char_boundary` before the rest of a text
abbrev pub is_boundary : Text → Bool
is_boundary [] = true
is_boundary (b ∷ bs) = not (is_continuation b)

-- The byte that the two characters after `\x` stand for.
unfoldable pub decode_pair : ℕ → ℕ → ℕ → Text → Run ℕ
unfolding parse_pair
decode_pair index h l more =
    if is_boundary (h ∷ []) && is_boundary more
    then elim (parse_pair h l) [ none ↦ fails (bad_digit index) | some b ↦ done b ]
    else panics

abbrev pub prepend : ℕ → Run Text → Run Text
prepend b r = r >>= λ bs. done (b ∷ bs)

-- The loop of `unescape` from byte `index` on.
unfoldable pub decode : ℕ → Text → Run Text
unfolding decode_pair
decode index [] = done []
decode index (b ∷ []) = if b == b'\\' then fails (bad_escape index) else done (b ∷ [])
decode index (b ∷ x ∷ []) = elim (b == b'\\') [
  | true ↦ fails (bad_escape index)
  | false ↦ prepend b (decode (index + 1) (x ∷ []))
]
decode index (b ∷ x ∷ h ∷ []) = elim (b == b'\\') [
  | true ↦ fails (bad_escape index)
  | false ↦ prepend b (decode (index + 1) (x ∷ h ∷ []))
]
decode index (b ∷ x ∷ h ∷ l ∷ more) = elim (b == b'\\') [
  | true ↦ elim (x == b'x') [
    | true ↦ decode_pair index h l more >>= λ c. prepend c (decode (index + 4) more)
    | false ↦ fails (bad_escape index)
  ]
  | false ↦ prepend b (decode (index + 1) (x ∷ h ∷ l ∷ more))
]

unfoldable pub unescape : Text → Run Text
unescape value = decode 0 value >>= λ bs. if is_utf8 bs then done bs else fails not_utf8

-- `map(unescape).collect::<Result<Vec<_>, _>>()`
unfoldable pub unescape_all : List Text → Run (List Text)
unescape_all [] = done []
unescape_all (piece ∷ rest) = do
  text ← unescape piece
  texts ← unescape_all rest
  done (text ∷ texts)

unfoldable pub path_unescape : Text → Run Text
path_unescape value =
    if text_eq value (codes "-")
    then done (codes "/")
    else (unescape_all (split_at b'-' value) >>= λ texts. done (b'/' ∷ join b'/' texts))

unfoldable pub instance_part : Text → Text
instance_part value =
    let base : Text = elim (rsplit_once value b'.') [
      | none ↦ value
      | some (base, extension) ↦ base
    ] in
    elim (rsplit_once base b'@') [ none ↦ base | some (name, instance_text) ↦ instance_text ]
