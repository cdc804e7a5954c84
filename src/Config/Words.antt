-- ===== src/Config/Words.antt =====
-- `split_words`: a value cut into words, with quotes and escapes.
pub mod Quoted
use fractal_d.Base.{
  ℕ, ◌+◌, ◌*◌, Bool, true, false, ◌&&◌, ◌||◌, Option, none, some, List, [], ◌∷◌, ◌++◌, Text, codes,
  ◌==◌, is_whitespace, if◌then◌else◌,
}
use fractal_d.Config.Error.{at, Parsed, ok, err}
use fractal_d.Escape.Decode.{hex_value}

-- The variables of the loop.
pub record Cut : Type 0 where
  pub words : List Text
  pub current : Text
  pub quote : Option ℕ
  pub escaped : Bool
  pub started : Bool

abbrev pub no_words : Cut
no_words = record { words = []; current = []; quote = none; escaped = false; started = false }

-- The character that a backslash before this one means.
unfoldable pub meaning : ℕ → ℕ
meaning c = if c == b'n' then b'\n' else if c == b'r' then b'\r' else if c == b't' then b'\t' else c

-- An escape is over, with this character.
abbrev pub put_escaped : Cut → ℕ → Cut
put_escaped s c = record s { current = s.current ++ c ∷ []; escaped = false; started = true }

abbrev pub put : Cut → ℕ → Cut
put s c = record s { current = s.current ++ c ∷ []; started = true }

unfoldable pub end_current : Cut → Cut
end_current s =
    if s.started
    then record s { words = s.words ++ s.current ∷ []; current = []; started = false }
    else s

-- A character outside quotes and escapes
unfoldable pub advance_plain : Cut → ℕ → Cut
unfolding end_current
advance_plain s c =
    if c == b'\'' || c == b'"'
    then record s { quote = some c; started = true }
    else if is_whitespace c
    then end_current s
    else put s c

-- One round of the loop, but for `\x`.
unfoldable pub advance : Cut → ℕ → Cut
unfolding meaning advance_plain
advance s c =
    if s.escaped
    then put_escaped s (meaning c)
    else if c == b'\\'
    then record s { escaped = true; started = true }
    else elim s.quote [
      | some active ↦ if c == active then record s { quote = none; started = true } else put s c
      | none ↦ advance_plain s c
    ]

-- What stands after the loop.
unfoldable pub finish : ℕ → Cut → Parsed (List Text)
finish line s =
    if s.escaped then err (at line (codes "value ends with an escape")) else elim s.quote [
      | some active ↦ err (at line (codes "value has an unterminated quote"))
      | none ↦ if s.started then ok (s.words ++ s.current ∷ []) else ok s.words
    ]

-- `char::from((high << 4) | low)`
unfoldable pub hex_pair : ℕ → ℕ → Option ℕ
unfolding hex_value
hex_pair h l = elim (hex_value h) [
  | none ↦ none
  | some high ↦ elim (hex_value l) [ none ↦ none | some low ↦ some (high * 16 + low) ]
]

abbrev pub bad_hex : ℕ → Parsed (List Text)
bad_hex line = err (at line (codes "invalid hexadecimal escape"))

abbrev pub begins_hex : Cut → ℕ → Bool
begins_hex s c = s.escaped && c == b'x'

unfoldable pub split_loop : ℕ → Cut → Text → Parsed (List Text)
unfolding advance finish hex_pair
split_loop line s [] = finish line s
split_loop line s (c ∷ []) = elim (begins_hex s c) [
  | true ↦ bad_hex line
  | false ↦ split_loop line (advance s c) []
]
split_loop line s (c ∷ h ∷ []) = elim (begins_hex s c) [
  | true ↦ bad_hex line
  | false ↦ split_loop line (advance s c) (h ∷ [])
]
split_loop line s (c ∷ h ∷ l ∷ more) = elim (begins_hex s c) [
  | true ↦ elim (hex_pair h l) [
    | none ↦ bad_hex line
    | some code ↦ split_loop line (put_escaped s code) more
  ]
  | false ↦ split_loop line (advance s c) (h ∷ l ∷ more)
]

unfoldable pub split_words : Text → ℕ → Parsed (List Text)
unfolding split_loop
split_words value line = split_loop line no_words value
