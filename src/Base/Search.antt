-- ===== src/Base/Search.antt =====
-- Searching in texts: the methods of `str` that the modelled code calls.
use Prim.Native.Nat.{ℕ, ◌+◌, ◌-◌}
use mathlib.Core.Bool.{Bool, true, false, ◌&&◌, ◌||◌}
use mathlib.Core.List.{List, [], ◌∷◌}
use mathlib.Core.Option.{Option, none, some}
use fractal_d.Base.Order.{text_eq}
use fractal_d.Base.Tests.{ltb, leb, ◌==◌, if◌then◌else◌}
use fractal_d.Base.Texts.{Text}

-- `str::strip_suffix`
unfoldable pub strip_suffix : Text → Text → Option Text
unfolding text_eq
strip_suffix suffix [] = if text_eq [] suffix then some [] else none
strip_suffix suffix (x ∷ xs) =
    let rest = strip_suffix suffix xs in
    if text_eq (x ∷ xs) suffix
    then some []
    else elim rest [ none ↦ none | some stem ↦ some (x ∷ stem) ]

-- `str::rsplit_once` at one character
unfoldable pub rsplit_once : Text → ℕ → Option (Text × Text)
rsplit_once [] c = none
rsplit_once (x ∷ xs) c = elim (rsplit_once xs c) [
  | some (before, after) ↦ some (x ∷ before, after)
  | none ↦ if x == c then some ([], xs) else none
]

-- The pieces between the slashes.
unfoldable pub split_slash : Text → List Text
split_slash [] = [] ∷ []
split_slash (x ∷ xs) = elim (split_slash xs) [
  | [] ↦ []
  | piece ∷ pieces ↦ if x == b'/' then [] ∷ piece ∷ pieces else (x ∷ piece) ∷ pieces
]

abbrev pub is_absolute : Text → Bool
is_absolute [] = false
is_absolute (x ∷ xs) = x == b'/'

-- `char::is_whitespace`: the code points with the property White_Space.
unfoldable pub is_whitespace : ℕ → Bool
is_whitespace c =
    (leb 0x09 c && leb c 0x0d)
    || c == 0x20
    || c == 0x85
    || c == 0xa0
    || c == 0x1680
    || (leb 0x2000 c && leb c 0x200a)
    || c == 0x2028
    || c == 0x2029
    || c == 0x202f
    || c == 0x205f
    || c == 0x3000

-- `char::is_control`: the general category Cc.
unfoldable pub is_control : ℕ → Bool
is_control c = ltb c 0x20 || (leb 0x7f c && leb c 0x9f)

unfoldable pub is_ascii_alphanumeric : ℕ → Bool
is_ascii_alphanumeric c =
    (leb b'0' c && leb c b'9') || (leb b'A' c && leb c b'Z') || (leb b'a' c && leb c b'z')

-- The bytes of a code point in UTF-8, and of a text: `str::len`.
unfoldable pub byte_len : Text → ℕ
byte_len [] = 0
byte_len (c ∷ cs) =
    (if ltb c 0x80 then 1 else if ltb c 0x800 then 2 else if ltb c 0x10000 then 3 else 4)
    + byte_len cs

-- `str::strip_prefix`
unfoldable pub strip_prefix : Text → Text → Option Text
strip_prefix [] text = some text
strip_prefix (p ∷ ps) [] = none
strip_prefix (p ∷ ps) (x ∷ xs) = if p == x then strip_prefix ps xs else none

abbrev pub starts_with : Text → Text → Bool
starts_with prefix text = elim (strip_prefix prefix text) [ none ↦ false | some rest ↦ true ]

-- `str::split_once` at one character
unfoldable pub split_once : Text → ℕ → Option (Text × Text)
split_once [] c = none
split_once (x ∷ xs) c =
    let rest = split_once xs c in
    if x == c
    then some ([], xs)
    else elim rest [ none ↦ none | some (before, after) ↦ some (x ∷ before, after) ]

unfoldable pub to_ascii_lowercase : Text → Text
to_ascii_lowercase [] = []
to_ascii_lowercase (c ∷ cs) =
    (if leb b'A' c && leb c b'Z' then c + 32 else c) ∷ to_ascii_lowercase cs

unfoldable pub to_ascii_uppercase : Text → Text
to_ascii_uppercase [] = []
to_ascii_uppercase (c ∷ cs) =
    (if leb b'a' c && leb c b'z' then c - 32 else c) ∷ to_ascii_uppercase cs
