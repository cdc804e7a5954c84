-- ===== src/Escape/Utf8.antt =====
-- The standard library's check of UTF-8: `String::from_utf8`, and `str::is_char_boundary`.
use fractal_d.Base.{
  ℕ, ◌≡◌, Bool, true, false, ◌&&◌, ◌||◌, ◌==◌, Option, none, some, List, [], ◌∷◌, leb, ltb,
  if◌then◌else◌, arith, All, ◌<◌,
}

-- What a sequence still wants: nothing, some continuation bytes, or one in a narrower range first.
pub data Wants : Type 0 where
  settled one two three after_e0 after_ed after_f0 after_f4 : Wants

abbrev pub within : ℕ → ℕ → ℕ → Bool
within lo hi b = leb lo b && leb b hi

abbrev pub is_continuation : ℕ → Bool
is_continuation b = within 0x80 0xbf b

abbrev go : Bool → Wants → Option Wants
go true w = some w
go false w = none

-- The well-formed byte sequences of the Unicode standard.
unfoldable pub utf8_step : Wants → ℕ → Option Wants
utf8_step settled b =
    if ltb b 0x80
    then some settled
    else if within 0xc2 0xdf b
    then some one
    else if within 0xe1 0xec b || within 0xee 0xef b
    then some two
    else if b == 0xe0
    then some after_e0
    else if b == 0xed
    then some after_ed
    else if b == 0xf0
    then some after_f0
    else if within 0xf1 0xf3 b
    then some three
    else if b == 0xf4
    then some after_f4
    else none
utf8_step one b = go (is_continuation b) settled
utf8_step two b = go (is_continuation b) one
utf8_step three b = go (is_continuation b) two
utf8_step after_e0 b = go (within 0xa0 0xbf b) one
utf8_step after_ed b = go (within 0x80 0x9f b) one
utf8_step after_f0 b = go (within 0x90 0xbf b) two
utf8_step after_f4 b = go (within 0x80 0x8f b) two

unfoldable pub utf8_from : Wants → List ℕ → Bool
utf8_from settled [] = true
utf8_from other [] = false
utf8_from w (b ∷ bs) = elim (utf8_step w b) [ none ↦ false | some w' ↦ utf8_from w' bs ]

abbrev pub is_utf8 : List ℕ → Bool
is_utf8 bs = utf8_from settled bs

pub utf8_bytes : (w : Wants) (bs : List ℕ) → utf8_from w bs ≡ true → All (λ b. b < 256) bs
unfolding utf8_from utf8_step
utf8_bytes w [] h = tt
utf8_bytes settled (b ∷ bs) h = ground (
  arith,
  utf8_bytes settled bs,
  utf8_bytes one bs,
  utf8_bytes two bs,
  utf8_bytes three bs,
  utf8_bytes after_e0 bs,
  utf8_bytes after_ed bs,
  utf8_bytes after_f0 bs,
  utf8_bytes after_f4 bs,
)
utf8_bytes one (b ∷ bs) h = ground (arith, utf8_bytes settled bs)
utf8_bytes two (b ∷ bs) h = ground (arith, utf8_bytes one bs)
utf8_bytes three (b ∷ bs) h = ground (arith, utf8_bytes two bs)
utf8_bytes after_e0 (b ∷ bs) h = ground (arith, utf8_bytes one bs)
utf8_bytes after_ed (b ∷ bs) h = ground (arith, utf8_bytes one bs)
utf8_bytes after_f0 (b ∷ bs) h = ground (arith, utf8_bytes two bs)
utf8_bytes after_f4 (b ∷ bs) h = ground (arith, utf8_bytes two bs)
