-- ===== src/Escape/Panics.antt =====
-- When `unescape` panics.
use fractal_d.Base.{ℕ, ◌+◌, ◌<◌, ◌≡◌, ◌≢◌, true, false, [], ◌∷◌, ◌++◌, All, arith, Text, ◌==◌}
use fractal_d.Escape.Utf8.{is_continuation}
use fractal_d.Escape.Decode.{panics, decode_pair, decode, unescape}
use fractal_d.Escape.RoundTrip.{decode-plain}

abbrev pub IsAscii : Text → Type 0
IsAscii = All (λ b. b < 128)

decode_pair_ascii :
    (i h l : ℕ) (more : Text) → h < 128 → IsAscii more → decode_pair i h l more ≢ panics
unfolding decode_pair
decode_pair_ascii i h l [] k m = ground arith
decode_pair_ascii i h l (b ∷ more) k m = ground arith

decode_ascii : (i : ℕ) (bs : Text) → IsAscii bs → decode i bs ≢ panics
unfolding decode
decode_ascii i [] h = λ e. cc
decode_ascii i (b ∷ []) h = ground arith
decode_ascii i (b ∷ x ∷ []) h = ground (arith, decode_ascii (i + 1) (x ∷ []))
decode_ascii i (b ∷ x ∷ y ∷ []) h = ground (arith, decode_ascii (i + 1) (x ∷ y ∷ []))
decode_ascii i (b ∷ x ∷ y ∷ z ∷ more) h = ground (
  arith,
  decode_ascii (i + 1) (x ∷ y ∷ z ∷ more),
  decode_ascii (i + 4) more,
  decode_pair_ascii i y z more,
)

-- On ASCII text `unescape` returns a text or an error; it does not panic.
pub unescape_ascii : (bs : Text) → IsAscii bs → unescape bs ≢ panics
unfolding unescape
unescape_ascii bs h = ground (arith, decode_ascii 0 bs h)

decode_panics :
    (i : ℕ) (before : Text) (h l c : ℕ) (more : Text)
    → All (λ b. (b == b'\\') ≡ false) before
    → is_continuation c ≡ true
    → decode i (before ++ b'\\' ∷ b'x' ∷ h ∷ l ∷ c ∷ more) ≡ panics
unfolding decode decode_pair
decode_panics i [] h l c more p k = ground arith
decode_panics i (b ∷ before) h l c more p k = ground (
  arith,
  decode-plain i b (before ++ b'\\' ∷ b'x' ∷ h ∷ l ∷ c ∷ more),
  decode_panics (i + 1) before h l c more p.1 k,
)

-- The first `\x` of a text panics if the second of the two bytes after it begins a character that
-- goes on: the byte after it is a continuation byte.
pub unescape_panics :
    (before : Text) (h l c : ℕ) (more : Text)
    → All (λ b. (b == b'\\') ≡ false) before
    → is_continuation c ≡ true
    → unescape (before ++ b'\\' ∷ b'x' ∷ h ∷ l ∷ c ∷ more) ≡ panics
unfolding unescape
unescape_panics before h l c more p k = rw (decode_panics 0 before h l c more p k)
