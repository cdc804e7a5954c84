-- ===== src/Escape/RoundTrip.antt =====
-- `unescape` after `escape`, for names and for paths.
use fractal_d.Base.{
  ℕ, ◌+◌, ◌<◌, ◌≡◌, refl, ◌∙◌, true, false, some, [], ◌∷◌, All, arith, Text, ◌==◌, Bool-cases, inl,
  inr,
}
use Prim.Native.Nat.{◌/◌, ◌%◌}
use fractal_d.Escape.Utf8.{settled, is_utf8, utf8_bytes}
use fractal_d.Escape.Encode.{is_plain, hex_digit, escape}
use fractal_d.Escape.Decode.{
  done, prepend, is_boundary, hex_value, parse_pair, decode_pair, decode, unescape,
}

parse_pair-hex_digit :
    (b : ℕ) → b < 256 → parse_pair (hex_digit (b / 16)) (hex_digit (b % 16)) ≡ some b
unfolding parse_pair hex_digit hex_value
parse_pair-hex_digit b h = ground arith

-- An escaped text begins with a byte that continues no character.
escape_boundary : (bs : Text) → is_boundary (escape bs) ≡ true
unfolding escape
escape_boundary [] = refl
escape_boundary (b ∷ bs) = ground arith

pub decode-plain :
    (i b : ℕ) (rest : Text)
    → (b == b'\\') ≡ false
    → decode i (b ∷ rest) ≡ prepend b (decode (i + 1) rest)
unfolding decode
decode-plain i b [] h = ground arith
decode-plain i b (x ∷ []) h = ground arith
decode-plain i b (x ∷ y ∷ []) h = ground arith
decode-plain i b (x ∷ y ∷ z ∷ rest) h = ground arith

hex_boundary : (n : ℕ) → n < 16 → is_boundary (hex_digit n ∷ []) ≡ true
unfolding hex_digit
hex_boundary n h = ground arith

decode_pair-hex_digit :
    (i b : ℕ) (more : Text)
    → b < 256
    → is_boundary more ≡ true
    → decode_pair i (hex_digit (b / 16)) (hex_digit (b % 16)) more ≡ done b
unfolding decode_pair
decode_pair-hex_digit i b more h k =
    rw (hex_boundary (b / 16) (omega arith), k, parse_pair-hex_digit b h)

decode-escape : (i : ℕ) (bs : Text) → All (λ b. b < 256) bs → decode i (escape bs) ≡ done bs
unfolding escape decode
decode-escape i [] h = refl
decode-escape i (b ∷ bs) h = elim (Bool-cases (is_plain b)) [
  | inl plain ↦
      let ih = decode-escape (i + 1) bs h.1 in
      let step = decode-plain i b (escape bs) (ground (arith, plain)) in rw plain (step ∙ rw ih)
  | inr special ↦
      let ih = decode-escape (i + 4) bs h.1 in
      rw special (rw (decode_pair-hex_digit i b (escape bs) h.0 (escape_boundary bs), ih))
]

-- Whatever UTF-8 text is escaped, `unescape` gives it back; it neither fails nor panics.
pub unescape-escape : (bs : Text) → is_utf8 bs ≡ true → unescape (escape bs) ≡ done bs
unfolding unescape
unescape-escape bs h = rw (decode-escape 0 bs (utf8_bytes settled bs h), h)
