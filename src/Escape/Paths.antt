-- ===== src/Escape/Paths.antt =====
-- `path_unescape` after `path_escape`.
use fractal_d.Base.{
  join, split_at, Lacks, Lacks-append, split_at-join, List-cases, ℕ, ◌<◌, ◌≡◌, refl, ◌∙◌, ap, sym,
  true, false, not, some, List, [], ◌∷◌, ◌++◌, map, keep, All, arith, Text, text_eq, ◌==◌,
  split_slash, is_ascii_alphanumeric, Bool-cases, Option-cases, inl, inr, subst,
}
use Prim.Native.Nat.{◌/◌, ◌%◌}
use fractal_d.Escape.Utf8.{Wants, settled, utf8_step, utf8_from, is_utf8, utf8_bytes}
use fractal_d.Escape.Encode.{
  is_plain, hex_digit, escape_byte, escape, is_empty, components, path_escape,
}
use fractal_d.Escape.Decode.{done, unescape_all, path_unescape}
use fractal_d.Escape.RoundTrip.{unescape-escape}

-- The pieces of a text that is read from `w` on: the first ends a character, the others are whole.
abbrev Pieces : Wants → List Text → Type 0
Pieces w [] = ⊥
Pieces w (piece ∷ pieces) = (utf8_from w piece ≡ true) × All (λ p. is_utf8 p ≡ true) pieces

-- A slash stands between characters.
slash-settled :
    (w v : Wants) (b : ℕ)
    → (b == b'/') ≡ true
    → utf8_step w b ≡ some v
    → (w ≡ settled) × (v ≡ settled)
unfolding utf8_step
slash-settled settled v b h e = ground arith
slash-settled w v b h e = absurd (ground arith)

split_slash-Pieces : (w : Wants) (bs : Text) → utf8_from w bs ≡ true → Pieces w (split_slash bs)
unfolding utf8_from utf8_step split_slash
split_slash-Pieces settled [] h = (refl, tt)
split_slash-Pieces w [] h = ground arith
split_slash-Pieces w (b ∷ bs) h = elim (Option-cases (utf8_step w b)) [
  | inl e ↦ absurd (ground (arith, e, h))
  | inr (v, e) ↦
      let ih = split_slash-Pieces v bs (ground (arith, e, h)) in
      elim (List-cases (split_slash bs)) [
        | inl none_left ↦ absurd (subst (Pieces v) none_left ih)
        | inr (p, ps, at) ↦
            let (first, others) : Pieces v (p ∷ ps) = subst (Pieces v) at ih in
            elim (Bool-cases (b == b'/')) [
              | inl slash ↦
                  let (from, to) = slash-settled w v b slash e in
                  rw (at, slash, from) (refl, (rw to at first, others))
              | inr other ↦ rw (at, other) (rw (e, utf8_from) first, others)
            ]
      ]
]

All-components :
    (pieces : List Text)
    → All (λ p. is_utf8 p ≡ true) pieces
    → All (λ p. (is_utf8 p ≡ true) × (is_empty p ≡ false)) (keep (λ c. not (is_empty c)) pieces)
All-components [] h = tt
All-components (p ∷ ps) h = ground (arith, All-components ps h.1)

components-utf8 :
    (bs : Text)
    → is_utf8 bs ≡ true
    → All (λ p. (is_utf8 p ≡ true) × (is_empty p ≡ false)) (components bs)
unfolding components
components-utf8 bs h = elim (List-cases (split_slash bs)) [
  | inl e ↦ rw e tt
  | inr (p, ps, e) ↦
      let k : Pieces settled (p ∷ ps) =
        subst (Pieces settled) e (split_slash-Pieces settled bs h) in
      rw e (All-components (p ∷ ps) k)
]

escape_byte-Lacks : (b : ℕ) → b < 256 → Lacks b'-' (escape_byte b)
unfolding escape_byte hex_digit is_ascii_alphanumeric
escape_byte-Lacks b h = ground arith

escape-Lacks : (bs : Text) → All (λ b. b < 256) bs → Lacks b'-' (escape bs)
unfolding escape
escape-Lacks [] h = tt
escape-Lacks (b ∷ bs) h =
    Lacks-append b'-' (escape_byte b) (escape bs) (escape_byte-Lacks b h.0) (escape-Lacks bs h.1)

unescape_all-escape :
    (pieces : List Text)
    → All (λ p. (is_utf8 p ≡ true) × (is_empty p ≡ false)) pieces
    → unescape_all (map escape pieces) ≡ done pieces
unfolding unescape_all
unescape_all-escape [] h = refl
unescape_all-escape (p ∷ ps) h = rw (unescape-escape p h.0.0, unescape_all-escape ps h.1)

escape_head :
    (p : Text)
    → (is_utf8 p ≡ true) × (is_empty p ≡ false)
    → (c : ℕ) × (cs : Text) × (escape p ≡ c ∷ cs) × ((c == b'-') ≡ false)
unfolding escape escape_byte is_ascii_alphanumeric
escape_head [] h = absurd (ground arith)
escape_head (b ∷ bs) h = elim (Bool-cases (is_plain b)) [
  | inl plain ↦ (b, escape bs, rw plain, ground (arith, plain))
  | inr special ↦
      (b'\\', b'x' ∷ hex_digit (b / 16) ∷ hex_digit (b % 16) ∷ escape bs, rw special, refl)
]

join_head :
    (separator c : ℕ) (cs : Text) (rest : List Text)
    → (tail : Text) × (join separator ((c ∷ cs) ∷ rest) ≡ c ∷ tail)
unfolding join
join_head separator c cs [] = (cs, refl)
join_head separator c cs (next ∷ rest) = (cs ++ separator ∷ join separator (next ∷ rest), refl)

escape_pieces-Lacks :
    (pieces : List Text)
    → All (λ p. (is_utf8 p ≡ true) × (is_empty p ≡ false)) pieces
    → All (Lacks b'-') (map escape pieces)
escape_pieces-Lacks [] h = tt
escape_pieces-Lacks (p ∷ ps) h =
    (escape-Lacks p (utf8_bytes settled p h.0.0), escape_pieces-Lacks ps h.1)

path_empty :
    (bs : Text)
    → components bs ≡ []
    → path_unescape (path_escape bs) ≡ done (b'/' ∷ join b'/' (components bs))
unfolding path_unescape path_escape text_eq components
path_empty bs e = rw e refl

path_escape_some :
    (bs : Text) (p : Text) (ps : List Text) (c : ℕ) (tail : Text)
    → components bs ≡ p ∷ ps
    → join b'-' (escape p ∷ map escape ps) ≡ c ∷ tail
    → path_escape bs ≡ c ∷ tail
unfolding path_escape components
path_escape_some bs p ps c tail e f = rw e (rw f refl)

path_unescape_some :
    (c : ℕ) (tail : Text) (texts : List Text)
    → (c == b'-') ≡ false
    → unescape_all (split_at b'-' (c ∷ tail)) ≡ done texts
    → path_unescape (c ∷ tail) ≡ done (b'/' ∷ join b'/' texts)
unfolding path_unescape text_eq
path_unescape_some c tail texts h e = ground (arith, h, e)

-- A path that is escaped and unescaped again is the same path, made absolute and with its empty
-- components left out.
pub path_unescape-path_escape :
    (bs : Text)
    → is_utf8 bs ≡ true
    → path_unescape (path_escape bs) ≡ done (b'/' ∷ join b'/' (components bs))
path_unescape-path_escape bs h = elim (List-cases (components bs)) [
  | inl e ↦ path_empty bs e
  | inr (p, ps, e) ↦
      let good =
        subst (All (λ p. (is_utf8 p ≡ true) × (is_empty p ≡ false))) e (components-utf8 bs h) in
      let (c, cs, at, other) = escape_head p good.0 in
      let (tail, whole) = join_head b'-' c cs (map escape ps) in
      let output = ap (λ l. join b'-' (l ∷ map escape ps)) at ∙ whole in
      let pieces =
        split_at-join b'-' (escape p) (map escape ps) (escape_pieces-Lacks (p ∷ ps) good) in
      let texts =
        ap (λ l. unescape_all (split_at b'-' l)) (sym output)
        ∙ ap unescape_all pieces
        ∙ unescape_all-escape (p ∷ ps) good in
      ap path_unescape (path_escape_some bs p ps c tail e output)
      ∙ path_unescape_some c tail (p ∷ ps) other texts
      ∙ ap (λ l. done (b'/' ∷ join b'/' l)) (sym e)
]
