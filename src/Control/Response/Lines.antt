-- ===== src/Control/Response/Lines.antt =====
-- Lines of words, read back.
use fractal_d.Base.{
  ℕ, ◌≡◌, refl, ◌∙◌, ap, false, ◌||◌, List, [], ◌∷◌, ◌++◌, All, arith, Text, ◌==◌, is_whitespace,
  words, words-cons, words-end, trim, trim_start, trim_end, IsWord, HasNoSpace,
}
use fractal_d.Control.Response.{is_break, one_line, trim_breaks, field, line_of, ended}

-- The last character is no white space.
abbrev pub EndsInWord : Text → Type 0
EndsInWord [] = ⊥
EndsInWord (c ∷ []) = is_whitespace c ≡ false
EndsInWord (c ∷ d ∷ ds) = EndsInWord (d ∷ ds)

-- No line break and no NUL.
abbrev pub IsOneLine : Text → Type 0
IsOneLine = All (λ c. (is_break c || c == 0) ≡ false)

pub EndsInWord-append : (xs ys : Text) → EndsInWord ys → EndsInWord (xs ++ ys)
EndsInWord-append [] ys h = h
EndsInWord-append (x ∷ []) [] h = elim h [ ]
EndsInWord-append (x ∷ []) (y ∷ ys) h = h
EndsInWord-append (x ∷ z ∷ xs) ys h = EndsInWord-append (z ∷ xs) ys h

IsWord-EndsInWord : (w : Text) → IsWord w → EndsInWord w
IsWord-EndsInWord [] h = elim h [ ]
IsWord-EndsInWord (c ∷ []) h = h.0
IsWord-EndsInWord (c ∷ d ∷ ds) h = IsWord-EndsInWord (d ∷ ds) h.1

pub line_of-EndsInWord :
    (w : Text) (ws : List Text) → All IsWord (w ∷ ws) → EndsInWord (line_of w ws)
unfolding line_of
line_of-EndsInWord w [] h = IsWord-EndsInWord w h.0
line_of-EndsInWord w (v ∷ vs) h =
    EndsInWord-append w (b' ' ∷ line_of v vs)
      (EndsInWord-append (b' ' ∷ []) (line_of v vs) (line_of-EndsInWord v vs h.1))

trim_end-ended : (text : Text) → EndsInWord text → trim_end (ended text) ≡ text
unfolding trim_end is_whitespace
trim_end-ended [] h = elim h [ ]
trim_end-ended (c ∷ []) h = ground arith
trim_end-ended (c ∷ d ∷ ds) h = rw (trim_end-ended (d ∷ ds) h) refl

-- A line that begins and ends with a word character is what is left after `trim`.
pub trim-ended :
    (c : ℕ) (text : Text)
    → is_whitespace c ≡ false
    → EndsInWord (c ∷ text)
    → trim (ended (c ∷ text)) ≡ c ∷ text
unfolding trim trim_start
trim-ended c text h k = ap trim_end (start h) ∙ trim_end-ended (c ∷ text) k
  where
    start : is_whitespace c ≡ false → trim_start (ended (c ∷ text)) ≡ ended (c ∷ text)
    start h = ground (arith, h)

pub words-line_of :
    (w : Text) (ws : List Text) → All IsWord (w ∷ ws) → words (line_of w ws) ≡ w ∷ ws
unfolding line_of is_whitespace
words-line_of w [] h = words-end w h.0
words-line_of w (v ∷ vs) h =
    words-cons w b' ' (line_of v vs) h.0 refl ∙ ap (λ l. w ∷ l) (words-line_of v vs h.1)

pub one_line_lem : (text : Text) → IsOneLine text → one_line text ≡ text
unfolding one_line
one_line_lem [] h = refl
one_line_lem (c ∷ cs) h = ground (arith, one_line_lem cs h.1, h.0)

pub trim_breaks_lem : (text : Text) → IsOneLine text → trim_breaks text ≡ text
unfolding trim_breaks
trim_breaks_lem [] h = refl
trim_breaks_lem (c ∷ []) h = ground (arith, h.0)
trim_breaks_lem (c ∷ d ∷ ds) h = rw (trim_breaks_lem (d ∷ ds) h.1) refl

pub HasNoSpace-append : (xs ys : Text) → HasNoSpace xs → HasNoSpace ys → HasNoSpace (xs ++ ys)
HasNoSpace-append [] ys h k = k
HasNoSpace-append (x ∷ xs) ys h k = (h.0, HasNoSpace-append xs ys h.1 k)

pub field-IsWord : (key value : Text) → IsWord key → HasNoSpace value → IsWord (field key value)
unfolding is_whitespace
field-IsWord [] value h k = elim h [ ]
field-IsWord (c ∷ cs) value h k = HasNoSpace-append (c ∷ cs) (b'=' ∷ value) h (refl, k)
