-- ===== src/Config/Words/Quoted.antt =====
-- What `split_words` reads from words in quotes, and from text without quotes.
use fractal_d.Base.{
  ℕ, ◌≡◌, refl, ◌∙◌, ap, sym, Bool, true, false, ◌||◌, none, some, List, [], ◌∷◌, ◌++◌, Text, ◌==◌,
  is_whitespace, words, words_from, words_from-cons, words_from-end, end_word, All, if◌then◌else◌,
  arith, inl, inr, Bool-cases,
}
use fractal_d.Config.Error.{ok}
use fractal_d.Config.Words.{
  Cut, advance, advance_plain, end_current, meaning, finish, begins_hex, split_loop, split_words,
}
use mathlib.Core.List.{append_assoc, append-nil}

-- One round of the loop.
split_loop-cons :
    (line : ℕ) (s : Cut) (c : ℕ) (cs : Text)
    → begins_hex s c ≡ false
    → split_loop line s (c ∷ cs) ≡ split_loop line (advance s c) cs
unfolding split_loop
split_loop-cons line s c [] h = ground (arith, h)
split_loop-cons line s c (d ∷ []) h = ground (arith, h)
split_loop-cons line s c (d ∷ e ∷ cs) h = ground (arith, h)

abbrev outside : List Text → Text → Bool → Cut
outside ws current started = record {
  words = ws;
  current = current;
  quote = none;
  escaped = false;
  started = started;
}

abbrev quoted_at : List Text → Text → Bool → Cut
quoted_at ws current escaped = record {
  words = ws;
  current = current;
  quote = some b'"';
  escaped = escaped;
  started = true;
}

-- A word in double quotes, where a backslash stands before a quote or a backslash.
abbrev pub escape_quotes : Text → Text
escape_quotes [] = []
escape_quotes (c ∷ cs) =
    if c == b'"' || c == b'\\' then b'\\' ∷ c ∷ escape_quotes cs else c ∷ escape_quotes cs

abbrev pub quoted : Text → Text
quoted word = b'"' ∷ (escape_quotes word ++ b'"' ∷ [])

-- Words in quotes, a space after each.
abbrev pub quote_words : List Text → Text
quote_words [] = []
quote_words (word ∷ rest) = quoted word ++ b' ' ∷ quote_words rest

escape_quotes_special :
    (c : ℕ) (cs : Text)
    → (c == b'"' || c == b'\\') ≡ true
    → escape_quotes (c ∷ cs) ≡ b'\\' ∷ c ∷ escape_quotes cs
escape_quotes_special c cs h = ground (arith, h)

escape_quotes_plain :
    (c : ℕ) (cs : Text)
    → (c == b'"' || c == b'\\') ≡ false
    → escape_quotes (c ∷ cs) ≡ c ∷ escape_quotes cs
escape_quotes_plain c cs h = ground (arith, h)

-- The rounds of a character in quotes.
advance_escaped :
    (ws : List Text) (current : Text) (c : ℕ)
    → (c == b'"' || c == b'\\') ≡ true
    → advance (quoted_at ws current true) c ≡ quoted_at ws (current ++ c ∷ []) false
unfolding advance meaning
advance_escaped ws current c h = ground (arith, h)

advance_quoted :
    (ws : List Text) (current : Text) (c : ℕ)
    → (c == b'"' || c == b'\\') ≡ false
    → advance (quoted_at ws current false) c ≡ quoted_at ws (current ++ c ∷ []) false
unfolding advance
advance_quoted ws current c h = ground (arith, h)

split_loop-quoted_at :
    (line : ℕ) (ws : List Text) (current word rest : Text)
    → split_loop line (quoted_at ws current false) (escape_quotes word ++ b'"' ∷ rest)
      ≡ split_loop line (outside ws (current ++ word) true) rest
unfolding advance
split_loop-quoted_at line ws current [] rest =
    split_loop-cons line (quoted_at ws current false) b'"' rest refl
    ∙ ap (λ w. split_loop line (outside ws w true) rest) (sym (append-nil current))
split_loop-quoted_at line ws current (c ∷ cs) rest =
    let next =
      split_loop-quoted_at line ws (current ++ c ∷ []) cs rest
      ∙ ap (λ w. split_loop line (outside ws w true) rest) (append_assoc current (c ∷ []) cs) in
    let more = escape_quotes cs ++ b'"' ∷ rest in
    elim (Bool-cases (c == b'"' || c == b'\\')) [
      | inl special ↦
          ap (λ t. split_loop line (quoted_at ws current false) (t ++ b'"' ∷ rest))
            (escape_quotes_special c cs special)
          ∙ split_loop-cons line (quoted_at ws current false) b'\\' (c ∷ more) refl
          ∙ split_loop-cons line (quoted_at ws current true) c more (ground (arith, special))
          ∙ ap (λ s. split_loop line s more) (advance_escaped ws current c special)
          ∙ next
      | inr plain ↦
          ap (λ t. split_loop line (quoted_at ws current false) (t ++ b'"' ∷ rest))
            (escape_quotes_plain c cs plain)
          ∙ split_loop-cons line (quoted_at ws current false) c more refl
          ∙ ap (λ s. split_loop line s more) (advance_quoted ws current c plain)
          ∙ next
    ]

split_loop-quote_words :
    (line : ℕ) (ws rest : List Text)
    → split_loop line (outside ws [] false) (quote_words rest) ≡ ok (ws ++ rest)
unfolding advance advance_plain end_current is_whitespace split_loop finish
split_loop-quote_words line ws [] = ap ok (sym (append-nil ws))
split_loop-quote_words line ws (word ∷ rest) =
    ap (λ t. split_loop line (outside ws [] false) (b'"' ∷ t))
      (append_assoc (escape_quotes word) (b'"' ∷ []) (b' ' ∷ quote_words rest))
    ∙ split_loop-cons line (outside ws [] false) b'"'
        (escape_quotes word ++ b'"' ∷ b' ' ∷ quote_words rest) refl
    ∙ split_loop-quoted_at line ws [] word (b' ' ∷ quote_words rest)
    ∙ split_loop-cons line (outside ws word true) b' ' (quote_words rest) refl
    ∙ split_loop-quote_words line (ws ++ word ∷ []) rest
    ∙ ap ok (append_assoc ws (word ∷ []) rest)

-- Every list of words can be written as a value: in quotes, with a space after each, they are what
-- `split_words` reads.
pub split_words-quote_words :
    (ws : List Text) (line : ℕ) → split_words (quote_words ws) line ≡ ok ws
unfolding split_words
split_words-quote_words ws line = split_loop-quote_words line [] ws

-- Without quotes and backslashes.
abbrev pub IsUnquoted : Text → Type 0
IsUnquoted = All (λ c. (c == b'"' || c == b'\'' || c == b'\\') ≡ false)

abbrev is_begun : Text → Bool
is_begun [] = false
is_begun (c ∷ cs) = true

-- The rounds of an unquoted character.
advance_space :
    (ws : List Text) (current : Text) (c : ℕ)
    → (c == b'"' || c == b'\'' || c == b'\\') ≡ false
    → is_whitespace c ≡ true
    → advance (outside ws current (is_begun current)) c
      ≡ outside (ws ++ end_word current []) [] false
unfolding advance advance_plain end_current
advance_space ws [] c h k = ground (arith, h, k, append-nil ws)
advance_space ws (w ∷ current) c h k = ground (arith, h, k)

advance_letter :
    (ws : List Text) (current : Text) (c : ℕ)
    → (c == b'"' || c == b'\'' || c == b'\\') ≡ false
    → is_whitespace c ≡ false
    → advance (outside ws current (is_begun current)) c ≡ outside ws (current ++ c ∷ []) true
unfolding advance advance_plain
advance_letter ws current c h k = ground (arith, h, k)

begun-append : (current : Text) (c : ℕ) → is_begun (current ++ c ∷ []) ≡ true
begun-append [] c = refl
begun-append (w ∷ current) c = refl

end_word-append : (word : Text) (rest : List Text) → end_word word [] ++ rest ≡ end_word word rest
end_word-append [] rest = refl
end_word-append (w ∷ word) rest = refl

split_loop-words_from :
    (line : ℕ) (ws : List Text) (current text : Text)
    → IsUnquoted text
    → split_loop line (outside ws current (is_begun current)) text
      ≡ ok (ws ++ words_from current text)
unfolding split_loop finish words_from
split_loop-words_from line ws [] [] h = ap ok (sym (append-nil ws))
split_loop-words_from line ws (w ∷ current) [] h = refl
split_loop-words_from line ws current (c ∷ cs) h =
    split_loop-cons line (outside ws current (is_begun current)) c cs refl
    ∙ elim (Bool-cases (is_whitespace c)) [
      | inl space ↦
          ap (λ s. split_loop line s cs) (advance_space ws current c h.0 space)
          ∙ split_loop-words_from line (ws ++ end_word current []) [] cs h.1
          ∙ ap ok (
              append_assoc ws (end_word current []) (words_from [] cs)
              ∙ ap (λ l. ws ++ l)
                  (end_word-append current (words_from [] cs)
                    ∙ sym (words_from-end current c cs space)))
      | inr letter ↦
          ap (λ s. split_loop line s cs)
            (advance_letter ws current c h.0 letter
              ∙ ap (outside ws (current ++ c ∷ [])) (sym (begun-append current c)))
          ∙ split_loop-words_from line ws (current ++ c ∷ []) cs h.1
          ∙ ap (λ l. ok (ws ++ l)) (sym (words_from-cons current c cs letter))
    ]

-- A value without quotes and backslashes is cut at its white space alone.
pub split_words-words :
    (text : Text) (line : ℕ) → IsUnquoted text → split_words text line ≡ ok (words text)
unfolding split_words words
split_words-words text line h = split_loop-words_from line [] [] text h
