-- ===== src/Base/Words.antt =====
-- Words of a text: `str::split_whitespace`, and `str::trim`.
use Prim.Native.Nat.{ℕ}
use mathlib.Core.Path.{◌≡◌, refl, ◌∙◌, sym, ap, subst}
use mathlib.Core.Bool.{true, false}
use mathlib.Core.List.{List, [], ◌∷◌, ◌++◌, append_assoc, append-nil}
use native.Mathlib.Omega.{arith}
use fractal_d.Base.Digits.{is_digit, digits, digits_head, All-digits}
use fractal_d.Base.Lists.{All}
use fractal_d.Base.Search.{is_whitespace}
use fractal_d.Base.Tests.{if◌then◌else◌}
use fractal_d.Base.Texts.{Text}

-- A word that ends here, if it has begun.
abbrev pub end_word : Text → List Text → List Text
end_word [] rest = rest
end_word (c ∷ cs) rest = (c ∷ cs) ∷ rest

-- The words of a text whose first word has begun with `word`.
unfoldable pub words_from : Text → Text → List Text
words_from word [] = end_word word []
words_from word (c ∷ cs) = elim (is_whitespace c) [
  | true ↦ end_word word (words_from [] cs)
  | false ↦ words_from (word ++ c ∷ []) cs
]

unfoldable pub words : Text → List Text
words text = words_from [] text

unfoldable pub trim_start : Text → Text
trim_start [] = []
trim_start (c ∷ cs) = if is_whitespace c then trim_start cs else c ∷ cs

unfoldable pub trim_end : Text → Text
trim_end [] = []
trim_end (c ∷ cs) = elim (trim_end cs) [
  | [] ↦ if is_whitespace c then [] else c ∷ []
  | d ∷ ds ↦ c ∷ d ∷ ds
]

unfoldable pub trim : Text → Text
trim text = trim_end (trim_start text)

abbrev pub HasNoSpace : Text → Type 0
HasNoSpace = All (λ c. is_whitespace c ≡ false)

-- A word is not empty and has no white space.
abbrev pub IsWord : Text → Type 0
IsWord [] = ⊥
IsWord (c ∷ cs) = HasNoSpace (c ∷ cs)

pub words_from-cons :
    (word : Text) (c : ℕ) (cs : Text)
    → is_whitespace c ≡ false
    → words_from word (c ∷ cs) ≡ words_from (word ++ c ∷ []) cs
unfolding words_from
words_from-cons word c cs h = ground (arith, h)

pub words_from-end :
    (word : Text) (c : ℕ) (cs : Text)
    → is_whitespace c ≡ true
    → words_from word (c ∷ cs) ≡ end_word word (words_from [] cs)
unfolding words_from
words_from-end word c cs h = ground (arith, h)

pub words_from-append :
    (word text rest : Text)
    → HasNoSpace text
    → words_from word (text ++ rest) ≡ words_from (word ++ text) rest
unfolding words_from
words_from-append word [] rest h = ap (λ w. words_from w rest) (sym (append-nil word))
words_from-append word (c ∷ cs) rest h =
    words_from-cons word c (cs ++ rest) h.0
    ∙ words_from-append (word ++ c ∷ []) cs rest h.1
    ∙ ap (λ w. words_from w rest) (append_assoc word (c ∷ []) cs)

-- The word before a white space.
pub words-cons :
    (word : Text) (c : ℕ) (rest : Text)
    → IsWord word
    → is_whitespace c ≡ true
    → words (word ++ c ∷ rest) ≡ word ∷ words rest
unfolding words words_from
words-cons [] c rest h k = elim h [ ]
words-cons (w ∷ ws) c rest h k =
    words_from-append [] (w ∷ ws) (c ∷ rest) h ∙ words_from-end (w ∷ ws) c rest k

-- A word at the end of the text.
pub words-end : (word : Text) → IsWord word → words word ≡ word ∷ []
unfolding words words_from
words-end [] h = elim h [ ]
words-end (w ∷ ws) h =
    ap (words_from []) (sym (append-nil (w ∷ ws))) ∙ words_from-append [] (w ∷ ws) [] h

-- Every word is a word.
HasNoSpace-concat :
    (word : Text) (c : ℕ) → HasNoSpace word → is_whitespace c ≡ false → HasNoSpace (word ++ c ∷ [])
HasNoSpace-concat [] c h k = (k, tt)
HasNoSpace-concat (w ∷ ws) c h k = (h.0, HasNoSpace-concat ws c h.1 k)

end_word-IsWord :
    (word : Text) (rest : List Text)
    → HasNoSpace word
    → All IsWord rest
    → All IsWord (end_word word rest)
end_word-IsWord [] rest h k = k
end_word-IsWord (w ∷ ws) rest h k = (h, k)

words_from-IsWord : (word text : Text) → HasNoSpace word → All IsWord (words_from word text)
unfolding words_from
words_from-IsWord word [] h = end_word-IsWord word [] h tt
words_from-IsWord word (c ∷ cs) h =
    elim (is_whitespace c)
        as (λ b.
          is_whitespace c ≡ b
          → All IsWord (elim b as (λ _. List Text) [
            | true ↦ end_word word (words_from [] cs)
            | false ↦ words_from (word ++ c ∷ []) cs
          ])) [
            | true ↦ λ e. end_word-IsWord word (words_from [] cs) h (words_from-IsWord [] cs tt)
            | false ↦ λ e. words_from-IsWord (word ++ c ∷ []) cs (HasNoSpace-concat word c h e)
          ]
      refl

pub words-IsWord : (text : Text) → All IsWord (words text)
unfolding words
words-IsWord text = words_from-IsWord [] text tt

digit_no_space : (c : ℕ) → is_digit c ≡ true → is_whitespace c ≡ false
unfolding is_whitespace
digit_no_space c h = ground arith

digits_no_space : (text : Text) → All (λ c. is_digit c ≡ true) text → HasNoSpace text
digits_no_space [] h = tt
digits_no_space (c ∷ cs) h = (digit_no_space c h.0, digits_no_space cs h.1)

pub digits-IsWord : (n : ℕ) → IsWord (digits n)
digits-IsWord n =
    let (c, cs, e, d) = digits_head n in
    subst IsWord (sym e)
      (digits_no_space (c ∷ cs) (subst (All (λ c. is_digit c ≡ true)) e (All-digits n)))
