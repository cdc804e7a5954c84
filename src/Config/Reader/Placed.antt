-- ===== src/Config/Reader/Placed.antt =====
-- The places of the directives in a file that is being read.
use fractal_d.Base.{
  ℕ, ◌≤◌, ◌≡◌, refl, ◌∙◌, sym, subst, List, [], ◌∷◌, ◌++◌, Text, text_eq, All, arith, text_eq_iff,
  inl, inr, Bool-cases,
}
use fractal_d.BTree.Set.{IsAscending, insert-IsAscending}
use fractal_d.BTree.Map.{keys, keys-insert_key}
use fractal_d.Config.Schema.{Directive}
use fractal_d.Config.File.{NativeFile, directives_of, extend_section}
use fractal_d.Config.File.Merge.{directives_of-extend_section}

-- Every directive says its own section, and stands on a line of the file.
abbrev pub IsPlaced : ℕ → Text → List Directive → Type 0
IsPlaced count section = All (λ d. (d.section ≡ section) × (1 ≤ d.line) × (d.line ≤ count))

-- Longer files.
pub IsPlaced-le :
    (a b : ℕ) (section : Text) (ds : List Directive)
    → a ≤ b
    → IsPlaced a section ds
    → IsPlaced b section ds
IsPlaced-le a b section [] le p = tt
IsPlaced-le a b section (d ∷ ds) le p =
    ((p.0.0, p.0.1, omega (arith, p.0.2, le)), IsPlaced-le a b section ds le p.1)

IsPlaced-append :
    (count : ℕ) (section : Text) (xs ys : List Directive)
    → IsPlaced count section xs
    → IsPlaced count section ys
    → IsPlaced count section (xs ++ ys)
IsPlaced-append count section [] ys p q = q
IsPlaced-append count section (x ∷ xs) ys p q = (p.0, IsPlaced-append count section xs ys p.1 q)

-- Directives of a section are added.
pub extend_section-IsPlaced :
    (count : ℕ) (section : Text) (more : List Directive) (file : NativeFile)
    → ((s : Text) → IsPlaced count s (directives_of s file))
    → IsPlaced count section more
    → (s : Text) → IsPlaced count s (directives_of s (extend_section section more file))
extend_section-IsPlaced count section more file p q s =
    let found = directives_of-extend_section section s more file in
    elim (Bool-cases (text_eq section s)) [
      | inl same ↦ subst (IsPlaced count s) (sym (found ∙ (rw same refl))) (
          IsPlaced-append count s (directives_of s file) more (p s)
            (subst (λ k. IsPlaced count k more) ((text_eq_iff section s).0 same) q))
      | inr other ↦ subst (IsPlaced count s) (sym (found ∙ (rw other refl))) (p s)
    ]

pub extend_section-IsAscending :
    (section : Text) (more : List Directive) (file : NativeFile)
    → IsAscending (keys file.sections)
    → IsAscending (keys (extend_section section more file).sections)
unfolding extend_section
extend_section-IsAscending section more file a =
    subst IsAscending
      (sym (keys-insert_key file.sections section (directives_of section file ++ more)))
      (insert-IsAscending section (keys file.sections) a)
