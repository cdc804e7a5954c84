-- ===== src/Spec/Validate/Sound.antt =====
-- What `ServiceSpec::validate` promises about a descriptor that it accepts.
use fractal_d.Base.{
  ◌≡◌, ◌≢◌, refl, ap, Bool, true, false, ◌||◌, Option, none, some, List, [], ◌∷◌, map, arith, Text,
  codes, text_eq, text_eq_iff, any, All, split_slash, is_absolute, is_whitespace, is_control,
  is_not_positive, ◌==◌, Bool-cases, inl, inr,
}
use fractal_d.BTree.Set.{contains, insert, contains-insert, IsDistinct}
use fractal_d.Spec.Commands.{CredentialSpec}
use fractal_d.Spec.Types.{ServiceSpec}
use fractal_d.Spec.Validate.{
  SpecError, empty_program, is_blank, is_unsafe_name, valid_credential_name, find_bad_credential,
  is_unsafe_path, find, report, failing, fails_if, validate, is_empty, ◌or_else◌,
}

-- A name that is one path component of visible characters.
pub record IsSafeName (name : Text) : Type 0 where
  pub given : name ≢ []
  pub visible :
      All (λ c. (is_whitespace c ≡ false) × (is_control c ≡ false) × ((c == b'/') ≡ false)) name
  pub not_dot : name ≢ codes "."
  pub not_dots : name ≢ codes ".."

-- An absolute path with no way up.
abbrev pub IsSafePath : Text → Type 0
IsSafePath path = (is_absolute path ≡ true) × (contains (split_slash path) (codes "..") ≡ false)

pub record IsSound (spec : ServiceSpec) : Type 0 where
  pub name : IsSafeName spec.name
  pub program : spec.program ≢ []
  pub aliases : All IsSafeName spec.aliases
  pub credentials : IsDistinct (map (λ c. c.name) spec.credentials)
  pub credential_names : All (λ c. valid_credential_name c.name ≡ true) spec.credentials
  pub read_write : All IsSafePath spec.read_write_paths
  pub read_only : All IsSafePath spec.read_only_paths
  pub inaccessible : All IsSafePath spec.inaccessible_paths
  pub signal : is_not_positive spec.kill_signal ≡ false
  pub restart_signal : failing is_not_positive spec.restart_kill_signal ≡ none

any-visible :
    (name : Text)
    → any (λ c. is_whitespace c || is_control c) name ≡ false
    → any (λ c. c == b'/') name ≡ false
    → All (λ c. (is_whitespace c ≡ false) × (is_control c ≡ false) × ((c == b'/') ≡ false)) name
any-visible [] h k = tt
any-visible (c ∷ cs) h k = ground (arith, any-visible cs)

any-contains :
    (pieces : List Text) (k : Text)
    → any (λ piece. text_eq piece k) pieces ≡ false
    → contains pieces k ≡ false
unfolding contains
any-contains [] k h = refl
any-contains (p ∷ ps) k h = ground (arith, any-contains ps k)

safe_name : (name : Text) → is_blank name ≡ false → is_unsafe_name name ≡ false → IsSafeName name
unfolding is_unsafe_name is_blank
safe_name name h k = record {
  given = λ e. cc (h, ap is_blank e);
  visible = any-visible name (ground arith) (ground arith);
  not_dot = λ e. ground (arith, k, text_eq_iff name (codes "."), e);
  not_dots = λ e. ground (arith, k, text_eq_iff name (codes ".."), e);
}

safe_path : (path : Text) → is_unsafe_path path ≡ false → IsSafePath path
unfolding is_unsafe_path
safe_path path h = (ground arith, any-contains (split_slash path) (codes "..") (ground arith))

find-All {ℓ κ} :
    {A : Type ℓ} {P : A → Type κ} (p : A → Bool) (xs : List A)
    → ((x : A) → p x ≡ false → P x)
    → find p xs ≡ none
    → All P xs
find-All p [] f h = tt
find-All p (x ∷ xs) f h = elim (Bool-cases (p x)) [
  | inl hit ↦ absurd (ground (arith, hit))
  | inr miss ↦ (f x miss, find-All p xs f (ground (arith, miss)))
]

names-fresh :
    (seen : List Text) (cs : List CredentialSpec) (k : Text)
    → find_bad_credential seen cs ≡ none
    → contains seen k ≡ true
    → contains (map (λ c. c.name) cs) k ≡ false
unfolding find_bad_credential contains
names-fresh seen [] k h m = refl
names-fresh seen (c ∷ cs) k h m = ground (
  arith,
  names-fresh (insert c.name seen) cs k,
  contains-insert c.name k seen,
  text_eq_iff c.name k,
)

names-IsDistinct :
    (seen : List Text) (cs : List CredentialSpec)
    → find_bad_credential seen cs ≡ none
    → IsDistinct (map (λ c. c.name) cs) × All (λ c. valid_credential_name c.name ≡ true) cs
unfolding find_bad_credential
names-IsDistinct seen [] h = (tt, tt)
names-IsDistinct seen (c ∷ cs) h = ground (
  arith,
  names-IsDistinct (insert c.name seen) cs,
  names-fresh (insert c.name seen) cs c.name,
  contains-insert c.name c.name seen,
  text_eq_iff c.name c.name,
)

orelse-none : (a b : Option SpecError) → (a or_else b) ≡ none → (a ≡ none) × (b ≡ none)
unfolding ◌or_else◌
orelse-none none b h = (refl, h)
orelse-none (some e) b h = cc

report-none {ℓ} : {A : Type ℓ} (f : A → SpecError) (o : Option A) → report f o ≡ none → o ≡ none
unfolding report
report-none f none h = refl
report-none f (some a) h = cc

fails_if-none : (b : Bool) (e : SpecError) → fails_if b e ≡ none → b ≡ false
unfolding fails_if
fails_if-none false e h = refl
fails_if-none true e h = cc

-- A descriptor that `validate` accepts is sound: its name and its aliases are visible one-component
-- names, it has a program, its credentials have valid and distinct names, the paths that it opens or
-- hides are absolute without a way up, and its kill signals are positive.
pub validate-IsSound : (spec : ServiceSpec) → validate spec ≡ none → IsSound spec
unfolding validate
validate-IsSound spec h =
    let (c₁, h₁) = orelse-none _ _ h in
    let (c₂, h₂) = orelse-none _ _ h₁ in
    let (c₃, h₃) = orelse-none _ _ h₂ in
    let (c₄, h₄) = orelse-none _ _ h₃ in
    let (c₅, h₅) = orelse-none _ _ h₄ in
    let (c₆, h₆) = orelse-none _ _ h₅ in
    let (c₇, h₇) = orelse-none _ _ h₆ in
    let (c₈, h₈) = orelse-none _ _ h₇ in
    let (c₉, h₉) = orelse-none _ _ h₈ in
    let (c₁₀, h₁₀) = orelse-none _ _ h₉ in
    let (c₁₁, h₁₁) = orelse-none _ _ h₁₀ in
    let (c₁₂, h₁₂) = orelse-none _ _ h₁₁ in
    let (c₁₃, c₁₄) = orelse-none _ _ h₁₂ in
    let (distinct, valid) = names-IsDistinct [] spec.credentials (report-none _ _ c₇) in
    record {
      name = safe_name spec.name (fails_if-none _ _ c₁) (fails_if-none _ _ c₂);
      program = λ e. cc (fails_if-none (is_empty spec.program) empty_program c₃, ap is_empty e);
      aliases =
          find-All _ spec.aliases (λ a k. safe_name a (ground (arith, k)) (ground (arith, k)))
            (report-none _ _ c₄);
      credentials = distinct;
      credential_names = valid;
      read_write = find-All _ spec.read_write_paths safe_path (report-none _ _ c₉);
      read_only = find-All _ spec.read_only_paths safe_path (report-none _ _ c₁₀);
      inaccessible = find-All _ spec.inaccessible_paths safe_path (report-none _ _ c₁₁);
      signal = fails_if-none _ _ c₁₃;
      restart_signal = report-none _ _ c₁₄;
    }
