-- ===== src/Config/Reader/Reading.antt =====
-- What every round of the loop keeps.
use fractal_d.Base.{
  ℕ, suc, ◌+◌, ◌≤◌, ◌≡◌, refl, ◌||◌, ap, sym, subst, true, some, List, [], ◌∷◌, ◌++◌, Text, codes,
  length, ◌⊎◌, arith, inl, inr, Bool-cases, Option-cases, trim, trim_end, starts_with,
  to_ascii_lowercase, split_once,
}
use fractal_d.BTree.Set.{IsAscending}
use fractal_d.BTree.Map.{keys}
use fractal_d.Config.Error.{ok, bind_ok}
use fractal_d.Config.Schema.{Directive}
use fractal_d.Config.File.{directives_of, extend_section, is_empty}
use fractal_d.Config.Reader.{
  Reader, without_first, without_last, strip_return, has_continuation, read_header, add_directive,
  read_directive, read_logical, begin_line, read_physical, read_lines,
}
use fractal_d.Config.Reader.Placed.{
  IsPlaced, IsPlaced-le, extend_section-IsPlaced, extend_section-IsAscending,
}

-- While the loop runs, with `count` lines read.
pub record IsReading (count : ℕ) (s : Reader) : Type 0 where
  pub ascending : IsAscending (keys s.file.sections)
  pub placed : (section : Text) → IsPlaced count section (directives_of section s.file)
  pub line : s.logical_line ≤ count
  pub begun : is_empty s.logical ≡ true ⊎ 1 ≤ s.logical_line

-- A line is done, with these directives read from it.
done-IsReading :
    (count : ℕ) (s r : Reader) (section : Text) (more : List Directive)
    → IsReading count s
    → IsPlaced count section more
    → r.file ≡ extend_section section more s.file
    → r.logical ≡ []
    → r.logical_line ≡ s.logical_line
    → IsReading count r
done-IsReading count s r section more i p file logical line = record {
  ascending =
      subst (λ f. IsAscending (keys f.sections)) (sym file)
        (extend_section-IsAscending section more s.file i.ascending);
  placed =
      subst (λ f. (k : Text) → IsPlaced count k (directives_of k f)) (sym file)
        (extend_section-IsPlaced count section more s.file i.placed p);
  line = omega (arith, i.line, line);
  begun = inl (ap is_empty logical);
}

read_header-IsReading :
    (count : ℕ) (text : Text) (s r : Reader)
    → read_header text s ≡ ok r
    → IsReading count s
    → IsReading count r
unfolding read_header
read_header-IsReading count text s r h i =
    let lower = to_ascii_lowercase (trim (without_first (without_last text))) in
    let same : record s {
      section = some lower;
      file = extend_section lower [] s.file;
      logical = [];
    }
        ≡ r =
      ground arith in
    done-IsReading count s r lower [] i tt (sym (ap (λ r. r.file) same))
      (sym (ap (λ r. r.logical) same)) (sym (ap (λ r. r.logical_line) same))

add_directive-IsReading :
    (count : ℕ) (section key text : Text) (s r : Reader)
    → add_directive section key text s ≡ ok r
    → 1 ≤ s.logical_line
    → IsReading count s
    → IsReading count r
unfolding add_directive
add_directive-IsReading count section key text s r h le i =
    let d : Directive = record {
      section = section;
      key = to_ascii_lowercase key;
      value = trim text;
      line = s.logical_line;
    } in
    let same : record s { file = extend_section section (d ∷ []) s.file; logical = [] } ≡ r =
      ground arith in
    done-IsReading count s r section (d ∷ []) i ((refl, le, i.line), tt)
      (sym (ap (λ r. r.file) same)) (sym (ap (λ r. r.logical) same))
      (sym (ap (λ r. r.logical_line) same))

read_directive-IsReading :
    (count : ℕ) (text : Text) (s r : Reader)
    → read_directive text s ≡ ok r
    → 1 ≤ s.logical_line
    → IsReading count s
    → IsReading count r
unfolding read_directive
read_directive-IsReading count text s r h le i = elim (Option-cases s.section) [
  | inl e ↦ absurd (ground (arith, e, h))
  | inr (section, e) ↦ elim (Option-cases (split_once text b'=')) [
    | inl f ↦ absurd (ground (arith, e, f, h))
    | inr (cut, f) ↦
        add_directive-IsReading count section (trim cut.0) cut.1 s r (ground (arith, e, f, h)) le i
  ]
]

-- A reader with the same file on the same line
IsReading-same :
    (count : ℕ) (s r : Reader)
    → IsReading count s
    → r.file ≡ s.file
    → r.logical_line ≡ s.logical_line
    → (is_empty r.logical ≡ true) ⊎ (1 ≤ r.logical_line)
    → IsReading count r
IsReading-same count s r i file line begun = record {
  ascending = subst (λ f. IsAscending (keys f.sections)) (sym file) i.ascending;
  placed = subst (λ f. (k : Text) → IsPlaced count k (directives_of k f)) (sym file) i.placed;
  line = omega (arith, i.line, line);
  begun = begun;
}

read_logical-IsReading :
    (count : ℕ) (text : Text) (s r : Reader)
    → read_logical text s ≡ ok r
    → 1 ≤ s.logical_line
    → IsReading count s
    → IsReading count r
unfolding read_logical
read_logical-IsReading count text s r h le i =
    elim (Bool-cases
      (is_empty text || starts_with (codes "#") text || starts_with (codes ";") text)) [
        | inl blank ↦
            let same : record s { logical = [] } ≡ r = ground (arith, blank, h) in
            IsReading-same count s r i (sym (ap (λ r. r.file) same))
              (sym (ap (λ r. r.logical_line) same)) (inl (sym (ap (λ r. is_empty r.logical) same)))
        | inr full ↦ elim (Bool-cases (starts_with (codes "[") text)) [
          | inl header ↦ read_header-IsReading count text s r (ground (arith, full, header, h)) i
          | inr plain ↦
              read_directive-IsReading count text s r (ground (arith, full, plain, h)) le i
        ]
      ]

IsReading-suc : (count : ℕ) (s : Reader) → IsReading count s → IsReading (suc count) s
IsReading-suc count s i = record {
  ascending = i.ascending;
  placed = λ k. IsPlaced-le count (suc count) k (directives_of k s.file) (omega arith) (i.placed k);
  line = omega (arith, i.line);
  begun = i.begun;
}

begin_line-IsReading :
    (count : ℕ) (s : Reader)
    → IsReading count s
    → IsReading (suc count) (begin_line (suc count) s)
      × (1 ≤ (begin_line (suc count) s).logical_line)
begin_line-IsReading count s i = elim (Bool-cases (is_empty s.logical)) [
  | inl fresh ↦ rw fresh (
    record {
      ascending = i.ascending;
      placed = (IsReading-suc count s i).placed;
      line = omega arith;
      begun = inl fresh;
    },
    omega arith,
  )
  | inr going ↦ rw going (IsReading-suc count s i, ground (arith, i.begun, going))
]

read_physical-IsReading :
    (count : ℕ) (line : Text) (s r : Reader)
    → read_physical (suc count) line s ≡ ok r
    → IsReading count s
    → IsReading (suc count) r
unfolding read_physical
read_physical-IsReading count line s r h i =
    let begun = begin_line (suc count) s in
    let (j, le) = begin_line-IsReading count s i in
    let physical = strip_return line in
    elim (Bool-cases (has_continuation physical)) [
      | inl more ↦
          let same : record begun {
            logical = begun.logical ++ trim_end (without_last physical) ++ b' ' ∷ [];
          }
              ≡ r =
            ground (arith, more, h) in
          IsReading-same (suc count) begun r j (sym (ap (λ r. r.file) same))
            (sym (ap (λ r. r.logical_line) same))
            (inr (subst (λ n. 1 ≤ n) (ap (λ r. r.logical_line) same) le))
      | inr whole ↦
          read_logical-IsReading (suc count) (trim (begun.logical ++ physical)) begun r
            (ground (arith, whole, h)) le j
    ]

pub read_lines-IsReading :
    (count : ℕ) (rest : List Text) (s r : Reader)
    → read_lines (suc count) rest s ≡ ok r
    → IsReading count s
    → IsReading (count + length rest) r
unfolding read_lines
read_lines-IsReading count [] s r h i =
    subst (λ n. IsReading n r) (omega arith)
      (subst (IsReading count) (let same : s ≡ r = ground (arith, h) in same) i)
read_lines-IsReading count (line ∷ rest) s r h i =
    let (t, e, f) = bind_ok (read_physical (suc count) line s) _ h in
    subst (λ n. IsReading n r) (omega arith)
      (read_lines-IsReading (suc count) rest t r f (read_physical-IsReading count line s t e i))
