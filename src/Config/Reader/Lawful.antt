-- ===== src/Config/Reader/Lawful.antt =====
-- What holds of every file that the parser accepts.
use fractal_d.Base.{
  ℕ, ◌≡◌, refl, sym, subst, true, Option, none, some, List, [], ◌∷◌, Text, All, length, arith, inl,
  inr, Bool-cases, Option-cases,
}
use fractal_d.BTree.Set.{contains, IsAscending}
use fractal_d.BTree.Map.{TextMap, get, keys}
use fractal_d.Config.Error.{ok, ◌>>=◌, bind_ok}
use fractal_d.Config.Schema.{Directive, allowed, check_directives, check_section, validate_schema}
use fractal_d.Config.File.{NativeFile, directives_of, is_empty}
use fractal_d.Config.Reader.{Reader, first_reader, read_lines, finish, lines, parse}
use fractal_d.Config.Reader.Placed.{IsPlaced}
use fractal_d.Config.Reader.Reading.{IsReading, read_lines-IsReading}

-- The section is one that may be, with keys that may be there.
abbrev pub IsKnown : Option (List Text) → List Directive → Type 0
IsKnown none ds = ⊥
IsKnown (some ks) ds = All (λ d. contains ks d.key ≡ true) ds

pub record IsLawful (count : ℕ) (file : NativeFile) : Type 0 where
  pub ascending : IsAscending (keys file.sections)
  pub placed : (section : Text) → IsPlaced count section (directives_of section file)
  pub known : All (λ entry. IsKnown (allowed entry.0) entry.1) file.sections

-- The schema.
check_directives-IsKnown :
    (section : Text) (ks : List Text) (ds : List Directive)
    → check_directives section ks ds ≡ ok tt
    → All (λ d. contains ks d.key ≡ true) ds
unfolding check_directives
check_directives-IsKnown section ks [] h = tt
check_directives-IsKnown section ks (d ∷ ds) h =
    (ground arith, check_directives-IsKnown section ks ds (ground arith))

check_section-IsKnown :
    (section : Text) (ds : List Directive)
    → check_section section ds ≡ ok tt
    → IsKnown (allowed section) ds
unfolding check_section
check_section-IsKnown section ds h = elim (Option-cases (allowed section)) [
  | inl e ↦ absurd (ground (arith, e, h))
  | inr (ks, e) ↦
      subst (λ o. IsKnown o ds) (sym e)
        (check_directives-IsKnown section ks ds (ground (arith, e, h)))
]

validate_schema-IsKnown :
    (m : TextMap (List Directive))
    → validate_schema m ≡ ok tt
    → All (λ entry. IsKnown (allowed entry.0) entry.1) m
unfolding validate_schema
validate_schema-IsKnown [] h = tt
validate_schema-IsKnown ((section, ds) ∷ rest) h =
    let (u, e, f) = bind_ok (check_section section ds) _ h in
    (check_section-IsKnown section ds e, validate_schema-IsKnown rest f)

first_reader-IsReading : IsReading 0 first_reader
unfolding directives_of get keys
first_reader-IsReading = record {
  ascending = tt;
  placed = λ k. tt;
  line = omega arith;
  begun = inl refl;
}

finish-IsKnown :
    (s : Reader) (file : NativeFile)
    → finish s ≡ ok file
    → (s.file ≡ file) × All (λ entry. IsKnown (allowed entry.0) entry.1) s.file.sections
unfolding finish
finish-IsKnown s file h = elim (Bool-cases (is_empty s.logical)) [
  | inr unfinished ↦ absurd (ground (arith, unfinished, h))
  | inl complete ↦
      let checked : (validate_schema s.file.sections >>= λ u. ok s.file) ≡ ok file =
        ground (arith, complete, h) in
      let (u, e, f) = bind_ok (validate_schema s.file.sections) _ checked in
      (ground (arith, f), validate_schema-IsKnown s.file.sections e)
]

-- Of every text that is accepted, the file has its sections in order, each once and one of those
-- that there are, its keys are those of their sections, and each directive is filed under the
-- section that it says, with the number of a line of the text.
pub parse-IsLawful :
    (source : Text) (file : NativeFile)
    → parse source ≡ ok file
    → IsLawful (length (lines source)) file
unfolding parse finish
parse-IsLawful source file h =
    let (s, read, last) = bind_ok (read_lines 1 (lines source) first_reader) _ h in
    let (file_same, known) = finish-IsKnown s file last in
    let i = read_lines-IsReading 0 (lines source) first_reader s read first_reader-IsReading in
    subst (IsLawful (length (lines source))) file_same (record {
      ascending = i.ascending;
      placed =
          subst (λ n. (k : Text) → IsPlaced n k (directives_of k s.file)) (omega arith) i.placed;
      known = known;
    })
