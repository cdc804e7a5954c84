-- ===== src/Config/Schema.antt =====
-- `validate_schema`: the sections that a declaration may have, and the keys in each.
mod Keys
use fractal_d.Base.{ℕ, not, Option, none, some, List, [], ◌∷◌, ◌++◌, Text, codes, if◌then◌else◌}
use fractal_d.BTree.Set.{contains}
use fractal_d.BTree.Map.{TextMap, get}
use fractal_d.Config.Schema.Keys.{sections_allowed}
use fractal_d.Config.Error.{at, message_only, Parsed, ok, err, ◌>>=◌}

pub record Directive : Type 0 where
  pub section : Text
  pub key : Text
  pub value : Text
  pub line : ℕ

-- The closure `allowed`
unfoldable pub allowed : Text → Option (List Text)
unfolding get
allowed section = get sections_allowed section

-- The loop over the directives of a section
unfoldable pub check_directives : Text → List Text → List Directive → Parsed (Unit {0})
check_directives section keys [] = ok tt
check_directives section keys (d ∷ ds) =
    let rest = check_directives section keys ds in
    if not (contains keys d.key)
    then err (at d.line (codes "unsupported native directive " ++ section ++ b'.' ∷ d.key))
    else rest

unfoldable pub check_section : Text → List Directive → Parsed (Unit {0})
unfolding allowed check_directives
check_section section directives = elim (allowed section) [
  | none ↦ err (message_only (codes "unsupported native section [" ++ section ++ codes "]"))
  | some keys ↦ check_directives section keys directives
]

unfoldable pub validate_schema : TextMap (List Directive) → Parsed (Unit {0})
unfolding check_section
validate_schema [] = ok tt
validate_schema ((section, directives) ∷ rest) =
    check_section section directives >>= λ _. validate_schema rest
