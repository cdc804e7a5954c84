-- ===== src/Config/File/Merge.antt =====
-- What a merged file answers.
use fractal_d.Base.{
  ◌≡◌, refl, ◌∙◌, ap, sym, Bool, true, false, Option, some, List, [], ◌∷◌, ◌++◌, Text, text_eq,
  keep, to_ascii_lowercase, if◌then◌else◌, arith, text_eq_iff,
}
use mathlib.Core.List.{append-nil}
use fractal_d.BTree.Set.{contains, IsDistinct, IsAscending, ascending-IsDistinct}
use fractal_d.BTree.Map.{TextMap, get, keys, get-insert_key, get-absent}
use fractal_d.Config.Schema.{Directive}
use fractal_d.Config.File.{
  NativeFile, is_reset_key, directives_of, directives, effective_from, effective_directives,
  extend_section, merge_sections, merge, last, text_of, value,
}

pub directives_of-extend_section :
    (section other : Text) (more : List Directive) (file : NativeFile)
    → directives_of other (extend_section section more file) ≡ (
        if text_eq section other
        then directives_of other file ++ more
        else directives_of other file)
unfolding directives_of extend_section
directives_of-extend_section section other more file = ground (
  arith,
  get-insert_key file.sections section other (directives_of section file ++ more),
  text_eq_iff section other,
)

abbrev listed : TextMap (List Directive) → Text → List Directive
listed m k = directives_of k (record { sections = m })

listed_absent :
    (m : TextMap (List Directive)) (j k : Text)
    → contains (keys m) j ≡ false
    → text_eq j k ≡ true
    → listed m k ≡ []
unfolding directives_of
listed_absent m j k h e = ground (arith, get-absent m j h, text_eq_iff j k, e)

listed-cons :
    (section : Text) (ds : List Directive) (rest : TextMap (List Directive)) (k : Text)
    → contains (keys rest) section ≡ false
    → (base : List Directive)
    → (if text_eq section k then base ++ ds else base) ++ listed rest k
      ≡ base ++ listed ((section, ds) ∷ rest) k
unfolding directives_of get
listed-cons section ds rest k h base =
    ground (arith, listed_absent rest section k h, append-nil (base ++ ds))

directives_of-merge_sections :
    (m : TextMap (List Directive)) (k : Text) (file : NativeFile)
    → IsDistinct (keys m)
    → directives_of k (merge_sections file m) ≡ directives_of k file ++ listed m k
unfolding merge_sections directives_of keys get
directives_of-merge_sections [] k file d = sym (append-nil (directives_of k file))
directives_of-merge_sections ((section, ds) ∷ rest) k file d =
    directives_of-merge_sections rest k (extend_section section ds file) d.1
    ∙ ap (λ l. l ++ listed rest k) (directives_of-extend_section section k ds file)
    ∙ listed-cons section ds rest k d.0 (directives_of k file)

keep-append :
    (p : Directive → Bool) (xs ys : List Directive) → keep p (xs ++ ys) ≡ keep p xs ++ keep p ys
keep-append p [] ys = refl
keep-append p (x ∷ xs) ys = ground (arith, keep-append p xs ys)

-- The directives of a merged file are those of the file and then those of the overlay.
directives-merge :
    (file overlay : NativeFile) (section key : Text)
    → IsDistinct (keys overlay.sections)
    → directives section key (merge file overlay)
      ≡ directives section key file ++ directives section key overlay
unfolding directives merge
directives-merge file overlay section key d =
    ap (keep (λ d. text_eq d.key (to_ascii_lowercase key)))
      (directives_of-merge_sections overlay.sections (to_ascii_lowercase section) file d)
    ∙ keep-append (λ d. text_eq d.key (to_ascii_lowercase key))
        (directives_of (to_ascii_lowercase section) file)
        (directives_of (to_ascii_lowercase section) overlay)

effective_from-append :
    (r : Bool) (effective xs ys : List Directive)
    → effective_from r effective (xs ++ ys) ≡ effective_from r (effective_from r effective xs) ys
unfolding effective_from
effective_from-append r effective [] ys = refl
effective_from-append r effective (x ∷ xs) ys = effective_from-append r _ xs ys

last-append : (xs : List Directive) (d : Directive) → last (xs ++ d ∷ []) ≡ some d
last-append [] d = refl
last-append (x ∷ []) d = refl
last-append (x ∷ y ∷ xs) d = last-append (y ∷ xs) d

-- The last directive does not depend on what came before the loop.
last-effective_from :
    (r : Bool) (before other ds : List Directive)
    → last before ≡ last other
    → last (effective_from r before ds) ≡ last (effective_from r other ds)
unfolding effective_from
last-effective_from r before other [] same = same
last-effective_from r before other (x ∷ ds) same =
    last-effective_from r _ _ ds (ground (arith, last-append before x, last-append other x))

last-effective_from_cons :
    (r : Bool) (before ds : List Directive) (x : Directive)
    → last (effective_from r before (x ∷ ds)) ≡ last (effective_from r [] (x ∷ ds))
unfolding effective_from
last-effective_from_cons r before ds x =
    last-effective_from r _ _ ds (ground (arith, last-append before x))

effective_directives-merge :
    (file overlay : NativeFile) (section key : Text)
    → IsDistinct (keys overlay.sections)
    → effective_directives section key (merge file overlay)
      ≡ effective_from
          (is_reset_key section key)
          (effective_directives section key file)
          (directives section key overlay)
unfolding effective_directives
effective_directives-merge file overlay section key d =
    ap (effective_from (is_reset_key section key) []) (directives-merge file overlay section key d)
    ∙ effective_from-append (is_reset_key section key) [] (directives section key file)
        (directives section key overlay)

-- The overlay answers for the keys that it mentions, the file for the others.
abbrev pub answer : List Directive → Option Text → Option Text → Option Text
answer [] of_file of_overlay = of_file
answer (d ∷ ds) of_file of_overlay = of_overlay

text_of_rest :
    (r : Bool) (before ds : List Directive)
    → text_of (last (effective_from r before ds))
      ≡ answer ds (text_of (last before)) (text_of (last (effective_from r [] ds)))
unfolding effective_from
text_of_rest r before [] = refl
text_of_rest r before (x ∷ ds) = ap text_of (last-effective_from_cons r before ds x)

-- After a merge the overlay alone answers for a key that it mentions, were it by a reset, and the
-- file for every other key.
pub value-merge :
    (file overlay : NativeFile) (section key : Text)
    → IsAscending (keys overlay.sections)
    → value section key (merge file overlay)
      ≡ answer (directives section key overlay) (value section key file) (value section key overlay)
unfolding value effective_directives
value-merge file overlay section key a =
    ap (λ l. text_of (last l))
      (effective_directives-merge file overlay section key
        (ascending-IsDistinct (keys overlay.sections) a))
    ∙ text_of_rest (is_reset_key section key) (effective_directives section key file)
        (directives section key overlay)
