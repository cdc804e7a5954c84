-- ===== src/Config/Reader.antt =====
-- `NativeFile::parse`: lines, continuations, section headers and directives.
mod Placed
mod Reading
pub mod Lawful
use fractal_d.Base.{
  ℕ, suc, ◌+◌, Bool, true, false, not, ◌&&◌, ◌||◌, Option, none, some, List, [], ◌∷◌, ◌++◌, Text,
  codes, any, ◌==◌, is_ascii_alphanumeric, trim, trim_end, split_at, split_once, strip_suffix,
  starts_with, to_ascii_lowercase, if◌then◌else◌,
}
use Prim.Native.Nat.{◌%◌}
use fractal_d.Config.Error.{at, Parsed, ok, err, ◌>>=◌}
use fractal_d.Config.Schema.{Directive, validate_schema}
use fractal_d.Config.File.{NativeFile, extend_section, is_empty}

-- `strip_suffix('\r').unwrap_or(physical)`
unfoldable pub strip_return : Text → Text
strip_return line = elim (strip_suffix (codes "\r") line) [ none ↦ line | some rest ↦ rest ]

-- `str::lines`: a line feed ends a line, with the carriage return before it, and nothing stands
-- after the last one.
unfoldable pub end_lines : List Text → List Text
unfolding strip_return
end_lines [] = []
end_lines (piece ∷ []) = if is_empty piece then [] else piece ∷ []
end_lines (piece ∷ next ∷ rest) = strip_return piece ∷ end_lines (next ∷ rest)

unfoldable pub lines : Text → List Text
unfolding end_lines
lines source = end_lines (split_at b'\n' source)

-- The backslashes at the front
unfoldable pub backslashes : Text → ℕ
backslashes [] = 0
backslashes (c ∷ cs) = let rest = backslashes cs in if c == b'\\' then suc rest else 0

abbrev pub reversed : Text → Text
reversed [] = []
reversed (c ∷ cs) = reversed cs ++ c ∷ []

unfoldable pub has_continuation : Text → Bool
unfolding backslashes
has_continuation value = backslashes (reversed value) % 2 == 1

-- All but the last character
unfoldable pub without_last : Text → Text
without_last [] = []
without_last (c ∷ []) = []
without_last (c ∷ d ∷ cs) = c ∷ without_last (d ∷ cs)

unfoldable pub ends_with : ℕ → Text → Bool
ends_with x [] = false
ends_with x (c ∷ []) = c == x
ends_with x (c ∷ d ∷ cs) = ends_with x (d ∷ cs)

-- The variables of the loop.
pub record Reader : Type 0 where
  pub file : NativeFile
  pub section : Option Text
  pub logical : Text
  pub logical_line : ℕ

abbrev pub first_reader : Reader
first_reader = record {
  file = record { sections = [] };
  section = none;
  logical = [];
  logical_line = 0;
}

abbrev pub is_section_char : ℕ → Bool
is_section_char c = is_ascii_alphanumeric c || c == b'_'

abbrev pub is_key_char : ℕ → Bool
is_key_char c = is_ascii_alphanumeric c || c == b'_' || c == b'-'

abbrev pub without_first : Text → Text
without_first [] = []
without_first (c ∷ cs) = cs

-- A line that begins with a bracket
unfoldable pub read_header : Text → Reader → Parsed Reader
unfolding ends_with without_last extend_section
read_header line s =
    if not (ends_with b']' line)
    then err (at s.logical_line (codes "section header is missing its closing bracket"))
    else (let name = trim (without_first (without_last line)) in
        if is_empty name
          || any (λ c. c == b'[' || c == b']') name
          || any (λ c. not (is_section_char c)) name
        then err (at s.logical_line (codes "invalid section name"))
        else (let lower = to_ascii_lowercase name in
            ok (record s {
              section = some lower;
              file = extend_section lower [] s.file;
              logical = [];
            })))

-- The key and the value of a directive of a section
unfoldable pub add_directive : Text → Text → Text → Reader → Parsed Reader
unfolding extend_section
add_directive section_name key text s =
    if is_empty key || any (λ c. not (is_key_char c)) key
    then err (at s.logical_line (codes "invalid directive name"))
    else ok (record s {
      file =
          extend_section section_name
            (record {
              section = section_name;
              key = to_ascii_lowercase key;
              value = trim text;
              line = s.logical_line;
            }
              ∷ [])
            s.file;
      logical = [];
    })

unfoldable pub read_directive : Text → Reader → Parsed Reader
unfolding add_directive
read_directive line s = elim s.section [
  | none ↦ err (at s.logical_line (codes "directive appears before a section header"))
  | some section_name ↦ elim (split_once line b'=') [
    | none ↦ err (at s.logical_line (codes "directive is missing '='"))
    | some (key, text) ↦ add_directive section_name (trim key) text s
  ]
]

-- A whole line, without the white space around it.
unfoldable pub read_logical : Text → Reader → Parsed Reader
unfolding read_header read_directive
read_logical line s =
    if is_empty line || starts_with (codes "#") line || starts_with (codes ";") line
    then ok (record s { logical = [] })
    else if starts_with (codes "[") line
    then read_header line s
    else read_directive line s

abbrev pub begin_line : ℕ → Reader → Reader
begin_line n s = if is_empty s.logical then record s { logical_line = n } else s

-- One round of the loop, for the line of this number.
unfoldable pub read_physical : ℕ → Text → Reader → Parsed Reader
unfolding strip_return has_continuation read_logical without_last
read_physical n line r =
    let physical = strip_return line in
    let s = begin_line n r in
    if has_continuation physical
    then ok (record s { logical = s.logical ++ trim_end (without_last physical) ++ b' ' ∷ [] })
    else read_logical (trim (s.logical ++ physical)) s

unfoldable pub read_lines : ℕ → List Text → Reader → Parsed Reader
unfolding read_physical
read_lines n [] s = ok s
read_lines n (line ∷ rest) s = read_physical n line s >>= read_lines (suc n) rest

-- What stands after the loop.
unfoldable pub finish : Reader → Parsed NativeFile
finish s =
    if not (is_empty s.logical)
    then err (at s.logical_line (codes "unterminated line continuation"))
    else (validate_schema s.file.sections >>= λ _. ok s.file)

unfoldable pub parse : Text → Parsed NativeFile
unfolding lines read_lines finish
parse source = read_lines 1 (lines source) first_reader >>= finish
