-- ===== src/Config/Lookup.antt =====
-- What the parsers of the sections ask of a file: values of a type, lists of words, paths, names and
-- commands.
use fractal_d.Base.{
  ℕ, ◌^◌, Bool, true, false, not, ◌&&◌, ◌||◌, Option, none, some, List, [], ◌∷◌, ◌++◌, map, Text,
  codes, text_eq, any, keep, ◌==◌, trim, is_whitespace, is_control, is_ascii_alphanumeric,
  is_absolute, split_slash, parse_number, if◌then◌else◌,
}
use fractal_d.Config.Error.{at, message_only, Parsed, ok, err, ◌>>=◌}
use fractal_d.Config.Schema.{Directive}
use fractal_d.Config.File.{NativeFile, directives, effective_directives, value, last, is_empty}
use fractal_d.Config.Values.{or_invalid, parse_bool, parse_limit}
use fractal_d.Config.Words.{split_words}
use fractal_d.Spec.{LimitValue, CommandSpec}

unfoldable pub required : Text → Text → NativeFile → Parsed Text
unfolding value trim
required section key file =
    let missing : Parsed Text = err (message_only (b'[' ∷ section ++ codes "] has no " ++ key)) in
    elim (value section key file) [
      | none ↦ missing
      | some text ↦ if is_empty (trim text) then missing else ok text
    ]

unfoldable pub line_of : Text → Text → NativeFile → ℕ
unfolding directives
line_of section key file = elim (last (directives section key file)) [ none ↦ 0 | some d ↦ d.line ]

-- The loop of `list_values`
unfoldable pub words_of : List Directive → Parsed (List Text)
words_of [] = ok []
words_of (d ∷ ds) = do first ← split_words d.value d.line; rest ← words_of ds; ok (first ++ rest)

unfoldable pub list_values : Text → Text → NativeFile → Parsed (List Text)
unfolding effective_directives words_of
list_values section key file = words_of (effective_directives section key file)

unfoldable pub list_values_optional : Text → Text → NativeFile → Parsed (Option (List Text))
unfolding effective_directives list_values
list_values_optional section key file = elim (effective_directives section key file) [
  | [] ↦ ok none
  | d ∷ ds ↦ list_values section key file >>= λ values. ok (some values)
]

unfoldable pub values_as_strings : Text → Text → NativeFile → List Text
unfolding effective_directives
values_as_strings section key file =
    keep (λ text. not (is_empty text)) (map (λ d. d.value) (effective_directives section key file))

-- `value.map(parse).transpose()`
abbrev pub transposed {ℓ} : {A : Type ℓ} → (Text → Parsed A) → Option Text → Parsed (Option A)
transposed parse none = ok none
transposed parse (some text) = parse text >>= λ a. ok (some a)

unfoldable pub bool_value : Text → Text → NativeFile → Parsed (Option Bool)
unfolding value
bool_value section key file = transposed (λ text. parse_bool text key) (value section key file)

unfoldable pub number_value : Text → NativeFile → Parsed (Option ℕ)
unfolding value
number_value key file =
    transposed (λ text. or_invalid key text (parse_number (2 ^ 64) text))
      (value (codes "resources") key file)

unfoldable pub limit_value : Text → Bool → NativeFile → Parsed (Option LimitValue)
unfolding value
limit_value key bytes file =
    transposed (λ text. parse_limit text key bytes) (value (codes "resources") key file)

-- A path that `paths` refuses
abbrev pub is_unsafe : Text → Bool
is_unsafe path =
    not (is_absolute path) || any (λ piece. text_eq piece (codes "..")) (split_slash path)

-- The loop over the values
unfoldable pub check_paths : Text → Text → List Text → Parsed (Unit {0})
check_paths section key [] = ok tt
check_paths section key (path ∷ rest) =
    let more = check_paths section key rest in
    if is_unsafe path
    then err (message_only (section ++ b'.' ∷ (key ++ codes " path is unsafe: " ++ path)))
    else more

unfoldable pub paths : Text → Text → NativeFile → Parsed (List Text)
unfolding list_values check_paths
paths section key file = list_values section key file >>= λ values.
    check_paths section key values >>= λ checked. ok values

abbrev pub is_dots : Text → Bool
is_dots name = is_empty name || text_eq name (codes ".") || text_eq name (codes "..")

unfoldable pub has_valid_name : Text → Bool
unfolding is_whitespace is_control
has_valid_name name =
    not (is_dots name)
    && not (any (λ c. c == b'/') name)
    && not (any (λ c. is_whitespace c || is_control c) name)

unfoldable pub validate_credential_name : Text → ℕ → Parsed (Unit {0})
unfolding is_ascii_alphanumeric
validate_credential_name name line =
    if is_dots name
      || text_eq name (codes ".fractald-owner")
      || any (λ c. not (is_ascii_alphanumeric c || c == b'_' || c == b'-' || c == b'.')) name
    then err (at line (codes "invalid credential name " ++ name))
    else ok tt

-- `CommandSpec::new`
abbrev pub new_command : Text → CommandSpec
new_command program = record {
  program = program;
  args = [];
  ignore_failure = false;
  argv0 = none;
  expand_environment = true;
}

unfoldable pub parse_command : Text → ℕ → Parsed CommandSpec
parse_command text line = split_words text line >>= λ words. elim words [
  | [] ↦ err (at line (codes "command is empty"))
  | program ∷ args ↦ ok (record (new_command program) { args = args })
]
