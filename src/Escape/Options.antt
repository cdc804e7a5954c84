-- ===== src/Escape/Options.antt =====
-- The arguments of `fractald-escape`, and `transform`.
use fractal_d.Base.{
  ℕ, zero, suc, ◌≡◌, Bool, true, false, not, ◌&&◌, ◌||◌, Option, none, some, List, [], ◌∷◌, ◌++◌,
  Text, codes, text_eq, length, ◌==◌, strip_prefix, starts_with, split_once, if◌then◌else◌, arith,
  ◌⊎◌, inl, inr,
}
use fractal_d.Escape.Encode.{escape, path_escape, mangle, trim_start_at, is_empty}
use fractal_d.Escape.Decode.{Run, done, ◌>>=◌, unescape, path_unescape, instance_part}

pub record Options : Type 0 where
  pub unescape : Bool
  pub mangle : Bool
  pub path : Bool
  pub instance_only : Bool
  pub suffix : Option Text
  pub template : Option Text
  pub exit : Bool

-- `Options::default()`
abbrev pub default : Options
default = record {
  unescape = false;
  mangle = false;
  path = false;
  instance_only = false;
  suffix = none;
  template = none;
  exit = false;
}

pub data ArgsError : Type 0 where
  suffix_wants_value template_wants_value : ArgsError
  unsupported_option : Text → ArgsError
  needs_escaping suffix_with_template instance_wants_unescape mangle_with_path : ArgsError

pub data Parsed : Type 0 where
  parsed : Options → List Text → Parsed
  rejected : ArgsError → Parsed

-- What one argument says.
pub data Argument : Type 0 where
  ends set_unescape set_mangle set_path set_instance suffix_next template_next : Argument
  suffix_is template_is unsupported plain : Text → Argument

-- `trim_start_matches` at a text: the prefix is taken off as often as it stands there.
unfoldable pub trim_prefixes : ℕ → Text → Text → Text
trim_prefixes zero prefix text = text
trim_prefixes (suc fuel) prefix text = elim (strip_prefix prefix text) [
  | none ↦ text
  | some rest ↦ trim_prefixes fuel prefix rest
]

abbrev pub is : Text → Text → Text → Bool
is argument long short = text_eq argument long || text_eq argument short

unfoldable pub read_argument : Text → Argument
unfolding trim_prefixes
read_argument argument =
    if is argument (codes "--help") (codes "-h") || text_eq argument (codes "--version")
    then ends
    else if is argument (codes "--unescape") (codes "-u")
    then set_unescape
    else if is argument (codes "--mangle") (codes "-m")
    then set_mangle
    else if is argument (codes "--path") (codes "-p")
    then set_path
    else if text_eq argument (codes "--instance")
    then set_instance
    else if text_eq argument (codes "--suffix")
    then suffix_next
    else if starts_with (codes "--suffix=") argument
    then suffix_is (trim_prefixes (length argument) (codes "--suffix=") argument)
    else if text_eq argument (codes "--template")
    then template_next
    else if starts_with (codes "--template=") argument
    then template_is (trim_prefixes (length argument) (codes "--template=") argument)
    else if starts_with (codes "-") argument
    then unsupported argument
    else plain argument

abbrev pub has_text : Option Text → Bool
has_text none = false
has_text (some text) = true

-- The four refusals after the loop.
unfoldable pub check_options : Options → List Text → Parsed
check_options o values =
    if o.unescape && (has_text o.suffix || has_text o.template)
    then rejected needs_escaping
    else if has_text o.suffix && has_text o.template
    then rejected suffix_with_template
    else if o.instance_only && not o.unescape
    then rejected instance_wants_unescape
    else if o.mangle && o.path
    then rejected mangle_with_path
    else parsed o values

-- The option whose value the next argument is.
pub data Pending : Type 0 where
  nothing suffix_value template_value : Pending

-- The `match` on one argument; `again` is the loop over the rest.
unfoldable pub parse_argument :
    Argument → (Pending → Options → List Text → Parsed) → Options → List Text → Parsed
parse_argument ends again o values = parsed (record o { exit = true }) []
parse_argument set_unescape again o values = again nothing (record o { unescape = true }) values
parse_argument set_mangle again o values = again nothing (record o { mangle = true }) values
parse_argument set_path again o values = again nothing (record o { path = true }) values
parse_argument set_instance again o values =
    again nothing (record o { instance_only = true }) values
parse_argument suffix_next again o values = again suffix_value o values
parse_argument template_next again o values = again template_value o values
parse_argument (suffix_is text) again o values =
    again nothing (record o { suffix = some text }) values
parse_argument (template_is text) again o values =
    again nothing (record o { template = some text }) values
parse_argument (unsupported text) again o values = rejected (unsupported_option text)
parse_argument (plain text) again o values = again nothing o (values ++ text ∷ [])

unfoldable pub parse_loop : List Text → Pending → Options → List Text → Parsed
unfolding read_argument check_options parse_argument
parse_loop [] nothing o values = check_options o values
parse_loop [] suffix_value o values = rejected suffix_wants_value
parse_loop [] template_value o values = rejected template_wants_value
parse_loop (value ∷ rest) suffix_value o values =
    parse_loop rest nothing (record o { suffix = some value }) values
parse_loop (value ∷ rest) template_value o values =
    parse_loop rest nothing (record o { template = some value }) values
parse_loop (argument ∷ rest) nothing o values =
    parse_argument (read_argument argument) (parse_loop rest) o values

unfoldable pub parse_args : List Text → Parsed
parse_args arguments = parse_loop arguments nothing default []

-- `template.contains("%i")`
unfoldable pub has_specifier : Text → Bool
has_specifier [] = false
has_specifier (c ∷ cs) = starts_with (codes "%i") (c ∷ cs) || has_specifier cs

-- `template.replace("%i", instance)`
unfoldable pub replace_specifier : Text → Text → Text
replace_specifier inst [] = []
replace_specifier inst (c ∷ []) = c ∷ []
replace_specifier inst (c ∷ d ∷ rest) = elim (c == b'%' && d == b'i') [
  | true ↦ inst ++ replace_specifier inst rest
  | false ↦ c ∷ replace_specifier inst (d ∷ rest)
]

unfoldable pub template_instance : Text → Text → Text
unfolding has_specifier replace_specifier
template_instance template inst =
    if has_specifier template
    then replace_specifier inst template
    else elim (split_once template b'@') [
      | some (before, after) ↦ before ++ b'@' ∷ (inst ++ trim_start_at b'@' after)
      | none ↦ template ++ b'@' ∷ inst
    ]

abbrev pub with_suffix : Option Text → Text → Text
with_suffix none output = output
with_suffix (some suffix) output =
    let trimmed = trim_start_at b'.' suffix in
    if is_empty trimmed then output else output ++ b'.' ∷ trimmed

unfoldable pub transform : Text → Options → Run Text
unfolding template_instance
transform value o =
    if o.unescape
    then (if o.path
        then path_unescape value
        else (unescape value >>= λ decoded.
            done (if o.instance_only then instance_part decoded else decoded)))
    else (let output =
          if o.path then path_escape value else if o.mangle then mangle value else escape value in
        let named : Text = elim o.template [
          | none ↦ output
          | some template ↦ template_instance template output
        ] in
        done (with_suffix o.suffix named))

-- Options that go together.
pub record IsConsistent (o : Options) : Type 0 where
  pub escaping : o.unescape ≡ true → (o.suffix ≡ none) × (o.template ≡ none)
  pub one_name : (o.suffix ≡ none) ⊎ (o.template ≡ none)
  pub decoding : o.instance_only ≡ true → o.unescape ≡ true
  pub one_mode : (o.mangle ≡ false) ⊎ (o.path ≡ false)

check_options-IsConsistent :
    (o p : Options) (values vs : List Text) → check_options o values ≡ parsed p vs → IsConsistent p
unfolding check_options
check_options-IsConsistent o p values vs h = ground arith

module _ (again : Pending → Options → List Text → Parsed) (p : Options) (vs : List Text)
    (ih : (pending : Pending) (o : Options) (values : List Text)
      → again pending o values ≡ parsed p vs
      → (p.exit ≡ true) ⊎ IsConsistent p) where
  parse_argument-IsConsistent :
      (a : Argument) (o : Options) (values : List Text)
      → parse_argument a again o values ≡ parsed p vs
      → (p.exit ≡ true) ⊎ IsConsistent p
  unfolding parse_argument
  parse_argument-IsConsistent ends o values h = inl (ground arith)
  parse_argument-IsConsistent (unsupported text) o values h = cc
  parse_argument-IsConsistent a o values h = ih _ _ _ h

parse_loop-IsConsistent :
    (arguments : List Text) (pending : Pending) (o p : Options) (values vs : List Text)
    → parse_loop arguments pending o values ≡ parsed p vs
    → (p.exit ≡ true) ⊎ IsConsistent p
unfolding parse_loop
parse_loop-IsConsistent [] nothing o p values vs h =
    inr (check_options-IsConsistent o p values vs h)
parse_loop-IsConsistent [] suffix_value o p values vs h = cc
parse_loop-IsConsistent [] template_value o p values vs h = cc
parse_loop-IsConsistent (value ∷ rest) suffix_value o p values vs h =
    parse_loop-IsConsistent rest nothing (record o { suffix = some value }) p values vs h
parse_loop-IsConsistent (value ∷ rest) template_value o p values vs h =
    parse_loop-IsConsistent rest nothing (record o { template = some value }) p values vs h
parse_loop-IsConsistent (argument ∷ rest) nothing o p values vs h =
    parse_argument-IsConsistent (parse_loop rest) p vs
      (λ pending o' values'. parse_loop-IsConsistent rest pending o' p values' vs)
      (read_argument argument) o values h

-- Options that are accepted go together, unless they only ask for the help or the version.
pub parse_args-IsConsistent :
    (arguments : List Text) (o : Options) (values : List Text)
    → parse_args arguments ≡ parsed o values
    → (o.exit ≡ true) ⊎ IsConsistent o
unfolding parse_args
parse_args-IsConsistent arguments o values h =
    parse_loop-IsConsistent arguments nothing default o [] values h
