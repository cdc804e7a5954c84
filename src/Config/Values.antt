-- ===== src/Config/Values.antt =====
-- The values of directives: switches, modes, limits, signals and exit statuses. A key of the source
-- is `key` here, and names the directive in the message.
pub mod Bounds
use Prim.Native.Nat.{◌%◌}
use fractal_d.Base.{
  ℕ, suc, ◌+◌, ◌-◌, ◌*◌, ◌^◌, Bool, true, false, not, ◌&&◌, ◌||◌, Option, none, some, List, [], ◌∷◌,
  ◌++◌, Text, codes, text_eq, any, ltb, leb, ◌==◌, ℤ, pos, negsuc, is_not_positive, digits,
  parse_number, trim, strip_prefix, strip_suffix, split_once, to_ascii_lowercase, map,
  if◌then◌else◌,
}
use fractal_d.BTree.Map.{TextMap, get}
use fractal_d.Config.Error.{ConfigError, message_only, Parsed, ok, err, ◌>>=◌}
use fractal_d.Spec.{LimitValue, max, value, LimitRange}
use fractal_d.Spec.{RestartPolicy, never, on_success, on_failure, on_abnormal, on_abort, always}

-- `ConfigError::message(format!("invalid {key}={value}"))`
abbrev pub invalid {ℓ} : {A : Type ℓ} → Text → Text → Parsed A
invalid key text = err (message_only (codes "invalid " ++ key ++ b'=' ∷ text))

-- `ok_or_else` and `map_err` with that error
abbrev pub or_invalid {ℓ} : {A : Type ℓ} → Text → Text → Option A → Parsed A
or_invalid key text none = invalid key text
or_invalid key text (some a) = ok a

abbrev pub is_one_of : List Text → Text → Bool
is_one_of names text = any (text_eq text) names

unfoldable pub parse_bool : Text → Text → Parsed Bool
unfolding trim to_ascii_lowercase text_eq
parse_bool text key =
    let lower = to_ascii_lowercase (trim text) in
    if is_one_of (codes "y" ∷ codes "yes" ∷ codes "true" ∷ codes "on" ∷ codes "1" ∷ []) lower
    then ok true
    else if is_one_of (codes "n" ∷ codes "no" ∷ codes "false" ∷ codes "off" ∷ codes "0" ∷ []) lower
    then ok false
    else invalid key lower

-- `u32::from_str_radix(value, 8)`
unfoldable pub parse_octal_from : ℕ → ℕ → Text → Option ℕ
parse_octal_from limit n [] = some n
parse_octal_from limit n (c ∷ cs) =
    let rest = parse_octal_from limit (n * 8 + (c - b'0')) cs in
    if leb b'0' c && leb c b'7' && ltb (n * 8 + (c - b'0')) limit then rest else none

unfoldable pub parse_octal : ℕ → Text → Option ℕ
unfolding parse_octal_from
parse_octal limit [] = none
parse_octal limit (c ∷ []) = parse_octal_from limit 0 (c ∷ [])
parse_octal limit (c ∷ d ∷ cs) =
    if c == b'+' then parse_octal_from limit 0 (d ∷ cs) else parse_octal_from limit 0 (c ∷ d ∷ cs)

unfoldable pub parse_mode : Text → Text → Parsed ℕ
unfolding trim strip_prefix parse_octal
parse_mode text key =
    let number : Text = elim (strip_prefix (codes "0o") (trim text)) [
      | some rest ↦ rest
      | none ↦ trim text
    ] in
    or_invalid key number (parse_octal (2 ^ 32) number) >>= λ mode.
    if ltb 4095 mode then invalid key number else ok mode

-- A suffix of a size with what it multiplies by.
abbrev pub size_suffixes : TextMap ℕ
size_suffixes =
    (codes "KiB", 2 ^ 10)
    ∷ (codes "MiB", 2 ^ 20)
    ∷ (codes "GiB", 2 ^ 30)
    ∷ (codes "TiB", 2 ^ 40)
    ∷ (codes "KB", 1000)
    ∷ (codes "MB", 1000000)
    ∷ (codes "GB", 1000000000)
    ∷ (codes "TB", 1000000000000)
    ∷ []

-- `find_map` over the suffixes, and `unwrap_or((value, 1))`
unfoldable pub cut_suffix : TextMap ℕ → Text → Text × ℕ
unfolding strip_suffix
cut_suffix [] text = (text, 1)
cut_suffix ((suffix, multiplier) ∷ rest) text = elim (strip_suffix suffix text) [
  | some number ↦ (number, multiplier)
  | none ↦ cut_suffix rest text
]

-- `checked_mul` of two `u64`
unfoldable pub checked_mul : ℕ → ℕ → Option ℕ
checked_mul a b = if ltb (a * b) (2 ^ 64) then some (a * b) else none

abbrev pub limit_of : Text → Text → ℕ → Text → Parsed LimitValue
limit_of key text multiplier number_text =
    or_invalid key text (parse_number (2 ^ 64) number_text) >>= λ number.
    or_invalid key text (checked_mul number multiplier) >>= λ product. ok (value product)

abbrev pub equals_ignoring_case : Text → Text → Bool
equals_ignoring_case a b = text_eq (to_ascii_lowercase a) (to_ascii_lowercase b)

unfoldable pub parse_limit : Text → Text → Bool → Parsed LimitValue
unfolding trim to_ascii_lowercase cut_suffix checked_mul parse_number text_eq
parse_limit raw key bytes =
    let text = trim raw in
    if equals_ignoring_case text (codes "max") || equals_ignoring_case text (codes "infinity")
    then ok max
    else (let cut : Text × ℕ = if bytes then cut_suffix size_suffixes text else (text, 1) in
        limit_of key text cut.1 cut.0)

abbrev pub is_disordered : LimitValue → LimitValue → Bool
is_disordered max (value right) = true
is_disordered (value left) (value right) = ltb right left
is_disordered left max = false

unfoldable pub parse_limit_range : Text → Text → Bool → Parsed LimitRange
unfolding parse_limit split_once
parse_limit_range text key bytes =
    let pair : Text × Text = elim (split_once text b':') [ none ↦ (text, text) | some p ↦ p ] in
    parse_limit pair.0 key bytes >>= λ soft. parse_limit pair.1 key bytes >>= λ hard.
    if is_disordered soft hard then invalid key text else ok (record { soft = soft; hard = hard })

-- `replace('-', "_")`
abbrev pub with_underscores : Text → Text
with_underscores = map (λ c. if c == b'-' then b'_' else c)

abbrev pub restarts : TextMap RestartPolicy
restarts =
    (codes "never", never)
    ∷ (codes "no", never)
    ∷ (codes "on_success", on_success)
    ∷ (codes "on_failure", on_failure)
    ∷ (codes "on_abnormal", on_abnormal)
    ∷ (codes "on_abort", on_abort)
    ∷ (codes "always", always)
    ∷ []

unfoldable pub parse_restart : Text → Parsed RestartPolicy
unfolding trim to_ascii_lowercase get
parse_restart text =
    let lower = with_underscores (to_ascii_lowercase (trim text)) in
    or_invalid (codes "restart") lower (get restarts lower)
