-- ===== src/Config/Conditions.antt =====
-- Conditions: the prefixes of a value, the alternatives, and conditions on the environment.
pub mod Sections
use fractal_d.Base.{
  Bool, true, false, not, ◌&&◌, ◌||◌, Option, none, some, List, [], ◌∷◌, ◌++◌, Text, codes, text_eq,
  any, ◌==◌, split_once, is_ascii_alphanumeric, to_ascii_lowercase, if◌then◌else◌,
}
use fractal_d.Config.Error.{message_only, Parsed, ok, err}
use fractal_d.Config.Values.{is_one_of}
use fractal_d.Config.Signals.{is_name_char}
use fractal_d.Spec.Condition.{Condition, Conditions, any_of, nil, cons}

-- The loop of `condition_prefix`: whether there is a bar, and an odd number of exclamation marks.
unfoldable pub prefix_loop : Bool → Bool → Text → Bool × Bool × Text
prefix_loop alternative negate [] = (alternative, negate, [])
prefix_loop alternative negate (c ∷ cs) =
    let barred = prefix_loop true negate cs in
    let negated = prefix_loop alternative (not negate) cs in
    if c == b'|' then barred else if c == b'!' then negated else (alternative, negate, c ∷ cs)

unfoldable pub condition_prefix : Text → Bool × Bool × Text
unfolding prefix_loop
condition_prefix text = prefix_loop false false text

-- `Vec::push` on the conditions of an alternative
abbrev pub push : Conditions → Condition → Conditions
push nil condition = cons condition nil
push (cons c rest) condition = cons c (push rest condition)

-- An alternative to the condition before it
abbrev pub either : Condition → Condition → Condition
either (any_of others) condition = any_of (push others condition)
either previous condition = any_of (cons previous (cons condition nil))

-- The `match` on the last condition
unfoldable pub push_alternative : List Condition → Condition → List Condition
push_alternative [] condition = condition ∷ []
push_alternative (previous ∷ []) condition = either previous condition ∷ []
push_alternative (first ∷ second ∷ rest) condition =
    first ∷ push_alternative (second ∷ rest) condition

unfoldable pub push_condition : List Condition → Condition → Bool → List Condition
unfolding push_alternative
push_condition destination condition alternative =
    if alternative then push_alternative destination condition else destination ++ condition ∷ []

unfoldable pub valid_environment_name : Text → Bool
unfolding is_ascii_alphanumeric
valid_environment_name [] = false
valid_environment_name (c ∷ cs) =
    is_name_char c && not (any (λ d. not (is_ascii_alphanumeric d || d == b'_')) cs)

unfoldable pub parse_environment_condition : Text → Text → Parsed (Text × Option Text)
unfolding split_once valid_environment_name
parse_environment_condition text key =
    let parts : Text × Option Text = elim (split_once text b'=') [
      | none ↦ (text, none)
      | some (name, expected) ↦ (name, some expected)
    ] in
    if valid_environment_name parts.0
    then ok parts
    else err (message_only (codes "invalid " ++ key ++ codes " environment name " ++ parts.0))

unfoldable pub parse_needs_update_path : Text → Text → Parsed Text
parse_needs_update_path text key =
    if is_one_of (codes "/etc" ∷ codes "/var" ∷ []) text
    then ok text
    else err (message_only (key ++ codes " must be /etc or /var"))

unfoldable pub canonical_filesystem_type : Text → Text
unfolding to_ascii_lowercase
canonical_filesystem_type text =
    let lower = to_ascii_lowercase text in
    if is_one_of (codes "fat" ∷ codes "msdos" ∷ []) lower
    then codes "vfat"
    else if text_eq lower (codes "ext")
    then codes "ext4"
    else lower
