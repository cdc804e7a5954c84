-- ===== src/Config/SyscallFilter.antt =====
-- `parse_syscall_filter`.
use fractal_d.Base.{
  ℕ, Bool, true, false, Option, none, some, List, [], ◌∷◌, Text, codes, ℤ, strip_prefix, split_once,
  if◌then◌else◌,
}
use fractal_d.BTree.Map.{TextMap, insert_key}
use fractal_d.Config.Error.{at, Parsed, ok, err, ◌>>=◌}
use fractal_d.Config.Schema.{Directive}
use fractal_d.Config.File.{NativeFile, effective_directives, is_empty}
use fractal_d.Config.Words.{split_words}
use fractal_d.Config.Groups.{expand_group}
use fractal_d.Config.Signals.{parse_errno}
use fractal_d.Spec.Modes.{
  SystemCallRule, SystemCallRuleAction, SystemCallFilter, allow, deny, deny_with_errno,
}

-- What a word of the filter names: the calls of a group, or one call.
abbrev pub calls_of : Text → List Text
calls_of name = elim (expand_group name) [ none ↦ name ∷ [] | some calls ↦ calls ]

abbrev pub action_of : Bool → Option ℤ → SystemCallRuleAction
action_of true none = deny
action_of true (some errno) = deny_with_errno errno
action_of false errno = allow

unfoldable pub insert_all :
    List Text → SystemCallRuleAction → TextMap SystemCallRuleAction → TextMap SystemCallRuleAction
unfolding insert_key
insert_all [] action rules = rules
insert_all (name ∷ rest) action rules = insert_all rest action (insert_key name action rules)

-- The name before a colon, and the error after it
unfoldable pub split_errno : Text → Parsed (Text × Option ℤ)
unfolding split_once parse_errno
split_errno word = elim (split_once word b':') [
  | none ↦ ok (word, none)
  | some (name, errno) ↦
      parse_errno errno (codes "syscall_filter") >>= λ number. ok (name, some number)
]

-- The loop over the words of a directive
unfoldable pub add_rules :
    Bool → ℕ → List Text → TextMap SystemCallRuleAction → Parsed (TextMap SystemCallRuleAction)
unfolding split_errno insert_all
add_rules is_deny line [] rules = ok rules
add_rules is_deny line (word ∷ rest) rules = split_errno word >>= λ entry.
    if is_empty entry.0
    then err (at line (codes "syscall_filter has an empty name"))
    else add_rules is_deny line rest
        (insert_all (calls_of entry.0) (action_of is_deny entry.1) rules)

-- The first word tells whether the directive denies, and goes on without the mark.
unfoldable pub filter_words : List Text → Option (Bool × List Text)
unfolding strip_prefix
filter_words [] = none
filter_words (word ∷ rest) = elim (strip_prefix (codes "!") word) [
  | none ↦ some (false, word ∷ rest)
  | some name ↦ some (true, name ∷ rest)
]

-- The loop over the directives
unfoldable pub filter_loop :
    List Directive
    → Bool
    → TextMap SystemCallRuleAction
    → Parsed (Bool × TextMap SystemCallRuleAction)
unfolding filter_words add_rules
filter_loop [] default_allow rules = ok (default_allow, rules)
filter_loop (d ∷ ds) default_allow rules = split_words d.value d.line >>= λ words.
    elim (filter_words words) [
      | none ↦ err (at d.line (codes "syscall_filter is empty"))
      | some (is_deny, names) ↦ add_rules is_deny d.line names rules >>= filter_loop ds is_deny
    ]

abbrev pub rules_of : TextMap SystemCallRuleAction → List SystemCallRule
rules_of [] = []
rules_of ((name, action) ∷ rest) = record { name = name; action = action } ∷ rules_of rest

unfoldable pub parse_syscall_filter : NativeFile → Parsed (Option SystemCallFilter)
unfolding filter_loop effective_directives
parse_syscall_filter file =
    elim (effective_directives (codes "security") (codes "syscall_filter") file) [
      | [] ↦ ok none
      | d ∷ ds ↦ filter_loop (d ∷ ds) true [] >>= λ found.
          ok (some (record { default_allow = found.0; rules = rules_of found.1 }))
    ]
