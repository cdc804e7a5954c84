-- ===== src/Config/Signals.antt =====
-- The numbers of signals, exit statuses and errors, by name or in decimal.
use fractal_d.Base.{
  ℕ, suc, zero, ◌+◌, ◌^◌, Bool, false, not, ◌&&◌, ◌||◌, Option, none, some, [], ◌∷◌, Text, codes,
  any, leb, ◌==◌, ℤ, pos, negsuc, is_not_positive, parse_from, parse_number, trim, strip_prefix,
  to_ascii_uppercase, if◌then◌else◌,
}
use fractal_d.BTree.Map.{TextMap, get}
use fractal_d.Config.Error.{Parsed, ok, err, ◌>>=◌}
use fractal_d.Config.Values.{invalid, or_invalid}

abbrev pub negated : ℕ → ℤ
negated zero = pos 0
negated (suc n) = negsuc n

-- `str::parse::<i32>`: a sign may lead.
unfoldable pub parse_i32 : Text → Option ℤ
unfolding parse_from parse_number
parse_i32 [] = none
parse_i32 (c ∷ []) = elim (parse_number (2 ^ 31) (c ∷ [])) [ none ↦ none | some n ↦ some (pos n) ]
parse_i32 (c ∷ d ∷ cs) =
    if c == b'-'
    then elim (parse_from (2 ^ 31 + 1) 0 (d ∷ cs)) [ none ↦ none | some n ↦ some (negated n) ]
    else elim (parse_number (2 ^ 31) (c ∷ d ∷ cs)) [ none ↦ none | some n ↦ some (pos n) ]

abbrev pub signals : TextMap ℕ
signals =
    (codes "HUP", 1)
    ∷ (codes "INT", 2)
    ∷ (codes "QUIT", 3)
    ∷ (codes "ILL", 4)
    ∷ (codes "TRAP", 5)
    ∷ (codes "ABRT", 6)
    ∷ (codes "BUS", 7)
    ∷ (codes "FPE", 8)
    ∷ (codes "KILL", 9)
    ∷ (codes "USR1", 10)
    ∷ (codes "SEGV", 11)
    ∷ (codes "USR2", 12)
    ∷ (codes "PIPE", 13)
    ∷ (codes "ALRM", 14)
    ∷ (codes "TERM", 15)
    ∷ (codes "CHLD", 17)
    ∷ (codes "CONT", 18)
    ∷ (codes "STOP", 19)
    ∷ (codes "TSTP", 20)
    ∷ (codes "TTIN", 21)
    ∷ (codes "TTOU", 22)
    ∷ (codes "URG", 23)
    ∷ (codes "XCPU", 24)
    ∷ (codes "XFSZ", 25)
    ∷ (codes "VTALRM", 26)
    ∷ (codes "PROF", 27)
    ∷ (codes "WINCH", 28)
    ∷ (codes "IO", 29)
    ∷ (codes "PWR", 30)
    ∷ (codes "SYS", 31)
    ∷ []

-- The number of a name, or the number that is written.
abbrev pub number_or_name : TextMap ℕ → Text → Text → Option ℤ
number_or_name table name text = elim (get table name) [
  | some n ↦ some (pos n)
  | none ↦ parse_i32 text
]

-- `value.strip_prefix(prefix).unwrap_or(value)`
abbrev pub without_prefix : Text → Text → Text
without_prefix prefix text = elim (strip_prefix prefix text) [ none ↦ text | some rest ↦ rest ]

unfoldable pub parse_signal : Text → Parsed ℤ
unfolding trim strip_prefix to_ascii_uppercase get parse_i32
parse_signal raw =
    let text = trim raw in
    or_invalid (codes "signal") text
      (number_or_name signals (to_ascii_uppercase (without_prefix (codes "SIG") text)) text)
    >>= λ signal. if is_not_positive signal then invalid (codes "signal") text else ok signal

abbrev pub exit_statuses : TextMap ℕ
exit_statuses =
    (codes "OK", 0)
    ∷ (codes "USAGE", 64)
    ∷ (codes "DATAERR", 65)
    ∷ (codes "NOINPUT", 66)
    ∷ (codes "NOUSER", 67)
    ∷ (codes "NOHOST", 68)
    ∷ (codes "UNAVAILABLE", 69)
    ∷ (codes "SOFTWARE", 70)
    ∷ (codes "OSERR", 71)
    ∷ (codes "OSFILE", 72)
    ∷ (codes "CANTCREAT", 73)
    ∷ (codes "IOERR", 74)
    ∷ (codes "TEMPFAIL", 75)
    ∷ (codes "PROTOCOL", 76)
    ∷ (codes "NOPERM", 77)
    ∷ (codes "CONFIG", 78)
    ∷ []

abbrev pub is_name_char : ℕ → Bool
is_name_char c = (leb b'A' c && leb c b'Z') || (leb b'a' c && leb c b'z') || c == b'_'

-- `or_else` after a signal that is none
abbrev pub or_status : Text → Text → Parsed ℤ → Parsed ℤ
or_status key text (ok signal) = ok signal
or_status key text (err e) =
    let name = without_prefix (codes "EX_") text in
    elim (get exit_statuses name) [ none ↦ invalid key name | some n ↦ ok (pos n) ]

-- `(low..=high).contains(&number)` of natural bounds
abbrev pub is_between : ℕ → ℕ → ℤ → Bool
is_between low high (pos n) = leb low n && leb n high
is_between low high (negsuc n) = false

unfoldable pub parse_exit_status : Text → Text → Parsed ℤ
unfolding parse_signal
parse_exit_status text key =
    if any (λ c. not (is_name_char c)) text
    then (or_invalid key text (parse_i32 text) >>= λ status.
        if is_between 0 255 status then ok status else invalid key text)
    else or_status key text (parse_signal text)

abbrev pub errors : TextMap ℕ
errors =
    (codes "KILL", 0)
    ∷ (codes "EPERM", 1)
    ∷ (codes "ENOENT", 2)
    ∷ (codes "ESRCH", 3)
    ∷ (codes "EINTR", 4)
    ∷ (codes "EIO", 5)
    ∷ (codes "E2BIG", 7)
    ∷ (codes "EACCES", 13)
    ∷ (codes "EFAULT", 14)
    ∷ (codes "EBUSY", 16)
    ∷ (codes "EEXIST", 17)
    ∷ (codes "ENODEV", 19)
    ∷ (codes "EINVAL", 22)
    ∷ (codes "ENOSYS", 38)
    ∷ (codes "ENOTEMPTY", 39)
    ∷ (codes "ELOOP", 40)
    ∷ (codes "EPIPE", 32)
    ∷ (codes "ECANCELED", 125)
    ∷ []

unfoldable pub parse_errno : Text → Text → Parsed ℤ
unfolding to_ascii_uppercase get parse_i32
parse_errno text key = elim (get errors (to_ascii_uppercase text)) [
  | some n ↦ ok (pos n)
  | none ↦ or_invalid key text (parse_i32 text) >>= λ errno.
      if is_between 1 4095 errno then ok errno else invalid key text
]
