-- ===== src/Control/Response/Fields.antt =====
-- What an answer's line can carry, and its fields read back.
use fractal_d.Base.{
  ℕ, ◌<◌, ◌≡◌, refl, ◌∙◌, ap, false, some, List, [], ◌∷◌, ◌++◌, All, arith, Text, codes, text_eq,
  digits, is_whitespace, parse_number-digits, digits-IsWord, words, trim, IsWord, HasNoSpace,
  split_once, Lacks,
}
use fractal_d.Control.Types.{ok, u32_limit, u64_limit}
use fractal_d.Control.Response.{
  ServiceStatus, Response, status, event, services, service, transaction, accepted, enabled,
  disabled, enabled_status, error, field, line_of, ended, parse_field, parse_number_field, arms,
  find_arm, parse_words, parse_line, parse,
}
use fractal_d.Control.Response.Lines.{
  EndsInWord, EndsInWord-append, IsOneLine, line_of-EndsInWord, trim-ended, words-line_of,
  field-IsWord,
}

-- A text of one line that ends in a word.
abbrev pub IsMessage : Text → Type 0
IsMessage text = IsOneLine text × EndsInWord text

abbrev pub IsServiceStatus : ServiceStatus → Type 0
IsServiceStatus s =
    HasNoSpace s.name
    × HasNoSpace s.state
    × ((n : ℕ) → s.pid ≡ some n → n < u32_limit)
    × (s.generation < u64_limit)
    × (s.restart_count < u32_limit)

-- The fields of an answer as a line can carry them.
abbrev pub IsReportable : Response → Type 0
IsReportable (status pid uptime_ms) = (pid < u32_limit) × (uptime_ms < u64_limit)
IsReportable (event text) = IsMessage text
IsReportable (services names) = All (λ name. IsWord name × Lacks b',' name) names
IsReportable (service s) = IsServiceStatus s
IsReportable (transaction t) =
    (t.id < u64_limit) × HasNoSpace t.operation × HasNoSpace t.name × HasNoSpace t.state
IsReportable (accepted id operation name) =
    (id < u64_limit) × HasNoSpace operation × HasNoSpace name
IsReportable (enabled name) = HasNoSpace name
IsReportable (disabled name) = HasNoSpace name
IsReportable (enabled_status name on) = HasNoSpace name
IsReportable (error message) = IsMessage message
IsReportable other = Unit {0}

-- A key that `parse_field` finds.
abbrev pub IsKey : Text → Type 0
IsKey key =
    (value : Text) (rest : List Text) → parse_field key (field key value ∷ rest) ≡ ok (value, rest)

pub number_field :
    (limit n : ℕ) (key : Text) (rest : List Text)
    → IsKey key
    → n < limit
    → parse_number_field limit key (field key (digits n) ∷ rest) ≡ ok (n, rest)
unfolding parse_number_field
number_field limit n key rest k h = ground (arith, k (digits n) rest, parse_number-digits limit n h)

pub IsWord-HasNoSpace : (w : Text) → IsWord w → HasNoSpace w
IsWord-HasNoSpace [] h = elim h [ ]
IsWord-HasNoSpace (c ∷ cs) h = h

pub number-IsWord : (key : Text) (n : ℕ) → IsWord key → IsWord (field key (digits n))
number-IsWord key n h =
    field-IsWord key (digits n) h (IsWord-HasNoSpace (digits n) (digits-IsWord n))

abbrev pub ok_line : Text → List Text → Text
ok_line kind fields = line_of (codes "OK") (kind ∷ fields)

pub trim-ok_line :
    (kind : Text) (fields : List Text)
    → All IsWord (kind ∷ fields)
    → trim (ended (ok_line kind fields)) ≡ ok_line kind fields
unfolding line_of is_whitespace
trim-ok_line kind fields w =
    trim-ended b'O' (b'K' ∷ b' ' ∷ line_of kind fields) refl
      (EndsInWord-append (codes "OK ") (line_of kind fields) (line_of-EndsInWord kind fields w))

pub words-ok_line :
    (kind : Text) (fields : List Text)
    → All IsWord (kind ∷ fields)
    → words (ok_line kind fields) ≡ codes "OK" ∷ kind ∷ fields
unfolding is_whitespace
words-ok_line kind fields w = words-line_of (codes "OK") (kind ∷ fields) (ground arith, w)

pub by_arm :
    (text kind : Text) (fields : List Text)
    → parse_words text (codes "OK" ∷ kind ∷ fields) ≡ find_arm arms kind text fields
unfolding parse_words text_eq
by_arm text kind fields = refl

-- A line of words is read by the arm of its second word.
pub parse-ok_line :
    (kind : Text) (fields : List Text) (r : Response)
    → All IsWord (kind ∷ fields)
    → parse_line (ok_line kind fields)
      ≡ parse_words (ok_line kind fields) (words (ok_line kind fields))
    → find_arm arms kind (ok_line kind fields) fields ≡ ok r
    → parse (ended (ok_line kind fields)) ≡ ok r
unfolding parse
parse-ok_line kind fields r w plain e =
    ap parse_line (trim-ok_line kind fields w)
    ∙ plain
    ∙ ap (parse_words (ok_line kind fields)) (words-ok_line kind fields w)
    ∙ by_arm (ok_line kind fields) kind fields
    ∙ e

-- A message after a prefix that begins and ends as it should.
pub parse-message :
    (c : ℕ) (cs message : Text) (r : Response)
    → is_whitespace c ≡ false
    → IsMessage message
    → parse_line (c ∷ (cs ++ message)) ≡ ok r
    → parse (ended (c ∷ (cs ++ message))) ≡ ok r
unfolding parse
parse-message c cs message r h k e =
    ap parse_line (trim-ended c (cs ++ message) h (EndsInWord-append (c ∷ cs) message k.1)) ∙ e

pub pid-IsKey : IsKey (codes "pid")
unfolding parse_field split_once text_eq
pid-IsKey value rest = refl

pub uptime_ms-IsKey : IsKey (codes "uptime_ms")
unfolding parse_field split_once text_eq
uptime_ms-IsKey value rest = refl

pub names-IsKey : IsKey (codes "names")
unfolding parse_field split_once text_eq
names-IsKey value rest = refl

pub name-IsKey : IsKey (codes "name")
unfolding parse_field split_once text_eq
name-IsKey value rest = refl

pub state-IsKey : IsKey (codes "state")
unfolding parse_field split_once text_eq
state-IsKey value rest = refl

pub generation-IsKey : IsKey (codes "generation")
unfolding parse_field split_once text_eq
generation-IsKey value rest = refl

pub restarts-IsKey : IsKey (codes "restarts")
unfolding parse_field split_once text_eq
restarts-IsKey value rest = refl

pub id-IsKey : IsKey (codes "id")
unfolding parse_field split_once text_eq
id-IsKey value rest = refl

pub operation-IsKey : IsKey (codes "operation")
unfolding parse_field split_once text_eq
operation-IsKey value rest = refl

pub enabled-IsKey : IsKey (codes "enabled")
unfolding parse_field split_once text_eq
enabled-IsKey value rest = refl
