-- ===== src/Control/Response.antt =====
-- `Response`: the line that answers, and its parser.
pub mod Lines
pub mod Fields
pub mod Answers
pub mod States
pub mod RoundTrip
use fractal_d.Base.{
  ℕ, Bool, true, false, not, ◌||◌, Option, none, some, List, [], ◌∷◌, ◌++◌, map, Text, codes,
  text_eq, ltb, ◌==◌, digits, parse_number, words, trim, strip_prefix, split_once, split_at, join,
  if◌then◌else◌,
}
use fractal_d.Control.Types.{
  ProtocolError, malformed_response, Result, ok, err, ◌>>=◌, u8_limit, u32_limit, u64_limit,
}

pub record ServiceStatus : Type 0 where
  pub name : Text
  pub state : Text
  pub pid : Option ℕ
  pub generation : ℕ
  pub restart_count : ℕ

pub record TransactionStatus : Type 0 where
  pub id : ℕ
  pub operation : Text
  pub name : Text
  pub state : Text

pub data Response : Type 0 where
  status : ℕ → ℕ → Response
  stopping pong subscribed : Response
  event : Text → Response
  services : List Text → Response
  service : ServiceStatus → Response
  transaction : TransactionStatus → Response
  accepted : ℕ → Text → Text → Response
  enabled disabled : Text → Response
  enabled_status : Text → Bool → Response
  reloaded reset : Response
  error : Text → Response

abbrev pub is_break : ℕ → Bool
is_break c = c == b'\n' || c == b'\r'

unfoldable pub one_line : Text → Text
one_line text = map (λ c. if is_break c || c == 0 then b' ' else c) text

-- `trim_end_matches(['\r', '\n'])`
unfoldable pub trim_breaks : Text → Text
trim_breaks [] = []
trim_breaks (c ∷ cs) = elim (trim_breaks cs) [
  | [] ↦ if is_break c then [] else c ∷ []
  | d ∷ ds ↦ c ∷ d ∷ ds
]

-- `{key}={value}`, and words with spaces between them.
abbrev pub field : Text → Text → Text
field key value = key ++ b'=' ∷ value

unfoldable pub line_of : Text → List Text → Text
line_of word [] = word
line_of word (next ∷ rest) = word ++ b' ' ∷ line_of next rest

abbrev pub ended : Text → Text
ended line = line ++ b'\n' ∷ []

abbrev pub pid_text : Option ℕ → Text
pid_text none = codes "-"
pid_text (some pid) = digits pid

abbrev pub flag_text : Bool → Text
flag_text true = codes "1"
flag_text false = codes "0"

-- The line without its end. `format!("OK STATUS pid={pid} uptime_ms={uptime_ms}\n")` and the like are
-- given by their words.
unfoldable pub line : Response → Text
unfolding line_of one_line trim_breaks
line (status pid uptime_ms) = line_of (codes "OK") (
    codes "STATUS"
    ∷ field (codes "pid") (digits pid)
    ∷ field (codes "uptime_ms") (digits uptime_ms)
    ∷ [])
line stopping = codes "OK STOPPING"
line pong = codes "OK PONG"
line subscribed = codes "OK SUBSCRIBED"
line (event text) = codes "OK EVENT " ++ one_line (trim_breaks text)
line (services names) =
    line_of (codes "OK") (codes "SERVICES" ∷ field (codes "names") (join b',' names) ∷ [])
line (service s) = line_of (codes "OK") (
    codes "SERVICE"
    ∷ field (codes "name") s.name
    ∷ field (codes "state") s.state
    ∷ field (codes "pid") (pid_text s.pid)
    ∷ field (codes "generation") (digits s.generation)
    ∷ field (codes "restarts") (digits s.restart_count)
    ∷ [])
line (transaction t) = line_of (codes "OK") (
    codes "TRANSACTION"
    ∷ field (codes "id") (digits t.id)
    ∷ field (codes "operation") t.operation
    ∷ field (codes "name") t.name
    ∷ field (codes "state") t.state
    ∷ [])
line (accepted id operation name) = line_of (codes "OK") (
    codes "ACCEPTED"
    ∷ field (codes "id") (digits id)
    ∷ field (codes "operation") operation
    ∷ field (codes "name") name
    ∷ [])
line (enabled name) = line_of (codes "OK") (codes "ENABLED" ∷ field (codes "name") name ∷ [])
line (disabled name) = line_of (codes "OK") (codes "DISABLED" ∷ field (codes "name") name ∷ [])
line (enabled_status name on) = line_of (codes "OK") (
    codes "ENABLED_STATUS"
    ∷ field (codes "name") name
    ∷ field (codes "enabled") (flag_text on)
    ∷ [])
line reloaded = codes "OK RELOADED"
line reset = codes "OK RESET_FAILED"
line (error message) = codes "ERR " ++ one_line message

abbrev pub as_line : Response → Text
as_line r = ended (line r)

-- `parse_field::<String>`: the next field, if it has this key.
unfoldable pub parse_field : Text → List Text → Result (Text × List Text)
parse_field key [] = err (malformed_response (codes "missing " ++ key))
parse_field key (word ∷ rest) = elim (split_once word b'=') [
  | none ↦ err (malformed_response word)
  | some (k, value) ↦ if text_eq k key then ok (value, rest) else err (malformed_response word)
]

-- `parse_field` of an unsigned type
unfoldable pub parse_number_field : ℕ → Text → List Text → Result (ℕ × List Text)
unfolding parse_field
parse_number_field limit key [] = err (malformed_response (codes "missing " ++ key))
parse_number_field limit key (word ∷ rest) = parse_field key (word ∷ rest) >>= λ value.
    elim (parse_number limit value.0) [
      | none ↦ err (malformed_response word)
      | some n ↦ ok (n, value.1)
    ]

-- `if fields.next().is_some() { return Err(...) }`
abbrev pub no_more : Text → List Text → Result Response → Result Response
no_more text [] r = r
no_more text (word ∷ rest) r = err (malformed_response text)

-- The arms of the `match`, each given the line and the fields after its word.
abbrev pub Arm : Type 0
Arm = Text → List Text → Result Response

abbrev pub is_empty : Text → Bool
is_empty [] = true
is_empty (x ∷ xs) = false

unfoldable pub parse_status : Arm
unfolding parse_number_field
parse_status text fields = do
  pid ← parse_number_field u32_limit (codes "pid") fields
  uptime_ms ← parse_number_field u64_limit (codes "uptime_ms") pid.1
  no_more text uptime_ms.1 (ok (status pid.0 uptime_ms.0))

unfoldable pub parse_services : Arm
unfolding parse_field
parse_services text fields = do
  names ← parse_field (codes "names") fields
  no_more text names.1 (ok (services (if is_empty names.0 then [] else split_at b',' names.0)))

abbrev pub parse_pid : Text → Text → Result (Option ℕ)
parse_pid text pid =
    if text_eq pid (codes "-") then ok none else elim (parse_number u32_limit pid) [
      | none ↦ err (malformed_response text)
      | some n ↦ ok (some n)
    ]

unfoldable pub parse_service : Arm
unfolding parse_field parse_number_field
parse_service text fields = do
  name ← parse_field (codes "name") fields
  state ← parse_field (codes "state") name.1
  pid ← parse_field (codes "pid") state.1
  generation ← parse_number_field u64_limit (codes "generation") pid.1
  restarts ← parse_number_field u32_limit (codes "restarts") generation.1
  no_more text restarts.1 (
      parse_pid text pid.0 >>= λ n. ok (
        service (record {
          name = name.0;
          state = state.0;
          pid = n;
          generation = generation.0;
          restart_count = restarts.0;
        })))

unfoldable pub parse_transaction : Arm
unfolding parse_field parse_number_field
parse_transaction text fields = do
  id ← parse_number_field u64_limit (codes "id") fields
  operation ← parse_field (codes "operation") id.1
  name ← parse_field (codes "name") operation.1
  state ← parse_field (codes "state") name.1
  no_more text state.1 (
      ok (
        transaction
          (record { id = id.0; operation = operation.0; name = name.0; state = state.0 })))

unfoldable pub parse_accepted : Arm
unfolding parse_field parse_number_field
parse_accepted text fields = do
  id ← parse_number_field u64_limit (codes "id") fields
  operation ← parse_field (codes "operation") id.1
  name ← parse_field (codes "name") operation.1
  no_more text name.1 (ok (accepted id.0 operation.0 name.0))

unfoldable pub parse_name : (Text → Response) → Arm
unfolding parse_field
parse_name make text fields = do
  name ← parse_field (codes "name") fields
  no_more text name.1 (ok (make name.0))

unfoldable pub parse_enabled_status : Arm
unfolding parse_field parse_number_field
parse_enabled_status text fields = do
  name ← parse_field (codes "name") fields
  on ← parse_number_field u8_limit (codes "enabled") name.1
  no_more text on.1
      (if ltb 1 on.0 then err (malformed_response text) else ok (enabled_status name.0 (on.0 == 1)))

abbrev pub arms : List (Text × Arm)
arms =
    (codes "STATUS", parse_status)
    ∷ (codes "SERVICES", parse_services)
    ∷ (codes "SERVICE", parse_service)
    ∷ (codes "TRANSACTION", parse_transaction)
    ∷ (codes "ACCEPTED", parse_accepted)
    ∷ (codes "ENABLED", parse_name enabled)
    ∷ (codes "DISABLED", parse_name disabled)
    ∷ (codes "ENABLED_STATUS", parse_enabled_status)
    ∷ []

unfoldable pub find_arm : List (Text × Arm) → Text → Arm
find_arm [] word text fields = err (malformed_response text)
find_arm ((key, arm) ∷ rest) word text fields =
    if text_eq word key then arm text fields else find_arm rest word text fields

unfoldable pub parse_words : Text → List Text → Result Response
unfolding find_arm
parse_words text [] = err (malformed_response text)
parse_words text (word ∷ []) = err (malformed_response text)
parse_words text (word ∷ kind ∷ fields) =
    if text_eq word (codes "OK")
    then find_arm arms kind text fields
    else err (malformed_response text)

-- The tests after the one for an event.
abbrev pub parse_others : Text → Result Response
parse_others text =
    if text_eq text (codes "OK RELOADED")
    then ok reloaded
    else if text_eq text (codes "OK RESET_FAILED")
    then ok reset
    else parse_words text (words text)

abbrev pub parse_event : Text → Result Response
parse_event text = elim (strip_prefix (codes "OK EVENT ") text) [
  | some rest ↦ if is_empty rest then err (malformed_response text) else ok (event rest)
  | none ↦ parse_others text
]

unfoldable pub parse_line : Text → Result Response
unfolding parse_words
parse_line text = elim (strip_prefix (codes "ERR ") text) [
  | some rest ↦ ok (error rest)
  | none ↦
      if text_eq text (codes "OK STOPPING")
      then ok stopping
      else if text_eq text (codes "OK PONG")
      then ok pong
      else if text_eq text (codes "OK SUBSCRIBED")
      then ok subscribed
      else parse_event text
]

unfoldable pub parse : Text → Result Response
parse value = parse_line (trim value)
