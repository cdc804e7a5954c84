-- ===== src/Control/Request.antt =====
-- `ShutdownAction` and `Request`: the line that asks, and its parser.
pub mod RoundTrip
pub mod Accepts
use fractal_d.Base.{
  ℕ, Bool, true, false, ◌||◌, Option, none, some, List, [], ◌∷◌, ◌++◌, Text, codes, text_eq, any,
  ◌==◌, digits, parse_number, words, trim, if◌then◌else◌,
}
use fractal_d.Control.Types.{
  ProtocolError, unknown_request, malformed_request, Result, ok, err, ◌>>=◌, u64_limit,
}

pub data ShutdownAction : Type 0 where
  stop_all poweroff reboot halt : ShutdownAction

abbrev pub as_str : ShutdownAction → Text
as_str stop_all = codes "stop"
as_str poweroff = codes "poweroff"
as_str reboot = codes "reboot"
as_str halt = codes "halt"

-- `ShutdownAction::parse`
unfoldable pub read_action : Text → Option ShutdownAction
unfolding text_eq
read_action value =
    if text_eq value (codes "stop")
    then some stop_all
    else if text_eq value (codes "poweroff")
    then some poweroff
    else if text_eq value (codes "reboot")
    then some reboot
    else if text_eq value (codes "halt")
    then some halt
    else none

pub data Request : Type 0 where
  status stop ping list reload : Request
  enable_service disable_service is_enabled reload_service : Text → Request
  reset_failed : Option Text → Request
  start_service isolate_service stop_service restart_service service_status : Text → Request
  transaction_status : ℕ → Request
  subscribe : Option ℕ → Request
  shutdown : ShutdownAction → Request

-- `format!("{command}\n")` and `format!("{command} {field}\n")`
abbrev pub bare : Text → Text
bare command = command ++ b'\n' ∷ []

abbrev pub with_field : Text → Text → Text
with_field command field = command ++ b' ' ∷ (field ++ b'\n' ∷ [])

abbrev pub as_line : Request → Text
as_line status = bare (codes "STATUS")
as_line stop = bare (codes "STOP")
as_line ping = bare (codes "PING")
as_line list = bare (codes "LIST")
as_line reload = bare (codes "RELOAD")
as_line (enable_service name) = with_field (codes "ENABLE_SERVICE") name
as_line (disable_service name) = with_field (codes "DISABLE_SERVICE") name
as_line (is_enabled name) = with_field (codes "IS_ENABLED") name
as_line (reload_service name) = with_field (codes "RELOAD_SERVICE") name
as_line (reset_failed none) = bare (codes "RESET_FAILED")
as_line (reset_failed (some name)) = with_field (codes "RESET_FAILED") name
as_line (start_service name) = with_field (codes "START_SERVICE") name
as_line (isolate_service name) = with_field (codes "ISOLATE_SERVICE") name
as_line (stop_service name) = with_field (codes "STOP_SERVICE") name
as_line (restart_service name) = with_field (codes "RESTART_SERVICE") name
as_line (service_status name) = with_field (codes "SERVICE_STATUS") name
as_line (transaction_status id) = with_field (codes "TRANSACTION_STATUS") (digits id)
as_line (subscribe none) = bare (codes "SUBSCRIBE")
as_line (subscribe (some since)) = with_field (codes "SUBSCRIBE") (digits since)
as_line (shutdown action) = with_field (codes "SHUTDOWN") (as_str action)

-- The commands that `parse` knows.
pub data Command : Type 0 where
  plain : Request → Command
  named : (Text → Request) → Command
  resets transactions subscribes shuts_down unknown : Command

-- The arms of the `match` on the command.
abbrev pub arms : List (Text × Command)
arms =
    (codes "STATUS", plain status)
    ∷ (codes "STOP", plain stop)
    ∷ (codes "PING", plain ping)
    ∷ (codes "LIST", plain list)
    ∷ (codes "RELOAD", plain reload)
    ∷ (codes "ENABLE_SERVICE", named enable_service)
    ∷ (codes "DISABLE_SERVICE", named disable_service)
    ∷ (codes "IS_ENABLED", named is_enabled)
    ∷ (codes "RELOAD_SERVICE", named reload_service)
    ∷ (codes "RESET_FAILED", resets)
    ∷ (codes "START_SERVICE", named start_service)
    ∷ (codes "ISOLATE_SERVICE", named isolate_service)
    ∷ (codes "STOP_SERVICE", named stop_service)
    ∷ (codes "RESTART_SERVICE", named restart_service)
    ∷ (codes "SERVICE_STATUS", named service_status)
    ∷ (codes "TRANSACTION_STATUS", transactions)
    ∷ (codes "SUBSCRIBE", subscribes)
    ∷ (codes "SHUTDOWN", shuts_down)
    ∷ []

unfoldable pub find_command : List (Text × Command) → Text → Command
find_command [] command = unknown
find_command ((word, arm) ∷ rest) command =
    if text_eq command word then arm else find_command rest command

unfoldable pub read_command : Text → Command
unfolding find_command text_eq
read_command = find_command arms

-- A field that is read, and the fields after it.
abbrev pub Read : Type 0 → Type 0
Read A = Result (A × List Text)

unfoldable pub parse_service_name : List Text → Read Text
parse_service_name [] = err (malformed_request (codes "service name is required"))
parse_service_name ([] ∷ rest) = err (malformed_request (codes "invalid service name"))
parse_service_name ((c ∷ cs) ∷ rest) =
    if any (λ x. x == b'\n' || x == b'\r') (c ∷ cs)
    then err (malformed_request (codes "invalid service name"))
    else ok (c ∷ cs, rest)

unfoldable pub parse_transaction_id : List Text → Read ℕ
parse_transaction_id [] = err (malformed_request (codes "transaction id is required"))
parse_transaction_id (value ∷ rest) = elim (parse_number u64_limit value) [
  | none ↦ err (malformed_request (codes "invalid transaction id"))
  | some id ↦
      if id == 0
      then err (malformed_request (codes "transaction id must be non-zero"))
      else ok (id, rest)
]

unfoldable pub parse_optional_sequence : List Text → Read (Option ℕ)
parse_optional_sequence [] = ok (none, [])
parse_optional_sequence (value ∷ rest) = elim (parse_number u64_limit value) [
  | none ↦ err (malformed_request (codes "invalid event sequence"))
  | some sequence ↦ ok (some sequence, rest)
]

unfoldable pub parse_shutdown_action : List Text → Read ShutdownAction
parse_shutdown_action [] = err (malformed_request (codes "shutdown action is required"))
parse_shutdown_action (value ∷ rest) = elim (read_action value) [
  | none ↦ err (malformed_request (codes "unsupported shutdown action " ++ value))
  | some action ↦ ok (action, rest)
]

-- `fields.next().map(str::to_owned)`
abbrev pub optional_name : List Text → Option Text × List Text
optional_name [] = (none, [])
optional_name (name ∷ rest) = (some name, rest)

unfoldable pub parse_fields : Text → Command → List Text → Read Request
unfolding parse_service_name parse_transaction_id parse_optional_sequence parse_shutdown_action
parse_fields command (plain request) fields = ok (request, fields)
parse_fields command (named make) fields =
    parse_service_name fields >>= λ name. ok (make name.0, name.1)
parse_fields command resets fields =
    let name = optional_name fields in ok (reset_failed name.0, name.1)
parse_fields command transactions fields =
    parse_transaction_id fields >>= λ id. ok (transaction_status id.0, id.1)
parse_fields command subscribes fields =
    parse_optional_sequence fields >>= λ since. ok (subscribe since.0, since.1)
parse_fields command shuts_down fields =
    parse_shutdown_action fields >>= λ action. ok (shutdown action.0, action.1)
parse_fields command unknown fields = err (unknown_request command)

-- Nothing may be left over.
unfoldable pub complete : Text → Request × List Text → Result Request
complete value (request, []) = ok request
complete value (request, field ∷ rest) = err (malformed_request (trim value))

unfoldable pub parse : Text → Result Request
unfolding read_command complete
parse value = elim (words value) [
  | [] ↦ err (unknown_request (trim value))
  | command ∷ fields ↦ parse_fields command (read_command command) fields >>= complete value
]
