-- ===== src/Control/Request/RoundTrip.antt =====
-- `Request::parse` after `Request::as_line`, and what `parse` accepts.
use fractal_d.Base.{
  ℕ, ◌<◌, ◌≡◌, refl, ◌∙◌, ap, false, ◌||◌, none, some, List, [], ◌∷◌, ◌++◌, arith, Text, codes, any,
  ◌==◌, is_whitespace, digits, parse_number-digits, words, words_from, words-cons, IsWord,
  HasNoSpace, digits-IsWord,
}
use fractal_d.Control.Types.{ok, ◌>>=◌, u64_limit}
use fractal_d.Control.Request.{
  ShutdownAction, as_str, read_action, stop_all, poweroff, reboot, halt, Request, status, stop,
  ping, list, reload, enable_service, disable_service, is_enabled, reload_service, reset_failed,
  start_service, isolate_service, stop_service, restart_service, service_status, transaction_status,
  subscribe, shutdown, bare, with_field, as_line, plain, named, resets, transactions, subscribes,
  shuts_down, read_command, parse_service_name, parse_transaction_id, parse_optional_sequence,
  parse_shutdown_action, parse_fields, complete, parse,
}

-- The fields of a request as `parse` can read them: a name is a word, an id is a `u64` above 0, a
-- sequence number a `u64`.
abbrev pub IsSendable : Request → Type 0
IsSendable (enable_service name) = IsWord name
IsSendable (disable_service name) = IsWord name
IsSendable (is_enabled name) = IsWord name
IsSendable (reload_service name) = IsWord name
IsSendable (reset_failed (some name)) = IsWord name
IsSendable (start_service name) = IsWord name
IsSendable (isolate_service name) = IsWord name
IsSendable (stop_service name) = IsWord name
IsSendable (restart_service name) = IsWord name
IsSendable (service_status name) = IsWord name
IsSendable (transaction_status id) = (0 < id) × (id < u64_limit)
IsSendable (subscribe (some since)) = since < u64_limit
IsSendable other = Unit {0}

no_line_break : (text : Text) → HasNoSpace text → any (λ x. x == b'\n' || x == b'\r') text ≡ false
unfolding is_whitespace
no_line_break [] h = refl
no_line_break (c ∷ cs) h = ground (arith, no_line_break cs h.1)

parse_service_name-cons :
    (name : Text) (rest : List Text)
    → IsWord name
    → parse_service_name (name ∷ rest) ≡ ok (name, rest)
unfolding parse_service_name
parse_service_name-cons [] rest h = elim h [ ]
parse_service_name-cons (c ∷ cs) rest h = ground (arith, no_line_break (c ∷ cs) h)

words-bare : (command : Text) → IsWord command → words (bare command) ≡ command ∷ []
unfolding words words_from is_whitespace
words-bare command h = words-cons command b'\n' [] h refl

words-with_field :
    (command field : Text)
    → IsWord command
    → IsWord field
    → words (with_field command field) ≡ command ∷ field ∷ []
unfolding is_whitespace
words-with_field command field h k =
    words-cons command b' ' (field ++ b'\n' ∷ []) h refl
    ∙ ap (λ l. command ∷ l) (words-bare field k)

parse-words :
    (value command : Text) (fields : List Text)
    → words value ≡ command ∷ fields
    → parse value ≡ (parse_fields command (read_command command) fields >>= complete value)
unfolding parse
parse-words value command fields h = rw (h, parse) refl

module _ (command : Text) (w : IsWord command) where
  parse-plain : (r : Request) → read_command command ≡ plain r → parse (bare command) ≡ ok r
  unfolding parse_fields complete
  parse-plain r e = parse-words (bare command) command [] (words-bare command w) ∙ rw e refl

  parse-resets : read_command command ≡ resets → parse (bare command) ≡ ok (reset_failed none)
  unfolding parse_fields complete
  parse-resets e = parse-words (bare command) command [] (words-bare command w) ∙ rw e refl

  parse-subscribes : read_command command ≡ subscribes → parse (bare command) ≡ ok (subscribe none)
  unfolding parse_fields complete parse_optional_sequence
  parse-subscribes e = parse-words (bare command) command [] (words-bare command w) ∙ rw e refl

  -- A request with one field, by how the field is read.
  parse-field :
      (field : Text) (r : Request)
      → IsWord field
      → parse_fields command (read_command command) (field ∷ []) ≡ ok (r, [])
      → parse (with_field command field) ≡ ok r
  unfolding complete
  parse-field field r h e =
      parse-words (with_field command field) command (field ∷ [])
        (words-with_field command field w h)
      ∙ rw e refl

  parse-named :
      (make : Text → Request) (name : Text)
      → read_command command ≡ named make
      → IsWord name
      → parse (with_field command name) ≡ ok (make name)
  unfolding parse_fields
  parse-named make name e h =
      parse-field name (make name) h (rw (e, parse_service_name-cons name [] h) refl)

transaction_field :
    (command : Text) (id : ℕ)
    → (0 < id) × (id < u64_limit)
    → parse_fields command transactions (digits id ∷ []) ≡ ok (transaction_status id, [])
unfolding parse_fields parse_transaction_id
transaction_field command id h = ground (arith, parse_number-digits u64_limit id h.1)

sequence_field :
    (command : Text) (since : ℕ)
    → since < u64_limit
    → parse_fields command subscribes (digits since ∷ []) ≡ ok (subscribe (some since), [])
unfolding parse_fields parse_optional_sequence
sequence_field command since h = ground (arith, parse_number-digits u64_limit since h)

as_str-IsWord : (action : ShutdownAction) → IsWord (as_str action)
unfolding is_whitespace
as_str-IsWord stop_all = ground arith
as_str-IsWord action = ground arith

action_field :
    (command : Text) (action : ShutdownAction)
    → parse_fields command shuts_down (as_str action ∷ []) ≡ ok (shutdown action, [])
unfolding parse_fields parse_shutdown_action read_action
action_field command stop_all = refl
action_field command poweroff = refl
action_field command reboot = refl
action_field command halt = refl

resets_field :
    (command name : Text)
    → parse_fields command resets (name ∷ []) ≡ ok (reset_failed (some name), [])
unfolding parse_fields
resets_field command name = refl

-- A request that can be sent is understood: `parse` reads from its line the request itself.
pub parse-as_line : (r : Request) → IsSendable r → parse (as_line r) ≡ ok r
unfolding read_command is_whitespace
parse-as_line status h = parse-plain (codes "STATUS") (ground arith) status refl
parse-as_line stop h = parse-plain (codes "STOP") (ground arith) stop refl
parse-as_line ping h = parse-plain (codes "PING") (ground arith) ping refl
parse-as_line list h = parse-plain (codes "LIST") (ground arith) list refl
parse-as_line reload h = parse-plain (codes "RELOAD") (ground arith) reload refl
parse-as_line (enable_service name) h =
    parse-named (codes "ENABLE_SERVICE") (ground arith) enable_service name refl h
parse-as_line (disable_service name) h =
    parse-named (codes "DISABLE_SERVICE") (ground arith) disable_service name refl h
parse-as_line (is_enabled name) h =
    parse-named (codes "IS_ENABLED") (ground arith) is_enabled name refl h
parse-as_line (reload_service name) h =
    parse-named (codes "RELOAD_SERVICE") (ground arith) reload_service name refl h
parse-as_line (reset_failed none) h = parse-resets (codes "RESET_FAILED") (ground arith) refl
parse-as_line (reset_failed (some name)) h =
    parse-field (codes "RESET_FAILED") (ground arith) name (reset_failed (some name)) h
      (resets_field (codes "RESET_FAILED") name)
parse-as_line (start_service name) h =
    parse-named (codes "START_SERVICE") (ground arith) start_service name refl h
parse-as_line (isolate_service name) h =
    parse-named (codes "ISOLATE_SERVICE") (ground arith) isolate_service name refl h
parse-as_line (stop_service name) h =
    parse-named (codes "STOP_SERVICE") (ground arith) stop_service name refl h
parse-as_line (restart_service name) h =
    parse-named (codes "RESTART_SERVICE") (ground arith) restart_service name refl h
parse-as_line (service_status name) h =
    parse-named (codes "SERVICE_STATUS") (ground arith) service_status name refl h
parse-as_line (transaction_status id) h =
    parse-field (codes "TRANSACTION_STATUS") (ground arith) (digits id) (transaction_status id)
      (digits-IsWord id) (transaction_field (codes "TRANSACTION_STATUS") id h)
parse-as_line (subscribe none) h = parse-subscribes (codes "SUBSCRIBE") (ground arith) refl
parse-as_line (subscribe (some since)) h =
    parse-field (codes "SUBSCRIBE") (ground arith) (digits since) (subscribe (some since))
      (digits-IsWord since) (sequence_field (codes "SUBSCRIBE") since h)
parse-as_line (shutdown action) h =
    parse-field (codes "SHUTDOWN") (ground arith) (as_str action) (shutdown action)
      (as_str-IsWord action) (action_field (codes "SHUTDOWN") action)
