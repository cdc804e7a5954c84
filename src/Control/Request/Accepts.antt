-- ===== src/Control/Request/Accepts.antt =====
-- What `Request::parse` accepts can be sent.
use fractal_d.Base.{
  ℕ, ◌<◌, ◌≡◌, Option, none, some, List, [], ◌∷◌, All, arith, Text, text_eq, parse_number-lt, words,
  words-IsWord, IsWord, List-cases, Bool-cases, inl, inr, subst,
}
use fractal_d.Control.Types.{bind_ok, ok, ◌>>=◌, u64_limit}
use fractal_d.Control.Request.{
  Request, reset_failed, transaction_status, subscribe, shutdown, as_line, Command, plain, named,
  resets, transactions, subscribes, shuts_down, unknown, arms, find_command, read_command,
  parse_service_name, parse_transaction_id, parse_optional_sequence, parse_shutdown_action,
  parse_fields, complete, parse,
}
use fractal_d.Control.Request.RoundTrip.{IsSendable, parse-as_line}

-- A command makes requests that can be sent out of names that are words.
abbrev Sends : Command → Type 0
Sends (plain r) = IsSendable r
Sends (named make) = (name : Text) → IsWord name → IsSendable (make name)
Sends other = Unit {0}

find_command-Sends :
    (table : List (Text × Command)) (command : Text)
    → All (λ row. Sends row.1) table
    → Sends (find_command table command)
unfolding find_command
find_command-Sends [] command h = tt
find_command-Sends ((word, arm) ∷ rest) command h = elim (Bool-cases (text_eq command word)) [
  | inl hit ↦ rw hit h.0
  | inr miss ↦ rw miss (find_command-Sends rest command h.1)
]

read_command-Sends : (command : Text) → Sends (read_command command)
unfolding read_command
read_command-Sends command = find_command-Sends arms command (
  tt,
  (
    tt,
    (
      tt,
      (
        tt,
        (
          tt,
          (
            (λ name h. h),
            (
              (λ name h. h),
              (
                (λ name h. h),
                (
                  (λ name h. h),
                  (
                    tt,
                    (
                      (λ name h. h),
                      (
                        (λ name h. h),
                        ((λ name h. h), ((λ name h. h), ((λ name h. h), (tt, (tt, (tt, tt)))))),
                      ),
                    ),
                  ),
                ),
              ),
            ),
          ),
        ),
      ),
    ),
  ),
)

parse_service_name-IsWord :
    (fields : List Text) (name : Text) (rest : List Text)
    → All IsWord fields
    → parse_service_name fields ≡ ok (name, rest)
    → IsWord name
unfolding parse_service_name
parse_service_name-IsWord [] name rest w h = cc
parse_service_name-IsWord ([] ∷ fields) name rest w h = cc
parse_service_name-IsWord ((c ∷ cs) ∷ fields) name rest w h =
    let same : (c ∷ cs) ≡ name = ground arith in subst IsWord same w.0

parse_transaction_id_bounds :
    (fields rest : List Text) (id : ℕ)
    → parse_transaction_id fields ≡ ok (id, rest)
    → (0 < id) × (id < u64_limit)
unfolding parse_transaction_id
parse_transaction_id_bounds [] rest id h = cc
parse_transaction_id_bounds (value ∷ fields) rest id h =
    ground (arith, parse_number-lt u64_limit id value)

parse_optional_sequence_bounds :
    (fields rest : List Text) (since : ℕ)
    → parse_optional_sequence fields ≡ ok (some since, rest)
    → since < u64_limit
unfolding parse_optional_sequence
parse_optional_sequence_bounds [] rest since h = cc
parse_optional_sequence_bounds (value ∷ fields) rest since h =
    ground (arith, parse_number-lt u64_limit since value)

sequence_sends :
    (fields : List Text) (since : Option ℕ) (rest : List Text)
    → parse_optional_sequence fields ≡ ok (since, rest)
    → IsSendable (subscribe since)
sequence_sends fields none rest h = tt
sequence_sends fields (some since) rest h = parse_optional_sequence_bounds fields rest since h

complete_same :
    (value : Text) (q r : Request) (rest : List Text) → complete value (q, rest) ≡ ok r → q ≡ r
unfolding complete
complete_same value q r [] h = ground arith
complete_same value q r (f ∷ rest) h = cc

parse_fields-IsSendable :
    (text : Text) (command : Command) (fields rest : List Text) (r : Request)
    → Sends command
    → All IsWord fields
    → parse_fields text command fields ≡ ok (r, rest)
    → IsSendable r
unfolding parse_fields
parse_fields-IsSendable text (plain q) fields rest r s w h =
    let same : q ≡ r = ground arith in subst IsSendable same s
parse_fields-IsSendable text (named make) fields rest r s w h =
    let (name, e, f) = bind_ok (parse_service_name fields) _ h in
    let same : make name.0 ≡ r = ground (arith, f) in
    subst IsSendable same (s name.0 (parse_service_name-IsWord fields name.0 name.1 w e))
parse_fields-IsSendable text resets [] rest r s w h =
    let same : reset_failed none ≡ r = ground arith in subst IsSendable same tt
parse_fields-IsSendable text resets (f ∷ fields) rest r s w h =
    let same : reset_failed (some f) ≡ r = ground arith in subst IsSendable same w.0
parse_fields-IsSendable text transactions fields rest r s w h =
    let (id, e, f) = bind_ok (parse_transaction_id fields) _ h in
    let same : transaction_status id.0 ≡ r = ground (arith, f) in
    subst IsSendable same (parse_transaction_id_bounds fields id.1 id.0 e)
parse_fields-IsSendable text subscribes fields rest r s w h =
    let (since, e, f) = bind_ok (parse_optional_sequence fields) _ h in
    let same : subscribe since.0 ≡ r = ground (arith, f) in
    subst IsSendable same (sequence_sends fields since.0 since.1 e)
parse_fields-IsSendable text shuts_down fields rest r s w h =
    let (action, e, f) = bind_ok (parse_shutdown_action fields) _ h in
    let same : shutdown action.0 ≡ r = ground (arith, f) in subst IsSendable same tt
parse_fields-IsSendable text unknown fields rest r s w h = cc

-- Every line that `parse` accepts means a request that can be sent, and the line of that request is
-- accepted as the same request.
pub parse_accepts :
    (value : Text) (r : Request) → parse value ≡ ok r → IsSendable r × (parse (as_line r) ≡ ok r)
unfolding parse complete
parse_accepts value r h = elim (List-cases (words value)) [
  | inl e ↦ absurd (ground (arith, e, h))
  | inr (command, fields, e) ↦
      let k : (parse_fields command (read_command command) fields >>= complete value) ≡ ok r =
        ground (arith, e, h) in
      let (read, f, last) = bind_ok (parse_fields command (read_command command) fields) _ k in
      let same : read.0 ≡ r = complete_same value read.0 r read.1 last in
      let w = subst (All IsWord) e (words-IsWord value) in
      let sends = subst IsSendable same (
        parse_fields-IsSendable command (read_command command) fields read.1 read.0
          (read_command-Sends command) w.1 f) in
      (sends, parse-as_line r sends)
]
