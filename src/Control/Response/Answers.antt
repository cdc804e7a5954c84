-- ===== src/Control/Response/Answers.antt =====
-- The answers with numbers and names, read back.
use fractal_d.Base.{
  ℕ, ◌≡◌, refl, [], ◌∷◌, arith, Text, codes, text_eq, digits, is_whitespace, strip_prefix,
}
use fractal_d.Control.Types.{ok, u32_limit, u64_limit}
use fractal_d.Control.Response.{
  TransactionStatus, status, transaction, accepted, enabled, disabled, field, line_of, line,
  as_line, parse_status, parse_transaction, parse_accepted, parse_name, find_arm, parse_line, parse,
}
use fractal_d.Control.Response.Lines.{field-IsWord}
use fractal_d.Control.Response.Fields.{
  IsReportable, number_field, number-IsWord, parse-ok_line, pid-IsKey, uptime_ms-IsKey, name-IsKey,
  state-IsKey, id-IsKey, operation-IsKey,
}

pub parse-status :
    (pid uptime_ms : ℕ)
    → IsReportable (status pid uptime_ms)
    → parse (as_line (status pid uptime_ms)) ≡ ok (status pid uptime_ms)
unfolding line line_of parse_line strip_prefix text_eq is_whitespace find_arm parse_status
parse-status pid uptime_ms h =
    parse-ok_line (codes "STATUS")
      (field (codes "pid") (digits pid) ∷ field (codes "uptime_ms") (digits uptime_ms) ∷ [])
      (status pid uptime_ms)
      (
        ground arith,
        (
          number-IsWord (codes "pid") (pid) (ground arith),
          (number-IsWord (codes "uptime_ms") (uptime_ms) (ground arith), tt),
        ),
      )
      refl
      (ground (
        arith,
        number_field u32_limit (pid) (codes "pid")
            (field (codes "uptime_ms") (digits uptime_ms) ∷ []) pid-IsKey h.0,
        number_field u64_limit (uptime_ms) (codes "uptime_ms") ([]) uptime_ms-IsKey h.1,
      ))

pub parse-transaction :
    (t : TransactionStatus)
    → IsReportable (transaction t)
    → parse (as_line (transaction t)) ≡ ok (transaction t)
unfolding line line_of parse_line strip_prefix text_eq is_whitespace find_arm parse_transaction
parse-transaction t h =
    parse-ok_line (codes "TRANSACTION")
      (field (codes "id") (digits t.id)
        ∷ field (codes "operation") (t.operation)
        ∷ field (codes "name") (t.name)
        ∷ field (codes "state") (t.state)
        ∷ [])
      (transaction t)
      (
        ground arith,
        (
          number-IsWord (codes "id") (t.id) (ground arith),
          (
            field-IsWord (codes "operation") (t.operation) (ground arith) h.1,
            (
              field-IsWord (codes "name") (t.name) (ground arith) h.2,
              (field-IsWord (codes "state") (t.state) (ground arith) h.3, tt),
            ),
          ),
        ),
      )
      refl
      (ground (
        arith,
        number_field u64_limit (t.id) (codes "id")
            (field (codes "operation") (t.operation)
              ∷ field (codes "name") (t.name)
              ∷ field (codes "state") (t.state)
              ∷ [])
            id-IsKey h.0,
        operation-IsKey (t.operation)
            (field (codes "name") (t.name) ∷ field (codes "state") (t.state) ∷ []),
        name-IsKey (t.name) (field (codes "state") (t.state) ∷ []),
        state-IsKey (t.state) ([]),
      ))

pub parse-accepted :
    (id : ℕ) (operation name : Text)
    → IsReportable (accepted id operation name)
    → parse (as_line (accepted id operation name)) ≡ ok (accepted id operation name)
unfolding line line_of parse_line strip_prefix text_eq is_whitespace find_arm parse_accepted
parse-accepted id operation name h =
    parse-ok_line (codes "ACCEPTED")
      (field (codes "id") (digits id)
        ∷ field (codes "operation") (operation)
        ∷ field (codes "name") (name)
        ∷ [])
      (accepted id operation name)
      (
        ground arith,
        (
          number-IsWord (codes "id") (id) (ground arith),
          (
            field-IsWord (codes "operation") (operation) (ground arith) h.1,
            (field-IsWord (codes "name") (name) (ground arith) h.2, tt),
          ),
        ),
      )
      refl
      (ground (
        arith,
        number_field u64_limit (id) (codes "id")
            (field (codes "operation") (operation) ∷ field (codes "name") (name) ∷ []) id-IsKey h.0,
        operation-IsKey (operation) (field (codes "name") (name) ∷ []),
        name-IsKey (name) ([]),
      ))

pub parse-enabled :
    (name : Text) → IsReportable (enabled name) → parse (as_line (enabled name)) ≡ ok (enabled name)
unfolding line line_of parse_line strip_prefix text_eq is_whitespace find_arm parse_name
parse-enabled name h =
    parse-ok_line (codes "ENABLED") (field (codes "name") (name) ∷ []) (enabled name)
      (ground arith, (field-IsWord (codes "name") (name) (ground arith) h, tt)) refl
      (ground (arith, name-IsKey (name) ([])))

pub parse-disabled :
    (name : Text)
    → IsReportable (disabled name)
    → parse (as_line (disabled name)) ≡ ok (disabled name)
unfolding line line_of parse_line strip_prefix text_eq is_whitespace find_arm parse_name
parse-disabled name h =
    parse-ok_line (codes "DISABLED") (field (codes "name") (name) ∷ []) (disabled name)
      (ground arith, (field-IsWord (codes "name") (name) (ground arith) h, tt)) refl
      (ground (arith, name-IsKey (name) ([])))
