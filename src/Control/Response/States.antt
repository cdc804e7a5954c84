-- ===== src/Control/Response/States.antt =====
-- The answers about a service and about several, and the messages, read back.
use fractal_d.Base.{
  ℕ, ◌<◌, ◌≡◌, refl, ◌∙◌, ap, Bool, true, false, Option, none, some, List, [], ◌∷◌, ◌++◌, All,
  arith, Text, codes, text_eq, ltb, ◌==◌, digits, is_whitespace, is_digit, parse_number-digits,
  digits-IsWord, digits_head, digits_onto, IsWord, HasNoSpace, strip_prefix, split_at, join, Lacks,
  split_at-join, if◌then◌else◌,
}
use fractal_d.Control.Types.{ok, u8_limit, u32_limit, u64_limit}
use fractal_d.Control.Response.{
  ServiceStatus, event, services, service, enabled_status, error, one_line, trim_breaks, field,
  line_of, ended, pid_text, flag_text, line, as_line, parse_number_field, is_empty, parse_services,
  parse_service, parse_pid, parse_enabled_status, find_arm, parse_line, parse,
}
use fractal_d.Control.Response.Lines.{
  EndsInWord, one_line_lem, trim_breaks_lem, field-IsWord, HasNoSpace-append,
}
use fractal_d.Control.Response.Fields.{
  IsReportable, number_field, IsWord-HasNoSpace, number-IsWord, parse-ok_line, parse-message,
  pid-IsKey, names-IsKey, name-IsKey, state-IsKey, generation-IsKey, restarts-IsKey, enabled-IsKey,
}

-- The process id of a service, and its absence.
pub digit_text_eq :
    (c : ℕ) (cs text : Text) → text ≡ c ∷ cs → is_digit c ≡ true → text_eq text (codes "-") ≡ false
unfolding text_eq
digit_text_eq c cs text e d = rw e (ground arith)

pub parse_pid_text :
    (text : Text) (pid : Option ℕ)
    → ((n : ℕ) → pid ≡ some n → n < u32_limit)
    → parse_pid text (pid_text pid) ≡ ok pid
unfolding text_eq
parse_pid_text text none h = refl
parse_pid_text text (some n) h =
    let (c, cs, e, d) = digits_head n in
    let other : text_eq (digits n) (codes "-") ≡ false = digit_text_eq c cs (digits n) e d in
    ground (arith, other, parse_number-digits u32_limit n (h n refl))

pub pid_text-HasNoSpace : (pid : Option ℕ) → HasNoSpace (pid_text pid)
unfolding is_whitespace
pid_text-HasNoSpace none = (refl, tt)
pid_text-HasNoSpace (some n) = IsWord-HasNoSpace (digits n) (digits-IsWord n)

pub parse-service :
    (s : ServiceStatus) → IsReportable (service s) → parse (as_line (service s)) ≡ ok (service s)
unfolding line line_of parse_line strip_prefix text_eq is_whitespace find_arm parse_service
parse-service s h =
    parse-ok_line (codes "SERVICE")
      (field (codes "name") (s.name)
        ∷ field (codes "state") (s.state)
        ∷ field (codes "pid") (pid_text s.pid)
        ∷ field (codes "generation") (digits s.generation)
        ∷ field (codes "restarts") (digits s.restart_count)
        ∷ [])
      (service s)
      (
        ground arith,
        (
          field-IsWord (codes "name") (s.name) (ground arith) h.0,
          (
            field-IsWord (codes "state") (s.state) (ground arith) h.1,
            (
              field-IsWord (codes "pid") (pid_text s.pid) (ground arith)
                  (pid_text-HasNoSpace s.pid),
              (
                number-IsWord (codes "generation") (s.generation) (ground arith),
                (number-IsWord (codes "restarts") (s.restart_count) (ground arith), tt),
              ),
            ),
          ),
        ),
      )
      refl
      (ground (
        arith,
        name-IsKey (s.name) (
            field (codes "state") (s.state)
            ∷ field (codes "pid") (pid_text s.pid)
            ∷ field (codes "generation") (digits s.generation)
            ∷ field (codes "restarts") (digits s.restart_count)
            ∷ []),
        state-IsKey (s.state) (
            field (codes "pid") (pid_text s.pid)
            ∷ field (codes "generation") (digits s.generation)
            ∷ field (codes "restarts") (digits s.restart_count)
            ∷ []),
        pid-IsKey (pid_text s.pid) (
            field (codes "generation") (digits s.generation)
            ∷ field (codes "restarts") (digits s.restart_count)
            ∷ []),
        number_field u64_limit (s.generation) (codes "generation")
            (field (codes "restarts") (digits s.restart_count) ∷ []) generation-IsKey h.3,
        number_field u32_limit (s.restart_count) (codes "restarts") ([]) restarts-IsKey h.4,
        parse_pid_text [] s.pid h.2,
      ))

pub flag_text-HasNoSpace : (on : Bool) → HasNoSpace (flag_text on)
unfolding is_whitespace
flag_text-HasNoSpace true = (refl, tt)
flag_text-HasNoSpace false = (refl, tt)

pub flag_number :
    (on : Bool)
    → (n : ℕ) × (flag_text on ≡ digits n) × (n < u8_limit) × (ltb 1 n ≡ false) × ((n == 1) ≡ on)
unfolding digits digits_onto
flag_number true = (1, refl, omega arith, refl, refl)
flag_number false = (0, refl, omega arith, refl, refl)

pub parse-enabled_status :
    (name : Text) (on : Bool)
    → IsReportable (enabled_status name on)
    → parse (as_line (enabled_status name on)) ≡ ok (enabled_status name on)
unfolding line line_of parse_line strip_prefix text_eq is_whitespace find_arm parse_enabled_status
parse-enabled_status name on h =
    let (n, e, lt, small, same) = flag_number on in
    let read =
      ap (λ t. parse_number_field u8_limit (codes "enabled") (field (codes "enabled") t ∷ [])) e
      ∙ number_field u8_limit n (codes "enabled") [] enabled-IsKey lt in
    parse-ok_line (codes "ENABLED_STATUS")
      (field (codes "name") name ∷ field (codes "enabled") (flag_text on) ∷ [])
      (enabled_status name on)
      (
        ground arith,
        (
          field-IsWord (codes "name") name (ground arith) h,
          (
            field-IsWord (codes "enabled") (flag_text on) (ground arith) (flag_text-HasNoSpace on),
            tt,
          ),
        ),
      )
      refl
      (ground
        (arith, name-IsKey name (field (codes "enabled") (flag_text on) ∷ []), read, small, same))

-- The list of names, joined and split.
pub names_text-HasNoSpace :
    (names : List Text)
    → All (λ name. IsWord name × Lacks b',' name) names
    → HasNoSpace (join b',' names)
unfolding join is_whitespace
names_text-HasNoSpace [] h = tt
names_text-HasNoSpace (n ∷ []) h = IsWord-HasNoSpace n h.0.0
names_text-HasNoSpace (n ∷ m ∷ ns) h =
    HasNoSpace-append n (b',' ∷ join b',' (m ∷ ns)) (IsWord-HasNoSpace n h.0.0)
      (refl, names_text-HasNoSpace (m ∷ ns) h.1)

pub names_lack :
    (names : List Text) → All (λ name. IsWord name × Lacks b',' name) names → All (Lacks b',') names
names_lack [] h = tt
names_lack (n ∷ ns) h = (h.0.1, names_lack ns h.1)

pub join_some :
    (name : Text) (names : List Text) → IsWord name → is_empty (join b',' (name ∷ names)) ≡ false
unfolding join
join_some [] names h = elim h [ ]
join_some (c ∷ cs) [] h = refl
join_some (c ∷ cs) (n ∷ ns) h = refl

pub names_read :
    (names : List Text)
    → All (λ name. IsWord name × Lacks b',' name) names
    → (if is_empty (join b',' names) then [] else split_at b',' (join b',' names)) ≡ names
unfolding join
names_read [] h = refl
names_read (n ∷ ns) h =
    ground (arith, join_some n ns h.0.0, split_at-join b',' n ns (names_lack (n ∷ ns) h))

pub parse-services :
    (names : List Text)
    → IsReportable (services names)
    → parse (as_line (services names)) ≡ ok (services names)
unfolding line line_of parse_line strip_prefix text_eq is_whitespace find_arm parse_services
parse-services names h =
    parse-ok_line (codes "SERVICES") (field (codes "names") (join b',' names) ∷ []) (services names)
      (
        ground arith,
        (
          field-IsWord (codes "names") (join b',' names) (ground arith)
              (names_text-HasNoSpace names h),
          tt,
        ),
      )
      refl (ground (arith, names-IsKey (join b',' names) [], names_read names h))

pub parse-event :
    (text : Text) → IsReportable (event text) → parse (as_line (event text)) ≡ ok (event text)
unfolding line parse_line strip_prefix text_eq is_whitespace
parse-event text h =
    let same : one_line (trim_breaks text) ≡ text =
      ap one_line (trim_breaks_lem text h.0) ∙ one_line_lem text h.0 in
    ap (λ t. parse (ended (codes "OK EVENT " ++ t))) same
    ∙ parse-message b'O' (codes "K EVENT ") text (event text) refl h (some_text text h.1)
  where
    some_text :
        (text : Text) → EndsInWord text → parse_line (codes "OK EVENT " ++ text) ≡ ok (event text)
    some_text [] h = elim h [ ]
    some_text (c ∷ cs) h = refl

pub parse-error :
    (message : Text)
    → IsReportable (error message)
    → parse (as_line (error message)) ≡ ok (error message)
unfolding line parse_line strip_prefix text_eq is_whitespace
parse-error message h =
    ap (λ t. parse (ended (codes "ERR " ++ t))) (one_line_lem message h.0)
    ∙ parse-message b'E' (codes "RR ") message (error message) refl h refl
