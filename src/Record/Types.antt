-- ===== src/Record/Types.antt =====
-- crates/fractald-core/src/lib.rs: the states, events, actions and errors of `ServiceRecord`, and
-- the record itself. A method on `&mut self` returns the record that it leaves and its result.
-- Numbers are u64 (generations) and u32 (process ids, counts).
use fractal_d.Base.{
  ℕ, ◌+◌, ◌^◌, Bool, true, false, Option, none, some, List, [], ◌∷◌, ℤ, pos, ltb, ◌==◌,
  if◌then◌else◌,
}
use fractal_d.Spec.{ServiceSpec, ExitReason}

pub data ServiceState : Type 0 where
  defined starting running active stopping backoff exited_state skipped failed : ServiceState

pub data Event : Type 0 where
  start_requested : Event
  spawned_event : ℕ → ℕ → Event
  adopted_event : ℕ → ℕ → Event
  ready_event : ℕ → ℕ → Event
  activated_event : ℕ → Event
  condition_skipped_event : ℕ → Event
  start_failed_event : ℕ → Event
  spawn_failed_event : ℕ → Event
  stop_requested : Event
  stop_completed_event : Event
  exited_event : ℕ → ℕ → ExitReason → Event
  start_timed_out_event : ℕ → Event
  job_timed_out_event : Event
  stop_timed_out_event : ℕ → Event
  runtime_timed_out_event : ℕ → Event
  start_limit_hit_event : ℕ → Event
  restart_due_event : ℕ → Event
  reset_event : Event

pub data Action : Type 0 where
  spawn : ℕ → Action
  send_signal : ℕ → ℤ → Action
  schedule_restart : ℕ → ℕ → Action

pub data TransitionError : Type 0 where
  invalid_event : ServiceState → Event → TransitionError
  invalid_pid : TransitionError
  stale_generation : ℕ → ℕ → TransitionError
  unexpected_pid : ℕ → ℕ → TransitionError

pub data Result {ℓ} (A : Type ℓ) : Type ℓ where
  ok : A → Result A
  err : TransitionError → Result A

pub record ServiceRecord : Type 0 where
  pub spec : ServiceSpec
  pub state : ServiceState
  pub pid : Option ℕ
  pub generation : ℕ
  pub restart_count : ℕ
  pub last_exit : Option ExitReason
  pub has_start_failed : Bool
  pub has_runtime_failed : Bool

-- What a method leaves: the record and its result.
abbrev pub Outcome : Type 0
Outcome = ServiceRecord × Result (List Action)

-- An early return of an error, before the record is changed.
abbrev pub refuse : ServiceRecord → TransitionError → Outcome
refuse r e = (r, err e)

abbrev pub accept : ServiceRecord → List Action → Outcome
accept r actions = (r, ok actions)

-- `matches!(state, ...)` for one state.
abbrev pub is_starting : ServiceState → Bool
is_starting starting = true
is_starting other = false

abbrev pub is_running : ServiceState → Bool
is_running running = true
is_running other = false

abbrev pub is_active : ServiceState → Bool
is_active active = true
is_active other = false

abbrev pub is_stopping : ServiceState → Bool
is_stopping stopping = true
is_stopping other = false

abbrev pub is_backoff : ServiceState → Bool
is_backoff backoff = true
is_backoff other = false

-- The four states without a process or a pending start.
abbrev pub is_settled : ServiceState → Bool
is_settled defined = true
is_settled exited_state = true
is_settled skipped = true
is_settled failed = true
is_settled other = false

abbrev pub sigkill : ℤ
sigkill = pos 9

abbrev pub u32_limit : ℕ
u32_limit = 2 ^ 32

abbrev pub u64_limit : ℕ
u64_limit = 2 ^ 64

-- `checked_add(1).unwrap_or(1)` on a u64
unfoldable pub next_generation : ℕ → ℕ
next_generation g = if ltb (g + 1) u64_limit then g + 1 else 1

unfoldable pub advance_generation : ServiceRecord → ServiceRecord
unfolding next_generation
advance_generation r = record r { generation = next_generation r.generation }

-- `self.pid.ok_or(...)?`, the comparison with the observed process, and what follows them.
abbrev pub check_pid : ServiceRecord → ℕ → Outcome → Outcome
check_pid r pid rest = elim r.pid [
  | none ↦ refuse r (unexpected_pid 0 pid)
  | some expected ↦ if expected == pid then rest else refuse r (unexpected_pid expected pid)
]

-- The service waits for its next attempt, and the attempt is counted.
abbrev pub schedule : ServiceRecord → Outcome
schedule r =
    accept (record r { restart_count = r.restart_count + 1; state = backoff })
      (schedule_restart r.generation r.spec.restart_backoff ∷ [])

-- `self.check_generation(generation)?`, and what follows it.
abbrev pub check_generation : ServiceRecord → ℕ → Outcome → Outcome
check_generation r observed rest =
    if observed == r.generation then rest else refuse r (stale_generation r.generation observed)

-- A record before its first event, once its descriptor is validated.
unfoldable pub initial : ServiceSpec → ServiceRecord
initial spec = record {
  spec = spec;
  state = defined;
  pid = none;
  generation = 0;
  restart_count = 0;
  last_exit = none;
  has_start_failed = false;
  has_runtime_failed = false;
}
