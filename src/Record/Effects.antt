-- ===== src/Record/Effects.antt =====
-- crates/fractald-core/src/lib.rs, `ServiceRecord`: what an event may leave and ask for.
use fractal_d.Base.{
  ℕ, ◌≤◌, ◌≡◌, ◌≢◌, ◌⊎◌, Bool, true, false, Option, none, some, List, [], arith, length, All,
}
use fractal_d.Spec.{ExitReason}
use fractal_d.Record.Types.{
  starting, stopping, backoff, Event, start_requested, spawned_event, adopted_event, ready_event,
  activated_event, condition_skipped_event, start_failed_event, spawn_failed_event, exited_event,
  start_timed_out_event, stop_timed_out_event, runtime_timed_out_event, start_limit_hit_event,
  restart_due_event, Action, spawn, send_signal, schedule_restart, Result, ok, err, ServiceRecord,
  sigkill,
}
use fractal_d.Record.Start.{
  start, spawned, adopted, ready, activated, spawn_failed, condition_skipped, restart_due, reset,
}
use fractal_d.Record.Stop.{
  start_failed, stop, stop_completed, start_timed_out, job_timed_out, runtime_timed_out,
  stop_timed_out, start_limit_hit,
}
use fractal_d.Record.Exit.{process_exited}
use fractal_d.Record.Invariant.{IsValid}
use fractal_d.Record.Transition.{transition}

abbrev pub is_err {ℓ} : {A : Type ℓ} → Result A → Bool
is_err (ok a) = false
is_err (err e) = true

abbrev pub actions_of : Result (List Action) → List Action
actions_of (ok actions) = actions
actions_of (err e) = []

-- The generation that an event carries, if it carries one.
abbrev pub event_generation : Event → Option ℕ
event_generation (spawned_event pid generation) = some generation
event_generation (adopted_event pid generation) = some generation
event_generation (ready_event pid generation) = some generation
event_generation (activated_event generation) = some generation
event_generation (condition_skipped_event generation) = some generation
event_generation (start_failed_event generation) = some generation
event_generation (spawn_failed_event generation) = some generation
event_generation (exited_event pid generation reason) = some generation
event_generation (start_timed_out_event generation) = some generation
event_generation (stop_timed_out_event generation) = some generation
event_generation (runtime_timed_out_event generation) = some generation
event_generation (start_limit_hit_event generation) = some generation
event_generation (restart_due_event generation) = some generation
event_generation other = none

process_exited_refused :
    (r : ServiceRecord) (pid generation : ℕ) (reason : ExitReason)
    → is_err (process_exited r pid generation reason).1 ≡ true
    → (process_exited r pid generation reason).0 ≡ r
unfolding process_exited
process_exited_refused r pid generation reason h = ground arith

-- An event that is refused leaves the whole record as it was.
pub transition_refused :
    (r : ServiceRecord) (e : Event) → is_err (transition r e).1 ≡ true → (transition r e).0 ≡ r
unfolding transition start spawned adopted ready activated spawn_failed condition_skipped
    restart_due reset start_failed stop stop_completed start_timed_out job_timed_out
    runtime_timed_out stop_timed_out start_limit_hit
transition_refused r (exited_event pid generation reason) h =
    process_exited_refused r pid generation reason h
transition_refused r _ h = ground arith

-- An event that carries another generation than the record's is refused.
pub transition_stale :
    (r : ServiceRecord) (e : Event) (g : ℕ)
    → event_generation e ≡ some g
    → g ≢ r.generation
    → is_err (transition r e).1 ≡ true
unfolding transition start spawned adopted ready activated spawn_failed condition_skipped
    restart_due reset start_failed stop stop_completed start_timed_out job_timed_out
    runtime_timed_out stop_timed_out start_limit_hit process_exited
transition_stale r start_requested g e n = cc
transition_stale r _ g e n = ground arith

-- What an action says about the record `old` that the event met and the record `r` that it left.
abbrev pub Fits : ServiceRecord → ServiceRecord → Action → Type 0
Fits old r (spawn g) = (g ≡ r.generation) × (g ≢ old.generation) × (r.state ≡ starting)
Fits old r (send_signal p s) =
    (r.pid ≡ some p) × (r.state ≡ stopping) × ((s ≡ r.spec.kill_signal) ⊎ (s ≡ sigkill))
Fits old r (schedule_restart g after) =
    (g ≡ r.generation) × (r.state ≡ backoff) × (after ≡ r.spec.restart_backoff)

-- From a valid record, an event asks for one action at most; it speaks of the process and the generation that the record
-- has then. A signal goes to the record's own process, while it is stopping; a spawn takes a
-- generation that differs from the one before it.
pub transition_actions :
    (r : ServiceRecord) (e : Event)
    → IsValid r
    → All (Fits r (transition r e).0) (actions_of (transition r e).1)
      × (length (actions_of (transition r e).1) ≤ 1)
unfolding transition start spawned adopted ready activated spawn_failed condition_skipped
    restart_due reset start_failed stop stop_completed start_timed_out job_timed_out
    runtime_timed_out stop_timed_out start_limit_hit process_exited
transition_actions r start_requested v = ground arith
transition_actions r _ v = ground arith
