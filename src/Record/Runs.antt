-- ===== src/Record/Runs.antt =====
-- crates/fractald-core/src/lib.rs, `ServiceRecord`: histories of events. A refused event leaves the
-- record to the next one, as the callers of `transition` do.
use fractal_d.Base.{ℕ, ◌+◌, ◌-◌, ◌≤◌, refl, ◌≢◌, ◌||◌, List, [], ◌∷◌, arith, All, if◌then◌else◌}
use fractal_d.Spec.{ServiceSpec, ExitReason}
use fractal_d.Record.Types.{
  Event, start_requested, exited_event, Action, spawn, send_signal, schedule_restart, ServiceRecord,
  initial, is_starting, is_running, is_stopping, is_backoff,
}
use fractal_d.Record.Start.{
  start, spawned, adopted, ready, activated, spawn_failed, condition_skipped, restart_due, reset,
}
use fractal_d.Record.Stop.{
  start_failed, stop, stop_completed, start_timed_out, job_timed_out, runtime_timed_out,
  stop_timed_out, start_limit_hit,
}
use fractal_d.Record.Exit.{process_exited}
use fractal_d.Record.Effects.{actions_of}
use fractal_d.Record.Invariant.{IsValid, transition-IsValid}
use fractal_d.Record.Transition.{transition}

abbrev pub run : ServiceRecord → List Event → ServiceRecord
run r [] = r
run r (e ∷ es) = run (transition r e).0 es

-- The spawns among some actions, and in the answers to a history.
abbrev pub spawns : List Action → ℕ
spawns [] = 0
spawns (spawn g ∷ actions) = 1 + spawns actions
spawns (send_signal p s ∷ actions) = spawns actions
spawns (schedule_restart g after ∷ actions) = spawns actions

abbrev pub run_spawns : ServiceRecord → List Event → ℕ
run_spawns r [] = 0
run_spawns r (e ∷ es) = spawns (actions_of (transition r e).1) + run_spawns (transition r e).0 es

pub initial-IsValid : (spec : ServiceSpec) → IsValid (initial spec)
unfolding initial
initial-IsValid spec = ground arith

pub run-IsValid : (r : ServiceRecord) (es : List Event) → IsValid r → IsValid (run r es)
run-IsValid r [] v = v
run-IsValid r (e ∷ es) v = run-IsValid (transition r e).0 es (transition-IsValid r e v)

-- The attempts that are left without another request: none unless the service is under way.
abbrev pub budget : ServiceRecord → ℕ
budget r =
    if is_backoff r.state
    then r.spec.restart_limit - r.restart_count + 1
    else if is_starting r.state || is_running r.state || is_stopping r.state
    then r.spec.restart_limit - r.restart_count
    else 0

process_exited-budget :
    (r : ServiceRecord) (pid generation : ℕ) (reason : ExitReason)
    → spawns (actions_of (process_exited r pid generation reason).1)
        + budget (process_exited r pid generation reason).0
      ≤ budget r
unfolding process_exited
process_exited-budget r pid generation reason = ground arith

transition-budget :
    (r : ServiceRecord) (e : Event)
    → e ≢ start_requested
    → spawns (actions_of (transition r e).1) + budget (transition r e).0 ≤ budget r
unfolding transition start spawned adopted ready activated spawn_failed condition_skipped
    restart_due reset start_failed stop stop_completed start_timed_out job_timed_out
    runtime_timed_out stop_timed_out start_limit_hit
transition-budget r start_requested h = absurd (h refl)
transition-budget r (exited_event pid generation reason) h =
    process_exited-budget r pid generation reason
transition-budget r _ h = ground arith

-- Whatever happens to a service, without another start request it is spawned at most as often as its
-- restart limit leaves: `restart_limit - restart_count` times, and once more if a restart is due.
pub run_spawns-le :
    (r : ServiceRecord) (es : List Event)
    → All (λ e. e ≢ start_requested) es
    → run_spawns r es + budget (run r es) ≤ budget r
run_spawns-le r [] h = omega arith
run_spawns-le r (e ∷ es) h =
    omega (arith, transition-budget r e h.0, run_spawns-le (transition r e).0 es h.1)
