-- ===== src/Record/Invariant.antt =====
-- crates/fractald-core/src/lib.rs, `ServiceRecord`: what holds of a record between two events.
use fractal_d.Base.{ℕ, ◌≤◌, ◌<◌, ◌≡◌, ◌⊎◌, true, ◌||◌, arith}
use fractal_d.Spec.{ExitReason}
use fractal_d.Record.Types.{stopping, failed, Event, ServiceRecord, u64_limit}
use fractal_d.Record.Start.{
  start, spawned, adopted, ready, activated, spawn_failed, condition_skipped, restart_due, reset,
}
use fractal_d.Record.Stop.{
  start_failed, stop, stop_completed, start_timed_out, job_timed_out, runtime_timed_out,
  stop_timed_out, start_limit_hit, has_process,
}
use fractal_d.Record.Exit.{process_exited}
use fractal_d.Record.Transition.{transition}

pub record IsValid (r : ServiceRecord) : Type 0 where
  pub counted : r.restart_count ≤ r.spec.restart_limit
  pub bounded : r.generation < u64_limit
  pub flagged :
      (r.has_start_failed || r.has_runtime_failed) ≡ true
      → ((r.state ≡ stopping) × (has_process r ≡ true)) ⊎ (r.state ≡ failed)

start-IsValid : (r : ServiceRecord) → IsValid r → IsValid (start r).0
unfolding start
start-IsValid r v = ground arith

process_exited-IsValid :
    (r : ServiceRecord) (pid generation : ℕ) (reason : ExitReason)
    → IsValid r
    → IsValid (process_exited r pid generation reason).0
unfolding process_exited
process_exited-IsValid r pid generation reason v = ground arith

-- Every event, in every state, keeps a valid record valid.
pub transition-IsValid : (r : ServiceRecord) (e : Event) → IsValid r → IsValid (transition r e).0
unfolding transition start spawned adopted ready activated spawn_failed condition_skipped
    restart_due reset start_failed stop stop_completed start_timed_out job_timed_out
    runtime_timed_out stop_timed_out start_limit_hit
transition-IsValid r (Event.exited_event pid generation reason) v =
    process_exited-IsValid r pid generation reason v
transition-IsValid r _ v = ground arith
