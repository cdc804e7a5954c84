-- ===== src/Record/Restart/Exact.antt =====
-- When a record comes to wait for a restart.
use fractal_d.Base.{ℕ, ◌+◌, ◌<◌, ◌≡◌, ◌≢◌, ◌↔◌, true, pos, arith}
use fractal_d.Spec.{ExitReason, exited, should_restart}
use fractal_d.Record.Types.{
  starting, backoff, Event, spawn_failed_event, exited_event, ServiceRecord,
}
use fractal_d.Record.Start.{
  start, spawned, adopted, ready, activated, spawn_failed, condition_skipped, restart_due, reset,
}
use fractal_d.Record.Stop.{
  start_failed, stop, stop_completed, start_timed_out, job_timed_out, runtime_timed_out,
  stop_timed_out, start_limit_hit,
}
use fractal_d.Record.Exit.{process_exited}
use fractal_d.Record.Transition.{transition}
use fractal_d.Record.Restart.{Restarts}
use fractal_d.Record.Restart.Policy.{should_restart_iff}
use fractal_d.Record.Restart.Exits.{process_exited-Restarts}

spawn_failed_iff :
    (r : ServiceRecord) (generation : ℕ)
    → r.state ≢ backoff
    → ((spawn_failed r generation).0.state ≡ backoff) ↔ (
        (generation ≡ r.generation)
        × (r.state ≡ starting)
        × (should_restart r.spec.restart (exited (pos 127)) ≡ true)
        × (r.restart_count < r.spec.restart_limit))
unfolding spawn_failed
spawn_failed_iff r generation n = ground arith

spawn_failed-Restarts :
    (r : ServiceRecord) (generation : ℕ)
    → r.state ≢ backoff
    → ((spawn_failed r generation).0.state ≡ backoff) ↔ Restarts r (spawn_failed_event generation)
spawn_failed-Restarts r generation n =
    let policy = should_restart_iff r.spec.restart (exited (pos 127)) in
    let whole = spawn_failed_iff r generation n in
    (
      (λ h. let (g, s, should, limit) = whole.0 h in ((g, s, policy.0 should), limit)),
      (λ h. whole.1 (h.0.0, h.0.1, policy.1 h.0.2, h.1)),
    )

backoff_iff :
    (r : ServiceRecord) (e : Event)
    → r.state ≢ backoff
    → ((transition r e).0.state ≡ backoff) ↔ Restarts r e
unfolding transition start spawned adopted ready activated condition_skipped restart_due reset
    start_failed stop stop_completed start_timed_out job_timed_out runtime_timed_out stop_timed_out
    start_limit_hit
backoff_iff r (exited_event pid generation reason) n =
    process_exited-Restarts r pid generation reason n
backoff_iff r (spawn_failed_event generation) n = spawn_failed-Restarts r generation n
backoff_iff r _ n = ground arith

process_exited_count :
    (r : ServiceRecord) (pid generation : ℕ) (reason : ExitReason)
    → r.state ≢ backoff
    → (process_exited r pid generation reason).0.state ≡ backoff
    → (process_exited r pid generation reason).0.restart_count ≡ r.restart_count + 1
unfolding process_exited
process_exited_count r pid generation reason n h = ground arith

backoff_count :
    (r : ServiceRecord) (e : Event)
    → r.state ≢ backoff
    → (transition r e).0.state ≡ backoff
    → (transition r e).0.restart_count ≡ r.restart_count + 1
unfolding transition start spawned adopted ready activated spawn_failed condition_skipped
    restart_due reset start_failed stop stop_completed start_timed_out job_timed_out
    runtime_timed_out stop_timed_out start_limit_hit
backoff_count r (exited_event pid generation reason) n h =
    process_exited_count r pid generation reason n h
backoff_count r _ n h = ground arith

-- A record comes to wait for a restart exactly when its own run ends and calls for one and the
-- restart limit is not reached: when its process cannot be spawned, when it ends by itself and does
-- not remain active, or when it ends after a stop for a failed start or run. The policy permits that
-- end, an end listed as a success being a clean exit, and for an exit its status does not prevent
-- the restart. The attempt is counted.
pub transition_backoff :
    (r : ServiceRecord) (e : Event)
    → r.state ≢ backoff
    → (((transition r e).0.state ≡ backoff) ↔ Restarts r e)
      × ((transition r e).0.state ≡ backoff
          → (transition r e).0.restart_count ≡ r.restart_count + 1)
transition_backoff r e n = (backoff_iff r e n, λ h. backoff_count r e n h)
