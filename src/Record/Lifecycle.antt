-- ===== src/Record/Lifecycle.antt =====
-- crates/fractald-core/src/lib.rs, `ServiceRecord`: which state follows which, and how a run ends.
use fractal_d.Base.{ℕ, ◌<◌, ◌≡◌, ◌≢◌, ◌⊎◌, none, some, [], ◌∷◌, arith}
use fractal_d.Spec.{ExitReason}
use fractal_d.Record.Types.{
  ServiceState, defined, starting, running, active, stopping, backoff, exited_state, skipped,
  failed, Event, stop_requested, stop_completed_event, spawned_event, exited_event, ok, send_signal,
  ServiceRecord,
}
use fractal_d.Record.Start.{
  start, spawned, adopted, ready, activated, spawn_failed, condition_skipped, restart_due, reset,
}
use fractal_d.Record.Stop.{
  start_failed, stop, stop_completed, start_timed_out, job_timed_out, runtime_timed_out,
  stop_timed_out, start_limit_hit,
}
use fractal_d.Record.Exit.{process_exited}
use fractal_d.Record.Runs.{run}
use fractal_d.Record.Transition.{transition}

-- The diagram of the states.
infix 40 ◌⟶◌
pub data ◌⟶◌ : ServiceState → ServiceState → Type 0 where
  stay : {s : ServiceState} → s ⟶ s
  begin_new : defined ⟶ starting
  begin_exited : exited_state ⟶ starting
  begin_skipped : skipped ⟶ starting
  begin_failed : failed ⟶ starting
  begin_backoff : backoff ⟶ starting
  come_up : starting ⟶ running
  activate : starting ⟶ active
  skip : starting ⟶ skipped
  end_starting : starting ⟶ stopping
  end_running : running ⟶ stopping
  wait_starting : starting ⟶ backoff
  wait_running : running ⟶ backoff
  wait_stopping : stopping ⟶ backoff
  remain_running : running ⟶ active
  leave_starting : starting ⟶ exited_state
  leave_running : running ⟶ exited_state
  leave_stopping : stopping ⟶ exited_state
  leave_active : active ⟶ exited_state
  leave_backoff : backoff ⟶ exited_state
  fail : {s : ServiceState} → s ≢ active → s ⟶ failed
  clear_exited : exited_state ⟶ defined
  clear_skipped : skipped ⟶ defined
  clear_failed : failed ⟶ defined

ruleset edges = (
  stay, begin_new, begin_exited, begin_skipped, begin_failed, begin_backoff, come_up, activate,
  skip, end_starting, end_running, wait_starting, wait_running, wait_stopping, remain_running,
  leave_starting, leave_running, leave_stopping, leave_active, leave_backoff, fail, clear_exited,
  clear_skipped, clear_failed,
)

process_exited-⟶ :
    (r : ServiceRecord) (pid generation : ℕ) (reason : ExitReason)
    → r.state ⟶ (process_exited r pid generation reason).0.state
unfolding process_exited
process_exited-⟶ r pid generation reason = grind (arith, edges)

-- Every event, a refused one too, takes the state of the record along `⟶`.
pub transition-⟶ : (r : ServiceRecord) (e : Event) → r.state ⟶ (transition r e).0.state
unfolding transition start spawned adopted ready activated spawn_failed condition_skipped
    restart_due reset start_failed stop stop_completed start_timed_out job_timed_out
    runtime_timed_out stop_timed_out start_limit_hit
transition-⟶ r (exited_event pid generation reason) = process_exited-⟶ r pid generation reason
transition-⟶ r _ = grind (arith, edges)

-- A record that was stopped, with its process gone.
pub record HasStopped (t : ServiceRecord) : Type 0 where
  pub stopped : t.state ≡ exited_state
  pub gone : t.pid ≡ none
  pub uncounted : t.restart_count ≡ 0

-- A stop request ends a service that is starting or running with a process: once the exit of that
-- process is reported, the service has stopped, whatever the exit status and the restart policy.
pub stop_ends :
    (r : ServiceRecord) (p : ℕ) (reason : ExitReason)
    → ((r.state ≡ starting) ⊎ (r.state ≡ running))
    → r.pid ≡ some p
    → HasStopped (run r (stop_requested ∷ exited_event p r.generation reason ∷ []))
unfolding transition stop process_exited
stop_ends r p reason s h = ground arith

-- A stop request also ends a service that is starting or running and has no process: when the
-- stop is completed, or, if a process with an id above 0 is spawned after all, by sending that
-- process the kill signal at once and taking its exit.
pub stop_ends_late :
    (r : ServiceRecord) (p : ℕ) (reason : ExitReason)
    → ((r.state ≡ starting) ⊎ (r.state ≡ running))
    → r.pid ≡ none
    → 0 < p
    → HasStopped (run r (stop_requested ∷ stop_completed_event ∷ []))
      × ((transition (run r (stop_requested ∷ [])) (spawned_event p r.generation)).1
          ≡ ok (send_signal p r.spec.kill_signal ∷ []))
      × HasStopped (
          run r (
            stop_requested
            ∷ spawned_event p r.generation
            ∷ exited_event p r.generation reason
            ∷ []))
unfolding transition stop stop_completed spawned process_exited
stop_ends_late r p reason s h k = ground arith
