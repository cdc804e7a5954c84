-- ===== src/Record/Stop.antt =====
-- crates/fractald-core/src/lib.rs: the methods of `ServiceRecord` that end a run from outside.
use fractal_d.Base.{ℕ, Bool, true, false, not, ◌||◌, none, some, List, [], ◌∷◌, pos, if◌then◌else◌}
use fractal_d.Spec.{ExitReason, exited}
use fractal_d.Record.Types.{
  stopping, exited_state, failed, start_failed_event, stop_completed_event, start_timed_out_event,
  job_timed_out_event, stop_timed_out_event, runtime_timed_out_event, start_limit_hit_event, Action,
  send_signal, invalid_event, ServiceRecord, Outcome, refuse, accept, is_starting, is_running,
  is_active, is_stopping, is_backoff, is_settled, sigkill, advance_generation, check_generation,
}

unfoldable pub start_failed : ServiceRecord → ℕ → Outcome
unfolding advance_generation
start_failed r generation =
    if not (is_starting r.state || is_running r.state)
    then refuse r (invalid_event r.state (start_failed_event generation))
    else check_generation r generation (elim r.pid [
      | some pid ↦
          accept (record r { has_start_failed = true; state = stopping })
            (send_signal pid r.spec.kill_signal ∷ [])
      | none ↦ accept (advance_generation (record r { has_start_failed = true; state = failed })) []
    ])

-- What a stop sends: nothing if a stop command is configured or there is no process.
abbrev pub stop_actions : ServiceRecord → List Action
stop_actions r = elim r.spec.stop [
  | some command ↦ []
  | none ↦ elim r.pid [ some pid ↦ send_signal pid r.spec.kill_signal ∷ [] | none ↦ [] ]
]

unfoldable pub stop : ServiceRecord → Outcome
stop r =
    if is_starting r.state || is_running r.state
    then accept
        (record r { state = stopping; has_start_failed = false; has_runtime_failed = false })
        (stop_actions r)
    else if is_active r.state || is_backoff r.state
    then accept (record r { state = exited_state; restart_count = 0 }) []
    else accept r []

abbrev pub has_process : ServiceRecord → Bool
has_process r = elim r.pid [ some pid ↦ true | none ↦ false ]

unfoldable pub stop_completed : ServiceRecord → Outcome
stop_completed r =
    if not (is_stopping r.state) || has_process r
    then refuse r (invalid_event r.state stop_completed_event)
    else accept
        (record r {
          state = exited_state;
          restart_count = 0;
          has_start_failed = false;
          has_runtime_failed = false;
        })
        []

unfoldable pub start_timed_out : ServiceRecord → ℕ → Outcome
unfolding advance_generation
start_timed_out r generation =
    if not (is_starting r.state)
    then refuse r (invalid_event r.state (start_timed_out_event generation))
    else check_generation r generation (elim r.pid [
      | some pid ↦
          accept (record r { state = stopping; has_start_failed = true })
            (send_signal pid r.spec.kill_signal ∷ [])
      | none ↦
          accept
            (advance_generation
              (record r { state = failed; has_start_failed = false; has_runtime_failed = false }))
            []
    ])

-- The job or the start is given up: the record says so by this exit status.
abbrev pub give_up : ServiceRecord → ExitReason → Outcome
unfolding advance_generation
give_up r reason =
    accept
      (advance_generation (record r {
        pid = none;
        last_exit = some reason;
        has_start_failed = false;
        has_runtime_failed = false;
        restart_count = 0;
        state = failed;
      }))
      []

unfoldable pub job_timed_out : ServiceRecord → Outcome
unfolding advance_generation
job_timed_out r =
    if not (is_settled r.state || is_backoff r.state)
    then refuse r (invalid_event r.state job_timed_out_event)
    else give_up r (exited (pos 124))

unfoldable pub runtime_timed_out : ServiceRecord → ℕ → Outcome
unfolding advance_generation
runtime_timed_out r generation =
    if not (is_running r.state)
    then refuse r (invalid_event r.state (runtime_timed_out_event generation))
    else check_generation r generation (elim r.pid [
      | some pid ↦
          accept (record r { state = stopping; has_runtime_failed = true })
            (send_signal pid r.spec.kill_signal ∷ [])
      | none ↦
          accept (advance_generation (record r { state = failed; has_runtime_failed = false })) []
    ])

unfoldable pub stop_timed_out : ServiceRecord → ℕ → Outcome
unfolding advance_generation
stop_timed_out r generation =
    if not (is_stopping r.state)
    then refuse r (invalid_event r.state (stop_timed_out_event generation))
    else check_generation r generation (elim r.pid [
      | some pid ↦ accept r (send_signal pid sigkill ∷ [])
      | none ↦ accept (advance_generation (record r { state = exited_state })) []
    ])

unfoldable pub start_limit_hit : ServiceRecord → ℕ → Outcome
unfolding advance_generation
start_limit_hit r generation =
    if not (is_settled r.state || is_starting r.state || is_backoff r.state)
    then refuse r (invalid_event r.state (start_limit_hit_event generation))
    else check_generation r generation (give_up r (exited (pos 1)))
