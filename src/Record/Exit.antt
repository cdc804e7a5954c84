-- ===== src/Record/Exit.antt =====
-- crates/fractald-core/src/lib.rs: `ServiceRecord::exited`, which judges the end of a process, and
-- `ServiceRecord::transition`, which hands each event to its method.
use fractal_d.Base.{
  ℕ, Bool, true, false, not, ◌&&◌, ◌||◌, none, some, List, [], pos, ℤ, ltb, has_status,
  if◌then◌else◌,
}
use fractal_d.Spec.{
  ServiceSpec, RestartPolicy, on_success, always, ExitReason, exited, signaled, core_dumped,
  is_success, should_restart,
}
use fractal_d.Record.Types.{
  active, exited_state, failed, exited_event, invalid_event, ServiceRecord, Outcome, refuse, accept,
  is_starting, is_running, is_stopping, check_generation, check_pid, schedule,
}

unfoldable pub exit_status_matches : List ℤ → ExitReason → Bool
exit_status_matches statuses (exited code) = has_status statuses code
exit_status_matches statuses (signaled signal) = has_status statuses signal
exit_status_matches statuses (core_dumped signal) = has_status statuses signal

unfoldable pub successful_exit : ServiceSpec → ExitReason → Bool
unfolding exit_status_matches
successful_exit spec reason =
    is_success reason || exit_status_matches spec.success_exit_status reason

-- `matches!(restart, OnSuccess | Always)`
abbrev pub restarts_on_success : RestartPolicy → Bool
restarts_on_success on_success = true
restarts_on_success always = true
restarts_on_success other = false

-- The process ended while the record was stopping. `flagged` says that it was stopped because its
-- start or its run had failed.
unfoldable pub exited_stopping : ServiceRecord → Bool → Outcome
unfolding exit_status_matches should_restart
exited_stopping r flagged =
    if flagged
    then (let failure = exited (pos 1) in
        let prevented = exit_status_matches r.spec.restart_prevent_exit_status failure in
        if not prevented
          && should_restart r.spec.restart failure
          && ltb r.restart_count r.spec.restart_limit
        then schedule r
        else accept (record r { state = failed }) [])
    else accept (record r { state = exited_state; restart_count = 0 }) []

-- Whether the policy wants another run after the service ended by itself.
unfoldable pub wants_restart : ServiceSpec → ExitReason → Bool
unfolding exit_status_matches successful_exit should_restart
wants_restart spec reason =
    not (exit_status_matches spec.restart_prevent_exit_status reason)
    && (if successful_exit spec reason && not (is_success reason)
        then restarts_on_success spec.restart
        else should_restart spec.restart reason)

-- The process ended by itself.
unfoldable pub exited_alone : ServiceRecord → ExitReason → Outcome
unfolding wants_restart successful_exit
exited_alone r reason =
    if successful_exit r.spec reason && r.spec.remain_after_exit
    then accept (record r { state = active; restart_count = 0 }) []
    else if wants_restart r.spec reason && ltb r.restart_count r.spec.restart_limit
    then schedule r
    else if successful_exit r.spec reason
    then accept (record r { state = exited_state; restart_count = 0 }) []
    else accept (record r { state = failed }) []

-- The fields that `exited` writes before it chooses the next state.
abbrev pub note_exit : ServiceRecord → ExitReason → ServiceRecord
note_exit r reason = record r {
  pid = none;
  last_exit = some reason;
  has_start_failed = false;
  has_runtime_failed = false;
}

unfoldable pub process_exited : ServiceRecord → ℕ → ℕ → ExitReason → Outcome
unfolding exited_stopping exited_alone
process_exited r pid generation reason =
    if not (is_starting r.state || is_running r.state || is_stopping r.state)
    then refuse r (invalid_event r.state (exited_event pid generation reason))
    else check_generation r generation (
        check_pid r pid (
          let r' = note_exit r reason in
          if is_stopping r.state
          then exited_stopping r' (r.has_start_failed || r.has_runtime_failed)
          else exited_alone r' reason))
