-- ===== src/Record/Start.antt =====
-- crates/fractald-core/src/lib.rs: the methods of `ServiceRecord` that begin a run.
use fractal_d.Base.{
  ℕ, Bool, true, false, not, ◌&&◌, ◌||◌, none, some, [], ◌∷◌, pos, ltb, ◌==◌, if◌then◌else◌,
}
use fractal_d.Spec.{ServiceType, exited, should_restart}
use fractal_d.Record.Types.{
  defined, starting, running, active, skipped, failed, start_requested, spawned_event,
  adopted_event, ready_event, activated_event, condition_skipped_event, spawn_failed_event,
  restart_due_event, reset_event, spawn, send_signal, invalid_event, invalid_pid, ServiceRecord,
  Outcome, refuse, accept, is_starting, is_running, is_active, is_stopping, is_backoff, is_settled,
  advance_generation, check_generation, check_pid, schedule,
}

unfoldable pub start : ServiceRecord → Outcome
unfolding advance_generation
start r =
    if is_settled r.state || is_backoff r.state
    then (let r' = advance_generation r in
        accept
          (record r' {
            state = starting;
            pid = none;
            last_exit = none;
            restart_count = 0;
            has_start_failed = false;
            has_runtime_failed = false;
          })
          (spawn r'.generation ∷ []))
    else if is_active r.state
    then accept r []
    else refuse r (invalid_event r.state start_requested)

-- `matches!(service_type, Notify | Dbus)`
abbrev pub waits_for_ready : ServiceType → Bool
waits_for_ready ServiceType.notify = true
waits_for_ready ServiceType.dbus = true
waits_for_ready other = false

unfoldable pub spawned : ServiceRecord → ℕ → ℕ → Outcome
spawned r pid generation =
    if pid == 0
    then refuse r invalid_pid
    else if not (is_starting r.state || is_stopping r.state)
    then refuse r (invalid_event r.state (spawned_event pid generation))
    else check_generation r generation (
        if is_starting r.state
        then accept
            (record r {
              pid = some pid;
              state = if waits_for_ready r.spec.service_type then starting else running;
            })
            []
        else accept (record r { pid = some pid }) (send_signal pid r.spec.kill_signal ∷ []))

unfoldable pub adopted : ServiceRecord → ℕ → ℕ → Outcome
adopted r pid generation =
    if pid == 0
    then refuse r invalid_pid
    else if not (is_running r.state)
    then refuse r (invalid_event r.state (adopted_event pid generation))
    else check_generation r generation (accept (record r { pid = some pid }) [])

unfoldable pub ready : ServiceRecord → ℕ → ℕ → Outcome
ready r pid generation =
    if not (is_starting r.state)
    then refuse r (invalid_event r.state (ready_event pid generation))
    else if pid == 0
    then refuse r invalid_pid
    else check_generation r generation (check_pid r pid (accept (record r { state = running }) []))

unfoldable pub activated : ServiceRecord → ℕ → Outcome
activated r generation =
    if not (is_starting r.state)
    then refuse r (invalid_event r.state (activated_event generation))
    else check_generation r generation (
        accept
          (record r { pid = none; state = active; restart_count = 0; has_start_failed = false }) [])

unfoldable pub spawn_failed : ServiceRecord → ℕ → Outcome
unfolding should_restart
spawn_failed r generation =
    if not (is_starting r.state)
    then refuse r (invalid_event r.state (spawn_failed_event generation))
    else check_generation r generation (
        let reason = exited (pos 127) in
        let r' = record r { last_exit = some reason } in
        if should_restart r.spec.restart reason && ltb r.restart_count r.spec.restart_limit
        then schedule r'
        else accept (record r' { state = failed }) [])

unfoldable pub condition_skipped : ServiceRecord → ℕ → Outcome
condition_skipped r generation =
    if not (is_starting r.state)
    then refuse r (invalid_event r.state (condition_skipped_event generation))
    else check_generation r generation (
        accept
          (record r { pid = none; state = skipped; restart_count = 0; has_start_failed = false })
          [])

unfoldable pub restart_due : ServiceRecord → ℕ → Outcome
unfolding advance_generation
restart_due r generation =
    if not (is_backoff r.state)
    then refuse r (invalid_event r.state (restart_due_event generation))
    else check_generation r generation (
        let r' = advance_generation r in
        accept (record r' { state = starting }) (spawn r'.generation ∷ []))

unfoldable pub reset : ServiceRecord → Outcome
reset r =
    if is_settled r.state
    then accept
        (record r {
          state = defined;
          pid = none;
          restart_count = 0;
          last_exit = none;
          has_start_failed = false;
          has_runtime_failed = false;
        })
        []
    else refuse r (invalid_event r.state reset_event)
