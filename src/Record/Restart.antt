-- ===== src/Record/Restart.antt =====
-- crates/fractald-core/src/lib.rs, `ServiceRecord`: which ends of a run call for a restart, said
-- without the functions that decide it.
pub mod Policy
pub mod Exits
pub mod Exact
use fractal_d.Base.{◌<◌, ◌≡◌, ◌≢◌, ◌⊎◌, Bool, true, false, some, ℤ, pos, has_status, if◌then◌else◌}
use fractal_d.Spec.{
  ServiceSpec, RestartPolicy, never, on_success, on_failure, on_abnormal, on_abort, always,
  ExitReason, exited, signaled, core_dumped,
}
use fractal_d.Record.Types.{
  starting, running, stopping, Event, spawn_failed_event, exited_event, ServiceRecord,
}

abbrev pub clean : ExitReason
clean = exited (pos 0)

-- The ends of a run after which a policy restarts.
abbrev pub Permits : RestartPolicy → ExitReason → Type 0
Permits never reason = ⊥
Permits on_success reason = reason ≡ clean
Permits on_failure reason = reason ≢ clean
Permits on_abnormal reason = (s : ℤ) × ((reason ≡ signaled s) ⊎ (reason ≡ core_dumped s))
Permits on_abort reason = (s : ℤ) × (reason ≡ core_dumped s)
Permits always reason = Unit {0}

-- The exit code or the signal of an end
abbrev pub number_of : ExitReason → ℤ
number_of (exited code) = code
number_of (signaled s) = s
number_of (core_dumped s) = s

abbrev pub is_prevented : ServiceSpec → ExitReason → Bool
is_prevented spec reason = has_status spec.restart_prevent_exit_status (number_of reason)

-- What an end counts as: a clean exit, if its number is listed as a success.
abbrev pub counts_as : ServiceSpec → ExitReason → ExitReason
counts_as spec reason =
    if has_status spec.success_exit_status (number_of reason) then clean else reason

-- The service ended by itself, by this end: it does not remain active, and the policy restarts it.
abbrev pub Revives : ServiceRecord → ExitReason → Type 0
Revives r reason =
    ((r.state ≡ starting) ⊎ (r.state ≡ running))
    × ((counts_as r.spec reason ≢ clean) ⊎ (r.spec.remain_after_exit ≡ false))
    × (is_prevented r.spec reason ≡ false)
    × Permits r.spec.restart (counts_as r.spec reason)

-- The service was stopped since its start or its run had failed, which is an exit with code 1.
abbrev pub Retries : ServiceRecord → Type 0
Retries r =
    (r.state ≡ stopping)
    × ((r.has_start_failed ≡ true) ⊎ (r.has_runtime_failed ≡ true))
    × (is_prevented r.spec (exited (pos 1)) ≡ false)
    × Permits r.spec.restart (exited (pos 1))

-- An event of the record's own run that calls for a restart: the process could not be spawned, which
-- is an exit with code 127, or it has ended.
abbrev pub CallsRestart : ServiceRecord → Event → Type 0
CallsRestart r (spawn_failed_event generation) =
    (generation ≡ r.generation) × (r.state ≡ starting) × Permits r.spec.restart (exited (pos 127))
CallsRestart r (exited_event pid generation reason) =
    (generation ≡ r.generation) × (r.pid ≡ some pid) × (Revives r reason ⊎ Retries r)
CallsRestart r other = ⊥

-- The restart that is called for is within the limit.
abbrev pub Restarts : ServiceRecord → Event → Type 0
Restarts r e = CallsRestart r e × (r.restart_count < r.spec.restart_limit)
