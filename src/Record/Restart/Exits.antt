-- ===== src/Record/Restart/Exits.antt =====
-- The exit of a process, and the restart after it.
use fractal_d.Base.{
  ℕ, ◌<◌, ◌≡◌, ◌≢◌, ◌⊎◌, ◌↔◌, sym, ap, ◌∙◌, inl, inr, Bool, true, false, ◌&&◌, ◌||◌, some, pos,
  arith,
}
use fractal_d.Spec.{ExitReason, exited, should_restart}
use fractal_d.Record.Types.{
  ServiceState, starting, running, stopping, backoff, exited_event, ServiceRecord,
}
use fractal_d.Record.Exit.{
  exit_status_matches, successful_exit, wants_restart, exited_alone, exited_stopping, note_exit,
  process_exited,
}
use fractal_d.Record.Restart.{Restarts}
use fractal_d.Record.Restart.Policy.{
  should_restart_iff, matches_lem, wants_restart_iff, remains_iff,
}

exited_alone_iff :
    (r : ServiceRecord) (reason : ExitReason)
    → ((exited_alone r reason).0.state ≡ backoff) ↔ (
        (successful_exit r.spec reason && r.spec.remain_after_exit ≡ false)
        × (wants_restart r.spec reason ≡ true)
        × (r.restart_count < r.spec.restart_limit))
unfolding exited_alone
exited_alone_iff r reason = ground arith

exited_stopping_iff :
    (r : ServiceRecord) (flagged : Bool)
    → ((exited_stopping r flagged).0.state ≡ backoff) ↔ (
        (flagged ≡ true)
        × (exit_status_matches r.spec.restart_prevent_exit_status (exited (pos 1)) ≡ false)
        × (should_restart r.spec.restart (exited (pos 1)) ≡ true)
        × (r.restart_count < r.spec.restart_limit))
unfolding exited_stopping
exited_stopping_iff r flagged = ground arith

process_exited_alone_iff :
    (r : ServiceRecord) (pid generation : ℕ) (reason : ExitReason)
    → ((r.state ≡ starting) ⊎ (r.state ≡ running))
    → ((process_exited r pid generation reason).0.state ≡ backoff) ↔ (
        (generation ≡ r.generation)
        × (r.pid ≡ some pid)
        × ((exited_alone (note_exit r reason) reason).0.state ≡ backoff))
unfolding process_exited
process_exited_alone_iff r pid generation reason s = ground arith

process_exited_stopping_iff :
    (r : ServiceRecord) (pid generation : ℕ) (reason : ExitReason)
    → r.state ≡ stopping
    → ((process_exited r pid generation reason).0.state ≡ backoff) ↔ (
        (generation ≡ r.generation)
        × (r.pid ≡ some pid)
        × ((exited_stopping
              (note_exit r reason)
              (r.has_start_failed || r.has_runtime_failed)).0.state
            ≡ backoff))
unfolding process_exited
process_exited_stopping_iff r pid generation reason s = ground arith

process_exited_other :
    (r : ServiceRecord) (pid generation : ℕ) (reason : ExitReason)
    → r.state ≢ starting
    → r.state ≢ running
    → r.state ≢ stopping
    → (process_exited r pid generation reason).0 ≡ r
unfolding process_exited
process_exited_other r pid generation reason a b c = ground arith

ends_run :
    (s : ServiceState)
    → ((s ≡ starting) ⊎ (s ≡ running))
      ⊎ ((s ≡ stopping) ⊎ ((s ≢ starting) × (s ≢ running) × (s ≢ stopping)))
ends_run s = ground arith

alone-Restarts :
    (r : ServiceRecord) (pid generation : ℕ) (reason : ExitReason)
    → ((r.state ≡ starting) ⊎ (r.state ≡ running))
    → ((process_exited r pid generation reason).0.state ≡ backoff)
      ↔ Restarts r (exited_event pid generation reason)
alone-Restarts r pid generation reason s =
    let whole = process_exited_alone_iff r pid generation reason s in
    let alone = exited_alone_iff (note_exit r reason) reason in
    let remains = remains_iff r.spec reason in
    let wants = wants_restart_iff r.spec reason in
    (
      (λ h.
          let (g, p, b) = whole.0 h in
          let (u, w, limit) = alone.0 b in
          let (prevented, permits) = wants.0 w in
          ((g, p, inl (s, remains.0 u, prevented, permits)), limit)),
      (λ h. elim h.0.2 [
        | inl (t, u, prevented, permits) ↦
            whole.1 (h.0.0, h.0.1, alone.1 (remains.1 u, wants.1 (prevented, permits), h.1))
        | inr other ↦ absurd (ground (arith, s, other.0))
      ]),
    )

stopping-Restarts :
    (r : ServiceRecord) (pid generation : ℕ) (reason : ExitReason)
    → r.state ≡ stopping
    → ((process_exited r pid generation reason).0.state ≡ backoff)
      ↔ Restarts r (exited_event pid generation reason)
stopping-Restarts r pid generation reason s =
    let flagged = r.has_start_failed || r.has_runtime_failed in
    let whole = process_exited_stopping_iff r pid generation reason s in
    let failed = exited_stopping_iff (note_exit r reason) flagged in
    let policy = should_restart_iff r.spec.restart (exited (pos 1)) in
    let listed = matches_lem r.spec.restart_prevent_exit_status (exited (pos 1)) in
    (
      (λ h.
          let (g, p, b) = whole.0 h in
          let (f, prevented, should, limit) = failed.0 b in
          ((g, p, inr (s, ground (arith, f), sym listed ∙ prevented, policy.0 should)), limit)),
      (λ h. elim h.0.2 [
        | inl other ↦ absurd (ground (arith, s, other.0))
        | inr (t, f, prevented, permits) ↦
            whole.1 (
              h.0.0,
              h.0.1,
              failed.1 (ground (arith, f), listed ∙ prevented, policy.1 permits, h.1),
            )
      ]),
    )

pub process_exited-Restarts :
    (r : ServiceRecord) (pid generation : ℕ) (reason : ExitReason)
    → r.state ≢ backoff
    → ((process_exited r pid generation reason).0.state ≡ backoff)
      ↔ Restarts r (exited_event pid generation reason)
process_exited-Restarts r pid generation reason n = elim (ends_run r.state) [
  | inl alone ↦ alone-Restarts r pid generation reason alone
  | inr (inl stops) ↦ stopping-Restarts r pid generation reason stops
  | inr (inr (a, b, c)) ↦ (
    (λ h.
        absurd
          (n (ap (λ t. t.state) (sym (process_exited_other r pid generation reason a b c)) ∙ h))),
    (λ h. elim h.0.2 [
      | inl other ↦ elim other.0 [ inl e ↦ absurd (a e) | inr e ↦ absurd (b e) ]
      | inr other ↦ absurd (c other.0)
    ]),
  )
]
