-- ===== src/Record/Restart/Policy.antt =====
-- The restart policy, and the exits that are listed in a descriptor.
use fractal_d.Base.{
  ◌≡◌, ◌≢◌, ◌⊎◌, ◌↔◌, refl, inl, inr, true, false, not, ◌&&◌, List, ℤ, pos, int_eq_iff, has_status,
  arith, Bool-cases,
}
use fractal_d.Spec.{
  ServiceSpec, RestartPolicy, never, on_success, on_failure, on_abnormal, on_abort, always,
  ExitReason, exited, signaled, core_dumped, is_success, should_restart,
}
use fractal_d.Record.Exit.{exit_status_matches, successful_exit, restarts_on_success, wants_restart}
use fractal_d.Record.Restart.{clean, Permits, number_of, is_prevented, counts_as}

is_success_iff : (reason : ExitReason) → (is_success reason ≡ true) ↔ (reason ≡ clean)
is_success_iff (exited code) = ground (arith, int_eq_iff code (pos 0))
is_success_iff (signaled s) = ground arith
is_success_iff (core_dumped s) = ground arith

pub should_restart_iff :
    (policy : RestartPolicy) (reason : ExitReason)
    → (should_restart policy reason ≡ true) ↔ Permits policy reason
unfolding should_restart
should_restart_iff never reason = ground arith
should_restart_iff on_success reason = is_success_iff reason
should_restart_iff on_failure reason = ground (arith, is_success_iff reason)
should_restart_iff on_abnormal (exited code) =
    ((λ h. cc), (λ h. elim h.1 [ inl e ↦ cc | inr e ↦ cc ]))
should_restart_iff on_abnormal (signaled s) = ((λ h. (s, inl refl)), (λ h. refl))
should_restart_iff on_abnormal (core_dumped s) = ((λ h. (s, inr refl)), (λ h. refl))
should_restart_iff on_abort (exited code) = ((λ h. cc), (λ h. cc))
should_restart_iff on_abort (signaled s) = ((λ h. cc), (λ h. cc))
should_restart_iff on_abort (core_dumped s) = ((λ h. (s, refl)), (λ h. refl))
should_restart_iff always reason = ((λ h. tt), (λ h. refl))

pub matches_lem :
    (statuses : List ℤ) (reason : ExitReason)
    → exit_status_matches statuses reason ≡ has_status statuses (number_of reason)
unfolding exit_status_matches
matches_lem statuses (exited code) = refl
matches_lem statuses (signaled s) = refl
matches_lem statuses (core_dumped s) = refl

successful_exit_iff :
    (spec : ServiceSpec) (reason : ExitReason)
    → (successful_exit spec reason ≡ true) ↔ (counts_as spec reason ≡ clean)
unfolding successful_exit
successful_exit_iff spec reason =
    ground (arith, is_success_iff reason, matches_lem spec.success_exit_status reason)

restarts_on_success_lem :
    (policy : RestartPolicy) → restarts_on_success policy ≡ should_restart policy clean
unfolding should_restart
restarts_on_success_lem never = refl
restarts_on_success_lem on_success = refl
restarts_on_success_lem on_failure = refl
restarts_on_success_lem on_abnormal = refl
restarts_on_success_lem on_abort = refl
restarts_on_success_lem always = refl

wants_restart_lem :
    (spec : ServiceSpec) (reason : ExitReason)
    → wants_restart spec reason
      ≡ (not (is_prevented spec reason) && should_restart spec.restart (counts_as spec reason))
unfolding wants_restart successful_exit
wants_restart_lem spec reason = ground (
  arith,
  is_success_iff reason,
  restarts_on_success_lem spec.restart,
  matches_lem spec.success_exit_status reason,
  matches_lem spec.restart_prevent_exit_status reason,
)

pub wants_restart_iff :
    (spec : ServiceSpec) (reason : ExitReason)
    → (wants_restart spec reason ≡ true)
      ↔ ((is_prevented spec reason ≡ false) × Permits spec.restart (counts_as spec reason))
wants_restart_iff spec reason =
    let policy = should_restart_iff spec.restart (counts_as spec reason) in
    let both = wants_restart_lem spec reason in
    (
      (λ h. (ground (arith, both, h), policy.0 (ground (arith, both, h)))),
      (λ h. ground (arith, both, h.0, policy.1 h.1)),
    )

pub remains_iff :
    (spec : ServiceSpec) (reason : ExitReason)
    → ((successful_exit spec reason && spec.remain_after_exit) ≡ false)
      ↔ ((counts_as spec reason ≢ clean) ⊎ (spec.remain_after_exit ≡ false))
remains_iff spec reason =
    let counted = successful_exit_iff spec reason in
    (
      (λ h. elim (Bool-cases (successful_exit spec reason)) [
        | inl success ↦ inr (ground (arith, success, h))
        | inr failure ↦ inl (λ e. absurd (ground (arith, failure, counted.1 e)))
      ]),
      (λ h. elim h [
        | inr remains ↦ ground (arith, remains)
        | inl other ↦ elim (Bool-cases (successful_exit spec reason)) [
          | inl success ↦ absurd (other (counted.0 success))
          | inr failure ↦ ground (arith, failure)
        ]
      ]),
    )
