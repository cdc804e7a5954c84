-- ===== src/Spec/Policy.antt =====
-- crates/fractald-core/src/lib.rs: `ExitReason` and `RestartPolicy`.
use fractal_d.Base.{Bool, true, false, ℤ, pos, int_eq, not}

pub data ExitReason : Type 0 where
  exited : ℤ → ExitReason
  signaled : ℤ → ExitReason
  core_dumped : ℤ → ExitReason

abbrev pub is_success : ExitReason → Bool
is_success (exited code) = int_eq code (pos 0)
is_success (signaled signal) = false
is_success (core_dumped signal) = false

abbrev pub is_failure : ExitReason → Bool
is_failure reason = not (is_success reason)

abbrev pub is_signaled : ExitReason → Bool
is_signaled (exited code) = false
is_signaled (signaled signal) = true
is_signaled (core_dumped signal) = true

abbrev pub is_core_dumped : ExitReason → Bool
is_core_dumped (core_dumped signal) = true
is_core_dumped other = false

pub data RestartPolicy : Type 0 where
  never on_success on_failure on_abnormal on_abort always : RestartPolicy

unfoldable pub should_restart : RestartPolicy → ExitReason → Bool
should_restart never reason = false
should_restart on_success reason = is_success reason
should_restart on_failure reason = is_failure reason
should_restart on_abnormal reason = is_signaled reason
should_restart on_abort reason = is_core_dumped reason
should_restart always reason = true
