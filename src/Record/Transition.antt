-- ===== src/Record/Transition.antt =====
-- crates/fractald-core/src/lib.rs: `ServiceRecord::transition`, which hands each event to its
-- method.
use fractal_d.Record.Types.{
  Event, start_requested, spawned_event, adopted_event, ready_event, activated_event,
  condition_skipped_event, start_failed_event, spawn_failed_event, stop_requested,
  stop_completed_event, exited_event, start_timed_out_event, job_timed_out_event,
  stop_timed_out_event, runtime_timed_out_event, start_limit_hit_event, restart_due_event,
  reset_event, ServiceRecord, Outcome,
}
use fractal_d.Record.Start.{
  start, spawned, adopted, ready, activated, spawn_failed, condition_skipped, restart_due, reset,
}
use fractal_d.Record.Stop.{
  start_failed, stop, stop_completed, start_timed_out, job_timed_out, runtime_timed_out,
  stop_timed_out, start_limit_hit,
}
use fractal_d.Record.Exit.{process_exited}

unfoldable pub transition : ServiceRecord → Event → Outcome
transition r start_requested = start r
transition r (spawned_event pid generation) = spawned r pid generation
transition r (adopted_event pid generation) = adopted r pid generation
transition r (ready_event pid generation) = ready r pid generation
transition r (activated_event generation) = activated r generation
transition r (condition_skipped_event generation) = condition_skipped r generation
transition r (start_failed_event generation) = start_failed r generation
transition r (spawn_failed_event generation) = spawn_failed r generation
transition r stop_requested = stop r
transition r stop_completed_event = stop_completed r
transition r (exited_event pid generation reason) = process_exited r pid generation reason
transition r (start_timed_out_event generation) = start_timed_out r generation
transition r job_timed_out_event = job_timed_out r
transition r (stop_timed_out_event generation) = stop_timed_out r generation
transition r (runtime_timed_out_event generation) = runtime_timed_out r generation
transition r (start_limit_hit_event generation) = start_limit_hit r generation
transition r (restart_due_event generation) = restart_due r generation
transition r reset_event = reset r
