-- ===== src/Record/Tests.antt =====
-- The theorems about `ServiceRecord` at records that the tests of lib.rs drive.
use fractal_d.Base.{
  ◌+◌, ◌≤◌, ◌≡◌, ◌↔◌, refl, inl, inr, true, false, none, some, [], ◌∷◌, pos, arith, codes, length,
  All,
}
use fractal_d.Fixtures.{service}
use fractal_d.Spec.{ServiceSpec, exited, on_failure, on_abort}
use fractal_d.Record.Create.{create, create-IsValid}
use fractal_d.Spec.Validate.{
  validate, is_blank, is_unsafe_name, find_bad_credential, find_bad_import, ◌or_else◌, report,
  fails_if,
}
use fractal_d.Spec.Validate.Sound.{IsSound}
use fractal_d.Base.{text_eq, is_whitespace, is_control}
use fractal_d.Record.Effects.{
  is_err, actions_of, Fits, transition_refused, transition_stale, transition_actions,
}
use fractal_d.Record.Exit.{process_exited}
use fractal_d.Record.Invariant.{IsValid, transition-IsValid}
use fractal_d.Record.Lifecycle.{◌⟶◌, transition-⟶, HasStopped, stop_ends, stop_ends_late}
use fractal_d.Record.Restart.{Restarts}
use fractal_d.Record.Restart.Exact.{transition_backoff}
use fractal_d.Record.Runs.{run, run_spawns, budget, run_spawns-le}
use fractal_d.Record.Start.{start, restart_due}
use fractal_d.Record.Transition.{transition}
use fractal_d.Record.Types.{
  starting, running, backoff, failed, Event, start_requested, stop_requested, stop_completed_event,
  spawned_event, exited_event, restart_due_event, send_signal, ok, ServiceRecord, initial,
}

abbrev demo : ServiceSpec
demo = record (service (codes "demo")) { restart = on_failure }

-- Started and spawned: the first generation, as process 42.
abbrev up : ServiceRecord
up = record {
  spec = demo;
  state = running;
  pid = some 42;
  generation = 1;
  restart_count = 0;
  last_exit = none;
  has_start_failed = false;
  has_runtime_failed = false;
}

-- Started, with no process yet.
abbrev begun : ServiceRecord
begun = record up { state = starting; pid = none }

up-IsValid : IsValid up
up-IsValid = ground arith

abbrev failure : Event
failure = exited_event 42 1 (exited (pos 1))

transition-IsValid_example : IsValid (transition up failure).0
transition-IsValid_example = transition-IsValid up failure up-IsValid

transition_refused_example : (transition up start_requested).0 ≡ up
unfolding transition start
transition_refused_example = transition_refused up start_requested refl

transition_stale_example : is_err (transition up (exited_event 42 7 (exited (pos 1)))).1 ≡ true
transition_stale_example =
    transition_stale up (exited_event 42 7 (exited (pos 1))) 7 refl (omega arith)

transition_actions_example :
    All (Fits up (transition up stop_requested).0) (actions_of (transition up stop_requested).1)
    × (length (actions_of (transition up stop_requested).1) ≤ 1)
transition_actions_example = transition_actions up stop_requested up-IsValid

run_spawns-le_example :
    run_spawns up (failure ∷ restart_due_event 1 ∷ [])
      + budget (run up (failure ∷ restart_due_event 1 ∷ []))
    ≤ budget up
run_spawns-le_example =
    run_spawns-le up (failure ∷ restart_due_event 1 ∷ []) ((λ e. cc), ((λ e. cc), tt))

-- The restart is in fact made once in that history.
spawned_once : run_spawns up (failure ∷ restart_due_event 1 ∷ []) ≡ 1
unfolding transition process_exited restart_due
spawned_once = refl

transition-⟶_example : running ⟶ (transition up failure).0.state
transition-⟶_example = transition-⟶ up failure

-- A failure calls for the restart that the policy of `demo` is for.
transition_backoff_example :
    (((transition up failure).0.state ≡ backoff) ↔ Restarts up failure)
    × ((transition up failure).0.state ≡ backoff
        → (transition up failure).0.restart_count ≡ up.restart_count + 1)
transition_backoff_example = transition_backoff up failure (λ e. cc)

failure-Restarts : Restarts up failure
failure-Restarts = ((refl, refl, inl (inr refl, inr refl, refl, (λ e. cc))), omega arith)

-- An exit is no abort.
abbrev aborting : ServiceRecord
aborting = record up { spec = record demo { restart = on_abort } }

not_restarted : (transition aborting failure).0.state ≡ failed
unfolding transition process_exited
not_restarted = refl

stop_ends_example : HasStopped (run up (stop_requested ∷ exited_event 42 1 (exited (pos 1)) ∷ []))
stop_ends_example = stop_ends up 42 (exited (pos 1)) (inr refl) refl

stop_ends_late_example :
    HasStopped (run begun (stop_requested ∷ stop_completed_event ∷ []))
    × ((transition (run begun (stop_requested ∷ [])) (spawned_event 7 1)).1
        ≡ ok (send_signal 7 (pos 15) ∷ []))
    × HasStopped
        (run begun (stop_requested ∷ spawned_event 7 1 ∷ exited_event 7 1 (exited (pos 0)) ∷ []))
stop_ends_late_example = stop_ends_late begun 7 (exited (pos 0)) (inl refl) refl (omega arith)

created : create demo ≡ inr (initial demo)
unfolding create validate is_blank is_unsafe_name text_eq is_whitespace is_control
    find_bad_credential find_bad_import ◌or_else◌ report fails_if
created = refl

create-IsValid_example :
    IsSound demo × IsValid (run (initial demo) (start_requested ∷ stop_requested ∷ []))
create-IsValid_example =
    create-IsValid demo (initial demo) (start_requested ∷ stop_requested ∷ []) created
