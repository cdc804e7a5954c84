-- ===== src/Graph/Tests.antt =====
-- Runs of the planner on the registries of the tests in crates/fractald-core/src/graph.rs, and its
-- theorems at these inputs.
use fractal_d.Base.{
  ◌≡◌, refl, ◌⊎◌, true, false, some, if◌then◌else◌, List, [], ◌∷◌, Text, text_eq, text_lt,
}
use fractal_d.BTree.Before.{before, reverse}
use fractal_d.BTree.Map.{get, put, keys, constant}
use fractal_d.BTree.Set.{contains, insert, extend, IsDistinct}
use fractal_d.Graph.Closure.{
  cost, required_closure, select_start_closure, push_required, push_wanted,
}
use fractal_d.Graph.Model.{
  DependencyGraph, done, fails, cycle, required_dependencies, wanted_dependencies,
  mount_dependencies, wanted_mount_dependencies, providers, normalized, own_mount, has_service, add,
  duplicate_service,
}
use fractal_d.Graph.Ordering.{
  ordering_graph, add_services, add_service, add_edges_to, add_edges_from, add_edge,
}
use fractal_d.Graph.Ordering.Build.{precedes}
use fractal_d.Graph.Paths.{expanded_requires_mounts_for, expanded_wants_mounts_for}
use fractal_d.Graph.Plan.{plan_start, plan_stop, plan_all_start}
use fractal_d.Graph.Closure.Total.{IsClosure}
use fractal_d.Graph.Plan.All.{IsRegistry, add_lem, plan_all_start_total}
use fractal_d.Graph.Plan.Start.{
  Plans, plan_start_total, plan_start_required, plan_start_ordered, plan_stop_ordered,
  required_closure-plan_start,
}
use fractal_d.Graph.Sorting.Finish.{IsPlan, IsStuck}
use fractal_d.Graph.Sorting.{topological_order, drain, relax, lower, unsorted}
use fractal_d.Graph.Samples.{env, app, db, metrics, app_service, registry, registry_ascending}

plan_app : plan_start env registry app ≡ done (db ∷ metrics ∷ app ∷ [])
unfolding plan_start select_start_closure topological_order text_eq text_lt get put keys constant
    contains insert extend required_dependencies wanted_dependencies mount_dependencies
    wanted_mount_dependencies providers normalized own_mount ordering_graph add_services add_service
    add_edges_to add_edges_from add_edge push_required push_wanted drain relax lower unsorted
    expanded_requires_mounts_for expanded_wants_mounts_for reverse cost
plan_app = refl

registry-app : has_service registry app ≡ true
unfolding contains keys text_eq
registry-app = refl

plan_start_total_example : Plans env registry app (plan_start env registry app)
plan_start_total_example = plan_start_total env registry app refl registry-app

plan_start_required_example :
    (contains (db ∷ metrics ∷ app ∷ []) app ≡ true)
    × ((n d : Text)
        → contains (db ∷ metrics ∷ app ∷ []) n ≡ true
        → contains (required_dependencies env registry n) d ≡ true
        → (contains (db ∷ metrics ∷ app ∷ []) d ≡ true)
          × (before d n (db ∷ metrics ∷ app ∷ []) ≡ true))
plan_start_required_example =
    plan_start_required env registry app (db ∷ metrics ∷ app ∷ []) plan_app

plan_start_ordered_example :
    IsDistinct (db ∷ metrics ∷ app ∷ [])
    × ((p n : Text)
        → contains (db ∷ metrics ∷ app ∷ []) p ≡ true
        → contains (db ∷ metrics ∷ app ∷ []) n ≡ true
        → precedes env registry p n ≡ true
        → before p n (db ∷ metrics ∷ app ∷ []) ≡ true)
plan_start_ordered_example = plan_start_ordered env registry app (db ∷ metrics ∷ app ∷ []) plan_app

stop_app : plan_stop env registry app ≡ done (app ∷ metrics ∷ db ∷ [])
unfolding plan_stop reverse
stop_app = rw plan_app

plan_stop_ordered_example :
    (contains (app ∷ metrics ∷ db ∷ []) app ≡ true)
    × ((p n : Text)
        → contains (app ∷ metrics ∷ db ∷ []) p ≡ true
        → contains (app ∷ metrics ∷ db ∷ []) n ≡ true
        → precedes env registry p n ≡ true
        → before n p (app ∷ metrics ∷ db ∷ []) ≡ true)
plan_stop_ordered_example = plan_stop_ordered env registry app (app ∷ metrics ∷ db ∷ []) stop_app

required_closure-plan_start_example :
    (t : List Text) × (required_closure env registry app ≡ done t)
    × IsClosure registry (required_dependencies env registry) app t
    × ((n : Text) → contains t n ≡ true → contains (db ∷ metrics ∷ app ∷ []) n ≡ true)
required_closure-plan_start_example =
    required_closure-plan_start env registry app (db ∷ metrics ∷ app ∷ []) plan_app

plan_all_start_total_example :
    ((order : List Text) × (plan_all_start env registry ≡ done order)
      × IsPlan (keys registry.services) (precedes env registry) order)
    ⊎ ((names : List Text) × (plan_all_start env registry ≡ fails (cycle names))
        × IsStuck (keys registry.services) (precedes env registry) names)
plan_all_start_total_example = plan_all_start_total env registry registry_ascending

add_lem_example :
    ((has_service registry app ≡ true) × (add registry app_service ≡ fails (duplicate_service app)))
    ⊎ ((t : DependencyGraph) × (add registry app_service ≡ done t)
        × (has_service registry app ≡ false)
        × IsRegistry t
        × ((k : Text)
            → get t.services k
              ≡ (if text_eq app k then some app_service else get registry.services k)))
add_lem_example = add_lem registry app_service registry_ascending
