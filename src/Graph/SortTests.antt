-- ===== src/Graph/SortTests.antt =====
-- The sort and the plans to stop everything, with and without a cycle.
use fractal_d.Base.{
  ◌≡◌, refl, sym, subst, ◌∙◌, ◌&&◌, text_eq_iff, true, false, List, [], ◌∷◌, arith, Text, text_eq,
  text_lt, ℕ, All, if◌then◌else◌, inl, inr, Bool-cases, ◌<◌,
}
use fractal_d.BTree.Before.{reverse}
use fractal_d.BTree.Map.{get, has_value, put, keys, constant}
use fractal_d.BTree.Set.{remove, contains, insert, extend, IsDistinct}
use mathlib.Core.Bool.{false≢true}
use fractal_d.Graph.BestEffort.{
  plan_all_stop_best_effort, unravel, round, choose, cut, cut_edge, predecessors_of, last_waiting,
}
use fractal_d.Graph.BestEffort.Agree.{plan_all_stop_best_effort-plan_all_stop}
use fractal_d.Graph.BestEffort.Total.{plan_all_stop_best_effort_total}
use fractal_d.Graph.Model.{
  done, fails, cycle, required_dependencies, wanted_dependencies, mount_dependencies,
  wanted_mount_dependencies, providers, normalized, own_mount, has_service,
}
use fractal_d.Graph.Ordering.Edges.{edge, IsConsistent}
use fractal_d.Graph.Ordering.{
  Ordering, ordering_graph, add_services, add_service, add_edges_to, add_edges_from, add_edge,
}
use fractal_d.Graph.Ordering.Build.{precedes, ordering_graph_exact}
use fractal_d.Graph.Paths.{expanded_requires_mounts_for, expanded_wants_mounts_for}
use fractal_d.Graph.Plan.{plan_all_stop, plan_all_start}
use fractal_d.Graph.Sorting.Complete.{Rises, topological_order_complete, topological_order_cycle}
use fractal_d.Graph.Sorting.Finish.{IsPlan, IsStuck}
use fractal_d.Graph.Sorting.{topological_order, drain, relax, lower, unsorted, zero_degrees}
use fractal_d.Graph.Samples.{
  env, app, db, metrics, registry, left_name, right_name, knot, registry_ascending, knot_ascending,
}

knot_registered :
    (n : Text)
    → contains (left_name ∷ right_name ∷ []) n ≡ true
    → has_value (get knot.services n) ≡ true
unfolding contains get
knot_registered n h = ground arith

knot-IsDistinct : IsDistinct (left_name ∷ right_name ∷ [])
unfolding contains text_eq
knot-IsDistinct = (refl, (refl, tt))

knot_cycle :
    topological_order env knot (left_name ∷ right_name ∷ [])
    ≡ fails (cycle (left_name ∷ right_name ∷ []))
unfolding topological_order text_eq text_lt get put keys constant contains insert extend
    required_dependencies wanted_dependencies mount_dependencies wanted_mount_dependencies providers
    normalized own_mount ordering_graph add_services add_service add_edges_to add_edges_from
    add_edge drain relax lower unsorted expanded_requires_mounts_for expanded_wants_mounts_for
knot_cycle = refl

topological_order_cycle_example :
    IsStuck (left_name ∷ right_name ∷ []) (precedes env knot) (left_name ∷ right_name ∷ [])
    × (¬ IsPlan (left_name ∷ right_name ∷ []) (precedes env knot) (left_name ∷ right_name ∷ []))
topological_order_cycle_example =
    topological_order_cycle env knot (left_name ∷ right_name ∷ []) knot-IsDistinct knot_registered
      (left_name ∷ right_name ∷ []) (left_name ∷ right_name ∷ []) knot_cycle

-- The three services of the sample registry, of which `app` needs the other two.
abbrev three : List Text
three = app ∷ db ∷ metrics ∷ []

three-IsDistinct : IsDistinct three
unfolding contains text_eq
three-IsDistinct = (refl, (refl, (refl, tt)))

three_registered : (n : Text) → contains three n ≡ true → has_value (get registry.services n) ≡ true
unfolding contains get
three_registered n h = ground arith

abbrev rank : Text → ℕ
rank n = if text_eq n app then 1 else 0

-- Only `app` comes after another of the three.
into_others :
    (All
      (λ p. (precedes env registry p db ≡ false) × (precedes env registry p metrics ≡ false))
      three)
    × (precedes env registry app app ≡ false)
unfolding required_dependencies wanted_dependencies mount_dependencies wanted_mount_dependencies
    providers normalized own_mount expanded_requires_mounts_for expanded_wants_mounts_for contains
    text_eq get extend
into_others = (((refl, refl), ((refl, refl), ((refl, refl), tt))), refl)

each_of_three :
    (P : Text → Type 0) → P app → P db → P metrics → (n : Text) → contains three n ≡ true → P n
unfolding contains
each_of_three P a d m n k = elim (Bool-cases (text_eq app n)) [
  | inl e ↦ subst P ((text_eq_iff app n).0 e) a
  | inr x ↦ elim (Bool-cases (text_eq db n)) [
    | inl e ↦ subst P ((text_eq_iff db n).0 e) d
    | inr y ↦ subst P ((text_eq_iff metrics n).0 (ground (arith, x, y, k))) m
  ]
]

abbrev Ascends : Text → Text → Type 0
Ascends p n = precedes env registry p n ≡ true → rank p < rank n

unordered : (p n : Text) → precedes env registry p n ≡ false → Ascends p n
unordered p n h e = absurd (false≢true (sym h ∙ e))

three-Rises : Rises three (precedes env registry) rank
unfolding text_eq
three-Rises p n m k =
    let (into_app, (into_db, (into_metrics, end))) = into_others.0 in
    each_of_three (λ p. Ascends p n)
      (each_of_three (Ascends app) (unordered app app into_others.1) (unordered app db into_app.0)
        (unordered app metrics into_app.1) n k)
      (each_of_three (Ascends db) (λ e. omega arith) (unordered db db into_db.0)
        (unordered db metrics into_db.1) n k)
      (each_of_three (Ascends metrics) (λ e. omega arith) (unordered metrics db into_metrics.0)
        (unordered metrics metrics into_metrics.1) n k)
      p m

topological_order_complete_example :
    (order : List Text) × (topological_order env registry three ≡ done order)
    × IsPlan three (precedes env registry) order
topological_order_complete_example =
    topological_order_complete env registry three three-IsDistinct three_registered rank three-Rises

ordering_graph_exact_example :
    (o : Ordering) × (ordering_graph env knot (left_name ∷ right_name ∷ []) ≡ done o)
    × IsConsistent (left_name ∷ right_name ∷ []) o
    × ((a b : Text)
        → edge o.edges a b ≡ (
            contains (left_name ∷ right_name ∷ []) a
            && contains (left_name ∷ right_name ∷ []) b
            && precedes env knot a b))
ordering_graph_exact_example =
    ordering_graph_exact env knot (left_name ∷ right_name ∷ []) knot-IsDistinct knot_registered

plan_all_stop_best_effort_total_example :
    (order : List Text) × (plan_all_stop_best_effort env knot ≡ done order)
    × IsDistinct order
    × ((n : Text) → contains order n ≡ has_service knot n)
plan_all_stop_best_effort_total_example = plan_all_stop_best_effort_total env knot knot_ascending

-- The last of the two is freed, so it comes first in the order that is then reversed.
knot_stop : plan_all_stop_best_effort env knot ≡ done (left_name ∷ right_name ∷ [])
unfolding plan_all_stop_best_effort unravel round choose cut cut_edge predecessors_of last_waiting
    text_eq text_lt get put keys constant contains insert remove extend required_dependencies
    wanted_dependencies mount_dependencies wanted_mount_dependencies providers normalized own_mount
    ordering_graph add_services add_service add_edges_to add_edges_from add_edge relax lower
    expanded_requires_mounts_for expanded_wants_mounts_for reverse zero_degrees
knot_stop = refl

stop_registry : plan_all_stop env registry ≡ done (app ∷ metrics ∷ db ∷ [])
unfolding plan_all_stop plan_all_start topological_order text_eq text_lt get put keys constant
    contains insert extend required_dependencies wanted_dependencies mount_dependencies
    wanted_mount_dependencies providers normalized own_mount ordering_graph add_services add_service
    add_edges_to add_edges_from add_edge drain relax lower unsorted expanded_requires_mounts_for
    expanded_wants_mounts_for reverse
stop_registry = refl

plan_all_stop_best_effort-plan_all_stop_example :
    plan_all_stop_best_effort env registry ≡ done (app ∷ metrics ∷ db ∷ [])
plan_all_stop_best_effort-plan_all_stop_example =
    plan_all_stop_best_effort-plan_all_stop env registry (app ∷ metrics ∷ db ∷ [])
      registry_ascending stop_registry
