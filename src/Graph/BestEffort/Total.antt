-- ===== src/Graph/BestEffort/Total.antt =====
-- `plan_all_stop_best_effort`: the loop and its result.
use fractal_d.Base.{
  ℕ, zero, suc, ◌+◌, ◌<◌, ◌≡◌, ◌∙◌, sym, not, List, [], arith, Text, Bool-cases, inl, inr, length,
  ltb,
}
use fractal_d.BTree.Before.{reverse, contains-reverse, reverse-IsDistinct}
use fractal_d.BTree.Count.{count_by_none}
use fractal_d.BTree.Map.{keys, contains-keys}
use fractal_d.BTree.Set.{TextSet, contains, IsDistinct, extend, ascending-IsDistinct}
use fractal_d.Graph.BestEffort.{Unravel, unravel, plan_all_stop_best_effort}
use fractal_d.Graph.BestEffort.Choose.{IsUnravelling}
use fractal_d.Graph.Model.{DependencyGraph, done, has_service}
use fractal_d.Graph.Ordering.{Ordering}
use fractal_d.Graph.Ordering.Build.{ordering_graph_exact}
use fractal_d.Graph.Ordering.Edges.{IsConsistent}
use fractal_d.Graph.Paths.{Environment}
use fractal_d.Graph.Plan.All.{IsRegistry}
use fractal_d.Graph.Sorting.{start_sort, zero_degrees}
use fractal_d.Graph.Sorting.Order.{start_sort-IsSorting}
use fractal_d.Graph.BestEffort.Round.{round_total}

module _ (selected : TextSet) (distinct : IsDistinct selected) where
  unravel_total :
      (fuel : ℕ) (u : Unravel)
      → IsUnravelling selected u
      → length selected < fuel + length u.order
      → (order : List Text) × (unravel (length selected) fuel u ≡ done order)
        × IsDistinct order
        × ((n : Text) → contains order n ≡ contains selected n)
  unfolding unravel
  unravel_total zero u h f = absurd (omega (arith, f, h.balance))
  unravel_total (suc fuel) u h f = elim (Bool-cases (ltb (length u.order) (length selected))) [
    | inl more ↦
        let (t, e, k, l) = round_total selected distinct u h (ground (arith, more)) in
        let (order, e₁, d, m) = unravel_total fuel t k (omega (arith, f, l)) in
        (order, ground (arith, more, e, e₁), d, m)
    | inr over ↦ (
      u.order,
      ground (arith, over),
      h.unrepeated,
      λ n. ground (
        arith,
        over,
        h.members n,
        h.balance,
        count_by_none (λ n. not (contains u.order n)) selected n,
      ),
    )
  ]

-- The state before the first round.
started :
    (selected : TextSet) (o : Ordering)
    → IsDistinct selected
    → IsConsistent selected o
    → IsUnravelling selected
        (record { ordering = o; ready = extend [] (zero_degrees o.indegree); order = [] })
unfolding start_sort contains
started selected o distinct c =
    let s = start_sort-IsSorting selected o distinct c in
    record {
      consistent = c;
      ready = s.step.ready;
      sorted = λ n m. cc;
      ascending = s.step.ascending;
      members = λ n m. cc;
      unrepeated = tt;
      balance = s.balance;
    }

-- For a registry whose entries stand in the order of their names, `plan_all_stop_best_effort`
-- always returns a plan, whatever cycles the constraints have: it does not panic, and the plan
-- has every registered service exactly once, and nothing else.
pub plan_all_stop_best_effort_total :
    (env : Environment) (g : DependencyGraph)
    → IsRegistry g
    → (order : List Text) × (plan_all_stop_best_effort env g ≡ done order)
      × IsDistinct order
      × ((n : Text) → contains order n ≡ has_service g n)
unfolding plan_all_stop_best_effort
plan_all_stop_best_effort_total env g r =
    let selected = keys g.services in
    let distinct = ascending-IsDistinct selected r in
    let (o, e, c, exact) =
      ordering_graph_exact env g selected distinct (λ n m. sym (contains-keys g.services n) ∙ m) in
    let (order, f, d, m) =
      unravel_total selected distinct (suc (length selected))
        (record { ordering = o; ready = extend [] (zero_degrees o.indegree); order = [] })
        (started selected o distinct c) (omega arith) in
    (
      reverse order,
      ground (arith, e, f),
      reverse-IsDistinct order d,
      λ n. contains-reverse order n ∙ m n,
    )
