-- ===== src/Graph/BestEffort/Agree.antt =====
-- `plan_all_stop_best_effort` beside `plan_all_stop`.
use fractal_d.Base.{
  List-cases, ℕ, zero, suc, ◌≡◌, refl, ◌∙◌, ap, sym, true, false, not, some, List, [], ◌∷◌, ◌++◌,
  arith, Text, text_eq_iff, subst, Bool-cases, inl, inr, length, ltb, ◌==◌,
}
use fractal_d.BTree.Before.{contains-concat}
use fractal_d.BTree.Count.{count_by_none}
use fractal_d.BTree.Map.{TextMap, get, put, keys, get-put, contains-keys}
use fractal_d.BTree.Set.{TextSet, contains, ascending-IsDistinct}
use fractal_d.Graph.BestEffort.{Unravel, choose, round, unravel, plan_all_stop_best_effort}
use fractal_d.Graph.Model.{DependencyGraph, done, expect, >>=-eq-done}
use fractal_d.Graph.Ordering.{ordering_graph}
use fractal_d.Graph.Ordering.Build.{ordering_graph_exact}
use fractal_d.Graph.Ordering.Edges.{out, has-value, IsConsistent}
use fractal_d.Graph.Paths.{Environment}
use fractal_d.Graph.Plan.{plan_all_start, plan_all_stop}
use fractal_d.Graph.Plan.All.{IsRegistry}
use fractal_d.Graph.Sorting.{
  Sort, relax, lower, drain, finish, unsorted, topological_order, start_sort,
}
use fractal_d.Graph.Sorting.Drain.{IsGraph, IsSorting, moved, taken, take-IsSorting}
use fractal_d.Graph.Sorting.Order.{is_graph, start_sort-IsSorting}

order-lower : (s t : Sort) (x : Text) (d : ℕ) → lower s x d ≡ done t → t.order ≡ s.order
unfolding lower
order-lower s t x zero h = cc
order-lower s t x (suc d) h = ground (arith, h)

order-relax : (xs : List Text) (s t : Sort) → relax xs s ≡ done t → t.order ≡ s.order
unfolding relax
order-relax [] s t h = ground (arith, h)
order-relax (x ∷ xs) s t h =
    let (d, e, f) = >>=-eq-done (expect (get s.indegree x)) _ h in
    let (s₁, e₁, f₁) = >>=-eq-done (lower s x d) _ f in
    order-relax xs s₁ t f₁ ∙ order-lower s s₁ x d e₁

-- The loop variables of `topological_order`, with the edges that are left.
abbrev with_edges : TextMap TextSet → Sort → Unravel
with_edges edges s = record {
  ordering = record { edges = edges; indegree = s.indegree };
  ready = s.ready;
  order = s.order;
}

module _ (selected : TextSet) (edges : TextMap TextSet) (g : IsGraph selected edges) where
  -- One round takes the same name in both loops.
  round-relax :
      (s t : Sort) (edges' : TextMap TextSet) (x : Text) (rest : TextSet)
      → s.ready ≡ x ∷ rest
      → get edges' x ≡ some (out edges x)
      → relax (out edges x) (record s { ready = rest; order = s.order ++ x ∷ [] }) ≡ done t
      → round (with_edges edges' s) ≡ done (with_edges (put x [] edges') t)
  unfolding round choose
  round-relax s t edges' x rest next at e = rw next (ground (arith, at, e))

  -- The edges of the names that are left are still the same.
  round-same :
      (s t : Sort) (edges' : TextMap TextSet) (x : Text) (rest : TextSet)
      → get edges' x ≡ some (out edges x)
      → ((a : Text) → contains s.order a ≡ false → get edges' a ≡ get edges a)
      → relax (out edges x) (record s { ready = rest; order = s.order ++ x ∷ [] }) ≡ done t
      → (a : Text) → contains t.order a ≡ false
      → get (put x [] edges') a ≡ get edges a
  round-same s t edges' x rest at same e a f =
      let o =
        order-relax (out edges x) (record s { ready = rest; order = s.order ++ x ∷ [] }) t e in
      let f' : contains (s.order ++ x ∷ []) a ≡ false = rw o at f in
      ground (
        arith,
        get-put edges' x a [] (out edges x) at,
        contains-concat s.order x a,
        same a,
        text_eq_iff x a,
      )

  -- Where the sort ends with every name in order, so does the loop over the edges that are left.
  unravel-drain :
      (fuel : ℕ) (s t : Sort) (edges' : TextMap TextSet)
      → IsSorting selected edges s
      → ((a : Text) → contains s.order a ≡ false → get edges' a ≡ get edges a)
      → drain edges fuel s ≡ done t
      → length t.order ≡ length selected
      → unravel (length selected) fuel (with_edges edges' s) ≡ done t.order
  unfolding drain unravel moved
  unravel-drain zero s t edges' h same e l = cc
  unravel-drain (suc fuel) s t edges' h same e l = elim (List-cases s.ready) [
    | inl empty ↦
        let ended : s ≡ t = ground (arith, empty, e) in
        let all : length s.order ≡ length selected = ap (λ z. length z.order) ended ∙ l in
        ground (arith, all, ended)
    | inr (x, rest, next) ↦
        let (inside, fresh, free) = taken selected edges g s x rest next h in
        let (t₁, r, k, m) = take-IsSorting selected edges g s x rest next h in
        let (o, at) = has-value (get edges x) (g.sources x ∙ inside) in
        let at' : get edges' x ≡ some (out edges x) = ground (arith, same x, at, fresh) in
        let one = round-relax s t₁ edges' x rest next at' r in
        let rest_same = λ (a : Text) (f : contains t₁.order a ≡ false).
          round-same s t₁ edges' x rest at' same r a f in
        let e₁ : drain edges fuel t₁ ≡ done t = ground (arith, next, at, r, e) in
        let ih = unravel-drain fuel t₁ t (put x [] edges') k rest_same e₁ l in
        let more : ltb (length s.order) (length selected) ≡ true = ground (
          arith,
          inside,
          fresh,
          h.balance,
          count_by_none (λ n. not (contains s.order n)) selected x,
        ) in
        ground (arith, more, one, ih)
  ]

finish-done :
    (selected : TextSet) (s : Sort) (order : List Text)
    → finish selected s ≡ done order
    → (length s.order ≡ length selected) × (s.order ≡ order)
unfolding finish
finish-done selected s order h = elim (Bool-cases (length s.order == length selected)) [
  | inl all ↦ (ground (arith, all), ground (arith, all, h))
  | inr few ↦
      let (names, e, f) = >>=-eq-done (unsorted s.indegree selected) _ (rw few at h) in
      absurd (ground (arith, f))
]

-- For a registry whose entries stand in the order of their names, where `plan_all_stop` returns a
-- plan, `plan_all_stop_best_effort` returns the same plan.
pub plan_all_stop_best_effort-plan_all_stop :
    (env : Environment) (g : DependencyGraph) (order : List Text)
    → IsRegistry g
    → plan_all_stop env g ≡ done order
    → plan_all_stop_best_effort env g ≡ done order
unfolding plan_all_stop_best_effort plan_all_stop plan_all_start topological_order start_sort
plan_all_stop_best_effort-plan_all_stop env g order r h =
    let selected = keys g.services in
    let distinct = ascending-IsDistinct selected r in
    let (started, e, reversed) = >>=-eq-done (plan_all_start env g) _ h in
    let (o, e₁, f₁) = >>=-eq-done (ordering_graph env g selected) _ e in
    let (t, e₂, f₂) = >>=-eq-done (drain o.edges (suc (length selected)) (start_sort o)) _ f₁ in
    let (all, same) = finish-done selected t started f₂ in
    let (o', e₃, c', exact) =
      ordering_graph_exact env g selected distinct (λ n m. sym (contains-keys g.services n) ∙ m) in
    let c : IsConsistent selected o = subst (IsConsistent selected) (ground (arith, e₁, e₃)) c' in
    let u =
      unravel-drain selected o.edges (is_graph selected o distinct c) (suc (length selected))
        (start_sort o) t o.edges (start_sort-IsSorting selected o distinct c) (λ a _. refl) e₂
        all in
    ground (arith, e₁, u, same, reversed)
