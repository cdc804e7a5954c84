-- ===== src/Graph/Plan/Start.antt =====
-- `plan_start` and `plan_stop`: what a plan for one service holds, and when there is none.
use fractal_d.Base.{◌≡◌, sym, subst, ◌∙◌, ◌⊎◌, inl, inr, true, false, List, arith, Text}
use fractal_d.BTree.Before.{before, reverse, contains-reverse, before-reverse}
use fractal_d.BTree.Map.{get, has_value, contains-keys}
use fractal_d.BTree.Set.{TextSet, contains, IsDistinct, ascending-IsDistinct}
use fractal_d.Graph.Closure.{closure, select_start_closure, is_empty, required_closure}
use fractal_d.Graph.Closure.Reach.{
  Reach, here, step, Misses, links_start, links_required, expand_start-Expands,
  expand_required-Expands, links_start-required, Reach-start,
}
use fractal_d.Graph.Closure.Total.{IsClosure, closure_total}
use fractal_d.Graph.Model.{
  DependencyGraph, Run, done, fails, cycle, missing_required, has_service, required_dependencies,
  >>=-eq-done,
}
use fractal_d.Graph.Ordering.Build.{precedes}
use fractal_d.Graph.Paths.{Environment}
use fractal_d.Graph.Plan.{plan_start, plan_stop}
use fractal_d.Graph.Sorting.Finish.{IsPlan, IsStuck}
use fractal_d.Graph.Sorting.Order.{topological_order_total}

module _ (env : Environment) (g : DependencyGraph) (root : Text) where
  abbrev Closed : TextSet → Type 0
  Closed = IsClosure g (links_start env g) root

  pub registered :
      (t : TextSet)
      → Closed t
      → (n : Text) → contains t n ≡ true
      → has_value (get g.services n) ≡ true
  registered t c n m = sym (contains-keys g.services n) ∙ c.registered n m

  -- The three ends of `plan_start` at a registered root.
  abbrev pub Plans : Run (List Text) → Type 0
  Plans r =
      ((t : TextSet) × (order : List Text) × (r ≡ done order)
        × Closed t
        × IsPlan t (precedes env g) order)
      ⊎ (((t : TextSet) × (names : List Text) × (r ≡ fails (cycle names))
            × Closed t
            × IsStuck t (precedes env g) names)
          ⊎ ((n : Text) × (d : Text) × (r ≡ fails (missing_required n d))
              × Reach (links_start env g) root n
              × Misses env g n d))

  -- For a root with a name that is registered, `plan_start` returns, without a panic, one of
  -- three things: an order of all that the root's links lead to, which keeps every constraint; a
  -- cycle error, whose names are such services that wait for one another; or a service so reached
  -- and a name that it requires and that is not registered.
  pub plan_start_total :
      is_empty root ≡ false → has_service g root ≡ true → Plans (plan_start env g root)
  unfolding plan_start select_start_closure
  plan_start_total e m = elim (closure_total env g _ _ (expand_start-Expands env g) root e m) [
    | inr (n, d, f, r, q) ↦ inr (inr (n, d, ground (arith, f), r, q))
    | inl (t, f, c) ↦
        elim (topological_order_total env g t (ascending-IsDistinct t c.ascending)
          (registered t c)) [
            | inl (order, f', p) ↦ inl (t, order, ground (arith, f, f'), c, p)
            | inr (names, f', s) ↦ inr (inl (t, names, ground (arith, f, f'), c, s))
          ]
  ]

  plan_start_done :
      (order : List Text)
      → plan_start env g root ≡ done order
      → is_empty root ≡ false
      → has_service g root ≡ true
      → (t : TextSet) × Closed t × IsPlan t (precedes env g) order
  plan_start_done order h e m = elim (plan_start_total e m) [
    | inl (t, o, f, c, p) ↦ (t, c, subst (IsPlan t (precedes env g)) (ground (arith, f, h)) p)
    | inr (inl (t, names, f, c, s)) ↦ absurd (ground (arith, f, h))
    | inr (inr (n, d, f, r, q)) ↦ absurd (ground (arith, f, h))
  ]

  root_of_plan :
      (order : List Text)
      → plan_start env g root ≡ done order
      → (is_empty root ≡ false) × (has_service g root ≡ true)
  unfolding plan_start select_start_closure closure
  root_of_plan order h = ground arith

  -- A plan for a service contains it; and with each of its services the plan contains all that the
  -- service requires, and starts that before the service.
  pub plan_start_required :
      (order : List Text)
      → plan_start env g root ≡ done order
      → (contains order root ≡ true)
        × ((n d : Text)
            → contains order n ≡ true
            → contains (required_dependencies env g n) d ≡ true
            → (contains order d ≡ true) × (before d n order ≡ true))
  plan_start_required order h =
      let (e, m) = root_of_plan order h in
      let (t, c, p) = plan_start_done order h e m in
      (
        p.members root ∙ c.complete here,
        λ n d k q.
            let reached = c.sound n (sym (p.members n) ∙ k) in
            let m = c.complete (step reached (links_start-required env g n d q)) in
            (p.members d ∙ m, p.ordered d n m (sym (p.members n) ∙ k) (ground arith)),
      )

  -- A plan keeps every ordering constraint between the services that it contains, and contains none
  -- of them twice.
  pub plan_start_ordered :
      (order : List Text)
      → plan_start env g root ≡ done order
      → IsDistinct order
        × ((p n : Text)
            → contains order p ≡ true
            → contains order n ≡ true
            → precedes env g p n ≡ true
            → before p n order ≡ true)
  plan_start_ordered order h =
      let (e, m) = root_of_plan order h in
      let (t, c, q) = plan_start_done order h e m in
      (q.unrepeated, λ p n k l r. q.ordered p n (sym (q.members p) ∙ k) (sym (q.members n) ∙ l) r)

  -- A stop plan contains its root; and of two of its services with a constraint that one comes up
  -- before the other, it stops the other first.
  pub plan_stop_ordered :
      (order : List Text)
      → plan_stop env g root ≡ done order
      → (contains order root ≡ true)
        × ((p n : Text)
            → contains order p ≡ true
            → contains order n ≡ true
            → precedes env g p n ≡ true
            → before n p order ≡ true)
  unfolding plan_stop
  plan_stop_ordered order h =
      let (o, e, f) = >>=-eq-done (plan_start env g root) (λ o. done (reverse o)) h in
      let same : reverse o ≡ order = ground (arith, f) in
      let (unrepeated, ordered) = plan_start_ordered o e in
      subst
        (λ l.
          (contains l root ≡ true)
          × ((p n : Text)
              → contains l p ≡ true
              → contains l n ≡ true
              → precedes env g p n ≡ true
              → before n p l ≡ true))
        same
        (
          contains-reverse o root ∙ (plan_start_required o e).0,
          λ p n k l r.
              let m = sym (contains-reverse o n) ∙ l in
              before-reverse p n o unrepeated m (ordered p n (sym (contains-reverse o p) ∙ k) m r),
        )

  -- Where there is a plan for the root, `required_closure` returns the services that the root
  -- requires, directly or through others, and no more, in ascending order: each of them is
  -- registered, and the plan contains it.
  pub required_closure-plan_start :
      (order : List Text)
      → plan_start env g root ≡ done order
      → (t : TextSet) × (required_closure env g root ≡ done t)
        × IsClosure g (required_dependencies env g) root t
        × ((n : Text) → contains t n ≡ true → contains order n ≡ true)
  unfolding required_closure
  required_closure-plan_start order h =
      let (e, m) = root_of_plan order h in
      let (t, c, p) = plan_start_done order h e m in
      let into =
        λ (n : Text) (r : Reach (links_required env g) root n). c.complete (Reach-start env g r) in
      elim (closure_total env g _ _ (expand_required-Expands env g) root e m) [
        | inl (u, f, d) ↦ (u, f, d, λ n k. p.members n ∙ into n (d.sound n k))
        | inr (n, d, f, r, q) ↦
            let k = c.complete (step (Reach-start env g r) (links_start-required env g n d q.0)) in
            absurd (ground (arith, c.registered d k, q.1))
      ]
