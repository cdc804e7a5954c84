-- ===== src/Graph/Closure/Total.antt =====
-- The walks to their end.
use fractal_d.Base.{
  ℕ, zero, suc, ◌+◌, ◌≤◌, ◌<◌, ◌≡◌, refl, subst, ◌⊎◌, inl, inr, true, false, ◌||◌, List, [], ◌∷◌,
  ◌++◌, arith, Text, text_eq, text_eq_iff, text_eq_refl, length, length-append, if◌then◌else◌,
  Bool-cases,
}
use fractal_d.BTree.Before.{contains-append}
use fractal_d.BTree.Count.{contains_self, contains-tail}
use fractal_d.BTree.Map.{keys}
use fractal_d.BTree.Set.{
  TextSet, contains, insert, contains-insert, IsAscending, insert-IsAscending,
}
use fractal_d.Graph.Closure.{Walk, walk, cost, total_cost, closure, is_empty}
use fractal_d.Graph.Closure.Reach.{Reach, here, step, Expands, Misses}
use fractal_d.Graph.Model.{DependencyGraph, Run, done, fails, missing_required, has_service}
use fractal_d.Graph.Paths.{Environment}

-- The registered names that the links lead to, and no others.
pub record IsClosure (g : DependencyGraph) (links : Text → List Text) (root : Text) (t : TextSet)
    : Type 0 where
  pub ascending : IsAscending t
  pub registered : (n : Text) → contains t n ≡ true → has_service g n ≡ true
  pub sound : (n : Text) → contains t n ≡ true → Reach links root n
  pub complete : {n : Text} → Reach links root n → contains t n ≡ true

module _ (env : Environment) (g : DependencyGraph) where
  -- What the names that are not taken may still add.
  cost_left : TextSet → List Text → ℕ
  cost_left taken [] = 0
  cost_left taken (n ∷ ns) = (if contains taken n then 0 else cost env g n) + cost_left taken ns

  cost_left_mono :
      (x : Text) (taken : TextSet) (names : List Text)
      → cost_left (insert x taken) names ≤ cost_left taken names
  unfolding cost_left
  cost_left_mono x taken [] = omega arith
  cost_left_mono x taken (n ∷ ns) =
      ground (arith, cost_left_mono x taken ns, contains-insert x n taken)

  cost_left-insert :
      (x : Text) (taken : TextSet) (names : List Text)
      → contains names x ≡ true
      → contains taken x ≡ false
      → cost_left (insert x taken) names + cost env g x ≤ cost_left taken names
  unfolding cost_left contains
  cost_left-insert x taken [] h k = cc
  cost_left-insert x taken (n ∷ ns) h k = ground (
    arith,
    cost_left_mono x taken ns,
    cost_left-insert x taken ns,
    contains-insert x n taken,
    text_eq_iff n x,
    text_eq_iff x n,
  )

  cost_left-none : (names : List Text) → cost_left [] names ≡ total_cost env g names
  unfolding cost_left total_cost contains
  cost_left-none [] = refl
  cost_left-none (n ∷ ns) = omega (arith, cost_left-none ns)

  module _ (expand : Text → List Text → Run (List Text)) (links : Text → List Text)
      (x : Expands env g expand links) (root : Text) where
    record IsWalking (v : Walk) : Type 0 where
      waiting : (n : Text) → contains v.pending n ≡ true → Reach links root n
      listed : (n : Text) → contains v.pending n ≡ true → has_service g n ≡ true
      reached : (n : Text) → contains v.taken n ≡ true → Reach links root n
      registered : (n : Text) → contains v.taken n ≡ true → has_service g n ≡ true
      closed :
          (a b : Text)
          → contains v.taken a ≡ true
          → contains (links a) b ≡ true
          → (contains v.taken b || contains v.pending b) ≡ true
      rooted : (contains v.taken root || contains v.pending root) ≡ true
      ascending : IsAscending v.taken

    module _ (taken : TextSet) (name : Text) (rest : List Text)
        (h : IsWalking (record { taken = taken; pending = name ∷ rest })) where
      skip-IsWalking :
          contains taken name ≡ true → IsWalking (record { taken = taken; pending = rest })
      unfolding contains
      skip-IsWalking m = record {
        waiting = λ n k. h.waiting n (contains-tail name n rest k);
        listed = λ n k. h.listed n (contains-tail name n rest k);
        reached = h.reached;
        registered = h.registered;
        closed = λ a b k l. ground (arith, h.closed a b k l, m, text_eq_iff name b);
        rooted = ground (arith, h.rooted, m, text_eq_iff name root);
        ascending = h.ascending;
      }

      take-IsWalking :
          ((d : Text) → contains (links name) d ≡ true → has_service g d ≡ true)
          → IsWalking (record { taken = insert name taken; pending = rest ++ links name })
      unfolding contains
      take-IsWalking all = record {
        waiting = λ n k. elim (Bool-cases (contains rest n)) [
          | inl old ↦ h.waiting n (contains-tail name n rest old)
          | inr new ↦
              step (h.waiting name (contains_self name rest))
                (ground (arith, contains-append rest (links name) n))
        ];
        listed = λ n k. ground (arith, h.listed n, all n, contains-append rest (links name) n);
        reached = λ n k. elim (Bool-cases (text_eq name n)) [
          | inl same ↦
              subst (Reach links root) ((text_eq_iff name n).0 same)
                (h.waiting name (contains_self name rest))
          | inr other ↦ h.reached n (ground (arith, contains-insert name n taken))
        ];
        registered = λ n k. ground (
          arith,
          h.registered n,
          h.listed name,
          contains-insert name n taken,
          text_eq_iff name n,
          text_eq_refl name,
        );
        closed = λ a b k l. ground (
          arith,
          h.closed a b,
          contains-insert name a taken,
          contains-insert name b taken,
          contains-append rest (links name) b,
          text_eq_iff name a,
          text_eq_iff name b,
        );
        rooted = ground (
          arith,
          h.rooted,
          contains-insert name root taken,
          contains-append rest (links name) root,
        );
        ascending = insert-IsAscending name taken h.ascending;
      }

    -- An empty queue: what was taken is closed under the links.
    done-IsClosure :
        (taken : TextSet)
        → IsWalking (record { taken = taken; pending = [] })
        → IsClosure g links root taken
    unfolding contains
    done-IsClosure taken h = record {
      ascending = h.ascending;
      registered = h.registered;
      sound = h.reached;
      complete = full;
    }
      where
        full : {n : Text} → Reach links root n → contains taken n ≡ true
        full here = ground (arith, h.rooted)
        full (step {a} {b} r e) = ground (arith, h.closed a b (full r) e)

    abbrev Ends : Run TextSet → Type 0
    Ends r =
        ((t : TextSet) × (r ≡ done t) × IsClosure g links root t)
        ⊎ ((n : Text) × (d : Text) × (r ≡ fails (missing_required n d))
            × Reach links root n
            × Misses env g n d)

    walk_total :
        (fuel : ℕ) (taken : TextSet) (pending : List Text)
        → cost_left taken (keys g.services) + length pending < fuel
        → IsWalking (record { taken = taken; pending = pending })
        → Ends (walk env g expand fuel (record { taken = taken; pending = pending }))
    unfolding walk
    walk_total zero taken pending f h = elim f [ ]
    walk_total (suc fuel) taken [] f h = inl (taken, refl, done-IsClosure taken h)
    walk_total (suc fuel) taken (name ∷ rest) f h = elim (Bool-cases (contains taken name)) [
      | inl old ↦
          subst Ends (ground (arith, old))
            (walk_total fuel taken rest (omega arith) (skip-IsWalking taken name rest h old))
      | inr new ↦ elim (x.round name rest (h.listed name (contains_self name rest))) [
        | inl (e, all) ↦ subst Ends (ground (arith, new, e)) (
            walk_total fuel (insert name taken) (rest ++ links name)
              (omega (
                arith,
                length-append rest (links name),
                x.cheap name,
                cost_left-insert name taken (keys g.services)
                    (h.listed name (contains_self name rest)) new,
              ))
              (take-IsWalking taken name rest h all))
        | inr (d, e, m) ↦
            inr (name, d, ground (arith, new, e), h.waiting name (contains_self name rest), m)
      ]
    ]

    start-IsWalking :
        has_service g root ≡ true → IsWalking (record { taken = []; pending = root ∷ [] })
    unfolding contains
    start-IsWalking m = record {
      waiting = λ n k. subst (Reach links root) (ground (arith, text_eq_iff root n)) here;
      listed = λ n k. ground (arith, m, text_eq_iff root n);
      reached = λ n k. cc;
      registered = λ n k. cc;
      closed = λ a b k l. cc;
      rooted = ground (arith, text_eq_refl root);
      ascending = tt;
    }

    -- From a registered root a walk ends within its fuel: with the closure, or at a missing name.
    pub closure_total :
        is_empty root ≡ false → has_service g root ≡ true → Ends (closure env g expand root)
    unfolding closure
    closure_total e m = subst Ends (ground (arith, e, m)) (
        walk_total (total_cost env g (keys g.services) + 2) [] (root ∷ [])
          (omega (arith, cost_left-none (keys g.services))) (start-IsWalking m))
