-- ===== src/Graph/Sorting/Complete.antt =====
-- `topological_order` beside an independent view of the constraints.
use fractal_d.Base.{
  ℕ, zero, suc, ◌<◌, ◌≡◌, subst, Bool, true, inl, inr, List, [], ◌∷◌, arith, Text, text_eq,
  if◌then◌else◌,
}
use fractal_d.BTree.Before.{before}
use fractal_d.BTree.Map.{get, has_value}
use fractal_d.BTree.Set.{TextSet, contains, IsDistinct}
use fractal_d.Graph.Model.{DependencyGraph, done, fails, cycle}
use fractal_d.Graph.Ordering.Build.{precedes}
use fractal_d.Graph.Paths.{Environment}
use fractal_d.Graph.Sorting.{topological_order}
use fractal_d.Graph.Sorting.Finish.{IsPlan, IsStuck}
use fractal_d.Graph.Sorting.Order.{topological_order_total}

position : Text → List Text → ℕ
position n [] = 0
position n (x ∷ xs) = if text_eq x n then 0 else suc (position n xs)

position-lt : (p n : Text) (xs : List Text) → before p n xs ≡ true → position p xs < position n xs
unfolding before position
position-lt p n [] h = cc
position-lt p n (x ∷ xs) h = ground (arith, position-lt p n xs)

-- Numbers that rise along the constraints rule out names that wait for one another.
abbrev pub Rises : TextSet → (Text → Text → Bool) → (Text → ℕ) → Type 0
Rises selected before_in rank =
    (p n : Text)
    → contains selected p ≡ true
    → contains selected n ≡ true
    → before_in p n ≡ true
    → rank p < rank n

module _ (selected : TextSet) (before_in : Text → Text → Bool) (names : List Text) where
  descend :
      (rank : Text → ℕ) (k : ℕ) (n : Text)
      → Rises selected before_in rank
      → IsStuck selected before_in names
      → contains names n ≡ true
      → rank n < k
      → ⊥
  descend rank zero n r s m h = elim h [ ]
  descend rank (suc k) n r s m h =
      let (p, q, e) = s.waiting n m in
      descend rank k p r s q (omega (arith, r p n (s.inside p q) (s.inside n m) e))

  pub not-IsStuck :
      (rank : Text → ℕ) → Rises selected before_in rank → ¬ IsStuck selected before_in names
  not-IsStuck rank r s =
      let (n, m) = s.inhabited in descend rank (suc (rank n)) n r s m (omega arith)

  pub not-IsPlan :
      (order : List Text) → IsStuck selected before_in names → ¬ IsPlan selected before_in order
  not-IsPlan order s p =
      not-IsStuck (λ n. position n order) (λ a b m n e. position-lt a b order (p.ordered a b m n e))
        s

module _ (env : Environment) (g : DependencyGraph) (selected : TextSet)
    (distinct : IsDistinct selected)
    (registered : (n : Text)
      → contains selected n ≡ true
      → has_value (get g.services n) ≡ true) where
  -- For distinct registered names that can be numbered so that every constraint between them goes
  -- upwards, `topological_order` returns a plan: each name once, and every constraint kept.
  pub topological_order_complete :
      (rank : Text → ℕ)
      → Rises selected (precedes env g) rank
      → (order : List Text) × (topological_order env g selected ≡ done order)
        × IsPlan selected (precedes env g) order
  topological_order_complete rank r =
      elim (topological_order_total env g selected distinct registered) [
        | inl plan ↦ plan
        | inr (names, e, s) ↦ absurd (not-IsStuck selected (precedes env g) names rank r s)
      ]

  -- For distinct registered names, a cycle error of `topological_order` names some that wait for
  -- one another, and no order of the names keeps the constraints.
  pub topological_order_cycle :
      (names order : List Text)
      → topological_order env g selected ≡ fails (cycle names)
      → IsStuck selected (precedes env g) names × (¬ IsPlan selected (precedes env g) order)
  topological_order_cycle names order e =
      elim (topological_order_total env g selected distinct registered) [
        | inl (o, f, p) ↦ absurd (ground (arith, e, f))
        | inr (l, f, s) ↦
            let same : l ≡ names = ground (arith, e, f) in
            let t = subst (λ x. IsStuck selected (precedes env g) x) same s in
            (t, not-IsPlan selected (precedes env g) names order t)
      ]
