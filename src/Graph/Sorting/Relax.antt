-- ===== src/Graph/Sorting/Relax.antt =====
-- The loop of `topological_order` over the dependents of one name.
use fractal_d.Base.{
  ℕ, suc, ◌+◌, ◌≡◌, refl, ◌∙◌, true, false, not, ◌&&◌, some, List, [], ◌∷◌, arith, Text, text_eq,
  text_eq_iff, ◌==◌, if◌then◌else◌,
}
use fractal_d.BTree.Map.{get, put, has_value, get-put}
use fractal_d.BTree.Set.{
  TextSet, contains, insert, contains-insert, IsAscending, insert-IsAscending, IsDistinct,
}
use fractal_d.BTree.Count.{contains_self, contains-tail}
use fractal_d.Graph.Model.{done}
use fractal_d.Graph.Ordering.Edges.{degree, has-value}
use fractal_d.Graph.Sorting.{Sort, lower, relax}

-- `due n` edges into `n` come from names that are not sorted yet, and the dependents in `pending` are
-- still to be lowered. A name is ready when nothing is due to it and it is not sorted.
pub record InStep (selected : TextSet) (due : Text → ℕ) (pending : List Text) (s : Sort)
    : Type 0 where
  pub keyed : (n : Text) → has_value (get s.indegree n) ≡ contains selected n
  pub degrees :
      (n : Text)
      → contains selected n ≡ true
      → degree s.indegree n ≡ due n + (if contains pending n then 1 else 0)
  pub ready :
      (n : Text)
      → contains s.ready n
        ≡ (contains selected n && not (contains s.order n) && (degree s.indegree n == 0))
  pub sorted : (n : Text) → contains s.order n ≡ true → degree s.indegree n ≡ 0
  pub ascending : IsAscending s.ready

module _ (selected : TextSet) (due : Text → ℕ) where
  lower-InStep :
      (x : Text) (pending : List Text) (k : ℕ) (s : Sort)
      → contains pending x ≡ false
      → contains selected x ≡ true
      → get s.indegree x ≡ some (suc k)
      → InStep selected due (x ∷ pending) s
      → (t : Sort) × (lower s x (suc k) ≡ done t)
        × (t.order ≡ s.order)
        × InStep selected due pending t
  unfolding lower contains
  lower-InStep x pending k s fresh m at c = (
    record s {
      indegree = put x k s.indegree;
      ready = if k == 0 then insert x s.ready else s.ready;
    },
    refl,
    refl,
    record {
      keyed = λ n. ground (arith, c.keyed n, put_at n, text_eq_iff x n);
      degrees = λ n h. ground (arith, c.degrees n h, put_at n, text_eq_iff x n);
      ready = λ n.
          ground
            (arith, c.ready n, c.sorted n, put_at n, contains-insert x n s.ready, text_eq_iff x n);
      sorted = λ n h. ground (arith, c.sorted n h, put_at n, text_eq_iff x n);
      ascending = ground (arith, c.ascending, insert-IsAscending x s.ready);
    },
  )
    where
      put_at :
          (n : Text)
          → get (put x k s.indegree) n ≡ (if text_eq x n then some k else get s.indegree n)
      put_at n = get-put s.indegree x n k (suc k) at

  pub relax-InStep :
      (pending : List Text) (s : Sort)
      → IsDistinct pending
      → ((n : Text) → contains pending n ≡ true → contains selected n ≡ true)
      → InStep selected due pending s
      → (t : Sort) × (relax pending s ≡ done t) × (t.order ≡ s.order) × InStep selected due [] t
  unfolding relax lower contains
  relax-InStep [] s d m c = (s, refl, refl, c)
  relax-InStep (x ∷ pending) s d m c =
      let h = m x (contains_self x pending) in
      let (k, at) = has-value (get s.indegree x) (c.keyed x ∙ h) in
      let e : get s.indegree x ≡ some (suc (due x)) =
        ground (arith, at, c.degrees x h, text_eq_iff x x) in
      let (s₁, e₁, o₁, c₁) = lower-InStep x pending (due x) s d.0 h e c in
      let (t, e₂, o₂, c₂) =
        relax-InStep pending s₁ d.1 (λ n g. m n (contains-tail x n pending g)) c₁ in
      (t, ground (arith, e, e₁, e₂), o₂ ∙ o₁, c₂)
