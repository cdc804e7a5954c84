-- ===== src/Graph/Sorting/Finish.antt =====
-- `topological_order` after its loop: the plan, or the names of the cycle error.
use fractal_d.Base.{
  ℕ, ◌≡◌, ◌≢◌, refl, ◌∙◌, Bool, true, false, not, ◌&&◌, List, [], ◌∷◌, arith, Text, text_eq_iff,
  ◌==◌, length, if◌then◌else◌, Bool-cases, inl, inr, ◌⊎◌,
}
use fractal_d.BTree.Before.{before}
use fractal_d.BTree.Count.{contains_self, contains-tail, count_by_none, count_by-pos}
use fractal_d.BTree.Map.{TextMap, get, has_value}
use fractal_d.BTree.Set.{TextSet, contains, IsDistinct}
use fractal_d.Graph.Model.{done, fails, cycle}
use fractal_d.Graph.Ordering.Edges.{degree, edge, has-value}
use fractal_d.Graph.Sorting.{Sort, unsorted, finish}
use fractal_d.Graph.Sorting.Drain.{IsSorting, due, left}

pub unsorted_total :
    (indegree : TextMap ℕ) (names : List Text)
    → ((n : Text) → contains names n ≡ true → has_value (get indegree n) ≡ true)
    → (l : List Text) × (unsorted indegree names ≡ done l)
      × ((n : Text) → contains l n ≡ (contains names n && not (degree indegree n == 0)))
unfolding unsorted contains
unsorted_total indegree [] h = ([], refl, λ n. refl)
unsorted_total indegree (x ∷ xs) h =
    let (d, at) = has-value (get indegree x) (h x (contains_self x xs)) in
    let (l, e, m) = unsorted_total indegree xs (λ n k. h n (contains-tail x n xs k)) in
    (
      if d == 0 then l else x ∷ l,
      ground (arith, at, e),
      λ n. ground (arith, at, m n, text_eq_iff x n),
    )

-- A plan for the selected names: each of them once, and every edge's source before its end.
pub record IsPlan (selected : TextSet) (before_in : Text → Text → Bool) (order : List Text)
    : Type 0 where
  pub unrepeated : IsDistinct order
  pub members : (n : Text) → contains order n ≡ contains selected n
  pub ordered :
      (p n : Text)
      → contains selected p ≡ true
      → contains selected n ≡ true
      → before_in p n ≡ true
      → before p n order ≡ true

-- Names that cannot be put in order: there is one, and each waits for another of them.
pub record IsStuck (selected : TextSet) (before_in : Text → Text → Bool) (names : List Text)
    : Type 0 where
  pub inhabited : (n : Text) × (contains names n ≡ true)
  pub inside : (n : Text) → contains names n ≡ true → contains selected n ≡ true
  pub waiting :
      (n : Text)
      → contains names n ≡ true
      → (p : Text) × (contains names p ≡ true) × (before_in p n ≡ true)

module _ (selected : TextSet) (edges : TextMap TextSet) (s : Sort) (h : IsSorting selected edges s)
    (empty : s.ready ≡ []) where
  finish-IsPlan : length s.order ≡ length selected → IsPlan selected (edge edges) s.order
  finish-IsPlan e =
      let none_left : left selected s.order ≡ 0 = omega (arith, h.balance) in
      let all = λ (n : Text). count_by_none (λ n. not (contains s.order n)) selected n none_left in
      record {
        unrepeated = h.unrepeated;
        members = λ n. ground (arith, all n, h.members n);
        ordered = λ p n m q e. h.topological p n (ground (arith, all n)) m e;
      }

  -- With an empty ready set, what is not sorted has edges that are due.
  blocked :
      (n : Text)
      → contains selected n ≡ true
      → contains s.order n ≡ false
      → (degree s.indegree n == 0) ≡ false
  unfolding contains
  blocked n m o = let e = h.step.ready n in ground (arith, e, empty)

  owed :
      (n : Text) → contains selected n ≡ true → degree s.indegree n ≡ due selected edges s.order n
  unfolding contains
  owed n m = omega (arith, h.step.degrees n m)

  finish-IsStuck :
      length s.order ≢ length selected
      → (l : List Text)
      → ((n : Text) → contains l n ≡ (contains selected n && not (degree s.indegree n == 0)))
      → IsStuck selected (edge edges) l
  finish-IsStuck e l at =
      let (n, m, o) =
        count_by-pos (λ n. not (contains s.order n)) selected (omega (arith, h.balance)) in
      record {
        inhabited = (n, ground (arith, at n, blocked n m));
        inside = λ n m. ground (arith, at n);
        waiting = λ n k.
            let (p, q, r) =
              count_by-pos (λ p. edge edges p n && not (contains s.order p)) selected
                (ground (arith, at n, owed n)) in
            (p, ground (arith, at p, blocked p q), ground arith);
      }

  pub finish_total :
      ((order : List Text) × (finish selected s ≡ done order) × IsPlan selected (edge edges) order)
      ⊎ ((names : List Text) × (finish selected s ≡ fails (cycle names))
          × IsStuck selected (edge edges) names)
  unfolding finish
  finish_total = elim (Bool-cases (length s.order == length selected)) [
    | inl all ↦ inl (s.order, rw all, finish-IsPlan (ground arith))
    | inr some_left ↦
        let (l, e, m) = unsorted_total s.indegree selected (λ n k. h.step.keyed n ∙ k) in
        inr (l, rw (some_left, e), finish-IsStuck (ground arith) l m)
  ]
