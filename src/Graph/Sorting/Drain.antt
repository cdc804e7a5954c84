-- ===== src/Graph/Sorting/Drain.antt =====
-- The loop of `topological_order`: what holds whenever the next ready name is taken.
use fractal_d.Base.{
  List-cases, ℕ, zero, suc, ◌+◌, ◌<◌, ◌≡◌, ◌∙◌, sym, subst, true, false, not, ◌&&◌, ◌||◌, List, [],
  ◌∷◌, ◌++◌, arith, Text, text_eq, text_eq_iff, text_eq_refl, count_by, length, length-append,
  if◌then◌else◌, Bool-cases, inl, inr,
}
use fractal_d.BTree.Before.{
  before, contains-concat, IsDistinct-concat, before-append, before-concat,
}
use fractal_d.BTree.Count.{contains_self, count_by-set, count_by-congr, count_by_none}
use fractal_d.BTree.Map.{TextMap, get, has_value}
use fractal_d.BTree.Set.{
  TextSet, contains, IsAscending, IsDistinct, ascending-IsDistinct, not_contains_of_Above,
}
use fractal_d.Graph.Model.{done}
use fractal_d.Graph.Ordering.Edges.{degree, edge, has-value, out}
use fractal_d.Graph.Sorting.{Sort, relax, drain}
use fractal_d.Graph.Sorting.Relax.{InStep, relax-InStep}

-- The edges into `n` from names that are not sorted.
abbrev pub due : TextSet → TextMap TextSet → List Text → Text → ℕ
due selected edges order n = count_by (λ p. edge edges p n && not (contains order p)) selected

abbrev pub left : TextSet → List Text → ℕ
left selected order = count_by (λ n. not (contains order n)) selected

-- The part of a consistent ordering that the loop reads.
pub record IsGraph (selected : TextSet) (edges : TextMap TextSet) : Type 0 where
  pub distinct : IsDistinct selected
  pub sources : (a : Text) → has_value (get edges a) ≡ contains selected a
  pub inside : (a b : Text) → edge edges a b ≡ true → contains selected b ≡ true
  pub ascending : (a : Text) → IsAscending (out edges a)

pub record IsSorting (selected : TextSet) (edges : TextMap TextSet) (s : Sort) : Type 0 where
  pub step : InStep selected (due selected edges s.order) [] s
  pub members : (n : Text) → contains s.order n ≡ true → contains selected n ≡ true
  pub unrepeated : IsDistinct s.order
  pub topological :
      (p n : Text)
      → contains s.order n ≡ true
      → contains selected p ≡ true
      → edge edges p n ≡ true
      → before p n s.order ≡ true
  pub balance : left selected s.order + length s.order ≡ length selected

module _ (selected : TextSet) (edges : TextMap TextSet) (g : IsGraph selected edges) where
  -- A name that leaves the ready set is selected, not sorted, and has no edge that is due.
  module _ (s : Sort) (x : Text) (rest : TextSet) (next : s.ready ≡ x ∷ rest)
      (h : IsSorting selected edges s) where
    pub taken :
        (contains selected x ≡ true) × (contains s.order x ≡ false) × (degree s.indegree x ≡ 0)
    taken =
        let e : contains s.ready x ≡ true = rw next (contains_self x rest) in
        ground (arith, h.step.ready x)

    rest_ready : (n : Text) → contains s.ready n ≡ (text_eq x n || contains rest n)
    unfolding contains
    rest_ready n = rw next

    rest-IsAscending : IsAscending (x ∷ rest)
    rest-IsAscending = subst IsAscending next h.step.ascending

    settled :
        (p : Text) → contains selected p ≡ true → edge edges p x ≡ true → contains s.order p ≡ true
    settled p m e = ground (
      arith,
      taken,
      h.step.degrees x,
      count_by_none (λ p. edge edges p x && not (contains s.order p)) selected p,
    )

    unfoldable pub moved : Sort
    moved = record s { ready = rest; order = s.order ++ x ∷ [] }

    due-moved :
        (n : Text)
        → due selected edges s.order n
          ≡ due selected edges moved.order n + (if edge edges x n then 1 else 0)
    unfolding moved
    due-moved n = elim (Bool-cases (edge edges x n)) [
      | inl hit ↦ ground (
        arith,
        taken,
        count_by-set (λ p. edge edges p n && not (contains (s.order ++ x ∷ []) p))
            (λ p. edge edges p n && not (contains s.order p)) x selected g.distinct taken.0
            (ground (arith, contains-concat s.order x x, text_eq_refl x))
            (λ p. ground (arith, taken, contains-concat s.order x p, text_eq_iff x p)),
      )
      | inr miss ↦ ground (
        arith,
        count_by-congr (λ p. edge edges p n && not (contains (s.order ++ x ∷ []) p))
            (λ p. edge edges p n && not (contains s.order p)) selected
            (λ p _. ground (arith, contains-concat s.order x p, text_eq_iff x p)),
      )
    ]

    moved-InStep : InStep selected (due selected edges moved.order) (out edges x) moved
    unfolding moved contains
    moved-InStep = record {
      keyed = h.step.keyed;
      degrees = λ n m. ground (arith, h.step.degrees n m, due-moved n);
      ready = λ n. ground (
        arith,
        taken,
        h.step.ready n,
        rest_ready n,
        contains-concat s.order x n,
        text_eq_iff x n,
        not_contains_of_Above x rest rest-IsAscending.0,
      );
      sorted = λ n m.
          ground (arith, taken, h.step.sorted n, contains-concat s.order x n, text_eq_iff x n);
      ascending = rest-IsAscending.1;
    }

    left-moved : left selected s.order ≡ suc (left selected moved.order)
    unfolding moved
    left-moved =
        count_by-set (λ n. not (contains (s.order ++ x ∷ []) n)) (λ n. not (contains s.order n)) x
          selected g.distinct taken.0 (ground (arith, contains-concat s.order x x, text_eq_refl x))
          (λ n. ground (arith, taken, contains-concat s.order x n, text_eq_iff x n))

    moved-topological :
        (p n : Text)
        → contains moved.order n ≡ true
        → contains selected p ≡ true
        → edge edges p n ≡ true
        → before p n moved.order ≡ true
    unfolding moved
    moved-topological p n m q e = elim (Bool-cases (contains s.order n)) [
      | inl old ↦ before-append p n s.order (x ∷ []) (h.topological p n old q e)
      | inr new ↦
          let same : x ≡ n = ground (arith, contains-concat s.order x n, text_eq_iff x n) in
          subst (λ z. before p z (s.order ++ x ∷ []) ≡ true) same
            (before-concat p x s.order taken.1 (settled p q (rw same e)))
    ]

    -- The invariant but for the indegrees, which the loop over the dependents brings in step.
    moved-members : (n : Text) → contains moved.order n ≡ true → contains selected n ≡ true
    unfolding moved
    moved-members n m =
        ground (arith, taken, h.members n, contains-concat s.order x n, text_eq_iff x n)

    moved-balance : left selected moved.order + length moved.order ≡ length selected
    unfolding moved
    moved-balance = omega (arith, left-moved, h.balance, length-append s.order (x ∷ []))

    moved-unrepeated : IsDistinct moved.order
    unfolding moved
    moved-unrepeated = IsDistinct-concat s.order x h.unrepeated taken.1

    moved-IsSorting :
        (t : Sort)
        → t.order ≡ moved.order
        → InStep selected (due selected edges moved.order) [] t
        → IsSorting selected edges t
    moved-IsSorting t o c = record {
      step = subst (λ l. InStep selected (due selected edges l) [] t) (sym o) c;
      members = λ n m. moved-members n (rw o at m);
      unrepeated = rw o moved-unrepeated;
      topological = λ p n m q e. rw o (moved-topological p n (rw o at m) q e);
      balance = rw o moved-balance;
    }

    -- One round of the loop.
    pub take-IsSorting :
        (t : Sort) × (relax (out edges x) moved ≡ done t)
        × IsSorting selected edges t
        × (left selected s.order ≡ suc (left selected t.order))
    take-IsSorting =
        let (t, e, o, c) =
          relax-InStep selected (due selected edges moved.order) (out edges x) moved
            (ascending-IsDistinct (out edges x) (g.ascending x)) (λ n m. g.inside x n m)
            moved-InStep in
        (t, e, moved-IsSorting t o c, rw o left-moved)

  pub drain_ends :
      (fuel : ℕ) (s : Sort)
      → left selected s.order < fuel
      → IsSorting selected edges s
      → (t : Sort) × (drain edges fuel s ≡ done t) × IsSorting selected edges t × (t.ready ≡ [])
  unfolding drain moved
  drain_ends zero s f h = elim f [ ]
  drain_ends (suc fuel) s f h = elim (List-cases s.ready) [
    | inl empty ↦ (s, simp (empty, drain), h, empty)
    | inr (x, rest, next) ↦
        let (t, e, k, l) = take-IsSorting s x rest next h in
        let (u, e', k', r) = drain_ends fuel t (omega (arith, l)) k in
        let (o, at) = has-value (get edges x) (g.sources x ∙ (taken s x rest next h).0) in
        (u, ground (arith, next, at, e, e'), k', r)
  ]
