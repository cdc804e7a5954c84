-- ===== src/Graph/Ordering/Edges.antt =====
-- `add_edge`: the edges and the indegrees stay in step.
use fractal_d.Base.{
  ℕ, suc, ◌≡◌, refl, ◌∙◌, Bool, true, false, ◌&&◌, ◌||◌, Option, none, some, [], arith, Text,
  text_eq, text_eq_iff, count_by, Bool-cases, inl, inr,
}
use fractal_d.BTree.Map.{TextMap, get, put, has_value, keys, get-put, keys-put}
use fractal_d.BTree.Set.{
  TextSet, contains, insert, contains-insert, IsAscending, insert-IsAscending, IsDistinct,
}
use fractal_d.BTree.Count.{count_by-set, count_by-congr}
use fractal_d.Graph.Model.{done}
use fractal_d.Graph.Ordering.{Ordering, add_edge}

abbrev pub or_empty : Option TextSet → TextSet
or_empty none = []
or_empty (some s) = s

abbrev pub or_zero : Option ℕ → ℕ
or_zero none = 0
or_zero (some n) = n

abbrev pub out : TextMap TextSet → Text → TextSet
out edges a = or_empty (get edges a)

abbrev pub edge : TextMap TextSet → Text → Text → Bool
edge edges a b = contains (out edges a) b

abbrev pub degree : TextMap ℕ → Text → ℕ
degree indegree n = or_zero (get indegree n)

-- The selected names with an edge to `n`.
abbrev pub predecessors : TextSet → TextMap TextSet → Text → ℕ
predecessors selected edges n = count_by (λ p. edge edges p n) selected

pub record IsConsistent (selected : TextSet) (o : Ordering) : Type 0 where
  pub sources : (a : Text) → has_value (get o.edges a) ≡ contains selected a
  pub targets : (a : Text) → has_value (get o.indegree a) ≡ contains selected a
  pub keyed : keys o.indegree ≡ selected
  pub inside : (a b : Text) → edge o.edges a b ≡ true → contains selected b ≡ true
  pub counted :
      (n : Text)
      → contains selected n ≡ true
      → degree o.indegree n ≡ predecessors selected o.edges n
  pub ascending : (a : Text) → IsAscending (out o.edges a)

pub has-value {ℓ} : {A : Type ℓ} (o : Option A) → has_value o ≡ true → (a : A) × (o ≡ some a)
has-value none h = cc
has-value (some a) h = (a, refl)

-- What an added edge leaves.
pub record Added (selected : TextSet) (o : Ordering) (from to : Text) (t : Ordering) : Type 0 where
  pub consistent : IsConsistent selected t
  pub exact : (a b : Text) → edge t.edges a b ≡ (edge o.edges a b || text_eq from a && text_eq to b)

module _ (selected : TextSet) (distinct : IsDistinct selected) (o : Ordering) (from to : Text)
    (c : IsConsistent selected o) (has_from : contains selected from ≡ true)
    (has_to : contains selected to ≡ true) (s : TextSet) (d : ℕ)
    (at_from : get o.edges from ≡ some s) (at_to : get o.indegree to ≡ some d) where
  old-Added : contains s to ≡ true → Added selected o from to o
  old-Added h = record {
    consistent = c;
    exact = λ a b. ground (arith, text_eq_iff from a, text_eq_iff to b);
  }

  after : Ordering
  after = record o { edges = put from (insert to s) o.edges; indegree = put to (suc d) o.indegree }

  after-exact :
      (a b : Text) → edge after.edges a b ≡ (edge o.edges a b || text_eq from a && text_eq to b)
  unfolding after
  after-exact a b = ground (
    arith,
    get-put o.edges from a (insert to s) s at_from,
    contains-insert to b s,
    text_eq_iff from a,
  )

  after-counted :
      contains s to ≡ false
      → (n : Text) → contains selected n ≡ true
      → degree after.indegree n ≡ predecessors selected after.edges n
  unfolding after
  after-counted h n m = elim (Bool-cases (text_eq to n)) [
    | inl hit ↦ ground (
      arith,
      text_eq_iff to n,
      get-put o.indegree to n (suc d) d at_to,
      c.counted n m,
      count_by-set (λ p. edge o.edges p n) (λ p. edge after.edges p n) from selected distinct
          has_from (ground (arith, text_eq_iff to n))
          (λ x. ground (arith, after-exact x n, text_eq_iff to n)),
    )
    | inr miss ↦ ground (
      arith,
      get-put o.indegree to n (suc d) d at_to,
      c.counted n m,
      count_by-congr (λ p. edge o.edges p n) (λ p. edge after.edges p n) selected
          (λ x _. ground (arith, after-exact x n)),
    )
  ]

  new-Added : contains s to ≡ false → Added selected o from to after
  unfolding after
  new-Added h = record {
    consistent = record {
      sources = λ a.
          ground (
            arith,
            c.sources a,
            get-put o.edges from a (insert to s) s at_from,
            text_eq_iff from a,
          );
      targets = λ a.
          ground (arith, c.targets a, get-put o.indegree to a (suc d) d at_to, text_eq_iff to a);
      keyed = keys-put o.indegree to (suc d) ∙ c.keyed;
      inside = λ a b e. ground (arith, c.inside a b, after-exact a b, text_eq_iff to b);
      counted = after-counted h;
      ascending = λ a. ground (
        arith,
        c.ascending a,
        c.ascending from,
        get-put o.edges from a (insert to s) s at_from,
        insert-IsAscending to s,
      );
    };
    exact = after-exact;
  }

-- Between two selected names an edge is added, without a panic, and nothing else changes.
pub add_edge-Added :
    (selected : TextSet) (o : Ordering) (from to : Text)
    → IsDistinct selected
    → IsConsistent selected o
    → contains selected from ≡ true
    → contains selected to ≡ true
    → (t : Ordering) × (add_edge o from to ≡ done t) × Added selected o from to t
unfolding add_edge after
add_edge-Added selected o from to distinct c f t =
    let (s, at_from) = has-value (get o.edges from) (c.sources from ∙ f) in
    let (d, at_to) = has-value (get o.indegree to) (c.targets to ∙ t) in
    elim (Bool-cases (contains s to)) [
      | inl old ↦
          (o, ground arith, old-Added selected distinct o from to c f t s d at_from at_to old)
      | inr new ↦ (
        after selected distinct o from to c f t s d at_from at_to,
        ground arith,
        new-Added selected distinct o from to c f t s d at_from at_to new,
      )
    ]
