-- ===== src/Graph/BestEffort/Cut.antt =====
-- `plan_all_stop_best_effort`: a name is freed of its incoming edges.
use fractal_d.Base.{
  suc, ◌≡◌, ◌≢◌, refl, ◌∙◌, true, not, ◌&&◌, some, List, [], ◌∷◌, arith, Text, text_eq, text_eq_iff,
  Bool-cases, inl, inr, if◌then◌else◌,
}
use fractal_d.BTree.Count.{
  contains_self, contains-tail, count_by-set, count_by-congr, count_by-zero,
}
use fractal_d.BTree.Map.{TextMap, get, put, has_value, get-put, keys-put}
use fractal_d.BTree.Set.{
  TextSet, contains, remove, contains-remove, IsDistinct, ascending-IsDistinct, remove-IsAscending,
}
use fractal_d.Graph.BestEffort.{cut, cut_edge, predecessors_of}
use fractal_d.Graph.Model.{done}
use fractal_d.Graph.Ordering.{Ordering}
use fractal_d.Graph.Ordering.Edges.{degree, edge, IsConsistent, predecessors, has-value}

-- The edges from `sources` to `x` are gone; only the count at `x` has changed.
pub record IsCut (selected : TextSet) (sources : List Text) (x : Text) (o t : Ordering)
    : Type 0 where
  pub consistent : IsConsistent selected t
  pub exact :
      (a b : Text)
      → edge t.edges a b ≡ (edge o.edges a b && not (contains sources a && text_eq x b))
  pub degrees : (n : Text) → n ≢ x → degree t.indegree n ≡ degree o.indegree n

module _ (selected : TextSet) (distinct : IsDistinct selected) (x : Text)
    (has_x : contains selected x ≡ true) where
  module _ (o : Ordering) (p : Text) (c : IsConsistent selected o)
      (has_p : contains selected p ≡ true) (s : TextSet) (at_p : get o.edges p ≡ some s)
      (there : contains s x ≡ true) where
    less : TextMap TextSet
    less = put p (remove x s) o.edges

    at_less : (a : Text) → get less a ≡ (if text_eq p a then some (remove x s) else get o.edges a)
    unfolding less
    at_less a = get-put o.edges p a (remove x s) s at_p

    s-IsDistinct : IsDistinct s
    s-IsDistinct = ascending-IsDistinct s (ground (arith, c.ascending p))

    less-exact :
        (a b : Text) → edge less a b ≡ (edge o.edges a b && not (text_eq p a && text_eq x b))
    unfolding less
    less-exact a b = ground (
      arith,
      get-put o.edges p a (remove x s) s at_p,
      contains-remove x b s s-IsDistinct,
      text_eq_iff p a,
    )

    counted_x : predecessors selected o.edges x ≡ suc (predecessors selected less x)
    counted_x =
        count_by-set (λ q. edge less q x) (λ q. edge o.edges q x) p selected distinct has_p
          (ground (arith, less-exact p x, text_eq_iff p p, text_eq_iff x x))
          (λ q. ground (arith, less-exact q x, text_eq_iff p q, text_eq_iff x x))

    at_x : get o.indegree x ≡ some (suc (predecessors selected less x))
    at_x =
        let (d, at) = has-value (get o.indegree x) (c.targets x ∙ has_x) in
        ground (arith, at, c.counted x has_x, counted_x)

    cut_one : Ordering
    cut_one = record o { edges = less; indegree = put x (predecessors selected less x) o.indegree }

    cut_one-at :
        (n : Text)
        → get cut_one.indegree n
          ≡ (if text_eq x n then some (predecessors selected less x) else get o.indegree n)
    unfolding cut_one
    cut_one-at n = get-put o.indegree x n (predecessors selected less x) _ at_x

    cut_one-IsConsistent : IsConsistent selected cut_one
    unfolding cut_one
    cut_one-IsConsistent = record {
      sources = λ a. ground (arith, c.sources a, at_less a, text_eq_iff p a);
      targets = λ a. ground (arith, c.targets a, cut_one-at a, text_eq_iff x a);
      keyed = keys-put o.indegree x (predecessors selected less x) ∙ c.keyed;
      inside = λ a b e. ground (arith, c.inside a b, less-exact a b);
      counted = λ n m. elim (Bool-cases (text_eq x n)) [
        | inl hit ↦ ground (arith, cut_one-at n, text_eq_iff x n)
        | inr miss ↦ ground (
          arith,
          cut_one-at n,
          c.counted n m,
          count_by-congr (λ q. edge o.edges q n) (λ q. edge less q n) selected
              (λ q _. ground (arith, less-exact q n)),
        )
      ];
      ascending =
          λ a. ground (arith, c.ascending a, c.ascending p, at_less a, remove-IsAscending x s);
    }

  -- Edges from selected names are removed without a panic.
  pub cut-IsCut :
      (sources : List Text) (o : Ordering)
      → ((p : Text) → contains sources p ≡ true → contains selected p ≡ true)
      → IsConsistent selected o
      → (t : Ordering) × (cut sources x o ≡ done t) × IsCut selected sources x o t
  unfolding cut cut_edge contains cut_one less
  cut-IsCut [] o i c =
      (o, refl, record { consistent = c; exact = λ a b. ground arith; degrees = λ n h. refl })
  cut-IsCut (p ∷ ps) o i c =
      let has_p = i p (contains_self p ps) in
      let tail = λ (q : Text) (h : contains ps q ≡ true). i q (contains-tail p q ps h) in
      let (s, at) = has-value (get o.edges p) (c.sources p ∙ has_p) in
      elim (Bool-cases (contains s x)) [
        | inl there ↦
            let (t, e, k) =
              cut-IsCut ps (cut_one o p c has_p s at there) tail
                (cut_one-IsConsistent o p c has_p s at there) in
            (
              t,
              ground (arith, at, there, at_x o p c has_p s at there, e),
              record {
                consistent = k.consistent;
                exact = λ a b. ground (arith, k.exact a b, less-exact o p c has_p s at there a b);
                degrees = λ n h.
                    ground
                      (arith, k.degrees n h, cut_one-at o p c has_p s at there n, text_eq_iff x n);
              },
            )
        | inr missing ↦
            let (t, e, k) = cut-IsCut ps o tail c in
            (
              t,
              ground (arith, at, missing, e),
              record {
                consistent = k.consistent;
                exact = λ a b. ground (arith, k.exact a b, text_eq_iff p a, text_eq_iff x b);
                degrees = k.degrees;
              },
            )
      ]

pub predecessors_of_complete :
    (x p : Text) (edges : TextMap TextSet)
    → edge edges p x ≡ true
    → contains (predecessors_of x edges) p ≡ true
unfolding predecessors_of contains get
predecessors_of_complete x p [] e = cc
predecessors_of_complete x p ((q, s) ∷ m) e =
    ground (arith, predecessors_of_complete x p m, text_eq_iff q p)

pub predecessors_of-keys :
    (x p : Text) (edges : TextMap TextSet)
    → contains (predecessors_of x edges) p ≡ true
    → has_value (get edges p) ≡ true
unfolding predecessors_of contains get
predecessors_of-keys x p [] e = cc
predecessors_of-keys x p ((q, s) ∷ m) e = ground (arith, predecessors_of-keys x p m)

-- All the edges into a selected name are removed, and nothing is counted at it then.
pub freed :
    (selected : TextSet) (x : Text) (o : Ordering)
    → IsDistinct selected
    → contains selected x ≡ true
    → IsConsistent selected o
    → (t : Ordering) × (cut (predecessors_of x o.edges) x o ≡ done t)
      × IsCut selected (predecessors_of x o.edges) x o t
      × (degree t.indegree x ≡ 0)
freed selected x o distinct m c =
    let sources = predecessors_of x o.edges in
    let (t, e, k) =
      cut-IsCut selected distinct x m sources o
        (λ p h. ground (arith, c.sources p, predecessors_of-keys x p o.edges h)) c in
    (
      t,
      e,
      k,
      k.consistent.counted x m
          ∙ count_by-zero (λ p. edge t.edges p x) selected
              (λ p _.
                ground (arith, k.exact p x, predecessors_of_complete x p o.edges, text_eq_iff x x)),
    )
