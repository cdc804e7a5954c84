-- ===== src/Graph/Sorting/Order.antt =====
-- `topological_order`: what a plan and what a cycle error say.
use fractal_d.Base.{
  ℕ, suc, ◌≡◌, refl, true, not, ◌&&◌, List, [], ◌∷◌, arith, Text, text_eq_iff, ◌==◌, length, inl,
  inr, ◌⊎◌,
}
use fractal_d.BTree.Count.{count_by-all, count_by-congr}
use fractal_d.BTree.Map.{TextMap, get, keys, has_value, contains-keys}
use fractal_d.BTree.Set.{TextSet, contains, contains-extend, extend-IsAscending, IsDistinct}
use fractal_d.Graph.Model.{DependencyGraph, done, fails, cycle}
use fractal_d.Graph.Ordering.{Ordering}
use fractal_d.Graph.Ordering.Build.{precedes, ordering_graph_exact}
use fractal_d.Graph.Ordering.Edges.{degree, edge, IsConsistent}
use fractal_d.Graph.Paths.{Environment}
use fractal_d.Graph.Sorting.{zero_degrees, start_sort, topological_order}
use fractal_d.Graph.Sorting.Drain.{IsGraph, IsSorting, left, drain_ends}
use fractal_d.Graph.Sorting.Finish.{IsPlan, IsStuck, finish_total}

contains-zero_degrees :
    (m : TextMap ℕ) (n : Text)
    → IsDistinct (keys m)
    → contains (zero_degrees m) n ≡ (has_value (get m n) && (degree m n == 0))
unfolding zero_degrees contains get keys
contains-zero_degrees [] n d = refl
contains-zero_degrees ((k, e) ∷ m) n d =
    ground (arith, contains-zero_degrees m n d.1, contains-keys m n, text_eq_iff k n)

module _ (selected : TextSet) (o : Ordering) (distinct : IsDistinct selected)
    (c : IsConsistent selected o) where
  pub is_graph : IsGraph selected o.edges
  is_graph = record {
    distinct = distinct;
    sources = c.sources;
    inside = c.inside;
    ascending = c.ascending;
  }

  left-start : left selected [] ≡ length selected
  unfolding contains
  left-start = count_by-all (λ n. not (contains [] n)) selected (λ x _. refl)

  pub start_sort-IsSorting : IsSorting selected o.edges (start_sort o)
  unfolding start_sort contains
  start_sort-IsSorting = record {
    step = record {
      keyed = c.targets;
      degrees = λ n m. ground (
        arith,
        c.counted n m,
        count_by-congr (λ p. edge o.edges p n && not (contains [] p)) (λ p. edge o.edges p n)
            selected (λ p _. ground arith),
      );
      ready = λ n. ground (
        arith,
        contains-extend [] (zero_degrees o.indegree) n,
        contains-zero_degrees o.indegree n (rw c.keyed distinct),
        c.targets n,
      );
      sorted = λ n m. cc;
      ascending = extend-IsAscending [] (zero_degrees o.indegree) tt;
    };
    members = λ n m. cc;
    unrepeated = tt;
    topological = λ p n m q e. cc;
    balance = omega (arith, left-start);
  }

module _ (env : Environment) (g : DependencyGraph) (selected : TextSet)
    (distinct : IsDistinct selected)
    (registered : (n : Text)
      → contains selected n ≡ true
      → has_value (get g.services n) ≡ true) where
  -- `topological_order` of registered names always returns, without a panic: either a plan that has
  -- each name once and keeps every constraint, or a cycle error whose names wait for one another.
  pub topological_order_total :
      ((order : List Text) × (topological_order env g selected ≡ done order)
        × IsPlan selected (precedes env g) order)
      ⊎ ((names : List Text) × (topological_order env g selected ≡ fails (cycle names))
          × IsStuck selected (precedes env g) names)
  unfolding topological_order
  topological_order_total =
      let (o, e, c, exact) = ordering_graph_exact env g selected distinct registered in
      let (t, e', k, empty) =
        drain_ends selected o.edges (is_graph selected o distinct c) (suc (length selected))
          (start_sort o) (omega (arith, left-start selected o distinct c))
          (start_sort-IsSorting selected o distinct c) in
      elim (finish_total selected o.edges t k empty) [
        | inl (order, f, p) ↦ inl (
          order,
          ground (arith, e, e', f),
          record {
            unrepeated = p.unrepeated;
            members = p.members;
            ordered = λ a b m n q. p.ordered a b m n (ground (arith, exact a b));
          },
        )
        | inr (names, f, p) ↦ inr (
          names,
          ground (arith, e, e', f),
          record {
            inhabited = p.inhabited;
            inside = p.inside;
            waiting = λ n m. let (a, k, q) = p.waiting n m in (a, k, ground (arith, exact a n));
          },
        )
      ]
