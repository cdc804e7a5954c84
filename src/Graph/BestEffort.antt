-- ===== src/Graph/BestEffort.antt =====
-- crates/fractald-core/src/graph.rs: `plan_all_stop_best_effort`, which stops every service even when
-- the constraints have a cycle.
pub mod Cut
pub mod Choose
pub mod Round
pub mod Total
pub mod Agree
use fractal_d.Base.{
  ℕ, zero, suc, Bool, true, false, Option, none, some, List, [], ◌∷◌, ◌++◌, Text, ltb, length,
  if◌then◌else◌,
}
use fractal_d.BTree.Before.{reverse}
use fractal_d.BTree.Map.{TextMap, get, put, keys}
use fractal_d.BTree.Set.{TextSet, contains, insert, remove, extend}
use fractal_d.Graph.Model.{DependencyGraph, Run, done, panics, out_of_fuel, ◌>>=◌, expect}
use fractal_d.Graph.Ordering.{Ordering, ordering_graph}
use fractal_d.Graph.Paths.{Environment}
use fractal_d.Graph.Sorting.{Sort, relax, zero_degrees}

-- The variables of the loop.
pub record Unravel : Type 0 where
  pub ordering : Ordering
  pub ready : TextSet
  pub order : List Text

-- `indegree.iter().filter_map(... degree > &0 ...).next_back()`
unfoldable pub last_waiting : TextMap ℕ → Option Text
last_waiting [] = none
last_waiting ((name, degree) ∷ m) = elim (last_waiting m) [
  | some later ↦ some later
  | none ↦ if ltb 0 degree then some name else none
]

-- The names with an edge to `name`.
unfoldable pub predecessors_of : Text → TextMap TextSet → List Text
predecessors_of name [] = []
predecessors_of name ((predecessor, dependents) ∷ m) =
    let rest = predecessors_of name m in
    if contains dependents name then predecessor ∷ rest else rest

-- An edge that was there is removed, and no longer counted at its end.
unfoldable pub cut_edge : Ordering → Text → Text → TextSet → ℕ → Run Ordering
cut_edge o predecessor name dependents zero = panics
cut_edge o predecessor name dependents (suc degree) = done (record o {
  edges = put predecessor (remove name dependents) o.edges;
  indegree = put name degree o.indegree;
})

-- `for predecessor in predecessors`
unfoldable pub cut : List Text → Text → Ordering → Run Ordering
cut [] name o = done o
cut (predecessor ∷ rest) name o = do
  dependents ← expect (get o.edges predecessor)
  o' ←
      if contains dependents name
      then expect (get o.indegree name) >>= cut_edge o predecessor name dependents
      else done o
  cut rest name o'

-- What is taken next, what stays ready, and the edges then.
pub record Choice : Type 0 where
  pub name : Text
  pub rest : TextSet
  pub ordering : Ordering

-- `ready.pop_first().expect(...)`
abbrev pub pop_first : TextSet → Ordering → Run Choice
pop_first [] o = panics
pop_first (x ∷ xs) o = done (record { name = x; rest = xs; ordering = o })

-- The first name that is ready; if there is none, the last one that waits, freed of what it waits
-- for.
unfoldable pub choose : Ordering → TextSet → Run Choice
unfolding last_waiting insert
choose o [] = do
  name ← expect (last_waiting o.indegree)
  o' ← cut (predecessors_of name o.edges) name o
  pop_first (insert name []) o'
choose o (x ∷ xs) = pop_first (x ∷ xs) o

-- One round: the chosen name is stopped, and its dependents are lowered.
unfoldable pub round : Unravel → Run Unravel
round u = do
  c ← choose u.ordering u.ready
  dependents ← expect (get c.ordering.edges c.name)
  s ←
      relax dependents
        (record { indegree = c.ordering.indegree; ready = c.rest; order = u.order ++ c.name ∷ [] })
  done (record {
    ordering = record { edges = put c.name [] c.ordering.edges; indegree = s.indegree };
    ready = s.ready;
    order = s.order;
  })

-- `while order.len() < selected.len()`
unfoldable pub unravel : ℕ → ℕ → Unravel → Run (List Text)
unravel count zero u = out_of_fuel
unravel count (suc fuel) u = elim (ltb (length u.order) count) [
  | true ↦ round u >>= unravel count fuel
  | false ↦ done u.order
]

module _ (env : Environment) (g : DependencyGraph) where
  unfoldable pub plan_all_stop_best_effort : Run (List Text)
  plan_all_stop_best_effort = do
    o ← ordering_graph env g (keys g.services)
    order ←
        unravel (length (keys g.services)) (suc (length (keys g.services)))
          (record { ordering = o; ready = extend [] (zero_degrees o.indegree); order = [] })
    done (reverse order)
