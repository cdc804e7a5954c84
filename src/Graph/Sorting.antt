-- ===== src/Graph/Sorting.antt =====
-- crates/fractald-core/src/graph.rs: `topological_order`.
pub mod Relax
pub mod Drain
pub mod Finish
pub mod Order
pub mod Complete
use fractal_d.Base.{
  ℕ, zero, suc, Bool, true, false, not, List, [], ◌∷◌, ◌++◌, Text, ◌==◌, length, if◌then◌else◌,
}
use fractal_d.BTree.Map.{TextMap, get, put}
use fractal_d.BTree.Set.{TextSet, insert, extend}
use fractal_d.Graph.Model.{
  DependencyGraph, Run, done, fails, panics, out_of_fuel, cycle, ◌>>=◌, expect,
}
use fractal_d.Graph.Ordering.{Ordering, ordering_graph}
use fractal_d.Graph.Paths.{Environment}

-- The variables of the loop.
pub record Sort : Type 0 where
  pub indegree : TextMap ℕ
  pub ready : TextSet
  pub order : List Text

-- `*degree -= 1; if *degree == 0 { ready.insert(dependent) }`. The subtraction panics at 0.
unfoldable pub lower : Sort → Text → ℕ → Run Sort
lower s dependent zero = panics
lower s dependent (suc degree) = done (record s {
  indegree = put dependent degree s.indegree;
  ready = if degree == 0 then insert dependent s.ready else s.ready;
})

-- `for dependent in &edges[&name]`
unfoldable pub relax : List Text → Sort → Run Sort
relax [] s = done s
relax (dependent ∷ rest) s = do
  degree ← expect (get s.indegree dependent)
  s' ← lower s dependent degree
  relax rest s'

-- `while let Some(name) = ready.pop_first()`
unfoldable pub drain : TextMap TextSet → ℕ → Sort → Run Sort
drain edges zero s = out_of_fuel
drain edges (suc fuel) s = elim s.ready [
  | [] ↦ done s
  | name ∷ rest ↦ expect (get edges name) >>= λ out.
      relax out (record s { ready = rest; order = s.order ++ name ∷ [] }) >>= drain edges fuel
]

-- The names of degree 0 at the start.
unfoldable pub zero_degrees : TextMap ℕ → List Text
zero_degrees [] = []
zero_degrees ((name, degree) ∷ m) =
    let rest = zero_degrees m in if degree == 0 then name ∷ rest else rest

-- `selected.iter().filter(|name| indegree[*name] != 0)`
unfoldable pub unsorted : TextMap ℕ → List Text → Run (List Text)
unsorted indegree [] = done []
unsorted indegree (name ∷ names) = do
  degree ← expect (get indegree name)
  rest ← unsorted indegree names
  done (if degree == 0 then rest else name ∷ rest)

unfoldable pub start_sort : Ordering → Sort
unfolding zero_degrees
start_sort o = record {
  indegree = o.indegree;
  ready = extend [] (zero_degrees o.indegree);
  order = [];
}

-- All names are sorted, or those that are left form the error.
unfoldable pub finish : TextSet → Sort → Run (List Text)
finish selected s =
    if length s.order == length selected
    then done s.order
    else unsorted s.indegree selected >>= λ names. fails (cycle names)

unfoldable pub topological_order : Environment → DependencyGraph → TextSet → Run (List Text)
unfolding start_sort finish
topological_order env g selected = do
  o ← ordering_graph env g selected
  s ← drain o.edges (suc (length selected)) (start_sort o)
  finish selected s
