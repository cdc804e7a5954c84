-- ===== src/Graph/Ordering.antt =====
-- crates/fractald-core/src/graph.rs: `ordering_graph` and `add_edge`.
pub mod Edges
pub mod Build
use fractal_d.Base.{ℕ, suc, ◌||◌, Bool, true, false, List, [], ◌∷◌, Text, if◌then◌else◌}
use fractal_d.BTree.Map.{TextMap, get, put, constant}
use fractal_d.BTree.Set.{TextSet, contains, insert}
use fractal_d.Graph.Model.{
  DependencyGraph, Run, done, ◌>>=◌, expect, required_dependencies, wanted_dependencies,
  default_dependencies,
}
use fractal_d.Graph.Paths.{Environment}
use fractal_d.Spec.{ServiceSpec}

-- The edges by their source, and the number of edges into each name.
pub record Ordering : Type 0 where
  pub edges : TextMap TextSet
  pub indegree : TextMap ℕ

-- The edge is new: it is inserted, and counted at its end.
unfoldable pub count_edge : Ordering → Text → Text → TextSet → Run Ordering
count_edge o from to out = do
  degree ← expect (get o.indegree to)
  done (record o {
    edges = put from (insert to out) o.edges;
    indegree = put to (suc degree) o.indegree;
  })

unfoldable pub add_edge : Ordering → Text → Text → Run Ordering
unfolding count_edge
add_edge o from to = do
  out ← expect (get o.edges from)
  if contains out to then done o else count_edge o from to out

-- `for dependency in ... { if selected.contains(dependency) { add_edge(dependency, name) } }`
unfoldable pub add_edges_to : TextSet → Text → List Text → Ordering → Run Ordering
add_edges_to selected name [] o = done o
add_edges_to selected name (dependency ∷ rest) o =
    (if contains selected dependency then add_edge o dependency name else done o)
    >>= add_edges_to selected name rest

unfoldable pub add_edges_from : TextSet → Text → List Text → Ordering → Run Ordering
add_edges_from selected name [] o = done o
add_edges_from selected name (dependency ∷ rest) o =
    (if contains selected dependency then add_edge o name dependency else done o)
    >>= add_edges_from selected name rest

module _ (env : Environment) (g : DependencyGraph) where
  unfoldable pub add_service : TextSet → Text → Ordering → Run Ordering
  add_service selected name o = do
    spec ← expect (get g.services name)
    o₁ ← add_edges_to selected name (required_dependencies env g name) o
    o₂ ← add_edges_to selected name (wanted_dependencies env g name) o₁
    o₃ ← add_edges_to selected name (default_dependencies env g name) o₂
    o₄ ← add_edges_from selected name (default_dependencies env g name) o₃
    o₅ ← add_edges_to selected name spec.dependencies.after o₄
    o₆ ← add_edges_from selected name spec.dependencies.before o₅
    add_edges_to selected name spec.dependencies.requisite o₆

  unfoldable pub add_services : TextSet → List Text → Ordering → Run Ordering
  add_services selected [] o = done o
  add_services selected (name ∷ names) o =
      add_service selected name o >>= add_services selected names

  unfoldable pub ordering_graph : TextSet → Run Ordering
  ordering_graph selected =
      add_services selected selected
        (record { edges = constant selected []; indegree = constant selected 0 })
