-- ===== src/Graph/Plan.antt =====
-- crates/fractald-core/src/graph.rs: the plans of `DependencyGraph`.
pub mod Start
pub mod All
use fractal_d.Base.{List, Text}
use fractal_d.BTree.Before.{reverse}
use fractal_d.BTree.Map.{keys}
use fractal_d.Graph.Closure.{select_start_closure}
use fractal_d.Graph.Model.{DependencyGraph, Run, done, ◌>>=◌}
use fractal_d.Graph.Paths.{Environment}
use fractal_d.Graph.Sorting.{topological_order}

module _ (env : Environment) (g : DependencyGraph) where
  unfoldable pub plan_start : Text → Run (List Text)
  plan_start root = do selected ← select_start_closure env g root; topological_order env g selected

  unfoldable pub plan_stop : Text → Run (List Text)
  plan_stop root = do order ← plan_start root; done (reverse order)

  unfoldable pub plan_all_start : Run (List Text)
  plan_all_start = topological_order env g (keys g.services)

  unfoldable pub plan_all_stop : Run (List Text)
  plan_all_stop = do order ← plan_all_start; done (reverse order)
