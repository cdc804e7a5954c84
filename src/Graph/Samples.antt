-- ===== src/Graph/Samples.antt =====
-- Registries of the tests in crates/fractald-core/src/graph.rs, and one with a cycle.
use fractal_d.Base.{refl, none, [], ◌∷◌, Text, codes, text_lt}
use fractal_d.BTree.Map.{keys}
use fractal_d.Fixtures.{service}
use fractal_d.Graph.Model.{DependencyGraph}
use fractal_d.Graph.Paths.{Environment}
use fractal_d.Graph.Plan.All.{IsRegistry}
use fractal_d.Spec.{ServiceSpec, no_dependencies}

abbrev pub env : Environment
env = record {
  fractald_runtime_dir = none;
  xdg_runtime_dir = none;
  fractald_state_dir = none;
  xdg_state_home = none;
  home = none;
}

abbrev pub app : Text
app = codes "app"

abbrev pub db : Text
db = codes "db"

abbrev pub metrics : Text
metrics = codes "metrics"

abbrev pub app_service : ServiceSpec
app_service = record (service app) {
  dependencies = record no_dependencies { requires = db ∷ []; wants = metrics ∷ [] };
}

abbrev pub registry : DependencyGraph
registry = record {
  services = (app, app_service) ∷ (db, service db) ∷ (metrics, service metrics) ∷ [];
}

pub registry_ascending : IsRegistry registry
unfolding keys text_lt
registry_ascending = ((refl, (refl, tt)), ((refl, tt), (tt, tt)))

-- Two services that are each ordered after the other.
abbrev pub left_name : Text
left_name = codes "a"

abbrev pub right_name : Text
right_name = codes "b"

abbrev pub after_other : Text → Text → ServiceSpec
after_other name other = record (service name) {
  dependencies = record no_dependencies { after = other ∷ [] };
}

abbrev pub knot : DependencyGraph
knot = record {
  services =
      (left_name, after_other left_name right_name)
      ∷ (right_name, after_other right_name left_name)
      ∷ [];
}

pub knot_ascending : IsRegistry knot
unfolding keys text_lt
knot_ascending = ((refl, tt), (tt, tt))
