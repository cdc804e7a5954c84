-- ===== src/Graph/Plan/All.antt =====
-- `add`, and the plans for the whole registry.
use fractal_d.Base.{
  ◌≡◌, sym, ◌∙◌, ◌⊎◌, inl, inr, true, false, some, List, Text, text_eq, if◌then◌else◌, Bool-cases,
}
use fractal_d.BTree.Map.{get, keys, has_value, contains-keys, get-insert_key, keys-insert_key}
use fractal_d.BTree.Set.{contains, IsAscending, ascending-IsDistinct, insert-IsAscending}
use fractal_d.Graph.Model.{DependencyGraph, done, fails, cycle, duplicate_service, has_service, add}
use fractal_d.Graph.Ordering.Build.{precedes}
use fractal_d.Graph.Paths.{Environment}
use fractal_d.Graph.Plan.{plan_all_start}
use fractal_d.Graph.Sorting.Finish.{IsPlan, IsStuck}
use fractal_d.Graph.Sorting.Order.{topological_order_total}
use fractal_d.Spec.{ServiceSpec}

-- The entries of the registry stand in the order of their names, as in any `BTreeMap`.
abbrev pub IsRegistry : DependencyGraph → Type 0
IsRegistry g = IsAscending (keys g.services)

-- What `add` makes of a registry whose entries stand in the order of their names: it refuses a
-- name that is there, and otherwise enters the descriptor under its name, changes no other entry,
-- and keeps the names in order.
pub add_lem :
    (g : DependencyGraph) (spec : ServiceSpec)
    → IsRegistry g
    → ((has_service g spec.name ≡ true) × (add g spec ≡ fails (duplicate_service spec.name)))
      ⊎ ((t : DependencyGraph) × (add g spec ≡ done t)
          × (has_service g spec.name ≡ false)
          × IsRegistry t
          × ((k : Text)
              → get t.services k ≡ (if text_eq spec.name k then some spec else get g.services k)))
unfolding add
add_lem g spec r = elim (Bool-cases (has_service g spec.name)) [
  | inl old ↦ inl (old, rw old)
  | inr new ↦ inr (
    _,
    rw new,
    new,
    rw (keys-insert_key g.services spec.name spec)
        (insert-IsAscending spec.name (keys g.services) r),
    λ k. get-insert_key g.services spec.name k spec,
  )
]

module _ (env : Environment) (g : DependencyGraph) (r : IsRegistry g) where
  all_registered :
      (n : Text) → contains (keys g.services) n ≡ true → has_value (get g.services n) ≡ true
  all_registered n m = sym (contains-keys g.services n) ∙ m

  -- For a whole registry, its entries in the order of their names, `plan_all_start` returns
  -- without a panic: either a plan, with every service once and every constraint kept, or a cycle
  -- error whose names wait for one another.
  pub plan_all_start_total :
      ((order : List Text) × (plan_all_start env g ≡ done order)
        × IsPlan (keys g.services) (precedes env g) order)
      ⊎ ((names : List Text) × (plan_all_start env g ≡ fails (cycle names))
          × IsStuck (keys g.services) (precedes env g) names)
  unfolding plan_all_start
  plan_all_start_total =
      topological_order_total env g (keys g.services) (ascending-IsDistinct _ r) all_registered
