-- ===== src/Graph/Closure.antt =====
-- crates/fractald-core/src/graph.rs: `required_closure` and `select_start_closure`, the two walks over
-- the registry.
pub mod Reach
pub mod Total
use fractal_d.Base.{
  ℕ, zero, suc, ◌+◌, Bool, true, false, not, Option, none, some, List, [], ◌∷◌, ◌++◌, Text, text_eq,
  length, if◌then◌else◌,
}
use fractal_d.BTree.Map.{get, keys}
use fractal_d.BTree.Set.{TextSet, contains, insert}
use fractal_d.Graph.Model.{
  DependencyGraph, Run, done, fails, panics, out_of_fuel, empty_root, missing_root,
  missing_required, ◌>>=◌, expect, has_service, required_dependencies, wanted_mount_dependencies,
}
use fractal_d.Graph.Paths.{Environment}
use fractal_d.Spec.{ServiceSpec}

-- The names that were taken, and those that wait.
pub record Walk : Type 0 where
  pub taken : TextSet
  pub pending : List Text

abbrev pub is_empty : Text → Bool
is_empty [] = true
is_empty (x ∷ xs) = false

module _ (env : Environment) (g : DependencyGraph) where
  -- `for dependency in self.required_dependencies(&name)`: all are registered, or the first that is
  -- not is an error.
  unfoldable pub push_required : Text → List Text → List Text → Run (List Text)
  push_required name [] pending = done pending
  push_required name (dependency ∷ rest) pending =
      let more = push_required name rest (pending ++ dependency ∷ []) in
      if not (has_service g dependency) then fails (missing_required name dependency) else more

  unfoldable pub push_wanted : List Text → List Text → List Text
  push_wanted [] pending = pending
  push_wanted (dependency ∷ rest) pending =
      push_wanted rest (if has_service g dependency then pending ++ dependency ∷ [] else pending)

  abbrev pub declared_wants : Text → List Text
  declared_wants name = elim (get g.services name) [
    | none ↦ []
    | some spec ↦ spec.dependencies.wants
  ]

  -- What one name adds to the queue: in `select_start_closure`, and in `required_closure`.
  unfoldable pub expand_start : Text → List Text → Run (List Text)
  expand_start name pending = do
    spec ← expect (get g.services name)
    pending' ← push_required name (required_dependencies env g name) pending
    done (push_wanted spec.dependencies.wants pending' ++ wanted_mount_dependencies env g name)

  unfoldable pub expand_required : Text → List Text → Run (List Text)
  expand_required name pending = push_required name (required_dependencies env g name) pending

  -- `while let Some(name) = pending.pop_front()`
  unfoldable pub walk : (Text → List Text → Run (List Text)) → ℕ → Walk → Run TextSet
  walk expand zero w = out_of_fuel
  walk expand (suc fuel) w = elim w.pending [
    | [] ↦ done w.taken
    | name ∷ rest ↦ elim (contains w.taken name) [
      | true ↦ walk expand fuel (record w { pending = rest })
      | false ↦ expand name rest >>= λ pending.
          walk expand fuel (record { taken = insert name w.taken; pending = pending })
    ]
  ]

  -- What one name can add to the queue, summed over the registry: rounds enough for both walks.
  unfoldable pub cost : Text → ℕ
  cost name =
      length (required_dependencies env g name)
      + length (declared_wants name)
      + length (wanted_mount_dependencies env g name)

  unfoldable pub total_cost : List Text → ℕ
  total_cost [] = 0
  total_cost (name ∷ names) = cost name + total_cost names

  unfoldable pub closure : (Text → List Text → Run (List Text)) → Text → Run TextSet
  unfolding walk total_cost
  closure expand root =
      if is_empty root
      then fails empty_root
      else if not (has_service g root)
      then fails (missing_root root)
      else walk expand (total_cost (keys g.services) + 2)
          (record { taken = []; pending = root ∷ [] })

  unfoldable pub required_closure : Text → Run TextSet
  unfolding closure expand_required
  required_closure root = closure expand_required root

  unfoldable pub select_start_closure : Text → Run TextSet
  unfolding closure expand_start
  select_start_closure root = closure expand_start root
