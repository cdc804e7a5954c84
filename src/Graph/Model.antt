-- ===== src/Graph/Model.antt =====
-- crates/fractald-core/src/graph.rs: the registry of services and the dependencies that it derives.
-- A planning function may return an error, and it may panic at an `expect`, at an index or in a
-- subtraction: `panics` is that outcome, and `out_of_fuel` is a loop that did not end in its fuel.
use fractal_d.Base.{
  ◌≡◌, refl, Bool, true, false, not, ◌&&◌, ◌||◌, Option, none, some, List, [], ◌∷◌, ◌++◌, Text,
  text_eq, if◌then◌else◌,
}
use fractal_d.BTree.Map.{TextMap, get, insert_key, keys}
use fractal_d.BTree.Set.{TextSet, contains, extend}
use fractal_d.Graph.Paths.{
  Environment, normalize_absolute_path, path_starts_with, expanded_requires_mounts_for,
  expanded_wants_mounts_for,
}
use fractal_d.Spec.{ServiceSpec, ServiceType}

pub record DependencyGraph : Type 0 where
  pub services : TextMap ServiceSpec

pub data GraphError : Type 0 where
  duplicate_service : Text → GraphError
  empty_root : GraphError
  missing_root : Text → GraphError
  missing_required : Text → Text → GraphError
  cycle : List Text → GraphError

pub data Run {ℓ} (A : Type ℓ) : Type ℓ where
  done : A → Run A
  fails : GraphError → Run A
  panics out_of_fuel : Run A

infixl 5 ◌>>=◌
abbrev pub ◌>>=◌ {ℓ κ} : {A : Type ℓ} {B : Type κ} → Run A → (A → Run B) → Run B
done a >>= f = f a
fails e >>= f = fails e
panics >>= f = panics
out_of_fuel >>= f = out_of_fuel

-- Inversion of a bind that succeeds.
pub >>=-eq-done {ℓ κ} :
    {A : Type ℓ} {B : Type κ} (m : Run A) (f : A → Run B) {b : B}
    → (m >>= f) ≡ done b
    → (a : A) × (m ≡ done a) × (f a ≡ done b)
>>=-eq-done (done a) f h = (a, refl, h)
>>=-eq-done (fails e) f h = cc
>>=-eq-done panics f h = cc
>>=-eq-done out_of_fuel f h = cc

-- An `expect` on an option, or an index.
abbrev pub expect {ℓ} : {A : Type ℓ} → Option A → Run A
expect none = panics
expect (some a) = done a

abbrev pub has_service : DependencyGraph → Text → Bool
has_service g name = contains (keys g.services) name

unfoldable pub add : DependencyGraph → ServiceSpec → Run DependencyGraph
add g spec =
    if has_service g spec.name
    then fails (duplicate_service spec.name)
    else done (record g { services = insert_key spec.name spec g.services })

abbrev pub is_mount : ServiceType → Bool
is_mount ServiceType.mount = true
is_mount other = false

-- `filter_map` by `normalize_absolute_path`
unfoldable pub normalized : List Text → List (List Text)
normalized [] = []
normalized (path ∷ paths) = elim (normalize_absolute_path path) [
  | none ↦ normalized paths
  | some p ↦ p ∷ normalized paths
]

-- `requested_paths.iter().any(|path| path.starts_with(&mount_point))`
unfoldable pub any_below : List (List Text) → List Text → Bool
any_below [] mount_point = false
any_below (path ∷ paths) mount_point =
    path_starts_with path mount_point || any_below paths mount_point

-- Whether the service `mount` is a mount, other than `name`, that holds one of the paths.
unfoldable pub serves : Text → List (List Text) → Text → ServiceSpec → Bool
serves name requested mount_name mount =
    not (text_eq mount_name name) && is_mount mount.service_type && elim mount.mount_where [
      | none ↦ false
      | some path ↦ elim (normalize_absolute_path path) [
        | none ↦ false
        | some mount_point ↦ any_below requested mount_point
      ]
    ]

unfoldable pub serving_mounts : Text → List (List Text) → TextMap ServiceSpec → TextSet
serving_mounts name requested [] = []
serving_mounts name requested ((mount_name, mount) ∷ services) =
    let rest = serving_mounts name requested services in
    if serves name requested mount_name mount then mount_name ∷ rest else rest

unfoldable pub providers : DependencyGraph → Text → List (List Text) → TextSet
providers g name requested = elim requested [
  | [] ↦ []
  | path ∷ paths ↦ serving_mounts name (path ∷ paths) g.services
]

-- The mount point of the service itself, which is requested too if it is a mount.
unfoldable pub own_mount : ServiceSpec → List (List Text)
own_mount service =
    if is_mount service.service_type
    then elim service.mount_where [ none ↦ [] | some path ↦ normalized (path ∷ []) ]
    else []

module _ (env : Environment) (g : DependencyGraph) where
  unfoldable pub mount_dependencies : Text → TextSet
  mount_dependencies name = elim (get g.services name) [
    | none ↦ []
    | some service ↦
        providers g name
          (normalized (expanded_requires_mounts_for env service) ++ own_mount service)
  ]

  unfoldable pub wanted_mount_dependencies : Text → TextSet
  wanted_mount_dependencies name = elim (get g.services name) [
    | none ↦ []
    | some service ↦ providers g name (normalized (expanded_wants_mounts_for env service))
  ]

  -- The four synthesised sets (`default_required_dependencies` and the like) are empty in the source.
  abbrev pub default_dependencies : Text → TextSet
  default_dependencies name = []

  unfoldable pub required_dependencies : Text → TextSet
  required_dependencies name = elim (get g.services name) [
    | none ↦ extend (extend [] (default_dependencies name)) (mount_dependencies name)
    | some service ↦
        extend
          (extend (extend service.dependencies.requires (default_dependencies name))
            service.dependencies.binds_to)
          (mount_dependencies name)
  ]

  unfoldable pub conflict_dependencies : Text → TextSet
  conflict_dependencies name = elim (get g.services name) [
    | none ↦ extend [] (default_dependencies name)
    | some service ↦ extend service.dependencies.conflicts (default_dependencies name)
  ]

  unfoldable pub wanted_dependencies : Text → TextSet
  wanted_dependencies name = elim (get g.services name) [
    | none ↦ extend [] (wanted_mount_dependencies name)
    | some service ↦ extend service.dependencies.wants (wanted_mount_dependencies name)
  ]
