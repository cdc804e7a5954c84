-- ===== src/Graph/Ordering/Build.antt =====
-- `ordering_graph`: the edges that it has.
use fractal_d.Base.{
  ℕ, ◌≡◌, refl, Bool, true, ◌&&◌, ◌||◌, none, some, List, [], ◌∷◌, arith, Text, text_eq,
  text_eq_iff, Bool-cases, inl, inr,
}
use fractal_d.BTree.Map.{get, has_value, constant, get-constant, keys-constant}
use fractal_d.BTree.Set.{TextSet, contains, IsDistinct}
use fractal_d.BTree.Count.{contains_self, contains-tail, count_by-zero}
use fractal_d.Graph.Model.{DependencyGraph, done, required_dependencies, wanted_dependencies}
use fractal_d.Graph.Ordering.{
  Ordering, add_edges_to, add_edges_from, add_service, add_services, ordering_graph,
}
use fractal_d.Graph.Ordering.Edges.{edge, IsConsistent, add_edge-Added, has-value}
use fractal_d.Graph.Paths.{Environment}
use fractal_d.Spec.{DependencySet}

-- The edges grew by exactly the pairs that pass `new`.
pub record Grown (selected : TextSet) (o : Ordering) (new : Text → Text → Bool) (t : Ordering)
    : Type 0 where
  pub consistent : IsConsistent selected t
  pub exact : (a b : Text) → edge t.edges a b ≡ (edge o.edges a b || new a b)

module _ (selected : TextSet) (distinct : IsDistinct selected) where
  abbrev pub to_name : Text → List Text → Text → Text → Bool
  to_name name deps a b = text_eq name b && contains selected a && contains deps a

  abbrev pub from_name : Text → List Text → Text → Text → Bool
  from_name name deps a b = text_eq name a && contains selected b && contains deps b

  pub add_edges_to-Grown :
      (name : Text) (deps : List Text) (o : Ordering)
      → contains selected name ≡ true
      → IsConsistent selected o
      → (t : Ordering) × (add_edges_to selected name deps o ≡ done t)
        × Grown selected o (to_name name deps) t
  unfolding add_edges_to contains
  add_edges_to-Grown name [] o m c =
      (o, refl, record { consistent = c; exact = λ a b. ground arith })
  add_edges_to-Grown name (d ∷ deps) o m c = elim (Bool-cases (contains selected d)) [
    | inl hit ↦
        let (o₁, e₁, g₁) = add_edge-Added selected o d name distinct c hit m in
        let (t, e, g) = add_edges_to-Grown name deps o₁ m g₁.consistent in
        (
          t,
          ground (arith, e₁, e),
          record {
            consistent = g.consistent;
            exact = λ a b.
                ground (arith, g.exact a b, g₁.exact a b, text_eq_iff d a, text_eq_iff name b);
          },
        )
    | inr miss ↦
        let (t, e, g) = add_edges_to-Grown name deps o m c in
        (
          t,
          ground (arith, e),
          record {
            consistent = g.consistent;
            exact = λ a b. ground (arith, g.exact a b, text_eq_iff d a);
          },
        )
  ]

  pub add_edges_from-Grown :
      (name : Text) (deps : List Text) (o : Ordering)
      → contains selected name ≡ true
      → IsConsistent selected o
      → (t : Ordering) × (add_edges_from selected name deps o ≡ done t)
        × Grown selected o (from_name name deps) t
  unfolding add_edges_from contains
  add_edges_from-Grown name [] o m c =
      (o, refl, record { consistent = c; exact = λ a b. ground arith })
  add_edges_from-Grown name (d ∷ deps) o m c = elim (Bool-cases (contains selected d)) [
    | inl hit ↦
        let (o₁, e₁, g₁) = add_edge-Added selected o name d distinct c m hit in
        let (t, e, g) = add_edges_from-Grown name deps o₁ m g₁.consistent in
        (
          t,
          ground (arith, e₁, e),
          record {
            consistent = g.consistent;
            exact = λ a b.
                ground (arith, g.exact a b, g₁.exact a b, text_eq_iff d b, text_eq_iff name a);
          },
        )
    | inr miss ↦
        let (t, e, g) = add_edges_from-Grown name deps o m c in
        (
          t,
          ground (arith, e),
          record {
            consistent = g.consistent;
            exact = λ a b. ground (arith, g.exact a b, text_eq_iff d b);
          },
        )
  ]

-- A set of the descriptor of `name`; empty if there is none.
abbrev pub declared : DependencyGraph → (DependencySet → TextSet) → Text → TextSet
declared g field name = elim (get g.services name) [
  | none ↦ []
  | some spec ↦ field spec.dependencies
]

module _ (env : Environment) (g : DependencyGraph) where
  -- `a` stands before `b` by a dependency that `b` declares.
  abbrev pub needs : Text → Text → Bool
  needs b a =
      contains (required_dependencies env g b) a
      || contains (wanted_dependencies env g b) a
      || contains (declared g (λ d. d.after) b) a
      || contains (declared g (λ d. d.requisite) b) a

  -- `a` must come before `b`: the constraints of the services, in one formula.
  abbrev pub precedes : Text → Text → Bool
  precedes a b = needs b a || contains (declared g (λ d. d.before) a) b

  module _ (selected : TextSet) (distinct : IsDistinct selected) where
    abbrev pub of_service : Text → Text → Text → Bool
    of_service name a b =
        text_eq name b && contains selected a && needs name a
        || text_eq name a && contains selected b && contains (declared g (λ d. d.before) name) b

    pub add_service-Grown :
        (name : Text) (o : Ordering)
        → contains selected name ≡ true
        → has_value (get g.services name) ≡ true
        → IsConsistent selected o
        → (t : Ordering) × (add_service env g selected name o ≡ done t)
          × Grown selected o (of_service name) t
    unfolding add_service contains
    add_service-Grown name o m h c =
        let (spec, at) = has-value (get g.services name) h in
        let into =
          λ (deps : List Text) (o : Ordering). add_edges_to-Grown selected distinct name deps o m in
        let from = λ (deps : List Text) (o : Ordering).
          add_edges_from-Grown selected distinct name deps o m in
        let (o₁, e₁, g₁) = into (required_dependencies env g name) o c in
        let (o₂, e₂, g₂) = into (wanted_dependencies env g name) o₁ g₁.consistent in
        let (o₃, e₃, g₃) = into [] o₂ g₂.consistent in
        let (o₄, e₄, g₄) = from [] o₃ g₃.consistent in
        let (o₅, e₅, g₅) = into spec.dependencies.after o₄ g₄.consistent in
        let (o₆, e₆, g₆) = from spec.dependencies.before o₅ g₅.consistent in
        let (o₇, e₇, g₇) = into spec.dependencies.requisite o₆ g₆.consistent in
        (
          o₇,
          ground (arith, at, e₁, e₂, e₃, e₄, e₅, e₆, e₇),
          record {
            consistent = g₇.consistent;
            exact = λ a b. ground (
              arith,
              at,
              g₇.exact a b,
              g₆.exact a b,
              g₅.exact a b,
              g₄.exact a b,
              g₃.exact a b,
              g₂.exact a b,
              g₁.exact a b,
            );
          },
        )

    abbrev pub of_services : List Text → Text → Text → Bool
    of_services names a b =
        contains selected a && contains names b && needs b a
        || contains names a && contains selected b && contains (declared g (λ d. d.before) a) b

    pub add_services-Grown :
        (names : List Text) (o : Ordering)
        → ((n : Text) → contains names n ≡ true → contains selected n ≡ true)
        → ((n : Text) → contains selected n ≡ true → has_value (get g.services n) ≡ true)
        → IsConsistent selected o
        → (t : Ordering) × (add_services env g selected names o ≡ done t)
          × Grown selected o (of_services names) t
    unfolding add_services contains
    add_services-Grown [] o s r c =
        (o, refl, record { consistent = c; exact = λ a b. ground arith })
    add_services-Grown (name ∷ names) o s r c =
        let m = s name (contains_self name names) in
        let (o₁, e₁, g₁) = add_service-Grown name o m (r name m) c in
        let (t, e, g₂) =
          add_services-Grown names o₁ (λ n h. s n (contains-tail name n names h)) r g₁.consistent in
        (
          t,
          ground (arith, e₁, e),
          record {
            consistent = g₂.consistent;
            exact = λ a b.
                ground (arith, g₂.exact a b, g₁.exact a b, text_eq_iff name a, text_eq_iff name b);
          },
        )

    abbrev pub blank : Ordering
    blank = record { edges = constant selected []; indegree = constant selected 0 }

    blank-IsConsistent : IsConsistent selected blank
    unfolding contains
    blank-IsConsistent = record {
      sources = λ a. ground (arith, get-constant {V = TextSet} selected [] a);
      targets = λ a. ground (arith, get-constant {V = ℕ} selected 0 a);
      keyed = keys-constant {V = ℕ} selected 0;
      inside = λ a b e. ground (arith, get-constant {V = TextSet} selected [] a);
      counted = λ n m. ground (
        arith,
        get-constant {V = ℕ} selected 0 n,
        count_by-zero (λ p. edge blank.edges p n) selected
            (λ p _. ground (arith, get-constant {V = TextSet} selected [] p)),
      );
      ascending = λ a. ground (arith, get-constant {V = TextSet} selected [] a);
    }

    -- Over distinct registered names `ordering_graph` ends without a panic. Its edges are exactly
    -- the constraints between selected names, and its indegrees count them.
    pub ordering_graph_exact :
        ((n : Text) → contains selected n ≡ true → has_value (get g.services n) ≡ true)
        → (t : Ordering) × (ordering_graph env g selected ≡ done t)
          × IsConsistent selected t
          × ((a b : Text)
              → edge t.edges a b ≡ (contains selected a && contains selected b && precedes a b))
    unfolding ordering_graph contains
    ordering_graph_exact r =
        let (t, e, grown) = add_services-Grown selected blank (λ n h. h) r blank-IsConsistent in
        (
          t,
          e,
          grown.consistent,
          λ a b. ground (arith, grown.exact a b, get-constant {V = TextSet} selected [] a),
        )
