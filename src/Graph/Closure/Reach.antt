-- ===== src/Graph/Closure/Reach.antt =====
-- What one round of a walk adds to its queue, and the names that a walk should reach.
use fractal_d.Base.{
  ◌≤◌, ◌≡◌, refl, ap, sym, ◌∙◌, ◌⊎◌, inl, inr, Bool, true, false, List, [], ◌∷◌, ◌++◌, arith, Text,
  text_eq_iff, keep, length, length-append, Bool-cases, Option-cases,
}
use fractal_d.BTree.Before.{contains-append}
use fractal_d.BTree.Count.{contains_self, contains-tail}
use fractal_d.BTree.Map.{TextMap, get, keys, contains-keys}
use fractal_d.BTree.Set.{contains}
use fractal_d.Graph.Closure.{
  push_required, push_wanted, declared_wants, expand_start, expand_required, cost,
}
use fractal_d.Graph.Model.{
  DependencyGraph, Run, done, fails, missing_required, has_service, required_dependencies,
  wanted_mount_dependencies, serving_mounts, providers, normalized,
}
use fractal_d.Graph.Ordering.Edges.{has-value}
use fractal_d.Graph.Paths.{Environment, expanded_wants_mounts_for}
use fractal_d.Spec.{ServiceSpec}

-- The names that chains of links lead to.
pub data Reach (links : Text → List Text) (root : Text) : Text → Type 0 where
  here : Reach links root root
  step : {a b : Text} → Reach links root a → contains (links a) b ≡ true → Reach links root b

append_assoc {ℓ} : {A : Type ℓ} (xs ys zs : List A) → (xs ++ ys) ++ zs ≡ xs ++ (ys ++ zs)
append_assoc [] ys zs = refl
append_assoc (x ∷ xs) ys zs = ap (◌∷◌ x) (append_assoc xs ys zs)

append-nil {ℓ} : {A : Type ℓ} (xs : List A) → xs ++ [] ≡ xs
append-nil [] = refl
append-nil (x ∷ xs) = ap (◌∷◌ x) (append-nil xs)

contains-keep :
    (p : Text → Bool) (xs : List Text) (k : Text)
    → contains (keep p xs) k ≡ true
    → (p k ≡ true) × (contains xs k ≡ true)
unfolding contains
contains-keep p [] k h = cc
contains-keep p (x ∷ xs) k h = ground (arith, contains-keep p xs k, text_eq_iff x k)

length-keep : (p : Text → Bool) (xs : List Text) → length (keep p xs) ≤ length xs
length-keep p [] = omega arith
length-keep p (x ∷ xs) = ground (arith, length-keep p xs)

contains-serving_mounts :
    (name : Text) (requested : List (List Text)) (m : TextMap ServiceSpec) (k : Text)
    → contains (serving_mounts name requested m) k ≡ true
    → contains (keys m) k ≡ true
unfolding serving_mounts contains keys
contains-serving_mounts name requested [] k h = cc
contains-serving_mounts name requested ((x, s) ∷ m) k h =
    ground (arith, contains-serving_mounts name requested m k)

module _ (env : Environment) (g : DependencyGraph) where
  abbrev pub links_required : Text → List Text
  links_required name = required_dependencies env g name

  abbrev pub links_start : Text → List Text
  links_start name =
      required_dependencies env g name
      ++ (keep (has_service g) (declared_wants env g name) ++ wanted_mount_dependencies env g name)

  -- The first required name that is not registered, if there is one.
  abbrev pub Misses : Text → Text → Type 0
  Misses name d = (contains (required_dependencies env g name) d ≡ true) × (has_service g d ≡ false)

  providers-registered :
      (name : Text) (requested : List (List Text)) (k : Text)
      → contains (providers g name requested) k ≡ true
      → has_service g k ≡ true
  unfolding providers contains
  providers-registered name [] k h = cc
  providers-registered name (p ∷ ps) k h = contains-serving_mounts name (p ∷ ps) g.services k h

  wanted_mounts-registered :
      (name k : Text)
      → contains (wanted_mount_dependencies env g name) k ≡ true
      → has_service g k ≡ true
  unfolding wanted_mount_dependencies contains
  wanted_mounts-registered name k h = elim (Option-cases (get g.services name)) [
    | inl e ↦ ground (arith, e)
    | inr (spec, e) ↦
        providers-registered name (normalized (expanded_wants_mounts_for env spec)) k
          (rw (e, wanted_mount_dependencies) at h)
  ]

  push_required_total :
      (name : Text) (deps pending : List Text)
      → ((push_required env g name deps pending ≡ done (pending ++ deps))
          × ((d : Text) → contains deps d ≡ true → has_service g d ≡ true))
        ⊎ ((d : Text) × (push_required env g name deps pending ≡ fails (missing_required name d))
            × (contains deps d ≡ true)
            × (has_service g d ≡ false))
  unfolding push_required contains
  push_required_total name [] pending = inl (ap done (sym (append-nil pending)), λ d h. cc)
  push_required_total name (x ∷ xs) pending = elim (Bool-cases (has_service g x)) [
    | inr miss ↦ inr (x, ground arith, contains_self x xs, miss)
    | inl hit ↦ elim (push_required_total name xs (pending ++ x ∷ [])) [
      | inl (e, all) ↦ inl (
        ground (arith, e, append_assoc pending (x ∷ []) xs),
        λ d h. ground (arith, all d, text_eq_iff x d),
      )
      | inr (d, e, m, n) ↦ inr (d, ground (arith, e), contains-tail x d xs m, n)
    ]
  ]

  push_wanted_lem :
      (deps pending : List Text)
      → push_wanted env g deps pending ≡ pending ++ keep (has_service g) deps
  unfolding push_wanted
  push_wanted_lem [] pending = sym (append-nil pending)
  push_wanted_lem (x ∷ xs) pending = elim (Bool-cases (has_service g x)) [
    | inl hit ↦
        rw (hit, push_wanted_lem xs (pending ++ x ∷ []))
          (append_assoc pending (x ∷ []) (keep (has_service g) xs))
    | inr miss ↦ rw (miss, push_wanted_lem xs pending)
  ]

  -- One round of a walk at a registered name: it adds the links of the name, which are registered
  -- and cost no more than was set aside for it, or it fails at a required name that is missing.
  pub record Expands (expand : Text → List Text → Run (List Text)) (links : Text → List Text)
      : Type 0 where
    pub round :
        (name : Text) (pending : List Text)
        → has_service g name ≡ true
        → ((expand name pending ≡ done (pending ++ links name))
            × ((d : Text) → contains (links name) d ≡ true → has_service g d ≡ true))
          ⊎ ((d : Text) × (expand name pending ≡ fails (missing_required name d)) × Misses name d)
    pub cheap : (name : Text) → length (links name) ≤ cost env g name

  pub expand_required-Expands : Expands (expand_required env g) links_required
  unfolding expand_required cost
  expand_required-Expands = record {
    round = λ name pending h.
        elim (push_required_total name (required_dependencies env g name) pending) [
          | inl found ↦ inl found
          | inr (d, e, m, n) ↦ inr (d, e, (m, n))
        ];
    cheap = λ name. omega arith;
  }

  links_start-registered :
      (name : Text)
      → ((d : Text) → contains (required_dependencies env g name) d ≡ true → has_service g d ≡ true)
      → (d : Text) → contains (links_start name) d ≡ true
      → has_service g d ≡ true
  links_start-registered name all d h =
      let wants = keep (has_service g) (declared_wants env g name) in
      let mounts = wanted_mount_dependencies env g name in
      ground (
        arith,
        all d,
        contains-append (required_dependencies env g name) (wants ++ mounts) d,
        contains-append wants mounts d,
        contains-keep (has_service g) (declared_wants env g name) d,
        wanted_mounts-registered name d,
      )

  links_start-cheap : (name : Text) → length (links_start name) ≤ cost env g name
  unfolding cost
  links_start-cheap name =
      let wants = keep (has_service g) (declared_wants env g name) in
      let mounts = wanted_mount_dependencies env g name in
      omega (
        arith,
        length-append (required_dependencies env g name) (wants ++ mounts),
        length-append wants mounts,
        length-keep (has_service g) (declared_wants env g name),
      )

  expand_start_round :
      (name : Text) (pending : List Text)
      → has_service g name ≡ true
      → ((expand_start env g name pending ≡ done (pending ++ links_start name))
          × ((d : Text) → contains (links_start name) d ≡ true → has_service g d ≡ true))
        ⊎ ((d : Text) × (expand_start env g name pending ≡ fails (missing_required name d))
            × Misses name d)
  unfolding expand_start
  expand_start_round name pending h =
      let (spec, at) = has-value (get g.services name) (sym (contains-keys g.services name) ∙ h) in
      let required = required_dependencies env g name in
      let wants = keep (has_service g) spec.dependencies.wants in
      let mounts = wanted_mount_dependencies env g name in
      elim (push_required_total name required pending) [
        | inl (e, all) ↦ inl (
          ground (
            arith,
            at,
            e,
            push_wanted_lem spec.dependencies.wants (pending ++ required),
            append_assoc (pending ++ required) wants mounts,
            append_assoc pending required (wants ++ mounts),
          ),
          links_start-registered name all,
        )
        | inr (d, e, m, n) ↦ inr (d, ground (arith, at, e), (m, n))
      ]

  pub expand_start-Expands : Expands (expand_start env g) links_start
  expand_start-Expands = record { round = expand_start_round; cheap = links_start-cheap }

  pub links_start-required :
      (n d : Text)
      → contains (required_dependencies env g n) d ≡ true
      → contains (links_start n) d ≡ true
  links_start-required n d h =
      let others =
        keep (has_service g) (declared_wants env g n) ++ wanted_mount_dependencies env g n in
      ground (arith, h, contains-append (required_dependencies env g n) others d)

  pub Reach-start : {root n : Text} → Reach links_required root n → Reach links_start root n
  Reach-start here = here
  Reach-start (step {a} {b} r e) = step (Reach-start r) (links_start-required a b e)
