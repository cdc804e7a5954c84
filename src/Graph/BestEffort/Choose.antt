-- ===== src/Graph/BestEffort/Choose.antt =====
-- `plan_all_stop_best_effort`: the choice of the next service.
use fractal_d.Base.{
  List-cases, ℕ, ◌+◌, ◌<◌, ◌≡◌, refl, ◌∙◌, ap, subst, ◌⊎◌, true, false, not, ◌&&◌, Option, none,
  some, List, [], ◌∷◌, arith, Text, text_eq, text_eq_iff, inl, inr, length, ◌==◌,
}
use fractal_d.BTree.Count.{count_by-pos}
use fractal_d.BTree.Map.{TextMap, get, keys, contains-keys}
use fractal_d.BTree.Set.{TextSet, contains, IsDistinct, IsAscending, not_contains_of_Above}
use fractal_d.Graph.BestEffort.{Unravel, Choice, choose, last_waiting}
use fractal_d.Graph.BestEffort.Cut.{freed}
use fractal_d.Graph.Model.{done}
use fractal_d.Graph.Ordering.Edges.{degree, IsConsistent}
use fractal_d.Graph.Sorting.Drain.{left}

-- What holds between two rounds. A name is ready when no edge leads to it and it is not in the order.
pub record IsUnravelling (selected : TextSet) (u : Unravel) : Type 0 where
  pub consistent : IsConsistent selected u.ordering
  pub ready :
      (n : Text)
      → contains u.ready n
        ≡ (contains selected n && not (contains u.order n) && (degree u.ordering.indegree n == 0))
  pub sorted : (n : Text) → contains u.order n ≡ true → degree u.ordering.indegree n ≡ 0
  pub ascending : IsAscending u.ready
  pub members : (n : Text) → contains u.order n ≡ true → contains selected n ≡ true
  pub unrepeated : IsDistinct u.order
  pub balance : left selected u.order + length u.order ≡ length selected

-- What holds of the choice.
pub record IsChoice (selected : TextSet) (order : List Text) (c : Choice) : Type 0 where
  pub consistent : IsConsistent selected c.ordering
  pub inside : contains selected c.name ≡ true
  pub fresh : contains order c.name ≡ false
  pub free : degree c.ordering.indegree c.name ≡ 0
  pub ready :
      (n : Text)
      → contains c.rest n ≡ (
          contains selected n
          && not (contains order n)
          && not (text_eq c.name n)
          && (degree c.ordering.indegree n == 0))
  pub sorted : (n : Text) → contains order n ≡ true → degree c.ordering.indegree n ≡ 0
  pub ascending : IsAscending c.rest

Option-cases {ℓ} : {A : Type ℓ} (o : Option A) → (o ≡ none) ⊎ ((a : A) × (o ≡ some a))
Option-cases none = inl refl
Option-cases (some a) = inr (a, refl)

last_waiting-none : (m : TextMap ℕ) (n : Text) → last_waiting m ≡ none → degree m n ≡ 0
unfolding last_waiting get
last_waiting-none [] n h = refl
last_waiting-none ((k, e) ∷ m) n h = elim (Option-cases (last_waiting m)) [
  | inl nowhere ↦ ground (arith, nowhere, last_waiting-none m n nowhere)
  | inr (y, found) ↦ absurd (ground (arith, found, h))
]

last_waiting-some :
    (m : TextMap ℕ) (x : Text) → IsDistinct (keys m) → last_waiting m ≡ some x → 0 < degree m x
unfolding last_waiting get keys
last_waiting-some [] x d h = cc
last_waiting-some ((k, e) ∷ m) x d h = elim (Option-cases (last_waiting m)) [
  | inl nowhere ↦ ground (arith, nowhere, text_eq_iff k x)
  | inr (y, found) ↦
      let same : y ≡ x = ground (arith, found, h) in
      let there = last_waiting-some m x d.1 (found ∙ ap some same) in
      ground (arith, there, d.0, contains-keys m x, text_eq_iff k x)
]

module _ (selected : TextSet) (distinct : IsDistinct selected) (u : Unravel)
    (h : IsUnravelling selected u) (more : length u.order < length selected) where
  -- A name that is not in the order yet.
  some_left : (n : Text) × (contains selected n ≡ true) × (contains u.order n ≡ false)
  some_left =
      let (n, m, f) =
        count_by-pos (λ n. not (contains u.order n)) selected (omega (arith, h.balance)) in
      (n, m, ground arith)

  waiting : u.ready ≡ [] → (x : Text) × (last_waiting u.ordering.indegree ≡ some x)
  unfolding contains
  waiting e = elim (Option-cases (last_waiting u.ordering.indegree)) [
    | inr found ↦ found
    | inl nowhere ↦
        let (n, m, f) = some_left in
        let k = ap (λ l. contains l n) e in
        absurd (ground (arith, k, h.ready n, last_waiting-none u.ordering.indegree n nowhere))
  ]

  choose_forced :
      u.ready ≡ [] → (c : Choice) × (choose u.ordering [] ≡ done c) × IsChoice selected u.order c
  unfolding choose contains
  choose_forced e =
      let (x, found) = waiting e in
      let busy = last_waiting-some u.ordering.indegree x (rw h.consistent.keyed distinct) found in
      let m : contains selected x ≡ true = ground (arith, h.consistent.targets x, busy) in
      let (t, f, k, z) = freed selected x u.ordering distinct m h.consistent in
      (
        record { name = x; rest = []; ordering = t },
        ground (arith, found, f),
        record {
          consistent = k.consistent;
          inside = m;
          fresh = ground (arith, h.sorted x, busy);
          free = z;
          ready = λ n.
              let r : contains u.ready n ≡ false = rw e in
              ground (arith, h.ready n, k.degrees n, text_eq_iff x n);
          sorted = λ n s. ground (arith, h.sorted n s, k.degrees n, z, text_eq_iff n x);
          ascending = tt;
        },
      )

  choose_ready :
      (x : Text) (rest : TextSet)
      → u.ready ≡ x ∷ rest
      → (c : Choice) × (choose u.ordering (x ∷ rest) ≡ done c) × IsChoice selected u.order c
  unfolding choose contains
  choose_ready x rest e =
      let a : IsAscending (x ∷ rest) = subst IsAscending e h.ascending in
      let both = λ (n : Text).
        subst
          (λ l. contains l n ≡ (
            contains selected n && not (contains u.order n) && (degree u.ordering.indegree n == 0)))
          e (h.ready n) in
      (
        record { name = x; rest = rest; ordering = u.ordering },
        refl,
        record {
          consistent = h.consistent;
          inside = ground (arith, both x, text_eq_iff x x);
          fresh = ground (arith, both x, text_eq_iff x x);
          free = ground (arith, both x, text_eq_iff x x);
          ready = λ n. ground (arith, both n, not_contains_of_Above x rest a.0, text_eq_iff x n);
          sorted = h.sorted;
          ascending = a.1;
        },
      )

  -- While services are left, one is chosen without a panic.
  pub choose_total :
      (c : Choice) × (choose u.ordering u.ready ≡ done c) × IsChoice selected u.order c
  choose_total = elim (List-cases u.ready) [
    | inl empty ↦ let (c, e, k) = choose_forced empty in (c, ap (choose u.ordering) empty ∙ e, k)
    | inr (x, rest, next) ↦
        let (c, e, k) = choose_ready x rest next in (c, ap (choose u.ordering) next ∙ e, k)
  ]
