-- ===== src/Graph/BestEffort/Round.antt =====
-- `plan_all_stop_best_effort`: one round of the loop.
use fractal_d.Base.{
  ℕ, zero, suc, ◌+◌, ◌<◌, ◌≡◌, ◌∙◌, ap, not, some, List, [], ◌∷◌, ◌++◌, arith, Text, text_eq,
  text_eq_iff, text_eq_refl, Bool-cases, inl, inr, if◌then◌else◌, length, length-append,
}
use fractal_d.BTree.Before.{contains-concat, IsDistinct-concat}
use fractal_d.BTree.Count.{count_by-set, count_by-congr}
use fractal_d.BTree.Map.{TextMap, get, put, keys, get-put, keys-put}
use fractal_d.BTree.Set.{TextSet, contains, IsDistinct, ascending-IsDistinct}
use fractal_d.Graph.BestEffort.{Unravel, Choice, round}
use fractal_d.Graph.BestEffort.Choose.{IsUnravelling, IsChoice, choose_total}
use fractal_d.Graph.Model.{done, expect, >>=-eq-done}
use fractal_d.Graph.Ordering.Edges.{edge, out, predecessors, IsConsistent, has-value}
use fractal_d.Graph.Sorting.{Sort, relax, lower}
use fractal_d.Graph.Sorting.Drain.{left}
use fractal_d.Graph.Sorting.Relax.{InStep, relax-InStep}

keys-lower :
    (s t : Sort) (x : Text) (d : ℕ) → lower s x d ≡ done t → keys t.indegree ≡ keys s.indegree
unfolding lower
keys-lower s t x zero h = cc
keys-lower s t x (suc d) h = ground (arith, h, keys-put s.indegree x d)

keys-relax : (xs : List Text) (s t : Sort) → relax xs s ≡ done t → keys t.indegree ≡ keys s.indegree
unfolding relax
keys-relax [] s t h = ground (arith, h)
keys-relax (x ∷ xs) s t h =
    let (d, e, f) = >>=-eq-done (expect (get s.indegree x)) _ h in
    let (s₁, e₁, f₁) = >>=-eq-done (lower s x d) _ f in
    keys-relax xs s₁ t f₁ ∙ keys-lower s s₁ x d e₁

module _ (selected : TextSet) (distinct : IsDistinct selected) where
  module _ (u : Unravel) (h : IsUnravelling selected u) (c : Choice)
      (k : IsChoice selected u.order c) where
    dependents : TextSet
    dependents = out c.ordering.edges c.name

    emptied : TextMap TextSet
    emptied = put c.name [] c.ordering.edges

    moved : Sort
    moved = record {
      indegree = c.ordering.indegree;
      ready = c.rest;
      order = u.order ++ c.name ∷ [];
    }

    at_name : get c.ordering.edges c.name ≡ some dependents
    unfolding dependents
    at_name =
        let (s, at) =
          has-value (get c.ordering.edges c.name) (k.consistent.sources c.name ∙ k.inside) in
        ground (arith, at)

    at_emptied :
        (a : Text) → get emptied a ≡ (if text_eq c.name a then some [] else get c.ordering.edges a)
    unfolding emptied
    at_emptied a = get-put c.ordering.edges c.name a [] dependents at_name

    due-emptied :
        (n : Text)
        → predecessors selected c.ordering.edges n
          ≡ predecessors selected emptied n + (if contains dependents n then 1 else 0)
    unfolding dependents contains
    due-emptied n = elim (Bool-cases (edge c.ordering.edges c.name n)) [
      | inl hit ↦ ground (
        arith,
        count_by-set (λ p. edge emptied p n) (λ p. edge c.ordering.edges p n) c.name selected
            distinct k.inside (ground (arith, at_emptied c.name, text_eq_refl c.name))
            (λ p. ground (arith, at_emptied p, text_eq_iff c.name p)),
      )
      | inr miss ↦ ground (
        arith,
        count_by-congr (λ p. edge emptied p n) (λ p. edge c.ordering.edges p n) selected
            (λ p _. ground (arith, at_emptied p, text_eq_iff c.name p)),
      )
    ]

    moved-InStep : InStep selected (predecessors selected emptied) dependents moved
    unfolding moved
    moved-InStep = record {
      keyed = k.consistent.targets;
      degrees = λ n m. k.consistent.counted n m ∙ due-emptied n;
      ready = λ n. ground (arith, k.ready n, contains-concat u.order c.name n);
      sorted = λ n m.
          ground
            (arith, k.sorted n, k.free, contains-concat u.order c.name n, text_eq_iff c.name n);
      ascending = k.ascending;
    }

    next : Sort → Unravel
    next s = record {
      ordering = record { edges = emptied; indegree = s.indegree };
      ready = s.ready;
      order = s.order;
    }

    next-IsConsistent :
        (s : Sort)
        → keys s.indegree ≡ keys c.ordering.indegree
        → InStep selected (predecessors selected emptied) [] s
        → IsConsistent selected (next s).ordering
    unfolding next contains
    next-IsConsistent s e i = record {
      sources =
          λ a. ground (arith, k.consistent.sources a, at_emptied a, at_name, text_eq_iff c.name a);
      targets = i.keyed;
      keyed = e ∙ k.consistent.keyed;
      inside = λ a b q. ground (arith, k.consistent.inside a b, at_emptied a);
      counted = λ n m. ground (arith, i.degrees n m);
      ascending = λ a. ground (arith, k.consistent.ascending a, at_emptied a);
    }

    left-next : left selected u.order ≡ suc (left selected (u.order ++ c.name ∷ []))
    left-next =
        count_by-set (λ n. not (contains (u.order ++ c.name ∷ []) n))
          (λ n. not (contains u.order n)) c.name selected distinct k.inside
          (ground (arith, contains-concat u.order c.name c.name, text_eq_refl c.name))
          (λ n. ground (arith, k.fresh, contains-concat u.order c.name n, text_eq_iff c.name n))

    next-IsUnravelling :
        (s : Sort)
        → keys s.indegree ≡ keys c.ordering.indegree
        → s.order ≡ u.order ++ c.name ∷ []
        → InStep selected (predecessors selected emptied) [] s
        → IsUnravelling selected (next s)
    unfolding next
    next-IsUnravelling s e o i = record {
      consistent = next-IsConsistent s e i;
      ready = i.ready;
      sorted = i.sorted;
      ascending = i.ascending;
      members = λ n m. ground (
        arith,
        o,
        ap (λ l. contains l n) o,
        contains-concat u.order c.name n,
        h.members n,
        k.inside,
        text_eq_iff c.name n,
      );
      unrepeated = rw o (IsDistinct-concat u.order c.name h.unrepeated k.fresh);
      balance = rw o (omega (arith, left-next, h.balance, length-append u.order (c.name ∷ [])));
    }

  -- One round puts one more name in order.
  pub round_total :
      (u : Unravel)
      → IsUnravelling selected u
      → length u.order < length selected
      → (t : Unravel) × (round u ≡ done t)
        × IsUnravelling selected t
        × (length t.order ≡ suc (length u.order))
  unfolding round next moved emptied dependents
  round_total u h more =
      let (c, e, k) = choose_total selected distinct u h more in
      let (s, e₁, o, i) =
        relax-InStep selected (predecessors selected (emptied u h c k)) (dependents u h c k)
          (moved u h c k)
          (ascending-IsDistinct (dependents u h c k) (k.consistent.ascending c.name))
          (λ n m. k.consistent.inside c.name n m) (moved-InStep u h c k) in
      let same = keys-relax (dependents u h c k) (moved u h c k) s e₁ in
      (
        next u h c k s,
        ground (arith, e, at_name u h c k, e₁),
        next-IsUnravelling u h c k s same o i,
        rw o (omega (arith, length-append u.order (c.name ∷ []))),
      )
