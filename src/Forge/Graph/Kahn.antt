-- ===== src/Forge/Graph/Kahn.antt =====
-- The invariant of the `while ready` loop of `topological_order`, and that each round keeps it.
use specora_core.Prelude.{
  suc, ◌+◌, String, ◌≡◌, sym, ◌∙◌, true, false, ◌&&◌, ◌||◌, none, some, List, [], ◌∷◌, ◌++◌, arith,
  ◌==◌, eq_iff, eqb, if◌then◌else◌, not, mem, mem-snoc, length, length-append, Distinct,
  Distinct-snoc, Dict, lookup, keys, Bool-cases, inl, inr,
}
use mathlib.Core.List.{append-nil, append_assoc}
use specora_core.Json.{ℤ, pos}
use specora_core.Forge.Graph.{DependencyGraph, linked, pred_ℤ, is_zero, pop_min, relax}
use specora_core.Forge.Graph.Counting.{
  missing, missing_ne, missing_place, missing_zero, missing-le_place,
}
use specora_core.Forge.Graph.Steps.{
  mem-pop_min, pop_min-Distinct, lookup-relax, mem-relax, relax-Distinct,
}
use specora_core.Forge.Graph.WellFormed.{IsGraph}

module _ (g : DependencyGraph) where
  abbrev pub known : List String
  known = keys g.nodes

  abbrev pub deps : String → List String
  deps f = linked g.edges f

  -- Each contract of the list has its dependencies, as far as they exist, in front of it.
  abbrev pub Follows : List String → List String → Type 0
  Follows before [] = Unit
  Follows before (f ∷ fs) =
      ((d : String) → mem d (deps f) ≡ true → mem d known ≡ true → mem d before ≡ true)
      × Follows (before ++ f ∷ []) fs

  Follows-snoc :
      (before fs : List String) (f : String)
      → Follows before fs
      → ((d : String) → mem d (deps f) ≡ true → mem d known ≡ true → mem d (before ++ fs) ≡ true)
      → Follows before (fs ++ f ∷ [])
  Follows-snoc before [] f h k = (λ d m n. rw append-nil at (k d m n), tt)
  Follows-snoc before (x ∷ fs) f h k =
      (h.0, Follows-snoc (before ++ x ∷ []) fs f h.1 (λ d m n. rw append_assoc (k d m n)))

  pub record Invariant (counts : Dict ℤ) (ready placed : List String) : Type 0 where
    pub counted :
        (f : String)
        → mem f known ≡ true
        → lookup f counts ≡ some (pos (missing known placed (deps f)))
    pub uncounted : (f : String) → mem f known ≡ false → lookup f counts ≡ none
    pub waiting :
        (f : String)
        → mem f ready
          ≡ (mem f known && (eqb (missing known placed (deps f)) 0 && not (mem f placed)))
    pub placed_known : (f : String) → mem f placed ≡ true → mem f known ≡ true
    pub placed_closed : (f : String) → mem f placed ≡ true → missing known placed (deps f) ≡ 0
    pub ready_distinct : Distinct ready
    pub placed_distinct : Distinct placed
    pub ordered : Follows [] placed
    pub size : length placed + missing known placed known ≡ length known

-- One round: the least ready contract is placed, and the counts of its dependents go down.
module _ (g : DependencyGraph) (wf : IsGraph g) (counts : Dict ℤ) (x : String)
    (xs placed : List String) (inv : Invariant g counts (x ∷ xs) placed) where
  abbrev pub next : String
  next = (pop_min x xs).0

  abbrev pub rest : List String
  rest = (pop_min x xs).1

  abbrev pub dependents : List String
  dependents = linked g.reverse_edges next

  pub next_ready :
      (mem next (known g) ≡ true)
      × (missing (known g) placed (deps g next) ≡ 0)
      × (mem next placed ≡ false)
  unfolding mem
  next_ready = ground (arith, inv.waiting next, mem-pop_min next x xs, eq_iff next next)

  rest_ready : (f : String) → mem f (x ∷ xs) ≡ (next == f || mem f rest)
  unfolding mem
  rest_ready f = mem-pop_min f x xs

  rest-Distinct : (mem next rest ≡ false) × Distinct rest
  rest-Distinct = pop_min-Distinct x xs inv.ready_distinct.0 inv.ready_distinct.1

  -- How the number of missing dependencies changes.
  missing-next :
      (f : String)
      → missing (known g) placed (deps g f) ≡ (
          if mem f dependents
          then suc (missing (known g) (placed ++ next ∷ []) (deps g f))
          else missing (known g) (placed ++ next ∷ []) (deps g f))
  missing-next f = elim (Bool-cases (mem next (deps g f))) [
    | inl m ↦ rw (sym (wf.mirror f next) ∙ m) (
        missing_place (known g) placed next (deps g f) (wf.edges_distinct f) m next_ready.0
          next_ready.2)
    | inr m ↦ rw (sym (wf.mirror f next) ∙ m) (sym (missing_ne (known g) placed next (deps g f) m))
  ]

  -- A contract that waits for nothing does not depend on the one that is placed now.
  not_dependent : (f : String) → missing (known g) placed (deps g f) ≡ 0 → mem f dependents ≡ false
  not_dependent f h = ground (arith, missing-next f)

  counted_next :
      (f : String)
      → mem f (known g) ≡ true
      → lookup f (relax dependents counts rest).0
        ≡ some (pos (missing (known g) (placed ++ next ∷ []) (deps g f)))
  unfolding pred_ℤ
  counted_next f k =
      rw (lookup-relax dependents counts rest f (wf.reverse_distinct next))
        (ground (arith, inv.counted f k, missing-next f))

  waiting_next :
      (f : String)
      → mem f (relax dependents counts rest).1 ≡ (
          mem f (known g)
          && (eqb (missing (known g) (placed ++ next ∷ []) (deps g f)) 0
              && not (mem f (placed ++ next ∷ []))))
  unfolding pred_ℤ is_zero
  waiting_next f = elim (Bool-cases (mem f (known g))) [
    | inl k ↦ rw (mem-relax dependents counts rest f (wf.reverse_distinct next)) (
        ground (
          arith,
          k,
          inv.counted f k,
          inv.waiting f,
          inv.placed_closed f,
          rest_ready f,
          rest-Distinct,
          missing-next f,
          next_ready,
          mem-snoc f next placed,
          eq_iff next f,
        ))
    | inr k ↦
        rw (mem-relax dependents counts rest f (wf.reverse_distinct next))
          (ground (arith, k, inv.uncounted f k, inv.waiting f, rest_ready f))
  ]

  pub Invariant-next :
      Invariant g
        (relax dependents counts rest).0
        (relax dependents counts rest).1
        (placed ++ next ∷ [])
  Invariant-next = record {
    counted = counted_next;
    uncounted = λ f k.
        rw (lookup-relax dependents counts rest f (wf.reverse_distinct next))
          (ground (arith, inv.uncounted f k));
    waiting = waiting_next;
    placed_known = λ f m.
        ground (arith, mem-snoc f next placed, eq_iff next f, inv.placed_known f, next_ready);
    placed_closed = λ f m. ground (
      arith,
      mem-snoc f next placed,
      eq_iff next f,
      inv.placed_closed f,
      next_ready,
      missing-le_place (known g) placed next (deps g f),
    );
    ready_distinct =
        relax-Distinct dependents counts rest (wf.reverse_distinct next) rest-Distinct.1
          (λ f m. not_dependent f (ground (arith, inv.waiting f, rest_ready f)));
    placed_distinct = Distinct-snoc next placed inv.placed_distinct next_ready.2;
    ordered =
        Follows-snoc g [] placed next inv.ordered
          (λ d. missing_zero (known g) placed (deps g next) d next_ready.1);
    size = omega (
      arith,
      inv.size,
      length-append placed (next ∷ []),
      missing_place (known g) placed next (known g) wf.nodes_distinct next_ready.0 next_ready.0
          next_ready.2,
    );
  }
