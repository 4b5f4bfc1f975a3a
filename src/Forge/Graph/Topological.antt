-- ===== src/Forge/Graph/Topological.antt =====
-- What `topological_order` returns (forge/parser/graph.py).
use specora_core.Prelude.{
  ℕ, zero, suc, ◌≤◌, ◌<◌, String, ◌≡◌, refl, ◌∙◌, true, false, ◌&&◌, ◌||◌, none, some, List, [],
  ◌∷◌, ◌++◌, arith, ◌==◌, eq_iff, eqb, if◌then◌else◌, not, mem, select, length, Distinct, Dict,
  lookup, Bool-cases, inl, inr,
}
use specora_core.Json.{ℤ, pos}
use specora_core.Forge.Graph.{
  DependencyGraph, is_zero, count_known, pop_min, relax, initial_counts, zero_keys, topo_loop,
  Order, sorted, cycle_error, out_of_fuel, insert_sorted, sort_texts, conclude, topological_order,
}
use specora_core.Forge.Graph.Counting.{
  missing, missing_place, missing_pos, missing_start, missing_zero,
}
use specora_core.Forge.Graph.WellFormed.{IsGraph}
use specora_core.Forge.Graph.Kahn.{
  known, deps, Follows, Invariant, rest, dependents, next_ready, Invariant-next,
}

-- Every contract stands once, and behind all of its dependencies that exist.
pub record IsCompileOrder (g : DependencyGraph) (order : List String) : Type 0 where
  pub distinct : Distinct order
  pub complete : (f : String) → mem f order ≡ mem f (known g)
  pub follows : Follows g [] order

-- The contracts that are reported: there are some, and each requires another of them.
pub record IsStuck (g : DependencyGraph) (stuck : List String) : Type 0 where
  pub one : String
  pub one_stuck : mem one stuck ≡ true
  pub exists : (f : String) → mem f stuck ≡ true → mem f (known g) ≡ true
  pub requires :
      (f : String)
      → mem f stuck ≡ true
      → (d : String) × (mem d (deps g f) ≡ true) × (mem d stuck ≡ true)

abbrev pub Outcome : DependencyGraph → Order → Type 0
Outcome g (sorted order) = IsCompileOrder g order
Outcome g (cycle_error stuck) = IsStuck g stuck
Outcome g out_of_fuel = ⊥

mem-insert_sorted :
    (f x : String) (xs : List String) → mem f (insert_sorted x xs) ≡ (x == f || mem f xs)
unfolding insert_sorted mem
mem-insert_sorted f x [] = refl
mem-insert_sorted f x (y ∷ xs) = ground (arith, mem-insert_sorted f x xs)

mem-sort_texts : (f : String) (xs : List String) → mem f (sort_texts xs) ≡ mem f xs
unfolding sort_texts mem
mem-sort_texts f [] = refl
mem-sort_texts f (x ∷ xs) =
    ground (arith, mem-insert_sorted f x (sort_texts xs), mem-sort_texts f xs)

mem-select-not :
    (f : String) (xs placed : List String)
    → mem f (select (λ x. not (mem x placed)) xs) ≡ (mem f xs && not (mem f placed))
unfolding mem
mem-select-not f [] placed = refl
mem-select-not f (x ∷ xs) placed = ground (arith, mem-select-not f xs placed, eq_iff x f)

module _ (g : DependencyGraph) where
  lookup-initial_counts :
      (f : String) (fs : List String)
      → lookup f (initial_counts g fs)
        ≡ (if mem f fs then some (pos (count_known (known g) (deps g f))) else none)
  unfolding initial_counts mem lookup
  lookup-initial_counts f [] = refl
  lookup-initial_counts f (x ∷ fs) = ground (arith, lookup-initial_counts f fs, eq_iff x f)

  mem-zero_keys :
      (f : String) (fs : List String)
      → mem f (zero_keys (initial_counts g fs))
        ≡ (mem f fs && eqb (count_known (known g) (deps g f)) 0)
  unfolding initial_counts zero_keys mem is_zero
  mem-zero_keys f [] = refl
  mem-zero_keys f (x ∷ fs) = ground (arith, mem-zero_keys f fs, eq_iff x f)

  zero_keys-Distinct : (fs : List String) → Distinct fs → Distinct (zero_keys (initial_counts g fs))
  unfolding initial_counts zero_keys mem
  zero_keys-Distinct [] u = tt
  zero_keys-Distinct (x ∷ fs) u = ground (arith, zero_keys-Distinct fs u.1, mem-zero_keys x fs)

  missing_all :
      (ns fs : List String)
      → ((f : String) → mem f fs ≡ true → mem f ns ≡ true)
      → missing ns [] fs ≡ length fs
  unfolding missing mem
  missing_all ns [] h = refl
  missing_all ns (x ∷ fs) h =
      ground (arith, h x, eq_iff x x, missing_all ns fs (λ f m. ground (arith, h f, m)))

  Invariant-start :
      IsGraph g
      → Invariant g (initial_counts g (known g)) (zero_keys (initial_counts g (known g))) []
  unfolding mem
  Invariant-start wf = record {
    counted = λ f k.
        ground (arith, lookup-initial_counts f (known g), missing_start (known g) (deps g f), k);
    uncounted = λ f k. ground (arith, lookup-initial_counts f (known g), k);
    waiting = λ f. ground (arith, mem-zero_keys f (known g), missing_start (known g) (deps g f));
    placed_known = λ f m. absurd (cc);
    placed_closed = λ f m. absurd (cc);
    ready_distinct = zero_keys-Distinct (known g) wf.nodes_distinct;
    placed_distinct = tt;
    ordered = tt;
    size = omega (arith, missing_all (known g) (known g) (λ f m. m));
  }

  module _ (wf : IsGraph g) where
    -- The loop ends with nothing ready, and with the invariant.
    topo_loop_total :
        (fuel : ℕ) (counts : Dict ℤ) (ready placed : List String)
        → missing (known g) placed (known g) < fuel
        → Invariant g counts ready placed
        → (result : List String) × (counts' : Dict ℤ) × (topo_loop g fuel counts ready placed
            ≡ some result)
          × Invariant g counts' [] result
    unfolding topo_loop
    topo_loop_total zero counts ready placed h inv = absurd (omega arith)
    topo_loop_total (suc fuel) counts [] placed h inv = (placed, counts, refl, inv)
    topo_loop_total (suc fuel) counts (x ∷ xs) placed h inv =
        let r = next_ready g wf counts x xs placed inv in
        topo_loop_total fuel
          (relax (dependents g wf counts x xs placed inv) counts
            (rest g wf counts x xs placed inv)).0
          _ (placed ++ (pop_min x xs).0 ∷ [])
          (omega (
            arith,
            missing_place (known g) placed (pop_min x xs).0 (known g) wf.nodes_distinct r.0 r.0 r.2,
          ))
          (Invariant-next g wf counts x xs placed inv)

    stuck_iff :
        (result : List String) (f : String)
        → mem f (sort_texts (select (λ x. not (mem x result)) (known g)))
          ≡ (mem f (known g) && not (mem f result))
    stuck_iff result f =
        mem-sort_texts f (select (λ x. not (mem x result)) (known g))
        ∙ mem-select-not f (known g) result

    -- At the end of the loop a contract that was not placed still misses a dependency.
    still_missing :
        (counts : Dict ℤ) (result : List String) (f : String)
        → Invariant g counts [] result
        → mem f (known g) ≡ true
        → mem f result ≡ false
        → 1 ≤ missing (known g) result (deps g f)
    unfolding mem
    still_missing counts result f inv k p = ground (arith, inv.waiting f)

    IsStuck-of_short :
        (counts : Dict ℤ) (result : List String)
        → Invariant g counts [] result
        → 1 ≤ missing (known g) result (known g)
        → IsStuck g (sort_texts (select (λ x. not (mem x result)) (known g)))
    IsStuck-of_short counts result inv h =
        let (one, m, k, p) = missing_pos (known g) result (known g) h in
        record {
          one = one;
          one_stuck = rw (stuck_iff result one, k, p);
          exists = λ f m. ground (arith, stuck_iff result f);
          requires = λ f m.
              let (d, e, n, q) = missing_pos (known g) result (deps g f) (
                still_missing counts result f inv (ground (arith, stuck_iff result f))
                  (ground (arith, stuck_iff result f))) in
              (d, e, rw (stuck_iff result d, n, q));
        }

    all_placed :
        (counts : Dict ℤ) (result : List String) (f : String)
        → Invariant g counts [] result
        → missing (known g) result (known g) ≡ 0
        → mem f result ≡ mem f (known g)
    all_placed counts result f inv h =
        ground (arith, missing_zero (known g) result (known g) f h, inv.placed_known f)

    conclude-Outcome :
        (counts : Dict ℤ) (result : List String)
        → Invariant g counts [] result
        → Outcome g (conclude (known g) (some result))
    unfolding conclude
    conclude-Outcome counts result inv =
        elim (Bool-cases (eqb (length result) (length (known g)))) [
          | inl e ↦ rw e (record {
            distinct = inv.placed_distinct;
            complete = λ f. all_placed counts result f inv (ground (arith, inv.size));
            follows = inv.ordered;
          })
          | inr e ↦ rw e (IsStuck-of_short counts result inv (ground (arith, inv.size)))
        ]

-- On a well-formed graph the computation always ends, either with a compilation order (every
-- contract once, each behind its existing dependencies) or with a cycle error that names a
-- non-empty set of contracts, each of which requires another member of the set.
pub topological_order-Outcome : (g : DependencyGraph) → IsGraph g → Outcome g (topological_order g)
unfolding topological_order
topological_order-Outcome g wf =
    let counts = initial_counts g (known g) in
    let (result, counts', e, inv) =
      topo_loop_total g wf (suc (length (known g))) counts (zero_keys counts) []
        (omega (arith, missing_all g (known g) (known g) (λ f m. m))) (Invariant-start g wf) in
    rw e (conclude-Outcome g wf counts' result inv)

-- A rank that falls along every dependency rules out a stuck set.
no_stuck :
    (g : DependencyGraph) (rank : String → ℕ)
    → ((f d : String) → mem d (deps g f) ≡ true → rank d < rank f)
    → (stuck : List String) → IsStuck g stuck
    → (bound : ℕ) (f : String) → rank f < bound
    → mem f stuck ≡ false
no_stuck g rank falls stuck h zero f b = absurd (omega arith)
no_stuck g rank falls stuck h (suc bound) f b = elim (Bool-cases (mem f stuck)) [
  | inr n ↦ n
  | inl m ↦
      let (d, e, s) = h.requires f m in
      let low : rank d < rank f = falls f d e in
      absurd (cc (s, no_stuck g rank falls stuck h bound d (omega arith)))
]

-- A well-formed graph without cycles, that is, with a rank that falls from each contract to each
-- of its dependencies, is never refused: a compilation order is returned.
pub topological_order_acyclic :
    (g : DependencyGraph) (rank : String → ℕ)
    → IsGraph g
    → ((f d : String) → mem d (deps g f) ≡ true → rank d < rank f)
    → (order : List String) × (topological_order g ≡ sorted order) × IsCompileOrder g order
topological_order_acyclic g rank wf falls =
    settle (topological_order g) refl (topological_order-Outcome g wf)
  where
    settle :
        (o : Order)
        → topological_order g ≡ o
        → Outcome g o
        → (order : List String) × (topological_order g ≡ sorted order) × IsCompileOrder g order
    settle (sorted order) e h = (order, e, h)
    settle (cycle_error stuck) e h =
        absurd
          (cc (h.one_stuck, no_stuck g rank falls stuck h (suc (rank h.one)) h.one (omega arith)))
    settle out_of_fuel e h = absurd h
