-- ===== src/Forge/Graph/Unresolved.antt =====
-- What `find_unresolved` finds (forge/parser/graph.py).
use specora_core.Prelude.{
  String, ◌≡◌, refl, true, false, List, [], ◌∷◌, ◌++◌, ◌↔◌, arith, ◌==◌, eq_iff, mem, Distinct,
  Dict, lookup, keys, Bool-cases, inl, inr,
}
use specora_core.Forge.Graph.{
  DependencyGraph, linked, find_unresolved, unresolved_in, unresolved_from, dependencies_of,
}
use specora_core.Forge.Graph.WellFormed.{IsGraph}

unresolved_from-nil :
    (known : List String) (f d : String) (ds : List String)
    → unresolved_from known f ds ≡ []
    → mem d ds ≡ true
    → mem d known ≡ true
unfolding unresolved_from mem
unresolved_from-nil known f d [] h m = cc
unresolved_from-nil known f d (x ∷ ds) h m =
    ground (arith, unresolved_from-nil known f d ds, eq_iff x d)

unresolved_from_resolved :
    (known : List String) (f : String) (ds : List String)
    → ((d : String) → mem d ds ≡ true → mem d known ≡ true)
    → unresolved_from known f ds ≡ []
unfolding unresolved_from mem
unresolved_from_resolved known f [] h = refl
unresolved_from_resolved known f (x ∷ ds) h =
    ground
      (arith, h x, eq_iff x x, unresolved_from_resolved known f ds (λ d m. ground (arith, h d, m)))

append-eq-nil {ℓ} : {A : Type ℓ} (xs ys : List A) → (xs ++ ys) ≡ [] → (xs ≡ []) × (ys ≡ [])
append-eq-nil [] ys h = (refl, h)
append-eq-nil (x ∷ xs) ys h = absurd (cc)

unresolved_in-nil :
    (known : List String) (es : Dict (List String)) (f d : String)
    → unresolved_in known es ≡ []
    → mem d (linked es f) ≡ true
    → mem d known ≡ true
unfolding unresolved_in linked lookup mem
unresolved_in-nil known [] f d h m = cc
unresolved_in-nil known ((k, ds) ∷ es) f d h m =
    let (p, q) = append-eq-nil (unresolved_from known k ds) (unresolved_in known es) h in
    elim (Bool-cases (k == f)) [
      | inl e ↦ unresolved_from-nil known k d ds p (rw (e, linked) at m)
      | inr e ↦ unresolved_in-nil known es f d q (rw (e, linked) at m)
    ]

linked_absent : (f : String) (es : Dict (List String)) → mem f (keys es) ≡ false → linked es f ≡ []
unfolding linked lookup mem
linked_absent f [] h = refl
linked_absent f ((k, ds) ∷ es) h = ground (arith, linked_absent f es)

unresolved_in_resolved :
    (known : List String) (es : Dict (List String))
    → Distinct (keys es)
    → ((f d : String) → mem d (linked es f) ≡ true → mem d known ≡ true)
    → unresolved_in known es ≡ []
unfolding unresolved_in linked lookup mem
unresolved_in_resolved known [] u h = refl
unresolved_in_resolved known ((k, ds) ∷ es) u h =
    rw (unresolved_from_resolved known k ds (λ d m. ground (arith, h k d, eq_iff k k))) (
      unresolved_in_resolved known es u.1 (λ f d m. elim (Bool-cases (k == f)) [
        | inl e ↦ ground (arith, h f d, eq_iff k f, linked_absent f es)
        | inr e ↦ ground (arith, h f d)
      ]))

-- On a well-formed graph, `find_unresolved` returns no error exactly when every edge of the graph leads
-- to a contract that exists.
pub find_unresolved_iff :
    (g : DependencyGraph)
    → IsGraph g
    → (find_unresolved g ≡ [])
      ↔ ((f d : String) → mem d (dependencies_of g f) ≡ true → mem d (keys g.nodes) ≡ true)
unfolding find_unresolved dependencies_of
find_unresolved_iff g wf = (
  λ h f d. unresolved_in-nil (keys g.nodes) g.edges f d h,
  unresolved_in_resolved (keys g.nodes) g.edges wf.edge_keys_distinct,
)
