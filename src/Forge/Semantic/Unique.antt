-- ===== src/Forge/Semantic/Unique.antt =====
-- A second claim on an identifier is reported (`_validate_identifier_uniqueness` of
-- forge/ir/semantic.py).
use specora_core.Prelude.{
  String, ◌≡◌, ◌↔◌, refl, false, ◌||◌, List, [], ◌∷◌, map, ◌==◌, eq_iff, inl, inr, arith,
  Bool-cases, mem, Dict, lookup, keys, Distinct, mem-keys-put, lookup_of_mem-keys,
  mem-keys_of_lookup,
}
use specora_core.Prelude.Options.{Option-cases}
use specora_core.Forge.Ir.{EntityIr}
use specora_core.Forge.Semantic.{claim_error, claimed, check_unique}
use specora_core.Forge.Semantic.Reports.{append_iff}

-- No value of the list is a claimed one, and none stands twice.
Unclaimed : Dict String → List String → Type 0
Unclaimed claims [] = Unit
Unclaimed claims (v ∷ vs) = (mem v (keys claims) ≡ false) × Unclaimed claims vs

claim_iff :
    (kind path value : String) (e : EntityIr) (claims : Dict String)
    → (claim_error kind path value e (lookup value claims) ≡ []) ↔ (mem value (keys claims) ≡ false)
unfolding claim_error
claim_iff kind path value e claims = elim (Option-cases (lookup value claims)) [
  | inl h ↦ (
    λ k. elim (Bool-cases (mem value (keys claims))) [
      | inl m ↦ absurd (cc (h, (lookup_of_mem-keys value claims m).1))
      | inr m ↦ m
    ],
    λ k. rw (h, claim_error) refl,
  )
  | inr (owner, h) ↦ (
    λ k. absurd (cc (rw (h, claim_error) at k)),
    λ k. absurd (cc (k, mem-keys_of_lookup value owner claims h)),
  )
]

mem-keys-claimed :
    (v w fqn : String) (claims : Dict String)
    → mem v (keys claims) ≡ false
    → mem w (keys (claimed v fqn claims)) ≡ (v == w || mem w (keys claims))
unfolding claimed
mem-keys-claimed v w fqn claims h = rw h (mem-keys-put v w fqn claims)

Unclaimed-claimed :
    (v fqn : String) (claims : Dict String) (vs : List String)
    → mem v (keys claims) ≡ false
    → Unclaimed (claimed v fqn claims) vs ↔ (Unclaimed claims vs × (mem v vs ≡ false))
unfolding Unclaimed mem
Unclaimed-claimed v fqn claims [] h = (λ u. (tt, refl), λ u. tt)
Unclaimed-claimed v fqn claims (w ∷ vs) h =
    let (to, back) = Unclaimed-claimed v fqn claims vs h in
    let known = mem-keys-claimed v w fqn claims h in
    (
      λ (a, u).
          let (x, y) = to u in
          (
            (ground (arith, known, a, eq_iff v w), x),
            ground (arith, known, a, y, eq_iff v w, eq_iff w v),
          ),
      λ ((a, u), d). (
        ground (arith, known, a, d, eq_iff v w, eq_iff w v),
        back (u, ground (arith, d, eq_iff v w, eq_iff w v)),
      ),
    )

unique_iff :
    (kind path : String) (derive : EntityIr → String) (claims : Dict String) (es : List EntityIr)
    → (check_unique kind path derive claims es ≡ [])
      ↔ (Unclaimed claims (map derive es) × Distinct (map derive es))
unfolding check_unique Unclaimed
unique_iff kind path derive claims [] = (λ h. (tt, tt), λ h. refl)
unique_iff kind path derive claims (e ∷ es) =
    let (bare, found) =
      append_iff _ _ (claim_iff kind path (derive e) e claims)
        (unique_iff kind path derive (claimed (derive e) e.fqn claims) es) in
    (
      λ h.
          let (m, (u, d)) = bare h in
          let (x, y) = (Unclaimed-claimed (derive e) e.fqn claims (map derive es) m).0 u in
          ((m, x), (y, d)),
      λ ((m, u), (y, d)).
          found (m, ((Unclaimed-claimed (derive e) e.fqn claims (map derive es) m).1 (u, y), d)),
    )

Unclaimed-none : (vs : List String) → Unclaimed [] vs
unfolding Unclaimed mem
Unclaimed-none [] = tt
Unclaimed-none (v ∷ vs) = (refl, Unclaimed-none vs)

pub Distinct-iff :
    (kind path : String) (derive : EntityIr → String) (es : List EntityIr)
    → (check_unique kind path derive [] es ≡ []) ↔ Distinct (map derive es)
Distinct-iff kind path derive es =
    let (to, back) = unique_iff kind path derive [] es in
    (λ h. (to h).1, λ d. back (Unclaimed-none (map derive es), d))
