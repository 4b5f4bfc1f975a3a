-- ===== src/Forge/Semantic/Reports.antt =====
-- The empty list of errors, through the combinators of the checks (forge/ir/semantic.py).
use specora_core.Prelude.{
  String, ◌≡◌, ◌↔◌, refl, Bool, true, false, ◌||◌, List, [], ◌∷◌, ◌++◌, ◌==◌, eq_iff, inl, inr, ◌⊎◌,
  arith, Bool-cases, All,
}
use specora_core.Forge.Semantic.{SemanticValidationError, each, demand}

module _ {ℓ κ} {A : Type ℓ} {B : Type κ} where
  pub both_iff {ι μ} : {C : Type ι} {D : Type μ} → (A ↔ B) → (C ↔ D) → ((A × C) ↔ (B × D))
  both_iff f g = (λ p. (f.0 p.0, g.0 p.1), λ p. (f.1 p.0, g.1 p.1))

  pub trans_iff {ι} : {C : Type ι} → (A ↔ B) → (B ↔ C) → (A ↔ C)
  trans_iff f g = (λ a. g.0 (f.0 a), λ c. f.1 (g.1 c))

pub append-nil_iff :
    (xs ys : List SemanticValidationError) → (xs ++ ys ≡ []) ↔ ((xs ≡ []) × (ys ≡ []))
append-nil_iff [] ys = (λ h. (refl, h), λ h. h.1)
append-nil_iff (x ∷ xs) ys = (λ h. absurd (cc h), λ h. absurd (cc (h.0)))

pub demand_iff : (test : Bool) (e : SemanticValidationError) → (demand test e ≡ []) ↔ (test ≡ true)
unfolding demand
demand_iff true e = (λ h. refl, λ h. refl)
demand_iff false e = (λ h. absurd (cc h), λ h. absurd (cc h))

pub append_iff {κ μ} :
    {P : Type κ} {Q : Type μ} (xs ys : List SemanticValidationError)
    → ((xs ≡ []) ↔ P)
    → ((ys ≡ []) ↔ Q)
    → (xs ++ ys ≡ []) ↔ (P × Q)
append_iff xs ys f g = trans_iff (append-nil_iff xs ys) (both_iff f g)

pub each_iff {ℓ} :
    {A : Type ℓ} (check : A → List SemanticValidationError) (P : A → Type 0)
    → ((x : A) → (check x ≡ []) ↔ P x)
    → (xs : List A) → (each check xs ≡ []) ↔ All P xs
unfolding each
each_iff check P h [] = (λ k. tt, λ k. refl)
each_iff check P h (x ∷ xs) = append_iff (check x) (each check xs) (h x) (each_iff check P h xs)

pub or_iff : (s : String) (b : Bool) → ((s == "" || b) ≡ true) ↔ ((s ≡ "") ⊎ (b ≡ true))
or_iff s b = (
  λ h. elim (Bool-cases (s == "")) [ inl e ↦ inl ((eq_iff s "").0 e) | inr e ↦ inr (rw e at h) ],
  λ h. elim h [ inl e ↦ rw ((eq_iff s "").1 e) refl | inr e ↦ ground (arith, e) ],
)
