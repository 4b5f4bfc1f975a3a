-- ===== src/Healer/Pipeline/Tiers.antt =====
-- What each source of a ticket can be classified as (`_classify` of healer/pipeline.py over
-- healer/analyzer/classifier.py).
use specora_core.Prelude.{
  ◌≢◌, if◌then◌else◌, String, ◌≡◌, refl, subst, some-injective, Bool, true, false, Option, none,
  some, ◌⊎◌, inl, inr, Bool-cases,
}
use specora_core.Prelude.Options.{Option-cases}
use specora_core.Json.{Fields}
use specora_core.Healer.Models.{
  TicketSource, validation, compilation, runtime, manual, HealerTicket, source_value, high,
  critical,
}
use specora_core.Healer.Classifier.{
  Classification, classify_validation_error, classify_raw_error, infer_fixable_by, runtime_error,
  first_type, tier1_patterns, tier2_patterns, search_any, fold_case, generator_bug_patterns,
  data_issue_patterns, search_pattern, lower, piece, compile_error,
}
use specora_core.Healer.Pipeline.{classify}

-- Tier and `fixable_by`, by the ticket's source.
unfoldable pub Fits : TicketSource → Classification → Type 0
Fits validation c = ((c.tier ≡ 1) ⊎ (c.tier ≡ 2)) × (c.fixable_by ≡ "contract")
Fits compilation c = (c.tier ≡ 2) × (c.fixable_by ≡ "contract")
Fits runtime c =
    (c.tier ≡ 3)
    × ((c.fixable_by ≡ "generator") ⊎ (c.fixable_by ≡ "data") ⊎ (c.fixable_by ≡ "contract"))
Fits manual c = (c.tier ≡ 2) × (c.fixable_by ≡ "unknown")

validation-Fits : (msg : String) → Fits validation (classify_validation_error msg)
unfolding classify_validation_error Fits
validation-Fits msg = elim (Option-cases (first_type tier1_patterns msg)) [
  | inr (t, e) ↦ rw (e, classify_validation_error) (inl refl, refl)
  | inl e ↦ elim (Option-cases (first_type tier2_patterns msg)) [
    | inr (t, f) ↦ rw (e, f, classify_validation_error) (inr refl, refl)
    | inl f ↦ rw (e, f, classify_validation_error) (inr refl, refl)
  ]
]

infer_fixable_by-cases :
    (error : String)
    → (infer_fixable_by error ≡ "generator")
      ⊎ (infer_fixable_by error ≡ "data")
      ⊎ (infer_fixable_by error ≡ "contract")
unfolding infer_fixable_by
infer_fixable_by-cases error =
    elim (Bool-cases (search_any fold_case generator_bug_patterns error)) [
      | inl e ↦ inl (rw (e, infer_fixable_by) refl)
      | inr e ↦ elim (Bool-cases (search_any fold_case data_issue_patterns error)) [
        | inl f ↦ inr (inl (rw (e, f, infer_fixable_by) refl))
        | inr f ↦ inr (inr (rw (e, f, infer_fixable_by) refl))
      ]
    ]

runtime_error-Fits :
    (error : String) (o : Option Bool) (c : Classification)
    → runtime_error (infer_fixable_by error) o ≡ some c
    → Fits runtime c
unfolding runtime_error Fits
runtime_error-Fits error none c h = absurd (cc h)
runtime_error-Fits error (some true) c h =
    subst (Fits runtime) (some-injective _ c h) (refl, infer_fixable_by-cases error)
runtime_error-Fits error (some false) c h =
    subst (Fits runtime) (some-injective _ c h) (refl, infer_fixable_by-cases error)

compile_error-Fits :
    (a b : Bool) (x y z c : Classification)
    → Fits compilation x
    → Fits compilation y
    → Fits compilation z
    → (if a then some x else if b then some y else some z) ≡ some c
    → Fits compilation c
compile_error-Fits true b x y z c p q r h = subst (Fits compilation) (some-injective x c h) p
compile_error-Fits false true x y z c p q r h = subst (Fits compilation) (some-injective y c h) q
compile_error-Fits false false x y z c p q r h = subst (Fits compilation) (some-injective z c h) r

raw-Fits :
    (s : TicketSource) (error : String) (context : Fields) (c : Classification)
    → s ≢ validation
    → classify_raw_error (source_value s) error context ≡ some c
    → Fits s c
unfolding classify_raw_error source_value Fits
raw-Fits validation error context c n h = absurd (n refl)
raw-Fits runtime error context c n h = runtime_error-Fits error _ c h
raw-Fits compilation error context c n h =
    compile_error-Fits (search_pattern lower (piece "unresolved reference") error)
      (search_pattern lower (piece "cycle") error) (compile_error "missing_reference" high)
      (compile_error "dependency_cycle" critical) (compile_error "compilation_error" high) c
      (refl, refl) (refl, refl) (refl, refl) h
raw-Fits manual error context c n h = subst (Fits manual) (some-injective _ c h) (refl, refl)

by_source :
    (t : HealerTicket) (c : Classification) (s : TicketSource)
    → t.source ≡ s
    → classify t ≡ some c
    → Fits s c
unfolding classify
by_source t c validation e h =
    subst (Fits validation) (some-injective _ c (rw (e, classify) at h))
      (validation-Fits t.raw_error)
by_source t c compilation e h =
    raw-Fits compilation t.raw_error t.context c (λ p. cc p) (rw e at (rw (e, classify) at h))
by_source t c runtime e h =
    raw-Fits runtime t.raw_error t.context c (λ p. cc p) (rw e at (rw (e, classify) at h))
by_source t c manual e h =
    raw-Fits manual t.raw_error t.context c (λ p. cc p) (rw e at (rw (e, classify) at h))

-- A classified ticket's tier and fixability follow its source. A validation ticket is of tier 1 or 2
-- and fixable by contract; a compilation ticket is of tier 2 and fixable by contract; a runtime
-- ticket is of tier 3, whatever it is fixable by; a manual one is of tier 2 and of unknown
-- fixability. Tier 1, which alone may be applied unseen, is for validation tickets.
pub classify-Fits : (t : HealerTicket) (c : Classification) → classify t ≡ some c → Fits t.source c
classify-Fits t c h = by_source t c t.source refl h
