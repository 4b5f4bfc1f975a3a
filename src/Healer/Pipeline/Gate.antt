-- ===== src/Healer/Pipeline/Gate.antt =====
-- What reaches a contract without a human (`process_next` of healer/pipeline.py).
use specora_core.Prelude.{
  ℕ, String, ◌≡◌, refl, ◌∙◌, true, false, ◌&&◌, Option, none, some, ◌⊎◌, inl, inr, arith, ◌==◌,
  Bool-cases,
}
use specora_core.Prelude.Options.{Option-cases}
use specora_core.Json.{pos, Value}
use specora_core.Healer.Models.{HealerTicket, HealerProposal}
use specora_core.Healer.Queue.{claim_next, set_classification, set_proposal}
use specora_core.Healer.Classifier.{Classification}
use specora_core.Healer.Pipeline.{
  Setup, World, notify, set_status, classify, propose, propose_for, ask_llm, after_propose,
  apply_or_hold, process_classified, process_ticket, process_next, classified, is_tier_1,
  load_contract, or_blank,
}

propose_for-disk :
    (S : Setup) (t : HealerTicket) (v : Value) (w : World) → (propose_for S t v w).1.disk ≡ w.disk
unfolding propose_for ask_llm
propose_for-disk S t v w = ground arith

propose-disk : (S : Setup) (t : HealerTicket) (w : World) → (propose S t w).1.disk ≡ w.disk
unfolding propose
propose-disk S t w = elim (Option-cases (load_contract S w (or_blank t.contract_fqn))) [
  | inl e ↦ ground (arith, e)
  | inr (v, e) ↦ ground (arith, e, propose_for-disk S t v w)
]

-- The stored classification that the proposer sees.
abbrev pub classified_world : HealerTicket → Classification → World → World
classified_world t c w = record w {
  db = set_classification t.id c.error_type (pos c.tier) c.priority w.db;
}

-- A ticket whose proposal may be applied unseen: tier 1, fixable by contract, and a proposal whose
-- confidence clears the threshold.
pub record IsAutomatic (S : Setup) (t : HealerTicket) (w : World) : Type 0 where
  pub classification : Classification
  pub classifies : classify t ≡ some classification
  pub tier_1 : classification.tier ≡ 1
  pub no_generator_bug : classification.fixable_by == "generator" ≡ false
  pub no_data_issue : classification.fixable_by == "data" ≡ false
  pub proposal : HealerProposal
  pub proposes :
      (propose S (classified t classification) (classified_world t classification w)).0
      ≡ some (some proposal)
  pub clears : S.clears proposal.confidence ≡ true

apply_or_hold-gate :
    (S : Setup) (t : HealerTicket) (p : HealerProposal) (now : String) (w : World)
    → ((apply_or_hold S t p now w).1.disk ≡ w.disk)
      ⊎ ((is_tier_1 t.tier ≡ true) × (S.clears p.confidence ≡ true))
unfolding apply_or_hold notify set_status
apply_or_hold-gate S t p now w = elim (Bool-cases (is_tier_1 t.tier && S.clears p.confidence)) [
  | inl e ↦ inr (ground arith, ground arith)
  | inr e ↦ inl (rw (e, apply_or_hold) refl)
]

after_propose-gate :
    (S : Setup) (t : HealerTicket) (now : String) (o : Option (Option HealerProposal)) (w : World)
    → ((after_propose S t now o w).1.disk ≡ w.disk)
      ⊎ ((p : HealerProposal) × (o ≡ some (some p))
          × (is_tier_1 t.tier ≡ true)
          × (S.clears p.confidence ≡ true))
unfolding after_propose notify set_status
after_propose-gate S t now none w = inl refl
after_propose-gate S t now (some none) w = inl refl
after_propose-gate S t now (some (some p)) w =
    elim (apply_or_hold-gate S (record t { proposal = some p }) p now
      (record w { db = set_proposal t.id p w.db })) [
        | inl e ↦ inl e
        | inr (e, f) ↦ inr (p, refl, e, f)
      ]

process_classified-gate :
    (S : Setup) (t : HealerTicket) (fixable now : String) (w : World)
    → ((process_classified S t fixable now w).1.disk ≡ w.disk)
      ⊎ ((fixable == "generator" ≡ false)
          × (fixable == "data" ≡ false)
          × ((p : HealerProposal) × ((propose S t w).0 ≡ some (some p))
              × (is_tier_1 t.tier ≡ true)
              × (S.clears p.confidence ≡ true)))
unfolding process_classified notify set_status
process_classified-gate S t fixable now w = elim (Bool-cases (fixable == "generator")) [
  | inl e ↦ inl (rw (e, process_classified) refl)
  | inr e ↦ elim (Bool-cases (fixable == "data")) [
    | inl f ↦ inl (rw (e, f, process_classified) refl)
    | inr f ↦ elim (after_propose-gate S t now (propose S t w).0 (propose S t w).1) [
      | inl g ↦ inl (rw (e, f, process_classified) (g ∙ propose-disk S t w))
      | inr g ↦ inr (e, f, g)
    ]
  ]
]

tier_1_of : (n : ℕ) → is_tier_1 (pos n) ≡ true → n ≡ 1
unfolding is_tier_1
tier_1_of n h = ground arith

pub process_ticket-gate :
    (S : Setup) (t : HealerTicket) (now : String) (w : World)
    → ((process_ticket S t now w).1.disk ≡ w.disk) ⊎ IsAutomatic S t w
unfolding process_ticket
process_ticket-gate S t now w = elim (Option-cases (classify t)) [
  | inl e ↦ inl (rw (e, process_ticket) refl)
  | inr (c, e) ↦
      elim (process_classified-gate S (classified t c) c.fixable_by now (classified_world t c w)) [
        | inl f ↦ inl (rw (e, process_ticket) f)
        | inr (f, g, (p, k, l, m)) ↦ inr (record {
          classification = c;
          classifies = e;
          tier_1 = tier_1_of c.tier l;
          no_generator_bug = f;
          no_data_issue = g;
          proposal = p;
          proposes = k;
          clears = m;
        })
      ]
]

-- `process_next` leaves every file and diff as it was, unless the ticket that it claims is of tier 1,
-- fixable by contract (neither a generator bug nor a data issue), and its proposal's confidence
-- clears the threshold.
pub process_next-gate :
    (S : Setup) (now : String) (w : World)
    → ((process_next S now w).1.disk ≡ w.disk)
      ⊎ ((t : HealerTicket) × ((claim_next w.db).0 ≡ some (some t))
          × IsAutomatic S t (record w { db = (claim_next w.db).1 }))
unfolding process_next
process_next-gate S now w = elim (Option-cases (claim_next w.db).0) [
  | inl e ↦ inl (rw (e, process_next) refl)
  | inr (none, e) ↦ inl (rw (e, process_next) refl)
  | inr (some t, e) ↦ elim (process_ticket-gate S t now (record w { db = (claim_next w.db).1 })) [
    | inl f ↦ inl (rw (e, process_next) f)
    | inr f ↦ inr (t, e, f)
  ]
]
