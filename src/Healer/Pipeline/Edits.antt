-- ===== src/Healer/Pipeline/Edits.antt =====
-- The ticket rows that a run of the pipeline leaves (healer/pipeline.py).
use specora_core.Prelude.{
  String, ◌≡◌, refl, ◌∙◌, subst, true, false, ◌&&◌, Option, none, some, List, [], ◌∷◌, ◌⊎◌, inl,
  inr, arith, ◌==◌, eq_refl, Bool-cases,
}
use specora_core.Healer.Applier.{glue}
use specora_core.Prelude.Options.{Option-cases}
use specora_core.Json.{ℤ, pos, Value}
use specora_core.Healer.Models.{
  HealerTicket, HealerProposal, LlmUsage, TicketStatus, Priority, status_value, proposal_dict,
  priority_value, priority_order, applied, failed, proposed,
}
use specora_core.Healer.Queue.{
  Row, Db, row_at, update_at, update_status, with_status, set_classification, set_proposal,
  record_llm_usage,
}
use specora_core.Healer.Queue.Claims.{row_at-update}
use specora_core.Healer.Pipeline.{
  Setup, World, notify, set_status, classify, propose, propose_for, ask_llm, record_all,
  after_propose, apply_or_hold, apply_and_notify, process_classified, process_ticket, classified,
  is_tier_1, load_contract, or_blank, give_up, cut,
}
use specora_core.Healer.Pipeline.Gate.{classified_world}
use specora_core.Healer.Pipeline.Settling.{apply_and_notify-ends}

-- The rows but the one with id `i` are as before, and that one is still there.
pub record IsEdit (i : String) (before after : List Row) : Type 0 where
  pub others : (j : String) → i == j ≡ false → row_at j after ≡ row_at j before
  pub stays : (r : Row) → row_at i before ≡ some r → (s : Row) × (row_at i after ≡ some s)

pub update_at-found :
    (i : String) (f : Row → Row) (rows : List Row)
    → ((r : Row) → (f r).id ≡ r.id)
    → (r : Row) → row_at i rows ≡ some r
    → row_at i (update_at i f rows) ≡ some (f r)
update_at-found i f rows h r e = row_at-update i i f rows h ∙ rw (eq_refl i, e) refl

update_at-IsEdit :
    (i : String) (f : Row → Row) (rows : List Row)
    → ((r : Row) → (f r).id ≡ r.id)
    → IsEdit i rows (update_at i f rows)
update_at-IsEdit i f rows h = record {
  others = λ j n. row_at-update i j f rows h ∙ rw n refl;
  stays = λ r e. (f r, update_at-found i f rows h r e);
}

IsEdit-trans : (i : String) (a b c : List Row) → IsEdit i a b → IsEdit i b c → IsEdit i a c
IsEdit-trans i a b c h k = record {
  others = λ j n. k.others j n ∙ h.others j n;
  stays = λ r e. let (s, f) = h.stays r e in k.stays s f;
}

record_all-tickets :
    (i : String) (us : List (LlmUsage × String)) (db : Db)
    → (record_all i us db).tickets ≡ db.tickets
unfolding record_all record_llm_usage
record_all-tickets i [] db = refl
record_all-tickets i ((u, now) ∷ us) db = record_all-tickets i us (record_llm_usage i u now db)

ask_llm-tickets :
    (S : Setup) (t : HealerTicket) (v : Value) (w : World)
    → (ask_llm S t v w).1.db.tickets ≡ w.db.tickets
unfolding ask_llm
ask_llm-tickets S t v w = record_all-tickets t.id (S.llm t v w).0 w.db

propose_for-tickets :
    (S : Setup) (t : HealerTicket) (v : Value) (w : World)
    → (propose_for S t v w).1.db.tickets ≡ w.db.tickets
unfolding propose_for
propose_for-tickets S t v w = ground (arith, ask_llm-tickets S t v w)

propose-tickets :
    (S : Setup) (t : HealerTicket) (w : World) → (propose S t w).1.db.tickets ≡ w.db.tickets
unfolding propose
propose-tickets S t w = elim (Option-cases (load_contract S w (or_blank t.contract_fqn))) [
  | inl e ↦ ground (arith, e)
  | inr (v, e) ↦ ground (arith, e, propose_for-tickets S t v w)
]

-- The row of `i` is edited alone, and ends as 'applied', 'failed' or 'proposed'.
pub record IsSettled (i : String) (before after : List Row) : Type 0 where
  pub edit : IsEdit i before after
  pub ends :
      (r : Row)
      → row_at i before ≡ some r
      → (s : Row) × (row_at i after ≡ some s)
        × ((s.status ≡ "applied") ⊎ (s.status ≡ "failed") ⊎ (s.status ≡ "proposed"))

abbrev IsEnd : TicketStatus → Type 0
IsEnd s = (status_value s ≡ "applied") ⊎ (status_value s ≡ "failed") ⊎ (status_value s ≡ "proposed")

update_status-IsSettled :
    (i : String) (s : TicketStatus) (note now : String) (db : Db)
    → IsEnd s
    → IsSettled i db.tickets (update_status i s note now db).tickets
unfolding update_status with_status
update_status-IsSettled i s note now db h = record {
  edit = update_at-IsEdit i (with_status s note now) db.tickets (λ r. refl);
  ends = λ r e. (
    with_status s note now r,
    update_at-found i (with_status s note now) db.tickets (λ x. refl) r e,
    h,
  );
}

after_edit : {i : String} {a b c : List Row} → IsEdit i a b → IsSettled i b c → IsSettled i a c
after_edit {i} {a} {b} {c} h k = record {
  edit = IsEdit-trans i a b c h k.edit;
  ends = λ r e. let (s, f) = h.stays r e in k.ends s f;
}

set_proposal-IsEdit :
    (i : String) (p : HealerProposal) (db : Db) → IsEdit i db.tickets (set_proposal i p db).tickets
unfolding set_proposal
set_proposal-IsEdit i p db =
    update_at-IsEdit i (λ r. record r { proposal = some (proposal_dict p) }) db.tickets (λ r. refl)

set_classification-IsEdit :
    (i e : String) (n : ℤ) (p : Priority) (db : Db)
    → IsEdit i db.tickets (set_classification i e n p db).tickets
unfolding set_classification
set_classification-IsEdit i e n p db =
    update_at-IsEdit i
      (λ r. record r {
        error_type = e;
        tier = n;
        priority = priority_value p;
        priority_order = priority_order p;
      })
      db.tickets (λ r. refl)

apply_and_notify-IsSettled :
    (S : Setup) (t : HealerTicket) (actor now : String) (w : World)
    → (apply_and_notify S t actor now w).0 ≡ true
    → IsSettled t.id w.db.tickets (apply_and_notify S t actor now w).1.db.tickets
unfolding status_value
apply_and_notify-IsSettled S t actor now w h = elim (apply_and_notify-ends S t actor now w) [
  | inl (ran, d) ↦ rw d.status (update_status-IsSettled t.id applied d.note now w.db (inl refl))
  | inr (inl (ran, (note, e, f))) ↦
      rw e (update_status-IsSettled t.id failed note now w.db (inr (inl refl)))
  | inr (inr (ran, d)) ↦ absurd (cc (h, ran))
]

apply_or_hold-IsSettled :
    (S : Setup) (t : HealerTicket) (p : HealerProposal) (now : String) (w : World)
    → (apply_or_hold S t p now w).0 ≡ true
    → IsSettled t.id w.db.tickets (apply_or_hold S t p now w).1.db.tickets
unfolding apply_or_hold notify set_status status_value
apply_or_hold-IsSettled S t p now w h =
    elim (Bool-cases (is_tier_1 t.tier && S.clears p.confidence)) [
      | inl e ↦
          rw (e, apply_or_hold)
            (apply_and_notify-IsSettled S t "healer:auto" now w (rw (e, apply_or_hold) at h))
      | inr e ↦
          rw (e, apply_or_hold) (update_status-IsSettled t.id proposed "" now w.db (inr (inr refl)))
    ]

give_up-IsSettled :
    (t : HealerTicket) (note message now : String) (w : World)
    → IsSettled t.id w.db.tickets (give_up t note message now w).db.tickets
unfolding notify set_status status_value
give_up-IsSettled t note message now w =
    update_status-IsSettled t.id failed note now w.db (inr (inl refl))

after_propose-IsSettled :
    (S : Setup) (t : HealerTicket) (now : String) (o : Option (Option HealerProposal)) (w : World)
    → (after_propose S t now o w).0 ≡ true
    → IsSettled t.id w.db.tickets (after_propose S t now o w).1.db.tickets
unfolding after_propose notify set_status status_value
after_propose-IsSettled S t now none w h = absurd (cc h)
after_propose-IsSettled S t now (some none) w h =
    give_up-IsSettled t "No contract fix could be proposed" "No contract fix proposed" now w
after_propose-IsSettled S t now (some (some p)) w h = after_edit (set_proposal-IsEdit t.id p w.db) (
    apply_or_hold-IsSettled S (record t { proposal = some p }) p now
      (record w { db = set_proposal t.id p w.db }) h)

process_classified-IsSettled :
    (S : Setup) (t : HealerTicket) (fixable now : String) (w : World)
    → (process_classified S t fixable now w).0 ≡ true
    → IsSettled t.id w.db.tickets (process_classified S t fixable now w).1.db.tickets
unfolding process_classified
process_classified-IsSettled S t fixable now w h = elim (Bool-cases (fixable == "generator")) [
  | inl e ↦
      rw (e, process_classified)
        (give_up-IsSettled t
          "Generator bug — not fixable by contract. Fix the generator and regenerate."
          (glue "⚙\u{fe0f} Generator bug (not a contract issue): " (cut 100 t.raw_error)) now w)
  | inr e ↦ elim (Bool-cases (fixable == "data")) [
    | inl f ↦
        rw (e, f, process_classified)
          (give_up-IsSettled t
            "Data issue — not fixable by contract. Check the data or database constraints."
            (glue "💾 Data issue (not a contract issue): " (cut 100 t.raw_error)) now w)
    | inr f ↦
        rw (e, f, process_classified)
          (subst
            (λ (rows : List Row).
              IsSettled t.id rows
                (after_propose S t now (propose S t w).0 (propose S t w).1).1.db.tickets)
            (propose-tickets S t w)
            (after_propose-IsSettled S t now (propose S t w).0 (propose S t w).1
              (rw (e, f, process_classified) at h)))
  ]
]

pub process_ticket-IsSettled :
    (S : Setup) (t : HealerTicket) (now : String) (w : World)
    → (process_ticket S t now w).0 ≡ true
    → IsSettled t.id w.db.tickets (process_ticket S t now w).1.db.tickets
unfolding process_ticket
process_ticket-IsSettled S t now w h = elim (Option-cases (classify t)) [
  | inl e ↦ absurd (cc (rw (e, process_ticket) at h))
  | inr (c, e) ↦
      rw (e, process_ticket)
        (after_edit (set_classification-IsEdit t.id c.error_type (pos c.tier) c.priority w.db) (
          process_classified-IsSettled S (classified t c) c.fixable_by now (classified_world t c w)
            (rw (e, process_ticket) at h)))
]

-- A run of the pipeline on a ticket of the database that raises no exception leaves the ticket
-- 'applied', 'failed' or 'proposed', and every other ticket's row as it was.
pub process_ticket-ends :
    (S : Setup) (t : HealerTicket) (now : String) (w : World) (r : Row)
    → row_at t.id w.db.tickets ≡ some r
    → (process_ticket S t now w).0 ≡ true
    → ((s : Row) × (row_at t.id (process_ticket S t now w).1.db.tickets ≡ some s)
        × ((s.status ≡ "applied") ⊎ (s.status ≡ "failed") ⊎ (s.status ≡ "proposed")))
      × ((j : String)
          → t.id == j ≡ false
          → row_at j (process_ticket S t now w).1.db.tickets ≡ row_at j w.db.tickets)
process_ticket-ends S t now w r h ran =
    let settled = process_ticket-IsSettled S t now w ran in (settled.ends r h, settled.edit.others)
