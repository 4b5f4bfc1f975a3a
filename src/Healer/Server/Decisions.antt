-- ===== src/Healer/Server/Decisions.antt =====
-- What the approving and rejecting handlers can do to the world (healer/api/server.py).
use specora_core.Prelude.{
  ℕ, String, ◌≡◌, refl, Bool-cases, ◌==◌, ◌∙◌, ap, Bool, true, false, Option, none, some, ◌⊎◌, inl,
  inr, Dict,
}
use specora_core.Prelude.Results.{Result, ok, raised, Failure, Result-cases, ok-injective}
use specora_core.Healer.Queue.{Db, consume_token_nonce, is_consumed}
use specora_core.Healer.Pipeline.{World}
use specora_core.Healer.Pipeline.Approval.{
  Decision, approval, rejection, decide, IsOpen, decide-gate,
}
use specora_core.Healer.Security.{Actor, audit_id}
use specora_core.Healer.Server.{
  Request, Service, parse_form, authorize, Response, answer, answer_page, burn, after_csrf,
  after_chain, check_csrf, is_mutating, authenticated,
}
use specora_core.Healer.Server.Handlers.{
  with_actor, approve, reject, reason_of, approve_action, reject_action,
}

-- The four endpoints that decide on a ticket, with their bodies.
pub data Endpoint : Type 0 where
  approves : Endpoint
  rejects : Option (Option String) → Endpoint
  approves_form : Endpoint
  rejects_form : Endpoint

unfoldable pub handle :
    Service → Request → Endpoint → String → ℕ → String → World → Result Response × World
handle S r approves i now stamp w = approve S r i now stamp w
handle S r (rejects body) i now stamp w = reject S r body i now stamp w
handle S r approves_form i now stamp w = approve_action S r i now stamp w
handle S r rejects_form i now stamp w = reject_action S r i now stamp w

-- The action, the form and the decision of an endpoint.
unfoldable pub action_of : Endpoint → String
action_of approves = "approve"
action_of (rejects body) = "reject"
action_of approves_form = "approve"
action_of rejects_form = "reject"

unfoldable pub form_of : Service → Request → Endpoint → Option (Dict String)
form_of S r approves = none
form_of S r (rejects body) = none
form_of S r approves_form = some (parse_form S r)
form_of S r rejects_form = some (parse_form S r)

unfoldable pub decision_of : Endpoint → Actor → String → Decision
unfolding reason_of
decision_of approves actor stamp = approval (audit_id actor) stamp
decision_of (rejects body) actor stamp = rejection (reason_of body) (audit_id actor) stamp
decision_of approves_form actor stamp = approval (audit_id actor) stamp
decision_of rejects_form actor stamp = rejection "Rejected via web UI" (audit_id actor) stamp

answer-world :
    (i verb status : String) (actor : Actor) (p : Option Bool × World)
    → (answer i verb status actor p).1 ≡ p.1
unfolding answer
answer-world i verb status actor (none, w) = refl
answer-world i verb status actor (some true, w) = refl
answer-world i verb status actor (some false, w) = refl

answer_page-world :
    (i a b token : String) (p : Option Bool × World) → (answer_page i a b token p).1 ≡ p.1
unfolding answer_page
answer_page-world i a b token (none, w) = refl
answer_page-world i a b token (some c, w) = refl

-- The world after a handler: that of the decision, if the request is authorized.
unfoldable pub decided : Service → Endpoint → String → String → Result Actor × Db → World → World
unfolding decision_of
decided S e i stamp (raised f, db) w = record w { db = db }
decided S e i stamp (ok actor, db) w =
    (decide S.setup i (decision_of e actor stamp) (record w { db = db })).1

decided-raised :
    (S : Service) (e : Endpoint) (i stamp : String) (p : Result Actor × Db) (w : World)
    (f : Failure)
    → p.0 ≡ raised f
    → decided S e i stamp p w ≡ record w { db = p.1 }
unfolding decided
decided-raised S e i stamp (raised g, db) w f h = refl
decided-raised S e i stamp (ok actor, db) w f h = absurd (cc h)

decided-ok :
    (S : Service) (e : Endpoint) (i stamp : String) (p : Result Actor × Db) (w : World)
    (actor : Actor)
    → p.0 ≡ ok actor
    → decided S e i stamp p w
      ≡ (decide S.setup i (decision_of e actor stamp) (record w { db = p.1 })).1
unfolding decided
decided-ok S e i stamp (raised g, db) w actor h = absurd (cc h)
decided-ok S e i stamp (ok b, db) w actor h =
    ap (λ (x : Actor). (decide S.setup i (decision_of e x stamp) (record w { db = db })).1)
      (ok-injective b actor h)

with_actor-decided :
    (S : Service) (e : Endpoint) (i stamp : String) (p : Result Actor × Db) (w : World)
    (run : Actor → World → Result Response × World)
    → ((actor : Actor) (v : World)
        → (run actor v).1 ≡ (decide S.setup i (decision_of e actor stamp) v).1)
    → (with_actor p w run).1 ≡ decided S e i stamp p w
unfolding with_actor decided
with_actor-decided S e i stamp (raised f, db) w run h = refl
with_actor-decided S e i stamp (ok actor, db) w run h = h actor (record w { db = db })

handle-decided :
    (S : Service) (r : Request) (e : Endpoint) (i : String) (now : ℕ) (stamp : String) (w : World)
    → (handle S r e i now stamp w).1
      ≡ decided S e i stamp (authorize S r i (action_of e) (form_of S r e) now stamp w.db) w
unfolding handle approve reject approve_action reject_action action_of form_of decision_of decide
    reason_of
handle-decided S r approves i now stamp w =
    with_actor-decided S approves i stamp _ w _ (λ actor v. answer-world i _ _ actor _)
handle-decided S r (rejects body) i now stamp w =
    with_actor-decided S (rejects body) i stamp _ w _ (λ actor v. answer-world i _ _ actor _)
handle-decided S r approves_form i now stamp w =
    with_actor-decided S approves_form i stamp _ w _ (λ actor v. answer_page-world i _ _ _ _)
handle-decided S r rejects_form i now stamp w =
    with_actor-decided S rejects_form i stamp _ w _ (λ actor v. answer_page-world i _ _ _ _)

-- Two databases with the same tickets and the same usage log.
abbrev pub IsSameButNonces : Db → Db → Type 0
IsSameButNonces db db' = (db'.tickets ≡ db.tickets) × (db'.llm_usage ≡ db.llm_usage)

consume_token_nonce-IsSameButNonces :
    (n i action by stamp : String) (db : Db)
    → IsSameButNonces db (consume_token_nonce n i action by stamp db).1
unfolding consume_token_nonce
consume_token_nonce-IsSameButNonces n i action by stamp db =
    elim (Bool-cases (is_consumed n db.consumed_tokens)) [
      | inl e ↦ rw e (refl, refl)
      | inr e ↦ rw e (refl, refl)
    ]

burn-IsSameButNonces :
    (i action stamp : String) (actor : Actor) (db : Db)
    → IsSameButNonces db (burn i action stamp actor db).1
unfolding burn
burn-IsSameButNonces i action stamp actor db = elim (Bool-cases (actor.nonce == "")) [
  | inl e ↦ rw e (refl, refl)
  | inr e ↦
      rw e (consume_token_nonce-IsSameButNonces actor.nonce i action (audit_id actor) stamp db)
]

after_csrf-IsSameButNonces :
    (o : Result (Unit {0})) (i action stamp : String) (actor : Actor) (db : Db)
    → IsSameButNonces db (after_csrf o i action stamp actor db).1
unfolding after_csrf
after_csrf-IsSameButNonces (raised e) i action stamp actor db = (refl, refl)
after_csrf-IsSameButNonces (ok u) i action stamp actor db =
    burn-IsSameButNonces i action stamp actor db

after_chain-IsSameButNonces :
    (S : Service) (r : Request) (i action : String) (form : Option (Dict String)) (now : ℕ)
    (stamp : String) (o : Result Actor) (db : Db)
    → IsSameButNonces db (after_chain S r i action form now stamp o db).1
unfolding after_chain
after_chain-IsSameButNonces S r i action form now stamp (raised e) db = (refl, refl)
after_chain-IsSameButNonces S r i action form now stamp (ok actor) db =
    elim (Bool-cases (is_mutating action)) [
      | inl e ↦ rw e (
          after_csrf-IsSameButNonces (check_csrf S r i action form now actor) i action stamp actor
            db)
      | inr e ↦ rw e (refl, refl)
    ]

-- A request that decides nothing: it is not authorized, or the ticket is not PROPOSED.
abbrev pub IsIdle : Result Actor → String → Db → Type 0
IsIdle outcome i db =
    ((f : Failure) × (outcome ≡ raised f))
    ⊎ ((actor : Actor) × (outcome ≡ ok actor) × (¬ IsOpen i db))

-- A request to one of the endpoints that approve and reject writes with its authorization nothing
-- but consumed nonces. When it is not authorized for that action on that ticket, or the ticket is
-- not PROPOSED, this is all that it changes; else it does what the pipeline's decision does in the
-- actor's name.
pub handle-gate :
    (S : Service) (r : Request) (e : Endpoint) (i : String) (now : ℕ) (stamp : String) (w : World)
    → let (outcome, db) = authorize S r i (action_of e) (form_of S r e) now stamp w.db in
      let after : World = (handle S r e i now stamp w).1 in
      IsSameButNonces w.db db
      × (IsIdle outcome i db × (after ≡ record w { db = db })
          ⊎ ((actor : Actor) × (outcome ≡ ok actor)
              × IsOpen i db
              × (after ≡ (decide S.setup i (decision_of e actor stamp) (record w { db = db })).1)))
unfolding authorize
handle-gate S r e i now stamp w =
    let p = authorize S r i (action_of e) (form_of S r e) now stamp w.db in
    let same = handle-decided S r e i now stamp w in
    (
      after_chain-IsSameButNonces S r i (action_of e) (form_of S r e) now stamp
          (authenticated S r i (action_of e) (form_of S r e) now) w.db,
      elim (Result-cases p.0) [
        | inr (f, g) ↦ inl (inl (f, g), same ∙ decided-raised S e i stamp p w f g)
        | inl (actor, g) ↦
            elim (decide-gate S.setup i (decision_of e actor stamp) (record w { db = p.1 })) [
              | inl h ↦ inr (actor, g, h, same ∙ decided-ok S e i stamp p w actor g)
              | inr (h, k) ↦ inl (inr (actor, g, h), same ∙ decided-ok S e i stamp p w actor g ∙ k)
            ]
      ],
    )
