-- ===== src/Healer/Queue/Tokens.antt =====
-- Single-use nonces (`consume_token_nonce` of healer/queue.py) under any further use of the queue.
use specora_core.Prelude.{
  String, ◌≡◌, true, false, ◌||◌, none, some, List, [], ◌∷◌, ◌++◌, arith, ◌==◌, eq_iff, Bool-cases,
  inl, inr,
}
use specora_core.Json.{ℤ}
use specora_core.Healer.Models.{TicketStatus, Priority, LlmUsage, HealerProposal, HealerTicket}
use specora_core.Healer.Queue.{
  Db, Token, enqueue, claim_next, update_status, set_classification, set_proposal, is_consumed,
  consume_token_nonce, record_llm_usage,
}

-- A call of a method that writes, with its arguments and the time it reads.
pub data Call : Type 0 where
  enqueues : HealerTicket → Call
  claims : Call
  updates_status : String → TicketStatus → String → String → Call
  classifies : String → String → ℤ → Priority → Call
  proposes : String → HealerProposal → Call
  consumes : String → String → String → String → String → Call
  records : String → LlmUsage → String → Call

-- The database after a call; one that raises leaves it as it was.
unfoldable pub perform : Call → Db → Db
unfolding claim_next
perform (enqueues t) db = elim (enqueue t db) [ none ↦ db | some db' ↦ db' ]
perform claims db = (claim_next db).1
perform (updates_status i s note now) db = update_status i s note now db
perform (classifies i e t p) db = set_classification i e t p db
perform (proposes i p) db = set_proposal i p db
perform (consumes n t a by now) db = (consume_token_nonce n t a by now db).1
perform (records t u now) db = record_llm_usage t u now db

unfoldable pub perform_all : List Call → Db → Db
unfolding perform
perform_all [] db = db
perform_all (c ∷ cs) db = perform_all cs (perform c db)

is_consumed-snoc :
    (nonce : String) (ts : List Token) (t : Token)
    → is_consumed nonce (ts ++ t ∷ []) ≡ (is_consumed nonce ts || t.nonce == nonce)
unfolding is_consumed
is_consumed-snoc nonce [] t = ground arith
is_consumed-snoc nonce (s ∷ ts) t = ground (arith, is_consumed-snoc nonce ts t)

tokens-enqueue :
    (t : HealerTicket) (db : Db) → (perform (enqueues t) db).consumed_tokens ≡ db.consumed_tokens
unfolding perform enqueue
tokens-enqueue t db = ground arith

consume_keeps :
    (nonce n ticket action actor now : String) (db : Db)
    → is_consumed nonce db.consumed_tokens ≡ true
    → is_consumed nonce (consume_token_nonce n ticket action actor now db).1.consumed_tokens ≡ true
unfolding consume_token_nonce
consume_keeps nonce n ticket action actor now db h =
    elim (Bool-cases (is_consumed n db.consumed_tokens)) [
      | inl e ↦ rw e h
      | inr e ↦ rw (e, is_consumed-snoc nonce db.consumed_tokens) (ground (arith, h))
    ]

stays_consumed :
    (nonce : String) (c : Call) (db : Db)
    → is_consumed nonce db.consumed_tokens ≡ true
    → is_consumed nonce (perform c db).consumed_tokens ≡ true
unfolding perform update_status set_classification set_proposal record_llm_usage
stays_consumed nonce (enqueues t) db h = rw (tokens-enqueue t db) h
stays_consumed nonce claims db h = h
stays_consumed nonce (updates_status i s note now) db h = h
stays_consumed nonce (classifies i e t p) db h = h
stays_consumed nonce (proposes i p) db h = h
stays_consumed nonce (consumes n t a by now) db h = consume_keeps nonce n t a by now db h
stays_consumed nonce (records t u now) db h = h

stay_consumed :
    (nonce : String) (cs : List Call) (db : Db)
    → is_consumed nonce db.consumed_tokens ≡ true
    → is_consumed nonce (perform_all cs db).consumed_tokens ≡ true
unfolding perform_all
stay_consumed nonce [] db h = h
stay_consumed nonce (c ∷ cs) db h =
    stay_consumed nonce cs (perform c db) (stays_consumed nonce c db h)

now_consumed :
    (nonce ticket action actor now : String) (db : Db)
    → is_consumed nonce (consume_token_nonce nonce ticket action actor now db).1.consumed_tokens
      ≡ true
unfolding consume_token_nonce
now_consumed nonce ticket action actor now db =
    elim (Bool-cases (is_consumed nonce db.consumed_tokens)) [
      | inl e ↦ rw e e
      | inr e ↦
          rw (e, is_consumed-snoc nonce db.consumed_tokens) (ground (arith, eq_iff nonce nonce))
    ]

-- Once a nonce has been presented, whatever calls of the queue follow, it is refused for every
-- ticket, action and actor, and the refusal changes nothing.
pub nonce_single_use :
    (nonce ticket action actor now ticket' action' actor' now' : String) (cs : List Call) (db : Db)
    → let db' : Db = perform_all cs (consume_token_nonce nonce ticket action actor now db).1 in
      consume_token_nonce nonce ticket' action' actor' now' db' ≡ (false, db')
unfolding consume_token_nonce
nonce_single_use nonce ticket action actor now ticket' action' actor' now' cs db = rw (
    stay_consumed nonce cs (consume_token_nonce nonce ticket action actor now db).1
      (now_consumed nonce ticket action actor now db))
