-- ===== src/Healer/Queue.antt =====
-- The ticket database (healer/queue.py). A table is the list of its rows in insertion order; each
-- method is one committed transaction. A JSON column stands as the value it encodes, and the time
-- that a method reads from the clock is an argument. `none` in place of a result is an exception
-- (a violated PRIMARY KEY, or a row that no enum member fits). Among rows that `ORDER BY` does not
-- tell apart the first inserted comes first.
pub mod Rows
pub mod Claims
pub mod Tokens
pub mod Listing
use specora_core.Prelude.{
  ℕ, ◌+◌, String, Bool, true, false, ◌&&◌, ◌||◌, Option, none, some, List, [], ◌∷◌, ◌++◌, map, ◌==◌,
  ltb, eqb, leb, text_lt, if◌then◌else◌, not, any_of, select, length,
}
use specora_core.Prelude.Options.{◌>>=◌}
use specora_core.Json.{ℤ, pos, Value, null, str, obj, Fields}
use specora_core.Healer.Models.{
  TicketStatus, Priority, LlmUsage, HealerProposal, HealerTicket, source_value, status_value,
  priority_value, source_of, status_of, priority_of, priority_order, proposal_dict, optional,
  applied, failed, rejected, analyzing,
}
use specora_core.Healer.Models.RoundTrip.{proposal_if, resolved_if}

pub record Row : Type 0 where
  pub id : String
  pub source : String
  pub contract_fqn : Option String
  pub error_type : String
  pub raw_error : String
  pub context : Fields
  pub status : String
  pub tier : ℤ
  pub priority : String
  pub priority_order : ℕ
  pub proposal : Option Fields
  pub created_at : String
  pub resolved_at : Option String
  pub resolution_note : String

pub record Token : Type 0 where
  pub nonce : String
  pub ticket_id : String
  pub action : String
  pub actor : String
  pub consumed_at : String

-- The `id` column is the position: AUTOINCREMENT never reuses one, and no row is deleted.
pub record UsageRow : Type 0 where
  pub ticket_id : String
  pub usage : LlmUsage
  pub created_at : String

pub record Db : Type 0 where
  pub tickets : List Row
  pub consumed_tokens : List Token
  pub llm_usage : List UsageRow

abbrev pub empty_db : Db
empty_db = record { tickets = []; consumed_tokens = []; llm_usage = [] }

-- The tuple that `enqueue` inserts.
unfoldable pub row_of : HealerTicket → Row
unfolding proposal_dict
row_of t = record {
  id = t.id;
  source = source_value t.source;
  contract_fqn = t.contract_fqn;
  error_type = t.error_type;
  raw_error = t.raw_error;
  context = t.context;
  status = status_value t.status;
  tier = t.tier;
  priority = priority_value t.priority;
  priority_order = priority_order t.priority;
  proposal = elim t.proposal [ none ↦ none | some p ↦ some (proposal_dict p) ];
  created_at = t.created_at;
  resolved_at = t.resolved_at;
  resolution_note = t.resolution_note;
}

unfoldable pub row_to_ticket : Row → Option HealerTicket
row_to_ticket r = do
  proposal ← proposal_if (elim r.proposal [ none ↦ null | some d ↦ obj d ])
  source ← source_of r.source
  status ← status_of r.status
  priority ← priority_of r.priority
  resolved_at ← resolved_if (optional r.resolved_at)
  some (record {
    id = r.id;
    source = source;
    contract_fqn = r.contract_fqn;
    error_type = r.error_type;
    raw_error = r.raw_error;
    context = r.context;
    status = status;
    tier = r.tier;
    priority = priority;
    proposal = proposal;
    created_at = r.created_at;
    resolved_at = resolved_at;
    resolution_note = r.resolution_note;
  })

-- SELECT * FROM tickets WHERE id = ?
unfoldable pub row_at : String → List Row → Option Row
row_at i [] = none
row_at i (r ∷ rs) = if r.id == i then some r else row_at i rs

-- UPDATE tickets SET ... WHERE id = ?
unfoldable pub update_at : String → (Row → Row) → List Row → List Row
update_at i f [] = []
update_at i f (r ∷ rs) = (if r.id == i then f r else r) ∷ update_at i f rs

unfoldable pub enqueue : HealerTicket → Db → Option Db
unfolding row_at
enqueue t db = elim (row_at t.id db.tickets) [
  | none ↦ some (record db { tickets = db.tickets ++ row_of t ∷ [] })
  | some _ ↦ none
]

-- The outer `none` is an exception, the inner one a missing ticket.
unfoldable pub get_ticket : Db → String → Option (Option HealerTicket)
unfolding row_at
get_ticket db i = elim (row_at i db.tickets) [
  | none ↦ some none
  | some r ↦ do t ← row_to_ticket r; some (some t)
]

-- ORDER BY priority_order ASC, created_at ASC: `r` stands in front of `s`.
unfoldable pub precedes : Row → Row → Bool
precedes r s =
    ltb r.priority_order s.priority_order
    || (eqb r.priority_order s.priority_order && text_lt r.created_at s.created_at)

abbrev pub is_queued : Row → Bool
is_queued r = r.status == "queued"

-- SELECT ... WHERE status = 'queued' ORDER BY ... LIMIT 1
unfoldable pub next_row : List Row → Option Row
next_row [] = none
next_row (r ∷ rs) = elim (next_row rs) [
  | none ↦ if is_queued r then some r else none
  | some s ↦ if is_queued r && not (precedes s r) then some r else some s
]

pub next_queued : Db → Option (Option HealerTicket)
unfolding next_row
next_queued db = elim (next_row db.tickets) [
  | none ↦ some none
  | some r ↦ do t ← row_to_ticket r; some (some t)
]

abbrev pub claimed : Row → Row
claimed r = record r { status = "analyzing" }

-- The UPDATE ... RETURNING of `claim_next`: the row as updated, and the table.
unfoldable pub claim_row : List Row → Option Row × List Row
unfolding update_at
claim_row rows = elim (next_row rows) [
  | none ↦ (none, rows)
  | some r ↦ (some (claimed r), update_at r.id claimed rows)
]

-- The commit stands before `_row_to_ticket`, so the claim holds also if that raises.
unfoldable pub claim_next : Db → Option (Option HealerTicket) × Db
claim_next db =
    let (o, rows) = claim_row db.tickets in
    (
      (elim o [ none ↦ some none | some r ↦ (do t ← row_to_ticket r; some (some t)) ]),
      record db { tickets = rows },
    )

unfoldable pub is_final : TicketStatus → Bool
is_final applied = true
is_final failed = true
is_final rejected = true
is_final _ = false

-- SET status = ?, resolution_note = ?, resolved_at = COALESCE(?, resolved_at)
unfoldable pub with_status : TicketStatus → String → String → Row → Row
unfolding is_final
with_status s note now r = record r {
  status = status_value s;
  resolution_note = note;
  resolved_at = if is_final s then some now else r.resolved_at;
}

unfoldable pub update_status : String → TicketStatus → String → String → Db → Db
unfolding with_status update_at
update_status i s note now db = record db {
  tickets = update_at i (with_status s note now) db.tickets;
}

unfoldable pub set_classification : String → String → ℤ → Priority → Db → Db
unfolding update_at
set_classification i error_type tier priority db = record db {
  tickets =
      update_at i
        (λ r. record r {
          error_type = error_type;
          tier = tier;
          priority = priority_value priority;
          priority_order = priority_order priority;
        })
        db.tickets;
}

unfoldable pub set_proposal : String → HealerProposal → Db → Db
unfolding update_at
set_proposal i p db = record db {
  tickets = update_at i (λ r. record r { proposal = some (proposal_dict p) }) db.tickets;
}

abbrev pub equals : Option String → Option String → Bool
equals none _ = true
equals (some s) none = false
equals (some s) (some t) = t == s

-- A filter is left out where the argument is None or falsy.
abbrev pub given : Option String → Option String
given none = none
given (some s) = if s == "" then none else some s

pub insert_row : Row → List Row → List Row
unfolding precedes
insert_row r [] = r ∷ []
insert_row r (s ∷ rs) = if precedes s r then s ∷ insert_row r rs else r ∷ s ∷ rs

-- ORDER BY of a whole result set
pub sort_rows : List Row → List Row
unfolding insert_row
sort_rows [] = []
sort_rows (r ∷ rs) = insert_row r (sort_rows rs)

abbrev pub wanted_row : Option TicketStatus → Option Priority → Option String → Row → Bool
wanted_row status priority fqn r =
    equals (elim status [ none ↦ none | some s ↦ some (status_value s) ]) (some r.status)
    && (equals (elim priority [ none ↦ none | some p ↦ some (priority_value p) ]) (some r.priority)
        && equals (given fqn) r.contract_fqn)

-- The rows that `list_tickets` selects, in its order.
pub list_rows : Option TicketStatus → Option Priority → Option String → Db → List Row
unfolding sort_rows
list_rows status priority fqn db = sort_rows (select (wanted_row status priority fqn) db.tickets)

tickets_of : List Row → Option (List HealerTicket)
tickets_of [] = some []
tickets_of (r ∷ rs) = do t ← row_to_ticket r; ts ← tickets_of rs; some (t ∷ ts)

pub list_tickets :
    Option TicketStatus → Option Priority → Option String → Db → Option (List HealerTicket)
unfolding list_rows tickets_of
list_tickets status priority fqn db = tickets_of (list_rows status priority fqn db)

-- SELECT status, COUNT(*) ... GROUP BY status, as a dict
pub tally : String → List (String × ℕ) → List (String × ℕ)
tally s [] = (s, 1) ∷ []
tally s ((k, n) ∷ d) = if k == s then (k, n + 1) ∷ d else (k, n) ∷ tally s d

pub by_status : List Row → List (String × ℕ)
unfolding tally
by_status [] = []
by_status (r ∷ rs) = tally r.status (by_status rs)

pub total : List (String × ℕ) → ℕ
total [] = 0
total ((k, n) ∷ d) = n + total d

unfoldable pub stats : Db → List (String × ℕ) × ℕ
unfolding by_status total
stats db = let counts = by_status db.tickets in (counts, total counts)

-- ------------------------------------------------------------------ tokens and accounting

unfoldable pub is_consumed : String → List Token → Bool
is_consumed nonce [] = false
is_consumed nonce (t ∷ ts) = t.nonce == nonce || is_consumed nonce ts

-- The PRIMARY KEY refuses a second row with the nonce; the refused transaction is rolled back.
unfoldable pub consume_token_nonce : String → String → String → String → String → Db → Bool × Db
unfolding is_consumed
consume_token_nonce nonce ticket_id action actor now db =
    if is_consumed nonce db.consumed_tokens then (false, db) else (
      true,
      record db {
        consumed_tokens =
            db.consumed_tokens
            ++ (record {
              nonce = nonce;
              ticket_id = ticket_id;
              action = action;
              actor = actor;
              consumed_at = now;
            })
              ∷ [];
      },
    )

unfoldable pub record_llm_usage : String → LlmUsage → String → Db → Db
record_llm_usage ticket_id usage now db = record db {
  llm_usage =
      db.llm_usage ++ (record { ticket_id = ticket_id; usage = usage; created_at = now }) ∷ [];
}

unfoldable pub take : {A : Type 0} → ℕ → List A → List A
take ℕ.zero xs = []
take (ℕ.suc n) [] = []
take (ℕ.suc n) (x ∷ xs) = x ∷ take n xs

unfoldable pub newest_first : List UsageRow → List UsageRow
newest_first [] = []
newest_first (u ∷ us) = newest_first us ++ u ∷ []

-- SELECT ok, created_at FROM llm_usage ORDER BY id DESC LIMIT ?
unfoldable pub recent_llm_outcomes : ℕ → Db → List (Bool × String)
unfolding take newest_first
recent_llm_outcomes limit db =
    map (λ u. (u.usage.ok, u.created_at)) (take limit (newest_first db.llm_usage))
