-- ===== src/Healer/Server/Handlers.antt =====
-- The handlers (healer/api/server.py). A handler that raises leaves the state as far as it came.
use specora_core.Prelude.{ℕ, String, Option, none, some, List, [], ◌∷◌, ◌==◌, if◌then◌else◌}
use specora_core.Prelude.Results.{Result, ok, raised, http_error, crash}
use specora_core.Prelude.Texts.{append}
use specora_core.Json.{pos, Value, str, arr, Items, cons, nil, obj, Fields, field, end}
use specora_core.Healer.Models.{
  HealerTicket, TicketSource, TicketStatus, queued, Priority, medium, source_of, status_of,
  priority_of, status_value, ticket_dict,
}
use specora_core.Healer.Queue.{Db, enqueue, get_ticket, list_tickets}
use specora_core.Healer.Pipeline.{World, approve_ticket, reject_ticket}
use specora_core.Healer.Security.{Actor, audit_id}
use specora_core.Healer.Security.Planes.{require_ingest_token}
use specora_core.Healer.RateLimit.{RateLimitDecision, Floats, TokenBucketLimiter, check}
use specora_core.Healer.Server.{
  Request, Service, credentials, parse_form, form_text, authorize, Response, json, ticket_page,
  show_ticket, answer, answer_page,
}

unfoldable pub with_actor :
    Result Actor × Db → World → (Actor → World → Result Response × World) → Result Response × World
with_actor (raised e, db) w handle = (raised e, record w { db = db })
with_actor (ok actor, db) w handle = handle actor (record w { db = db })

unfoldable pub approve : Service → Request → String → ℕ → String → World → Result Response × World
approve S r i now stamp w =
    with_actor (authorize S r i "approve" none now stamp w.db) w (λ actor w'.
      answer i "approve" "approved" actor (approve_ticket S.setup i (audit_id actor) stamp w'))

-- body.reason if body and body.reason else ""
unfoldable pub reason_of : Option (Option String) → String
reason_of (some (some reason)) = reason
reason_of _ = ""

unfoldable pub reject :
    Service
    → Request
    → Option (Option String)
    → String
    → ℕ
    → String
    → World
    → Result Response × World
unfolding reason_of
reject S r body i now stamp w =
    with_actor (authorize S r i "reject" none now stamp w.db) w (λ actor w'.
      answer i "reject" "rejected" actor
        (reject_ticket i (reason_of body) (audit_id actor) stamp w'))

unfoldable pub approve_action :
    Service → Request → String → ℕ → String → World → Result Response × World
approve_action S r i now stamp w =
    let form = some (parse_form S r) in
    with_actor (authorize S r i "approve" form now stamp w.db) w (λ actor w'.
      answer_page i "Approved." "Could not approve." (form_text "token" form)
        (approve_ticket S.setup i (audit_id actor) stamp w'))

unfoldable pub reject_action :
    Service → Request → String → ℕ → String → World → Result Response × World
reject_action S r i now stamp w =
    let form = some (parse_form S r) in
    with_actor (authorize S r i "reject" form now stamp w.db) w (λ actor w'.
      answer_page i "Rejected." "Rejected." (form_text "token" form)
        (reject_ticket i "Rejected via web UI" (audit_id actor) stamp w'))

unfoldable pub view_ticket :
    Service → Request → String → ℕ → String → World → Result Response × World
view_ticket S r i now stamp w =
    with_actor (authorize S r i "view" none now stamp w.db) w
      (λ actor w'. (show_ticket (λ t. ticket_page t actor) (get_ticket w'.db i), w'))

unfoldable pub show : Service → Request → String → ℕ → String → World → Result Response × World
show S r i now stamp w =
    with_actor (authorize S r i "view" none now stamp w.db) w
      (λ actor w'. (show_ticket (λ t. json (obj (ticket_dict t))) (get_ticket w'.db i), w'))

-- An empty or missing filter does not filter; an unknown name is a ValueError.
unfoldable pub filter_of {ℓ} :
    {A : Type ℓ} → (String → Option A) → Option String → Result (Option A)
filter_of read none = ok none
filter_of read (some s) =
    if s == "" then ok none else elim (read s) [ none ↦ raised crash | some a ↦ ok (some a) ]

ticket_items : List HealerTicket → Items
ticket_items [] = nil
ticket_items (t ∷ ts) = cons (obj (ticket_dict t)) (ticket_items ts)

listing :
    Result (Option TicketStatus) → Result (Option Priority) → Option String → Db → Result Response
listing (raised e) priority fqn db = raised e
listing (ok status) (raised e) fqn db = raised e
listing (ok status) (ok priority) fqn db = elim (list_tickets status priority fqn db) [
  | none ↦ raised crash
  | some ts ↦ ok (json (arr (ticket_items ts)))
]

unfoldable pub list_handler :
    Service
    → Request
    → Option String
    → Option String
    → Option String
    → ℕ
    → String
    → World
    → Result Response × World
unfolding listing ticket_items
list_handler S r status priority fqn now stamp w =
    with_actor (authorize S r "" "list" none now stamp w.db) w (λ actor w'.
      (listing (filter_of status_of status) (filter_of priority_of priority) fqn w'.db, w'))

pub record IngestRequest : Type 0 where
  pub source : String
  pub contract_fqn : Option String
  pub error : String
  pub stacktrace : Option String
  pub context : Option Fields

-- d[key] = value
unfoldable pub set_field : String → Value → Fields → Fields
set_field k v end = field k v end
set_field k v (field j w d) = if j == k then field j v d else field j w (set_field k v d)

-- body.context or {}
given_context : Option Fields → Fields
given_context none = end
given_context (some d) = d

unfoldable pub context_of : IngestRequest → Fields
unfolding given_context
context_of body =
    let context = given_context body.context in
    elim body.stacktrace [
      | none ↦ context
      | some s ↦ if s == "" then context else set_field "stacktrace" (str s) context
    ]

unfoldable pub new_ticket : IngestRequest → TicketSource → String → String → HealerTicket
new_ticket body source id stamp = record {
  id = id;
  source = source;
  contract_fqn = body.contract_fqn;
  error_type = "";
  raw_error = body.error;
  context = context_of body;
  status = queued;
  tier = pos 0;
  priority = medium;
  proposal = none;
  created_at = stamp;
  resolved_at = none;
  resolution_note = "";
}

unfoldable pub accepted : HealerTicket → Response
accepted t =
    json (obj (field "ticket_id" (str t.id) (field "status" (str (status_value t.status)) end)))

unfoldable pub stored : HealerTicket → Option Db → World → Result Response × World
unfolding accepted
stored t none w = (raised crash, w)
stored t (some db) w = (ok (accepted t), record w { db = db })

unfoldable pub admit : HealerTicket → World → Result Response × World
admit t w = stored t (enqueue t w.db) w

unfoldable pub admit_source :
    IngestRequest → Option TicketSource → String → String → World → Result Response × World
admit_source body none id stamp w = (raised crash, w)
admit_source body (some source) id stamp w = admit (new_ticket body source id stamp) w

unfoldable pub after_limit :
    (P : Floats)
    → IngestRequest
    → String
    → String
    → World
    → RateLimitDecision P × TokenBucketLimiter P
    → Result Response × (World × TokenBucketLimiter P)
after_limit P body id stamp w (decision, l) =
    let (response, w') = admit_source body (source_of body.source) id stamp w in
    if decision.allowed then (response, (w', l)) else (
      raised
          (http_error 429 (append "Ingest rate limit exceeded for " (append decision.scope "."))),
      (w, l),
    )

unfoldable pub after_token :
    (P : Floats)
    → Result Actor
    → IngestRequest
    → String
    → String
    → P.F
    → World × TokenBucketLimiter P
    → Result Response × (World × TokenBucketLimiter P)
after_token P (raised e) body id stamp t (w, l) = (raised e, (w, l))
after_token P (ok caller) body id stamp t (w, l) =
    after_limit P body id stamp w (check P body.contract_fqn t l)

-- The fresh id of the ticket, the text of its creation time and the limiter's time are arguments.
unfoldable pub ingest :
    (P : Floats)
    → Service
    → Request
    → IngestRequest
    → String
    → String
    → P.F
    → World × TokenBucketLimiter P
    → Result Response × (World × TokenBucketLimiter P)
ingest P S r body id stamp t state =
    after_token P (require_ingest_token S.codec S.env (credentials S.codec r none)) body id stamp t
      state
