-- ===== src/Healer/Server.antt =====
-- The HTTP surface (healer/api/server.py): who may call what, and what a call does to the database,
-- the disk and the log. A request is handled at one time: `now` in seconds and `stamp` as the text
-- that the database stores. Handlers run one after another. The text of the HTML pages, the metrics
-- of /healer/status and the background worker's loop are left out; a page stands as what it is
-- rendered from.
pub mod Guards
pub mod Handlers
pub mod Links
pub mod Decisions
pub mod Admission
mod Tests
use Prim.Native.Char.{code}
use Prim.Native.String as Text
use specora_core.Prelude.{
  ℕ, String, Bool, true, false, ◌&&◌, ◌||◌, Option, none, some, List, [], ◌∷◌, ◌==◌, eqb,
  if◌then◌else◌, not, Dict,
}
use specora_core.Prelude.Results.{Result, ok, raised, Failure, http_error, crash}
use specora_core.Prelude.Texts.{append, starts_with}
use specora_core.Json.{Value, str, obj, Fields, field, end}
use specora_core.Healer.Models.{HealerTicket, status_value, ticket_dict}
use specora_core.Healer.Queue.{Db, get_ticket, consume_token_nonce}
use specora_core.Healer.Pipeline.{Setup, World, approve_ticket, reject_ticket}
use specora_core.Healer.Security.{Codec, text_at, either, Actor, audit_id, Credentials}
use specora_core.Healer.Security.Planes.{Factory, authorize_control_plane, verify_csrf_token}

pub record Request : Type 0 where
  -- by lower-case names
  pub headers : Dict String
  pub query : Dict String
  pub body : String

pub record Service : Type 0 where
  pub codec : Codec
  -- the registry, whose schemes read the clock
  pub registry : ℕ → Dict Factory
  pub env : Dict String
  pub csrf_fallback : String
  pub setup : Setup
  -- dict(parse_qsl(body, keep_blank_values=True))
  pub parse_qsl : String → Dict String

-- header.partition(" "), without the separator
unfoldable pub partition : String → String × String
partition Text.[] = ("", "")
partition (Text.◌∷◌ c s) =
    let rest = partition s in if eqb (code c) b' ' then ("", s) else (Text.◌∷◌ c rest.0, rest.1)

unfoldable pub bearer : Codec → Request → String
bearer C r =
    let (scheme, value) = partition (text_at "authorization" r.headers) in
    if C.lower scheme == "bearer" then C.strip value else ""

-- (form or {}).get(name, "")
unfoldable pub form_text : String → Option (Dict String) → String
form_text name none = ""
form_text name (some form) = text_at name form

unfoldable pub credentials : Codec → Request → Option (Dict String) → Credentials
credentials C r form = record {
  bearer = bearer C r;
  query_token = text_at "t" r.query;
  form_token = form_text "token" form;
  headers = r.headers;
}

unfoldable pub is_form_post : Request → Bool
is_form_post r =
    let content_type = text_at "content-type" r.headers in
    starts_with "application/x-www-form-urlencoded" content_type
    || starts_with "multipart/form-data" content_type

unfoldable pub parse_form : Service → Request → Dict String
parse_form S r =
    if starts_with "application/x-www-form-urlencoded" (text_at "content-type" r.headers)
    then S.parse_qsl r.body
    else []

-- action in MUTATING_ACTIONS
unfoldable pub is_mutating : String → Bool
is_mutating action = action == "approve" || action == "reject"

unfoldable pub needs_csrf : Request → Actor → Bool
needs_csrf r actor = actor.kind == "proxy" || is_form_post r

unfoldable pub check_csrf :
    Service → Request → String → String → Option (Dict String) → ℕ → Actor → Result (Unit {0})
check_csrf S r ticket_id action form now actor =
    if not (needs_csrf r actor)
    then ok tt
    else verify_csrf_token S.codec S.env S.csrf_fallback
        (either (form_text "csrf" form) (text_at "x-specora-csrf" r.headers)) ticket_id action actor
        now

unfoldable pub burn : String → String → String → Actor → Db → Result Actor × Db
burn ticket_id action stamp actor db =
    if actor.nonce == ""
    then (ok actor, db)
    else (let (fresh, db') =
          consume_token_nonce actor.nonce ticket_id action (audit_id actor) stamp db in
        (
          if fresh
              then ok actor
              else raised (http_error 401 "This approval link has already been used."),
          db',
        ))

unfoldable pub after_csrf :
    Result (Unit {0}) → String → String → String → Actor → Db → Result Actor × Db
after_csrf (raised e) ticket_id action stamp actor db = (raised e, db)
after_csrf (ok _) ticket_id action stamp actor db = burn ticket_id action stamp actor db

unfoldable pub after_chain :
    Service
    → Request
    → String
    → String
    → Option (Dict String)
    → ℕ
    → String
    → Result Actor
    → Db
    → Result Actor × Db
after_chain S r ticket_id action form now stamp (raised e) db = (raised e, db)
after_chain S r ticket_id action form now stamp (ok actor) db =
    if is_mutating action
    then after_csrf (check_csrf S r ticket_id action form now actor) ticket_id action stamp actor db
    else (ok actor, db)

-- The chain's answer for the request.
unfoldable pub authenticated :
    Service → Request → String → String → Option (Dict String) → ℕ → Result Actor
authenticated S r ticket_id action form now =
    authorize_control_plane (S.registry now) S.env (credentials S.codec r form) ticket_id action

unfoldable pub authorize :
    Service → Request → String → String → Option (Dict String) → ℕ → String → Db → Result Actor × Db
authorize S r ticket_id action form now stamp db =
    after_chain S r ticket_id action form now stamp (authenticated S r ticket_id action form now) db

pub data Response : Type 0 where
  json : Value → Response
  -- a ticket as it is shown to an actor
  ticket_page : HealerTicket → Actor → Response
  -- the ticket's id, the message and the form's token
  redirect_page : String → String → String → Response

unfoldable pub show_ticket :
    (HealerTicket → Response) → Option (Option HealerTicket) → Result Response
show_ticket shown none = raised crash
show_ticket shown (some none) = raised (http_error 404 "Ticket not found")
show_ticket shown (some (some t)) = ok (shown t)

-- How a decision that returned False is answered.
unfoldable pub refusal : String → Option (Option HealerTicket) → Result Response
refusal verb none = raised crash
refusal verb (some none) = raised (http_error 404 "Ticket not found")
refusal verb (some (some t)) = raised (
    http_error 400 (
      append "Cannot " (
        append verb
          (append ": ticket is '" (append (status_value t.status) "' (must be 'proposed')")))))

unfoldable pub decision_dict : String → String → Actor → Response
decision_dict ticket_id status actor = json (
    obj (
      field "ticket_id" (str ticket_id)
        (field "status" (str status) (field "actor" (str (audit_id actor)) end))))

unfoldable pub answer :
    String → String → String → Actor → Option Bool × World → Result Response × World
answer ticket_id verb status actor (none, w) = (raised crash, w)
answer ticket_id verb status actor (some true, w) = (ok (decision_dict ticket_id status actor), w)
answer ticket_id verb status actor (some false, w) = (refusal verb (get_ticket w.db ticket_id), w)

unfoldable pub answer_page :
    String → String → String → String → Option Bool × World → Result Response × World
answer_page ticket_id done not_done token (none, w) = (raised crash, w)
answer_page ticket_id done not_done token (some b, w) =
    (ok (redirect_page ticket_id (if b then done else not_done) token), w)
