-- ===== src/Healer/Models/RoundTrip.antt =====
-- `from_dict` of tickets and proposals (healer/models.py), and what it makes of `to_dict`. A value
-- that is not of its field's declared type is refused here, where Python would store it
-- unchecked or convert it.
use specora_core.Prelude.{
  String, ◌≡◌, refl, true, ◌≢◌, eq_iff, List, [], ◌∷◌, Option, none, some, ◌==◌, if◌then◌else◌,
  arith, ap, Bool-cases, inl, inr,
}
use specora_core.Prelude.Options.{◌>>=◌}
use specora_core.Json.{
  ℤ, pos, Value, null, bool, int, float, str, arr, obj, Items, nil, cons, Fields, end, get, get_or,
  truthy,
}
use specora_core.Healer.Models.{
  TicketSource, TicketStatus, Priority, LlmUsage, ProposalProvenance, Change, plain, dump_changes,
  HealerProposal, HealerTicket, source_value, status_value, priority_value, source_of, status_of,
  priority_of, usage_dict, provenance_dict, proposal_dict, ticket_dict, optional, validation,
  compilation, runtime, manual, queued, analyzing, proposed, approved, applied, failed, rejected,
  critical, high, medium, low,
}

-- Reading a value at the type that the dataclass field has. The source stores whatever JSON holds;
-- a value of another type is outside this model and reads as `none`.
as_str : Value → Option String
as_str (str s) = some s
as_str _ = none

as_optional : Value → Option (Option String)
as_optional null = some none
as_optional (str s) = some (some s)
as_optional _ = none

as_int : Value → Option ℤ
as_int (int n) = some n
as_int _ = none

as_float : Value → Option String
as_float (float s) = some s
as_float _ = none

as_dict : Value → Option Fields
as_dict (obj d) = some d
as_dict _ = none

as_list : Value → Option Items
as_list (arr vs) = some vs
as_list _ = none

pub usage_from : Fields → Option LlmUsage
unfolding as_str as_int as_float get_or
usage_from d = do
  model_id ← as_str (get_or "model_id" (str "") d)
  provider ← as_str (get_or "provider" (str "") d)
  prompt_version ← as_str (get_or "prompt_version" (str "") d)
  input_tokens ← as_int (get_or "input_tokens" (int (pos 0)) d)
  output_tokens ← as_int (get_or "output_tokens" (int (pos 0)) d)
  latency_ms ← as_int (get_or "latency_ms" (int (pos 0)) d)
  cost_usd ← as_float (get_or "cost_usd" (float "0.0") d)
  error ← as_str (get_or "error" (str "") d)
  some (record {
    model_id = model_id;
    provider = provider;
    prompt_version = prompt_version;
    input_tokens = input_tokens;
    output_tokens = output_tokens;
    latency_ms = latency_ms;
    cost_usd = cost_usd;
    ok = truthy (get_or "ok" (bool true) d);
    error = error;
  })

-- LLMUsage.from_dict(usage) if usage else None
usage_if : Value → Option (Option LlmUsage)
unfolding usage_from truthy as_dict
usage_if v = if truthy v then (do d ← as_dict v; u ← usage_from d; some (some u)) else some none

pub provenance_from : Fields → Option ProposalProvenance
unfolding usage_if
provenance_from d = do
  proposer ← as_str (get_or "proposer" (str "") d)
  proposer_version ← as_str (get_or "proposer_version" (str "") d)
  model_id ← as_str (get_or "model_id" (str "") d)
  provider ← as_str (get_or "provider" (str "") d)
  prompt_version ← as_str (get_or "prompt_version" (str "") d)
  usage ← usage_if (get_or "usage" null d)
  attempts ← as_int (get_or "attempts" (int (pos 0)) d)
  some (record {
    proposer = proposer;
    proposer_version = proposer_version;
    model_id = model_id;
    provider = provider;
    prompt_version = prompt_version;
    usage = usage;
    attempts = attempts;
  })

abbrev no_provenance : ProposalProvenance
no_provenance = record {
  proposer = "";
  proposer_version = "";
  model_id = "";
  provider = "";
  prompt_version = "";
  usage = none;
  attempts = pos 0;
}

-- `ProposalProvenance.from_dict(provenance) if provenance else None`, and the constructor's
-- `provenance or ProposalProvenance()`
provenance_if : Value → Option ProposalProvenance
unfolding provenance_from
provenance_if v = if truthy v then (do d ← as_dict v; provenance_from d) else some no_provenance

-- d.get("changes", []), whose entries stay the values that they are
abbrev pub read_changes : Items → List Change
read_changes nil = []
read_changes (cons v vs) = plain v ∷ read_changes vs

pub proposal_from : Fields → Option HealerProposal
unfolding as_list as_str as_dict as_float
proposal_from d = do
  contract_fqn ← get "contract_fqn" d >>= as_str
  before ← get "before" d >>= as_dict
  after ← get "after" d >>= as_dict
  changes ← as_list (get_or "changes" (arr nil) d)
  explanation ← get "explanation" d >>= as_str
  confidence ← get "confidence" d >>= as_float
  method ← get "method" d >>= as_str
  provenance ← provenance_if (get_or "provenance" null d)
  some (record {
    contract_fqn = contract_fqn;
    before = before;
    after = after;
    changes = read_changes changes;
    explanation = explanation;
    confidence = confidence;
    method = method;
    provenance = provenance;
  })

unfoldable pub proposal_if : Value → Option (Option HealerProposal)
unfolding truthy as_dict
proposal_if v =
    if truthy v then (do d ← as_dict v; p ← proposal_from d; some (some p)) else some none

-- A falsy `resolved_at`, None or "", is None.
unfoldable pub resolved_if : Value → Option (Option String)
unfolding truthy as_str
resolved_if v = if truthy v then (do s ← as_str v; some (some s)) else some none

pub ticket_from : Fields → Option HealerTicket
unfolding resolved_if as_optional as_str as_dict as_int
ticket_from d = do
  id ← get "id" d >>= as_str
  source ← get "source" d >>= as_str >>= source_of
  contract_fqn ← as_optional (get_or "contract_fqn" null d)
  error_type ← as_str (get_or "error_type" (str "") d)
  raw_error ← get "raw_error" d >>= as_str
  context ← as_dict (get_or "context" (obj end) d)
  status ← get "status" d >>= as_str >>= status_of
  tier ← as_int (get_or "tier" (int (pos 0)) d)
  priority ← as_str (get_or "priority" (str "medium") d) >>= priority_of
  proposal ← proposal_if (get_or "proposal" null d)
  created_at ← get "created_at" d >>= as_str
  resolved_at ← resolved_if (get_or "resolved_at" null d)
  resolution_note ← as_str (get_or "resolution_note" (str "") d)
  some (record {
    id = id;
    source = source;
    contract_fqn = contract_fqn;
    error_type = error_type;
    raw_error = raw_error;
    context = context;
    status = status;
    tier = tier;
    priority = priority;
    proposal = proposal;
    created_at = created_at;
    resolved_at = resolved_at;
    resolution_note = resolution_note;
  })

-- ------------------------------------------------------------------ round trips

pub source_of-value : (s : TicketSource) → source_of (source_value s) ≡ some s
unfolding source_of source_value
source_of-value validation = refl
source_of-value compilation = refl
source_of-value runtime = refl
source_of-value manual = refl

pub status_of-value : (s : TicketStatus) → status_of (status_value s) ≡ some s
unfolding status_of status_value
status_of-value queued = refl
status_of-value analyzing = refl
status_of-value proposed = refl
status_of-value approved = refl
status_of-value applied = refl
status_of-value failed = refl
status_of-value rejected = refl

pub priority_of-value : (p : Priority) → priority_of (priority_value p) ≡ some p
unfolding priority_of priority_value
priority_of-value critical = refl
priority_of-value high = refl
priority_of-value medium = refl
priority_of-value low = refl

usage_from-dict : (u : LlmUsage) → usage_from (usage_dict u) ≡ some u
unfolding usage_from usage_dict get truthy
usage_from-dict u = refl

provenance_from-dict : (p : ProposalProvenance) → provenance_from (provenance_dict p) ≡ some p
unfolding provenance_from provenance_dict get truthy
provenance_from-dict p = go p.usage refl
  where
    go : (u : Option LlmUsage) → p.usage ≡ u → provenance_from (provenance_dict p) ≡ some p
    go none e = ground (arith)
    go (some u) e = ground (arith)

provenance_if-dict : (p : ProposalProvenance) → provenance_if (obj (provenance_dict p)) ≡ some p
unfolding provenance_if provenance_dict truthy as_dict
provenance_if-dict p = unfold provenance_dict in provenance_from-dict p

-- The proposal with its FieldChange objects as the dictionaries that they are dumped to.
abbrev pub dumped : HealerProposal → HealerProposal
dumped p = record p { changes = read_changes (dump_changes p.changes) }

abbrev pub dumped_if : Option HealerProposal → Option HealerProposal
dumped_if none = none
dumped_if (some p) = some (dumped p)

abbrev pub dumped_ticket : HealerTicket → HealerTicket
dumped_ticket t = record t { proposal = dumped_if t.proposal }

proposal_from-dict : (p : HealerProposal) → proposal_from (proposal_dict p) ≡ some (dumped p)
unfolding proposal_from proposal_dict get get_or
proposal_from-dict p = rw (provenance_if-dict p.provenance)

truthy-proposal_dict : (p : HealerProposal) → truthy (obj (proposal_dict p)) ≡ true
unfolding proposal_dict truthy
truthy-proposal_dict p = refl

pub proposal_if-dict :
    (o : Option HealerProposal)
    → proposal_if (elim o [ none ↦ null | some p ↦ obj (proposal_dict p) ]) ≡ some (dumped_if o)
unfolding proposal_if as_dict
proposal_if-dict none = unfold truthy in refl
proposal_if-dict (some p) = rw (truthy-proposal_dict p, proposal_if, proposal_from-dict p)

as_optional-optional : (o : Option String) → as_optional (optional o) ≡ some o
unfolding as_optional
as_optional-optional none = refl
as_optional-optional (some s) = refl

pub resolved_if-optional : (o : Option String) → o ≢ some "" → resolved_if (optional o) ≡ some o
unfolding resolved_if truthy as_str
resolved_if-optional none h = refl
resolved_if-optional (some s) h = elim (Bool-cases (s == "")) [
  | inl e ↦ absurd (h (ap {B = Option String} some ((eq_iff s "").0 e)))
  | inr e ↦ rw e
]

-- A ticket whose resolution time is not the empty text comes back from its dictionary, whole but for
-- the FieldChange objects of its proposal, which come back as the dictionaries they were dumped to.
pub ticket_from-dict :
    (t : HealerTicket)
    → t.resolved_at ≢ some ""
    → ticket_from (ticket_dict t) ≡ some (dumped_ticket t)
unfolding ticket_from ticket_dict get get_or
ticket_from-dict t h = rw (
  source_of-value t.source,
  as_optional-optional t.contract_fqn,
  status_of-value t.status,
  priority_of-value t.priority,
  proposal_if-dict t.proposal,
  resolved_if-optional t.resolved_at h,
)
