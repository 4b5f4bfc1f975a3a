-- ===== src/Healer/Models.antt =====
-- Tickets, proposals and their dictionary forms (healer/models.py, and `LLMUsage` of
-- healer/cost.py). A datetime stands as its `isoformat()` text and a float as its `repr`.
pub mod RoundTrip
use specora_core.Prelude.{
  ℕ, String, ◌≡◌, Bool, true, false, Option, none, some, List, [], ◌∷◌, ◌==◌, if◌then◌else◌,
}
use specora_core.Prelude.Options.{◌>>=◌}
use specora_core.Json.{
  ℤ, pos, negsuc, Value, null, bool, int, float, str, arr, obj, Items, nil, cons, Fields, end,
  field, get, get_or, truthy,
}

pub data TicketSource : Type 0 where
  validation compilation runtime manual : TicketSource

pub data TicketStatus : Type 0 where
  queued analyzing proposed approved applied failed rejected : TicketStatus

pub data Priority : Type 0 where
  critical high medium low : Priority

unfoldable pub source_value : TicketSource → String
source_value validation = "validation"
source_value compilation = "compilation"
source_value runtime = "runtime"
source_value manual = "manual"

unfoldable pub status_value : TicketStatus → String
status_value queued = "queued"
status_value analyzing = "analyzing"
status_value proposed = "proposed"
status_value approved = "approved"
status_value applied = "applied"
status_value failed = "failed"
status_value rejected = "rejected"

unfoldable pub priority_value : Priority → String
priority_value critical = "critical"
priority_value high = "high"
priority_value medium = "medium"
priority_value low = "low"

-- TicketSource(text); `none` is the ValueError.
unfoldable pub source_of : String → Option TicketSource
source_of s =
    if s == "validation"
    then some validation
    else if s == "compilation"
    then some compilation
    else if s == "runtime"
    then some runtime
    else if s == "manual"
    then some manual
    else none

unfoldable pub status_of : String → Option TicketStatus
status_of s =
    if s == "queued"
    then some queued
    else if s == "analyzing"
    then some analyzing
    else if s == "proposed"
    then some proposed
    else if s == "approved"
    then some approved
    else if s == "applied"
    then some applied
    else if s == "failed"
    then some failed
    else if s == "rejected"
    then some rejected
    else none

unfoldable pub priority_of : String → Option Priority
priority_of s =
    if s == "critical"
    then some critical
    else if s == "high"
    then some high
    else if s == "medium"
    then some medium
    else if s == "low"
    then some low
    else none

-- PRIORITY_ORDER
unfoldable pub priority_order : Priority → ℕ
priority_order critical = 0
priority_order high = 1
priority_order medium = 2
priority_order low = 3

pub record LlmUsage : Type 0 where
  pub model_id : String
  pub provider : String
  pub prompt_version : String
  pub input_tokens : ℤ
  pub output_tokens : ℤ
  pub latency_ms : ℤ
  pub cost_usd : String
  pub ok : Bool
  pub error : String

pub record ProposalProvenance : Type 0 where
  pub proposer : String
  pub proposer_version : String
  pub model_id : String
  pub provider : String
  pub prompt_version : String
  pub usage : Option LlmUsage
  pub attempts : ℤ

-- `FieldChange` of forge/diff/models.py. Its old and new values are values of a contract, which
-- pydantic's `model_dump(mode="json")` keeps.
pub record FieldChange : Type 0 where
  pub path : String
  pub old_value : Value
  pub new_value : Value
  pub change_type : String

-- An entry of `changes`: an object with a `model_dump`, or any other value.
pub data Change : Type 0 where
  field_change : FieldChange → Change
  plain : Value → Change

pub record HealerProposal : Type 0 where
  pub contract_fqn : String
  pub before : Fields
  pub after : Fields
  pub changes : List Change
  pub explanation : String
  pub confidence : String
  pub method : String
  pub provenance : ProposalProvenance

pub record HealerTicket : Type 0 where
  pub id : String
  pub source : TicketSource
  pub contract_fqn : Option String
  pub error_type : String
  pub raw_error : String
  pub context : Fields
  pub status : TicketStatus
  pub tier : ℤ
  pub priority : Priority
  pub proposal : Option HealerProposal
  pub created_at : String
  pub resolved_at : Option String
  pub resolution_note : String

-- ------------------------------------------------------------------ to_dict

-- A text or None.
abbrev pub optional : Option String → Value
optional none = null
optional (some s) = str s

unfoldable pub usage_dict : LlmUsage → Fields
usage_dict u = field "model_id" (str u.model_id) (
    field "provider" (str u.provider) (
      field "prompt_version" (str u.prompt_version) (
        field "input_tokens" (int u.input_tokens) (
          field "output_tokens" (int u.output_tokens) (
            field "latency_ms" (int u.latency_ms) (
              field "cost_usd" (float u.cost_usd)
                (field "ok" (bool u.ok) (field "error" (str u.error) end))))))))

unfoldable pub provenance_dict : ProposalProvenance → Fields
unfolding usage_dict
provenance_dict p = field "proposer" (str p.proposer) (
    field "proposer_version" (str p.proposer_version) (
      field "model_id" (str p.model_id) (
        field "provider" (str p.provider) (
          field "prompt_version" (str p.prompt_version) (
            field "usage" (elim p.usage [ none ↦ null | some u ↦ obj (usage_dict u) ])
              (field "attempts" (int p.attempts) end))))))

abbrev pub dump_change : Change → Value
dump_change (field_change c) = obj (
    field "path" (str c.path) (
      field "old_value" c.old_value
        (field "new_value" c.new_value (field "change_type" (str c.change_type) end))))
dump_change (plain v) = v

abbrev pub dump_changes : List Change → Items
dump_changes [] = nil
dump_changes (c ∷ cs) = cons (dump_change c) (dump_changes cs)

unfoldable pub proposal_dict : HealerProposal → Fields
unfolding provenance_dict
proposal_dict p = field "contract_fqn" (str p.contract_fqn) (
    field "before" (obj p.before) (
      field "after" (obj p.after) (
        field "changes" (arr (dump_changes p.changes)) (
          field "explanation" (str p.explanation) (
            field "confidence" (float p.confidence) (
              field "method" (str p.method)
                (field "provenance" (obj (provenance_dict p.provenance)) end)))))))

unfoldable pub ticket_dict : HealerTicket → Fields
ticket_dict t = field "id" (str t.id) (
    field "source" (str (source_value t.source)) (
      field "contract_fqn" (optional t.contract_fqn) (
        field "error_type" (str t.error_type) (
          field "raw_error" (str t.raw_error) (
            field "context" (obj t.context) (
              field "status" (str (status_value t.status)) (
                field "tier" (int t.tier) (
                  field "priority" (str (priority_value t.priority)) (
                    field "proposal"
                      (elim t.proposal [ none ↦ null | some p ↦ obj (proposal_dict p) ])
                      (field "created_at" (str t.created_at) (
                        field "resolved_at" (optional t.resolved_at)
                          (field "resolution_note" (str t.resolution_note) end))))))))))))
