-- ===== src/Healer/Pipeline.antt =====
-- The pipeline (healer/pipeline.py): claim, classify, propose, apply or hold for approval. The
-- world is the ticket database, the disk and the notification log; each method takes it and
-- returns it, with `none` for an exception, after which the world is as far as the method came.
-- The clock's text is an argument: a run resolves a ticket once. The proposers, the generators,
-- the threshold test and what the applier calls are the record `Setup`. Webhooks and console
-- output are left out.
pub mod Settling
pub mod Tiers
pub mod Gate
pub mod Approval
pub mod Edits
use Prim.Native.Char.{Char, code}
use Prim.Native.String as Text
use specora_core.Prelude.{
  ℕ, String, Bool, true, false, ◌&&◌, ◌||◌, Option, none, some, List, [], ◌∷◌, ◌++◌, ◌==◌, eqb,
  if◌then◌else◌, lookup, put, Dict,
}
use specora_core.Json.{ℤ, pos, Value, null, Fields, truthy}
use specora_core.Healer.Models.{
  TicketStatus, TicketSource, validation, compilation, runtime, manual, source_value, Priority,
  priority_value, status_value, LlmUsage, HealerProposal, HealerTicket, proposed, approved, applied,
  failed, rejected,
}
use specora_core.Healer.Queue.{
  Db, claim_next, get_ticket, update_status, set_classification, set_proposal, record_llm_usage,
}
use specora_core.Healer.Classifier.{Classification, classify_validation_error, classify_raw_error}
use specora_core.Healer.Applier.{
  Outside, Loaded, loaded, yaml_error, Disk, ApplyResult, apply_fix, glue, join,
}

pub record Notice : Type 0 where
  pub event : String
  pub ticket_id : String
  pub contract_fqn : Option String
  pub status : String
  pub tier : ℤ
  pub priority : String
  pub message : String

pub record World : Type 0 where
  pub db : Db
  pub disk : Disk
  pub log : List Notice

pub record Setup : Type 0 where
  pub outside : Outside
  pub domains_root : String
  -- confidence >= auto_apply_min_confidence
  pub clears : String → Bool
  -- propose_deterministic_fix; the outer `none` is an exception
  pub deterministic : String → Value → Option (Option HealerProposal)
  -- propose_llm_fix: the usage that the governor records, and the proposal
  pub llm : HealerTicket → Value → World → List (LlmUsage × String) × Option (Option HealerProposal)
  -- the files that a regeneration writes, and its summary ("" on failure)
  pub regenerate : Dict String → List (String × String) × String

-- text[:n]
pub cut : ℕ → String → String
cut ℕ.zero s = ""
cut (ℕ.suc n) Text.[] = ""
cut (ℕ.suc n) (Text.◌∷◌ c s) = Text.◌∷◌ c (cut n s)

unfoldable pub notify : HealerTicket → String → String → World → World
unfolding cut
notify t event message w = record w {
  log =
      w.log
      ++ (record {
        event = event;
        ticket_id = t.id;
        contract_fqn = t.contract_fqn;
        status = status_value t.status;
        tier = t.tier;
        priority = priority_value t.priority;
        message = if message == "" then cut 500 t.raw_error else message;
      })
        ∷ [];
}

unfoldable pub set_status : String → TicketStatus → String → String → World → World
set_status i s note now w = record w { db = update_status i s note now w.db }

abbrev pub or_blank : Option String → String
or_blank none = ""
or_blank (some s) = s

-- text.split("/")
push_char : Char → List String → List String
push_char c [] = Text.◌∷◌ c "" ∷ []
push_char c (p ∷ ps) = Text.◌∷◌ c p ∷ ps

split : String → List String
unfolding push_char
split Text.[] = "" ∷ []
split (Text.◌∷◌ c s) = if eqb (code c) b'/' then "" ∷ split s else push_char c (split s)

-- Of the kinds in `kind_dirs` only these two are not `kind + "s"`.
kind_dir : String → String
kind_dir kind =
    if kind == "entity" then "entities" else if kind == "infra" then "infra" else glue kind "s"

-- path / part: pathlib drops an empty part and "."
in_dir : String → String → String
in_dir path part = if part == "" || part == "." then path else glue path (glue "/" part)

unfoldable pub find_contract_path : Setup → World → String → Option String
unfolding split kind_dir in_dir
find_contract_path S w fqn = elim (split fqn) [
  | kind ∷ domain ∷ name ∷ [] ↦
      let path =
        in_dir (in_dir (in_dir S.domains_root domain) (kind_dir kind))
          (glue name ".contract.yaml") in
      elim (lookup path w.disk.files) [ none ↦ none | some _ ↦ some path ]
  | _ ↦ none
]

-- A YAMLError is raised on; None stands as `null`.
unfoldable pub load_contract : Setup → World → String → Option Value
unfolding find_contract_path
load_contract S w fqn = elim (find_contract_path S w fqn) [
  | none ↦ some null
  | some path ↦ elim (lookup path w.disk.files) [
    | none ↦ some null
    | some text ↦ elim (S.outside.safe_load text) [ yaml_error _ ↦ none | loaded v ↦ some v ]
  ]
]

unfoldable pub classify : HealerTicket → Option Classification
classify t = elim t.source [
  | validation ↦ some (classify_validation_error t.raw_error)
  | compilation ↦ classify_raw_error (source_value t.source) t.raw_error t.context
  | runtime ↦ classify_raw_error (source_value t.source) t.raw_error t.context
  | manual ↦ classify_raw_error (source_value t.source) t.raw_error t.context
]

record_all : String → List (LlmUsage × String) → Db → Db
record_all i [] db = db
record_all i ((u, now) ∷ us) db = record_all i us (record_llm_usage i u now db)

ask_llm : Setup → HealerTicket → Value → World → Option (Option HealerProposal) × World
unfolding record_all
ask_llm S t contract w =
    let (usage, answer) = S.llm t contract w in
    (answer, record w { db = record_all t.id usage w.db })

propose_for : Setup → HealerTicket → Value → World → Option (Option HealerProposal) × World
unfolding ask_llm
propose_for S t contract w =
    if truthy contract
    then elim (S.deterministic (or_blank t.contract_fqn) contract) [
      | none ↦ (none, w)
      | some (some p) ↦ (some (some p), w)
      | some none ↦ ask_llm S t contract w
    ]
    else (some none, w)

unfoldable pub propose : Setup → HealerTicket → World → Option (Option HealerProposal) × World
unfolding propose_for load_contract
propose S t w =
    if or_blank t.contract_fqn == ""
    then (some none, w)
    else elim (load_contract S w (or_blank t.contract_fqn)) [
      | none ↦ (none, w)
      | some contract ↦ propose_for S t contract w
    ]

pub write_all : List (String × String) → Dict String → Dict String
write_all [] files = files
write_all ((path, text) ∷ fs) files = write_all fs (put path text files)

auto_regenerate : Setup → HealerTicket → World → World
unfolding write_all notify
auto_regenerate S t w =
    let (written, summary) = S.regenerate w.disk.files in
    let w' = record w { disk = record (w.disk) { files = write_all written w.disk.files } } in
    if summary == "" then w' else notify t "applied" (glue "🔄 Auto-regenerated: " summary) w'

pub applied_note : String → List String → String
applied_note actor notes =
    let note =
      glue "Fix applied (approved by " (glue (if actor == "" then "unattributed" else actor) ")") in
    elim notes [ [] ↦ note | n ∷ ns ↦ glue note (glue " — " (join (n ∷ ns))) ]

-- What `apply_fix` returned is written down; `false` is an exception, here and below.
unfoldable pub conclude :
    Setup
    → HealerTicket
    → HealerProposal
    → String
    → String
    → Option ApplyResult
    → World
    → Bool × World
unfolding auto_regenerate applied_note
conclude S t p actor now none w = (false, w)
conclude S t p actor now (some result) w = (
  true,
  if result.success
      then auto_regenerate S t (
          notify t "applied" p.explanation
            (set_status t.id applied (applied_note actor result.notes) now w))
      else notify t "failed" result.error (set_status t.id failed result.error now w),
)

apply_at : Setup → HealerTicket → HealerProposal → String → String → String → World → Bool × World
unfolding conclude
apply_at S t p path actor now w =
    let (result, disk) = apply_fix S.outside p path t.id actor w.disk in
    conclude S t p actor now result (record w { disk = disk })

fqn_text : Option String → String
fqn_text none = "None"
fqn_text (some s) = s

unfoldable pub apply_and_notify : Setup → HealerTicket → String → String → World → Bool × World
unfolding apply_at fqn_text
apply_and_notify S t actor now w = elim t.proposal [
  | none ↦ (true, set_status t.id failed "No proposal" now w)
  | some p ↦ elim (find_contract_path S w (or_blank t.contract_fqn)) [
    | none ↦ (
      true,
      notify t "failed" "Contract file not found" (
          set_status t.id failed (glue "Contract file not found for " (fqn_text t.contract_fqn)) now
            w),
    )
    | some path ↦ apply_at S t p path actor now w
  ]
]

abbrev give_up : HealerTicket → String → String → String → World → World
give_up t note message now w = notify t "failed" message (set_status t.id failed note now w)

-- tier == 1
pub is_tier_1 : ℤ → Bool
is_tier_1 (pos n) = eqb n 1
is_tier_1 _ = false

-- Stage 4, for a ticket that has `p`.
unfoldable pub apply_or_hold : Setup → HealerTicket → HealerProposal → String → World → Bool × World
unfolding is_tier_1
apply_or_hold S t p now w =
    if is_tier_1 t.tier && S.clears p.confidence
    then apply_and_notify S t "healer:auto" now w
    else (true, notify t "proposed" p.explanation (set_status t.id proposed "" now w))

-- What `propose` returned, and the rest.
unfoldable pub after_propose :
    Setup → HealerTicket → String → Option (Option HealerProposal) → World → Bool × World
unfolding apply_or_hold
after_propose S t now none w = (false, w)
after_propose S t now (some none) w =
    (true, give_up t "No contract fix could be proposed" "No contract fix proposed" now w)
after_propose S t now (some (some p)) w =
    apply_or_hold S (record t { proposal = some p }) p now
      (record w { db = set_proposal t.id p w.db })

unfoldable pub process_classified : Setup → HealerTicket → String → String → World → Bool × World
unfolding after_propose
process_classified S t fixable_by now w =
    if fixable_by == "generator"
    then (
      true,
      give_up t "Generator bug — not fixable by contract. Fix the generator and regenerate."
          (glue "⚙\u{fe0f} Generator bug (not a contract issue): " (cut 100 t.raw_error)) now w,
    )
    else if fixable_by == "data"
    then (
      true,
      give_up t "Data issue — not fixable by contract. Check the data or database constraints."
          (glue "💾 Data issue (not a contract issue): " (cut 100 t.raw_error)) now w,
    )
    else (let (answer, w') = propose S t w in after_propose S t now answer w')

abbrev pub classified : HealerTicket → Classification → HealerTicket
classified t c = record t { error_type = c.error_type; tier = pos c.tier; priority = c.priority }

unfoldable pub process_ticket : Setup → HealerTicket → String → World → Bool × World
unfolding process_classified
process_ticket S t now w = elim (classify t) [
  | none ↦ (false, w)
  | some c ↦
      process_classified S (classified t c) c.fixable_by now
        (record w { db = set_classification t.id c.error_type (pos c.tier) c.priority w.db })
]

unfoldable pub process_next : Setup → String → World → Option Bool × World
unfolding process_ticket
process_next S now w =
    let (claim, db) = claim_next w.db in
    elim claim [
      | none ↦ (none, record w { db = db })
      | some none ↦ (some false, record w { db = db })
      | some (some t) ↦
          let (ran, w') = process_ticket S t now (record w { db = db }) in
          ((if ran then some true else none), w')
    ]

unfoldable pub is_proposed : TicketStatus → Bool
is_proposed proposed = true
is_proposed _ = false

-- `return True` behind a call that may raise
unfoldable pub returned : Bool × World → Option Bool × World
returned (true, w) = (some true, w)
returned (false, w) = (none, w)

unfoldable pub approve_ticket : Setup → String → String → String → World → Option Bool × World
unfolding is_proposed returned
approve_ticket S i actor now w = elim (get_ticket w.db i) [
  | none ↦ (none, w)
  | some none ↦ (some false, w)
  | some (some t) ↦
      if is_proposed t.status
      then returned (
          apply_and_notify S t (if actor == "" then "unattributed" else actor) now
            (set_status i approved "" now w))
      else (some false, w)
]

unfoldable pub reject_ticket : String → String → String → String → World → Option Bool × World
unfolding is_proposed
reject_ticket i reason actor now w = elim (get_ticket w.db i) [
  | none ↦ (none, w)
  | some none ↦ (some false, w)
  | some (some t) ↦
      if is_proposed t.status
      then (let note =
            if actor == "" then reason else glue reason (glue " (rejected by " (glue actor ")")) in
          (some true, notify t "rejected" note (set_status i rejected note now w)))
      else (some false, w)
]
