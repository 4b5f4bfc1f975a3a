-- ===== src/Healer/Tests.antt =====
-- The healer on two tickets: one that the pipeline repairs by itself and one without a contract.
use specora_core.Prelude.{
  String, ◌≡◌, ◌≢◌, refl, true, false, Option, none, some, List, [], ◌∷◌, ◌⊎◌, ◌==◌, All, length,
  lookup, subst, sym, ◌∙◌, some-injective,
}
use mathlib.Core.List.{Perm}
use specora_core.Json.{pos, obj, str, Fields, end, field, truthy, eq_value}
use specora_core.Healer.Models.{
  validation, queued, proposed, high, ProposalProvenance, HealerProposal, field_change,
  HealerTicket, ticket_dict, status_value, priority_order,
}
use specora_core.Healer.Models.RoundTrip.{dumped_ticket, ticket_from, ticket_from-dict}
use specora_core.Healer.Queue.{
  Row, Db, empty_db, row_of, row_at, enqueue, get_ticket, claimed, claim_row, claim_next, update_at,
  is_queued, list_rows, stats, next_row, precedes,
}
use specora_core.Healer.Queue.Rows.{IsTable, get-enqueue, enqueue-IsTable}
use specora_core.Healer.Queue.Claims.{IsClaim, claim_row-IsClaim, claim_twice}
use specora_core.Healer.Queue.Listing.{
  IsSelection, Matches, IsSorted, list_rows_lem, count_in, count_status, stats_lem,
}
use specora_core.Healer.Classifier.{Classification, classify_validation_error}
use specora_core.Healer.Applier.{Outside, loaded, Disk, apply_fix, strip_fields}
use specora_core.Healer.Applier.Atomic.{Outcome, apply_fix-Outcome}
use specora_core.Healer.Pipeline.{
  Setup, World, classify, process_next, process_ticket, apply_and_notify, propose, approve_ticket,
  is_proposed, find_contract_path, set_status, returned,
}
use specora_core.Healer.Pipeline.Gate.{IsAutomatic, process_next-gate}
use specora_core.Healer.Pipeline.Edits.{process_ticket-ends}
use specora_core.Healer.Pipeline.Tiers.{Fits, classify-Fits}
use specora_core.Healer.Pipeline.Approval.{approval, rejection, decide, decide_once}

abbrev ticket : String → Option String → HealerTicket
ticket id fqn = record {
  id = id;
  source = validation;
  contract_fqn = fqn;
  error_type = "";
  raw_error = "'Name' does not match '^[a-z][a-z0-9_]*$'";
  context = end;
  status = queued;
  tier = pos 0;
  priority = high;
  proposal = none;
  created_at = "2026-01-01T00:00:00";
  resolved_at = none;
  resolution_note = "";
}

abbrev first : HealerTicket
first = ticket "t1" (some "entity/it/incident")

abbrev second : HealerTicket
second = ticket "t2" none

abbrev rows : List Row
rows = row_of first ∷ row_of second ∷ []

abbrev db : Db
db = record empty_db { tickets = rows }

abbrev repaired : Fields
repaired = field "kind" (str "Entity") (field "name" (str "incident") end)

abbrev unknown : ProposalProvenance
unknown = record {
  proposer = "deterministic";
  proposer_version = "1";
  model_id = "";
  provider = "";
  prompt_version = "";
  usage = none;
  attempts = pos 1;
}

abbrev fix : HealerProposal
fix = record {
  contract_fqn = "entity/it/incident";
  before = end;
  after = field "_source_path" (str "/tmp/x") repaired;
  changes = [];
  explanation = "Normalized the name";
  confidence = "1.0";
  method = "deterministic";
  provenance = unknown;
}

-- A validator that finds no error, one YAML text, and a disk that takes every write.
abbrev outside : Outside
outside = record {
  validate = λ v. [];
  dump = λ d. "kind: Entity";
  safe_load = λ s. loaded (obj repaired);
  write_error = λ path text. none;
  saves = λ diff. true;
}

abbrev pub setup : Setup
setup = record {
  outside = outside;
  domains_root = "domains";
  clears = λ c. c == "1.0";
  deterministic = λ fqn contract. some (some fix);
  llm = λ t contract w. ([], some none);
  regenerate = λ files. ([], "");
}

abbrev path : String
path = "domains/it/entities/incident.contract.yaml"

abbrev disk : Disk
disk = record { files = (path, "kind: Entity\nname: Incident") ∷ []; diffs = [] }

abbrev pub world : World
world = record { db = db; disk = disk; log = [] }

-- ------------------------------------------------------------------ the queue

empty-IsTable : IsTable []
empty-IsTable = record { ids_distinct = tt; rows_read = tt }

abbrev one_row : Db
one_row = record empty_db { tickets = row_of first ∷ [] }

enqueue-first : enqueue first empty_db ≡ some one_row
unfolding enqueue
enqueue-first = refl

enqueue-second : enqueue second one_row ≡ some db
unfolding enqueue row_of
enqueue-second = refl

unresolved : (t : HealerTicket) → t.resolved_at ≡ none → t.resolved_at ≢ some ""
unresolved t h k = cc (h, k)

one_row-IsTable : IsTable one_row.tickets
one_row-IsTable = enqueue-IsTable first empty_db (unresolved first refl) enqueue-first empty-IsTable

db-IsTable : IsTable rows
db-IsTable = enqueue-IsTable second one_row (unresolved second refl) enqueue-second one_row-IsTable

enqueue-IsTable_example : IsTable rows
enqueue-IsTable_example =
    enqueue-IsTable second one_row (unresolved second refl) enqueue-second one_row-IsTable

get-enqueue_example :
    (db' : Db) × (enqueue second one_row ≡ some db')
    × (get_ticket db' "t2" ≡ some (some (dumped_ticket second)))
    × ((i : String) → "t2" == i ≡ false → get_ticket db' i ≡ get_ticket one_row i)
unfolding row_at row_of
get-enqueue_example = get-enqueue second one_row (unresolved second refl) refl

abbrev renaming : HealerTicket
renaming = record first {
  proposal = some (record fix {
    changes =
        field_change (record {
          path = "metadata.name";
          old_value = str "Incident";
          new_value = str "incident";
          change_type = "modified";
        })
        ∷ [];
  });
}

ticket_from-dict_example : ticket_from (ticket_dict renaming) ≡ some (dumped_ticket renaming)
ticket_from-dict_example = ticket_from-dict renaming (unresolved renaming refl)

abbrev rows_1 : List Row
rows_1 = claimed (row_of first) ∷ row_of second ∷ []

abbrev rows_2 : List Row
rows_2 = claimed (row_of first) ∷ claimed (row_of second) ∷ []

first_claim : claim_row rows ≡ (some (claimed (row_of first)), rows_1)
unfolding claim_row row_of next_row status_value precedes priority_order
first_claim = refl

second_claim : claim_row rows_1 ≡ (some (claimed (row_of second)), rows_2)
unfolding claim_row row_of next_row status_value
second_claim = refl

claim_row-IsClaim_example :
    ((claim_row rows ≡ (none, rows)) × All (λ s. is_queued s ≡ false) rows)
    ⊎ ((r : Row) × (claim_row rows ≡ (some (claimed r), update_at r.id claimed rows))
        × IsClaim rows (update_at r.id claimed rows) r)
claim_row-IsClaim_example = claim_row-IsClaim rows db-IsTable

claim_twice_example : "t1" == "t2" ≡ false
unfolding row_of
claim_twice_example =
    claim_twice rows rows_1 rows_2 (claimed (row_of first)) (claimed (row_of second)) db-IsTable
      first_claim second_claim

list_rows_lem_example :
    (kept : List Row) × IsSelection
      (Matches (some queued) none (some "entity/it/incident"))
      rows
      kept
    × Perm (list_rows (some queued) none (some "entity/it/incident") db) kept
    × IsSorted (list_rows (some queued) none (some "entity/it/incident") db)
list_rows_lem_example = list_rows_lem (some queued) none (some "entity/it/incident") db

stats_lem_example :
    (count_in "queued" (stats db).0 ≡ count_status "queued" rows) × ((stats db).1 ≡ length rows)
stats_lem_example = stats_lem db "queued"

-- ------------------------------------------------------------------ the pipeline

abbrev classification : Classification
classification = record {
  error_type = "naming";
  tier = 1;
  priority = high;
  fixable_by = "contract";
}

classify-first : classify first ≡ some classification
unfolding classify classify_validation_error
classify-first = refl

classify-Fits_example : Fits validation classification
classify-Fits_example = classify-Fits first classification classify-first

apply_fix-Outcome_example :
    Outcome outside fix path "t1" "ann" disk (apply_fix outside fix path "t1" "ann" disk)
apply_fix-Outcome_example = apply_fix-Outcome outside fix path "t1" "ann" disk

process_next-gate_example :
    ((process_next setup "10:00" world).1.disk ≡ disk)
    ⊎ ((t : HealerTicket) × ((claim_next db).0 ≡ some (some t))
        × IsAutomatic setup t (record world { db = (claim_next db).1 }))
process_next-gate_example = process_next-gate setup "10:00" world

abbrev held : HealerTicket
held = record first { status = proposed; proposal = some fix }

runs : (process_ticket setup first "10:00" world).0 ≡ true
unfolding process_ticket classify classify_validation_error propose lookup truthy apply_and_notify
    apply_fix eq_value strip_fields
runs = refl

process_ticket-ends_example :
    ((s : Row) × (row_at "t1" (process_ticket setup first "10:00" world).1.db.tickets ≡ some s)
      × ((s.status ≡ "applied") ⊎ (s.status ≡ "failed") ⊎ (s.status ≡ "proposed")))
    × ((j : String)
        → "t1" == j ≡ false
        → row_at j (process_ticket setup first "10:00" world).1.db.tickets ≡ row_at j rows)
unfolding row_at row_of
process_ticket-ends_example = process_ticket-ends setup first "10:00" world (row_of first) refl runs

abbrev pub held_world : World
held_world = record world { db = record empty_db { tickets = row_of held ∷ [] } }

-- The same with a store that raises.
saved : (apply_and_notify setup held "ann" "10:00" world).0 ≡ true
unfolding apply_and_notify lookup find_contract_path apply_fix eq_value strip_fields
saved = refl

unsaved :
    (apply_and_notify
      (record setup { outside = record outside { saves = λ diff. false } })
      held
      "ann"
      "10:00"
      world).0
    ≡ false
unfolding apply_and_notify lookup find_contract_path apply_fix eq_value strip_fields
unsaved = refl

enqueue-held : enqueue held empty_db ≡ some held_world.db
unfolding enqueue
enqueue-held = refl

held-IsTable : IsTable held_world.db.tickets
held-IsTable = enqueue-IsTable held empty_db (unresolved held refl) enqueue-held empty-IsTable

held_reads : get_ticket held_world.db "t1" ≡ some (some held)
unfolding row_at
held_reads =
    let (db', e, g, others) = get-enqueue held empty_db (unresolved held refl) refl in
    subst (λ (x : Db). get_ticket x "t1" ≡ some (some held))
      (some-injective db' held_world.db (sym e ∙ enqueue-held)) g

approved_held : (decide setup "t1" (approval "ann" "10:00") held_world).0 ≡ some true
unfolding decide approve_ticket is_proposed apply_and_notify find_contract_path lookup set_status
    apply_fix eq_value strip_fields returned
approved_held = rw (held_reads, approve_ticket) refl

decide_once_example :
    decide setup "t1"
      (rejection "wrong" "bob" "10:05")
      (decide setup "t1" (approval "ann" "10:00") held_world).1
    ≡ (some false, (decide setup "t1" (approval "ann" "10:00") held_world).1)
decide_once_example =
    decide_once setup "t1" (approval "ann" "10:00") (rejection "wrong" "bob" "10:05") held_world
      held-IsTable approved_held
