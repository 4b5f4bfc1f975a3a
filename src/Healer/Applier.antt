-- ===== src/Healer/Applier.antt =====
-- Applying a proposal to a contract file (healer/applier.py). The disk is the files by path and
-- the diffs that the store's index names, oldest first; a diff stands without its id, time and
-- computed changes. `apply_fix` returns `none` when saving the diff raises; that the validator and
-- the YAML library return, and a write raises nothing but OSError, is taken for granted.
-- Logging and the temporary file that `_atomic_write` removes again are left out. What is not
-- the applier's own is the record `Outside`: the validator, the YAML library and the file
-- system's refusals.
pub mod Clean
pub mod Atomic
use Prim.Native.Char.{code}
use Prim.Native.String as Text
use specora_core.Prelude.{
  String, Bool, true, false, Option, none, some, List, [], ◌∷◌, ◌++◌, ◌==◌, eqb, if◌then◌else◌,
  Dict, lookup, put,
}
use specora_core.Json.{
  Value, null, bool, int, float, str, arr, obj, Items, nil, cons, Fields, end, field, truthy,
  eq_value,
}
use specora_core.Healer.Models.{HealerProposal}

abbrev pub glue : String → String → String
glue s t = Text.◌++◌ s t

pub data Loaded : Type 0 where
  yaml_error : String → Loaded
  loaded : Value → Loaded

-- The origin is HEALER.
pub record ContractDiff : Type 0 where
  pub contract_fqn : String
  pub before : Fields
  pub after : Fields
  pub origin_detail : String
  pub reason : String

pub record Outside : Type 0 where
  -- the messages of `validate_contract`'s errors of severity "error"
  pub validate : Value → List String
  pub dump : Fields → String
  pub safe_load : String → Loaded
  -- the OSError of `_atomic_write`, which leaves the path as it was
  pub write_error : String → String → Option String
  -- whether `create_diff` and `DiffStore.save` raise nothing
  pub saves : ContractDiff → Bool

pub record ApplyResult : Type 0 where
  pub success : Bool
  pub error : String
  pub notes : List String

pub record Disk : Type 0 where
  pub files : Dict String
  pub diffs : List ContractDiff

-- k.startswith("_")
unfoldable pub is_internal : String → Bool
is_internal Text.[] = false
is_internal (Text.◌∷◌ c s) = eqb (code c) b'_'

unfoldable mutual
  unfolding is_internal

  pub strip_internal_keys : Value → Value
  strip_internal_keys null = null
  strip_internal_keys (bool b) = bool b
  strip_internal_keys (int n) = int n
  strip_internal_keys (float s) = float s
  strip_internal_keys (str s) = str s
  strip_internal_keys (arr vs) = arr (strip_items vs)
  strip_internal_keys (obj d) = obj (strip_fields d)

  pub strip_items : Items → Items
  strip_items nil = nil
  strip_items (cons v vs) = cons (strip_internal_keys v) (strip_items vs)

  pub strip_fields : Fields → Fields
  strip_fields end = end
  strip_fields (field k v d) =
      if is_internal k then strip_fields d else field k (strip_internal_keys v) (strip_fields d)

-- "; ".join(messages)
unfoldable pub join : List String → String
join [] = ""
join (m ∷ []) = m
join (m ∷ n ∷ ms) = glue m (glue "; " (join (n ∷ ms)))

-- errors[:3]
abbrev first_three : List String → List String
first_three (a ∷ b ∷ c ∷ ms) = a ∷ b ∷ c ∷ []
first_three ms = ms

unfoldable pub origin_detail : String → String → String
origin_detail ticket_id actor =
    let subject = if ticket_id == "" then "healer:direct" else glue "healer:ticket-" ticket_id in
    if actor == "" then subject else glue subject (glue ";actor=" actor)

abbrev pub refuse : String → List String → Disk → Option ApplyResult × Disk
refuse error notes disk = (some (record { success = false; error = error; notes = notes }), disk)

abbrev pub diff_of : HealerProposal → String → String → ContractDiff
diff_of p ticket_id actor = record {
  contract_fqn = p.contract_fqn;
  before = p.before;
  after = strip_fields p.after;
  origin_detail = origin_detail ticket_id actor;
  reason = p.explanation;
}

abbrev pub notes_of : HealerProposal → List String
notes_of p =
    if eq_value (obj (strip_fields p.after)) (obj p.after)
    then []
    else "Removed internal underscore-prefixed keys (e.g. _source_path)" ∷ []

-- The diff, after the file was replaced; a store that raises leaves the new file without one.
unfoldable pub record_diff :
    Outside → HealerProposal → String → String → Disk → Option ApplyResult × Disk
record_diff o p ticket_id actor disk =
    let diff = diff_of p ticket_id actor in
    if o.saves diff
    then (
      some (record { success = true; error = ""; notes = notes_of p }),
      record disk { diffs = disk.diffs ++ diff ∷ [] },
    )
    else (none, disk)

-- `_atomic_write`, then the diff.
unfoldable pub write_fix :
    Outside → HealerProposal → String → String → String → Disk → Option ApplyResult × Disk
unfolding record_diff
write_fix o p path ticket_id actor disk =
    let text = o.dump (strip_fields p.after) in
    elim (o.write_error path text) [
      | some exc ↦ refuse (glue "Write failed: " exc) (notes_of p) disk
      | none ↦ record_diff o p ticket_id actor (record disk { files = put path text disk.files })
    ]

-- v or {}
abbrev pub or_empty : Value → Value
or_empty v = if truthy v then v else obj end

-- The bytes read back: valid, and equal to what was serialised.
unfoldable pub check_reload :
    Outside → HealerProposal → String → String → String → Disk → Option ApplyResult × Disk
unfolding write_fix
check_reload o p path ticket_id actor disk = elim (o.safe_load (o.dump (strip_fields p.after))) [
  | yaml_error exc ↦ refuse (glue "Serialized contract is not valid YAML: " exc) (notes_of p) disk
  | loaded v ↦ elim (o.validate (or_empty v)) [
    | m ∷ ms ↦
        refuse (glue "Round-trip validation failed: " (join (first_three (m ∷ ms)))) (notes_of p)
          disk
    | [] ↦
        if eq_value v (obj (strip_fields p.after))
        then write_fix o p path ticket_id actor disk
        else refuse "Serialized contract does not round-trip; refusing to write." (notes_of p) disk
  ]
]

unfoldable pub apply_fix :
    Outside → HealerProposal → String → String → String → Disk → Option ApplyResult × Disk
unfolding check_reload
apply_fix o p path ticket_id actor disk = elim (o.validate (obj (strip_fields p.after))) [
  | m ∷ ms ↦ refuse (join (first_three (m ∷ ms))) (notes_of p) disk
  | [] ↦ elim (lookup path disk.files) [
    | none ↦ refuse (glue "Contract file not found: " path) (notes_of p) disk
    | some _ ↦ check_reload o p path ticket_id actor disk
  ]
]
