-- ===== src/Forge/Migrations.antt =====
-- Schema changes between two versions of the entities (forge/targets/migrations/differ.py), with
-- the column rendering that they compare (forge/targets/postgres/gen_ddl.py, and `sql_literal`
-- of forge/targets/naming.py). Python's `repr` of an int and `json.dumps` are the record
-- `Printing`.
pub mod Literals
pub mod Sql
pub mod Columns
pub mod Drops
pub mod Tests
use Prim.Native.Char.{code}
use Prim.Native.String as Text
use specora_core.Prelude.{
  String, Bool, true, false, ◌||◌, ◌&&◌, Option, none, some, List, [], ◌∷◌, ◌++◌, ◌==◌, eqb,
  if◌then◌else◌, not, Dict, lookup, put,
}
use specora_core.Json.{ℤ, Value, null, bool, int, float, str, arr, obj}
use specora_core.Forge.Ir.{FieldIr, EntityIr}

pub record Printing : Type 0 where
  pub int_repr : ℤ → String
  pub dumps : Value → String
  -- str(int(value)) of a precision or a scale
  pub int_text : Value → String

abbrev pub append : String → String → String
append s t = Text.◌++◌ s t

-- value.replace("'", "''")
unfoldable pub double_quotes : String → String
double_quotes Text.[] = ""
double_quotes (Text.◌∷◌ c s) =
    let rest = double_quotes s in
    if eqb (code c) b'\'' then Text.◌∷◌ c (Text.◌∷◌ c rest) else Text.◌∷◌ c rest

unfoldable pub sql_literal : Printing → Value → String
unfolding double_quotes
sql_literal P null = "NULL"
sql_literal P (bool true) = "TRUE"
sql_literal P (bool false) = "FALSE"
sql_literal P (int n) = P.int_repr n
sql_literal P (float s) = s
sql_literal P (str s) = append "'" (append (double_quotes s) "'")
sql_literal P (arr vs) = append "'" (append (double_quotes (P.dumps (arr vs))) "'::jsonb")
sql_literal P (obj d) = append "'" (append (double_quotes (P.dumps (obj d))) "'::jsonb")

unfoldable pub server_default_expression : FieldIr → String
server_default_expression f = elim f.computed [
  | none ↦ ""
  | some c ↦
      if c == "now" || c == "now_on_update"
      then "now()"
      else if c == "uuid" && f.type_name == "uuid"
      then "gen_random_uuid()"
      else ""
]

-- default is None or default == ""
unfoldable pub no_default : Value → Bool
no_default null = true
no_default (str s) = s == ""
no_default _ = false

unfoldable pub default_clause : Printing → FieldIr → String
unfolding server_default_expression no_default sql_literal
default_clause P f =
    if server_default_expression f == ""
    then (if no_default f.default then "" else append "DEFAULT " (sql_literal P f.default))
    else append "DEFAULT " (server_default_expression f)

unfoldable pub column_is_not_null : FieldIr → Bool
unfolding server_default_expression
column_is_not_null f = f.required || not (server_default_expression f == "")

pub data ChangeType : Type 0 where
  create_table drop_table add_column drop_column alter_type set_not_null drop_not_null set_default
        drop_default :
      ChangeType

pub record SchemaChange : Type 0 where
  pub change_type : ChangeType
  pub table_name : String
  pub field_name : String
  pub old_value : Value
  pub new_value : Value
  pub entity : Option EntityIr
  pub field_ir : Option FieldIr
  pub destructive : Bool

abbrev pub change : ChangeType → String → String → SchemaChange
change c table name = record {
  change_type = c;
  table_name = table;
  field_name = name;
  old_value = null;
  new_value = null;
  entity = none;
  field_ir = none;
  destructive = false;
}

unfoldable pub type_changes : String → String → FieldIr → FieldIr → List SchemaChange
type_changes table name old new =
    if old.type_name == new.type_name
    then []
    else record (change alter_type table name) {
      old_value = str old.type_name;
      new_value = str new.type_name;
      field_ir = some new;
    }
      ∷ []

unfoldable pub default_changes : Printing → String → String → FieldIr → FieldIr → List SchemaChange
default_changes P table name old new =
    if default_clause P old == default_clause P new
    then []
    else if default_clause P new == ""
    then change drop_default table name ∷ []
    else record (change set_default table name) {
      old_value = old.default;
      new_value = new.default;
      field_ir = some new;
    }
      ∷ []

unfoldable pub null_changes : String → String → FieldIr → FieldIr → List SchemaChange
null_changes table name old new =
    if not (column_is_not_null old) && column_is_not_null new
    then record (change set_not_null table name) { field_ir = some new } ∷ []
    else if column_is_not_null old && not (column_is_not_null new)
    then change drop_not_null table name ∷ []
    else []

-- The loop body for a field that both versions have.
unfoldable pub modified_field : Printing → String → String → FieldIr → FieldIr → List SchemaChange
unfolding type_changes default_changes null_changes
modified_field P table name old new =
    type_changes table name old new
    ++ default_changes P table name old new
    ++ null_changes table name old new

-- {f.name: f for f in fields}, behind the entries `d`
unfoldable pub field_map : Dict FieldIr → List FieldIr → Dict FieldIr
field_map d [] = d
field_map d (f ∷ fs) = field_map (put f.name f d) fs

unfoldable pub added_fields : String → Dict FieldIr → Dict FieldIr → List SchemaChange
added_fields table old [] = []
added_fields table old ((name, f) ∷ fs) =
    let rest = added_fields table old fs in
    elim (lookup name old) [
      | none ↦ record (change add_column table name) { field_ir = some f } ∷ rest
      | some _ ↦ rest
    ]

unfoldable pub removed_fields : String → Dict FieldIr → Dict FieldIr → List SchemaChange
removed_fields table [] new = []
removed_fields table ((name, f) ∷ fs) new =
    let rest = removed_fields table fs new in
    elim (lookup name new) [
      | none ↦ record (change drop_column table name) { destructive = true } ∷ rest
      | some _ ↦ rest
    ]

unfoldable pub modified_fields : Printing → String → Dict FieldIr → Dict FieldIr → List SchemaChange
unfolding modified_field
modified_fields P table [] new = []
modified_fields P table ((name, f) ∷ fs) new =
    let rest = modified_fields P table fs new in
    elim (lookup name new) [ none ↦ rest | some g ↦ modified_field P table name f g ++ rest ]

unfoldable pub diff_entity_fields : Printing → EntityIr → EntityIr → List SchemaChange
unfolding field_map added_fields removed_fields modified_fields
diff_entity_fields P old new =
    let old_fields = field_map [] old.fields in
    let new_fields = field_map [] new.fields in
    added_fields new.table_name old_fields new_fields
    ++ removed_fields new.table_name old_fields new_fields
    ++ modified_fields P new.table_name old_fields new_fields

-- {e.fqn: e for e in entities}, behind the entries `d`
entity_map : Dict EntityIr → List EntityIr → Dict EntityIr
entity_map d [] = d
entity_map d (e ∷ es) = entity_map (put e.fqn e d) es

created_tables : Dict EntityIr → Dict EntityIr → List SchemaChange
created_tables old [] = []
created_tables old ((fqn, e) ∷ es) =
    let rest = created_tables old es in
    elim (lookup fqn old) [
      | none ↦ record (change create_table e.table_name "") { entity = some e } ∷ rest
      | some _ ↦ rest
    ]

dropped_tables : Dict EntityIr → Dict EntityIr → List SchemaChange
dropped_tables [] new = []
dropped_tables ((fqn, e) ∷ es) new =
    let rest = dropped_tables es new in
    elim (lookup fqn new) [
      | none ↦ record (change drop_table e.table_name "") { destructive = true } ∷ rest
      | some _ ↦ rest
    ]

changed_tables : Printing → Dict EntityIr → Dict EntityIr → List SchemaChange
unfolding diff_entity_fields
changed_tables P [] new = []
changed_tables P ((fqn, e) ∷ es) new =
    let rest = changed_tables P es new in
    elim (lookup fqn new) [ none ↦ rest | some e' ↦ diff_entity_fields P e e' ++ rest ]

pub diff_entities : Printing → List EntityIr → List EntityIr → List SchemaChange
unfolding entity_map created_tables dropped_tables changed_tables
diff_entities P olds news =
    let old = entity_map [] olds in
    let new = entity_map [] news in
    created_tables old new ++ dropped_tables old new ++ changed_tables P old new
