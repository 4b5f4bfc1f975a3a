-- ===== src/Forge/Migrations/Sql.antt =====
-- The columns and the ALTER statements that fields and their changes are rendered to
-- (`pg_column_type` of forge/targets/typemap.py, `column_definition` of
-- forge/targets/postgres/gen_ddl.py, the handlers of forge/targets/migrations/sql_writer.py). A
-- statement stands for its text: which ALTER COLUMN it is, with the texts rendered into it.
use specora_core.Prelude.{
  String, Bool, true, false, ◌&&◌, ◌||◌, Option, none, some, ◌==◌, if◌then◌else◌,
}
use specora_core.Json.{pos, Value, int, str, Fields, end, get_or}
use specora_core.Forge.Ir.{FieldIr}
use specora_core.Forge.Migrations.{
  Printing, append, sql_literal, default_clause, column_is_not_null, alter_type, set_not_null,
  drop_not_null, set_default, drop_default, create_table, drop_table, add_column, drop_column,
  SchemaChange,
}

-- PG_TYPES.get(ir_type, "TEXT")
abbrev pub pg_type : String → String
pg_type t =
    if t == "integer"
    then "INTEGER"
    else if t == "number"
    then "DOUBLE PRECISION"
    else if t == "boolean"
    then "BOOLEAN"
    else if t == "array" || t == "object"
    then "JSONB"
    else if t == "datetime"
    then "TIMESTAMPTZ"
    else if t == "date"
    then "DATE"
    else if t == "uuid"
    then "UUID"
    else "TEXT"

unfoldable pub pg_column_type : Printing → String → Fields → String
pg_column_type P t constraints =
    if t == "decimal"
    then append "NUMERIC(" (
        append (P.int_text (get_or "precision" (int (pos 18)) constraints))
          (append ", " (append (P.int_text (get_or "scale" (int (pos 2)) constraints)) ")")))
    else pg_type t

pub data Key : Type 0 where
  plain primary unique : Key

pub record Column : Type 0 where
  pub column_type : String
  pub default_sql : String
  pub not_null : Bool
  pub key : Key

unfoldable pub is_identity : FieldIr → Bool
is_identity f = f.name == "id" && f.type_name == "uuid"

unfoldable pub column_definition : Printing → FieldIr → Column
column_definition P f =
    if is_identity f
    then record {
      column_type = "UUID";
      default_sql = "DEFAULT gen_random_uuid()";
      not_null = true;
      key = primary;
    }
    else if f.name == "number"
    then record { column_type = "TEXT"; default_sql = ""; not_null = false; key = unique }
    else record {
      column_type = pg_column_type P f.type_name f.constraints;
      default_sql = default_clause P f;
      not_null = column_is_not_null f;
      key = plain;
    }

pub data Statement : Type 0 where
  -- TYPE ... USING column::...
  to_type : String → Statement
  -- SET DEFAULT ..., DROP DEFAULT
  set_clause : String → Statement
  drop_clause : Statement
  -- SET NOT NULL, DROP NOT NULL
  forbid_null : Statement
  allow_null : Statement

abbrev field_constraints : Option FieldIr → Fields
field_constraints none = end
field_constraints (some f) = f.constraints

abbrev field_clause : Printing → Option FieldIr → String
field_clause P none = ""
field_clause P (some f) = default_clause P f

-- PG_TYPES has texts as keys only.
abbrev type_of : Printing → Value → Fields → String
type_of P (str t) constraints = pg_column_type P t constraints
type_of P _ constraints = "TEXT"

unfoldable pub alter_type_sql : Printing → SchemaChange → Statement
alter_type_sql P c = to_type (type_of P c.new_value (field_constraints c.field_ir))

unfoldable pub set_default_sql : Printing → SchemaChange → Statement
set_default_sql P c =
    let clause = field_clause P c.field_ir in
    set_clause (if clause == "" then append "DEFAULT " (sql_literal P c.new_value) else clause)

-- The handler of a change of one column; the other changes alter no column.
unfoldable pub render : Printing → SchemaChange → Option Statement
unfolding alter_type_sql set_default_sql
render P c = elim c.change_type [
  | alter_type ↦ some (alter_type_sql P c)
  | set_default ↦ some (set_default_sql P c)
  | drop_default ↦ some drop_clause
  | set_not_null ↦ some forbid_null
  | drop_not_null ↦ some allow_null
  | create_table ↦ none
  | drop_table ↦ none
  | add_column ↦ none
  | drop_column ↦ none
]
