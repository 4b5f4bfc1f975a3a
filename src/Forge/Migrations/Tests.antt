-- ===== src/Forge/Migrations/Tests.antt =====
-- A field that becomes computed, and a default with a quote in it.
use specora_core.Prelude.{
  String, ◌≡◌, refl, false, eqb, if◌then◌else◌, Option, none, some, [], ◌∷◌, map, mem, ◌&&◌, not,
  List,
}
use specora_core.Json.{ℤ, pos, Value, null, int, str, field, end, get_or}
use specora_core.Forge.Ir.{FieldIr, EntityIr}
use specora_core.Forge.Migrations.{
  Printing, append, sql_literal, set_default, set_not_null, SchemaChange, modified_field,
  default_clause, column_is_not_null, diff_entity_fields,
}
use specora_core.Forge.Migrations.Drops.{dropped, AreFlagged, diff_entity_fields-dropped}
use specora_core.Forge.Migrations.Literals.{
  read_literal, starts_with_quote, read_literal-sql_literal,
}
use specora_core.Forge.Migrations.Sql.{is_identity, column_definition, pg_column_type}

abbrev number_text : Value → String
number_text (int (pos n)) = if eqb n 10 then "10" else if eqb n 2 then "2" else "0"
number_text v = "0"

abbrev printing : Printing
printing = record { int_repr = λ n. "0"; dumps = λ v. "{}"; int_text = number_text }

abbrev changed_at : Option String → FieldIr
changed_at c = record {
  name = "changed_at";
  type_name = "datetime";
  description = "";
  required = false;
  immutable = false;
  default = null;
  format = none;
  enum_values = none;
  items_type = none;
  computed = c;
  constraints = end;
  reference = none;
  sensitive = false;
}

computed_changes :
    map
      (λ (c : SchemaChange). c.change_type)
      (modified_field printing "incidents" "changed_at" (changed_at none) (changed_at (some "now")))
    ≡ set_default ∷ set_not_null ∷ []
unfolding modified_field default_clause column_is_not_null
computed_changes = refl

abbrev amount : ℤ → ℤ → FieldIr
amount precision scale = record (changed_at none) {
  name = "amount";
  type_name = "decimal";
  constraints = field "precision" (int precision) (field "scale" (int scale) end);
}

-- A decimal of another size is another column, but no change.
resized :
    (modified_field printing "incidents" "amount"
        (amount (pos 12) (pos 4))
        (amount (pos 10) (pos 2))
      ≡ [])
    × ((column_definition printing (amount (pos 10) (pos 2))).column_type ≡ "NUMERIC(10, 2)")
unfolding modified_field default_clause column_definition pg_column_type is_identity
    column_is_not_null get_or
resized = (refl, refl)

no_quote : starts_with_quote "; DROP" ≡ false
unfolding starts_with_quote
no_quote = refl

read_literal-sql_literal_example :
    read_literal (append (sql_literal printing (str "O'Brien")) "; DROP")
    ≡ some ("O'Brien", "; DROP")
read_literal-sql_literal_example = read_literal-sql_literal printing "O'Brien" "; DROP" no_quote

abbrev incidents : List FieldIr → EntityIr
incidents fields = record {
  fqn = "entity/it/incident";
  name = "incident";
  domain = "it";
  description = "";
  table_name = "incidents";
  fields = fields;
  mixin_refs = [];
  mixins_applied = [];
  workflow_ref = none;
  state_machine = none;
  ai_hooks = [];
  number_prefix = none;
  icon = none;
}

diff_entity_fields-dropped_example :
    (mem "changed_at"
        (dropped (diff_entity_fields printing (incidents (changed_at none ∷ [])) (incidents [])))
      ≡ (mem "changed_at" ("changed_at" ∷ []) && not (mem "changed_at" [])))
    × AreFlagged (diff_entity_fields printing (incidents (changed_at none ∷ [])) (incidents []))
diff_entity_fields-dropped_example =
    diff_entity_fields-dropped printing (incidents (changed_at none ∷ [])) (incidents [])
      "changed_at"
