-- ===== src/Forge/Migrations/Columns.antt =====
-- The changes of a field bring its column to the new version (forge/targets/migrations).
use specora_core.Prelude.{true, false, Option, none, some, List, [], ◌∷◌}
use specora_core.Forge.Migrations.Sql.{
  Column, Statement, to_type, set_clause, drop_clause, forbid_null, allow_null, render,
}
use specora_core.Forge.Migrations.{Printing, SchemaChange}

-- What PostgreSQL does to the column.
unfoldable pub run : Option Statement → Column → Column
run none col = col
run (some (to_type t)) col = record col { column_type = t }
run (some (set_clause d)) col = record col { default_sql = d }
run (some drop_clause) col = record col { default_sql = "" }
run (some forbid_null) col = record col { not_null = true }
run (some allow_null) col = record col { not_null = false }

unfoldable pub alter_all : Printing → List SchemaChange → Column → Column
unfolding run render
alter_all P [] col = col
alter_all P (c ∷ cs) col = alter_all P cs (run (render P c) col)
