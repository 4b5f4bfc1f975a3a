-- ===== src/Forge/Passes/Names.antt =====
-- Inferred names (forge/ir/passes/table_name_inference.py and base_path_inference.py), and all
-- passes in their order (forge/ir/passes/__init__.py).
use specora_core.Prelude.{String, Bool, List, [], ◌∷◌, map, ◌==◌, if◌then◌else◌}
use specora_core.Prelude.Texts.{append, split_by}
use specora_core.Forge.Ir.{EntityIr, RouteIr, DomainIr, multi_domain}
use specora_core.Forge.Naming.{pluralize, table_name}
use specora_core.Forge.Passes.{expand_mixins, bind_state_machines}

unfoldable pub infer_table_name : Bool → EntityIr → EntityIr
infer_table_name multi e =
    if e.table_name == "" then record e { table_name = table_name e.name e.domain multi } else e

unfoldable pub infer_table_names : DomainIr → DomainIr
infer_table_names ir = record ir { entities = map (infer_table_name (multi_domain ir)) ir.entities }

-- parts[-1]; a split has at least one part
last_of : List String → String
last_of [] = ""
last_of (p ∷ []) = p
last_of (p ∷ q ∷ ps) = last_of (q ∷ ps)

unfoldable pub infer_base_path : RouteIr → RouteIr
unfolding last_of
infer_base_path r =
    if r.base_path == ""
    then (if r.entity_fqn == ""
        then r
        else record r { base_path = append "/" (pluralize (last_of (split_by b'/' r.entity_fqn))) })
    else r

unfoldable pub infer_base_paths : DomainIr → DomainIr
infer_base_paths ir = record ir { routes = map infer_base_path ir.routes }

unfoldable pub run_all_passes : DomainIr → DomainIr
run_all_passes ir =
    let expanded = record ir { entities = expand_mixins ir.mixins ir.entities } in
    let named = infer_table_names expanded in
    infer_base_paths
      (record named { entities = bind_state_machines named.workflows named.entities })
