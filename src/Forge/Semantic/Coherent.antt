-- ===== src/Forge/Semantic/Coherent.antt =====
-- Validation finds an error exactly in what is not coherent (forge/ir/semantic.py).
use specora_core.Prelude.{◌≡◌, ◌↔◌, ◌||◌, [], ◌==◌, mem, lookup, keys}
use specora_core.Forge.Ir.{EntityIr, DomainIr, multi_domain}
use specora_core.Forge.Naming.{Lexicon, class_name, module_slug}
use specora_core.Forge.Passes.{mixin_map, workflow_map}
use specora_core.Forge.Semantic.{
  entities_by_fqn, check_page, check_route, validate_identifier_uniqueness, validate_semantics,
}
use specora_core.Forge.Semantic.Meaning.{IsCoherent}
use specora_core.Forge.Semantic.Reports.{trans_iff, demand_iff, append_iff, each_iff, or_iff}
use specora_core.Forge.Semantic.Checks.{entity_iff, IsWorkflow-iff, route_iff}
use specora_core.Forge.Semantic.Unique.{Distinct-iff}

-- Validation reports no error exactly when the domain is coherent: the mixins, workflows and
-- referenced entities that entities name, the entities that pages and routes name, the fields
-- that references display, guards require and routes require, and the states of workflows exist;
-- fields agree with the mixins' types, guards stand on declared transitions, and no two entities
-- generate the same table, class or module name. Agents, endpoints' auto fields and pages'
-- fields are not checked.
pub validate_semantics_iff :
    (L : Lexicon) (ir : DomainIr) → (validate_semantics L ir ≡ []) ↔ IsCoherent L ir
unfolding validate_semantics validate_identifier_uniqueness check_page check_route
validate_semantics_iff L ir =
    let entities = entities_by_fqn [] ir.entities in
    let multi = multi_domain ir in
    trans_iff
      (append_iff _ _
        (each_iff _ _ (entity_iff entities (mixin_map [] ir.mixins) (workflow_map [] ir.workflows))
          ir.entities)
        (append_iff _ _ (each_iff _ _ IsWorkflow-iff ir.workflows) (
          append_iff _ _
            (each_iff _ _
              (λ p.
                trans_iff (demand_iff (p.entity_fqn == "" || mem p.entity_fqn (keys entities)) _)
                  (or_iff p.entity_fqn (mem p.entity_fqn (keys entities))))
              ir.pages)
            (append_iff _ _
              (append_iff _ _ (Distinct-iff _ _ (λ (e : EntityIr). e.table_name) ir.entities) (
                append_iff _ _
                  (Distinct-iff _ _ (λ (e : EntityIr). class_name e.name e.domain multi)
                    ir.entities)
                  (Distinct-iff _ _ (λ (e : EntityIr). module_slug L e.name e.domain multi)
                    ir.entities)))
              (each_iff _ _ (λ r. route_iff r (lookup r.entity_fqn entities)) ir.routes)))))
      (
        λ (a, (b, (c, ((d, (f, g)), h)))). record {
          entities_coherent = a;
          workflows_coherent = b;
          pages_bound = c;
          tables_distinct = d;
          classes_distinct = f;
          modules_distinct = g;
          routes_bound = h;
        },
        λ k. (
          k.entities_coherent,
          (
            k.workflows_coherent,
            (
              k.pages_bound,
              ((k.tables_distinct, (k.classes_distinct, k.modules_distinct)), k.routes_bound),
            ),
          ),
        ),
      )
