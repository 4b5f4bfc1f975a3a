-- ===== src/Forge/Semantic/Meaning.antt =====
-- What a coherent domain is, apart from the checks of forge/ir/semantic.py.
use specora_core.Prelude.{
  String, ◌≡◌, true, Option, none, some, List, [], map, ◌⊎◌, mem, Dict, lookup, keys, All, Distinct,
}
use specora_core.Forge.Ir.{
  ReferenceIr, FieldIr, GuardIr, StateMachineIr, EntityIr, MixinIr, PageIr, EndpointIr, RouteIr,
  DomainIr, multi_domain,
}
use specora_core.Forge.Naming.{Lexicon, class_name, module_slug}
use specora_core.Forge.Passes.{mixin_map, workflow_map, names_of}
use specora_core.Forge.Semantic.{entities_by_fqn, fields_by_name, declared_states, has_pair}

-- A field that the entity has under a mixin's field's name is of that field's type.
abbrev pub AgreesWith : Option FieldIr → FieldIr → Type 0
AgreesWith none f = Unit
AgreesWith (some own) f = own.type_name ≡ f.type_name

abbrev pub MixinAgrees : EntityIr → Option MixinIr → Type 0
MixinAgrees e none = Unit
MixinAgrees e (some m) =
    All (λ (f : FieldIr). AgreesWith (lookup f.name (fields_by_name [] e.fields)) f) m.fields

abbrev pub IsNamed : List String → Option String → Type 0
IsNamed known none = Unit
IsNamed known (some ref) = (ref ≡ "") ⊎ (mem ref known ≡ true)

-- The entity that a reference names exists and has the field that is displayed.
abbrev pub Displays : ReferenceIr → Option EntityIr → Type 0
Displays r none = ⊥
Displays r (some target) = mem r.display_field (names_of target.fields) ≡ true

abbrev pub Refers : Dict EntityIr → Option ReferenceIr → Type 0
Refers entities none = Unit
Refers entities (some r) = (r.target_entity ≡ "") ⊎ Displays r (lookup r.target_entity entities)

abbrev pub GuardsMet : EntityIr → Option StateMachineIr → Type 0
GuardsMet e none = Unit
GuardsMet e (some sm) =
    All
      (λ (g : GuardIr).
        All (λ (name : String). mem name (names_of e.fields) ≡ true) g.require_fields)
      sm.guards

pub record IsCoherentEntity (entities : Dict EntityIr) (mixins : Dict MixinIr)
    (workflows : Dict StateMachineIr) (e : EntityIr) : Type 0 where
  pub mixins_exist : All (λ (ref : String). mem ref (keys mixins) ≡ true) e.mixin_refs
  pub mixins_agree : All (λ (ref : String). MixinAgrees e (lookup ref mixins)) e.mixin_refs
  pub workflow_exists : IsNamed (keys workflows) e.workflow_ref
  pub references_resolve : All (λ (f : FieldIr). Refers entities f.reference) e.fields
  pub guards_met : GuardsMet e e.state_machine

-- Every state that a workflow names is declared, and every guard stands on a transition.
pub record IsWorkflow (w : StateMachineIr) : Type 0 where
  pub initial_declared : mem w.initial (declared_states w.states) ≡ true
  pub transitions_declared :
      All
        (λ (t : String × List String).
          (mem t.0 (declared_states w.states) ≡ true)
          × All (λ (target : String). mem target (declared_states w.states) ≡ true) t.1)
        w.transitions
  pub guards_match :
      All (λ (g : GuardIr). has_pair g.from_state g.to_state w.transitions ≡ true) w.guards

abbrev pub PageBound : Dict EntityIr → PageIr → Type 0
PageBound entities p = (p.entity_fqn ≡ "") ⊎ (mem p.entity_fqn (keys entities) ≡ true)

abbrev pub RouteBound : RouteIr → Option EntityIr → Type 0
RouteBound r none = r.entity_fqn ≡ ""
RouteBound r (some e) =
    All
      (λ (p : EndpointIr).
        All (λ (name : String). mem name (names_of e.fields) ≡ true) p.required_fields)
      r.endpoints

pub record IsCoherent (L : Lexicon) (ir : DomainIr) : Type 0 where
  pub entities_coherent :
      All
        (IsCoherentEntity
          (entities_by_fqn [] ir.entities)
          (mixin_map [] ir.mixins)
          (workflow_map [] ir.workflows))
        ir.entities
  pub workflows_coherent : All IsWorkflow ir.workflows
  pub pages_bound : All (PageBound (entities_by_fqn [] ir.entities)) ir.pages
  pub tables_distinct : Distinct (map (λ (e : EntityIr). e.table_name) ir.entities)
  pub classes_distinct :
      Distinct (map (λ (e : EntityIr). class_name e.name e.domain (multi_domain ir)) ir.entities)
  pub modules_distinct :
      Distinct (map (λ (e : EntityIr). module_slug L e.name e.domain (multi_domain ir)) ir.entities)
  pub routes_bound :
      All
        (λ (r : RouteIr). RouteBound r (lookup r.entity_fqn (entities_by_fqn [] ir.entities)))
        ir.routes
