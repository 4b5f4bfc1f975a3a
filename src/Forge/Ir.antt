-- ===== src/Forge/Ir.antt =====
-- The intermediate representation (forge/ir/model.py): fields, workflows, entities, mixins,
-- pages, routes, agents, infrastructure and the domain. Any Python value of a contract is a
-- `Value`.
use specora_core.Prelude.{String, Bool, true, false, Option, List, [], ◌∷◌, Dict}
use specora_core.Json.{ℤ, Value, Items, Fields}

pub record ReferenceIr : Type 0 where
  pub target_entity : String
  pub display_field : String
  pub graph_edge : Option String
  pub graph_direction : Option String

pub record FieldIr : Type 0 where
  pub name : String
  pub type_name : String
  pub description : String
  pub required : Bool
  pub immutable : Bool
  pub default : Value
  pub format : Option String
  pub enum_values : Option Items
  pub items_type : Option String
  pub computed : Option String
  pub constraints : Fields
  pub reference : Option ReferenceIr
  pub sensitive : Bool

pub record StateIr : Type 0 where
  pub name : String
  pub label : String
  pub category : String
  pub terminal : Bool
  pub color : Option String

pub record GuardIr : Type 0 where
  pub from_state : String
  pub to_state : String
  pub require_fields : List String
  pub condition : Option String

pub record StateMachineIr : Type 0 where
  pub fqn : String
  pub initial : String
  pub states : List StateIr
  pub transitions : Dict (List String)
  pub guards : List GuardIr
  pub side_effects : Dict (List Fields)
  pub type_overrides : Dict Fields

pub record EntityIr : Type 0 where
  pub fqn : String
  pub name : String
  pub domain : String
  pub description : String
  pub table_name : String
  pub fields : List FieldIr
  pub mixin_refs : List String
  pub mixins_applied : List String
  pub workflow_ref : Option String
  pub state_machine : Option StateMachineIr
  pub ai_hooks : Dict (List String)
  pub number_prefix : Option String
  pub icon : Option String

pub record MixinIr : Type 0 where
  pub fqn : String
  pub name : String
  pub domain : String
  pub description : String
  pub fields : List FieldIr

pub record PageIr : Type 0 where
  pub fqn : String
  pub name : String
  pub domain : String
  pub route : String
  pub title : String
  pub entity_fqn : String
  pub generation_tier : String
  pub data_sources : List Fields
  pub display_rules : Fields
  pub views : List Fields
  pub sections : List Fields
  pub actions : Fields
  pub filters : Fields

pub record EndpointIr : Type 0 where
  pub method : String
  pub path : String
  pub summary : String
  pub request_fields : List FieldIr
  pub required_fields : List String
  pub validation_rules : List Fields
  pub auto_fields : Dict String
  pub side_effects : List Fields
  pub response_status : ℤ
  pub response_shape : Fields
  pub hateoas_links : Fields
  pub roles : List String

pub record RouteIr : Type 0 where
  pub fqn : String
  pub name : String
  pub domain : String
  pub entity_fqn : String
  pub base_path : String
  pub endpoints : List EndpointIr
  pub global_behaviors : Fields

pub record AgentIr : Type 0 where
  pub fqn : String
  pub name : String
  pub domain : String
  pub trigger : String
  -- its `repr`
  pub threshold : String
  pub input_entity : String
  pub input_fields : List String
  pub output_updates : Fields
  pub approach : String
  pub constraints : List String
  pub fallback : Fields

pub record InfraIr : Type 0 where
  pub fqn : String
  pub name : String
  pub domain : String
  pub category : String
  pub config : Fields
  pub env_vars : Fields
  pub bootstrap : Fields

pub record DomainIr : Type 0 where
  pub domain : String
  pub domains : List String
  pub entities : List EntityIr
  pub workflows : List StateMachineIr
  pub pages : List PageIr
  pub routes : List RouteIr
  pub agents : List AgentIr
  pub mixins : List MixinIr
  pub infra : List InfraIr

-- len(self.domains) > 1
unfoldable pub multi_domain : DomainIr → Bool
multi_domain ir = elim ir.domains [ [] ↦ false | d ∷ ds ↦ elim ds [ [] ↦ false | _ ∷ _ ↦ true ] ]
