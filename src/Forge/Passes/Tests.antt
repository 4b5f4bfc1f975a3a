-- ===== src/Forge/Passes/Tests.antt =====
-- The passes on an entity with one mixin and one workflow.
use specora_core.Prelude.{
  String, ◌≡◌, ◌≢◌, refl, true, false, none, some, [], ◌∷◌, mem, Distinct, Dict, lookup, put,
  select,
}
use specora_core.Json.{null, end}
use specora_core.Forge.Ir.{FieldIr, StateMachineIr, EntityIr, MixinIr}
use specora_core.Forge.Passes.{
  names_of, mixin_map, expand_entity, expand_mixins, workflow_map, state_names, bind_entity,
  bind_state_machines,
}
use specora_core.Forge.Passes.Mixins.{IsExpanded, expand_entity-IsExpanded, expand_mixins-twice}
use specora_core.Forge.Passes.Workflows.{
  first_state, is_other, bind_entity-state, bind_state_machines-twice,
}

abbrev pub field_named : String → FieldIr
field_named n = record {
  name = n;
  type_name = "string";
  description = "";
  required = false;
  immutable = false;
  default = null;
  format = none;
  enum_values = none;
  items_type = none;
  computed = none;
  constraints = end;
  reference = none;
  sensitive = false;
}

abbrev pub audited : MixinIr
audited = record {
  fqn = "mixin/it/audited";
  name = "audited";
  domain = "it";
  description = "";
  fields = field_named "title" ∷ field_named "changed_by" ∷ [];
}

abbrev pub lifecycle : StateMachineIr
lifecycle = record {
  fqn = "workflow/it/lifecycle";
  initial = "new";
  states =
      record { name = "new"; label = ""; category = "open"; terminal = false; color = none }
      ∷ record { name = "done"; label = ""; category = "closed"; terminal = true; color = none }
      ∷ [];
  transitions = ("new", "done" ∷ []) ∷ [];
  guards = [];
  side_effects = [];
  type_overrides = [];
}

abbrev pub incident : EntityIr
incident = record {
  fqn = "entity/it/incident";
  name = "incident";
  domain = "it";
  description = "";
  table_name = "";
  fields = field_named "title" ∷ [];
  mixin_refs = "mixin/it/audited" ∷ "mixin/it/missing" ∷ [];
  mixins_applied = [];
  workflow_ref = some "workflow/it/lifecycle";
  state_machine = none;
  ai_hooks = [];
  number_prefix = none;
  icon = none;
}

abbrev mixins : Dict MixinIr
mixins = mixin_map [] (audited ∷ [])

abbrev workflows : Dict StateMachineIr
workflows = workflow_map [] (lifecycle ∷ [])

expanded_names : names_of (expand_entity mixins incident).fields ≡ "title" ∷ "changed_by" ∷ []
unfolding expand_entity mixin_map lookup put mem
expanded_names = refl

titles_differ : Distinct (names_of incident.fields)
unfolding mem
titles_differ = (refl, tt)

expand_entity-IsExpanded_example : IsExpanded mixins incident (expand_entity mixins incident)
expand_entity-IsExpanded_example = expand_entity-IsExpanded mixins incident titles_differ

expand_mixins-twice_example :
    expand_mixins (audited ∷ []) (expand_mixins (audited ∷ []) (incident ∷ []))
    ≡ expand_mixins (audited ∷ []) (incident ∷ [])
expand_mixins-twice_example = expand_mixins-twice (audited ∷ []) (incident ∷ []) (titles_differ, tt)

named : lifecycle.fqn ≢ ""
named h = cc h

bind_entity-state_example :
    ((bind_entity workflows incident).state_machine ≡ some lifecycle)
    × ((f : FieldIr) × (first_state (bind_entity workflows incident).fields ≡ some f)
        × (f.enum_values ≡ some (state_names lifecycle.states)))
    × (select is_other (bind_entity workflows incident).fields ≡ select is_other incident.fields)
unfolding workflow_map lookup put
bind_entity-state_example =
    bind_entity-state workflows incident "workflow/it/lifecycle" lifecycle refl named refl

bind_state_machines-twice_example :
    bind_state_machines (lifecycle ∷ []) (bind_state_machines (lifecycle ∷ []) (incident ∷ []))
    ≡ bind_state_machines (lifecycle ∷ []) (incident ∷ [])
bind_state_machines-twice_example = bind_state_machines-twice (lifecycle ∷ []) (incident ∷ [])
