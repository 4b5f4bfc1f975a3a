-- ===== src/Forge/Passes.antt =====
-- The passes over compiled entities (forge/ir/passes/): mixin expansion and state machine
-- binding. A pass reads the mixins or workflows and returns the entities; a Python set of names
-- is a list.
pub mod Mixins
pub mod Workflows
pub mod Names
pub mod Tests
use specora_core.Prelude.{
  String, Bool, true, false, Option, none, some, List, [], ◌∷◌, ◌++◌, map, ◌==◌, if◌then◌else◌, mem,
  Dict, lookup, put,
}
use specora_core.Json.{Value, null, str, Items, nil, cons, Fields, end, truthy}
use specora_core.Forge.Ir.{FieldIr, StateIr, StateMachineIr, EntityIr, MixinIr}

-- {m.fqn: m for m in ir.mixins}, behind the entries `d`
unfoldable pub mixin_map : Dict MixinIr → List MixinIr → Dict MixinIr
mixin_map d [] = d
mixin_map d (m ∷ ms) = mixin_map (put m.fqn m d) ms

abbrev pub names_of : List FieldIr → List String
names_of [] = []
names_of (f ∷ fs) = f.name ∷ names_of fs

-- The loop over a mixin's fields: `entity.fields` and `existing_names` after it.
unfoldable pub add_fields : List FieldIr → List String → List FieldIr → List FieldIr × List String
add_fields fields names [] = (fields, names)
add_fields fields names (f ∷ fs) =
    if mem f.name names
    then add_fields fields names fs
    else add_fields (fields ++ f ∷ []) (names ++ f.name ∷ []) fs

-- The loop over `entity.mixin_refs`: `entity.fields` and `applied` after it.
unfoldable pub apply_refs :
    Dict MixinIr
    → List String
    → List FieldIr
    → List String
    → List String
    → List FieldIr × List String
unfolding add_fields
apply_refs d [] fields names applied = (fields, applied)
apply_refs d (r ∷ rs) fields names applied = elim (lookup r d) [
  | none ↦ apply_refs d rs fields names applied
  | some m ↦
      let (fields', names') = add_fields fields names m.fields in
      apply_refs d rs fields' names' (applied ++ r ∷ [])
]

unfoldable pub expand_entity : Dict MixinIr → EntityIr → EntityIr
unfolding apply_refs
expand_entity d e = elim e.mixin_refs [
  | [] ↦ e
  | r ∷ rs ↦
      let (fields, applied) = apply_refs d (r ∷ rs) e.fields (names_of e.fields) [] in
      record e { fields = fields; mixins_applied = applied }
]

pub expand_mixins : List MixinIr → List EntityIr → List EntityIr
unfolding expand_entity mixin_map
expand_mixins mixins entities = map (expand_entity (mixin_map [] mixins)) entities

-- {w.fqn: w for w in ir.workflows}, behind the entries `d`
unfoldable pub workflow_map : Dict StateMachineIr → List StateMachineIr → Dict StateMachineIr
workflow_map d [] = d
workflow_map d (w ∷ ws) = workflow_map (put w.fqn w d) ws

-- [s.name for s in workflow.states]
unfoldable pub state_names : List StateIr → Items
state_names [] = nil
state_names (s ∷ ss) = cons (str s.name) (state_names ss)

abbrev pub with_states : StateMachineIr → FieldIr → FieldIr
with_states w f = record f {
  enum_values = some (state_names w.states);
  default = if truthy f.default then f.default else str w.initial;
}

abbrev pub state_field : StateMachineIr → FieldIr
state_field w = record {
  name = "state";
  type_name = "string";
  description = "Lifecycle state (managed by workflow)";
  required = false;
  immutable = false;
  default = str w.initial;
  format = none;
  enum_values = some (state_names w.states);
  items_type = none;
  computed = none;
  constraints = end;
  reference = none;
  sensitive = false;
}

-- The first field named 'state' is updated, or one is appended.
unfoldable pub bind_state : StateMachineIr → List FieldIr → List FieldIr
bind_state w [] = state_field w ∷ []
bind_state w (f ∷ fs) = if f.name == "state" then with_states w f ∷ fs else f ∷ bind_state w fs

unfoldable pub bind_entity : Dict StateMachineIr → EntityIr → EntityIr
unfolding bind_state
bind_entity d e = elim e.workflow_ref [
  | none ↦ e
  | some ref ↦ if ref == "" then e else elim (lookup ref d) [
    | none ↦ e
    | some w ↦ record e { state_machine = some w; fields = bind_state w e.fields }
  ]
]

pub bind_state_machines : List StateMachineIr → List EntityIr → List EntityIr
unfolding bind_entity workflow_map
bind_state_machines workflows entities = map (bind_entity (workflow_map [] workflows)) entities
