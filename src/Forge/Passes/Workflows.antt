-- ===== src/Forge/Passes/Workflows.antt =====
-- Binding workflows (forge/ir/passes/state_machine_binding.py).
use specora_core.Prelude.{
  String, ◌≡◌, ◌≢◌, refl, sym, ◌∙◌, ap, Bool, true, false, Option, none, some, List, [], ◌∷◌, arith,
  ◌==◌, eq_iff, eq_refl, if◌then◌else◌, Dict, lookup, Bool-cases, inl, inr, ◌⊎◌, not, select,
}
use specora_core.Prelude.Options.{Option-cases}
use specora_core.Json.{Value, str, truthy}
use specora_core.Forge.Ir.{FieldIr, StateMachineIr, EntityIr}
use specora_core.Forge.Passes.{
  state_names, with_states, state_field, bind_state, bind_entity, bind_state_machines, workflow_map,
}

-- The field that the generators read as the lifecycle state.
unfoldable pub first_state : List FieldIr → Option FieldIr
first_state [] = none
first_state (f ∷ fs) = if f.name == "state" then some f else first_state fs

bind_state-first :
    (w : StateMachineIr) (fs : List FieldIr)
    → (f : FieldIr) × (first_state (bind_state w fs) ≡ some f)
      × (f.enum_values ≡ some (state_names w.states))
unfolding bind_state first_state
bind_state-first w [] = (state_field w, refl, refl)
bind_state-first w (f ∷ fs) = elim (Bool-cases (f.name == "state")) [
  | inl e ↦ (with_states w f, ground (arith, e), refl)
  | inr e ↦
      let (g, p, q) = bind_state-first w fs in (g, rw (e, bind_state) (rw (e, first_state) p), q)
]

if_same : (b : Bool) (v : Value) → (if b then v else v) ≡ v
if_same true v = refl
if_same false v = refl

same_default :
    (v i : Value)
    → (if truthy (if truthy v then v else i) then (if truthy v then v else i) else i)
      ≡ (if truthy v then v else i)
same_default v i = elim (Bool-cases (truthy v)) [
  | inl e ↦ rw e (rw e refl)
  | inr e ↦ rw e (if_same (truthy i) i)
]

with_states_twice :
    (w : StateMachineIr) (f : FieldIr) → with_states w (with_states w f) ≡ with_states w f
with_states_twice w f =
    ap (λ (v : Value). record f { enum_values = some (state_names w.states); default = v })
      (same_default f.default (str w.initial))

bind_state_twice :
    (w : StateMachineIr) (fs : List FieldIr) → bind_state w (bind_state w fs) ≡ bind_state w fs
unfolding bind_state
bind_state_twice w [] =
    ap (λ (v : Value). record (state_field w) { default = v } ∷ [])
      (if_same (truthy (str w.initial)) (str w.initial))
bind_state_twice w (f ∷ fs) = elim (Bool-cases (f.name == "state")) [
  | inl e ↦
      rw (e, bind_state) (rw (e, bind_state) (ap (λ (g : FieldIr). g ∷ fs) (with_states_twice w f)))
  | inr e ↦
      rw (e, bind_state)
        (rw (e, bind_state) (ap (λ (gs : List FieldIr). f ∷ gs) (bind_state_twice w fs)))
]

abbrev pub is_other : FieldIr → Bool
is_other f = not (f.name == "state")

bind_state-others :
    (w : StateMachineIr) (fs : List FieldIr)
    → select is_other (bind_state w fs) ≡ select is_other fs
unfolding bind_state
bind_state-others w [] = refl
bind_state-others w (f ∷ fs) = elim (Bool-cases (f.name == "state")) [
  | inl e ↦ rw (e, bind_state) (rw e refl)
  | inr e ↦ rw (e, bind_state) (rw e (ap (λ (gs : List FieldIr). f ∷ gs) (bind_state-others w fs)))
]

bind_entity-at :
    (d : Dict StateMachineIr) (e : EntityIr) (ref : String) (w : StateMachineIr)
    → e.workflow_ref ≡ some ref
    → ref ≢ ""
    → lookup ref d ≡ some w
    → bind_entity d e ≡ record e { state_machine = some w; fields = bind_state w e.fields }
unfolding bind_entity
bind_entity-at d e ref w h k l = ground (arith, h, l, k, eq_iff ref "")

-- An entity that names a workflow gets it bound: the machine is that workflow, the field that is
-- found first under the name 'state' allows exactly the workflow's states, and every field of another
-- name is as before, in its place. The name is not empty, and there is a workflow of that name.
pub bind_entity-state :
    (d : Dict StateMachineIr) (e : EntityIr) (ref : String) (w : StateMachineIr)
    → e.workflow_ref ≡ some ref
    → ref ≢ ""
    → lookup ref d ≡ some w
    → ((bind_entity d e).state_machine ≡ some w)
      × ((f : FieldIr) × (first_state (bind_entity d e).fields ≡ some f)
          × (f.enum_values ≡ some (state_names w.states)))
      × (select is_other (bind_entity d e).fields ≡ select is_other e.fields)
bind_entity-state d e ref w h k l =
    let p = bind_entity-at d e ref w h k l in
    (
      ap (λ (x : EntityIr). x.state_machine) p,
      rw p (bind_state-first w e.fields),
      rw p (bind_state-others w e.fields),
    )

unbound :
    (d : Dict StateMachineIr) (e : EntityIr)
    → (e.workflow_ref ≡ none)
      ⊎ ((ref : String) × (e.workflow_ref ≡ some ref)
          × ((ref == "" ≡ true) ⊎ (lookup ref d ≡ none)))
    → bind_entity d e ≡ e
unfolding bind_entity
unbound d e (inl h) = ground (arith, h)
unbound d e (inr (ref, h, inl k)) = ground (arith, h, k)
unbound d e (inr (ref, h, inr k)) = ground (arith, h, k)

bind_entity_twice :
    (d : Dict StateMachineIr) (e : EntityIr) → bind_entity d (bind_entity d e) ≡ bind_entity d e
bind_entity_twice d e = elim (Option-cases e.workflow_ref) [
  | inl h ↦ ap (bind_entity d) (unbound d e (inl h))
  | inr (ref, h) ↦ elim (Bool-cases (ref == "")) [
    | inl k ↦ ap (bind_entity d) (unbound d e (inr (ref, h, inl k)))
    | inr k ↦ elim (Option-cases (lookup ref d)) [
      | inl l ↦ ap (bind_entity d) (unbound d e (inr (ref, h, inr l)))
      | inr (w, l) ↦
          let ne : ref ≢ "" = λ q. cc (k, eq_refl "", q) in
          let p = bind_entity-at d e ref w h ne l in
          let bound = record e { state_machine = some w; fields = bind_state w e.fields } in
          ap (bind_entity d) p
          ∙ bind_entity-at d bound ref w h ne l
          ∙ ap (λ (fs : List FieldIr). record e { state_machine = some w; fields = fs })
              (bind_state_twice w e.fields)
          ∙ sym p
    ]
  ]
]

-- Binding is idempotent, as every pass has to be: a second run changes nothing.
pub bind_state_machines-twice :
    (ws : List StateMachineIr) (es : List EntityIr)
    → bind_state_machines ws (bind_state_machines ws es) ≡ bind_state_machines ws es
unfolding bind_state_machines
bind_state_machines-twice ws [] = refl
bind_state_machines-twice ws (e ∷ es) =
    cc (bind_entity_twice (workflow_map [] ws) e, bind_state_machines-twice ws es)
