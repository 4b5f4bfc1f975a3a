-- ===== src/Forge/Semantic/Checks.antt =====
-- Each check reports nothing exactly where its part of the domain is coherent
-- (forge/ir/semantic.py).
use specora_core.Prelude.{
  ℕ, suc, String, ◌≡◌, ◌↔◌, refl, true, ◌||◌, Option, none, some, List, [], ◌∷◌, ◌==◌, eq_iff, inl,
  inr, Bool-cases, mem, Dict, lookup, keys, All,
}
use specora_core.Forge.Ir.{
  ReferenceIr, FieldIr, StateMachineIr, EntityIr, MixinIr, EndpointIr, RouteIr,
}
use specora_core.Forge.Passes.{names_of}
use specora_core.Forge.Semantic.{
  fields_by_name, declared_states, check_type, check_mixin, validate_mixin_field_conflicts,
  check_workflow_ref, check_target, check_reference, check_guard_field, check_state_machine,
  check_mixin_name, validate_entity_semantics, check_transition_target, check_transition, has_pair,
  check_guard, validate_workflow_semantics, check_required, check_endpoints, check_route_entity,
}
use specora_core.Forge.Semantic.Meaning.{
  AgreesWith, MixinAgrees, IsNamed, Displays, Refers, GuardsMet, IsCoherentEntity, IsWorkflow,
  RouteBound,
}
use specora_core.Forge.Semantic.Reports.{trans_iff, demand_iff, append_iff, each_iff, or_iff}

type_iff :
    (e : EntityIr) (ref : String) (f : FieldIr) (own : Option FieldIr)
    → (check_type e ref f own ≡ []) ↔ AgreesWith own f
unfolding check_type
type_iff e ref f none = (λ h. tt, λ h. refl)
type_iff e ref f (some own) =
    trans_iff (demand_iff (own.type_name == f.type_name) _) (eq_iff own.type_name f.type_name)

mixin_iff :
    (e : EntityIr) (ref : String) (m : Option MixinIr)
    → (check_mixin e ref m ≡ []) ↔ MixinAgrees e m
unfolding check_mixin
mixin_iff e ref none = (λ h. tt, λ h. refl)
mixin_iff e ref (some m) =
    each_iff _ _ (λ f. type_iff e ref f (lookup f.name (fields_by_name [] e.fields))) m.fields

workflow_ref_iff :
    (workflows : Dict StateMachineIr) (e : EntityIr) (ref : Option String)
    → (check_workflow_ref workflows e ref ≡ []) ↔ IsNamed (keys workflows) ref
unfolding check_workflow_ref
workflow_ref_iff workflows e none = (λ h. tt, λ h. refl)
workflow_ref_iff workflows e (some ref) =
    trans_iff (demand_iff (ref == "" || mem ref (keys workflows)) _)
      (or_iff ref (mem ref (keys workflows)))

target_iff :
    (e : EntityIr) (f : FieldIr) (r : ReferenceIr) (target : Option EntityIr)
    → (check_target e f r target ≡ []) ↔ Displays r target
unfolding check_target
target_iff e f r none = (λ h. cc h, λ h. absurd h)
target_iff e f r (some target) = demand_iff (mem r.display_field (names_of target.fields)) _

reference_iff :
    (entities : Dict EntityIr) (e : EntityIr) (f : FieldIr) (r : Option ReferenceIr)
    → (check_reference entities e f r ≡ []) ↔ Refers entities r
unfolding check_reference
reference_iff entities e f none = (λ h. tt, λ h. refl)
reference_iff entities e f (some r) = elim (Bool-cases (r.target_entity == "")) [
  | inl h ↦ (λ k. inl ((eq_iff r.target_entity "").0 h), λ k. rw (h, check_reference) refl)
  | inr h ↦
      let (to, back) = target_iff e f r (lookup r.target_entity entities) in
      (
        λ k. inr (to (rw (h, check_reference) at k)),
        λ k. elim k [
          | inl same ↦ absurd (cc (h, (eq_iff r.target_entity "").1 same))
          | inr shown ↦ rw (h, check_reference) (back shown)
        ],
      )
]

state_machine_iff :
    (e : EntityIr) (sm : Option StateMachineIr) → (check_state_machine e sm ≡ []) ↔ GuardsMet e sm
unfolding check_state_machine check_guard_field
state_machine_iff e none = (λ h. tt, λ h. refl)
state_machine_iff e (some sm) =
    each_iff _ _
      (λ g. each_iff _ _ (λ name. demand_iff (mem name (names_of e.fields)) _) g.require_fields)
      sm.guards

pub entity_iff :
    (entities : Dict EntityIr) (mixins : Dict MixinIr) (workflows : Dict StateMachineIr)
    (e : EntityIr)
    → (validate_entity_semantics entities mixins workflows e ≡ [])
      ↔ IsCoherentEntity entities mixins workflows e
unfolding validate_entity_semantics validate_mixin_field_conflicts check_mixin_name
entity_iff entities mixins workflows e =
    trans_iff
      (append_iff _ _ (each_iff _ _ (λ ref. demand_iff (mem ref (keys mixins)) _) e.mixin_refs) (
        append_iff _ _ (each_iff _ _ (λ ref. mixin_iff e ref (lookup ref mixins)) e.mixin_refs) (
          append_iff _ _ (workflow_ref_iff workflows e e.workflow_ref) (
            append_iff _ _ (each_iff _ _ (λ f. reference_iff entities e f f.reference) e.fields)
              (state_machine_iff e e.state_machine)))))
      (
        λ (a, (b, (c, (d, g)))). record {
          mixins_exist = a;
          mixins_agree = b;
          workflow_exists = c;
          references_resolve = d;
          guards_met = g;
        },
        λ c. (
          c.mixins_exist,
          (c.mixins_agree, (c.workflow_exists, (c.references_resolve, c.guards_met))),
        ),
      )

pub IsWorkflow-iff : (w : StateMachineIr) → (validate_workflow_semantics w ≡ []) ↔ IsWorkflow w
unfolding validate_workflow_semantics check_transition check_transition_target check_guard
IsWorkflow-iff w =
    trans_iff
      (append_iff _ _ (demand_iff (mem w.initial (declared_states w.states)) _) (
        append_iff _ _
          (each_iff _ _
            (λ t.
              append_iff _ _ (demand_iff (mem t.0 (declared_states w.states)) _)
                (each_iff _ _ (λ target. demand_iff (mem target (declared_states w.states)) _) t.1))
            w.transitions)
          (each_iff _ _ (λ g. demand_iff (has_pair g.from_state g.to_state w.transitions) _)
            w.guards)))
      (
        λ (a, (b, c)). record { initial_declared = a; transitions_declared = b; guards_match = c },
        λ c. (c.initial_declared, (c.transitions_declared, c.guards_match)),
      )

endpoints_iff :
    (r : RouteIr) (e : EntityIr) (idx : ℕ) (ps : List EndpointIr)
    → (check_endpoints r e idx ps ≡ [])
      ↔ All
          (λ (p : EndpointIr).
            All (λ (name : String). mem name (names_of e.fields) ≡ true) p.required_fields)
          ps
unfolding check_endpoints check_required
endpoints_iff r e idx [] = (λ h. tt, λ h. refl)
endpoints_iff r e idx (p ∷ ps) =
    append_iff _ _
      (each_iff _ _ (λ name. demand_iff (mem name (names_of e.fields)) _) p.required_fields)
      (endpoints_iff r e (suc idx) ps)

pub route_iff : (r : RouteIr) (e : Option EntityIr) → (check_route_entity r e ≡ []) ↔ RouteBound r e
unfolding check_route_entity
route_iff r none = trans_iff (demand_iff (r.entity_fqn == "") _) (eq_iff r.entity_fqn "")
route_iff r (some e) = endpoints_iff r e 0 r.endpoints
