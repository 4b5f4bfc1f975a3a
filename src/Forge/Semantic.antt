-- ===== src/Forge/Semantic.antt =====
-- Semantic validation of the compiled IR (forge/ir/semantic.py): every check with its errors, in
-- the order in which they are reported. The severity of an error is always "error".
pub mod Meaning
pub mod Reports
pub mod Checks
pub mod Unique
pub mod Coherent
mod Tests
use Prim.Native.Nat.{◌/◌}
use specora_core.Prelude.{
  ℕ, suc, String, Bool, true, false, ◌&&◌, ◌||◌, Option, none, some, List, [], ◌∷◌, ◌++◌, map, ◌==◌,
  if◌then◌else◌, not, mem, Dict, lookup, put, keys,
}
use specora_core.Prelude.Texts.{append, texts, numeral}
use specora_core.Forge.Ir.{
  ReferenceIr, FieldIr, StateIr, GuardIr, StateMachineIr, EntityIr, MixinIr, PageIr, EndpointIr,
  RouteIr, DomainIr, multi_domain,
}
use specora_core.Forge.Naming.{Lexicon, class_name, module_slug}
use specora_core.Forge.Passes.{mixin_map, workflow_map, names_of}

pub record SemanticValidationError : Type 0 where
  pub contract_fqn : String
  pub path : String
  pub message : String

unfoldable pub fail : String → String → List String → SemanticValidationError
fail fqn path message = record { contract_fqn = fqn; path = path; message = texts message }

-- errors.extend(check(x)) for each x
unfoldable pub each {ℓ} :
    {A : Type ℓ} → (A → List SemanticValidationError) → List A → List SemanticValidationError
each check [] = []
each check (x ∷ xs) = check x ++ each check xs

-- if not test: errors.append(e)
unfoldable pub demand : Bool → SemanticValidationError → List SemanticValidationError
demand test e = if test then [] else e ∷ []

unfoldable pub entities_by_fqn : Dict EntityIr → List EntityIr → Dict EntityIr
entities_by_fqn d [] = d
entities_by_fqn d (e ∷ es) = entities_by_fqn (put e.fqn e d) es

unfoldable pub fields_by_name : Dict FieldIr → List FieldIr → Dict FieldIr
fields_by_name d [] = d
fields_by_name d (f ∷ fs) = fields_by_name (put f.name f d) fs

abbrev pub declared_states : List StateIr → List String
declared_states [] = []
declared_states (s ∷ ss) = s.name ∷ declared_states ss

-- The entity's own field under the name of the mixin's field.
unfoldable pub check_type :
    EntityIr → String → FieldIr → Option FieldIr → List SemanticValidationError
check_type e ref f none = []
check_type e ref f (some own) = demand (own.type_name == f.type_name) (
    fail e.fqn (append "spec.fields." (append f.name ".type")) (
      "Field '" ∷ f.name ∷ "' is declared as '" ∷ own.type_name ∷ "' but mixin '" ∷ ref
      ∷ "' defines it as '" ∷ f.type_name
      ∷ "'. The entity's type wins on expansion, which would silently change the shape the mixin guarantees. Use the mixin's type, or rename the field, or drop the mixin."
      ∷ []))

unfoldable pub check_mixin : EntityIr → String → Option MixinIr → List SemanticValidationError
check_mixin e ref none = []
check_mixin e ref (some m) =
    each (λ (f : FieldIr). check_type e ref f (lookup f.name (fields_by_name [] e.fields))) m.fields

unfoldable pub validate_mixin_field_conflicts :
    EntityIr → Dict MixinIr → List SemanticValidationError
validate_mixin_field_conflicts e mixins =
    each (λ (ref : String). check_mixin e ref (lookup ref mixins)) e.mixin_refs

unfoldable pub check_workflow_ref :
    Dict StateMachineIr → EntityIr → Option String → List SemanticValidationError
check_workflow_ref workflows e none = []
check_workflow_ref workflows e (some ref) =
    demand (ref == "" || mem ref (keys workflows))
      (fail e.fqn "spec.state_machine" ("Entity references missing workflow '" ∷ ref ∷ "'" ∷ []))

unfoldable pub check_target :
    EntityIr → FieldIr → ReferenceIr → Option EntityIr → List SemanticValidationError
check_target e f r none =
    fail e.fqn (append "spec.fields." (append f.name ".references.entity"))
      ("Field '" ∷ f.name ∷ "' references missing entity '" ∷ r.target_entity ∷ "'" ∷ [])
    ∷ []
check_target e f r (some target) = demand (mem r.display_field (names_of target.fields)) (
    fail e.fqn (append "spec.fields." (append f.name ".references.display")) (
      "Field '" ∷ f.name ∷ "' displays missing field '" ∷ r.display_field ∷ "' on entity '"
      ∷ target.fqn ∷ "'" ∷ []))

unfoldable pub check_reference :
    Dict EntityIr → EntityIr → FieldIr → Option ReferenceIr → List SemanticValidationError
check_reference entities e f none = []
check_reference entities e f (some r) =
    if r.target_entity == "" then [] else check_target e f r (lookup r.target_entity entities)

-- {guard.from_state} -> {guard.to_state}
unfoldable pub arrow : GuardIr → String
arrow g = append g.from_state (append " -> " g.to_state)

unfoldable pub check_guard_field : EntityIr → GuardIr → String → List SemanticValidationError
check_guard_field e g name = demand (mem name (names_of e.fields)) (
    fail e.fqn "spec.state_machine.guards.require_fields" (
      "Workflow guard '"
      ∷ arrow g
      ∷ "' requires missing field '"
      ∷ name
      ∷ "' on entity '"
      ∷ e.fqn
      ∷ "'"
      ∷ []))

unfoldable pub check_state_machine : EntityIr → Option StateMachineIr → List SemanticValidationError
check_state_machine e none = []
check_state_machine e (some sm) =
    each (λ (g : GuardIr). each (check_guard_field e g) g.require_fields) sm.guards

unfoldable pub check_mixin_name : Dict MixinIr → EntityIr → String → List SemanticValidationError
check_mixin_name mixins e ref =
    demand (mem ref (keys mixins))
      (fail e.fqn "spec.mixins" ("Entity references missing mixin '" ∷ ref ∷ "'" ∷ []))

unfoldable pub validate_entity_semantics :
    Dict EntityIr → Dict MixinIr → Dict StateMachineIr → EntityIr → List SemanticValidationError
validate_entity_semantics entities mixins workflows e =
    each (check_mixin_name mixins e) e.mixin_refs
    ++ (validate_mixin_field_conflicts e mixins
        ++ (check_workflow_ref workflows e e.workflow_ref
            ++ (each (λ (f : FieldIr). check_reference entities e f f.reference) e.fields
                ++ check_state_machine e e.state_machine)))

unfoldable pub check_transition_target :
    StateMachineIr → String → String → List SemanticValidationError
check_transition_target w source target = demand (mem target (declared_states w.states)) (
    fail w.fqn (append "spec.transitions." source)
      ("Workflow transition target '" ∷ target ∷ "' is not declared" ∷ []))

unfoldable pub check_transition :
    StateMachineIr → String × List String → List SemanticValidationError
check_transition w (source, targets) =
    demand (mem source (declared_states w.states)) (
      fail w.fqn (append "spec.transitions." source)
        ("Workflow transition source '" ∷ source ∷ "' is not declared" ∷ []))
    ++ each (check_transition_target w source) targets

-- (source, target) in transition_pairs
unfoldable pub has_pair : String → String → Dict (List String) → Bool
has_pair source target [] = false
has_pair source target ((s, targets) ∷ transitions) =
    (s == source && mem target targets) || has_pair source target transitions

unfoldable pub check_guard : StateMachineIr → GuardIr → List SemanticValidationError
check_guard w g = demand (has_pair g.from_state g.to_state w.transitions) (
    fail w.fqn "spec.guards"
      ("Workflow guard '" ∷ arrow g ∷ "' does not match a declared transition" ∷ []))

unfoldable pub validate_workflow_semantics : StateMachineIr → List SemanticValidationError
validate_workflow_semantics w =
    demand (mem w.initial (declared_states w.states)) (
      fail w.fqn "spec.initial" ("Workflow initial state '" ∷ w.initial ∷ "' is not declared" ∷ []))
    ++ (each (check_transition w) w.transitions ++ each (check_guard w) w.guards)

unfoldable pub check_page : Dict EntityIr → PageIr → List SemanticValidationError
check_page entities p =
    demand (p.entity_fqn == "" || mem p.entity_fqn (keys entities))
      (fail p.fqn "spec.entity" ("Page references missing entity '" ∷ p.entity_fqn ∷ "'" ∷ []))

unfoldable pub check_required : RouteIr → EntityIr → ℕ → String → List SemanticValidationError
check_required r e idx name = demand (mem name (names_of e.fields)) (
    fail r.fqn (append "spec.endpoints[" (append (numeral idx) "].request_body.required_fields"))
      ("Endpoint requires missing field '" ∷ name ∷ "' on entity '" ∷ e.fqn ∷ "'" ∷ []))

unfoldable pub check_endpoints :
    RouteIr → EntityIr → ℕ → List EndpointIr → List SemanticValidationError
check_endpoints r e idx [] = []
check_endpoints r e idx (p ∷ ps) =
    each (check_required r e idx) p.required_fields ++ check_endpoints r e (suc idx) ps

unfoldable pub check_route_entity : RouteIr → Option EntityIr → List SemanticValidationError
check_route_entity r none =
    demand (r.entity_fqn == "")
      (fail r.fqn "spec.entity" ("Route references missing entity '" ∷ r.entity_fqn ∷ "'" ∷ []))
check_route_entity r (some e) = check_endpoints r e 0 r.endpoints

unfoldable pub check_route : Dict EntityIr → RouteIr → List SemanticValidationError
check_route entities r = check_route_entity r (lookup r.entity_fqn entities)

-- The error for a value that is claimed already, and the claims after it.
unfoldable pub claim_error :
    String → String → String → EntityIr → Option String → List SemanticValidationError
claim_error kind path value e none = []
claim_error kind path value e (some owner) =
    fail e.fqn path (
      kind ∷ " '" ∷ value ∷ "' is claimed by both '" ∷ owner ∷ "' and '" ∷ e.fqn
      ∷ "'. Generated output would silently overwrite one with the other. Rename one entity, or set an explicit distinct 'table' in its spec."
      ∷ [])
    ∷ []

unfoldable pub claimed : String → String → Dict String → Dict String
claimed value fqn claims = if mem value (keys claims) then claims else put value fqn claims

unfoldable pub check_unique :
    String
    → String
    → (EntityIr → String)
    → Dict String
    → List EntityIr
    → List SemanticValidationError
check_unique kind path derive claims [] = []
check_unique kind path derive claims (e ∷ es) =
    claim_error kind path (derive e) e (lookup (derive e) claims)
    ++ check_unique kind path derive (claimed (derive e) e.fqn claims) es

unfoldable pub validate_identifier_uniqueness : Lexicon → DomainIr → List SemanticValidationError
validate_identifier_uniqueness L ir =
    let multi = multi_domain ir in
    check_unique "Table name" "spec.table" (λ (e : EntityIr). e.table_name) [] ir.entities
    ++ (check_unique "Generated class name" "metadata.name"
          (λ (e : EntityIr). class_name e.name e.domain multi) [] ir.entities
        ++ check_unique "Generated module name" "metadata.name"
            (λ (e : EntityIr). module_slug L e.name e.domain multi) [] ir.entities)

unfoldable pub validate_semantics : Lexicon → DomainIr → List SemanticValidationError
validate_semantics L ir =
    let entities = entities_by_fqn [] ir.entities in
    let mixins = mixin_map [] ir.mixins in
    let workflows = workflow_map [] ir.workflows in
    each (validate_entity_semantics entities mixins workflows) ir.entities
    ++ (each validate_workflow_semantics ir.workflows
        ++ (each (check_page entities) ir.pages
            ++ (validate_identifier_uniqueness L ir ++ each (check_route entities) ir.routes)))
