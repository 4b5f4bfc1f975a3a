-- ===== src/Forge/Semantic/Tests.antt =====
-- One entity with its mixin and workflow, and a page and a route of it.
use specora_core.Prelude.Texts.{push, rstrip}
use specora_core.Forge.Naming.{
  class_name, cleaned, concat_capitalized, module_slug, no_digit, no_keyword, or_prefix,
  pascal_case, pieces, py_identifier, starts_with_digit, strip_front, sub_runs,
}
use specora_core.Forge.Passes.{mixin_map, workflow_map}
use specora_core.Prelude.{◌≡◌, ◌↔◌, refl, [], ◌∷◌, mem, put, lookup}
use specora_core.Json.{pos, end}
use specora_core.Forge.Ir.{EntityIr, PageIr, RouteIr, DomainIr, multi_domain}
use specora_core.Forge.Passes.Tests.{audited, lifecycle, incident}
use specora_core.Forge.Naming.Tests.{ascii}
use specora_core.Forge.Semantic.{
  validate_semantics, each, validate_entity_semantics, check_mixin_name, demand,
  validate_mixin_field_conflicts, check_mixin, check_type, fields_by_name, check_workflow_ref,
  check_reference, check_state_machine, validate_workflow_semantics, check_endpoints, check_page,
  check_required, check_route, check_route_entity, check_transition, check_transition_target,
  check_unique, claim_error, claimed, entities_by_fqn, validate_identifier_uniqueness,
}
use specora_core.Forge.Semantic.Meaning.{IsCoherent}
use specora_core.Forge.Semantic.Coherent.{validate_semantics_iff}

abbrev tracked : EntityIr
tracked = record incident { table_name = "incidents"; mixin_refs = "mixin/it/audited" ∷ [] }

abbrev page : PageIr
page = record {
  fqn = "page/it/incidents";
  name = "incidents";
  domain = "it";
  route = "/incidents";
  title = "";
  entity_fqn = "entity/it/incident";
  generation_tier = "mechanical";
  data_sources = [];
  display_rules = end;
  views = [];
  sections = [];
  actions = end;
  filters = end;
}

abbrev route : RouteIr
route = record {
  fqn = "route/it/incidents";
  name = "incidents";
  domain = "it";
  entity_fqn = "entity/it/incident";
  base_path = "/incidents";
  endpoints =
      record {
        method = "POST";
        path = "/";
        summary = "";
        request_fields = [];
        required_fields = "title" ∷ [];
        validation_rules = [];
        auto_fields = [];
        side_effects = [];
        response_status = pos 201;
        response_shape = end;
        hateoas_links = end;
        roles = [];
      }
      ∷ [];
  global_behaviors = end;
}

abbrev it : DomainIr
it = record {
  domain = "it";
  domains = "it" ∷ [];
  entities = tracked ∷ [];
  workflows = lifecycle ∷ [];
  pages = page ∷ [];
  routes = route ∷ [];
  agents = [];
  mixins = audited ∷ [];
  infra = [];
}

it_validates : validate_semantics ascii it ≡ []
unfolding validate_semantics each validate_entity_semantics check_mixin_name demand mem mixin_map
    put validate_mixin_field_conflicts check_mixin lookup check_type fields_by_name
    check_workflow_ref workflow_map check_reference check_state_machine validate_workflow_semantics
    multi_domain class_name cleaned concat_capitalized module_slug no_digit no_keyword or_prefix
    pascal_case pieces py_identifier starts_with_digit rstrip strip_front sub_runs check_endpoints
    check_page check_required check_route check_route_entity check_transition
    check_transition_target check_unique claim_error claimed entities_by_fqn
    validate_identifier_uniqueness push
it_validates = refl

validate_semantics_iff_example : (validate_semantics ascii it ≡ []) ↔ IsCoherent ascii it
validate_semantics_iff_example = validate_semantics_iff ascii it
