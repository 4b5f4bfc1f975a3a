-- ===== src/Forge/Dependencies.antt =====
-- Compiler dependency edges out of the meaning of a contract (forge/parser/dependencies.py).
pub mod Edges
pub mod Tests
use Prim.Native.Char.{Char, code}
use Prim.Native.String as Text
use specora_core.Prelude.{
  ℕ, String, ◌≡◌, refl, Bool, true, false, ◌&&◌, ◌||◌, Option, none, some, List, [], ◌∷◌, ◌++◌,
  arith, ◌==◌, eqb, leb, if◌then◌else◌, mem, Distinct, All, Distinct-snoc, All-append,
}
use specora_core.Prelude.Options.{◌>>=◌}
use specora_core.Json.{
  Value, null, bool, int, float, str, arr, obj, Items, nil, cons, Fields, end, field, get, get_or,
  items, values,
}

-- The characters of `[a-zA-Z0-9_./-]`.
fqn_char : ℕ → Bool
fqn_char c =
    (leb b'a' c && leb c b'z')
    || (leb b'A' c && leb c b'Z')
    || (leb b'.' c && leb c b'9')
    || eqb c b'_'
    || eqb c b'-'

-- `[a-zA-Z0-9_./-]*$`, where `$` also stands before one last newline.
fqn_tail : String → Bool
unfolding fqn_char
fqn_tail Text.[] = true
fqn_tail (Text.◌∷◌ c Text.[]) = fqn_char (code c) || eqb (code c) 10
fqn_tail (Text.◌∷◌ c (Text.◌∷◌ d s)) = fqn_char (code c) && fqn_tail (Text.◌∷◌ d s)

-- `[a-zA-Z0-9_./-]+$`
fqn_rest : String → Bool
unfolding fqn_tail
fqn_rest Text.[] = false
fqn_rest (Text.◌∷◌ c s) = fqn_char (code c) && fqn_tail s

-- A text behind a literal prefix.
after : String → String → Option String
after Text.[] s = some s
after (Text.◌∷◌ c p) Text.[] = none
after (Text.◌∷◌ c p) (Text.◌∷◌ d s) = if eqb (code c) (code d) then after p s else none

abbrev kinds : List String
kinds = "entity/" ∷ "workflow/" ∷ "page/" ∷ "route/" ∷ "agent/" ∷ "mixin/" ∷ "infra/" ∷ []

matches_kind : List String → String → Bool
unfolding after fqn_rest
matches_kind [] s = false
matches_kind (k ∷ ks) s = elim (after k s) [
  | none ↦ matches_kind ks s
  | some rest ↦ fqn_rest rest || matches_kind ks s
]

-- _FQN.match(value)
unfoldable pub is_fqn : String → Bool
unfolding matches_kind
is_fqn s = matches_kind kinds s

-- isinstance(value, str) and _FQN.match(value) and value not in deps, for a text
add_text : List String → String → List String
add_text deps s = if is_fqn s && (if mem s deps then false else true) then deps ++ s ∷ [] else deps

-- The lists that the Python functions extend in place are passed and returned.
add_one : List String → Value → List String
unfolding add_text
add_one deps (str s) = add_text deps s
add_one deps _ = deps

add_items : List String → Items → List String
add_items deps nil = deps
add_items deps (cons v vs) = add_items (add_one deps v) vs

add_many : List String → Value → List String
unfolding add_one add_items
add_many deps (str s) = add_one deps (str s)
add_many deps (arr vs) = add_items deps vs
add_many deps _ = deps

mutual
  unfolding add_one

  extract_nested_fqns : Value → List String → List String
  extract_nested_fqns (str s) deps = add_one deps (str s)
  extract_nested_fqns (arr vs) deps = nested_items vs deps
  extract_nested_fqns (obj d) deps = nested_fields d deps
  extract_nested_fqns null deps = deps
  extract_nested_fqns (bool b) deps = deps
  extract_nested_fqns (int n) deps = deps
  extract_nested_fqns (float s) deps = deps

  nested_items : Items → List String → List String
  nested_items nil deps = deps
  nested_items (cons v vs) deps = nested_items vs (extract_nested_fqns v deps)

  nested_fields : Fields → List String → List String
  nested_fields end deps = deps
  nested_fields (field k v d) deps = nested_fields d (extract_nested_fqns v deps)

-- refs = field_def.get("references"); if isinstance(refs, dict): _add_one(deps, refs.get("entity"))
add_reference : List String → Option Value → List String
unfolding add_one
add_reference deps (some (obj refs)) = add_one deps (get_or "entity" null refs)
add_reference deps _ = deps

-- the loop over `spec["fields"].values()`
add_field_references : List String → Fields → List String
unfolding add_reference
add_field_references deps end = deps
add_field_references deps (field k (obj f) d) =
    add_field_references (add_reference deps (get "references" f)) d
add_field_references deps (field k _ d) = add_field_references deps d

add_values : List String → Fields → List String
unfolding add_many
add_values deps end = deps
add_values deps (field k v d) = add_values (add_many deps v) d

add_endpoints : List String → Items → List String
unfolding extract_nested_fqns
add_endpoints deps nil = deps
add_endpoints deps (cons (obj e) es) =
    add_endpoints (extract_nested_fqns (get_or "side_effects" (arr nil) e) deps) es
add_endpoints deps (cons _ es) = add_endpoints deps es

-- `.values()` and `.get` of a value that is no dict, and a `for` over one that is no list, raise:
-- `none`. (Iterating a dict or a text yields texts, which `isinstance(endpoint, dict)` skips.)
fields_of : Value → Option Fields
fields_of (obj d) = some d
fields_of _ = none

endpoint_items : Value → Option Items
endpoint_items (arr vs) = some vs
endpoint_items (obj d) = some nil
endpoint_items (str s) = some nil
endpoint_items _ = none

entity_dependencies : Fields → Option (List String)
unfolding add_many add_field_references add_values fields_of
entity_dependencies spec = do
  let named =
      add_one (add_many [] (get_or "mixins" (arr nil) spec)) (get_or "state_machine" null spec)
  defs ← fields_of (get_or "fields" (obj end) spec)
  hooks ← fields_of (get_or "ai_integration" (obj end) spec)
  some (add_values (add_field_references named defs) hooks)

route_dependencies : Fields → Option (List String)
unfolding add_endpoints endpoint_items
route_dependencies spec = do
  es ← endpoint_items (get_or "endpoints" (arr nil) spec)
  some (add_endpoints (add_one [] (get_or "entity" null spec)) es)

agent_dependencies : Value → List String
agent_dependencies (obj d) = add_one [] (get_or "entity" null d)
agent_dependencies _ = []

mixin_dependencies : Fields → Option (List String)
unfolding add_field_references fields_of
mixin_dependencies spec = do
  defs ← fields_of (get_or "fields" (obj end) spec)
  some (add_field_references [] defs)

-- `kind == "Entity"` and the `elif` chain. A list or a dict is unhashable, so that
-- `kind in {"Route", "Page"}` raises.
spec_dependencies : Option Value → Fields → Option (List String)
unfolding entity_dependencies route_dependencies agent_dependencies mixin_dependencies
spec_dependencies (some (str kind)) spec =
    if kind == "Entity"
    then entity_dependencies spec
    else if kind == "Route"
    then route_dependencies spec
    else if kind == "Page"
    then some (add_one [] (get_or "entity" null spec))
    else if kind == "Agent"
    then some (agent_dependencies (get_or "input" (obj end) spec))
    else if kind == "Mixin"
    then mixin_dependencies spec
    else some []
spec_dependencies (some (arr _)) spec = none
spec_dependencies (some (obj _)) spec = none
spec_dependencies _ spec = some []

-- A `spec` that is no dict raises where an arm of the chain reads it.
reads_spec : Option Value → Bool
reads_spec (some (str k)) = mem k ("Entity" ∷ "Route" ∷ "Page" ∷ "Agent" ∷ "Mixin" ∷ [])
reads_spec (some (arr _)) = true
reads_spec (some (obj _)) = true
reads_spec _ = false

unfoldable pub extract_semantic_dependencies : Fields → Option (List String)
unfolding spec_dependencies reads_spec
extract_semantic_dependencies contract = elim (get_or "spec" (obj end) contract) [
  | obj spec ↦ spec_dependencies (get "kind" contract) spec
  | _ ↦ if reads_spec (get "kind" contract) then none else some []
]

-- if isinstance(requires, list): _add_many(deps, requires)
declared_dependencies : Value → List String
unfolding add_items
declared_dependencies (arr vs) = add_items [] vs
declared_dependencies _ = []

extend : List String → List String → List String
unfolding add_text
extend deps [] = deps
extend deps (s ∷ ss) = extend (add_text deps s) ss

unfoldable pub merge_dependencies : Fields → Option (List String)
unfolding extract_semantic_dependencies declared_dependencies extend
merge_dependencies contract = do
  semantic ← extract_semantic_dependencies contract
  some (extend (declared_dependencies (get_or "requires" (arr nil) contract)) semantic)
