-- ===== src/Forge/Graph/Build.antt =====
-- `build_dependency_graph` (forge/parser/graph.py), and what the built graph holds.
use Prim.Native.String as Text
use specora_core.Prelude.{
  String, ◌≡◌, subst, some-injective, Bool, false, ◌||◌, Option, none, some, List, [], ◌∷◌, ◌++◌,
  ◌==◌, if◌then◌else◌, Dict, lookup, Bool-cases, inl, inr,
}
use specora_core.Prelude.Options.{◌>>=◌, bind-eq-some}
use specora_core.Json.{Value, str, arr, obj, Items, nil, cons, Fields, end, get, get_or, truthy}
use specora_core.Forge.Dependencies.{merge_dependencies}
use specora_core.Forge.Graph.{
  ContractNode, GraphError, DependencyGraph, empty_graph, linked, add_node, add_edge,
  topological_order,
}
use specora_core.Forge.Graph.WellFormed.{
  IsGraph, empty_graph-IsGraph, add_node-IsGraph, add_edge-IsGraph,
}
use specora_core.Forge.Graph.Topological.{Outcome, topological_order-Outcome}

-- {fqn: merge_dependencies(contract) for fqn, contract in contracts.items()}
unfoldable pub merge_all : Dict Fields → Option (Dict (List String))
merge_all [] = some []
merge_all ((fqn, contract) ∷ rest) = do
  deps ← merge_dependencies contract
  others ← merge_all rest
  some ((fqn, deps) ∷ others)

-- fqn in declared
pub lists_text : String → Items → Bool
lists_text s nil = false
lists_text s (cons (str t) vs) = t == s || lists_text s vs
lists_text s (cons _ vs) = lists_text s vs

self_reference : String → GraphError
self_reference fqn = record {
  error_type = "self_reference";
  message = Text.◌++◌ "Contract '" (
      Text.◌++◌ fqn
        "' lists itself in `requires`. A contract cannot be compiled before itself — remove the entry, or correct it to the contract that was meant.");
  contract_fqn = fqn;
  details = fqn ∷ [];
}

-- The self-reference check at the head of the first loop's body.
unfoldable pub note_self_reference : DependencyGraph → String → Option Value → DependencyGraph
unfolding lists_text self_reference
note_self_reference g fqn (some (arr declared)) =
    if lists_text fqn declared
    then record g { build_errors = g.build_errors ++ self_reference fqn ∷ [] }
    else g
note_self_reference g fqn _ = g

-- contract.get("metadata") or {}; `.get` of a truthy value that is no dict raises.
unfoldable pub metadata_of : Fields → Option Fields
metadata_of contract = elim (get "metadata" contract) [
  | none ↦ some end
  | some (obj d) ↦ some d
  | some v ↦ if truthy v then none else some end
]

unfoldable pub contract_node :
    Dict (List String) → Dict String → String → Fields → Fields → ContractNode
unfolding linked
contract_node dependencies paths fqn contract metadata = record {
  fqn = fqn;
  kind = get_or "kind" (str "") contract;
  domain = get_or "domain" (str "") metadata;
  name = get_or "name" (str "") metadata;
  source_path = elim (lookup fqn paths) [ none ↦ "" | some p ↦ p ];
  raw = contract;
  requires = linked dependencies fqn;
}

-- the first loop of `build_dependency_graph`
unfoldable pub add_nodes :
    DependencyGraph → Dict (List String) → Dict String → Dict Fields → Option DependencyGraph
unfolding note_self_reference metadata_of contract_node
add_nodes g dependencies paths [] = some g
add_nodes g dependencies paths ((fqn, contract) ∷ rest) = do
  metadata ← metadata_of contract
  add_nodes
      (add_node (note_self_reference g fqn (get "requires" contract))
        (contract_node dependencies paths fqn contract metadata))
      dependencies paths rest

-- the body of the second loop: a derived self-edge constrains nothing and is dropped
unfoldable pub add_requires : DependencyGraph → String → List String → DependencyGraph
add_requires g fqn [] = g
add_requires g fqn (dep ∷ deps) =
    add_requires (if dep == fqn then g else add_edge g fqn dep) fqn deps

unfoldable pub add_edges : DependencyGraph → Dict (List String) → DependencyGraph
unfolding add_requires
add_edges g [] = g
add_edges g ((fqn, deps) ∷ rest) = add_edges (add_requires g fqn deps) rest

unfoldable pub build_dependency_graph : Dict Fields → Dict String → Option DependencyGraph
unfolding merge_all add_nodes add_edges
build_dependency_graph contracts source_paths = do
  dependencies ← merge_all contracts
  g ← add_nodes empty_graph dependencies source_paths contracts
  some (add_edges g dependencies)

-- ------------------------------------------------------------------ the invariant

note-IsGraph :
    (g : DependencyGraph) (fqn : String) (o : Option Value)
    → IsGraph g
    → IsGraph (note_self_reference g fqn o)
unfolding note_self_reference
note-IsGraph g fqn (some (arr vs)) h = elim (Bool-cases (lists_text fqn vs)) [
  | inl e ↦ rw e (record {
    nodes_distinct = h.nodes_distinct;
    edge_keys_distinct = h.edge_keys_distinct;
    edges_distinct = h.edges_distinct;
    reverse_distinct = h.reverse_distinct;
    mirror = h.mirror;
  })
  | inr e ↦ rw e h
]
note-IsGraph g fqn _ h = h

add_nodes-IsGraph :
    (deps : Dict (List String)) (paths : Dict String) (cs : Dict Fields) (g : DependencyGraph)
    {g' : DependencyGraph}
    → IsGraph g
    → add_nodes g deps paths cs ≡ some g'
    → IsGraph g'
unfolding add_nodes
add_nodes-IsGraph deps paths [] g h e = subst IsGraph (some-injective _ _ e) h
add_nodes-IsGraph deps paths ((fqn, c) ∷ cs) g h e =
    let (metadata, _, k) = bind-eq-some (metadata_of c) _ e in
    let noted = note_self_reference g fqn (get "requires" c) in
    let node = contract_node deps paths fqn c metadata in
    add_nodes-IsGraph deps paths cs (add_node noted node)
      (add_node-IsGraph noted node (note-IsGraph g fqn (get "requires" c) h)) k

add_requires-IsGraph :
    (g : DependencyGraph) (fqn : String) (deps : List String)
    → IsGraph g
    → IsGraph (add_requires g fqn deps)
unfolding add_requires
add_requires-IsGraph g fqn [] h = h
add_requires-IsGraph g fqn (d ∷ ds) h = elim (Bool-cases (d == fqn)) [
  | inl e ↦ rw e (add_requires-IsGraph g fqn ds h)
  | inr e ↦ rw e (add_requires-IsGraph (add_edge g fqn d) fqn ds (add_edge-IsGraph g fqn d h))
]

add_edges-IsGraph :
    (g : DependencyGraph) (deps : Dict (List String)) → IsGraph g → IsGraph (add_edges g deps)
unfolding add_edges
add_edges-IsGraph g [] h = h
add_edges-IsGraph g ((f, ds) ∷ rest) h =
    add_edges-IsGraph (add_requires g f ds) rest (add_requires-IsGraph g f ds h)

-- Every graph that is built satisfies the graph invariant.
pub build-IsGraph :
    (contracts : Dict Fields) (paths : Dict String) (g : DependencyGraph)
    → build_dependency_graph contracts paths ≡ some g
    → IsGraph g
unfolding build_dependency_graph
build-IsGraph contracts paths g h =
    let (deps, _, p) = bind-eq-some (merge_all contracts) _ h in
    let (g', n, q) = bind-eq-some (add_nodes empty_graph deps paths contracts) _ p in
    subst IsGraph (some-injective _ _ q) (
      add_edges-IsGraph g' deps
        (add_nodes-IsGraph deps paths contracts empty_graph empty_graph-IsGraph n))

-- Whatever contracts are loaded, if the graph can be built then `topological_order` ends on it,
-- with a compilation order or with a set of contracts that wait for one another.
pub build-Outcome :
    (contracts : Dict Fields) (paths : Dict String) (g : DependencyGraph)
    → build_dependency_graph contracts paths ≡ some g
    → Outcome g (topological_order g)
build-Outcome contracts paths g h = topological_order-Outcome g (build-IsGraph contracts paths g h)
