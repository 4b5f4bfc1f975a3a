-- ===== src/Forge/Graph/Tests.antt =====
-- The contract graph on a small set of contracts (forge/parser/graph.py).
use specora_core.Prelude.{
  ℕ, ◌<◌, String, ◌≡◌, refl, true, ◌&&◌, Option, none, some, List, [], ◌∷◌, ◌↔◌, arith, ◌==◌,
  eq_iff, not, mem, Distinct, Dict, lookup, put, keys, if◌then◌else◌, Bool-cases, inl, inr, subst,
}
use specora_core.Json.{str, arr, obj, nil, cons, Fields, end, field, get_or}
use specora_core.Forge.Dependencies.{merge_dependencies, is_fqn}
use specora_core.Forge.Graph.{
  ContractNode, DependencyGraph, empty_graph, sorted, cycle_error, add_node, add_edge,
  topological_order, find_unresolved, dependencies_of, linked,
}
use specora_core.Forge.Graph.WellFormed.{
  IsGraph, empty_graph-IsGraph, add_node-IsGraph, add_edge-IsGraph,
}
use specora_core.Forge.Graph.Topological.{
  Outcome, IsCompileOrder, topological_order-Outcome, topological_order_acyclic,
}
use specora_core.Forge.Graph.Kahn.{deps}
use specora_core.Forge.Graph.Build.{build_dependency_graph, build-IsGraph, build-Outcome}
use specora_core.Forge.Graph.Edges.{build-exact}
use specora_core.Forge.Graph.Unresolved.{find_unresolved_iff}

-- An entity that includes a mixin, and an entity with a reference to the first.
abbrev asset : Fields
asset = field "kind" (str "Entity") (field "requires" (arr (cons (str "mixin/it/audited") nil)) end)

abbrev incident : Fields
incident = field "kind" (str "Entity") (
    field "spec"
      (obj (
        field "fields"
          (obj (
            field "asset_id"
              (obj (field "references" (obj (field "entity" (str "entity/it/asset") end)) end))
              end))
          end))
      end)

abbrev contracts : Dict Fields
contracts =
    ("entity/it/incident", incident)
    ∷ ("entity/it/asset", asset)
    ∷ ("mixin/it/audited", field "kind" (str "Mixin") end)
    ∷ []

abbrev built : Option DependencyGraph → DependencyGraph
built none = empty_graph
built (some g) = g

abbrev graph : DependencyGraph
graph = built (build_dependency_graph contracts [])

builds : build_dependency_graph contracts [] ≡ some graph
unfolding build_dependency_graph merge_dependencies get_or
builds = refl

graph_order :
    topological_order graph
    ≡ sorted ("mixin/it/audited" ∷ "entity/it/asset" ∷ "entity/it/incident" ∷ [])
unfolding build_dependency_graph topological_order merge_dependencies get_or is_fqn mem add_edge
    add_node put lookup
graph_order = refl

-- Two contracts that require each other, and one that waits for them.
abbrev node : String → List String → ContractNode
node fqn requires = record {
  fqn = fqn;
  kind = str "";
  domain = str "";
  name = str "";
  source_path = "";
  raw = end;
  requires = requires;
}

abbrev ring : DependencyGraph
ring =
    add_edge
      (add_edge
        (add_edge
          (add_node (add_node (add_node empty_graph (node "a" [])) (node "b" [])) (node "c" [])) "a"
          "b")
        "b" "a")
      "c" "a"

ring_order : topological_order ring ≡ cycle_error ("a" ∷ "b" ∷ "c" ∷ [])
unfolding topological_order add_edge add_node put lookup mem
ring_order = refl

ring-IsGraph : IsGraph ring
ring-IsGraph = add_edge-IsGraph _ "c" "a" (
    add_edge-IsGraph _ "b" "a" (
      add_edge-IsGraph _ "a" "b" (
        add_node-IsGraph _ (node "c" []) (
          add_node-IsGraph _ (node "b" [])
            (add_node-IsGraph _ (node "a" []) empty_graph-IsGraph)))))

-- One contract that requires another.
abbrev pair : DependencyGraph
pair = add_edge (add_node (add_node empty_graph (node "a" [])) (node "b" [])) "a" "b"

pair-IsGraph : IsGraph pair
pair-IsGraph =
    add_edge-IsGraph _ "a" "b"
      (add_node-IsGraph _ (node "b" []) (add_node-IsGraph _ (node "a" []) empty_graph-IsGraph))

abbrev rank : String → ℕ
rank f = if f == "a" then 1 else 0

pair_edges : (f d : String) → mem d (deps pair f) ≡ true → ("a" == f ≡ true) × ("b" == d ≡ true)
unfolding add_edge add_node put lookup mem linked
pair_edges f d h = elim (Bool-cases ("a" == f)) [
  | inl e ↦ (e, ground (arith, h, e))
  | inr e ↦ elim (Bool-cases ("b" == f)) [
    | inl k ↦ ground (arith, h, e, k)
    | inr k ↦ ground (arith, h, e, k)
  ]
]

pair_ranked : (f d : String) → mem d (deps pair f) ≡ true → rank d < rank f
pair_ranked f d h =
    let (p, q) = pair_edges f d h in
    subst (λ (x : String). rank d < rank x) ((eq_iff "a" f).0 p)
      (subst (λ (y : String). rank y < rank "a") ((eq_iff "b" d).0 q) (omega arith))

topological_order_acyclic_example :
    (order : List String) × (topological_order pair ≡ sorted order) × IsCompileOrder pair order
topological_order_acyclic_example = topological_order_acyclic pair rank pair-IsGraph pair_ranked

contracts-Distinct : Distinct (keys contracts)
unfolding mem
contracts-Distinct = (refl, (refl, (refl, tt)))

incident_dependencies : merge_dependencies incident ≡ some ("entity/it/asset" ∷ [])
unfolding merge_dependencies get_or is_fqn mem
incident_dependencies = refl

build-exact_example :
    (mem "entity/it/asset" (keys graph.nodes) ≡ mem "entity/it/asset" (keys contracts))
    × (mem "entity/it/asset" (dependencies_of graph "entity/it/incident") ≡ (
        mem "entity/it/asset" ("entity/it/asset" ∷ [])
        && not ("entity/it/asset" == "entity/it/incident")))
unfolding lookup
build-exact_example =
    build-exact contracts [] graph "entity/it/incident" "entity/it/asset" incident
      ("entity/it/asset" ∷ []) contracts-Distinct builds refl incident_dependencies

build-Outcome_example : Outcome graph (topological_order graph)
build-Outcome_example = build-Outcome contracts [] graph builds

topological_order-Outcome_example : Outcome ring (topological_order ring)
topological_order-Outcome_example = topological_order-Outcome ring ring-IsGraph

find_unresolved_iff_example :
    (find_unresolved graph ≡ [])
    ↔ ((f d : String) → mem d (dependencies_of graph f) ≡ true → mem d (keys graph.nodes) ≡ true)
find_unresolved_iff_example = find_unresolved_iff graph (build-IsGraph contracts [] graph builds)
