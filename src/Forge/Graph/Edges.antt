-- ===== src/Forge/Graph/Edges.antt =====
-- Which edges a built graph has, and what `find_unresolved` finds (forge/parser/graph.py).
use specora_core.Prelude.{
  String, ◌≡◌, refl, sym, ◌∙◌, ap, subst, some-injective, Bool, true, false, ◌&&◌, ◌||◌, Option,
  some, List, [], ◌∷◌, arith, ◌==◌, eq_iff, if◌then◌else◌, not, mem, Distinct, Dict, lookup, keys,
  mem-keys-put, Bool-cases, inl, inr,
}
use specora_core.Prelude.Options.{bind-eq-some}
use specora_core.Json.{Value, Fields, get, arr}
use specora_core.Forge.Dependencies.{merge_dependencies}
use specora_core.Forge.Graph.{
  ContractNode, DependencyGraph, empty_graph, linked, add_node, add_edge, dependencies_of,
}
use specora_core.Forge.Graph.WellFormed.{linked-link, linked-set_default, mem-insert}
use specora_core.Forge.Graph.Build.{
  merge_all, note_self_reference, metadata_of, contract_node, add_nodes, add_requires, add_edges,
  build_dependency_graph,
}

-- ------------------------------------------------------------------ the second loop

mem-add_edge :
    (g : DependencyGraph) (f d a b : String)
    → mem b (linked (add_edge g f d).edges a) ≡ (mem b (linked g.edges a) || (f == a && d == b))
unfolding add_edge
mem-add_edge g f d a b =
    rw (linked-link f d a g.edges) (ground (arith, mem-insert b d (linked g.edges f), eq_iff f a))

mem-add_requires :
    (ds : List String) (g : DependencyGraph) (f a b : String)
    → mem b (linked (add_requires g f ds).edges a)
      ≡ (mem b (linked g.edges a) || (f == a && (mem b ds && not (b == f))))
unfolding add_requires mem
mem-add_requires [] g f a b = ground arith
mem-add_requires (d ∷ ds) g f a b = elim (Bool-cases (d == f)) [
  | inl e ↦
      rw (e, add_requires)
        (ground (arith, mem-add_requires ds g f a b, eq_iff d b, eq_iff b f, eq_iff d f))
  | inr e ↦
      rw (e, add_requires)
        (ground (
          arith,
          mem-add_requires ds (add_edge g f d) f a b,
          mem-add_edge g f d a b,
          eq_iff d b,
          eq_iff b f,
          eq_iff d f,
        ))
]

abbrev wanted : Dict (List String) → String → String → Bool
wanted [] a b = false
wanted ((f, ds) ∷ rest) a b = (f == a && (mem b ds && not (b == f))) || wanted rest a b

mem-add_edges :
    (deps : Dict (List String)) (g : DependencyGraph) (a b : String)
    → mem b (linked (add_edges g deps).edges a) ≡ (mem b (linked g.edges a) || wanted deps a b)
unfolding add_edges
mem-add_edges [] g a b = ground arith
mem-add_edges ((f, ds) ∷ rest) g a b =
    ground (arith, mem-add_edges rest (add_requires g f ds) a b, mem-add_requires ds g f a b)

wanted_absent :
    (deps : Dict (List String)) (a b : String) → mem a (keys deps) ≡ false → wanted deps a b ≡ false
unfolding mem
wanted_absent [] a b h = refl
wanted_absent ((f, ds) ∷ rest) a b h = ground (arith, wanted_absent rest a b)

wanted-lookup :
    (deps : Dict (List String)) (a b : String) (ds : List String)
    → Distinct (keys deps)
    → lookup a deps ≡ some ds
    → wanted deps a b ≡ (mem b ds && not (b == a))
unfolding lookup
wanted-lookup [] a b ds u h = cc
wanted-lookup ((f, es) ∷ rest) a b ds u h = elim (Bool-cases (f == a)) [
  | inl e ↦ ground (arith, wanted_absent rest a b, eq_iff f a)
  | inr e ↦ ground (arith, wanted-lookup rest a b ds u.1)
]

-- ------------------------------------------------------------------ the first loop

edges-note :
    (g : DependencyGraph) (f : String) (o : Option Value)
    → (note_self_reference g f o).edges ≡ g.edges
unfolding note_self_reference
edges-note g f (some (arr vs)) = ground arith
edges-note g f _ = refl

nodes-note :
    (g : DependencyGraph) (f : String) (o : Option Value)
    → (note_self_reference g f o).nodes ≡ g.nodes
unfolding note_self_reference
nodes-note g f (some (arr vs)) = ground arith
nodes-note g f _ = refl

linked-add_nodes :
    (deps : Dict (List String)) (paths : Dict String) (cs : Dict Fields) (g g' : DependencyGraph)
    (a : String)
    → add_nodes g deps paths cs ≡ some g'
    → linked g'.edges a ≡ linked g.edges a
unfolding add_nodes add_node
linked-add_nodes deps paths [] g g' a h =
    ap (λ (x : DependencyGraph). linked x.edges a) (sym (some-injective _ _ h))
linked-add_nodes deps paths ((fqn, c) ∷ cs) g g' a h =
    let (metadata, _, k) = bind-eq-some (metadata_of c) _ h in
    let noted = note_self_reference g fqn (get "requires" c) in
    linked-add_nodes deps paths cs (add_node noted (contract_node deps paths fqn c metadata)) g' a k
    ∙ linked-set_default fqn a noted.edges
    ∙ ap (λ (d : Dict (List String)). linked d a) (edges-note g fqn (get "requires" c))

keys-add_nodes :
    (deps : Dict (List String)) (paths : Dict String) (cs : Dict Fields) (g g' : DependencyGraph)
    (a : String)
    → add_nodes g deps paths cs ≡ some g'
    → mem a (keys g'.nodes) ≡ (mem a (keys g.nodes) || mem a (keys cs))
unfolding add_nodes add_node mem contract_node
keys-add_nodes deps paths [] g g' a h =
    ground (arith, ap (λ (x : DependencyGraph). mem a (keys x.nodes)) (sym (some-injective _ _ h)))
keys-add_nodes deps paths ((fqn, c) ∷ cs) g g' a h =
    let (metadata, _, k) = bind-eq-some (metadata_of c) _ h in
    let noted = note_self_reference g fqn (get "requires" c) in
    let node = contract_node deps paths fqn c metadata in
    ground (
      arith,
      keys-add_nodes deps paths cs (add_node noted node) g' a k,
      mem-keys-put fqn a node noted.nodes,
      ap (λ (d : Dict ContractNode). mem a (keys d)) (nodes-note g fqn (get "requires" c)),
    )

keys-add_requires :
    (ds : List String) (g : DependencyGraph) (f : String) → (add_requires g f ds).nodes ≡ g.nodes
unfolding add_requires add_edge
keys-add_requires [] g f = refl
keys-add_requires (d ∷ ds) g f = elim (Bool-cases (d == f)) [
  | inl e ↦ rw (e, add_requires) (keys-add_requires ds g f)
  | inr e ↦ rw (e, add_requires) (keys-add_requires ds (add_edge g f d) f)
]

keys-add_edges :
    (deps : Dict (List String)) (g : DependencyGraph) → (add_edges g deps).nodes ≡ g.nodes
unfolding add_edges
keys-add_edges [] g = refl
keys-add_edges ((f, ds) ∷ rest) g =
    keys-add_edges rest (add_requires g f ds) ∙ keys-add_requires ds g f

choose {ℓ} :
    {A : Type ℓ} {x y z : A} (b : Bool)
    → (b ≡ true → x ≡ z)
    → (b ≡ false → y ≡ z)
    → (if b then x else y) ≡ z
choose true p q = p refl
choose false p q = q refl

lookup-merge_all :
    (cs : Dict Fields) (deps : Dict (List String)) (f : String) (c : Fields) (ds : List String)
    → merge_all cs ≡ some deps
    → lookup f cs ≡ some c
    → merge_dependencies c ≡ some ds
    → lookup f deps ≡ some ds
unfolding merge_all lookup
lookup-merge_all [] deps f c ds h l m = cc
lookup-merge_all ((k, x) ∷ cs) deps f c ds h l m =
    let (xs, p, q) = bind-eq-some (merge_dependencies x) _ h in
    let (others, r, t) = bind-eq-some (merge_all cs) _ q in
    let first : k == f ≡ true → some xs ≡ some ds =
      λ e. sym p ∙ ap merge_dependencies (some-injective x c (rw e at l)) ∙ m in
    let later : k == f ≡ false → lookup f others ≡ some ds =
      λ e. lookup-merge_all cs others f c ds r (rw e at l) m in
    subst (λ d. lookup f d ≡ some ds) (some-injective _ _ t) (choose (k == f) first later)

keys-merge_all :
    (cs : Dict Fields) (deps : Dict (List String)) → merge_all cs ≡ some deps → keys deps ≡ keys cs
unfolding merge_all
keys-merge_all [] deps h = ap keys (sym (some-injective _ _ h))
keys-merge_all ((k, x) ∷ cs) deps h =
    let (xs, p, q) = bind-eq-some (merge_dependencies x) _ h in
    let (others, r, t) = bind-eq-some (merge_all cs) _ q in
    ap keys (sym (some-injective _ _ t))
    ∙ ap (λ (ks : List String). k ∷ ks) (keys-merge_all cs others r)

abbrev IsExact : Dict Fields → String → String → List String → DependencyGraph → Type 0
IsExact contracts f d ds g =
    (mem d (keys g.nodes) ≡ mem d (keys contracts))
    × (mem d (dependencies_of g f) ≡ (mem d ds && not (d == f)))

add_edges-IsExact :
    (contracts : Dict Fields) (paths : Dict String) (deps : Dict (List String))
    (g : DependencyGraph) (f d : String) (ds : List String)
    → Distinct (keys deps)
    → add_nodes empty_graph deps paths contracts ≡ some g
    → lookup f deps ≡ some ds
    → IsExact contracts f d ds (add_edges g deps)
unfolding dependencies_of mem linked lookup
add_edges-IsExact contracts paths deps g f d ds u n l = (
  ap (λ (ns : Dict ContractNode). mem d (keys ns)) (keys-add_edges deps g)
      ∙ keys-add_nodes deps paths contracts empty_graph g d n,
  mem-add_edges deps g f d
      ∙ ground (
        arith,
        ap (λ (xs : List String). mem d xs)
            (linked-add_nodes deps paths contracts empty_graph g f n),
        wanted-lookup deps f d ds u l,
      ),
)

-- If no name is loaded twice and the graph can be built, it has a node for each contract and no other,
-- and the edges of a contract are exactly its merged dependencies without itself.
pub build-exact :
    (contracts : Dict Fields) (paths : Dict String) (g : DependencyGraph) (f d : String)
    (c : Fields) (ds : List String)
    → Distinct (keys contracts)
    → build_dependency_graph contracts paths ≡ some g
    → lookup f contracts ≡ some c
    → merge_dependencies c ≡ some ds
    → (mem d (keys g.nodes) ≡ mem d (keys contracts))
      × (mem d (dependencies_of g f) ≡ (mem d ds && not (d == f)))
unfolding build_dependency_graph
build-exact contracts paths g f d c ds u h l m =
    let (deps, p, q) = bind-eq-some (merge_all contracts) _ h in
    let (g', n, r) = bind-eq-some (add_nodes empty_graph deps paths contracts) _ q in
    subst (IsExact contracts f d ds) (some-injective _ _ r) (
      add_edges-IsExact contracts paths deps g' f d ds
        (subst Distinct (sym (keys-merge_all contracts deps p)) u) n
        (lookup-merge_all contracts deps f c ds p l m))
