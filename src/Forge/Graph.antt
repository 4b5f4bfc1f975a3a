-- ===== src/Forge/Graph.antt =====
-- The contract dependency graph (forge/parser/graph.py): its data, its operations, and the graph
-- that is built from loaded contracts. The source's `dict[str, None]` stands as the list of its
-- keys. Log lines are left out.
pub mod Counting
pub mod Steps
pub mod WellFormed
pub mod Kahn
pub mod Topological
pub mod Build
pub mod Edges
pub mod Unresolved
pub mod Tests
use Prim.Native.String as Text
use specora_core.Prelude.{
  ℕ, zero, suc, ◌+◌, ◌-◌, String, Bool, true, false, ◌&&◌, ◌||◌, Option, none, some, List, [], ◌∷◌,
  ◌++◌, ◌==◌, text_lt, eqb, if◌then◌else◌, not, mem, select, length, Dict, lookup, put, keys,
}
use specora_core.Prelude.Options.{◌>>=◌}
use specora_core.Json.{
  ℤ, pos, negsuc, Value, str, arr, obj, Items, nil, cons, Fields, end, get, get_or, truthy,
}
use specora_core.Forge.Dependencies.{merge_dependencies}

pub record ContractNode : Type 0 where
  pub fqn : String
  pub kind : Value
  pub domain : Value
  pub name : Value
  pub source_path : String
  pub raw : Fields
  pub requires : List String

pub record GraphError : Type 0 where
  pub error_type : String
  pub message : String
  pub contract_fqn : String
  pub details : List String

pub record DependencyGraph : Type 0 where
  pub nodes : Dict ContractNode
  pub edges : Dict (List String)
  pub reverse_edges : Dict (List String)
  pub build_errors : List GraphError

abbrev pub empty_graph : DependencyGraph
empty_graph = record { nodes = []; edges = []; reverse_edges = []; build_errors = [] }

-- d.get(k, {}) of a dict of ordered sets
unfoldable pub linked : Dict (List String) → String → List String
linked d k = elim (lookup k d) [ none ↦ [] | some xs ↦ xs ]

-- d.setdefault(k, {})
pub set_default : String → Dict (List String) → Dict (List String)
set_default k d = elim (lookup k d) [ none ↦ put k [] d | some _ ↦ d ]

-- s[x] = None
pub insert : String → List String → List String
insert x xs = if mem x xs then xs else xs ++ x ∷ []

-- d.setdefault(k, {})[x] = None
pub link : String → String → Dict (List String) → Dict (List String)
unfolding linked insert
link k x d = put k (insert x (linked d k)) d

pub add_node : DependencyGraph → ContractNode → DependencyGraph
unfolding set_default
add_node g n = record g {
  nodes = put n.fqn n g.nodes;
  edges = set_default n.fqn g.edges;
  reverse_edges = set_default n.fqn g.reverse_edges;
}

pub add_edge : DependencyGraph → String → String → DependencyGraph
unfolding link
add_edge g from_fqn to_fqn = record g {
  edges = link from_fqn to_fqn g.edges;
  reverse_edges = link to_fqn from_fqn g.reverse_edges;
}

unresolved_error : String → String → GraphError
unresolved_error fqn dep = record {
  error_type = "unresolved";
  message =
      Text.◌++◌ "Contract '"
        (Text.◌++◌ fqn (Text.◌++◌ "' requires '" (Text.◌++◌ dep "' which does not exist")));
  contract_fqn = fqn;
  details = dep ∷ [];
}

unresolved_from : List String → String → List String → List GraphError
unfolding unresolved_error
unresolved_from known fqn [] = []
unresolved_from known fqn (dep ∷ deps) =
    let rest = unresolved_from known fqn deps in
    if mem dep known then rest else unresolved_error fqn dep ∷ rest

unresolved_in : List String → Dict (List String) → List GraphError
unfolding unresolved_from
unresolved_in known [] = []
unresolved_in known ((fqn, deps) ∷ es) = unresolved_from known fqn deps ++ unresolved_in known es

pub find_unresolved : DependencyGraph → List GraphError
unfolding unresolved_in
find_unresolved g = unresolved_in (keys g.nodes) g.edges

pub dependents_of : DependencyGraph → String → List String
unfolding linked
dependents_of g fqn = linked g.reverse_edges fqn

pub dependencies_of : DependencyGraph → String → List String
unfolding linked
dependencies_of g fqn = linked g.edges fqn

-- ------------------------------------------------------------------ topological_order

pub pred_ℤ : ℤ → ℤ
pred_ℤ (pos zero) = negsuc zero
pred_ℤ (pos (suc n)) = pos n
pred_ℤ (negsuc n) = negsuc (suc n)

pub is_zero : ℤ → Bool
is_zero (pos zero) = true
is_zero (pos (suc n)) = false
is_zero (negsuc n) = false

-- sum(1 for dep in deps if dep in self.nodes)
pub count_known : List String → List String → ℕ
count_known known [] = 0
count_known known (d ∷ ds) =
    if mem d known then suc (count_known known ds) else count_known known ds

pub initial_counts : DependencyGraph → List String → Dict ℤ
unfolding count_known linked
initial_counts g [] = []
initial_counts g (f ∷ fs) =
    (f, pos (count_known (keys g.nodes) (linked g.edges f))) ∷ initial_counts g fs

pub zero_keys : Dict ℤ → List String
unfolding is_zero
zero_keys [] = []
zero_keys ((f, c) ∷ d) = if is_zero c then f ∷ zero_keys d else zero_keys d

-- heapq.heappop on a heap that holds `x` and `xs`: the least text, and what stays.
pub pop_min : String → List String → String × List String
pop_min x [] = (x, [])
pop_min x (y ∷ ys) =
    let (m, rest) = pop_min y ys in if text_lt m x then (m, x ∷ rest) else (x, m ∷ rest)

-- The `for dependent in ...` loop: the counts and the heap after it.
pub relax : List String → Dict ℤ → List String → Dict ℤ × List String
unfolding pred_ℤ is_zero
relax [] counts ready = (counts, ready)
relax (d ∷ ds) counts ready = elim (lookup d counts) [
  | none ↦ relax ds counts ready
  | some c ↦
      let c' = pred_ℤ c in relax ds (put d c' counts) (if is_zero c' then d ∷ ready else ready)
]

-- The `while ready` loop, on fuel.
pub topo_loop : DependencyGraph → ℕ → Dict ℤ → List String → List String → Option (List String)
unfolding pop_min relax linked
topo_loop g zero counts ready result = none
topo_loop g (suc fuel) counts [] result = some result
topo_loop g (suc fuel) counts (x ∷ xs) result =
    let (f, rest) = pop_min x xs in
    let (counts', ready') = relax (linked g.reverse_edges f) counts rest in
    topo_loop g fuel counts' ready' (result ++ f ∷ [])

pub data Order : Type 0 where
  sorted : List String → Order
  cycle_error : List String → Order
  out_of_fuel : Order

insert_sorted : String → List String → List String
insert_sorted x [] = x ∷ []
insert_sorted x (y ∷ ys) = if text_lt y x then y ∷ insert_sorted x ys else x ∷ y ∷ ys

pub sort_texts : List String → List String
unfolding insert_sorted
sort_texts [] = []
sort_texts (x ∷ xs) = insert_sorted x (sort_texts xs)

-- The `len(result) != len(self.nodes)` test.
pub conclude : List String → Option (List String) → Order
unfolding sort_texts
conclude known none = out_of_fuel
conclude known (some result) =
    if eqb (length result) (length known)
    then sorted result
    else cycle_error (sort_texts (select (λ f. not (mem f result)) known))

pub topological_order : DependencyGraph → Order
unfolding initial_counts zero_keys topo_loop conclude
topological_order g =
    let known = keys g.nodes in
    let counts = initial_counts g known in
    conclude known (topo_loop g (suc (length known)) counts (zero_keys counts) [])
