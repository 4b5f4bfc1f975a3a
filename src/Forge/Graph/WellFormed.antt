-- ===== src/Forge/Graph/WellFormed.antt =====
-- The invariant of a graph: no key stands twice, the edge sets are sets, and `reverse_edges` is the
-- converse of `edges`. `add_node` and `add_edge` keep it.
use specora_core.Prelude.{
  String, ◌≡◌, refl, ◌||◌, List, [], arith, ◌==◌, eq_iff, if◌then◌else◌, mem, mem-snoc, Distinct,
  Distinct-snoc, Dict, lookup, keys, lookup-put, put-Distinct, Bool-cases, inl, inr,
}
use specora_core.Prelude.Options.{Option-cases}
use specora_core.Forge.Graph.{
  ContractNode, DependencyGraph, empty_graph, linked, set_default, insert, link, add_node, add_edge,
}

pub record IsGraph (g : DependencyGraph) : Type 0 where
  pub nodes_distinct : Distinct (keys g.nodes)
  pub edge_keys_distinct : Distinct (keys g.edges)
  pub edges_distinct : (k : String) → Distinct (linked g.edges k)
  pub reverse_distinct : (k : String) → Distinct (linked g.reverse_edges k)
  pub mirror : (a b : String) → mem b (linked g.edges a) ≡ mem a (linked g.reverse_edges b)

pub empty_graph-IsGraph : IsGraph empty_graph
unfolding linked mem lookup
empty_graph-IsGraph = record {
  nodes_distinct = tt;
  edge_keys_distinct = tt;
  edges_distinct = λ k. tt;
  reverse_distinct = λ k. tt;
  mirror = λ a b. refl;
}

pub linked-set_default :
    (k j : String) (d : Dict (List String)) → linked (set_default k d) j ≡ linked d j
unfolding linked set_default
linked-set_default k j d = elim (Option-cases (lookup k d)) [
  | inl e ↦ rw (e, set_default) (ground (arith, lookup-put k j [] d, eq_iff k j))
  | inr (xs, e) ↦ rw (e, set_default)
]

set_default-Distinct :
    (k : String) (d : Dict (List String)) → Distinct (keys d) → Distinct (keys (set_default k d))
unfolding set_default
set_default-Distinct k d h = elim (Option-cases (lookup k d)) [
  | inl e ↦ rw (e, set_default) (put-Distinct k [] d h)
  | inr (xs, e) ↦ rw (e, set_default) h
]

pub linked-link :
    (k x j : String) (d : Dict (List String))
    → linked (link k x d) j ≡ (if k == j then insert x (linked d k) else linked d j)
unfolding linked link
linked-link k x j d = ground (arith, lookup-put k j (insert x (linked d k)) d)

pub mem-insert : (y x : String) (xs : List String) → mem y (insert x xs) ≡ (x == y || mem y xs)
unfolding insert
mem-insert y x xs = ground (arith, mem-snoc y x xs, eq_iff x y)

insert-Distinct : (x : String) (xs : List String) → Distinct xs → Distinct (insert x xs)
unfolding insert
insert-Distinct x xs h = ground (arith, Distinct-snoc x xs h)

link-Distinct :
    (k x j : String) (d : Dict (List String))
    → ((i : String) → Distinct (linked d i))
    → Distinct (linked (link k x d) j)
link-Distinct k x j d h = rw (linked-link k x j d) (elim (Bool-cases (k == j)) [
  | inl e ↦ rw e (insert-Distinct x (linked d k) (h k))
  | inr e ↦ rw e (h j)
])

pub add_node-IsGraph : (g : DependencyGraph) (n : ContractNode) → IsGraph g → IsGraph (add_node g n)
unfolding add_node
add_node-IsGraph g n h = record {
  nodes_distinct = put-Distinct n.fqn n g.nodes h.nodes_distinct;
  edge_keys_distinct = set_default-Distinct n.fqn g.edges h.edge_keys_distinct;
  edges_distinct = λ k. rw (linked-set_default n.fqn k g.edges) (h.edges_distinct k);
  reverse_distinct = λ k. rw (linked-set_default n.fqn k g.reverse_edges) (h.reverse_distinct k);
  mirror = λ a b.
      rw (linked-set_default n.fqn a g.edges, linked-set_default n.fqn b g.reverse_edges)
        (h.mirror a b);
}

pub add_edge-IsGraph :
    (g : DependencyGraph) (from_fqn to_fqn : String)
    → IsGraph g
    → IsGraph (add_edge g from_fqn to_fqn)
unfolding add_edge link
add_edge-IsGraph g x y h = record {
  nodes_distinct = h.nodes_distinct;
  edge_keys_distinct = put-Distinct x (insert y (linked g.edges x)) g.edges h.edge_keys_distinct;
  edges_distinct = λ k. link-Distinct x y k g.edges h.edges_distinct;
  reverse_distinct = λ k. link-Distinct y x k g.reverse_edges h.reverse_distinct;
  mirror = λ a b.
      rw (linked-link x y a g.edges, linked-link y x b g.reverse_edges)
        (ground (
          arith,
          mem-insert b y (linked g.edges x),
          mem-insert a x (linked g.reverse_edges y),
          h.mirror a b,
          eq_iff x a,
          eq_iff y b,
        ));
}
