-- ===== src/Forge/Dependencies/Edges.antt =====
-- What `merge_dependencies` returns: a duplicate-free list of FQNs that loses nothing.
use specora_core.Prelude.{
  String, ◌≡◌, true, Option, none, some, List, [], ◌∷◌, arith, ◌==◌, eq_iff, mem, Distinct, All,
  Distinct-snoc, All-append, mem-snoc, sym, ◌∙◌, Bool-cases, ◌⊎◌, inl, inr, subst, some-injective,
}
use specora_core.Prelude.Options.{bind-eq-some}
use specora_core.Json.{
  Value, null, bool, int, float, str, arr, obj, Items, nil, cons, Fields, end, field, get, get_or,
  get_or_of_get,
}
use specora_core.Forge.Dependencies.{
  is_fqn, add_text, add_one, add_items, add_many, add_reference, add_field_references, add_values,
  fields_of, entity_dependencies, spec_dependencies, extract_semantic_dependencies,
  declared_dependencies, extend, merge_dependencies,
}

abbrev pub IsEdgeList : List String → Type 0
IsEdgeList deps = Distinct deps × All (λ s. is_fqn s ≡ true) deps

add_text-IsEdgeList :
    (deps : List String) (s : String) → IsEdgeList deps → IsEdgeList (add_text deps s)
unfolding add_text
add_text-IsEdgeList deps s h = elim (Bool-cases (is_fqn s)) [
  | inr e ↦ rw e h
  | inl e ↦ elim (Bool-cases (mem s deps)) [
    | inl m ↦ rw (e, m) h
    | inr m ↦
        rw (e, m)
          (Distinct-snoc s deps h.0 m, All-append (λ t. is_fqn t ≡ true) deps (s ∷ []) h.1 (e, tt))
  ]
]

add_items-IsEdgeList :
    (vs : Items) (deps : List String) → IsEdgeList deps → IsEdgeList (add_items deps vs)
unfolding add_items add_one
add_items-IsEdgeList nil deps h = h
add_items-IsEdgeList (cons (str s) vs) deps h =
    add_items-IsEdgeList vs (add_text deps s) (add_text-IsEdgeList deps s h)
add_items-IsEdgeList (cons _ vs) deps h = add_items-IsEdgeList vs deps h

extend-IsEdgeList : (ss deps : List String) → IsEdgeList deps → IsEdgeList (extend deps ss)
unfolding extend
extend-IsEdgeList [] deps h = h
extend-IsEdgeList (s ∷ ss) deps h =
    extend-IsEdgeList ss (add_text deps s) (add_text-IsEdgeList deps s h)

declared-IsEdgeList : (v : Value) → IsEdgeList (declared_dependencies v)
unfolding declared_dependencies
declared-IsEdgeList (arr vs) = add_items-IsEdgeList vs [] (tt, tt)
declared-IsEdgeList _ = (tt, tt)

-- Whatever the contract holds, if its dependencies can be read at all, they are pairwise different
-- and each is a well-formed fully qualified name.
pub merge_dependencies-IsEdgeList :
    (contract : Fields) (deps : List String)
    → merge_dependencies contract ≡ some deps
    → IsEdgeList deps
unfolding merge_dependencies
merge_dependencies-IsEdgeList contract deps h =
    let (semantic, _, e) = bind-eq-some (extract_semantic_dependencies contract) _ h in
    let declared = get_or "requires" (arr nil) contract in
    subst IsEdgeList (some-injective _ _ e)
      (extend-IsEdgeList semantic (declared_dependencies declared) (declared-IsEdgeList declared))

-- ------------------------------------------------------------------ nothing is lost

module _ (x : String) where
  mem-add_text :
      (deps : List String) (s : String) → mem x deps ≡ true → mem x (add_text deps s) ≡ true
  unfolding add_text
  mem-add_text deps s h = ground (arith, mem-snoc x s deps)

  mem-add_one : (deps : List String) (v : Value) → mem x deps ≡ true → mem x (add_one deps v) ≡ true
  unfolding add_one
  mem-add_one deps (str s) h = mem-add_text deps s h
  mem-add_one deps _ h = h

  mem-add_items :
      (vs : Items) (deps : List String) → mem x deps ≡ true → mem x (add_items deps vs) ≡ true
  unfolding add_items
  mem-add_items nil deps h = h
  mem-add_items (cons v vs) deps h = mem-add_items vs (add_one deps v) (mem-add_one deps v h)

  mem-add_many :
      (deps : List String) (v : Value) → mem x deps ≡ true → mem x (add_many deps v) ≡ true
  unfolding add_many
  mem-add_many deps (str s) h = mem-add_text deps s h
  mem-add_many deps (arr vs) h = mem-add_items vs deps h
  mem-add_many deps _ h = h

  mem-add_reference :
      (deps : List String) (o : Option Value)
      → mem x deps ≡ true
      → mem x (add_reference deps o) ≡ true
  unfolding add_reference
  mem-add_reference deps (some (obj refs)) h = mem-add_one deps (get_or "entity" null refs) h
  mem-add_reference deps _ h = h

  mem-add_field_references :
      (defs : Fields) (deps : List String)
      → mem x deps ≡ true
      → mem x (add_field_references deps defs) ≡ true
  unfolding add_field_references
  mem-add_field_references end deps h = h
  mem-add_field_references (field k (obj f) d) deps h =
      mem-add_field_references d _ (mem-add_reference deps (get "references" f) h)
  mem-add_field_references (field k _ d) deps h = mem-add_field_references d deps h

  mem-add_values :
      (d : Fields) (deps : List String) → mem x deps ≡ true → mem x (add_values deps d) ≡ true
  unfolding add_values
  mem-add_values end deps h = h
  mem-add_values (field k v d) deps h = mem-add_values d _ (mem-add_many deps v h)

  mem-extend_left : (ss deps : List String) → mem x deps ≡ true → mem x (extend deps ss) ≡ true
  unfolding extend
  mem-extend_left [] deps h = h
  mem-extend_left (s ∷ ss) deps h = mem-extend_left ss (add_text deps s) (mem-add_text deps s h)

  module _ (wellformed : is_fqn x ≡ true) where
    mem-add_text_self : (deps : List String) → mem x (add_text deps x) ≡ true
    unfolding add_text
    mem-add_text_self deps = ground (arith, mem-snoc x x deps, eq_iff x x)

    mem-extend_right : (ss deps : List String) → mem x ss ≡ true → mem x (extend deps ss) ≡ true
    unfolding extend mem
    mem-extend_right [] deps h = cc
    mem-extend_right (s ∷ ss) deps h = elim (Bool-cases (s == x)) [
      | inl e ↦
          mem-extend_left ss (add_text deps s) (rw ((eq_iff s x).0 e) (mem-add_text_self deps))
      | inr e ↦ mem-extend_right ss (add_text deps s) (rw e at h)
    ]

    mem-add_reference_self :
        (deps : List String) (refs : Fields)
        → get "entity" refs ≡ some (str x)
        → mem x (add_reference deps (some (obj refs))) ≡ true
    unfolding add_reference add_one
    mem-add_reference_self deps refs h =
        rw (get_or_of_get "entity" null (str x) refs h, add_reference, add_one)
          (mem-add_text_self deps)

-- A field definition whose `references.entity` is the text `x`.
abbrev pub NamesEntity : Option Value → String → Type 0
NamesEntity (some (obj refs)) x = get "entity" refs ≡ some (str x)
NamesEntity _ x = ⊥

-- Some field of `defs` references the entity `x`.
abbrev pub FieldReferences : Fields → String → Type 0
FieldReferences end x = ⊥
FieldReferences (field k (obj f) d) x = NamesEntity (get "references" f) x ⊎ FieldReferences d x
FieldReferences (field k _ d) x = FieldReferences d x

mem_of_NamesEntity :
    (x : String)
    → is_fqn x ≡ true
    → (o : Option Value) (deps : List String) → NamesEntity o x
    → mem x (add_reference deps o) ≡ true
mem_of_NamesEntity x w (some (obj refs)) deps h = mem-add_reference_self x w deps refs h
mem_of_NamesEntity x w none deps h = absurd h
mem_of_NamesEntity x w (some _) deps h = absurd h

mem_of_FieldReferences :
    (x : String)
    → is_fqn x ≡ true
    → (defs : Fields) (deps : List String) → FieldReferences defs x
    → mem x (add_field_references deps defs) ≡ true
unfolding add_field_references
mem_of_FieldReferences x w end deps h = absurd h
mem_of_FieldReferences x w (field k (obj f) d) deps (inl h) =
    mem-add_field_references x d _ (mem_of_NamesEntity x w (get "references" f) deps h)
mem_of_FieldReferences x w (field k (obj f) d) deps (inr h) = mem_of_FieldReferences x w d _ h
mem_of_FieldReferences x w (field k null d) deps h = mem_of_FieldReferences x w d deps h
mem_of_FieldReferences x w (field k (bool b) d) deps h = mem_of_FieldReferences x w d deps h
mem_of_FieldReferences x w (field k (int b) d) deps h = mem_of_FieldReferences x w d deps h
mem_of_FieldReferences x w (field k (float b) d) deps h = mem_of_FieldReferences x w d deps h
mem_of_FieldReferences x w (field k (str b) d) deps h = mem_of_FieldReferences x w d deps h
mem_of_FieldReferences x w (field k (arr b) d) deps h = mem_of_FieldReferences x w d deps h

entity_dependencies-mem :
    (spec defs : Fields) (x : String) (deps : List String)
    → is_fqn x ≡ true
    → get "fields" spec ≡ some (obj defs)
    → FieldReferences defs x
    → entity_dependencies spec ≡ some deps
    → mem x deps ≡ true
unfolding entity_dependencies
entity_dependencies-mem spec defs x deps w e r h =
    let named =
      add_one (add_many [] (get_or "mixins" (arr nil) spec)) (get_or "state_machine" null spec) in
    let (ds, o, p) = bind-eq-some (fields_of (get_or "fields" (obj end) spec)) _ h in
    let (hooks, _, q) = bind-eq-some (fields_of (get_or "ai_integration" (obj end) spec)) _ p in
    let same : defs ≡ ds =
      some-injective _ _
        (rw (get_or_of_get "fields" (obj end) (obj defs) spec e, fields_of) at o) in
    subst (λ xs. mem x xs ≡ true) (some-injective _ _ q)
      (mem-add_values x hooks (add_field_references named ds)
        (mem_of_FieldReferences x w ds named (subst (λ d. FieldReferences d x) same r)))

extract_entity :
    (contract spec : Fields)
    → get "kind" contract ≡ some (str "Entity")
    → get "spec" contract ≡ some (obj spec)
    → extract_semantic_dependencies contract ≡ entity_dependencies spec
unfolding extract_semantic_dependencies spec_dependencies
extract_entity contract spec k s = rw (
  get_or_of_get "spec" (obj end) (obj spec) contract s,
  k,
  extract_semantic_dependencies,
  spec_dependencies,
)

-- An entity that a field of an Entity contract references by a well-formed FQN is among the
-- contract's dependencies, whatever `requires` lists.
pub merge_dependencies-reference :
    (contract spec defs : Fields) (x : String) (deps : List String)
    → is_fqn x ≡ true
    → get "kind" contract ≡ some (str "Entity")
    → get "spec" contract ≡ some (obj spec)
    → get "fields" spec ≡ some (obj defs)
    → FieldReferences defs x
    → merge_dependencies contract ≡ some deps
    → mem x deps ≡ true
unfolding merge_dependencies
merge_dependencies-reference contract spec defs x deps w k s e r h =
    let (semantic, p, q) = bind-eq-some (extract_semantic_dependencies contract) _ h in
    subst (λ ds. mem x ds ≡ true) (some-injective _ _ q)
      (mem-extend_right x w semantic _ (
        entity_dependencies-mem spec defs x semantic w e r
          (sym (extract_entity contract spec k s) ∙ p)))
