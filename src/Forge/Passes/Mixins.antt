-- ===== src/Forge/Passes/Mixins.antt =====
-- Expanding mixins (forge/ir/passes/mixin_expansion.py).
use specora_core.Prelude.{
  String, ◌≡◌, refl, sym, ◌∙◌, ap, Bool, true, false, ◌||◌, none, some, List, [], ◌∷◌, ◌++◌, arith,
  ◌==◌, eq_iff, eq_refl, mem, mem-snoc, Distinct, Distinct-snoc, Dict, lookup, Bool-cases, inl, inr,
  ◌⊎◌, All,
}
use mathlib.Core.List.{append-nil, append_assoc}
use specora_core.Prelude.Options.{Option-cases}
use specora_core.Forge.Ir.{FieldIr, EntityIr, MixinIr}
use specora_core.Forge.Passes.{
  names_of, add_fields, apply_refs, expand_entity, expand_mixins, mixin_map,
}

-- Some mixin that is found among the references has a field named `n`.
unfoldable pub provides : Dict MixinIr → List String → String → Bool
provides d [] n = false
provides d (r ∷ rs) n = elim (lookup r d) [
  | none ↦ provides d rs n
  | some m ↦ mem n (names_of m.fields) || provides d rs n
]

-- The references that are found.
unfoldable pub found : Dict MixinIr → List String → List String
found d [] = []
found d (r ∷ rs) = elim (lookup r d) [ none ↦ found d rs | some _ ↦ r ∷ found d rs ]

names_of-append : (fs gs : List FieldIr) → names_of (fs ++ gs) ≡ names_of fs ++ names_of gs
names_of-append [] gs = refl
names_of-append (f ∷ fs) gs = ap (λ (ns : List String). f.name ∷ ns) (names_of-append fs gs)

-- `fields'` is `fields` with others behind it, and their names are `names` and those that `P` holds of.
record IsGrown (fields : List FieldIr) (names : List String) (fields' : List FieldIr)
    (names' : List String) (P : String → Bool) : Type 0 where
  extra : List FieldIr
  grows : fields' ≡ fields ++ extra
  added : (n : String) → mem n names' ≡ (mem n names || P n)
  agree : names_of fields' ≡ names'
  distinct : Distinct names'

mem_same : (a b : String) (names : List String) → a == b ≡ true → mem a names ≡ mem b names
mem_same a b names h = ap (λ (x : String). mem x names) ((eq_iff a b).0 h)

-- A name that is there already adds nothing.
already :
    (a n : String) (names others : List String)
    → mem a names ≡ true
    → (mem n names || mem n others) ≡ (mem n names || (a == n || mem n others))
already a n names others h = elim (Bool-cases (a == n)) [
  | inl e ↦ ground (arith, h, e, mem_same a n names e)
  | inr e ↦ ground (arith, e)
]

add_fields-IsGrown :
    (fields : List FieldIr) (names : List String) (fs : List FieldIr)
    → names_of fields ≡ names
    → Distinct names
    → IsGrown fields names
        (add_fields fields names fs).0
        (add_fields fields names fs).1
        (λ n. mem n (names_of fs))
unfolding add_fields mem
add_fields-IsGrown fields names [] h k = record {
  extra = [];
  grows = sym (append-nil fields);
  added = λ n. ground arith;
  agree = h;
  distinct = k;
}
add_fields-IsGrown fields names (f ∷ fs) h k = elim (Bool-cases (mem f.name names)) [
  | inl e ↦
      let g = add_fields-IsGrown fields names fs h k in
      rw e (record {
        extra = g.extra;
        grows = g.grows;
        added = λ n. g.added n ∙ already f.name n names (names_of fs) e;
        agree = g.agree;
        distinct = g.distinct;
      })
  | inr e ↦
      let g =
        add_fields-IsGrown (fields ++ f ∷ []) (names ++ f.name ∷ []) fs
          (names_of-append fields (f ∷ []) ∙ ap (λ (ns : List String). ns ++ f.name ∷ []) h)
          (Distinct-snoc f.name names k e) in
      rw e (record {
        extra = f ∷ g.extra;
        grows = g.grows ∙ append_assoc fields (f ∷ []) g.extra;
        added = λ n. g.added n ∙ ground (arith, mem-snoc n f.name names);
        agree = g.agree;
        distinct = g.distinct;
      })
]

IsGrown-trans :
    {a b c : List FieldIr} {x y z : List String} {P Q R : String → Bool}
    → IsGrown a x b y P
    → IsGrown b y c z Q
    → ((n : String) → (P n || Q n) ≡ R n)
    → IsGrown a x c z R
IsGrown-trans {a} {b} {c} {x} {y} {z} {P} {Q} {R} g h e = record {
  extra = g.extra ++ h.extra;
  grows =
      h.grows ∙ ap (λ (fs : List FieldIr). fs ++ h.extra) g.grows ∙ append_assoc a g.extra h.extra;
  added = λ n. ground (arith, g.added n, h.added n, e n);
  agree = h.agree;
  distinct = h.distinct;
}

apply_refs-IsGrown :
    (d : Dict MixinIr) (rs : List String) (fields : List FieldIr) (names applied : List String)
    → names_of fields ≡ names
    → Distinct names
    → IsGrown fields names
        (apply_refs d rs fields names applied).0
        (names_of (apply_refs d rs fields names applied).0)
        (provides d rs)
unfolding apply_refs provides
apply_refs-IsGrown d [] fields names applied h k = record {
  extra = [];
  grows = sym (append-nil fields);
  added = λ n. ground (arith, h);
  agree = refl;
  distinct = rw h k;
}
apply_refs-IsGrown d (r ∷ rs) fields names applied h k = elim (Option-cases (lookup r d)) [
  | inl e ↦
      let g = apply_refs-IsGrown d rs fields names applied h k in
      rw (e, apply_refs)
        (record {
          extra = g.extra;
          grows = g.grows;
          added = λ n. g.added n ∙ ground (arith, e);
          agree = g.agree;
          distinct = g.distinct;
        })
  | inr (m, e) ↦
      let g = add_fields-IsGrown fields names m.fields h k in
      rw (e, apply_refs)
        (IsGrown-trans g
          (apply_refs-IsGrown d rs (add_fields fields names m.fields).0
            (add_fields fields names m.fields).1 (applied ++ r ∷ []) g.agree g.distinct)
          (λ n. ground (arith, e)))
]

apply_refs-found :
    (d : Dict MixinIr) (rs : List String) (fields : List FieldIr) (names applied : List String)
    → (apply_refs d rs fields names applied).1 ≡ applied ++ found d rs
unfolding apply_refs found
apply_refs-found d [] fields names applied = sym (append-nil applied)
apply_refs-found d (r ∷ rs) fields names applied = elim (Option-cases (lookup r d)) [
  | inl e ↦ rw (e, apply_refs) (rw (e, found) (apply_refs-found d rs fields names applied))
  | inr (m, e) ↦
      rw (e, apply_refs)
        (rw (e, found)
          (apply_refs-found d rs (add_fields fields names m.fields).0
              (add_fields fields names m.fields).1 (applied ++ r ∷ [])
            ∙ append_assoc applied (r ∷ []) (found d rs)))
]

add_fields-known :
    (fields : List FieldIr) (names : List String) (fs : List FieldIr)
    → ((n : String) → mem n (names_of fs) ≡ true → mem n names ≡ true)
    → add_fields fields names fs ≡ (fields, names)
unfolding add_fields mem
add_fields-known fields names [] h = refl
add_fields-known fields names (f ∷ fs) h =
    rw (h f.name (ground (arith, eq_refl f.name)))
      (add_fields-known fields names fs (λ n k. h n (ground (arith, k))))

apply_refs-known :
    (d : Dict MixinIr) (rs : List String) (fields : List FieldIr) (names applied : List String)
    → ((n : String) → provides d rs n ≡ true → mem n names ≡ true)
    → (apply_refs d rs fields names applied).0 ≡ fields
unfolding apply_refs provides
apply_refs-known d [] fields names applied h = refl
apply_refs-known d (r ∷ rs) fields names applied h = elim (Option-cases (lookup r d)) [
  | inl e ↦
      rw (e, apply_refs)
        (apply_refs-known d rs fields names applied (λ n k. h n (ground (arith, e, k))))
  | inr (m, e) ↦
      rw (e, apply_refs)
        (rw (add_fields-known fields names m.fields (λ n k. h n (ground (arith, e, k)))) (
          apply_refs-known d rs fields names (applied ++ r ∷ [])
            (λ n k. h n (ground (arith, e, k)))))
]

-- `mixins_applied` afterwards: without references it is left as it was.
unfoldable pub recorded : Dict MixinIr → List String → List String → List String
unfolding found
recorded d [] before = before
recorded d (r ∷ rs) before = found d (r ∷ rs)

-- What expansion makes of an entity.
pub record IsExpanded (d : Dict MixinIr) (e e' : EntityIr) : Type 0 where
  pub extra : List FieldIr
  pub own_first : e'.fields ≡ e.fields ++ extra
  pub named :
      (n : String)
      → mem n (names_of e'.fields) ≡ (mem n (names_of e.fields) || provides d e.mixin_refs n)
  pub distinct : Distinct (names_of e'.fields)
  pub applied : e'.mixins_applied ≡ recorded d e.mixin_refs e.mixins_applied

refs_cases : (rs : List String) → (rs ≡ []) ⊎ ((r : String) × (ss : List String) × (rs ≡ r ∷ ss))
refs_cases [] = inl refl
refs_cases (r ∷ ss) = inr (r, ss, refl)

abbrev expanded : Dict MixinIr → EntityIr → EntityIr
expanded d e = record e {
  fields = (apply_refs d e.mixin_refs e.fields (names_of e.fields) []).0;
  mixins_applied = (apply_refs d e.mixin_refs e.fields (names_of e.fields) []).1;
}

expand_entity-none : (d : Dict MixinIr) (e : EntityIr) → e.mixin_refs ≡ [] → expand_entity d e ≡ e
unfolding expand_entity
expand_entity-none d e k = ground (arith, k)

expand_entity-some :
    (d : Dict MixinIr) (e : EntityIr) (r : String) (ss : List String)
    → e.mixin_refs ≡ r ∷ ss
    → expand_entity d e ≡ expanded d e
unfolding expand_entity
expand_entity-some d e r ss k = ground (arith, k)

-- Expansion keeps an entity's own fields, in front and unchanged; behind them it adds fields of the
-- mixins so that afterwards the entity has exactly its own names and those of the mixins that are
-- found, each once; and if it names mixins it records those found. The own names are different.
pub expand_entity-IsExpanded :
    (d : Dict MixinIr) (e : EntityIr)
    → Distinct (names_of e.fields)
    → IsExpanded d e (expand_entity d e)
unfolding provides recorded
expand_entity-IsExpanded d e h = elim (refs_cases e.mixin_refs) [
  | inl k ↦ rw (expand_entity-none d e k) (record {
    extra = [];
    own_first = sym (append-nil e.fields);
    named = λ n. ground (arith, k);
    distinct = h;
    applied = rw k refl;
  })
  | inr (r, ss, k) ↦
      let g = apply_refs-IsGrown d e.mixin_refs e.fields (names_of e.fields) [] refl h in
      rw (expand_entity-some d e r ss k) (record {
        extra = g.extra;
        own_first = g.grows;
        named = g.added;
        distinct = g.distinct;
        applied = apply_refs-found d e.mixin_refs e.fields (names_of e.fields) [] ∙ rw k refl;
      })
]

expand_entity_twice :
    (d : Dict MixinIr) (e : EntityIr)
    → Distinct (names_of e.fields)
    → expand_entity d (expand_entity d e) ≡ expand_entity d e
expand_entity_twice d e h = elim (refs_cases e.mixin_refs) [
  | inl k ↦ ap (expand_entity d) (expand_entity-none d e k)
  | inr (r, ss, k) ↦
      let p = expand_entity-some d e r ss k in
      let x = expanded d e in
      let g = apply_refs-IsGrown d e.mixin_refs e.fields (names_of e.fields) [] refl h in
      let stays : x.fields ≡ (apply_refs d e.mixin_refs x.fields (names_of x.fields) []).0 = sym (
        apply_refs-known d e.mixin_refs x.fields (names_of x.fields) []
          (λ n q. ground (arith, g.added n, q))) in
      let same : x.mixins_applied ≡ (apply_refs d e.mixin_refs x.fields (names_of x.fields) []).1 =
        apply_refs-found d e.mixin_refs e.fields (names_of e.fields) []
        ∙ sym (apply_refs-found d e.mixin_refs x.fields (names_of x.fields) []) in
      ap (expand_entity d) p
      ∙ expand_entity-some d x r ss k
      ∙ ap
          (λ (fs : List FieldIr). record e {
            fields = fs;
            mixins_applied = (apply_refs d e.mixin_refs x.fields (names_of x.fields) []).1;
          })
          (sym stays)
      ∙ ap (λ (refs : List String). record e { fields = x.fields; mixins_applied = refs })
          (sym same)
      ∙ sym p
]

-- Expansion is idempotent, as every pass has to be: a second run changes nothing. No entity declares
-- a field name twice.
pub expand_mixins-twice :
    (ms : List MixinIr) (es : List EntityIr)
    → All (λ e. Distinct (names_of e.fields)) es
    → expand_mixins ms (expand_mixins ms es) ≡ expand_mixins ms es
unfolding expand_mixins
expand_mixins-twice ms [] h = refl
expand_mixins-twice ms (e ∷ es) h =
    cc (expand_entity_twice (mixin_map [] ms) e h.0, expand_mixins-twice ms es h.1)
