-- ===== src/Forge/Migrations/Drops.antt =====
-- Which columns a migration drops (`_diff_entity_fields` of forge/targets/migrations/differ.py).
use specora_core.Prelude.{
  String, ◌≡◌, refl, ◌∙◌, ap, Bool, All, All-append, true, false, ◌&&◌, ◌||◌, none, List, [], ◌∷◌,
  ◌++◌, arith, ◌==◌, eq_iff, if◌then◌else◌, not, mem, Dict, lookup, put, keys, mem-keys-put,
  mem-keys_of_lookup, lookup_of_mem-keys, Bool-cases, inl, inr,
}
use mathlib.Core.List.{append-nil}
use specora_core.Prelude.Options.{Option-cases}
use specora_core.Forge.Ir.{FieldIr, EntityIr}
use specora_core.Forge.Passes.{names_of}
use specora_core.Forge.Migrations.{
  Printing, SchemaChange, ChangeType, create_table, drop_table, add_column, drop_column, alter_type,
  set_not_null, drop_not_null, set_default, drop_default, default_clause, column_is_not_null,
  field_map, added_fields, removed_fields, modified_field, modified_fields, type_changes,
  default_changes, null_changes, diff_entity_fields,
}

-- DROP COLUMN and DROP TABLE
unfoldable pub is_drop : ChangeType → Bool
is_drop create_table = false
is_drop drop_table = true
is_drop add_column = false
is_drop drop_column = true
is_drop alter_type = false
is_drop set_not_null = false
is_drop drop_not_null = false
is_drop set_default = false
is_drop drop_default = false

-- The columns that changes drop.
unfoldable pub dropped : List SchemaChange → List String
dropped [] = []
dropped (c ∷ cs) = if is_drop c.change_type then c.field_name ∷ dropped cs else dropped cs

dropped-append : (cs ds : List SchemaChange) → dropped (cs ++ ds) ≡ dropped cs ++ dropped ds
unfolding dropped
dropped-append [] ds = refl
dropped-append (c ∷ cs) ds = elim (Bool-cases (is_drop c.change_type)) [
  | inl e ↦ rw e (ap (λ (ns : List String). c.field_name ∷ ns) (dropped-append cs ds))
  | inr e ↦ rw e (dropped-append cs ds)
]

dropped-added_fields :
    (table : String) (old fs : Dict FieldIr) → dropped (added_fields table old fs) ≡ []
unfolding dropped added_fields is_drop
dropped-added_fields table old [] = refl
dropped-added_fields table old ((name, f) ∷ fs) = elim (Option-cases (lookup name old)) [
  | inl e ↦ rw (e, added_fields) (dropped-added_fields table old fs)
  | inr (g, e) ↦ rw (e, added_fields) (dropped-added_fields table old fs)
]

dropped-type_changes :
    (table name : String) (f g : FieldIr) → dropped (type_changes table name f g) ≡ []
unfolding dropped type_changes is_drop
dropped-type_changes table name f g = ground arith

dropped-default_changes :
    (P : Printing) (table name : String) (f g : FieldIr)
    → dropped (default_changes P table name f g) ≡ []
unfolding dropped default_changes is_drop
dropped-default_changes P table name f g = ground arith

dropped-null_changes :
    (table name : String) (f g : FieldIr) → dropped (null_changes table name f g) ≡ []
unfolding dropped null_changes is_drop
dropped-null_changes table name f g = ground arith

dropped-modified_field :
    (P : Printing) (table name : String) (f g : FieldIr)
    → dropped (modified_field P table name f g) ≡ []
unfolding modified_field
dropped-modified_field P table name f g =
    let types = type_changes table name f g in
    let defaults = default_changes P table name f g in
    let nulls = null_changes table name f g in
    dropped-append (types ++ defaults) nulls
    ∙ ap (λ (ns : List String). ns ++ dropped nulls)
        (dropped-append types defaults
          ∙ ap (λ (ns : List String). ns ++ dropped defaults) (dropped-type_changes table name f g)
          ∙ dropped-default_changes P table name f g)
    ∙ dropped-null_changes table name f g

dropped-modified_fields :
    (P : Printing) (table : String) (fs new : Dict FieldIr)
    → dropped (modified_fields P table fs new) ≡ []
unfolding modified_fields dropped
dropped-modified_fields P table [] new = refl
dropped-modified_fields P table ((name, f) ∷ fs) new = elim (Option-cases (lookup name new)) [
  | inl e ↦ rw (e, modified_fields) (dropped-modified_fields P table fs new)
  | inr (g, e) ↦
      rw (e, modified_fields)
        (dropped-append (modified_field P table name f g) (modified_fields P table fs new)
          ∙ ap (λ (ns : List String). ns ++ dropped (modified_fields P table fs new))
              (dropped-modified_field P table name f g)
          ∙ dropped-modified_fields P table fs new)
]

absent : (k : String) (d : Dict FieldIr) → lookup k d ≡ none → mem k (keys d) ≡ false
absent k d e = elim (Bool-cases (mem k (keys d))) [
  | inl h ↦ let (v, p) = lookup_of_mem-keys k d h in absurd (cc (e, p))
  | inr h ↦ h
]

same_key : (a b : String) (d : Dict FieldIr) → a == b ≡ true → mem a (keys d) ≡ mem b (keys d)
same_key a b d h = ap (λ (x : String). mem x (keys d)) ((eq_iff a b).0 h)

dropped-removed_fields :
    (table n : String) (fs new : Dict FieldIr)
    → mem n (dropped (removed_fields table fs new)) ≡ (mem n (keys fs) && not (mem n (keys new)))
unfolding dropped removed_fields mem is_drop
dropped-removed_fields table n [] new = refl
dropped-removed_fields table n ((name, f) ∷ fs) new = elim (Option-cases (lookup name new)) [
  | inl e ↦
      let rest = dropped-removed_fields table n fs new in
      rw (e, removed_fields)
        (elim (Bool-cases (name == n)) [
          | inl h ↦ ground (arith, h, rest, absent name new e, same_key name n new h)
          | inr h ↦ ground (arith, h, rest)
        ])
  | inr (g, e) ↦
      let rest = dropped-removed_fields table n fs new in
      rw (e, removed_fields)
        (elim (Bool-cases (name == n)) [
          | inl h ↦ ground (arith, h, rest, mem-keys_of_lookup name g new e, same_key name n new h)
          | inr h ↦ ground (arith, h, rest)
        ])
]

keys-field_map :
    (n : String) (d : Dict FieldIr) (fs : List FieldIr)
    → mem n (keys (field_map d fs)) ≡ (mem n (names_of fs) || mem n (keys d))
unfolding field_map mem
keys-field_map n d [] = refl
keys-field_map n d (f ∷ fs) =
    keys-field_map n (put f.name f d) fs ∙ ground (arith, mem-keys-put f.name n f d)

in_map : (n : String) (fs : List FieldIr) → mem n (keys (field_map [] fs)) ≡ mem n (names_of fs)
unfolding mem
in_map n fs = keys-field_map n [] fs ∙ ground arith

-- A change is marked destructive exactly if it drops something.
abbrev pub AreFlagged : List SchemaChange → Type 0
AreFlagged cs = All (λ c. c.destructive ≡ is_drop c.change_type) cs

flagged-append : (cs ds : List SchemaChange) → AreFlagged cs → AreFlagged ds → AreFlagged (cs ++ ds)
flagged-append cs ds h k = All-append (λ c. c.destructive ≡ is_drop c.change_type) cs ds h k

module _ (P : Printing) (table : String) where
  added_fields-AreFlagged : (old fs : Dict FieldIr) → AreFlagged (added_fields table old fs)
  unfolding added_fields is_drop
  added_fields-AreFlagged old [] = tt
  added_fields-AreFlagged old ((name, f) ∷ fs) = elim (Option-cases (lookup name old)) [
    | inl e ↦ rw (e, added_fields) (refl, added_fields-AreFlagged old fs)
    | inr (g, e) ↦ rw (e, added_fields) (added_fields-AreFlagged old fs)
  ]

  removed_fields-AreFlagged : (fs new : Dict FieldIr) → AreFlagged (removed_fields table fs new)
  unfolding removed_fields is_drop
  removed_fields-AreFlagged [] new = tt
  removed_fields-AreFlagged ((name, f) ∷ fs) new = elim (Option-cases (lookup name new)) [
    | inl e ↦ rw (e, removed_fields) (refl, removed_fields-AreFlagged fs new)
    | inr (g, e) ↦ rw (e, removed_fields) (removed_fields-AreFlagged fs new)
  ]

  type_changes-AreFlagged :
      (name : String) (f g : FieldIr) → AreFlagged (type_changes table name f g)
  unfolding type_changes is_drop
  type_changes-AreFlagged name f g = elim (Bool-cases (f.type_name == g.type_name)) [
    | inl e ↦ rw e tt
    | inr e ↦ rw e (refl, tt)
  ]

  default_changes-AreFlagged :
      (name : String) (f g : FieldIr) → AreFlagged (default_changes P table name f g)
  unfolding default_changes is_drop
  default_changes-AreFlagged name f g =
      elim (Bool-cases (default_clause P f == default_clause P g)) [
        | inl e ↦ rw e tt
        | inr e ↦ elim (Bool-cases (default_clause P g == "")) [
          | inl h ↦ rw (e, h) (refl, tt)
          | inr h ↦ rw (e, h) (refl, tt)
        ]
      ]

  null_changes-AreFlagged :
      (name : String) (f g : FieldIr) → AreFlagged (null_changes table name f g)
  unfolding null_changes is_drop
  null_changes-AreFlagged name f g = elim (Bool-cases (column_is_not_null f)) [
    | inl e ↦ elim (Bool-cases (column_is_not_null g)) [
      | inl h ↦ rw (e, h) tt
      | inr h ↦ rw (e, h) (refl, tt)
    ]
    | inr e ↦ elim (Bool-cases (column_is_not_null g)) [
      | inl h ↦ rw (e, h) (refl, tt)
      | inr h ↦ rw (e, h) tt
    ]
  ]

  modified_fields-AreFlagged : (fs new : Dict FieldIr) → AreFlagged (modified_fields P table fs new)
  unfolding modified_fields modified_field
  modified_fields-AreFlagged [] new = tt
  modified_fields-AreFlagged ((name, f) ∷ fs) new = elim (Option-cases (lookup name new)) [
    | inl e ↦ rw (e, modified_fields) (modified_fields-AreFlagged fs new)
    | inr (g, e) ↦
        rw (e, modified_fields)
          (flagged-append (modified_field P table name f g) (modified_fields P table fs new)
            (flagged-append (type_changes table name f g ++ default_changes P table name f g)
              (null_changes table name f g)
              (flagged-append (type_changes table name f g) (default_changes P table name f g)
                (type_changes-AreFlagged name f g) (default_changes-AreFlagged name f g))
              (null_changes-AreFlagged name f g))
            (modified_fields-AreFlagged fs new))
  ]

-- A migration of an entity drops exactly the columns that the old version has and the new one has
-- not, and marks as destructive exactly the changes that drop something.
pub diff_entity_fields-dropped :
    (P : Printing) (old new : EntityIr) (n : String)
    → (mem n (dropped (diff_entity_fields P old new))
        ≡ (mem n (names_of old.fields) && not (mem n (names_of new.fields))))
      × AreFlagged (diff_entity_fields P old new)
unfolding diff_entity_fields
diff_entity_fields-dropped P old new n =
    let a = field_map [] old.fields in
    let b = field_map [] new.fields in
    let added = added_fields new.table_name a b in
    let removed = removed_fields new.table_name a b in
    let modified = modified_fields P new.table_name a b in
    let all_of_them : dropped (added ++ removed ++ modified) ≡ dropped removed ++ [] =
      dropped-append (added ++ removed) modified
      ∙ cc (
        dropped-append added removed,
        dropped-added_fields new.table_name a b,
        dropped-modified_fields P new.table_name a b,
      ) in
    (
      ap (mem n) (all_of_them ∙ append-nil (dropped removed))
          ∙ dropped-removed_fields new.table_name n a b
          ∙ ground (arith, in_map n old.fields, in_map n new.fields),
      flagged-append (added ++ removed) modified
          (flagged-append added removed (added_fields-AreFlagged P new.table_name a b)
            (removed_fields-AreFlagged P new.table_name a b))
          (modified_fields-AreFlagged P new.table_name a b),
    )
