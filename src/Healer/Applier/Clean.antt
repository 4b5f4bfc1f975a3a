-- ===== src/Healer/Applier/Clean.antt =====
-- Internal keys (`strip_internal_keys` of healer/applier.py).
use specora_core.Prelude.{◌≡◌, refl, ap, false, Bool-cases, inl, inr}
use specora_core.Json.{
  Value, null, bool, int, float, str, arr, obj, Items, nil, cons, Fields, end, field,
}
use specora_core.Healer.Applier.{is_internal, strip_internal_keys, strip_items, strip_fields}

-- No key at any depth starts with an underscore.
unfoldable mutual
  pub IsClean : Value → Type 0
  IsClean null = Unit
  IsClean (bool b) = Unit
  IsClean (int n) = Unit
  IsClean (float s) = Unit
  IsClean (str s) = Unit
  IsClean (arr vs) = AreClean vs
  IsClean (obj d) = HasCleanKeys d

  pub AreClean : Items → Type 0
  AreClean nil = Unit
  AreClean (cons v vs) = IsClean v × AreClean vs

  pub HasCleanKeys : Fields → Type 0
  HasCleanKeys end = Unit
  HasCleanKeys (field k v d) = (is_internal k ≡ false) × IsClean v × HasCleanKeys d

mutual
  unfolding strip_internal_keys strip_items strip_fields IsClean AreClean HasCleanKeys

  pub strip_internal_keys-IsClean : (v : Value) → IsClean (strip_internal_keys v)
  strip_internal_keys-IsClean null = tt
  strip_internal_keys-IsClean (bool b) = tt
  strip_internal_keys-IsClean (int n) = tt
  strip_internal_keys-IsClean (float s) = tt
  strip_internal_keys-IsClean (str s) = tt
  strip_internal_keys-IsClean (arr vs) = strip_items-AreClean vs
  strip_internal_keys-IsClean (obj d) = strip_fields-HasCleanKeys d

  pub strip_items-AreClean : (vs : Items) → AreClean (strip_items vs)
  strip_items-AreClean nil = tt
  strip_items-AreClean (cons v vs) = (strip_internal_keys-IsClean v, strip_items-AreClean vs)

  pub strip_fields-HasCleanKeys : (d : Fields) → HasCleanKeys (strip_fields d)
  strip_fields-HasCleanKeys end = tt
  strip_fields-HasCleanKeys (field k v d) = elim (Bool-cases (is_internal k)) [
    | inl e ↦ rw e (strip_fields-HasCleanKeys d)
    | inr e ↦ rw e (e, strip_internal_keys-IsClean v, strip_fields-HasCleanKeys d)
  ]

mutual
  unfolding strip_internal_keys strip_items strip_fields IsClean AreClean HasCleanKeys

  pub strip_internal_keys_id : (v : Value) → IsClean v → strip_internal_keys v ≡ v
  strip_internal_keys_id null h = refl
  strip_internal_keys_id (bool b) h = refl
  strip_internal_keys_id (int n) h = refl
  strip_internal_keys_id (float s) h = refl
  strip_internal_keys_id (str s) h = refl
  strip_internal_keys_id (arr vs) h = ap arr (strip_items_id vs h)
  strip_internal_keys_id (obj d) h = ap obj (strip_fields_id d h)

  pub strip_items_id : (vs : Items) → AreClean vs → strip_items vs ≡ vs
  strip_items_id nil h = refl
  strip_items_id (cons v vs) h = cc (strip_internal_keys_id v h.0, strip_items_id vs h.1)

  pub strip_fields_id : (d : Fields) → HasCleanKeys d → strip_fields d ≡ d
  strip_fields_id end h = refl
  strip_fields_id (field k v d) h = rw (h.0, strip_internal_keys_id v h.1, strip_fields_id d h.2)
