-- ===== src/Json.antt =====
-- The values that YAML contracts and JSON columns hold: Python's None, bool, int, float, str, list
-- and dict. A float stands as its `repr`; a dict keeps its insertion order.
use specora_core.Prelude.{
  ℕ, String, ◌≡◌, Bool, true, false, Option, none, some, List, [], ◌∷◌, ◌||◌, ◌==◌, if◌then◌else◌,
  not, eqb, ◌&&◌,
}

pub data ℤ : Type 0 where
  pos : ℕ → ℤ
  negsuc : ℕ → ℤ

mutual
  pub data Fields : Type 0 where
    field : String → Value → Fields → Fields
    end : Fields

  pub data Value : Type 0 where
    obj : Fields → Value
    arr : Items → Value
    str : String → Value
    float : String → Value
    int : ℤ → Value
    bool : Bool → Value
    null : Value

  pub data Items : Type 0 where
    cons : Value → Items → Items
    nil : Items

-- d.get(k)
unfoldable pub get : String → Fields → Option Value
get k end = none
get k (field j v d) = if j == k then some v else get k d

-- d.get(k, default)
unfoldable pub get_or : String → Value → Fields → Value
unfolding get
get_or k v d = elim (get k d) [ none ↦ v | some w ↦ w ]

pub get_or_of_get : (k : String) (v w : Value) (d : Fields) → get k d ≡ some w → get_or k v d ≡ w
unfolding get_or
get_or_of_get k v w d h = rw (h, get_or)

-- list(xs)
abbrev pub items : Items → List Value
items nil = []
items (cons v vs) = v ∷ items vs

-- list(d.values())
abbrev pub values : Fields → List Value
values end = []
values (field k v d) = v ∷ values d

-- isinstance(v, str), with the text
abbrev pub as_text : Value → Option String
as_text (str s) = some s
as_text _ = none

-- bool(v)
unfoldable pub truthy : Value → Bool
truthy null = false
truthy (bool b) = b
truthy (int (pos ℕ.zero)) = false
truthy (int _) = true
truthy (float s) = not (s == "0.0" || s == "-0.0")
truthy (str s) = not (s == "")
truthy (arr nil) = false
truthy (arr (cons _ _)) = true
truthy (obj end) = false
truthy (obj (field _ _ _)) = true

-- bool is a subclass of int
abbrev as_number : Value → Option ℤ
as_number (bool true) = some (pos (ℕ.suc ℕ.zero))
as_number (bool false) = some (pos ℕ.zero)
as_number (int n) = some n
as_number _ = none

same_ℤ : ℤ → ℤ → Bool
same_ℤ (pos m) (pos n) = eqb m n
same_ℤ (negsuc m) (negsuc n) = eqb m n
same_ℤ _ _ = false

same_number : Option ℤ → Option ℤ → Bool
unfolding same_ℤ
same_number (some m) (some n) = same_ℤ m n
same_number _ _ = false

size : Fields → ℕ
size end = 0
size (field k v d) = ℕ.suc (size d)

-- Python's `==`. Dicts are compared without regard to order; a float equals the float with the same
-- `repr` alone.
unfoldable mutual
  unfolding same_number size get

  pub eq_value : Value → Value → Bool
  eq_value null null = true
  eq_value (bool a) w = same_number (as_number (bool a)) (as_number w)
  eq_value (int n) w = same_number (some n) (as_number w)
  eq_value (float s) (float t) = s == t
  eq_value (str s) (str t) = s == t
  eq_value (arr vs) (arr ws) = eq_items vs ws
  eq_value (obj d) (obj e) = eqb (size d) (size e) && covers d e
  eq_value _ _ = false

  pub eq_items : Items → Items → Bool
  eq_items nil nil = true
  eq_items (cons v vs) (cons w ws) = eq_value v w && eq_items vs ws
  eq_items _ _ = false

  -- each entry of the first dict has an equal one in the second
  pub covers : Fields → Fields → Bool
  covers end e = true
  covers (field k v d) e = elim (get k e) [ none ↦ false | some w ↦ eq_value v w ] && covers d e
