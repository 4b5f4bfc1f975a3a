-- ===== src/Prelude/Dicts.antt =====
-- Python's `dict` with text keys: an association list in insertion order. An assignment to a key
-- that is there keeps its place, as in Python.
use Prim.Native.String.{String}
use mathlib.Core.Path.{◌≡◌, refl}
use mathlib.Core.Logic.{inl, inr}
use mathlib.Core.Bool.{true, ◌||◌}
use mathlib.Core.Option.{Option, none, some}
use mathlib.Core.List.{List, [], ◌∷◌}
use native.Mathlib.Omega.{arith}
use text.Mathlib.Text.{◌==◌}
use text.Mathlib.TextEquality.{eq_iff}
use specora_core.Prelude.Tests.{if◌then◌else◌, Bool-cases}
use specora_core.Prelude.Lists.{mem, Distinct}

abbrev pub Dict {ℓ} : Type ℓ → Type ℓ
Dict V = List (String × V)

module _ {ℓ} {V : Type ℓ} where
  -- d.get(k)
  unfoldable pub lookup : String → Dict V → Option V
  lookup k [] = none
  lookup k ((j, v) ∷ d) = if j == k then some v else lookup k d

  -- d[k] = v
  unfoldable pub put : String → V → Dict V → Dict V
  put k v [] = (k, v) ∷ []
  put k v ((j, w) ∷ d) = if j == k then (j, v) ∷ d else (j, w) ∷ put k v d

  abbrev pub keys : Dict V → List String
  keys [] = []
  keys ((k, v) ∷ d) = k ∷ keys d

  pub lookup-put :
      (k j : String) (v : V) (d : Dict V)
      → lookup j (put k v d) ≡ (if k == j then some v else lookup j d)
  unfolding lookup put
  lookup-put k j v [] = refl
  lookup-put k j v ((i, w) ∷ d) =
      ground (arith, eq_iff k j, eq_iff i k, eq_iff i j, lookup-put k j v d)

  pub mem-keys-put :
      (k j : String) (v : V) (d : Dict V) → mem j (keys (put k v d)) ≡ (k == j || mem j (keys d))
  unfolding put mem
  mem-keys-put k j v [] = refl
  mem-keys-put k j v ((i, w) ∷ d) =
      ground (arith, eq_iff k j, eq_iff i k, eq_iff i j, mem-keys-put k j v d)

  pub put-Distinct :
      (k : String) (v : V) (d : Dict V) → Distinct (keys d) → Distinct (keys (put k v d))
  unfolding put mem
  put-Distinct k v [] h = (refl, tt)
  put-Distinct k v ((i, w) ∷ d) h =
      ground (arith, eq_iff i k, eq_iff k i, mem-keys-put k i v d, put-Distinct k v d h.1)

  pub mem-keys_of_lookup :
      (k : String) (v : V) (d : Dict V) → lookup k d ≡ some v → mem k (keys d) ≡ true
  unfolding lookup mem
  mem-keys_of_lookup k v [] h = cc
  mem-keys_of_lookup k v ((j, w) ∷ d) h = ground (arith, mem-keys_of_lookup k v d)

  pub lookup_of_mem-keys :
      (k : String) (d : Dict V) → mem k (keys d) ≡ true → (v : V) × (lookup k d ≡ some v)
  unfolding lookup mem
  lookup_of_mem-keys k [] h = absurd (cc)
  lookup_of_mem-keys k ((j, w) ∷ d) h = elim (Bool-cases (j == k)) [
    | inl e ↦ (w, rw e)
    | inr e ↦ let (v, p) = lookup_of_mem-keys k d (ground arith) in (v, rw e p)
  ]
