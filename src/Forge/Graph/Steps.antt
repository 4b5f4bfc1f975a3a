-- ===== src/Forge/Graph/Steps.antt =====
-- What one `heappop` and one round of relaxation do.
use specora_core.Prelude.{
  String, ◌≡◌, refl, Bool, true, false, ◌&&◌, ◌||◌, Option, none, some, List, [], ◌∷◌, arith, ◌==◌,
  eq_iff, if◌then◌else◌, mem, Distinct, Dict, lookup, put, lookup-put, Bool-cases, inl, inr,
}
use specora_core.Prelude.Options.{Option-cases}
use specora_core.Json.{ℤ}
use specora_core.Forge.Graph.{pred_ℤ, is_zero, pop_min, relax}

pub mem-pop_min :
    (g x : String) (xs : List String)
    → (x == g || mem g xs) ≡ ((pop_min x xs).0 == g || mem g (pop_min x xs).1)
unfolding pop_min mem
mem-pop_min g x [] = refl
mem-pop_min g x (y ∷ ys) = ground (arith, mem-pop_min g y ys)

pub pop_min-Distinct :
    (x : String) (xs : List String)
    → mem x xs ≡ false
    → Distinct xs
    → (mem (pop_min x xs).0 (pop_min x xs).1 ≡ false) × Distinct (pop_min x xs).1
unfolding pop_min mem
pop_min-Distinct x [] n u = (refl, tt)
pop_min-Distinct x (y ∷ ys) n u = ground (
  arith,
  pop_min-Distinct y ys u.0 u.1,
  mem-pop_min x y ys,
  eq_iff (pop_min y ys).0 x,
  eq_iff x (pop_min y ys).0,
)

abbrev pub lower : Bool → Option ℤ → Option ℤ
lower true (some c) = some (pred_ℤ c)
lower true none = none
lower false o = o

abbrev pub hits : Option ℤ → Bool
hits none = false
hits (some c) = is_zero (pred_ℤ c)

pub lookup-relax :
    (ds : List String) (counts : Dict ℤ) (ready : List String) (g : String)
    → Distinct ds
    → lookup g (relax ds counts ready).0 ≡ lower (mem g ds) (lookup g counts)
unfolding relax mem
lookup-relax [] counts ready g u = refl
lookup-relax (d ∷ ds) counts ready g u = elim (Option-cases (lookup d counts)) [
  | inl e ↦ rw (e, relax) (ground (arith, lookup-relax ds counts ready g u.1, eq_iff d g))
  | inr (c, e) ↦
      rw (e, relax)
        (ground (
          arith,
          lookup-relax ds (put d (pred_ℤ c) counts)
              (if is_zero (pred_ℤ c) then d ∷ ready else ready) g u.1,
          lookup-put d g (pred_ℤ c) counts,
          eq_iff d g,
        ))
]

pub mem-relax :
    (ds : List String) (counts : Dict ℤ) (ready : List String) (g : String)
    → Distinct ds
    → mem g (relax ds counts ready).1 ≡ (mem g ready || (mem g ds && hits (lookup g counts)))
unfolding relax mem
mem-relax [] counts ready g u = ground arith
mem-relax (d ∷ ds) counts ready g u = elim (Option-cases (lookup d counts)) [
  | inl e ↦ rw (e, relax) (ground (arith, mem-relax ds counts ready g u.1, eq_iff d g))
  | inr (c, e) ↦
      rw (e, relax)
        (ground (
          arith,
          mem-relax ds (put d (pred_ℤ c) counts) (if is_zero (pred_ℤ c) then d ∷ ready else ready) g
              u.1,
          lookup-put d g (pred_ℤ c) counts,
          eq_iff d g,
        ))
]

-- The heap keeps no text twice where no text in it is about to be pushed.
pub relax-Distinct :
    (ds : List String) (counts : Dict ℤ) (ready : List String)
    → Distinct ds
    → Distinct ready
    → ((g : String) → mem g ready ≡ true → mem g ds ≡ false)
    → Distinct (relax ds counts ready).1
unfolding relax mem
relax-Distinct [] counts ready u r h = r
relax-Distinct (d ∷ ds) counts ready u r h =
    let apart : (g : String) → mem g ready ≡ true → mem g ds ≡ false = λ g m. ground (arith, h g) in
    let pushed : (g : String) → mem g (d ∷ ready) ≡ true → mem g ds ≡ false =
      λ g m. ground (arith, h g, eq_iff d g) in
    elim (Option-cases (lookup d counts)) [
      | inl e ↦ rw (e, relax) (relax-Distinct ds counts ready u.1 r apart)
      | inr (c, e) ↦
          rw (e, relax)
            (elim (Bool-cases (is_zero (pred_ℤ c))) [
              | inl z ↦ rw z (
                  relax-Distinct ds (put d (pred_ℤ c) counts) (d ∷ ready) u.1
                    (ground (arith, h d, eq_iff d d), r) pushed)
              | inr z ↦ rw z (relax-Distinct ds (put d (pred_ℤ c) counts) ready u.1 r apart)
            ])
    ]
