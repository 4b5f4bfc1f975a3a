-- ===== src/Forge/Graph/Counting.antt =====
-- How many dependencies are still missing: the quantity that Kahn's algorithm counts down.
use specora_core.Prelude.{
  ℕ, suc, ◌≤◌, String, ◌≡◌, refl, Bool, true, false, ◌&&◌, List, [], ◌∷◌, ◌++◌, arith, ◌==◌, eq_iff,
  if◌then◌else◌, not, mem, mem-snoc, Distinct, Bool-cases, inl, inr,
}
use specora_core.Forge.Graph.{count_known}

-- `d` is a contract of the build that has not been placed yet.
abbrev pub is_missing : List String → List String → String → Bool
is_missing known placed d = mem d known && not (mem d placed)

unfoldable pub missing : List String → List String → List String → ℕ
missing known placed [] = 0
missing known placed (d ∷ ds) =
    if is_missing known placed d then suc (missing known placed ds) else missing known placed ds

pub missing_start : (known ds : List String) → count_known known ds ≡ missing known [] ds
unfolding count_known missing mem
missing_start known [] = refl
missing_start known (d ∷ ds) = ground (arith, missing_start known ds)

-- Placing something else than a missing member of `ds` changes nothing.
pub missing_ne :
    (known placed : List String) (m : String) (ds : List String)
    → mem m ds ≡ false
    → missing known (placed ++ m ∷ []) ds ≡ missing known placed ds
unfolding missing mem
missing_ne known placed m [] h = refl
missing_ne known placed m (d ∷ ds) h =
    ground (arith, missing_ne known placed m ds, mem-snoc d m placed, eq_iff m d, eq_iff d m)

-- Placing a missing member takes one away.
pub missing_place :
    (known placed : List String) (m : String) (ds : List String)
    → Distinct ds
    → mem m ds ≡ true
    → mem m known ≡ true
    → mem m placed ≡ false
    → missing known placed ds ≡ suc (missing known (placed ++ m ∷ []) ds)
unfolding missing mem
missing_place known placed m [] u h k n = cc
missing_place known placed m (d ∷ ds) u h k n = elim (Bool-cases (d == m)) [
  | inl e ↦ same ((eq_iff d m).0 e)
  | inr e ↦
      ground
        (arith, missing_place known placed m ds u.1, mem-snoc d m placed, eq_iff m d, eq_iff d m)
]
  where
    same : d ≡ m → missing known placed (d ∷ ds) ≡ suc (missing known (placed ++ m ∷ []) (d ∷ ds))
    same e = ground (arith, missing_ne known placed m ds, mem-snoc d m placed, eq_iff m d)

-- Nothing missing: every known member has been placed.
pub missing_zero :
    (known placed ds : List String) (d : String)
    → missing known placed ds ≡ 0
    → mem d ds ≡ true
    → mem d known ≡ true
    → mem d placed ≡ true
unfolding missing mem
missing_zero known placed [] d h m k = cc
missing_zero known placed (x ∷ ds) d h m k =
    ground (arith, missing_zero known placed ds d, eq_iff x d)

-- Something missing: there is a known member that has not been placed.
pub missing_pos :
    (known placed ds : List String)
    → 1 ≤ missing known placed ds
    → (d : String) × (mem d ds ≡ true) × (mem d known ≡ true) × (mem d placed ≡ false)
unfolding missing mem
missing_pos known placed [] h = absurd (omega arith)
missing_pos known placed (x ∷ ds) h = elim (Bool-cases (is_missing known placed x)) [
  | inl e ↦ (x, ground (arith, eq_iff x x), ground arith, ground arith)
  | inr e ↦ let (d, m, k, p) = missing_pos known placed ds (ground arith) in (d, ground arith, k, p)
]

pub missing-le_place :
    (known placed : List String) (m : String) (ds : List String)
    → missing known (placed ++ m ∷ []) ds ≤ missing known placed ds
unfolding missing
missing-le_place known placed m [] = omega arith
missing-le_place known placed m (d ∷ ds) =
    ground (arith, missing-le_place known placed m ds, mem-snoc d m placed)

pub missing_self-length : (ns ds : List String) → missing ds ns [] ≡ 0
unfolding missing
missing_self-length ns ds = refl
