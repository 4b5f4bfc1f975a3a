-- ===== src/Prelude/Results.antt =====
-- Code that raises: an exception with a status and a message (`AuthError`, `HTTPException`), or any
-- other exception.
use Prim.Native.Nat.{ℕ}
use Prim.Native.String.{String}
use mathlib.Core.Path.{◌≡◌, refl}
use mathlib.Core.Bool.{Bool, true, false}
use mathlib.Core.Logic.{◌⊎◌, inl, inr}
use specora_core.Prelude.Tests.{if◌then◌else◌, not}

pub data Failure : Type 0 where
  http_error : ℕ → String → Failure
  crash : Failure

pub data Result {ℓ} (A : Type ℓ) : Type ℓ where
  ok : A → Result A
  raised : Failure → Result A

-- What a raising computation came to, with the equation.
pub Result-cases {ℓ} :
    {A : Type ℓ} (m : Result A) → ((a : A) × (m ≡ ok a)) ⊎ ((e : Failure) × (m ≡ raised e))
Result-cases (ok a) = inl (a, refl)
Result-cases (raised e) = inr (e, refl)

pub ok-injective {ℓ} : {A : Type ℓ} (x y : A) → ok x ≡ ok y → x ≡ y
ok-injective x y h = cc h

-- A guard that raises unless its test holds.
pub guard-ok {ℓ} :
    {A : Type ℓ} (test : Bool) (e : Failure) (m : Result A) {a : A}
    → (if not test then raised e else m) ≡ ok a
    → (test ≡ true) × (m ≡ ok a)
guard-ok true e m h = (refl, h)
guard-ok false e m h = cc

pub guard_not-ok {ℓ} :
    {A : Type ℓ} (test : Bool) (e : Failure) (m : Result A) {a : A}
    → (if test then raised e else m) ≡ ok a
    → (test ≡ false) × (m ≡ ok a)
guard_not-ok true e m h = cc
guard_not-ok false e m h = (refl, h)

infixl 5 ◌>>=◌
abbrev pub ◌>>=◌ {ι κ} : {X : Type ι} {Y : Type κ} → Result X → (X → Result Y) → Result Y
raised e >>= next = raised e
ok x >>= next = next x

-- The steps of a chain that came to a value.
pub bind-eq-ok {ι κ} :
    {X : Type ι} {Y : Type κ} {y : Y} (m : Result X) (next : X → Result Y)
    → (m >>= next) ≡ ok y
    → (x : X) × (m ≡ ok x) × (next x ≡ ok y)
bind-eq-ok (raised e) next h = cc
bind-eq-ok (ok x) next h = (x, refl, h)
