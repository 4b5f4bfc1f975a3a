-- ===== src/Healer/Breaker.antt =====
-- The circuit breaker in front of the language model (`_breaker_decision` and `_float_env` of
-- healer/cost.py) over the usage log of the ticket database. Python's floats and datetimes are the
-- record `Gauge`; the time that a decision reads is an argument.
pub mod Log
pub mod Budget
mod Coverage
mod Tests
use specora_core.Prelude.{
  ℕ, zero, suc, String, Bool, true, false, ◌&&◌, ◌||◌, Option, none, some, List, [], ◌∷◌, ◌==◌, ltb,
  if◌then◌else◌, not, Dict, length, any_of,
}
use specora_core.Prelude.Results.{Result, ok, raised, crash, ◌>>=◌}
use specora_core.Json.{ℤ, pos, negsuc}
use specora_core.Healer.Queue.{Db, recent_llm_outcomes}
use specora_core.Healer.Security.{text_at}

pub record Gauge : Type 1 where
  pub F : Type 0
  pub le : F → F → Bool
  pub literal : String → F
  -- text.strip(), and float(text), `none` for a ValueError
  pub strip : String → String
  pub read : String → Option F
  -- int(x), `none` for a NaN or an infinity
  pub whole : F → Option ℤ
  -- max of two times
  pub later : String → String → String
  -- (now - then).total_seconds()
  pub age : String → String → F

-- What a refusal's text is formatted from: of the breaker the threshold, and the cooldown and the
-- age whose difference is the time to wait; of the budget and the ceiling what was spent, the bound
-- and the hours of the window.
pub data BudgetDecision (G : Gauge) : Type 0 where
  allowed : BudgetDecision G
  breaker_open : ℕ → G.F → G.F → BudgetDecision G
  tokens_exhausted : ℤ → ℤ → G.F → BudgetDecision G
  no_price : String → BudgetDecision G
  ceiling_reached : G.F → G.F → G.F → BudgetDecision G

unfoldable pub float_env : (G : Gauge) → String → G.F → Dict String → G.F
float_env G name default env =
    let raw = G.strip (text_at name env) in
    if raw == "" then default else elim (G.read raw) [ none ↦ default | some x ↦ x ]

-- max of the times of a list that is not empty
unfoldable pub newest : (G : Gauge) → String → List (Bool × String) → String
newest G t [] = t
newest G t ((b, u) ∷ us) = newest G (G.later t u) us

unfoldable pub judge : (G : Gauge) → ℕ → G.F → String → List (Bool × String) → BudgetDecision G
judge G threshold cooldown now [] = allowed
judge G threshold cooldown now ((b, t) ∷ outcomes) =
    if ltb (length ((b, t) ∷ outcomes)) threshold || any_of (λ o. o.0) ((b, t) ∷ outcomes)
    then allowed
    else (let age = G.age now (newest G t outcomes) in
        if G.le cooldown age then allowed else breaker_open threshold cooldown age)

unfoldable pub with_threshold :
    (G : Gauge) → Option ℤ → G.F → String → Db → Result (BudgetDecision G)
with_threshold G none cooldown now db = raised crash
with_threshold G (some (negsuc n)) cooldown now db = ok allowed
with_threshold G (some (pos zero)) cooldown now db = ok allowed
with_threshold G (some (pos (suc n))) cooldown now db =
    ok (judge G (suc n) cooldown now (recent_llm_outcomes (suc n) db))

unfoldable pub breaker_decision :
    (G : Gauge) → Dict String → String → Db → Result (BudgetDecision G)
breaker_decision G env now db =
    with_threshold G
      (G.whole (float_env G "SPECORA_HEALER_BREAKER_FAILURE_THRESHOLD" (G.literal "5") env))
      (float_env G "SPECORA_HEALER_BREAKER_COOLDOWN_SECONDS" (G.literal "300.0") env) now db
