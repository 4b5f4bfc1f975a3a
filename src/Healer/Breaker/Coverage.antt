-- ===== src/Healer/Breaker/Coverage.antt =====
-- When the spend governor (`SpendGovernor.check` of healer/cost.py) lets a call through.
use specora_core.Prelude.{
  zero, suc, ◌<◌, String, ◌≡◌, ◌≢◌, false, Option, none, some, Dict, lookup, ◌⊎◌,
}
use specora_core.Prelude.Results.{ok}
use specora_core.Json.{ℤ, pos, negsuc}
use specora_core.Healer.Queue.{Db}
use specora_core.Healer.Security.{text_at}
use specora_core.Healer.Breaker.{Gauge, allowed, breaker_decision}
use specora_core.Healer.Breaker.Budget.{
  ModelPrice, Spending, llm_usage_totals_since, window, token_budget,
}

-- The tokens used leave some of a budget; a budget that is not positive is none.
unfoldable pub IsWithin : ℤ → ℤ → Type 0
IsWithin (negsuc m) budget = Unit
IsWithin (pos m) (negsuc n) = Unit
IsWithin (pos m) (pos zero) = Unit
IsWithin (pos m) (pos (suc n)) = m < suc n

module _ (G : Gauge) (prices : Dict (ModelPrice G)) (model_id : String) where
  -- The model is not named, or has a price.
  abbrev pub IsPriced : Type 0
  IsPriced = (model_id ≡ "") ⊎ ((price : ModelPrice G) × (lookup model_id prices ≡ some price))

  -- No ceiling is set, or the model has a price and less than the ceiling was spent.
  abbrev pub IsUnder : G.F → Option G.F → Type 0
  IsUnder spent limit =
      (limit ≡ none) ⊎ ((l : G.F) × (limit ≡ some l) × IsPriced × (G.le l spent ≡ false))

-- The ceiling that the environment sets: none when its text is empty or no number.
abbrev pub IsCeiling : (G : Gauge) → Dict String → Option G.F → Type 0
IsCeiling G env none =
    (G.strip (text_at "SPECORA_HEALER_SPEND_LIMIT_USD" env) ≡ "")
    ⊎ (G.read (G.strip (text_at "SPECORA_HEALER_SPEND_LIMIT_USD" env)) ≡ none)
IsCeiling G env (some l) =
    (G.strip (text_at "SPECORA_HEALER_SPEND_LIMIT_USD" env) ≢ "")
    × (G.read (G.strip (text_at "SPECORA_HEALER_SPEND_LIMIT_USD" env)) ≡ some l)

-- What stands behind a call: a closed breaker, a cutoff and a budget that can be computed, tokens
-- left since the cutoff, and, below a ceiling, a price and money left.
abbrev pub IsCovered :
    (G : Gauge) → Spending G → Dict String → Dict (ModelPrice G) → String → String → Db → Type 0
IsCovered G S env prices model_id now db =
    (breaker_decision G env now db ≡ ok allowed)
    × ((cutoff : String) × (S.since now (window G env) ≡ some cutoff)
        × ((budget : ℤ) × (token_budget G env ≡ ok budget)
            × IsWithin (llm_usage_totals_since G S cutoff db).total_tokens budget
            × ((limit : Option G.F) × IsCeiling G env limit
                × IsUnder G prices model_id (llm_usage_totals_since G S cutoff db).total_cost_usd
                    limit)))
