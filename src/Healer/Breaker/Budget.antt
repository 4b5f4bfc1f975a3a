-- ===== src/Healer/Breaker/Budget.antt =====
-- The spend governor behind the breaker: `check`, `price_call` and what they read of the
-- environment and the prices (healer/cost.py), over `llm_usage_totals_since` (healer/queue.py).
-- Arithmetic on floats and times is the record `Spending`.
use specora_core.Prelude.{
  zero, suc, String, Bool, true, false, Option, none, some, List, [], ◌∷◌, ◌&&◌, text_lt, ◌+◌, ◌-◌,
  ◌==◌, ltb, leb, if◌then◌else◌, not, Dict, lookup, map, select,
}
use specora_core.Prelude.Results.{Result, ok, raised, crash, ◌>>=◌}
use specora_core.Json.{ℤ, pos, negsuc}
use specora_core.Healer.Queue.{Db, UsageRow}
use specora_core.Healer.Security.{text_at}
use specora_core.Healer.Breaker.{
  Gauge, BudgetDecision, allowed, breaker_open, tokens_exhausted, no_price, ceiling_reached,
  float_env, breaker_decision,
}

pub record ModelPrice (G : Gauge) : Type 0 where
  pub input_per_mtok : G.F
  pub output_per_mtok : G.F

pub record Spending (G : Gauge) : Type 0 where
  -- (now - timedelta(hours=...)).isoformat(), `none` when timedelta or the subtraction raises
  pub since : String → G.F → Option String
  -- round(SUM(cost_usd), 6)
  pub total_cost : List String → G.F
  -- count * price, and the sum of two products over a million
  pub times : ℤ → G.F → G.F
  pub per_million : G.F → G.F → G.F
  pub truth : G.F → Bool

infixl 6 ◌+ℤ◌
unfoldable pub ◌+ℤ◌ : ℤ → ℤ → ℤ
pos m +ℤ pos n = pos (m + n)
negsuc m +ℤ negsuc n = negsuc (suc (m + n))
pos m +ℤ negsuc n = if ltb n m then pos (m - suc n) else negsuc (n - m)
negsuc m +ℤ pos n = if ltb m n then pos (n - suc m) else negsuc (m - n)

unfoldable pub sum : List ℤ → ℤ
unfolding ◌+ℤ◌
sum [] = pos 0
sum (n ∷ ns) = n +ℤ sum ns

pub record Totals (G : Gauge) : Type 0 where
  pub total_tokens : ℤ
  pub total_cost_usd : G.F

-- WHERE created_at >= ?
unfoldable pub rows_since : String → Db → List UsageRow
rows_since cutoff db = select (λ u. not (text_lt u.created_at cutoff)) db.llm_usage

unfoldable pub llm_usage_totals_since : (G : Gauge) → Spending G → String → Db → Totals G
unfolding rows_since sum
llm_usage_totals_since G S cutoff db =
    let rows = rows_since cutoff db in
    record {
      total_tokens =
          sum (map (λ u. u.usage.input_tokens) rows) +ℤ sum (map (λ u. u.usage.output_tokens) rows);
      total_cost_usd = S.total_cost (map (λ u. u.usage.cost_usd) rows);
    }

unfoldable pub spend_limit_usd : (G : Gauge) → Dict String → Option G.F
spend_limit_usd G env =
    let raw = G.strip (text_at "SPECORA_HEALER_SPEND_LIMIT_USD" env) in
    if raw == "" then none else G.read raw

-- budget > 0 and spent_tokens >= budget
unfoldable pub exhausted : ℤ → ℤ → Bool
exhausted (negsuc n) spent = false
exhausted (pos zero) spent = false
exhausted (pos (suc n)) (pos m) = leb (suc n) m
exhausted (pos (suc n)) (negsuc m) = false

unfoldable pub has {ℓ} : {V : Type ℓ} → Option V → Bool
has none = false
has (some v) = true

-- model_id and model_id not in self.prices
unfoldable pub unpriced : (G : Gauge) → Dict (ModelPrice G) → String → Bool
unpriced G prices model_id = not (model_id == "") && not (has (lookup model_id prices))

unfoldable pub under_limit :
    (G : Gauge) → Dict (ModelPrice G) → String → G.F → G.F → Option G.F → BudgetDecision G
under_limit G prices model_id hours spent none = allowed
under_limit G prices model_id hours spent (some limit) =
    if unpriced G prices model_id
    then no_price model_id
    else (if G.le limit spent then ceiling_reached spent limit hours else allowed)

unfoldable pub under_budget :
    (G : Gauge) → Dict String → Dict (ModelPrice G) → String → G.F → Totals G → ℤ → BudgetDecision G
under_budget G env prices model_id hours totals budget =
    if exhausted budget totals.total_tokens
    then tokens_exhausted totals.total_tokens budget hours
    else under_limit G prices model_id hours totals.total_cost_usd (spend_limit_usd G env)

-- An int() or a timedelta that raises.
unfoldable pub or_crash {ℓ} : {V : Type ℓ} → Option V → Result V
or_crash none = raised crash
or_crash (some v) = ok v

unfoldable pub window : (G : Gauge) → Dict String → G.F
window G env = float_env G "SPECORA_HEALER_BUDGET_WINDOW_HOURS" (G.literal "24.0") env

unfoldable pub token_budget : (G : Gauge) → Dict String → Result ℤ
token_budget G env =
    or_crash (G.whole (float_env G "SPECORA_HEALER_TOKEN_BUDGET" (G.literal "2000000.0") env))

unfoldable pub budget_decision :
    (G : Gauge)
    → Spending G
    → Dict String
    → Dict (ModelPrice G)
    → String
    → String
    → Db
    → Result (BudgetDecision G)
budget_decision G S env prices model_id now db = or_crash (S.since now (window G env)) >>= λ cutoff.
    token_budget G env >>= λ budget. ok (
      under_budget G env prices model_id (window G env) (llm_usage_totals_since G S cutoff db)
        budget)

unfoldable pub unless_refused :
    (G : Gauge) → BudgetDecision G → Result (BudgetDecision G) → Result (BudgetDecision G)
unless_refused G allowed rest = rest
unless_refused G (breaker_open n c a) rest = ok (breaker_open n c a)
unless_refused G (tokens_exhausted s b h) rest = ok (tokens_exhausted s b h)
unless_refused G (no_price m) rest = ok (no_price m)
unless_refused G (ceiling_reached s l h) rest = ok (ceiling_reached s l h)

unfoldable pub governor_check :
    (G : Gauge)
    → Spending G
    → Dict String
    → Dict (ModelPrice G)
    → String
    → String
    → Db
    → Result (BudgetDecision G)
governor_check G S env prices model_id now db = breaker_decision G env now db >>= λ d.
    unless_refused G d (budget_decision G S env prices model_id now db)

unfoldable pub cost_at : (G : Gauge) → Spending G → ℤ → ℤ → Option (ModelPrice G) → Option G.F
cost_at G S input_tokens output_tokens none = none
cost_at G S input_tokens output_tokens (some price) = some (
    S.per_million (S.times input_tokens price.input_per_mtok)
      (S.times output_tokens price.output_per_mtok))

unfoldable pub estimate_cost_usd :
    (G : Gauge) → Spending G → String → ℤ → ℤ → Dict (ModelPrice G) → Option G.F
estimate_cost_usd G S model_id input_tokens output_tokens prices =
    cost_at G S input_tokens output_tokens (lookup model_id prices)

-- ... or 0.0
unfoldable pub or_nothing : (G : Gauge) → Spending G → Option G.F → G.F
or_nothing G S none = G.literal "0.0"
or_nothing G S (some cost) = if S.truth cost then cost else G.literal "0.0"

unfoldable pub price_call : (G : Gauge) → Spending G → Dict (ModelPrice G) → String → ℤ → ℤ → G.F
price_call G S prices model_id input_tokens output_tokens =
    or_nothing G S (estimate_cost_usd G S model_id input_tokens output_tokens prices)
