-- ===== src/Healer/Breaker/Tests.antt =====
-- A log of three calls, the last two failed, under a threshold of two and a cooldown of 300
-- seconds. The governor with a ceiling of 7, of which 1 was spent on a model that has a price.
use specora_core.Healer.Security.{text_at}
use specora_core.Prelude.{
  ℕ, String, ◌≡◌, refl, Bool, true, false, some, none, [], ◌∷◌, leb, ◌==◌, Dict, if◌then◌else◌,
  lookup,
}
use specora_core.Prelude.Results.{ok}
use specora_core.Json.{pos}
use specora_core.Healer.Queue.{Db, UsageRow, empty_db, recent_llm_outcomes}
use specora_core.Healer.Breaker.{
  Gauge, allowed, no_price, breaker_open, float_env, breaker_decision, with_threshold, judge,
}
use specora_core.Healer.Breaker.Budget.{
  ModelPrice, Spending, window, token_budget, llm_usage_totals_since, spend_limit_usd, exhausted,
  unpriced, under_budget, under_limit, or_crash, budget_decision, unless_refused, governor_check,
  has,
}
use specora_core.Healer.Breaker.Log.{verdict, breaker_decision-verdict}

abbrev seconds : Gauge
seconds = record {
  F = ℕ;
  le = leb;
  literal = λ s. if s == "5" then 2 else 300;
  strip = λ s. s;
  read = λ s. none;
  whole = λ n. some (pos n);
  later = λ t u. t;
  age = λ now t. 10;
}

abbrev call : Bool → String → UsageRow
call b t = record {
  ticket_id = "t1";
  usage = record {
    model_id = "m";
    provider = "p";
    prompt_version = "1";
    input_tokens = pos 10;
    output_tokens = pos 5;
    latency_ms = pos 100;
    cost_usd = "0.0";
    ok = b;
    error = "";
  };
  created_at = t;
}

abbrev failing : Db
failing = record empty_db {
  llm_usage = call true "09:00" ∷ call false "09:01" ∷ call false "09:02" ∷ [];
}

threshold_two :
    seconds.whole
      (float_env seconds "SPECORA_HEALER_BREAKER_FAILURE_THRESHOLD" (seconds.literal "5") [])
    ≡ some (pos 2)
unfolding float_env text_at lookup
threshold_two = refl

breaker_decision-verdict_example :
    breaker_decision seconds [] "09:03" failing
    ≡ ok (
        verdict seconds 2
          (float_env seconds "SPECORA_HEALER_BREAKER_COOLDOWN_SECONDS" (seconds.literal "300.0") [])
          "09:03"
          (call false "09:01" ∷ call false "09:02" ∷ []))
breaker_decision-verdict_example =
    breaker_decision-verdict seconds [] "09:03" failing (call true "09:00" ∷ [])
      (call false "09:01" ∷ call false "09:02" ∷ []) 1 threshold_two refl refl

refuses : breaker_decision seconds [] "09:03" failing ≡ ok (breaker_open 2 300 10)
unfolding breaker_decision with_threshold float_env text_at lookup judge recent_llm_outcomes
refuses = refl

abbrev limited : Gauge
limited = record {
  F = ℕ;
  le = leb;
  literal = λ s. if s == "5" then 2 else 300;
  strip = λ s. s;
  read = λ s. some 7;
  whole = λ n. some (pos n);
  later = λ t u. t;
  age = λ now t. 10;
}

abbrev ledger : Spending limited
ledger = record {
  since = λ now hours. some "08:00";
  total_cost = λ costs. 1;
  times = λ n price. price;
  per_million = λ a b. a;
  truth = λ cost. true;
}

abbrev ceiling : Dict String
ceiling = ("SPECORA_HEALER_SPEND_LIMIT_USD", "7") ∷ []

abbrev table : Dict (ModelPrice limited)
table = ("m", record { input_per_mtok = 3; output_per_mtok = 15 }) ∷ []

abbrev working : Db
working = record empty_db { llm_usage = call true "07:00" ∷ call true "09:00" ∷ [] }

covered : governor_check limited ledger ceiling table "m" "09:03" working ≡ ok allowed
unfolding governor_check breaker_decision with_threshold float_env text_at lookup judge
    recent_llm_outcomes budget_decision window token_budget or_crash under_budget under_limit
    spend_limit_usd llm_usage_totals_since unless_refused exhausted unpriced has
covered = refl

unnamed : governor_check limited ledger ceiling table "n" "09:03" working ≡ ok (no_price "n")
unfolding governor_check breaker_decision with_threshold float_env text_at lookup judge
    recent_llm_outcomes budget_decision window token_budget or_crash under_budget under_limit
    spend_limit_usd llm_usage_totals_since unless_refused exhausted unpriced has
unnamed = refl
