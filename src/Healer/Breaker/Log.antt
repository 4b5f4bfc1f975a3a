-- ===== src/Healer/Breaker/Log.antt =====
-- The breaker read off the usage log in the order in which it was written (healer/cost.py and
-- healer/queue.py together).
use specora_core.Prelude.{
  ℕ, suc, String, ◌≡◌, refl, sym, ◌∙◌, ap, Bool, ◌||◌, some, List, [], ◌∷◌, ◌++◌, map, arith,
  if◌then◌else◌, length, any_of, Dict, length-append,
}
use specora_core.Prelude.Results.{ok}
use specora_core.Json.{pos}
use specora_core.Healer.Queue.{Db, UsageRow, take, newest_first, recent_llm_outcomes}
use specora_core.Healer.Breaker.{
  Gauge, BudgetDecision, allowed, breaker_open, newest, judge, with_threshold, float_env,
  breaker_decision,
}

module _ {A : Type 0} where
  append_assoc : (xs ys zs : List A) → (xs ++ ys) ++ zs ≡ xs ++ (ys ++ zs)
  append_assoc [] ys zs = refl
  append_assoc (x ∷ xs) ys zs = ap (λ l. x ∷ l) (append_assoc xs ys zs)

  append_nil : (xs : List A) → xs ++ [] ≡ xs
  append_nil [] = refl
  append_nil (x ∷ xs) = ap (λ l. x ∷ l) (append_nil xs)

  take-append : (xs ys : List A) → take (length xs) (xs ++ ys) ≡ xs
  unfolding take
  take-append [] ys = refl
  take-append (x ∷ xs) ys = ap (λ l. x ∷ l) (take-append xs ys)

newest_first-append :
    (us vs : List UsageRow) → newest_first (us ++ vs) ≡ newest_first vs ++ newest_first us
unfolding newest_first
newest_first-append [] vs = sym (append_nil (newest_first vs))
newest_first-append (u ∷ us) vs =
    ap (λ l. l ++ u ∷ []) (newest_first-append us vs)
    ∙ append_assoc (newest_first vs) (newest_first us) (u ∷ [])

length-newest_first : (us : List UsageRow) → length (newest_first us) ≡ length us
unfolding newest_first
length-newest_first [] = refl
length-newest_first (u ∷ us) =
    omega (arith, length-append (newest_first us) (u ∷ []), length-newest_first us)

-- The last rows of a log, newest first.
last_rows :
    (older last : List UsageRow)
    → take (length last) (newest_first (older ++ last)) ≡ newest_first last
last_rows older last =
    ap (take (length last)) (newest_first-append older last)
    ∙ ap (λ n. take n (newest_first last ++ newest_first older)) (sym (length-newest_first last))
    ∙ take-append (newest_first last) (newest_first older)

abbrev pub outcome : UsageRow → Bool × String
outcome u = (u.usage.ok, u.created_at)

unfoldable pub succeeded : List UsageRow → Bool
succeeded us = any_of (λ (u : UsageRow). u.usage.ok) us

succeeded-append : (us vs : List UsageRow) → succeeded (us ++ vs) ≡ (succeeded us || succeeded vs)
unfolding succeeded
succeeded-append [] vs = refl
succeeded-append (u ∷ us) vs = ground (arith, succeeded-append us vs)

succeeded-newest_first : (us : List UsageRow) → succeeded (newest_first us) ≡ succeeded us
unfolding succeeded newest_first
succeeded-newest_first [] = refl
succeeded-newest_first (u ∷ us) =
    ground (arith, succeeded-append (newest_first us) (u ∷ []), succeeded-newest_first us)

any_of-outcomes : (us : List UsageRow) → any_of (λ o. o.0) (map outcome us) ≡ succeeded us
unfolding succeeded
any_of-outcomes [] = refl
any_of-outcomes (u ∷ us) = ap (λ b. u.usage.ok || b) (any_of-outcomes us)

length-outcomes : (us : List UsageRow) → length (map outcome us) ≡ length us
length-outcomes [] = refl
length-outcomes (u ∷ us) = ap suc (length-outcomes us)

-- The latest time of some rows, or none of them.
unfoldable pub latest : (G : Gauge) → List UsageRow → String
latest G [] = ""
latest G (u ∷ us) = newest G u.created_at (map outcome us)

-- What the last rows of the log, as many as the threshold, ask for.
unfoldable pub verdict : (G : Gauge) → ℕ → G.F → String → List UsageRow → BudgetDecision G
verdict G threshold cooldown now last =
    let age = G.age now (latest G (newest_first last)) in
    if succeeded last || G.le cooldown age then allowed else breaker_open threshold cooldown age

judge-verdict :
    (G : Gauge) (n : ℕ) (cooldown : G.F) (now : String) (us : List UsageRow)
    → length us ≡ suc n
    → judge G (suc n) cooldown now (map outcome us) ≡ (
        if succeeded us || G.le cooldown (G.age now (latest G us))
        then allowed
        else breaker_open (suc n) cooldown (G.age now (latest G us)))
unfolding judge latest
judge-verdict G n cooldown now [] h = ground (arith, h)
judge-verdict G n cooldown now (u ∷ us) h =
    let many = length-outcomes us in rw (any_of-outcomes (u ∷ us)) (ground (arith, many, h))

recent-last :
    (db : Db) (older last : List UsageRow) (n : ℕ)
    → db.llm_usage ≡ older ++ last
    → length last ≡ n
    → recent_llm_outcomes n db ≡ map outcome (newest_first last)
unfolding recent_llm_outcomes
recent-last db older last n h k =
    rw (h, sym k, recent_llm_outcomes) (ap (map outcome) (last_rows older last))

-- With a threshold of n + 1 and at least as many calls in the log, the breaker is open exactly when
-- the last n + 1 calls all failed and the newest of them is younger than the cooldown: one success
-- among them, or the cooldown's end, lets calls through again.
pub breaker_decision-verdict :
    (G : Gauge) (env : Dict String) (now : String) (db : Db) (older last : List UsageRow) (n : ℕ)
    → G.whole (float_env G "SPECORA_HEALER_BREAKER_FAILURE_THRESHOLD" (G.literal "5") env)
      ≡ some (pos (suc n))
    → db.llm_usage ≡ older ++ last
    → length last ≡ suc n
    → breaker_decision G env now db
      ≡ ok (
          verdict G
            (suc n)
            (float_env G "SPECORA_HEALER_BREAKER_COOLDOWN_SECONDS" (G.literal "300.0") env)
            now
            last)
unfolding breaker_decision with_threshold verdict
breaker_decision-verdict G env now db older last n t h k =
    let cooldown = float_env G "SPECORA_HEALER_BREAKER_COOLDOWN_SECONDS" (G.literal "300.0") env in
    rw (t, recent-last db older last (suc n) h k)
      (ap ok (
        judge-verdict G n cooldown now (newest_first last) (length-newest_first last ∙ k)
        ∙ ap
            (λ (b : Bool).
              if b || G.le cooldown (G.age now (latest G (newest_first last)))
              then allowed
              else breaker_open (suc n) cooldown (G.age now (latest G (newest_first last))))
            (succeeded-newest_first last)))
