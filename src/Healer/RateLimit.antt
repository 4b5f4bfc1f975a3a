-- ===== src/Healer/RateLimit.antt =====
-- The token buckets that limit ingestion (healer/ratelimit.py). Python's floats are the record
-- `Floats`; the time that `check` reads and the environment are arguments. The lock makes each
-- check one step.
pub mod Bounds
pub mod Checks
pub mod Tests
use specora_core.Prelude.{
  String, Bool, true, false, Option, none, some, List, [], ◌∷◌, ◌==◌, if◌then◌else◌, not, Dict,
  lookup, put, select,
}

pub record Floats : Type 1 where
  pub F : Type 0
  pub add : F → F → F
  pub sub : F → F → F
  pub mul : F → F → F
  pub div : F → F → F
  -- a < b and a <= b, both false on a NaN
  pub lt : F → F → Bool
  pub le : F → F → Bool
  pub nought : F
  pub one : F
  pub infinity : F
  -- the literal that is written so
  pub literal : String → F
  -- float(text), `none` for a ValueError
  pub read : String → Option F

pub record RateLimitDecision (P : Floats) : Type 0 where
  pub allowed : Bool
  pub retry_after_seconds : P.F
  pub scope : String

pub record Bucket (P : Floats) : Type 0 where
  pub tokens : P.F
  pub capacity : P.F
  pub rate : P.F
  pub updated_at : P.F

abbrev pub new_bucket : (P : Floats) → P.F → P.F → P.F → Bucket P
new_bucket P capacity rate now = record {
  tokens = capacity;
  capacity = capacity;
  rate = rate;
  updated_at = now;
}

-- max(a, b) and min(a, b)
unfoldable pub max_of : (P : Floats) → P.F → P.F → P.F
max_of P a b = if P.lt a b then b else a

unfoldable pub min_of : (P : Floats) → P.F → P.F → P.F
min_of P a b = if P.lt b a then b else a

unfoldable pub positive_env : (P : Floats) → String → P.F → Dict String → P.F
positive_env P name default env = elim (lookup name env) [
  | none ↦ default
  | some raw ↦ if raw == "" then default else elim (P.read raw) [
    | none ↦ default
    | some value ↦ if P.lt P.nought value then value else default
  ]
]

pub record TokenBucketLimiter (P : Floats) : Type 0 where
  pub rate_per_second : P.F
  pub burst : P.F
  pub global_rate_per_second : P.F
  pub buckets : Dict (Bucket P)
  pub shared : Bucket P

given_or : (P : Floats) → Option P.F → P.F → P.F
given_or P none default = default
given_or P (some value) default = value

unfoldable pub new_limiter :
    (P : Floats) → Option P.F → Option P.F → Option P.F → Dict String → P.F → TokenBucketLimiter P
unfolding given_or
new_limiter P rate burst global_rate env now =
    let minute = P.literal "60.0" in
    let per_second =
      P.div
        (given_or P rate
          (positive_env P "SPECORA_HEALER_INGEST_RATE_PER_MINUTE" (P.literal "12.0") env))
        minute in
    let global_per_second =
      P.div
        (given_or P global_rate
          (positive_env P "SPECORA_HEALER_INGEST_GLOBAL_RATE_PER_MINUTE" minute env))
        minute in
    record {
      rate_per_second = per_second;
      burst = given_or P burst (positive_env P "SPECORA_HEALER_INGEST_BURST" (P.literal "6.0") env);
      global_rate_per_second = global_per_second;
      buckets = [];
      shared = new_bucket P (max_of P P.one (P.mul global_per_second minute)) global_per_second now;
    }

unfoldable pub refill : (P : Floats) → Bucket P → P.F → Bucket P
refill P b now =
    let elapsed = max_of P P.nought (P.sub now b.updated_at) in
    record b {
      tokens = min_of P b.capacity (P.add b.tokens (P.mul elapsed b.rate));
      updated_at = now;
    }

-- The seconds to wait for a refilled bucket.
unfoldable pub peek : (P : Floats) → Bucket P → P.F
peek P b =
    if P.le P.one b.tokens
    then P.nought
    else if P.le b.rate P.nought
    then P.infinity
    else P.div (P.sub P.one b.tokens) b.rate

unfoldable pub evict_idle : (P : Floats) → P.F → Dict (Bucket P) → Dict (Bucket P)
evict_idle P now buckets =
    select (λ e. not (P.lt (P.literal "900.0") (P.sub now e.1.updated_at))) buckets

unfoldable pub take_one : (P : Floats) → Bucket P → Bucket P
take_one P b = record b { tokens = P.sub b.tokens P.one }

-- key or UNATTRIBUTED_KEY
unfoldable pub scoped : Option String → String
scoped none = "<unattributed>"
scoped (some key) = if key == "" then "<unattributed>" else key

unfoldable pub bucket_of : (P : Floats) → String → P.F → TokenBucketLimiter P → Bucket P
bucket_of P key now l = elim (lookup key (evict_idle P now l.buckets)) [
  | none ↦ new_bucket P l.burst l.rate_per_second now
  | some b ↦ b
]

unfoldable pub check :
    (P : Floats)
    → Option String
    → P.F
    → TokenBucketLimiter P
    → RateLimitDecision P × TokenBucketLimiter P
check P key now l =
    let scoped_key = scoped key in
    let kept = evict_idle P now l.buckets in
    let bucket = refill P (bucket_of P scoped_key now l) now in
    let shared = refill P l.shared now in
    if P.lt P.nought (peek P bucket)
    then (
      record { allowed = false; retry_after_seconds = peek P bucket; scope = scoped_key },
      record l { buckets = put scoped_key bucket kept },
    )
    else if P.lt P.nought (peek P shared)
    then (
      record { allowed = false; retry_after_seconds = peek P shared; scope = "global" },
      record l { buckets = put scoped_key bucket kept; shared = shared },
    )
    else (
      record { allowed = true; retry_after_seconds = P.nought; scope = scoped_key },
      record l { buckets = put scoped_key (take_one P bucket) kept; shared = take_one P shared },
    )
