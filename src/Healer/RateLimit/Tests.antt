-- ===== src/Healer/RateLimit/Tests.antt =====
-- The token buckets on whole numbers of tokens and seconds, one token a second.
use Prim.Native.Nat.{◌/◌}
use specora_core.Prelude.{
  ℕ, ◌+◌, ◌-◌, ◌*◌, String, ◌≡◌, refl, true, false, Option, none, some, List, [], ◌∷◌, arith, ltb,
  leb, ◌&&◌, lookup,
}
use specora_core.Healer.RateLimit.{
  Floats, new_bucket, TokenBucketLimiter, refill, bucket_of, check, scoped, peek, min_of,
  evict_idle, max_of,
}
use specora_core.Healer.RateLimit.Bounds.{IsOrdered, IsSteady, IsFair, checks, checks-IsFair}
use specora_core.Healer.RateLimit.Checks.{IsChecked, check-IsChecked}

abbrev pub whole : Floats
whole = record {
  F = ℕ;
  add = λ a b. a + b;
  sub = λ a b. a - b;
  mul = λ a b. a * b;
  div = λ a b. a / b;
  lt = ltb;
  le = leb;
  nought = 0;
  one = 1;
  infinity = 1000000;
  literal = λ s. 900;
  read = λ s. none;
}

whole-IsOrdered : IsOrdered whole
whole-IsOrdered = record {
  nought_le = refl;
  lt_le = λ a b h. ground (arith, h);
  not_lt = λ a b h k e. ground (arith, e);
  not_le = λ a h k. ground (arith, k);
  not_both = λ a h. ground (arith, h);
  nought_irreflexive = refl;
  le_refl = λ a h. ground arith;
  add_bound = λ a b h k. ground arith;
  mul_bound = λ a b h k l. ground arith;
  sub_bound = λ a h. ground arith;
  sub_le = λ a c h k. ground (arith, h, k);
}

full_wait : (t : ℕ) → ltb t 1 ≡ true → ltb 0 ((1 - t) / 1) ≡ true
full_wait ℕ.zero h = refl
full_wait (ℕ.suc t) h = absurd (ground (arith, h))

one_a_second : IsSteady whole 1
one_a_second = record { positive = refl; finite = refl; waits = full_wait }

abbrev pub limiter : TokenBucketLimiter whole
limiter = record {
  rate_per_second = 1;
  burst = 2;
  global_rate_per_second = 1;
  buckets =
      ("entity/it/incident", record { tokens = 0; capacity = 2; rate = 1; updated_at = 10 }) ∷ [];
  shared = new_bucket whole 60 1 0;
}

limiter-IsFair : IsFair whole limiter
limiter-IsFair = record {
  burst_room = refl;
  rate_steady = one_a_second;
  each_bounded =
      (record { not_below = refl; not_above = refl; room = refl; steady = one_a_second }, tt);
  shared_bounded = record {
    not_below = refl;
    not_above = refl;
    room = refl;
    steady = one_a_second;
  };
}

-- Of three checks in one second the third is denied.
abbrev calls : List (Option String × ℕ)
calls = (some "entity/it/incident", 11) ∷ (some "entity/it/incident", 11) ∷ (none, 12) ∷ []

checks-IsFair_example : IsFair whole (checks whole calls limiter)
checks-IsFair_example = checks-IsFair whole whole-IsOrdered calls limiter limiter-IsFair

denied : (check whole (some "entity/it/incident") 10 limiter).0.allowed ≡ false
unfolding check peek refill min_of bucket_of lookup evict_idle scoped max_of
denied = refl

check-IsChecked_example :
    ((check whole (some "entity/it/incident") 11 limiter).0.allowed ≡ (
      leb 1
        (refill whole (bucket_of whole (scoped (some "entity/it/incident")) 11 limiter) 11).tokens
      && leb 1 (refill whole limiter.shared 11).tokens))
    × IsChecked whole
        (scoped (some "entity/it/incident"))
        11
        limiter
        (check whole (some "entity/it/incident") 11 limiter).1
        (check whole (some "entity/it/incident") 11 limiter).0.allowed
check-IsChecked_example =
    check-IsChecked whole whole-IsOrdered (some "entity/it/incident") 11 limiter limiter-IsFair
