-- ===== src/Healer/RateLimit/Bounds.antt =====
-- Every bucket stays between empty and full (healer/ratelimit.py).
use specora_core.Prelude.{
  String, ◌≡◌, subst, Bool, true, false, Option, some, some-injective, List, [], ◌∷◌, ◌==◌,
  Bool-cases, inl, inr, Dict, lookup, put, select, All,
}
use specora_core.Prelude.Options.{Option-cases}
use specora_core.Healer.RateLimit.{
  Floats, Bucket, max_of, min_of, TokenBucketLimiter, refill, peek, evict_idle, take_one, scoped,
  bucket_of, check,
}

-- What the arithmetic of floats guarantees, a NaN being below nothing. Sums and products may round.
pub record IsOrdered (P : Floats) : Type 0 where
  pub nought_le : P.le P.nought P.nought ≡ true
  pub lt_le : (a b : P.F) → P.lt a b ≡ true → P.le a b ≡ true
  pub not_lt :
      (a b : P.F)
      → P.le P.nought a ≡ true
      → P.le P.nought b ≡ true
      → P.lt a b ≡ false
      → P.le b a ≡ true
  pub not_le : (a : P.F) → P.le P.nought a ≡ true → P.le P.one a ≡ false → P.lt a P.one ≡ true
  pub not_both : (a : P.F) → P.lt P.nought a ≡ true → P.le a P.nought ≡ false
  pub nought_irreflexive : P.lt P.nought P.nought ≡ false
  pub le_refl : (a : P.F) → P.le P.nought a ≡ true → P.le a a ≡ true
  pub add_bound :
      (a b : P.F)
      → P.le P.nought a ≡ true
      → P.le P.nought b ≡ true
      → P.le P.nought (P.add a b) ≡ true
  pub mul_bound :
      (a b : P.F)
      → P.le P.nought a ≡ true
      → P.lt P.nought b ≡ true
      → P.lt b P.infinity ≡ true
      → P.le P.nought (P.mul a b) ≡ true
  pub sub_bound : (a : P.F) → P.le P.one a ≡ true → P.le P.nought (P.sub a P.one) ≡ true
  pub sub_le : (a c : P.F) → P.le P.one a ≡ true → P.le a c ≡ true → P.le (P.sub a P.one) c ≡ true

-- A rate is positive and finite, and not so large that a wait rounds to 0.0.
pub record IsSteady (P : Floats) (rate : P.F) : Type 0 where
  pub positive : P.lt P.nought rate ≡ true
  pub finite : P.lt rate P.infinity ≡ true
  pub waits : (t : P.F) → P.lt t P.one ≡ true → P.lt P.nought (P.div (P.sub P.one t) rate) ≡ true

pub record IsBounded (P : Floats) (b : Bucket P) : Type 0 where
  pub not_below : P.le P.nought b.tokens ≡ true
  pub not_above : P.le b.tokens b.capacity ≡ true
  pub room : P.le P.nought b.capacity ≡ true
  pub steady : IsSteady P b.rate

pub record IsFair (P : Floats) (l : TokenBucketLimiter P) : Type 0 where
  pub burst_room : P.le P.nought l.burst ≡ true
  pub rate_steady : IsSteady P l.rate_per_second
  pub each_bounded : All (λ (e : String × Bucket P). IsBounded P e.1) l.buckets
  pub shared_bounded : IsBounded P l.shared

-- A sequence of checks, each with its key and its time.
unfoldable pub checks :
    (P : Floats) → List (Option String × P.F) → TokenBucketLimiter P → TokenBucketLimiter P
checks P [] l = l
checks P ((key, now) ∷ calls) l = checks P calls (check P key now l).1

module _ (P : Floats) (o : IsOrdered P) where
  max_of-nought : (x : P.F) → P.le P.nought (max_of P P.nought x) ≡ true
  unfolding max_of
  max_of-nought x = elim (Bool-cases (P.lt P.nought x)) [
    | inl e ↦ rw e (o.lt_le P.nought x e)
    | inr e ↦ rw e o.nought_le
  ]

  min_of-bounds :
      (a b : P.F)
      → P.le P.nought a ≡ true
      → P.le P.nought b ≡ true
      → (P.le P.nought (min_of P a b) ≡ true) × (P.le (min_of P a b) a ≡ true)
  unfolding min_of
  min_of-bounds a b h k = elim (Bool-cases (P.lt b a)) [
    | inl e ↦ rw e (k, o.lt_le b a e)
    | inr e ↦ rw e (h, o.le_refl a h)
  ]

  pub refill-IsBounded : (b : Bucket P) (now : P.F) → IsBounded P b → IsBounded P (refill P b now)
  unfolding refill
  refill-IsBounded b now h =
      let elapsed = max_of P P.nought (P.sub now b.updated_at) in
      let m = min_of-bounds b.capacity (P.add b.tokens (P.mul elapsed b.rate)) h.room (
        o.add_bound b.tokens (P.mul elapsed b.rate) h.not_below (
          o.mul_bound elapsed b.rate (max_of-nought (P.sub now b.updated_at)) h.steady.positive
            h.steady.finite)) in
      record { not_below = m.0; not_above = m.1; room = h.room; steady = h.steady }

  -- A bucket from which nobody has to wait holds a token, and the other way round.
  pub peek-false :
      (b : Bucket P) → IsBounded P b → P.lt P.nought (peek P b) ≡ false → P.le P.one b.tokens ≡ true
  unfolding peek
  peek-false b h k = elim (Bool-cases (P.le P.one b.tokens)) [
    | inl e ↦ e
    | inr e ↦ absurd (
        cc (
          h.steady.waits b.tokens (o.not_le b.tokens h.not_below e),
          rw (e, o.not_both b.rate h.steady.positive, peek) at k,
        ))
  ]

  pub peek-true : (b : Bucket P) → P.lt P.nought (peek P b) ≡ true → P.le P.one b.tokens ≡ false
  unfolding peek
  peek-true b k = elim (Bool-cases (P.le P.one b.tokens)) [
    | inl e ↦ absurd (cc (o.nought_irreflexive, rw (e, peek) at k))
    | inr e ↦ e
  ]

  take_one-IsBounded :
      (b : Bucket P) → IsBounded P b → P.le P.one b.tokens ≡ true → IsBounded P (take_one P b)
  unfolding take_one
  take_one-IsBounded b h k = record {
    not_below = o.sub_bound b.tokens k;
    not_above = o.sub_le b.tokens b.capacity k h.not_above;
    room = h.room;
    steady = h.steady;
  }

  All-select :
      (p : String × Bucket P → Bool) (d : Dict (Bucket P))
      → All (λ (e : String × Bucket P). IsBounded P e.1) d
      → All (λ (e : String × Bucket P). IsBounded P e.1) (select p d)
  All-select p [] h = h
  All-select p (e ∷ d) h = elim (Bool-cases (p e)) [
    | inl k ↦ rw k (h.0, All-select p d h.1)
    | inr k ↦ rw k (All-select p d h.1)
  ]

  All-put :
      (key : String) (b : Bucket P) (d : Dict (Bucket P))
      → IsBounded P b
      → All (λ (e : String × Bucket P). IsBounded P e.1) d
      → All (λ (e : String × Bucket P). IsBounded P e.1) (put key b d)
  unfolding put
  All-put key b [] h k = (h, tt)
  All-put key b ((j, c) ∷ d) h k = elim (Bool-cases (j == key)) [
    | inl e ↦ rw e (h, k.1)
    | inr e ↦ rw e (k.0, All-put key b d h k.1)
  ]

  All-lookup :
      (key : String) (b : Bucket P) (d : Dict (Bucket P))
      → All (λ (e : String × Bucket P). IsBounded P e.1) d
      → lookup key d ≡ some b
      → IsBounded P b
  unfolding lookup
  All-lookup key b [] h k = absurd (cc k)
  All-lookup key b ((j, c) ∷ d) h k = elim (Bool-cases (j == key)) [
    | inl e ↦ subst (IsBounded P) (some-injective c b (rw (e, lookup) at k)) h.0
    | inr e ↦ All-lookup key b d h.1 (rw (e, lookup) at k)
  ]

  evict_idle-each :
      (now : P.F) (d : Dict (Bucket P))
      → All (λ (e : String × Bucket P). IsBounded P e.1) d
      → All (λ (e : String × Bucket P). IsBounded P e.1) (evict_idle P now d)
  unfolding evict_idle
  evict_idle-each now d h = All-select _ d h

  pub bucket_of-IsBounded :
      (key : String) (now : P.F) (l : TokenBucketLimiter P)
      → IsFair P l
      → IsBounded P (bucket_of P key now l)
  unfolding bucket_of
  bucket_of-IsBounded key now l h = elim (Option-cases (lookup key (evict_idle P now l.buckets))) [
    | inl e ↦
        rw (e, bucket_of)
          (record {
            not_below = h.burst_room;
            not_above = o.le_refl l.burst h.burst_room;
            room = h.burst_room;
            steady = h.rate_steady;
          })
    | inr (b, e) ↦
        rw (e, bucket_of)
          (All-lookup key b (evict_idle P now l.buckets)
            (evict_idle-each now l.buckets h.each_bounded) e)
  ]

  IsFair-after :
      (key : String) (b shared : Bucket P) (now : P.F) (l : TokenBucketLimiter P)
      → IsFair P l
      → IsBounded P b
      → IsBounded P shared
      → IsFair P (record l { buckets = put key b (evict_idle P now l.buckets); shared = shared })
  IsFair-after key b shared now l h k s = record {
    burst_room = h.burst_room;
    rate_steady = h.rate_steady;
    each_bounded =
        All-put key b (evict_idle P now l.buckets) k (evict_idle-each now l.buckets h.each_bounded);
    shared_bounded = s;
  }

  check-IsFair :
      (key : Option String) (now : P.F) (l : TokenBucketLimiter P)
      → IsFair P l
      → IsFair P (check P key now l).1
  unfolding check
  check-IsFair key now l h =
      let b = refill P (bucket_of P (scoped key) now l) now in
      let shared = refill P l.shared now in
      let kb =
        refill-IsBounded (bucket_of P (scoped key) now l) now
          (bucket_of-IsBounded (scoped key) now l h) in
      let ks = refill-IsBounded l.shared now h.shared_bounded in
      elim (Bool-cases (P.lt P.nought (peek P b))) [
        | inl e ↦ rw e (IsFair-after (scoped key) b l.shared now l h kb h.shared_bounded)
        | inr e ↦ elim (Bool-cases (P.lt P.nought (peek P shared))) [
          | inl f ↦ rw (e, f) (IsFair-after (scoped key) b shared now l h kb ks)
          | inr f ↦
              rw (e, f)
                (IsFair-after (scoped key) (take_one P b) (take_one P shared) now l h
                  (take_one-IsBounded b kb (peek-false b kb e))
                  (take_one-IsBounded shared ks (peek-false shared ks f)))
        ]
      ]

  -- However many checks at whatever times, every bucket, the shared one included, keeps between 0 and
  -- its capacity tokens. Floats behave as ordered numbers that round, and the limiter starts with
  -- bounded buckets, room for its burst, and rates that are positive, finite and not so large that a
  -- wait rounds to 0.
  pub checks-IsFair :
      (calls : List (Option String × P.F)) (l : TokenBucketLimiter P)
      → IsFair P l
      → IsFair P (checks P calls l)
  unfolding checks
  checks-IsFair [] l h = h
  checks-IsFair ((key, now) ∷ calls) l h =
      checks-IsFair calls (check P key now l).1 (check-IsFair key now l h)
