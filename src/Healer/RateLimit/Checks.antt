-- ===== src/Healer/RateLimit/Checks.antt =====
-- What one check decides and consumes (`check` of healer/ratelimit.py).
use specora_core.Prelude.{
  String, ◌≡◌, refl, Bool, false, Option, some, ◌⊎◌, ◌==◌, eq_refl, Bool-cases, inl, inr,
  if◌then◌else◌, Dict, lookup, put, lookup-put, ◌&&◌,
}
use specora_core.Healer.RateLimit.{
  Floats, Bucket, TokenBucketLimiter, refill, peek, evict_idle, take_one, scoped, bucket_of, check,
}
use specora_core.Healer.RateLimit.Bounds.{
  IsOrdered, IsFair, refill-IsBounded, bucket_of-IsBounded, peek-false, peek-true,
}

-- The buckets after a check that allows, or denies, out of the refilled bucket of the key and the
-- refilled shared one.
pub record IsChecked (P : Floats) (key : String) (now : P.F) (l m : TokenBucketLimiter P)
    (allowed : Bool) : Type 0 where
  pub own :
      lookup key m.buckets
      ≡ some (
          if allowed
          then take_one P (refill P (bucket_of P key now l) now)
          else refill P (bucket_of P key now l) now)
  pub others :
      (j : String) → (key == j) ≡ false → lookup j m.buckets ≡ lookup j (evict_idle P now l.buckets)
  pub common :
      (m.shared ≡ (if allowed then take_one P (refill P l.shared now) else refill P l.shared now))
      ⊎ ((allowed ≡ false) × (m.shared ≡ l.shared))

module _ (P : Floats) (o : IsOrdered P) where
  put-IsChecked :
      (key : String) (b : Bucket P) (d : Dict (Bucket P))
      → (lookup key (put key b d) ≡ some b)
        × ((j : String) → (key == j) ≡ false → lookup j (put key b d) ≡ lookup j d)
  put-IsChecked key b d =
      (rw (lookup-put key key b d, eq_refl key) refl, λ j h. rw (lookup-put key j b d, h) refl)

  -- A check is allowed exactly when the key's refilled bucket and the refilled shared one both hold a
  -- token, and then it takes one from each; when it is denied it takes none. The buckets of other keys
  -- are not touched, but for those that were idle too long. The limiter's buckets are bounded.
  pub check-IsChecked :
      (key : Option String) (now : P.F) (l : TokenBucketLimiter P)
      → IsFair P l
      → ((check P key now l).0.allowed ≡ (
          P.le P.one (refill P (bucket_of P (scoped key) now l) now).tokens
          && P.le P.one (refill P l.shared now).tokens))
        × IsChecked P (scoped key) now l (check P key now l).1 (check P key now l).0.allowed
  unfolding check
  check-IsChecked key now l h =
      let b = refill P (bucket_of P (scoped key) now l) now in
      let shared = refill P l.shared now in
      let kb =
        refill-IsBounded P o (bucket_of P (scoped key) now l) now
          (bucket_of-IsBounded P o (scoped key) now l h) in
      let ks = refill-IsBounded P o l.shared now h.shared_bounded in
      let kept = evict_idle P now l.buckets in
      elim (Bool-cases (P.lt P.nought (peek P b))) [
        | inl e ↦
            let (own, others) = put-IsChecked (scoped key) b kept in
            rw (e, peek-true P o b e)
              (refl, record { own = own; others = others; common = inr (refl, refl) })
        | inr e ↦ elim (Bool-cases (P.lt P.nought (peek P shared))) [
          | inl f ↦
              let (own, others) = put-IsChecked (scoped key) b kept in
              rw (e, f, peek-false P o b kb e, peek-true P o shared f)
                (refl, record { own = own; others = others; common = inl refl })
          | inr f ↦
              let (own, others) = put-IsChecked (scoped key) (take_one P b) kept in
              rw (e, f, peek-false P o b kb e, peek-false P o shared ks f)
                (refl, record { own = own; others = others; common = inl refl })
        ]
      ]
