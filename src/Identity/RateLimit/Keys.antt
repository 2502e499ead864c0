-- ===== src/Identity/RateLimit/Keys.antt =====
-- The buckets of different keys in src/rootmem/identity/ratelimit.py.
use rootmem.Base.{
  [], String, ◌≡◌, ◌≢◌, refl, sym, ap, ◌∙◌, Option, string_eq, Bool-cases, inl, inr, ==_ne,
}
use mathlib.Core.Option
use rootmem.Base.Dict
use rootmem.Base.Dict.{get-put_ne}
use rootmem.Base.Float.{Float}
use rootmem.Identity.RateLimit.{Bucket, TokenBucketLimiter, bucket_of, refill, allow}

module _ {F : Type 0} ⦃fl : Float F⦄ where
  bucket-allow :
      (limiter : TokenBucketLimiter F) (now : F) (key other : String)
      → key ≢ other
      → Dict.get (allow limiter now key).0.buckets other ≡ Dict.get limiter.buckets other
  unfolding allow
  bucket-allow limiter now key other n =
      let tokens = refill limiter now (bucket_of limiter now key) in
      let apart = ==_ne key other n in
      elim (Bool-cases (fl.le (fl.of_ℕ 1) tokens)) [
        | inl granted ↦ rw granted (get-put_ne limiter.buckets key other _ apart)
        | inr refused ↦ rw refused (get-put_ne limiter.buckets key other _ apart)
      ]

  rates-allow :
      (limiter : TokenBucketLimiter F) (now : F) (key : String)
      → ((allow limiter now key).0.rate_per_second ≡ limiter.rate_per_second)
        × ((allow limiter now key).0.burst ≡ limiter.burst)
  unfolding allow
  rates-allow limiter now key =
      let tokens = refill limiter now (bucket_of limiter now key) in
      elim (Bool-cases (fl.le (fl.of_ℕ 1) tokens)) [
        | inl granted ↦ rw granted (refl, refl)
        | inr refused ↦ rw refused (refl, refl)
      ]

  granted_by_token :
      (limiter : TokenBucketLimiter F) (now : F) (key : String)
      → (allow limiter now key).1
        ≡ fl.le (fl.of_ℕ 1) (refill limiter now (bucket_of limiter now key))
  unfolding allow
  granted_by_token limiter now key =
      elim (Bool-cases (fl.le (fl.of_ℕ 1) (refill limiter now (bucket_of limiter now key)))) [
        | inl granted ↦ rw granted refl
        | inr refused ↦ rw refused refl
      ]

  abbrev tokens_of : F → F → Option (Bucket F) → F → F
  tokens_of rate burst bucket now =
      refill (record { rate_per_second = rate; burst = burst; buckets = [] }) now
        (Option.get_or bucket (record { tokens = burst; updated_at = now }))

  refill_tokens :
      (limiter : TokenBucketLimiter F) (now : F) (key : String)
      → refill limiter now (bucket_of limiter now key)
        ≡ tokens_of limiter.rate_per_second limiter.burst (Dict.get limiter.buckets key) now
  unfolding refill
  refill_tokens limiter now key = refl

  decision_from :
      (a b : TokenBucketLimiter F) (now : F) (key : String)
      → a.rate_per_second ≡ b.rate_per_second
      → a.burst ≡ b.burst
      → Dict.get a.buckets key ≡ Dict.get b.buckets key
      → (allow a now key).1 ≡ (allow b now key).1
  decision_from a b now key p q r =
      granted_by_token a now key
      ∙ ap (λ t. fl.le (fl.of_ℕ 1) t)
          (refill_tokens a now key
            ∙ (λ i. tokens_of (p i) (q i) (r i) now)
            ∙ sym (refill_tokens b now key))
      ∙ sym (granted_by_token b now key)

  -- Whether `allow` grants a call for one key does not depend on a call for another key before it.
  pub allow-allow :
      (limiter : TokenBucketLimiter F) (now later : F) (key other : String)
      → key ≢ other
      → (allow (allow limiter now key).0 later other).1 ≡ (allow limiter later other).1
  allow-allow limiter now later key other n =
      decision_from (allow limiter now key).0 limiter later other (rates-allow limiter now key).0
        (rates-allow limiter now key).1 (bucket-allow limiter now key other n)
