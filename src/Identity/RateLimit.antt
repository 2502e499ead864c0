-- ===== src/Identity/RateLimit.antt =====
-- src/rootmem/identity/ratelimit.py: a token bucket for each key. The clock's reading is an argument.
pub mod Keys
use rootmem.Base.{
  ℕ, String, Bool, true, false, ◌||◌, [], if◌then◌else◌, string_eq, ltb, Result, ok, raise,
}
use mathlib.Core.Option
use rootmem.Base.Dict
use rootmem.Base.Dict.{Dict}
use rootmem.Base.Float.{Float, max, min}
use rootmem.Retrieval.Ranking.{ValueError, value_error}

pub record Bucket (F : Type 0) : Type 0 where
  pub tokens : F
  pub updated_at : F

pub record TokenBucketLimiter (F : Type 0) : Type 0 where
  pub rate_per_second : F
  pub burst : F
  pub buckets : Dict String (Bucket F)

module _ {F : Type 0} ⦃fl : Float F⦄ where
  open fl use {of_ℕ, lt, le, add, sub, mul, div}

  unfoldable pub init : F → ℕ → Result ValueError (TokenBucketLimiter F)
  init rate_per_minute burst =
      if le rate_per_minute (of_ℕ 0) || ltb burst 1
      then raise value_error
      else ok (record {
        rate_per_second = div rate_per_minute (of_ℕ 60);
        burst = of_ℕ burst;
        buckets = [];
      })

  -- the bucket of the key, a full one at the first call
  abbrev pub bucket_of : TokenBucketLimiter F → F → String → Bucket F
  bucket_of limiter now key =
      Option.get_or (Dict.get limiter.buckets key)
        (record { tokens = limiter.burst; updated_at = now })

  -- the tokens after the refill
  unfoldable pub refill : TokenBucketLimiter F → F → Bucket F → F
  unfolding max min
  refill limiter now bucket =
      let elapsed = max (of_ℕ 0) (sub now bucket.updated_at) in
      min limiter.burst (add bucket.tokens (mul elapsed limiter.rate_per_second))

  abbrev pub set_bucket : TokenBucketLimiter F → String → F → F → TokenBucketLimiter F
  set_bucket limiter key tokens now = record limiter {
    buckets = Dict.put limiter.buckets key (record { tokens = tokens; updated_at = now });
  }

  unfoldable pub allow : TokenBucketLimiter F → F → String → TokenBucketLimiter F × Bool
  unfolding refill
  allow limiter now key =
      let tokens = refill limiter now (bucket_of limiter now key) in
      if le (of_ℕ 1) tokens
      then (set_bucket limiter key (sub tokens (of_ℕ 1)) now, true)
      else (set_bucket limiter key tokens now, false)
