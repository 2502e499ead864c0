-- ===== src/Retrieval/Decay.antt =====
-- src/rootmem/retrieval/decay.py: how much of a memory is retained.
use mathlib.Core.Option
use rootmem.Base.{ℕ, Option, if◌then◌else◌, Result, ok, raise}
use rootmem.Base.Float.{Float, max}
use rootmem.Retrieval.Ranking.{ValueError, value_error}

pub record RetentionParams (F : Type 0) : Type 0 where
  pub base_stability_days : F

module _ {F : Type 0} ⦃fl : Float F⦄ where
  open fl use {of_ℕ, le, add, mul, div, neg, exp, log1p, seconds}

  unfoldable pub init : F → Result ValueError (RetentionParams F)
  init base_stability_days =
      if le base_stability_days (of_ℕ 0)
      then raise value_error
      else ok (record { base_stability_days = base_stability_days })

  -- A count is not negative, so `max(0, access_count)` is the count.
  unfoldable pub stability_days : ℕ → Option F → RetentionParams F → F
  unfolding max
  stability_days access_count salience params =
      let salience_term = add (of_ℕ 1) (max (of_ℕ 0) (Option.get_or salience (of_ℕ 0))) in
      let access_term = add (of_ℕ 1) (log1p (of_ℕ access_count)) in
      mul (mul params.base_stability_days access_term) salience_term

  unfoldable pub retention : ℕ → Option ℕ → ℕ → ℕ → Option F → RetentionParams F → F
  unfolding max stability_days
  retention now last_accessed_at created_at access_count salience params =
      let reference = Option.get_or last_accessed_at created_at in
      let elapsed_days = max (of_ℕ 0) (div (seconds now reference) (of_ℕ 86400)) in
      exp (div (neg elapsed_days) (stability_days access_count salience params))
