-- ===== src/Retrieval/Trust.antt =====
-- src/rootmem/trust/scoring.py.
use mathlib.Core.Option
use rootmem.Base.{String, ◌||◌, if◌then◌else◌, Result, ok, raise, string_eq}
use rootmem.Base.Dict
use rootmem.Base.Dict.{Dict}
use rootmem.Base.Float.{Float, clip01}
use rootmem.Retrieval.Ranking.{ValueError, value_error}

pub record TrustParams (F : Type 0) : Type 0 where
  pub default_reliability : F
  pub source_reliability : Dict String F

module _ {F : Type 0} ⦃fl : Float F⦄ where
  open fl use {of_ℕ, le, add, mul, div}

  unfoldable pub memory_trust : String → F → TrustParams F → F
  unfolding clip01
  memory_trust source confidence params =
      let reliability =
        Option.get_or (Dict.get params.source_reliability source) params.default_reliability in
      clip01 (mul (clip01 reliability) (clip01 confidence))

  unfoldable pub skill_effectiveness : F → F → Result ValueError F
  skill_effectiveness belief_alpha belief_beta =
      if le belief_alpha (of_ℕ 0) || le belief_beta (of_ℕ 0)
      then raise value_error
      else ok (div belief_alpha (add belief_alpha belief_beta))
