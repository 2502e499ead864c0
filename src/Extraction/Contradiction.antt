-- ===== src/Extraction/Contradiction.antt =====
-- src/rootmem/extraction/contradiction.py: the Bayesian belief update and the decision on a new
-- relation.
pub mod Decision
pub mod Actions
use rootmem.Base.{
  String, ◌==◌, Bool, true, false, ◌&&◌, Option, none, some, if◌then◌else◌, string_eq, option_eq,
}
use rootmem.Base.Float.{Float}
use rootmem.Graph.Models.{RelationRecord, NewRelation, Derivation, extracted, distilled}

pub record BayesianSettings (F : Type 0) : Type 0 where
  pub prior_strength : F
  pub supersede_margin : F
  pub reliability_extracted : F
  pub reliability_distilled : F
  pub reliability_feedback : F

unfoldable pub reliability_for : {F : Type 0} → BayesianSettings F → Derivation → F
reliability_for settings extracted = settings.reliability_extracted
reliability_for settings distilled = settings.reliability_distilled

pub data Action : Type 0 where
  create corroborate supersede contest : Action

pub record ContradictionDecision (F : Type 0) : Type 0 where
  pub action : Action
  pub belief_alpha : F
  pub belief_beta : F
  pub derivation : Derivation

pub data FeedbackOutcome : Type 0 where
  confirmed contradicted : FeedbackOutcome

-- a one-way upgrade
abbrev pub upgraded : Derivation → Derivation → Derivation
upgraded distilled previous = distilled
upgraded extracted previous = previous

abbrev pub supports : FeedbackOutcome → Bool
supports confirmed = true
supports contradicted = false

module _ {F : Type 0} ⦃fl : Float F⦄ where
  open fl use {of_ℕ, add, sub, mul, div, lt}

  -- `Beta(alpha, beta)` after one evidence event
  unfoldable pub apply_evidence : F → F → F → F → F → Bool → F × F
  apply_evidence alpha beta confidence reliability prior_strength supporting =
      let weight = mul reliability prior_strength in
      if supporting
      then (add alpha (mul weight confidence), add beta (mul weight (sub (of_ℕ 1) confidence)))
      else (add alpha (mul weight (sub (of_ℕ 1) confidence)), add beta (mul weight confidence))

  unfoldable pub belief_confidence : F → F → F
  belief_confidence alpha beta = div alpha (add alpha beta)

  abbrev pub same_object : RelationRecord F → NewRelation F → Bool
  same_object previous new =
      previous.object_entity_id == new.object_entity_id
      && previous.object_literal == new.object_literal

  abbrev decision : Action → F × F → Derivation → ContradictionDecision F
  decision action belief derivation = record {
    action = action;
    belief_alpha = belief.0;
    belief_beta = belief.1;
    derivation = derivation;
  }

  -- the belief in a fresh claim: a `Beta(1, 1)` prior and one supporting event
  unfoldable pub fresh_belief : NewRelation F → Derivation → BayesianSettings F → F × F
  unfolding apply_evidence reliability_for
  fresh_belief new derivation settings =
      apply_evidence (of_ℕ 1) (of_ℕ 1) new.confidence (reliability_for settings derivation)
        settings.prior_strength true

  unfoldable pub resolve_contradiction :
      Option (RelationRecord F)
      → NewRelation F
      → Derivation
      → BayesianSettings F
      → ContradictionDecision F
  unfolding apply_evidence belief_confidence reliability_for fresh_belief
  resolve_contradiction none new derivation settings =
      decision create (fresh_belief new derivation settings) derivation
  resolve_contradiction (some previous) new derivation settings =
      let corroborated =
        apply_evidence previous.belief_alpha previous.belief_beta new.confidence
          (reliability_for settings derivation) settings.prior_strength true in
      let fresh = fresh_belief new derivation settings in
      let new_confidence = belief_confidence fresh.0 fresh.1 in
      let old_confidence = belief_confidence previous.belief_alpha previous.belief_beta in
      if same_object previous new
      then decision corroborate corroborated (upgraded derivation previous.derivation)
      else if lt (add new_confidence settings.supersede_margin) old_confidence
      then decision contest fresh derivation
      else decision supersede fresh derivation

  unfoldable pub apply_feedback : F → F → FeedbackOutcome → F → BayesianSettings F → F × F
  unfolding apply_evidence
  apply_feedback alpha beta outcome reported_confidence settings =
      apply_evidence alpha beta reported_confidence settings.reliability_feedback
        settings.prior_strength (supports outcome)
