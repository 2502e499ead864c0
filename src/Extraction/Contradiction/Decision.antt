-- ===== src/Extraction/Contradiction/Decision.antt =====
-- The beliefs that src/rootmem/extraction/contradiction.py computes.
use rootmem.Base.{
  ◌≡◌, refl, inl, inr, Bool, true, false, Option, none, some, string_eq, option_eq, Bool-cases,
}
use rootmem.Base.Float.{Float, ◌≼◌, ◌≺◌, InUnit, IsOrdered, IsMonotone}
use rootmem.Graph.Models.{RelationRecord, NewRelation, Derivation, extracted, distilled}
use rootmem.Extraction.Contradiction.{
  BayesianSettings, reliability_for, FeedbackOutcome, apply_evidence, belief_confidence,
  same_object, fresh_belief, resolve_contradiction, apply_feedback, confirmed, contradicted,
}

module _ {F : Type 0} ⦃fl : Float F⦄ (o : IsOrdered F) (m : IsMonotone F) where
  open m use {largest}

  -- `gt=0.0` of the belief fields
  abbrev pub IsBelief : F → F → Type 0
  IsBelief alpha beta = (fl.of_ℕ 0 ≺ alpha) × (fl.of_ℕ 0 ≺ beta)

  -- The settings that `config.py` admits: reliabilities in [0, 1], a finite prior strength.
  pub record IsSettings (settings : BayesianSettings F) : Type 0 where
    pub prior_nonneg : fl.of_ℕ 0 ≼ settings.prior_strength
    pub prior_finite : settings.prior_strength ≼ largest
    pub extracted_unit : InUnit settings.reliability_extracted
    pub distilled_unit : InUnit settings.reliability_distilled
    pub feedback_unit : InUnit settings.reliability_feedback

  reliability_for-InUnit :
      {settings : BayesianSettings F} (d : Derivation)
      → IsSettings settings
      → InUnit (reliability_for settings d)
  unfolding reliability_for
  reliability_for-InUnit extracted s = s.extracted_unit
  reliability_for-InUnit distilled s = s.distilled_unit

  -- The two amounts that one event adds are not negative.
  weight_parts :
      (c r p : F)
      → InUnit c
      → InUnit r
      → fl.of_ℕ 0 ≼ p
      → p ≼ largest
      → let w = fl.mul r p in
        (fl.of_ℕ 0 ≼ fl.mul w c) × (fl.of_ℕ 0 ≼ fl.mul w (fl.sub (fl.of_ℕ 1) c))
  weight_parts c r p uc ur pn pf =
      let (wn, wf) = m.mul_unit r p ur pn pf in
      let w = fl.mul r p in
      (
        rw (m.mul_comm w c) (m.mul_unit c w uc wn wf).0,
        rw (m.mul_comm w (fl.sub (fl.of_ℕ 1) c))
            (m.mul_unit (fl.sub (fl.of_ℕ 1) c) w (m.sub_unit c uc) wn wf).0,
      )

  pub apply_evidence-IsBelief :
      (alpha beta c r p : F) (supporting : Bool)
      → IsBelief alpha beta
      → InUnit c
      → InUnit r
      → fl.of_ℕ 0 ≼ p
      → p ≼ largest
      → IsBelief
          (apply_evidence alpha beta c r p supporting).0
          (apply_evidence alpha beta c r p supporting).1
  unfolding apply_evidence
  apply_evidence-IsBelief alpha beta c r p true b uc ur pn pf =
      let (x, y) = weight_parts c r p uc ur pn pf in
      (m.add_pos alpha _ b.0 x, m.add_pos beta _ b.1 y)
  apply_evidence-IsBelief alpha beta c r p false b uc ur pn pf =
      let (x, y) = weight_parts c r p uc ur pn pf in
      (m.add_pos alpha _ b.0 y, m.add_pos beta _ b.1 x)

  abbrev pub IsBelief-previous : Option (RelationRecord F) → Type 0
  IsBelief-previous none = Unit
  IsBelief-previous (some r) = IsBelief r.belief_alpha r.belief_beta

  fresh_belief-IsBelief :
      (new : NewRelation F) (d : Derivation) {settings : BayesianSettings F}
      → IsSettings settings
      → InUnit new.confidence
      → IsBelief (fresh_belief new d settings).0 (fresh_belief new d settings).1
  unfolding fresh_belief
  fresh_belief-IsBelief new d {settings} s u =
      apply_evidence-IsBelief (fl.of_ℕ 1) (fl.of_ℕ 1) new.confidence (reliability_for settings d)
        settings.prior_strength true (o.zero_lt_one, o.zero_lt_one) u (reliability_for-InUnit d s)
        s.prior_nonneg s.prior_finite

  -- With admissible settings and a confidence in [0, 1], the belief that `resolve_contradiction`
  -- decides is positive on both sides, on each of its four branches, if that of the relation before was.
  pub resolve_contradiction-IsBelief :
      (previous : Option (RelationRecord F)) (new : NewRelation F) (d : Derivation)
      (settings : BayesianSettings F)
      → IsSettings settings
      → InUnit new.confidence
      → IsBelief-previous previous
      → IsBelief
          (resolve_contradiction previous new d settings).belief_alpha
          (resolve_contradiction previous new d settings).belief_beta
  unfolding resolve_contradiction
  resolve_contradiction-IsBelief none new d settings s u b = fresh_belief-IsBelief new d s u
  resolve_contradiction-IsBelief (some r) new d settings s u b =
      elim (Bool-cases (same_object r new)) [
        | inl same ↦ rw same (
            apply_evidence-IsBelief r.belief_alpha r.belief_beta new.confidence
              (reliability_for settings d) settings.prior_strength true b u
              (reliability_for-InUnit d s) s.prior_nonneg s.prior_finite)
        | inr differ ↦
            let fresh = fresh_belief new d settings in
            elim (Bool-cases (
              fl.lt (fl.add (belief_confidence fresh.0 fresh.1) settings.supersede_margin)
                (belief_confidence r.belief_alpha r.belief_beta))) [
                  | inl contests ↦ rw (differ, contests) (fresh_belief-IsBelief new d s u)
                  | inr wins ↦ rw (differ, wins) (fresh_belief-IsBelief new d s u)
                ]
      ]

  -- How far an event of the reported confidence speaks for one side, with the weight of feedback.
  abbrev weighted : BayesianSettings F → F → F
  weighted settings share =
      fl.mul (fl.mul settings.reliability_feedback settings.prior_strength) share

  -- The belief after the report: a confirmation puts the reported confidence on alpha and what is left
  -- of 1 on beta, a contradiction the other way round.
  abbrev pub Moves : F → F → FeedbackOutcome → F → BayesianSettings F → F × F → Type 0
  Moves alpha beta confirmed reported settings after =
      (after.0 ≡ fl.add alpha (weighted settings reported))
      × (after.1 ≡ fl.add beta (weighted settings (fl.sub (fl.of_ℕ 1) reported)))
  Moves alpha beta contradicted reported settings after =
      (after.0 ≡ fl.add alpha (weighted settings (fl.sub (fl.of_ℕ 1) reported)))
      × (after.1 ≡ fl.add beta (weighted settings reported))

  -- With admissible settings and a report in [0, 1], `apply_feedback` adds to a positive belief. A
  -- confirmation adds the reported confidence, weighted, to alpha and what is left of 1 to beta; a
  -- contradiction adds the reported confidence to beta and what is left of 1 to alpha. Neither side
  -- falls, and both stay positive.
  pub apply_feedback_lem :
      (alpha beta reported : F) (outcome : FeedbackOutcome) (settings : BayesianSettings F)
      → IsSettings settings
      → InUnit reported
      → IsBelief alpha beta
      → Moves alpha beta outcome reported settings
          (apply_feedback alpha beta outcome reported settings)
        × (alpha ≼ (apply_feedback alpha beta outcome reported settings).0)
        × (beta ≼ (apply_feedback alpha beta outcome reported settings).1)
        × IsBelief
            (apply_feedback alpha beta outcome reported settings).0
            (apply_feedback alpha beta outcome reported settings).1
  unfolding apply_feedback apply_evidence
  apply_feedback_lem alpha beta reported confirmed settings s u b =
      let (x, y) =
        weight_parts reported settings.reliability_feedback settings.prior_strength u
          s.feedback_unit s.prior_nonneg s.prior_finite in
      (
        (refl, refl),
        m.le_add alpha _ b.0 x,
        m.le_add beta _ b.1 y,
        apply_evidence-IsBelief alpha beta reported settings.reliability_feedback
            settings.prior_strength true b u s.feedback_unit s.prior_nonneg s.prior_finite,
      )
  apply_feedback_lem alpha beta reported contradicted settings s u b =
      let (x, y) =
        weight_parts reported settings.reliability_feedback settings.prior_strength u
          s.feedback_unit s.prior_nonneg s.prior_finite in
      (
        (refl, refl),
        m.le_add alpha _ b.0 y,
        m.le_add beta _ b.1 x,
        apply_evidence-IsBelief alpha beta reported settings.reliability_feedback
            settings.prior_strength false b u s.feedback_unit s.prior_nonneg s.prior_finite,
      )
