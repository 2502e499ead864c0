-- ===== src/Rumination/Reconcile.antt =====
-- src/rootmem/rumination/reconcile.py.
use rootmem.Base.{ℕ, String, none, if◌then◌else◌}
use rootmem.Base.Float.{Float}
use rootmem.Graph.Models.{RelationRecord}
use rootmem.Extraction.Contradiction.{belief_confidence}
use rootmem.Retrieval.Decay.{RetentionParams, retention}

-- The ids are those of the winner and of the loser.
pub data ReconciliationDecision : Type 0 where
  resolve : String → String → ReconciliationDecision
  still_contested : ReconciliationDecision

module _ {F : Type 0} ⦃fl : Float F⦄ where
  unfoldable pub decayed_confidence : RelationRecord F → ℕ → RetentionParams F → F
  unfolding belief_confidence retention
  decayed_confidence relation now params =
      fl.mul (belief_confidence relation.belief_alpha relation.belief_beta)
        (retention now none relation.recorded_at 0 none params)

  unfoldable pub decide_reconciliation :
      RelationRecord F → RelationRecord F → ℕ → RetentionParams F → F → ReconciliationDecision
  unfolding decayed_confidence
  decide_reconciliation older newer now decay_params supersede_margin =
      let d_older = decayed_confidence older now decay_params in
      let d_newer = decayed_confidence newer now decay_params in
      if fl.lt (fl.add d_older supersede_margin) d_newer
      then resolve newer.id older.id
      else if fl.lt (fl.add d_newer supersede_margin) d_older
      then resolve older.id newer.id
      else still_contested
