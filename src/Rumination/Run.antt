-- ===== src/Rumination/Run.antt =====
-- src/rootmem/rumination/run.py: one pass over the contested relations. `clock n` is the time at which
-- the audit log records the n-th resolution of the pass.
use mathlib.Core.Option
use rootmem.Base.{
  ℕ, ◌+◌, String, Bool, not, ◌&&◌, Option, none, some, List, [], ◌∷◌, ◌++◌, if◌then◌else◌,
  string_eq, pair_eq, ltb, Result, ok, raise, ◌>>=◌, Eq,
}
use rootmem.Base.Dict
use rootmem.Base.Dict.{Dict}
use rootmem.Base.Float.{Float}
use rootmem.Base.Json.{Fields, end, field, text}
use rootmem.Graph.Models.{RelationRecord}
use rootmem.Graph.Repository.{Graph, NotFound, list_contested, resolve_contest}
use rootmem.Audit.Chain.{Hashing}
use rootmem.Audit.Log.{AuditRecorder, record_entry}
use rootmem.Retrieval.Ranking.{ValueError}
use rootmem.Retrieval.Decay.{RetentionParams, init}
use rootmem.Rumination.Reconcile.{
  ReconciliationDecision, resolve, still_contested, decide_reconciliation,
}

pub record RuminationSummary : Type 0 where
  pub pairs_examined : ℕ
  pub pairs_resolved : ℕ
  pub pairs_skipped_too_young : ℕ
  pub pairs_skipped_ambiguous : ℕ

-- What the pass is called with.
pub record PassSettings (F : Type 0) : Type 0 where
  pub now : ℕ
  pub decay_base_stability_days : F
  pub supersede_margin : F
  pub min_contest_age_hours : F
  pub force : Bool

-- A relation that is gone, or a stability that `RetentionParams` refuses.
pub data Fault : Type 0 where
  missing : NotFound → Fault
  value_error : ValueError → Fault

-- `(namespace, subject_entity_id, predicate)`
abbrev pub PairKey : Type 0
PairKey = String × (String × String)

instance abbrev pub pair_key_eq : Eq PairKey
pair_key_eq = pair_eq ⦃f = pair_eq⦄

abbrev pub Pairs : Type 0 → Type 0
Pairs F = Dict PairKey (List (RelationRecord F))

module _ {F : Type 0} where
  abbrev pub pair_key : RelationRecord F → PairKey
  pair_key r = (r.namespace, (r.subject_entity_id, r.predicate))

  unfoldable pub group_pairs : Pairs F → List (RelationRecord F) → Pairs F
  group_pairs groups [] = groups
  group_pairs groups (r ∷ contested) =
      group_pairs
        (Dict.put groups (pair_key r) (Option.get_or (Dict.get groups (pair_key r)) [] ++ (r ∷ [])))
        contested

  -- The two members in the order of `recorded_at`, or none if there are not two.
  unfoldable pub older_newer :
      List (RelationRecord F) → Option (RelationRecord F × RelationRecord F)
  older_newer (a ∷ b ∷ []) = some (if ltb b.recorded_at a.recorded_at then (b, a) else (a, b))
  older_newer _ = none

-- The state of the loop: the graph, the recorder and the counts so far.
pub record Pass (F : Type 0) : Type 0 where
  pub graph : Graph F
  pub recorder : AuditRecorder (Fields F)
  pub summary : RuminationSummary

module _ {F : Type 0} where
  abbrev pub skip_ambiguous : Pass F → Pass F
  skip_ambiguous p = record p {
    summary = record p.summary { pairs_skipped_ambiguous = p.summary.pairs_skipped_ambiguous + 1 };
  }

  abbrev pub examine : Pass F → Pass F
  examine p = record p {
    summary = record p.summary { pairs_examined = p.summary.pairs_examined + 1 };
  }

  abbrev pub skip_young : Pass F → Pass F
  skip_young p = record p {
    summary = record p.summary { pairs_skipped_too_young = p.summary.pairs_skipped_too_young + 1 };
  }

  abbrev pub resolved_to : Graph F → AuditRecorder (Fields F) → Pass F → Pass F
  resolved_to g recorder p = record {
    graph = g;
    recorder = recorder;
    summary = record p.summary { pairs_resolved = p.summary.pairs_resolved + 1 };
  }

module _ {F : Type 0} ⦃fl : Float F⦄ (h : Hashing (Fields F)) (clock : ℕ → ℕ)
    (s : PassSettings F) where
  abbrev pub too_young : RelationRecord F → Bool
  too_young newer =
      not s.force
      && fl.lt (fl.div (fl.seconds s.now newer.recorded_at) (fl.of_ℕ 3600)) s.min_contest_age_hours

  -- `resolve_contest` and the entry of the audit log
  unfoldable pub settle_pair : Pass F → String → String → String → Result NotFound (Pass F)
  unfolding resolve_contest record_entry
  settle_pair p namespace winner_id loser_id = do
    g ← resolve_contest p.graph namespace winner_id loser_id s.now
    ok (
        resolved_to g
          (record_entry h end (clock p.summary.pairs_resolved) p.recorder namespace
            "ruminate_resolve" "relation" (some winner_id)
            (some (field "loser_id" (text loser_id) end)) none)
          p)

  abbrev pub act : Pass F → String → ReconciliationDecision → Result NotFound (Pass F)
  act p namespace still_contested = ok p
  act p namespace (resolve winner_id loser_id) = settle_pair p namespace winner_id loser_id

  abbrev pub pair_step :
      RetentionParams F
      → Pass F
      → String
      → Option (RelationRecord F × RelationRecord F)
      → Result NotFound (Pass F)
  pair_step decay_params p namespace none = ok (skip_ambiguous p)
  pair_step decay_params p namespace (some (older, newer)) =
      if too_young newer
      then ok (skip_young (examine p))
      else act (examine p) namespace
          (decide_reconciliation older newer s.now decay_params s.supersede_margin)

  -- the loop over the groups
  unfoldable pub ruminate_groups : RetentionParams F → Pass F → Pairs F → Result NotFound (Pass F)
  unfolding older_newer settle_pair decide_reconciliation
  ruminate_groups decay_params p [] = ok p
  ruminate_groups decay_params p (((namespace, (subject, predicate)), members) ∷ groups) =
      elim (pair_step decay_params p namespace (older_newer members)) [
        | raise e ↦ raise e
        | ok p' ↦ ruminate_groups decay_params p' groups
      ]

  abbrev pub starting : Graph F → AuditRecorder (Fields F) → Pass F
  starting graph recorder = record {
    graph = graph;
    recorder = recorder;
    summary = record {
      pairs_examined = 0;
      pairs_resolved = 0;
      pairs_skipped_too_young = 0;
      pairs_skipped_ambiguous = 0;
    };
  }

  abbrev pub ruminated : Result NotFound (Pass F) → Result Fault (Pass F)
  ruminated (raise e) = raise (missing e)
  ruminated (ok p) = ok p

  -- the summary is in the state that the pass leaves
  unfoldable pub run_rumination_pass :
      Graph F → AuditRecorder (Fields F) → Option String → Result Fault (Pass F)
  unfolding ruminate_groups group_pairs list_contested init
  run_rumination_pass graph recorder namespace =
      let groups = group_pairs [] (list_contested graph namespace) in
      elim (init s.decay_base_stability_days) [
        | raise e ↦ raise (value_error e)
        | ok decay_params ↦
            ruminated (ruminate_groups decay_params (starting graph recorder) groups)
      ]
