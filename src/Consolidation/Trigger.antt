-- ===== src/Consolidation/Trigger.antt =====
-- src/rootmem/consolidation/trigger.py: whether a consolidation pass is due.
pub mod Due
use rootmem.Base.{ℕ, Bool, true, false, Option, none, some, if◌then◌else◌, leb, String}
use rootmem.Base.Float.{Float}

pub record TriggerSettings (F : Type 0) : Type 0 where
  pub episode_threshold : ℕ
  pub time_window_hours : F

pub data TriggerReason : Type 0 where
  by_count by_time by_hand : TriggerReason

pub record ConsolidationDecision : Type 0 where
  pub should_run : Bool
  pub trigger_reason : Option TriggerReason

-- src/rootmem/storage/consolidation_protocols.py
pub record ConsolidationRun : Type 0 where
  pub id : String
  pub namespace : String
  pub trigger_reason : TriggerReason
  pub started_at : ℕ
  pub completed_at : Option ℕ
  pub episodes_processed : ℕ
  pub clusters_formed : ℕ
  pub facts_distilled : ℕ
  pub procedures_distilled : ℕ
  pub lessons_distilled : ℕ

abbrev pub run_for : TriggerReason → ConsolidationDecision
run_for reason = record { should_run = true; trigger_reason = some reason }

module _ {F : Type 0} ⦃fl : Float F⦄ where
  abbrev pub window_passed : TriggerSettings F → ℕ → ConsolidationRun → Bool
  window_passed settings now last_run =
      fl.le settings.time_window_hours (fl.div (fl.seconds now last_run.started_at) (fl.of_ℕ 3600))

  abbrev pub by_last_run : TriggerSettings F → ℕ → Option ConsolidationRun → ConsolidationDecision
  by_last_run settings now none = run_for by_time
  by_last_run settings now (some last_run) =
      if window_passed settings now last_run
      then run_for by_time
      else record { should_run = false; trigger_reason = none }

  unfoldable pub should_consolidate :
      ℕ → Option ConsolidationRun → ℕ → TriggerSettings F → Bool → ConsolidationDecision
  should_consolidate unconsolidated_count last_run now settings force =
      if force
      then run_for by_hand
      else if leb settings.episode_threshold unconsolidated_count
      then run_for by_count
      else by_last_run settings now last_run
