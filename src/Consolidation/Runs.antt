-- ===== src/Consolidation/Runs.antt =====
-- `InMemoryConsolidationRepository`: the record of consolidation passes.
pub mod Latest
use rootmem.Base.{
  ℕ, String, ◌==◌, Option, none, some, List, [], ◌∷◌, if◌then◌else◌, string_eq, keep, ltb, Result,
  ok, raise,
}
use rootmem.Base.Dict
use rootmem.Base.Dict.{Dict, values}
use rootmem.Consolidation.Trigger.{ConsolidationRun, TriggerReason}

pub data NotFound : Type 0 where
  not_found : NotFound

abbrev pub Runs : Type 0
Runs = Dict String ConsolidationRun

abbrev pub started : String → ℕ → String → TriggerReason → ConsolidationRun
started fresh now namespace reason = record {
  id = fresh;
  namespace = namespace;
  trigger_reason = reason;
  started_at = now;
  completed_at = none;
  episodes_processed = 0;
  clusters_formed = 0;
  facts_distilled = 0;
  procedures_distilled = 0;
  lessons_distilled = 0;
}

unfoldable pub start_run : String → ℕ → Runs → String → TriggerReason → Runs × ConsolidationRun
start_run fresh now runs namespace reason =
    let run = started fresh now namespace reason in (Dict.put runs fresh run, run)

-- What a finished pass reports.
pub record Counts : Type 0 where
  pub episodes_processed : ℕ
  pub clusters_formed : ℕ
  pub facts_distilled : ℕ
  pub procedures_distilled : ℕ
  pub lessons_distilled : ℕ

abbrev pub completed : ℕ → Counts → ConsolidationRun → ConsolidationRun
completed now counts run = record run {
  completed_at = some now;
  episodes_processed = counts.episodes_processed;
  clusters_formed = counts.clusters_formed;
  facts_distilled = counts.facts_distilled;
  procedures_distilled = counts.procedures_distilled;
  lessons_distilled = counts.lessons_distilled;
}

unfoldable pub complete_run : ℕ → Runs → String → Counts → Result NotFound (Runs × ConsolidationRun)
complete_run now runs run_id counts = elim (Dict.get runs run_id) [
  | none ↦ raise not_found
  | some run ↦ ok (Dict.put runs run_id (completed now counts run), completed now counts run)
]

-- `max(candidates, key=started_at)`: the first of the latest
unfoldable pub latest : ConsolidationRun → List ConsolidationRun → ConsolidationRun
latest best [] = best
latest best (run ∷ runs) = latest (if ltb best.started_at run.started_at then run else best) runs

abbrev pub latest_of : List ConsolidationRun → Option ConsolidationRun
latest_of [] = none
latest_of (run ∷ runs) = some (latest run runs)

unfoldable pub get_last_run : Runs → String → Option ConsolidationRun
unfolding latest
get_last_run runs namespace = latest_of (keep (λ run. run.namespace == namespace) (values runs))
