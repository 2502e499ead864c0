-- ===== src/Consolidation/Distill.antt =====
-- src/rootmem/consolidation/distill.py: one pass, and the check that comes before it.
pub mod State
pub mod Facts
pub mod Skills
pub mod Pairs
pub mod Served
pub mod Distilled
pub mod Lessons
pub mod Stage
pub mod Marks
pub mod Pass
pub mod Due
use rootmem.Base.{
  ℕ, ◌+◌, suc, String, Bool, Option, none, some, List, [], ◌∷◌, Result, ok, raise, ◌>>=◌, length,
  map, keep, if◌then◌else◌, leb,
}
use rootmem.Base.Float.{Float}
use rootmem.Memory.Models.{MemoryRecord}
use rootmem.Memory.Repository.{count_unconsolidated, list_unconsolidated, mark_consolidated}
use rootmem.Memory.Repository.Search.{find_similar_pairs}
use rootmem.Consolidation.Runs.{Runs, start_run, complete_run, get_last_run, Counts}
use rootmem.Consolidation.Trigger.{
  TriggerReason, ConsolidationRun, ConsolidationDecision, should_consolidate,
}
use rootmem.Consolidation.Distill.State.{
  Services, Stores, Fault, no_run, value_error, assertion_error,
}
use rootmem.Consolidation.Distill.Facts.{
  similarities_by_memory, by_id, score_episodes, distill_facts,
}
use rootmem.Consolidation.Distill.Skills.{clusters_of, distill_procedural_memories}

abbrev pub nothing_done : Counts
nothing_done = record {
  episodes_processed = 0;
  clusters_formed = 0;
  facts_distilled = 0;
  procedures_distilled = 0;
  lessons_distilled = 0;
}

module _ {F : Type 0} ⦃fl : Float F⦄ (services : Services F) where
  -- `return await consolidation_repository.complete_run(...)`
  unfoldable pub finish : Stores F → String → Counts → Result Fault (Stores F × ConsolidationRun)
  unfolding complete_run
  finish s run_id counts =
      elim (complete_run (services.supply.clock s.drawn) s.runs run_id counts) [
        | raise e ↦ raise (no_run e)
        | ok (runs, run) ↦ ok (record s { runs = runs; drawn = suc s.drawn }, run)
      ]

  abbrev pub similar_pairs :
      Stores F → String → List String → Result Fault (List (String × String × F))
  similar_pairs s namespace memory_ids =
      elim (find_similar_pairs s.memories namespace memory_ids (fl.of_ℕ 0)) [
        | raise e ↦ raise (value_error e)
        | ok pairs ↦ ok pairs
      ]

  abbrev pub mark : Stores F → List String → Stores F
  mark s memory_ids = record s {
    memories = mark_consolidated s.memories memory_ids (services.supply.clock s.drawn);
    drawn = suc s.drawn;
  }

  abbrev pub score : Stores F → List (String × String × F) → List (MemoryRecord F) → Stores F
  score s pairs episodes = record s {
    memories = score_episodes services s.memories (similarities_by_memory [] pairs) episodes;
  }

  -- A pass over at least one episode.
  unfoldable pub process :
      Stores F
      → String
      → String
      → List (MemoryRecord F)
      → Result Fault (Stores F × ConsolidationRun)
  unfolding find_similar_pairs similarities_by_memory score_episodes distill_facts
      distill_procedural_memories mark_consolidated finish
  process s run_id namespace episodes =
      let memory_ids = map (λ (e : MemoryRecord F). e.id) episodes in
      do
        pairs ← similar_pairs s namespace memory_ids
        clusters ←
            clusters_of services memory_ids pairs
              services.settings.distillation_similarity_threshold
        facts ←
            distill_facts services (score s pairs episodes, 0) namespace (by_id [] episodes)
              clusters
        stage ← distill_procedural_memories services facts.0 namespace episodes
        finish (mark stage.0 memory_ids) run_id (record {
          episodes_processed = length episodes;
          clusters_formed = length (keep (λ c. leb 2 (length c)) clusters);
          facts_distilled = facts.1;
          procedures_distilled = stage.1.0;
          lessons_distilled = stage.1.1;
        })

  -- after `start_run`
  abbrev pub begun : Stores F → Runs → Stores F
  begun s runs = record s { runs = runs; drawn = suc s.drawn }

  unfoldable pub run_consolidation :
      Stores F → String → TriggerReason → Result Fault (Stores F × ConsolidationRun)
  unfolding start_run list_unconsolidated finish process
  run_consolidation s namespace trigger_reason =
      let started =
        start_run (services.supply.uuid s.drawn) (services.supply.clock s.drawn) s.runs namespace
          trigger_reason in
      elim (list_unconsolidated s.memories namespace services.settings.consolidation_batch_size) [
        | [] ↦ finish (begun s started.0) started.1.id nothing_done
        | e ∷ episodes ↦ process (begun s started.0) started.1.id namespace (e ∷ episodes)
      ]

  -- `assert decision.trigger_reason is not None`
  abbrev pub run_if :
      Stores F → String → Option TriggerReason → Result Fault (Stores F × Option ConsolidationRun)
  run_if s namespace none = raise assertion_error
  run_if s namespace (some reason) =
      run_consolidation s namespace reason >>= λ r. ok (r.0, some r.1)

  abbrev pub decision_for : Stores F → String → Bool → ConsolidationDecision
  decision_for s namespace force =
      should_consolidate (count_unconsolidated s.memories namespace) (get_last_run s.runs namespace)
        (services.supply.clock s.drawn) services.settings.trigger force

  abbrev pub run_decided :
      Stores F → String → ConsolidationDecision → Result Fault (Stores F × Option ConsolidationRun)
  run_decided s namespace decision =
      if decision.should_run then run_if s namespace decision.trigger_reason else ok (s, none)

  unfoldable pub maybe_run_consolidation :
      Stores F → String → Bool → Result Fault (Stores F × Option ConsolidationRun)
  unfolding count_unconsolidated get_last_run should_consolidate run_consolidation
  maybe_run_consolidation s namespace force =
      run_decided (record s { drawn = suc s.drawn }) namespace (decision_for s namespace force)
