-- ===== src/Tests/Distill.antt =====
-- A pass over two similar episodes of one session, with an embedding provider that is down.
use rootmem.Base.{
  ℕ, String, ◌≡◌, refl, Option, none, some, true, [], ◌∷◌, Result, ok, raise, All, arith,
}
use rootmem.Base.Dict
use rootmem.Base.Json.{end}
use rootmem.Tests.Numbers.{number, number-IsOrdered, number-IsMonotone}
use rootmem.Tests.Memory.{plain}
use rootmem.Tests.Graph.{settings, settings_admitted, contested_graph, contested_graph-IsGraph}
use rootmem.Tests.Extraction.{supply, supply-IsDistinct, facts}
use rootmem.Embedding.{embedding_error}
use rootmem.Memory.Models.{MemoryRecord, success, failure, Outcome}
use rootmem.Memory.Repository.{stored}
use rootmem.Memory.Creation.{IsStore}
use rootmem.Extraction.Models.{ExtractionResult, object_present_and_consistent}
use rootmem.Extraction.Pipeline.Relations.{IsExtracted}
use rootmem.Consolidation.Trigger.{by_hand, ConsolidationRun}
use rootmem.Consolidation.Distill.State.{DistillationError, procedural_error, Services, Stores}
use rootmem.Consolidation.Distill.{run_consolidation, decision_for, maybe_run_consolidation}
use rootmem.Consolidation.Traces.{SessionTrace}
use rootmem.Consolidation.Distill.Skills.{by_session, traces_named}
use rootmem.Memory.Vectors.{IsEmbedded}
use rootmem.Consolidation.Distill.Served.{IsServed, IsWritable}
use rootmem.Consolidation.Distill.Pass.{IsCompleted, run_consolidation-IsCompleted}
use rootmem.Consolidation.Distill.Due.{IsAnswer, ticked, maybe_run_consolidation-IsAnswer}

abbrev services : Services ℕ
services = record {
  text = plain;
  supply = supply;
  settings = record {
    consolidation_batch_size = 500;
    novelty_neighbor_sample_size = 5;
    salience = record {
      novelty = 1;
      importance = 1;
      repetition = 1;
      task_relevance = 1;
      repetition_similarity_threshold = 1;
      repetition_saturation_count = 3;
    };
    distillation_similarity_threshold = 1;
    distillation_min_cluster_size = 2;
    procedural_min_session_length = 2;
    procedural_session_similarity_threshold = 1;
    procedural_min_recurrence = 2;
    lesson_min_recurrence = 1;
    skill_name_max_length = 64;
    skill_description_max_length = 1024;
    trigger = record { episode_threshold = 20; time_window_hours = 24 };
    belief = settings;
  };
  distillation = record { distill = λ texts context. ok facts };
  embedding = record { embed = λ texts. raise (embedding_error "down") };
  procedural = record { distill_procedure = λ steps context. raise (procedural_error "down") };
}

abbrev episode : String → MemoryRecord ℕ
episode id = stored id 1 (record {
  namespace = "default";
  key = none;
  idempotency_key = none;
  content = "the sky holds the sun";
  content_embedding = some (1 ∷ []);
  source = "cli";
  source_session_id = some "s";
  confidence = 1;
  importance_flag = 0;
  session_outcome = some success;
  metadata = end;
})

abbrev stores : Stores ℕ
stores = record {
  memories = ("m1", episode "m1") ∷ ("m2", episode "m2") ∷ [];
  graph = contested_graph;
  runs = [];
  procedures = record { records = []; provenance = [] };
  drawn = 0;
}

served : IsServed number-IsOrdered number-IsMonotone services 1
unfolding object_present_and_consistent
served = record {
  belief = settings_admitted;
  min_cluster = omega arith;
  distinct = supply-IsDistinct;
  each = λ texts vectors q. cc q;
  vectors = λ texts vectors q. cc q;
  distilled = λ texts context found q. valid found q;
}
  where
    valid :
        (found : ExtractionResult ℕ)
        → ◌≡◌ {A = Result DistillationError (ExtractionResult ℕ)} (ok facts) (ok found)
        → All (IsExtracted number-IsOrdered number-IsMonotone) found.relations
    valid found q = let p : facts ≡ found = cc q in rw (← p) ((refl, (refl, refl)), tt)

store : IsStore stores.memories
unfolding Dict.get
store = (refl, refl, (refl, refl, tt))

one_dimension : (id : String) → IsEmbedded 1 (episode id)
one_dimension id v q = let p : (1 ∷ []) ≡ v = cc q in rw (← p) refl

writable : IsWritable number-IsOrdered number-IsMonotone services stores
unfolding Dict.get
writable = record {
  graph = contested_graph-IsGraph;
  entities = tt;
  unused = λ n le. refl;
  procedures = record { keyed = tt; one_active = λ i j r s g. cc g };
}

run_consolidation-IsCompleted_example :
    (r : Stores ℕ × ConsolidationRun) × (run_consolidation services stores "default" by_hand ≡ ok r)
    × IsCompleted number-IsOrdered number-IsMonotone services 1 served stores "default" by_hand r
run_consolidation-IsCompleted_example =
    run_consolidation-IsCompleted number-IsOrdered number-IsMonotone services 1 served stores
      "default" by_hand store (one_dimension "m1", (one_dimension "m2", tt)) writable

maybe_run_consolidation-IsAnswer_example :
    (r : Stores ℕ × Option ConsolidationRun) × (maybe_run_consolidation services stores "default"
        true
      ≡ ok r)
    × IsAnswer number-IsOrdered number-IsMonotone services 1 served
        (ticked number-IsOrdered number-IsMonotone services 1 served stores)
        "default"
        (decision_for services stores "default" true)
        r
maybe_run_consolidation-IsAnswer_example =
    maybe_run_consolidation-IsAnswer number-IsOrdered number-IsMonotone services 1 served stores
      "default" true store (one_dimension "m1", (one_dimension "m2", tt)) writable

abbrev trace : Outcome → SessionTrace
trace outcome = record {
  session_id = "s";
  outcome = outcome;
  memory_ids = [];
  steps = [];
  summary_text = "";
}

-- One session with both outcomes: its name stands for the trace that comes last.
both_outcomes :
    traces_named (by_session [] (trace success ∷ trace failure ∷ [])) ("s" ∷ [])
    ≡ ok (trace failure ∷ [])
unfolding traces_named by_session Dict.get Dict.put
both_outcomes = refl
