-- ===== src/Consolidation/Distill/Pass.antt =====
-- What `run_consolidation` of src/rootmem/consolidation/distill.py leaves.
use rootmem.Base.{
  ℕ, ◌≤◌, String, ◌≡◌, refl, sym, ◌∙◌, true, some, List, [], ◌∷◌, string_eq, ok, arith, All,
  All-map_imp, All-All, All-In, In-map, bind_ok, length, map, keep, leb,
}
use rootmem.Base.Dict
use rootmem.Base.Dict.{Dict, values, get-put_self}
use rootmem.Base.Float.{Float, IsOrdered, IsMonotone}
use rootmem.Memory.Models.{MemoryRecord, is_some}
use rootmem.Memory.Repository.{list_unconsolidated}
use rootmem.Memory.Creation.{IsStore}
use rootmem.Memory.Salience.{mark_consolidated-IsStore}
use rootmem.Consolidation.Clustering.Similarity.{cluster_by_similarity-IsPartition}
use rootmem.Consolidation.Runs.{Runs, Counts, started, start_run}
use rootmem.Consolidation.Trigger.{TriggerReason, ConsolidationRun}
use rootmem.Consolidation.Distill.State.{Services, Stores}
use rootmem.Consolidation.Distill.Facts.{similarities_by_memory, by_id}
use rootmem.Consolidation.Distill.{
  nothing_done, begun, finish, mark, score, process, run_consolidation,
}
use rootmem.Consolidation.Distill.Pairs.{find_similar_pairs-Among}
use rootmem.Memory.Vectors.{IsEmbedded}
use rootmem.Consolidation.Distill.Served.{IsServed, IsWritable}
use rootmem.Consolidation.Distill.Distilled.{IsHeld, by_id-Held, distill_facts-ok}
use rootmem.Consolidation.Distill.Stage.{clusters_of-ok, distill_procedural_memories-ok}
use rootmem.Consolidation.Distill.Marks.{
  episode_id, IsHere, IsMarked, finished, list_unconsolidated-stored, score_episodes-IsHere,
  score_episodes-IsStore, marked_all, finish-ok, similar_pairs-ok,
}

module _ {F : Type 0} ⦃fl : Float F⦄ (o : IsOrdered F) (m : IsMonotone F) (services : Services F)
    (dimension : ℕ) (served : IsServed o m services dimension) where
  -- What a pass leaves, and the run that it returns.
  pub record IsCompleted (s : Stores F) (namespace : String) (reason : TriggerReason)
      (r : Stores F × ConsolidationRun) : Type 0 where
    pub recorded : Dict.get r.0.runs r.1.id ≡ some r.1
    pub completed : is_some r.1.completed_at ≡ true
    pub owner : r.1.namespace ≡ namespace
    pub trigger : r.1.trigger_reason ≡ reason
    pub counted :
        r.1.episodes_processed
        ≡ length
            (list_unconsolidated s.memories namespace services.settings.consolidation_batch_size)
    pub bounded : r.1.facts_distilled ≤ r.1.clusters_formed
    pub marked :
        All
          (IsMarked services r.0.memories)
          (list_unconsolidated s.memories namespace services.settings.consolidation_batch_size)
    pub store : IsStore r.0.memories
    pub writable : IsWritable o m services r.0

  process-IsCompleted :
      (s s0 : Stores F) (fresh : String) (now : ℕ) (namespace : String) (reason : TriggerReason)
      (episodes : List (MemoryRecord F))
      → list_unconsolidated s0.memories namespace services.settings.consolidation_batch_size
        ≡ episodes
      → All (IsHere s.memories) episodes
      → Dict.get s.runs fresh ≡ some (started fresh now namespace reason)
      → IsStore s.memories
      → All (IsEmbedded dimension) (values s.memories)
      → IsWritable o m services s
      → (r : Stores F × ConsolidationRun) × (process services s fresh namespace episodes ≡ ok r)
        × IsCompleted s0 namespace reason r
  unfolding process
  process-IsCompleted s s0 fresh now namespace reason episodes listed here_ run store vectors w =
      let ids = map episode_id episodes in
      let (pairs, q, among) =
        find_similar_pairs-Among dimension s.memories namespace ids (fl.of_ℕ 0) store vectors in
      let (clusters, q1, parts) =
        cluster_by_similarity-IsPartition services.settings.distillation_similarity_threshold pairs
          ids among in
      let held =
        All-All (IsHeld (by_id [] episodes)) clusters
          (λ a c ic ia. by_id-Held episodes [] a (parts.2 a c ic ia)) in
      let scored = score services s pairs episodes in
      let (facts, q2, step) =
        distill_facts-ok o m services dimension served (scored, 0) namespace (by_id [] episodes)
          clusters held
          (record {
            graph = w.graph;
            entities = w.entities;
            unused = w.unused;
            procedures = w.procedures;
          }) in
      let (stage, q3, written, same) =
        distill_procedural_memories-ok o m services dimension served facts.0 namespace episodes
          step.writable in
      let memories = same.memories ∙ step.same.memories in
      let runs : Dict.get stage.0.runs fresh ≡ some (started fresh now namespace reason) =
        rw (same.runs ∙ step.same.runs) run in
      let similarities = similarities_by_memory [] pairs in
      let kept =
        All-map_imp (λ e h. score_episodes-IsHere services s.memories similarities episodes e h)
          episodes here_ in
      let here' = rw (sym memories) at kept in
      let done =
        marked_all services stage.0.memories ids (services.supply.clock stage.0.drawn) episodes
          (All-map_imp (λ e i. In-map episode_id e episodes i) episodes (All-In episodes)) here' in
      let counts : Counts = record {
        episodes_processed = length episodes;
        clusters_formed = length (keep (λ c. leb 2 (length c)) clusters);
        facts_distilled = facts.1;
        procedures_distilled = stage.1.0;
        lessons_distilled = stage.1.1;
      } in
      (
        finished services (mark services stage.0 ids) fresh counts
            (started fresh now namespace reason),
        bind_ok _ _ (similar_pairs-ok services s namespace ids q) (
            bind_ok _ _ (clusters_of-ok services ids pairs _ q1) (
              bind_ok _ _ q2 (
                bind_ok _ _ q3 (
                  finish-ok services (mark services stage.0 ids) fresh counts
                    (started fresh now namespace reason) runs)))),
        record {
          recorded = get-put_self stage.0.runs fresh _;
          completed = refl;
          owner = refl;
          trigger = refl;
          counted = rw listed refl;
          bounded = omega (arith, step.bounded);
          marked = rw listed done;
          store =
              mark_consolidated-IsStore stage.0.memories ids (services.supply.clock stage.0.drawn) (
                rw memories
                  (score_episodes-IsStore services s.memories similarities episodes store));
          writable = record {
            graph = written.graph;
            entities = written.entities;
            unused = λ n le. written.unused n (omega (arith, le));
            procedures = written.procedures;
          };
        },
      )

  empty-IsCompleted :
      (s s0 : Stores F) (fresh : String) (now : ℕ) (namespace : String) (reason : TriggerReason)
      → list_unconsolidated s0.memories namespace services.settings.consolidation_batch_size ≡ []
      → Dict.get s.runs fresh ≡ some (started fresh now namespace reason)
      → IsStore s.memories
      → IsWritable o m services s
      → (r : Stores F × ConsolidationRun) × (finish services s fresh nothing_done ≡ ok r)
        × IsCompleted s0 namespace reason r
  empty-IsCompleted s s0 fresh now namespace reason listed run store w = (
    finished services s fresh nothing_done (started fresh now namespace reason),
    finish-ok services s fresh nothing_done (started fresh now namespace reason) run,
    record {
      recorded = get-put_self s.runs fresh _;
      completed = refl;
      owner = refl;
      trigger = refl;
      counted = rw listed refl;
      bounded = omega arith;
      marked = rw listed tt;
      store = store;
      writable = record {
        graph = w.graph;
        entities = w.entities;
        unused = λ n le. w.unused n (omega (arith, le));
        procedures = w.procedures;
      };
    },
  )

  begun-IsWritable :
      (s : Stores F) (runs : Runs)
      → IsWritable o m services s
      → IsWritable o m services (begun services s runs)
  begun-IsWritable s runs w = record {
    graph = w.graph;
    entities = w.entities;
    unused = λ n le. w.unused n (omega (arith, le));
    procedures = w.procedures;
  }

  -- Where the rows are as they should be, all embeddings have one dimension, and the services keep
  -- their protocols, `run_consolidation` returns, whatever call of a provider fails. The run that it
  -- returns is stored as completed, with the namespace, the reason and the number of episodes; each
  -- episode of the batch is marked as consolidated and keeps its content; there are at most as many
  -- distilled facts as clusters of two or more, and the rows stay well-formed.
  pub run_consolidation-IsCompleted :
      (s : Stores F) (namespace : String) (reason : TriggerReason)
      → IsStore s.memories
      → All (IsEmbedded dimension) (values s.memories)
      → IsWritable o m services s
      → (r : Stores F × ConsolidationRun) × (run_consolidation services s namespace reason ≡ ok r)
        × IsCompleted s namespace reason r
  unfolding run_consolidation start_run
  run_consolidation-IsCompleted s namespace reason store vectors w =
      by_batch (list_unconsolidated s.memories namespace services.settings.consolidation_batch_size)
        refl
    where
      by_batch :
          (episodes : List (MemoryRecord F))
          → list_unconsolidated s.memories namespace services.settings.consolidation_batch_size
            ≡ episodes
          → (r : Stores F × ConsolidationRun) × (run_consolidation services s namespace reason
              ≡ ok r)
            × IsCompleted s namespace reason r
      by_batch [] listed =
          let fresh = services.supply.uuid s.drawn in
          let now = services.supply.clock s.drawn in
          let runs = Dict.put s.runs fresh (started fresh now namespace reason) in
          let (r, q, done) =
            empty-IsCompleted (begun services s runs) s fresh now namespace reason listed
              (get-put_self s.runs fresh (started fresh now namespace reason)) store
              (begun-IsWritable s runs w) in
          (r, rw (listed, run_consolidation) q, done)
      by_batch (e ∷ episodes) listed =
          let fresh = services.supply.uuid s.drawn in
          let now = services.supply.clock s.drawn in
          let runs = Dict.put s.runs fresh (started fresh now namespace reason) in
          let (r, q, done) =
            process-IsCompleted (begun services s runs) s fresh now namespace reason (e ∷ episodes)
              listed
              (rw listed at (
                list_unconsolidated-stored s.memories namespace
                  services.settings.consolidation_batch_size store))
              (get-put_self s.runs fresh (started fresh now namespace reason)) store vectors
              (begun-IsWritable s runs w) in
          (r, rw (listed, run_consolidation) q, done)
