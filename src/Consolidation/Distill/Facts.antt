-- ===== src/Consolidation/Distill/Facts.antt =====
-- The episodic-to-semantic stage of src/rootmem/consolidation/distill.py: salience, clusters of
-- episodes, and the facts that are distilled from them.
use rootmem.Base.{
  ℕ, suc, String, none, some, List, [], ◌∷◌, ◌++◌, Result, ok, raise, ◌>>=◌, length, take, cons_ok,
  if◌then◌else◌, string_eq, ltb,
}
use mathlib.Core.Option
use rootmem.Base.Dict
use rootmem.Base.Dict.{Dict}
use rootmem.Base.Float.{Float}
use rootmem.Memory.Models.{MemoryRecord}
use rootmem.Memory.Repository.{Records, update_salience}
use rootmem.Graph.Models.{distilled}
use rootmem.Extraction.Models.{ExtractionResult}
use rootmem.Extraction.Pipeline.{Call, Progress, apply_extraction}
use rootmem.Consolidation.Salience.{compute_novelty, compute_repetition, compute_salience}
use rootmem.Consolidation.Distill.State.{Services, Stores, Fault, key_error, refused}

module _ {F : Type 0} where
  -- `similarities_by_memory[id].append(similarity)` of a `defaultdict(list)`
  abbrev pub append_similarity : Dict String (List F) → String → F → Dict String (List F)
  append_similarity d id similarity =
      Dict.put d id (Option.get_or (Dict.get d id) [] ++ (similarity ∷ []))

  unfoldable pub similarities_by_memory :
      Dict String (List F) → List (String × String × F) → Dict String (List F)
  similarities_by_memory d [] = d
  similarities_by_memory d ((id_a, id_b, similarity) ∷ pairs) =
      similarities_by_memory
        (append_similarity (append_similarity d id_a similarity) id_b similarity) pairs

  -- `[episodes_by_id[memory_id].content for memory_id in cluster]`
  unfoldable pub contents : Dict String (MemoryRecord F) → List String → Result Fault (List String)
  contents episodes_by_id [] = ok []
  contents episodes_by_id (memory_id ∷ cluster) =
      let rest = contents episodes_by_id cluster in
      elim (Dict.get episodes_by_id memory_id) [
        | none ↦ raise key_error
        | some e ↦ cons_ok e.content rest
      ]

  -- `{e.id: e for e in episodes}`
  unfoldable pub by_id :
      Dict String (MemoryRecord F) → List (MemoryRecord F) → Dict String (MemoryRecord F)
  by_id d [] = d
  by_id d (e ∷ episodes) = by_id (Dict.put d e.id e) episodes

  abbrev pub call_for : Services F → String → List String → Call F
  call_for services namespace cluster = record {
    text = services.text;
    supply = services.supply;
    settings = services.settings.belief;
    namespace = namespace;
    source_memory_ids = cluster;
    derivation = distilled;
  }

  abbrev pub after_facts : Stores F → Progress F → Stores F
  after_facts s p = record s { graph = p.graph; drawn = p.drawn }

module _ {F : Type 0} ⦃fl : Float F⦄ (services : Services F) where
  abbrev pub salience_of : Dict String (List F) → MemoryRecord F → F
  salience_of similarities episode =
      let neighbors =
        take services.settings.novelty_neighbor_sample_size
          (Option.get_or (Dict.get similarities episode.id) []) in
      compute_salience (compute_novelty neighbors) episode.importance_flag
        (compute_repetition neighbors services.settings.salience) (fl.of_ℕ 0)
        services.settings.salience

  -- the loop over `episodes`
  unfoldable pub score_episodes :
      Records F → Dict String (List F) → List (MemoryRecord F) → Records F
  unfolding compute_salience compute_novelty compute_repetition update_salience
  score_episodes records similarities [] = records
  score_episodes records similarities (e ∷ episodes) =
      score_episodes (update_salience records e.id (salience_of similarities e)) similarities
        episodes

  unfoldable pub apply_facts :
      Stores F → String → List String → ExtractionResult F → Result Fault (Stores F)
  unfolding apply_extraction
  apply_facts s namespace cluster facts =
      elim (apply_extraction (call_for services namespace cluster) s.graph s.drawn facts) [
        | raise e ↦ raise (refused e)
        | ok applied ↦ ok (after_facts s applied.0)
      ]

  -- The stores after one cluster, and the number of facts.
  unfoldable pub distill_cluster :
      Stores F × ℕ → String → List String → List String → Result Fault (Stores F × ℕ)
  unfolding apply_facts
  distill_cluster (s, n) namespace cluster texts =
      elim (services.distillation.distill texts (record { namespace = namespace })) [
        | raise e ↦ ok (s, n)
        | ok facts ↦ apply_facts s namespace cluster facts >>= λ s'. ok (s', suc n)
      ]

  -- the loop over `clusters`
  unfoldable pub distill_facts :
      Stores F × ℕ
      → String
      → Dict String (MemoryRecord F)
      → List (List String)
      → Result Fault (Stores F × ℕ)
  unfolding contents distill_cluster
  distill_facts r namespace episodes_by_id [] = ok r
  distill_facts r namespace episodes_by_id (cluster ∷ clusters) = do
    after ←
        (if ltb (length cluster) services.settings.distillation_min_cluster_size
          then ok r
          else (contents episodes_by_id cluster >>= distill_cluster r namespace cluster))
    distill_facts after namespace episodes_by_id clusters
