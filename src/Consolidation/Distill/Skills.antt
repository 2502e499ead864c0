-- ===== src/Consolidation/Distill/Skills.antt =====
-- The episodic-to-procedural stage of src/rootmem/consolidation/distill.py: skills from recurring
-- successes, lessons from failures.
use rootmem.Base.{
  ℕ, suc, String, Bool, true, false, ◌==◌, none, some, List, [], ◌∷◌, Result, ok, raise, ◌>>=◌,
  length, map, keep, cons_ok, if◌then◌else◌, string_eq, ltb,
}
use rootmem.Base.Dict
use rootmem.Base.Dict.{Dict, keys}
use rootmem.Base.Float.{Float}
use rootmem.Memory.Models.{MemoryRecord, success, failure}
use rootmem.Procedural.Models.{Kind, skill, lesson, NewProceduralMemory}
use rootmem.Procedural.Repository.{Procedures, create, link_provenance}
use rootmem.Consolidation.Clustering.{cluster_by_similarity}
use rootmem.Consolidation.SkillFormat.{
  SkillDraft, SkillFormatError, validate_skill_name, validate_skill_description,
}
use rootmem.Consolidation.Traces.{SessionTrace, outcome_eq, group_session_traces, build_trace_pairs}
use rootmem.Consolidation.Distill.State.{
  Services, Stores, Fault, key_error, unequal_lengths, value_error, clustering,
}

-- `{t.session_id: t for t in traces}`
unfoldable pub by_session : Dict String SessionTrace → List SessionTrace → Dict String SessionTrace
by_session d [] = d
by_session d (t ∷ traces) = by_session (Dict.put d t.session_id t) traces

-- `d[key]`
abbrev pub lookup : {V : Type 0} → Dict String V → String → Result Fault V
lookup d k = elim (Dict.get d k) [ none ↦ raise key_error | some v ↦ ok v ]

-- `[traces_by_session_id[session_id] for session_id in cluster]`
unfoldable pub traces_named :
    Dict String SessionTrace → List String → Result Fault (List SessionTrace)
traces_named d [] = ok []
traces_named d (session_id ∷ cluster) =
    let rest = traces_named d cluster in do t ← lookup d session_id; cons_ok t rest

module _ {F : Type 0} where
  -- `zip(traces, embeddings, strict=True)` into a dict
  unfoldable pub zip_embeddings :
      Dict String (List F) → List SessionTrace → List (List F) → Result Fault (Dict String (List F))
  zip_embeddings d [] [] = ok d
  zip_embeddings d [] (v ∷ vs) = raise unequal_lengths
  zip_embeddings d (t ∷ traces) [] = raise unequal_lengths
  zip_embeddings d (t ∷ traces) (v ∷ vs) = zip_embeddings (Dict.put d t.session_id v) traces vs

  -- `{t.session_id: trace_embeddings[t.session_id] for t in success_traces}`
  unfoldable pub embeddings_of :
      Dict String (List F)
      → Dict String (List F)
      → List SessionTrace
      → Result Fault (Dict String (List F))
  embeddings_of trace_embeddings d [] = ok d
  embeddings_of trace_embeddings d (t ∷ traces) = lookup trace_embeddings t.session_id >>= λ v.
      embeddings_of trace_embeddings (Dict.put d t.session_id v) traces

  -- the loop over `trace.memory_ids`
  unfoldable pub link_memories : Procedures F → String → List String → Procedures F
  unfolding link_provenance
  link_memories repo id [] = repo
  link_memories repo id (memory_id ∷ memory_ids) =
      link_memories (link_provenance repo id memory_id) id memory_ids

  unfoldable pub link_traces : Procedures F → String → List SessionTrace → Procedures F
  unfolding link_memories
  link_traces repo id [] = repo
  link_traces repo id (t ∷ traces) = link_traces (link_memories repo id t.memory_ids) id traces

  abbrev pub new_procedure : String → Kind → SkillDraft → NewProceduralMemory F
  new_procedure namespace kind draft = record {
    namespace = namespace;
    kind = kind;
    name = draft.name;
    description = draft.description;
    body_markdown = draft.body_markdown;
    content_embedding = none;
  }

  abbrev pub validated : Services F → SkillDraft → Result SkillFormatError (Unit {0})
  validated services draft = do
    _ ← validate_skill_name draft.name services.settings.skill_name_max_length
    validate_skill_description services.text draft.description
        services.settings.skill_description_max_length

module _ {F : Type 0} ⦃fl : Float F⦄ (services : Services F) where
  unfoldable pub persist : Stores F → List SessionTrace → Kind → String → SkillDraft → Stores F
  unfolding create link_traces
  persist s traces kind namespace draft =
      let created =
        create (services.supply.uuid s.drawn) (services.supply.clock s.drawn) s.procedures
          (new_procedure namespace kind draft) in
      record s { procedures = link_traces created.0 created.1.id traces; drawn = suc s.drawn }

  -- `_distill_one_procedural_memory`
  unfoldable pub distill_one_procedural_memory :
      Stores F → List SessionTrace → Kind → String → Stores F × Bool
  unfolding validate_skill_name validate_skill_description persist
  distill_one_procedural_memory s traces kind namespace =
      elim (services.procedural.distill_procedure (map (λ (t : SessionTrace). t.steps) traces)
        (record { namespace = namespace; kind = kind })) [
          | raise e ↦ (s, false)
          | ok draft ↦ elim (validated services draft) [
            | raise e ↦ (s, false)
            | ok _ ↦ (persist s traces kind namespace draft, true)
          ]
        ]

  abbrev pub count_if : Stores F × Bool → ℕ → Stores F × ℕ
  count_if (s, true) n = (s, suc n)
  count_if (s, false) n = (s, n)

  -- the loop over the clusters of successes
  unfoldable pub distill_skills :
      Stores F × ℕ
      → String
      → Dict String SessionTrace
      → List (List String)
      → Result Fault (Stores F × ℕ)
  unfolding traces_named distill_one_procedural_memory
  distill_skills r namespace traces_by_session_id [] = ok r
  distill_skills r namespace traces_by_session_id (cluster ∷ clusters) = do
    after ←
        (if ltb (length cluster) services.settings.procedural_min_recurrence
          then ok r
          else (traces_named traces_by_session_id cluster >>= λ traces.
              ok (count_if (distill_one_procedural_memory r.0 traces skill namespace) r.1)))
    distill_skills after namespace traces_by_session_id clusters

  -- the loop over the failures
  unfoldable pub distill_lessons : Stores F × ℕ → String → List SessionTrace → Stores F × ℕ
  unfolding distill_one_procedural_memory
  distill_lessons r namespace [] = r
  distill_lessons r namespace (t ∷ traces) =
      let after =
        if ltb 1 services.settings.lesson_min_recurrence
        then r
        else count_if (distill_one_procedural_memory r.0 (t ∷ []) lesson namespace) r.1 in
      distill_lessons after namespace traces

  abbrev pub pairs_of : Dict String (List F) → Result Fault (List (String × String × F))
  pairs_of embeddings = elim (build_trace_pairs embeddings) [
    | raise e ↦ raise (value_error e)
    | ok pairs ↦ ok pairs
  ]

  abbrev pub clusters_of :
      List String → List (String × String × F) → F → Result Fault (List (List String))
  clusters_of ids pairs threshold = elim (cluster_by_similarity ids pairs threshold) [
    | raise e ↦ raise (clustering e)
    | ok clusters ↦ ok clusters
  ]

  -- `if success_traces:`
  unfoldable pub distill_successes :
      Stores F
      → String
      → Dict String (List F)
      → Dict String SessionTrace
      → List SessionTrace
      → Result Fault (Stores F × ℕ)
  unfolding embeddings_of build_trace_pairs cluster_by_similarity distill_skills
  distill_successes s namespace trace_embeddings traces_by_session_id [] = ok (s, 0)
  distill_successes s namespace trace_embeddings traces_by_session_id (t ∷ traces) = do
    success_embeddings ← embeddings_of trace_embeddings [] (t ∷ traces)
    pairs ← pairs_of success_embeddings
    clusters ←
        clusters_of (keys success_embeddings) pairs
          services.settings.procedural_session_similarity_threshold
    distill_skills (s, 0) namespace traces_by_session_id clusters

  -- What the stage returns: the skills and the lessons.
  abbrev pub Distilled : Type 0
  Distilled = Stores F × (ℕ × ℕ)

  unfoldable pub distill_traces :
      Stores F → String → List SessionTrace → List (List F) → Result Fault Distilled
  unfolding zip_embeddings by_session distill_successes distill_lessons
  distill_traces s namespace traces embeddings = do
    trace_embeddings ← zip_embeddings [] traces embeddings
    skills ←
        distill_successes s namespace trace_embeddings (by_session [] traces)
          (keep (λ (t : SessionTrace). t.outcome == success) traces)
    let lessons =
        distill_lessons (skills.0, 0) namespace
          (keep (λ (t : SessionTrace). t.outcome == failure) traces)
    ok (lessons.0, (skills.1, lessons.1))

  -- `_distill_procedural_memories`
  unfoldable pub distill_procedural_memories :
      Stores F → String → List (MemoryRecord F) → Result Fault Distilled
  unfolding group_session_traces distill_traces
  distill_procedural_memories s namespace episodes =
      elim (group_session_traces services.text episodes
        services.settings.procedural_min_session_length) [
          | [] ↦ ok (s, (0, 0))
          | t ∷ traces ↦
              elim (services.embedding.embed
                (map (λ (t : SessionTrace). t.summary_text) (t ∷ traces))) [
                  | raise e ↦ ok (s, (0, 0))
                  | ok embeddings ↦ distill_traces s namespace (t ∷ traces) embeddings
                ]
        ]
