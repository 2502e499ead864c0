-- ===== src/Consolidation/Distill/Stage.antt =====
-- The traces and their vectors in the episodic-to-procedural stage of
-- src/rootmem/consolidation/distill.py.
use rootmem.Base.{
  ℕ, String, ◌≡◌, refl, ◌∙◌, ◌==◌, List, [], ◌∷◌, string_eq, Result, ok, raise, arith, inl, inr,
  All, All-map_imp, All-All, All-keep, In-map, length-map, bind_ok, All-In, In, length, map, keep,
}
use rootmem.Base.Dict
use rootmem.Base.Dict.{Dict, keys, get-put_self}
use rootmem.Base.Dict.Keyed.{put-keeps, keys-put_cases, All-put, All-get}
use rootmem.Base.Float.{Float, IsOrdered, IsMonotone}
use rootmem.Embedding.{EmbeddingError}
use rootmem.Memory.Models.{MemoryRecord, success, failure}
use rootmem.Consolidation.Clustering.{cluster_by_similarity}
use rootmem.Consolidation.Clustering.Similarity.{cluster_by_similarity-IsPartition}
use rootmem.Consolidation.Traces.{SessionTrace, outcome_eq, group_session_traces, build_trace_pairs}
use rootmem.Consolidation.Distill.State.{Services, Stores, Fault}
use rootmem.Consolidation.Distill.Skills.{
  by_session, lookup, zip_embeddings, embeddings_of, distill_lessons, pairs_of, clusters_of,
  distill_successes, Distilled, distill_traces, distill_procedural_memories,
}
use rootmem.Consolidation.Distill.Pairs.{build_trace_pairs-Among}
use rootmem.Memory.Vectors.{HasDimension}
use rootmem.Consolidation.Distill.Served.{IsServed, IsWritable, SameRest}
use rootmem.Consolidation.Distill.Distilled.{IsHeld, IsStep, still}
use rootmem.Consolidation.Distill.Lessons.{
  session_of, by_session-Held, distill_skills-ok, distill_lessons-Step,
}

module _ {F : Type 0} ⦃fl : Float F⦄ (dimension : ℕ) where
  -- A dict of vectors of one dimension, with a vector for each of the traces.
  record IsIndex (d : Dict String (List F)) (traces : List SessionTrace) : Type 0 where
    pub vectors : All (HasDimension dimension) d
    pub held : All (λ t. IsHeld d t.session_id) traces

  zip_embeddings-ok :
      (d : Dict String (List F)) (traces done : List SessionTrace) (vs : List (List F))
      → length vs ≡ length traces
      → All (λ v. length v ≡ dimension) vs
      → IsIndex d done
      → (e : Dict String (List F)) × (zip_embeddings d traces vs ≡ ok e)
        × IsIndex e done
        × IsIndex e traces
  unfolding zip_embeddings
  zip_embeddings-ok d [] done [] l h i = (d, refl, i, record { vectors = i.vectors; held = tt })
  zip_embeddings-ok d [] done (v ∷ vs) l h i = absurd (omega (arith, l))
  zip_embeddings-ok d (t ∷ traces) done [] l h i = absurd (omega (arith, l))
  zip_embeddings-ok d (t ∷ traces) done (v ∷ vs) l (p, h) i =
      let (e, q, old, new) =
        zip_embeddings-ok (Dict.put d t.session_id v) traces (t ∷ done) vs (omega (arith, l)) h
          (record {
            vectors = All-put (HasDimension dimension) d t.session_id v p i.vectors;
            held = (
              (v, get-put_self d t.session_id v),
              All-map_imp (λ u g. put-keeps d t.session_id u.session_id v g.1) done i.held,
            );
          }) in
      (
        e,
        q,
        record { vectors = old.vectors; held = old.held.1 },
        record { vectors = old.vectors; held = (old.held.0, new.held) },
      )

  embeddings_of-ok :
      (index d : Dict String (List F)) (traces : List SessionTrace) (ids : List String)
      → IsIndex index traces
      → All (HasDimension dimension) d
      → ((x : String) → In x (keys d) → In x ids)
      → All (λ t. In t.session_id ids) traces
      → (e : Dict String (List F)) × (embeddings_of index d traces ≡ ok e)
        × All (HasDimension dimension) e
        × ((x : String) → In x (keys e) → In x ids)
  unfolding embeddings_of
  embeddings_of-ok index d [] ids i h within j = (d, refl, h, within)
  embeddings_of-ok index d (t ∷ traces) ids i h within (j, js) =
      let (v, found) = i.held.0 in
      let p = All-get (HasDimension dimension) index t.session_id i.vectors found in
      let (e, q, h', within') =
        embeddings_of-ok index (Dict.put d t.session_id v) traces ids
          (record { vectors = i.vectors; held = i.held.1 })
          (All-put (HasDimension dimension) d t.session_id v p h)
          (λ x k. elim (keys-put_cases d t.session_id v x k) [
            | inl old ↦ within x old
            | inr new ↦ rw new j
          ])
          js in
      (e, rw (found, lookup) q, h', within')

module _ {F : Type 0} ⦃fl : Float F⦄ (services : Services F) where
  pairs_of-ok :
      (e : Dict String (List F)) {ps : List (String × String × F)}
      → build_trace_pairs e ≡ ok ps
      → pairs_of services e ≡ ok ps
  pairs_of-ok e q = rw (q, pairs_of) refl

  pub clusters_of-ok :
      (ids : List String) (ps : List (String × String × F)) (threshold : F)
      {cs : List (List String)}
      → cluster_by_similarity ids ps threshold ≡ ok cs
      → clusters_of services ids ps threshold ≡ ok cs
  clusters_of-ok ids ps threshold q = rw (q, clusters_of) refl

module _ {F : Type 0} ⦃fl : Float F⦄ (o : IsOrdered F) (m : IsMonotone F) (services : Services F)
    (dimension : ℕ) (served : IsServed o m services dimension) where
  -- A stage that returns, with what it wrote in order.
  abbrev Returns : Stores F × ℕ → Result Fault (Stores F × ℕ) → Type 0
  Returns r x =
      (r' : Stores F × ℕ) × (x ≡ ok r')
      × (more : ℕ) × IsStep o m services dimension served r r' more

  distill_successes-ok :
      (s : Stores F) (namespace : String) (index : Dict String (List F))
      (traces some_traces : List SessionTrace)
      → IsIndex dimension index some_traces
      → All (λ t. In t traces) some_traces
      → IsWritable o m services s
      → Returns
          (s, 0)
          (distill_successes services s namespace index (by_session [] traces) some_traces)
  unfolding distill_successes
  distill_successes-ok s namespace index traces [] i is w =
      ((s, 0), refl, 0, still o m services dimension served (s, 0) 0 w)
  distill_successes-ok s namespace index traces (t ∷ ts) i is w =
      let ids = map session_of traces in
      let (e, q, vectors, within) =
        embeddings_of-ok dimension index [] (t ∷ ts) ids i tt (λ x k. elim k [ ])
          (All-map_imp (λ u j. In-map session_of u traces j) (t ∷ ts) is) in
      let (pairs, q1, among) = build_trace_pairs-Among dimension e vectors in
      let (clusters, q2, parts) =
        cluster_by_similarity-IsPartition services.settings.procedural_session_similarity_threshold
          pairs (keys e) among in
      let held =
        All-All (IsHeld (by_session [] traces)) clusters
          (λ a c ic ia. by_session-Held traces [] a (within a (parts.2 a c ic ia))) in
      let (r, q3, step) =
        distill_skills-ok o m services dimension served (s, 0) namespace (by_session [] traces)
          clusters held w in
      (
        r,
        bind_ok _ _ q (
            bind_ok _ _ (pairs_of-ok services e q1)
              (bind_ok _ _ (clusters_of-ok services (keys e) pairs _ q2) q3)),
        length clusters,
        step,
      )

  -- The stage returns, with the stores as they should be.
  abbrev pub Staged : Stores F → Result Fault (Distilled services) → Type 0
  Staged s x = (r : Distilled services) × (x ≡ ok r) × IsWritable o m services r.0 × SameRest s r.0

  staged :
      (s : Stores F) (more more' : ℕ) (r1 : Stores F × ℕ) {r : Stores F × ℕ}
      → IsStep o m services dimension served (s, 0) r1 more
      → IsStep o m services dimension served (r1.0, 0) r more'
      → IsWritable o m services r.0 × SameRest s r.0
  staged s more more' r1 a b = (
    b.writable,
    record { memories = b.same.memories ∙ a.same.memories; runs = b.same.runs ∙ a.same.runs },
  )

  distill_traces-ok :
      (s : Stores F) (namespace : String) (traces : List SessionTrace) (vs : List (List F))
      → length vs ≡ length traces
      → All (λ v. length v ≡ dimension) vs
      → IsWritable o m services s
      → Staged s (distill_traces services s namespace traces vs)
  unfolding distill_traces
  distill_traces-ok s namespace traces vs l h w =
      let (index, q, _, i) =
        zip_embeddings-ok dimension [] traces [] vs l h (record { vectors = tt; held = tt }) in
      let wins = keep (λ (t : SessionTrace). t.outcome == success) traces in
      let losses = keep (λ (t : SessionTrace). t.outcome == failure) traces in
      let (r, q1, more, first) =
        distill_successes-ok s namespace index traces wins
          (record {
            vectors = i.vectors;
            held = All-keep (λ t. IsHeld index t.session_id) _ traces i.held;
          })
          (All-keep (λ t. In t traces) _ traces (All-In traces)) w in
      let second =
        distill_lessons-Step o m services dimension served (r.0, 0) namespace losses
          first.writable in
      let lessons = distill_lessons services (r.0, 0) namespace losses in
      let (written, same) = staged s more (length losses) r {r = lessons} first second in
      ((lessons.0, (r.1, lessons.1)), bind_ok _ _ q (bind_ok _ _ q1 refl), written, same)

  unchanged : (s : Stores F) → IsWritable o m services s → Staged s (ok (s, (0, 0)))
  unchanged s w = ((s, (0, 0)), refl, w, record { memories = refl; runs = refl })

  -- `_distill_procedural_memories` returns, whatever the providers answer.
  pub distill_procedural_memories-ok :
      (s : Stores F) (namespace : String) (episodes : List (MemoryRecord F))
      → IsWritable o m services s
      → Staged s (distill_procedural_memories services s namespace episodes)
  unfolding distill_procedural_memories
  distill_procedural_memories-ok s namespace episodes w =
      by_traces
        (group_session_traces services.text episodes
          services.settings.procedural_min_session_length)
        refl
    where
      Goal : Type 0
      Goal = Staged s (distill_procedural_memories services s namespace episodes)

      texts : List SessionTrace → List String
      texts = map (λ (t : SessionTrace). t.summary_text)

      by_answer :
          (t : SessionTrace) (traces : List SessionTrace)
          (a : Result EmbeddingError (List (List F)))
          → group_session_traces services.text episodes
              services.settings.procedural_min_session_length
            ≡ t ∷ traces
          → services.embedding.embed (map (λ (t : SessionTrace). t.summary_text) (t ∷ traces)) ≡ a
          → Goal
      by_answer t traces (raise e) g q = rw (g, distill_procedural_memories) (rw q (unchanged s w))
      by_answer t traces (ok vs) g q =
          rw (g, distill_procedural_memories)
            (rw q (
              distill_traces-ok s namespace (t ∷ traces) vs
                (served.each (texts (t ∷ traces)) vs q ∙ length-map _ (t ∷ traces))
                (served.vectors (texts (t ∷ traces)) vs q) w))

      by_traces :
          (traces : List SessionTrace)
          → group_session_traces services.text episodes
              services.settings.procedural_min_session_length
            ≡ traces
          → Goal
      by_traces [] g = rw (g, distill_procedural_memories) (unchanged s w)
      by_traces (t ∷ traces) g =
          by_answer t traces
            (services.embedding.embed (map (λ (t : SessionTrace). t.summary_text) (t ∷ traces))) g
            refl
