-- ===== src/Consolidation/Distill/Lessons.antt =====
-- The episodic-to-procedural stage of src/rootmem/consolidation/distill.py.
use rootmem.Base.{
  ℕ, suc, String, ◌≡◌, refl, ◌∙◌, List, [], ◌∷◌, string_eq, Result, ok, raise, arith, Bool-cases,
  inl, inr, All, In, In-cases, length, map, ltb,
}
use rootmem.Base.Dict
use rootmem.Base.Dict.{Dict, keys, get-put_self}
use rootmem.Base.Dict.Keyed.{put-keeps}
use rootmem.Base.Float.{Float, IsOrdered, IsMonotone}
use rootmem.Procedural.Models.{Kind, skill, lesson}
use rootmem.Procedural.Repository.{Procedures, create, link_provenance}
use rootmem.Procedural.Active.{IsProcedures, create-IsProcedures}
use rootmem.Consolidation.SkillFormat.{SkillDraft, SkillFormatError}
use rootmem.Consolidation.Traces.{SessionTrace, outcome_eq}
use rootmem.Consolidation.Distill.State.{Services, Stores, ProceduralDistillationError}
use rootmem.Consolidation.Distill.Skills.{
  by_session, lookup, traces_named, link_memories, link_traces, new_procedure, validated, persist,
  distill_one_procedural_memory, count_if, distill_skills, distill_lessons,
}
use rootmem.Consolidation.Distill.Served.{IsServed, IsWritable}
use rootmem.Consolidation.Distill.Distilled.{IsHeld, IsStep, Stepped, still, onward, widen}

abbrev pub session_of : SessionTrace → String
session_of t = t.session_id

by_session-IsHeld :
    (traces : List SessionTrace) (d : Dict String SessionTrace) (id : String)
    → IsHeld d id
    → IsHeld (by_session d traces) id
unfolding by_session
by_session-IsHeld [] d id h = h
by_session-IsHeld (t ∷ traces) d id (v, h) =
    by_session-IsHeld traces (Dict.put d t.session_id t) id (put-keeps d t.session_id id t h)

pub by_session-Held :
    (traces : List SessionTrace) (d : Dict String SessionTrace) (id : String)
    → In id (map session_of traces)
    → IsHeld (by_session d traces) id
unfolding by_session
by_session-Held [] d id i = elim i [ ]
by_session-Held (t ∷ traces) d id i = elim (In-cases id t.session_id i) [
  | inl same ↦
      by_session-IsHeld traces (Dict.put d t.session_id t) id
        (t, rw same (get-put_self d t.session_id t))
  | inr tail ↦ by_session-Held traces (Dict.put d t.session_id t) id tail
]

traces_named-ok :
    (d : Dict String SessionTrace) (cluster : List String)
    → All (IsHeld d) cluster
    → (ts : List SessionTrace) × (traces_named d cluster ≡ ok ts)
unfolding traces_named
traces_named-ok d [] h = ([], refl)
traces_named-ok d (id ∷ cluster) ((t, found), h) =
    let (ts, q) = traces_named-ok d cluster h in (t ∷ ts, rw (found, lookup) (rw q refl))

module _ {F : Type 0} where
  link_memories-records :
      (repo : Procedures F) (id : String) (memory_ids : List String)
      → (link_memories repo id memory_ids).records ≡ repo.records
  unfolding link_memories link_provenance
  link_memories-records repo id [] = refl
  link_memories-records repo id (m ∷ memory_ids) =
      link_memories-records (link_provenance repo id m) id memory_ids

  link_traces-records :
      (repo : Procedures F) (id : String) (traces : List SessionTrace)
      → (link_traces repo id traces).records ≡ repo.records
  unfolding link_traces
  link_traces-records repo id [] = refl
  link_traces-records repo id (t ∷ traces) =
      link_traces-records (link_memories repo id t.memory_ids) id traces
      ∙ link_memories-records repo id t.memory_ids

  IsProcedures-records :
      {repo repo' : Procedures F}
      → repo'.records ≡ repo.records
      → IsProcedures repo
      → IsProcedures repo'
  IsProcedures-records e h = record {
    keyed = rw e h.keyed;
    one_active = λ i j r s g g'. h.one_active i j r s (rw e at g) (rw e at g');
  }

module _ {F : Type 0} ⦃fl : Float F⦄ (o : IsOrdered F) (m : IsMonotone F) (services : Services F)
    (dimension : ℕ) (served : IsServed o m services dimension) where
  abbrev pub Step : Stores F × ℕ → Stores F × ℕ → ℕ → Type 0
  Step = IsStep o m services dimension served

  persist-Step :
      (s : Stores F) (n : ℕ) (traces : List SessionTrace) (kind : Kind) (namespace : String)
      (draft : SkillDraft)
      → IsWritable o m services s
      → Step (s, n) (persist services s traces kind namespace draft, suc n) 1
  unfolding persist
  persist-Step s n traces kind namespace draft w =
      let new = new_procedure namespace kind draft in
      let fresh = services.supply.uuid s.drawn in
      let now = services.supply.clock s.drawn in
      let created = create fresh now s.procedures new in
      record {
        writable = record {
          graph = w.graph;
          entities = w.entities;
          unused = λ k le. w.unused k (omega (arith, le));
          procedures =
              IsProcedures-records (link_traces-records created.0 created.1.id traces)
                (create-IsProcedures fresh now s.procedures new w.procedures);
        };
        same = record { memories = refl; runs = refl };
        bounded = omega arith;
      }

  one-Step :
      (s : Stores F) (n : ℕ) (traces : List SessionTrace) (kind : Kind) (namespace : String)
      → IsWritable o m services s
      → Step
          (s, n)
          (count_if services (distill_one_procedural_memory services s traces kind namespace) n)
          1
  unfolding distill_one_procedural_memory
  one-Step s n traces kind namespace w =
      by_answer
        (services.procedural.distill_procedure (map (λ (t : SessionTrace). t.steps) traces)
          (record { namespace = namespace; kind = kind }))
        refl
    where
      by_format :
          (draft : SkillDraft) (a : Result SkillFormatError (Unit {0}))
          → validated services draft ≡ a
          → services.procedural.distill_procedure
              (map (λ (t : SessionTrace). t.steps) traces)
              (record { namespace = namespace; kind = kind })
            ≡ ok draft
          → Step
              (s, n)
              (count_if services (distill_one_procedural_memory services s traces kind namespace) n)
              1
      by_format draft (raise e) v q =
          rw (q, distill_one_procedural_memory)
            (rw v (still o m services dimension served (s, n) 1 w))
      by_format draft (ok u) v q =
          rw (q, distill_one_procedural_memory)
            (rw v (persist-Step s n traces kind namespace draft w))

      by_answer :
          (a : Result ProceduralDistillationError SkillDraft)
          → services.procedural.distill_procedure
              (map (λ (t : SessionTrace). t.steps) traces)
              (record { namespace = namespace; kind = kind })
            ≡ a
          → Step
              (s, n)
              (count_if services (distill_one_procedural_memory services s traces kind namespace) n)
              1
      by_answer (raise e) q =
          rw (q, distill_one_procedural_memory) (still o m services dimension served (s, n) 1 w)
      by_answer (ok draft) q = by_format draft (validated services draft) refl q

  pub distill_skills-ok :
      (r : Stores F × ℕ) (namespace : String) (d : Dict String SessionTrace)
      (clusters : List (List String))
      → All (All (IsHeld d)) clusters
      → IsWritable o m services r.0
      → Stepped o m services dimension served r
          (distill_skills services r namespace d clusters)
          (length clusters)
  unfolding distill_skills
  distill_skills-ok r namespace d [] held w = (r, refl, still o m services dimension served r 0 w)
  distill_skills-ok r namespace d (cluster ∷ clusters) (h, held) w =
      elim (Bool-cases (ltb (length cluster) services.settings.procedural_min_recurrence)) [
        | inl short ↦
            let (r', q, step) = distill_skills-ok r namespace d clusters held w in
            (
              r',
              rw (short, distill_skills) q,
              widen o m services dimension served step (omega arith),
            )
        | inr long ↦
            let (traces, p) = traces_named-ok d cluster h in
            let r1 =
              count_if services (distill_one_procedural_memory services r.0 traces skill namespace)
                r.1 in
            let first = one-Step r.0 r.1 traces skill namespace w in
            let (r', q, step) = distill_skills-ok r1 namespace d clusters held first.writable in
            (
              r',
              rw (long, distill_skills) (rw p q),
              onward o m services dimension served {a = 1} {b = length clusters} (omega arith) first
                  step,
            )
      ]

  pub distill_lessons-Step :
      (r : Stores F × ℕ) (namespace : String) (traces : List SessionTrace)
      → IsWritable o m services r.0
      → Step r (distill_lessons services r namespace traces) (length traces)
  unfolding distill_lessons
  distill_lessons-Step r namespace [] w = still o m services dimension served r 0 w
  distill_lessons-Step r namespace (t ∷ traces) w =
      elim (Bool-cases (ltb 1 services.settings.lesson_min_recurrence)) [
        | inl rare ↦
            rw (rare, distill_lessons)
              (widen o m services dimension served (distill_lessons-Step r namespace traces w)
                (omega arith))
        | inr wanted ↦
            let first = one-Step r.0 r.1 (t ∷ []) lesson namespace w in
            rw (wanted, distill_lessons)
              (onward o m services dimension served {a = 1} {b = length traces} (omega arith) first
                (distill_lessons-Step
                  (count_if services
                    (distill_one_procedural_memory services r.0 (t ∷ []) lesson namespace) r.1)
                  namespace traces first.writable))
      ]
