-- ===== src/Consolidation/Distill/Distilled.antt =====
-- The episodic-to-semantic stage of src/rootmem/consolidation/distill.py.
use rootmem.Base.{
  ℕ, suc, ◌+◌, ◌≤◌, String, ◌≡◌, refl, ◌∙◌, true, some, List, [], ◌∷◌, string_eq, Result, ok, raise,
  arith, Bool-cases, inl, inr, All, In, In-cases, length, map, keep, leb, ltb,
}
use rootmem.Base.Dict
use rootmem.Base.Dict.{Dict, get-put_self}
use rootmem.Base.Dict.Keyed.{put-keeps}
use rootmem.Base.Float.{Float, IsOrdered, IsMonotone}
use rootmem.Memory.Models.{MemoryRecord}
use rootmem.Extraction.Models.{ExtractionResult}
use rootmem.Extraction.Pipeline.Relations.{IsExtracted}
use rootmem.Extraction.Pipeline.Applied.{apply_extraction-IsOutcome}
use rootmem.Consolidation.Distill.State.{Services, Stores, Fault, DistillationError}
use rootmem.Consolidation.Distill.Facts.{
  contents, by_id, call_for, after_facts, apply_facts, distill_cluster, distill_facts,
}
use rootmem.Consolidation.Distill.Served.{IsServed, IsWritable, SameRest}

-- The id is a key.
abbrev pub IsHeld : {V : Type 0} → Dict String V → String → Type 0
IsHeld {V} d id = (v : V) × (Dict.get d id ≡ some v)

module _ {F : Type 0} where
  by_id-IsHeld :
      (episodes : List (MemoryRecord F)) (d : Dict String (MemoryRecord F)) (id : String)
      → IsHeld d id
      → IsHeld (by_id d episodes) id
  unfolding by_id
  by_id-IsHeld [] d id h = h
  by_id-IsHeld (e ∷ episodes) d id (v, h) =
      by_id-IsHeld episodes (Dict.put d e.id e) id (put-keeps d e.id id e h)

  pub by_id-Held :
      (episodes : List (MemoryRecord F)) (d : Dict String (MemoryRecord F)) (id : String)
      → In id (map (λ (e : MemoryRecord F). e.id) episodes)
      → IsHeld (by_id d episodes) id
  unfolding by_id
  by_id-Held [] d id i = elim i [ ]
  by_id-Held (e ∷ episodes) d id i = elim (In-cases id e.id i) [
    | inl same ↦ by_id-IsHeld episodes (Dict.put d e.id e) id (e, rw same (get-put_self d e.id e))
    | inr tail ↦ by_id-Held episodes (Dict.put d e.id e) id tail
  ]

  contents-ok :
      (d : Dict String (MemoryRecord F)) (cluster : List String)
      → All (IsHeld d) cluster
      → (texts : List String) × (contents d cluster ≡ ok texts)
  unfolding contents
  contents-ok d [] h = ([], refl)
  contents-ok d (id ∷ cluster) ((e, found), h) =
      let (texts, q) = contents-ok d cluster h in
      (e.content ∷ texts, rw (found, contents) (rw q refl))

module _ {F : Type 0} ⦃fl : Float F⦄ (o : IsOrdered F) (m : IsMonotone F) (services : Services F)
    (dimension : ℕ) (served : IsServed o m services dimension) where
  -- The stores after a step, and how many more facts there can be.
  pub record IsStep (r r' : Stores F × ℕ) (more : ℕ) : Type 0 where
    pub writable : IsWritable o m services r'.0
    pub same : SameRest r.0 r'.0
    pub bounded : r'.1 ≤ r.1 + more

  pub still : (r : Stores F × ℕ) (more : ℕ) → IsWritable o m services r.0 → IsStep r r more
  still r more w = record {
    writable = w;
    same = record { memories = refl; runs = refl };
    bounded = omega arith;
  }

  apply_facts-ok :
      (s : Stores F) (n : ℕ) (namespace : String) (cluster : List String)
      (facts : ExtractionResult F)
      → All (IsExtracted o m) facts.relations
      → IsWritable o m services s
      → (s' : Stores F) × (apply_facts services s namespace cluster facts ≡ ok s')
        × IsStep (s, n) (s', suc n) 1
  unfolding apply_facts
  apply_facts-ok s n namespace cluster facts valid w =
      let (a, q, out) =
        apply_extraction-IsOutcome o m (call_for services namespace cluster) s.graph s.drawn facts
          served.belief served.distinct valid w.graph w.entities w.unused in
      (
        after_facts s a.0,
        rw (q, apply_facts) refl,
        record {
          writable = record {
            graph = out.graph;
            entities = out.keyed;
            unused = out.unused;
            procedures = w.procedures;
          };
          same = record { memories = refl; runs = refl };
          bounded = omega arith;
        },
      )

  abbrev pub Stepped : Stores F × ℕ → Result Fault (Stores F × ℕ) → ℕ → Type 0
  Stepped r x more = (r' : Stores F × ℕ) × (x ≡ ok r') × IsStep r r' more

  distill_cluster-ok :
      (s : Stores F) (n : ℕ) (namespace : String) (cluster texts : List String)
      → IsWritable o m services s
      → Stepped (s, n) (distill_cluster services (s, n) namespace cluster texts) 1
  unfolding distill_cluster
  distill_cluster-ok s n namespace cluster texts w =
      by_answer (services.distillation.distill texts (record { namespace = namespace })) refl
    where
      by_answer :
          (a : Result DistillationError (ExtractionResult F))
          → services.distillation.distill texts (record { namespace = namespace }) ≡ a
          → Stepped (s, n) (distill_cluster services (s, n) namespace cluster texts) 1
      by_answer (raise e) q = ((s, n), rw (q, distill_cluster) refl, still (s, n) 1 w)
      by_answer (ok facts) q =
          let (s', p, step) =
            apply_facts-ok s n namespace cluster facts
              (served.distilled texts (record { namespace = namespace }) facts q) w in
          ((s', suc n), rw (q, distill_cluster) (rw p refl), step)

  pub onward :
      {r r' r'' : Stores F × ℕ} {a b n : ℕ}
      → a + b ≡ n
      → IsStep r r' a
      → IsStep r' r'' b
      → IsStep r r'' n
  onward sum v w = record {
    writable = w.writable;
    same = record {
      memories = w.same.memories ∙ v.same.memories;
      runs = w.same.runs ∙ v.same.runs;
    };
    bounded = omega (arith, sum, v.bounded, w.bounded);
  }

  abbrev pub formed : List (List String) → ℕ
  formed clusters = length (keep (λ c. leb 2 (length c)) clusters)

  pub widen : {r r' : Stores F × ℕ} {a b : ℕ} → IsStep r r' a → a ≤ b → IsStep r r' b
  widen v le = record {
    writable = v.writable;
    same = v.same;
    bounded = omega (arith, v.bounded, le);
  }

  formed-cons :
      (cluster : List String) (clusters : List (List String))
      → formed clusters ≤ formed (cluster ∷ clusters)
  formed-cons cluster clusters = elim (Bool-cases (leb 2 (length cluster))) [
    | inl t ↦ rw t (omega arith)
    | inr f ↦ rw f (omega arith)
  ]

  -- The loop over the clusters.
  pub distill_facts-ok :
      (r : Stores F × ℕ) (namespace : String) (d : Dict String (MemoryRecord F))
      (clusters : List (List String))
      → All (All (IsHeld d)) clusters
      → IsWritable o m services r.0
      → Stepped r (distill_facts services r namespace d clusters) (formed clusters)
  unfolding distill_facts
  distill_facts-ok r namespace d [] held w = (r, refl, still r 0 w)
  distill_facts-ok r namespace d (cluster ∷ clusters) (h, held) w =
      elim (Bool-cases (ltb (length cluster) services.settings.distillation_min_cluster_size)) [
        | inl short ↦
            let (r', q, step) = distill_facts-ok r namespace d clusters held w in
            (r', rw (short, distill_facts) q, widen step (formed-cons cluster clusters))
        | inr long ↦
            let (texts, p) = contents-ok d cluster h in
            let (r1, p1, first) = distill_cluster-ok r.0 r.1 namespace cluster texts w in
            let (r', q, step) = distill_facts-ok r1 namespace d clusters held first.writable in
            let counted : leb 2 (length cluster) ≡ true = ground (arith, served.min_cluster) in
            (
              r',
              rw (long, distill_facts) (rw p (rw p1 q)),
              onward {b = formed clusters} (rw counted (omega arith)) first step,
            )
      ]
