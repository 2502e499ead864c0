-- ===== src/Capture/Ingested.antt =====
-- What `ingest_transcript` of src/rootmem/capture/ingest.py leaves.
use rootmem.Base.{
  ℕ, suc, ◌+◌, ◌≤◌, String, ◌≡◌, ◌&&◌, not, Bool, if◌then◌else◌, refl, ap, ◌∙◌, true, false, Option,
  some, List, [], ◌∷◌, string_eq, arith, Result, ok, raise, All, length, keep, ==_ne,
}
use rootmem.Base.Dict
use rootmem.Base.Dict.{get-put_ne, get-put_self}
use rootmem.Base.Dict.Keyed.{IsKeyed}
use rootmem.Base.Float.{Float, IsOrdered, IsMonotone}
use rootmem.Base.Supply.{IsDistinct, IsUnused}
use rootmem.Embedding.{AnswersEach, embed_or_none-ok}
use rootmem.Memory.Models.{MemoryRecord, is_some}
use rootmem.Memory.Repository.{create, stored, get_by_id}
use rootmem.Memory.Creation.{IsStore, create-IsStore, get_by_id-create}
use rootmem.Graph.Models.{ContradictionResolution}
use rootmem.Graph.Repository.Rows.{IsGraph}
use rootmem.Graph.Repository.Upsert.{entity_id, Keeps}
use rootmem.Extraction.Contradiction.Decision.{IsSettings}
use rootmem.Extraction.Models.{ExtractionResult, ApplyExtractionResult}
use rootmem.Extraction.Pipeline.Relations.{IsExtracted}
use rootmem.Extraction.Pipeline.Applied.{apply_extraction-IsOutcome}
use rootmem.Extraction.Pipeline.{Refused, Progress, apply_extraction}
use rootmem.Capture.{
  ExtractionError, IngestResult, Transcript, Providers, Stores, is_superseding, degraded, summary,
  after_facts, new_memory, call_for, context_of, apply_facts, extract_facts, store_memory,
  ingest_transcript,
}

-- The resolutions, each counted once: as a new relation, as superseding the one before, or as contested.
pub data Tally {F : Type 0} : List (ContradictionResolution F) → ℕ → ℕ → ℕ → Type 0 where
  nothing : Tally [] 0 0 0
  added :
      {r : ContradictionResolution F} {rs : List (ContradictionResolution F)} {a b c : ℕ}
      → r.contested ≡ false
      → is_some r.previous ≡ false
      → Tally rs a b c
      → Tally (r ∷ rs) (suc a) b c
  superseded :
      {r : ContradictionResolution F} {rs : List (ContradictionResolution F)} {a b c : ℕ}
      → r.contested ≡ false
      → is_some r.previous ≡ true
      → Tally rs a b c
      → Tally (r ∷ rs) a (suc b) c
  contested :
      {r : ContradictionResolution F} {rs : List (ContradictionResolution F)} {a b c : ℕ}
      → r.contested ≡ true
      → Tally rs a b c
      → Tally (r ∷ rs) a b (suc c)

abbrev pub superseding_count : {F : Type 0} → List (ContradictionResolution F) → ℕ
superseding_count rs = length (keep is_superseding rs)

abbrev pub contest_count : {F : Type 0} → List (ContradictionResolution F) → ℕ
contest_count rs = length (keep (λ r. r.contested) rs)

counts-Tally :
    {F : Type 0} (rs : List (ContradictionResolution F))
    → (a : ℕ) × Tally rs a (superseding_count rs) (contest_count rs)
counts-Tally [] = (0, nothing)
counts-Tally (r ∷ rs) =
    let (a, t) = counts-Tally rs in by_kind r.contested (is_some r.previous) refl refl a t
  where
    by_kind :
        (c p : Bool)
        → r.contested ≡ c
        → is_some r.previous ≡ p
        → (a : ℕ) → Tally rs a (superseding_count rs) (contest_count rs)
        → (n : ℕ) × Tally
            (r ∷ rs)
            n
            (length (if p && not c then r ∷ keep is_superseding rs else keep is_superseding rs))
            (length (if c then r ∷ keep (λ x. x.contested) rs else keep (λ x. x.contested) rs))
    by_kind true true c p a t = (a, contested c t)
    by_kind true false c p a t = (a, contested c t)
    by_kind false true c p a t = (a, superseded c p t)
    by_kind false false c p a t = (suc a, added c p t)

-- Each resolution is counted in one of the three.
Tally-length :
    {F : Type 0} {rs : List (ContradictionResolution F)} {a b c : ℕ}
    → Tally rs a b c
    → a + b + c ≡ length rs
Tally-length nothing = refl
Tally-length (added f n t) = omega (arith, Tally-length t)
Tally-length (superseded f p t) = omega (arith, Tally-length t)
Tally-length (contested c t) = omega (arith, Tally-length t)

counts-le :
    {F : Type 0} (rs : List (ContradictionResolution F))
    → superseding_count rs + contest_count rs ≤ length rs
counts-le rs = let (a, t) = counts-Tally rs in omega (arith, Tally-length t)

module _ {F : Type 0} ⦃fl : Float F⦄ (o : IsOrdered F) (m : IsMonotone F)
    (providers : Providers F) where
  -- The rows of the repositories, and the ids still to be drawn.
  pub record IsStores (s : Stores F) : Type 0 where
    pub memories : IsStore s.memories
    pub graph : IsGraph o m s.graph
    pub entities : IsKeyed entity_id s.graph.entities
    pub unused_memory : IsUnused providers.supply s.drawn s.memories
    pub unused_entity : IsUnused providers.supply s.drawn s.graph.entities

  -- What is assumed of the services that the code calls.
  pub record IsServed : Type 0 where
    pub settings : IsSettings o m providers.settings
    pub distinct : IsDistinct providers.supply
    pub embedding : AnswersEach providers.embedding
    pub extraction :
        (content : String) (t : Transcript F) (facts : ExtractionResult F)
        → providers.extraction.extract content (context_of t) ≡ ok facts
        → All (IsExtracted o m) facts.relations

  -- The memory of the call, and the numbers that it reports.
  pub record IsIngested (s : Stores F) (t : Transcript F) (r : Stores F × IngestResult)
      : Type 0 where
    pub memory : MemoryRecord F
    pub readable : get_by_id r.0.memories t.namespace r.1.memory_id ≡ some memory
    pub content : memory.content ≡ t.content
    pub embedded : is_some memory.content_embedding ≡ r.1.embedded
    pub others :
        (id : String) (before : MemoryRecord F)
        → Dict.get s.memories id ≡ some before
        → Dict.get r.0.memories id ≡ some before
    pub entities : Keeps providers.text s.graph r.0.graph
    pub store : IsStore r.0.memories
    pub graph : IsGraph o m r.0.graph
    pub counted : r.1.superseded_count + r.1.contested_count ≤ r.1.relations_extracted

  -- The state and the record after `memory_repository.create`.
  record IsKept (s : Stores F) (t : Transcript F) (e : Option (List F))
      (r : Stores F × MemoryRecord F) : Type 0 where
    pub stores : IsStores r.0
    pub readable : get_by_id r.0.memories t.namespace r.1.id ≡ some r.1
    pub content : r.1.content ≡ t.content
    pub embedding : r.1.content_embedding ≡ e
    pub others :
        (id : String) (before : MemoryRecord F)
        → Dict.get s.memories id ≡ some before
        → Dict.get r.0.memories id ≡ some before
    pub graph : r.0.graph ≡ s.graph
    pub drawn : r.0.drawn ≡ suc s.drawn

  store_memory-IsKept :
      (s : Stores F) (t : Transcript F) (e : Option (List F))
      → IsServed
      → IsStores s
      → IsKept s t e (store_memory providers s t e)
  unfolding create
  store_memory-IsKept s t e served v =
      let fresh = providers.supply.uuid s.drawn in
      let now = providers.supply.clock s.drawn in
      let row = stored fresh now (new_memory t e) in
      record {
        stores = record {
          memories = create-IsStore fresh now s.memories (new_memory t e) v.memories;
          graph = v.graph;
          entities = v.entities;
          unused_memory = λ n le.
              get-put_ne s.memories fresh (providers.supply.uuid n) row (
                ==_ne fresh (providers.supply.uuid n)
                  (λ q. let p = served.distinct s.drawn n q in absurd (omega (arith, p, le))))
              ∙ v.unused_memory n (omega (arith, le));
          unused_entity = λ n le. v.unused_entity n (omega (arith, le));
        };
        readable = get_by_id-create fresh now s.memories (new_memory t e) v.memories;
        content = refl;
        embedding = refl;
        others = λ id before found.
            get-put_ne s.memories fresh id row (==_ne fresh id (λ q. clash q found)) ∙ found;
        graph = refl;
        drawn = refl;
      }
    where
      clash :
          {id : String} {before : MemoryRecord F}
          → providers.supply.uuid s.drawn ≡ id
          → Dict.get s.memories id ≡ some before
          → ⊥
      clash q found =
          let free = v.unused_memory s.drawn (omega arith) in
          let p = ap (Dict.get s.memories) q in cc (free, found, p)

  -- What `apply_extraction` makes of the facts for the memory, with the ids after the memory's own.
  abbrev pub applied_to :
      Stores F
      → Transcript F
      → String
      → ExtractionResult F
      → Result Refused (Progress F × ApplyExtractionResult F)
  applied_to s t memory_id facts =
      apply_extraction (call_for providers t memory_id) s.graph (suc s.drawn) facts

  -- What the result says of the extraction.
  abbrev pub Reports :
      Stores F
      → Transcript F
      → Result ExtractionError (ExtractionResult F)
      → Stores F × IngestResult
      → Type 0
  Reports s t (raise e) a = (a.1.extraction_degraded ≡ true) × (a.0.graph ≡ s.graph)
  Reports s t (ok facts) a =
      (a.1.extraction_degraded ≡ false)
      × (a.1.relations_extracted ≡ length facts.relations)
      × (x : Progress F × ApplyExtractionResult F) × (applied_to s t a.1.memory_id facts ≡ ok x)
      × (fresh : ℕ) × Tally x.1.resolutions fresh a.1.superseded_count a.1.contested_count

  apply_facts-IsIngested :
      (s : Stores F) (t : Transcript F) (e : Option (List F)) (r : Stores F × MemoryRecord F)
      (facts : ExtractionResult F)
      → IsServed
      → All (IsExtracted o m) facts.relations
      → IsKept s t e r
      → (a : Stores F × IngestResult) × (apply_facts providers r.0 t r.1 (is_some e) facts ≡ ok a)
        × IsIngested s t a
        × Reports s t (ok facts) a
  unfolding apply_facts
  apply_facts-IsIngested s t e r facts served valid k =
      let (applied, q, out) =
        apply_extraction-IsOutcome o m (call_for providers t r.1.id) r.0.graph r.0.drawn facts
          served.settings served.distinct valid k.stores.graph k.stores.entities
          k.stores.unused_entity in
      (
        (after_facts r.0 applied.0, summary r.1.id (is_some e) applied.1),
        rw (q, apply_facts) refl,
        record {
          memory = r.1;
          readable = k.readable;
          content = k.content;
          embedded = ap is_some k.embedding;
          others = k.others;
          entities = λ id en found. out.kept id en (rw k.graph found);
          store = k.stores.memories;
          graph = out.graph;
          counted = counts-le applied.1.resolutions;
        },
        (
          refl,
          out.counted,
          applied,
          rw (← k.graph, ← k.drawn) q,
          (counts-Tally applied.1.resolutions).0,
          (counts-Tally applied.1.resolutions).1,
        ),
      )

  extract_facts-IsIngested :
      (s : Stores F) (t : Transcript F) (e : Option (List F)) (r : Stores F × MemoryRecord F)
      → IsServed
      → IsKept s t e r
      → (a : Stores F × IngestResult) × (extract_facts providers r.0 t r.1 (is_some e) ≡ ok a)
        × IsIngested s t a
        × Reports s t (providers.extraction.extract t.content (context_of t)) a
  unfolding extract_facts
  extract_facts-IsIngested s t e r served k =
      by_answer (providers.extraction.extract t.content (context_of t)) refl
    where
      by_answer :
          (x : Result ExtractionError (ExtractionResult F))
          → providers.extraction.extract t.content (context_of t) ≡ x
          → (a : Stores F × IngestResult) × (extract_facts providers r.0 t r.1 (is_some e) ≡ ok a)
            × IsIngested s t a
            × Reports s t (providers.extraction.extract t.content (context_of t)) a
      by_answer (raise x) q = (
        (r.0, degraded r.1.id (is_some e)),
        rw (q, extract_facts) refl,
        record {
          memory = r.1;
          readable = k.readable;
          content = k.content;
          embedded = ap is_some k.embedding;
          others = k.others;
          entities = λ id en found. rw k.graph found;
          store = k.stores.memories;
          graph = k.stores.graph;
          counted = omega arith;
        },
        rw q (refl, k.graph),
      )
      by_answer (ok facts) q =
          let (a, p, h, reports) =
            apply_facts-IsIngested s t e r facts served (served.extraction t.content t facts q) k in
          (a, rw (q, extract_facts) p, h, rw q reports)

  -- For a transcript and rows as they should be, services that keep their protocols and ids that are
  -- fresh, `ingest_transcript` does not raise, whichever provider fails. The memory can be read back
  -- with its content, every other memory and entity stays as it is, and the rows stay well-formed. If
  -- the extraction provider raises, the graph is unchanged and the result says so; if not, one relation
  -- is reported for each that was extracted, and the reported counts tally the resolutions that
  -- `apply_extraction` answers for the memory: each counts once, as superseding, as contested or as
  -- neither.
  pub ingest_transcript-IsIngested :
      (s : Stores F) (t : Transcript F)
      → IsServed
      → IsStores s
      → (a : Stores F × IngestResult) × (ingest_transcript providers s t ≡ ok a)
        × IsIngested s t a
        × Reports s t (providers.extraction.extract t.content (context_of t)) a
  unfolding ingest_transcript
  ingest_transcript-IsIngested s t served v =
      let (e, q) = embed_or_none-ok providers.embedding served.embedding t.content in
      let (a, p, h, reports) =
        extract_facts-IsIngested s t e (store_memory providers s t e) served
          (store_memory-IsKept s t e served v) in
      (a, rw (q, ingest_transcript) p, h, reports)
