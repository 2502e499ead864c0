-- ===== src/Capture.antt =====
-- src/rootmem/capture/ingest.py and src/rootmem/capture/models.py. The providers are parameters. The
-- settings, the text methods and the supply of ids are those of the graph repository.
pub mod Ingested
use rootmem.Base.{
  ℕ, suc, ◌==◌, String, Bool, true, false, not, ◌&&◌, Option, none, some, List, [], ◌∷◌, Result, ok,
  raise, length, keep,
}
use rootmem.Base.Float.{Float}
use rootmem.Base.Json.{end}
use rootmem.Base.Text.{Text}
use rootmem.Base.Supply.{Supply}
use rootmem.Embedding.{EmbeddingProvider, IndexError, embed_or_none}
use rootmem.Memory.Models.{MemoryRecord, NewMemory, Outcome, is_some}
use rootmem.Memory.Repository.{Records, create}
use rootmem.Graph.Models.{ContradictionResolution, extracted}
use rootmem.Graph.Repository.{Graph}
use rootmem.Extraction.Contradiction.{BayesianSettings}
use rootmem.Extraction.Models.{ExtractionContext, ExtractionResult, ApplyExtractionResult}
use rootmem.Extraction.Pipeline.{Refused, Call, Progress, apply_extraction}

-- The text of an `ExtractionError`.
pub data ExtractionError : Type 0 where
  extraction_error : String → ExtractionError

pub record ExtractionProvider (F : Type 0) : Type 0 where
  pub extract : String → ExtractionContext → Result ExtractionError (ExtractionResult F)

pub data Fault : Type 0 where
  no_vector : IndexError → Fault
  refused : Refused → Fault

pub record IngestResult : Type 0 where
  pub memory_id : String
  pub embedded : Bool
  pub entities_extracted : ℕ
  pub relations_extracted : ℕ
  pub superseded_count : ℕ
  pub contested_count : ℕ
  pub extraction_degraded : Bool

-- The arguments of `ingest_transcript` that are no repositories.
pub record Transcript (F : Type 0) : Type 0 where
  pub namespace : String
  pub content : String
  pub source : String
  pub source_session_id : Option String
  pub importance_flag : F
  pub session_outcome : Option Outcome

pub record Providers (F : Type 0) : Type 0 where
  pub embedding : EmbeddingProvider F
  pub extraction : ExtractionProvider F
  pub text : Text
  pub supply : Supply
  pub settings : BayesianSettings F

-- The repositories, and the ids drawn before.
pub record Stores (F : Type 0) : Type 0 where
  pub memories : Records F
  pub graph : Graph F
  pub drawn : ℕ

abbrev pub degraded : String → Bool → IngestResult
degraded memory_id embedded = record {
  memory_id = memory_id;
  embedded = embedded;
  entities_extracted = 0;
  relations_extracted = 0;
  superseded_count = 0;
  contested_count = 0;
  extraction_degraded = true;
}

module _ {F : Type 0} where
  abbrev pub is_superseding : ContradictionResolution F → Bool
  is_superseding r = is_some r.previous && not r.contested

  abbrev pub call_for : Providers F → Transcript F → String → Call F
  call_for providers t memory_id = record {
    text = providers.text;
    supply = providers.supply;
    settings = providers.settings;
    namespace = t.namespace;
    source_memory_ids = memory_id ∷ [];
    derivation = extracted;
  }

  abbrev pub context_of : Transcript F → ExtractionContext
  context_of t = record {
    namespace = t.namespace;
    source = t.source;
    source_session_id = t.source_session_id;
  }

  abbrev pub summary : String → Bool → ApplyExtractionResult F → IngestResult
  summary memory_id embedded applied = record {
    memory_id = memory_id;
    embedded = embedded;
    entities_extracted = length applied.entity_ids;
    relations_extracted = length applied.resolutions;
    superseded_count = length (keep is_superseding applied.resolutions);
    contested_count = length (keep (λ r. r.contested) applied.resolutions);
    extraction_degraded = false;
  }

  abbrev pub after_facts : Stores F → Progress F → Stores F
  after_facts stores p = record stores { graph = p.graph; drawn = p.drawn }

module _ {F : Type 0} ⦃fl : Float F⦄ where
  abbrev pub new_memory : Transcript F → Option (List F) → NewMemory F
  new_memory t embedding = record {
    namespace = t.namespace;
    key = none;
    idempotency_key = none;
    content = t.content;
    content_embedding = embedding;
    source = t.source;
    source_session_id = t.source_session_id;
    confidence = fl.of_ℕ 1;
    importance_flag = t.importance_flag;
    session_outcome = t.session_outcome;
    metadata = end;
  }

  -- The graph after an extraction; the memory is stored.
  unfoldable pub apply_facts :
      Providers F
      → Stores F
      → Transcript F
      → MemoryRecord F
      → Bool
      → ExtractionResult F
      → Result Fault (Stores F × IngestResult)
  unfolding apply_extraction
  apply_facts providers stores t memory embedded facts =
      elim (apply_extraction (call_for providers t memory.id) stores.graph stores.drawn facts) [
        | raise e ↦ raise (refused e)
        | ok applied ↦ ok (after_facts stores applied.0, summary memory.id embedded applied.1)
      ]

  -- after `memory_repository.create`
  unfoldable pub extract_facts :
      Providers F
      → Stores F
      → Transcript F
      → MemoryRecord F
      → Bool
      → Result Fault (Stores F × IngestResult)
  unfolding apply_facts
  extract_facts providers stores t memory embedded =
      elim (providers.extraction.extract t.content (context_of t)) [
        | raise e ↦ ok (stores, degraded memory.id embedded)
        | ok facts ↦ apply_facts providers stores t memory embedded facts
      ]

  abbrev pub store_memory :
      Providers F → Stores F → Transcript F → Option (List F) → Stores F × MemoryRecord F
  store_memory providers stores t embedding =
      let created =
        create (providers.supply.uuid stores.drawn) (providers.supply.clock stores.drawn)
          stores.memories (new_memory t embedding) in
      (record stores { memories = created.0; drawn = suc stores.drawn }, created.1)

  unfoldable pub ingest_transcript :
      Providers F → Stores F → Transcript F → Result Fault (Stores F × IngestResult)
  unfolding embed_or_none create extract_facts
  ingest_transcript providers stores t = elim (embed_or_none providers.embedding t.content) [
    | raise e ↦ raise (no_vector e)
    | ok embedding ↦
        let s = store_memory providers stores t embedding in
        extract_facts providers s.0 t s.1 (is_some embedding)
  ]
