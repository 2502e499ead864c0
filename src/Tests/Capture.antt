-- ===== src/Tests/Capture.antt =====
-- A session whose text the embedding provider refuses.
use rootmem.Base.{ℕ, ◌≡◌, refl, none, some, [], Result, ok, raise, All}
use rootmem.Base.Dict
use rootmem.Tests.Numbers.{number, number-IsOrdered, number-IsMonotone}
use rootmem.Tests.Memory.{plain}
use rootmem.Tests.Graph.{settings, settings_admitted, contested_graph, contested_graph-IsGraph}
use rootmem.Tests.Extraction.{supply, supply-IsDistinct, facts}
use rootmem.Embedding.{embedding_error}
use rootmem.Extraction.Models.{object_present_and_consistent}
use rootmem.Extraction.Models.{ExtractionResult}
use rootmem.Extraction.Pipeline.Relations.{IsExtracted}
use rootmem.Capture.{
  ExtractionError, IngestResult, Transcript, Providers, Stores, context_of, ingest_transcript,
}
use rootmem.Capture.Ingested.{IsServed, IsIngested, Reports, ingest_transcript-IsIngested}

abbrev providers : Providers ℕ
providers = record {
  embedding = record { embed = λ texts. raise (embedding_error "down") };
  extraction = record { extract = λ content context. ok facts };
  text = plain;
  supply = supply;
  settings = settings;
}

abbrev session : Transcript ℕ
session = record {
  namespace = "default";
  content = "the sky holds the sun";
  source = "cli";
  source_session_id = some "s1";
  importance_flag = 0;
  session_outcome = none;
}

abbrev stores : Stores ℕ
stores = record { memories = []; graph = contested_graph; drawn = 0 }

served : IsServed number-IsOrdered number-IsMonotone providers
unfolding object_present_and_consistent
served = record {
  settings = settings_admitted;
  distinct = supply-IsDistinct;
  embedding = λ texts vectors q. cc q;
  extraction = λ content t found q. valid found q;
}
  where
    valid :
        (found : ExtractionResult ℕ)
        → ◌≡◌ {A = Result ExtractionError (ExtractionResult ℕ)} (ok facts) (ok found)
        → All (IsExtracted number-IsOrdered number-IsMonotone) found.relations
    valid found q = let p : facts ≡ found = cc q in rw (← p) ((refl, (refl, refl)), tt)

ingest_transcript-IsIngested_example :
    (a : Stores ℕ × IngestResult) × (ingest_transcript providers stores session ≡ ok a)
    × IsIngested number-IsOrdered number-IsMonotone providers stores session a
    × Reports number-IsOrdered number-IsMonotone providers stores session
        (providers.extraction.extract session.content (context_of session))
        a
unfolding Dict.get
ingest_transcript-IsIngested_example =
    ingest_transcript-IsIngested number-IsOrdered number-IsMonotone providers stores session served
      (record {
        memories = tt;
        graph = contested_graph-IsGraph;
        entities = tt;
        unused_memory = λ n le. refl;
        unused_entity = λ n le. refl;
      })
