-- ===== src/Consolidation/Distill/Served.antt =====
-- What a pass of src/rootmem/consolidation/distill.py assumes of its services, and of what it writes.
use rootmem.Base.{ℕ, ◌≤◌, String, ◌≡◌, List, ok, All, length, string_eq}
use rootmem.Base.Dict.Keyed.{IsKeyed}
use rootmem.Base.Float.{Float, IsOrdered, IsMonotone}
use rootmem.Base.Supply.{IsDistinct, IsUnused}
use rootmem.Embedding.{AnswersEach}
use rootmem.Graph.Repository.Rows.{IsGraph}
use rootmem.Graph.Repository.Upsert.{entity_id}
use rootmem.Extraction.Contradiction.Decision.{IsSettings}
use rootmem.Extraction.Models.{ExtractionResult}
use rootmem.Extraction.Pipeline.Relations.{IsExtracted}
use rootmem.Procedural.Active.{IsProcedures}
use rootmem.Consolidation.Distill.State.{Services, Stores, DistillationContext}

module _ {F : Type 0} where
  -- The repositories that the two stages do not write to.
  pub record SameRest (s s' : Stores F) : Type 0 where
    pub memories : s'.memories ≡ s.memories
    pub runs : s'.runs ≡ s.runs

module _ {F : Type 0} ⦃fl : Float F⦄ (o : IsOrdered F) (m : IsMonotone F)
    (services : Services F) where
  -- The ranges that the configuration checks, the protocols of the providers, the validator of what
  -- is distilled, one dimension for all vectors, and ids that never repeat.
  pub record IsServed (dimension : ℕ) : Type 0 where
    pub belief : IsSettings o m services.settings.belief
    pub min_cluster : 2 ≤ services.settings.distillation_min_cluster_size
    pub distinct : IsDistinct services.supply
    pub each : AnswersEach services.embedding
    pub vectors :
        (texts : List String) (vs : List (List F))
        → services.embedding.embed texts ≡ ok vs
        → All (λ v. length v ≡ dimension) vs
    pub distilled :
        (texts : List String) (context : DistillationContext) (facts : ExtractionResult F)
        → services.distillation.distill texts context ≡ ok facts
        → All (IsExtracted o m) facts.relations

  -- The rows of the repositories that the two stages write to.
  pub record IsWritable (s : Stores F) : Type 0 where
    pub graph : IsGraph o m s.graph
    pub entities : IsKeyed entity_id s.graph.entities
    pub unused : IsUnused services.supply s.drawn s.graph.entities
    pub procedures : IsProcedures s.procedures
