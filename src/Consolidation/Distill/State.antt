-- ===== src/Consolidation/Distill/State.antt =====
-- What a pass of src/rootmem/consolidation/distill.py works on: the repositories, the settings and the
-- providers, which are parameters (consolidation/protocols.py, consolidation/procedural_protocols.py).
use rootmem.Base.{ℕ, String, List, Result}
use rootmem.Base.Text.{Text}
use rootmem.Base.Supply.{Supply}
use rootmem.Embedding.{EmbeddingProvider}
use rootmem.Memory.Repository.{Records}
use rootmem.Graph.Repository.{Graph}
use rootmem.Extraction.Contradiction.{BayesianSettings}
use rootmem.Extraction.Models.{ExtractionResult}
use rootmem.Extraction.Pipeline.{Refused}
use rootmem.Retrieval.Ranking.{ValueError}
use rootmem.Procedural.Models.{Kind}
use rootmem.Procedural.Repository.{Procedures}
use rootmem.Consolidation.Clustering
use rootmem.Consolidation.Runs.{Runs, NotFound}
use rootmem.Consolidation.Salience.{SalienceWeights}
use rootmem.Consolidation.SkillFormat.{SkillDraft}
use rootmem.Consolidation.Trigger.{TriggerSettings}

pub record DistillationContext : Type 0 where
  pub namespace : String

pub record ProceduralDistillationContext : Type 0 where
  pub namespace : String
  pub kind : Kind

-- The text of a `DistillationError`, and of a `ProceduralDistillationError`.
pub data DistillationError : Type 0 where
  distillation_error : String → DistillationError

pub data ProceduralDistillationError : Type 0 where
  procedural_error : String → ProceduralDistillationError

pub record DistillationProvider (F : Type 0) : Type 0 where
  pub distill : List String → DistillationContext → Result DistillationError (ExtractionResult F)

pub record ProceduralDistillationProvider : Type 0 where
  pub distill_procedure :
      List (List String)
      → ProceduralDistillationContext
      → Result ProceduralDistillationError SkillDraft

-- The fields of `Settings` that a pass reads.
pub record Settings (F : Type 0) : Type 0 where
  pub consolidation_batch_size : ℕ
  pub novelty_neighbor_sample_size : ℕ
  pub salience : SalienceWeights F
  pub distillation_similarity_threshold : F
  pub distillation_min_cluster_size : ℕ
  pub procedural_min_session_length : ℕ
  pub procedural_session_similarity_threshold : F
  pub procedural_min_recurrence : ℕ
  pub lesson_min_recurrence : ℕ
  pub skill_name_max_length : ℕ
  pub skill_description_max_length : ℕ
  pub trigger : TriggerSettings F
  pub belief : BayesianSettings F

pub record Services (F : Type 0) : Type 0 where
  pub text : Text
  pub supply : Supply
  pub settings : Settings F
  pub distillation : DistillationProvider F
  pub embedding : EmbeddingProvider F
  pub procedural : ProceduralDistillationProvider

-- The repositories, and the ids and times drawn before.
pub record Stores (F : Type 0) : Type 0 where
  pub memories : Records F
  pub graph : Graph F
  pub runs : Runs
  pub procedures : Procedures F
  pub drawn : ℕ

-- What a pass can raise: a lookup `d[key]`, a comparison of vectors, a `zip` that is strict, and what
-- the calls raise.
pub data Fault : Type 0 where
  key_error assertion_error : Fault
  unequal_lengths : Fault
  value_error : ValueError → Fault
  clustering : Clustering.Fault → Fault
  refused : Refused → Fault
  no_run : NotFound → Fault
