-- ===== src/Extraction/Models.antt =====
-- src/rootmem/extraction/models.py.
use rootmem.Base.{String, Bool, not, ◌&&◌, Option, List}
use rootmem.Graph.Models.{ContradictionResolution, is_none}

pub record ExtractionContext : Type 0 where
  pub namespace : String
  pub source : String
  pub source_session_id : Option String

pub record ExtractedEntity : Type 0 where
  pub name : String
  pub entity_type : String

pub record ExtractedRelation (F : Type 0) : Type 0 where
  pub subject_name : String
  pub subject_type : String
  pub predicate : String
  pub object_name : Option String
  pub object_type : Option String
  pub object_literal : Option String
  pub confidence : F

-- `_object_present_and_consistent`: a relation for which it is false is refused.
unfoldable pub object_present_and_consistent : {F : Type 0} → ExtractedRelation F → Bool
object_present_and_consistent r =
    not (is_none r.object_name && is_none r.object_literal)
    && not (not (is_none r.object_name) && is_none r.object_type)

pub record ExtractionResult (F : Type 0) : Type 0 where
  pub entities : List ExtractedEntity
  pub relations : List (ExtractedRelation F)

pub record ApplyExtractionResult (F : Type 0) : Type 0 where
  pub resolutions : List (ContradictionResolution F)
  pub entity_ids : List String
