-- ===== src/Tools/Relations.antt =====
-- src/rootmem/integration/mcp/tools: `related` and `feedback`, with their classes in schemas.py. The
-- note of a feedback is dropped by the repository.
use rootmem.Base.{
  ℕ, String, Bool, true, false, Option, none, some, List, [], map, Result, ok, ◌>>=◌, string_eq,
}
use rootmem.Base.Float.{Float}
use rootmem.Base.Text.{Text}
use rootmem.Extraction.Contradiction.{BayesianSettings, FeedbackOutcome}
use rootmem.Graph.Models.{RelationRecord, Derivation, is_active, is_contested}
use rootmem.Graph.Repository.{Graph, NotFound, find_entity_by_name, record_feedback}
use rootmem.Graph.Repository.Traversal
use rootmem.Graph.Repository.Traversal.{get_relation_provenance}

pub record RelatedParams : Type 0 where
  pub entity_name : String
  pub entity_type : String
  pub namespace : String
  pub max_hops : ℕ

pub record RelationView (F : Type 0) : Type 0 where
  pub id : String
  pub subject_entity_id : String
  pub predicate : String
  pub object_entity_id : Option String
  pub object_literal : Option String
  pub confidence : F
  pub belief_alpha : F
  pub belief_beta : F
  pub valid_from : ℕ
  pub valid_to : Option ℕ
  pub is_active : Bool
  pub is_contested : Bool
  pub supersedes : Option String
  pub superseded_by : Option String
  pub derivation : Derivation
  pub source_memory_ids : List String

pub record RelatedResult (F : Type 0) : Type 0 where
  pub entity_found : Bool
  pub entity_id : Option String
  pub relations : List (RelationView F)

pub record FeedbackParams (F : Type 0) : Type 0 where
  pub relation_id : String
  pub namespace : String
  pub outcome : FeedbackOutcome
  pub confidence : F
  pub note : Option String

module _ {F : Type 0} ⦃fl : Float F⦄ where
  -- `RelationView.from_record`
  abbrev pub view_of : RelationRecord F → List String → RelationView F
  view_of r source_memory_ids = record {
    id = r.id;
    subject_entity_id = r.subject_entity_id;
    predicate = r.predicate;
    object_entity_id = r.object_entity_id;
    object_literal = r.object_literal;
    confidence = r.confidence;
    belief_alpha = r.belief_alpha;
    belief_beta = r.belief_beta;
    valid_from = r.valid_from;
    valid_to = r.valid_to;
    is_active = is_active r;
    is_contested = is_contested r;
    supersedes = r.supersedes;
    superseded_by = r.superseded_by;
    derivation = r.derivation;
    source_memory_ids = source_memory_ids;
  }

  -- the loop over `relations`
  abbrev pub views_of : Graph F → List (RelationRecord F) → List (RelationView F)
  views_of graph relations = map (λ r. view_of r (get_relation_provenance graph r.id)) relations

  unfoldable pub related : Text → Graph F → RelatedParams → RelatedResult F
  unfolding find_entity_by_name Traversal.related get_relation_provenance is_contested
  related t graph params =
      elim (find_entity_by_name t graph params.namespace params.entity_type params.entity_name) [
        | none ↦ record { entity_found = false; entity_id = none; relations = [] }
        | some entity ↦ record {
          entity_found = true;
          entity_id = some entity.id;
          relations =
              views_of graph (Traversal.related graph params.namespace entity.id params.max_hops);
        }
      ]

  -- the graph and the relation of the answer
  unfoldable pub feedback :
      BayesianSettings F → Graph F → FeedbackParams F → Result NotFound (Graph F × RelationView F)
  unfolding record_feedback is_contested
  feedback settings graph params = do
    updated ←
        record_feedback settings graph params.namespace params.relation_id params.outcome
          params.confidence
    ok (updated.0, view_of updated.1 [])
