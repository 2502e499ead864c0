-- ===== src/Extraction/Pipeline.antt =====
-- src/rootmem/extraction/pipeline.py. The graph, the ids it has drawn and the local variables of
-- `apply_extraction` are a record that each step takes and returns.
pub mod Names
pub mod Steps
pub mod Relations
pub mod Applied
use rootmem.Base.{
  ℕ, suc, String, Option, none, some, List, [], ◌∷◌, ◌++◌, Result, ok, raise, ◌>>=◌, if◌then◌else◌,
  string_eq, pair_eq,
}
use rootmem.Base.Dict
use rootmem.Base.Dict.{Dict, values}
use rootmem.Base.Float.{Float}
use rootmem.Base.Json.{end}
use rootmem.Base.Text.{Text}
use rootmem.Base.Supply.{Supply}
use rootmem.Graph.Models.{
  NewEntity, NewRelation, Derivation, ContradictionResolution, object_present,
}
use rootmem.Graph.Repository.{Graph, upsert_entity, create_relation}
use rootmem.Graph.Repository.Traversal.{link_memory_entity, link_relation_provenance}
use rootmem.Extraction.Contradiction.{BayesianSettings}
use rootmem.Extraction.Models.{
  ExtractedEntity, ExtractedRelation, ExtractionResult, ApplyExtractionResult,
}

-- `assert relation.object_type is not None`, and `NewRelation` without an object.
pub data Refused : Type 0 where
  assertion_error invalid_relation : Refused

-- What `apply_extraction` is called with, less the graph and the extraction.
pub record Call (F : Type 0) : Type 0 where
  pub text : Text
  pub supply : Supply
  pub settings : BayesianSettings F
  pub namespace : String
  -- `source_memory_ids or []`
  pub source_memory_ids : List String
  pub derivation : Derivation

-- The graph and the local variables.
pub record Progress (F : Type 0) : Type 0 where
  pub graph : Graph F
  pub drawn : ℕ
  pub entity_ids : Dict (String × String) String
  pub resolutions : List (ContradictionResolution F)

abbrev pub single : List String → Option String
single [] = none
single (x ∷ []) = some x
single (x ∷ y ∷ xs) = none

module _ {F : Type 0} where
  abbrev pub named : Call F → String → String → NewEntity F
  named c name entity_type = record {
    namespace = c.namespace;
    entity_type = entity_type;
    name = name;
    attributes = end;
  }

  abbrev pub remember : Progress F → String × String → Graph F → String → Progress F
  remember p key g id = record p {
    graph = g;
    drawn = suc p.drawn;
    entity_ids = Dict.put p.entity_ids key id;
  }

  -- `_resolve`
  unfoldable pub resolve_name : Call F → Progress F → String → String → Progress F × String
  unfolding upsert_entity
  resolve_name c p name entity_type = elim (Dict.get p.entity_ids (name, entity_type)) [
    | some id ↦ (p, id)
    | none ↦
        let upserted =
          upsert_entity c.text (c.supply.uuid p.drawn) (c.supply.clock p.drawn) p.graph
            (named c name entity_type) in
        (remember p (name, entity_type) upserted.0 upserted.1.id, upserted.1.id)
  ]

  unfoldable pub resolve_entities : Call F → Progress F → List ExtractedEntity → Progress F
  unfolding resolve_name
  resolve_entities c p [] = p
  resolve_entities c p (e ∷ entities) =
      resolve_entities c (resolve_name c p e.name e.entity_type).0 entities

  -- `object_entity_id`
  unfoldable pub resolve_object :
      Call F → Progress F → ExtractedRelation F → Result Refused (Progress F × Option String)
  unfolding resolve_name
  resolve_object c p relation = elim relation.object_name [
    | none ↦ ok (p, none)
    | some name ↦ elim relation.object_type [
      | none ↦ raise assertion_error
      | some entity_type ↦
          let resolved = resolve_name c p name entity_type in ok (resolved.0, some resolved.1)
    ]
  ]

  abbrev pub new_relation : Call F → ExtractedRelation F → String → Option String → NewRelation F
  new_relation c relation subject_id object_entity_id = record {
    namespace = c.namespace;
    subject_entity_id = subject_id;
    predicate = relation.predicate;
    object_entity_id = object_entity_id;
    object_literal = relation.object_literal;
    confidence = relation.confidence;
    derivation = c.derivation;
    source_memory_id = single c.source_memory_ids;
    metadata = end;
  }

  unfoldable pub link_sources : Graph F → String → List String → Graph F
  unfolding link_relation_provenance
  link_sources g relation_id [] = g
  link_sources g relation_id (memory_id ∷ ids) =
      link_sources (link_relation_provenance g relation_id memory_id) relation_id ids

  unfoldable pub link_memories : Graph F → String → List String → Graph F
  unfolding link_memory_entity
  link_memories g entity_id [] = g
  link_memories g entity_id (memory_id ∷ ids) =
      link_memories (link_memory_entity g memory_id entity_id) entity_id ids

  unfoldable pub link_entities : Graph F → List String → List String → Graph F
  unfolding link_memories
  link_entities g [] memory_ids = g
  link_entities g (entity_id ∷ ids) memory_ids =
      link_entities (link_memories g entity_id memory_ids) ids memory_ids

module _ {F : Type 0} ⦃fl : Float F⦄ where
  -- `create_relation`, and the relation's provenance
  unfoldable pub relate : Call F → Progress F → NewRelation F → Progress F
  unfolding create_relation link_sources
  relate c p relation =
      let created =
        create_relation c.settings (c.supply.uuid p.drawn) (c.supply.clock p.drawn) p.graph
          relation in
      record p {
        graph = link_sources created.0 created.1.new.id c.source_memory_ids;
        drawn = suc p.drawn;
        resolutions = p.resolutions ++ (created.1 ∷ []);
      }

  unfoldable pub relate_if_valid : Call F → Progress F → NewRelation F → Result Refused (Progress F)
  unfolding object_present relate
  relate_if_valid c p relation =
      if object_present relation then ok (relate c p relation) else raise invalid_relation

  -- the body of the loop over `result.relations`
  unfoldable pub apply_relation :
      Call F → Progress F → ExtractedRelation F → Result Refused (Progress F)
  unfolding resolve_name resolve_object relate_if_valid
  apply_relation c p relation =
      let subject = resolve_name c p relation.subject_name relation.subject_type in
      resolve_object c subject.0 relation >>= λ object.
      relate_if_valid c object.0 (new_relation c relation subject.1 object.1)

  unfoldable pub apply_relations :
      Call F → Progress F → List (ExtractedRelation F) → Result Refused (Progress F)
  unfolding apply_relation
  apply_relations c p [] = ok p
  apply_relations c p (relation ∷ relations) =
      apply_relation c p relation >>= λ q. apply_relations c q relations

  abbrev pub finish : Call F → Progress F → Progress F × ApplyExtractionResult F
  finish c p =
      let ids = values p.entity_ids in
      (
        record p { graph = link_entities p.graph ids c.source_memory_ids },
        record { resolutions = p.resolutions; entity_ids = ids },
      )

  abbrev pub starting : Graph F → ℕ → Progress F
  starting g drawn = record { graph = g; drawn = drawn; entity_ids = []; resolutions = [] }

  unfoldable pub apply_extraction :
      Call F
      → Graph F
      → ℕ
      → ExtractionResult F
      → Result Refused (Progress F × ApplyExtractionResult F)
  unfolding resolve_entities apply_relations link_entities
  apply_extraction c g drawn result =
      apply_relations c (resolve_entities c (starting g drawn) result.entities) result.relations
      >>= λ p. ok (finish c p)
