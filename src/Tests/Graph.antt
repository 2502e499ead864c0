-- ===== src/Tests/Graph.antt =====
-- The knowledge graph with two contested relations.
use rootmem.Base.{
  ◌↔◌, false, ℕ, String, ◌≡◌, ◌≢◌, refl, true, false, none, some, [], ◌∷◌, ok, Ensures, string_eq,
  ne_of_==,
}
use rootmem.Base.Dict
use rootmem.Base.Float.{◌≼◌}
use rootmem.Base.Json.{end, field, boolean}
use rootmem.Tests.Numbers.{number, number-IsOrdered, number-IsMonotone}
use rootmem.Tests.Memory.{plain}
use rootmem.Graph.Models.{
  distilled, NewEntity, RelationRecord, NewRelation, extracted, is_contested,
}
use rootmem.Graph.Repository.{
  Graph, get_relation_by_id, upsert_entity, create_relation, record_feedback, resolve_contest,
}
use rootmem.Graph.Repository.Contest.{resolve_contest_lem}
use rootmem.Graph.Repository.Entities.{upsert-upsert}
use rootmem.Graph.Repository.Rows.{
  IsGraph, create_relation-IsGraph, record_feedback-IsGraph, resolve_contest-IsGraph,
}
use rootmem.Extraction.Contradiction.{
  corroborate, contest, supersede, create, same_object, BayesianSettings, confirmed,
  resolve_contradiction, apply_feedback,
}
use rootmem.Extraction.Contradiction.Actions.{Resists, resolve_contradiction_lem}
use rootmem.Extraction.Contradiction.Decision.{
  IsBelief, IsSettings, Moves, resolve_contradiction-IsBelief, apply_feedback_lem,
}

abbrev pub settings : BayesianSettings ℕ
settings = record {
  prior_strength = 10;
  supersede_margin = 0;
  reliability_extracted = 1;
  reliability_distilled = 1;
  reliability_feedback = 1;
}

pub settings_admitted : IsSettings number-IsOrdered number-IsMonotone settings
settings_admitted = record {
  prior_nonneg = refl;
  prior_finite = refl;
  extracted_unit = (refl, refl);
  distilled_unit = (refl, refl);
  feedback_unit = (refl, refl);
}

abbrev pub claim : String → RelationRecord ℕ
claim id = record {
  id = id;
  namespace = "default";
  subject_entity_id = "sky";
  predicate = "colour";
  object_entity_id = none;
  object_literal = some id;
  confidence = 1;
  belief_alpha = 2;
  belief_beta = 1;
  valid_from = 1;
  valid_to = none;
  recorded_at = 1;
  supersedes = none;
  superseded_by = none;
  derivation = extracted;
  source_memory_id = none;
  metadata = field "contested" (boolean true) end;
}

abbrev rival : NewRelation ℕ
rival = record {
  namespace = "default";
  subject_entity_id = "sky";
  predicate = "colour";
  object_entity_id = none;
  object_literal = some "red";
  confidence = 1;
  derivation = extracted;
  source_memory_id = none;
  metadata = end;
}

abbrev pub contested_graph : Graph ℕ
contested_graph = record {
  entities = [];
  relations = ("a", claim "a") ∷ ("b", claim "b") ∷ [];
  memory_entities = [];
  relation_provenance = [];
}

pub contested_graph-IsGraph : IsGraph number-IsOrdered number-IsMonotone contested_graph
unfolding Dict.get
contested_graph-IsGraph = record {
  keyed = (refl, refl, (refl, refl, tt));
  rows = (
    record { closed_iff_superseded = refl; belief = (refl, refl) },
    (record { closed_iff_superseded = refl; belief = (refl, refl) }, tt),
  );
}

found_a : get_relation_by_id contested_graph "default" "a" ≡ some (claim "a")
unfolding get_relation_by_id Dict.get
found_a = refl

found_b : get_relation_by_id contested_graph "default" "b" ≡ some (claim "b")
unfolding get_relation_by_id Dict.get
found_b = refl

distinct : ◌≢◌ {A = String} "a" "b"
distinct = ne_of_== "a" "b" refl

resolve_contest_lem_example :
    (after : Graph ℕ) × (w : RelationRecord ℕ) × (l : RelationRecord ℕ) × (resolve_contest
        contested_graph "default" "a" "b" 9
      ≡ ok after)
    × (Dict.get after.relations "a" ≡ some w)
    × (Dict.get after.relations "b" ≡ some l)
    × (is_contested w ≡ false)
    × (is_contested l ≡ false)
    × (w.valid_to ≡ none)
    × (w.supersedes ≡ some "b")
    × (l.valid_to ≡ some 9)
    × (l.superseded_by ≡ some "a")
    × ((other : String)
        → other ≢ "a"
        → other ≢ "b"
        → Dict.get after.relations other ≡ Dict.get contested_graph.relations other)
    × (after.entities ≡ contested_graph.entities)
    × (after.memory_entities ≡ contested_graph.memory_entities)
    × (after.relation_provenance ≡ contested_graph.relation_provenance)
resolve_contest_lem_example =
    resolve_contest_lem contested_graph "default" "a" "b" 9 (claim "a") (claim "b") distinct found_a
      found_b

create_relation-IsGraph_example :
    IsGraph number-IsOrdered number-IsMonotone
      (create_relation settings "n" 9 contested_graph rival).0
create_relation-IsGraph_example =
    create_relation-IsGraph number-IsOrdered number-IsMonotone settings "n" 9 contested_graph rival
      settings_admitted (refl, refl) contested_graph-IsGraph

record_feedback-IsGraph_example :
    Ensures
      (λ (p : Graph ℕ × RelationRecord ℕ). IsGraph number-IsOrdered number-IsMonotone p.0)
      (record_feedback settings contested_graph "default" "a" confirmed 1)
record_feedback-IsGraph_example =
    record_feedback-IsGraph number-IsOrdered number-IsMonotone settings contested_graph "default"
      "a" confirmed 1 settings_admitted (refl, refl) contested_graph-IsGraph

resolve_contest-IsGraph_example :
    Ensures
      (IsGraph number-IsOrdered number-IsMonotone)
      (resolve_contest contested_graph "default" "a" "b" 9)
resolve_contest-IsGraph_example =
    resolve_contest-IsGraph number-IsOrdered number-IsMonotone contested_graph "default" "a" "b" 9
      contested_graph-IsGraph

abbrev sky : NewEntity ℕ
sky = record { namespace = "default"; entity_type = "thing"; name = "sky"; attributes = end }

upsert-upsert_example :
    upsert_entity plain "e2" 3 (upsert_entity plain "e1" 2 contested_graph sky).0 sky
    ≡ upsert_entity plain "e1" 2 contested_graph sky
unfolding Dict.get
upsert-upsert_example =
    upsert-upsert plain "e1" "e2" 2 3 contested_graph sky sky refl refl refl refl

resolve_contradiction-IsBelief_example :
    IsBelief number-IsOrdered number-IsMonotone
      (resolve_contradiction (some (claim "a")) rival extracted settings).belief_alpha
      (resolve_contradiction (some (claim "a")) rival extracted settings).belief_beta
resolve_contradiction-IsBelief_example =
    resolve_contradiction-IsBelief number-IsOrdered number-IsMonotone (some (claim "a")) rival
      extracted settings settings_admitted (refl, refl) (refl, refl)

apply_feedback_lem_example :
    Moves number-IsOrdered number-IsMonotone 2 1 confirmed 1 settings
      (apply_feedback 2 1 confirmed 1 settings)
    × (2 ≼ (apply_feedback 2 1 confirmed 1 settings).0)
    × (1 ≼ (apply_feedback 2 1 confirmed 1 settings).1)
    × IsBelief number-IsOrdered number-IsMonotone
        (apply_feedback 2 1 confirmed 1 settings).0
        (apply_feedback 2 1 confirmed 1 settings).1
apply_feedback_lem_example =
    apply_feedback_lem number-IsOrdered number-IsMonotone 2 1 1 confirmed settings settings_admitted
      (refl, refl) (refl, refl)

resolve_contradiction_lem_example :
    (((resolve_contradiction (some (claim "a")) rival extracted settings).action ≡ corroborate) ↔ (
      ((claim "a").object_entity_id ≡ rival.object_entity_id)
      × ((claim "a").object_literal ≡ rival.object_literal)))
    × ((resolve_contradiction (some (claim "a")) rival extracted settings).action ≡ corroborate
        → (claim "a").derivation ≡ distilled
        → (resolve_contradiction (some (claim "a")) rival extracted settings).derivation
          ≡ distilled)
    × (((resolve_contradiction (some (claim "a")) rival extracted settings).action ≡ contest)
        ↔ ((same_object (claim "a") rival ≡ false) × Resists (claim "a") rival extracted settings))
    × (((resolve_contradiction (some (claim "a")) rival extracted settings).action ≡ supersede) ↔ (
        (same_object (claim "a") rival ≡ false) × ¬ Resists (claim "a") rival extracted settings))
    × (¬ ((resolve_contradiction (some (claim "a")) rival extracted settings).action ≡ create))
resolve_contradiction_lem_example = resolve_contradiction_lem (claim "a") rival extracted settings
