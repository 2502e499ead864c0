-- ===== src/Graph/Repository.antt =====
-- `InMemoryGraphRepository`: a call takes the graph and returns the new one beside its result. The id
-- that `uuid4` draws and the time that the clock shows are arguments. A set of pairs is a list that
-- holds each pair once.
mod State
pub mod Traversal
pub mod Contest
pub mod Rows
pub mod Entities
pub mod Upsert
pub mod Links
pub mod Related
pub use State.{Graph, fits_active}
unfoldable pub use State.{
  normalize_entity_name, normalize_entity_type, find_entity_by_name, upsert_entity,
  get_entity_by_id, find_active_relation, get_relation_by_id, add_pair, put_relation,
}
use rootmem.Base.{
  ℕ, String, Bool, true, false, ◌==◌, ◌&&◌, Option, none, some, List, [], ◌∷◌, Result, ok, raise,
  if◌then◌else◌, string_eq, keep, map,
}
use rootmem.Base.Dict
use rootmem.Base.Dict.{Dict, values}
use rootmem.Base.Float.{Float}
use rootmem.Graph.Models.{
  RelationRecord, NewRelation, ContradictionResolution, Derivation, is_active, is_contested,
  set_contested,
}
use rootmem.Extraction.Contradiction.{
  BayesianSettings, ContradictionDecision, Action, corroborate, contest, supersede, create,
  FeedbackOutcome, resolve_contradiction, apply_feedback, belief_confidence,
}

pub data NotFound : Type 0 where
  not_found : NotFound

abbrev pub is_contest : Action → Bool
is_contest contest = true
is_contest _ = false

abbrev pub is_corroborate : Action → Bool
is_corroborate corroborate = true
is_corroborate _ = false

module _ {F : Type 0} ⦃fl : Float F⦄ where
  open fl use {add, div}

  -- the existing relation with its belief updated in place
  abbrev pub corroborated_row : RelationRecord F → ContradictionDecision F → RelationRecord F
  corroborated_row previous decision = record previous {
    belief_alpha = decision.belief_alpha;
    belief_beta = decision.belief_beta;
    confidence = belief_confidence decision.belief_alpha decision.belief_beta;
    derivation = decision.derivation;
  }

  abbrev supersedes_of : Option (RelationRecord F) → Bool → Option String
  supersedes_of none contested = none
  supersedes_of (some previous) contested = if contested then none else some previous.id

  abbrev pub new_row :
      String
      → ℕ
      → Option (RelationRecord F)
      → NewRelation F
      → ContradictionDecision F
      → RelationRecord F
  new_row new_id now previous relation decision =
      let contested = is_contest decision.action in
      record {
        id = new_id;
        namespace = relation.namespace;
        subject_entity_id = relation.subject_entity_id;
        predicate = relation.predicate;
        object_entity_id = relation.object_entity_id;
        object_literal = relation.object_literal;
        confidence = belief_confidence decision.belief_alpha decision.belief_beta;
        belief_alpha = decision.belief_alpha;
        belief_beta = decision.belief_beta;
        valid_from = now;
        valid_to = none;
        recorded_at = now;
        supersedes = supersedes_of previous contested;
        superseded_by = none;
        derivation = relation.derivation;
        source_memory_id = relation.source_memory_id;
        metadata = if contested then set_contested true relation.metadata else relation.metadata;
      }

  -- the relation before, contested or closed
  abbrev pub old_row : String → ℕ → Bool → RelationRecord F → RelationRecord F
  old_row new_id now contested previous =
      if contested
      then record previous { metadata = set_contested true previous.metadata }
      else record previous { valid_to = some now; superseded_by = some new_id }

  abbrev pub insert_relation :
      String
      → ℕ
      → Graph F
      → Option (RelationRecord F)
      → NewRelation F
      → ContradictionDecision F
      → Graph F × ContradictionResolution F
  insert_relation new_id now g none relation decision =
      let row = new_row new_id now none relation decision in
      (
        put_relation g row,
        record {
          new = row;
          previous = none;
          contested = is_contest decision.action;
          corroborated = false;
        },
      )
  insert_relation new_id now g (some previous) relation decision =
      let contested = is_contest decision.action in
      let row = new_row new_id now (some previous) relation decision in
      let old = old_row new_id now contested previous in
      (
        put_relation (put_relation g row) old,
        record { new = row; previous = some old; contested = contested; corroborated = false },
      )

  abbrev pub update_belief :
      Graph F → RelationRecord F → ContradictionDecision F → Graph F × ContradictionResolution F
  update_belief g previous decision =
      let updated = corroborated_row previous decision in
      (
        put_relation g updated,
        record { new = updated; previous = none; contested = false; corroborated = true },
      )

  -- `resolve_contradiction` never corroborates without a relation before: the `assert` of the code
  abbrev pub apply_decision :
      String
      → ℕ
      → Graph F
      → Option (RelationRecord F)
      → NewRelation F
      → ContradictionDecision F
      → Graph F × ContradictionResolution F
  apply_decision new_id now g none relation decision =
      insert_relation new_id now g none relation decision
  apply_decision new_id now g (some previous) relation decision =
      if is_corroborate decision.action
      then update_belief g previous decision
      else insert_relation new_id now g (some previous) relation decision

  unfoldable pub create_relation :
      BayesianSettings F
      → String
      → ℕ
      → Graph F
      → NewRelation F
      → Graph F × ContradictionResolution F
  unfolding resolve_contradiction belief_confidence find_active_relation put_relation
  create_relation settings new_id now g relation =
      let previous =
        find_active_relation g relation.namespace relation.subject_entity_id relation.predicate in
      apply_decision new_id now g previous relation
        (resolve_contradiction previous relation relation.derivation settings)

  abbrev pub feedback_row :
      BayesianSettings F → FeedbackOutcome → F → RelationRecord F → RelationRecord F
  feedback_row settings outcome reported r =
      let belief = apply_feedback r.belief_alpha r.belief_beta outcome reported settings in
      record r {
        belief_alpha = belief.0;
        belief_beta = belief.1;
        confidence = belief_confidence belief.0 belief.1;
      }

  unfoldable pub record_feedback :
      BayesianSettings F
      → Graph F
      → String
      → String
      → FeedbackOutcome
      → F
      → Result NotFound (Graph F × RelationRecord F)
  unfolding get_relation_by_id
  record_feedback settings g namespace relation_id outcome reported =
      elim (get_relation_by_id g namespace relation_id) [
        | none ↦ raise not_found
        | some r ↦
            let updated = feedback_row settings outcome reported r in
            ok (record g { relations = Dict.put g.relations relation_id updated }, updated)
      ]

  abbrev pub in_namespace : Option String → RelationRecord F → Bool
  in_namespace none r = true
  in_namespace (some namespace) r = r.namespace == namespace

  unfoldable pub list_contested : Graph F → Option String → List (RelationRecord F)
  list_contested g namespace =
      keep (λ r. is_contested r && (is_active r && in_namespace namespace r)) (values g.relations)

  abbrev pub winner_row : String → RelationRecord F → RelationRecord F
  winner_row loser_id winner = record winner {
    metadata = set_contested false winner.metadata;
    supersedes = some loser_id;
  }

  abbrev pub loser_row : String → ℕ → RelationRecord F → RelationRecord F
  loser_row winner_id now loser = record loser {
    metadata = set_contested false loser.metadata;
    valid_to = some now;
    superseded_by = some winner_id;
  }

  abbrev pub settle : Graph F → String → String → ℕ → RelationRecord F → RelationRecord F → Graph F
  settle g winner_id loser_id now winner loser = record g {
    relations =
        Dict.put (Dict.put g.relations winner_id (winner_row loser_id winner)) loser_id
          (loser_row winner_id now loser);
  }

  unfoldable pub resolve_contest :
      Graph F → String → String → String → ℕ → Result NotFound (Graph F)
  unfolding get_relation_by_id
  resolve_contest g namespace winner_id loser_id now =
      elim (get_relation_by_id g namespace winner_id) [
        | none ↦ raise not_found
        | some winner ↦ elim (get_relation_by_id g namespace loser_id) [
          | none ↦ raise not_found
          | some loser ↦ ok (settle g winner_id loser_id now winner loser)
        ]
      ]
