-- ===== src/Retrieval/Rerank.antt =====
-- src/rootmem/retrieval/rerank.py: the candidates of a search, reordered by several factors.
pub mod Proximity
pub mod Scored
pub mod Ranked
use rootmem.Base.{
  ℕ, String, Bool, not, ◌==◌, Option, none, some, List, [], ◌∷◌, ◌++◌, Result, ok, raise, ◌>>=◌,
  map, keep, any, cons_ok, if◌then◌else◌, string_eq,
}
use mathlib.Core.Option
use rootmem.Base.Dict
use rootmem.Base.Dict.{Dict}
use rootmem.Base.Float.{Float}
use rootmem.Base.Sort.{sort}
use rootmem.Memory.Models.{SearchResult}
use rootmem.Graph.Models.{EntityRecord, RelationRecord}
use rootmem.Graph.Repository.{Graph}
use rootmem.Graph.Repository.Traversal.{has, related, entity_ids_for_memories}
use rootmem.Retrieval.Decay.{RetentionParams, retention}
use rootmem.Retrieval.Trust.{TrustParams, memory_trust}
use rootmem.Retrieval.Ranking.{RankWeights, RankTerms, RankedScore, rank_score}

-- `proximity[record.id]` without the key
pub data KeyError : Type 0 where
  key_error : KeyError

-- The clock is an argument of the search.
pub record RankingContext (F : Type 0) : Type 0 where
  pub weights : RankWeights F
  pub retention : RetentionParams F
  pub trust : TrustParams F
  pub overfetch : ℕ

-- A hit with its score.
abbrev pub RankedHit : Type 0 → Type 0
RankedHit F = SearchResult F × RankedScore F

abbrev pub optional : Option String → List String
optional none = []
optional (some x) = x ∷ []

module _ {F : Type 0} where
  -- the subjects and objects, without the entity itself
  unfoldable pub ends : List (RelationRecord F) → List String
  ends [] = []
  ends (r ∷ relations) = r.subject_entity_id ∷ (optional r.object_entity_id ++ ends relations)

  abbrev pub neighbours : String → List (RelationRecord F) → List String
  neighbours entity_id relations = keep (λ x. not (x == entity_id)) (ends relations)

module _ {F : Type 0} ⦃fl : Float F⦄ where
  abbrev pub proximity_of : String → List String → List String → F
  proximity_of entity_id near entities =
      if has entities entity_id
      then fl.of_ℕ 1
      else if any (λ x. has near x) entities
      then fl.decimal 5 1
      else fl.of_ℕ 0

  -- the loop over `memory_ids`
  unfoldable pub proximities :
      String → List String → Dict String (List String) → Dict String F → List String → Dict String F
  proximities entity_id near linked proximity [] = proximity
  proximities entity_id near linked proximity (memory_id ∷ memory_ids) =
      proximities entity_id near linked
        (Dict.put proximity memory_id
          (proximity_of entity_id near (Option.get_or (Dict.get linked memory_id) [])))
        memory_ids

  unfoldable pub graph_proximity :
      List (SearchResult F) → String → EntityRecord F → Graph F → Dict String F
  unfolding ends proximities entity_ids_for_memories related
  graph_proximity hits namespace entity graph =
      let memory_ids = map (λ (h : SearchResult F). h.record_.id) hits in
      let linked = entity_ids_for_memories graph namespace memory_ids in
      proximities entity.id (neighbours entity.id (related graph namespace entity.id 1)) linked []
        memory_ids

  abbrev pub proximity_for : Option (Dict String F) → String → Result KeyError (Option F)
  proximity_for none id = ok none
  proximity_for (some proximity) id = elim (Dict.get proximity id) [
    | none ↦ raise key_error
    | some p ↦ ok (some p)
  ]

  abbrev pub terms_of : RankingContext F → ℕ → SearchResult F → Option F → RankTerms F
  terms_of context now hit proximity = record {
    relevance = hit.score;
    retention = some (
        retention now hit.record_.last_accessed_at hit.record_.created_at hit.record_.access_count
          hit.record_.salience_score context.retention);
    salience = hit.record_.salience_score;
    trust = some (memory_trust hit.record_.source hit.record_.confidence context.trust);
    graph_proximity = proximity;
  }

  -- the loop over `hits`
  unfoldable pub score_hits :
      RankingContext F
      → ℕ
      → Option (Dict String F)
      → List (SearchResult F)
      → Result KeyError (List (RankedHit F))
  unfolding rank_score retention memory_trust
  score_hits context now proximity [] = ok []
  score_hits context now proximity (hit ∷ hits) =
      let rest = score_hits context now proximity hits in
      do
        p ← proximity_for proximity hit.record_.id
        cons_ok (hit, rank_score (terms_of context now hit p) context.weights) rest

  -- `key=lambda pair: pair[1].score, reverse=True`
  abbrev pub scores_more : RankedHit F → RankedHit F → Bool
  scores_more a b = fl.lt b.1.score a.1.score

  abbrev pub proximity_in :
      List (SearchResult F)
      → String
      → Option (Graph F)
      → Option (EntityRecord F)
      → Option (Dict String F)
  proximity_in hits namespace (some graph) (some entity) =
      some (graph_proximity hits namespace entity graph)
  proximity_in hits namespace _ _ = none

  unfoldable pub rerank_memory_hits :
      List (SearchResult F)
      → String
      → RankingContext F
      → ℕ
      → Option (Graph F)
      → Option (EntityRecord F)
      → Result KeyError (List (RankedHit F))
  unfolding graph_proximity score_hits
  rerank_memory_hits hits namespace context now graph entity =
      score_hits context now (proximity_in hits namespace graph entity) hits >>= λ scored.
      ok (sort scores_more scored)
