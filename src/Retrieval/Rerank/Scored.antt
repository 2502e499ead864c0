-- ===== src/Retrieval/Rerank/Scored.antt =====
-- The loop of `rerank_memory_hits` of src/rootmem/retrieval/rerank.py: the score of each hit.
use rootmem.Base.{
  ℕ, String, ◌≡◌, refl, ap, Option, none, some, List, [], ◌∷◌, ok, map, string_eq, All, All-of_In,
  In, In-cases, In-map, inl, inr, Bool-cases, eq_of_==, ◌==◌, ◌∙◌,
}
use mathlib.Core.Option
use rootmem.Base.Dict
use rootmem.Base.Dict.{Dict, get-put_self, get-put_ne}
use rootmem.Base.Float.{Float}
use rootmem.Memory.Models.{SearchResult}
use rootmem.Graph.Models.{EntityRecord}
use rootmem.Graph.Repository.{Graph}
use rootmem.Graph.Repository.Traversal.{related, entity_ids_for_memories}
use rootmem.Retrieval.Decay.{retention as strength}
use rootmem.Retrieval.Trust.{memory_trust}
use rootmem.Retrieval.Rerank.Proximity.{IsProximity, proximity_of-IsProximity}
use rootmem.Retrieval.Ranking.{RankTerms, rank_score}
use rootmem.Retrieval.Rerank.{
  RankingContext, RankedHit, proximities, proximity_of, graph_proximity, proximity_for, terms_of,
  score_hits, neighbours, proximity_in,
}

module _ {F : Type 0} ⦃fl : Float F⦄ where
  abbrev pub hit_id : SearchResult F → String
  hit_id h = h.record_.id

  module _ (entity_id : String) (near : List String) (linked : Dict String (List String)) where
    abbrev value_of : String → F
    value_of m = proximity_of entity_id near (Option.get_or (Dict.get linked m) [])

    proximities-kept :
        (ids : List String) (d : Dict String F) (id : String)
        → Dict.get d id ≡ some (value_of id)
        → Dict.get (proximities entity_id near linked d ids) id ≡ some (value_of id)
    unfolding proximities
    proximities-kept [] d id h = h
    proximities-kept (m ∷ ids) d id h =
        proximities-kept ids (Dict.put d m (value_of m)) id (elim (Bool-cases (m == id)) [
          | inl same ↦ rw (eq_of_== m id same) (get-put_self d id (value_of id))
          | inr differ ↦ get-put_ne d m id (value_of m) differ ∙ h
        ])

    get-proximities :
        (ids : List String) (d : Dict String F) (id : String)
        → In id ids
        → Dict.get (proximities entity_id near linked d ids) id ≡ some (value_of id)
    unfolding proximities
    get-proximities [] d id i = elim i [ ]
    get-proximities (m ∷ ids) d id i = elim (In-cases id m i) [
      | inl same ↦
          proximities-kept ids (Dict.put d m (value_of m)) id
            (rw same (get-put_self d m (value_of m)))
      | inr tail ↦ get-proximities ids (Dict.put d m (value_of m)) id tail
    ]

  -- The graph proximity of a memory among the hits: with a graph and an entity, the one by which it is
  -- near the entity; otherwise none.
  abbrev pub HasProximity :
      List (SearchResult F)
      → String
      → Option (Graph F)
      → Option (EntityRecord F)
      → String
      → Option F
      → Type 0
  HasProximity hits namespace none entity id proximity = proximity ≡ none
  HasProximity hits namespace (some graph) none id proximity = proximity ≡ none
  HasProximity hits namespace (some graph) (some entity) id proximity =
      (p : F) × (proximity ≡ some p)
      × IsProximity entity.id (related graph namespace entity.id 1)
          (Option.get_or (Dict.get (entity_ids_for_memories graph namespace (map hit_id hits)) id)
            [])
          p

  -- What the loop over `hits` finds for an id.
  abbrev Finds : Option (Dict String F) → (String → Option F → Type 0) → String → Type 0
  Finds proximity P id = (p : Option F) × (proximity_for proximity id ≡ ok p) × P id p

  pub proximity_in-Finds :
      (hits : List (SearchResult F)) (namespace : String) (graph : Option (Graph F))
      (entity : Option (EntityRecord F))
      → All
          (λ h.
            Finds
              (proximity_in hits namespace graph entity)
              (HasProximity hits namespace graph entity)
              (hit_id h))
          hits
  unfolding graph_proximity
  proximity_in-Finds hits namespace none entity = All-of_In _ hits (λ h i. (none, refl, refl))
  proximity_in-Finds hits namespace (some g) none = All-of_In _ hits (λ h i. (none, refl, refl))
  proximity_in-Finds hits namespace (some g) (some e) = All-of_In _ hits (λ h i.
      let relations = related g namespace e.id 1 in
      let linked = entity_ids_for_memories g namespace (map hit_id hits) in
      let near = neighbours e.id relations in
      let p = value_of e.id near linked (hit_id h) in
      (
        some p,
        rw
            (
              proximity_for,
              get-proximities e.id near linked (map hit_id hits) [] (hit_id h)
                  (In-map hit_id h hits i),
            )
            refl,
        (
          p,
          refl,
          proximity_of-IsProximity e.id relations (Option.get_or (Dict.get linked (hit_id h)) []),
        ),
      ))

  -- The terms of a hit: what the search scored, what the record holds, and how near it is.
  pub record IsTerms (context : RankingContext F) (now : ℕ) (P : String → Option F → Type 0)
      (hit : SearchResult F) (terms : RankTerms F) : Type 0 where
    pub relevance : terms.relevance ≡ hit.score
    pub retention :
        terms.retention
        ≡ some (
            strength now hit.record_.last_accessed_at hit.record_.created_at
              hit.record_.access_count hit.record_.salience_score context.retention)
    pub salience : terms.salience ≡ hit.record_.salience_score
    pub trust :
        terms.trust ≡ some (memory_trust hit.record_.source hit.record_.confidence context.trust)
    pub graph_proximity : P hit.record_.id terms.graph_proximity

  -- A hit beside the score of its terms.
  abbrev pub IsScored : RankingContext F → ℕ → (String → Option F → Type 0) → RankedHit F → Type 0
  IsScored context now P (hit, score) =
      (terms : RankTerms F) × IsTerms context now P hit terms
      × (score ≡ rank_score terms context.weights)

  pub score_hits-ok :
      (context : RankingContext F) (now : ℕ) (proximity : Option (Dict String F))
      (P : String → Option F → Type 0) (hits : List (SearchResult F))
      → All (λ h. Finds proximity P (hit_id h)) hits
      → (scored : List (RankedHit F)) × (score_hits context now proximity hits ≡ ok scored)
        × (map (λ (p : RankedHit F). p.0) scored ≡ hits)
        × All (IsScored context now P) scored
  unfolding score_hits
  score_hits-ok context now proximity P [] h = ([], refl, refl, tt)
  score_hits-ok context now proximity P (hit ∷ hits) ((p, found, near), h) =
      let (scored, q, same, all) = score_hits-ok context now proximity P hits h in
      let terms = terms_of context now hit p in
      (
        (hit, rank_score terms context.weights) ∷ scored,
        rw (found, q) refl,
        ap (λ l. hit ∷ l) same,
        (
          (
            terms,
            record {
              relevance = refl;
              retention = refl;
              salience = refl;
              trust = refl;
              graph_proximity = near;
            },
            refl,
          ),
          all,
        ),
      )
