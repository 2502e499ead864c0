-- ===== src/Retrieval/Rerank/Ranked.antt =====
-- What `rerank_memory_hits` of src/rootmem/retrieval/rerank.py returns.
use mathlib.Core.List.{Perm}
use rootmem.Base.{
  ℕ, String, ◌≡◌, refl, true, false, Option, List, [], ◌∷◌, ok, map, string_eq, All, All-of_In, In,
  In-map, bind_ok,
}
use mathlib.Core.List.Perm
use rootmem.Base.Float.{Float, IsOrdered, ◌≼◌}
use rootmem.Base.Sort.{sort, sort-perm, All-sort, IsSorted, sort-IsSorted}
use rootmem.Memory.Models.{SearchResult}
use rootmem.Graph.Models.{EntityRecord}
use rootmem.Graph.Repository.{Graph}
use rootmem.Retrieval.Ranking.{RankTerms, rank_score}
use rootmem.Retrieval.Rerank.{
  RankingContext, RankedHit, scores_more, proximity_in, rerank_memory_hits,
}
use rootmem.Retrieval.Rerank.Scored.{HasProximity, IsScored, proximity_in-Finds, score_hits-ok}

-- A score that is not NaN.
abbrev pub IsNumber : {F : Type 0} ⦃fl : Float F⦄ → F → Type 0
IsNumber x = x ≼ x

module _ {F : Type 0} ⦃fl : Float F⦄ (o : IsOrdered F) (context : RankingContext F)
    (numbers : (terms : RankTerms F) → IsNumber (rank_score terms context.weights).score) where
  abbrev HasNumber : RankedHit F → Type 0
  HasNumber p = IsNumber p.1.score

  scores_more-asym : (a b : RankedHit F) → scores_more a b ≡ true → scores_more b a ≡ false
  scores_more-asym a b h = o.lt_asym b.1.score a.1.score h

  scores_more-weak :
      (a b c : RankedHit F)
      → HasNumber a
      → HasNumber b
      → HasNumber c
      → scores_more c b ≡ false
      → scores_more b a ≡ false
      → scores_more c a ≡ false
  scores_more-weak a b c na nb nc p q = o.not_lt_of_le c.1.score a.1.score (
      o.le_trans c.1.score b.1.score a.1.score (o.le_of_not_lt c.1.score b.1.score nc nb p)
        (o.le_of_not_lt b.1.score a.1.score nb na q))

  numbered :
      (now : ℕ) (P : String → Option F → Type 0) (scored : List (RankedHit F))
      → All (IsScored context now P) scored
      → All HasNumber scored
  numbered now P [] h = tt
  numbered now P (p ∷ scored) ((terms, t, e), h) = (rw e (numbers terms), numbered now P scored h)

  -- The hits in another order, each with the score of its terms, no later one with a higher score.
  pub record IsRanking (hits : List (SearchResult F)) (namespace : String) (now : ℕ)
      (graph : Option (Graph F)) (entity : Option (EntityRecord F)) (ranked : List (RankedHit F))
      : Type 0 where
    pub same_hits : Perm (map (λ (p : RankedHit F). p.0) ranked) hits
    pub among : All (λ (p : RankedHit F). In p.0 hits) ranked
    pub descending : IsSorted scores_more ranked
    pub scored : All (IsScored context now (HasProximity hits namespace graph entity)) ranked

  scored_among :
      (hits : List (SearchResult F)) (scored : List (RankedHit F))
      → map (λ (p : RankedHit F). p.0) scored ≡ hits
      → All (λ (p : RankedHit F). In p.0 hits) scored
  scored_among hits scored same =
      rw (← same) (All-of_In _ scored (λ p i. In-map (λ (q : RankedHit F). q.0) p scored i))

  sorted_hits :
      (hits : List (SearchResult F)) (scored : List (RankedHit F))
      → map (λ (p : RankedHit F). p.0) scored ≡ hits
      → Perm (map (λ (p : RankedHit F). p.0) (sort scores_more scored)) hits
  sorted_hits hits scored same =
      rw (← same) (Perm.map (λ (p : RankedHit F). p.0) (sort-perm scores_more scored))

  -- Where no score is NaN, `rerank_memory_hits` does not raise: it returns the hits that it was given,
  -- each beside the score of its terms, and no later one with a higher score. The terms are the score
  -- of the search, the retention, the salience and the trust of the record and, with a graph and an
  -- entity, the proximity: 1 for a memory that is linked to the entity, 0.5 for one that is linked
  -- only to an entity in a relation with it, 0 for any other.
  pub rerank_memory_hits-IsRanking :
      (hits : List (SearchResult F)) (namespace : String) (now : ℕ) (graph : Option (Graph F))
      (entity : Option (EntityRecord F))
      → (ranked : List (RankedHit F)) × (rerank_memory_hits hits namespace context now graph entity
          ≡ ok ranked)
        × IsRanking hits namespace now graph entity ranked
  unfolding rerank_memory_hits
  rerank_memory_hits-IsRanking hits namespace now graph entity =
      let (scored, q, same, all) =
        score_hits-ok context now (proximity_in hits namespace graph entity)
          (HasProximity hits namespace graph entity) hits
          (proximity_in-Finds hits namespace graph entity) in
      (
        sort scores_more scored,
        bind_ok _ _ q refl,
        record {
          same_hits = sorted_hits hits scored same;
          among = All-sort scores_more _ scored (scored_among hits scored same);
          descending =
              sort-IsSorted scores_more HasNumber scores_more-asym scores_more-weak scored
                (numbered now (HasProximity hits namespace graph entity) scored all);
          scored = All-sort scores_more _ scored all;
        },
      )
