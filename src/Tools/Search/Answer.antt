-- ===== src/Tools/Search/Answer.antt =====
-- What `search` of src/rootmem/integration/mcp/tools/search.py answers.
use rootmem.Base.{
  ℕ, ◌*◌, ◌≤◌, String, ◌≡◌, refl, ap, sym, Bool, true, Option, none, some, List, [], ◌∷◌, ok,
  string_eq, arith, All, All-at, All-map_imp, All-take, In, length, length-take-le, length-map, map,
  take, bind_ok,
}
use mathlib.Core.Option
use rootmem.Base.Dict.{values}
use rootmem.Base.Float.{Float, IsOrdered}
use rootmem.Base.Sort.{IsSorted, take-IsSorted}
use rootmem.Embedding.{AnswersEach}
use rootmem.Memory.Models.{MemoryRecord, SearchResult}
use rootmem.Memory.Repository.{Records, record_access}
use rootmem.Memory.Repository.Search.{eligible}
use rootmem.Memory.Vectors.{IsEmbedded}
use rootmem.Graph.Repository.{Graph}
use rootmem.Retrieval.Ranking.{RankTerms, rank_score}
use rootmem.Retrieval.Rerank.{RankingContext, RankedHit, scores_more, rerank_memory_hits}
use rootmem.Retrieval.Rerank.Ranked.{IsNumber, rerank_memory_hits-IsRanking}
use rootmem.Tools.Search.{
  SearchParams, SearchResultItem, Services, track, plain_item, ranked_item, named_entity, reranked,
  search,
}
use rootmem.Tools.Search.Candidates.{IsFound, candidates-Finds}

module _ {F : Type 0} ⦃fl : Float F⦄ where
  -- The item shows a stored row that is alive, in the namespace and of the source.
  abbrev pub Shows : Records F → SearchParams → SearchResultItem F → Type 0
  Shows records params item =
      (r : MemoryRecord F) × In r (values records)
      × (eligible params.namespace params.source r ≡ true)
      × (item.id ≡ r.id)
      × (item.content ≡ r.content)

  abbrev pub item_more : SearchResultItem F → SearchResultItem F → Bool
  item_more a b = fl.lt b.score a.score

  -- The accesses that an answer counts: none without a ranking or for another instant.
  abbrev pub accesses :
      Records F
      → SearchParams
      → Option (RankingContext F)
      → ℕ
      → List (SearchResultItem F)
      → Records F
  accesses records params none clock items = records
  accesses records params (some ranking) clock items = elim params.as_of [
    | some t ↦ records
    | none ↦ record_access records (map (λ (i : SearchResultItem F). i.id) items) clock
  ]

  -- The items are sorted where there is a ranking.
  abbrev pub IsDescending : Option (RankingContext F) → List (SearchResultItem F) → Type 0
  IsDescending none items = Unit
  IsDescending (some ranking) items = IsSorted item_more items

  pub record IsResponse (records : Records F) (params : SearchParams)
      (ranking : Option (RankingContext F)) (clock : ℕ) (a : Records F × List (SearchResultItem F))
      : Type 0 where
    pub limited : length a.1 ≤ params.limit
    pub shown : All (Shows records params) a.1
    pub descending : IsDescending ranking a.1
    pub counted : a.0 ≡ accesses records params ranking clock a.1

  All-map :
      {A : Type 0} (P : SearchResultItem F → Type 0) (f : A → SearchResultItem F) (xs : List A)
      → All (λ x. P (f x)) xs
      → All P (map f xs)
  All-map P f [] h = tt
  All-map P f (x ∷ xs) (p, h) = (p, All-map P f xs h)

module _ {F : Type 0} ⦃fl : Float F⦄ (services : Services F) where
  ranked_item-IsSorted :
      (ranked : List (RankedHit F))
      → IsSorted scores_more ranked
      → IsSorted item_more (map (ranked_item services) ranked)
  ranked_item-IsSorted [] s = tt
  ranked_item-IsSorted (p ∷ ranked) (h, s) =
      (All-map _ (ranked_item services) ranked h, ranked_item-IsSorted ranked s)

  map_ids :
      (ranked : List (RankedHit F))
      → map (λ (i : SearchResultItem F). i.id) (map (ranked_item services) ranked)
        ≡ map (λ (p : RankedHit F). p.0.record_.id) ranked
  map_ids [] = refl
  map_ids (p ∷ ranked) = ap (λ l. p.0.record_.id ∷ l) (map_ids ranked)

  reranked-ok :
      (ranking : RankingContext F) (params : SearchParams) (now : ℕ) (graph : Option (Graph F))
      (hits : List (SearchResult F)) {ranked : List (RankedHit F)}
      → rerank_memory_hits hits params.namespace ranking now graph
          (named_entity services graph params.namespace params.entity_name params.entity_type)
        ≡ ok ranked
      → reranked services ranking params now graph hits ≡ ok ranked
  reranked-ok ranking params now graph hits q = rw (q, reranked) refl

  track-accesses :
      (records : Records F) (params : SearchParams) (ranking : RankingContext F) (clock : ℕ)
      (ranked : List (RankedHit F)) (as_of : Option ℕ)
      → params.as_of ≡ as_of
      → track services records ranked (Option.get_or as_of clock) params
        ≡ accesses records params (some ranking) clock (map (ranked_item services) ranked)
  unfolding record_access
  track-accesses records params ranking clock [] none e = rw e refl
  track-accesses records params ranking clock [] (some t) e = rw e refl
  track-accesses records params ranking clock (p ∷ ranked) (some t) e = rw e refl
  track-accesses records params ranking clock (p ∷ ranked) none e =
      rw e (ap (λ ids. record_access records (p.0.record_.id ∷ ids) clock) (sym (map_ids ranked)))

module _ {F : Type 0} ⦃fl : Float F⦄ (o : IsOrdered F) (services : Services F) (dimension : ℕ)
    (each : AnswersEach services.embedding)
    (sized : (texts : List String) (vs : List (List F))
      → services.embedding.embed texts ≡ ok vs
      → All (λ v. length v ≡ dimension) vs) where
  plain-IsResponse :
      (records : Records F) (params : SearchParams) (graph : Option (Graph F)) (clock : ℕ)
      → All (IsEmbedded dimension) (values records)
      → (a : Records F × List (SearchResultItem F)) × (search services records params none graph
            clock
          ≡ ok a)
        × IsResponse records params none clock a
  unfolding search
  plain-IsResponse records params graph clock vectors =
      let (hits, q, (found, le)) =
        candidates-Finds services records params params.limit dimension vectors each sized in
      (
        (records, map (plain_item services) hits),
        bind_ok _ _ q refl,
        record {
          limited = omega (arith, length-map (plain_item services) hits, le);
          shown =
              All-map _ (plain_item services) hits
                (All-map_imp (λ h f. (h.record_, f.0, f.1, refl, refl)) hits found);
          descending = tt;
          counted = refl;
        },
      )

  ranked-IsResponse :
      (records : Records F) (params : SearchParams) (ranking : RankingContext F)
      (graph : Option (Graph F)) (clock : ℕ)
      → All (IsEmbedded dimension) (values records)
      → ((terms : RankTerms F) → IsNumber (rank_score terms ranking.weights).score)
      → (a : Records F × List (SearchResultItem F)) × (search services records params
            (some ranking)
            graph
            clock
          ≡ ok a)
        × IsResponse records params (some ranking) clock a
  unfolding search
  ranked-IsResponse records params ranking graph clock vectors numbers =
      let now = Option.get_or params.as_of clock in
      let (hits, q, (found, le)) =
        candidates-Finds services records params (params.limit * ranking.overfetch) dimension
          vectors each sized in
      let entity =
        named_entity services graph params.namespace params.entity_name params.entity_type in
      let (all_ranked, q1, h) =
        rerank_memory_hits-IsRanking o ranking numbers hits params.namespace now graph entity in
      let ranked = take params.limit all_ranked in
      (
        (track services records ranked now params, map (ranked_item services) ranked),
        bind_ok _ _ q (bind_ok _ _ (reranked-ok services ranking params now graph hits q1) refl),
        record {
          limited = omega (
            arith,
            length-map (ranked_item services) ranked,
            length-take-le params.limit all_ranked,
          );
          shown = All-map _ (ranked_item services) ranked (
              All-take _ params.limit all_ranked (
                All-map_imp
                  (λ p i.
                    let f = All-at (IsFound records params.namespace params.source) hits found i in
                    (p.0.record_, f.0, f.1, refl, refl))
                  all_ranked h.among));
          descending =
              ranked_item-IsSorted services ranked
                (take-IsSorted scores_more params.limit all_ranked h.descending);
          counted = track-accesses services records params ranking clock ranked params.as_of refl;
        },
      )

  -- No score is NaN.
  abbrev pub HasNumbers : Option (RankingContext F) → Type 0
  HasNumbers none = Unit
  HasNumbers (some ranking) =
      (terms : RankTerms F) → IsNumber (rank_score terms ranking.weights).score

  -- Where the provider keeps its protocol, all vectors have one dimension and no score is NaN,
  -- `search` returns, in every mode and though the provider fails. It answers at most `limit` items,
  -- each of a stored row that is alive, in the namespace and of the source that was asked for; with a
  -- ranking no later item has a higher score, and one access is counted for each item unless `as_of`
  -- is given; without a ranking, or with `as_of`, no row changes.
  pub search-IsResponse :
      (records : Records F) (params : SearchParams) (ranking : Option (RankingContext F))
      (graph : Option (Graph F)) (clock : ℕ)
      → All (IsEmbedded dimension) (values records)
      → HasNumbers ranking
      → (a : Records F × List (SearchResultItem F)) × (search services records params ranking graph
            clock
          ≡ ok a)
        × IsResponse records params ranking clock a
  search-IsResponse records params none graph clock vectors numbers =
      plain-IsResponse records params graph clock vectors
  search-IsResponse records params (some ranking) graph clock vectors numbers =
      ranked-IsResponse records params ranking graph clock vectors numbers
