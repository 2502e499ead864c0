-- ===== src/Memory/Repository/Search.antt =====
-- The searches of `InMemoryMemoryRepository`, and the pairs of similar memories.
use rootmem.Base.{
  ℕ, String, Bool, ◌&&◌, Option, none, some, List, [], ◌∷◌, ◌++◌, ◌==◌, if◌then◌else◌, take,
  string_eq, Result, ok, ◌>>=◌, collect,
}
use rootmem.Base.Dict
use rootmem.Base.Dict.{Dict, values}
use rootmem.Base.Float.{Float}
use rootmem.Base.Sort.{sort}
use rootmem.Base.Text.{Text, count_all}
use rootmem.Retrieval.Ranking.{ValueError, cosine_similarity, hybrid_score}
use rootmem.Memory.Models.{MemoryRecord, SearchResult}
use rootmem.Memory.Repository.Find.{live_in}

abbrev pub Hits : Type 0 → Type 0
Hits F = Result ValueError (List (SearchResult F))

-- Two ids and the similarity of their contents.
abbrev pub Pair : Type 0 → Type 0
Pair F = String × String × F

module _ {F : Type 0} ⦃fl : Float F⦄ where
  -- the filters that every search begins with
  abbrev pub eligible : String → Option String → MemoryRecord F → Bool
  eligible namespace none r = live_in namespace r
  eligible namespace (some source) r = live_in namespace r && r.source == source

  abbrev pub higher : SearchResult F → SearchResult F → Bool
  higher a b = fl.lt b.score a.score

  -- `results.sort(key=lambda r: r.score, reverse=True)` and `results[:limit]`
  unfoldable pub best : ℕ → List (SearchResult F) → List (SearchResult F)
  best limit results = take limit (sort higher results)

  abbrev pub hit : MemoryRecord F → F → SearchResult F
  hit r score = record { record_ = r; score = score }

  module _ (t : Text) where
    open t use {lower, split}

    abbrev pub text_rank : String → MemoryRecord F → F
    text_rank query r = fl.of_ℕ (count_all t (lower r.content) (split (lower query)))

    abbrev pub text_hit :
        String
        → String
        → Option String
        → MemoryRecord F
        → Result ValueError (Option (SearchResult F))
    text_hit namespace query source r =
        let score = text_rank query r in
        if eligible namespace source r && fl.lt (fl.of_ℕ 0) score
        then ok (some (hit r score))
        else ok none

    unfoldable pub search_text :
        Dict String (MemoryRecord F) → String → String → ℕ → Option String → Hits F
    unfolding best
    search_text records namespace query limit source = do
      results ← collect (text_hit namespace query source) (values records)
      ok (best limit results)

    abbrev pub hybrid_of :
        F → F → String → MemoryRecord F → F → Result ValueError (Option (SearchResult F))
    hybrid_of weight_text weight_vector query r cosine_sim =
        if fl.eq (text_rank query r) (fl.of_ℕ 0) && fl.eq cosine_sim (fl.of_ℕ 0)
        then ok none
        else ok
            (some (hit r (hybrid_score (text_rank query r) cosine_sim weight_text weight_vector)))

    abbrev pub similarity_or_zero : List F → Option (List F) → Result ValueError F
    similarity_or_zero query_embedding none = ok (fl.of_ℕ 0)
    similarity_or_zero query_embedding (some e) = cosine_similarity query_embedding e

    abbrev pub hybrid_hit :
        F
        → F
        → String
        → String
        → List F
        → Option String
        → MemoryRecord F
        → Result ValueError (Option (SearchResult F))
    hybrid_hit weight_text weight_vector namespace query query_embedding source r =
        if eligible namespace source r
        then (similarity_or_zero query_embedding r.content_embedding
            >>= hybrid_of weight_text weight_vector query r)
        else ok none

    unfoldable pub search_hybrid :
        F → F → Dict String (MemoryRecord F) → String → String → List F → ℕ → Option String → Hits F
    unfolding best
    search_hybrid weight_text weight_vector records namespace query query_embedding limit source =
        do
          results ←
              collect (hybrid_hit weight_text weight_vector namespace query query_embedding source)
                (values records)
          ok (best limit results)

  abbrev pub semantic_of :
      List F → MemoryRecord F → Option (List F) → Result ValueError (Option (SearchResult F))
  semantic_of query_embedding r none = ok none
  semantic_of query_embedding r (some e) = do
    score ← cosine_similarity query_embedding e
    ok (some (hit r score))

  abbrev pub semantic_hit :
      String → List F → Option String → MemoryRecord F → Result ValueError (Option (SearchResult F))
  semantic_hit namespace query_embedding source r =
      if eligible namespace source r
      then semantic_of query_embedding r r.content_embedding
      else ok none

  unfoldable pub search_semantic :
      Dict String (MemoryRecord F) → String → List F → ℕ → Option String → Hits F
  unfolding best
  search_semantic records namespace query_embedding limit source = do
    results ← collect (semantic_hit namespace query_embedding source) (values records)
    ok (best limit results)

  -- `find_similar_pairs`: the candidates with their embeddings, in the order of the ids
  abbrev pub candidate_of : String → Option (MemoryRecord F) → List (String × List F)
  candidate_of namespace none = []
  candidate_of namespace (some r) = elim r.content_embedding [
    | none ↦ []
    | some e ↦ if r.namespace == namespace then (r.id, e) ∷ [] else []
  ]

  unfoldable pub candidates :
      Dict String (MemoryRecord F) → String → List String → List (String × List F)
  candidates records namespace [] = []
  candidates records namespace (mid ∷ ids) =
      candidate_of namespace (Dict.get records mid) ++ candidates records namespace ids

  abbrev pub similar : F → String × List F → String × List F → Result ValueError (Option (Pair F))
  similar threshold a b = do
    similarity ← cosine_similarity a.1 b.1
    if fl.le threshold similarity then ok (some (a.0, b.0, similarity)) else ok none

  unfoldable pub all_pairs : F → List (String × List F) → Result ValueError (List (Pair F))
  all_pairs threshold [] = ok []
  all_pairs threshold (a ∷ rest) =
      let later = all_pairs threshold rest in
      do mine ← collect (similar threshold a) rest; theirs ← later; ok (mine ++ theirs)

  unfoldable pub find_similar_pairs :
      Dict String (MemoryRecord F) → String → List String → F → Result ValueError (List (Pair F))
  unfolding candidates all_pairs
  find_similar_pairs records namespace memory_ids threshold =
      all_pairs threshold (candidates records namespace memory_ids)
