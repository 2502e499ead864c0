-- ===== src/Memory/Searches.antt =====
-- What the searches of src/rootmem/storage/fakes/in_memory_repository.py return.
use rootmem.Base.{
  ℕ, String, ◌≡◌, ◌≤◌, true, ◌&&◌, Option, none, some, List, string_eq, Bool-cases, inl, inr,
  Result, ok, ◌>>=◌, collect, Ensures, Yields, Ensures-collect, Ensures->>=, Yields->>=, Yields-if,
  All, All-take, length, length-take-le,
}
use rootmem.Base.Dict.{Dict, values}
use rootmem.Base.Float.{Float}
use rootmem.Base.Sort.{All-sort}
use rootmem.Base.Text.{Text}
use rootmem.Retrieval.Ranking.{ValueError, cosine_similarity}
use rootmem.Memory.Models.{MemoryRecord, SearchResult}
use rootmem.Memory.Repository.Search.{
  eligible, best, hit, search_text, search_semantic, search_hybrid, text_hit, semantic_hit,
  hybrid_hit, similarity_or_zero, semantic_of, text_rank, hybrid_of,
}

module _ {F : Type 0} ⦃fl : Float F⦄ where
  -- A search returns at most `limit` hits, each a live record of the namespace and of the source that
  -- was asked for.
  abbrev pub IsAnswer : String → ℕ → Option String → List (SearchResult F) → Type 0
  IsAnswer namespace limit source hits =
      All (λ (h : SearchResult F). eligible namespace source h.record_ ≡ true) hits
      × (length hits ≤ limit)

  best-IsAnswer :
      (namespace : String) (limit : ℕ) (source : Option String) (hits : List (SearchResult F))
      → All (λ (h : SearchResult F). eligible namespace source h.record_ ≡ true) hits
      → IsAnswer namespace limit source (best limit hits)
  unfolding best
  best-IsAnswer namespace limit source hits a =
      (All-take _ limit _ (All-sort _ _ hits a), length-take-le limit _)

  abbrev Fits : String → Option String → SearchResult F → Type 0
  Fits namespace source h = eligible namespace source h.record_ ≡ true

  collected-IsAnswer :
      (records : Dict String (MemoryRecord F)) (namespace : String) (limit : ℕ)
      (source : Option String) (body : MemoryRecord F → Result ValueError (Option (SearchResult F)))
      → ((r : MemoryRecord F) → Yields (Fits namespace source) (body r))
      → Ensures
          (IsAnswer namespace limit source)
          (collect body (values records) >>= λ hits. ok (best limit hits))
  collected-IsAnswer records namespace limit source body each =
      Ensures->>= (All (Fits namespace source)) (IsAnswer namespace limit source)
        (collect body (values records)) (λ hits. ok (best limit hits))
        (Ensures-collect (Fits namespace source) body (values records) each)
        (best-IsAnswer namespace limit source)

  module _ (namespace : String) (source : Option String) (r : MemoryRecord F) where
    text_hit-Fits :
        (t : Text) (query : String)
        → Yields (Fits namespace source) (text_hit t namespace query source r)
    text_hit-Fits t query = elim (Bool-cases (eligible namespace source r)) [
      | inr f ↦ rw f tt
      | inl e ↦ elim (Bool-cases (fl.lt (fl.of_ℕ 0) (text_rank t query r))) [
        | inl scores ↦ rw (e, scores) e
        | inr f ↦ rw (e, f) tt
      ]
    ]

    semantic_of-Fits :
        (query_embedding : List F) (o : Option (List F))
        → eligible namespace source r ≡ true
        → Yields (Fits namespace source) (semantic_of query_embedding r o)
    semantic_of-Fits query_embedding none e = tt
    semantic_of-Fits query_embedding (some v) e =
        Yields->>= (Fits namespace source) (cosine_similarity query_embedding v)
          (λ score. ok (some (hit r score))) (λ score. e)

    semantic_hit-Fits :
        (query_embedding : List F)
        → Yields (Fits namespace source) (semantic_hit namespace query_embedding source r)
    semantic_hit-Fits query_embedding =
        Yields-if (Fits namespace source) (eligible namespace source r)
          (semantic_of query_embedding r r.content_embedding)
          (semantic_of-Fits query_embedding r.content_embedding)

    hybrid_of-Fits :
        (t : Text) (wt wv : F) (query : String) (similarity : F)
        → eligible namespace source r ≡ true
        → Yields (Fits namespace source) (hybrid_of t wt wv query r similarity)
    hybrid_of-Fits t wt wv query similarity e =
        elim (Bool-cases
          (fl.eq (text_rank t query r) (fl.of_ℕ 0) && fl.eq similarity (fl.of_ℕ 0))) [
            | inl zero_score ↦ rw zero_score tt
            | inr scores ↦ rw scores e
          ]

    hybrid_hit-Fits :
        (t : Text) (wt wv : F) (query : String) (query_embedding : List F)
        → Yields
            (Fits namespace source)
            (hybrid_hit t wt wv namespace query query_embedding source r)
    hybrid_hit-Fits t wt wv query query_embedding =
        Yields-if (Fits namespace source) (eligible namespace source r)
          (similarity_or_zero t query_embedding r.content_embedding >>= hybrid_of t wt wv query r)
          (λ e.
            Yields->>= (Fits namespace source)
              (similarity_or_zero t query_embedding r.content_embedding) (hybrid_of t wt wv query r)
              (λ similarity. hybrid_of-Fits t wt wv query similarity e))

  -- Where they return, `search_text`, `search_semantic` and `search_hybrid` return at most `limit`
  -- hits, each of a record that is not deleted, of the namespace, and of the source if one is given.
  pub searches-IsAnswer :
      (t : Text) (wt wv : F) (records : Dict String (MemoryRecord F)) (namespace query : String)
      (query_embedding : List F) (limit : ℕ) (source : Option String)
      → Ensures
          (IsAnswer namespace limit source)
          (search_text t records namespace query limit source)
        × Ensures
            (IsAnswer namespace limit source)
            (search_semantic records namespace query_embedding limit source)
        × Ensures
            (IsAnswer namespace limit source)
            (search_hybrid t wt wv records namespace query query_embedding limit source)
  unfolding search_text search_semantic search_hybrid
  searches-IsAnswer t wt wv records namespace query query_embedding limit source = (
    collected-IsAnswer records namespace limit source (text_hit t namespace query source)
        (λ r. text_hit-Fits namespace source r t query),
    collected-IsAnswer records namespace limit source
        (semantic_hit namespace query_embedding source)
        (λ r. semantic_hit-Fits namespace source r query_embedding),
    collected-IsAnswer records namespace limit source
        (hybrid_hit t wt wv namespace query query_embedding source)
        (λ r. hybrid_hit-Fits namespace source r t wt wv query query_embedding),
  )
