-- ===== src/Tools/Search/Candidates.antt =====
-- `_candidates` of src/rootmem/integration/mcp/tools/search.py.
use rootmem.Base.{
  ℕ, ◌≤◌, String, ◌≡◌, refl, true, ◌&&◌, Option, none, some, List, [], ◌∷◌, Result, ok, raise,
  ◌>>=◌, string_eq, Bool-cases, Option-cases, inl, inr, arith, All, All-at, All-take, In, length,
  length-take-le, collect, collect-Returns, IfSome, bind_ok,
}
use rootmem.Base.Dict.{values}
use rootmem.Base.Float.{Float}
use rootmem.Base.Sort.{All-sort}
use rootmem.Base.Text.{Text}
use rootmem.Embedding.{EmbeddingError, embed_or_none, AnswersEach}
use rootmem.Memory.Models.{MemoryRecord, SearchResult}
use rootmem.Memory.Repository.{Records}
use rootmem.Memory.Repository.Search.{
  eligible, best, higher, hit, text_rank, text_hit, search_text, semantic_hit, search_semantic,
  similarity_or_zero, hybrid_hit, search_hybrid,
}
use rootmem.Memory.Vectors.{IsEmbedded, cosine_similarity-ok}
use rootmem.Retrieval.Ranking.{ValueError, hybrid_score}
use rootmem.Tools.Search.{
  Mode, text, semantic, hybrid, SearchParams, Services, Fault, or_value_error, by_text, by_vector,
  embedded, in_mode, candidates,
}

module _ {F : Type 0} ⦃fl : Float F⦄ where
  -- A hit is a stored row that is alive, in the namespace and of the source.
  abbrev pub IsFound : Records F → String → Option String → SearchResult F → Type 0
  IsFound records namespace source h =
      In h.record_ (values records) × (eligible namespace source h.record_ ≡ true)

  abbrev pub AreFound : Records F → String → Option String → ℕ → List (SearchResult F) → Type 0
  AreFound records namespace source limit hits =
      All (IsFound records namespace source) hits × (length hits ≤ limit)

  module _ (records : Records F) (namespace : String) (source : Option String) where
    -- What one row gives.
    abbrev Gives : Result ValueError (Option (SearchResult F)) → Type 0
    Gives x =
        (o : Option (SearchResult F)) × (x ≡ ok o) × IfSome (IsFound records namespace source) o

    collected-AreFound :
        (limit : ℕ) (body : MemoryRecord F → Result ValueError (Option (SearchResult F)))
        → ((r : MemoryRecord F) → In r (values records) → Gives (body r))
        → (hits : List (SearchResult F)) × ((collect body (values records) >>= λ hits.
              ok (best limit hits))
            ≡ ok hits)
          × AreFound records namespace source limit hits
    unfolding best
    collected-AreFound limit body each =
        let (hits, q, found) =
          collect-Returns (IsFound records namespace source) body (values records) each in
        (
          best limit hits,
          bind_ok _ _ q refl,
          (All-take _ limit _ (All-sort higher _ hits found), length-take-le limit _),
        )

    text_hit-Gives :
        (t : Text) (query : String) (r : MemoryRecord F)
        → In r (values records)
        → Gives (text_hit t namespace query source r)
    text_hit-Gives t query r i = elim (Bool-cases (eligible namespace source r)) [
      | inr f ↦ (none, rw f refl, tt)
      | inl e ↦ elim (Bool-cases (fl.lt (fl.of_ℕ 0) (text_rank t query r))) [
        | inl scores ↦ (some (hit r (text_rank t query r)), rw (e, scores) refl, (i, e))
        | inr f ↦ (none, rw (e, f) refl, tt)
      ]
    ]

    module _ (dimension : ℕ) (v : List F) (dv : length v ≡ dimension)
        (vectors : All (IsEmbedded dimension) (values records)) where
      semantic_hit-Gives :
          (r : MemoryRecord F) → In r (values records) → Gives (semantic_hit namespace v source r)
      semantic_hit-Gives r i = elim (Bool-cases (eligible namespace source r)) [
        | inr f ↦ (none, rw f refl, tt)
        | inl e ↦ elim (Option-cases r.content_embedding) [
          | inl plain ↦ (none, rw e (rw plain refl), tt)
          | inr (w, has) ↦
              let (s, q) =
                cosine_similarity-ok dimension v w dv
                  (All-at (IsEmbedded dimension) (values records) vectors i w has) in
              (some (hit r s), rw e (rw has (rw q refl)), (i, e))
        ]
      ]

      similarity-ok :
          (t : Text) (r : MemoryRecord F)
          → In r (values records)
          → (s : F) × (similarity_or_zero t v r.content_embedding ≡ ok s)
      similarity-ok t r i = elim (Option-cases r.content_embedding) [
        | inl plain ↦ (fl.of_ℕ 0, rw plain refl)
        | inr (w, has) ↦
            let (s, q) =
              cosine_similarity-ok dimension v w dv
                (All-at (IsEmbedded dimension) (values records) vectors i w has) in
            (s, rw has q)
      ]

      hybrid_hit-Gives :
          (t : Text) (weight_text weight_vector : F) (query : String) (r : MemoryRecord F)
          → In r (values records)
          → Gives (hybrid_hit t weight_text weight_vector namespace query v source r)
      hybrid_hit-Gives t weight_text weight_vector query r i =
          elim (Bool-cases (eligible namespace source r)) [
            | inr f ↦ (none, rw f refl, tt)
            | inl e ↦
                let (s, q) = similarity-ok t r i in
                elim (Bool-cases (fl.eq (text_rank t query r) (fl.of_ℕ 0) && fl.eq s (fl.of_ℕ 0))) [
                  | inl nothing ↦ (none, rw e (rw q (rw nothing refl)), tt)
                  | inr something ↦ (
                    some (hit r (hybrid_score (text_rank t query r) s weight_text weight_vector)),
                    rw e (rw q (rw something refl)),
                    (i, e),
                  )
                ]
          ]

module _ {F : Type 0} ⦃fl : Float F⦄ (services : Services F) (records : Records F)
    (params : SearchParams) (fetch_limit : ℕ) where
  -- The candidates are found, as many as asked for at most.
  abbrev pub Finds : Result Fault (List (SearchResult F)) → Type 0
  Finds x =
      (hits : List (SearchResult F)) × (x ≡ ok hits)
      × AreFound records params.namespace params.source fetch_limit hits

  or_value_error-Finds :
      (x : Result ValueError (List (SearchResult F)))
      → (hits : List (SearchResult F)) × (x ≡ ok hits)
        × AreFound records params.namespace params.source fetch_limit hits
      → Finds (or_value_error services x)
  or_value_error-Finds x (hits, q, found) = (hits, rw (q, or_value_error) refl, found)

  by_text-Finds : Finds (by_text services records params fetch_limit)
  unfolding search_text
  by_text-Finds = or_value_error-Finds _ (
      collected-AreFound records params.namespace params.source fetch_limit
        (text_hit services.text params.namespace params.query params.source)
        (text_hit-Gives records params.namespace params.source services.text params.query))

  module _ (dimension : ℕ) (vectors : All (IsEmbedded dimension) (values records))
      (each : AnswersEach services.embedding)
      (sized : (texts : List String) (vs : List (List F))
        → services.embedding.embed texts ≡ ok vs
        → All (λ v. length v ≡ dimension) vs) where
    by_hybrid-Finds :
        (v : List F)
        → length v ≡ dimension
        → Finds (by_vector services records params fetch_limit hybrid (some v))
    unfolding search_hybrid
    by_hybrid-Finds v d = or_value_error-Finds _ (
        collected-AreFound records params.namespace params.source fetch_limit
          (hybrid_hit services.text services.weight_text services.weight_vector params.namespace
            params.query v params.source)
          (hybrid_hit-Gives records params.namespace params.source dimension v d vectors
            services.text services.weight_text services.weight_vector params.query))

    by_vector-Finds :
        (mode : Mode) (e : Option (List F))
        → ((v : List F) → e ≡ some v → length v ≡ dimension)
        → Finds (by_vector services records params fetch_limit mode e)
    unfolding search_semantic search_hybrid
    by_vector-Finds mode none d = by_text-Finds
    by_vector-Finds semantic (some v) d = or_value_error-Finds _ (
        collected-AreFound records params.namespace params.source fetch_limit
          (semantic_hit params.namespace v params.source)
          (semantic_hit-Gives records params.namespace params.source dimension v (d v refl)
            vectors))
    by_vector-Finds text (some v) d = by_hybrid-Finds v (d v refl)
    by_vector-Finds hybrid (some v) d = by_hybrid-Finds v (d v refl)

    -- The embedding of a query, if there is one, has the dimension of the others.
    embedded-ok :
        (query : String)
        → (e : Option (List F)) × (embedded services query ≡ ok e)
          × ((v : List F) → e ≡ some v → length v ≡ dimension)
    unfolding embed_or_none
    embedded-ok query = by_answer (services.embedding.embed (query ∷ [])) refl
      where
        by_answer :
            (a : Result EmbeddingError (List (List F)))
            → services.embedding.embed (query ∷ []) ≡ a
            → (e : Option (List F)) × (embedded services query ≡ ok e)
              × ((v : List F) → e ≡ some v → length v ≡ dimension)
        by_answer (raise x) q = (none, rw (q, embedded, embed_or_none) refl, λ v e. cc e)
        by_answer (ok []) q = let l = each (query ∷ []) [] q in absurd (omega (arith, l))
        by_answer (ok (v ∷ vs)) q = (
          some v,
          rw (q, embedded, embed_or_none) refl,
          λ w e. let p : v ≡ w = cc e in rw (← p) (sized (query ∷ []) (v ∷ vs) q).0,
        )

    with_vector :
        (mode : Mode)
        → Finds
            (embedded services params.query >>= by_vector services records params fetch_limit mode)
    with_vector mode =
        let (e, q, d) = embedded-ok params.query in
        let (hits, p, found) = by_vector-Finds mode e d in (hits, bind_ok _ _ q p, found)

    in_mode-Finds : (mode : Mode) → Finds (in_mode services records params fetch_limit mode)
    in_mode-Finds text = by_text-Finds
    in_mode-Finds semantic = with_vector semantic
    in_mode-Finds hybrid = with_vector hybrid

    pub candidates-Finds : Finds (candidates services records params fetch_limit)
    unfolding candidates
    candidates-Finds = in_mode-Finds params.mode
