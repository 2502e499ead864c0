-- ===== src/Consolidation/Distill/Pairs.antt =====
-- The comparisons of vectors that a pass makes: `find_similar_pairs` of
-- src/rootmem/storage/fakes/in_memory_repository.py and `build_trace_pairs` of
-- src/rootmem/consolidation/procedural_clustering.py.
use rootmem.Base.{
  ℕ, String, ◌≡◌, refl, Option, none, some, List, [], ◌∷◌, ◌++◌, ◌==◌, string_eq, nat_eq, ok,
  Bool-cases, Option-cases, inl, inr, All, All-append, All-map_imp, All-at, In, here, there,
  In-cases, All-In, length, collect-Returns, IfSome,
}
use rootmem.Base.Dict
use rootmem.Base.Dict.{Dict, keys, values, In-values}
use rootmem.Base.Dict.Keyed.{id-get}
use rootmem.Base.Float.{Float}
use rootmem.Memory.Repository.{Records}
use rootmem.Memory.Repository.Search.{
  candidate_of, candidates, similar, all_pairs, find_similar_pairs,
}
use rootmem.Memory.Creation.{IsStore, id_of}
use rootmem.Memory.Vectors.{HasDimension, IsEmbedded, cosine_similarity-ok}
use rootmem.Consolidation.Traces.{pairs_with, build_trace_pairs}

module _ {F : Type 0} ⦃fl : Float F⦄ (d : ℕ) where
  -- Both ids of a pair stand before vectors of the list.
  abbrev Between : List (String × List F) → String × String × F → Type 0
  Between cs (a, b, s) = In a (keys cs) × In b (keys cs)

  similar-ok :
      (threshold : F) (cs : List (String × List F)) (a b : String × List F)
      → HasDimension d a
      → HasDimension d b
      → In a.0 (keys cs)
      → In b.0 (keys cs)
      → (o : Option (String × String × F)) × (similar threshold a b ≡ ok o) × IfSome (Between cs) o
  similar-ok threshold cs a b p q ia ib =
      let (s, e) = cosine_similarity-ok d a.1 b.1 p q in
      elim (Bool-cases (fl.le threshold s)) [
        | inl near ↦ (some (a.0, b.0, s), rw e (rw near refl), (ia, ib))
        | inr far ↦ (none, rw e (rw far refl), tt)
      ]

  In-key : {c : String × List F} (cs : List (String × List F)) → In c cs → In c.0 (keys cs)
  In-key [] i = elim i [ ]
  In-key (c ∷ cs) here = here
  In-key (c' ∷ cs) (there i) = there (In-key cs i)

  later :
      (c : String × List F) (cs : List (String × List F)) (ps : List (String × String × F))
      → All (Between cs) ps
      → All (Between (c ∷ cs)) ps
  later c cs = All-map_imp (λ p h. (there h.0, there h.1))

  all_pairs-ok :
      (threshold : F) (cs : List (String × List F))
      → All (HasDimension d) cs
      → (ps : List (String × String × F)) × (all_pairs threshold cs ≡ ok ps) × All (Between cs) ps
  unfolding all_pairs
  all_pairs-ok threshold [] h = ([], refl, tt)
  all_pairs-ok threshold (c ∷ cs) (p, h) =
      let (mine, e, between) = collect-Returns (Between (c ∷ cs)) (similar threshold c) cs (λ b i.
        similar-ok threshold (c ∷ cs) c b p (All-at (HasDimension d) cs h i) here
          (there (In-key cs i))) in
      let (theirs, e', between') = all_pairs-ok threshold cs h in
      (
        mine ++ theirs,
        rw (e, e') refl,
        All-append (Between (c ∷ cs)) mine theirs between (later c cs theirs between'),
      )

  -- Both ids of a pair are among the ids.
  abbrev pub Among : List String → String × String × F → Type 0
  Among ids (a, b, s) = In a ids × In b ids

  abbrev Usable : List String → String × List F → Type 0
  Usable ids c = HasDimension d c × In c.0 ids

  candidate_of-Usable :
      (records : Records F) (namespace mid : String) (ids : List String)
      → IsStore records
      → All (IsEmbedded d) (values records)
      → In mid ids
      → All (Usable ids) (candidate_of namespace (Dict.get records mid))
  candidate_of-Usable records namespace mid ids store vectors i =
      elim (Option-cases (Dict.get records mid)) [
        | inl missing ↦ rw missing tt
        | inr (r, found) ↦ elim (Option-cases r.content_embedding) [
          | inl plain ↦ rw found (rw plain tt)
          | inr (v, embedded) ↦ elim (Bool-cases (r.namespace == namespace)) [
            | inr other ↦ rw found (rw embedded (rw other tt))
            | inl mine ↦
                let p =
                  All-at (IsEmbedded d) (values records) vectors (In-values records mid found) v
                    embedded in
                let q = id-get id_of records mid store found in
                rw found (rw embedded (rw mine ((p, rw q i), tt)))
          ]
        ]
      ]

  candidates-Usable :
      (records : Records F) (namespace : String) (ids all_ids : List String)
      → IsStore records
      → All (IsEmbedded d) (values records)
      → All (λ id. In id all_ids) ids
      → All (Usable all_ids) (candidates records namespace ids)
  unfolding candidates
  candidates-Usable records namespace [] all_ids store vectors i = tt
  candidates-Usable records namespace (mid ∷ ids) all_ids store vectors (i, is) =
      All-append (Usable all_ids) (candidate_of namespace (Dict.get records mid)) _
        (candidate_of-Usable records namespace mid all_ids store vectors i)
        (candidates-Usable records namespace ids all_ids store vectors is)

  keys-Usable :
      (ids : List String) (cs : List (String × List F)) (x : String)
      → All (Usable ids) cs
      → In x (keys cs)
      → In x ids
  keys-Usable ids [] x h i = elim i [ ]
  keys-Usable ids (c ∷ cs) x (h, hs) i = elim (In-cases x c.0 i) [
    | inl same ↦ rw same h.1
    | inr tail ↦ keys-Usable ids cs x hs tail
  ]

  -- `find_similar_pairs` returns where the vectors have one dimension, and pairs ids of the list.
  pub find_similar_pairs-Among :
      (records : Records F) (namespace : String) (ids : List String) (threshold : F)
      → IsStore records
      → All (IsEmbedded d) (values records)
      → (ps : List (String × String × F)) × (find_similar_pairs records namespace ids threshold
          ≡ ok ps)
        × All (Among ids) ps
  unfolding find_similar_pairs
  find_similar_pairs-Among records namespace ids threshold store vectors =
      let cs = candidates records namespace ids in
      let usable = candidates-Usable records namespace ids ids store vectors (All-In ids) in
      let (ps, e, between) = all_pairs-ok threshold cs (All-map_imp (λ c h. h.0) cs usable) in
      (
        ps,
        e,
        All-map_imp (λ p h. (keys-Usable ids cs p.0 usable h.0, keys-Usable ids cs p.1 usable h.1))
            ps between,
      )

  pairs_with-ok :
      (cs rest : Dict String (List F)) (a : String) (va : List F)
      → length va ≡ d
      → In a (keys cs)
      → All (λ c. HasDimension d c × In c.0 (keys cs)) rest
      → (ps : List (String × String × F)) × (pairs_with a va rest ≡ ok ps) × All (Between cs) ps
  unfolding pairs_with
  pairs_with-ok cs [] a va p i h = ([], refl, tt)
  pairs_with-ok cs ((b, vb) ∷ rest) a va p i ((q, j), h) =
      let (s, e) = cosine_similarity-ok d va vb p q in
      let (ps, e', between) = pairs_with-ok cs rest a va p i h in
      ((a, b, s) ∷ ps, rw (e, e') refl, ((i, j), between))

  -- `build_trace_pairs` returns where the vectors have one dimension, and pairs their keys.
  pub build_trace_pairs-Among :
      (cs : Dict String (List F))
      → All (HasDimension d) cs
      → (ps : List (String × String × F)) × (build_trace_pairs cs ≡ ok ps)
        × All (Among (keys cs)) ps
  unfolding build_trace_pairs
  build_trace_pairs-Among [] h = ([], refl, tt)
  build_trace_pairs-Among ((a, va) ∷ rest) (p, h) =
      let (mine, e, between) =
        pairs_with-ok ((a, va) ∷ rest) rest a va p here (both rest h (All-In rest)) in
      let (theirs, e', between') = build_trace_pairs-Among rest h in
      (
        mine ++ theirs,
        rw (e, e') refl,
        All-append (Between ((a, va) ∷ rest)) mine theirs between
            (later (a, va) rest theirs between'),
      )
    where
      both :
          (cs : List (String × List F))
          → All (HasDimension d) cs
          → All (λ c. In c rest) cs
          → All (λ c. HasDimension d c × In c.0 (keys ((a, va) ∷ rest))) cs
      both [] h i = tt
      both (c ∷ cs) (h, hs) (i, is) = ((h, there (In-key rest i)), both cs hs is)
