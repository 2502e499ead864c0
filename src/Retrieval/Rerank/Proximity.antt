-- ===== src/Retrieval/Rerank/Proximity.antt =====
-- `_graph_proximity` of src/rootmem/retrieval/rerank.py: how near a memory is to an entity.
use rootmem.Base.{
  ◌⊎◌, String, ◌≡◌, ◌≢◌, refl, sym, ap, ◌∙◌, ==_of_eq, In-append_left, In-append_right, Bool, true,
  not, ◌==◌, Option, none, some, List, [], ◌∷◌, ◌++◌, keep, any, Bool-cases, In, here, there,
  In-cases, In-keep, inl, inr, eq_of_==, ne_of_==, ==_ne, string_eq,
}
use rootmem.Base.Float.{Float}
use rootmem.Graph.Models.{RelationRecord}
use rootmem.Graph.Repository.Traversal.{has}
use rootmem.Retrieval.Rerank.{optional, ends, neighbours, proximity_of}

has-In : (ids : List String) (x : String) → has ids x ≡ true → In x ids
has-In [] x h = cc
has-In (y ∷ ids) x h = elim (Bool-cases (y == x)) [
  | inl same ↦ rw (eq_of_== y x same) here
  | inr differ ↦ there (has-In ids x (rw differ at h))
]

In-has : (ids : List String) (x : String) → In x ids → has ids x ≡ true
In-has [] x i = elim i [ ]
In-has (y ∷ ids) x i = elim (Bool-cases (y == x)) [
  | inl same ↦ rw same refl
  | inr differ ↦ elim (In-cases x y i) [
    | inl q ↦ absurd (ne_of_== y x differ (sym q))
    | inr tail ↦ rw differ (In-has ids x tail)
  ]
]

keep-In :
    (p : String → Bool) (x : String) (xs : List String) → In x (keep p xs) → In x xs × (p x ≡ true)
keep-In p x [] i = elim i [ ]
keep-In p x (y ∷ xs) i = elim (Bool-cases (p y)) [
  | inl t ↦ elim (In-cases x y (rw t at i)) [
    | inl q ↦ (rw q here, rw q t)
    | inr tail ↦ let (j, h) = keep-In p x xs tail in (there j, h)
  ]
  | inr f ↦ let (j, h) = keep-In p x xs (rw f at i) in (there j, h)
]

any-In :
    (near : List String) (linked : List String)
    → any (λ x. has near x) linked ≡ true
    → (x : String) × In x linked × In x near
any-In near [] h = cc
any-In near (y ∷ linked) h = elim (Bool-cases (has near y)) [
  | inl t ↦ (y, here, has-In near y t)
  | inr f ↦ let (x, i, j) = any-In near linked (rw f at h) in (x, there i, j)
]

In-any :
    (near : List String) (linked : List String) (x : String)
    → In x linked
    → In x near
    → any (λ y. has near y) linked ≡ true
In-any near [] x i j = elim i [ ]
In-any near (y ∷ linked) x here j = rw (In-has near x j) refl
In-any near (y ∷ linked) x (there i) j = elim (Bool-cases (has near y)) [
  | inl t ↦ rw t refl
  | inr f ↦ rw f (In-any near linked x i j)
]

module _ {F : Type 0} where
  -- The entity is the subject or the object of the relation.
  abbrev pub IsEnd : String → RelationRecord F → Type 0
  IsEnd x r = (r.subject_entity_id ≡ x) ⊎ (r.object_entity_id ≡ some x)

  -- The entity stands in a relation of the list and is not `entity_id`.
  abbrev pub Near : String → List (RelationRecord F) → String → Type 0
  Near entity_id relations x = (x ≢ entity_id) × (r : RelationRecord F) × In r relations × IsEnd x r

  ends-IsEnd :
      (relations : List (RelationRecord F)) (x : String)
      → In x (ends relations)
      → (r : RelationRecord F) × In r relations × IsEnd x r
  unfolding ends
  ends-IsEnd [] x i = elim i [ ]
  ends-IsEnd (r ∷ relations) x i = elim (In-cases x r.subject_entity_id i) [
    | inl q ↦ (r, here, inl (sym q))
    | inr tail ↦ by_object r.object_entity_id refl (ends-IsEnd relations x) tail
  ]
    where
      by_object :
          (o : Option String)
          → r.object_entity_id ≡ o
          → (In x (ends relations) → (s : RelationRecord F) × In s relations × IsEnd x s)
          → In x (optional o ++ ends relations)
          → (s : RelationRecord F) × In s (r ∷ relations) × IsEnd x s
      by_object none q rest i = let (s, j, e) = rest i in (s, there j, e)
      by_object (some y) q rest i = elim (In-cases x y i) [
        | inl same ↦ (r, here, inr (q ∙ ap some (sym same)))
        | inr tail ↦ let (s, j, e) = rest tail in (s, there j, e)
      ]

  IsEnd-ends :
      (relations : List (RelationRecord F)) (x : String) (r : RelationRecord F)
      → In r relations
      → IsEnd x r
      → In x (ends relations)
  unfolding ends
  IsEnd-ends [] x r i e = elim i [ ]
  IsEnd-ends (s ∷ relations) x r here (inl q) = rw q here
  IsEnd-ends (s ∷ relations) x r here (inr q) =
      there (In-append_left x (optional s.object_entity_id) (ends relations) (rw q here))
  IsEnd-ends (s ∷ relations) x r (there i) e = there (
      In-append_right x (optional s.object_entity_id) (ends relations)
        (IsEnd-ends relations x r i e))

  neighbours-Near :
      (entity_id : String) (relations : List (RelationRecord F)) (x : String)
      → In x (neighbours entity_id relations)
      → Near entity_id relations x
  neighbours-Near entity_id relations x i =
      let (j, h) = keep-In (λ y. not (y == entity_id)) x (ends relations) i in
      let (r, k, e) = ends-IsEnd relations x j in
      (λ q. let t = ==_of_eq x entity_id q in let no = rw t at h in cc no, r, k, e)

  Near-neighbours :
      (entity_id : String) (relations : List (RelationRecord F)) (x : String)
      → Near entity_id relations x
      → In x (neighbours entity_id relations)
  Near-neighbours entity_id relations x (n, r, i, e) =
      In-keep (λ y. not (y == entity_id)) x (ends relations) (IsEnd-ends relations x r i e)
        (rw (==_ne x entity_id n) refl)

module _ {F : Type 0} ⦃fl : Float F⦄ where
  -- One of the linked entities stands in a relation with the entity.
  abbrev pub Touching : String → List (RelationRecord F) → List String → Type 0
  Touching entity_id relations linked = (x : String) × In x linked × Near entity_id relations x

  -- 1 for a memory that is linked to the entity, 0.5 for one that is linked to a neighbour, else 0.
  abbrev pub IsProximity : String → List (RelationRecord F) → List String → F → Type 0
  IsProximity entity_id relations linked p =
      (In entity_id linked × (p ≡ fl.of_ℕ 1))
      ⊎ (((¬ In entity_id linked) × Touching entity_id relations linked × (p ≡ fl.decimal 5 1))
          ⊎ ((¬ In entity_id linked) × (¬ Touching entity_id relations linked) × (p ≡ fl.of_ℕ 0)))

  pub proximity_of-IsProximity :
      (entity_id : String) (relations : List (RelationRecord F)) (linked : List String)
      → IsProximity entity_id relations linked
          (proximity_of entity_id (neighbours entity_id relations) linked)
  proximity_of-IsProximity entity_id relations linked =
      let near = neighbours entity_id relations in
      elim (Bool-cases (has linked entity_id)) [
        | inl t ↦ rw t (inl (has-In linked entity_id t, refl))
        | inr f ↦
            let apart : ¬ In entity_id linked =
              λ i. let t = In-has linked entity_id i in cc (f, t) in
            elim (Bool-cases (any (λ x. has near x) linked)) [
              | inl t ↦
                  let (x, i, j) = any-In near linked t in
                  rw (f, t)
                    (inr (inl (apart, (x, i, neighbours-Near entity_id relations x j), refl)))
              | inr g ↦
                  rw (f, g)
                    (inr (
                      inr (
                        apart,
                        λ (x, i, n).
                            let t =
                              In-any near linked x i (Near-neighbours entity_id relations x n) in
                            cc (g, t),
                        refl,
                      )))
            ]
      ]
