-- ===== src/Consolidation/Clustering/Similarity.antt =====
-- `cluster_by_similarity` against the relation that the similar pairs generate.
use mathlib.Core.Option
use rootmem.Base.{
  ℕ, suc, String, ◌≡◌, refl, sym, ap, ◌∙◌, true, some, List, [], ◌∷◌, length, arith, Option-cases,
  inl, inr, ◌⊎◌, ◌↔◌, string_eq, ok, In, All, All-at, All-In,
}
use rootmem.Base.Dict
use rootmem.Base.Dict.{Dict, keys, values, IsDict, In-values}
use rootmem.Base.Dict.Keyed.{values-get}
use rootmem.Base.Float.{Float}
use rootmem.Consolidation.Clustering.{Parents, Groups, init, cluster_by_similarity}
use rootmem.Consolidation.Clustering.Roots.{one_root, SameRoot}
use rootmem.Consolidation.Clustering.Find.{IsForest, SameRoot-Q}
use rootmem.Consolidation.Clustering.Partition.{
  SameRoot-trans, SameRoot-sym, In-keys-init, keys-init-In, init-IsForest, Merges, Usable,
  union_all-Merged,
}
use rootmem.Consolidation.Clustering.Clusters.{members, RootOf, Grouped, group_all-Grouped}

module _ {F : Type 0} ⦃fl : Float F⦄ (threshold : F) (pairs : List (String × String × F)) where
  -- The least equivalence that relates the ids of each pair at or above the threshold.
  pub data Linked : String → String → Type 0 where
    similar : {a b : String} {s : F} → In (a, b, s) pairs → fl.le threshold s ≡ true → Linked a b
    same : (a : String) → Linked a a
    symm : (a b : String) → Linked a b → Linked b a
    trans : (a b c : String) → Linked a b → Linked b c → Linked a c

  -- Both ids of a pair are among the ids.
  abbrev pub IdsIn : List String → String × String × F → Type 0
  IdsIn ids (a, b, s) = In a ids × In b ids

  usable :
      (ids : List String) (ps : List (String × String × F))
      → All (λ p. In p pairs) ps
      → All (IdsIn ids) ps
      → All (Usable Linked trans same symm threshold (keys (init ids))) ps
  usable ids [] i w = tt
  usable ids ((a, b, s) ∷ ps) (i, is) ((ia, ib), ws) =
      (λ near. (In-keys-init ids a ia, In-keys-init ids b ib, similar i near), usable ids ps is ws)

  Linked-SameRoot :
      (d : Parents) (a b : String)
      → All (Merges Linked trans same symm threshold d) pairs
      → Linked a b
      → (a ≡ b) ⊎ SameRoot d a b
  Linked-SameRoot d a b m (similar i near) =
      inr (All-at (Merges Linked trans same symm threshold d) pairs m i near)
  Linked-SameRoot d a b m (same x) = inl refl
  Linked-SameRoot d a b m (symm x y l) = elim (Linked-SameRoot d x y m l) [
    | inl e ↦ inl (sym e)
    | inr r ↦ inr (SameRoot-sym d r)
  ]
  Linked-SameRoot d a b m (trans x y z l k) = elim (Linked-SameRoot d x y m l) [
    | inl e ↦ rw e (Linked-SameRoot d y z m k)
    | inr r ↦ elim (Linked-SameRoot d y z m k) [
      | inl e ↦ inr (rw (← e) r)
      | inr q ↦ inr (SameRoot-trans d r q)
    ]
  ]

  -- The groups of the items of `d`, made from none.
  module _ (d : Parents) (groups : Groups) (height : ℕ) (f : IsForest Linked trans height d)
      (g : Grouped Linked trans d (keys d) [] groups) where
    groups-IsDict : IsDict groups
    groups-IsDict = g.is_dict tt

    member_root : (r y : String) → In y (members groups r) → RootOf d r y
    unfolding Dict.get
    member_root r y i = elim ((g.members_of r y).0 i) [
      | inl nothing ↦ elim nothing [ ]
      | inr (_, root_y) ↦ root_y
    ]

    member_key : (r y : String) → In y (members groups r) → In y (keys d)
    unfolding Dict.get
    member_key r y i = elim ((g.members_of r y).0 i) [
      | inl nothing ↦ elim nothing [ ]
      | inr (k, _) ↦ k
    ]

    group_of :
        (c : List String) → In c (values groups) → (r : String) × (Dict.get groups r ≡ some c)
    group_of c i = values-get groups c groups-IsDict i

    members_eq : (r : String) {c : List String} → Dict.get groups r ≡ some c → members groups r ≡ c
    members_eq r e = ap (λ o. Option.get_or o []) e

    in_one :
        (a b : String) → (c : List String) × In c (values groups) × In a c × In b c → Linked a b
    in_one a b (c, i, ia, ib) =
        let (r, e) = group_of c i in
        let (n, s) = member_root r a (rw (members_eq r e) ia) in
        let (m, t) = member_root r b (rw (members_eq r e) ib) in
        SameRoot-Q Linked trans same symm d a b f.points (r, n, m, s, t)

    within : (a : String) (c : List String) → In c (values groups) → In a c → In a (keys d)
    within a c i ia = let (r, e) = group_of c i in member_key r a (rw (members_eq r e) ia)

    shared :
        (a : String) (c c' : List String)
        → In c (values groups)
        → In c' (values groups)
        → In a c
        → In a c'
        → c ≡ c'
    shared a c c' i i' ia ia' =
        let (r, e) = group_of c i in
        let (r', e') = group_of c' i' in
        let (n, s) = member_root r a (rw (members_eq r e) ia) in
        let (m, t) = member_root r' a (rw (members_eq r' e') ia') in
        sym (members_eq r e) ∙ ap (members groups) (one_root d s t) ∙ members_eq r' e'

    of_root :
        (a b : String)
        → In a (keys d)
        → In b (keys d)
        → SameRoot d a b
        → (c : List String) × In c (values groups) × In a c × In b c
    of_root a b ia ib (r, n, m, s, t) =
        let in_a = (g.members_of r a).1 (inr (ia, (n, s))) in
        let in_b = (g.members_of r b).1 (inr (ib, (m, t))) in
        elim (Option-cases (Dict.get groups r)) [
          | inl missing ↦ elim (rw (ap (λ o. Option.get_or o []) missing) at in_a) [ ]
          | inr (c, found) ↦ (
            c,
            In-values groups r found,
            rw (members_eq r found) at in_a,
            rw (members_eq r found) at in_b,
          )
        ]

    self_root : (a : String) → In a (keys d) → SameRoot d a a
    self_root a i = let (r, (n, _, t)) = f.reach a i in (r, n, n, t, t)

  -- The clusters: together exactly where linked, no id in two, and none that is not given.
  abbrev pub IsPartition : List String → List (List String) → Type 0
  IsPartition ids cs =
      ((a b : String)
        → In a ids
        → In b ids
        → ((c : List String) × In c cs × In a c × In b c) ↔ Linked a b)
      × ((a : String) (c c' : List String) → In c cs → In c' cs → In a c → In a c' → c ≡ c')
      × ((a : String) (c : List String) → In c cs → In a c → In a ids)

  -- `cluster_by_similarity` returns, if every id of a pair is among the ids. Two ids then stand in one
  -- cluster exactly when a chain of pairs at or above the threshold links them, each with itself
  -- included; clusters that share an id are equal, and hold no id but the given ones.
  pub cluster_by_similarity-IsPartition :
      (ids : List String)
      → All (IdsIn ids) pairs
      → (cs : List (List String)) × (cluster_by_similarity ids pairs threshold ≡ ok cs)
        × IsPartition ids cs
  unfolding cluster_by_similarity
  cluster_by_similarity-IsPartition ids w =
      let (d, e, m) =
        union_all-Merged Linked trans same symm threshold (suc (length pairs)) 0 (init ids) pairs
          (init-IsForest Linked trans same symm ids) (omega arith)
          (usable ids pairs (All-In pairs) w) in
      let (groups, e', g) =
        group_all-Grouped Linked trans (suc (length pairs)) m.height (keys d) d [] m.forest m.low
          (All-In (keys d)) in
      let known : (a : String) → In a ids → In a (keys d) =
        λ a i. rw (m.same_keys) (In-keys-init ids a i) in
      (
        values groups,
        rw (e, e') refl,
        (
          λ a b ia ib. (
            in_one d groups m.height m.forest g a b,
            λ l.
                of_root d groups m.height m.forest g a b (known a ia) (known b ib)
                  (elim (Linked-SameRoot d a b m.merges l) [
                    | inl ab ↦ rw (← ab) (self_root d groups m.height m.forest g a (known a ia))
                    | inr r ↦ r
                  ]),
          ),
          shared d groups m.height m.forest g,
          λ a c i ia.
              keys-init-In ids a
                (rw (sym m.same_keys) (within d groups m.height m.forest g a c i ia)),
        ),
      )
