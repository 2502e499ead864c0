-- ===== src/Graph/Repository/Related.antt =====
-- What `related` of src/rootmem/storage/fakes/in_memory_graph_repository.py finds.
use rootmem.Base.{
  ℕ, zero, suc, ◌+◌, ◌≤◌, ◌<◌, String, ◌≡◌, refl, true, not, ◌==◌, ◌&&◌, Option, none, some, List,
  [], ◌∷◌, string_eq, arith, Bool-cases, inl, inr, All, All-append, All-at, All-In, In, here, there,
  eq_of_==, &&-eq_true,
}
use rootmem.Base.Dict.{values}
use rootmem.Graph.Models.{RelationRecord}
use rootmem.Graph.Repository.State.{Graph}
use rootmem.Graph.Repository.Traversal.{
  has, has_option, Walk, reach, reach_option, touches, take_relation, visit, one_hop, hops, related,
}

-- An id that a list holds is one of its members.
has-In : (ids : List String) (x : String) → has ids x ≡ true → In x ids
has-In [] x h = cc
has-In (y ∷ ids) x h = elim (Bool-cases (y == x)) [
  | inl same ↦ rw (eq_of_== y x same) here
  | inr differ ↦ there (has-In ids x (ground arith))
]

module _ {F : Type 0} where
  -- The entity is the relation's subject or its object.
  pub data Touches (r : RelationRecord F) : String → Type 0 where
    subject : Touches r r.subject_entity_id
    object : {x : String} → r.object_entity_id ≡ some x → Touches r x

  -- The entity is the end of a path from `start` of so many relations, all of the list and of the
  -- namespace.
  pub data Reached (namespace start : String) (rs : List (RelationRecord F))
      : ℕ → String → Type 0 where
    begin : Reached namespace start rs 0 start
    hop :
        {n : ℕ} {x y : String} (r : RelationRecord F)
        → In r rs
        → r.namespace ≡ namespace
        → Touches r x
        → Touches r y
        → Reached namespace start rs n x
        → Reached namespace start rs (suc n) y

  module _ (namespace start : String) (rs : List (RelationRecord F)) where
    -- A stored relation of the namespace that a path of fewer than so many relations leads to.
    abbrev pub IsRelated : ℕ → RelationRecord F → Type 0
    IsRelated n r =
        In r rs
        × (r.namespace ≡ namespace)
        × ((k : ℕ) × (x : String) × (k < n) × Touches r x × Reached namespace start rs k x)

    -- The loop of the hop that starts with `n` hops done.
    record IsWalk (n : ℕ) (w : Walk F) : Type 0 where
      pub ahead : All (Reached namespace start rs (suc n)) w.next_frontier
      pub found : All (IsRelated (suc n)) w.results

    touches-Touches :
        (frontier : List String) (r : RelationRecord F)
        → touches frontier r ≡ true
        → (x : String) × In x frontier × Touches r x
    touches-Touches frontier r h = elim (Bool-cases (has frontier r.subject_entity_id)) [
      | inl yes_subject ↦
          (r.subject_entity_id, has-In frontier r.subject_entity_id yes_subject, subject)
      | inr no_subject ↦ by_object frontier r r.object_entity_id refl (rw no_subject at h)
    ]
      where
        by_object :
            (frontier : List String) (r : RelationRecord F) (o : Option String)
            → r.object_entity_id ≡ o
            → has_option frontier o ≡ true
            → (x : String) × In x frontier × Touches r x
        by_object frontier r none e h = cc
        by_object frontier r (some x) e h = (x, has-In frontier x h, object e)

    reach-IsWalk :
        (n : ℕ) (w : Walk F) (x : String)
        → Reached namespace start rs (suc n) x
        → IsWalk n w
        → IsWalk n (reach w x)
    reach-IsWalk n w x p v = elim (Bool-cases (has w.visited_entities x)) [
      | inl old ↦ rw old v
      | inr new ↦ rw new (record { ahead = (p, v.ahead); found = v.found })
    ]

    reach_option-IsWalk :
        (n : ℕ) (w : Walk F) (o : Option String)
        → ((x : String) → o ≡ some x → Reached namespace start rs (suc n) x)
        → IsWalk n w
        → IsWalk n (reach_option w o)
    reach_option-IsWalk n w none p v = v
    reach_option-IsWalk n w (some x) p v = reach-IsWalk n w x (p x refl) v

    take_relation-IsWalk :
        (n : ℕ) (w : Walk F) (r : RelationRecord F) (x : String)
        → In r rs
        → r.namespace ≡ namespace
        → Touches r x
        → Reached namespace start rs n x
        → IsWalk n w
        → IsWalk n (take_relation w r)
    take_relation-IsWalk n w r x i owner t p v =
        reach_option-IsWalk n _ r.object_entity_id (λ y e. hop r i owner t (object e) p)
          (reach-IsWalk n _ r.subject_entity_id (hop r i owner t subject p) (record {
            ahead = v.ahead;
            found =
                All-append (IsRelated (suc n)) w.results (r ∷ []) v.found
                  ((i, owner, (n, x, omega arith, t, p)), tt);
          }))

    visit-IsWalk :
        (n : ℕ) (frontier : List String) (w : Walk F) (r : RelationRecord F)
        → In r rs
        → All (Reached namespace start rs n) frontier
        → IsWalk n w
        → IsWalk n (visit namespace frontier w r)
    visit-IsWalk n frontier w r i reached v =
        let rest = touches frontier r && not (has w.seen_relation_ids r.id) in
        elim (Bool-cases (r.namespace == namespace && rest)) [
          | inr skip ↦ rw skip v
          | inl taken ↦
              let (owner, more) = &&-eq_true (r.namespace == namespace) rest taken in
              let touching =
                (&&-eq_true (touches frontier r) (not (has w.seen_relation_ids r.id)) more).0 in
              let (x, inside, t) = touches-Touches frontier r touching in
              rw taken (
                take_relation-IsWalk n w r x i (eq_of_== r.namespace namespace owner) t
                  (All-at (Reached namespace start rs n) frontier reached inside) v)
        ]

    one_hop-IsWalk :
        (n : ℕ) (frontier : List String) (w : Walk F) (todo : List (RelationRecord F))
        → All (λ r. In r rs) todo
        → All (Reached namespace start rs n) frontier
        → IsWalk n w
        → IsWalk n (one_hop namespace frontier w todo)
    unfolding one_hop
    one_hop-IsWalk n frontier w [] i reached v = v
    one_hop-IsWalk n frontier w (r ∷ todo) (i, is) reached v =
        one_hop-IsWalk n frontier (visit namespace frontier w r) todo is reached
          (visit-IsWalk n frontier w r i reached v)

    later :
        (n m : ℕ) (xs : List (RelationRecord F))
        → n ≤ m
        → All (IsRelated n) xs
        → All (IsRelated m) xs
    later n m [] le h = tt
    later n m (r ∷ xs) le ((i, owner, (k, x, lt, t, p)), h) =
        ((i, owner, (k, x, omega arith, t, p)), later n m xs le h)

    hops-IsRelated :
        (fuel n : ℕ) (frontier : List String) (w : Walk F)
        → All (λ r. In r rs) rs
        → All (Reached namespace start rs n) frontier
        → All (IsRelated n) w.results
        → All (IsRelated (n + fuel)) (hops fuel namespace rs frontier w)
    unfolding hops
    hops-IsRelated zero n frontier w is reached found =
        later n (n + 0) w.results (omega arith) found
    hops-IsRelated (suc fuel) n frontier w is reached found =
        let v =
          one_hop-IsWalk n frontier (record w { next_frontier = [] }) rs is reached
            (record { ahead = tt; found = later n (suc n) w.results (omega arith) found }) in
        let after = one_hop namespace frontier (record w { next_frontier = [] }) rs in
        continue after (λ x xs ahead. hops-IsRelated fuel (suc n) (x ∷ xs) after is ahead v.found)
          after.next_frontier v.ahead v.found
      where
        continue :
            (after : Walk F)
            → ((x : String) (xs : List String)
                → All (Reached namespace start rs (suc n)) (x ∷ xs)
                → All (IsRelated (suc n + fuel)) (hops fuel namespace rs (x ∷ xs) after))
            → (next : List String) → All (Reached namespace start rs (suc n)) next
            → All (IsRelated (suc n)) after.results
            → All
                (IsRelated (n + suc fuel))
                (elim next [ [] ↦ after.results | x ∷ xs ↦ hops fuel namespace rs (x ∷ xs) after ])
        continue after go [] ahead found =
            later (suc n) (n + suc fuel) after.results (omega arith) found
        continue after go (x ∷ xs) ahead found =
            later (suc n + fuel) (n + suc fuel) (hops fuel namespace rs (x ∷ xs) after)
              (omega arith) (go x xs ahead)

  -- `related` returns only stored relations of the namespace that touch an entity at the end of a path
  -- from the given one along fewer than `max_hops` stored relations of the namespace.
  pub related-IsRelated :
      (g : Graph F) (namespace entity_id : String) (max_hops : ℕ)
      → All
          (IsRelated namespace entity_id (values g.relations) max_hops)
          (related g namespace entity_id max_hops)
  unfolding related
  related-IsRelated g namespace entity_id max_hops =
      later namespace entity_id (values g.relations) (0 + max_hops) max_hops
        (related g namespace entity_id max_hops) (omega arith)
        (hops-IsRelated namespace entity_id (values g.relations) max_hops 0 (entity_id ∷ []) _
          (All-In (values g.relations)) (begin, tt) tt)
