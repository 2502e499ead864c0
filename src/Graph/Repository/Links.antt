-- ===== src/Graph/Repository/Links.antt =====
-- The sets of pairs of src/rootmem/storage/fakes/in_memory_graph_repository.py, and what the writes
-- of relations and links leave alone.
use rootmem.Base.{
  ℕ, String, ◌≡◌, refl, true, none, some, Option, List, [], ◌∷◌, ◌==◌, string_eq, pair_eq, arith,
  Bool-cases, inl, inr, any, In, here, there, In-append_left, In-append_right, eq_of_==,
}
use rootmem.Base.Float.{Float}
use rootmem.Graph.Models.{RelationRecord, NewRelation}
use rootmem.Graph.Repository.State.{Graph, add_pair, find_active_relation, put_relation}
use rootmem.Graph.Repository.{create_relation, apply_decision, is_corroborate}
use rootmem.Extraction.Contradiction.{
  BayesianSettings, ContradictionDecision, resolve_contradiction,
}

any-In :
    (links : List (String × String)) (x : String × String)
    → any (λ l. l == x) links ≡ true
    → In x links
any-In [] x h = cc
any-In (l ∷ links) x h = elim (Bool-cases (l == x)) [
  | inl same ↦ rw (eq_of_== l x same) here
  | inr differ ↦ there (any-In links x (ground arith))
]

pub add_pair-In : (links : List (String × String)) (x : String × String) → In x (add_pair links x)
unfolding add_pair
add_pair-In links x = elim (Bool-cases (any (λ l. l == x) links)) [
  | inl old ↦ rw (old, add_pair) (any-In links x old)
  | inr new ↦ rw (new, add_pair) (In-append_right x links (x ∷ []) here)
]

pub In-add_pair :
    (links : List (String × String)) (x y : String × String) → In y links → In y (add_pair links x)
unfolding add_pair
In-add_pair links x y i = elim (Bool-cases (any (λ l. l == x) links)) [
  | inl old ↦ rw (old, add_pair) i
  | inr new ↦ rw (new, add_pair) (In-append_left y links (x ∷ []) i)
]

module _ {F : Type 0} where
  -- Another graph with the same entities and links.
  pub record SameLinks (g h : Graph F) : Type 0 where
    pub entities : h.entities ≡ g.entities
    pub memory_entities : h.memory_entities ≡ g.memory_entities
    pub relation_provenance : h.relation_provenance ≡ g.relation_provenance

module _ {F : Type 0} ⦃fl : Float F⦄ where
  apply_decision-SameLinks :
      (new_id : String) (now : ℕ) (g : Graph F) (previous : Option (RelationRecord F))
      (relation : NewRelation F) (d : ContradictionDecision F)
      → SameLinks g (apply_decision new_id now g previous relation d).0
  unfolding put_relation
  apply_decision-SameLinks new_id now g none relation d = record {
    entities = refl;
    memory_entities = refl;
    relation_provenance = refl;
  }
  apply_decision-SameLinks new_id now g (some previous) relation d =
      elim (Bool-cases (is_corroborate d.action)) [
        | inl same ↦
            rw same (record { entities = refl; memory_entities = refl; relation_provenance = refl })
        | inr differ ↦
            rw differ
              (record { entities = refl; memory_entities = refl; relation_provenance = refl })
      ]

  pub create_relation-SameLinks :
      (settings : BayesianSettings F) (new_id : String) (now : ℕ) (g : Graph F)
      (relation : NewRelation F)
      → SameLinks g (create_relation settings new_id now g relation).0
  unfolding create_relation
  create_relation-SameLinks settings new_id now g relation =
      let previous =
        find_active_relation g relation.namespace relation.subject_entity_id relation.predicate in
      apply_decision-SameLinks new_id now g previous relation
        (resolve_contradiction previous relation relation.derivation settings)
