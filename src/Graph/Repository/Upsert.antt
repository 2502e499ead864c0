-- ===== src/Graph/Repository/Upsert.antt =====
-- What `upsert_entity` of src/rootmem/storage/fakes/in_memory_graph_repository.py leaves alone.
use rootmem.Base.{
  ℕ, String, ◌≡◌, ◌≢◌, refl, ◌∙◌, ◌==◌, none, some, string_eq, Option-cases, inl, inr, In-first,
  ==_ne, &&-eq_true, eq_of_==, Bool-cases,
}
use rootmem.Base.Dict
use rootmem.Base.Dict.{values, get-put_self, get-put_ne}
use rootmem.Base.Dict.Keyed.{IsKeyed, put-IsKeyed, get-In}
use rootmem.Base.Text.{Text}
use rootmem.Graph.Models.{EntityRecord, NewEntity}
use rootmem.Graph.Repository.State.{
  Graph, normalize_entity_name, normalize_entity_type, is_named, find_entity_by_name, entity_of,
  upsert_entity,
}

abbrev pub entity_id : {F : Type 0} → EntityRecord F → String
entity_id e = e.id

module _ {F : Type 0} (t : Text) where
  -- The entity stands under its id, in the namespace, under the normalized name and type.
  pub record IsStored (g : Graph F) (namespace name entity_type id : String) : Type 0 where
    pub entity : EntityRecord F
    pub found : Dict.get g.entities id ≡ some entity
    pub owner : entity.namespace ≡ namespace
    pub typed : entity.entity_type ≡ normalize_entity_type t entity_type
    pub canonical : entity.canonical_key ≡ normalize_entity_name t name

  abbrev pub Keeps : Graph F → Graph F → Type 0
  Keeps g h =
      (id : String) (e : EntityRecord F)
      → Dict.get g.entities id ≡ some e
      → Dict.get h.entities id ≡ some e

  -- An upsert of a name and type, as an effect on the graph.
  pub record IsUpsert (g : Graph F) (fresh : String) (new : NewEntity F) (h : Graph F)
      (e : EntityRecord F) : Type 0 where
    pub keyed : IsKeyed entity_id h.entities
    pub kept : Keeps g h
    pub stored : IsStored h new.namespace new.name new.entity_type e.id
    pub others : (id : String) → fresh ≢ id → Dict.get h.entities id ≡ Dict.get g.entities id
    pub relations : h.relations ≡ g.relations
    pub memory_entities : h.memory_entities ≡ g.memory_entities
    pub relation_provenance : h.relation_provenance ≡ g.relation_provenance

  pub upsert_entity-IsUpsert :
      (fresh : String) (now : ℕ) (g : Graph F) (new : NewEntity F)
      → IsKeyed entity_id g.entities
      → Dict.get g.entities fresh ≡ none
      → IsUpsert g fresh new (upsert_entity t fresh now g new).0 (upsert_entity t fresh now g new).1
  unfolding upsert_entity find_entity_by_name
  upsert_entity-IsUpsert fresh now g new h free =
      elim (Option-cases (find_entity_by_name t g new.namespace new.entity_type new.name)) [
        | inr (r, old) ↦
            let (i, fits) =
              In-first
                (is_named new.namespace (normalize_entity_type t new.entity_type)
                  (normalize_entity_name t new.name))
                (values g.entities) {a = r} old in
            let (owner, rest) = &&-eq_true (r.namespace == new.namespace) _ fits in
            let (typed, named) =
              &&-eq_true (r.entity_type == normalize_entity_type t new.entity_type) _ rest in
            rw (old, upsert_entity)
              (record {
                keyed = h;
                kept = λ id e found. found;
                stored = record {
                  entity = r;
                  found = get-In entity_id g.entities h i;
                  owner = eq_of_== r.namespace new.namespace owner;
                  typed = eq_of_== r.entity_type (normalize_entity_type t new.entity_type) typed;
                  canonical = eq_of_== r.canonical_key (normalize_entity_name t new.name) named;
                };
                others = λ id differ. refl;
                relations = refl;
                memory_entities = refl;
                relation_provenance = refl;
              })
        | inl none_ ↦
            let e = entity_of t fresh now new in
            rw (none_, upsert_entity)
              (record {
                keyed = put-IsKeyed entity_id g.entities fresh e refl h;
                kept = λ id r found. still e id r found;
                stored = record {
                  entity = e;
                  found = get-put_self g.entities fresh e;
                  owner = refl;
                  typed = refl;
                  canonical = refl;
                };
                others = λ id differ. get-put_ne g.entities fresh id e (==_ne fresh id differ);
                relations = refl;
                memory_entities = refl;
                relation_provenance = refl;
              })
      ]
    where
      still :
          (e : EntityRecord F) (id : String) (r : EntityRecord F)
          → Dict.get g.entities id ≡ some r
          → Dict.get (Dict.put g.entities fresh e) id ≡ some r
      still e id r found = elim (Bool-cases (fresh == id)) [
        | inl same ↦ absurd (clash (rw (← eq_of_== fresh id same) at found))
        | inr differ ↦ get-put_ne g.entities fresh id e differ ∙ found
      ]
        where
          clash : ¬ (Dict.get g.entities fresh ≡ some r)
          clash q = let p = free in cc
