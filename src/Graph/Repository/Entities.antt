-- ===== src/Graph/Repository/Entities.antt =====
-- `upsert_entity` of src/rootmem/storage/fakes/in_memory_graph_repository.py.
use rootmem.Base.{
  ℕ, String, ◌≡◌, ◌∙◌, none, some, [], ◌∷◌, string_eq, Option-cases, inl, inr, first, first-append,
  ==_refl,
}
use rootmem.Base.Dict
use rootmem.Base.Dict.{values}
use rootmem.Base.Dict.Keyed.{values-put_fresh}
use rootmem.Base.Text.{Text}
use rootmem.Graph.Models.{EntityRecord, NewEntity}
use rootmem.Graph.Repository.State.{
  Graph, normalize_entity_name, normalize_entity_type, is_named, find_entity_by_name, entity_of,
  upsert_entity,
}

module _ {F : Type 0} (t : Text) where
  found_after :
      (fresh : String) (now : ℕ) (g : Graph F) (e : NewEntity F)
      → Dict.get g.entities fresh ≡ none
      → find_entity_by_name t (upsert_entity t fresh now g e).0 e.namespace e.entity_type e.name
        ≡ some (upsert_entity t fresh now g e).1
  unfolding upsert_entity find_entity_by_name
  found_after fresh now g e free =
      elim (Option-cases (find_entity_by_name t g e.namespace e.entity_type e.name)) [
        | inr (r, old) ↦ rw (old, upsert_entity) old
        | inl new ↦
            let fits =
              is_named e.namespace (normalize_entity_type t e.entity_type)
                (normalize_entity_name t e.name) in
            rw
              (
                new,
                upsert_entity,
                values-put_fresh g.entities fresh (entity_of t fresh now e) free,
                first-append fits (values g.entities) (entity_of t fresh now e ∷ []) new,
              )
              (rw (
                ==_refl e.namespace,
                ==_refl (normalize_entity_type t e.entity_type),
                ==_refl (normalize_entity_name t e.name),
              ))
      ]

  upsert_known :
      (fresh : String) (now : ℕ) (g : Graph F) (e : NewEntity F) (r : EntityRecord F)
      → find_entity_by_name t g e.namespace e.entity_type e.name ≡ some r
      → upsert_entity t fresh now g e ≡ (g, r)
  unfolding upsert_entity
  upsert_known fresh now g e r h = rw (h, upsert_entity)

  same_search :
      (g : Graph F) (e e' : NewEntity F)
      → e'.namespace ≡ e.namespace
      → normalize_entity_name t e'.name ≡ normalize_entity_name t e.name
      → normalize_entity_type t e'.entity_type ≡ normalize_entity_type t e.entity_type
      → find_entity_by_name t g e'.namespace e'.entity_type e'.name
        ≡ find_entity_by_name t g e.namespace e.entity_type e.name
  unfolding find_entity_by_name
  same_search g e e' p q r = λ i. first (is_named (p i) (r i) (q i)) (values g.entities)

  -- Upserting a name and type that normalize to those of an upsert before, in the same namespace,
  -- changes nothing and returns the same entity.
  pub upsert-upsert :
      (fresh other : String) (now later : ℕ) (g : Graph F) (e e' : NewEntity F)
      → Dict.get g.entities fresh ≡ none
      → e'.namespace ≡ e.namespace
      → normalize_entity_name t e'.name ≡ normalize_entity_name t e.name
      → normalize_entity_type t e'.entity_type ≡ normalize_entity_type t e.entity_type
      → upsert_entity t other later (upsert_entity t fresh now g e).0 e'
        ≡ upsert_entity t fresh now g e
  upsert-upsert fresh other now later g e e' free p q r =
      upsert_known other later (upsert_entity t fresh now g e).0 e'
        (upsert_entity t fresh now g e).1
        (same_search (upsert_entity t fresh now g e).0 e e' p q r ∙ found_after fresh now g e free)
