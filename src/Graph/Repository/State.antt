-- ===== src/Graph/Repository/State.antt =====
-- The state of `InMemoryGraphRepository`, its entities and its links;
-- src/rootmem/storage/graph_normalize.py.
use rootmem.Base.{
  ℕ, String, Bool, ◌==◌, ◌&&◌, Option, none, some, List, [], ◌∷◌, ◌++◌, if◌then◌else◌, string_eq,
  pair_eq, first, any,
}
use rootmem.Base.Dict
use rootmem.Base.Dict.{Dict, values}
use rootmem.Base.Text.{Text}
use rootmem.Graph.Models.{EntityRecord, NewEntity, RelationRecord, is_active}

pub record Graph (F : Type 0) : Type 0 where
  pub entities : Dict String (EntityRecord F)
  pub relations : Dict String (RelationRecord F)
  pub memory_entities : List (String × String)
  pub relation_provenance : List (String × String)

-- `" ".join(name.strip().lower().split())`
unfoldable pub normalize_entity_name : Text → String → String
normalize_entity_name t name = t.join " " (t.split (t.lower (t.strip name)))

unfoldable pub normalize_entity_type : Text → String → String
normalize_entity_type t entity_type = t.join " " (t.split (t.lower (t.strip entity_type)))

-- `set.add`
unfoldable pub add_pair : List (String × String) → String × String → List (String × String)
add_pair links link = if any (λ l. l == link) links then links else links ++ (link ∷ [])

module _ {F : Type 0} where
  unfoldable pub get_entity_by_id : Graph F → String → String → Option (EntityRecord F)
  get_entity_by_id g namespace entity_id = elim (Dict.get g.entities entity_id) [
    | none ↦ none
    | some e ↦ if e.namespace == namespace then some e else none
  ]

  abbrev pub is_named : String → String → String → EntityRecord F → Bool
  is_named namespace canonical_type canonical_key e =
      e.namespace == namespace
      && (e.entity_type == canonical_type && e.canonical_key == canonical_key)

  unfoldable pub find_entity_by_name :
      Text → Graph F → String → String → String → Option (EntityRecord F)
  unfolding normalize_entity_name normalize_entity_type
  find_entity_by_name t g namespace entity_type name =
      first
        (is_named namespace (normalize_entity_type t entity_type) (normalize_entity_name t name))
        (values g.entities)

  abbrev pub entity_of : Text → String → ℕ → NewEntity F → EntityRecord F
  entity_of t fresh now entity = record {
    id = fresh;
    namespace = entity.namespace;
    entity_type = normalize_entity_type t entity.entity_type;
    name = entity.name;
    canonical_key = normalize_entity_name t entity.name;
    attributes = entity.attributes;
    created_at = now;
    updated_at = now;
  }

  unfoldable pub upsert_entity :
      Text → String → ℕ → Graph F → NewEntity F → Graph F × EntityRecord F
  unfolding find_entity_by_name
  upsert_entity t fresh now g entity =
      elim (find_entity_by_name t g entity.namespace entity.entity_type entity.name) [
        | some existing ↦ (g, existing)
        | none ↦ (
          record g { entities = Dict.put g.entities fresh (entity_of t fresh now entity) },
          entity_of t fresh now entity,
        )
      ]

  abbrev pub fits_active : String → String → String → RelationRecord F → Bool
  fits_active namespace subject predicate r =
      r.namespace == namespace
      && (r.subject_entity_id == subject && (r.predicate == predicate && is_active r))

  unfoldable pub find_active_relation :
      Graph F → String → String → String → Option (RelationRecord F)
  find_active_relation g namespace subject predicate =
      first (fits_active namespace subject predicate) (values g.relations)

  -- `self._relations[r.id] = r`
  unfoldable pub put_relation : Graph F → RelationRecord F → Graph F
  put_relation g r = record g { relations = Dict.put g.relations r.id r }

  unfoldable pub get_relation_by_id : Graph F → String → String → Option (RelationRecord F)
  get_relation_by_id g namespace relation_id = elim (Dict.get g.relations relation_id) [
    | none ↦ none
    | some r ↦ if r.namespace == namespace then some r else none
  ]
