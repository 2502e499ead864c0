-- ===== src/Graph/Repository/Traversal.antt =====
-- `related`, and the links between memories, entities and relations. A set of ids is a list.
use rootmem.Base.{
  ℕ, zero, suc, String, Bool, true, false, not, ◌==◌, ◌&&◌, ◌||◌, Option, none, some, List, [], ◌∷◌,
  ◌++◌, if◌then◌else◌, string_eq, pair_eq, any, keep, map,
}
use mathlib.Core.Option
use rootmem.Base.Dict
use rootmem.Base.Dict.{Dict, values}
use rootmem.Graph.Models.{RelationRecord}
use rootmem.Graph.Repository.State.{Graph, add_pair, get_entity_by_id}

abbrev pub has : List String → String → Bool
has ids x = any (λ y. y == x) ids

abbrev pub has_option : List String → Option String → Bool
has_option ids none = false
has_option ids (some x) = has ids x

abbrev pub add_entity_id : Dict String (List String) → String → String → Dict String (List String)
add_entity_id result memory_id entity_id =
    let known = Option.get_or (Dict.get result memory_id) [] in
    Dict.put result memory_id (if has known entity_id then known else known ++ (entity_id ∷ []))

abbrev pub link_entity :
    List String → Dict String (List String) → String → String → Bool → Dict String (List String)
link_entity wanted result memory_id entity_id owned =
    if has wanted memory_id && owned then add_entity_id result memory_id entity_id else result

-- The variables of `related` during one hop.
pub record Walk (F : Type 0) : Type 0 where
  pub next_frontier : List String
  pub visited_entities : List String
  pub seen_relation_ids : List String
  pub results : List (RelationRecord F)

module _ {F : Type 0} where
  abbrev pub reach : Walk F → String → Walk F
  reach w candidate = if has w.visited_entities candidate then w else record w {
    next_frontier = candidate ∷ w.next_frontier;
    visited_entities = candidate ∷ w.visited_entities;
  }

  abbrev pub reach_option : Walk F → Option String → Walk F
  reach_option w none = w
  reach_option w (some candidate) = reach w candidate

  abbrev pub touches : List String → RelationRecord F → Bool
  touches frontier r = has frontier r.subject_entity_id || has_option frontier r.object_entity_id

  abbrev pub take_relation : Walk F → RelationRecord F → Walk F
  take_relation w r =
      let taken = record w {
        seen_relation_ids = r.id ∷ w.seen_relation_ids;
        results = w.results ++ (r ∷ []);
      } in
      reach_option (reach taken r.subject_entity_id) r.object_entity_id

  abbrev pub visit : String → List String → Walk F → RelationRecord F → Walk F
  visit namespace frontier w r =
      if r.namespace == namespace && (touches frontier r && not (has w.seen_relation_ids r.id))
      then take_relation w r
      else w

  -- the loop over `self._relations.values()`
  unfoldable pub one_hop : String → List String → Walk F → List (RelationRecord F) → Walk F
  one_hop namespace frontier w [] = w
  one_hop namespace frontier w (r ∷ relations) =
      one_hop namespace frontier (visit namespace frontier w r) relations

  -- the loop over `range(max_hops)`, which ends at an empty frontier
  unfoldable pub hops :
      ℕ → String → List (RelationRecord F) → List String → Walk F → List (RelationRecord F)
  unfolding one_hop
  hops zero namespace relations frontier w = w.results
  hops (suc n) namespace relations frontier w =
      let after = one_hop namespace frontier (record w { next_frontier = [] }) relations in
      elim after.next_frontier [
        | [] ↦ after.results
        | x ∷ xs ↦ hops n namespace relations (x ∷ xs) after
      ]

  unfoldable pub related : Graph F → String → String → ℕ → List (RelationRecord F)
  unfolding hops
  related g namespace entity_id max_hops =
      hops max_hops namespace (values g.relations) (entity_id ∷ []) (record {
        next_frontier = [];
        visited_entities = entity_id ∷ [];
        seen_relation_ids = [];
        results = [];
      })

  unfoldable pub link_memory_entity : Graph F → String → String → Graph F
  unfolding add_pair
  link_memory_entity g memory_id entity_id = record g {
    memory_entities = add_pair g.memory_entities (memory_id, entity_id);
  }

  abbrev pub is_owned : Graph F → String → String → Bool
  is_owned g namespace entity_id = elim (get_entity_by_id g namespace entity_id) [
    | none ↦ false
    | some e ↦ true
  ]

  unfoldable pub entity_ids_from :
      Graph F
      → String
      → List String
      → Dict String (List String)
      → List (String × String)
      → Dict String (List String)
  entity_ids_from g namespace wanted result [] = result
  entity_ids_from g namespace wanted result ((memory_id, entity_id) ∷ links) =
      entity_ids_from g namespace wanted
        (link_entity wanted result memory_id entity_id (is_owned g namespace entity_id)) links

  unfoldable pub entity_ids_for_memories :
      Graph F → String → List String → Dict String (List String)
  unfolding entity_ids_from
  entity_ids_for_memories g namespace memory_ids =
      entity_ids_from g namespace memory_ids [] g.memory_entities

  unfoldable pub link_relation_provenance : Graph F → String → String → Graph F
  unfolding add_pair
  link_relation_provenance g relation_id memory_id = record g {
    relation_provenance = add_pair g.relation_provenance (relation_id, memory_id);
  }

  abbrev pub is_known : Option (RelationRecord F) → Bool
  is_known none = false
  is_known (some r) = true

  unfoldable pub get_relation_provenance : Graph F → String → List String
  get_relation_provenance g relation_id =
      map (λ (p : String × String). p.1)
        (keep
          (λ (p : String × String).
            p.0 == relation_id && is_known (Dict.get g.relations relation_id))
          g.relation_provenance)
