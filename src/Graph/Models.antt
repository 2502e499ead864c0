-- ===== src/Graph/Models.antt =====
-- src/rootmem/storage/graph_models.py.
use rootmem.Base.{
  ℕ, String, ◌==◌, Bool, true, false, not, ◌&&◌, Option, none, some, if◌then◌else◌, string_eq,
}
use rootmem.Base.Float.{Float}
use rootmem.Base.Json.{Fields, end, field, Json, truthy, boolean}

pub record EntityRecord (F : Type 0) : Type 0 where
  pub id : String
  pub namespace : String
  pub entity_type : String
  pub name : String
  pub canonical_key : String
  pub attributes : Fields F
  pub created_at : ℕ
  pub updated_at : ℕ

pub record NewEntity (F : Type 0) : Type 0 where
  pub namespace : String
  pub entity_type : String
  pub name : String
  pub attributes : Fields F

pub data Derivation : Type 0 where
  extracted distilled : Derivation

pub record RelationRecord (F : Type 0) : Type 0 where
  pub id : String
  pub namespace : String
  pub subject_entity_id : String
  pub predicate : String
  pub object_entity_id : Option String
  pub object_literal : Option String
  pub confidence : F
  pub belief_alpha : F
  pub belief_beta : F
  pub valid_from : ℕ
  pub valid_to : Option ℕ
  pub recorded_at : ℕ
  pub supersedes : Option String
  pub superseded_by : Option String
  pub derivation : Derivation
  pub source_memory_id : Option String
  pub metadata : Fields F

abbrev pub is_none {ℓ} : {A : Type ℓ} → Option A → Bool
is_none none = true
is_none (some a) = false

abbrev pub is_active : {F : Type 0} → RelationRecord F → Bool
is_active r = is_none r.valid_to

-- `d.get(k)` and `d[k] = v` of a JSON object
unfoldable pub get_field : {F : Type 0} → Fields F → String → Option (Json F)
get_field end k = none
get_field (field j v fs) k = let rest = get_field fs k in if j == k then some v else rest

unfoldable pub put_field : {F : Type 0} → Fields F → String → Json F → Fields F
put_field end k v = field k v end
put_field (field j w fs) k v =
    let rest = put_field fs k v in if j == k then field j v fs else field j w rest

abbrev pub truthy_or_false : {F : Type 0} ⦃fl : Float F⦄ → Option (Json F) → Bool
truthy_or_false none = false
truthy_or_false (some v) = truthy v

-- `bool(self.metadata.get("contested", False))`
unfoldable pub is_contested : {F : Type 0} ⦃fl : Float F⦄ → RelationRecord F → Bool
unfolding get_field
is_contested r = truthy_or_false (get_field r.metadata "contested")

-- `metadata["contested"] = flag` on a copy
unfoldable pub set_contested : {F : Type 0} → Bool → Fields F → Fields F
unfolding put_field
set_contested flag metadata = put_field metadata "contested" (boolean flag)

pub record NewRelation (F : Type 0) : Type 0 where
  pub namespace : String
  pub subject_entity_id : String
  pub predicate : String
  pub object_entity_id : Option String
  pub object_literal : Option String
  pub confidence : F
  pub derivation : Derivation
  pub source_memory_id : Option String
  pub metadata : Fields F

-- `_object_present`: a relation without an object is refused.
unfoldable pub object_present : {F : Type 0} → NewRelation F → Bool
object_present r = not (is_none r.object_entity_id && is_none r.object_literal)

pub record ContradictionResolution (F : Type 0) : Type 0 where
  pub new : RelationRecord F
  pub previous : Option (RelationRecord F)
  pub contested : Bool
  pub corroborated : Bool
