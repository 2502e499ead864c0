-- ===== src/Memory/Repository.antt =====
-- `InMemoryMemoryRepository`: a call takes the repository and returns the new one beside its result.
-- The id that `uuid4` draws and the time that the clock shows are arguments.
mod Find
pub mod Search
pub use Find.{
  NotFound, not_found, live_in, same_key, same_idempotency_key, unconsolidated, created_before,
}
unfoldable pub use Find.{
  get_by_id, get_by_key, find_by_idempotency_key, count_unconsolidated, list_unconsolidated,
}
use mathlib.Core.Option
use rootmem.Base.{
  ℕ, ◌+◌, zero, suc, String, Bool, true, false, Option, none, some, List, [], ◌∷◌, Result, ok,
  raise, if◌then◌else◌, string_eq,
}
use rootmem.Base.Dict
use rootmem.Base.Dict.{Dict}
use rootmem.Memory.Models.{
  MemoryRecord, NewMemory, MemoryUpdate, is_deleted, current_schema_version,
}

-- The state `_records`; the weights of hybrid search are arguments of the search.
abbrev pub Records : Type 0 → Type 0
Records F = Dict String (MemoryRecord F)

module _ {F : Type 0} where
  abbrev pub stored : String → ℕ → NewMemory F → MemoryRecord F
  stored fresh now memory = record {
    id = fresh;
    schema_version = current_schema_version;
    namespace = memory.namespace;
    key = memory.key;
    idempotency_key = memory.idempotency_key;
    content = memory.content;
    content_embedding = memory.content_embedding;
    source = memory.source;
    source_session_id = memory.source_session_id;
    confidence = memory.confidence;
    importance_flag = memory.importance_flag;
    salience_score = none;
    consolidated_at = none;
    session_outcome = memory.session_outcome;
    last_accessed_at = none;
    access_count = 0;
    metadata = memory.metadata;
    created_at = now;
    updated_at = now;
    deleted_at = none;
    deleted_reason = none;
  }

  -- the record that an idempotency key already names
  abbrev pub existing : Records F → String → Option String → Option (MemoryRecord F)
  existing records namespace none = none
  existing records namespace (some k) = find_by_idempotency_key records namespace k

  unfoldable pub create : String → ℕ → Records F → NewMemory F → Records F × MemoryRecord F
  create fresh now records memory =
      elim (existing records memory.namespace memory.idempotency_key) [
        | some found ↦ (records, found)
        | none ↦ (Dict.put records fresh (stored fresh now memory), stored fresh now memory)
      ]

  abbrev pub changed : ℕ → MemoryRecord F → MemoryUpdate F → MemoryRecord F
  changed now r changes = record r {
    content = Option.get_or changes.content r.content;
    confidence = Option.get_or changes.confidence r.confidence;
    metadata = Option.get_or changes.metadata r.metadata;
    updated_at = now;
  }

  unfoldable pub update :
      ℕ → Records F → String → MemoryUpdate F → Result NotFound (Records F × MemoryRecord F)
  update now records memory_id changes = elim (Dict.get records memory_id) [
    | none ↦ raise not_found
    | some r ↦
        if is_deleted r
        then raise not_found
        else ok (Dict.put records memory_id (changed now r changes), changed now r changes)
  ]

  abbrev pub deleted : ℕ → Option String → MemoryRecord F → MemoryRecord F
  deleted now reason r = record r {
    deleted_at = some now;
    deleted_reason = reason;
    updated_at = now;
  }

  unfoldable pub soft_delete :
      ℕ → Records F → String → Option String → Result NotFound (Records F × MemoryRecord F)
  soft_delete now records memory_id reason = elim (Dict.get records memory_id) [
    | none ↦ raise not_found
    | some r ↦
        if is_deleted r
        then ok (records, r)
        else ok (Dict.put records memory_id (deleted now reason r), deleted now reason r)
  ]

  -- `self._records[id] = f(record)` where the id is there
  unfoldable pub modify : (MemoryRecord F → MemoryRecord F) → Records F → String → Records F
  modify f records memory_id = elim (Dict.get records memory_id) [
    | none ↦ records
    | some r ↦ Dict.put records memory_id (f r)
  ]

  -- the loop of `mark_consolidated` and `record_access`
  unfoldable pub modify_all :
      (MemoryRecord F → MemoryRecord F) → Records F → List String → Records F
  unfolding modify
  modify_all f records [] = records
  modify_all f records (memory_id ∷ ids) = modify_all f (modify f records memory_id) ids

  unfoldable pub mark_consolidated : Records F → List String → ℕ → Records F
  unfolding modify_all
  mark_consolidated records memory_ids consolidated_at =
      modify_all (λ r. record r { consolidated_at = some consolidated_at }) records memory_ids

  abbrev pub accessed : ℕ → MemoryRecord F → MemoryRecord F
  accessed accessed_at r =
      if is_deleted r
      then r
      else record r { last_accessed_at = some accessed_at; access_count = r.access_count + 1 }

  unfoldable pub record_access : Records F → List String → ℕ → Records F
  unfolding modify_all
  record_access records memory_ids accessed_at =
      modify_all (accessed accessed_at) records memory_ids

  unfoldable pub update_salience : Records F → String → F → Records F
  unfolding modify
  update_salience records memory_id salience_score =
      modify (λ r. record r { salience_score = some salience_score }) records memory_id

  unfoldable pub namespace_of : Records F → String → Option String
  namespace_of records memory_id =
      Option.map (λ (r : MemoryRecord F). r.namespace) (Dict.get records memory_id)
