-- ===== src/Memory/Repository/Find.antt =====
-- The lookups of `InMemoryMemoryRepository`. A loop over `_records.values()` that returns at the
-- first fit is `first`.
use rootmem.Base.{
  ℕ, String, Bool, not, ◌&&◌, Option, none, some, List, ◌==◌, if◌then◌else◌, first, keep, length,
  take, string_eq, option_eq, ltb,
}
use rootmem.Base.Dict
use rootmem.Base.Dict.{Dict, values}
use rootmem.Base.Sort.{sort}
use rootmem.Memory.Models.{MemoryRecord, is_deleted, is_some}

pub data NotFound : Type 0 where
  not_found : NotFound

module _ {F : Type 0} where
  abbrev pub live_in : String → MemoryRecord F → Bool
  live_in namespace r = r.namespace == namespace && not (is_deleted r)

  unfoldable pub get_by_id :
      Dict String (MemoryRecord F) → String → String → Option (MemoryRecord F)
  get_by_id records namespace memory_id = elim (Dict.get records memory_id) [
    | none ↦ none
    | some r ↦ if live_in namespace r then some r else none
  ]

  abbrev pub same_key : String → String → MemoryRecord F → Bool
  same_key namespace key r = live_in namespace r && r.key == some key

  unfoldable pub get_by_key :
      Dict String (MemoryRecord F) → String → String → Option (MemoryRecord F)
  get_by_key records namespace key = first (same_key namespace key) (values records)

  abbrev pub same_idempotency_key : String → String → MemoryRecord F → Bool
  same_idempotency_key namespace key r = live_in namespace r && r.idempotency_key == some key

  unfoldable pub find_by_idempotency_key :
      Dict String (MemoryRecord F) → String → String → Option (MemoryRecord F)
  find_by_idempotency_key records namespace key =
      first (same_idempotency_key namespace key) (values records)

  abbrev pub unconsolidated : String → MemoryRecord F → Bool
  unconsolidated namespace r = live_in namespace r && not (is_some r.consolidated_at)

  unfoldable pub count_unconsolidated : Dict String (MemoryRecord F) → String → ℕ
  count_unconsolidated records namespace = length (keep (unconsolidated namespace) (values records))

  abbrev pub created_before : MemoryRecord F → MemoryRecord F → Bool
  created_before a b = ltb a.created_at b.created_at

  unfoldable pub list_unconsolidated :
      Dict String (MemoryRecord F) → String → ℕ → List (MemoryRecord F)
  list_unconsolidated records namespace limit =
      take limit (sort created_before (keep (unconsolidated namespace) (values records)))
