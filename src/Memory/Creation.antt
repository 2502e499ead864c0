-- ===== src/Memory/Creation.antt =====
-- `create` of src/rootmem/storage/fakes/in_memory_repository.py.

use rootmem.Base.{
  ℕ, String, ◌≡◌, refl, true, false, Option, none, some, [], ◌∷◌, ◌==◌, string_eq, option_eq, first,
  In-first, arith, Option-cases, inl, inr, In, ==_of_eq, ==_refl, &&-eq_true, first-append,
}
use rootmem.Base.Dict
use rootmem.Base.Dict.{Dict, values, get-put_self}
use rootmem.Base.Dict.Keyed.{IsKeyed, get-In, put-IsKeyed, values-put_fresh}
use rootmem.Memory.Models.{MemoryRecord, NewMemory, is_deleted}
use rootmem.Memory.Repository.{
  Records, create, stored, existing, get_by_id, find_by_idempotency_key, live_in,
  same_idempotency_key,
}

module _ {F : Type 0} where
  abbrev pub id_of : MemoryRecord F → String
  id_of r = r.id

  -- Every record stands under its own id.
  abbrev pub IsStore : Records F → Type 0
  IsStore = IsKeyed id_of

  live_in-namespace :
      (namespace : String) (r : MemoryRecord F)
      → r.namespace ≡ namespace
      → is_deleted r ≡ false
      → live_in namespace r ≡ true
  live_in-namespace namespace r p q = rw (==_of_eq r.namespace namespace p, q)

  get_by_id-stored :
      (records : Records F) (namespace : String) (r : MemoryRecord F)
      → Dict.get records r.id ≡ some r
      → live_in namespace r ≡ true
      → get_by_id records namespace r.id ≡ some r
  unfolding get_by_id
  get_by_id-stored records namespace r g l = rw (g, get_by_id) (ground arith)

  -- `create` keeps every record under its own id.
  pub create-IsStore :
      (fresh : String) (now : ℕ) (records : Records F) (memory : NewMemory F)
      → IsStore records
      → IsStore (create fresh now records memory).0
  unfolding create
  create-IsStore fresh now records memory s =
      elim (Option-cases (existing records memory.namespace memory.idempotency_key)) [
        | inl new ↦
            rw (new, create) (put-IsKeyed id_of records fresh (stored fresh now memory) refl s)
        | inr (r, old) ↦ rw (old, create) s
      ]

  existing-live :
      (records : Records F) (namespace : String) (key : Option String) {r : MemoryRecord F}
      → existing records namespace key ≡ some r
      → In r (values records) × (live_in namespace r ≡ true)
  unfolding find_by_idempotency_key
  existing-live records namespace none e = cc
  existing-live records namespace (some k) {r} e =
      let (i, fits) = In-first (same_idempotency_key namespace k) (values records) {a = r} e in
      (i, (&&-eq_true (live_in namespace r) (r.idempotency_key == some k) fits).0)

  -- What `create` returns can be read back under its id in its namespace: the new record, or the live
  -- one that the idempotency key already names.
  pub get_by_id-create :
      (fresh : String) (now : ℕ) (records : Records F) (memory : NewMemory F)
      → IsStore records
      → get_by_id
          (create fresh now records memory).0
          memory.namespace
          (create fresh now records memory).1.id
        ≡ some (create fresh now records memory).1
  unfolding create
  get_by_id-create fresh now records memory s =
      elim (Option-cases (existing records memory.namespace memory.idempotency_key)) [
        | inl new ↦
            rw (new, create)
              (get_by_id-stored (Dict.put records fresh (stored fresh now memory)) memory.namespace
                (stored fresh now memory) (get-put_self records fresh (stored fresh now memory))
                (live_in-namespace memory.namespace (stored fresh now memory) refl refl))
        | inr (r, old) ↦
            let (i, live) =
              existing-live records memory.namespace memory.idempotency_key {r = r} old in
            rw (old, create)
              (get_by_id-stored records memory.namespace r (get-In id_of records s i) live)
      ]

  stored-fits :
      (fresh : String) (now : ℕ) (memory : NewMemory F) (k : String)
      → memory.idempotency_key ≡ some k
      → same_idempotency_key memory.namespace k (stored fresh now memory) ≡ true
  stored-fits fresh now memory k key =
      rw (==_refl memory.namespace, ==_of_eq memory.idempotency_key (some k) key)

  existing-create :
      (fresh : String) (now : ℕ) (records : Records F) (memory : NewMemory F) (k : String)
      → Dict.get records fresh ≡ none
      → memory.idempotency_key ≡ some k
      → existing (create fresh now records memory).0 memory.namespace (some k)
        ≡ some (create fresh now records memory).1
  unfolding create find_by_idempotency_key
  existing-create fresh now records memory k free key =
      elim (Option-cases (existing records memory.namespace memory.idempotency_key)) [
        | inr (r, old) ↦ rw (old, create) (rw key at old)
        | inl new ↦
            let new_record = stored fresh now memory in
            let fits = same_idempotency_key memory.namespace k in
            let absent : first fits (values records) ≡ none = rw key at new in
            rw (
              new,
              create,
              values-put_fresh records fresh new_record free,
              first-append fits (values records) (new_record ∷ []) absent,
              stored-fits fresh now memory k key,
            )
      ]

  create_known :
      (other : String) (later : ℕ) (records : Records F) (memory : NewMemory F) (r : MemoryRecord F)
      → existing records memory.namespace memory.idempotency_key ≡ some r
      → create other later records memory ≡ (records, r)
  unfolding create
  create_known other later records memory r e = rw (e, create)

  -- A second `create` with the idempotency key of a first one in its namespace changes nothing and
  -- returns what the first returned, whatever else it asks for.
  pub create-create :
      (fresh other : String) (now later : ℕ) (records : Records F) (memory again : NewMemory F)
      (k : String)
      → Dict.get records fresh ≡ none
      → memory.idempotency_key ≡ some k
      → again.idempotency_key ≡ some k
      → again.namespace ≡ memory.namespace
      → create other later (create fresh now records memory).0 again
        ≡ create fresh now records memory
  create-create fresh other now later records memory again k free key key' same =
      create_known other later (create fresh now records memory).0 again
        (create fresh now records memory).1
        (rw (key', same) (existing-create fresh now records memory k free key))
