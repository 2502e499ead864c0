-- ===== src/Memory/Deletion.antt =====
-- `soft_delete` of src/rootmem/storage/fakes/in_memory_repository.py.
pub mod Forever
use rootmem.Base.{
  ℕ, String, ◌≡◌, ◌≢◌, refl, sym, ap, ◌∙◌, Bool, true, false, not, ◌&&◌, Option, none, some, List,
  [], ◌∷◌, ◌==◌, if◌then◌else◌, string_eq, arith, Bool-cases, Option-cases, inl, inr, ==_ne, Result,
  ok, raise,
}
use rootmem.Base.Dict
use rootmem.Base.Dict.{get-put_self, get-put_ne, get-put}
use rootmem.Memory.Models.{MemoryRecord, NewMemory, MemoryUpdate, is_deleted, is_some}
use rootmem.Memory.Repository.{
  Records, NotFound, not_found, create, existing, stored, update, soft_delete, modify, modify_all,
  mark_consolidated, record_access, update_salience, get_by_id, get_by_key, live_in, deleted,
  changed, accessed,
}

module _ {F : Type 0} where
  pub get_by_id-deleted :
      (records : Records F) (namespace id : String) (r : MemoryRecord F)
      → Dict.get records id ≡ some r
      → is_deleted r ≡ true
      → get_by_id records namespace id ≡ none
  unfolding get_by_id
  get_by_id-deleted records namespace id r g d = rw (g, get_by_id) (ground arith)

  pub update-deleted :
      (now : ℕ) (records : Records F) (id : String) (changes : MemoryUpdate F) (r : MemoryRecord F)
      → Dict.get records id ≡ some r
      → is_deleted r ≡ true
      → update now records id changes ≡ raise not_found
  unfolding update
  update-deleted now records id changes r g d = rw (g, update) (rw d)

  pub soft_delete-deleted :
      (now : ℕ) (records : Records F) (id : String) (reason : Option String) (r : MemoryRecord F)
      → Dict.get records id ≡ some r
      → is_deleted r ≡ true
      → soft_delete now records id reason ≡ ok (records, r)
  unfolding soft_delete
  soft_delete-deleted now records id reason r g d = rw (g, soft_delete) (rw d)

  pub soft_delete-live :
      (now : ℕ) (records : Records F) (id : String) (reason : Option String) (r : MemoryRecord F)
      → Dict.get records id ≡ some r
      → is_deleted r ≡ false
      → soft_delete now records id reason
        ≡ ok (Dict.put records id (deleted now reason r), deleted now reason r)
  unfolding soft_delete
  soft_delete-live now records id reason r g d = rw (g, soft_delete) (rw d)

  pub soft_delete-missing :
      (now : ℕ) (records : Records F) (id : String) (reason : Option String)
      → Dict.get records id ≡ none
      → soft_delete now records id reason ≡ raise not_found
  unfolding soft_delete
  soft_delete-missing now records id reason g = rw (g, soft_delete)

  -- The row that `soft_delete` leaves: the one that it found, with the deletion noted on it.
  soft_delete-row :
      (now : ℕ) (records : Records F) (id : String) (reason : Option String) (r : MemoryRecord F)
      → Dict.get records id ≡ some r
      → (after : Records F) × (row : MemoryRecord F) × (soft_delete now records id reason
          ≡ ok (after, row))
        × (Dict.get after id ≡ some row)
        × (is_deleted row ≡ true)
        × (row.content ≡ r.content)
        × (row.namespace ≡ r.namespace)
        × ((other : String) → other ≢ id → Dict.get after other ≡ Dict.get records other)
  soft_delete-row now records id reason r g = elim (Bool-cases (is_deleted r)) [
    | inl gone ↦ (
      records,
      r,
      soft_delete-deleted now records id reason r g gone,
      g,
      gone,
      refl,
      refl,
      λ o n. refl,
    )
    | inr live ↦
        let row = deleted now reason r in
        (
          Dict.put records id row,
          row,
          soft_delete-live now records id reason r g live,
          get-put_self records id row,
          refl,
          refl,
          refl,
          λ o n. get-put_ne records id o row (==_ne id o (λ p. n (sym p))),
        )
  ]

  -- `soft_delete` of a stored id succeeds. The row is still stored, with its content and namespace,
  -- and marked deleted; no other row changes. `get_by_id` does not find it in any namespace, `update`
  -- raises, and a second `soft_delete` changes nothing and returns the same row.
  pub soft_delete_lem :
      (now : ℕ) (records : Records F) (id : String) (reason : Option String) (r : MemoryRecord F)
      → Dict.get records id ≡ some r
      → (after : Records F) × (row : MemoryRecord F) × (soft_delete now records id reason
          ≡ ok (after, row))
        × (Dict.get after id ≡ some row)
        × (is_deleted row ≡ true)
        × (row.content ≡ r.content)
        × (row.namespace ≡ r.namespace)
        × ((other : String) → other ≢ id → Dict.get after other ≡ Dict.get records other)
        × ((namespace : String) → get_by_id after namespace id ≡ none)
        × ((later : ℕ) (changes : MemoryUpdate F) → update later after id changes ≡ raise not_found)
        × ((later : ℕ) (again : Option String) → soft_delete later after id again ≡ ok (after, row))
  soft_delete_lem now records id reason r g =
      let (after, row, done, stored_row, gone, content, owner, rest) =
        soft_delete-row now records id reason r g in
      (
        after,
        row,
        done,
        stored_row,
        gone,
        content,
        owner,
        rest,
        λ n. get_by_id-deleted after n id row stored_row gone,
        λ l c. update-deleted l after id c row stored_row gone,
        λ l a. soft_delete-deleted l after id a row stored_row gone,
      )
