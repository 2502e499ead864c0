-- ===== src/Memory/Salience.antt =====
-- `update_salience` and `mark_consolidated` of src/rootmem/storage/fakes/in_memory_repository.py.
use rootmem.Base.{
  ℕ, String, ◌≡◌, refl, ◌∙◌, some, List, [], ◌∷◌, ◌==◌, string_eq, Bool-cases, Option-cases, inl,
  inr,
}
use rootmem.Base.Dict
use rootmem.Base.Dict.Keyed.{put-IsKeyed, id-get}
use rootmem.Memory.Models.{MemoryRecord}
use rootmem.Memory.Repository.{Records, modify, modify_all, update_salience, mark_consolidated}
use rootmem.Memory.Creation.{IsStore, id_of}
use rootmem.Memory.Batches.{get-modify}

module _ {F : Type 0} where
  modify-IsStore :
      (f : MemoryRecord F → MemoryRecord F) (records : Records F) (id : String)
      → ((r : MemoryRecord F) → (f r).id ≡ r.id)
      → IsStore records
      → IsStore (modify f records id)
  unfolding modify
  modify-IsStore f records id same s = elim (Option-cases (Dict.get records id)) [
    | inl missing ↦ rw (missing, modify) s
    | inr (r, found) ↦
        rw (found, modify)
          (put-IsKeyed id_of records id (f r) (same r ∙ id-get id_of records id s found) s)
  ]

  modify_all-IsStore :
      (f : MemoryRecord F → MemoryRecord F) (ids : List String) (records : Records F)
      → ((r : MemoryRecord F) → (f r).id ≡ r.id)
      → IsStore records
      → IsStore (modify_all f records ids)
  unfolding modify_all
  modify_all-IsStore f [] records same s = s
  modify_all-IsStore f (id ∷ ids) records same s =
      modify_all-IsStore f ids (modify f records id) same (modify-IsStore f records id same s)

  -- Batch marks keep every record under its own id.
  pub mark_consolidated-IsStore :
      (records : Records F) (ids : List String) (now : ℕ)
      → IsStore records
      → IsStore (mark_consolidated records ids now)
  unfolding mark_consolidated
  mark_consolidated-IsStore records ids now s = modify_all-IsStore _ ids records (λ r. refl) s

  -- A salience keeps every record under its own id.
  pub update_salience-IsStore :
      (records : Records F) (id : String) (salience : F)
      → IsStore records
      → IsStore (update_salience records id salience)
  unfolding update_salience
  update_salience-IsStore records id salience s = modify-IsStore _ records id (λ r. refl) s

  -- Another salience of a record.
  pub data Scored (r : MemoryRecord F) : MemoryRecord F → Type 0 where
    same : Scored r r
    scored :
        {r' : MemoryRecord F} (salience : F)
        → Scored r r'
        → Scored r (record r' { salience_score = some salience })

  pub update_salience-Scored :
      (records : Records F) (other id : String) (salience : F) (r x : MemoryRecord F)
      → Dict.get records id ≡ some x
      → Scored r x
      → (y : MemoryRecord F) × (Dict.get (update_salience records other salience) id ≡ some y)
        × Scored r y
  unfolding update_salience
  update_salience-Scored records other id salience r x g h =
      let f = λ (z : MemoryRecord F). record z { salience_score = some salience } in
      let e = get-modify f records other id x g in
      elim (Bool-cases (other == id)) [
        | inl t ↦ (f x, e ∙ rw t, scored salience h)
        | inr n ↦ (x, e ∙ rw n, h)
      ]

  pub Scored-content : (r x : MemoryRecord F) → Scored r x → x.content ≡ r.content
  Scored-content r x same = refl
  Scored-content r x (scored salience h) = Scored-content r _ h
