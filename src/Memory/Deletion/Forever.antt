-- ===== src/Memory/Deletion/Forever.antt =====
-- Sequences of calls of src/rootmem/storage/fakes/in_memory_repository.py.
use rootmem.Base.{
  ℕ, String, ◌≡◌, ◌≢◌, refl, sym, ap, ◌∙◌, Bool, true, false, Option, none, some, List, [], ◌∷◌,
  ◌==◌, string_eq, Bool-cases, Option-cases, inl, inr, eq_of_==, Result, ok, raise,
}
use rootmem.Base.Dict
use rootmem.Base.Dict.{get-put_self, get-put_ne}
use rootmem.Memory.Models.{MemoryRecord, NewMemory, MemoryUpdate, is_deleted}
use rootmem.Memory.Repository.{
  Records, NotFound, create, existing, stored, update, soft_delete, modify, modify_all,
  mark_consolidated, record_access, update_salience, accessed, changed,
}
use rootmem.Memory.Deletion.{soft_delete-deleted, soft_delete-live, soft_delete-missing}

-- The operations that change `_records`, each with its arguments and what it reads from outside.
pub data Op (F : Type 0) : Type 0 where
  create_op : String → ℕ → NewMemory F → Op F
  update_op : ℕ → String → MemoryUpdate F → Op F
  soft_delete_op : ℕ → String → Option String → Op F
  mark_consolidated_op : List String → ℕ → Op F
  record_access_op : List String → ℕ → Op F
  update_salience_op : String → F → Op F

module _ {F : Type 0} where
  -- A call that raises leaves the records as they were.
  abbrev pub state_of : Records F → Result NotFound (Records F × MemoryRecord F) → Records F
  state_of records (ok (after, r)) = after
  state_of records (raise e) = records

  unfoldable pub run_op : Op F → Records F → Records F
  run_op (create_op fresh now memory) records = (create fresh now records memory).0
  run_op (update_op now id changes) records = state_of records (update now records id changes)
  run_op (soft_delete_op now id reason) records =
      state_of records (soft_delete now records id reason)
  run_op (mark_consolidated_op ids t) records = mark_consolidated records ids t
  run_op (record_access_op ids t) records = record_access records ids t
  run_op (update_salience_op id x) records = update_salience records id x

  pub run_ops : List (Op F) → Records F → Records F
  run_ops [] records = records
  run_ops (op ∷ ops) records = run_ops ops (run_op op records)

  -- `uuid4` does not draw this id again.
  abbrev pub NotDrawn : String → List (Op F) → Type 0
  NotDrawn id [] = Unit
  NotDrawn id (create_op fresh now memory ∷ ops) = (fresh ≢ id) × NotDrawn id ops
  NotDrawn id (op ∷ ops) = NotDrawn id ops

  -- The same content, owner and deletion.
  pub record Kept (r r' : MemoryRecord F) : Type 0 where
    pub content : r'.content ≡ r.content
    pub namespace : r'.namespace ≡ r.namespace
    pub deleted_at : r'.deleted_at ≡ r.deleted_at
    pub deleted_reason : r'.deleted_reason ≡ r.deleted_reason

  abbrev Survives : Records F → String → MemoryRecord F → Type 0
  Survives records id r = (r' : MemoryRecord F) × (Dict.get records id ≡ some r') × Kept r r'

  Kept-refl : (r : MemoryRecord F) → Kept r r
  Kept-refl r = record {
    content = refl;
    namespace = refl;
    deleted_at = refl;
    deleted_reason = refl;
  }

  Kept-trans : {a b c : MemoryRecord F} → Kept a b → Kept b c → Kept a c
  Kept-trans h k = record {
    content = k.content ∙ h.content;
    namespace = k.namespace ∙ h.namespace;
    deleted_at = k.deleted_at ∙ h.deleted_at;
    deleted_reason = k.deleted_reason ∙ h.deleted_reason;
  }

  is_deleted-Kept : {r r' : MemoryRecord F} → Kept r r' → is_deleted r ≡ true → is_deleted r' ≡ true
  is_deleted-Kept k d = rw (k.deleted_at) d

  put-Survives :
      (records : Records F) (id other : String) (r s : MemoryRecord F)
      → Dict.get records id ≡ some r
      → (other ≡ id → Kept r s)
      → Survives (Dict.put records other s) id r
  put-Survives records id other r s g k = elim (Bool-cases (other == id)) [
    | inl t ↦
        let q = eq_of_== other id t in
        (s, ap (λ o. Dict.get (Dict.put records o s) id) q ∙ get-put_self records id s, k q)
    | inr f ↦ (r, get-put_ne records other id s f ∙ g, Kept-refl r)
  ]

  modify-Survives :
      (f : MemoryRecord F → MemoryRecord F) (records : Records F) (id other : String)
      (r : MemoryRecord F)
      → ((s : MemoryRecord F) → is_deleted s ≡ true → Kept s (f s))
      → Dict.get records id ≡ some r
      → is_deleted r ≡ true
      → Survives (modify f records other) id r
  unfolding modify
  modify-Survives f records id other r keeps g d = elim (Option-cases (Dict.get records other)) [
    | inl missing ↦ rw (missing, modify) (r, g, Kept-refl r)
    | inr (s, found) ↦
        rw (found, modify)
          (put-Survives records id other r (f s) g (λ q.
            let same : s ≡ r = some_eq (sym found ∙ ap (Dict.get records) q ∙ g) in
            rw same (keeps r d)))
  ]
    where
      some_eq : {a b : MemoryRecord F} → some a ≡ some b → a ≡ b
      some_eq p = cc

  modify_all-Survives :
      (f : MemoryRecord F → MemoryRecord F) (ids : List String) (records : Records F) (id : String)
      (r : MemoryRecord F)
      → ((s : MemoryRecord F) → is_deleted s ≡ true → Kept s (f s))
      → Dict.get records id ≡ some r
      → is_deleted r ≡ true
      → Survives (modify_all f records ids) id r
  unfolding modify_all
  modify_all-Survives f [] records id r keeps g d = (r, g, Kept-refl r)
  modify_all-Survives f (other ∷ ids) records id r keeps g d =
      let (s, gs, ks) = modify-Survives f records id other r keeps g d in
      let (u, gu, ku) =
        modify_all-Survives f ids (modify f records other) id s keeps gs (is_deleted-Kept ks d) in
      (u, gu, Kept-trans ks ku)

  mark_keeps : (t : ℕ) (s : MemoryRecord F) → Kept s (record s { consolidated_at = some t })
  mark_keeps t s = record {
    content = refl;
    namespace = refl;
    deleted_at = refl;
    deleted_reason = refl;
  }

  score_keeps : (x : F) (s : MemoryRecord F) → Kept s (record s { salience_score = some x })
  score_keeps x s = record {
    content = refl;
    namespace = refl;
    deleted_at = refl;
    deleted_reason = refl;
  }

  access_keeps : (t : ℕ) (s : MemoryRecord F) → is_deleted s ≡ true → Kept s (accessed t s)
  access_keeps t s d = rw d (Kept-refl s)

  create-Survives :
      (fresh : String) (now : ℕ) (memory : NewMemory F) (records : Records F) (id : String)
      (r : MemoryRecord F)
      → fresh ≢ id
      → Dict.get records id ≡ some r
      → Survives (create fresh now records memory).0 id r
  unfolding create
  create-Survives fresh now memory records id r n g =
      elim (Option-cases (existing records memory.namespace memory.idempotency_key)) [
        | inl new ↦
            rw (new, create)
              (put-Survives records id fresh r (stored fresh now memory) g (λ q. absurd (n q)))
        | inr (found, old) ↦ rw (old, create) (r, g, Kept-refl r)
      ]

  abbrev gone : Option (MemoryRecord F) → Bool
  gone none = true
  gone (some r) = is_deleted r

  live_ne_deleted :
      (records : Records F) {id other : String} {r s : MemoryRecord F}
      → other ≡ id
      → Dict.get records id ≡ some r
      → is_deleted r ≡ true
      → Dict.get records other ≡ some s
      → is_deleted s ≡ false
      → ⊥
  live_ne_deleted records q g d found live =
      cc (live, d, ap gone (sym found ∙ ap (Dict.get records) q ∙ g))

  update-Survives :
      (now : ℕ) (changes : MemoryUpdate F) (records : Records F) (id other : String)
      (r : MemoryRecord F)
      → Dict.get records id ≡ some r
      → is_deleted r ≡ true
      → Survives (state_of records (update now records other changes)) id r
  unfolding update
  update-Survives now changes records id other r g d =
      elim (Option-cases (Dict.get records other)) [
        | inl missing ↦ rw (missing, update) (r, g, Kept-refl r)
        | inr (s, found) ↦ elim (Bool-cases (is_deleted s)) [
          | inl gone ↦ rw (found, update) (rw gone (r, g, Kept-refl r))
          | inr live ↦
              rw (found, update)
                (rw live (
                  put-Survives records id other r (changed now s changes) g
                    (λ q. absurd (live_ne_deleted records q g d found live))))
        ]
      ]

  soft_delete-Survives :
      (now : ℕ) (reason : Option String) (records : Records F) (id other : String)
      (r : MemoryRecord F)
      → Dict.get records id ≡ some r
      → is_deleted r ≡ true
      → Survives (state_of records (soft_delete now records other reason)) id r
  soft_delete-Survives now reason records id other r g d =
      elim (Option-cases (Dict.get records other)) [
        | inl missing ↦
            rw (soft_delete-missing now records other reason missing) (r, g, Kept-refl r)
        | inr (s, found) ↦ elim (Bool-cases (is_deleted s)) [
          | inl gone ↦
              rw (soft_delete-deleted now records other reason s found gone) (r, g, Kept-refl r)
          | inr live ↦ rw (soft_delete-live now records other reason s found live) (
              put-Survives records id other r _ g
                (λ q. absurd (live_ne_deleted records q g d found live)))
        ]
      ]

  run_op-Survives :
      (op : Op F) (ops : List (Op F)) (records : Records F) (id : String) (r : MemoryRecord F)
      → NotDrawn id (op ∷ ops)
      → Dict.get records id ≡ some r
      → is_deleted r ≡ true
      → Survives (run_op op records) id r × NotDrawn id ops
  unfolding run_op mark_consolidated record_access update_salience
  run_op-Survives (create_op fresh now memory) ops records id r n g d =
      (create-Survives fresh now memory records id r n.0 g, n.1)
  run_op-Survives (update_op now other changes) ops records id r n g d =
      (update-Survives now changes records id other r g d, n)
  run_op-Survives (soft_delete_op now other reason) ops records id r n g d =
      (soft_delete-Survives now reason records id other r g d, n)
  run_op-Survives (mark_consolidated_op ids t) ops records id r n g d =
      (modify_all-Survives _ ids records id r (λ s _. mark_keeps t s) g d, n)
  run_op-Survives (record_access_op ids t) ops records id r n g d =
      (modify_all-Survives (accessed t) ids records id r (access_keeps t) g d, n)
  run_op-Survives (update_salience_op other x) ops records id r n g d =
      (modify-Survives _ records id other r (λ s _. score_keeps x s) g d, n)

  -- After any sequence of calls, failing ones included, that does not draw its id again, a deleted
  -- row is still stored, with the content, the namespace and the deletion that it had.
  pub deleted_forever :
      (ops : List (Op F)) (records : Records F) (id : String) (r : MemoryRecord F)
      → NotDrawn id ops
      → Dict.get records id ≡ some r
      → is_deleted r ≡ true
      → (r' : MemoryRecord F) × (Dict.get (run_ops ops records) id ≡ some r') × Kept r r'
  unfolding run_ops
  deleted_forever [] records id r n g d = (r, g, Kept-refl r)
  deleted_forever (op ∷ ops) records id r n g d =
      let ((s, gs, ks), rest) = run_op-Survives op ops records id r n g d in
      let (u, gu, ku) =
        deleted_forever ops (run_op op records) id s rest gs (is_deleted-Kept ks d) in
      (u, gu, Kept-trans ks ku)
