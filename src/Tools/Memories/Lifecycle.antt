-- ===== src/Tools/Memories/Lifecycle.antt =====
-- A memory from `remember` to `forget`: src/rootmem/integration/mcp/tools.
use rootmem.Base.{
  ℕ, String, ◌≡◌, ◌≢◌, refl, sym, ◌∙◌, true, false, Option, none, some, List, [], ◌∷◌, ok, raise,
  string_eq, ==_ne, ==_refl, bind_ok,
}
use rootmem.Base.Dict
use rootmem.Base.Dict.{get-put_self, get-put_ne}
use rootmem.Embedding.{EmbeddingProvider, AnswersEach, embed_or_none, embed_or_none-ok}
use rootmem.Memory.Models.{MemoryRecord, is_deleted}
use rootmem.Memory.Repository.{
  Records, not_found, create, existing, stored, deleted, accessed, live_in, get_by_id, modify,
  modify_all, record_access,
}
use rootmem.Memory.Deletion.{soft_delete-live, update-deleted, get_by_id-deleted}
use rootmem.Tools.Schemas.{MemoryView, RememberParams, RecallParams, UpdateParams, from_record}
use rootmem.Tools.Memories.{new_memory, remember, recalled, recall, update, forget}

abbrev pub by_id : String → String → RecallParams
by_id namespace id = record { id = some id; key = none; namespace = namespace }

module _ {F : Type 0} where
  remember-new :
      (provider : EmbeddingProvider F) (fresh : String) (now : ℕ) (records : Records F)
      (params : RememberParams F) {e : Option (List F)}
      → embed_or_none provider params.content ≡ ok e
      → existing records params.namespace params.idempotency_key ≡ none
      → let r = stored fresh now (new_memory params e) in
        remember provider fresh now records params
        ≡ ok (Dict.put records fresh r, record { id = fresh; created_at = now })
  unfolding remember create
  remember-new provider fresh now records params q new = bind_ok _ _ q (rw (new, create) refl)

  get_by_id-live :
      (records : Records F) (namespace id : String) (r : MemoryRecord F)
      → Dict.get records id ≡ some r
      → live_in namespace r ≡ true
      → get_by_id records namespace id ≡ some r
  unfolding get_by_id
  get_by_id-live records namespace id r g live = rw (g, get_by_id) (rw live refl)

  record_access-one :
      (now : ℕ) (records : Records F) (id : String) (r : MemoryRecord F)
      → Dict.get records id ≡ some r
      → record_access records (id ∷ []) now ≡ Dict.put records id (accessed now r)
  unfolding record_access modify_all modify
  record_access-one now records id r g = rw (g, modify) refl

  recall-found :
      (now : ℕ) (records : Records F) (namespace : String) (r : MemoryRecord F)
      → Dict.get records r.id ≡ some r
      → live_in namespace r ≡ true
      → recall now records (by_id namespace r.id)
        ≡ ok (
          Dict.put records r.id (accessed now r),
          record { found = true; record_ = some (from_record r) },
        )
  unfolding recall
  recall-found now records namespace r g live =
      rw (get_by_id-live records namespace r.id r g live, recalled)
        (rw (record_access-one now records r.id r g) refl)

  recall-unknown :
      (now : ℕ) (records : Records F) (namespace id : String)
      → get_by_id records namespace id ≡ none
      → recall now records (by_id namespace id)
        ≡ ok (records, record { found = false; record_ = none })
  unfolding recall
  recall-unknown now records namespace id g = rw (g, recalled) refl

  forget-live :
      (now : ℕ) (records : Records F) (id : String) (reason : Option String) (r : MemoryRecord F)
      → Dict.get records id ≡ some r
      → is_deleted r ≡ false
      → forget now records (record { id = id; reason = reason })
        ≡ ok (
          Dict.put records id (deleted now reason r),
          record { id = r.id; deleted_at = now; namespace = r.namespace },
        )
  unfolding forget
  forget-live now records id reason r g live =
      rw (forget, soft_delete-live now records id reason r g live) refl

  update-unknown :
      (now : ℕ) (records : Records F) (params : UpdateParams F) (r : MemoryRecord F)
      → Dict.get records params.id ≡ some r
      → is_deleted r ≡ true
      → update now records params ≡ raise not_found
  unfolding update
  update-unknown now records params r g gone =
      rw (update-deleted now records params.id _ r g gone) refl

  -- The states and answers of `remember`, `recall`, `forget` and `recall` again, in that order.
  pub record IsLifecycle (provider : EmbeddingProvider F) (fresh : String) (now read end later : ℕ)
      (records : Records F) (params : RememberParams F) (reason : Option String) : Type 0 where
    pub made : Records F
    pub seen : Records F
    pub left : Records F
    pub view : MemoryView F
    pub remembered :
        remember provider fresh now records params
        ≡ ok (made, record { id = fresh; created_at = now })
    pub recalled :
        recall read made (by_id params.namespace fresh)
        ≡ ok (seen, record { found = true; record_ = some view })
    pub content : view.content ≡ params.content
    pub source : view.source ≡ params.source
    pub confidence : view.confidence ≡ params.confidence
    pub metadata : view.metadata ≡ params.metadata
    pub forgotten :
        forget end seen (record { id = fresh; reason = reason })
        ≡ ok (left, record { id = fresh; deleted_at = end; namespace = params.namespace })
    pub unknown :
        (namespace : String)
        → recall later left (by_id namespace fresh)
          ≡ ok (left, record { found = false; record_ = none })
    pub closed :
        (changes : UpdateParams F)
        → changes.id ≡ fresh
        → update later left changes ≡ raise not_found
    pub others : (id : String) → id ≢ fresh → Dict.get left id ≡ Dict.get records id

  get-put_thrice :
      (records : Records F) (fresh id : String) (a b c : MemoryRecord F)
      → id ≢ fresh
      → Dict.get (Dict.put (Dict.put (Dict.put records fresh a) fresh b) fresh c) id
        ≡ Dict.get records id
  get-put_thrice records fresh id a b c n =
      let apart = ==_ne fresh id (λ p. n (sym p)) in
      get-put_ne _ fresh id c apart
      ∙ get-put_ne _ fresh id b apart
      ∙ get-put_ne records fresh id a apart

  -- Where the provider keeps its protocol and no live row of the namespace has the idempotency key,
  -- `remember` does not raise. `recall` by the id that it answers then finds the content, the source,
  -- the confidence and the metadata that were given; after `forget` of the id `recall` finds nothing in
  -- any namespace, `update` raises `NotFoundError`, and every other row is as it was before.
  pub remember-recall-IsLifecycle :
      (provider : EmbeddingProvider F) (fresh : String) (now read end later : ℕ)
      (records : Records F) (params : RememberParams F) (reason : Option String)
      → AnswersEach provider
      → existing records params.namespace params.idempotency_key ≡ none
      → IsLifecycle provider fresh now read end later records params reason
  remember-recall-IsLifecycle provider fresh now read end later records params reason each new =
      let (e, q) = embed_or_none-ok provider each params.content in
      let row : MemoryRecord F = stored fresh now (new_memory params e) in
      let made = Dict.put records fresh row in
      let read_row = accessed read row in
      let seen = Dict.put made fresh read_row in
      let gone = deleted end reason read_row in
      let left = Dict.put seen fresh gone in
      let found = get-put_self seen fresh gone in
      record {
        made = made;
        seen = seen;
        left = left;
        view = from_record row;
        remembered = remember-new provider fresh now records params q new;
        recalled =
            recall-found read made params.namespace row (get-put_self records fresh row)
              (rw (==_refl params.namespace) refl);
        content = refl;
        source = refl;
        confidence = refl;
        metadata = refl;
        forgotten =
            forget-live end seen fresh reason read_row (get-put_self made fresh read_row) refl;
        unknown = λ namespace.
            recall-unknown later left namespace fresh
              (get_by_id-deleted left namespace fresh gone found refl);
        closed = λ changes same. update-unknown later left changes gone (rw same found) refl;
        others = λ id n. get-put_thrice records fresh id row read_row gone n;
      }
