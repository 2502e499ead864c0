-- ===== src/Tools/Memories.antt =====
-- src/rootmem/integration/mcp/tools: `remember`, `recall`, `update` and `forget`. The id that is drawn
-- and the time that the clock shows are arguments; the fake repository's `record_access` never raises,
-- so the `try` around it has one outcome.
pub mod Lifecycle
use rootmem.Base.{
  ℕ, String, true, false, Option, none, some, List, [], ◌∷◌, Result, ok, raise, ◌>>=◌, string_eq,
}
use rootmem.Embedding.{EmbeddingProvider, IndexError, embed_or_none}
use rootmem.Memory.Models.{MemoryRecord, NewMemory, MemoryUpdate}
use rootmem.Memory.Repository.{
  Records, NotFound, not_found, create, get_by_id, get_by_key, record_access,
}
use rootmem.Memory.Repository
use rootmem.Tools.Schemas.{
  RememberParams, RememberResult, RecallParams, RecallResult, UpdateParams, UpdateResult,
  ForgetParams, ForgetResult, from_record,
}

-- A failed `assert`, or the repository's error.
pub data Fault : Type 0 where
  assertion_error missing : Fault

module _ {F : Type 0} where
  abbrev pub new_memory : RememberParams F → Option (List F) → NewMemory F
  new_memory params embedding = record {
    namespace = params.namespace;
    key = params.key;
    idempotency_key = params.idempotency_key;
    content = params.content;
    content_embedding = embedding;
    source = params.source;
    source_session_id = params.source_session_id;
    confidence = params.confidence;
    importance_flag = params.importance_flag;
    session_outcome = none;
    metadata = params.metadata;
  }

  unfoldable pub remember :
      EmbeddingProvider F
      → String
      → ℕ
      → Records F
      → RememberParams F
      → Result IndexError (Records F × RememberResult)
  unfolding embed_or_none create
  remember provider fresh now records params = do
    embedding ← embed_or_none provider params.content
    let made = create fresh now records (new_memory params embedding)
    ok (made.0, record { id = made.1.id; created_at = made.1.created_at })

  -- the row that an id or a key names
  abbrev pub named : Records F → RecallParams → Result Fault (Option (MemoryRecord F))
  named records params = elim params.id [
    | some id ↦ ok (get_by_id records params.namespace id)
    | none ↦ elim params.key [
      | some key ↦ ok (get_by_key records params.namespace key)
      | none ↦ raise assertion_error
    ]
  ]

  abbrev pub recalled : ℕ → Records F → Option (MemoryRecord F) → Records F × RecallResult F
  recalled now records none = (records, record { found = false; record_ = none })
  recalled now records (some r) = (
    record_access records (r.id ∷ []) now,
    record { found = true; record_ = some (from_record r) },
  )

  unfoldable pub recall : ℕ → Records F → RecallParams → Result Fault (Records F × RecallResult F)
  unfolding get_by_id get_by_key record_access
  recall now records params = named records params >>= λ r. ok (recalled now records r)

  unfoldable pub update :
      ℕ → Records F → UpdateParams F → Result NotFound (Records F × UpdateResult)
  unfolding Repository.update
  update now records params = do
    updated ← Repository.update now records params.id (record {
      content = params.content;
      confidence = params.confidence;
      metadata = params.metadata;
    })
    ok (
      updated.0,
      record {
        id = updated.1.id;
        updated_at = updated.1.updated_at;
        namespace = updated.1.namespace;
      },
    )

  -- `assert record.deleted_at is not None`
  abbrev pub forgotten : Records F × MemoryRecord F → Result Fault (Records F × ForgetResult)
  forgotten (records, r) = elim r.deleted_at [
    | none ↦ raise assertion_error
    | some t ↦ ok (records, record { id = r.id; deleted_at = t; namespace = r.namespace })
  ]

  unfoldable pub forget : ℕ → Records F → ForgetParams → Result Fault (Records F × ForgetResult)
  unfolding Repository.soft_delete
  forget now records params = elim (Repository.soft_delete now records params.id params.reason) [
    | raise e ↦ raise missing
    | ok a ↦ forgotten a
  ]
