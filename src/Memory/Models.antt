-- ===== src/Memory/Models.antt =====
-- src/rootmem/storage/models.py. An id is a text, an instant a number of microseconds.
use rootmem.Base.{ℕ, String, Bool, true, false, Option, none, some, List}
use rootmem.Base.Json.{Fields}

pub data Outcome : Type 0 where
  success failure : Outcome

pub record MemoryRecord (F : Type 0) : Type 0 where
  pub id : String
  pub schema_version : ℕ
  pub namespace : String
  pub key : Option String
  pub idempotency_key : Option String
  pub content : String
  pub content_embedding : Option (List F)
  pub source : String
  pub source_session_id : Option String
  pub confidence : F
  pub importance_flag : F
  pub salience_score : Option F
  pub consolidated_at : Option ℕ
  pub session_outcome : Option Outcome
  pub last_accessed_at : Option ℕ
  pub access_count : ℕ
  pub metadata : Fields F
  pub created_at : ℕ
  pub updated_at : ℕ
  pub deleted_at : Option ℕ
  pub deleted_reason : Option String

abbrev pub current_schema_version : ℕ
current_schema_version = 1

abbrev pub is_some {ℓ} : {A : Type ℓ} → Option A → Bool
is_some none = false
is_some (some a) = true

abbrev pub is_deleted : {F : Type 0} → MemoryRecord F → Bool
is_deleted record_ = is_some record_.deleted_at

pub record NewMemory (F : Type 0) : Type 0 where
  pub namespace : String
  pub key : Option String
  pub idempotency_key : Option String
  pub content : String
  pub content_embedding : Option (List F)
  pub source : String
  pub source_session_id : Option String
  pub confidence : F
  pub importance_flag : F
  pub session_outcome : Option Outcome
  pub metadata : Fields F

-- Unset fields are left unchanged.
pub record MemoryUpdate (F : Type 0) : Type 0 where
  pub content : Option String
  pub confidence : Option F
  pub metadata : Option (Fields F)

pub record SearchResult (F : Type 0) : Type 0 where
  pub record_ : MemoryRecord F
  pub score : F
