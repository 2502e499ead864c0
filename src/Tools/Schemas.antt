-- ===== src/Tools/Schemas.antt =====
-- src/rootmem/integration/mcp/schemas.py: the parameters and answers of the tools on memories.
use rootmem.Base.{ℕ, String, Bool, Option}
use rootmem.Base.Json.{Fields}
use rootmem.Memory.Models.{MemoryRecord}

pub record MemoryView (F : Type 0) : Type 0 where
  pub id : String
  pub namespace : String
  pub key : Option String
  pub content : String
  pub source : String
  pub source_session_id : Option String
  pub confidence : F
  pub importance_flag : F
  pub salience_score : Option F
  pub consolidated_at : Option ℕ
  pub metadata : Fields F
  pub created_at : ℕ
  pub updated_at : ℕ

pub record RememberParams (F : Type 0) : Type 0 where
  pub content : String
  pub namespace : String
  pub key : Option String
  pub source : String
  pub source_session_id : Option String
  pub confidence : F
  pub importance_flag : F
  pub metadata : Fields F
  pub idempotency_key : Option String

pub record RememberResult : Type 0 where
  pub id : String
  pub created_at : ℕ

pub record RecallParams : Type 0 where
  pub id : Option String
  pub key : Option String
  pub namespace : String

pub record RecallResult (F : Type 0) : Type 0 where
  pub found : Bool
  pub record_ : Option (MemoryView F)

pub record UpdateParams (F : Type 0) : Type 0 where
  pub id : String
  pub content : Option String
  pub confidence : Option F
  pub metadata : Option (Fields F)

pub record UpdateResult : Type 0 where
  pub id : String
  pub updated_at : ℕ
  pub namespace : String

pub record ForgetParams : Type 0 where
  pub id : String
  pub reason : Option String

pub record ForgetResult : Type 0 where
  pub id : String
  pub deleted_at : ℕ
  pub namespace : String

module _ {F : Type 0} where
  -- `MemoryView.from_record`
  abbrev pub from_record : MemoryRecord F → MemoryView F
  from_record r = record {
    id = r.id;
    namespace = r.namespace;
    key = r.key;
    content = r.content;
    source = r.source;
    source_session_id = r.source_session_id;
    confidence = r.confidence;
    importance_flag = r.importance_flag;
    salience_score = r.salience_score;
    consolidated_at = r.consolidated_at;
    metadata = r.metadata;
    created_at = r.created_at;
    updated_at = r.updated_at;
  }
