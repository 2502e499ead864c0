-- ===== src/Procedural/Models.antt =====
-- src/rootmem/storage/procedural_protocols.py. The derivation of a record is always "distilled".
use rootmem.Base.{ℕ, String, Bool, true, false, ◌&&◌, Option, none, some, List}

pub data Kind : Type 0 where
  skill lesson : Kind

pub record ProceduralMemoryRecord (F : Type 0) : Type 0 where
  pub id : String
  pub namespace : String
  pub kind : Kind
  pub name : String
  pub description : String
  pub body_markdown : String
  pub content_embedding : Option (List F)
  pub supersedes : Option String
  pub superseded_by : Option String
  pub created_at : ℕ
  pub updated_at : ℕ
  pub deleted_at : Option ℕ
  pub deleted_reason : Option String
  pub belief_alpha : F
  pub belief_beta : F
  pub applied_count : ℕ
  pub success_count : ℕ

abbrev pub is_none {ℓ} : {A : Type ℓ} → Option A → Bool
is_none none = true
is_none (some a) = false

abbrev pub is_active : {F : Type 0} → ProceduralMemoryRecord F → Bool
is_active r = is_none r.superseded_by && is_none r.deleted_at

pub record NewProceduralMemory (F : Type 0) : Type 0 where
  pub namespace : String
  pub kind : Kind
  pub name : String
  pub description : String
  pub body_markdown : String
  pub content_embedding : Option (List F)

pub record ProceduralSearchResult (F : Type 0) : Type 0 where
  pub record_ : ProceduralMemoryRecord F
  pub score : F
