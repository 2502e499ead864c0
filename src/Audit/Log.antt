-- ===== src/Audit/Log.antt =====
-- `InMemoryAuditLogRepository` and `AuditRecorder`. The lock of `append` makes it one step.
use mathlib.Core.Option
use rootmem.Base.{
  ℕ, zero, suc, Bool, true, false, ◌+◌, String, Option, none, some, List, [], ◌∷◌, ◌++◌, length,
  string_eq,
}
use rootmem.Base.Dict
use rootmem.Base.Dict.{Dict}
use rootmem.Audit.Chain.{Body, AuditEntry, Hashing, genesis_hash, compute_hash}

abbrev pub AuditLog : Type 0 → Type 0
AuditLog P = Dict String (List (AuditEntry P))

-- `created_at if created_at is not None else datetime.now(UTC)`
abbrev pub stamp_of : Option ℕ → ℕ → ℕ
stamp_of none now = now
stamp_of (some created_at) now = created_at

module _ {P : Type 0} where
  -- `chain[-1].row_hash if chain else GENESIS_HASH`
  unfoldable pub last_hash : List (AuditEntry P) → String
  last_hash [] = genesis_hash
  last_hash (entry ∷ []) = entry.row_hash
  last_hash (entry ∷ next ∷ entries) = last_hash (next ∷ entries)

  unfoldable pub list_entries : AuditLog P → String → List (AuditEntry P)
  list_entries log namespace = Option.get_or (Dict.get log namespace) []

module _ {P : Type 0} (h : Hashing P) where
  -- The entry that `append` puts after `chain`.
  unfoldable pub next_entry :
      List (AuditEntry P) → String → String → String → String → Option String → P → ℕ → AuditEntry P
  unfolding last_hash compute_hash
  next_entry chain namespace actor action target_type target_id payload stamp =
      let body : Body P = record {
        namespace = namespace;
        seq = length chain + 1;
        actor = actor;
        action = action;
        target_type = target_type;
        target_id = target_id;
        payload = payload;
        created_at = stamp;
      } in
      record {
        body = body;
        prev_hash = last_hash chain;
        row_hash = compute_hash h (last_hash chain) body;
      }

  -- `append`, with the time of the call
  unfoldable pub append :
      ℕ
      → AuditLog P
      → String
      → String
      → String
      → String
      → Option String
      → P
      → Option ℕ
      → AuditLog P × AuditEntry P
  unfolding list_entries next_entry
  append now log namespace actor action target_type target_id payload created_at =
      let chain = list_entries log namespace in
      let entry =
        next_entry chain namespace actor action target_type target_id payload
          (stamp_of created_at now) in
      (Dict.put log namespace (chain ++ (entry ∷ [])), entry)

  -- Test-only: one stored payload is rewritten and not hashed again. An index out of range raises.
  unfoldable pub set_payload : List (AuditEntry P) → ℕ → P → Option (List (AuditEntry P))
  set_payload [] index payload = none
  set_payload (entry ∷ entries) zero payload =
      some (record entry { body = record entry.body { payload = payload } } ∷ entries)
  set_payload (entry ∷ entries) (suc index) payload =
      Option.map (λ rest. entry ∷ rest) (set_payload entries index payload)

  unfoldable pub tamper_for_test : AuditLog P → String → ℕ → P → Option (AuditLog P)
  unfolding set_payload
  tamper_for_test log namespace index payload = elim (Dict.get log namespace) [
    | none ↦ none
    | some chain ↦ Option.map (Dict.put log namespace) (set_payload chain index payload)
  ]

-- `AuditRecorder`: with no repository it is a deliberate no-op.
pub record AuditRecorder (P : Type 0) : Type 0 where
  pub repository : Option (AuditLog P)
  pub actor : String

unfoldable pub enabled : {P : Type 0} → AuditRecorder P → Bool
enabled recorder = elim recorder.repository [ none ↦ false | some _ ↦ true ]

module _ {P : Type 0} (h : Hashing P) where
  -- `record`; `{}` is the empty payload of `payload or {}`
  unfoldable pub record_entry :
      P
      → ℕ
      → AuditRecorder P
      → String
      → String
      → String
      → Option String
      → Option P
      → Option String
      → AuditRecorder P
  unfolding append
  record_entry empty now recorder namespace action target_type target_id payload actor =
      elim recorder.repository [
        | none ↦ recorder
        | some log ↦ record recorder {
          repository = some (
              (append h now log namespace (Option.get_or actor recorder.actor) action target_type
                target_id (Option.get_or payload empty) none).0);
        }
      ]
