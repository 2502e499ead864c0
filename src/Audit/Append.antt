-- ===== src/Audit/Append.antt =====
-- The chains that `append` of src/rootmem/storage/fakes/in_memory_audit_repository.py extends.
use rootmem.Base.{
  ℕ, ◌+◌, String, ◌≡◌, refl, true, Option, List, [], ◌∷◌, ◌++◌, ◌==◌, length, nat_eq, string_eq,
  arith, Bool-cases, inl, inr, if◌then◌else◌,
}
use rootmem.Base.Dict.{get-put}
use rootmem.Audit.Chain.{AuditEntry, Hashing, genesis_hash, compute_hash, verify_chain}
use rootmem.Audit.Verify.{IsChainFrom, IsChain, end_hash, verify_chain_iff}
use rootmem.Audit.Log.{AuditLog, last_hash, list_entries, next_entry, append, stamp_of}

module _ {P : Type 0} (h : Hashing P) where
  IsChainFrom-append :
      (i : ℕ) (p : String) (es : List (AuditEntry P)) (e : AuditEntry P)
      → IsChainFrom h i p es
      → e.seq ≡ i + length es + 1
      → e.prev_hash ≡ end_hash h p es
      → e.row_hash ≡ compute_hash h e.prev_hash e.body
      → IsChainFrom h i p (es ++ (e ∷ []))
  IsChainFrom-append i p [] e c n l r = (omega arith, l, r, tt)
  IsChainFrom-append i p (x ∷ xs) e c n l r =
      (c.0, c.1, c.2, IsChainFrom-append (i + 1) x.row_hash xs e c.3 (omega arith) l r)

  last_hash-eq-end_hash : (es : List (AuditEntry P)) → last_hash es ≡ end_hash h genesis_hash es
  unfolding last_hash
  last_hash-eq-end_hash [] = refl
  last_hash-eq-end_hash (e ∷ []) = refl
  last_hash-eq-end_hash (e ∷ f ∷ es) = last_hash-eq-end_hash (f ∷ es)

  -- Every namespace's entries form a chain.
  abbrev pub IsLog : AuditLog P → Type 0
  IsLog log = (namespace : String) → (verify_chain h (list_entries log namespace)).valid ≡ true

  next_entry-IsChain :
      (es : List (AuditEntry P)) (namespace actor action target_type : String)
      (target_id : Option String) (payload : P) (stamp : ℕ)
      → IsChain h es
      → IsChain h
          (es ++ (next_entry h es namespace actor action target_type target_id payload stamp ∷ []))
  unfolding next_entry
  next_entry-IsChain es namespace actor action target_type target_id payload stamp c =
      IsChainFrom-append 0 genesis_hash es
        (next_entry h es namespace actor action target_type target_id payload stamp) c (omega arith)
        (last_hash-eq-end_hash es) refl

  list_entries-append :
      (now : ℕ) (log : AuditLog P) (namespace actor action target_type : String)
      (target_id : Option String) (payload : P) (created_at : Option ℕ) (other : String)
      → list_entries
          (append h now log namespace actor action target_type target_id payload created_at).0
          other
        ≡ (if namespace == other
            then list_entries log namespace
              ++ (next_entry h
                    (list_entries log namespace)
                    namespace
                    actor
                    action
                    target_type
                    target_id
                    payload
                    (stamp_of created_at now)
                  ∷ [])
            else list_entries log other)
  unfolding append list_entries
  list_entries-append now log namespace actor action target_type target_id payload created_at
        other =
      let entry =
        next_entry h (list_entries log namespace) namespace actor action target_type target_id
          payload (stamp_of created_at now) in
      let step = get-put log namespace other (list_entries log namespace ++ (entry ∷ [])) in
      elim (Bool-cases (namespace == other)) [ inl t ↦ rw (step, t) | inr f ↦ rw (step, f) ]

  -- `append` keeps every namespace's entries verifiable, the new one included.
  pub append-IsLog :
      (now : ℕ) (log : AuditLog P) (namespace actor action target_type : String)
      (target_id : Option String) (payload : P) (created_at : Option ℕ)
      → IsLog log
      → IsLog (append h now log namespace actor action target_type target_id payload created_at).0
  append-IsLog now log namespace actor action target_type target_id payload created_at valid other =
      rw
        (list_entries-append now log namespace actor action target_type target_id payload created_at
          other)
        (elim (Bool-cases (namespace == other)) [
          | inl t ↦ rw t (
              (verify_chain_iff h _).1 (
                next_entry-IsChain (list_entries log namespace) namespace actor action target_type
                  target_id payload (stamp_of created_at now)
                  ((verify_chain_iff h (list_entries log namespace)).0 (valid namespace))))
          | inr f ↦ rw f (valid other)
        ])
