-- ===== src/Audit/Verify.antt =====
-- What `verify_chain` of src/rootmem/audit/chain.py decides.
use mathlib.Core.Bool.{false≢true}
use rootmem.Base.{
  ℕ, ◌+◌, String, ◌≡◌, refl, sym, true, false, none, List, [], ◌∷◌, ◌==◌, length, nat_eq, string_eq,
  arith, Bool-cases, eq_of_==, ==_of_eq, ne_of_==, ◌<◌, ap, inl, inr, ◌↔◌, take, suc,
}
use rootmem.Audit.Chain.{
  AuditEntry, Hashing, ChainVerification, genesis_hash, compute_hash, verify_from, verify_chain,
}

module _ {P : Type 0} (h : Hashing P) where
  -- Each entry has the next number, the hash of the one before it, and the hash of its own contents.
  abbrev pub IsChainFrom : ℕ → String → List (AuditEntry P) → Type 0
  IsChainFrom index prev [] = Unit
  IsChainFrom index prev (entry ∷ entries) =
      (entry.seq ≡ index + 1)
      × (entry.prev_hash ≡ prev)
      × (entry.row_hash ≡ compute_hash h entry.prev_hash entry.body)
      × IsChainFrom (index + 1) entry.row_hash entries

  abbrev pub IsChain : List (AuditEntry P) → Type 0
  IsChain = IsChainFrom 0 genesis_hash

  -- The hash that the next entry must name.
  abbrev pub end_hash : String → List (AuditEntry P) → String
  end_hash prev [] = prev
  end_hash prev (entry ∷ entries) = end_hash entry.row_hash entries

  pub verify_from_sound :
      (total index : ℕ) (prev : String) (es : List (AuditEntry P))
      → (verify_from h total index prev es).valid ≡ true
      → IsChainFrom index prev es
  unfolding verify_from
  verify_from_sound total index prev [] v = tt
  verify_from_sound total index prev (e ∷ es) v = elim (Bool-cases (e.seq == index + 1)) [
    | inr f ↦ absurd (false≢true (rw f at v))
    | inl s ↦ elim (Bool-cases (e.prev_hash == prev)) [
      | inr f ↦ absurd (false≢true (rw (s, f) at v))
      | inl p ↦ elim (Bool-cases (compute_hash h e.prev_hash e.body == e.row_hash)) [
        | inr f ↦ absurd (false≢true (rw (s, p, f) at v))
        | inl r ↦ (
          eq_of_== e.seq (index + 1) s,
          eq_of_== e.prev_hash prev p,
          sym (eq_of_== (compute_hash h e.prev_hash e.body) e.row_hash r),
          verify_from_sound total (index + 1) e.row_hash es (rw (s, p, r) at v),
        )
      ]
    ]
  ]

  pub verify_from_complete :
      (total index : ℕ) (prev : String) (es : List (AuditEntry P))
      → IsChainFrom index prev es
      → verify_from h total index prev es
        ≡ record { valid = true; entries_checked = total; first_broken_seq = none; reason = none }
  unfolding verify_from
  verify_from_complete total index prev [] c = refl
  verify_from_complete total index prev (e ∷ es) (s, p, r, c) =
      rw
        (
          ==_of_eq e.seq (index + 1) s,
          ==_of_eq e.prev_hash prev p,
          ==_of_eq (compute_hash h e.prev_hash e.body) e.row_hash (sym r),
        )
        (verify_from_complete total (index + 1) e.row_hash es c)

  -- Where the loop stops: all before it is a chain, and with the entry there it is none.
  abbrev pub Located : ℕ → String → List (AuditEntry P) → ChainVerification → Type 0
  Located index prev es v =
      (k : ℕ) × (v.entries_checked ≡ index + k)
      × (k < length es)
      × IsChainFrom index prev (take k es)
      × (¬ IsChainFrom index prev (take (suc k) es))

  pub verify_from-Located :
      (total index : ℕ) (prev : String) (es : List (AuditEntry P))
      → (verify_from h total index prev es).valid ≡ false
      → Located index prev es (verify_from h total index prev es)
  unfolding verify_from
  verify_from-Located total index prev [] v = absurd (false≢true (sym v))
  verify_from-Located total index prev (e ∷ es) v = elim (Bool-cases (e.seq == index + 1)) [
    | inr f ↦ rw f (0, omega arith, omega arith, tt, λ c. ne_of_== e.seq (index + 1) f c.0)
    | inl s ↦ elim (Bool-cases (e.prev_hash == prev)) [
      | inr f ↦ rw (s, f) (0, omega arith, omega arith, tt, λ c. ne_of_== e.prev_hash prev f c.1)
      | inl p ↦ elim (Bool-cases (compute_hash h e.prev_hash e.body == e.row_hash)) [
        | inr f ↦
            rw (s, p, f)
              (
                0,
                omega arith,
                omega arith,
                tt,
                λ c. ne_of_== (compute_hash h e.prev_hash e.body) e.row_hash f (sym c.2),
              )
        | inl r ↦
            let (k, checked, inside, chain, stops) =
              verify_from-Located total (index + 1) e.row_hash es (rw (s, p, r) at v) in
            rw (s, p, r)
              (
                suc k,
                omega (arith, checked),
                omega arith,
                (
                  eq_of_== e.seq (index + 1) s,
                  eq_of_== e.prev_hash prev p,
                  sym (eq_of_== (compute_hash h e.prev_hash e.body) e.row_hash r),
                  chain,
                ),
                λ c. stops c.3,
              )
      ]
    ]
  ]

  -- `verify_chain` accepts exactly the lists whose entries are numbered from 1, each linked to the
  -- hash of the one before it (the first to the genesis hash) and each hashed over its contents.
  pub verify_chain_iff :
      (es : List (AuditEntry P)) → ((verify_chain h es).valid ≡ true) ↔ IsChain es
  unfolding verify_chain
  verify_chain_iff es = (
    verify_from_sound (length es) 0 genesis_hash es,
    λ c.
        ap (λ (v : ChainVerification). v.valid)
          (verify_from_complete (length es) 0 genesis_hash es c),
  )

  -- When `verify_chain` refuses a list, `entries_checked` is the number of its first entries that
  -- form a chain, and with one more entry they form none.
  pub verify_chain-Located :
      (es : List (AuditEntry P))
      → (verify_chain h es).valid ≡ false
      → Located 0 genesis_hash es (verify_chain h es)
  unfolding verify_chain
  verify_chain-Located es = verify_from-Located (length es) 0 genesis_hash es
