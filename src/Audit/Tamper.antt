-- ===== src/Audit/Tamper.antt =====
-- Chains of src/rootmem/audit/chain.py that end in one hash.
use Prim.Native.String.{String}
use native.Mathlib.Decide.{ℕ_discrete}
use rootmem.Base.{
  ℕ, ◌+◌, ◌≡◌, ◌≢◌, refl, sym, ◌∙◌, ap, true, List, [], ◌∷◌, length, nat_eq, string_eq, arith, inl,
  inr, ◌⊎◌, decide_eq,
}
use rootmem.Audit.Chain.{Body, AuditEntry, Hashing, genesis_hash, compute_hash, verify_chain}
use rootmem.Audit.Verify.{IsChainFrom, end_hash, verify_chain_iff}

module _ {P : Type 0} (h : Hashing P) where
  -- Two different inputs of `compute_hash` with one digest.
  pub record Collision : Type 0 where
    pub prev : String
    pub prev' : String
    pub body : Body P
    pub body' : Body P
    pub differ : ◌≢◌ {A = String × Body P} (prev, body) (prev', body')
    pub same : compute_hash h prev body ≡ compute_hash h prev' body'

module _ {P : Type 0} (dec : Discrete P) (h : Hashing P) where
  string_discrete : Discrete String
  string_discrete = decide_eq

  body_discrete : Discrete (Body P)
  body_discrete = hlevel (dec, ℕ_discrete, string_discrete)

  input_discrete : Discrete (String × Body P)
  input_discrete = hlevel (body_discrete, string_discrete)

  same_input :
      (e f : AuditEntry P)
      → e.row_hash ≡ compute_hash h e.prev_hash e.body
      → f.row_hash ≡ compute_hash h f.prev_hash f.body
      → e.row_hash ≡ f.row_hash
      → (e ≡ f) ⊎ Collision h
  same_input e f he hf eq = elim (input_discrete (e.prev_hash, e.body) (f.prev_hash, f.body)) [
    | yes p ↦ inl (λ i. record { body = (p i).1; prev_hash = (p i).0; row_hash = eq i })
    | no n ↦ inr (record {
      prev = e.prev_hash;
      prev' = f.prev_hash;
      body = e.body;
      body' = f.body;
      differ = n;
      same = sym he ∙ eq ∙ hf;
    })
  ]

  -- The last entry of a chain is numbered after all before it and hashes to the end.
  last_entry :
      (i : ℕ) (p : String) (f : AuditEntry P) (fs : List (AuditEntry P))
      → IsChainFrom h i p (f ∷ fs)
      → (g : AuditEntry P) × (g.row_hash ≡ end_hash h p (f ∷ fs))
        × (g.seq ≡ i + 1 + length fs)
        × (g.row_hash ≡ compute_hash h g.prev_hash g.body)
  last_entry i p f [] c = (f, refl, omega arith, c.2)
  last_entry i p f (g ∷ gs) c =
      let (l, ends, n, hashed) = last_entry (i + 1) f.row_hash g gs c.3 in
      (l, ends, omega arith, hashed)

  longer :
      (i : ℕ) (p q : String) (e f g : AuditEntry P) (gs : List (AuditEntry P))
      → IsChainFrom h i p (e ∷ [])
      → IsChainFrom h i q (f ∷ g ∷ gs)
      → e.row_hash ≡ end_hash h q (f ∷ g ∷ gs)
      → Collision h
  longer i p q e f g gs c d eq =
      let (l, ends, n, hashed) = last_entry (i + 1) f.row_hash g gs d.3 in
      elim (same_input e l c.2 hashed (eq ∙ sym ends)) [
        | inl one ↦
            let k : e.seq ≡ l.seq = ap (λ (x : AuditEntry P). x.seq) one in
            absurd (omega (arith, k, n, c.0))
        | inr found ↦ found
      ]

  one_chain :
      (i : ℕ) (p q : String) (e f : AuditEntry P) (es fs : List (AuditEntry P))
      → IsChainFrom h i p (e ∷ es)
      → IsChainFrom h i q (f ∷ fs)
      → end_hash h p (e ∷ es) ≡ end_hash h q (f ∷ fs)
      → (◌≡◌ {A = List (AuditEntry P)} (e ∷ es) (f ∷ fs)) ⊎ Collision h
  one_chain i p q e f [] [] c d eq = elim (same_input e f c.2 d.2 eq) [
    | inl one ↦ inl (ap (λ (x : AuditEntry P). x ∷ []) one)
    | inr found ↦ inr found
  ]
  one_chain i p q e f [] (g ∷ gs) c d eq = inr (longer i p q e f g gs c d eq)
  one_chain i p q e f (g ∷ gs) [] c d eq = inr (longer i q p f e g gs d c (sym eq))
  one_chain i p q e f (g ∷ gs) (k ∷ ks) c d eq =
      elim (one_chain (i + 1) e.row_hash f.row_hash g k gs ks c.3 d.3 eq) [
        | inr found ↦ inr found
        | inl rest ↦
            let linked : e.row_hash ≡ f.row_hash =
              sym c.3.1 ∙ ap (λ (l : List (AuditEntry P)). first_prev e.row_hash l) rest ∙ d.3.1 in
            elim (same_input e f c.2 d.2 linked) [
              | inl one ↦ inl (cc (one, rest))
              | inr found ↦ inr found
            ]
      ]
    where
      first_prev : String → List (AuditEntry P) → String
      first_prev d [] = d
      first_prev d (x ∷ xs) = x.prev_hash

  -- Two non-empty chains that end in the same row hash are the same list of entries, or two
  -- different inputs with one digest are at hand. So no row can be altered, removed, inserted or
  -- reordered while the last hash is kept.
  pub chains_agree :
      (e f : AuditEntry P) (es fs : List (AuditEntry P))
      → (verify_chain h (e ∷ es)).valid ≡ true
      → (verify_chain h (f ∷ fs)).valid ≡ true
      → end_hash h genesis_hash (e ∷ es) ≡ end_hash h genesis_hash (f ∷ fs)
      → (◌≡◌ {A = List (AuditEntry P)} (e ∷ es) (f ∷ fs)) ⊎ Collision h
  chains_agree e f es fs c d eq =
      one_chain 0 genesis_hash genesis_hash e f es fs ((verify_chain_iff h (e ∷ es)).0 c)
        ((verify_chain_iff h (f ∷ fs)).0 d) eq
