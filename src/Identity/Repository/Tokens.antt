-- ===== src/Identity/Repository/Tokens.antt =====
-- Whom a token can be verified as, after a revocation and after a rotation.

use mathlib.Core.Bool.{false≢true}
use rootmem.Base.{
  ℕ, String, ◌≡◌, ◌≢◌, refl, sym, ap, ◌∙◌, true, false, ◌==◌, Option, none, some, string_eq,
  Bool-cases, Option-cases, inl, inr, eq_of_==, first, In-first, In,
}
use rootmem.Base.Dict
use rootmem.Base.Dict.{Dict, values, IsDict, put-IsDict, get-put_self, get-put_ne, In-values}
use rootmem.Base.Dict.Keyed.{id-get, get-In, get-entry}
use rootmem.Identity.Models.{Identity, is_revoked, is_expired}
use rootmem.Identity.Repository.{
  Identities, AccessToken, named, unless_revoked, get_by_token_hash, find_named, revoked, revoke,
  rotate, access_of, verify_token,
}
use rootmem.Identity.Repository.Kept.{IsIdentities, identity_id, revoke-IsIdentities}

-- A token that verifies has the digest of a stored identity that is not revoked.
record Verified (sha256 : String → String) (repo : Identities) (token : String)
    (access : AccessToken) : Type 0 where
  pub identity : Identity
  pub key : String
  pub entry : In (key, sha256 token) repo.digest_by_id
  pub stored : Dict.get repo.by_id key ≡ some identity
  pub current : is_revoked identity ≡ false
  pub named_in : access.identity_id ≡ identity.id

get_by_token_hash-entry :
    (repo : Identities) (digest : String) (identity : Identity)
    → get_by_token_hash repo digest ≡ some identity
    → (key : String) × In (key, digest) repo.digest_by_id
      × (Dict.get repo.by_id key ≡ some identity)
      × (is_revoked identity ≡ false)
unfolding get_by_token_hash
get_by_token_hash-entry repo digest identity e =
    let p = λ (x : String × String). x.1 == digest in
    elim (Option-cases (first p repo.digest_by_id)) [
      | inl missing ↦ absurd (nothing (rw (missing, get_by_token_hash) at e))
      | inr ((key, digest'), found) ↦
          let (i, fits) = In-first p repo.digest_by_id {a = (key, digest')} found in
          let (stored, current) =
            live (Dict.get repo.by_id key) (rw (found, get_by_token_hash) at e) in
          (key, rw (eq_of_== digest' digest fits) at i, stored, current)
    ]
  where
    nothing : ¬ (none ≡ some identity)
    nothing q = cc

    live :
        (o : Option Identity)
        → unless_revoked o ≡ some identity
        → (o ≡ some identity) × (is_revoked identity ≡ false)
    live none q = cc
    live (some i) q = elim (Bool-cases (is_revoked i)) [
      | inl gone ↦ absurd (nothing (rw gone at q))
      | inr current ↦
          let same : some i ≡ some identity = rw current at q in (same, cc (same, current))
    ]

verify_token-Verified :
    (sha256 : String → String) (now : ℕ) (repo : Identities) (token : String) (access : AccessToken)
    → verify_token sha256 now repo token ≡ some access
    → Verified sha256 repo token access
unfolding verify_token
verify_token-Verified sha256 now repo token access e =
    elim (Option-cases (get_by_token_hash repo (sha256 token))) [
      | inl missing ↦ absurd (nothing (rw (missing, verify_token) at e))
      | inr (i, found) ↦ elim (Bool-cases (is_expired i now)) [
        | inl late ↦ absurd (nothing (rw (found, verify_token, late) at e))
        | inr valid ↦
            let (key, inside, stored, current) =
              get_by_token_hash-entry repo (sha256 token) i found in
            let q : some (access_of token i) ≡ some access = rw (found, verify_token, valid) at e in
            record {
              identity = i;
              key = key;
              entry = inside;
              stored = stored;
              current = current;
              named_in = cc q;
            }
      ]
    ]
  where
    nothing : ¬ (none ≡ some access)
    nothing q = cc

-- `revoke` leaves the identity that it returns stored and revoked.
revoke_marks :
    (now : ℕ) (repo : Identities) (name : String) (identity : Identity)
    → IsIdentities repo
    → (revoke now repo name).1 ≡ some identity
    → (Dict.get (revoke now repo name).0.by_id identity.id ≡ some identity)
      × (is_revoked identity ≡ true)
unfolding revoke find_named
revoke_marks now repo name identity h e = elim (Option-cases (find_named repo name)) [
  | inl missing ↦ absurd (nothing (rw (missing, revoke) at e))
  | inr (i, found) ↦
      let stored =
        get-In identity_id repo.by_id h.keyed
          (In-first (named name) (values repo.by_id) {a = i} found).0 in
      elim (Bool-cases (is_revoked i)) [
        | inl gone ↦
            let same : some i ≡ some identity = rw (found, revoke, gone) at e in
            rw (found, revoke, gone) (cc (same, stored), cc (same, gone))
        | inr live ↦
            let same : some (revoked now i) ≡ some identity = rw (found, revoke, live) at e in
            let one : revoked now i ≡ identity = cc same in
            rw (found, revoke, live)
              (rw (← one) (get-put_self repo.by_id i.id (revoked now i)), rw (← one) refl)
      ]
]
  where
    nothing : ¬ (none ≡ some identity)
    nothing q = cc

-- After `revoke` returns an identity, no token is verified as that identity, at any time.
pub verify_token-revoke :
    (sha256 : String → String) (now later : ℕ) (repo : Identities) (name token : String)
    (identity : Identity) (access : AccessToken)
    → IsIdentities repo
    → (revoke now repo name).1 ≡ some identity
    → verify_token sha256 later (revoke now repo name).0 token ≡ some access
    → access.identity_id ≢ identity.id
verify_token-revoke sha256 now later repo name token identity access h e v same =
    let after = (revoke now repo name).0 in
    let t = verify_token-Verified sha256 later after token access v in
    let (stored, gone) = revoke_marks now repo name identity h e in
    let own =
      id-get identity_id after.by_id t.key (revoke-IsIdentities now repo name h).keyed t.stored in
    let there_ = ap (Dict.get after.by_id) (sym own ∙ sym t.named_in ∙ same) in
    let one : some t.identity ≡ some identity = sym t.stored ∙ there_ ∙ stored in
    false≢true (cc (one, t.current, gone))

-- What `rotate` leaves when it returns an identity: the identities, and one digest replaced.
rotate_stores :
    (repo : Identities) (name digest : String) (identity : Identity)
    → (rotate repo name digest).1 ≡ some identity
    → (rotate repo name digest).0
      ≡ record repo { digest_by_id = Dict.put repo.digest_by_id identity.id digest }
unfolding rotate find_named
rotate_stores repo name digest identity e = elim (Option-cases (find_named repo name)) [
  | inl missing ↦ absurd (nothing (rw (missing, rotate) at e))
  | inr (i, found) ↦ elim (Bool-cases (is_revoked i)) [
    | inl gone ↦ absurd (nothing (rw (found, rotate, gone) at e))
    | inr live ↦
        let same : some i ≡ some identity = rw (found, rotate, live) at e in
        let one : i ≡ identity = cc same in
        rw (found, rotate, live)
          (ap
            (λ (x : Identity). record repo {
              digest_by_id = Dict.put repo.digest_by_id x.id digest;
            })
            one)
  ]
]
  where
    nothing : ¬ (none ≡ some identity)
    nothing q = cc

-- After `rotate` returns an identity, only a token with the new digest is verified as that identity.
pub verify_token-rotate :
    (sha256 : String → String) (later : ℕ) (repo : Identities) (name digest token : String)
    (identity : Identity) (access : AccessToken)
    → IsIdentities repo
    → (rotate repo name digest).1 ≡ some identity
    → verify_token sha256 later (rotate repo name digest).0 token ≡ some access
    → access.identity_id ≡ identity.id
    → sha256 token ≡ digest
verify_token-rotate sha256 later repo name digest token identity access h e v same =
    let after = record repo { digest_by_id = Dict.put repo.digest_by_id identity.id digest } in
    let t =
      verify_token-Verified sha256 later after token access
        (rw (rotate_stores repo name digest identity e) at v) in
    let own = id-get identity_id repo.by_id t.key h.keyed t.stored in
    let key_eq : t.key ≡ identity.id = sym own ∙ sym t.named_in ∙ same in
    let found =
      get-entry after.digest_by_id (t.key, sha256 token)
        (put-IsDict repo.digest_by_id identity.id digest h.digests) t.entry in
    let one : some (sha256 token) ≡ some digest =
      sym found
      ∙ ap (Dict.get after.digest_by_id) key_eq
      ∙ get-put_self repo.digest_by_id identity.id digest in
    cc one
