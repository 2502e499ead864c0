-- ===== src/Identity/Repository/Kept.antt =====
-- An invariant of src/rootmem/storage/fakes/in_memory_identity_repository.py.

use rootmem.Base.{
  ◌⊎◌, ℕ, String, ◌≡◌, ◌≢◌, refl, sym, ◌∙◌, ◌==◌, eq_of_==, ==_ne, Option, none, some, List,
  string_eq, Bool-cases, Option-cases, inl, inr, any, Ensures, In-first,
}
use rootmem.Base.Dict
use rootmem.Base.Dict.{Dict, values, IsDict, put-IsDict, put-cases, get-put_self, get-put_ne}
use rootmem.Base.Dict.Keyed.{IsKeyed, put-IsKeyed, get-In}
use rootmem.Identity.Models.{Scope, Identity, is_revoked}
use rootmem.Identity.Repository.{
  Identities, named, issued, create, find_named, revoked, revoke, rotate,
}

abbrev pub identity_id : Identity → String
identity_id i = i.id

-- Every identity stands under its own id, and has one digest.
pub record IsIdentities (repo : Identities) : Type 0 where
  pub keyed : IsKeyed identity_id repo.by_id
  pub digests : IsDict repo.digest_by_id

create-IsIdentities :
    (fresh : String) (now : ℕ) (repo : Identities) (name : String) (namespaces : List String)
    (digest : String) (scope : Scope) (expires_at : Option ℕ)
    → IsIdentities repo
    → Ensures
        (λ (p : Identities × Identity). IsIdentities p.0)
        (create fresh now repo name namespaces digest scope expires_at)
unfolding create
create-IsIdentities fresh now repo name namespaces digest scope expires_at h =
    elim (Bool-cases (any (named name) (values repo.by_id))) [
      | inl taken ↦ rw taken tt
      | inr new ↦ rw new (record {
        keyed =
            put-IsKeyed identity_id repo.by_id fresh
              (issued fresh now name namespaces scope expires_at) refl h.keyed;
        digests = put-IsDict repo.digest_by_id fresh digest h.digests;
      })
    ]

pub revoke-IsIdentities :
    (now : ℕ) (repo : Identities) (name : String)
    → IsIdentities repo
    → IsIdentities (revoke now repo name).0
unfolding revoke
revoke-IsIdentities now repo name h = elim (Option-cases (find_named repo name)) [
  | inl missing ↦ rw (missing, revoke) h
  | inr (i, found) ↦ elim (Bool-cases (is_revoked i)) [
    | inl gone ↦ rw (found, revoke, gone) h
    | inr live ↦
        rw (found, revoke, live)
          (record {
            keyed = put-IsKeyed identity_id repo.by_id i.id (revoked now i) refl h.keyed;
            digests = h.digests;
          })
  ]
]

module _ {V : Type 0} where
  -- The id has an entry.
  abbrev pub Known : Dict String V → String → Type 0
  Known d id = (v : V) × (Dict.get d id ≡ some v)

  put-Known_self : (d : Dict String V) (k : String) (v : V) → Known (Dict.put d k v) k
  put-Known_self d k v = (v, get-put_self d k v)

  put-Known :
      (d : Dict String V) (k : String) (v : V) (id : String)
      → Known d id
      → Known (Dict.put d k v) id
  put-Known d k v id (w, g) = elim (Bool-cases (k == id)) [
    | inl t ↦ rw (← eq_of_== k id t) (put-Known_self d k v)
    | inr f ↦ (w, get-put_ne d k id v f ∙ g)
  ]

  Known-put :
      (d : Dict String V) (k : String) (v : V) (id : String)
      → Known (Dict.put d k v) id
      → (k ≡ id) ⊎ Known d id
  Known-put d k v id (w, g) = elim (put-cases d k id v g) [
    | inl (q, _) ↦ inl q
    | inr (_, old) ↦ inr (w, old)
  ]

-- Every identity stands under its own id, has one digest, and every digest is of an identity.
pub record IsRegistry (repo : Identities) : Type 0 where
  pub identities : IsIdentities repo
  pub has_digest : (id : String) → Known repo.by_id id → Known repo.digest_by_id id
  pub has_identity : (id : String) → Known repo.digest_by_id id → Known repo.by_id id

-- A digest is stored for the id, and no other digest changes.
abbrev pub Assigns : Dict String String → Dict String String → String → String → Type 0
Assigns before after id digest =
    (Dict.get after id ≡ some digest)
    × ((other : String) → other ≢ id → Dict.get after other ≡ Dict.get before other)

put-Assigns :
    (d : Dict String String) (id digest : String) → Assigns d (Dict.put d id digest) id digest
put-Assigns d id digest = (
  get-put_self d id digest,
  λ other n. get-put_ne d id other digest (==_ne id other (λ q. n (sym q))),
)

-- What `create` leaves beside the identity that it returns.
abbrev pub IsCreated : Identities → String → Identities × Identity → Type 0
IsCreated repo digest (after, identity) =
    IsRegistry after
    × (Dict.get after.by_id identity.id ≡ some identity)
    × Assigns repo.digest_by_id after.digest_by_id identity.id digest

create-IsCreated :
    (fresh : String) (now : ℕ) (repo : Identities) (name : String) (namespaces : List String)
    (digest : String) (scope : Scope) (expires_at : Option ℕ)
    → IsRegistry repo
    → Ensures
        (IsCreated repo digest)
        (create fresh now repo name namespaces digest scope expires_at)
unfolding create
create-IsCreated fresh now repo name namespaces digest scope expires_at h =
    let identity = issued fresh now name namespaces scope expires_at in
    elim (Bool-cases (any (named name) (values repo.by_id))) [
      | inl taken ↦ rw taken tt
      | inr new ↦
          let kept =
            create-IsIdentities fresh now repo name namespaces digest scope expires_at
              h.identities in
          rw new (
            record {
              identities = rw new at kept;
              has_digest = λ id k. elim (Known-put repo.by_id fresh identity id k) [
                | inl q ↦ rw (← q) (put-Known_self repo.digest_by_id fresh digest)
                | inr old ↦ put-Known repo.digest_by_id fresh digest id (h.has_digest id old)
              ];
              has_identity = λ id k. elim (Known-put repo.digest_by_id fresh digest id k) [
                | inl q ↦ rw (← q) (put-Known_self repo.by_id fresh identity)
                | inr old ↦ put-Known repo.by_id fresh identity id (h.has_identity id old)
              ];
            },
            get-put_self repo.by_id fresh identity,
            put-Assigns repo.digest_by_id fresh digest,
          )
    ]

-- An identity that is found by its name is stored under its id.
find_named-Known :
    (repo : Identities) (name : String) (i : Identity)
    → IsIdentities repo
    → find_named repo name ≡ some i
    → Known repo.by_id i.id
unfolding find_named
find_named-Known repo name i h found =
    (i, get-In identity_id repo.by_id h.keyed (In-first (named name) (values repo.by_id) found).0)

-- `revoke` leaves the digests alone.
abbrev pub IsRevoked : Identities → Identities × Option Identity → Type 0
IsRevoked repo (after, answer) = IsRegistry after × (after.digest_by_id ≡ repo.digest_by_id)

revoke-IsRevoked :
    (now : ℕ) (repo : Identities) (name : String)
    → IsRegistry repo
    → IsRevoked repo (revoke now repo name)
unfolding revoke
revoke-IsRevoked now repo name h = elim (Option-cases (find_named repo name)) [
  | inl missing ↦ rw (missing, revoke) (h, refl)
  | inr (i, found) ↦ elim (Bool-cases (is_revoked i)) [
    | inl gone ↦ rw (found, revoke, gone) (h, refl)
    | inr live ↦
        let stored_i = find_named-Known repo name i h.identities found in
        rw (found, revoke, live)
          (
            record {
              identities = record {
                keyed =
                    put-IsKeyed identity_id repo.by_id i.id (revoked now i) refl h.identities.keyed;
                digests = h.identities.digests;
              };
              has_digest = λ id k. elim (Known-put repo.by_id i.id (revoked now i) id k) [
                | inl q ↦ h.has_digest id (rw (← q) stored_i)
                | inr old ↦ h.has_digest id old
              ];
              has_identity =
                  λ id k. put-Known repo.by_id i.id (revoked now i) id (h.has_identity id k);
            },
            refl,
          )
  ]
]

-- `rotate` gives the identity that it returns the new digest, and changes no identity.
abbrev pub IsRotated : Identities → String → Identities × Option Identity → Type 0
IsRotated repo digest (after, none) = IsRegistry after × (after ≡ repo)
IsRotated repo digest (after, some identity) =
    IsRegistry after
    × (after.by_id ≡ repo.by_id)
    × Assigns repo.digest_by_id after.digest_by_id identity.id digest

rotate-IsRotated :
    (repo : Identities) (name digest : String)
    → IsRegistry repo
    → IsRotated repo digest (rotate repo name digest)
unfolding rotate
rotate-IsRotated repo name digest h = elim (Option-cases (find_named repo name)) [
  | inl missing ↦ rw (missing, rotate) (h, refl)
  | inr (i, found) ↦ elim (Bool-cases (is_revoked i)) [
    | inl gone ↦ rw (found, rotate, gone) (h, refl)
    | inr live ↦
        let stored_i = find_named-Known repo name i h.identities found in
        rw (found, rotate, live)
          (
            record {
              identities = record {
                keyed = h.identities.keyed;
                digests = put-IsDict repo.digest_by_id i.id digest h.identities.digests;
              };
              has_digest = λ id k. put-Known repo.digest_by_id i.id digest id (h.has_digest id k);
              has_identity = λ id k. elim (Known-put repo.digest_by_id i.id digest id k) [
                | inl q ↦ rw (← q) stored_i
                | inr old ↦ h.has_identity id old
              ];
            },
            refl,
            put-Assigns repo.digest_by_id i.id digest,
          )
  ]
]

-- `create`, where it does not raise, `revoke` and `rotate` keep every identity under its own id, with
-- one digest, and every digest of an identity. The identity that `create` returns is stored, with the
-- digest given; `revoke` changes no digest; the identity that `rotate` returns has the new digest, no
-- identity changes, and where it returns none nothing does. No digest of another identity changes.
pub identities_kept :
    (fresh : String) (now : ℕ) (repo : Identities) (name : String) (namespaces : List String)
    (owner digest : String) (scope : Scope) (expires_at : Option ℕ)
    → IsRegistry repo
    → Ensures
        (IsCreated repo digest)
        (create fresh now repo name namespaces digest scope expires_at)
      × IsRevoked repo (revoke now repo owner)
      × IsRotated repo digest (rotate repo owner digest)
identities_kept fresh now repo name namespaces owner digest scope expires_at h = (
  create-IsCreated fresh now repo name namespaces digest scope expires_at h,
  revoke-IsRevoked now repo owner h,
  rotate-IsRotated repo owner digest h,
)
