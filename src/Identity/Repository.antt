-- ===== src/Identity/Repository.antt =====
-- `InMemoryIdentityRepository` and src/rootmem/identity/verifier.py. The id that `uuid4` draws, the
-- time and the SHA-256 of a token are arguments.
pub mod Kept
pub mod Tokens
use mathlib.Core.Option
use rootmem.Base.{
  ℕ, ◌/◌, String, Bool, true, false, ◌==◌, Option, none, some, List, [], ◌∷◌, if◌then◌else◌,
  string_eq, any, first, ltb, Result, ok, raise,
}
use rootmem.Base.Dict
use rootmem.Base.Dict.{Dict, values}
use rootmem.Base.Sort.{sort}
use rootmem.Identity.Models.{Scope, Identity, is_revoked, is_expired}

pub record Identities : Type 0 where
  pub by_id : Dict String Identity
  pub digest_by_id : Dict String String

pub data IdentityExistsError : Type 0 where
  identity_exists : IdentityExistsError

abbrev pub named : String → Identity → Bool
named name identity = identity.name == name

abbrev pub issued : String → ℕ → String → List String → Scope → Option ℕ → Identity
issued fresh now name namespaces scope expires_at = record {
  id = fresh;
  name = name;
  namespaces = namespaces;
  created_at = now;
  revoked_at = none;
  scope = scope;
  expires_at = expires_at;
}

unfoldable pub create :
    String
    → ℕ
    → Identities
    → String
    → List String
    → String
    → Scope
    → Option ℕ
    → Result IdentityExistsError (Identities × Identity)
create fresh now repo name namespaces token_sha256 scope expires_at =
    let identity = issued fresh now name namespaces scope expires_at in
    if any (named name) (values repo.by_id)
    then raise identity_exists
    else ok (
      record {
        by_id = Dict.put repo.by_id fresh identity;
        digest_by_id = Dict.put repo.digest_by_id fresh token_sha256;
      },
      identity,
    )

abbrev pub unless_revoked : Option Identity → Option Identity
unless_revoked none = none
unless_revoked (some identity) = if is_revoked identity then none else some identity

-- The loop over `_digest_by_id.items()` ends at the first id with the digest. `self._by_id[id]` finds
-- it wherever a digest is that of an identity, as `IsRegistry` of Identity.Repository.Kept has it.
unfoldable pub get_by_token_hash : Identities → String → Option Identity
get_by_token_hash repo token_sha256 =
    elim (first (λ (p : String × String). p.1 == token_sha256) repo.digest_by_id) [
      | none ↦ none
      | some (identity_id, _) ↦ unless_revoked (Dict.get repo.by_id identity_id)
    ]

unfoldable pub list_identities : Identities → List Identity
list_identities repo = sort (λ a b. ltb a.created_at b.created_at) (values repo.by_id)

unfoldable pub find_named : Identities → String → Option Identity
find_named repo name = first (named name) (values repo.by_id)

abbrev pub revoked : ℕ → Identity → Identity
revoked now identity = record identity { revoked_at = some now }

unfoldable pub revoke : ℕ → Identities → String → Identities × Option Identity
unfolding find_named
revoke now repo name = elim (find_named repo name) [
  | none ↦ (repo, none)
  | some identity ↦ if is_revoked identity then (repo, some identity) else (
    record repo { by_id = Dict.put repo.by_id identity.id (revoked now identity) },
    some (revoked now identity),
  )
]

unfoldable pub rotate : Identities → String → String → Identities × Option Identity
unfolding find_named
rotate repo name new_token_sha256 = elim (find_named repo name) [
  | none ↦ (repo, none)
  | some identity ↦ if is_revoked identity then (repo, none) else (
    record repo { digest_by_id = Dict.put repo.digest_by_id identity.id new_token_sha256 },
    some identity,
  )
]

pub record AccessToken : Type 0 where
  pub token : String
  pub client_id : String
  pub subject : String
  pub expires_at : Option ℕ
  pub identity_id : String
  pub namespaces : List String
  pub scope : Scope

abbrev pub access_of : String → Identity → AccessToken
access_of token identity = record {
  token = token;
  client_id = identity.name;
  subject = identity.id;
  expires_at = Option.map (λ t. t / 1000000) identity.expires_at;
  identity_id = identity.id;
  namespaces = identity.namespaces;
  scope = identity.scope;
}

unfoldable pub verify_token : (String → String) → ℕ → Identities → String → Option AccessToken
unfolding get_by_token_hash
verify_token sha256 now repo token = elim (get_by_token_hash repo (sha256 token)) [
  | none ↦ none
  | some identity ↦ if is_expired identity now then none else some (access_of token identity)
]
