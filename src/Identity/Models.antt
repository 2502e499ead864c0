-- ===== src/Identity/Models.antt =====
-- src/rootmem/identity/models.py, scopes.py, authz.py, tokens.py and bind.py.
use Prim.Native.String.{◌++◌}
use rootmem.Base.{
  ℕ, String, Bool, true, false, not, ◌==◌, ◌&&◌, ◌||◌, Option, none, some, List, [], ◌∷◌,
  if◌then◌else◌, string_eq, any, leb, Result, ok, raise,
}

pub data Scope : Type 0 where
  read readwrite : Scope

pub record Identity : Type 0 where
  pub id : String
  pub name : String
  pub namespaces : List String
  pub created_at : ℕ
  pub revoked_at : Option ℕ
  pub scope : Scope
  pub expires_at : Option ℕ

abbrev pub all_namespaces : String
all_namespaces = "*"

abbrev pub is_revoked : Identity → Bool
is_revoked identity = elim identity.revoked_at [ none ↦ false | some _ ↦ true ]

abbrev pub expired_at : Option ℕ → ℕ → Bool
expired_at none now = false
expired_at (some expires_at) now = leb expires_at now

unfoldable pub is_expired : Identity → ℕ → Bool
is_expired identity now = expired_at identity.expires_at now

unfoldable pub local_identity : String → ℕ → Identity
local_identity name created_at = record {
  id = "local";
  name = name;
  namespaces = all_namespaces ∷ [];
  created_at = created_at;
  revoked_at = none;
  scope = readwrite;
  expires_at = none;
}

abbrev pub read_tools : List String
read_tools = "recall" ∷ "search" ∷ "related" ∷ "find_skill" ∷ "get_skill" ∷ "verify_audit" ∷ []

unfoldable pub scope_allows : Scope → String → Bool
scope_allows readwrite tool_name = true
scope_allows read tool_name = any (λ tool. tool == tool_name) read_tools

unfoldable pub owns_namespace : Identity → String → Bool
owns_namespace identity namespace =
    if is_revoked identity
    then false
    else any (λ n. n == all_namespaces) identity.namespaces
      || any (λ n. n == namespace) identity.namespaces

pub data AuthorizationError : Type 0 where
  authorization_error : AuthorizationError

unfoldable pub authorize_namespace : Identity → String → Result AuthorizationError (Unit {0})
unfolding owns_namespace
authorize_namespace identity namespace =
    if owns_namespace identity namespace then ok tt else raise authorization_error

abbrev pub token_prefix : String
token_prefix = "rmk_"

-- `secrets.token_urlsafe(32)` is an argument
unfoldable pub generate_token : String → String
generate_token token_urlsafe = token_prefix ++ token_urlsafe

pub data UnsafeBindError : Type 0 where
  unsafe_bind : UnsafeBindError

-- `host.lower()`, and whether `ipaddress.ip_address(host)` is a loopback address (`false` where it
-- raises `ValueError`), are the arguments of `is_loopback`.
unfoldable pub is_loopback : (String → String) → (String → Bool) → String → Bool
is_loopback lower loopback_address host =
    if lower host == "localhost" then true else loopback_address host

unfoldable pub validate_http_bind :
    (String → String) → (String → Bool) → String → Bool → Result UnsafeBindError (Unit {0})
unfolding is_loopback
validate_http_bind lower loopback_address host allow_non_loopback =
    if not (is_loopback lower loopback_address host) && not allow_non_loopback
    then raise unsafe_bind
    else ok tt
