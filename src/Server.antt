-- ===== src/Server.antt =====
-- src/rootmem/integration/mcp/server.py and errors.py: what stands before the body of every tool.
pub mod Caller
pub mod Authority
pub mod Guarded
use rootmem.Base.{
  ℕ, String, Bool, true, false, not, ◌==◌, ◌&&◌, ◌||◌, Option, none, some, List, [], Result, ok,
  raise, ◌>>=◌, if◌then◌else◌, string_eq,
}
use mathlib.Core.Option
use rootmem.Base.Float.{Float}
use rootmem.Identity.Models.{Scope, read, readwrite, Identity, scope_allows, authorize_namespace}
use rootmem.Identity.RateLimit.{TokenBucketLimiter, allow}

-- The status of an `ApiToolError`.
pub data ApiToolError : Type 0 where
  unauthenticated forbidden not_found unprocessable too_many_requests : ApiToolError

abbrev pub status_code : ApiToolError → ℕ
status_code unauthenticated = 401
status_code forbidden = 403
status_code not_found = 404
status_code unprocessable = 422
status_code too_many_requests = 429

-- What `build_server` fixes for every call: whether a token is required, and the local identity.
pub record Access : Type 0 where
  pub require_auth : Bool
  pub local : Identity

-- The tool and the arguments of it that the guard reads.
pub record Call : Type 0 where
  pub name : String
  pub namespace : Option String
  pub id : String

-- The claims that `resolve_caller` reads, `none` where the key is missing.
pub record Claims : Type 0 where
  pub scope : Option String
  pub identity_id : Option String
  pub namespaces : Option (List String)

-- What `get_access_token` answers.
pub record Token : Type 0 where
  pub client_id : String
  pub subject : Option String
  pub claims : Option Claims

-- `get` on `token.claims or {}`
abbrev pub claim : {A : Type 0} → (Claims → Option A) → Option Claims → Option A
claim key none = none
claim key (some claims) = key claims

-- fail safe
abbrev pub scope_of : String → Scope
scope_of raw_scope = if raw_scope == "readwrite" then readwrite else read

-- `str` of a string or of `None`
abbrev pub str : Option String → String
str none = "None"
str (some s) = s

abbrev pub caller_of : Identity → Token → Identity
caller_of local token = record {
  id = Option.get_or (claim (λ c. c.identity_id) token.claims) (str token.subject);
  name = token.client_id;
  namespaces = Option.get_or (claim (λ c. c.namespaces) token.claims) [];
  created_at = local.created_at;
  revoked_at = none;
  scope = scope_of (Option.get_or (claim (λ c. c.scope) token.claims) "read");
  expires_at = none;
}

unfoldable pub resolve_caller : Access → Option Token → Result ApiToolError Identity
resolve_caller access (some token) = ok (caller_of access.local token)
resolve_caller access none = if access.require_auth then raise unauthenticated else ok access.local

-- `authorize_namespace`, with the error that a tool reports
abbrev pub authorize_or : ApiToolError → Identity → String → Result ApiToolError (Unit {0})
authorize_or error caller namespace = elim (authorize_namespace caller namespace) [
  | raise e ↦ raise error
  | ok u ↦ ok u
]

abbrev pub authorize_owner : Identity → Option String → Result ApiToolError (Unit {0})
authorize_owner caller none = ok tt
authorize_owner caller (some owner) = authorize_or not_found caller owner

-- `owner` is what `namespace_of` answers for the id of the call
unfoldable pub authorize_call : Identity → Call → Option String → Result ApiToolError (Unit {0})
unfolding authorize_namespace
authorize_call caller call owner = elim call.namespace [
  | some namespace ↦ authorize_or forbidden caller namespace
  | none ↦
      if call.name == "update" || call.name == "forget" then authorize_owner caller owner else ok tt
]

module _ {F : Type 0} ⦃fl : Float F⦄ where
  -- the limiter, and whether the call may go on
  abbrev pub limited :
      Access → Identity → Option (TokenBucketLimiter F) → F → Option (TokenBucketLimiter F) × Bool
  limited access caller none now = (none, true)
  limited access caller (some limiter) now =
      if caller.id == access.local.id
      then (some limiter, true)
      else (some (allow limiter now caller.id).0, (allow limiter now caller.id).1)

  abbrev pub admit_caller :
      Access
      → Option (TokenBucketLimiter F)
      → F
      → Call
      → Option String
      → Identity
      → Option (TokenBucketLimiter F) × Result ApiToolError (Unit {0})
  admit_caller access limiter now call owner caller =
      if not (scope_allows caller.scope call.name) then (limiter, raise forbidden) else (
        (limited access caller limiter now).0,
        (if (limited access caller limiter now).1
            then authorize_call caller call owner
            else raise too_many_requests),
      )

  unfoldable pub admit :
      Access
      → Option Token
      → Option (TokenBucketLimiter F)
      → F
      → Call
      → Option String
      → Option (TokenBucketLimiter F) × Result ApiToolError (Unit {0})
  unfolding resolve_caller scope_allows allow authorize_call
  admit access token limiter now call owner = elim (resolve_caller access token) [
    | raise e ↦ (limiter, raise e)
    | ok caller ↦ admit_caller access limiter now call owner caller
  ]

  -- The repositories are of type `S`, the answer of the tool of type `A`.
  abbrev pub run_admitted :
      {S A : Type 0}
      → (S → S × Result ApiToolError A)
      → S
      → Option (TokenBucketLimiter F) × Result ApiToolError (Unit {0})
      → Option (TokenBucketLimiter F) × S × Result ApiToolError A
  run_admitted fn stores (limiter, raise e) = (limiter, stores, raise e)
  run_admitted fn stores (limiter, ok u) = (limiter, (fn stores).0, (fn stores).1)

  unfoldable pub guarded :
      {S A : Type 0}
      → Access
      → Option Token
      → Option (TokenBucketLimiter F)
      → F
      → Call
      → (S → String → Option String)
      → (S → S × Result ApiToolError A)
      → S
      → Option (TokenBucketLimiter F) × S × Result ApiToolError A
  unfolding admit
  guarded access token limiter now call namespace_of fn stores =
      run_admitted fn stores (admit access token limiter now call (namespace_of stores call.id))
