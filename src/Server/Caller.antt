-- ===== src/Server/Caller.antt =====
-- Who calls: `resolve_caller` of src/rootmem/integration/mcp/server.py.
use rootmem.Base.{
  ◌⊎◌, String, ◌≡◌, refl, ap, ◌∙◌, false, ◌==◌, Option, none, some, [], inl, inr, Bool-cases,
  eq_of_==, string_eq,
}
use mathlib.Core.Option
use rootmem.Identity.Models.{readwrite, Identity}
use rootmem.Server.{Access, Claims, Token, claim, scope_of, str, caller_of}

-- The token has the claim, with this value.
abbrev pub HasClaim : {A : Type 0} → Option Claims → (Claims → Option A) → A → Type 0
HasClaim claims key value = (c : Claims) × (claims ≡ some c) × (key c ≡ some value)

abbrev pub LacksClaim : {A : Type 0} → Option Claims → (Claims → Option A) → Type 0
LacksClaim claims key = (c : Claims) → claims ≡ some c → key c ≡ none

-- The value is that of the claim or, without the claim, the default.
abbrev pub IsClaim : {A : Type 0} → Option Claims → (Claims → Option A) → A → A → Type 0
IsClaim claims key default value =
    HasClaim claims key value ⊎ (LacksClaim claims key × (value ≡ default))

-- The identity that a token stands for; it may write only where the scope claim says so.
pub record IsCaller (local : Identity) (token : Token) (caller : Identity) : Type 0 where
  pub id : IsClaim token.claims (λ c. c.identity_id) (str token.subject) caller.id
  pub name : caller.name ≡ token.client_id
  pub namespaces : IsClaim token.claims (λ c. c.namespaces) [] caller.namespaces
  pub writes_only : caller.scope ≡ readwrite → HasClaim token.claims (λ c. c.scope) "readwrite"
  pub may_write : HasClaim token.claims (λ c. c.scope) "readwrite" → caller.scope ≡ readwrite
  pub unrevoked : caller.revoked_at ≡ none
  pub created : caller.created_at ≡ local.created_at

claim-IsClaim :
    {A : Type 0} (claims : Option Claims) (key : Claims → Option A) (default : A)
    → IsClaim claims key default (Option.get_or (claim key claims) default)
claim-IsClaim none key default = inr (λ c q. cc q, refl)
claim-IsClaim {A} (some c) key default = by_value (key c) refl
  where
    by_value :
        (o : Option A) → key c ≡ o → IsClaim (some c) key default (Option.get_or (key c) default)
    by_value none q = rw q (inr (λ d same. cc (q, same), refl))
    by_value (some v) q = inl (c, refl, rw q refl)

get_or-HasClaim :
    {A : Type 0} (claims : Option Claims) (key : Claims → Option A) (default value : A)
    → HasClaim claims key value
    → Option.get_or (claim key claims) default ≡ value
get_or-HasClaim claims key default value (c, q, e) = rw (q, e) refl

scope_of-readwrite : (s : String) → scope_of s ≡ readwrite → s ≡ "readwrite"
scope_of-readwrite s h = elim (Bool-cases (s == "readwrite")) [
  | inl t ↦ eq_of_== s "readwrite" t
  | inr f ↦ let no = rw f at h in cc no
]

writes-HasClaim :
    (claims : Option Claims) (key : Claims → Option String)
    → scope_of (Option.get_or (claim key claims) "read") ≡ readwrite
    → HasClaim claims key "readwrite"
writes-HasClaim claims key h =
    let s = Option.get_or (claim key claims) "read" in
    let writes = scope_of-readwrite s h in
    elim (claim-IsClaim claims key "read") [
      | inl (c, q, e) ↦ (c, q, e ∙ ap some writes)
      | inr (lacks, q) ↦ let no = rw q at h in cc no
    ]

pub caller_of-IsCaller :
    (local : Identity) (token : Token) → IsCaller local token (caller_of local token)
caller_of-IsCaller local token = record {
  id = claim-IsClaim token.claims (λ c. c.identity_id) (str token.subject);
  name = refl;
  namespaces = claim-IsClaim token.claims (λ c. c.namespaces) [];
  writes_only = writes-HasClaim token.claims (λ c. c.scope);
  may_write = λ h. rw (get_or-HasClaim token.claims (λ c. c.scope) "read" "readwrite" h) refl;
  unrevoked = refl;
  created = refl;
}

-- The caller of a call: that of its token or, where none is required, the local identity.
abbrev pub Calls : Access → Option Token → Identity → Type 0
Calls access none caller = (access.require_auth ≡ false) × (caller ≡ access.local)
Calls access (some token) caller = IsCaller access.local token caller
