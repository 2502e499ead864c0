-- ===== src/Server/Guarded.antt =====
-- What a call comes to: `guarded` of src/rootmem/integration/mcp/server.py.
use rootmem.Base.{
  ◌⊎◌, String, ◌≡◌, ◌≢◌, refl, true, false, ◌==◌, Option, none, some, Result, raise, inl, inr,
  Bool-cases, eq_of_==, ne_of_==, string_eq, subst, sym,
}
use rootmem.Base.Float.{Float}
use rootmem.Identity.Models.{Identity}
use rootmem.Identity.RateLimit.{TokenBucketLimiter, allow}
use rootmem.Server.{
  ApiToolError, Access, Call, Token, resolve_caller, caller_of, authorize_call, limited,
  admit_caller, run_admitted, admit, guarded, unauthenticated, forbidden, too_many_requests,
}
use rootmem.Server.Authority.{Permits, MayAccess, denial, scope_allows_cases, authorize_call_cases}
use rootmem.Server.Caller.{Calls, caller_of-IsCaller}

module _ {F : Type 0} ⦃fl : Float F⦄ (access : Access) (now : F) where
  -- The limiter lets the caller pass, and what it is afterwards; the local identity is not charged.
  abbrev pub Passes :
      Option (TokenBucketLimiter F) → Identity → Option (TokenBucketLimiter F) → Type 0
  Passes none caller after = after ≡ none
  Passes (some l) caller after =
      ((caller.id ≡ access.local.id) × (after ≡ some l))
      ⊎ ((caller.id ≢ access.local.id)
          × ((allow l now caller.id).1 ≡ true)
          × (after ≡ some (allow l now caller.id).0))

  -- The limiter refuses the caller, which is not the local identity.
  abbrev pub Exhausts :
      Option (TokenBucketLimiter F) → Identity → Option (TokenBucketLimiter F) → Type 0
  Exhausts limiter caller after =
      (l : TokenBucketLimiter F) × (limiter ≡ some l)
      × (caller.id ≢ access.local.id)
      × ((allow l now caller.id).1 ≡ false)
      × (after ≡ some (allow l now caller.id).0)

  module _ {S A : Type 0} (limiter : Option (TokenBucketLimiter F)) (call : Call)
      (owner : Option String) (fn : S → S × Result ApiToolError A) (stores : S) where
    -- What becomes of the call of a caller.
    pub data Treats (caller : Identity)
        : Option (TokenBucketLimiter F) × S × Result ApiToolError A → Type 0 where
      narrow : (¬ Permits caller call.name) → Treats caller (limiter, stores, raise forbidden)
      spent :
          {after : Option (TokenBucketLimiter F)}
          → Permits caller call.name
          → Exhausts limiter caller after
          → Treats caller (after, stores, raise too_many_requests)
      foreign :
          {after : Option (TokenBucketLimiter F)}
          → Permits caller call.name
          → Passes limiter caller after
          → (¬ MayAccess caller call owner)
          → Treats caller (after, stores, raise (denial call))
      runs :
          {after : Option (TokenBucketLimiter F)}
          → Permits caller call.name
          → Passes limiter caller after
          → MayAccess caller call owner
          → Treats caller (after, (fn stores).0, (fn stores).1)

    authorize_call-Treats :
        (caller : Identity) (after : Option (TokenBucketLimiter F))
        → Permits caller call.name
        → Passes limiter caller after
        → Treats caller (run_admitted fn stores (after, authorize_call caller call owner))
    authorize_call-Treats caller after permits passes =
        elim (authorize_call_cases caller call owner) [
          | inl (q, may) ↦ rw q (runs permits passes may)
          | inr (q, apart) ↦ rw q (foreign permits passes apart)
        ]

    limited_cases :
        (limiter : Option (TokenBucketLimiter F)) (caller : Identity)
        → (((limited access caller limiter now).1 ≡ true)
            × Passes limiter caller (limited access caller limiter now).0)
          ⊎ (((limited access caller limiter now).1 ≡ false)
              × Exhausts limiter caller (limited access caller limiter now).0)
    limited_cases none caller = inl (refl, refl)
    limited_cases (some l) caller = elim (Bool-cases (caller.id == access.local.id)) [
      | inl same ↦ inl (rw same refl, rw same (inl (eq_of_== caller.id access.local.id same, refl)))
      | inr differ ↦
          let other = ne_of_== caller.id access.local.id differ in
          elim (Bool-cases (allow l now caller.id).1) [
            | inl t ↦ inl (rw differ t, rw differ (inr (other, t, refl)))
            | inr f ↦ inr (rw differ f, rw differ (l, refl, other, f, refl))
          ]
    ]

    admit_caller-Treats :
        (caller : Identity)
        → Treats caller (run_admitted fn stores (admit_caller access limiter now call owner caller))
    admit_caller-Treats caller = elim (scope_allows_cases caller call.name) [
      | inr (f, apart) ↦ rw (f, admit_caller) (narrow apart)
      | inl (t, permits) ↦ elim (limited_cases limiter caller) [
        | inl (left, passes) ↦
            rw (t, left, admit_caller)
              (authorize_call-Treats caller (limited access caller limiter now).0 permits passes)
        | inr (none_left, exhausts) ↦ rw (t, none_left, admit_caller) (spent permits exhausts)
      ]
    ]

    -- A call without the token that is required is refused; any other is treated as its caller's.
    abbrev pub Guards :
        Option Token → Option (TokenBucketLimiter F) × S × Result ApiToolError A → Type 0
    Guards token answer =
        ((token ≡ none)
          × (access.require_auth ≡ true)
          × (answer ≡ (limiter, stores, raise unauthenticated)))
        ⊎ ((caller : Identity) × Calls access token caller × Treats caller answer)

    admit-Guards :
        (token : Option Token)
        → Guards token (run_admitted fn stores (admit access token limiter now call owner))
    unfolding admit resolve_caller
    admit-Guards (some token) = inr (
      caller_of access.local token,
      caller_of-IsCaller access.local token,
      admit_caller-Treats (caller_of access.local token),
    )
    admit-Guards none = elim (Bool-cases access.require_auth) [
      | inl required ↦ inl (refl, required, rw required refl)
      | inr free ↦
          let same : admit access none limiter now call owner
              ≡ admit_caller access limiter now call owner access.local =
            rw free refl in
          inr (
            access.local,
            (free, refl),
            subst (λ v. Treats access.local (run_admitted fn stores v)) (sym same)
                (admit_caller-Treats access.local),
          )
    ]

  -- A call is refused as unauthenticated exactly where a token is required and there is none. Otherwise
  -- its caller is the local identity or the one that the claims of the token name, by the subject
  -- without an `identity_id`, with no namespaces without the claim of them, and with the right to write
  -- only where the scope claim says "readwrite". It is forbidden, and nothing charged, where the scope
  -- does not permit the tool; refused where the limiter refuses a caller that is not the local
  -- identity; refused, as a missing row where the call is by id, where the caller does not own the
  -- namespace of the call or, for `update` and `forget`, that of the row; and the repositories are then
  -- as they were. Where none of this holds, the body runs.
  pub guarded_lem :
      {S A : Type 0} (token : Option Token) (limiter : Option (TokenBucketLimiter F)) (call : Call)
      (namespace_of : S → String → Option String) (fn : S → S × Result ApiToolError A) (stores : S)
      → Guards limiter call
          (namespace_of stores call.id)
          fn
          stores
          token
          (guarded access token limiter now call namespace_of fn stores)
  unfolding guarded
  guarded_lem token limiter call namespace_of fn stores =
      admit-Guards limiter call (namespace_of stores call.id) fn stores token
