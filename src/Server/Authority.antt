-- ===== src/Server/Authority.antt =====
-- What a caller may do, by scope and by namespace: src/rootmem/integration/mcp/server.py.
use rootmem.Base.{
  ◌⊎◌, String, ◌≡◌, refl, sym, true, false, Bool, any, ◌==◌, ◌||◌, Option, none, some, List, [],
  ◌∷◌, ok, raise, In, here, there, In-cases, inl, inr, Bool-cases, eq_of_==, ne_of_==, string_eq,
  subst,
}
use rootmem.Identity.Models.{
  Scope, read, readwrite, Identity, all_namespaces, read_tools, is_revoked, scope_allows,
  owns_namespace, authorize_namespace,
}
use rootmem.Server.{
  ApiToolError, Call, authorize_or, authorize_owner, authorize_call, not_found, forbidden,
}

-- The test of a list for a name, decided.
any_cases :
    (names : List String) (x : String)
    → ((any (λ n. n == x) names ≡ true) × In x names)
      ⊎ ((any (λ n. n == x) names ≡ false) × (¬ In x names))
any_cases [] x = inr (refl, λ i. elim i [ ])
any_cases (n ∷ names) x = elim (Bool-cases (n == x)) [
  | inl t ↦ inl (rw t refl, rw (eq_of_== n x t) here)
  | inr f ↦ elim (any_cases names x) [
    | inl (t, i) ↦ inl (rw f t, there i)
    | inr (g, apart) ↦ inr (
      rw f g,
      λ i. elim (In-cases x n i) [ inl same ↦ ne_of_== n x f (sym same) | inr tail ↦ apart tail ],
    )
  ]
]

-- A read scope is for the reading tools.
abbrev pub Permits : Identity → String → Type 0
Permits caller tool = (caller.scope ≡ readwrite) ⊎ In tool read_tools

abbrev pub Owns : Identity → String → Type 0
Owns caller namespace =
    (is_revoked caller ≡ false)
    × (In all_namespaces caller.namespaces ⊎ In namespace caller.namespaces)

-- The caller owns the namespace of the call; for `update` and `forget`, that of the row, if there is one.
abbrev pub MayAccess : Identity → Call → Option String → Type 0
MayAccess caller call owner = elim call.namespace [
  | some namespace ↦ Owns caller namespace
  | none ↦
      (call.name == "update" || call.name == "forget") ≡ true
      → (n : String) → owner ≡ some n
      → Owns caller n
]

-- How a foreign namespace is reported: by id, a foreign row as a missing one.
abbrev pub denial : Call → ApiToolError
denial call = elim call.namespace [ some namespace ↦ forbidden | none ↦ not_found ]

pub scope_allows_cases :
    (caller : Identity) (tool : String)
    → ((scope_allows caller.scope tool ≡ true) × Permits caller tool)
      ⊎ ((scope_allows caller.scope tool ≡ false) × (¬ Permits caller tool))
unfolding scope_allows
scope_allows_cases caller tool = by_scope caller.scope
  where
    by_scope :
        (scope : Scope)
        → ((scope_allows scope tool ≡ true) × ((scope ≡ readwrite) ⊎ In tool read_tools))
          ⊎ ((scope_allows scope tool ≡ false) × (¬ ((scope ≡ readwrite) ⊎ In tool read_tools)))
    by_scope readwrite = inl (refl, inl refl)
    by_scope read = elim (any_cases read_tools tool) [
      | inl (t, i) ↦ inl (t, inr i)
      | inr (f, apart) ↦ inr (f, λ h. elim h [ inl q ↦ cc q | inr i ↦ apart i ])
    ]

owns_namespace_cases :
    (caller : Identity) (namespace : String)
    → ((owns_namespace caller namespace ≡ true) × Owns caller namespace)
      ⊎ ((owns_namespace caller namespace ≡ false) × (¬ Owns caller namespace))
unfolding owns_namespace
owns_namespace_cases caller namespace =
    by_tests (is_revoked caller) (any_cases caller.namespaces all_namespaces)
      (any_cases caller.namespaces namespace) refl
  where
    by_tests :
        (revoked : Bool)
        → ((any (λ n. n == all_namespaces) caller.namespaces ≡ true)
            × In all_namespaces caller.namespaces)
          ⊎ ((any (λ n. n == all_namespaces) caller.namespaces ≡ false)
              × (¬ In all_namespaces caller.namespaces))
        → ((any (λ n. n == namespace) caller.namespaces ≡ true) × In namespace caller.namespaces)
          ⊎ ((any (λ n. n == namespace) caller.namespaces ≡ false)
              × (¬ In namespace caller.namespaces))
        → is_revoked caller ≡ revoked
        → ((owns_namespace caller namespace ≡ true) × Owns caller namespace)
          ⊎ ((owns_namespace caller namespace ≡ false) × (¬ Owns caller namespace))
    by_tests true one other q = inr (rw q refl, λ h. let no = h.0 in cc (q, no))
    by_tests false (inl (t, i)) other q = inl (rw (q, t) refl, (q, inl i))
    by_tests false (inr (f, apart)) (inl (t, i)) q = inl (rw (q, f, t) refl, (q, inr i))
    by_tests false (inr (f, apart)) (inr (g, other)) q =
        inr (rw (q, f, g) refl, λ h. elim h.1 [ inl i ↦ apart i | inr i ↦ other i ])

authorize_or_cases :
    (e : ApiToolError) (caller : Identity) (namespace : String)
    → ((authorize_or e caller namespace ≡ ok tt) × Owns caller namespace)
      ⊎ ((authorize_or e caller namespace ≡ raise e) × (¬ Owns caller namespace))
unfolding authorize_namespace
authorize_or_cases e caller namespace = elim (owns_namespace_cases caller namespace) [
  | inl (t, h) ↦ inl (rw (t, authorize_or) refl, h)
  | inr (f, h) ↦ inr (rw (f, authorize_or) refl, h)
]

pub authorize_call_cases :
    (caller : Identity) (call : Call) (owner : Option String)
    → ((authorize_call caller call owner ≡ ok tt) × MayAccess caller call owner)
      ⊎ ((authorize_call caller call owner ≡ raise (denial call)) × (¬ MayAccess caller call owner))
unfolding authorize_call
authorize_call_cases caller call owner = by_fields call.name call.id call.namespace owner
  where
    by_owner :
        (name id : String) (owner : Option String)
        → (name == "update" || name == "forget") ≡ true
        → (let by_id : Call = record { name = name; namespace = none; id = id } in
            ((authorize_owner caller owner ≡ ok tt) × MayAccess caller by_id owner)
            ⊎ ((authorize_owner caller owner ≡ raise not_found) × (¬ MayAccess caller by_id owner)))
    by_owner name id none t = inl (refl, λ u n q. cc q)
    by_owner name id (some o) t = elim (authorize_or_cases not_found caller o) [
      | inl (q, h) ↦ inl (q, λ u n same. subst (λ m. Owns caller m) (cc same) h)
      | inr (q, h) ↦ inr (q, λ may. h (may t o refl))
    ]

    by_fields :
        (name id : String) (namespace owner : Option String)
        → (let c : Call = record { name = name; namespace = namespace; id = id } in
            ((authorize_call caller c owner ≡ ok tt) × MayAccess caller c owner)
            ⊎ ((authorize_call caller c owner ≡ raise (denial c)) × (¬ MayAccess caller c owner)))
    by_fields name id (some n) owner = authorize_or_cases forbidden caller n
    by_fields name id none owner = elim (Bool-cases (name == "update" || name == "forget")) [
      | inl t ↦ elim (by_owner name id owner t) [
        | inl (q, h) ↦ inl (rw t q, h)
        | inr (q, h) ↦ inr (rw t q, h)
      ]
      | inr f ↦ inl (rw f refl, λ t. let no = rw f at t in cc no)
    ]
