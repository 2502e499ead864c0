-- ===== src/Tests/Identity.antt =====
-- Identities and their tokens; a token is its own digest.
use rootmem.Base.{
  ℕ, Bool-cases, inl, inr, ◌==◌, eq_of_==, ne_of_==, String, ◌≡◌, ◌≢◌, refl, none, some, [], ◌∷◌,
  string_eq, Ensures,
}
use rootmem.Base.Dict
use rootmem.Identity.Models.{Identity, readwrite, is_expired}
use rootmem.Identity.Repository.{
  Identities, issued, access_of, create, revoke, rotate, revoked, verify_token,
}
use rootmem.Tests.Numbers.{number}
use rootmem.Identity.RateLimit.{TokenBucketLimiter, allow}
use rootmem.Identity.RateLimit.Keys.{allow-allow}
use rootmem.Identity.Repository.Kept.{
  Known, IsRegistry, IsCreated, IsRevoked, IsRotated, IsIdentities, identities_kept,
}
use rootmem.Identity.Repository.Tokens.{verify_token-revoke, verify_token-rotate}

abbrev alice : Identity
alice = issued "i1" 1 "alice" ("a" ∷ []) readwrite none

abbrev bob : Identity
bob = issued "i2" 2 "bob" ("b" ∷ []) readwrite none

abbrev repo : Identities
repo = record {
  by_id = ("i1", alice) ∷ ("i2", bob) ∷ [];
  digest_by_id = ("i1", "ta") ∷ ("i2", "tb") ∷ [];
}

repo-IsIdentities : IsIdentities repo
unfolding Dict.get
repo-IsIdentities = record { keyed = (refl, refl, (refl, refl, tt)); digests = (refl, (refl, tt)) }

revoke-alice : (revoke 5 repo "alice").1 ≡ some (revoked 5 alice)
unfolding revoke
revoke-alice = refl

bob_verified : verify_token (λ t. t) 9 (revoke 5 repo "alice").0 "tb" ≡ some (access_of "tb" bob)
unfolding revoke verify_token Dict.get Dict.put is_expired
bob_verified = refl

verify_token-revoke_example : (access_of "tb" bob).identity_id ≢ (revoked 5 alice).id
verify_token-revoke_example =
    verify_token-revoke (λ t. t) 5 9 repo "alice" "tb" (revoked 5 alice) (access_of "tb" bob)
      repo-IsIdentities revoke-alice bob_verified

rotate-alice : (rotate repo "alice" "new").1 ≡ some alice
unfolding rotate
rotate-alice = refl

alice_verified :
    verify_token (λ t. t) 9 (rotate repo "alice" "new").0 "new" ≡ some (access_of "new" alice)
unfolding rotate verify_token Dict.get Dict.put is_expired
alice_verified = refl

verify_token-rotate_example : ◌≡◌ {A = String} "new" "new"
verify_token-rotate_example =
    verify_token-rotate (λ t. t) 9 repo "alice" "new" "new" alice (access_of "new" alice)
      repo-IsIdentities rotate-alice alice_verified refl

Known-there :
    {V W : Type 0} (a b : V) (x y : W) (id : String)
    → Known (("i1", a) ∷ ("i2", b) ∷ []) id
    → Known (("i1", x) ∷ ("i2", y) ∷ []) id
unfolding Dict.get
Known-there a b x y id (v, g) = elim (Bool-cases ("i1" == id)) [
  | inl t ↦ rw (← eq_of_== "i1" id t) (x, refl)
  | inr f ↦ elim (Bool-cases ("i2" == id)) [
    | inl t ↦ rw (← eq_of_== "i2" id t) (y, refl)
    | inr f2 ↦ let q : none ≡ some v = rw (f, f2) at g in cc q
  ]
]

repo-IsRegistry : IsRegistry repo
repo-IsRegistry = record {
  identities = repo-IsIdentities;
  has_digest = Known-there alice bob "ta" "tb";
  has_identity = Known-there "ta" "tb" alice bob;
}

identities_kept_example :
    Ensures (IsCreated repo "tc") (create "i3" 3 repo "carol" [] "tc" readwrite none)
    × IsRevoked repo (revoke 3 repo "alice")
    × IsRotated repo "tc" (rotate repo "alice" "tc")
identities_kept_example =
    identities_kept "i3" 3 repo "carol" [] "alice" "tc" readwrite none repo-IsRegistry

abbrev limiter : TokenBucketLimiter ℕ
limiter = record { rate_per_second = 0; burst = 1; buckets = [] }

distinct_keys : ◌≢◌ {A = String} "a" "b"
distinct_keys = ne_of_== "a" "b" refl

allow-allow_example : (allow (allow limiter 1 "a").0 2 "b").1 ≡ (allow limiter 2 "b").1
allow-allow_example = allow-allow limiter 1 2 "a" "b" distinct_keys
