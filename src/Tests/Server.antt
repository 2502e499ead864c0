-- ===== src/Tests/Server.antt =====
-- A call of `forget` on a row of a namespace that the caller does not own.
use rootmem.Base.{ℕ, true, none, some, [], ◌∷◌, Result, ok, string_eq}
use rootmem.Tests.Numbers.{number}
use rootmem.Tests.Memory.{one_row}
use rootmem.Identity.Models.{local_identity}
use rootmem.Identity.RateLimit.{TokenBucketLimiter}
use rootmem.Memory.Repository.{Records, namespace_of}
use rootmem.Server.{ApiToolError, Access, Call, Token, guarded}
use rootmem.Server.Guarded.{Guards, guarded_lem}

abbrev access : Access
access = record { require_auth = true; local = local_identity "local" 0 }

abbrev token : Token
token = record {
  client_id = "bob";
  subject = some "i2";
  claims =
      some (record { scope = some "readwrite"; identity_id = none; namespaces = some ("b" ∷ []) });
}

abbrev limiter : TokenBucketLimiter ℕ
limiter = record { rate_per_second = 1; burst = 5; buckets = [] }

abbrev call : Call
call = record { name = "forget"; namespace = none; id = "m1" }

abbrev wipe : Records ℕ → Records ℕ × Result ApiToolError (Unit {0})
wipe records = ([], ok tt)

guarded_lem_example :
    Guards access 9
      (some limiter)
      call
      (namespace_of one_row "m1")
      wipe
      one_row
      (some token)
      (guarded access (some token) (some limiter) 9 call namespace_of wipe one_row)
guarded_lem_example =
    guarded_lem access 9 (some token) (some limiter) call namespace_of wipe one_row
