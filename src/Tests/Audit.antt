-- ===== src/Tests/Audit.antt =====
-- The audit log with a toy serializer and digest.
use Prim.Native.String.{◌++◌}
use native.Mathlib.Decide.{ℕ_discrete}
use rootmem.Base.{ℕ, ◌≡◌, refl, true, false, none, some, List, [], ◌∷◌, ◌↔◌, ◌⊎◌, string_eq}
use rootmem.Base.Dict
use rootmem.Audit.Chain.{Body, AuditEntry, Hashing, genesis_hash, verify_chain, compute_hash}
use rootmem.Audit.Verify.{IsChain, Located, verify_chain_iff, verify_chain-Located}
use rootmem.Audit.Tamper.{Collision, chains_agree}
use rootmem.Audit.Log.{append, list_entries}
use rootmem.Audit.Append.{IsLog, append-IsLog}

abbrev toy : Hashing ℕ
toy = record { dumps = λ b. b.actor ++ b.action; sha256 = λ s. "#" ++ s }

abbrev first_body : Body ℕ
first_body = record {
  namespace = "default";
  seq = 1;
  actor = "me";
  action = "remember";
  target_type = "memory";
  target_id = some "m1";
  payload = 7;
  created_at = 100;
}

abbrev first_entry : AuditEntry ℕ
first_entry = record {
  body = first_body;
  prev_hash = genesis_hash;
  row_hash = "#" ++ (genesis_hash ++ "meremember");
}

-- The same with a row hash of other contents.
abbrev forged_entry : AuditEntry ℕ
forged_entry = record first_entry { row_hash = "forged" }

verify_chain_iff_example :
    ((verify_chain toy (first_entry ∷ [])).valid ≡ true) ↔ IsChain toy (first_entry ∷ [])
verify_chain_iff_example = verify_chain_iff toy (first_entry ∷ [])

forged : (verify_chain toy (first_entry ∷ forged_entry ∷ [])).valid ≡ false
unfolding verify_chain compute_hash
forged = refl

verify_chain-Located_example :
    Located toy 0 genesis_hash
      (first_entry ∷ forged_entry ∷ [])
      (verify_chain toy (first_entry ∷ forged_entry ∷ []))
verify_chain-Located_example = verify_chain-Located toy (first_entry ∷ forged_entry ∷ []) forged

genuine : (verify_chain toy (first_entry ∷ [])).valid ≡ true
unfolding verify_chain compute_hash
genuine = refl

chains_agree_example :
    (◌≡◌ {A = List (AuditEntry ℕ)} (first_entry ∷ []) (first_entry ∷ [])) ⊎ Collision toy
chains_agree_example =
    chains_agree ℕ_discrete toy first_entry first_entry [] [] genuine genuine refl

empty-IsLog : IsLog toy []
unfolding list_entries verify_chain Dict.get
empty-IsLog namespace = refl

append-IsLog_example :
    IsLog toy (append toy 5 [] "default" "me" "remember" "memory" (some "m1") 7 none).0
append-IsLog_example =
    append-IsLog toy 5 [] "default" "me" "remember" "memory" (some "m1") 7 none empty-IsLog
