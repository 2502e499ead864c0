-- ===== src/Audit/Chain.antt =====
-- src/rootmem/audit/chain.py: the entries of the chain, their hash and the verification loop.
-- `json.dumps` of an entry's body and `hashlib.sha256(...).hexdigest()` are parameters; a payload is
-- of any type.
use Prim.Native.String.{◌++◌}
use rootmem.Base.{
  ℕ, ◌+◌, String, Bool, true, false, not, Option, none, some, List, [], ◌∷◌, ◌==◌, length,
  if◌then◌else◌, nat_eq, string_eq,
}

abbrev pub genesis_hash : String
genesis_hash = "0000000000000000000000000000000000000000000000000000000000000000"

-- What an entry commits to, beside the previous hash: the keys of the JSON body.
pub record Body (P : Type 0) : Type 0 where
  pub namespace : String
  pub seq : ℕ
  pub actor : String
  pub action : String
  pub target_type : String
  pub target_id : Option String
  pub payload : P
  pub created_at : ℕ

pub record AuditEntry (P : Type 0) : Type 0 where
  pub body : Body P
  pub open body use *
  pub prev_hash : String
  pub row_hash : String

pub data Reason : Type 0 where
  sequence_gap prev_hash_mismatch row_hash_mismatch : Reason

pub record ChainVerification : Type 0 where
  pub valid : Bool
  pub entries_checked : ℕ
  pub first_broken_seq : Option ℕ
  pub reason : Option Reason

-- The serializer and the digest that the code takes from Python's library.
pub record Hashing (P : Type 0) : Type 0 where
  pub dumps : Body P → String
  pub sha256 : String → String

module _ {P : Type 0} (h : Hashing P) where
  open h use {dumps, sha256}

  unfoldable pub compute_hash : String → Body P → String
  compute_hash prev_hash body = sha256 (prev_hash ++ dumps body)

  abbrev broken : ℕ → AuditEntry P → Reason → ChainVerification
  broken index entry why = record {
    valid = false;
    entries_checked = index;
    first_broken_seq = some entry.seq;
    reason = some why;
  }

  -- the loop of `verify_chain` from `index` on; `total` is `len(entries)`
  unfoldable pub verify_from : ℕ → ℕ → String → List (AuditEntry P) → ChainVerification
  unfolding compute_hash
  verify_from total index expected_prev [] = record {
    valid = true;
    entries_checked = total;
    first_broken_seq = none;
    reason = none;
  }
  verify_from total index expected_prev (entry ∷ entries) =
      let rest = verify_from total (index + 1) entry.row_hash entries in
      if not (entry.seq == index + 1)
      then broken index entry sequence_gap
      else if not (entry.prev_hash == expected_prev)
      then broken index entry prev_hash_mismatch
      else if not (compute_hash entry.prev_hash entry.body == entry.row_hash)
      then broken index entry row_hash_mismatch
      else rest

  unfoldable pub verify_chain : List (AuditEntry P) → ChainVerification
  unfolding verify_from
  verify_chain entries = verify_from (length entries) 0 genesis_hash entries
