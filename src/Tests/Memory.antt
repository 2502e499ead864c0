-- ===== src/Tests/Memory.antt =====
-- The memory repository with two records.
use rootmem.Base.{
  ℕ, String, ◌≡◌, ◌≢◌, refl, true, none, some, Option, List, [], ◌∷◌, raise, ok, Ensures, string_eq,
}
use rootmem.Base.Dict
use rootmem.Base.Json.{end}
use rootmem.Base.Text.{Text}
use rootmem.Tests.Numbers.{number}
use rootmem.Memory.Models.{MemoryRecord, NewMemory, MemoryUpdate, is_deleted}
use rootmem.Memory.Repository.{
  Records, not_found, stored, create, get_by_id, update, soft_delete, deleted, record_access,
}
use rootmem.Memory.Repository.Search.{search_text, search_semantic, search_hybrid}
use rootmem.Memory.Creation.{IsStore, create-create}
use rootmem.Memory.Deletion.{soft_delete_lem}
use rootmem.Memory.Deletion.Forever.{
  Op, update_op, soft_delete_op, record_access_op, run_ops, Kept, deleted_forever,
}
use rootmem.Memory.Batches.{reads, occurrences, record_access-reads}
use rootmem.Memory.Searches.{IsAnswer, searches-IsAnswer}

-- Text whose words are one word each.
abbrev pub plain : Text
plain = record {
  lower = λ s. s;
  strip = λ s. s;
  split = λ s. s ∷ [];
  join = λ sep words. sep;
  count = λ s term. 1;
}

abbrev note : NewMemory ℕ
note = record {
  namespace = "default";
  key = none;
  idempotency_key = some "k";
  content = "sky is blue";
  content_embedding = some (1 ∷ []);
  source = "agent";
  source_session_id = none;
  confidence = 1;
  importance_flag = 0;
  session_outcome = none;
  metadata = end;
}

abbrev pub row : MemoryRecord ℕ
row = stored "m1" 10 note

abbrev pub one_row : Records ℕ
one_row = ("m1", row) ∷ []

abbrev gone : MemoryRecord ℕ
gone = deleted 20 none row

abbrev one_gone : Records ℕ
one_gone = ("m1", gone) ∷ []

one_row-IsStore : IsStore one_row
unfolding Dict.get
one_row-IsStore = (refl, refl, tt)

create-create_example : create "m2" 12 (create "m1" 10 [] note).0 note ≡ create "m1" 10 [] note
unfolding Dict.get
create-create_example = create-create "m1" "m2" 10 12 [] note note "k" refl refl refl refl

row_there : Dict.get one_row "m1" ≡ some row
unfolding Dict.get
row_there = refl

soft_delete_lem_example :
    (after : Records ℕ) × (r : MemoryRecord ℕ) × (soft_delete 20 one_row "m1" none ≡ ok (after, r))
    × (Dict.get after "m1" ≡ some r)
    × (is_deleted r ≡ true)
    × (r.content ≡ row.content)
    × (r.namespace ≡ row.namespace)
    × ((other : String) → other ≢ "m1" → Dict.get after other ≡ Dict.get one_row other)
    × ((namespace : String) → get_by_id after namespace "m1" ≡ none)
    × ((later : ℕ) (changes : MemoryUpdate ℕ) → update later after "m1" changes ≡ raise not_found)
    × ((later : ℕ) (again : Option String) → soft_delete later after "m1" again ≡ ok (after, r))
soft_delete_lem_example = soft_delete_lem 20 one_row "m1" none row row_there

gone_there : Dict.get one_gone "m1" ≡ some gone
unfolding Dict.get
gone_there = refl

abbrev later_calls : List (Op ℕ)
later_calls =
    update_op 30 "m1" (record { content = some "red"; confidence = none; metadata = none })
    ∷ record_access_op ("m1" ∷ []) 31
    ∷ soft_delete_op 32 "m1" (some "again")
    ∷ []

deleted_forever_example :
    (r' : MemoryRecord ℕ) × (Dict.get (run_ops later_calls one_gone) "m1" ≡ some r') × Kept gone r'
deleted_forever_example = deleted_forever later_calls one_gone "m1" gone tt gone_there refl

record_access-reads_example :
    Dict.get (record_access one_row ("m1" ∷ "m2" ∷ "m1" ∷ []) 40) "m1"
    ≡ some (reads 40 (occurrences "m1" ("m1" ∷ "m2" ∷ "m1" ∷ [])) row)
record_access-reads_example =
    record_access-reads one_row ("m1" ∷ "m2" ∷ "m1" ∷ []) 40 "m1" row row_there refl

searches-IsAnswer_example :
    Ensures
      (IsAnswer "default" 3 (some "agent"))
      (search_text plain one_row "default" "blue" 3 (some "agent"))
    × Ensures
        (IsAnswer "default" 3 (some "agent"))
        (search_semantic one_row "default" (1 ∷ []) 3 (some "agent"))
    × Ensures
        (IsAnswer "default" 3 (some "agent"))
        (search_hybrid plain 1 1 one_row "default" "blue" (1 ∷ []) 3 (some "agent"))
searches-IsAnswer_example =
    searches-IsAnswer plain 1 1 one_row "default" "blue" (1 ∷ []) 3 (some "agent")
