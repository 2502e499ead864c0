-- ===== src/Tests/Portability.antt =====
-- A bundle of three records that hold nothing.
use rootmem.Base.{
  String, ◌≡◌, refl, ◌==◌, Option, none, some, List, [], ◌∷◌, ok, if◌then◌else◌, string_eq,
}
use rootmem.Base.Dict
use rootmem.Base.Sort.{sort}
use rootmem.Base.Text.Lines.{splitlines, join_lines}
use rootmem.Portability.Bundle.{
  Kind, memory, entity, relation, memory_entity, relation_provenance, skill, skill_provenance,
  BundleRecord, BundleManifest, Codec, count_all, content_digest, build_bundle, dump_jsonl,
  load_jsonl, Bundle, read_records, verify, same_counts,
}
use rootmem.Portability.Bundle.Verified.{load_jsonl-load_jsonl}
use rootmem.Portability.Bundle.Loaded.{IsWritten, IsCodec, load_jsonl-dump_jsonl}

-- The JSON of a record that holds nothing.
abbrev letter : Kind → String
letter memory = "m"
letter entity = "e"
letter relation = "r"
letter memory_entity = "l"
letter relation_provenance = "p"
letter skill = "s"
letter skill_provenance = "q"

abbrev empty_of : Kind → BundleRecord (Unit {0})
empty_of kind = record { kind = kind; data_ = tt }

-- The first kind that has the letter.
abbrev named : String → List Kind → Option (BundleRecord (Unit {0}))
named name [] = none
named name (kind ∷ kinds) =
    let rest = named name kinds in if name == letter kind then some (empty_of kind) else rest

abbrev kinds : List Kind
kinds =
    memory ∷ entity ∷ relation ∷ memory_entity ∷ relation_provenance ∷ skill ∷ skill_provenance ∷ []

abbrev manifest : BundleManifest
manifest = record {
  version = 1;
  source_namespace = "default";
  exported_at = 5;
  counts =
      ("memory", 2)
      ∷ ("entity", 1)
      ∷ ("relation", 0)
      ∷ ("memory_entity", 0)
      ∷ ("relation_provenance", 0)
      ∷ ("skill", 0)
      ∷ ("skill_provenance", 0)
      ∷ [];
  content_sha256 = "m\nm\ne";
}

abbrev codec : Codec (Unit {0})
codec = record {
  canonical = λ r. letter r.kind;
  dump_manifest = λ m. "v";
  read_manifest = λ line. if line == "v" then some manifest else none;
  read_record = λ line. named line kinds;
  sha256 = λ s. s;
  strip = λ s. s;
}

codec-IsCodec : IsCodec codec
codec-IsCodec = record {
  written = λ r. one_line r.kind;
  reads_record = λ r. read_back r.kind;
  blank = refl;
}
  where
    one_line : (kind : Kind) → IsWritten codec (letter kind)
    one_line memory = ((refl, tt), refl)
    one_line entity = ((refl, tt), refl)
    one_line relation = ((refl, tt), refl)
    one_line memory_entity = ((refl, tt), refl)
    one_line relation_provenance = ((refl, tt), refl)
    one_line skill = ((refl, tt), refl)
    one_line skill_provenance = ((refl, tt), refl)

    read_back : (kind : Kind) → named (letter kind) kinds ≡ some (empty_of kind)
    read_back memory = refl
    read_back entity = refl
    read_back relation = refl
    read_back memory_entity = refl
    read_back relation_provenance = refl
    read_back skill = refl
    read_back skill_provenance = refl

abbrev records : List (BundleRecord (Unit {0}))
records = empty_of memory ∷ empty_of entity ∷ empty_of memory ∷ []

load_jsonl-dump_jsonl_example :
    load_jsonl codec (dump_jsonl codec (build_bundle codec "default" records 5))
    ≡ ok (build_bundle codec "default" records 5)
unfolding build_bundle sort Dict.put Dict.get
load_jsonl-dump_jsonl_example =
    load_jsonl-dump_jsonl codec codec-IsCodec "default" records 5 ((refl, tt), refl) refl

abbrev bundle : Bundle (Unit {0})
bundle = record {
  manifest = manifest;
  records = empty_of memory ∷ empty_of memory ∷ empty_of entity ∷ [];
}

loaded : load_jsonl codec "v\nm\nm\ne\n" ≡ ok bundle
unfolding load_jsonl read_records verify count_all content_digest splitlines join_lines Dict.put
    Dict.get same_counts
loaded = refl

loaded_with_gap : load_jsonl codec "v\r\n\nm\nm\ne" ≡ ok bundle
unfolding load_jsonl read_records verify count_all content_digest splitlines join_lines Dict.put
    Dict.get same_counts
loaded_with_gap = refl

load_jsonl-load_jsonl_example : bundle.records ≡ bundle.records
unfolding content_digest
load_jsonl-load_jsonl_example =
    load_jsonl-load_jsonl codec codec-IsCodec "v\nm\nm\ne\n" "v\r\n\nm\nm\ne" loaded loaded_with_gap
      refl (λ h. h)
