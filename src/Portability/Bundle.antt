-- ===== src/Portability/Bundle.antt =====
-- src/rootmem/portability/bundle.py. What a record holds is a parameter, since the code never looks
-- into it; so are the JSON of a record and of a manifest, and SHA-256.
pub mod Counts
pub mod Loaded
pub mod Verified
use Prim.Native.String.{◌++◌ as ◌<>◌}
use Prim.Native.Char.{code}
use rootmem.Base.{
  ℕ, ◌+◌, String, Bool, true, false, not, ◌==◌, ◌&&◌, ◌||◌, Option, none, some, List, [], ◌∷◌,
  Result, ok, raise, ◌>>=◌, cons_ok, map, keep, length, if◌then◌else◌, string_eq, nat_eq, ltb,
}
use mathlib.Core.Option
use rootmem.Base.Dict
use rootmem.Base.Dict.{Dict}
use rootmem.Base.Sort.{sort}
use rootmem.Base.Text.Lines.{splitlines, join_lines}

abbrev pub bundle_version : ℕ
bundle_version = 1

pub data Kind : Type 0 where
  memory entity relation memory_entity relation_provenance skill skill_provenance : Kind

abbrev pub name_of : Kind → String
name_of memory = "memory"
name_of entity = "entity"
name_of relation = "relation"
name_of memory_entity = "memory_entity"
name_of relation_provenance = "relation_provenance"
name_of skill = "skill"
name_of skill_provenance = "skill_provenance"

-- `KIND_ORDER.index`
abbrev pub index : Kind → ℕ
index memory = 0
index entity = 1
index relation = 2
index memory_entity = 3
index relation_provenance = 4
index skill = 5
index skill_provenance = 6

pub data BundleError : Type 0 where
  empty_bundle unreadable_manifest unsupported_version unreadable_record bad_counts bad_digest :
      BundleError

pub record BundleRecord (D : Type 0) : Type 0 where
  pub kind : Kind
  pub data_ : D

pub record BundleManifest : Type 0 where
  pub version : ℕ
  pub source_namespace : String
  pub exported_at : ℕ
  pub counts : Dict String ℕ
  pub content_sha256 : String

pub record Bundle (D : Type 0) : Type 0 where
  pub manifest : BundleManifest
  pub records : List (BundleRecord D)

-- `json.dumps` of a record, `model_dump_json`, the two `model_validate_json`, SHA-256 and `str.strip`.
pub record Codec (D : Type 0) : Type 0 where
  pub canonical : BundleRecord D → String
  pub dump_manifest : BundleManifest → String
  pub read_manifest : String → Option BundleManifest
  pub read_record : String → Option (BundleRecord D)
  pub sha256 : String → String
  pub strip : String → String

-- `<` on `str`: by code points
unfoldable pub text_lt : String → String → Bool
text_lt String.[] String.[] = false
text_lt String.[] (String.◌∷◌ d t) = true
text_lt (String.◌∷◌ c s) String.[] = false
text_lt (String.◌∷◌ c s) (String.◌∷◌ d t) =
    let rest = text_lt s t in if code c == code d then rest else ltb (code c) (code d)

abbrev pub no_counts : Dict String ℕ
no_counts =
    ("memory", 0)
    ∷ ("entity", 0)
    ∷ ("relation", 0)
    ∷ ("memory_entity", 0)
    ∷ ("relation_provenance", 0)
    ∷ ("skill", 0)
    ∷ ("skill_provenance", 0)
    ∷ []

-- `counts[record.kind] += 1`; every kind has an entry from the start
unfoldable pub add_one : Dict String ℕ → Kind → Dict String ℕ
add_one counts kind =
    Dict.put counts (name_of kind) (Option.get_or (Dict.get counts (name_of kind)) 0 + 1)

abbrev pub has_count : Dict String ℕ → String × ℕ → Bool
has_count counts (name, n) = elim (Dict.get counts name) [ none ↦ false | some m ↦ n == m ]

abbrev pub all_counted : Dict String ℕ → List (String × ℕ) → Bool
all_counted counts [] = true
all_counted counts (p ∷ ps) = has_count counts p && all_counted counts ps

-- `==` on two dicts
unfoldable pub same_counts : Dict String ℕ → Dict String ℕ → Bool
same_counts a b = length a == length b && all_counted b a

module _ {D : Type 0} where
  unfoldable pub of_kind : Bundle D → Kind → List D
  of_kind bundle kind =
      map (λ (r : BundleRecord D). r.data_)
        (keep (λ (r : BundleRecord D). index r.kind == index kind) bundle.records)

  -- the loop over the records
  unfoldable pub count_all : Dict String ℕ → List (BundleRecord D) → Dict String ℕ
  unfolding add_one
  count_all counts [] = counts
  count_all counts (r ∷ records) = count_all (add_one counts r.kind) records

module _ {D : Type 0} (codec : Codec D) where
  unfoldable pub content_digest : List (BundleRecord D) → String
  unfolding join_lines
  content_digest records = codec.sha256 (join_lines (map codec.canonical records))

  -- `_sort_key` of one record before that of another
  abbrev pub key_lt : BundleRecord D → BundleRecord D → Bool
  key_lt a b =
      ltb (index a.kind) (index b.kind)
      || (index a.kind == index b.kind && text_lt (codec.canonical a) (codec.canonical b))

  unfoldable pub build_bundle : String → List (BundleRecord D) → ℕ → Bundle D
  unfolding text_lt count_all content_digest
  build_bundle source_namespace records exported_at =
      let ordered = sort key_lt records in
      record {
        manifest = record {
          version = bundle_version;
          source_namespace = source_namespace;
          exported_at = exported_at;
          counts = count_all no_counts ordered;
          content_sha256 = content_digest ordered;
        };
        records = ordered;
      }

  unfoldable pub dump_jsonl : Bundle D → String
  unfolding join_lines
  dump_jsonl bundle =
      join_lines (codec.dump_manifest bundle.manifest ∷ map codec.canonical bundle.records) <> "\n"

  abbrev pub not_blank : String → Bool
  not_blank line = not (codec.strip line == "")

  unfoldable pub read_records : List String → Result BundleError (List (BundleRecord D))
  read_records [] = ok []
  read_records (line ∷ lines) =
      let rest = read_records lines in
      elim (codec.read_record line) [ none ↦ raise unreadable_record | some r ↦ cons_ok r rest ]

  unfoldable pub verify : BundleManifest → List (BundleRecord D) → Result BundleError (Bundle D)
  unfolding count_all content_digest same_counts
  verify manifest records =
      if not (same_counts (count_all no_counts records) manifest.counts)
      then raise bad_counts
      else if not (content_digest records == manifest.content_sha256)
      then raise bad_digest
      else ok (record { manifest = manifest; records = records })

  abbrev pub read_body : List String → BundleManifest → Result BundleError (Bundle D)
  read_body lines manifest =
      if not (manifest.version == bundle_version)
      then raise unsupported_version
      else read_records lines >>= verify manifest

  abbrev pub read_lines : List String → Result BundleError (Bundle D)
  read_lines [] = raise empty_bundle
  read_lines (line ∷ lines) = elim (codec.read_manifest line) [
    | none ↦ raise unreadable_manifest
    | some manifest ↦ read_body lines manifest
  ]

  unfoldable pub load_jsonl : String → Result BundleError (Bundle D)
  unfolding splitlines read_records verify
  load_jsonl text = read_lines (keep not_blank (splitlines text))
