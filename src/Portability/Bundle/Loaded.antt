-- ===== src/Portability/Bundle/Loaded.antt =====
-- What `load_jsonl` of src/rootmem/portability/bundle.py reads of what `dump_jsonl` wrote.
use rootmem.Base.{
  ℕ, String, ◌≡◌, refl, ap, ◌∙◌, true, some, List, [], ◌∷◌, ok, map, keep, All, string_eq, nat_eq,
  ==_refl, bind_ok,
}
use Prim.Native.String.{◌++◌ as ◌<>◌}
use rootmem.Base.Text.Lines.{IsLine, splitlines, join_lines, splitlines-join_lines}
use rootmem.Portability.Bundle.{
  BundleRecord, BundleManifest, Codec, no_counts, count_all, content_digest, build_bundle,
  dump_jsonl, not_blank, read_records, verify, read_lines, load_jsonl,
}
use rootmem.Portability.Bundle.Counts.{same_counts-count_all}

module _ {D : Type 0} (codec : Codec D) where
  -- A text of one line that is not blank.
  abbrev pub IsWritten : String → Type 0
  IsWritten line = IsLine line × (not_blank codec line ≡ true)

  -- The JSON of a record is one line, and it is read back; nothing is stripped to nothing.
  pub record IsCodec : Type 0 where
    pub written : (r : BundleRecord D) → IsWritten (codec.canonical r)
    pub reads_record : (r : BundleRecord D) → codec.read_record (codec.canonical r) ≡ some r
    pub blank : codec.strip "" ≡ ""

  keep-written : (lines : List String) → All IsWritten lines → keep (not_blank codec) lines ≡ lines
  keep-written [] h = refl
  keep-written (line ∷ lines) (p, h) = rw p.1 (ap (λ l. line ∷ l) (keep-written lines h))

  are_lines : (lines : List String) → All IsWritten lines → All IsLine lines
  are_lines [] h = tt
  are_lines (line ∷ lines) (p, h) = (p.0, are_lines lines h)

  -- The lines that stand in a text are read as they were written.
  pub written_lines :
      (line : String) (lines : List String)
      → All IsWritten (line ∷ lines)
      → keep (not_blank codec) (splitlines (join_lines (line ∷ lines) <> "\n")) ≡ line ∷ lines
  written_lines line lines h =
      ap (keep (not_blank codec)) (splitlines-join_lines line lines (are_lines (line ∷ lines) h))
      ∙ keep-written (line ∷ lines) h

  module _ (c : IsCodec) where
    pub canonical-IsWritten :
        (records : List (BundleRecord D)) → All IsWritten (map codec.canonical records)
    canonical-IsWritten [] = tt
    canonical-IsWritten (r ∷ records) = (c.written r, canonical-IsWritten records)

    pub read_records-canonical :
        (records : List (BundleRecord D))
        → read_records codec (map codec.canonical records) ≡ ok records
    unfolding read_records
    read_records-canonical [] = refl
    read_records-canonical (r ∷ records) =
        rw (c.reads_record r, read_records-canonical records) refl

    verify-ok :
        (m : BundleManifest) (records : List (BundleRecord D))
        → m.counts ≡ count_all no_counts records
        → m.content_sha256 ≡ content_digest codec records
        → verify codec m records ≡ ok (record { manifest = m; records = records })
    unfolding verify
    verify-ok m records counts digest =
        rw (counts, same_counts-count_all records)
          (rw (digest, ==_refl (content_digest codec records)) refl)

    -- Where the JSON of each record and that of the manifest is one line that is read back, `load_jsonl` reads the bundle that `build_bundle` made from what `dump_jsonl` wrote of it.
    pub load_jsonl-dump_jsonl :
        (source_namespace : String) (records : List (BundleRecord D)) (exported_at : ℕ)
        → let bundle = build_bundle codec source_namespace records exported_at in
          IsWritten (codec.dump_manifest bundle.manifest)
          → codec.read_manifest (codec.dump_manifest bundle.manifest) ≡ some bundle.manifest
          → load_jsonl codec (dump_jsonl codec bundle) ≡ ok bundle
    unfolding load_jsonl dump_jsonl build_bundle
    load_jsonl-dump_jsonl source_namespace records exported_at h read =
        let bundle = build_bundle codec source_namespace records exported_at in
        let lines = map codec.canonical bundle.records in
        ap (read_lines codec) (
          written_lines (codec.dump_manifest bundle.manifest) lines
            (h, canonical-IsWritten bundle.records))
        ∙ rw (read, read_lines)
            (bind_ok _ _ (read_records-canonical bundle.records)
              (verify-ok bundle.manifest bundle.records refl refl))
