-- ===== src/Portability/Bundle/Verified.antt =====
-- What `load_jsonl` of src/rootmem/portability/bundle.py has verified of a bundle.
use Prim.Native.String.{◌++◌ as ◌<>◌}
use rootmem.Base.{
  String, ◌≡◌, refl, sym, ap, subst, ◌∙◌, true, ◌==◌, Option, none, some, List, [], ◌∷◌, Result, ok,
  raise, ◌>>=◌, map, keep, All, Bool-cases, inl, inr, eq_of_==, Ensures, string_eq, nat_eq,
}
use rootmem.Base.Text.Lines.{splitlines, join_lines}
use rootmem.Portability.Bundle.{
  Bundle, BundleRecord, BundleManifest, BundleError, Codec, bundle_version, no_counts, count_all,
  same_counts, content_digest, not_blank, read_records, verify, read_body, read_lines, load_jsonl,
}
use rootmem.Portability.Bundle.Loaded.{
  IsWritten, IsCodec, written_lines, canonical-IsWritten, read_records-canonical,
}

module _ {D : Type 0} (codec : Codec D) where
  -- The version is known, and the counts and the digest are those of the records.
  pub record IsVerified (b : Bundle D) : Type 0 where
    pub version : b.manifest.version ≡ bundle_version
    pub counts : same_counts (count_all no_counts b.records) b.manifest.counts ≡ true
    pub digest : content_digest codec b.records ≡ b.manifest.content_sha256

  verify-IsVerified :
      (m : BundleManifest) (records : List (BundleRecord D))
      → m.version ≡ bundle_version
      → Ensures IsVerified (verify codec m records)
  unfolding verify
  verify-IsVerified m records v =
      elim (Bool-cases (same_counts (count_all no_counts records) m.counts)) [
        | inr wrong ↦ rw wrong tt
        | inl counted ↦ elim (Bool-cases (content_digest codec records == m.content_sha256)) [
          | inr wrong ↦ rw (counted, wrong) tt
          | inl digested ↦
              rw (counted, digested)
                (record { version = v; counts = counted; digest = eq_of_== _ _ digested })
        ]
      ]

  records-IsVerified :
      (m : BundleManifest) (r : Result BundleError (List (BundleRecord D)))
      → m.version ≡ bundle_version
      → Ensures IsVerified (r >>= verify codec m)
  records-IsVerified m (raise e) v = tt
  records-IsVerified m (ok records) v = verify-IsVerified m records v

  read_body-IsVerified :
      (lines : List String) (m : BundleManifest) → Ensures IsVerified (read_body codec lines m)
  read_body-IsVerified lines m = elim (Bool-cases (m.version == bundle_version)) [
    | inr wrong ↦ rw wrong tt
    | inl known ↦ rw known (records-IsVerified m (read_records codec lines) (eq_of_== _ _ known))
  ]

  read_lines-IsVerified : (lines : List String) → Ensures IsVerified (read_lines codec lines)
  read_lines-IsVerified [] = tt
  read_lines-IsVerified (line ∷ lines) = by_manifest (codec.read_manifest line) refl
    where
      by_manifest :
          (m : Option BundleManifest)
          → codec.read_manifest line ≡ m
          → Ensures IsVerified (read_lines codec (line ∷ lines))
      by_manifest none q = rw (q, read_lines) tt
      by_manifest (some m) q = rw (q, read_lines) (read_body-IsVerified lines m)

  pub load_jsonl-IsVerified :
      (text : String) {b : Bundle D} → load_jsonl codec text ≡ ok b → IsVerified b
  unfolding load_jsonl
  load_jsonl-IsVerified text q =
      subst (Ensures IsVerified) q
        (read_lines-IsVerified (keep (not_blank codec) (splitlines text)))

  -- The texts of the lines give the lines.
  all_written :
      IsCodec codec
      → (lines : List String) → All (IsWritten codec) lines
      → keep (not_blank codec) (splitlines (join_lines lines <> "\n")) ≡ lines
  unfolding splitlines join_lines
  all_written c [] h = rw c.blank refl
  all_written c (line ∷ lines) h = written_lines codec line lines h

  ok_inj : {E A : Type 0} {x y : A} → ◌≡◌ {A = Result E A} (ok x) (ok y) → x ≡ y
  ok_inj q = cc q

  same_records :
      IsCodec codec
      → (records others : List (BundleRecord D))
      → join_lines (map codec.canonical records) ≡ join_lines (map codec.canonical others)
      → records ≡ others
  same_records c records others q =
      let same_lines : map codec.canonical records ≡ map codec.canonical others =
        sym (all_written c _ (canonical-IsWritten codec c records))
        ∙ ap (λ s. keep (not_blank codec) (splitlines (s <> "\n"))) q
        ∙ all_written c _ (canonical-IsWritten codec c others) in
      ok_inj (
        sym (read_records-canonical codec c records)
        ∙ ap (read_records codec) same_lines
        ∙ read_records-canonical codec c others)

  -- Where the JSON of each record is one line that is read back, two bundles that `load_jsonl` reads
  -- with the same digest in their manifests hold the same records, unless SHA-256 collides on them.
  pub load_jsonl-load_jsonl :
      IsCodec codec
      → (text other : String) {a b : Bundle D} → load_jsonl codec text ≡ ok a
      → load_jsonl codec other ≡ ok b
      → a.manifest.content_sha256 ≡ b.manifest.content_sha256
      → (content_digest codec a.records ≡ content_digest codec b.records
          → join_lines (map codec.canonical a.records) ≡ join_lines (map codec.canonical b.records))
      → a.records ≡ b.records
  load_jsonl-load_jsonl c text other p q same no_collision = same_records c _ _ (
      no_collision
        ((load_jsonl-IsVerified text p).digest ∙ same ∙ sym (load_jsonl-IsVerified other q).digest))
