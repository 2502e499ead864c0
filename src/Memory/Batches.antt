-- ===== src/Memory/Batches.antt =====
-- The operations of src/rootmem/storage/fakes/in_memory_repository.py on lists of ids.
use rootmem.Base.{
  ℕ, ◌+◌, String, ◌≡◌, refl, ap, ◌∙◌, false, some, List, [], ◌∷◌, ◌==◌, if◌then◌else◌, string_eq,
  arith, Bool-cases, Option-cases, inl, inr, ==_refl, eq_of_==, In, here, there, zero, suc,
}
use rootmem.Base.Dict
use rootmem.Base.Dict.{get-put_self, get-put_ne}
use rootmem.Memory.Models.{MemoryRecord, is_deleted}
use rootmem.Memory.Repository.{
  Records, modify, modify_all, mark_consolidated, record_access, accessed,
}

-- How often a text stands in a list.
abbrev pub occurrences : String → List String → ℕ
occurrences id [] = 0
occurrences id (x ∷ xs) = let rest = occurrences id xs in if x == id then suc rest else rest

occurrences-In :
    (id : String) (ids : List String) → In id ids → (n : ℕ) × (occurrences id ids ≡ suc n)
occurrences-In id [] i = elim i [ ]
occurrences-In id (x ∷ ids) here = (occurrences id ids, rw (==_refl id))
occurrences-In id (x ∷ ids) (there i) =
    let (n, e) = occurrences-In id ids i in
    elim (Bool-cases (x == id)) [ inl t ↦ (suc n, rw (t, e)) | inr f ↦ (n, rw (f, e)) ]

occurrences-absent : (id : String) (l : List String) → ¬ In id l → occurrences id l ≡ 0
occurrences-absent id [] out = refl
occurrences-absent id (x ∷ l) out = elim (Bool-cases (x == id)) [
  | inl same ↦ absurd (out (rw (eq_of_== x id same) here))
  | inr f ↦ rw f (occurrences-absent id l (λ i. out (there i)))
]

abbrev iterate : {A : Type 0} → ℕ → (A → A) → A → A
iterate zero f a = a
iterate (suc n) f a = iterate n f (f a)

module _ {F : Type 0} where
  pub get-modify :
      (f : MemoryRecord F → MemoryRecord F) (records : Records F) (other id : String)
      (r : MemoryRecord F)
      → Dict.get records id ≡ some r
      → Dict.get (modify f records other) id ≡ some (if other == id then f r else r)
  unfolding modify
  get-modify f records other id r g = elim (Bool-cases (other == id)) [
    | inl t ↦
        let q = eq_of_== other id t in
        rw (ap (Dict.get records) q ∙ g, modify, t) (rw q (get-put_self records id (f r)))
    | inr n ↦ elim (Option-cases (Dict.get records other)) [
      | inl missing ↦ rw (missing, modify, n) g
      | inr (s, found) ↦ rw (found, modify, n) (get-put_ne records other id (f s) n ∙ g)
    ]
  ]

  -- A loop over ids applies its change to a stored record once for each time that the id stands in
  -- the list, and to no other record.
  get-modify_all :
      (f : MemoryRecord F → MemoryRecord F) (ids : List String) (records : Records F) (id : String)
      (r : MemoryRecord F)
      → Dict.get records id ≡ some r
      → Dict.get (modify_all f records ids) id ≡ some (iterate (occurrences id ids) f r)
  unfolding modify_all
  get-modify_all f [] records id r g = g
  get-modify_all f (other ∷ ids) records id r g = elim (Bool-cases (other == id)) [
    | inl t ↦ rw t (
        get-modify_all f ids (modify f records other) id (f r)
          (get-modify f records other id r g ∙ rw t))
    | inr n ↦ rw n (
        get-modify_all f ids (modify f records other) id r
          (get-modify f records other id r g ∙ rw n))
  ]

  -- A record after it was read at `t` so many times.
  abbrev pub reads : ℕ → ℕ → MemoryRecord F → MemoryRecord F
  reads t zero r = r
  reads t (suc n) r = record r { last_accessed_at = some t; access_count = r.access_count + suc n }

  abbrev counted : ℕ → ℕ → MemoryRecord F → MemoryRecord F
  counted t c r = record r { last_accessed_at = some t; access_count = c }

  iterate-accessed :
      (n t : ℕ) (r : MemoryRecord F) → is_deleted r ≡ false → iterate n (accessed t) r ≡ reads t n r
  iterate-accessed zero t r live = refl
  iterate-accessed (suc zero) t r live = rw live (ap (λ c. counted t c r) (omega arith))
  iterate-accessed (suc (suc n)) t r live = rw live (
      iterate-accessed (suc n) t (counted t (r.access_count + 1) r) live
      ∙ ap (λ c. counted t c r) (omega arith))

  -- `record_access` counts one access for each time that the id of a live record is listed, stamps
  -- the time if it is listed at all, and changes nothing else of the record.
  pub record_access-reads :
      (records : Records F) (ids : List String) (t : ℕ) (id : String) (r : MemoryRecord F)
      → Dict.get records id ≡ some r
      → is_deleted r ≡ false
      → Dict.get (record_access records ids t) id ≡ some (reads t (occurrences id ids) r)
  unfolding record_access
  record_access-reads records ids t id r g live =
      get-modify_all (accessed t) ids records id r g
      ∙ ap some (iterate-accessed (occurrences id ids) t r live)

  abbrev pub marked : ℕ → MemoryRecord F → MemoryRecord F
  marked t r = record r { consolidated_at = some t }

  iterate-marked : (n t : ℕ) (r : MemoryRecord F) → iterate (suc n) (marked t) r ≡ marked t r
  iterate-marked zero t r = refl
  iterate-marked (suc n) t r = iterate-marked n t (marked t r)

  -- `mark_consolidated` stamps every stored record whose id is listed and changes no other.
  pub mark_consolidated_lem :
      (records : Records F) (ids : List String) (t : ℕ) (id : String) (r : MemoryRecord F)
      → Dict.get records id ≡ some r
      → (In id ids → Dict.get (mark_consolidated records ids t) id ≡ some (marked t r))
        × (¬ In id ids → Dict.get (mark_consolidated records ids t) id ≡ some r)
  unfolding mark_consolidated
  mark_consolidated_lem records ids t id r g = (
    λ i.
        let (n, e) = occurrences-In id ids i in
        get-modify_all (marked t) ids records id r g
        ∙ ap (λ k. some (iterate k (marked t) r)) e
        ∙ ap some (iterate-marked n t r),
    λ out.
        get-modify_all (marked t) ids records id r g
        ∙ ap (λ k. some (iterate k (marked t) r)) (occurrences-absent id ids out),
  )
