-- ===== src/Memory/Vectors.antt =====
-- The vectors of src/rootmem/storage/fakes/in_memory_repository.py.
use rootmem.Base.{
  ℕ, String, ◌≡◌, refl, sym, ◌∙◌, Bool, true, false, some, List, ◌==◌, nat_eq, ok, raise, length,
  ==_of_eq, if◌then◌else◌,
}
use rootmem.Base.Float.{Float}
use rootmem.Memory.Models.{MemoryRecord}
use rootmem.Retrieval.Ranking.{value_error, cosine_similarity}

module _ {F : Type 0} ⦃fl : Float F⦄ (d : ℕ) where
  -- Every vector has the one dimension.
  abbrev pub HasDimension : String × List F → Type 0
  HasDimension c = length c.1 ≡ d

  abbrev pub IsEmbedded : MemoryRecord F → Type 0
  IsEmbedded r = (v : List F) → r.content_embedding ≡ some v → length v ≡ d

  pub cosine_similarity-ok :
      (a b : List F) → length a ≡ d → length b ≡ d → (s : F) × (cosine_similarity a b ≡ ok s)
  unfolding cosine_similarity
  cosine_similarity-ok a b p q =
      checked (length a == length b) _ (==_of_eq (length a) (length b) (p ∙ sym q))
    where
      checked :
          (test : Bool) (v : F)
          → test ≡ true
          → (s : F) × ((if test then ok v else raise value_error) ≡ ok s)
      checked true v t = (v, refl)
      checked false v t = cc
