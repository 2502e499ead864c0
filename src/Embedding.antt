-- ===== src/Embedding.antt =====
-- src/rootmem/embedding/protocols.py. The provider is a parameter: it answers with vectors or raises.
use rootmem.Base.{
  String, ◌≡◌, Option, none, some, List, [], ◌∷◌, Result, ok, raise, length, refl, arith,
}

-- The text of an `EmbeddingError`.
pub data EmbeddingError : Type 0 where
  embedding_error : String → EmbeddingError

-- `vectors[0]` of an empty list
pub data IndexError : Type 0 where
  index_error : IndexError

pub record EmbeddingProvider (F : Type 0) : Type 0 where
  pub embed : List String → Result EmbeddingError (List (List F))

module _ {F : Type 0} where
  abbrev pub first_vector : List (List F) → Result IndexError (Option (List F))
  first_vector [] = raise index_error
  first_vector (v ∷ vs) = ok (some v)

  unfoldable pub embed_or_none : EmbeddingProvider F → String → Result IndexError (Option (List F))
  embed_or_none provider content = elim (provider.embed (content ∷ [])) [
    | raise e ↦ ok none
    | ok vectors ↦ first_vector vectors
  ]

  -- The protocol: one vector for each text, or an exception.
  abbrev pub AnswersEach : EmbeddingProvider F → Type 0
  AnswersEach provider =
      (texts : List String) (vectors : List (List F))
      → provider.embed texts ≡ ok vectors
      → length vectors ≡ length texts

  -- A provider that keeps the protocol leaves the first vector to be read, or fails before.
  pub embed_or_none-ok :
      (provider : EmbeddingProvider F)
      → AnswersEach provider
      → (content : String) → (e : Option (List F)) × (embed_or_none provider content ≡ ok e)
  unfolding embed_or_none
  embed_or_none-ok provider each content = by_answer (provider.embed (content ∷ [])) refl
    where
      by_answer :
          (a : Result EmbeddingError (List (List F)))
          → provider.embed (content ∷ []) ≡ a
          → (e : Option (List F)) × (embed_or_none provider content ≡ ok e)
      by_answer (raise x) q = (none, rw (q, embed_or_none) refl)
      by_answer (ok []) q = let l = each (content ∷ []) [] q in absurd (omega (arith, l))
      by_answer (ok (v ∷ vs)) q = (some v, rw (q, embed_or_none) refl)
