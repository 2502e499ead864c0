-- ===== src/Tools/Search.antt =====
-- src/rootmem/integration/mcp/tools/search.py. The clock's time is an argument; the fake repository's
-- `record_access` never raises, so the `try` around it has one outcome.
pub mod Candidates
pub mod Answer
use rootmem.Base.{
  ℕ, ◌*◌, String, Bool, not, ◌&&◌, Option, none, some, List, [], ◌∷◌, Result, ok, raise, ◌>>=◌, map,
  take, ◌==◌, string_eq,
}
use mathlib.Core.Option
use rootmem.Base.Float.{Float}
use rootmem.Base.Text.{Text}
use rootmem.Embedding.{EmbeddingProvider, IndexError, embed_or_none}
use rootmem.Memory.Models.{SearchResult, is_some}
use rootmem.Memory.Repository.{Records, record_access}
use rootmem.Memory.Repository.Search.{search_text, search_semantic, search_hybrid}
use rootmem.Graph.Models.{EntityRecord}
use rootmem.Graph.Repository.{Graph, find_entity_by_name}
use rootmem.Retrieval.Ranking.{ValueError, Term}
use rootmem.Retrieval.Rerank.{RankingContext, RankedHit, KeyError, rerank_memory_hits}

pub data Mode : Type 0 where
  text semantic hybrid : Mode

pub record SearchParams : Type 0 where
  pub query : String
  pub namespace : String
  pub limit : ℕ
  pub source : Option String
  pub mode : Mode
  pub entity_name : Option String
  pub entity_type : Option String
  pub as_of : Option ℕ

pub record SearchResultItem (F : Type 0) : Type 0 where
  pub id : String
  pub content : String
  pub key : Option String
  pub score : F
  pub source : String
  pub created_at : ℕ
  pub breakdown : Option (List (Term × F))

pub data Fault : Type 0 where
  no_vector : IndexError → Fault
  value_error : ValueError → Fault
  missing : KeyError → Fault

-- What a search calls: `str`, the provider, and the weights of the repository's hybrid search.
pub record Services (F : Type 0) : Type 0 where
  pub text : Text
  pub embedding : EmbeddingProvider F
  pub weight_text : F
  pub weight_vector : F

module _ {F : Type 0} ⦃fl : Float F⦄ (services : Services F) where
  abbrev pub or_value_error :
      Result ValueError (List (SearchResult F)) → Result Fault (List (SearchResult F))
  or_value_error (raise e) = raise (value_error e)
  or_value_error (ok hits) = ok hits

  abbrev pub by_text : Records F → SearchParams → ℕ → Result Fault (List (SearchResult F))
  by_text records params fetch_limit =
      or_value_error
        (search_text services.text records params.namespace params.query fetch_limit params.source)

  -- with the embedding of the query, if there is one
  abbrev pub by_vector :
      Records F → SearchParams → ℕ → Mode → Option (List F) → Result Fault (List (SearchResult F))
  by_vector records params fetch_limit mode none = by_text records params fetch_limit
  by_vector records params fetch_limit semantic (some v) =
      or_value_error (search_semantic records params.namespace v fetch_limit params.source)
  by_vector records params fetch_limit _ (some v) = or_value_error (
      search_hybrid services.text services.weight_text services.weight_vector records
        params.namespace params.query v fetch_limit params.source)

  abbrev pub embedded : String → Result Fault (Option (List F))
  embedded query = elim (embed_or_none services.embedding query) [
    | raise e ↦ raise (no_vector e)
    | ok v ↦ ok v
  ]

  abbrev pub in_mode : Records F → SearchParams → ℕ → Mode → Result Fault (List (SearchResult F))
  in_mode records params fetch_limit text = by_text records params fetch_limit
  in_mode records params fetch_limit mode =
      embedded params.query >>= by_vector records params fetch_limit mode

  -- `_candidates`
  unfoldable pub candidates : Records F → SearchParams → ℕ → Result Fault (List (SearchResult F))
  unfolding search_text search_semantic search_hybrid embed_or_none
  candidates records params fetch_limit = in_mode records params fetch_limit params.mode

  -- `_record_access`
  abbrev pub track : Records F → List (RankedHit F) → ℕ → SearchParams → Records F
  track records [] now params = records
  track records (hit ∷ ranked) now params = elim params.as_of [
    | some t ↦ records
    | none ↦ record_access records (map (λ (p : RankedHit F). p.0.record_.id) (hit ∷ ranked)) now
  ]

  abbrev pub plain_item : SearchResult F → SearchResultItem F
  plain_item hit = record {
    id = hit.record_.id;
    content = hit.record_.content;
    key = hit.record_.key;
    score = hit.score;
    source = hit.record_.source;
    created_at = hit.record_.created_at;
    breakdown = none;
  }

  abbrev pub ranked_item : RankedHit F → SearchResultItem F
  ranked_item (hit, scored) = record {
    id = hit.record_.id;
    content = hit.record_.content;
    key = hit.record_.key;
    score = scored.score;
    source = hit.record_.source;
    created_at = hit.record_.created_at;
    breakdown = some scored.breakdown;
  }

  abbrev pub named_entity :
      Option (Graph F) → String → Option String → Option String → Option (EntityRecord F)
  named_entity (some graph) namespace (some name) (some entity_type) =
      find_entity_by_name services.text graph namespace entity_type name
  named_entity _ namespace _ _ = none

  abbrev pub reranked :
      RankingContext F
      → SearchParams
      → ℕ
      → Option (Graph F)
      → List (SearchResult F)
      → Result Fault (List (RankedHit F))
  reranked ranking params now graph hits =
      elim (rerank_memory_hits hits params.namespace ranking now graph
        (named_entity graph params.namespace params.entity_name params.entity_type)) [
          | raise e ↦ raise (missing e)
          | ok ranked ↦ ok ranked
        ]

  unfoldable pub search :
      Records F
      → SearchParams
      → Option (RankingContext F)
      → Option (Graph F)
      → ℕ
      → Result Fault (Records F × List (SearchResultItem F))
  unfolding candidates rerank_memory_hits find_entity_by_name record_access
  search records params none graph clock = do
    hits ← candidates records params params.limit
    ok (records, map plain_item hits)
  search records params (some ranking) graph clock =
      let now = Option.get_or params.as_of clock in
      do
        hits ← candidates records params (params.limit * ranking.overfetch)
        all_ranked ← reranked ranking params now graph hits
        let ranked = take params.limit all_ranked
        ok (track records ranked now params, map ranked_item ranked)
