-- ===== src/Tests/Search.antt =====
-- Searches over one stored memory, with an embedding provider that is down.
use rootmem.Base.{ℕ, ◌≡◌, none, some, List, [], ◌∷◌, ok, raise, arith}
use rootmem.Tests.Numbers.{number, number-IsOrdered}
use rootmem.Tests.Memory.{plain, row, one_row}
use rootmem.Tests.Graph.{contested_graph}
use rootmem.Embedding.{embedding_error}
use rootmem.Base.Json.{end}
use rootmem.Graph.Models.{EntityRecord}
use rootmem.Memory.Repository.{Records}
use rootmem.Memory.Vectors.{IsEmbedded}
use rootmem.Retrieval.Ranking.{RankTerms, rank_score}
use rootmem.Retrieval.Rerank.{RankingContext, RankedHit, rerank_memory_hits}
use rootmem.Retrieval.Rerank.Ranked.{IsNumber, IsRanking, rerank_memory_hits-IsRanking}
use rootmem.Tools.Search.{Services, SearchParams, SearchResultItem, hybrid, search}
use rootmem.Tools.Search.Answer.{IsResponse, search-IsResponse}

abbrev ranking : RankingContext ℕ
ranking = record {
  weights = record { relevance = 1; retention = 1; salience = 1; trust = 1; graph_proximity = 1 };
  retention = record { base_stability_days = 7 };
  trust = record { default_reliability = 1; source_reliability = [] };
  overfetch = 3;
}

numbers : (terms : RankTerms ℕ) → IsNumber (rank_score terms ranking.weights).score
numbers terms = is_number (rank_score terms ranking.weights).score
  where
    is_number : (n : ℕ) → IsNumber n
    is_number n = ground arith

abbrev sky : EntityRecord ℕ
sky = record {
  id = "sky";
  namespace = "default";
  entity_type = "thing";
  name = "Sky";
  canonical_key = "sky";
  attributes = end;
  created_at = 1;
  updated_at = 1;
}

rerank_memory_hits-IsRanking_example :
    (ranked : List (RankedHit ℕ)) × (rerank_memory_hits
        (record { record_ = row; score = 1 } ∷ [])
        "default"
        ranking
        5
        (some contested_graph)
        (some sky)
      ≡ ok ranked)
    × IsRanking number-IsOrdered ranking numbers
        (record { record_ = row; score = 1 } ∷ [])
        "default"
        5
        (some contested_graph)
        (some sky)
        ranked
rerank_memory_hits-IsRanking_example =
    rerank_memory_hits-IsRanking number-IsOrdered ranking numbers
      (record { record_ = row; score = 1 } ∷ []) "default" 5 (some contested_graph) (some sky)

abbrev services : Services ℕ
services = record {
  text = plain;
  embedding = record { embed = λ texts. raise (embedding_error "down") };
  weight_text = 1;
  weight_vector = 1;
}

abbrev params : SearchParams
params = record {
  query = row.content;
  namespace = row.namespace;
  limit = 10;
  source = none;
  mode = hybrid;
  entity_name = some "sky";
  entity_type = some "thing";
  as_of = none;
}

row-IsEmbedded : IsEmbedded 1 row
row-IsEmbedded v q = cc q

search-IsResponse_example :
    (a : Records ℕ × List (SearchResultItem ℕ)) × (search services one_row params
        (some ranking)
        (some contested_graph)
        5
      ≡ ok a)
    × IsResponse one_row params (some ranking) 5 a
search-IsResponse_example =
    search-IsResponse number-IsOrdered services 1 (λ texts vectors q. cc q)
      (λ texts vectors q. cc q) one_row params (some ranking) (some contested_graph) 5
      (row-IsEmbedded, tt) numbers
