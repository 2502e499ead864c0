-- ===== src/Retrieval.antt =====
-- src/rootmem/retrieval: the pure scores.
pub mod Ranking
pub mod Decay
pub mod Trust
pub mod Rerank
