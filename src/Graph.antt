-- ===== src/Graph.antt =====
-- The bi-temporal graph: src/rootmem/storage/graph_models.py, src/rootmem/storage/graph_normalize.py
-- and src/rootmem/storage/fakes/in_memory_graph_repository.py.
pub mod Models
pub mod Repository
