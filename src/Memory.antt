-- ===== src/Memory.antt =====
-- The memory store: src/rootmem/storage/models.py and
-- src/rootmem/storage/fakes/in_memory_repository.py.
pub mod Models
pub mod Repository
pub mod Creation
pub mod Deletion
pub mod Batches
pub mod Salience
pub mod Searches
pub mod Vectors
