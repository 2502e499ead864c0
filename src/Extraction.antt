-- ===== src/Extraction.antt =====
-- Belief updates and the materialization of extracted facts: src/rootmem/extraction.
pub mod Contradiction
pub mod Models
pub mod Pipeline
