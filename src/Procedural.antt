-- ===== src/Procedural.antt =====
-- Skills and lessons distilled from sessions: src/rootmem/storage/procedural_protocols.py and its
-- in-memory backend.
pub mod Models
pub mod Repository
pub mod Active
