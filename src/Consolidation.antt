-- ===== src/Consolidation.antt =====
-- When and how episodes are consolidated: src/rootmem/consolidation.
pub mod Clustering
pub mod Trigger
pub mod Salience
pub mod Traces
pub mod SkillFormat
pub mod Runs
pub mod Distill
