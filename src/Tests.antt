-- ===== src/Tests.antt =====
-- The theorems at concrete inputs.
mod Numbers
mod Audit
mod Memory
mod Graph
mod Consolidation
mod Identity
mod Rumination
mod Procedural
mod Extraction
mod Capture
mod Distill
mod Search
mod Memories
mod Portability
mod Server
