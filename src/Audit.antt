-- ===== src/Audit.antt =====
-- The tamper-evident audit log: src/rootmem/audit/chain.py, src/rootmem/audit/recorder.py and the
-- in-memory repository of src/rootmem/storage/fakes/in_memory_audit_repository.py.
pub mod Chain
pub mod Log
pub mod Verify
pub mod Tamper
pub mod Append
