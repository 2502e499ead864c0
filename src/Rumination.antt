-- ===== src/Rumination.antt =====
-- src/rootmem/rumination: contested relations are decided when time has weakened one side.
pub mod Reconcile
pub mod Run
pub mod Groups
pub mod Pass
