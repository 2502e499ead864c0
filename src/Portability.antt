-- ===== src/Portability.antt =====
-- src/rootmem/portability: a namespace as one text.
pub mod Bundle
