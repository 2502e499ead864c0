-- ===== src/Tools.antt =====
-- src/rootmem/integration/mcp: the functions behind the tools.
pub mod Search
pub mod Schemas
pub mod Validate
pub mod Memories
pub mod Skills
pub mod Relations
