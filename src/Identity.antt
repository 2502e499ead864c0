-- ===== src/Identity.antt =====
-- Agent identities, their scopes and namespaces, token verification and the rate limit:
-- src/rootmem/identity and src/rootmem/storage/fakes/in_memory_identity_repository.py.
pub mod Models
pub mod Repository
pub mod RateLimit
