-- ===== src/Lib.antt =====
-- rootmem: a memory server for agents. Memories, a knowledge graph of contradictable relations,
-- consolidation of episodes, identities and a tamper-evident audit log.
--
-- The Python package src/rootmem keeps its state behind repository protocols, with two backends for
-- each. The in-memory backends (storage/fakes) are modelled, as the reference of what a repository
-- does; the pure modules that both backends call are modelled as they are. The SQL of the PostgreSQL
-- backends, the network providers, the transport and the command lines are not modelled: they are
-- text that another program runs, or calls of it.
--
--   Audit          audit/chain.py, audit/recorder.py, storage/fakes/in_memory_audit_repository.py
--   Retrieval      retrieval/ranking.py, retrieval/decay.py, retrieval/rerank.py, trust/scoring.py
--   Memory         storage/models.py, storage/fakes/in_memory_repository.py
--   Graph          storage/graph_models.py, storage/graph_normalize.py,
--                  storage/fakes/in_memory_graph_repository.py
--   Extraction     extraction/contradiction.py, extraction/models.py, extraction/pipeline.py
--   Embedding      embedding/protocols.py
--   Capture        capture/ingest.py, capture/models.py
--   Tools          integration/mcp/schemas.py, and integration/mcp/tools: search.py, remember.py,
--                  recall.py, update.py, forget.py, get_skill.py, find_skill.py,
--                  report_skill_outcome.py, related.py, feedback.py
--   Consolidation  consolidation/clustering.py, trigger.py, salience.py, skill_format.py,
--                  procedural_clustering.py, distill.py, protocols.py, procedural_protocols.py,
--                  storage/fakes/in_memory_consolidation_repository.py
--   Identity       identity/*.py, storage/fakes/in_memory_identity_repository.py
--   Procedural     storage/procedural_protocols.py,
--                  storage/fakes/in_memory_procedural_repository.py
--   Rumination     rumination/reconcile.py, rumination/run.py
--   Portability    portability/bundle.py
--   Server         integration/mcp/server.py (what stands before a tool), integration/errors.py
--   Base           Python's dict, list.sort, str, float and JSON values, and exceptions
--   Tests          the theorems at concrete inputs
--
-- A repository is a record or a dict of the rows; a method takes it and returns the new one beside
-- its result, or an exception as a value of `Result`. The `async` methods of the in-memory backends
-- contain no suspension between their reads and writes, so each is one step. What a method draws from
-- outside (uuid4, the clock, secrets) is an argument of the same call. The graph repository calls the
-- decision of Extraction.Contradiction; the searches of the memory repository call
-- Retrieval.Ranking; a rumination pass calls the graph repository and the audit recorder. The search
-- tool takes its candidates from the memory repository and gives them to Retrieval.Rerank, which reads
-- the graph repository. The guard of the server calls Identity.Models and Identity.RateLimit before the
-- body of a tool runs.
--
-- `float` is the interface Base.Float: a theorem that needs facts of IEEE 754 arithmetic takes them as
-- the hypotheses `IsOrdered` and `IsMonotone`, which Tests.Numbers fulfils. The methods of `str` but
-- `splitlines`, JSON serialization and SHA-256 are parameters. Instants are microseconds. The claims of a
-- token have the types that `verify_token` gives them.
--
-- The one loop that is not over a list is `find` of the union-find. It takes fuel, one round more than
-- the number of pairs: each union lengthens a path by one link at most, so no path is longer.
pub mod Base
pub mod Audit
pub mod Retrieval
pub mod Memory
pub mod Graph
pub mod Extraction
pub mod Consolidation
pub mod Identity
pub mod Rumination
pub mod Procedural
pub mod Tests
pub mod Embedding
pub mod Capture
pub mod Tools
pub mod Portability
pub mod Server
