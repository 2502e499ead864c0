-- ===== src/Tests/Memories.antt =====
-- The tools on one memory, beside another one, with an embedding provider that is down.
use rootmem.Base.{ℕ, none, some, raise, refl}
use rootmem.Base.Json.{end}
use rootmem.Tests.Numbers.{number}
use rootmem.Tests.Memory.{one_row}
use rootmem.Embedding.{EmbeddingProvider, embedding_error}
use rootmem.Memory.Repository.{find_by_idempotency_key}
use rootmem.Tools.Schemas.{RememberParams}
use rootmem.Tools.Memories.Lifecycle.{IsLifecycle, remember-recall-IsLifecycle}

abbrev down : EmbeddingProvider ℕ
down = record { embed = λ texts. raise (embedding_error "down") }

abbrev params : RememberParams ℕ
params = record {
  content = "grass is green";
  namespace = "default";
  key = none;
  source = "agent";
  source_session_id = none;
  confidence = 1;
  importance_flag = 0;
  metadata = end;
  idempotency_key = some "other";
}

remember-recall-IsLifecycle_example :
    IsLifecycle down "m2" 20 30 40 50 one_row params (some "wrong")
unfolding find_by_idempotency_key
remember-recall-IsLifecycle_example =
    remember-recall-IsLifecycle down "m2" 20 30 40 50 one_row params (some "wrong")
      (λ texts vectors q. cc q) refl
