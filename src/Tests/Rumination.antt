-- ===== src/Tests/Rumination.antt =====
-- A pass over two contested relations, and the relations around an entity.
use Prim.Native.String.{◌++◌}
use rootmem.Base.{
  string_eq, ℕ, ◌+◌, ◌≡◌, refl, true, false, raise, leb, none, some, [], All, ok, length,
}
use rootmem.Base.Dict
use rootmem.Base.Dict.{values}
use rootmem.Base.Json.{Fields}
use rootmem.Tests.Numbers.{number, number-IsOrdered, number-IsMonotone}
use rootmem.Tests.Graph.{contested_graph, contested_graph-IsGraph}
use rootmem.Audit.Chain.{Hashing, verify_chain}
use rootmem.Audit.Log.{AuditRecorder, list_entries}
use rootmem.Audit.Append.{IsLog}
use rootmem.Graph.Repository.{list_contested}
use rootmem.Graph.Repository.Traversal.{related}
use rootmem.Graph.Repository.Related.{IsRelated, related-IsRelated}
use rootmem.Retrieval.Ranking
use rootmem.Rumination.Run.{value_error, Pass, PassSettings, group_pairs, run_rumination_pass}
use rootmem.Rumination.Pass.{IsPass, run_rumination_pass-IsPass}

abbrev toy : Hashing (Fields ℕ)
toy = record { dumps = λ b. b.actor ++ b.action; sha256 = λ s. "#" ++ s }

abbrev recorder : AuditRecorder (Fields ℕ)
recorder = record { repository = some []; actor = "system:rumination" }

abbrev settings : PassSettings ℕ
settings = record {
  now = 9;
  decay_base_stability_days = 7;
  supersede_margin = 0;
  min_contest_age_hours = 0;
  force = true;
}

empty-IsLog : IsLog toy []
unfolding list_entries verify_chain Dict.get
empty-IsLog namespace = refl

run_rumination_pass-IsPass_example :
    (leb settings.decay_base_stability_days 0 ≡ false
      → (p : Pass ℕ) × (run_rumination_pass toy (λ n. n) settings contested_graph recorder none
          ≡ ok p)
        × IsPass number-IsOrdered number-IsMonotone toy
            (λ n. n)
            settings
            (0 + length (group_pairs [] (list_contested contested_graph none)))
            0
            p)
    × (leb settings.decay_base_stability_days 0 ≡ true
        → run_rumination_pass toy (λ n. n) settings contested_graph recorder none
          ≡ raise (value_error Ranking.value_error))
run_rumination_pass-IsPass_example =
    run_rumination_pass-IsPass number-IsOrdered number-IsMonotone toy (λ n. n) settings
      contested_graph recorder none contested_graph-IsGraph empty-IsLog

related-IsRelated_example :
    All
      (IsRelated "default" "sky" (values contested_graph.relations) 2)
      (related contested_graph "default" "sky" 2)
related-IsRelated_example = related-IsRelated contested_graph "default" "sky" 2
