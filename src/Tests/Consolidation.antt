-- ===== src/Tests/Consolidation.antt =====
-- Clustering, the trigger and the runs.
use rootmem.Base.{
  length, ℕ, ◌≤◌, String, ◌≡◌, ◌≢◌, ◌↔◌, refl, true, false, Option, none, some, List, [], ◌∷◌, In,
  here, there, ok, string_eq,
}
use rootmem.Base.Dict
use rootmem.Base.Dict.{values}
use rootmem.Tests.Numbers.{number, number-IsOrdered}
use rootmem.Consolidation.Clustering.{cluster_by_similarity}
use rootmem.Consolidation.Clustering.Similarity.{IsPartition, cluster_by_similarity-IsPartition}
use rootmem.Consolidation.Trigger.{
  TriggerReason, TriggerSettings, by_hand, ConsolidationRun, should_consolidate,
}
use rootmem.Consolidation.SkillFormat.{codes, validate_skill_name}
use rootmem.Consolidation.SkillFormat.Names.{Name, validate_skill_name_iff}
use rootmem.Consolidation.Trigger.Due.{Decides, IsReason, Passes, should_consolidate_iff}
use rootmem.Consolidation.Runs.{Runs, started, get_last_run}
use rootmem.Consolidation.Runs.Latest.{get_last_run_lem}

abbrev ids : List String
ids = "a" ∷ "b" ∷ "c" ∷ []

abbrev pairs : List (String × String × ℕ)
pairs = ("a", "b", 9) ∷ ("b", "c", 2) ∷ []

cluster_by_similarity-IsPartition_example :
    (cs : List (List String)) × (cluster_by_similarity ids pairs 8 ≡ ok cs)
    × IsPartition 8 pairs ids cs
cluster_by_similarity-IsPartition_example =
    cluster_by_similarity-IsPartition 8 pairs ids
      ((here, there here), ((there here, there (there here)), tt))

two_clusters : cluster_by_similarity ids pairs 8 ≡ ok (("a" ∷ "b" ∷ []) ∷ ("c" ∷ []) ∷ [])
unfolding cluster_by_similarity Dict.get Dict.put
two_clusters = refl

abbrev settings : TriggerSettings ℕ
settings = record { episode_threshold = 20; time_window_hours = 24 }

abbrev run : ConsolidationRun
run = started "r1" 100 "default" by_hand

should_consolidate_iff_example :
    ((reason : Option TriggerReason)
      → Decides (should_consolidate 3 (some run) 200 settings false) reason
        ↔ IsReason 3 (some run) 200 settings false reason)
    × ((more later : ℕ)
        → 3 ≤ more
        → Passes number-IsOrdered (some run) 200 later
        → (should_consolidate 3 (some run) 200 settings false).should_run ≡ true
        → (should_consolidate more (some run) later settings false).should_run ≡ true)
should_consolidate_iff_example =
    should_consolidate_iff number-IsOrdered 3 (some run) 200 settings false

abbrev runs : Runs
runs = ("r1", run) ∷ ("r2", started "r2" 300 "default" by_hand) ∷ []

get_last_run_lem_example :
    ((r : ConsolidationRun)
      → get_last_run runs "default" ≡ some r
      → In r (values runs)
        × (r.namespace ≡ "default")
        × ((x : ConsolidationRun)
            → In x (values runs)
            → x.namespace ≡ "default"
            → x.started_at ≤ r.started_at))
    × (get_last_run runs "default" ≡ none
        → (x : ConsolidationRun) → In x (values runs)
        → x.namespace ≢ "default")
get_last_run_lem_example = get_last_run_lem runs "default"

validate_skill_name_iff_example :
    (validate_skill_name "run-ci2" 64 ≡ ok tt)
    ↔ (Name (codes "run-ci2") × (length (codes "run-ci2") ≤ 64))
validate_skill_name_iff_example = validate_skill_name_iff "run-ci2" 64
