-- ===== src/Consolidation/Runs/Latest.antt =====
-- Which run `get_last_run` of src/rootmem/storage/fakes/in_memory_consolidation_repository.py returns.
use rootmem.Base.{
  false, ◌≤◌, String, ◌≡◌, ◌≢◌, true, ◌==◌, none, some, List, [], ◌∷◌, string_eq, keep, ltb, arith,
  Bool-cases, inl, inr, In, here, there, In-keep, All, All-at, All-keep_self, All-keep, All-In,
  eq_of_==, ==_of_eq,
}
use rootmem.Base.Dict.{values}
use rootmem.Consolidation.Trigger.{ConsolidationRun}
use rootmem.Consolidation.Runs.{Runs, latest, latest_of, get_last_run}

-- The run is one of them, and none of them started later.
record IsLatest (r : ConsolidationRun) (runs : List ConsolidationRun) : Type 0 where
  pub inside : In r runs
  pub newest : All (λ (x : ConsolidationRun). x.started_at ≤ r.started_at) runs

latest-IsLatest :
    (best : ConsolidationRun) (runs : List ConsolidationRun)
    → IsLatest (latest best runs) (best ∷ runs)
unfolding latest
latest-IsLatest best [] = record { inside = here; newest = (omega arith, tt) }
latest-IsLatest best (run ∷ runs) = elim (Bool-cases (ltb best.started_at run.started_at)) [
  | inl later ↦ rw later (
      let l = latest-IsLatest run runs in
      record {
        inside = there l.inside;
        newest = (after best run (latest run runs) later l.newest.0, l.newest);
      })
  | inr sooner ↦ rw sooner (
      let l = latest-IsLatest best runs in
      record {
        inside = over l.inside;
        newest = (l.newest.0, (before best run (latest best runs) sooner l.newest.0, l.newest.1));
      })
]
  where
    after :
        (a b c : ConsolidationRun)
        → ltb a.started_at b.started_at ≡ true
        → b.started_at ≤ c.started_at
        → a.started_at ≤ c.started_at
    after a b c p q = ground arith

    before :
        (a b c : ConsolidationRun)
        → ltb a.started_at b.started_at ≡ false
        → a.started_at ≤ c.started_at
        → b.started_at ≤ c.started_at
    before a b c p q = ground arith

    over : {r : ConsolidationRun} → In r (best ∷ runs) → In r (best ∷ run ∷ runs)
    over here = here
    over (there i) = there (there i)

-- Where `get_last_run` returns a run, it is a stored one of the namespace and no stored run of the
-- namespace started later; where it returns none, no stored run is of the namespace.
pub get_last_run_lem :
    (runs : Runs) (namespace : String)
    → ((r : ConsolidationRun)
        → get_last_run runs namespace ≡ some r
        → In r (values runs)
          × (r.namespace ≡ namespace)
          × ((x : ConsolidationRun)
              → In x (values runs)
              → x.namespace ≡ namespace
              → x.started_at ≤ r.started_at))
      × (get_last_run runs namespace ≡ none
          → (x : ConsolidationRun) → In x (values runs)
          → x.namespace ≢ namespace)
unfolding get_last_run
get_last_run_lem runs namespace =
    of_kept (keep (λ run. run.namespace == namespace) (values runs))
      (λ x i e.
        In-keep (λ run. run.namespace == namespace) x (values runs) i
          (==_of_eq x.namespace namespace e))
      (All-keep (λ x. In x (values runs)) (λ run. run.namespace == namespace) (values runs)
        (All-In (values runs)))
      (All-keep_self (λ run. run.namespace == namespace) (values runs))
  where
    of_kept :
        (kept : List ConsolidationRun)
        → ((x : ConsolidationRun) → In x (values runs) → x.namespace ≡ namespace → In x kept)
        → All (λ x. In x (values runs)) kept
        → All (λ (x : ConsolidationRun). (x.namespace == namespace) ≡ true) kept
        → ((r : ConsolidationRun)
            → latest_of kept ≡ some r
            → In r (values runs)
              × (r.namespace ≡ namespace)
              × ((x : ConsolidationRun)
                  → In x (values runs)
                  → x.namespace ≡ namespace
                  → x.started_at ≤ r.started_at))
          × (latest_of kept ≡ none
              → (x : ConsolidationRun) → In x (values runs)
              → x.namespace ≢ namespace)
    of_kept [] all stored owned = (λ r e. cc, λ e x i same. elim (all x i same) [ ])
    of_kept (k ∷ kept) all stored owned = (
      λ r e.
          let one : latest k kept ≡ r = cc e in
          let l : IsLatest r (k ∷ kept) = rw (← one) (latest-IsLatest k kept) in
          (
            All-at (λ x. In x (values runs)) (k ∷ kept) stored l.inside,
            eq_of_== r.namespace namespace (
                All-at (λ (x : ConsolidationRun). (x.namespace == namespace) ≡ true) (k ∷ kept)
                  owned l.inside),
            λ x i same.
                All-at (λ (x : ConsolidationRun). x.started_at ≤ r.started_at) (k ∷ kept) l.newest
                  (all x i same),
          ),
      λ e. cc,
    )
