-- ===== src/Consolidation/Distill/Marks.antt =====
-- The rows of the memories and of the runs in a pass of src/rootmem/consolidation/distill.py.
use rootmem.Base.{
  ℕ, suc, String, ◌≡◌, refl, true, some, List, [], ◌∷◌, string_eq, ok, All, All-map_imp, All-In,
  All-take, All-keep, In,
}
use rootmem.Base.Dict
use rootmem.Base.Dict.{Dict, values, get-put_self}
use rootmem.Base.Dict.Keyed.{get-In}
use rootmem.Base.Float.{Float}
use rootmem.Base.Sort.{All-sort}
use rootmem.Memory.Models.{MemoryRecord, is_some}
use rootmem.Memory.Repository.{
  Records, list_unconsolidated, update_salience, mark_consolidated, unconsolidated, created_before,
}
use rootmem.Memory.Repository.Search.{find_similar_pairs}
use rootmem.Memory.Creation.{IsStore, id_of}
use rootmem.Memory.Batches.{marked, mark_consolidated_lem}
use rootmem.Memory.Salience.{
  Scored, Scored-content, update_salience-IsStore, update_salience-Scored,
}
use rootmem.Consolidation.Runs.{Runs, Counts, complete_run, completed}
use rootmem.Consolidation.Trigger.{ConsolidationRun}
use rootmem.Consolidation.Distill.State.{Services, Stores}
use rootmem.Consolidation.Distill.Facts.{score_episodes, salience_of}
use rootmem.Consolidation.Distill.{finish, similar_pairs}

abbrev pub episode_id : {F : Type 0} → MemoryRecord F → String
episode_id e = e.id

module _ {F : Type 0} where
  abbrev pub IsHere : Records F → MemoryRecord F → Type 0
  IsHere records e = (x : MemoryRecord F) × (Dict.get records e.id ≡ some x) × Scored e x

module _ {F : Type 0} where
  -- The episodes of a batch are stored rows.
  pub list_unconsolidated-stored :
      (records : Records F) (namespace : String) (limit : ℕ)
      → IsStore records
      → All (IsHere records) (list_unconsolidated records namespace limit)
  unfolding list_unconsolidated
  list_unconsolidated-stored records namespace limit s = All-take (IsHere records) limit _ (
      All-sort created_before (IsHere records) _ (
        All-keep (IsHere records) (unconsolidated namespace) (values records) (
          All-map_imp (λ e i. (e, get-In id_of records s i, Scored.same)) (values records)
            (All-In (values records)))))

module _ {F : Type 0} ⦃fl : Float F⦄ (services : Services F) where
  pub score_episodes-IsHere :
      (records : Records F) (similarities : Dict String (List F)) (todo : List (MemoryRecord F))
      (e : MemoryRecord F)
      → IsHere records e
      → IsHere (score_episodes services records similarities todo) e
  unfolding score_episodes
  score_episodes-IsHere records similarities [] e h = h
  score_episodes-IsHere records similarities (d ∷ todo) e (x, g, h) =
      score_episodes-IsHere (update_salience records d.id (salience_of services similarities d))
        similarities todo e
        (update_salience-Scored records d.id e.id (salience_of services similarities d) e x g h)

  pub score_episodes-IsStore :
      (records : Records F) (similarities : Dict String (List F)) (todo : List (MemoryRecord F))
      → IsStore records
      → IsStore (score_episodes services records similarities todo)
  unfolding score_episodes
  score_episodes-IsStore records similarities [] s = s
  score_episodes-IsStore records similarities (d ∷ todo) s =
      score_episodes-IsStore (update_salience records d.id (salience_of services similarities d))
        similarities todo
        (update_salience-IsStore records d.id (salience_of services similarities d) s)

  -- An episode whose row says that it is consolidated, with the content that it had.
  abbrev pub IsMarked : Records F → MemoryRecord F → Type 0
  IsMarked records e =
      (x : MemoryRecord F) × (Dict.get records e.id ≡ some x)
      × (is_some x.consolidated_at ≡ true)
      × (x.content ≡ e.content)

  mark-IsMarked :
      (records : Records F) (ids : List String) (now : ℕ) (e : MemoryRecord F)
      → In e.id ids
      → IsHere records e
      → IsMarked (mark_consolidated records ids now) e
  mark-IsMarked records ids now e i (x, g, h) = (
    marked now x,
    (mark_consolidated_lem records ids now e.id x g).0 i,
    refl,
    Scored-content e x h,
  )

  complete_run-ok :
      (now : ℕ) (runs : Runs) (id : String) (counts : Counts) (run : ConsolidationRun)
      → Dict.get runs id ≡ some run
      → complete_run now runs id counts
        ≡ ok (Dict.put runs id (completed now counts run), completed now counts run)
  unfolding complete_run
  complete_run-ok now runs id counts run g = rw (g, complete_run) refl

  abbrev pub finished : Stores F → String → Counts → ConsolidationRun → Stores F × ConsolidationRun
  finished s id counts run = (
    record s {
      runs = Dict.put s.runs id (completed (services.supply.clock s.drawn) counts run);
      drawn = suc s.drawn;
    },
    completed (services.supply.clock s.drawn) counts run,
  )

  pub marked_all :
      (records : Records F) (ids : List String) (now : ℕ) (episodes : List (MemoryRecord F))
      → All (λ e. In (episode_id e) ids) episodes
      → All (IsHere records) episodes
      → All (IsMarked (mark_consolidated records ids now)) episodes
  marked_all records ids now [] i h = tt
  marked_all records ids now (e ∷ episodes) (i, is) (h, hs) =
      (mark-IsMarked records ids now e i h, marked_all records ids now episodes is hs)

  pub finish-ok :
      (s : Stores F) (id : String) (counts : Counts) (run : ConsolidationRun)
      → Dict.get s.runs id ≡ some run
      → finish services s id counts ≡ ok (finished s id counts run)
  unfolding finish
  finish-ok s id counts run g =
      rw (complete_run-ok (services.supply.clock s.drawn) s.runs id counts run g, finish) refl

  pub similar_pairs-ok :
      (s : Stores F) (namespace : String) (ids : List String) {ps : List (String × String × F)}
      → find_similar_pairs s.memories namespace ids (fl.of_ℕ 0) ≡ ok ps
      → similar_pairs services s namespace ids ≡ ok ps
  similar_pairs-ok s namespace ids q = rw (q, similar_pairs) refl
