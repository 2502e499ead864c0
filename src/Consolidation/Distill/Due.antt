-- ===== src/Consolidation/Distill/Due.antt =====
-- `maybe_run_consolidation` of src/rootmem/consolidation/distill.py.
use rootmem.Base.{
  ℕ, suc, String, ◌≡◌, refl, Bool, true, false, Option, none, some, ok, ◌⊎◌, inl, inr, arith,
  Bool-cases, All, leb, bind_ok, string_eq,
}
use rootmem.Base.Dict.{values}
use rootmem.Base.Float.{Float, IsOrdered, IsMonotone}
use rootmem.Memory.Creation.{IsStore}
use rootmem.Consolidation.Trigger.{
  TriggerReason, TriggerSettings, ConsolidationRun, ConsolidationDecision, run_for, window_passed,
  by_last_run, should_consolidate,
}
use rootmem.Consolidation.Distill.State.{Services, Stores}
use rootmem.Consolidation.Distill.{decision_for, maybe_run_consolidation}
use rootmem.Memory.Vectors.{IsEmbedded}
use rootmem.Consolidation.Distill.Served.{IsServed, IsWritable}
use rootmem.Consolidation.Distill.Pass.{IsCompleted, run_consolidation-IsCompleted}

-- A decision to run has its reason.
abbrev IsDecision : ConsolidationDecision → Type 0
IsDecision d = (d.should_run ≡ false) ⊎ ((reason : TriggerReason) × (d ≡ run_for reason))

module _ {F : Type 0} ⦃fl : Float F⦄ where
  by_last_run-IsDecision :
      (settings : TriggerSettings F) (now : ℕ) (last_run : Option ConsolidationRun)
      → IsDecision (by_last_run settings now last_run)
  by_last_run-IsDecision settings now none = inr (_, refl)
  by_last_run-IsDecision settings now (some run) =
      elim (Bool-cases (window_passed settings now run)) [
        | inl t ↦ rw t (inr (_, refl))
        | inr f ↦ rw f (inl refl)
      ]

  should_consolidate-IsDecision :
      (n : ℕ) (last_run : Option ConsolidationRun) (now : ℕ) (settings : TriggerSettings F)
      (force : Bool)
      → IsDecision (should_consolidate n last_run now settings force)
  unfolding should_consolidate
  should_consolidate-IsDecision n last_run now settings true = inr (_, refl)
  should_consolidate-IsDecision n last_run now settings false =
      elim (Bool-cases (leb settings.episode_threshold n)) [
        | inl t ↦ rw t (inr (_, refl))
        | inr f ↦ rw f (by_last_run-IsDecision settings now last_run)
      ]

module _ {F : Type 0} ⦃fl : Float F⦄ (o : IsOrdered F) (m : IsMonotone F) (services : Services F)
    (dimension : ℕ) (served : IsServed o m services dimension) where
  -- The stores after the clock was read.
  abbrev pub ticked : Stores F → Stores F
  ticked s = record s { drawn = suc s.drawn }

  -- No run where none is due, and the stores as they were; or one complete run for the reason that
  -- was decided.
  abbrev pub IsAnswer :
      Stores F → String → ConsolidationDecision → Stores F × Option ConsolidationRun → Type 0
  IsAnswer s namespace decision r =
      ((decision.should_run ≡ false) × (r ≡ (s, none)))
      ⊎ ((reason : TriggerReason) × (run : ConsolidationRun) × (decision ≡ run_for reason)
          × (r.1 ≡ some run)
          × IsCompleted o m services dimension served s namespace reason (r.0, run))

  -- Under the conditions of a pass, `maybe_run_consolidation` returns, and never meets its assertion.
  -- Either the trigger decides against a run, and then no run is returned and nothing is written; or
  -- it decides for one, and then the run that is returned was completed for the reason decided.
  pub maybe_run_consolidation-IsAnswer :
      (s : Stores F) (namespace : String) (force : Bool)
      → IsStore s.memories
      → All (IsEmbedded dimension) (values s.memories)
      → IsWritable o m services s
      → (r : Stores F × Option ConsolidationRun) × (maybe_run_consolidation services s namespace
            force
          ≡ ok r)
        × IsAnswer (ticked s) namespace (decision_for services s namespace force) r
  unfolding maybe_run_consolidation
  maybe_run_consolidation-IsAnswer s namespace force store vectors w =
      elim (should_consolidate-IsDecision _ _ _ services.settings.trigger force) [
        | inl off ↦ ((ticked s, none), rw off refl, inl (off, refl))
        | inr (reason, on) ↦
            let (r, q, done) =
              run_consolidation-IsCompleted o m services dimension served (ticked s) namespace
                reason store vectors
                (record {
                  graph = w.graph;
                  entities = w.entities;
                  unused = λ n le. w.unused n (omega (arith, le));
                  procedures = w.procedures;
                }) in
            ((r.0, some r.1), rw on (bind_ok _ _ q refl), inr (reason, r.1, on, refl, done))
      ]
