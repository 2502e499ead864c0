-- ===== src/Consolidation/Trigger/Due.antt =====
-- When `should_consolidate` of src/rootmem/consolidation/trigger.py decides to run.
use rootmem.Base.{
  ℕ, ◌≤◌, ◌<◌, ◌≡◌, refl, sym, ◌∙◌, inl, inr, ◌↔◌, Bool, true, false, Option, none, some, leb,
  arith, Bool-cases,
}
use rootmem.Base.Float.{Float, IsOrdered, ◌≼◌}
use rootmem.Memory.Models.{is_some}
use rootmem.Consolidation.Trigger.{
  TriggerSettings, TriggerReason, by_hand, by_count, by_time, ConsolidationDecision,
  ConsolidationRun, should_consolidate,
}

-- The decision for the reason.
abbrev pub Decides : ConsolidationDecision → Option TriggerReason → Type 0
Decides d reason = (d.should_run ≡ is_some reason) × (d.trigger_reason ≡ reason)

module _ {F : Type 0} ⦃fl : Float F⦄ where
  -- So many hours lie between the start of the run and now.
  abbrev pub hours_since : ℕ → ConsolidationRun → F
  hours_since now run = fl.div (fl.seconds now run.started_at) (fl.of_ℕ 3600)

  -- There was no run before, or it started at least the window ago.
  abbrev pub Waited : TriggerSettings F → ℕ → Option ConsolidationRun → Type 0
  Waited settings now none = Unit
  Waited settings now (some run) = settings.time_window_hours ≼ hours_since now run

  -- What a decision for the reason asks for; no reason stands for a decision against a run.
  abbrev pub IsReason :
      ℕ → Option ConsolidationRun → ℕ → TriggerSettings F → Bool → Option TriggerReason → Type 0
  IsReason count last_run now settings force (some by_hand) = force ≡ true
  IsReason count last_run now settings force (some by_count) =
      (force ≡ false) × (settings.episode_threshold ≤ count)
  IsReason count last_run now settings force (some by_time) =
      (force ≡ false) × (count < settings.episode_threshold) × Waited settings now last_run
  IsReason count last_run now settings force none =
      (force ≡ false) × (count < settings.episode_threshold) × ¬ Waited settings now last_run

  by_window-IsReason :
      (count : ℕ) (now : ℕ) (settings : TriggerSettings F) (last_run : Option ConsolidationRun)
      → leb settings.episode_threshold count ≡ false
      → (reason : Option TriggerReason) × Decides
          (should_consolidate count last_run now settings false)
          reason
        × IsReason count last_run now settings false reason
  unfolding should_consolidate
  by_window-IsReason count now settings none few =
      (some by_time, rw few (refl, refl), (refl, ground arith, tt))
  by_window-IsReason count now settings (some run) few =
      elim (Bool-cases (fl.le settings.time_window_hours (hours_since now run))) [
        | inl over ↦ (some by_time, rw (few, over) (refl, refl), (refl, ground arith, over))
        | inr within ↦
            (none, rw (few, within) (refl, refl), (refl, ground arith, λ h. cc (h, within)))
      ]

  should_consolidate-IsReason :
      (count : ℕ) (last_run : Option ConsolidationRun) (now : ℕ) (settings : TriggerSettings F)
      (force : Bool)
      → (reason : Option TriggerReason) × Decides
          (should_consolidate count last_run now settings force)
          reason
        × IsReason count last_run now settings force reason
  unfolding should_consolidate
  should_consolidate-IsReason count last_run now settings true = (some by_hand, (refl, refl), refl)
  should_consolidate-IsReason count last_run now settings false =
      elim (Bool-cases (leb settings.episode_threshold count)) [
        | inl many ↦ (some by_count, rw many (refl, refl), (refl, ground arith))
        | inr few ↦ by_window-IsReason count now settings last_run few
      ]

  -- No two reasons hold at once.
  same_reason :
      (count : ℕ) (last_run : Option ConsolidationRun) (now : ℕ) (settings : TriggerSettings F)
      (force : Bool) (a b : Option TriggerReason)
      → IsReason count last_run now settings force a
      → IsReason count last_run now settings force b
      → a ≡ b
  same_reason count last_run now settings force none none h g = refl
  same_reason count last_run now settings force (some by_hand) (some by_hand) h g = refl
  same_reason count last_run now settings force (some by_count) (some by_count) h g = refl
  same_reason count last_run now settings force (some by_time) (some by_time) h g = refl
  same_reason count last_run now settings force none (some by_hand) (h, _, _) g = cc (h, g)
  same_reason count last_run now settings force (some by_hand) none h (g, _, _) = cc (h, g)
  same_reason count last_run now settings force (some by_hand) (some by_count) h (g, _) = cc (h, g)
  same_reason count last_run now settings force (some by_count) (some by_hand) (h, _) g = cc (h, g)
  same_reason count last_run now settings force (some by_hand) (some by_time) h (g, _, _) =
      cc (h, g)
  same_reason count last_run now settings force (some by_time) (some by_hand) (h, _, _) g =
      cc (h, g)
  same_reason count last_run now settings force (some by_count) (some by_time) (_, h) (_, g, _) =
      absurd (omega (arith, h, g))
  same_reason count last_run now settings force (some by_time) (some by_count) (_, h, _) (_, g) =
      absurd (omega (arith, h, g))
  same_reason count last_run now settings force (some by_count) none (_, h) (_, g, _) =
      absurd (omega (arith, h, g))
  same_reason count last_run now settings force none (some by_count) (_, h, _) (_, g) =
      absurd (omega (arith, h, g))
  same_reason count last_run now settings force (some by_time) none (_, _, h) (_, _, g) =
      absurd (g h)
  same_reason count last_run now settings force none (some by_time) (_, _, h) (_, _, g) =
      absurd (h g)

module _ {F : Type 0} ⦃fl : Float F⦄ (o : IsOrdered F) where
  -- No fewer hours have gone by since the run, if there is one, at the second time than at the first.
  abbrev pub Passes : Option ConsolidationRun → ℕ → ℕ → Type 0
  Passes none now later = Unit
  Passes (some run) now later = hours_since {F = F} now run ≼ hours_since later run

  Waited-Passes :
      (settings : TriggerSettings F) (last_run : Option ConsolidationRun) (now later : ℕ)
      → Passes last_run now later
      → Waited settings now last_run
      → Waited settings later last_run
  Waited-Passes settings none now later p w = tt
  Waited-Passes settings (some run) now later p w = o.le_trans _ _ _ w p

  still_due :
      (count more : ℕ) (last_run : Option ConsolidationRun) (now later : ℕ)
      (settings : TriggerSettings F) (force : Bool) (reason : TriggerReason)
      → count ≤ more
      → Passes last_run now later
      → IsReason count last_run now settings force (some reason)
      → ¬ IsReason more last_run later settings force none
  still_due count more last_run now later settings force by_hand le p h (f, _, _) = cc (h, f)
  still_due count more last_run now later settings force by_count le p (_, h) (_, g, _) =
      omega (arith, h, g, le)
  still_due count more last_run now later settings force by_time le p (_, _, w) (_, _, no_wait) =
      no_wait (Waited-Passes settings last_run now later p w)

  -- `should_consolidate` decides for a reason, or against a run, exactly when what the reason asks for
  -- holds: `manual` when the run is forced; `count` when it is not and the threshold of episodes is
  -- reached; `time` when neither, and there was no run before or the hours since it are at least the
  -- window; no run when none of these. A run that is due stays due with more episodes, and at a time
  -- when no fewer hours have gone by since the run before.
  pub should_consolidate_iff :
      (count : ℕ) (last_run : Option ConsolidationRun) (now : ℕ) (settings : TriggerSettings F)
      (force : Bool)
      → ((reason : Option TriggerReason)
          → Decides (should_consolidate count last_run now settings force) reason
            ↔ IsReason count last_run now settings force reason)
        × ((more later : ℕ)
            → count ≤ more
            → Passes last_run now later
            → (should_consolidate count last_run now settings force).should_run ≡ true
            → (should_consolidate more last_run later settings force).should_run ≡ true)
  should_consolidate_iff count last_run now settings force =
      let (reason, given, holds) = should_consolidate-IsReason count last_run now settings force in
      (
        λ other. (
          λ d. rw (sym d.1 ∙ given.1) holds,
          λ h. rw (same_reason count last_run now settings force other reason h holds) given,
        ),
        λ more later le p due.
            let (then_reason, then_given, then_holds) =
              should_consolidate-IsReason more last_run later settings force in
            by_reasons more later reason then_reason le p (sym given.0 ∙ due) holds then_given
              then_holds,
      )
    where
      by_reasons :
          (more later : ℕ) (a b : Option TriggerReason)
          → count ≤ more
          → Passes last_run now later
          → is_some a ≡ true
          → IsReason count last_run now settings force a
          → Decides (should_consolidate more last_run later settings force) b
          → IsReason more last_run later settings force b
          → (should_consolidate more last_run later settings force).should_run ≡ true
      by_reasons more later none b le p due h d g = cc due
      by_reasons more later (some a) (some b) le p due h d g = d.0
      by_reasons more later (some a) none le p due h d g =
          absurd (still_due count more last_run now later settings force a le p h g)
