-- ===== src/Rumination/Pass.antt =====
-- What a pass of src/rootmem/rumination/run.py leaves.
use mathlib.Core.Option
use rootmem.Base.{
  ℕ, suc, ◌+◌, ◌≤◌, String, ◌≡◌, refl, true, false, Option, none, some, [], ◌∷◌, length, arith,
  Bool-cases, Option-cases, inl, inr, Result, ok, raise, All, Ensures,
}
use rootmem.Base.Float.{Float, IsOrdered, IsMonotone}
use rootmem.Base.Json.{Fields, end, field, text}
use rootmem.Graph.Models.{RelationRecord}
use rootmem.Graph.Repository.{Graph, NotFound, list_contested}
use rootmem.Graph.Repository.Rows.{IsGraph, resolve_contest-IsGraph}
use rootmem.Audit.Chain.{Hashing}
use rootmem.Audit.Log.{AuditRecorder, AuditLog, record_entry}
use rootmem.Audit.Append.{IsLog, append-IsLog}
use rootmem.Rumination.Reconcile.{
  ReconciliationDecision, resolve, still_contested, decide_reconciliation, decayed_confidence,
}
use rootmem.Retrieval.Ranking
use rootmem.Retrieval.Decay.{RetentionParams, init}
use rootmem.Rumination.Run.{
  value_error, starting, ruminated, PassSettings, Pairs, Pass, group_pairs, older_newer,
  skip_ambiguous, examine, skip_young, resolved_to, too_young, settle_pair, act, pair_step,
  ruminate_groups, run_rumination_pass,
}
use rootmem.Rumination.Groups.{
  Has, Stays, IsGroup, IsGroup-Stays, older_newer-All, list_contested-IsGroup,
  resolve_contest-Stays,
}

module _ {P : Type 0} (h : Hashing P) where
  -- The log that the recorder writes to, if any, is well-formed.
  abbrev pub IsRecorded : Option (AuditLog P) → Type 0
  IsRecorded none = Unit
  IsRecorded (some log) = IsLog h log

  pub record_entry-IsRecorded :
      (empty : P) (now : ℕ) (recorder : AuditRecorder P) (namespace action target_type : String)
      (target_id : Option String) (payload : Option P) (actor : Option String)
      → IsRecorded recorder.repository
      → IsRecorded
          (record_entry h empty now recorder namespace action target_type target_id payload
            actor).repository
  unfolding record_entry
  record_entry-IsRecorded empty now recorder namespace action target_type target_id payload actor
        v =
      elim (Option-cases recorder.repository) [
        | inl off ↦ rw (off, record_entry) v
        | inr (log, on) ↦
            rw (on, record_entry)
              (append-IsLog h now log namespace (Option.get_or actor recorder.actor) action
                target_type target_id (Option.get_or payload empty) none (rw on at v))
      ]

module _ {F : Type 0} ⦃fl : Float F⦄ (o : IsOrdered F) (m : IsMonotone F) (h : Hashing (Fields F))
    (clock : ℕ → ℕ) (s : PassSettings F) where
  -- After so many groups; `slack` pairs are examined and not yet counted as resolved or too young.
  pub record IsPass (done slack : ℕ) (p : Pass F) : Type 0 where
    pub graph : IsGraph o m p.graph
    pub recorded : IsRecorded h p.recorder.repository
    pub counted : p.summary.pairs_examined + p.summary.pairs_skipped_ambiguous ≡ done
    pub bounded :
        p.summary.pairs_resolved + p.summary.pairs_skipped_too_young + slack
        ≤ p.summary.pairs_examined

  abbrev Next : ℕ → Pass F → Result NotFound (Pass F) → Type 0
  Next done p r = (p' : Pass F) × (r ≡ ok p') × IsPass done 0 p' × Stays p.graph p'.graph

  settle_pair-Next :
      (done : ℕ) (p : Pass F) (namespace winner_id loser_id : String)
      → IsPass done 1 p
      → Has p.graph namespace winner_id
      → Has p.graph namespace loser_id
      → Next done p (settle_pair h clock s p namespace winner_id loser_id)
  unfolding settle_pair
  settle_pair-Next done p namespace winner_id loser_id v w l =
      let (g, e, stays) = resolve_contest-Stays p.graph namespace winner_id loser_id s.now w l in
      let kept : Ensures {E = NotFound} (IsGraph o m) (ok g) =
        rw e at (resolve_contest-IsGraph o m p.graph namespace winner_id loser_id s.now v.graph) in
      let recorder =
        record_entry h end (clock p.summary.pairs_resolved) p.recorder namespace "ruminate_resolve"
          "relation" (some winner_id) (some (field "loser_id" (text loser_id) end)) none in
      (
        resolved_to g recorder p,
        rw (e, settle_pair) refl,
        record {
          graph = kept;
          recorded =
              record_entry-IsRecorded h end (clock p.summary.pairs_resolved) p.recorder namespace
                "ruminate_resolve" "relation" (some winner_id)
                (some (field "loser_id" (text loser_id) end)) none v.recorded;
          counted = v.counted;
          bounded = omega (arith, v.bounded);
        },
        stays,
      )

  act-Next :
      (done : ℕ) (p : Pass F) (namespace : String) (d : ReconciliationDecision)
      → IsPass done 1 p
      → ((w l : String) → d ≡ resolve w l → Has p.graph namespace w × Has p.graph namespace l)
      → Next done p (act h clock s p namespace d)
  act-Next done p namespace still_contested v found = (
    p,
    refl,
    record {
      graph = v.graph;
      recorded = v.recorded;
      counted = v.counted;
      bounded = omega (arith, v.bounded);
    },
    λ n i x. x,
  )
  act-Next done p namespace (resolve w l) v found =
      settle_pair-Next done p namespace w l v (found w l refl).0 (found w l refl).1

  -- The ids of a decision are those of the pair.
  decided :
      (decay_params : RetentionParams F) (K : String → Type 0) (older newer : RelationRecord F)
      (w l : String)
      → K older.id
      → K newer.id
      → decide_reconciliation older newer s.now decay_params s.supersede_margin ≡ resolve w l
      → K w × K l
  unfolding decide_reconciliation
  decided decay_params K older newer w l ko kn e =
      let d_older = decayed_confidence older s.now decay_params in
      let d_newer = decayed_confidence newer s.now decay_params in
      elim (Bool-cases (fl.lt (fl.add d_older s.supersede_margin) d_newer)) [
        | inl newer_wins ↦ named newer.id older.id kn ko (rw newer_wins at e)
        | inr not_newer ↦ elim (Bool-cases (fl.lt (fl.add d_newer s.supersede_margin) d_older)) [
          | inl older_wins ↦ named older.id newer.id ko kn (rw (not_newer, older_wins) at e)
          | inr neither ↦ absurd (undecided (rw (not_newer, neither) at e))
        ]
      ]
    where
      named : (x y : String) → K x → K y → resolve x y ≡ resolve w l → K w × K l
      named x y kx ky q = let a : x ≡ w = cc q in let b : y ≡ l = cc q in (rw (← a) kx, rw (← b) ky)

      undecided : ¬ (still_contested ≡ resolve w l)
      undecided q = cc

  pair_step-Next :
      (decay_params : RetentionParams F) (done : ℕ) (p : Pass F) (namespace : String)
      (q : Option (RelationRecord F × RelationRecord F))
      → IsPass done 0 p
      → ((a b : RelationRecord F)
          → q ≡ some (a, b)
          → Has p.graph namespace a.id × Has p.graph namespace b.id)
      → Next (suc done) p (pair_step h clock s decay_params p namespace q)
  pair_step-Next decay_params done p namespace none v found = (
    skip_ambiguous p,
    refl,
    record {
      graph = v.graph;
      recorded = v.recorded;
      counted = omega (arith, v.counted);
      bounded = omega (arith, v.bounded);
    },
    λ n i x. x,
  )
  pair_step-Next decay_params done p namespace (some (older, newer)) v found =
      elim (Bool-cases (too_young h clock s newer)) [
        | inl young ↦ rw young (
          skip_young (examine p),
          refl,
          record {
            graph = v.graph;
            recorded = v.recorded;
            counted = omega (arith, v.counted);
            bounded = omega (arith, v.bounded);
          },
          λ n i x. x,
        )
        | inr ripe ↦
            let (ko, kn) = found older newer refl in
            rw ripe (
              act-Next (suc done) (examine p) namespace
                (decide_reconciliation older newer s.now decay_params s.supersede_margin)
                (record {
                  graph = v.graph;
                  recorded = v.recorded;
                  counted = omega (arith, v.counted);
                  bounded = omega (arith, v.bounded);
                })
                (λ w l e. decided decay_params (Has p.graph namespace) older newer w l ko kn e))
      ]

  ruminate_groups-IsPass :
      (decay_params : RetentionParams F) (done : ℕ) (p : Pass F) (groups : Pairs F)
      → IsPass done 0 p
      → All (IsGroup p.graph) groups
      → (p' : Pass F) × (ruminate_groups h clock s decay_params p groups ≡ ok p')
        × IsPass (done + length groups) 0 p'
  unfolding ruminate_groups
  ruminate_groups-IsPass decay_params done p [] v g = (
    p,
    refl,
    record {
      graph = v.graph;
      recorded = v.recorded;
      counted = omega (arith, v.counted);
      bounded = v.bounded;
    },
  )
  ruminate_groups-IsPass decay_params done p (((namespace, rest), members) ∷ groups) v (g, gs) =
      let (p1, e, v1, stays) =
        pair_step-Next decay_params done p namespace (older_newer members) v
          (λ a b q. older_newer-All (λ r. Has p.graph namespace r.id) members a b g q) in
      let (p2, e2, v2) =
        ruminate_groups-IsPass decay_params (suc done) p1 groups v1
          (IsGroup-Stays p.graph p1.graph groups stays gs) in
      (
        p2,
        rw (e, ruminate_groups) e2,
        record {
          graph = v2.graph;
          recorded = v2.recorded;
          counted = omega (arith, v2.counted);
          bounded = v2.bounded;
        },
      )

  -- Where the base stability is positive, `run_rumination_pass` from a well-formed graph and audit log
  -- does not raise and leaves both well-formed. Each group of contested relations is counted once, as
  -- examined or as ambiguous, and at most as many pairs are resolved or skipped as too young as are
  -- examined. Where the base stability is not positive, it raises `ValueError`.
  pub run_rumination_pass-IsPass :
      (graph : Graph F) (recorder : AuditRecorder (Fields F)) (namespace : Option String)
      → IsGraph o m graph
      → IsRecorded h recorder.repository
      → (fl.le s.decay_base_stability_days (fl.of_ℕ 0) ≡ false
          → (p : Pass F) × (run_rumination_pass h clock s graph recorder namespace ≡ ok p)
            × IsPass (0 + length (group_pairs [] (list_contested graph namespace))) 0 p)
        × (fl.le s.decay_base_stability_days (fl.of_ℕ 0) ≡ true
            → run_rumination_pass h clock s graph recorder namespace
              ≡ raise (value_error Ranking.value_error))
  unfolding run_rumination_pass init
  run_rumination_pass-IsPass graph recorder namespace g r = (
    λ positive.
        let (p, e, v) =
          ruminate_groups-IsPass (record { base_stability_days = s.decay_base_stability_days }) 0
            (starting h clock s graph recorder) (group_pairs [] (list_contested graph namespace))
            (record { graph = g; recorded = r; counted = refl; bounded = omega arith })
            (list_contested-IsGroup graph namespace g.keyed) in
        (p, rw (positive, run_rumination_pass) (rw (e, ruminated) refl), v),
    λ refused. rw (refused, run_rumination_pass) refl,
  )
