-- ===== src/Tools/Skills/Reported.antt =====
-- What `report_skill_outcome` of src/rootmem/integration/mcp/tools/report_skill_outcome.py changes.
use rootmem.Base.{
  ◌+◌, String, ◌≡◌, ◌≢◌, arith, ==_ne, refl, sym, ap, ◌∙◌, Bool, true, false, Option, none, some,
  ok, string_eq, bind_ok,
}
use rootmem.Base.Dict
use rootmem.Extraction.Contradiction.{apply_evidence}
use rootmem.Base.Dict.{get-put_self, get-put_ne, Dict, values}
use rootmem.Base.Float.{Float}
use rootmem.Procedural.Models.{ProceduralMemoryRecord}
use rootmem.Procedural.Repository.{Procedures, get_by_name, credited, record_outcome}
use rootmem.Procedural.Active.{IsProcedures, get_by_name-stored}
use rootmem.Retrieval.Trust.{skill_effectiveness}
use rootmem.Tools.Skills.{
  GetSkillParams, ReportSkillOutcomeParams, ReportSkillOutcomeResult, get_skill, deltas, report_of,
  report_skill_outcome,
}
use rootmem.Tools.Skills.Shown.{get_skill-credited}

module _ {F : Type 0} ⦃fl : Float F⦄ where
  -- The evidence leaves both weights of the belief positive.
  abbrev pub KeepsBelief : F → F → Bool → ProceduralMemoryRecord F → Type 0
  KeepsBelief reliability prior_strength success r =
      let delta = deltas reliability prior_strength success in
      (fl.le (fl.add r.belief_alpha delta.0) (fl.of_ℕ 0) ≡ false)
      × (fl.le (fl.add r.belief_beta delta.1) (fl.of_ℕ 0) ≡ false)

  -- The evidence of one outcome: its weight, put on one side, beside none on the other.
  abbrev full : F → F → F
  full reliability prior_strength =
      fl.add (fl.of_ℕ 0) (fl.mul (fl.mul reliability prior_strength) (fl.of_ℕ 1))

  abbrev rest : F → F → F
  rest reliability prior_strength =
      fl.add (fl.of_ℕ 0)
        (fl.mul (fl.mul reliability prior_strength) (fl.sub (fl.of_ℕ 1) (fl.of_ℕ 1)))

  -- A success counts for alpha, a failure for beta.
  abbrev pub Counts : F → F → Bool → ProceduralMemoryRecord F → ProceduralMemoryRecord F → Type 0
  Counts reliability prior_strength true r u =
      (u.belief_alpha ≡ fl.add r.belief_alpha (full reliability prior_strength))
      × (u.belief_beta ≡ fl.add r.belief_beta (rest reliability prior_strength))
      × (u.success_count ≡ r.success_count + 1)
  Counts reliability prior_strength false r u =
      (u.belief_alpha ≡ fl.add r.belief_alpha (rest reliability prior_strength))
      × (u.belief_beta ≡ fl.add r.belief_beta (full reliability prior_strength))
      × (u.success_count ≡ r.success_count)

  -- The row after the report: one application more, the evidence, and nothing else.
  pub record IsCredited (reliability prior_strength : F) (success : Bool)
      (r u : ProceduralMemoryRecord F) : Type 0 where
    pub applied : u.applied_count ≡ r.applied_count + 1
    pub counts : Counts reliability prior_strength success r u
    pub unchanged : u ≡ record r {
      belief_alpha = u.belief_alpha;
      belief_beta = u.belief_beta;
      applied_count = u.applied_count;
      success_count = u.success_count;
    }

  credited-IsCredited :
      (reliability prior_strength : F) (success : Bool) (r : ProceduralMemoryRecord F)
      → IsCredited reliability prior_strength success r (
          credited success
            (deltas reliability prior_strength success).0
            (deltas reliability prior_strength success).1
            r)
  unfolding apply_evidence
  credited-IsCredited reliability prior_strength true r = record {
    applied = refl;
    counts = (refl, refl, refl);
    unchanged = refl;
  }
  credited-IsCredited reliability prior_strength false r = record {
    applied = refl;
    counts = (refl, refl, omega arith);
    unchanged = refl;
  }

  -- What the report leaves and answers.
  pub record IsReport (reliability prior_strength : F) (procedures : Procedures F)
      (params : ReportSkillOutcomeParams) (a : Procedures F × ReportSkillOutcomeResult F)
      : Type 0 where
    pub served : (q : GetSkillParams) → get_skill a.0 q ≡ get_skill procedures q
    pub found :
        a.1.found
        ≡ (get_skill procedures (record { name = params.name; namespace = params.namespace })).found
    pub stored :
        (r : ProceduralMemoryRecord F)
        → get_by_name procedures params.namespace params.name ≡ some r
        → (u : ProceduralMemoryRecord F) × (Dict.get a.0.records r.id ≡ some u)
          × IsCredited reliability prior_strength params.success r u
          × (a.1.applied_count ≡ u.applied_count)
          × (a.1.success_count ≡ u.success_count)
          × ((id : String) → id ≢ r.id → Dict.get a.0.records id ≡ Dict.get procedures.records id)
    pub unknown : get_by_name procedures params.namespace params.name ≡ none → a.0 ≡ procedures
    pub provenance : a.0.provenance ≡ procedures.provenance

  abbrev answer_of : ProceduralMemoryRecord F → F → ReportSkillOutcomeResult F
  answer_of r e = record {
    name = r.name;
    found = true;
    applied_count = r.applied_count;
    success_count = r.success_count;
    effectiveness = some e;
  }

  effectiveness-ok :
      (alpha beta : F)
      → fl.le alpha (fl.of_ℕ 0) ≡ false
      → fl.le beta (fl.of_ℕ 0) ≡ false
      → (e : F) × (skill_effectiveness alpha beta ≡ ok e)
  unfolding skill_effectiveness
  effectiveness-ok alpha beta p q = (fl.div alpha (fl.add alpha beta), rw (p, q) refl)

  -- Where every row stands under its id, a name has at most one active row, and the evidence leaves the
  -- belief in the row positive, `report_skill_outcome` does not raise. It finds the name exactly when
  -- `get_skill` does. Then the row that is stored has one application more and the weight of the
  -- evidence on alpha with one success more, or, if it was a failure, on beta; nothing else of the row
  -- and no other row changes, and the counts of the row are answered. If the name is unknown, nothing
  -- changes. What `get_skill` answers stays the same for every name.
  pub report_skill_outcome-IsReport :
      (procedures : Procedures F) (params : ReportSkillOutcomeParams)
      (reliability prior_strength : F)
      → IsProcedures procedures
      → ((r : ProceduralMemoryRecord F)
          → get_by_name procedures params.namespace params.name ≡ some r
          → KeepsBelief reliability prior_strength params.success r)
      → (a : Procedures F × ReportSkillOutcomeResult F) × (report_skill_outcome procedures params
            reliability prior_strength
          ≡ (a.0, ok a.1))
        × IsReport reliability prior_strength procedures params a
  unfolding report_skill_outcome record_outcome get_skill
  report_skill_outcome-IsReport procedures params reliability prior_strength h keeps =
      by_row (get_by_name procedures params.namespace params.name) refl
    where
      by_row :
          (found : Option (ProceduralMemoryRecord F))
          → get_by_name procedures params.namespace params.name ≡ found
          → (a : Procedures F × ReportSkillOutcomeResult F) × (report_skill_outcome procedures
                params reliability prior_strength
              ≡ (a.0, ok a.1))
            × IsReport reliability prior_strength procedures params a
      by_row none q = (
        (
          procedures,
          record {
            name = params.name;
            found = false;
            applied_count = 0;
            success_count = 0;
            effectiveness = none;
          },
        ),
        rw (q, record_outcome) refl,
        record {
          served = λ p. refl;
          found = rw (q, get_skill) refl;
          stored = λ r e. cc (q, e);
          unknown = λ e. refl;
          provenance = refl;
        },
      )
      by_row (some r) q =
          let delta = deltas reliability prior_strength params.success in
          let (ka, kb) = keeps r q in
          let (e, effective) =
            effectiveness-ok (fl.add r.belief_alpha delta.0) (fl.add r.belief_beta delta.1) ka kb in
          let updated = credited params.success delta.0 delta.1 r in
          let g = get_by_name-stored procedures params.namespace params.name r h q in
          let done : report_of updated ≡ ok (answer_of updated e) = bind_ok _ _ effective refl in
          (
            (
              record procedures { records = Dict.put procedures.records r.id updated },
              answer_of updated e,
            ),
            rw (q, record_outcome)
                (ap
                  (λ x.
                    (record procedures { records = Dict.put procedures.records r.id updated }, x))
                  done),
            record {
              served = λ p. get_skill-credited procedures params.success delta.0 delta.1 r p g.0;
              found = rw (q, get_skill) refl;
              stored = λ s same.
                  let p : some r ≡ some s = sym q ∙ same in
                  let r_s : r ≡ s = cc p in
                  rw (← r_s) (
                    updated,
                    get-put_self procedures.records r.id updated,
                    credited-IsCredited reliability prior_strength params.success r,
                    refl,
                    refl,
                    λ id n.
                        get-put_ne procedures.records r.id id updated
                          (==_ne r.id id (λ t. n (sym t))),
                  );
              unknown = λ none_. cc (q, none_);
              provenance = refl;
            },
          )
