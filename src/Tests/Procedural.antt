-- ===== src/Tests/Procedural.antt =====
-- A skill that is distilled a second time.
use rootmem.Base.{
  ℕ, String, ◌≡◌, refl, none, some, ok, true, [], ◌∷◌, string_eq, ◌==◌, sym, ◌∙◌, inl, inr,
  Bool-cases, eq_of_==,
}
use rootmem.Base.Dict
use rootmem.Tests.Numbers.{number}
use rootmem.Procedural.Models.{ProceduralMemoryRecord, NewProceduralMemory, skill}
use rootmem.Procedural.Repository.{Procedures, stored, create, get_by_name}
use rootmem.Extraction.Contradiction.{apply_evidence}
use rootmem.Tools.Skills.{ReportSkillOutcomeParams, ReportSkillOutcomeResult, report_skill_outcome}
use rootmem.Tools.Skills.Reported.{KeepsBelief, IsReport, report_skill_outcome-IsReport}
use rootmem.Procedural.Active.{IsProcedures, create-IsProcedures, get_by_name-create}

abbrev deploy : NewProceduralMemory ℕ
deploy = record {
  namespace = "default";
  kind = skill;
  name = "deploy";
  description = "d";
  body_markdown = "b";
  content_embedding = none;
}

abbrev one_skill : Procedures ℕ
one_skill = record { records = ("p1", stored "p1" 1 deploy none) ∷ []; provenance = [] }

only_key :
    (i : String) (r : ProceduralMemoryRecord ℕ) → Dict.get one_skill.records i ≡ some r → i ≡ "p1"
unfolding Dict.get
only_key i r g = elim (Bool-cases ("p1" == i)) [
  | inl same ↦ sym (eq_of_== "p1" i same)
  | inr differ ↦ let q : none ≡ some r = rw differ at g in cc q
]

one_skill-IsProcedures : IsProcedures one_skill
unfolding Dict.get
one_skill-IsProcedures = record {
  keyed = (refl, refl, tt);
  one_active = λ i j r s g g' a b p q. only_key i r g ∙ sym (only_key j s g');
}

create-IsProcedures_example : IsProcedures (create "p2" 5 one_skill deploy).0
create-IsProcedures_example = create-IsProcedures "p2" 5 one_skill deploy one_skill-IsProcedures

free_id : Dict.get one_skill.records "p2" ≡ none
unfolding Dict.get
free_id = refl

get_by_name-create_example :
    get_by_name (create "p2" 5 one_skill deploy).0 "default" "deploy"
    ≡ some (create "p2" 5 one_skill deploy).1
get_by_name-create_example =
    get_by_name-create "p2" 5 one_skill deploy one_skill-IsProcedures free_id

keeps_belief :
    (r : ProceduralMemoryRecord ℕ)
    → get_by_name one_skill "default" "deploy" ≡ some r
    → KeepsBelief 1 1 true r
unfolding get_by_name apply_evidence
keeps_belief r q = let p : stored "p1" 1 deploy none ≡ r = cc q in rw (← p) (refl, refl)

abbrev report : ReportSkillOutcomeParams
report = record { name = "deploy"; namespace = "default"; success = true }

report_skill_outcome-IsReport_example :
    (a : Procedures ℕ × ReportSkillOutcomeResult ℕ) × (report_skill_outcome one_skill report 1 1
      ≡ (a.0, ok a.1))
    × IsReport 1 1 one_skill report a
report_skill_outcome-IsReport_example =
    report_skill_outcome-IsReport one_skill report 1 1 one_skill-IsProcedures keeps_belief
