-- ===== src/Tools/Skills.antt =====
-- src/rootmem/integration/mcp/tools: `get_skill`, `find_skill` and `report_skill_outcome`, with their
-- classes in schemas.py.
pub mod Shown
pub mod Reported
use rootmem.Base.{
  ℕ, ◌*◌, String, Bool, true, false, Option, none, some, List, [], ◌∷◌, Result, ok, raise, ◌>>=◌,
  cons_ok, map, take, string_eq,
}
use rootmem.Base.Float.{Float}
use rootmem.Base.Sort.{sort}
use rootmem.Base.Text.{Text}
use rootmem.Embedding.{EmbeddingProvider, IndexError, embed_or_none}
use rootmem.Extraction.Contradiction.{apply_evidence}
use rootmem.Consolidation.SkillFormat.{render_skill_markdown}
use rootmem.Procedural.Models.{Kind, ProceduralMemoryRecord, ProceduralSearchResult}
use rootmem.Procedural.Repository.{Procedures, get_by_name, record_outcome, search_hybrid}
use rootmem.Retrieval.Ranking.{ValueError, RankTerms, RankWeights, RankedScore, Term, rank_score}
use rootmem.Retrieval.Rerank.{RankingContext}
use rootmem.Retrieval.Trust.{skill_effectiveness}

pub record GetSkillParams : Type 0 where
  pub name : String
  pub namespace : String

pub record GetSkillResult : Type 0 where
  pub found : Bool
  pub kind : Option Kind
  pub markdown : Option String

-- The kind `none` is "all".
pub record FindSkillParams : Type 0 where
  pub query : String
  pub namespace : String
  pub kind : Option Kind
  pub limit : ℕ

pub record SkillSearchResultItem (F : Type 0) : Type 0 where
  pub name : String
  pub kind : Kind
  pub description : String
  pub score : F
  pub effectiveness : Option F
  pub breakdown : Option (List (Term × F))

pub record ReportSkillOutcomeParams : Type 0 where
  pub name : String
  pub namespace : String
  pub success : Bool

pub record ReportSkillOutcomeResult (F : Type 0) : Type 0 where
  pub name : String
  pub found : Bool
  pub applied_count : ℕ
  pub success_count : ℕ
  pub effectiveness : Option F

pub data Fault : Type 0 where
  no_vector : IndexError → Fault
  value_error : ValueError → Fault

abbrev pub raising : {A : Type 0} → Result ValueError A → Result Fault A
raising (raise e) = raise (value_error e)
raising (ok a) = ok a

module _ {F : Type 0} where
  abbrev pub skill_markdown : ProceduralMemoryRecord F → String
  skill_markdown r =
      render_skill_markdown
        (record { name = r.name; description = r.description; body_markdown = r.body_markdown })

  unfoldable pub get_skill : Procedures F → GetSkillParams → GetSkillResult
  unfolding get_by_name render_skill_markdown
  get_skill procedures params = elim (get_by_name procedures params.namespace params.name) [
    | none ↦ record { found = false; kind = none; markdown = none }
    | some r ↦ record { found = true; kind = some r.kind; markdown = some (skill_markdown r) }
  ]

module _ {F : Type 0} ⦃fl : Float F⦄ where
  open fl use {of_ℕ}

  abbrev pub plain_item : ProceduralSearchResult F → SkillSearchResultItem F
  plain_item hit = record {
    name = hit.record_.name;
    kind = hit.record_.kind;
    description = hit.record_.description;
    score = hit.score;
    effectiveness = none;
    breakdown = none;
  }

  abbrev pub terms_of : ProceduralSearchResult F → F → RankTerms F
  terms_of hit effectiveness = record {
    relevance = hit.score;
    retention = none;
    salience = none;
    trust = some effectiveness;
    graph_proximity = none;
  }

  abbrev pub ranked_item : ProceduralSearchResult F → F → RankedScore F → SkillSearchResultItem F
  ranked_item hit effectiveness ranked = record {
    name = hit.record_.name;
    kind = hit.record_.kind;
    description = hit.record_.description;
    score = ranked.score;
    effectiveness = some effectiveness;
    breakdown = some ranked.breakdown;
  }

  -- the loop over `hits`
  unfoldable pub rank_hits :
      RankWeights F
      → List (ProceduralSearchResult F)
      → Result ValueError (List (SkillSearchResultItem F))
  unfolding skill_effectiveness rank_score
  rank_hits weights [] = ok []
  rank_hits weights (hit ∷ hits) =
      let rest = rank_hits weights hits in
      do
        e ← skill_effectiveness hit.record_.belief_alpha hit.record_.belief_beta
        cons_ok (ranked_item hit e (rank_score (terms_of hit e) weights)) rest

  abbrev pub scores_more : SkillSearchResultItem F → SkillSearchResultItem F → Bool
  scores_more a b = fl.lt b.score a.score

  abbrev pub hits_for :
      Text
      → EmbeddingProvider F
      → Procedures F
      → FindSkillParams
      → ℕ
      → Result Fault (List (ProceduralSearchResult F))
  hits_for t provider procedures params fetch_limit = elim (embed_or_none provider params.query) [
    | raise e ↦ raise (no_vector e)
    | ok v ↦
        raising (search_hybrid t procedures params.namespace params.query v params.kind fetch_limit)
  ]

  unfoldable pub find_skill :
      Text
      → EmbeddingProvider F
      → Procedures F
      → FindSkillParams
      → Option (RankingContext F)
      → Result Fault (List (SkillSearchResultItem F))
  unfolding embed_or_none search_hybrid rank_hits
  find_skill t provider procedures params none = do
    hits ← hits_for t provider procedures params params.limit
    ok (map plain_item hits)
  find_skill t provider procedures params (some ranking) = do
    hits ← hits_for t provider procedures params (params.limit * ranking.overfetch)
    items ← raising (rank_hits ranking.weights hits)
    ok (take params.limit (sort scores_more items))

  -- the evidence of one outcome, from no belief at all
  abbrev pub deltas : F → F → Bool → F × F
  deltas reliability prior_strength success =
      apply_evidence (of_ℕ 0) (of_ℕ 0) (of_ℕ 1) reliability prior_strength success

  abbrev pub report_of : ProceduralMemoryRecord F → Result ValueError (ReportSkillOutcomeResult F)
  report_of r = do
    e ← skill_effectiveness r.belief_alpha r.belief_beta
    ok (record {
      name = r.name;
      found = true;
      applied_count = r.applied_count;
      success_count = r.success_count;
      effectiveness = some e;
    })

  -- The row is stored before its effectiveness is computed.
  abbrev pub reported :
      String
      → Procedures F × Option (ProceduralMemoryRecord F)
      → Procedures F × Result ValueError (ReportSkillOutcomeResult F)
  reported name (procedures, none) = (
    procedures,
    ok (record {
      name = name;
      found = false;
      applied_count = 0;
      success_count = 0;
      effectiveness = none;
    }),
  )
  reported name (procedures, some r) = (procedures, report_of r)

  unfoldable pub report_skill_outcome :
      Procedures F
      → ReportSkillOutcomeParams
      → F
      → F
      → Procedures F × Result ValueError (ReportSkillOutcomeResult F)
  unfolding apply_evidence record_outcome skill_effectiveness
  report_skill_outcome procedures params reliability prior_strength =
      let delta = deltas reliability prior_strength params.success in
      reported params.name
        (record_outcome procedures params.namespace params.name params.success delta.0 delta.1)
