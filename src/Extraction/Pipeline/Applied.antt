-- ===== src/Extraction/Pipeline/Applied.antt =====
-- What `apply_extraction` of src/rootmem/extraction/pipeline.py leaves.
use rootmem.Base.{
  ℕ, String, ◌≡◌, refl, ◌∙◌, [], ◌∷◌, string_eq, pair_eq, arith, ok, All, All-map_imp, In, length,
}
use rootmem.Base.Dict.{Dict, values, In-values}
use rootmem.Base.Dict.Keyed.{IsKeyed, All-get}
use rootmem.Base.Float.{Float, IsOrdered, IsMonotone}
use rootmem.Base.Supply.{IsDistinct, IsUnused}
use rootmem.Graph.Repository.{Graph}
use rootmem.Graph.Repository.Rows.{IsGraph}
use rootmem.Graph.Repository.Upsert.{IsStored, Keeps, entity_id}
use rootmem.Extraction.Contradiction.Decision.{IsSettings}
use rootmem.Extraction.Models.{ExtractedEntity, ExtractionResult, ApplyExtractionResult}
use rootmem.Extraction.Pipeline.{
  Call, Progress, resolve_entities, apply_extraction, starting, finish,
}
use rootmem.Extraction.Pipeline.Names.{
  IsNamed, IsNamed-kept, AreCached, resolve_entities-IsResolved,
}
use rootmem.Extraction.Pipeline.Steps.{link_entities-IsMentioned}
use rootmem.Extraction.Pipeline.Relations.{
  IsExtracted, IsGraph-relations, Continues, grown, apply_relations-Continues,
}

module _ {F : Type 0} ⦃fl : Float F⦄ (o : IsOrdered F) (m : IsMonotone F) (c : Call F) where
  -- What a call leaves in the graph and answers.
  pub record IsOutcome (g : Graph F) (result : ExtractionResult F)
      (r : Progress F × ApplyExtractionResult F) : Type 0 where
    pub graph : IsGraph o m r.0.graph
    pub keyed : IsKeyed entity_id r.0.graph.entities
    pub unused : IsUnused c.supply r.0.drawn r.0.graph.entities
    pub kept : Keeps c.text g r.0.graph
    pub answered :
        All
          (λ id.
            (name : String) × (entity_type : String) × IsStored c.text r.0.graph c.namespace name
              entity_type id)
          r.1.entity_ids
    pub resolved :
        All
          (λ (e : ExtractedEntity).
            (id : String) × In id r.1.entity_ids
            × IsStored c.text r.0.graph c.namespace e.name e.entity_type id)
          result.entities
    pub linked :
        All
          (λ id. All (λ s. In (s, id) r.0.graph.memory_entities) c.source_memory_ids)
          r.1.entity_ids
    pub supported :
        All
          (λ r'. All (λ s. In (r'.new.id, s) r.0.graph.relation_provenance) c.source_memory_ids)
          r.1.resolutions
    pub counted : length r.1.resolutions ≡ length result.relations

  All-of_entries :
      (P : String → Type 0) (d : Dict (String × String) String)
      → All (λ entry. P entry.1) d
      → All P (values d)
  All-of_entries P [] h = tt
  All-of_entries P (entry ∷ d) (p, h) = (p, All-of_entries P d h)

  finish-IsOutcome :
      (g : Graph F) (result : ExtractionResult F) (p q : Progress F)
      → Keeps c.text g p.graph
      → (p.resolutions ≡ [])
      → AreCached c p result.entities
      → Continues o m c p q (length result.relations)
      → IsOutcome g result (finish c q)
  finish-IsOutcome g result p q kept none_ cached v =
      let links = link_entities-IsMentioned q.graph (values q.entity_ids) c.source_memory_ids in
      let named = λ (entry : (String × String) × String).
        IsNamed-kept c {g = q.graph} entry (λ id e found. rw links.entities found) in
      let stored = All-map_imp named q.entity_ids v.applying.resolved.named_ in
      record {
        graph = IsGraph-relations o m links.relations v.applying.graph;
        keyed = rw links.entities v.applying.resolved.keyed;
        unused = λ n le. rw links.entities (v.applying.resolved.unused n le);
        kept = λ id e found. rw links.entities (v.kept id e (kept id e found));
        answered =
            All-of_entries _ q.entity_ids
              (All-map_imp (λ entry h. (entry.0.0, entry.0.1, h)) q.entity_ids stored);
        resolved =
            All-map_imp
              (λ e h.
                let found = v.cached (e.name, e.entity_type) h.0 h.1 in
                (
                  h.0,
                  In-values q.entity_ids (e.name, e.entity_type) found,
                  All-get (IsNamed c _) q.entity_ids (e.name, e.entity_type) stored found,
                ))
              result.entities cached;
        linked = links.linked;
        supported = rw links.relation_provenance v.applying.supported;
        counted = v.counted ∙ rw none_ (omega arith);
      }

  -- Where the settings are admissible, no id that is drawn repeats, and the validator accepts every
  -- relation with a confidence in [0, 1], `apply_extraction` does not raise. The graph stays
  -- well-formed and keeps its entities. Each entity id it answers is stored in the namespace and linked
  -- to every source; each extracted entity has one, with its normalized name and type; there is one
  -- resolution for each extracted relation, in provenance with every source.
  pub apply_extraction-IsOutcome :
      (g : Graph F) (drawn : ℕ) (result : ExtractionResult F)
      → IsSettings o m c.settings
      → IsDistinct c.supply
      → All (IsExtracted o m) result.relations
      → IsGraph o m g
      → IsKeyed entity_id g.entities
      → IsUnused c.supply drawn g.entities
      → (r : Progress F × ApplyExtractionResult F) × (apply_extraction c g drawn result ≡ ok r)
        × IsOutcome g result r
  unfolding apply_extraction
  apply_extraction-IsOutcome g drawn result s distinct valid v keyed unused =
      let start = starting g drawn in
      let (resolved, grows, cached) =
        resolve_entities-IsResolved c start result.entities distinct
          (record { keyed = keyed; unused = unused; named_ = tt }) in
      let p = resolve_entities c start result.entities in
      let first =
        grown o m c {p = start}
          (record {
            resolved = record { keyed = keyed; unused = unused; named_ = tt };
            graph = v;
            supported = tt;
          })
          resolved grows in
      let (q, e, w) =
        apply_relations-Continues o m c p result.relations s distinct valid first.applying in
      (
        finish c q,
        rw (e, apply_extraction) refl,
        finish-IsOutcome g result p q grows.kept grows.resolutions cached w,
      )
