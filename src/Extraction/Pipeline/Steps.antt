-- ===== src/Extraction/Pipeline/Steps.antt =====
-- The links that src/rootmem/extraction/pipeline.py writes.
use rootmem.Base.{String, ◌≡◌, refl, ◌∙◌, List, [], ◌∷◌, All, All-map_imp, In}
use rootmem.Graph.Repository.{Graph}
use rootmem.Graph.Repository.Links.{add_pair-In, In-add_pair}
use rootmem.Graph.Repository.Traversal.{link_memory_entity, link_relation_provenance}
use rootmem.Extraction.Pipeline.{link_sources, link_memories, link_entities}

module _ {F : Type 0} where
  -- The loop over the sources of a relation.
  pub record IsLinked (g h : Graph F) (relation_id : String) (memory_ids : List String)
      : Type 0 where
    pub entities : h.entities ≡ g.entities
    pub relations : h.relations ≡ g.relations
    pub kept : (l : String × String) → In l g.relation_provenance → In l h.relation_provenance
    pub linked : All (λ m. In (relation_id, m) h.relation_provenance) memory_ids

  pub link_sources-IsLinked :
      (g : Graph F) (relation_id : String) (memory_ids : List String)
      → IsLinked g (link_sources g relation_id memory_ids) relation_id memory_ids
  unfolding link_sources link_relation_provenance
  link_sources-IsLinked g relation_id [] = record {
    entities = refl;
    relations = refl;
    kept = λ l i. i;
    linked = tt;
  }
  link_sources-IsLinked g relation_id (m ∷ memory_ids) =
      let rest =
        link_sources-IsLinked (link_relation_provenance g relation_id m) relation_id memory_ids in
      record {
        entities = rest.entities;
        relations = rest.relations;
        kept = λ l i. rest.kept l (In-add_pair g.relation_provenance (relation_id, m) l i);
        linked = (
          rest.kept (relation_id, m) (add_pair-In g.relation_provenance (relation_id, m)),
          rest.linked,
        );
      }

  -- The loops over the entities and the memories that a call links.
  pub record IsMentioned (g h : Graph F) (entity_ids memory_ids : List String) : Type 0 where
    pub entities : h.entities ≡ g.entities
    pub relations : h.relations ≡ g.relations
    pub relation_provenance : h.relation_provenance ≡ g.relation_provenance
    pub kept : (l : String × String) → In l g.memory_entities → In l h.memory_entities
    pub linked : All (λ e. All (λ m. In (m, e) h.memory_entities) memory_ids) entity_ids

  link_memories-IsMentioned :
      (g : Graph F) (entity_id : String) (memory_ids : List String)
      → IsMentioned g (link_memories g entity_id memory_ids) (entity_id ∷ []) memory_ids
  unfolding link_memories link_memory_entity
  link_memories-IsMentioned g entity_id [] = record {
    entities = refl;
    relations = refl;
    relation_provenance = refl;
    kept = λ l i. i;
    linked = (tt, tt);
  }
  link_memories-IsMentioned g entity_id (m ∷ memory_ids) =
      let rest =
        link_memories-IsMentioned (link_memory_entity g m entity_id) entity_id memory_ids in
      record {
        entities = rest.entities;
        relations = rest.relations;
        relation_provenance = rest.relation_provenance;
        kept = λ l i. rest.kept l (In-add_pair g.memory_entities (m, entity_id) l i);
        linked = (
          (rest.kept (m, entity_id) (add_pair-In g.memory_entities (m, entity_id)), rest.linked.0),
          tt,
        );
      }

  pub link_entities-IsMentioned :
      (g : Graph F) (entity_ids memory_ids : List String)
      → IsMentioned g (link_entities g entity_ids memory_ids) entity_ids memory_ids
  unfolding link_entities
  link_entities-IsMentioned g [] memory_ids = record {
    entities = refl;
    relations = refl;
    relation_provenance = refl;
    kept = λ l i. i;
    linked = tt;
  }
  link_entities-IsMentioned g (e ∷ entity_ids) memory_ids =
      let head = link_memories-IsMentioned g e memory_ids in
      let rest = link_entities-IsMentioned (link_memories g e memory_ids) entity_ids memory_ids in
      record {
        entities = rest.entities ∙ head.entities;
        relations = rest.relations ∙ head.relations;
        relation_provenance = rest.relation_provenance ∙ head.relation_provenance;
        kept = λ l i. rest.kept l (head.kept l i);
        linked = (All-map_imp (λ m i. rest.kept (m, e) i) memory_ids head.linked.0, rest.linked);
      }
