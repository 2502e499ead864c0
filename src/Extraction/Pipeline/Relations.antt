-- ===== src/Extraction/Pipeline/Relations.antt =====
-- The loop over the relations in `apply_extraction` of src/rootmem/extraction/pipeline.py.
use rootmem.Base.{
  ℕ, ◌+◌, String, ◌≡◌, refl, ◌∙◌, true, not, ◌&&◌, Option, none, some, List, [], ◌∷◌, string_eq,
  pair_eq, arith, Option-cases, inl, inr, ok, All, All-map_imp, All-append, In, length,
  length-append,
}
use rootmem.Base.Dict
use rootmem.Base.Dict.{Dict, values, In-values}
use rootmem.Base.Float.{Float, InUnit, IsOrdered, IsMonotone}
use rootmem.Base.Supply.{IsDistinct}
use rootmem.Graph.Models.{NewRelation, is_none, object_present}
use rootmem.Graph.Repository.{Graph, create_relation}
use rootmem.Graph.Repository.Rows.{IsGraph, create_relation-IsGraph}
use rootmem.Graph.Repository.Upsert.{Keeps}
use rootmem.Graph.Repository.Links.{create_relation-SameLinks}
use rootmem.Extraction.Contradiction.Decision.{IsSettings}
use rootmem.Extraction.Models.{ExtractedRelation, object_present_and_consistent}
use rootmem.Extraction.Pipeline.{
  Call, Progress, resolve_name, resolve_object, new_relation, relate, relate_if_valid,
  apply_relation, apply_relations,
}
use rootmem.Extraction.Pipeline.Names.{
  IsNamed-kept, IsResolved, Grows, Grows-refl, resolve_name-Resolves,
}
use rootmem.Extraction.Pipeline.Steps.{link_sources-IsLinked}

module _ {F : Type 0} ⦃fl : Float F⦄ (o : IsOrdered F) (m : IsMonotone F) where
  -- The validator's condition, and that of the field `confidence`.
  abbrev pub IsExtracted : ExtractedRelation F → Type 0
  IsExtracted r = (object_present_and_consistent r ≡ true) × InUnit r.confidence

  pub IsGraph-relations :
      {g h : Graph F} → h.relations ≡ g.relations → IsGraph o m g → IsGraph o m h
  IsGraph-relations e v = record { keyed = rw e v.keyed; rows = rw e v.rows }

module _ {F : Type 0} ⦃fl : Float F⦄ (o : IsOrdered F) (m : IsMonotone F) (c : Call F) where
  -- Each relation that was written is linked to every source.
  abbrev pub Supported : Progress F → Type 0
  Supported p =
      All (λ r. All (λ id. In (r.new.id, id) p.graph.relation_provenance) c.source_memory_ids)
        p.resolutions

  pub record IsApplying (p : Progress F) : Type 0 where
    pub resolved : IsResolved c p
    pub graph : IsGraph o m p.graph
    pub supported : Supported p

  pub record Continues (p q : Progress F) (created : ℕ) : Type 0 where
    pub applying : IsApplying q
    pub counted : length q.resolutions ≡ length p.resolutions + created
    pub kept : Keeps c.text p.graph q.graph
    pub cached :
        (key : String × String) (id : String)
        → Dict.get p.entity_ids key ≡ some id
        → Dict.get q.entity_ids key ≡ some id

  pub grown : {p q : Progress F} → IsApplying p → IsResolved c q → Grows c p q → Continues p q 0
  grown {p} {q} v r g = record {
    applying = record {
      resolved = r;
      graph = IsGraph-relations o m g.relations v.graph;
      supported = rw (g.resolutions, g.relation_provenance) v.supported;
    };
    counted = rw g.resolutions (omega arith);
    kept = g.kept;
    cached = g.cached;
  }

  onward :
      {p q r : Progress F} {a b n : ℕ}
      → a + b ≡ n
      → Continues p q a
      → Continues q r b
      → Continues p r n
  onward sum v w = record {
    applying = w.applying;
    counted = omega (arith, sum, v.counted, w.counted);
    kept = λ id e found. w.kept id e (v.kept id e found);
    cached = λ key id found. w.cached key id (v.cached key id found);
  }

  relate-Continues :
      (p : Progress F) (relation : NewRelation F)
      → IsSettings o m c.settings
      → InUnit relation.confidence
      → IsApplying p
      → Continues p (relate c p relation) 1
  unfolding relate
  relate-Continues p relation s unit v =
      let new_id = c.supply.uuid p.drawn in
      let now = c.supply.clock p.drawn in
      let created = create_relation c.settings new_id now p.graph relation in
      let same = create_relation-SameLinks c.settings new_id now p.graph relation in
      let links = link_sources-IsLinked created.0 created.1.new.id c.source_memory_ids in
      let entities = links.entities ∙ same.entities in
      record {
        applying = record {
          resolved = record {
            keyed = rw entities v.resolved.keyed;
            unused = λ n le. rw entities (v.resolved.unused n (omega (arith, le)));
            named_ =
                All-map_imp (λ entry. IsNamed-kept c entry (λ id e found. rw entities found))
                  p.entity_ids v.resolved.named_;
          };
          graph =
              IsGraph-relations o m links.relations
                (create_relation-IsGraph o m c.settings new_id now p.graph relation s unit v.graph);
          supported =
              All-append _ p.resolutions (created.1 ∷ [])
                (All-map_imp
                  (λ r h.
                    All-map_imp (λ id i. links.kept (r.new.id, id) (rw same.relation_provenance i))
                      c.source_memory_ids h)
                  p.resolutions v.supported)
                (links.linked, tt);
        };
        counted = length-append p.resolutions (created.1 ∷ []);
        kept = λ id e found. rw entities found;
        cached = λ key id found. found;
      }

  -- The relation has an object to write.
  abbrev HasObject : ExtractedRelation F → Option String → Type 0
  HasObject relation object_id = not (is_none object_id && is_none relation.object_literal) ≡ true

  -- `object_entity_id` is found, and is there wherever the literal is not.
  resolve_object-Continues :
      (p : Progress F) (relation : ExtractedRelation F)
      → IsDistinct c.supply
      → object_present_and_consistent relation ≡ true
      → IsApplying p
      → (r : Progress F × Option String) × (resolve_object c p relation ≡ ok r)
        × Continues p r.0 0
        × HasObject relation r.1
  unfolding resolve_object object_present_and_consistent
  resolve_object-Continues p relation distinct valid v = elim (Option-cases relation.object_name) [
    | inl absent ↦ (
      (p, none),
      rw (absent, resolve_object) refl,
      grown v v.resolved (Grows-refl c p),
      literal_present relation.object_literal relation.object_type (rw absent at valid),
    )
    | inr (name, present) ↦ elim (Option-cases relation.object_type) [
      | inl absent ↦ absurd (untyped relation.object_literal (rw (present, absent) at valid))
      | inr (entity_type, typed) ↦
          let r = resolve_name-Resolves c p name entity_type distinct v.resolved in
          let found = resolve_name c p name entity_type in
          (
            (found.0, some found.1),
            rw (present, resolve_object) (rw (typed, resolve_object) refl),
            grown v r.resolved r.grows,
            refl,
          )
    ]
  ]
    where
      literal_present :
          (literal object_type : Option String)
          → (not (true && is_none literal) && not (not true && is_none object_type)) ≡ true
          → not (true && is_none literal) ≡ true
      literal_present none object_type h = h
      literal_present (some l) object_type h = refl

      untyped :
          (literal : Option String)
          → ¬ ((not (not true && is_none literal) && not (not (not true) && true)) ≡ true)
      untyped literal h = cc

  apply_relation-Continues :
      (p : Progress F) (relation : ExtractedRelation F)
      → IsSettings o m c.settings
      → IsDistinct c.supply
      → IsExtracted o m relation
      → IsApplying p
      → (q : Progress F) × (apply_relation c p relation ≡ ok q) × Continues p q 1
  unfolding apply_relation relate_if_valid object_present
  apply_relation-Continues p relation s distinct (valid, unit) v =
      let subject = resolve_name c p relation.subject_name relation.subject_type in
      let r =
        resolve_name-Resolves c p relation.subject_name relation.subject_type distinct v.resolved in
      let first = grown v r.resolved r.grows in
      let (object, e, second, has_object) =
        resolve_object-Continues subject.0 relation distinct valid first.applying in
      let new = new_relation c relation subject.1 object.1 in
      (
        relate c object.0 new,
        rw (e, apply_relation) (rw has_object),
        onward {a = 0} {b = 1} (omega arith) first (
            onward {a = 0} {b = 1} (omega arith) second
              (relate-Continues object.0 new s unit second.applying)),
      )

  pub apply_relations-Continues :
      (p : Progress F) (relations : List (ExtractedRelation F))
      → IsSettings o m c.settings
      → IsDistinct c.supply
      → All (IsExtracted o m) relations
      → IsApplying p
      → (q : Progress F) × (apply_relations c p relations ≡ ok q) × Continues p q (length relations)
  unfolding apply_relations
  apply_relations-Continues p [] s distinct valid v = (p, refl, grown v v.resolved (Grows-refl c p))
  apply_relations-Continues p (relation ∷ relations) s distinct (h, valid) v =
      let (q, e, first) = apply_relation-Continues p relation s distinct h v in
      let (r, e', rest) = apply_relations-Continues q relations s distinct valid first.applying in
      (
        r,
        rw (e, apply_relations) e',
        onward {a = 1} {b = length relations} (omega arith) first rest,
      )
