-- ===== src/Extraction/Pipeline/Names.antt =====
-- `_resolve` of src/rootmem/extraction/pipeline.py.
use rootmem.Base.{
  String, ◌≡◌, refl, ap, ◌∙◌, none, some, List, [], ◌∷◌, ◌==◌, string_eq, pair_eq, arith,
  Bool-cases, Option-cases, inl, inr, All, All-map_imp, eq_of_==,
}
use rootmem.Base.Dict
use rootmem.Base.Dict.{get-put_self, get-put_ne}
use rootmem.Base.Dict.Keyed.{IsKeyed, All-put}
use rootmem.Base.Supply.{IsDistinct, IsUnused}
use rootmem.Graph.Repository.{Graph}
use rootmem.Graph.Repository.Upsert.{entity_id, IsStored, Keeps, upsert_entity-IsUpsert}
use rootmem.Extraction.Models.{ExtractedEntity}
use rootmem.Extraction.Pipeline.{Call, Progress, named, resolve_name, resolve_entities}

module _ {F : Type 0} (c : Call F) where
  -- The entity of a name and type in a graph, under an id.
  abbrev pub IsNamed : Graph F → (String × String) × String → Type 0
  IsNamed g entry = IsStored c.text g c.namespace entry.0.0 entry.0.1 entry.1

  pub record IsResolved (p : Progress F) : Type 0 where
    pub keyed : IsKeyed entity_id p.graph.entities
    pub unused : IsUnused c.supply p.drawn p.graph.entities
    pub named_ : All (IsNamed p.graph) p.entity_ids

  -- What a resolution of names leaves.
  pub record Grows (p q : Progress F) : Type 0 where
    pub kept : Keeps c.text p.graph q.graph
    pub cached :
        (key : String × String) (id : String)
        → Dict.get p.entity_ids key ≡ some id
        → Dict.get q.entity_ids key ≡ some id
    pub relations : q.graph.relations ≡ p.graph.relations
    pub relation_provenance : q.graph.relation_provenance ≡ p.graph.relation_provenance
    pub resolutions : q.resolutions ≡ p.resolutions

  pub Grows-refl : (p : Progress F) → Grows p p
  Grows-refl p = record {
    kept = λ id e found. found;
    cached = λ key id found. found;
    relations = refl;
    relation_provenance = refl;
    resolutions = refl;
  }

  pub Grows-trans : {p q r : Progress F} → Grows p q → Grows q r → Grows p r
  Grows-trans a b = record {
    kept = λ id e found. b.kept id e (a.kept id e found);
    cached = λ key id found. b.cached key id (a.cached key id found);
    relations = b.relations ∙ a.relations;
    relation_provenance = b.relation_provenance ∙ a.relation_provenance;
    resolutions = b.resolutions ∙ a.resolutions;
  }

  pub IsNamed-kept :
      {g h : Graph F} (entry : (String × String) × String)
      → Keeps c.text g h
      → IsNamed g entry
      → IsNamed h entry
  IsNamed-kept entry kept n = record {
    entity = n.entity;
    found = kept entry.1 n.entity n.found;
    owner = n.owner;
    typed = n.typed;
    canonical = n.canonical;
  }

  -- `_resolve` and its result.
  pub record Resolves (p : Progress F) (name entity_type : String) (r : Progress F × String)
      : Type 0 where
    pub resolved : IsResolved r.0
    pub grows : Grows p r.0
    pub entry : Dict.get r.0.entity_ids (name, entity_type) ≡ some r.1

  pub resolve_name-Resolves :
      (p : Progress F) (name entity_type : String)
      → IsDistinct c.supply
      → IsResolved p
      → Resolves p name entity_type (resolve_name c p name entity_type)
  unfolding resolve_name
  resolve_name-Resolves p name entity_type distinct v =
      elim (Option-cases (Dict.get p.entity_ids (name, entity_type))) [
        | inr (id, old) ↦
            rw (old, resolve_name) (record { resolved = v; grows = Grows-refl p; entry = old })
        | inl new ↦
            let u =
              upsert_entity-IsUpsert c.text (c.supply.uuid p.drawn) (c.supply.clock p.drawn) p.graph
                (named c name entity_type) v.keyed (v.unused p.drawn (omega arith)) in
            rw (new, resolve_name)
              (record {
                resolved = record {
                  keyed = u.keyed;
                  unused = λ n after.
                      u.others (c.supply.uuid n)
                        (λ e. let q = distinct p.drawn n e in absurd (omega (arith, after, q)))
                      ∙ v.unused n (omega (arith, after));
                  named_ =
                      All-put _ p.entity_ids (name, entity_type) _ u.stored
                        (All-map_imp (λ entry. IsNamed-kept entry u.kept) p.entity_ids v.named_);
                };
                grows = record {
                  kept = u.kept;
                  cached = λ key id found. still new key id _ found;
                  relations = u.relations;
                  relation_provenance = u.relation_provenance;
                  resolutions = refl;
                };
                entry = get-put_self p.entity_ids (name, entity_type) _;
              })
      ]
    where
      still :
          Dict.get p.entity_ids (name, entity_type) ≡ none
          → (key : String × String) (id fresh : String) → Dict.get p.entity_ids key ≡ some id
          → Dict.get (Dict.put p.entity_ids (name, entity_type) fresh) key ≡ some id
      still new key id fresh found = elim (Bool-cases ((name, entity_type) == key)) [
        | inl same ↦
            let q = ap (Dict.get p.entity_ids) (eq_of_== (name, entity_type) key same) in
            absurd (cc (q, found, new))
        | inr differ ↦ get-put_ne p.entity_ids (name, entity_type) key fresh differ ∙ found
      ]

  -- Each entity is resolved.
  abbrev pub AreCached : Progress F → List ExtractedEntity → Type 0
  AreCached p = All (λ e. (id : String) × (Dict.get p.entity_ids (e.name, e.entity_type) ≡ some id))

  pub AreCached-Grows :
      (p q : Progress F) (es : List ExtractedEntity) → Grows p q → AreCached p es → AreCached q es
  AreCached-Grows p q es g = All-map_imp (λ e h. (h.0, g.cached (e.name, e.entity_type) h.0 h.1)) es

  pub resolve_entities-IsResolved :
      (p : Progress F) (es : List ExtractedEntity)
      → IsDistinct c.supply
      → IsResolved p
      → IsResolved (resolve_entities c p es)
        × Grows p (resolve_entities c p es)
        × AreCached (resolve_entities c p es) es
  unfolding resolve_entities
  resolve_entities-IsResolved p [] distinct v = (v, Grows-refl p, tt)
  resolve_entities-IsResolved p (e ∷ es) distinct v =
      let r = resolve_name-Resolves p e.name e.entity_type distinct v in
      let (v', g, found) =
        resolve_entities-IsResolved (resolve_name c p e.name e.entity_type).0 es distinct
          r.resolved in
      (v', Grows-trans r.grows g, ((_, g.cached (e.name, e.entity_type) _ r.entry), found))
