-- ===== src/Procedural/Repository.antt =====
-- src/rootmem/storage/fakes/in_memory_procedural_repository.py.
use Prim.Native.String.{◌++◌ as ◌<>◌}
use rootmem.Base.{
  ℕ, ◌+◌, String, Bool, true, false, ◌==◌, ◌&&◌, Option, none, some, List, if◌then◌else◌, string_eq,
  pair_eq, first, keep, map, take, Result, ok, ◌>>=◌, collect,
}
use rootmem.Base.Dict
use rootmem.Base.Dict.{Dict, values}
use rootmem.Base.Float.{Float}
use rootmem.Base.Sort.{sort}
use rootmem.Base.Text.{Text, count_all}
use rootmem.Graph.Repository.{add_pair}
use rootmem.Retrieval.Ranking.{ValueError, cosine_similarity, hybrid_score}
use rootmem.Procedural.Models.{
  Kind, skill, lesson, ProceduralMemoryRecord, NewProceduralMemory, ProceduralSearchResult,
  is_active,
}

-- `none` is the kind "all"
abbrev pub of_kind : Option Kind → Kind → Bool
of_kind none kind = true
of_kind (some skill) skill = true
of_kind (some lesson) lesson = true
of_kind (some _) _ = false

pub record Procedures (F : Type 0) : Type 0 where
  pub records : Dict String (ProceduralMemoryRecord F)
  pub provenance : List (String × String)

module _ {F : Type 0} where
  abbrev pub active_named : String → String → ProceduralMemoryRecord F → Bool
  active_named namespace name r = r.namespace == namespace && (r.name == name && is_active r)

  unfoldable pub get_by_name : Procedures F → String → String → Option (ProceduralMemoryRecord F)
  get_by_name repo namespace name = first (active_named namespace name) (values repo.records)

  abbrev pub id_of_previous : Option (ProceduralMemoryRecord F) → Option String
  id_of_previous none = none
  id_of_previous (some previous) = some previous.id

  abbrev pub superseded : String → ℕ → ProceduralMemoryRecord F → ProceduralMemoryRecord F
  superseded new_id now previous = record previous { superseded_by = some new_id; updated_at = now }

  -- the row before is closed after the new one is stored
  abbrev pub close :
      String
      → ℕ
      → Dict String (ProceduralMemoryRecord F)
      → Option (ProceduralMemoryRecord F)
      → Dict String (ProceduralMemoryRecord F)
  close new_id now records none = records
  close new_id now records (some previous) =
      Dict.put records previous.id (superseded new_id now previous)

  unfoldable pub link_provenance : Procedures F → String → String → Procedures F
  link_provenance repo procedural_memory_id memory_id = record repo {
    provenance = add_pair repo.provenance (procedural_memory_id, memory_id);
  }

  abbrev pub is_known : Option (ProceduralMemoryRecord F) → Bool
  is_known none = false
  is_known (some r) = true

  unfoldable pub get_provenance : Procedures F → String → List String
  get_provenance repo procedural_memory_id =
      map (λ (p : String × String). p.1)
        (keep
          (λ (p : String × String).
            p.0 == procedural_memory_id && is_known (Dict.get repo.records procedural_memory_id))
          repo.provenance)

module _ {F : Type 0} ⦃fl : Float F⦄ where
  abbrev pub stored :
      String
      → ℕ
      → NewProceduralMemory F
      → Option (ProceduralMemoryRecord F)
      → ProceduralMemoryRecord F
  stored new_id now new previous = record {
    id = new_id;
    namespace = new.namespace;
    kind = new.kind;
    name = new.name;
    description = new.description;
    body_markdown = new.body_markdown;
    content_embedding = new.content_embedding;
    supersedes = id_of_previous previous;
    superseded_by = none;
    created_at = now;
    updated_at = now;
    deleted_at = none;
    deleted_reason = none;
    belief_alpha = fl.of_ℕ 1;
    belief_beta = fl.of_ℕ 1;
    applied_count = 0;
    success_count = 0;
  }

  unfoldable pub create :
      String → ℕ → Procedures F → NewProceduralMemory F → Procedures F × ProceduralMemoryRecord F
  unfolding get_by_name
  create new_id now repo new =
      let previous = get_by_name repo new.namespace new.name in
      let r = stored new_id now new previous in
      (record repo { records = close new_id now (Dict.put repo.records new_id r) previous }, r)

  abbrev pub credited : Bool → F → F → ProceduralMemoryRecord F → ProceduralMemoryRecord F
  credited success delta_alpha delta_beta current = record current {
    belief_alpha = fl.add current.belief_alpha delta_alpha;
    belief_beta = fl.add current.belief_beta delta_beta;
    applied_count = current.applied_count + 1;
    success_count = current.success_count + (if success then 1 else 0);
  }

  unfoldable pub record_outcome :
      Procedures F
      → String
      → String
      → Bool
      → F
      → F
      → Procedures F × Option (ProceduralMemoryRecord F)
  unfolding get_by_name
  record_outcome repo namespace name success delta_alpha delta_beta =
      elim (get_by_name repo namespace name) [
        | none ↦ (repo, none)
        | some current ↦
            let updated = credited success delta_alpha delta_beta current in
            (record repo { records = Dict.put repo.records current.id updated }, some updated)
      ]

  abbrev pub similarity_or_zero : Option (List F) → Option (List F) → Result ValueError F
  similarity_or_zero (some query_embedding) (some e) = cosine_similarity query_embedding e
  similarity_or_zero _ _ = ok (fl.of_ℕ 0)

  abbrev pub scored :
      F → ProceduralMemoryRecord F → F → Result ValueError (Option (ProceduralSearchResult F))
  scored text_rank r cosine_sim =
      if fl.eq text_rank (fl.of_ℕ 0) && fl.eq cosine_sim (fl.of_ℕ 0)
      then ok none
      else ok (
          some (record {
            record_ = r;
            score = hybrid_score text_rank cosine_sim (fl.decimal 5 1) (fl.decimal 5 1);
          }))

  module _ (t : Text) where
    open t use {lower, split}

    abbrev pub haystack : ProceduralMemoryRecord F → String
    haystack r = lower (r.name <> (" " <> (r.description <> (" " <> r.body_markdown))))

    abbrev pub procedure_hit :
        String
        → String
        → Option (List F)
        → Option Kind
        → ProceduralMemoryRecord F
        → Result ValueError (Option (ProceduralSearchResult F))
    procedure_hit namespace query_text query_embedding kind r =
        if r.namespace == namespace && (is_active r && of_kind kind r.kind)
        then (similarity_or_zero query_embedding r.content_embedding
            >>= scored (fl.of_ℕ (count_all t (haystack r) (split (lower query_text)))) r)
        else ok none

    unfoldable pub search_hybrid :
        Procedures F
        → String
        → String
        → Option (List F)
        → Option Kind
        → ℕ
        → Result ValueError (List (ProceduralSearchResult F))
    search_hybrid repo namespace query_text query_embedding kind limit = do
      results ←
          collect (procedure_hit namespace query_text query_embedding kind) (values repo.records)
      ok (take limit (sort (λ (a b : ProceduralSearchResult F). fl.lt b.score a.score) results))
