-- ===== src/Consolidation/Traces.antt =====
-- src/rootmem/consolidation/procedural_clustering.py: the episodes of a session with one outcome form
-- a trace, in the order of their creation.
use rootmem.Base.{
  ℕ, String, Bool, true, false, Option, none, some, List, [], ◌∷◌, ◌++◌, length, map, if◌then◌else◌,
  ltb, Result, ok, ◌>>=◌, Eq, ◌≡◌, ◌↔◌, refl, string_eq, pair_eq, cons_ok,
}
use mathlib.Core.Option
use rootmem.Base.Dict
use rootmem.Base.Dict.{Dict}
use rootmem.Base.Float.{Float}
use rootmem.Base.Sort.{sort}
use rootmem.Base.Text.{Text}
use rootmem.Memory.Models.{MemoryRecord, Outcome, success, failure}
use rootmem.Memory.Repository.{created_before}
use rootmem.Retrieval.Ranking.{ValueError, cosine_similarity}

pub record SessionTrace : Type 0 where
  pub session_id : String
  pub outcome : Outcome
  pub memory_ids : List String
  pub steps : List String
  pub summary_text : String

abbrev outcome_beq : Outcome → Outcome → Bool
outcome_beq success success = true
outcome_beq failure failure = true
outcome_beq _ _ = false

pub outcome_beq_iff : (a b : Outcome) → (outcome_beq a b ≡ true) ↔ (a ≡ b)
outcome_beq_iff success success = (λ _. refl, λ _. refl)
outcome_beq_iff success failure = (λ h. cc, λ h. cc)
outcome_beq_iff failure success = (λ h. cc, λ h. cc)
outcome_beq_iff failure failure = (λ _. refl, λ _. refl)

instance abbrev pub outcome_eq : Eq Outcome
outcome_eq = record { test = outcome_beq; decides = outcome_beq_iff }

abbrev pub Key : Type 0
Key = String × Outcome

abbrev pub key_of : Option String → Option Outcome → Option Key
key_of (some session) (some outcome) = some (session, outcome)
key_of _ _ = none

module _ {F : Type 0} where
  abbrev add_episode :
      Dict Key (List (MemoryRecord F))
      → MemoryRecord F
      → Option Key
      → Dict Key (List (MemoryRecord F))
  add_episode groups episode none = groups
  add_episode groups episode (some key) =
      Dict.put groups key (Option.get_or (Dict.get groups key) [] ++ (episode ∷ []))

  unfoldable pub group_episodes :
      Dict Key (List (MemoryRecord F)) → List (MemoryRecord F) → Dict Key (List (MemoryRecord F))
  group_episodes groups [] = groups
  group_episodes groups (e ∷ episodes) =
      group_episodes (add_episode groups e (key_of e.source_session_id e.session_outcome)) episodes

  abbrev pub trace_of : Text → Key × List (MemoryRecord F) → SessionTrace
  trace_of t ((session, outcome), members) =
      let ordered = sort created_before members in
      let steps = map (λ (m : MemoryRecord F). m.content) ordered in
      record {
        session_id = session;
        outcome = outcome;
        memory_ids = map (λ (m : MemoryRecord F). m.id) ordered;
        steps = steps;
        summary_text = t.join "\n" steps;
      }

  unfoldable pub traces_of : Text → ℕ → Dict Key (List (MemoryRecord F)) → List SessionTrace
  traces_of t min_session_length [] = []
  traces_of t min_session_length ((key, members) ∷ groups) =
      let rest = traces_of t min_session_length groups in
      if ltb (length members) min_session_length then rest else trace_of t (key, members) ∷ rest

  unfoldable pub group_session_traces : Text → List (MemoryRecord F) → ℕ → List SessionTrace
  unfolding group_episodes traces_of
  group_session_traces t episodes min_session_length =
      traces_of t min_session_length (group_episodes [] episodes)

module _ {F : Type 0} ⦃fl : Float F⦄ where
  unfoldable pub pairs_with :
      String → List F → Dict String (List F) → Result ValueError (List (String × String × F))
  pairs_with a va [] = ok []
  pairs_with a va ((b, vb) ∷ rest) =
      let later = pairs_with a va rest in
      do similarity ← cosine_similarity va vb; cons_ok (a, b, similarity) later

  -- `combinations(trace_embeddings, 2)`
  unfoldable pub build_trace_pairs :
      Dict String (List F) → Result ValueError (List (String × String × F))
  unfolding pairs_with
  build_trace_pairs [] = ok []
  build_trace_pairs ((a, va) ∷ rest) =
      let later = build_trace_pairs rest in
      do mine ← pairs_with a va rest; theirs ← later; ok (mine ++ theirs)
