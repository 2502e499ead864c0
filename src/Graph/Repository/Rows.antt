-- ===== src/Graph/Repository/Rows.antt =====
-- An invariant of the relations of src/rootmem/storage/fakes/in_memory_graph_repository.py.
use rootmem.Base.{
  ℕ, String, ◌≡◌, refl, Bool, true, false, ◌==◌, Option, none, some, string_eq, arith, Bool-cases,
  Option-cases, inl, inr, All, All-at, In-first, Ensures,
}
use rootmem.Base.Dict
use rootmem.Base.Dict.{values, In-values}
use rootmem.Base.Dict.Keyed.{IsKeyed, put-IsKeyed, All-values-put, id-get}
use rootmem.Base.Float.{Float, InUnit, IsOrdered, IsMonotone}
use rootmem.Graph.Models.{RelationRecord, NewRelation, is_none}
use rootmem.Extraction.Contradiction.{
  BayesianSettings, ContradictionDecision, FeedbackOutcome, resolve_contradiction,
}
use rootmem.Extraction.Contradiction.Decision.{
  IsBelief, IsSettings, IsBelief-previous, resolve_contradiction-IsBelief, apply_feedback_lem,
}
use rootmem.Graph.Repository.State.{
  Graph, get_relation_by_id, find_active_relation, fits_active, put_relation,
}
use rootmem.Graph.Repository.{
  is_contest, is_corroborate, corroborated_row, new_row, old_row, apply_decision, create_relation,
  feedback_row, record_feedback, winner_row, loser_row, resolve_contest,
}

abbrev pub relation_id : {F : Type 0} → RelationRecord F → String
relation_id r = r.id

module _ {F : Type 0} ⦃fl : Float F⦄ (o : IsOrdered F) (m : IsMonotone F) where
  -- A relation is closed exactly when another supersedes it, and its belief is positive.
  pub record IsRow (r : RelationRecord F) : Type 0 where
    pub closed_iff_superseded : is_none r.valid_to ≡ is_none r.superseded_by
    pub belief : IsBelief o m r.belief_alpha r.belief_beta

  pub record IsGraph (g : Graph F) : Type 0 where
    pub keyed : IsKeyed relation_id g.relations
    pub rows : All IsRow (values g.relations)

  put_relation-IsGraph :
      {g : Graph F} (r : RelationRecord F) → IsGraph g → IsRow r → IsGraph (put_relation g r)
  unfolding put_relation
  put_relation-IsGraph {g} r h row = record {
    keyed = put-IsKeyed relation_id g.relations r.id r refl h.keyed;
    rows = All-values-put IsRow g.relations r.id r row h.rows;
  }

  find_active_relation-IsRow :
      (g : Graph F) (namespace subject predicate : String) (r : RelationRecord F)
      → IsGraph g
      → find_active_relation g namespace subject predicate ≡ some r
      → IsRow r
  unfolding find_active_relation
  find_active_relation-IsRow g namespace subject predicate r h e =
      All-at IsRow (values g.relations) h.rows
        (In-first (fits_active namespace subject predicate) (values g.relations) {a = r} e).0

  old_row-IsRow :
      (new_id : String) (now : ℕ) (contested : Bool) (r : RelationRecord F)
      → IsRow r
      → IsRow (old_row new_id now contested r)
  old_row-IsRow new_id now true r h = record {
    closed_iff_superseded = h.closed_iff_superseded;
    belief = h.belief;
  }
  old_row-IsRow new_id now false r h = record { closed_iff_superseded = refl; belief = h.belief }

  apply_decision-IsGraph :
      (new_id : String) (now : ℕ) (g : Graph F) (previous : Option (RelationRecord F))
      (relation : NewRelation F) (d : ContradictionDecision F)
      → IsGraph g
      → ((r : RelationRecord F) → previous ≡ some r → IsRow r)
      → IsBelief o m d.belief_alpha d.belief_beta
      → IsGraph (apply_decision new_id now g previous relation d).0
  apply_decision-IsGraph new_id now g none relation d h old b =
      put_relation-IsGraph (new_row new_id now none relation d) h
        (record { closed_iff_superseded = refl; belief = b })
  apply_decision-IsGraph new_id now g (some previous) relation d h old b =
      elim (Bool-cases (is_corroborate d.action)) [
        | inl same ↦ rw same (
            put_relation-IsGraph (corroborated_row previous d) h (record {
              closed_iff_superseded = (old previous refl).closed_iff_superseded;
              belief = b;
            }))
        | inr differ ↦ rw differ (
            put_relation-IsGraph (old_row new_id now (is_contest d.action) previous)
              (put_relation-IsGraph (new_row new_id now (some previous) relation d) h
                (record { closed_iff_superseded = refl; belief = b }))
              (old_row-IsRow new_id now (is_contest d.action) previous (old previous refl)))
      ]

  -- `create_relation`, whichever of its four actions is decided, keeps every relation closed exactly
  -- when it is superseded, with a positive belief, under its own id, for admissible settings and a
  -- confidence in [0, 1].
  pub create_relation-IsGraph :
      (settings : BayesianSettings F) (new_id : String) (now : ℕ) (g : Graph F)
      (relation : NewRelation F)
      → IsSettings o m settings
      → InUnit relation.confidence
      → IsGraph g
      → IsGraph (create_relation settings new_id now g relation).0
  unfolding create_relation
  create_relation-IsGraph settings new_id now g relation s u h =
      let previous =
        find_active_relation g relation.namespace relation.subject_entity_id relation.predicate in
      let old = λ (r : RelationRecord F) (e : previous ≡ some r).
        find_active_relation-IsRow g relation.namespace relation.subject_entity_id
          relation.predicate r h e in
      apply_decision-IsGraph new_id now g previous relation
        (resolve_contradiction previous relation relation.derivation settings) h old
        (resolve_contradiction-IsBelief o m previous relation relation.derivation settings s u
          (of_previous previous old))
    where
      of_previous :
          (p : Option (RelationRecord F))
          → ((r : RelationRecord F) → p ≡ some r → IsRow r)
          → IsBelief-previous o m p
      of_previous none old = tt
      of_previous (some r) old = (old r refl).belief

  stored_of_get :
      (g : Graph F) (namespace id : String) {r : RelationRecord F}
      → get_relation_by_id g namespace id ≡ some r
      → Dict.get g.relations id ≡ some r
  unfolding get_relation_by_id
  stored_of_get g namespace id {r} e = elim (Option-cases (Dict.get g.relations id)) [
    | inl missing ↦ absurd (ground arith)
    | inr (s, found) ↦ elim (Bool-cases (s.namespace == namespace)) [
      | inl t ↦ ground arith
      | inr f ↦ absurd (ground arith)
    ]
  ]

  get-IsRow :
      (g : Graph F) (namespace id : String) {r : RelationRecord F}
      → IsGraph g
      → get_relation_by_id g namespace id ≡ some r
      → IsRow r × (r.id ≡ id)
  get-IsRow g namespace id h e =
      let found = stored_of_get g namespace id e in
      (
        All-at IsRow (values g.relations) h.rows (In-values g.relations id found),
        id-get relation_id g.relations id h.keyed found,
      )

  put-IsGraph :
      {g : Graph F} (id : String) (r : RelationRecord F)
      → IsGraph g
      → r.id ≡ id
      → IsRow r
      → IsGraph (record g { relations = Dict.put g.relations id r })
  put-IsGraph {g} id r h same row = record {
    keyed = put-IsKeyed relation_id g.relations id r same h.keyed;
    rows = All-values-put IsRow g.relations id r row h.rows;
  }

  -- `record_feedback`, where it does not raise, keeps every relation under its own id, closed exactly
  -- when it is superseded, with a positive belief, for admissible settings and a confidence in [0, 1].
  pub record_feedback-IsGraph :
      (settings : BayesianSettings F) (g : Graph F) (namespace id : String)
      (outcome : FeedbackOutcome) (reported : F)
      → IsSettings o m settings
      → InUnit reported
      → IsGraph g
      → Ensures
          (λ (p : Graph F × RelationRecord F). IsGraph p.0)
          (record_feedback settings g namespace id outcome reported)
  unfolding record_feedback
  record_feedback-IsGraph settings g namespace id outcome reported s u h =
      elim (Option-cases (get_relation_by_id g namespace id)) [
        | inl missing ↦ rw (missing, record_feedback) tt
        | inr (r, found) ↦
            let (row, same) = get-IsRow g namespace id {r = r} h found in
            rw (found, record_feedback)
              (put-IsGraph id (feedback_row settings outcome reported r) h same (record {
                closed_iff_superseded = row.closed_iff_superseded;
                belief =
                    (apply_feedback_lem o m r.belief_alpha r.belief_beta reported outcome settings s
                      u row.belief).3;
              }))
      ]

  -- `resolve_contest`, where it does not raise, keeps every relation under its own id, closed exactly
  -- when it is superseded, with a positive belief.
  pub resolve_contest-IsGraph :
      (g : Graph F) (namespace winner_id loser_id : String) (now : ℕ)
      → IsGraph g
      → Ensures IsGraph (resolve_contest g namespace winner_id loser_id now)
  unfolding resolve_contest
  resolve_contest-IsGraph g namespace winner_id loser_id now h =
      elim (Option-cases (get_relation_by_id g namespace winner_id)) [
        | inl missing ↦ rw (missing, resolve_contest) tt
        | inr (w, found) ↦ elim (Option-cases (get_relation_by_id g namespace loser_id)) [
          | inl missing ↦ rw (found, resolve_contest) (rw (missing, resolve_contest) tt)
          | inr (l, found') ↦
              let (row, same) = get-IsRow g namespace winner_id {r = w} h found in
              let (row', same') = get-IsRow g namespace loser_id {r = l} h found' in
              rw (found, resolve_contest)
                (rw (found', resolve_contest)
                  (put-IsGraph loser_id (loser_row winner_id now l)
                    (put-IsGraph winner_id (winner_row loser_id w) h same (record {
                      closed_iff_superseded = row.closed_iff_superseded;
                      belief = row.belief;
                    }))
                    same' (record { closed_iff_superseded = refl; belief = row'.belief })))
        ]
      ]
