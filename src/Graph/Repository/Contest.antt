-- ===== src/Graph/Repository/Contest.antt =====
-- `resolve_contest` of src/rootmem/storage/fakes/in_memory_graph_repository.py.
use rootmem.Base.{
  ℕ, String, ◌≡◌, ◌≢◌, refl, sym, ap, ◌∙◌, Bool, false, ◌==◌, none, some, ok, raise, string_eq,
  Bool-cases, Option-cases, inl, inr, ==_refl, ==_ne, ==_of_eq, ◌⊎◌,
}
use rootmem.Base.Dict
use rootmem.Base.Dict.{get-put_self, get-put_ne}
use rootmem.Base.Float.{Float}
use rootmem.Base.Json.{Fields, end, field, Json, truthy, boolean}
use rootmem.Graph.Models.{
  RelationRecord, is_contested, set_contested, get_field, put_field, truthy_or_false,
}
use rootmem.Graph.Repository.State.{Graph, get_relation_by_id}
use rootmem.Graph.Repository.{not_found, settle, resolve_contest, winner_row, loser_row}

pub get_field-put_field :
    {F : Type 0} (fs : Fields F) (k : String) (v : Json F) → get_field (put_field fs k v) k ≡ some v
unfolding get_field put_field
get_field-put_field end k v = rw (==_refl k)
get_field-put_field (field j w fs) k v = elim (Bool-cases (j == k)) [
  | inl t ↦ rw (t, t)
  | inr f ↦ rw (f, f) (get_field-put_field fs k v)
]

module _ {F : Type 0} ⦃fl : Float F⦄ where
  -- The flag that `metadata["contested"] = flag` stores is the one that `is_contested` reads.
  pub is_contested-set_contested :
      (r : RelationRecord F) (flag : Bool) (fs : Fields F)
      → r.metadata ≡ set_contested flag fs
      → is_contested r ≡ flag
  unfolding is_contested set_contested truthy
  is_contested-set_contested r flag fs e =
      ap (λ m. truthy_or_false (get_field m "contested")) e
      ∙ ap truthy_or_false (get_field-put_field fs "contested" (boolean flag))

  pub get_relation_by_id-stored :
      (g : Graph F) (namespace id : String) (r : RelationRecord F)
      → Dict.get g.relations id ≡ some r
      → r.namespace ≡ namespace
      → get_relation_by_id g namespace id ≡ some r
  unfolding get_relation_by_id
  get_relation_by_id-stored g namespace id r found owner =
      rw (found, get_relation_by_id) (rw (==_of_eq r.namespace namespace owner))

  pub resolve_contest-eq :
      (g : Graph F) (namespace winner_id loser_id : String) (now : ℕ)
      (winner loser : RelationRecord F)
      → get_relation_by_id g namespace winner_id ≡ some winner
      → get_relation_by_id g namespace loser_id ≡ some loser
      → resolve_contest g namespace winner_id loser_id now
        ≡ ok (settle g winner_id loser_id now winner loser)
  unfolding resolve_contest
  resolve_contest-eq g namespace winner_id loser_id now winner loser w l =
      rw (w, resolve_contest) (rw (l, resolve_contest))

  -- `resolve_contest` of two different stored relations of the namespace succeeds. The winner keeps
  -- its validity and supersedes the loser; the loser is closed now and superseded by the winner;
  -- neither is contested any more; and no other relation, entity or link changes.
  pub resolve_contest_lem :
      (g : Graph F) (namespace winner_id loser_id : String) (now : ℕ)
      (winner loser : RelationRecord F)
      → winner_id ≢ loser_id
      → get_relation_by_id g namespace winner_id ≡ some winner
      → get_relation_by_id g namespace loser_id ≡ some loser
      → (after : Graph F) × (w : RelationRecord F) × (l : RelationRecord F) × (resolve_contest g
            namespace winner_id loser_id now
          ≡ ok after)
        × (Dict.get after.relations winner_id ≡ some w)
        × (Dict.get after.relations loser_id ≡ some l)
        × (is_contested w ≡ false)
        × (is_contested l ≡ false)
        × (w.valid_to ≡ winner.valid_to)
        × (w.supersedes ≡ some loser_id)
        × (l.valid_to ≡ some now)
        × (l.superseded_by ≡ some winner_id)
        × ((other : String)
            → other ≢ winner_id
            → other ≢ loser_id
            → Dict.get after.relations other ≡ Dict.get g.relations other)
        × (after.entities ≡ g.entities)
        × (after.memory_entities ≡ g.memory_entities)
        × (after.relation_provenance ≡ g.relation_provenance)
  resolve_contest_lem g namespace winner_id loser_id now winner loser n fw fl' =
      let w = winner_row loser_id winner in
      let l = loser_row winner_id now loser in
      let middle = Dict.put g.relations winner_id w in
      (
        settle g winner_id loser_id now winner loser,
        w,
        l,
        resolve_contest-eq g namespace winner_id loser_id now winner loser fw fl',
        get-put_ne middle loser_id winner_id l (==_ne loser_id winner_id (λ p. n (sym p)))
            ∙ get-put_self g.relations winner_id w,
        get-put_self middle loser_id l,
        is_contested-set_contested w false winner.metadata refl,
        is_contested-set_contested l false loser.metadata refl,
        refl,
        refl,
        refl,
        refl,
        λ o nw nl.
            get-put_ne middle loser_id o l (==_ne loser_id o (λ p. nl (sym p)))
            ∙ get-put_ne g.relations winner_id o w (==_ne winner_id o (λ p. nw (sym p))),
        refl,
        refl,
        refl,
      )

  -- `resolve_contest` raises, and so changes nothing, when either relation is not the namespace's.
  pub resolve_contest-missing :
      (g : Graph F) (namespace winner_id loser_id : String) (now : ℕ)
      → (get_relation_by_id g namespace winner_id ≡ none)
        ⊎ (get_relation_by_id g namespace loser_id ≡ none)
      → resolve_contest g namespace winner_id loser_id now ≡ raise not_found
  unfolding resolve_contest
  resolve_contest-missing g namespace winner_id loser_id now (inl missing) =
      rw (missing, resolve_contest)
  resolve_contest-missing g namespace winner_id loser_id now (inr missing) =
      elim (Option-cases (get_relation_by_id g namespace winner_id)) [
        | inl also ↦ rw (also, resolve_contest)
        | inr (w, found) ↦ rw (found, resolve_contest) (rw (missing, resolve_contest))
      ]
