-- ===== src/Rumination/Groups.antt =====
-- The groups of a pass of src/rootmem/rumination/run.py.
use mathlib.Core.Option
use rootmem.Base.{
  ℕ, String, ◌≡◌, refl, sym, ap, ◌∙◌, Option, some, List, [], ◌∷◌, ◌++◌, ◌==◌, string_eq,
  Bool-cases, Option-cases, inl, inr, eq_of_==, ok, All, All-append, All-map_imp, All-keep, All-In,
  ltb,
}
use rootmem.Base.Dict
use rootmem.Base.Dict.{Dict, values, get-put_self, get-put_ne}
use rootmem.Base.Dict.Keyed.{IsKeyed, get-In, All-put, All-get}
use rootmem.Base.Float.{Float}
use rootmem.Graph.Models.{RelationRecord}
use rootmem.Graph.Repository.{Graph, list_contested, settle, resolve_contest, winner_row, loser_row}
use rootmem.Graph.Repository.Contest.{resolve_contest-eq, get_relation_by_id-stored}
use rootmem.Graph.Repository.Rows.{relation_id}
use rootmem.Rumination.Run.{Pairs, PairKey, pair_key, pair_key_eq, group_pairs, older_newer}

module _ {F : Type 0} where
  -- The namespace has the relation.
  abbrev pub Has : Graph F → String → String → Type 0
  Has g namespace id =
      (r : RelationRecord F) × (Dict.get g.relations id ≡ some r) × (r.namespace ≡ namespace)

  abbrev pub Stays : Graph F → Graph F → Type 0
  Stays g g' = (namespace id : String) → Has g namespace id → Has g' namespace id

  put-Stays :
      (g : Graph F) (namespace id : String) (r : RelationRecord F)
      → Has g namespace id
      → r.namespace ≡ namespace
      → Stays g (record g { relations = Dict.put g.relations id r })
  put-Stays g namespace id r (old, stored, owner) same namespace' id' (r', stored', owner') =
      elim (Bool-cases (id == id')) [
        | inl one ↦
            let e = eq_of_== id id' one in
            let q : some old ≡ some r' = sym stored ∙ ap (Dict.get g.relations) e ∙ stored' in
            (
              r,
              ap (λ k. Dict.get (Dict.put g.relations id r) k) (sym e)
                  ∙ get-put_self g.relations id r,
              cc (q, same, owner, owner'),
            )
        | inr differ ↦ (r', get-put_ne g.relations id id' r differ ∙ stored', owner')
      ]

  -- Both relations of a group are stored in its namespace.
  abbrev pub IsGroup : Graph F → PairKey × List (RelationRecord F) → Type 0
  IsGroup g ((namespace, rest), members) = All (λ r. Has g namespace r.id) members

  pub IsGroup-Stays :
      (g g' : Graph F) (groups : Pairs F)
      → Stays g g'
      → All (IsGroup g) groups
      → All (IsGroup g') groups
  IsGroup-Stays g g' [] s h = tt
  IsGroup-Stays g g' (((namespace, rest), members) ∷ groups) s (h, hs) =
      (All-map_imp (λ r. s namespace r.id) members h, IsGroup-Stays g g' groups s hs)

  known_members :
      (g : Graph F) (groups : Pairs F) (r : RelationRecord F)
      → All (IsGroup g) groups
      → All (λ m. Has g r.namespace m.id) (Option.get_or (Dict.get groups (pair_key r)) [])
  known_members g groups r h = elim (Option-cases (Dict.get groups (pair_key r))) [
    | inl new ↦ rw new tt
    | inr (ms, old) ↦ rw old (All-get (IsGroup g) groups (pair_key r) {v = ms} h old)
  ]

  group_pairs-IsGroup :
      (g : Graph F) (groups : Pairs F) (contested : List (RelationRecord F))
      → All (IsGroup g) groups
      → All (λ r. Has g r.namespace r.id) contested
      → All (IsGroup g) (group_pairs groups contested)
  unfolding group_pairs
  group_pairs-IsGroup g groups [] h hs = h
  group_pairs-IsGroup g groups (r ∷ contested) h (p, hs) =
      let old = Option.get_or (Dict.get groups (pair_key r)) [] in
      group_pairs-IsGroup g (Dict.put groups (pair_key r) (old ++ (r ∷ []))) contested
        (All-put (IsGroup g) groups (pair_key r) (old ++ (r ∷ []))
          (All-append (λ m. Has g r.namespace m.id) old (r ∷ []) (known_members g groups r h)
            (p, tt))
          h)
        hs

  -- A pair that is examined consists of members of the group.
  pub older_newer-All :
      (P : RelationRecord F → Type 0) (members : List (RelationRecord F)) (a b : RelationRecord F)
      → All P members
      → older_newer members ≡ some (a, b)
      → P a × P b
  unfolding older_newer
  older_newer-All P [] a b h e = cc
  older_newer-All P (x ∷ []) a b h e = cc
  older_newer-All P (x ∷ y ∷ []) a b (px, (py, _)) e =
      elim (Bool-cases (ltb y.recorded_at x.recorded_at)) [
        | inl later ↦ swapped (rw later at e)
        | inr sooner ↦ straight (rw sooner at e)
      ]
    where
      swapped :
          ◌≡◌ {A = Option (RelationRecord F × RelationRecord F)} (some (y, x)) (some (a, b))
          → P a × P b
      swapped q = let l : y ≡ a = cc q in let r : x ≡ b = cc q in (rw (← l) py, rw (← r) px)

      straight :
          ◌≡◌ {A = Option (RelationRecord F × RelationRecord F)} (some (x, y)) (some (a, b))
          → P a × P b
      straight q = let l : x ≡ a = cc q in let r : y ≡ b = cc q in (rw (← l) px, rw (← r) py)
  older_newer-All P (x ∷ y ∷ z ∷ zs) a b h e = cc

module _ {F : Type 0} ⦃fl : Float F⦄ where
  pub list_contested-IsGroup :
      (g : Graph F) (namespace : Option String)
      → IsKeyed relation_id g.relations
      → All (IsGroup g) (group_pairs [] (list_contested g namespace))
  unfolding list_contested
  list_contested-IsGroup g namespace keyed =
      group_pairs-IsGroup g [] (list_contested g namespace) tt (
        All-keep (λ r. Has g r.namespace r.id) _ (values g.relations)
          (All-map_imp (λ r i. (r, get-In relation_id g.relations keyed i, refl))
            (values g.relations) (All-In (values g.relations))))

  -- Stored relations of the namespace can be settled, and all stored ones stay.
  pub resolve_contest-Stays :
      (g : Graph F) (namespace winner_id loser_id : String) (now : ℕ)
      → Has g namespace winner_id
      → Has g namespace loser_id
      → (g' : Graph F) × (resolve_contest g namespace winner_id loser_id now ≡ ok g') × Stays g g'
  resolve_contest-Stays g namespace winner_id loser_id now (w, fw, ow) (l, fl', ol) =
      let first = put-Stays g namespace winner_id (winner_row loser_id w) (w, fw, ow) ow in
      let middle = record g {
        relations = Dict.put g.relations winner_id (winner_row loser_id w);
      } in
      let second =
        put-Stays middle namespace loser_id (loser_row winner_id now l)
          (first namespace loser_id (l, fl', ol)) ol in
      (
        settle g winner_id loser_id now w l,
        resolve_contest-eq g namespace winner_id loser_id now w l
            (get_relation_by_id-stored g namespace winner_id w fw ow)
            (get_relation_by_id-stored g namespace loser_id l fl' ol),
        λ n i h. second n i (first n i h),
      )
