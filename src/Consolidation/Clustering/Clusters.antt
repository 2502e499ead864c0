-- ===== src/Consolidation/Clustering/Clusters.antt =====
-- `clusters` of src/rootmem/consolidation/clustering.py.
use mathlib.Core.Option
use rootmem.Base.{
  All-at, false, ne_of_==, ℕ, ◌<◌, String, ◌≡◌, refl, ap, ◌==◌, List, [], ◌∷◌, ◌++◌, arith,
  Bool-cases, inl, inr, ◌⊎◌, ◌↔◌, eq_of_==, string_eq, ok, In, here, there, All, In-append_left,
  In-append_right,
}
use rootmem.Base.Dict
use rootmem.Base.Dict.{Dict, keys, values, get-put_self, get-put_ne, IsDict, put-IsDict, In-values}
use rootmem.Consolidation.Clustering.{Parents, Groups, add_member, group_all}
use rootmem.Consolidation.Clustering.Roots.{Reaches, one_root}
use rootmem.Consolidation.Clustering.Find.{Keeps, find-Found, IsForest, Keeps-IsForest, moved_root}

-- The group of a root; empty if it has none.
abbrev pub members : Groups → String → List String
members groups r = Option.get_or (Dict.get groups r) []

abbrev pub RootOf : Parents → String → String → Type 0
RootOf d r x = (n : ℕ) × Reaches d r x n

In-append-cases : (x : String) (xs ys : List String) → In x (xs ++ ys) → In x xs ⊎ In x ys
In-append-cases x [] ys i = inr i
In-append-cases x (y ∷ xs) ys here = inl here
In-append-cases x (y ∷ xs) ys (there i) = elim (In-append-cases x xs ys i) [
  | inl l ↦ inl (there l)
  | inr r ↦ inr r
]

In-one : {x y : String} → In x (y ∷ []) → x ≡ y
In-one here = refl
In-one (there i) = elim i [ ]

members-add_self :
    (groups : Groups) (r x : String)
    → members (add_member groups r x) r ≡ members groups r ++ (x ∷ [])
unfolding add_member
members-add_self groups r x =
    ap (λ o. Option.get_or o []) (get-put_self groups r (members groups r ++ (x ∷ [])))

members-add_ne :
    (groups : Groups) (r x s : String)
    → (r == s) ≡ false
    → members (add_member groups r x) s ≡ members groups s
unfolding add_member
members-add_ne groups r x s n =
    ap (λ o. Option.get_or o []) (get-put_ne groups r s (members groups r ++ (x ∷ [])) n)

In-add_member :
    (groups : Groups) (r x s y : String)
    → In y (members (add_member groups r x) s) ↔ (In y (members groups s) ⊎ ((y ≡ x) × (r ≡ s)))
In-add_member groups r x s y = elim (Bool-cases (r == s)) [
  | inl same ↦ of_same (eq_of_== r s same)
  | inr differ ↦
      rw (members-add_ne groups r x s differ)
        (λ i. inl i, λ c. elim c [ inl i ↦ i | inr (_, rs) ↦ absurd (ne_of_== r s differ rs) ])
]
  where
    of_same :
        {s' : String}
        → r ≡ s'
        → In y (members (add_member groups r x) s')
          ↔ (In y (members groups s') ⊎ ((y ≡ x) × (r ≡ s')))
    of_same {s'} rs = rw (← rs) (
        rw (members-add_self groups r x) (
          λ i. elim (In-append-cases y (members groups r) (x ∷ []) i) [
            | inl old ↦ inl old
            | inr new ↦ inr (In-one new, refl)
          ],
          λ c. elim c [
            | inl old ↦ In-append_left y (members groups r) (x ∷ []) old
            | inr (yx, _) ↦ In-append_right y (members groups r) (x ∷ []) (rw yx here)
          ],
        ))

module _ (Q : String → String → Type 0) (trans : (a b c : String) → Q a b → Q b c → Q a c) where
  -- The new groups hold what the old ones held, and every item under its root.
  pub record Grouped (d : Parents) (items : List String) (groups groups' : Groups) : Type 0 where
    pub members_of :
        (r y : String)
        → In y (members groups' r) ↔ (In y (members groups r) ⊎ (In y items × RootOf d r y))
    pub is_dict : IsDict groups → IsDict groups'

  root_back :
      (d d' : Parents) (bound : ℕ) (r y : String)
      → Keeps Q trans d d'
      → IsForest Q trans bound d
      → In y (keys d)
      → RootOf d' r y
      → RootOf d r y
  root_back d d' bound r y k f i (n, t) =
      let (s, (m, _, u)) = f.reach y i in
      let (m', _, u') = k.follows s y m u in (m, moved_root (one_root d' u' t) u)

  root_on : (d d' : Parents) (r y : String) → Keeps Q trans d d' → RootOf d r y → RootOf d' r y
  root_on d d' r y k (n, t) = let (m, _, u) = k.follows r y n t in (m, u)

  step-Grouped :
      (d d' : Parents) (bound : ℕ) (groups groups' : Groups) (x r : String) (items : List String)
      → Keeps Q trans d d'
      → IsForest Q trans bound d
      → RootOf d r x
      → All (λ y. In y (keys d)) items
      → Grouped d' items (add_member groups r x) groups'
      → Grouped d (x ∷ items) groups groups'
  unfolding add_member
  step-Grouped d d' bound groups groups' x r items k f root_x inside g = record {
    members_of = λ s y. (
      λ i. elim ((g.members_of s y).0 i) [
        | inl known ↦ elim ((In-add_member groups r x s y).0 known) [
          | inl old ↦ inl old
          | inr (yx, rs) ↦ inr (rw yx here, rw (← rs) (rw yx root_x))
        ]
        | inr (later, root_y) ↦ inr (
          there later,
          root_back d d' bound s y k f (All-at (λ y. In y (keys d)) items inside later) root_y,
        )
      ],
      λ c. elim c [
        | inl old ↦ (g.members_of s y).1 (inl ((In-add_member groups r x s y).1 (inl old)))
        | inr (i, root_y) ↦ placed s y i root_y
      ],
    );
    is_dict = λ h. g.is_dict (put-IsDict groups r _ h);
  }
    where
      placed : (s y : String) → In y (x ∷ items) → RootOf d s y → In y (members groups' s)
      placed s y here (n, t) =
          (g.members_of s y).1
            (inl ((In-add_member groups r x s y).1 (inr (refl, one_root d root_x.1 t))))
      placed s y (there i) root_y = (g.members_of s y).1 (inr (i, root_on d d' s y k root_y))

  pub group_all-Grouped :
      (fuel bound : ℕ) (items : List String) (d : Parents) (groups : Groups)
      → IsForest Q trans bound d
      → bound < fuel
      → All (λ y. In y (keys d)) items
      → (groups' : Groups) × (group_all fuel d items groups ≡ ok groups')
        × Grouped d items groups groups'
  unfolding group_all
  group_all-Grouped fuel bound [] d groups f lt inside = (
    groups,
    refl,
    record {
      members_of = λ r y. (λ i. inl i, λ c. elim c [ inl i ↦ i | inr (i, _) ↦ elim i [ ] ]);
      is_dict = λ h. h;
    },
  )
  group_all-Grouped fuel bound (x ∷ items) d groups f lt (i, is) =
      let (r, (n, le, t)) = f.reach x i in
      let (d', found, k) = find-Found Q trans fuel d x r n t (omega arith) in
      let (groups', e, g) =
        group_all-Grouped fuel bound items d' (add_member groups r x)
          (Keeps-IsForest Q trans bound d d' k f) lt (rw (k.same_keys) is) in
      (
        groups',
        rw (found, group_all) e,
        step-Grouped d d' bound groups groups' x r items k f (n, t) is g,
      )
