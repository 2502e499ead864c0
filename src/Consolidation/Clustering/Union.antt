-- ===== src/Consolidation/Clustering/Union.antt =====
-- `union` of src/rootmem/consolidation/clustering.py. `Q` is any equivalence that relates the items.
use rootmem.Base.{
  ℕ, suc, ◌<◌, String, ◌≡◌, refl, sym, ap, ◌∙◌, false, ◌==◌, some, arith, Bool-cases, inl, inr,
  eq_of_==, string_eq, ok, In,
}
use rootmem.Base.Dict
use rootmem.Base.Dict.{keys, get-put_self, get-put_ne}
use rootmem.Base.Dict.Keyed.{keys-put_known}
use rootmem.Consolidation.Clustering.{Parents, union}
use rootmem.Consolidation.Clustering.Roots.{
  Reaches, some_eq, root_is_root, Within, SameRoot, linked, Reaches-linked,
}
use rootmem.Consolidation.Clustering.Find.{
  PointsIn, Keeps, Keeps-trans, find-Found, IsForest, Keeps-IsForest, Keeps-SameRoot, Reaches-Q,
  moved_root,
}

module _ (Q : String → String → Type 0) (trans : (a b c : String) → Q a b → Q b c → Q a c)
    (same : (a : String) → Q a a) (symm : (a b : String) → Q a b → Q b a) where
  -- What `union` leaves: the same keys, a forest one step higher, all that had one root still so,
  -- and now also the two items.
  pub record Joined (bound : ℕ) (d : Parents) (a b : String) (d' : Parents) : Type 0 where
    pub same_keys : keys d' ≡ keys d
    pub forest : IsForest Q trans (suc bound) d'
    pub still : (x y : String) → SameRoot d x y → SameRoot d' x y
    pub joined : SameRoot d' a b

  wider : (bound : ℕ) (d : Parents) → IsForest Q trans bound d → IsForest Q trans (suc bound) d
  wider bound d f = record {
    reach = λ x i. let (r, (n, le, t)) = f.reach x i in (r, (n, omega arith, t));
    points = f.points;
  }

  Joined-same :
      (bound : ℕ) (d d' : Parents) (a b : String)
      → IsForest Q trans bound d
      → Keeps Q trans d d'
      → SameRoot d' a b
      → Joined bound d a b d'
  Joined-same bound d d' a b f k one = record {
    same_keys = k.same_keys;
    forest = wider bound d' (Keeps-IsForest Q trans bound d d' k f);
    still = λ x y. Keeps-SameRoot Q trans d d' x y k;
    joined = one;
  }

  module _ (d : Parents) (ra rb : String) (ha : Dict.get d ra ≡ some ra)
      (hb : Dict.get d rb ≡ some rb) (differ : (ra == rb) ≡ false) where
    after_link : Parents
    after_link = linked d ra rb ha hb differ

    link_reach :
        (r x : String) (n : ℕ) → Reaches d r x n → (s : String) × Within after_link s x (suc n)
    unfolding after_link
    link_reach r x n t = elim (Reaches-linked d ra rb ha hb differ t) [
      | inl (_, w) ↦ (rb, w)
      | inr (_, (k, le, u)) ↦ (r, (k, omega arith, u))
    ]

    link_still : (x y : String) → SameRoot d x y → SameRoot after_link x y
    unfolding after_link
    link_still x y (r, n, m, s, t) = elim (Reaches-linked d ra rb ha hb differ s) [
      | inl (e, (k, _, u)) ↦ elim (Reaches-linked d ra rb ha hb differ t) [
        | inl (_, (k', _, u')) ↦ (rb, k, k', u, u')
        | inr (n_a, _) ↦ absurd (n_a e)
      ]
      | inr (n_a, (k, _, u)) ↦ elim (Reaches-linked d ra rb ha hb differ t) [
        | inl (e, (k', _, u')) ↦ absurd (n_a e)
        | inr (_, (k', _, u')) ↦ (r, k, k', u, u')
      ]
    ]

    link_joins :
        (a b : String) (n m : ℕ) → Reaches d ra a n → Reaches d rb b m → SameRoot after_link a b
    unfolding after_link
    link_joins a b n m s t = elim (Reaches-linked d ra rb ha hb differ s) [
      | inr (n_a, _) ↦ absurd (n_a refl)
      | inl (_, (k, _, u)) ↦ elim (Reaches-linked d ra rb ha hb differ t) [
        | inl (e, (k', _, u')) ↦ (rb, k, k', u, u')
        | inr (_, (k', _, u')) ↦ (rb, k, k', u, u')
      ]
    ]

    link_points : PointsIn Q trans d → Q ra rb → PointsIn Q trans after_link
    unfolding after_link
    link_points q e x p h = elim (Bool-cases (ra == x)) [
      | inl t ↦
          let ax = eq_of_== ra x t in
          let bp = some_eq (sym (get-put_self d ra rb) ∙ ap (Dict.get (Dict.put d ra rb)) ax ∙ h) in
          rw (← ax) (rw (← bp) e)
      | inr f ↦ q x p (sym (get-put_ne d ra x rb f) ∙ h)
    ]

    pub Joined-linked :
        (bound : ℕ) (a b : String) (n m : ℕ)
        → IsForest Q trans bound d
        → Reaches d ra a n
        → Reaches d rb b m
        → Q ra rb
        → Joined bound d a b (Dict.put d ra rb)
    unfolding after_link
    Joined-linked bound a b n m f s t e = record {
      same_keys = keys-put_known d ra rb ra ha;
      forest = record {
        reach = λ x i.
            let (r, (k, le, u)) = f.reach x (rw (sym (keys-put_known d ra rb ra ha)) i) in
            let (z, (k', le', u')) = link_reach r x k u in (z, (k', omega arith, u'));
        points = link_points f.points e;
      };
      still = link_still;
      joined = link_joins a b n m s t;
    }

  Joined-after :
      (bound : ℕ) (d d1 d2 : Parents) (a b : String)
      → Keeps Q trans d d1
      → Joined bound d1 a b d2
      → Joined bound d a b d2
  Joined-after bound d d1 d2 a b k j = record {
    same_keys = j.same_keys ∙ k.same_keys;
    forest = j.forest;
    still = λ x y s. j.still x y (Keeps-SameRoot Q trans d d1 x y k s);
    joined = j.joined;
  }

  -- With fuel above the forest's height, `union` joins two keys that `Q` relates.
  pub union-Joined :
      (fuel bound : ℕ) (d : Parents) (a b : String)
      → IsForest Q trans bound d
      → bound < fuel
      → In a (keys d)
      → In b (keys d)
      → Q a b
      → (d' : Parents) × (union fuel d a b ≡ ok d') × Joined bound d a b d'
  unfolding union
  union-Joined fuel bound d a b f lt ia ib e =
      let (ra, (n, le, s)) = f.reach a ia in
      let (rb, (m, le', t)) = f.reach b ib in
      let (d1, found_a, k1) = find-Found Q trans fuel d a ra n s (omega arith) in
      let (m1, le1, t1) = k1.follows rb b m t in
      let (d2, found_b, k2) = find-Found Q trans fuel d1 b rb m1 t1 (omega arith) in
      let k = Keeps-trans Q trans d d1 d2 k1 k2 in
      let (n2, _, s2) = k.follows ra a n s in
      let (m2, _, t2) = k.follows rb b m t in
      let f2 = Keeps-IsForest Q trans bound d d2 k f in
      let linked_roots : Q ra rb =
        trans ra a rb (symm a ra (Reaches-Q Q trans same symm d2 ra a n2 f2.points s2))
          (trans a b rb e (Reaches-Q Q trans same symm d2 rb b m2 f2.points t2)) in
      elim (Bool-cases (ra == rb)) [
        | inl same_root ↦
            let one = eq_of_== ra rb same_root in
            (
              d2,
              rw (found_a, found_b, same_root) refl,
              Joined-same bound d d2 a b f k (rb, n2, m2, moved_root one s2, t2),
            )
        | inr differ ↦ (
          Dict.put d2 ra rb,
          rw (found_a, found_b, differ) refl,
          Joined-after bound d d2 (Dict.put d2 ra rb) a b k (
              Joined-linked d2 ra rb (root_is_root d2 s2) (root_is_root d2 t2) differ bound a b n2
                m2 f2 s2 t2 linked_roots),
        )
      ]
