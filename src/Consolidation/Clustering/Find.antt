-- ===== src/Consolidation/Clustering/Find.antt =====
-- `find` of src/rootmem/consolidation/clustering.py. `Q` is any transitive relation in which every
-- parent stands.
use rootmem.Base.{
  ℕ, zero, suc, ◌<◌, String, ◌≡◌, refl, sym, ap, ◌∙◌, false, ◌==◌, some, arith, Bool-cases, inl,
  inr, eq_of_==, string_eq, ==_refl, ok, In,
}
use rootmem.Base.Dict
use rootmem.Base.Dict.{keys, get-put_self, get-put_ne}
use rootmem.Base.Dict.Keyed.{keys-put_known}
use rootmem.Consolidation.Clustering.{Parents, find}
use rootmem.Consolidation.Clustering.Roots.{
  Reaches, root, step, some_eq, root_only, Within, halved, Reaches-halved, SameRoot,
}

pub moved_root :
    {d : Parents} {r r' x : String} {n : ℕ} → r ≡ r' → Reaches d r x n → Reaches d r' x n
moved_root e t = rw (← e) t

module _ (Q : String → String → Type 0) (trans : (a b c : String) → Q a b → Q b c → Q a c) where
  abbrev pub PointsIn : Parents → Type 0
  PointsIn d = (x p : String) → Dict.get d x ≡ some p → Q x p

  -- The same keys and roots, no longer paths, and parents still in `Q`.
  pub record Keeps (d d' : Parents) : Type 0 where
    pub same_keys : keys d' ≡ keys d
    pub follows : (r x : String) (n : ℕ) → Reaches d r x n → Within d' r x n
    pub points : PointsIn d → PointsIn d'

  pub Keeps-refl : (d : Parents) → Keeps d d
  Keeps-refl d = record {
    same_keys = refl;
    follows = λ r x n t. (n, omega arith, t);
    points = λ q. q;
  }

  pub Keeps-trans : (a b c : Parents) → Keeps a b → Keeps b c → Keeps a c
  Keeps-trans a b c h k = record {
    same_keys = k.same_keys ∙ h.same_keys;
    follows = λ r x n t.
        let (n', le, t') = h.follows r x n t in
        let (n'', le', t'') = k.follows r x n' t' in (n'', omega arith, t'');
    points = λ q. k.points (h.points q);
  }

  halved-Keeps :
      (d : Parents) (x p pp : String) (hx : Dict.get d x ≡ some p) (hp : Dict.get d p ≡ some pp)
      → Keeps d (halved d x p pp hx hp)
  halved-Keeps d x p pp hx hp = record {
    same_keys = keys-put_known d x pp p hx;
    follows = λ r y n t. Reaches-halved d x p pp hx hp t;
    points = λ q y z h. elim (Bool-cases (x == y)) [
      | inl t ↦
          let xy = eq_of_== x y t in
          let e = some_eq (sym (get-put_self d x pp) ∙ ap (Dict.get (Dict.put d x pp)) xy ∙ h) in
          rw (← xy) (rw (← e) (trans x p pp (q x p hx) (q p pp hp)))
      | inr f ↦ q y z (sym (get-put_ne d x y pp f) ∙ h)
    ];
  }

  abbrev pub Found : ℕ → Parents → String → String → Type 0
  Found fuel d x r = (d' : Parents) × (find fuel d x ≡ ok (r, d')) × Keeps d d'

  find_root :
      (fuel : ℕ) (d : Parents) (x r : String)
      → Dict.get d x ≡ some x
      → x ≡ r
      → Found (suc fuel) d x r
  unfolding find
  find_root fuel d x r h e =
      (d, rw (h, find) (rw (==_refl x) (ap (λ s. ok (s, d)) e)), Keeps-refl d)

  find_step :
      (fuel : ℕ) (d : Parents) (x p pp r : String) (h : Dict.get d x ≡ some p)
      (hp : Dict.get d p ≡ some pp)
      → (p == x) ≡ false
      → Found fuel (halved d x p pp h hp) pp r
      → Found (suc fuel) d x r
  unfolding find
  find_step fuel d x p pp r h hp differ (d', found, keeps) = (
    d',
    rw (h, find) (rw differ (rw (hp, find) found)),
    Keeps-trans d (halved d x p pp h hp) d' (halved-Keeps d x p pp h hp) keeps,
  )

  grandparent :
      (d : Parents) (r p : String) (n : ℕ)
      → Reaches d r p n
      → (pp : String) × (Dict.get d p ≡ some pp) × Within d r pp n
  grandparent d r p zero (root h e) = (p, h, (0, omega arith, root h e))
  grandparent d r p (suc n) (step {p = pp} h t) = (pp, h, (n, omega arith, t))

  -- With more fuel than the path has steps, `find` returns the root.
  pub find-Found :
      (fuel : ℕ) (d : Parents) (x r : String) (n : ℕ)
      → Reaches d r x n
      → n < fuel
      → Found fuel d x r
  find-Found zero d x r n t lt = elim lt [ ]
  find-Found (suc fuel) d x r zero (root h e) lt = find_root fuel d x r h e
  find-Found (suc fuel) d x r (suc n) (step {p = p} h t) lt = elim (Bool-cases (p == x)) [
    | inl same ↦
        let self = h ∙ ap some (eq_of_== p x same) in
        find_root fuel d x r self (root_only d self (step h t))
    | inr differ ↦
        let (pp, hp, (k, le, u)) = grandparent d r p n t in
        let (k', le', u') = Reaches-halved d x p pp h hp u in
        find_step fuel d x p pp r h hp differ
          (find-Found fuel (halved d x p pp h hp) pp r k' u' (omega arith))
  ]

  -- A forest: every key reaches a root in at most so many steps.
  pub record IsForest (bound : ℕ) (d : Parents) : Type 0 where
    pub reach : (x : String) → In x (keys d) → (r : String) × Within d r x bound
    pub points : PointsIn d

  pub Keeps-IsForest :
      (bound : ℕ) (d d' : Parents) → Keeps d d' → IsForest bound d → IsForest bound d'
  Keeps-IsForest bound d d' k f = record {
    reach = λ x i.
        let (r, (n, le, t)) = f.reach x (rw (sym k.same_keys) i) in
        let (n', le', t') = k.follows r x n t in (r, (n', omega arith, t'));
    points = k.points f.points;
  }

  pub Keeps-SameRoot :
      (d d' : Parents) (a b : String) → Keeps d d' → SameRoot d a b → SameRoot d' a b
  Keeps-SameRoot d d' a b k (r, n, m, s, t) =
      let (n', _, s') = k.follows r a n s in
      let (m', _, t') = k.follows r b m t in (r, n', m', s', t')

  module _ (same : (a : String) → Q a a) (symm : (a b : String) → Q a b → Q b a) where
    pub Reaches-Q : (d : Parents) (r x : String) (n : ℕ) → PointsIn d → Reaches d r x n → Q x r
    Reaches-Q d r x zero q (root h e) = rw (← e) (same x)
    Reaches-Q d r x (suc n) q (step {p = p} h t) = trans x p r (q x p h) (Reaches-Q d r p n q t)

    pub SameRoot-Q : (d : Parents) (a b : String) → PointsIn d → SameRoot d a b → Q a b
    SameRoot-Q d a b q (r, n, m, s, t) =
        trans a r b (Reaches-Q d r a n q s) (symm b r (Reaches-Q d r b m q t))
