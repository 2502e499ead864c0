-- ===== src/Consolidation/Clustering/Roots.antt =====
-- The forest behind `_parent`: which root an item reaches, and in how many steps. Path halving and
-- the link of one root to another are the only changes.
use rootmem.Base.{
  ℕ, suc, ◌≤◌, String, ◌≡◌, ◌≢◌, refl, sym, ap, ◌∙◌, true, false, ◌==◌, some, arith, Bool-cases,
  inl, inr, ◌⊎◌, eq_of_==, string_eq, ne_of_==,
}
use rootmem.Base.Dict
use rootmem.Base.Dict.{get-put_self, get-put_ne}
use rootmem.Consolidation.Clustering.{Parents}

-- `x` reaches the root `r` along the parents in the number of steps.
pub data Reaches (d : Parents) (r : String) : String → ℕ → Type 0 where
  root : {x : String} → Dict.get d x ≡ some x → x ≡ r → Reaches d r x 0
  step : {x p : String} {n : ℕ} → Dict.get d x ≡ some p → Reaches d r p n → Reaches d r x (suc n)

pub some_eq : {a b : String} → some a ≡ some b → a ≡ b
some_eq p = cc

-- From a root only the root is reached.
pub root_only :
    (d : Parents) {r x : String} {n : ℕ} → Dict.get d x ≡ some x → Reaches d r x n → x ≡ r
root_only d g (root h e) = e
root_only d g (step h t) =
    let q = some_eq (sym g ∙ h) in q ∙ root_only d (ap (Dict.get d) (sym q) ∙ g ∙ ap some q) t

-- An item reaches one root.
pub one_root : (d : Parents) {r s x : String} {n m : ℕ} → Reaches d r x n → Reaches d s x m → r ≡ s
one_root d (root h e) t = sym e ∙ root_only d h t
one_root d (step h t) (root g e) = sym (root_only d g (step h t)) ∙ e
one_root d (step h t) (step g u) = one_root d t (moved (some_eq (sym g ∙ h)) u)
  where
    moved : {a b s' : String} {k : ℕ} → a ≡ b → Reaches d s' a k → Reaches d s' b k
    moved e v = rw (← e) v

pub root_is_root : (d : Parents) {r x : String} {n : ℕ} → Reaches d r x n → Dict.get d r ≡ some r
root_is_root d (root h e) = ap (Dict.get d) (sym e) ∙ h ∙ ap some e
root_is_root d (step h t) = root_is_root d t

-- Reaching in at most so many steps.
abbrev pub Within : Parents → String → String → ℕ → Type 0
Within d r x n = (k : ℕ) × (k ≤ n) × Reaches d r x k

-- Two items have one root.
abbrev pub SameRoot : Parents → String → String → Type 0
SameRoot d a b = (r : String) × (n : ℕ) × (m : ℕ) × Reaches d r a n × Reaches d r b m

module _ (d : Parents) (x p pp : String) (hx : Dict.get d x ≡ some p)
    (hp : Dict.get d p ≡ some pp) where
  -- Halving: `x` is moved to its grandparent.
  abbrev pub halved : Parents
  halved = Dict.put d x pp

  halved_self : (y : String) → (x == y) ≡ true → Dict.get halved y ≡ some pp
  halved_self y t = ap (Dict.get halved) (sym (eq_of_== x y t)) ∙ get-put_self d x pp

  halved_parent : Dict.get halved p ≡ some pp
  halved_parent = elim (Bool-cases (x == p)) [
    | inl t ↦ halved_self p t
    | inr f ↦ get-put_ne d x p pp f ∙ hp
  ]

  pub Reaches-halved : {r y : String} {n : ℕ} → Reaches d r y n → Within halved r y n
  Reaches-halved {r} {y} (root h e) = elim (Bool-cases (x == y)) [
    | inl t ↦
        let xy = eq_of_== x y t in
        let py = some_eq (sym hx ∙ ap (Dict.get d) xy ∙ h) in
        let ppy = some_eq (sym hp ∙ ap (Dict.get d) py ∙ h) in
        (0, omega arith, root (halved_self y t ∙ ap some ppy) e)
    | inr f ↦ (0, omega arith, root (get-put_ne d x y pp f ∙ h) e)
  ]
  Reaches-halved {r} {y} (step {p = q} h (root g e)) = elim (Bool-cases (x == y)) [
    | inl t ↦
        let qp = some_eq (sym h ∙ ap (Dict.get d) (sym (eq_of_== x y t)) ∙ hx) in
        let ppq = some_eq (sym hp ∙ ap (Dict.get d) (sym qp) ∙ g) in
        (
          1,
          omega arith,
          step (halved_self y t ∙ ap some ppq)
              (root (ap (Dict.get halved) qp ∙ halved_parent ∙ ap some ppq) e),
        )
    | inr f ↦
        let (k, le, u) = Reaches-halved (root g e) in
        (suc k, omega arith, step (get-put_ne d x y pp f ∙ h) u)
  ]
  Reaches-halved {r} {y} (step {p = q} h (step {p = q'} g t)) = elim (Bool-cases (x == y)) [
    | inl same ↦
        let qp = some_eq (sym h ∙ ap (Dict.get d) (sym (eq_of_== x y same)) ∙ hx) in
        let ppq = some_eq (sym hp ∙ ap (Dict.get d) (sym qp) ∙ g) in
        let (k, le, u) = Reaches-halved t in
        (suc k, omega arith, step (halved_self y same ∙ ap some ppq) u)
    | inr f ↦
        let (k, le, u) = Reaches-halved (step g t) in
        (suc k, omega arith, step (get-put_ne d x y pp f ∙ h) u)
  ]

module _ (d : Parents) (a b : String) (ha : Dict.get d a ≡ some a) (hb : Dict.get d b ≡ some b)
    (differ : (a == b) ≡ false) where
  -- Linking: the root `a` is put under the root `b`.
  abbrev pub linked : Parents
  linked = Dict.put d a b

  pub root_b : Dict.get linked b ≡ some b
  root_b = get-put_ne d a b b differ ∙ hb

  -- What reached `a` reaches `b`, in one step more at most; the rest is as it was.
  pub Reaches-linked :
      {r x : String} {n : ℕ}
      → Reaches d r x n
      → ((r ≡ a) × Within linked b x (suc n)) ⊎ ((r ≢ a) × Within linked r x n)
  Reaches-linked {r} {x} (root h e) = elim (Bool-cases (a == x)) [
    | inl t ↦
        let ax = eq_of_== a x t in
        inl (
          sym e ∙ sym ax,
          (
            1,
            omega arith,
            step (ap (Dict.get linked) (sym ax) ∙ get-put_self d a b) (root root_b refl),
          ),
        )
    | inr f ↦
        inr (
          λ ra. ne_of_== a x f (sym ra ∙ sym e),
          (0, omega arith, root (get-put_ne d a x b f ∙ h) e),
        )
  ]
  Reaches-linked {r} {x} (step {p = p} h t) = elim (Bool-cases (a == x)) [
    | inl same ↦
        let ax = eq_of_== a x same in
        let ra = root_only d (ap (Dict.get d) (sym ax) ∙ ha ∙ ap some ax) (step h t) in
        inl (
          sym ra ∙ sym ax,
          (
            1,
            omega arith,
            step (ap (Dict.get linked) (sym ax) ∙ get-put_self d a b) (root root_b refl),
          ),
        )
    | inr f ↦ elim (Reaches-linked t) [
      | inl (ra, (k, le, u)) ↦ inl (ra, (suc k, omega arith, step (get-put_ne d a x b f ∙ h) u))
      | inr (n_a, (k, le, u)) ↦ inr (n_a, (suc k, omega arith, step (get-put_ne d a x b f ∙ h) u))
    ]
  ]
