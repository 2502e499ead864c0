-- ===== src/Base/Dict.antt =====
-- Python's `dict`: entries in the order of their first insertion, with an assignment in place.
pub mod Keyed
use mathlib.Core.List.{List, [], ◌∷◌, map}
use mathlib.Core.Path.{◌≡◌, refl, ap, sym, ◌∙◌}
use mathlib.Core.Logic.{◌⊎◌, inl, inr, ◌≢◌}
use mathlib.Core.Bool.{Bool, true, false}
use mathlib.Core.Option.{Option, none, some}
use native.Mathlib.Omega.{arith}
use rootmem.Base.Tests.{
  ne_of_==, if◌then◌else◌, Bool-cases, Eq, ◌==◌, ==_refl, eq_of_==, ==_ne, ==_sym_false,
}
use rootmem.Base.Lists.{All, In, here, there}

abbrev pub Dict : Type 0 → Type 0 → Type 0
Dict K V = List (K × V)

module _ {K V : Type 0} ⦃e : Eq K⦄ where
  -- d.get(k)
  unfoldable pub get : Dict K V → K → Option V
  get [] k = none
  get ((j, v) ∷ d) k = let rest = get d k in if j == k then some v else rest

  -- d[k] = v
  unfoldable pub put : Dict K V → K → V → Dict K V
  put [] k v = (k, v) ∷ []
  put ((j, w) ∷ d) k v = let rest = put d k v in if j == k then (j, v) ∷ d else (j, w) ∷ rest

  -- d.values()
  abbrev pub values : Dict K V → List V
  values = map (λ p. p.1)

  abbrev pub keys : Dict K V → List K
  keys = map (λ p. p.0)

  pub get-put_self : (d : Dict K V) (k : K) (v : V) → get (put d k v) k ≡ some v
  unfolding get put
  get-put_self [] k v = rw (==_refl k)
  get-put_self ((j, w) ∷ d) k v = elim (Bool-cases (j == k)) [
    | inl t ↦ rw (t, t)
    | inr f ↦ rw (f, f) (get-put_self d k v)
  ]

  pub get-put_ne : (d : Dict K V) (k j : K) (v : V) → (k == j) ≡ false → get (put d k v) j ≡ get d j
  unfolding get put
  get-put_ne [] k j v h = rw h
  get-put_ne ((i, w) ∷ d) k j v h = elim (Bool-cases (i == k)) [
    | inl t ↦ rw (t, eq_of_== i k t, h)
    | inr f ↦ rw f (ground (arith, get-put_ne d k j v h))
  ]

  pub get-put :
      (d : Dict K V) (k j : K) (v : V) → get (put d k v) j ≡ (if k == j then some v else get d j)
  get-put d k j v = elim (Bool-cases (k == j)) [
    | inl t ↦ rw (t, eq_of_== k j t) (get-put_self d j v)
    | inr f ↦ rw f (get-put_ne d k j v f)
  ]

  -- What a dict holds after an assignment is the new value, or stood there under another key.
  pub put-cases :
      (d : Dict K V) (k i : K) (v : V) {x : V}
      → get (put d k v) i ≡ some x
      → ((k ≡ i) × (v ≡ x)) ⊎ ((k ≢ i) × (get d i ≡ some x))
  put-cases d k i v {x} h = elim (Bool-cases (k == i)) [
    | inl t ↦
        let q = eq_of_== k i t in
        let e : some v ≡ some x = sym (get-put_self d k v) ∙ ap (get (put d k v)) q ∙ h in
        inl (q, cc e)
    | inr f ↦ inr (ne_of_== k i f, sym (get-put_ne d k i v f) ∙ h)
  ]

  -- A stored value is among `d.values()`.
  pub In-values : (d : Dict K V) (k : K) {v : V} → get d k ≡ some v → In v (values d)
  unfolding get
  In-values [] k h = cc
  In-values ((j, w) ∷ d) k {v} h = elim (Bool-cases (j == k)) [
    | inl t ↦ let q : w ≡ v = ground arith in rw q here
    | inr f ↦ there (In-values d k (ground arith))
  ]

  -- Each key stands once.
  abbrev pub IsDict : Dict K V → Type 0
  IsDict [] = Unit
  IsDict ((k, v) ∷ d) = (get d k ≡ none) × IsDict d

  pub put-IsDict : (d : Dict K V) (k : K) (v : V) → IsDict d → IsDict (put d k v)
  unfolding get put
  put-IsDict [] k v h = (refl, tt)
  put-IsDict ((j, w) ∷ d) k v h = elim (Bool-cases (j == k)) [
    | inl t ↦ rw t h
    | inr f ↦ rw f (get-put_ne d k j v (==_sym_false j k f) ∙ h.0, put-IsDict d k v h.1)
  ]
