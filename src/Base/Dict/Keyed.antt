-- ===== src/Base/Dict/Keyed.antt =====
-- Dictionaries that store each value under its own id, as the repositories do.
use mathlib.Core.List.{[], ◌∷◌, ◌++◌}
use mathlib.Core.Path.{◌≡◌, refl, sym, ap, ◌∙◌}
use mathlib.Core.Logic.{◌⊎◌, inl, inr}
use mathlib.Core.Option.{none, some}
use native.Mathlib.Omega.{arith}
use rootmem.Base.Tests.{==_refl, Bool-cases, Eq, ◌==◌, eq_of_==, ==_sym_false, ==_of_eq}
use rootmem.Base.Lists.{All, In, here, there, In-cases}
use rootmem.Base.Dict.{IsDict, Dict, get, put, values, keys, get-put_ne, get-put_self}

module _ {K V : Type 0} ⦃e : Eq K⦄ (id : V → K) where
  -- Each key stands once, and is the id of its value.
  abbrev pub IsKeyed : Dict K V → Type 0
  IsKeyed [] = Unit
  IsKeyed ((k, v) ∷ d) = (id v ≡ k) × (get d k ≡ none) × IsKeyed d

  pub id-get : (d : Dict K V) (k : K) {v : V} → IsKeyed d → get d k ≡ some v → id v ≡ k
  unfolding get
  id-get [] k h g = cc
  id-get ((j, w) ∷ d) k {v} h g = elim (Bool-cases (j == k)) [
    | inl t ↦ let q : w ≡ v = ground arith in sym (ap id q) ∙ h.0 ∙ eq_of_== j k t
    | inr f ↦ id-get d k h.2 (ground arith)
  ]

  -- What stands among the values is found under its id.
  pub get-In : (d : Dict K V) {v : V} → IsKeyed d → In v (values d) → get d (id v) ≡ some v
  unfolding get
  get-In [] h i = elim i [ ]
  get-In ((j, w) ∷ d) h here = rw (==_of_eq j (id w) (sym h.0))
  get-In ((j, w) ∷ d) {v} h (there i) = elim (Bool-cases (j == id v)) [
    | inl t ↦ let p = get-In d h.2 i in let q = eq_of_== j (id v) t in cc (h.1, ap (get d) q)
    | inr f ↦ rw f (get-In d h.2 i)
  ]

  pub put-IsKeyed : (d : Dict K V) (k : K) (v : V) → id v ≡ k → IsKeyed d → IsKeyed (put d k v)
  unfolding put get
  put-IsKeyed [] k v q h = (q, refl, tt)
  put-IsKeyed ((j, w) ∷ d) k v q h = elim (Bool-cases (j == k)) [
    | inl t ↦ rw t (q ∙ sym (eq_of_== j k t), h.1, h.2)
    | inr f ↦ rw f (h.0, get-put_ne d k j v (==_sym_false j k f) ∙ h.1, put-IsKeyed d k v q h.2)
  ]

module _ {K V : Type 0} ⦃e : Eq K⦄ where
  -- A new key goes behind all others.
  pub values-put_fresh :
      (d : Dict K V) (k : K) (v : V) → get d k ≡ none → values (put d k v) ≡ values d ++ (v ∷ [])
  unfolding put get
  values-put_fresh [] k v h = refl
  values-put_fresh ((j, w) ∷ d) k v h = elim (Bool-cases (j == k)) [
    | inl t ↦ absurd (ground arith)
    | inr f ↦ rw f (ap (λ l. w ∷ l) (values-put_fresh d k v (ground arith)))
  ]

  -- An assignment to a key that is there keeps the keys.
  pub keys-put_known :
      (d : Dict K V) (k : K) (v w : V) → get d k ≡ some w → keys (put d k v) ≡ keys d
  unfolding put get
  keys-put_known [] k v w h = cc
  keys-put_known ((j, u) ∷ d) k v w h = elim (Bool-cases (j == k)) [
    | inl t ↦ rw t
    | inr f ↦ rw f (ap (λ l. j ∷ l) (keys-put_known d k v w (ground arith)))
  ]

  pub In-keys : (d : Dict K V) (k : K) {v : V} → get d k ≡ some v → In k (keys d)
  unfolding get
  In-keys [] k h = cc
  In-keys ((j, u) ∷ d) k {v} h = elim (Bool-cases (j == k)) [
    | inl t ↦ rw (eq_of_== j k t) here
    | inr f ↦ there (In-keys d k {v = v} (ground arith))
  ]

  pub All-values-put {κ} :
      (P : V → Type κ) (d : Dict K V) (k : K) (v : V)
      → P v
      → All P (values d)
      → All P (values (put d k v))
  unfolding put
  All-values-put P [] k v p h = (p, tt)
  All-values-put P ((j, w) ∷ d) k v p h = elim (Bool-cases (j == k)) [
    | inl t ↦ rw t (p, h.1)
    | inr f ↦ rw f (h.0, All-values-put P d k v p h.1)
  ]

  pub keys-get : (d : Dict K V) (k : K) → In k (keys d) → (v : V) × (get d k ≡ some v)
  unfolding get
  keys-get [] k i = elim i [ ]
  keys-get ((j, u) ∷ d) k here = (u, rw (==_refl k))
  keys-get ((j, u) ∷ d) k (there i) = elim (Bool-cases (j == k)) [
    | inl t ↦ (u, rw t)
    | inr f ↦ let (v, h) = keys-get d k i in (v, rw f h)
  ]

  -- In a dict that holds each key once, a value is found under a key.
  pub values-get :
      (d : Dict K V) (v : V) → IsDict d → In v (values d) → (k : K) × (get d k ≡ some v)
  unfolding get
  values-get [] v h i = elim i [ ]
  values-get ((j, u) ∷ d) v h here = (j, rw (==_refl j))
  values-get ((j, u) ∷ d) v (new, h) (there i) =
      let (k, found) = values-get d v h i in
      (
        k,
        elim (Bool-cases (j == k)) [
          | inl t ↦ let q = eq_of_== j k t in absurd (cc (new, found, ap (get d) q))
          | inr f ↦ rw f found
        ],
      )

  pub All-put {κ} :
      (P : K × V → Type κ) (d : Dict K V) (k : K) (v : V) → P (k, v) → All P d → All P (put d k v)
  unfolding put
  All-put P [] k v p h = (p, tt)
  All-put P ((j, w) ∷ d) k v p h = elim (Bool-cases (j == k)) [
    | inl t ↦ rw t (rw (eq_of_== j k t) p, h.1)
    | inr f ↦ rw f (h.0, All-put P d k v p h.1)
  ]

  pub All-get {κ} :
      (P : K × V → Type κ) (d : Dict K V) (k : K) {v : V} → All P d → get d k ≡ some v → P (k, v)
  unfolding get
  All-get P [] k h e = cc
  All-get P ((j, w) ∷ d) k {v} h e = elim (Bool-cases (j == k)) [
    | inl t ↦ let q : w ≡ v = ground arith in rw (← eq_of_== j k t) (rw (← q) h.0)
    | inr f ↦ All-get P d k h.1 (ground arith)
  ]

  -- In a dict that holds each key once, an entry is found under its key.
  pub get-entry : (d : Dict K V) (p : K × V) → IsDict d → In p d → get d p.0 ≡ some p.1
  unfolding get
  get-entry [] p h i = elim i [ ]
  get-entry ((j, u) ∷ d) p h here = rw (==_refl j)
  get-entry ((j, u) ∷ d) p (new, h) (there i) = elim (Bool-cases (j == p.0)) [
    | inl t ↦
        let q = eq_of_== j p.0 t in
        let found = get-entry d p h i in absurd (cc (new, found, ap (get d) q))
    | inr f ↦ rw f (get-entry d p h i)
  ]

  -- A key after an assignment was there before or is the one assigned.
  pub keys-put_cases :
      (d : Dict K V) (k : K) (v : V) (x : K) → In x (keys (put d k v)) → In x (keys d) ⊎ (x ≡ k)
  unfolding put
  keys-put_cases [] k v x here = inr refl
  keys-put_cases [] k v x (there i) = elim i [ ]
  keys-put_cases ((j, w) ∷ d) k v x i = elim (Bool-cases (j == k)) [
    | inl same ↦ inl (rw same at i)
    | inr differ ↦ elim (In-cases x j (rw differ at i)) [
      | inl head ↦ inl (rw head here)
      | inr tail ↦ elim (keys-put_cases d k v x tail) [
        | inl old ↦ inl (there old)
        | inr new ↦ inr new
      ]
    ]
  ]

  -- An assignment keeps every key.
  pub put-keeps :
      (d : Dict K V) (k j : K) (v : V) {w : V}
      → get d j ≡ some w
      → (u : V) × (get (put d k v) j ≡ some u)
  put-keeps d k j v {w} h = elim (Bool-cases (k == j)) [
    | inl t ↦ (v, rw (← eq_of_== k j t) (get-put_self d k v))
    | inr f ↦ (w, get-put_ne d k j v f ∙ h)
  ]
