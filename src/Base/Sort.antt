-- ===== src/Base/Sort.antt =====
-- Python's stable `sorted` and `list.sort`. `before a b` says that `a` must stand before `b`: for
-- `key=k` it is `k(a) < k(b)`, with `reverse=True` it is `k(b) < k(a)`; ties keep their order.
use Prim.Native.Nat.{ℕ, zero, suc}
use mathlib.Core.List.{List, [], ◌∷◌, Perm}
use mathlib.Core.List.Perm
use mathlib.Core.Path.{◌≡◌, refl, ap, ◌∙◌}
use mathlib.Core.Logic.{inl, inr}
use mathlib.Core.Bool.{Bool, true, false}
use native.Mathlib.Omega.{arith}
use rootmem.Base.Tests.{if◌then◌else◌, Bool-cases}
use rootmem.Base.Lists.{All, All-take, keep, take}

module _ {ℓ} {A : Type ℓ} (before : A → A → Bool) where
  unfoldable pub insert_sorted : A → List A → List A
  insert_sorted x [] = x ∷ []
  insert_sorted x (y ∷ ys) =
      let rest = insert_sorted x ys in if before y x then y ∷ rest else x ∷ y ∷ ys

  unfoldable pub sort : List A → List A
  unfolding insert_sorted
  sort [] = []
  sort (x ∷ xs) = insert_sorted x (sort xs)

  -- No later element must stand before an earlier one.
  abbrev pub IsSorted : List A → Type 0
  IsSorted [] = Unit
  IsSorted (x ∷ xs) = All (λ y. before y x ≡ false) xs × IsSorted xs

  pub take-IsSorted : (n : ℕ) (xs : List A) → IsSorted xs → IsSorted (take n xs)
  take-IsSorted zero xs s = tt
  take-IsSorted (suc n) [] s = tt
  take-IsSorted (suc n) (x ∷ xs) (h, s) =
      (All-take (λ y. before y x ≡ false) n xs h, take-IsSorted n xs s)

  insert_sorted-perm : (x : A) (ys : List A) → Perm (insert_sorted x ys) (x ∷ ys)
  unfolding insert_sorted
  insert_sorted-perm x [] = Perm.refl (x ∷ [])
  insert_sorted-perm x (y ∷ ys) = elim (Bool-cases (before y x)) [
    | inl t ↦ rw t (Perm.trans (Perm.cons y (insert_sorted-perm x ys)) (Perm.swap x y ys))
    | inr f ↦ rw f (Perm.refl (x ∷ y ∷ ys))
  ]

  pub sort-perm : (xs : List A) → Perm (sort xs) xs
  unfolding sort
  sort-perm [] = Perm.refl []
  sort-perm (x ∷ xs) = Perm.trans (insert_sorted-perm x (sort xs)) (Perm.cons x (sort-perm xs))

  All-insert_sorted {κ} :
      (P : A → Type κ) (x : A) (ys : List A) → P x → All P ys → All P (insert_sorted x ys)
  unfolding insert_sorted
  All-insert_sorted P x [] px h = (px, tt)
  All-insert_sorted P x (y ∷ ys) px h = elim (Bool-cases (before y x)) [
    | inl t ↦ rw t (h.0, All-insert_sorted P x ys px h.1)
    | inr f ↦ rw f (px, h)
  ]

  pub All-sort {κ} : (P : A → Type κ) (xs : List A) → All P xs → All P (sort xs)
  unfolding sort
  All-sort P [] h = tt
  All-sort P (x ∷ xs) h = All-insert_sorted P x (sort xs) h.0 (All-sort P xs h.1)

  -- Elements that pass `p` and tie with one another keep their order.
  module _ (p : A → Bool) (tie : (x y : A) → p x ≡ true → p y ≡ true → before y x ≡ false) where
    keep-insert_sorted : (x : A) (ys : List A) → keep p (insert_sorted x ys) ≡ keep p (x ∷ ys)
    unfolding insert_sorted
    keep-insert_sorted x [] = refl
    keep-insert_sorted x (y ∷ ys) = elim (Bool-cases (before y x)) [
      | inl t ↦ rw t (ground (arith, keep-insert_sorted x ys, tie x y))
      | inr f ↦ rw f
    ]

    pub keep-sort : (xs : List A) → keep p (sort xs) ≡ keep p xs
    unfolding sort
    keep-sort [] = refl
    keep-sort (x ∷ xs) =
        keep-insert_sorted x (sort xs) ∙ ap (λ r. if p x then x ∷ r else r) (keep-sort xs)

  -- On the values that `N` admits, `before` is a strict weak order.
  module _ {κ} (N : A → Type κ) (asym : (a b : A) → before a b ≡ true → before b a ≡ false)
      (weak : (a b c : A)
        → N a
        → N b
        → N c
        → before c b ≡ false
        → before b a ≡ false
        → before c a ≡ false) where
    All-below :
        (x y : A) (ys : List A)
        → N x
        → N y
        → All N ys
        → before y x ≡ false
        → All (λ z. before z y ≡ false) ys
        → All (λ z. before z x ≡ false) ys
    All-below x y [] nx ny n h b = tt
    All-below x y (z ∷ ys) nx ny n h b =
        (weak x y z nx ny n.0 b.0 h, All-below x y ys nx ny n.1 h b.1)

    insert_sorted-IsSorted :
        (x : A) (ys : List A) → N x → All N ys → IsSorted ys → IsSorted (insert_sorted x ys)
    unfolding insert_sorted
    insert_sorted-IsSorted x [] nx n s = (tt, tt)
    insert_sorted-IsSorted x (y ∷ ys) nx n s = elim (Bool-cases (before y x)) [
      | inl t ↦ rw t (
        All-insert_sorted (λ z. before z y ≡ false) x ys (asym y x t) s.0,
        insert_sorted-IsSorted x ys nx n.1 s.1,
      )
      | inr f ↦ rw f ((f, All-below x y ys nx n.0 n.1 f s.0), s)
    ]

    pub sort-IsSorted : (xs : List A) → All N xs → IsSorted (sort xs)
    unfolding sort
    sort-IsSorted [] n = tt
    sort-IsSorted (x ∷ xs) n =
        insert_sorted-IsSorted x (sort xs) n.0 (All-sort N xs n.1) (sort-IsSorted xs n.1)
