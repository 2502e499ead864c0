-- ===== src/Base/Lists.antt =====
-- Lists measured by native numbers, and loops over lists.
use Prim.Native.Nat.{ℕ, zero, suc, ◌+◌, ◌≤◌}
use mathlib.Core.Path.{◌≡◌, refl}
use mathlib.Core.List.{List, [], ◌∷◌, ◌++◌, map}
use mathlib.Core.Logic.{◌⊎◌, inl, inr}
use mathlib.Core.Bool.{Bool, true, false, ◌||◌}
use mathlib.Core.Option.{Option, none, some}
use native.Mathlib.Omega.{arith}
use rootmem.Base.Tests.{if◌then◌else◌, Bool-cases}

module _ {ℓ} {A : Type ℓ} where
  abbrev pub length : List A → ℕ
  length [] = 0
  length (x ∷ xs) = suc (length xs)

  pub length-append : (xs ys : List A) → length (xs ++ ys) ≡ length xs + length ys
  length-append [] ys = omega arith
  length-append (x ∷ xs) ys = omega (arith, length-append xs ys)

  -- xs[:n]
  abbrev pub take : ℕ → List A → List A
  take zero xs = []
  take (suc n) [] = []
  take (suc n) (x ∷ xs) = x ∷ take n xs

  -- [x for x in xs if p(x)]
  abbrev pub keep : (A → Bool) → List A → List A
  keep p [] = []
  keep p (x ∷ xs) = let rest = keep p xs in if p x then x ∷ rest else rest

  -- any(p(x) for x in xs)
  abbrev pub any : (A → Bool) → List A → Bool
  any p [] = false
  any p (x ∷ xs) = p x || any p xs

  -- the first x for which the loop returns
  abbrev pub first : (A → Bool) → List A → Option A
  first p [] = none
  first p (x ∷ xs) = let rest = first p xs in if p x then some x else rest

  pub length-take-le : (n : ℕ) (xs : List A) → length (take n xs) ≤ n
  length-take-le zero xs = omega arith
  length-take-le (suc n) [] = omega arith
  length-take-le (suc n) (x ∷ xs) = omega (arith, length-take-le n xs)

module _ {ℓ κ} {A : Type ℓ} where
  abbrev pub All : (A → Type κ) → List A → Type κ
  All P [] = Unit
  All P (x ∷ xs) = P x × All P xs

  pub All-append :
      (P : A → Type κ) (front back : List A) → All P front → All P back → All P (front ++ back)
  All-append P [] back _ b = b
  All-append P (x ∷ front) back (px, f) b = (px, All-append P front back f b)

  pub All-take : (P : A → Type κ) (n : ℕ) (xs : List A) → All P xs → All P (take n xs)
  All-take P zero xs h = tt
  All-take P (suc n) [] h = tt
  All-take P (suc n) (x ∷ xs) h = (h.0, All-take P n xs h.1)

  pub All-keep : (P : A → Type κ) (p : A → Bool) (xs : List A) → All P xs → All P (keep p xs)
  All-keep P p [] h = tt
  All-keep P p (x ∷ xs) h = elim (Bool-cases (p x)) [
    | inl t ↦ rw t (h.0, All-keep P p xs h.1)
    | inr f ↦ rw f (All-keep P p xs h.1)
  ]

  pub All-map_imp : {P Q : A → Type κ} (f : (a : A) → P a → Q a) (xs : List A) → All P xs → All Q xs
  All-map_imp f [] h = tt
  All-map_imp f (x ∷ xs) h = (f x h.0, All-map_imp f xs h.1)

module _ {ℓ} {A : Type ℓ} where
  pub All-keep_self : (p : A → Bool) (xs : List A) → All (λ x. p x ≡ true) (keep p xs)
  All-keep_self p [] = tt
  All-keep_self p (x ∷ xs) = elim (Bool-cases (p x)) [
    | inl t ↦ rw t (t, All-keep_self p xs)
    | inr f ↦ rw f (All-keep_self p xs)
  ]

  -- Membership with its place kept.
  pub data In (a : A) : List A → Type ℓ where
    here : {xs : List A} → In a (a ∷ xs)
    there : {x : A} {xs : List A} → In a xs → In a (x ∷ xs)

  pub In-cases : (a x : A) {xs : List A} → In a (x ∷ xs) → (a ≡ x) ⊎ In a xs
  In-cases a x here = inl refl
  In-cases a x (there i) = inr i

  pub In-keep : (p : A → Bool) (a : A) (xs : List A) → In a xs → p a ≡ true → In a (keep p xs)
  In-keep p a [] i h = elim i [ ]
  In-keep p a (x ∷ xs) here h = rw h here
  In-keep p a (x ∷ xs) (there i) h = elim (Bool-cases (p x)) [
    | inl t ↦ rw t (there (In-keep p a xs i h))
    | inr f ↦ rw f (In-keep p a xs i h)
  ]

  pub In-append_right : (a : A) (xs ys : List A) → In a ys → In a (xs ++ ys)
  In-append_right a [] ys i = i
  In-append_right a (x ∷ xs) ys i = there (In-append_right a xs ys i)

  pub In-append_left : (a : A) (xs ys : List A) → In a xs → In a (xs ++ ys)
  In-append_left a [] ys i = elim i [ ]
  In-append_left a (x ∷ xs) ys here = here
  In-append_left a (x ∷ xs) ys (there i) = there (In-append_left a xs ys i)

  pub In-first : (p : A → Bool) (xs : List A) {a : A} → first p xs ≡ some a → In a xs × (p a ≡ true)
  In-first p [] h = cc
  In-first p (x ∷ xs) {a} h = elim (Bool-cases (p x)) [
    | inl t ↦ let e : x ≡ a = ground arith in (subst_in e, ground arith)
    | inr f ↦ let (i, q) = In-first p xs {a = a} (ground arith) in (there i, q)
  ]
    where
      subst_in : x ≡ a → In a (x ∷ xs)
      subst_in e = rw e here

  pub first-append :
      (p : A → Bool) (xs ys : List A) → first p xs ≡ none → first p (xs ++ ys) ≡ first p ys
  first-append p [] ys h = refl
  first-append p (x ∷ xs) ys h = elim (Bool-cases (p x)) [
    | inl t ↦ absurd (ground arith)
    | inr f ↦ rw f (first-append p xs ys (ground arith))
  ]

  pub first-none : (p : A → Bool) (xs : List A) → first p xs ≡ none → All (λ x. p x ≡ false) xs
  first-none p [] h = tt
  first-none p (x ∷ xs) h = elim (Bool-cases (p x)) [
    | inl t ↦ ground arith
    | inr f ↦ (f, first-none p xs (ground arith))
  ]

module _ {ℓ κ} {A : Type ℓ} where
  pub All-at : (P : A → Type κ) {a : A} (xs : List A) → All P xs → In a xs → P a
  All-at P [] h i = elim i [ ]
  All-at P (x ∷ xs) h here = h.0
  All-at P (x ∷ xs) h (there i) = All-at P xs h.1 i

module _ {ℓ} {A : Type ℓ} where
  pub All-In : (xs : List A) → All (λ x. In x xs) xs
  All-In [] = tt
  All-In (x ∷ xs) = (here, All-map_imp (λ y i. there i) xs (All-In xs))

module _ {ℓ κ} {A : Type ℓ} (P : A → Type κ) where
  pub All-of_In : (xs : List A) → ((a : A) → In a xs → P a) → All P xs
  All-of_In [] f = tt
  All-of_In (x ∷ xs) f = (f x here, All-of_In xs (λ a i. f a (there i)))

  pub All-All :
      (xss : List (List A)) → ((a : A) (xs : List A) → In xs xss → In a xs → P a) → All (All P) xss
  All-All [] f = tt
  All-All (xs ∷ xss) f =
      (All-of_In xs (λ a i. f a xs here i), All-All xss (λ a ys i. f a ys (there i)))

module _ {ℓ} {A B : Type ℓ} (f : A → B) where
  pub In-map : (a : A) (xs : List A) → In a xs → In (f a) (map f xs)
  In-map a [] i = elim i [ ]
  In-map a (x ∷ xs) here = here
  In-map a (x ∷ xs) (there i) = there (In-map a xs i)

  pub length-map : (xs : List A) → length (map f xs) ≡ length xs
  length-map [] = refl
  length-map (x ∷ xs) = omega (arith, length-map xs)
