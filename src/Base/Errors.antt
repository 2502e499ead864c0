-- ===== src/Base/Errors.antt =====
-- A call that returns a value or raises, and loops that stop at the first exception.
use mathlib.Core.List.{List, [], ◌∷◌}
use mathlib.Core.Path.{◌≡◌, refl}
use mathlib.Core.Bool.{Bool, true, false}
use rootmem.Base.Tests.{if◌then◌else◌}
use rootmem.Base.Lists.{All, In, here, there}
use mathlib.Core.Option.{Option, none, some}

pub data Result (E A : Type 0) : Type 0 where
  ok : A → Result E A
  raise : E → Result E A

infixl 5 ◌>>=◌
abbrev pub ◌>>=◌ : {E A B : Type 0} → Result E A → (A → Result E B) → Result E B
ok a >>= f = f a
raise e >>= f = raise e

abbrev pub cons_ok : {E A : Type 0} → A → Result E (List A) → Result E (List A)
cons_ok x (ok xs) = ok (x ∷ xs)
cons_ok x (raise e) = raise e

abbrev pub yielded : {E B : Type 0} → Result E (Option B) → Result E (List B) → Result E (List B)
yielded (raise e) rest = raise e
yielded (ok none) rest = rest
yielded (ok (some y)) rest = cons_ok y rest

-- A loop that appends what the body yields, `none` being `continue`; it stops at an exception.
unfoldable pub collect : {E A B : Type 0} → (A → Result E (Option B)) → List A → Result E (List B)
collect body [] = ok []
collect body (x ∷ xs) = yielded (body x) (collect body xs)

-- A property of what a call returns; an exception has none.
abbrev pub Ensures : {E A : Type 0} → (A → Type 0) → Result E A → Type 0
Ensures P (ok a) = P a
Ensures P (raise e) = Unit

abbrev pub Yields : {E B : Type 0} → (B → Type 0) → Result E (Option B) → Type 0
Yields P (ok none) = Unit
Yields P (ok (some y)) = P y
Yields P (raise e) = Unit

Ensures-cons_ok :
    {E B : Type 0} (P : B → Type 0) (y : B) (rest : Result E (List B))
    → P y
    → Ensures (All P) rest
    → Ensures (All P) (cons_ok y rest)
Ensures-cons_ok P y (ok ys) p h = (p, h)
Ensures-cons_ok P y (raise e) p h = tt

Ensures-yielded :
    {E B : Type 0} (P : B → Type 0) (r : Result E (Option B)) (rest : Result E (List B))
    → Yields P r
    → Ensures (All P) rest
    → Ensures (All P) (yielded r rest)
Ensures-yielded P (raise e) rest p h = tt
Ensures-yielded P (ok none) rest p h = h
Ensures-yielded P (ok (some y)) rest p h = Ensures-cons_ok P y rest p h

-- What the body of a loop yields has the property, and so has all that the loop collects.
pub Ensures-collect :
    {E A B : Type 0} (P : B → Type 0) (body : A → Result E (Option B)) (xs : List A)
    → ((x : A) → Yields P (body x))
    → Ensures (All P) (collect body xs)
unfolding collect
Ensures-collect P body [] f = tt
Ensures-collect P body (x ∷ xs) f =
    Ensures-yielded P (body x) (collect body xs) (f x) (Ensures-collect P body xs f)

pub Ensures->>= :
    {E A B : Type 0} (P : A → Type 0) (Q : B → Type 0) (m : Result E A) (f : A → Result E B)
    → Ensures P m
    → ((a : A) → P a → Ensures Q (f a))
    → Ensures Q (m >>= f)
Ensures->>= P Q (ok a) f p g = g a p
Ensures->>= P Q (raise e) f p g = tt

pub Yields->>= :
    {E A B : Type 0} (P : B → Type 0) (m : Result E A) (f : A → Result E (Option B))
    → ((a : A) → Yields P (f a))
    → Yields P (m >>= f)
Yields->>= P (ok a) f g = g a
Yields->>= P (raise e) f g = tt

pub Yields-if :
    {E B : Type 0} (P : B → Type 0) (b : Bool) (r : Result E (Option B))
    → (b ≡ true → Yields P r)
    → Yields P (if b then r else ok none)
Yields-if P true r g = g refl
Yields-if P false r g = tt

-- A property of what an optional result holds.
abbrev pub IfSome : {B : Type 0} → (B → Type 0) → Option B → Type 0
IfSome P none = Unit
IfSome P (some y) = P y

-- A loop whose body returns for each element returns, and what it collects has the property.
pub collect-Returns :
    {E A B : Type 0} (P : B → Type 0) (body : A → Result E (Option B)) (xs : List A)
    → ((x : A) → In x xs → (o : Option B) × (body x ≡ ok o) × IfSome P o)
    → (ys : List B) × (collect body xs ≡ ok ys) × All P ys
unfolding collect
collect-Returns P body [] f = ([], refl, tt)
collect-Returns {E} {A} {B} P body (x ∷ xs) f =
    let (ys, e, h) = collect-Returns P body xs (λ y i. f y (there i)) in
    let (o, q, p) = f x here in
    let (zs, r, all) = cons o ys (collect body xs) e p h in (zs, rw q r, all)
  where
    cons :
        (o : Option B) (ys : List B) (rest : Result E (List B))
        → rest ≡ ok ys
        → IfSome P o
        → All P ys
        → (zs : List B) × (yielded (ok o) rest ≡ ok zs) × All P zs
    cons none ys rest e p h = (ys, e, h)
    cons (some y) ys rest e p h = (y ∷ ys, rw e refl, (p, h))

pub bind_ok :
    {E A B : Type 0} (r : Result E A) (f : A → Result E B) {a : A} {s : Result E B}
    → r ≡ ok a
    → f a ≡ s
    → (r >>= f) ≡ s
bind_ok r f e q = rw e q
