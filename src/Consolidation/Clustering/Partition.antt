-- ===== src/Consolidation/Clustering/Partition.antt =====
-- The loop of unions in src/rootmem/consolidation/clustering.py.
use rootmem.Base.{
  ℕ, suc, ◌+◌, ◌<◌, String, ◌≡◌, refl, sym, ap, ◌∙◌, true, ◌==◌, some, List, [], ◌∷◌, length, arith,
  Bool-cases, inl, inr, ◌⊎◌, eq_of_==, string_eq, ok, In, here, there, All,
}
use rootmem.Base.Dict
use rootmem.Base.Dict.{keys, get-put_self, get-put_ne}
use rootmem.Base.Dict.Keyed.{In-keys, keys-get, keys-put_cases}
use rootmem.Base.Float.{Float}
use rootmem.Consolidation.Clustering.{Parents, init, init_from, union_all}
use rootmem.Consolidation.Clustering.Roots.{root, some_eq, one_root, SameRoot}
use rootmem.Consolidation.Clustering.Find.{IsForest, moved_root}
use rootmem.Consolidation.Clustering.Union.{union-Joined}

pub SameRoot-trans :
    (d : Parents) {a b c : String} → SameRoot d a b → SameRoot d b c → SameRoot d a c
SameRoot-trans d (r, n, m, s, t) (r', n', m', s', t') =
    (r, n, m', s, moved_root (sym (one_root d t s')) t')

pub SameRoot-sym : (d : Parents) {a b : String} → SameRoot d a b → SameRoot d b a
SameRoot-sym d (r, n, m, s, t) = (r, m, n, t, s)

-- Every item is its own parent.
abbrev Separate : Parents → Type 0
Separate d = (x p : String) → Dict.get d x ≡ some p → x ≡ p

put-Separate : (d : Parents) (y : String) → Separate d → Separate (Dict.put d y y)
put-Separate d y f x p h = elim (Bool-cases (y == x)) [
  | inl same ↦
      let yx = eq_of_== y x same in
      sym yx ∙ some_eq (sym (get-put_self d y y) ∙ ap (Dict.get (Dict.put d y y)) yx ∙ h)
  | inr differ ↦ f x p (sym (get-put_ne d y x y differ) ∙ h)
]

init_from-Separate : (items : List String) (d : Parents) → Separate d → Separate (init_from d items)
unfolding init_from
init_from-Separate [] d f = f
init_from-Separate (y ∷ items) d f = init_from-Separate items (Dict.put d y y) (put-Separate d y f)

put_stays :
    (d : Parents) (y x : String) → Dict.get d x ≡ some x → Dict.get (Dict.put d y y) x ≡ some x
put_stays d y x h = elim (Bool-cases (y == x)) [
  | inl same ↦
      let yx = eq_of_== y x same in
      sym (ap (Dict.get (Dict.put d y y)) yx) ∙ get-put_self d y y ∙ ap some yx
  | inr differ ↦ get-put_ne d y x y differ ∙ h
]

init_from_stays :
    (items : List String) (d : Parents) (x : String)
    → Dict.get d x ≡ some x
    → Dict.get (init_from d items) x ≡ some x
unfolding init_from
init_from_stays [] d x h = h
init_from_stays (y ∷ items) d x h = init_from_stays items (Dict.put d y y) x (put_stays d y x h)

get-init_from :
    (items : List String) (d : Parents) (x : String)
    → In x items
    → Dict.get (init_from d items) x ≡ some x
unfolding init_from
get-init_from [] d x i = elim i [ ]
get-init_from (y ∷ items) d x here = init_from_stays items (Dict.put d x x) x (get-put_self d x x)
get-init_from (y ∷ items) d x (there i) = get-init_from items (Dict.put d y y) x i

In-init_from :
    (items : List String) (d : Parents) (x : String)
    → In x (keys (init_from d items))
    → In x (keys d) ⊎ In x items
unfolding init_from
In-init_from [] d x i = inl i
In-init_from (y ∷ items) d x i = elim (In-init_from items (Dict.put d y y) x i) [
  | inr later ↦ inr (there later)
  | inl now ↦ elim (keys-put_cases d y y x now) [ inl old ↦ inl old | inr new ↦ inr (rw new here) ]
]

pub keys-init-In : (items : List String) (x : String) → In x (keys (init items)) → In x items
unfolding init
keys-init-In items x i = elim (In-init_from items [] x i) [
  | inl nothing ↦ elim nothing [ ]
  | inr found ↦ found
]

pub In-keys-init : (items : List String) (x : String) → In x items → In x (keys (init items))
unfolding init
In-keys-init items x i = In-keys (init_from [] items) x (get-init_from items [] x i)

module _ (Q : String → String → Type 0) (trans : (a b c : String) → Q a b → Q b c → Q a c)
    (same : (a : String) → Q a a) (symm : (a b : String) → Q a b → Q b a) where
  pub init-IsForest : (items : List String) → IsForest Q trans 0 (init items)
  unfolding init Dict.get
  init-IsForest items =
      let f = init_from-Separate items [] (λ x p h. cc) in
      record {
        reach = λ x i.
            let (p, h) = keys-get (init_from [] items) x i in
            (x, (0, omega arith, root (h ∙ ap some (sym (f x p h))) refl));
        points = λ x p h. rw (f x p h) (same p);
      }

  module _ {F : Type 0} ⦃fl : Float F⦄ (threshold : F) where
    abbrev pub Similar : String × String × F → Type 0
    Similar (a, b, s) = fl.le threshold s ≡ true

    -- A pair that is joined is of two keys that `Q` relates.
    abbrev pub Usable : List String → String × String × F → Type 0
    Usable ks (a, b, s) = fl.le threshold s ≡ true → In a ks × In b ks × Q a b

    abbrev pub Merges : Parents → String × String × F → Type 0
    Merges d (a, b, s) = fl.le threshold s ≡ true → SameRoot d a b

    -- What the loop leaves: the keys, a forest that the fuel searches, what had one root, and all
    -- similar pairs joined.
    pub record Merged (fuel : ℕ) (d : Parents) (pairs : List (String × String × F)) (d' : Parents)
        : Type 0 where
      pub same_keys : keys d' ≡ keys d
      pub height : ℕ
      pub low : height < fuel
      pub forest : IsForest Q trans height d'
      pub still : (x y : String) → SameRoot d x y → SameRoot d' x y
      pub merges : All (Merges d') pairs

    pub union_all-Merged :
        (fuel bound : ℕ) (d : Parents) (pairs : List (String × String × F))
        → IsForest Q trans bound d
        → bound + length pairs < fuel
        → All (Usable (keys d)) pairs
        → (d' : Parents) × (union_all fuel threshold d pairs ≡ ok d') × Merged fuel d pairs d'
    unfolding union_all
    union_all-Merged fuel bound d [] f lt u = (
      d,
      refl,
      record {
        same_keys = refl;
        height = bound;
        low = omega arith;
        forest = f;
        still = λ x y s. s;
        merges = tt;
      },
    )
    union_all-Merged fuel bound d ((a, b, s) ∷ pairs) f lt (p, ps) =
        elim (Bool-cases (fl.le threshold s)) [
          | inr apart ↦
              let (d', e, m) = union_all-Merged fuel bound d pairs f (omega arith) ps in
              (
                d',
                rw (apart, union_all) e,
                record {
                  same_keys = m.same_keys;
                  height = m.height;
                  low = m.low;
                  forest = m.forest;
                  still = m.still;
                  merges = (λ near. cc, m.merges);
                },
              )
          | inl near ↦
              let (ia, ib, q) = p near in
              let (d1, e1, j) =
                union-Joined Q trans same symm fuel bound d a b f (omega arith) ia ib q in
              let (d', e, m) =
                union_all-Merged fuel (suc bound) d1 pairs j.forest (omega arith)
                  (rw (j.same_keys) ps) in
              (
                d',
                rw (near, e1, union_all) e,
                record {
                  same_keys = m.same_keys ∙ j.same_keys;
                  height = m.height;
                  low = m.low;
                  forest = m.forest;
                  still = λ x y t. m.still x y (j.still x y t);
                  merges = (λ _. m.still a b j.joined, m.merges);
                },
              )
        ]
