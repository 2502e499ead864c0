-- ===== src/Procedural/Active.antt =====
-- The active rows of src/rootmem/storage/fakes/in_memory_procedural_repository.py.
use rootmem.Base.{
  ◌⊎◌, ℕ, String, ◌≡◌, refl, sym, ap, ◌∙◌, true, false, ◌==◌, ◌&&◌, Option, none, some, string_eq,
  arith, Bool-cases, Option-cases, inl, inr, eq_of_==, ==_of_eq, first-none, In-first, All-at,
  &&-eq_true,
}
use rootmem.Base.Dict
use rootmem.Base.Dict.{Dict, put-cases, values, In-values, get-put_self, get-put_ne}
use rootmem.Base.Dict.Keyed.{IsKeyed, get-In, put-IsKeyed}
use rootmem.Base.Float.{Float}
use rootmem.Procedural.Models.{ProceduralMemoryRecord, NewProceduralMemory, is_active}
use rootmem.Procedural.Repository.{
  Procedures, active_named, get_by_name, close, superseded, stored, create,
}

abbrev pub procedure_id : {F : Type 0} → ProceduralMemoryRecord F → String
procedure_id r = r.id

module _ {F : Type 0} where
  -- Every row stands under its id, and a name has at most one active row in its namespace.
  pub record IsProcedures (repo : Procedures F) : Type 0 where
    pub keyed : IsKeyed procedure_id repo.records
    pub one_active :
        (i j : String) (r s : ProceduralMemoryRecord F)
        → Dict.get repo.records i ≡ some r
        → Dict.get repo.records j ≡ some s
        → is_active r ≡ true
        → is_active s ≡ true
        → r.namespace ≡ s.namespace
        → r.name ≡ s.name
        → i ≡ j

  active_named-true :
      (namespace name : String) (r : ProceduralMemoryRecord F)
      → r.namespace ≡ namespace
      → r.name ≡ name
      → is_active r ≡ true
      → active_named namespace name r ≡ true
  active_named-true namespace name r p q a =
      rw (==_of_eq r.namespace namespace p, ==_of_eq r.name name q, a) refl

  pub get_by_name-stored :
      (repo : Procedures F) (namespace name : String) (r : ProceduralMemoryRecord F)
      → IsProcedures repo
      → get_by_name repo namespace name ≡ some r
      → (Dict.get repo.records r.id ≡ some r)
        × (r.namespace ≡ namespace)
        × (r.name ≡ name)
        × (is_active r ≡ true)
  unfolding get_by_name
  get_by_name-stored repo namespace name r h e =
      let (i, fits) = In-first (active_named namespace name) (values repo.records) {a = r} e in
      let (p, rest) = &&-eq_true (r.namespace == namespace) (r.name == name && is_active r) fits in
      let (q, a) = &&-eq_true (r.name == name) (is_active r) rest in
      (
        get-In procedure_id repo.records h.keyed i,
        eq_of_== r.namespace namespace p,
        eq_of_== r.name name q,
        a,
      )

  get_by_name-none :
      (repo : Procedures F) (namespace name i : String) (r : ProceduralMemoryRecord F)
      → get_by_name repo namespace name ≡ none
      → Dict.get repo.records i ≡ some r
      → r.namespace ≡ namespace
      → r.name ≡ name
      → is_active r ≡ false
  unfolding get_by_name
  get_by_name-none repo namespace name i r e g p q = elim (Bool-cases (is_active r)) [
    | inr closed ↦ closed
    | inl active ↦
        let no =
          All-at (λ x. active_named namespace name x ≡ false) (values repo.records)
            (first-none (active_named namespace name) (values repo.records) e)
            (In-values repo.records i g) in
        let yes_ = active_named-true namespace name r p q active in
        absurd (ground (arith, no, yes_))
  ]

module _ {F : Type 0} ⦃fl : Float F⦄ where
  module _ (new_id : String) (now : ℕ) (repo : Procedures F) (new : NewProceduralMemory F)
      (h : IsProcedures repo) where
    -- An active row after `create` is the new one, or was there under another name.
    abbrev Origin : ProceduralMemoryRecord F → String → ProceduralMemoryRecord F → Type 0
    Origin row i x =
        ((new_id ≡ i) × (row ≡ x))
        ⊎ ((Dict.get repo.records i ≡ some x)
            × (x.namespace ≡ new.namespace → ¬ (x.name ≡ new.name)))

    first-Origin :
        (row : ProceduralMemoryRecord F) (i : String) (x : ProceduralMemoryRecord F)
        → get_by_name repo new.namespace new.name ≡ none
        → is_active x ≡ true
        → Dict.get (Dict.put repo.records new_id row) i ≡ some x
        → Origin row i x
    first-Origin row i x missing active g = elim (put-cases repo.records new_id i row g) [
      | inl e ↦ inl e
      | inr (_, old) ↦ inr (
        old,
        λ p q.
            let closed = get_by_name-none repo new.namespace new.name i x missing old p q in
            cc (closed, active),
      )
    ]

    next-Origin :
        (row previous : ProceduralMemoryRecord F) (i : String) (x : ProceduralMemoryRecord F)
        → get_by_name repo new.namespace new.name ≡ some previous
        → is_active x ≡ true
        → Dict.get (close new_id now (Dict.put repo.records new_id row) (some previous)) i ≡ some x
        → Origin row i x
    next-Origin row previous i x found active g =
        let (stored_previous, pn, pm, pa) =
          get_by_name-stored repo new.namespace new.name previous h found in
        elim (put-cases (Dict.put repo.records new_id row) previous.id i
          (superseded new_id now previous) g) [
            | inl (_, e) ↦ absurd (not_active x e active)
            | inr (other, g') ↦ elim (put-cases repo.records new_id i row g') [
              | inl e ↦ inl e
              | inr (_, old) ↦ inr (
                old,
                λ p q. other (
                    h.one_active previous.id i previous x stored_previous old pa active (pn ∙ sym p)
                      (pm ∙ sym q)),
              )
            ]
          ]
      where
        not_active :
            (x : ProceduralMemoryRecord F)
            → superseded new_id now previous ≡ x
            → ¬ (is_active x ≡ true)
        not_active x e a =
            let closed : false ≡ true = ap (λ (z : ProceduralMemoryRecord F). is_active z) e ∙ a in
            cc closed

    origin :
        (i : String) (x : ProceduralMemoryRecord F)
        → is_active x ≡ true
        → Dict.get (create new_id now repo new).0.records i ≡ some x
        → Origin (create new_id now repo new).1 i x
    unfolding create
    origin i x active g = elim (Option-cases (get_by_name repo new.namespace new.name)) [
      | inl missing ↦ rw missing (first-Origin _ i x missing active (rw missing at g))
      | inr (previous, found) ↦ rw found (next-Origin _ previous i x found active (rw found at g))
    ]

    create-IsKeyed : IsKeyed procedure_id (create new_id now repo new).0.records
    unfolding create
    create-IsKeyed =
        let row = stored new_id now new (get_by_name repo new.namespace new.name) in
        closed_keyed (get_by_name repo new.namespace new.name) (Dict.put repo.records new_id row)
          (put-IsKeyed procedure_id repo.records new_id row refl h.keyed)
      where
        closed_keyed :
            (previous : Option (ProceduralMemoryRecord F))
            (d : Dict String (ProceduralMemoryRecord F))
            → IsKeyed procedure_id d
            → IsKeyed procedure_id (close new_id now d previous)
        closed_keyed none d k = k
        closed_keyed (some p) d k = put-IsKeyed procedure_id d p.id (superseded new_id now p) refl k

    merge :
        (row : ProceduralMemoryRecord F) (i j : String) (x y : ProceduralMemoryRecord F)
        → row.namespace ≡ new.namespace
        → row.name ≡ new.name
        → Origin row i x
        → Origin row j y
        → x.namespace ≡ y.namespace
        → x.name ≡ y.name
        → is_active x ≡ true
        → is_active y ≡ true
        → i ≡ j
    merge row i j x y rn rm (inl (e, _)) (inl (e', _)) p q a b = sym e ∙ e'
    merge row i j x y rn rm (inl (e, r)) (inr (_, other)) p q a b = absurd (
        other (sym p ∙ ap (λ (z : ProceduralMemoryRecord F). z.namespace) (sym r) ∙ rn)
          (sym q ∙ ap (λ (z : ProceduralMemoryRecord F). z.name) (sym r) ∙ rm))
    merge row i j x y rn rm (inr (_, other)) (inl (e, r)) p q a b = absurd (
        other (p ∙ ap (λ (z : ProceduralMemoryRecord F). z.namespace) (sym r) ∙ rn)
          (q ∙ ap (λ (z : ProceduralMemoryRecord F). z.name) (sym r) ∙ rm))
    merge row i j x y rn rm (inr (g, _)) (inr (g', _)) p q a b = h.one_active i j x y g g' a b p q

    new_row :
        ((create new_id now repo new).1.namespace ≡ new.namespace)
        × ((create new_id now repo new).1.name ≡ new.name)
    unfolding create
    new_row = (refl, refl)

    -- `create` keeps every row under its own id and at most one active row for each name of a
    -- namespace.
    pub create-IsProcedures : IsProcedures (create new_id now repo new).0
    create-IsProcedures = record {
      keyed = create-IsKeyed;
      one_active = λ i j x y g g' a b p q.
          merge (create new_id now repo new).1 i j x y new_row.0 new_row.1 (origin i x a g)
            (origin j y b g') p q a b;
    }

    new_row_stored :
        Dict.get repo.records new_id ≡ none
        → (Dict.get (create new_id now repo new).0.records new_id
            ≡ some (create new_id now repo new).1)
          × (is_active (create new_id now repo new).1 ≡ true)
    unfolding create
    new_row_stored fresh =
        let row = stored new_id now new (get_by_name repo new.namespace new.name) in
        (after (get_by_name repo new.namespace new.name) refl row, refl)
      where
        after :
            (previous : Option (ProceduralMemoryRecord F))
            → get_by_name repo new.namespace new.name ≡ previous
            → (row : ProceduralMemoryRecord F)
            → Dict.get (close new_id now (Dict.put repo.records new_id row) previous) new_id
              ≡ some row
        after none e row = get-put_self repo.records new_id row
        after (some p) e row = elim (Bool-cases (p.id == new_id)) [
          | inl same ↦
              let there_ = (get_by_name-stored repo new.namespace new.name p h e).0 in
              let free = ap (Dict.get repo.records) (eq_of_== p.id new_id same) ∙ fresh in
              absurd (cc (there_, free))
          | inr differ ↦
              get-put_ne (Dict.put repo.records new_id row) p.id new_id (superseded new_id now p)
                differ
              ∙ get-put_self repo.records new_id row
        ]

    -- After `create` with a fresh id, `get_by_name` of its name returns the row that it created, if
    -- every row stood under its own id and each name had at most one active row.
    pub get_by_name-create :
        Dict.get repo.records new_id ≡ none
        → get_by_name (create new_id now repo new).0 new.namespace new.name
          ≡ some (create new_id now repo new).1
    get_by_name-create fresh =
        let after = (create new_id now repo new).0 in
        let row = (create new_id now repo new).1 in
        let (there_, active) = new_row_stored fresh in
        elim (Option-cases (get_by_name after new.namespace new.name)) [
          | inl missing ↦
              let closed =
                get_by_name-none after new.namespace new.name new_id row missing there_ new_row.0
                  new_row.1 in
              absurd (cc (closed, active))
          | inr (x, found) ↦
              let (sx, nx, mx, ax) =
                get_by_name-stored after new.namespace new.name x create-IsProcedures found in
              let one =
                create-IsProcedures.one_active x.id new_id x row sx there_ ax active
                  (nx ∙ sym new_row.0) (mx ∙ sym new_row.1) in
              found ∙ sym sx ∙ ap (Dict.get after.records) one ∙ there_
        ]
