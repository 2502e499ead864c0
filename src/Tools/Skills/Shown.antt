-- ===== src/Tools/Skills/Shown.antt =====
-- What `get_skill` of src/rootmem/integration/mcp/tools/get_skill.py shows after an outcome.
use rootmem.Base.{
  String, ◌≡◌, refl, ap, ◌∙◌, Bool, true, false, ◌==◌, Option, none, some, [], ◌∷◌, first,
  Bool-cases, inl, inr, if◌then◌else◌, string_eq,
}
use rootmem.Base.Dict
use rootmem.Base.Dict.{get-put_self, get-put_ne, Dict, values}
use mathlib.Core.Option
use rootmem.Base.Float.{Float}
use rootmem.Procedural.Models.{Kind, ProceduralMemoryRecord}
use rootmem.Procedural.Repository.{Procedures, active_named, get_by_name, credited}
use rootmem.Tools.Skills.{GetSkillParams, GetSkillResult, skill_markdown, get_skill}

-- The branches of a search that shows `view` of what it finds.
found_alike :
    {A B : Type 0} (view : A → B) (test : Bool) (x y : A) (xs ys : Option A)
    → view x ≡ view y
    → Option.map view xs ≡ Option.map view ys
    → Option.map view (if test then some x else xs) ≡ Option.map view (if test then some y else ys)
found_alike view true x y xs ys h t = ap some h
found_alike view false x y xs ys h t = t

-- Replacing a row by one that looks the same leaves what a search of the rows shows.
first-put :
    {A B : Type 0} (view : A → B) (p : A → Bool) (d : Dict String A) (k : String) (r u : A)
    → Dict.get d k ≡ some r
    → view u ≡ view r
    → p u ≡ p r
    → Option.map view (first p (values (Dict.put d k u))) ≡ Option.map view (first p (values d))
unfolding Dict.get Dict.put
first-put view p [] k r u g same test = cc g
first-put view p ((j, w) ∷ d) k r u g same test = elim (Bool-cases (j == k)) [
  | inl here ↦
      let found : some w ≡ some r = rw here at g in
      let q : w ≡ r = cc found in
      rw (here, q, test)
        (found_alike view (p r) u r (first p (values d)) (first p (values d)) same refl)
  | inr there ↦ rw there (
      found_alike view (p w) w w (first p (values (Dict.put d k u))) (first p (values d)) refl
        (first-put view p d k r u (rw there at g) same test))
]

abbrev answer : Option (Kind × String) → GetSkillResult
answer none = record { found = false; kind = none; markdown = none }
answer (some (kind, markdown)) = record { found = true; kind = some kind; markdown = some markdown }

module _ {F : Type 0} ⦃fl : Float F⦄ where
  abbrev shown : ProceduralMemoryRecord F → Kind × String
  shown r = (r.kind, skill_markdown r)

  get_skill-shown :
      (procedures : Procedures F) (params : GetSkillParams)
      → get_skill procedures params
        ≡ answer (Option.map shown (get_by_name procedures params.namespace params.name))
  unfolding get_skill
  get_skill-shown procedures params =
      by_row (get_by_name procedures params.namespace params.name) refl
    where
      by_row :
          (found : Option (ProceduralMemoryRecord F))
          → get_by_name procedures params.namespace params.name ≡ found
          → get_skill procedures params ≡ answer (Option.map shown found)
      by_row none q = rw (q, get_skill) refl
      by_row (some r) q = rw (q, get_skill) refl

  pub get_skill-credited :
      (procedures : Procedures F) (success : Bool) (a b : F) (r : ProceduralMemoryRecord F)
      (params : GetSkillParams)
      → Dict.get procedures.records r.id ≡ some r
      → get_skill
          (record procedures {
            records = Dict.put procedures.records r.id (credited success a b r);
          })
          params
        ≡ get_skill procedures params
  unfolding get_by_name
  get_skill-credited procedures success a b r params g = rw (get_skill-shown procedures params) (
      get_skill-shown _ params
      ∙ ap answer (
          first-put shown (active_named params.namespace params.name) procedures.records r.id r
            (credited success a b r) g refl refl))
