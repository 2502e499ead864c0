-- ===== src/Extraction/Contradiction/Actions.antt =====
-- Which action `resolve_contradiction` of src/rootmem/extraction/contradiction.py decides.
use rootmem.Base.{
  ◌==◌, ◌≡◌, refl, ◌↔◌, true, false, some, string_eq, option_eq, Bool-cases, inl, inr, eq_of_==,
  ==_of_eq, &&-eq_true,
}
use rootmem.Base.Float.{Float}
use rootmem.Graph.Models.{RelationRecord, NewRelation, Derivation, extracted, distilled}
use rootmem.Extraction.Contradiction.{
  BayesianSettings, create, corroborate, contest, supersede, belief_confidence, same_object,
  upgraded, fresh_belief, resolve_contradiction,
}

stays_distilled : (d e : Derivation) → e ≡ distilled → upgraded d e ≡ distilled
stays_distilled distilled e h = refl
stays_distilled extracted e h = h

module _ {F : Type 0} ⦃fl : Float F⦄ where
  -- The relation before is believed more than the new one, by more than the margin.
  abbrev pub Resists : RelationRecord F → NewRelation F → Derivation → BayesianSettings F → Type 0
  Resists previous new d settings =
      fl.lt
        (fl.add (belief_confidence (fresh_belief new d settings).0 (fresh_belief new d settings).1)
          settings.supersede_margin)
        (belief_confidence previous.belief_alpha previous.belief_beta)
      ≡ true

  objects_iff :
      (previous : RelationRecord F) (new : NewRelation F)
      → (same_object previous new ≡ true) ↔ (
          (previous.object_entity_id ≡ new.object_entity_id)
          × (previous.object_literal ≡ new.object_literal))
  objects_iff previous new = (
    λ h.
        let (p, q) =
          &&-eq_true (previous.object_entity_id == new.object_entity_id)
            (previous.object_literal == new.object_literal) h in
        (
          eq_of_== previous.object_entity_id new.object_entity_id p,
          eq_of_== previous.object_literal new.object_literal q,
        ),
    λ (p, q).
        rw
          (
            ==_of_eq previous.object_entity_id new.object_entity_id p,
            ==_of_eq previous.object_literal new.object_literal q,
          )
          refl,
  )

  -- Against a relation before, `resolve_contradiction` corroborates exactly when the objects are the
  -- same, and then a distilled relation stays distilled; it contests exactly when the objects differ
  -- and the belief in the relation before exceeds that in the new one by more than the margin; it
  -- supersedes exactly when the objects differ and the belief does not, a tie included; it never creates.
  pub resolve_contradiction_lem :
      (previous : RelationRecord F) (new : NewRelation F) (d : Derivation)
      (settings : BayesianSettings F)
      → (((resolve_contradiction (some previous) new d settings).action ≡ corroborate) ↔ (
          (previous.object_entity_id ≡ new.object_entity_id)
          × (previous.object_literal ≡ new.object_literal)))
        × ((resolve_contradiction (some previous) new d settings).action ≡ corroborate
            → previous.derivation ≡ distilled
            → (resolve_contradiction (some previous) new d settings).derivation ≡ distilled)
        × (((resolve_contradiction (some previous) new d settings).action ≡ contest)
            ↔ ((same_object previous new ≡ false) × Resists previous new d settings))
        × (((resolve_contradiction (some previous) new d settings).action ≡ supersede)
            ↔ ((same_object previous new ≡ false) × ¬ Resists previous new d settings))
        × (¬ ((resolve_contradiction (some previous) new d settings).action ≡ create))
  unfolding resolve_contradiction
  resolve_contradiction_lem previous new d settings = elim (Bool-cases (same_object previous new)) [
    | inl same ↦ rw same (
      (λ _. (objects_iff previous new).0 same, λ _. refl),
      λ _ e. stays_distilled d previous.derivation e,
      (λ h. cc, λ (h, _). cc (same, h)),
      (λ h. cc, λ (h, _). cc (same, h)),
      λ h. cc,
    )
    | inr differ ↦
        elim (Bool-cases (
          fl.lt
            (fl.add
              (belief_confidence (fresh_belief new d settings).0 (fresh_belief new d settings).1)
              settings.supersede_margin)
            (belief_confidence previous.belief_alpha previous.belief_beta))) [
              | inl resists ↦
                  rw (differ, resists)
                    (
                      (
                        λ h. cc,
                        λ o. let same = (objects_iff previous new).1 o in cc (same, differ),
                      ),
                      λ h e. cc,
                      (λ _. (refl, refl), λ _. refl),
                      (λ h. cc, λ (_, yields). absurd (yields refl)),
                      λ h. cc,
                    )
              | inr yields ↦
                  rw (differ, yields)
                    (
                      (
                        λ h. cc,
                        λ o. let same = (objects_iff previous new).1 o in cc (same, differ),
                      ),
                      λ h e. cc,
                      (λ h. cc, λ (_, h). cc),
                      (λ _. (refl, λ h. cc), λ _. refl),
                      λ h. cc,
                    )
            ]
  ]
