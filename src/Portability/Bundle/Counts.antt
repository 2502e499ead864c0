-- ===== src/Portability/Bundle/Counts.antt =====
-- The record counts of src/rootmem/portability/bundle.py.
use rootmem.Base.{ℕ, ◌+◌, String, ◌≡◌, refl, true, List, [], ◌∷◌, string_eq, nat_eq, ==_refl}
use rootmem.Base.Dict
use rootmem.Base.Dict.{Dict}
use rootmem.Portability.Bundle.{
  Kind, memory, entity, relation, memory_entity, relation_provenance, skill, skill_provenance,
  BundleRecord, add_one, count_all, same_counts, no_counts,
}

-- One entry for each kind, in the fixed order.
abbrev dict_of : ℕ → ℕ → ℕ → ℕ → ℕ → ℕ → ℕ → Dict String ℕ
dict_of a b c d e f g =
    ("memory", a)
    ∷ ("entity", b)
    ∷ ("relation", c)
    ∷ ("memory_entity", d)
    ∷ ("relation_provenance", e)
    ∷ ("skill", f)
    ∷ ("skill_provenance", g)
    ∷ []

abbrev HasEach : Dict String ℕ → Type 0
HasEach counts = (a b c d e f g : ℕ) × (counts ≡ dict_of a b c d e f g)

add_one-HasEach :
    (counts : Dict String ℕ) (kind : Kind) → HasEach counts → HasEach (add_one counts kind)
unfolding add_one Dict.get Dict.put
add_one-HasEach counts memory (a, b, c, d, e, f, g, q) = (a + 1, b, c, d, e, f, g, rw q refl)
add_one-HasEach counts entity (a, b, c, d, e, f, g, q) = (a, b + 1, c, d, e, f, g, rw q refl)
add_one-HasEach counts relation (a, b, c, d, e, f, g, q) = (a, b, c + 1, d, e, f, g, rw q refl)
add_one-HasEach counts memory_entity (a, b, c, d, e, f, g, q) = (a, b, c, d + 1, e, f, g, rw q refl)
add_one-HasEach counts relation_provenance (a, b, c, d, e, f, g, q) =
    (a, b, c, d, e + 1, f, g, rw q refl)
add_one-HasEach counts skill (a, b, c, d, e, f, g, q) = (a, b, c, d, e, f + 1, g, rw q refl)
add_one-HasEach counts skill_provenance (a, b, c, d, e, f, g, q) =
    (a, b, c, d, e, f, g + 1, rw q refl)

count_all-HasEach :
    {D : Type 0} (records : List (BundleRecord D)) (counts : Dict String ℕ)
    → HasEach counts
    → HasEach (count_all counts records)
unfolding count_all
count_all-HasEach [] counts h = h
count_all-HasEach (r ∷ records) counts h =
    count_all-HasEach records (add_one counts r.kind) (add_one-HasEach counts r.kind h)

same_counts_self : (counts : Dict String ℕ) → HasEach counts → same_counts counts counts ≡ true
unfolding same_counts Dict.get
same_counts_self counts (a, b, c, d, e, f, g, q) =
    rw q (rw (==_refl a, ==_refl b, ==_refl c, ==_refl d, ==_refl e, ==_refl f, ==_refl g) refl)

-- The counts of any records equal themselves as dicts.
pub same_counts-count_all :
    {D : Type 0} (records : List (BundleRecord D))
    → same_counts (count_all no_counts records) (count_all no_counts records) ≡ true
same_counts-count_all records =
    same_counts_self (count_all no_counts records)
      (count_all-HasEach records no_counts (0, 0, 0, 0, 0, 0, 0, refl))
