-- ===== src/Tests/Extraction.antt =====
-- One extraction with an entity and a relation.
use Prim.Native.String.{◌∷◌ as cons, count}
use Prim.Native.String.count
use rootmem.Base.{ℕ, zero, suc, String, ◌≡◌, refl, ap, none, some, [], ◌∷◌, ok, arith}
use rootmem.Base.Dict
use rootmem.Base.Supply.{Supply, IsDistinct}
use rootmem.Tests.Numbers.{number, number-IsOrdered, number-IsMonotone}
use rootmem.Tests.Memory.{plain}
use rootmem.Tests.Graph.{settings, settings_admitted, contested_graph, contested_graph-IsGraph}
use rootmem.Graph.Models.{extracted}
use rootmem.Extraction.Models.{
  ExtractionResult, ApplyExtractionResult, object_present_and_consistent,
}
use rootmem.Extraction.Pipeline.{Call, Progress, apply_extraction}
use rootmem.Extraction.Pipeline.Applied.{IsOutcome, apply_extraction-IsOutcome}

-- a text of so many letters and one more
unfoldable pub letters : ℕ → String
letters zero = "x"
letters (suc n) = cons "x" (letters n)

count-letters : (n : ℕ) → count (letters n) ≡ suc n
unfolding letters
count-letters zero = refl
count-letters (suc n) =
    let step = count.cons "x" (letters n) in omega (arith, step, count-letters n)

abbrev pub supply : Supply
supply = record { uuid = letters; clock = λ n. n }

pub supply-IsDistinct : IsDistinct supply
supply-IsDistinct i j e = let p = ap count e in omega (arith, p, count-letters i, count-letters j)

abbrev pub call : Call ℕ
call = record {
  text = plain;
  supply = supply;
  settings = settings;
  namespace = "default";
  source_memory_ids = "m1" ∷ [];
  derivation = extracted;
}

abbrev pub facts : ExtractionResult ℕ
facts = record {
  entities = record { name = "sun"; entity_type = "star" } ∷ [];
  relations =
      record {
        subject_name = "sky";
        subject_type = "thing";
        predicate = "holds";
        object_name = some "sun";
        object_type = some "star";
        object_literal = none;
        confidence = 1;
      }
      ∷ [];
}

apply_extraction-IsOutcome_example :
    (r : Progress ℕ × ApplyExtractionResult ℕ) × (apply_extraction call contested_graph 0 facts
      ≡ ok r)
    × IsOutcome number-IsOrdered number-IsMonotone call contested_graph facts r
unfolding object_present_and_consistent Dict.get
apply_extraction-IsOutcome_example =
    apply_extraction-IsOutcome number-IsOrdered number-IsMonotone call contested_graph 0 facts
      settings_admitted supply-IsDistinct ((refl, (refl, refl)), tt) contested_graph-IsGraph tt
      (λ n le. refl)
