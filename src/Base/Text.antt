-- ===== src/Base/Text.antt =====
-- The methods of Python's `str` that the code calls, over Unicode text.
pub mod Lines
use Prim.Native.String.{String}
use Prim.Native.Nat.{ℕ, ◌+◌}
use mathlib.Core.List.{List, [], ◌∷◌}

pub record Text : Type 0 where
  pub lower : String → String
  pub strip : String → String
  -- `s.split()` and `sep.join(words)`
  pub split : String → List String
  pub join : String → List String → String
  -- `s.count(term)`
  pub count : String → String → ℕ

-- `sum(content.count(term) for term in terms)`
unfoldable pub count_all : Text → String → List String → ℕ
count_all t content [] = 0
count_all t content (term ∷ terms) = t.count content term + count_all t content terms
