-- ===== src/Base/Supply.antt =====
-- What the runtime supplies to the calls of an operation: `uuid.uuid4()` and `datetime.now(UTC)`, as
-- functions of the number of calls before.
use Prim.Native.Nat.{ℕ, ◌≤◌}
use Prim.Native.String.{String}
use mathlib.Core.Path.{◌≡◌}
use mathlib.Core.Option.{none}
use rootmem.Base.Tests.{string_eq}
use rootmem.Base.Dict
use rootmem.Base.Dict.{Dict}

pub record Supply : Type 0 where
  pub uuid : ℕ → String
  pub clock : ℕ → ℕ

-- No two calls draw the same id.
abbrev pub IsDistinct : Supply → Type 0
IsDistinct u = (i j : ℕ) → u.uuid i ≡ u.uuid j → i ≡ j

-- No id that is still to be drawn is a key.
abbrev pub IsUnused : {V : Type 0} → Supply → ℕ → Dict String V → Type 0
IsUnused u drawn d = (n : ℕ) → drawn ≤ n → Dict.get d (u.uuid n) ≡ none
