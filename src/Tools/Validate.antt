-- ===== src/Tools/Validate.antt =====
-- src/rootmem/integration/mcp/schemas.py: the validator of each class of parameters. The bounds of single
-- fields are checked by the library that the classes derive from.
use rootmem.Base.{
  String, Bool, true, false, ◌==◌, ◌||◌, Option, none, some, Result, ok, raise, ◌>>=◌,
  if◌then◌else◌, string_eq,
}
use rootmem.Base.Text.{Text}
use rootmem.Memory.Models.{is_some}
use rootmem.Retrieval.Ranking.{ValueError, value_error}
use rootmem.Tools.Search.{SearchParams}
use rootmem.Tools.Schemas.{RememberParams, RecallParams, UpdateParams, ForgetParams}

abbrev pub reject_blank : Text → String → Result ValueError String
reject_blank t value = if t.strip value == "" then raise value_error else ok value

abbrev pub unless_blank : Text → Option String → Result ValueError (Option String)
unless_blank t none = ok none
unless_blank t (some content) = reject_blank t content >>= λ c. ok (some c)

module _ {F : Type 0} where
  unfoldable pub remember : Text → RememberParams F → Result ValueError (RememberParams F)
  remember t params = do
    content ← reject_blank t params.content
    source ← reject_blank t params.source
    ok params

  unfoldable pub update : Text → UpdateParams F → Result ValueError (UpdateParams F)
  update t params = do
    id ← reject_blank t params.id
    content ← unless_blank t params.content
    if is_some params.content || (is_some params.confidence || is_some params.metadata)
        then ok params
        else raise value_error

-- Both are given, or none.
abbrev pub alike : Bool → Bool → Bool
alike true b = b
alike false true = false
alike false false = true

unfoldable pub recall : RecallParams → Result ValueError RecallParams
recall params =
    if alike (is_some params.id) (is_some params.key) then raise value_error else ok params

unfoldable pub forget : Text → ForgetParams → Result ValueError ForgetParams
forget t params = reject_blank t params.id >>= λ id. ok params

unfoldable pub search : Text → SearchParams → Result ValueError SearchParams
search t params = do
  query ← reject_blank t params.query
  if alike (is_some params.entity_name) (is_some params.entity_type)
      then ok params
      else raise value_error
