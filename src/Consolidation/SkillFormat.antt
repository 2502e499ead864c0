-- ===== src/Consolidation/SkillFormat.antt =====
-- src/rootmem/consolidation/skill_format.py. The pattern of a name is matched over code points.
pub mod Names
use Prim.Native.String.{◌++◌}
use Prim.Native.Char.{code}
use rootmem.Base.{
  ℕ, String, Bool, true, false, not, ◌==◌, ◌&&◌, ◌||◌, List, [], ◌∷◌, length, if◌then◌else◌, leb,
  ltb, Result, ok, raise, string_eq, nat_eq,
}
use rootmem.Base.Text.{Text}

pub data SkillFormatError : Type 0 where
  bad_name name_too_long blank_description description_too_long : SkillFormatError

pub record SkillDraft : Type 0 where
  pub name : String
  pub description : String
  pub body_markdown : String

abbrev pub codes : String → List ℕ
codes String.[] = []
codes (String.◌∷◌ c s) = code c ∷ codes s

-- `[a-z0-9]`
abbrev pub is_word_char : ℕ → Bool
is_word_char c = (leb b'a' c && leb c b'z') || (leb b'0' c && leb c b'9')

-- `[a-z0-9]+(-[a-z0-9]+)*` from inside a word on
unfoldable pub in_word : List ℕ → Bool
in_word [] = true
in_word (c ∷ []) = is_word_char c
in_word (c ∷ d ∷ cs) =
    let here = in_word (d ∷ cs) in
    let after = in_word cs in
    if is_word_char c then here else (c == b'-') && (is_word_char d && after)

unfoldable pub matches_name : List ℕ → Bool
unfolding in_word
matches_name [] = false
matches_name (c ∷ cs) = is_word_char c && in_word cs

unfoldable pub validate_skill_name : String → ℕ → Result SkillFormatError (Unit {0})
unfolding matches_name
validate_skill_name name max_length =
    if not (matches_name (codes name))
    then raise bad_name
    else if ltb max_length (length (codes name))
    then raise name_too_long
    else ok tt

unfoldable pub validate_skill_description : Text → String → ℕ → Result SkillFormatError (Unit {0})
validate_skill_description t description max_length =
    if t.strip description == ""
    then raise blank_description
    else if ltb max_length (length (codes description))
    then raise description_too_long
    else ok tt

unfoldable pub render_skill_markdown : SkillDraft → String
render_skill_markdown draft =
    "---\nname: "
    ++ (draft.name
        ++ ("\ndescription: "
            ++ (draft.description ++ ("\n---\n\n" ++ (draft.body_markdown ++ "\n")))))
