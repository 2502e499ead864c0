-- ===== src/Base/Text/Lines.antt =====
-- Python's `str.splitlines` and `"\n".join`, over the code points.
use Prim.Native.Char.{Char, code}
use Prim.Native.String.{String, ◌++◌}
use mathlib.Core.Path.{◌≡◌, refl, ap, ◌∙◌}
use mathlib.Core.Bool.{Bool, false, ◌&&◌, ◌||◌}
use mathlib.Core.List.{List, [], ◌∷◌}
use Prim.Native.Nat.{ℕ}
use text.Mathlib.TextLemmas.{nil-append, cons-append, append_assoc}
use rootmem.Base.Tests.{◌==◌, nat_eq, if◌then◌else◌, leb}
use rootmem.Base.Lists.{All}

-- "\n", "\r", vertical tab, form feed, the file, group and record separators, NEL, LS and PS
abbrev pub is_boundary : ℕ → Bool
is_boundary c =
    (leb 10 c && leb c 13) || ((leb 28 c && leb c 30) || (c == 133 || (c == 8232 || c == 8233)))

abbrev pub starts_feed : String → Bool
starts_feed String.[] = false
starts_feed (String.◌∷◌ c s) = code c == 10

abbrev pub cons_char : Char → List String → List String
cons_char c [] = String.◌∷◌ c "" ∷ []
cons_char c (l ∷ ls) = String.◌∷◌ c l ∷ ls

-- "\r\n" is one boundary
unfoldable pub splitlines : String → List String
splitlines String.[] = []
splitlines (String.◌∷◌ c s) =
    let rest = splitlines s in
    if is_boundary (code c)
    then (if code c == 13 && starts_feed s then rest else "" ∷ rest)
    else cons_char c rest

unfoldable pub join_lines : List String → String
join_lines [] = ""
join_lines (l ∷ []) = l
join_lines (l ∷ m ∷ ls) = let rest = join_lines (m ∷ ls) in l ++ ("\n" ++ rest)

-- No code point of the text is a boundary.
abbrev pub IsLine : String → Type 0
IsLine String.[] = Unit
IsLine (String.◌∷◌ c s) = (is_boundary (code c) ≡ false) × IsLine s

feed-append : (s : String) → "\n" ++ s ≡ String.◌∷◌ "\n" s
feed-append s = cons-append "\n" "" s ∙ ap (String.◌∷◌ "\n") (nil-append s)

splitlines-line : (l s : String) → IsLine l → splitlines (l ++ ("\n" ++ s)) ≡ l ∷ splitlines s
unfolding splitlines
splitlines-line String.[] s h = rw (nil-append ("\n" ++ s), feed-append s) refl
splitlines-line (String.◌∷◌ c l) s (p, h) =
    rw (cons-append c l ("\n" ++ s), p) (ap (cons_char c) (splitlines-line l s h))

-- Lines that are joined and ended are split again.
pub splitlines-join_lines :
    (l : String) (ls : List String)
    → All IsLine (l ∷ ls)
    → splitlines (join_lines (l ∷ ls) ++ "\n") ≡ l ∷ ls
unfolding splitlines join_lines
splitlines-join_lines l [] (h, tt) = splitlines-line l "" h
splitlines-join_lines l (m ∷ ls) (h, hs) = rw (append_assoc l ("\n" ++ join_lines (m ∷ ls)) "\n") (
    rw (append_assoc "\n" (join_lines (m ∷ ls)) "\n") (
      splitlines-line l (join_lines (m ∷ ls) ++ "\n") h
      ∙ ap (λ r. l ∷ r) (splitlines-join_lines m ls hs)))
