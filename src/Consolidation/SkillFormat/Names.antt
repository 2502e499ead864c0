-- ===== src/Consolidation/SkillFormat/Names.antt =====
-- The names that the pattern `[a-z0-9]+(-[a-z0-9]+)*` matches.
use rootmem.Base.{
  String, length, ltb, ◌≤◌, ok, arith, ℕ, ◌≡◌, refl, true, ◌==◌, ◌&&◌, List, [], ◌∷◌, ◌++◌, ◌↔◌,
  Bool-cases, inl, inr, &&-eq_true, eq_of_==, nat_eq,
}
use rootmem.Consolidation.SkillFormat.{
  codes, validate_skill_name, is_word_char, in_word, matches_name,
}

-- `[a-z0-9]+`
pub data Word : List ℕ → Type 0 where
  last : {c : ℕ} → is_word_char c ≡ true → Word (c ∷ [])
  more : {c : ℕ} {cs : List ℕ} → is_word_char c ≡ true → Word cs → Word (c ∷ cs)

-- Words with a hyphen between each two.
pub data Name : List ℕ → Type 0 where
  word : {w : List ℕ} → Word w → Name w
  hyphen : {w n : List ℕ} → Word w → Name n → Name (w ++ (b'-' ∷ n))

cons-Name : (c : ℕ) {n : List ℕ} → is_word_char c ≡ true → Name n → Name (c ∷ n)
cons-Name c h (word w) = word (more h w)
cons-Name c h (hyphen w n) = hyphen (more h w) n

in_word-Name : (c : ℕ) (cs : List ℕ) → is_word_char c ≡ true → in_word cs ≡ true → Name (c ∷ cs)
unfolding in_word
in_word-Name c [] h m = word (last h)
in_word-Name c (d ∷ []) h m = word (more h (last m))
in_word-Name c (d ∷ e ∷ es) h m = elim (Bool-cases (is_word_char d)) [
  | inl inside ↦ cons-Name c h (in_word-Name d (e ∷ es) inside (rw inside at m))
  | inr outside ↦
      let (dash, rest) = &&-eq_true (d == b'-') (is_word_char e && in_word es) (rw outside at m) in
      let (starts, after) = &&-eq_true (is_word_char e) (in_word es) rest in
      rw (eq_of_== d b'-' dash) (hyphen (last h) (in_word-Name e es starts after))
]

enter : (cs : List ℕ) → matches_name cs ≡ true → in_word cs ≡ true
unfolding matches_name in_word
enter [] m = cc
enter (c ∷ []) m = (&&-eq_true (is_word_char c) true m).0
enter (c ∷ d ∷ cs) m = let (h, rest) = &&-eq_true (is_word_char c) (in_word (d ∷ cs)) m in rw h rest

Word-matches : {w : List ℕ} → Word w → matches_name w ≡ true
unfolding matches_name in_word
Word-matches (last h) = rw h refl
Word-matches (more {cs = cs} h w) = rw h (enter cs (Word-matches w))

after_hyphen : (n : List ℕ) → matches_name n ≡ true → in_word (b'-' ∷ n) ≡ true
unfolding matches_name in_word
after_hyphen [] m = cc
after_hyphen (d ∷ cs) m = m

hyphen-matches :
    {w : List ℕ} (n : List ℕ)
    → Word w
    → matches_name n ≡ true
    → matches_name (w ++ (b'-' ∷ n)) ≡ true
unfolding matches_name
hyphen-matches n (last h) m = rw h (after_hyphen n m)
hyphen-matches n (more {cs = cs} h w) m = rw h (enter (cs ++ (b'-' ∷ n)) (hyphen-matches n w m))

Name-matches : {cs : List ℕ} → Name cs → matches_name cs ≡ true
Name-matches (word w) = Word-matches w
Name-matches (hyphen {n = rest} w n) = hyphen-matches rest w (Name-matches n)

-- The matcher accepts exactly the non-empty words of lowercase letters and digits with one hyphen
-- between each two.
matches_name_iff : (cs : List ℕ) → (matches_name cs ≡ true) ↔ Name cs
unfolding matches_name
matches_name_iff [] = (λ m. cc, Name-matches)
matches_name_iff (c ∷ cs) = (
  λ m. let (h, rest) = &&-eq_true (is_word_char c) (in_word cs) m in in_word-Name c cs h rest,
  Name-matches,
)

-- `validate_skill_name` accepts a name exactly when it is words of lowercase letters and digits with
-- one hyphen between each two and has at most `max_length` characters.
pub validate_skill_name_iff :
    (name : String) (max_length : ℕ)
    → (validate_skill_name name max_length ≡ ok tt)
      ↔ (Name (codes name) × (length (codes name) ≤ max_length))
unfolding validate_skill_name
validate_skill_name_iff name max_length = elim (Bool-cases (matches_name (codes name))) [
  | inr differs ↦
      rw differs
        (λ m. cc, λ (n, _). let fits = (matches_name_iff (codes name)).1 n in cc (fits, differs))
  | inl fits ↦ elim (Bool-cases (ltb max_length (length (codes name)))) [
    | inl long ↦ rw (fits, long) (λ m. cc, λ (_, le). absurd (ground arith))
    | inr short ↦
        rw (fits, short) (λ _. ((matches_name_iff (codes name)).0 fits, ground arith), λ _. refl)
  ]
]
