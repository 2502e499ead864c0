-- ===== src/Retrieval/Ranking.antt =====
-- src/rootmem/retrieval/ranking.py: the blend of text rank and cosine similarity, and the
-- multi-factor score.
use rootmem.Base.{
  ◌||◌, Option, none, some, List, [], ◌∷◌, ◌++◌, map, if◌then◌else◌, Result, ok, raise, length,
  ◌==◌, nat_eq,
}
use rootmem.Base.Float.{Float, clip01, sum}

pub data ValueError : Type 0 where
  value_error : ValueError

module _ {F : Type 0} ⦃fl : Float F⦄ where
  open fl use {of_ℕ, decimal, lt, le, eq, add, sub, mul, div, sqrt}

  unfoldable pub hybrid_score : F → F → F → F → F
  hybrid_score text_rank cosine_sim weight_text weight_vector =
      add (mul weight_text text_rank) (mul weight_vector cosine_sim)

  -- `zip(a, b)` under a product
  abbrev pub products : List F → List F → List F
  products [] ys = []
  products (x ∷ xs) [] = []
  products (x ∷ xs) (y ∷ ys) = mul x y ∷ products xs ys

  unfoldable pub cosine_similarity : List F → List F → Result ValueError F
  unfolding sum
  cosine_similarity a b =
      let dot = sum (products a b) in
      let norm_a = sqrt (sum (products a a)) in
      let norm_b = sqrt (sum (products b b)) in
      if length a == length b
      then ok
          (if eq norm_a (of_ℕ 0) || eq norm_b (of_ℕ 0) then of_ℕ 0 else div dot (mul norm_a norm_b))
      else raise value_error

pub record RankWeights (F : Type 0) : Type 0 where
  pub relevance : F
  pub retention : F
  pub salience : F
  pub trust : F
  pub graph_proximity : F

pub record RankTerms (F : Type 0) : Type 0 where
  pub relevance : F
  pub retention : Option F
  pub salience : Option F
  pub trust : Option F
  pub graph_proximity : Option F

-- The names of the terms, which key the breakdown.
pub data Term : Type 0 where
  relevance retention salience trust graph_proximity : Term

pub record RankedScore (F : Type 0) : Type 0 where
  pub score : F
  pub breakdown : List (Term × F)

-- A term that is present: its name, value and weight.
abbrev pub Present : Type 0 → Type 0
Present F = Term × F × F

module _ {F : Type 0} ⦃fl : Float F⦄ where
  abbrev pub when_present : Term → Option F → F → List (Present F)
  when_present name none weight = []
  when_present name (some value) weight = (name, value, weight) ∷ []

  unfoldable pub present_terms : RankTerms F → RankWeights F → List (Present F)
  present_terms terms weights =
      (Term.relevance, terms.relevance, weights.relevance)
      ∷ (when_present Term.retention terms.retention weights.retention
          ++ (when_present Term.salience terms.salience weights.salience
              ++ (when_present Term.trust terms.trust weights.trust
                  ++ when_present Term.graph_proximity terms.graph_proximity
                      weights.graph_proximity)))

  abbrev pub contribution : F → Present F → Term × F
  contribution total (name, value, weight) = (name, fl.div (fl.mul weight (clip01 value)) total)

  unfoldable pub rank_score : RankTerms F → RankWeights F → RankedScore F
  unfolding present_terms sum
  rank_score terms weights =
      let present = present_terms terms weights in
      let total_weight = sum (map (λ (p : Present F). p.2) present) in
      let breakdown = map (contribution total_weight) present in
      if fl.le total_weight (fl.of_ℕ 0)
      then record {
        score = fl.of_ℕ 0;
        breakdown = map (λ (p : Present F). (p.0, fl.of_ℕ 0)) present;
      }
      else record { score = sum (map (λ (p : Term × F). p.1) breakdown); breakdown = breakdown }
