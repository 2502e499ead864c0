-- ===== src/Consolidation/Salience.antt =====
-- src/rootmem/consolidation/salience.py.
use rootmem.Base.{ℕ, List, [], ◌∷◌, length, keep}
use rootmem.Base.Float.{Float, max, min}

pub record SalienceWeights (F : Type 0) : Type 0 where
  pub novelty : F
  pub importance : F
  pub repetition : F
  pub task_relevance : F
  pub repetition_similarity_threshold : F
  pub repetition_saturation_count : ℕ

module _ {F : Type 0} ⦃fl : Float F⦄ where
  -- `max(xs)` keeps the first of the greatest
  unfoldable pub max_of : F → List F → F
  unfolding max
  max_of best [] = best
  max_of best (x ∷ xs) = max_of (max best x) xs

  unfoldable pub compute_novelty : List F → F
  unfolding max_of
  compute_novelty [] = fl.of_ℕ 1
  compute_novelty (x ∷ xs) = fl.sub (fl.of_ℕ 1) (max_of x xs)

  -- The settings have a positive `repetition_saturation_count`; Python raises where it is 0.
  unfoldable pub compute_repetition : List F → SalienceWeights F → F
  unfolding min
  compute_repetition neighbor_similarities weights =
      let count =
        length
          (keep (λ s. fl.le weights.repetition_similarity_threshold s) neighbor_similarities) in
      min (fl.of_ℕ 1) (fl.div (fl.of_ℕ count) (fl.of_ℕ weights.repetition_saturation_count))

  unfoldable pub compute_salience : F → F → F → F → SalienceWeights F → F
  compute_salience novelty importance_flag repetition task_relevance weights =
      fl.add
        (fl.add
          (fl.add (fl.mul weights.novelty novelty) (fl.mul weights.importance importance_flag))
          (fl.mul weights.repetition repetition))
        (fl.mul weights.task_relevance task_relevance)
