-- ===== src/Ranking/MidrankTests.antt =====
-- Ranks of three numbers, two of them equal.
use symbolic_recommendation.Prelude.{ℕ, ◌≡◌, refl, true, List, [], ◌∷◌, length, all_true, ok}
use symbolic_recommendation.Quantiles.{item_at}
use symbolic_recommendation.Quantiles.Naturals.{naturals, naturals-FloatLaws}
use symbolic_recommendation.Ranking.Midranks.{midrank_scores}
use symbolic_recommendation.Ranking.Midranked.{midrank_of, rounded, midrank_scores-middle}

abbrev margins : List ℕ
margins = 3 ∷ 1 ∷ 3 ∷ []

margins_finite : all_true naturals.is_finite (rounded naturals margins) ≡ true
unfolding all_true
margins_finite = refl

midrank_scores-middle_example :
    (scores : List ℕ) × (midrank_scores naturals margins ≡ ok scores)
    × (length scores ≡ length margins)
    × ((i : ℕ) (v : ℕ)
        → item_at (rounded naturals margins) i ≡ ok v
        → item_at scores i ≡ ok (midrank_of naturals (rounded naturals margins) v))
midrank_scores-middle_example =
    midrank_scores-middle naturals naturals-FloatLaws margins margins_finite
