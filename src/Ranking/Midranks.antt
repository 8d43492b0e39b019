-- ===== src/Ranking/Midranks.antt =====
-- `_midrank_scores`: values to ranks between 0 and 1, equal values to the middle of their places.
use symbolic_recommendation.Prelude.{
  ℕ, zero, suc, ◌+◌, ◌-◌, Bool, not, List, [], ◌∷◌, map, leb, if◌then◌else◌, length, take, drop,
  sort_by, Result, ok, ◌>>=◌,
}
use symbolic_recommendation.Quantiles.{Floats}
use symbolic_recommendation.Ranking.Margins.{update_at, repeat}

-- max(1, n)
abbrev pub at_least_one : ℕ → ℕ
at_least_one zero = 1
at_least_one (suc n) = suc n

module _ (fl : Floats) where
  -- How many of the front of the list are equal to a value.
  unfoldable pub leading_equal : (fl.F → Bool) → List (ℕ × fl.F) → ℕ
  leading_equal same [] = 0
  leading_equal same (p ∷ rest) =
      let more = leading_equal same rest in if same p.1 then suc more else 0

  -- 1.0 - ((position + end - 1) / 2) / denominator
  unfoldable pub midrank : ℕ → ℕ → ℕ → fl.F
  midrank denominator position end_ =
      fl.sub fl.one_
        (fl.div (fl.div (fl.of_nat (position + end_ - 1)) (fl.of_nat 2)) (fl.of_nat denominator))

  unfoldable pub place_all : fl.F → List (ℕ × fl.F) → List fl.F → Result (List fl.F)
  place_all rank_score [] scores = ok scores
  place_all rank_score (p ∷ group) scores =
      update_at (λ x. rank_score) p.0 scores >>= λ next. place_all rank_score group next

  -- The loop over the groups of equal values, with the number of indices as fuel.
  unfoldable pub midrank_groups : ℕ → ℕ → ℕ → List (ℕ × fl.F) → List fl.F → Result (List fl.F)
  midrank_groups zero denominator position ordered scores = ok scores
  midrank_groups (suc fuel) denominator position [] scores = ok scores
  midrank_groups (suc fuel) denominator position (p ∷ rest) scores =
      let size = suc (leading_equal (λ v. fl.eq v p.1) rest) in
      place_all (midrank denominator position (position + size)) (take size (p ∷ rest)) scores
      >>= λ next. midrank_groups fuel denominator (position + size) (drop size (p ∷ rest)) next

  unfoldable pub numbered : ℕ → List fl.F → List (ℕ × fl.F)
  numbered i [] = []
  numbered i (v ∷ values) = (i, v) ∷ numbered (suc i) values

  -- Descending values, the lower index first where they are equal.
  abbrev pub value_order : ℕ × fl.F → ℕ × fl.F → Bool
  value_order p q = if fl.eq q.1 p.1 then leb p.0 q.0 else not (fl.lt p.1 q.1)

  -- `_midrank_scores`
  unfoldable pub midrank_scores : List fl.F → Result (List fl.F)
  midrank_scores given =
      let values = map (λ v. fl.round v 12) given in
      let n = length values in
      midrank_groups n (at_least_one (n - 1)) 0 (sort_by value_order (numbered 0 values))
        (repeat fl.zero_ n)
