-- ===== src/Ranking/Plan.antt =====
-- `_pairwise_plan`: the comparisons of a slate, within the limit on their number. The times of the
-- profile are left out, and so is the branch for an instance that overrides `_pair_spec`.
use symbolic_recommendation.Prelude.{
  ℕ, zero, suc, ◌-◌, ◌*◌, ◌/◌, Option, none, some, List, [], ◌∷◌, ◌++◌, ltb, if◌then◌else◌, length,
  code_keys, Result, ok, err, ◌>>=◌, value_error, key_error,
}
use symbolic_recommendation.Prelude.Dict.{Dict, get, put}
use symbolic_recommendation.Metta.{Text}
use symbolic_recommendation.Quantiles.{Floats, item_at}
use symbolic_recommendation.Ranking.Matcher.{Matcher}
use symbolic_recommendation.Ranking.Features.{Candidate}
use symbolic_recommendation.Ranking.Oriented.{Spec, CaseCache, Lab, compiled, oriented_pair_specs}

-- Two places of the slate, with the case of each orientation.
pub record Duel : Type 0 where
  pub left : ℕ
  pub right : ℕ
  pub forward_case : Text
  pub reverse_case : Text

pub record Plan : Type 0 where
  pub comparisons : List Duel
  pub pair_specs : List Spec

unfoldable pub range_from : ℕ → ℕ → List ℕ
range_from start zero = []
range_from start (suc count) = start ∷ range_from (suc start) count

unfoldable pub pairs_with : ℕ → List ℕ → List (ℕ × ℕ)
pairs_with left [] = []
pairs_with left (right ∷ rights) = (left, right) ∷ pairs_with left rights

-- The pairs from a left place on, of which `count` are left.
unfoldable pub index_pairs_from : ℕ → ℕ → List (ℕ × ℕ)
index_pairs_from left zero = []
index_pairs_from left (suc count) =
    pairs_with left (range_from (suc left) count) ++ index_pairs_from (suc left) count

-- `index_pairs`
unfoldable pub index_pairs : ℕ → List (ℕ × ℕ)
index_pairs n = index_pairs_from 0 n

-- `exhaustive_count`
abbrev pub exhaustive_count : ℕ → ℕ
exhaustive_count n = n * (n - 1) / 2

module _ (fl : Floats) where
  -- `raw_by_article`, whose last entry of an article counts.
  unfoldable pub by_article :
      List (Text × Candidate fl) → Dict Text (Candidate fl) → Dict Text (Candidate fl)
  by_article [] raw = raw
  by_article ((aid, c) ∷ specs) raw = by_article specs (put aid c raw)

  abbrev pub found_candidate : Option (Candidate fl) → Result (Candidate fl)
  found_candidate none = err (key_error "article")
  found_candidate (some c) = ok c

  -- raw_by_article[rows[index]["article"]["id"]]
  unfoldable pub candidate_at : List Text → Dict Text (Candidate fl) → ℕ → Result (Candidate fl)
  candidate_at ids raw i = item_at ids i >>= λ aid. found_candidate (get aid raw)

  abbrev pub add_duel : ℕ → ℕ → Spec → Spec → Plan → Plan
  add_duel left right forward reverse plan = record {
    comparisons =
        record { left = left; right = right; forward_case = forward.0; reverse_case = reverse.0 }
        ∷ plan.comparisons;
    pair_specs = forward ∷ reverse ∷ plan.pair_specs;
  }

  abbrev pub empty_plan : Plan
  empty_plan = record { comparisons = []; pair_specs = [] }

  -- The loop over the pairs.
  unfoldable pub plan_pairs :
      Lab fl
      → Matcher
      → List Text
      → Dict Text (Candidate fl)
      → List (ℕ × ℕ)
      → CaseCache
      → Result Plan
  plan_pairs lab m ids raw [] cache = ok empty_plan
  plan_pairs lab m ids raw ((i, j) ∷ pairs) cache = candidate_at ids raw i >>= λ left.
      candidate_at ids raw j >>= λ right. oriented_pair_specs fl lab m left right cache >>= λ o.
      plan_pairs lab m ids raw pairs o.cache >>= λ rest. ok (add_duel i j o.forward o.reverse rest)

  -- `_pairwise_plan`, of the articles of the rows and the candidates of the specs.
  unfoldable pub pairwise_plan : Lab fl → ℕ → List Text → List (Text × Candidate fl) → Result Plan
  pairwise_plan lab limit ids specs =
      if ltb limit (exhaustive_count (length ids))
      then err (value_error "pairwise comparison budget exceeded")
      else plan_pairs lab (compiled fl lab) ids (by_article specs []) (index_pairs (length ids)) []
