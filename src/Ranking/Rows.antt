-- ===== src/Ranking/Rows.antt =====
-- The rows that `_rank` builds, and the orders of `_rank` and `_pairwise_rank`.
use symbolic_recommendation.Prelude.{
  Bool, true, false, not, List, [], ◌∷◌, if◌then◌else◌, codes_leb,
}
use symbolic_recommendation.Prelude.Dict.{Dict}
use symbolic_recommendation.Metta.{Text}
use symbolic_recommendation.Quantiles.{Floats}
use symbolic_recommendation.Ranking.Margins.{Proof}

module _ (fl : Floats) where
  -- What the tournament adds to a row.
  pub record Scores : Type 0 where
    pub pairwise_score : fl.F
    pub pairwise_margin_score : fl.F
    pub pairwise_rank_score : fl.F
    pub pointwise_rank_score : fl.F
    pub ranking_score : fl.F
    pub pairwise_proof_coverage : fl.F
    pub pairwise_directional_coverage : fl.F
    pub pairwise_weight_applied : fl.F
    pub live_feedback_rank_fusion : Bool
    pub pairwise_family_rank_scores : Dict Text fl.F

  -- A row before the tournament, after it without pairs, and after it.
  pub data Pairing : Type 0 where
    unpaired alone : Pairing
    paired : Scores → Pairing

  pub record RankedRow : Type 0 where
    pub article : Text
    pub score : fl.F
    pub strength : fl.F
    pub confidence : fl.F
    pub inference_strength : fl.F
    pub inference_confidence : fl.F
    pub baseline : fl.F
    pub rules : List Text
    pub proofs : List (Proof fl)
    pub revised_by_feedback : Bool
    pub topic_prior : fl.F
    pub format_prior : fl.F
    pub subcategory_prior : fl.F
    pub feedback_rule_ids : List Text
    pub pairing : Pairing

  -- The numbers by which rows descend, before and after the tournament.
  abbrev pub point_key : RankedRow → List fl.F
  point_key r =
      r.score ∷ r.strength ∷ r.confidence ∷ r.topic_prior ∷ r.format_prior ∷ r.subcategory_prior
      ∷ []

  abbrev pub pair_key : Pairing → RankedRow → List fl.F
  pair_key (paired s) r = s.ranking_score ∷ s.pairwise_score ∷ point_key r
  pair_key _ r = point_key r

  abbrev pub ranking_key : RankedRow → List fl.F
  ranking_key r = pair_key r.pairing r

  -- The order of tuples of negated numbers, and of the article after them.
  unfoldable pub key_before : List fl.F → List fl.F → Text → Text → Bool
  key_before [] [] s t = not (codes_leb t s)
  key_before [] (y ∷ ys) s t = true
  key_before (x ∷ xs) [] s t = false
  key_before (x ∷ xs) (y ∷ ys) s t = if fl.eq x y then key_before xs ys s t else fl.lt y x

  -- What a stable sort asks: whether the second row does not come before the first.
  abbrev pub in_order : (RankedRow → List fl.F) → RankedRow → RankedRow → Bool
  in_order key a b = not (key_before (key b) (key a) b.article a.article)
