-- ===== src/Ranking/Score.antt =====
-- `_rank`, and `score` where it neither reads nor fills the cache of feeds. The proofs of points and of
-- pairs, and what is prepared for a candidate, are parameters.
use symbolic_recommendation.Prelude.{
  ℕ, ◌+◌, Bool, not, Option, none, some, List, [], ◌∷◌, ◌++◌, map, if◌then◌else◌, length, is_empty,
  keep_if, elem, code_keys, Result, ok, err, ◌>>=◌, key_error,
}
use symbolic_recommendation.Prelude.Dict.{Dict, get}
use symbolic_recommendation.Metta.{Text}
use symbolic_recommendation.Quantiles.{Floats}
use symbolic_recommendation.Ranking.Features.{Candidate}
use symbolic_recommendation.Ranking.Oriented.{Lab, Spec}
use symbolic_recommendation.Ranking.Margins.{
  Proof, PairRule, MarginCache, max_of, min_of, sorted_texts, or_else,
}
use symbolic_recommendation.Ranking.Midranks.{at_least_one}
use symbolic_recommendation.Ranking.Rows.{unpaired, RankedRow}

module _ (fl : Floats) where
  pub record PointRule : Type 0 where
    pub point_rule_id : Text
    pub specificity : Option ℕ
    pub premise_count : ℕ
    pub confidence : fl.F
    pub strength : fl.F

  -- Training-only editorial priors of an article.
  pub record TieBreak : Type 0 where
    pub topic_prior : fl.F
    pub format_prior : fl.F
    pub subcategory_prior : fl.F

  -- A candidate with the case that its proofs are kept under.
  pub record PointSpec : Type 0 where
    pub aid : Text
    pub case : Text
    pub candidate : Candidate fl

  -- The laboratory as `score` reads it.
  pub record Scorer : Type 0 where
    pub users : List Text
    pub articles : List Text
    pub top_k : ℕ
    pub max_pair_comparisons : ℕ
    pub popularity : Dict Text fl.F
    pub click_base_rate : fl.F
    pub mined_rules : List PointRule
    pub pair_rules : List (PairRule fl)
    pub lab : Lab fl
    pub default_candidates : Text → List Text
    pub tie_break : Text → TieBreak
    pub prepare : Text → Text → Result PointSpec
    pub point_proofs : List PointSpec → Result (Dict Text (List (Proof fl)))
    -- the cache of margins as the call that ranks these articles finds it
    pub pair_margins : List Text → MarginCache fl
    pub pair_proofs : List Spec → Result (Dict Text (List (Proof fl)))

  -- prior + confidence * (strength - prior)
  unfoldable pub shrunk : fl.F → fl.F → fl.F → fl.F
  shrunk prior confidence strength = fl.add prior (fl.mul confidence (fl.sub strength prior))

  abbrev pub Tv : Type 0
  Tv = fl.F × fl.F

  abbrev pub tv_of : Proof fl → Tv
  tv_of p = (p.strength, p.confidence)

  -- `max` by the posterior keeps the first of the best.
  unfoldable pub strongest : fl.F → Tv → List (Proof fl) → Tv
  strongest prior best [] = best
  strongest prior best (p ∷ proofs) =
      strongest prior
        (if fl.lt (shrunk prior best.1 best.0) (shrunk prior p.confidence p.strength)
          then tv_of p
          else best)
        proofs

  -- max(scored, key=..., default=((0.0, 0.0), ""))
  unfoldable pub inference_of : fl.F → List (Proof fl) → Tv
  inference_of prior [] = (fl.zero_, fl.zero_)
  inference_of prior (p ∷ proofs) = strongest prior (tv_of p) proofs

  abbrev pub less_sure : fl.F → Tv → Tv → Bool
  less_sure prior a b =
      if fl.eq a.1 b.1
      then fl.lt (fl.abs (fl.sub a.0 prior)) (fl.abs (fl.sub b.0 prior))
      else fl.lt a.1 b.1

  -- The surest of the proofs of feedback, and of them the one farthest from the prior.
  unfoldable pub surest : fl.F → Tv → List (Proof fl) → Tv
  surest prior best [] = best
  surest prior best (p ∷ proofs) =
      surest prior (if less_sure prior best (tv_of p) then tv_of p else best) proofs

  unfoldable pub all_ids : (Proof fl → List Text) → List (Proof fl) → List Text
  all_ids ids [] = []
  all_ids ids (p ∷ proofs) = ids p ++ all_ids ids proofs

  abbrev pub weight_of : PointRule → ℕ
  weight_of r = at_least_one (or_else r.premise_count r.specificity)

  unfoldable pub total_weight : List PointRule → ℕ
  total_weight [] = 0
  total_weight (r ∷ rules) = weight_of r + total_weight rules

  unfoldable pub weighted_sum : (PointRule → fl.F) → List PointRule → fl.F → fl.F
  weighted_sum value [] sum = sum
  weighted_sum value (r ∷ rules) sum =
      weighted_sum value rules (fl.add sum (fl.mul (value r) (fl.of_nat (weight_of r))))

  unfoldable pub proof_sum : (Proof fl → fl.F) → List (Proof fl) → fl.F → fl.F
  proof_sum value [] sum = sum
  proof_sum value (p ∷ proofs) sum = proof_sum value proofs (fl.add sum (value p))

  -- The score and its confidence, from the rules that fired, else from the proofs, else the prior.
  unfoldable pub evidence_of : fl.F → List PointRule → List (Proof fl) → fl.F × fl.F
  evidence_of prior (r ∷ rules) proofs =
      let total = fl.of_nat (total_weight (r ∷ rules)) in
      (
        fl.div (weighted_sum (λ r. shrunk prior r.confidence r.strength) (r ∷ rules) fl.zero_)
            total,
        fl.div (weighted_sum (λ r. r.confidence) (r ∷ rules) fl.zero_) total,
      )
  evidence_of prior [] (p ∷ proofs) =
      let total = fl.of_nat (length (p ∷ proofs)) in
      (
        fl.div (proof_sum (λ p. shrunk prior p.confidence p.strength) (p ∷ proofs) fl.zero_) total,
        fl.div (proof_sum (λ p. p.confidence) (p ∷ proofs) fl.zero_) total,
      )
  evidence_of prior [] [] = (prior, fl.zero_)

  -- max(0.0, min(1.0, strength))
  unfoldable pub implied_strength : fl.F → fl.F → fl.F → fl.F
  implied_strength prior score confidence = max_of fl fl.zero_ (
      min_of fl fl.one_ (
        if fl.eq confidence fl.zero_
        then prior
        else fl.add prior (fl.div (fl.sub score prior) confidence)))

  -- The score of a row, with its truth value: a proof of feedback replaces the evidence.
  unfoldable pub revise : fl.F → fl.F × fl.F → List (Proof fl) → fl.F × Tv
  revise prior evidence [] =
      (evidence.0, (implied_strength prior evidence.0 evidence.1, evidence.1))
  revise prior evidence (p ∷ proofs) =
      let tv = surest prior (tv_of p) proofs in (shrunk prior tv.1 tv.0, tv)

  abbrev pub found_baseline : Option fl.F → Result fl.F
  found_baseline none = err (key_error "popularity")
  found_baseline (some b) = ok b

  -- The row of a candidate.
  unfoldable pub point_row : Scorer → PointSpec → List (Proof fl) → Result (RankedRow fl)
  point_row sc spec proofs =
      let prior = sc.click_base_rate in
      let feedback = keep_if (λ (p : Proof fl). not (is_empty p.feedback_ids)) proofs in
      let cited = all_ids (λ p. p.mined_ids) proofs in
      let fired = keep_if (λ (r : PointRule). elem r.point_rule_id cited) sc.mined_rules in
      let inference = inference_of prior proofs in
      let revised = revise prior (evidence_of prior fired proofs) feedback in
      let ties = sc.tie_break spec.aid in
      found_baseline (get spec.aid sc.popularity) >>= λ baseline. ok (record {
        article = spec.aid;
        score = fl.round revised.0 8;
        strength = revised.1.0;
        confidence = revised.1.1;
        inference_strength = inference.0;
        inference_confidence = inference.1;
        baseline = baseline;
        rules = map (λ (r : PointRule). r.point_rule_id) fired;
        proofs = proofs;
        revised_by_feedback = not (is_empty feedback);
        topic_prior = ties.topic_prior;
        format_prior = ties.format_prior;
        subcategory_prior = ties.subcategory_prior;
        feedback_rule_ids = sorted_texts (all_ids (λ p. p.feedback_ids) feedback);
        pairing = unpaired;
      })
