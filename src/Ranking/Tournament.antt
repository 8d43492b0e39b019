-- ===== src/Ranking/Tournament.antt =====
-- `_pairwise_rank`: the balanced-family proof tournament of a slate.
use symbolic_recommendation.Prelude.{
  ℕ, zero, suc, ◌+◌, ◌-◌, Bool, not, ◌&&◌, ◌||◌, List, [], ◌∷◌, ◌++◌, map, ltb, if◌then◌else◌,
  length, is_empty, any_true, drop, sort_by, ◌==◌, code_keys, Result, ok, ◌>>=◌,
}
use symbolic_recommendation.Prelude.Dict.{Dict, put}
use symbolic_recommendation.Metta.{Text}
use symbolic_recommendation.Quantiles.{Floats, item_at}
use symbolic_recommendation.Ranking.Plan.{Duel, Plan}
use symbolic_recommendation.Ranking.Oriented.{Spec}
use symbolic_recommendation.Ranking.Margins.{
  Proof, PairRule, MarginCache, Clusters, repeat, max_of, half, clusters_of, family_of,
}
use symbolic_recommendation.Ranking.Votes.{Totals, no_totals, vote_all}
use symbolic_recommendation.Ranking.Midranks.{at_least_one, midrank, midrank_scores}
use symbolic_recommendation.Ranking.Rows.{Scores, alone, paired, RankedRow, ranking_key, in_order}

module _ (fl : Floats) where
  -- Each total over the number of comparisons of its row.
  unfoldable pub averages : List fl.F → List ℕ → List fl.F
  averages [] counts = []
  averages (t ∷ totals) [] = []
  averages (t ∷ totals) (n ∷ counts) =
      fl.div t (fl.of_nat (at_least_one n)) ∷ averages totals counts

  -- The weights of the clusters of a family.
  unfoldable pub family_weight : Dict Text Text → Text → Dict Text fl.F → fl.F → fl.F
  family_weight families family [] sum = sum
  family_weight families family ((d, w) ∷ weights) sum =
      family_weight families family weights
        (if family_of fl families d == family then fl.add sum w else sum)

  -- `family_pair_values` and `family_rank_scores`
  pub record FamilyScores : Type 0 where
    pub pair_values : Dict Text (List fl.F)
    pub rank_scores : Dict Text (List fl.F)

  unfoldable pub score_families :
      Clusters fl → List ℕ → Dict Text (List fl.F) → FamilyScores → Result FamilyScores
  score_families c counts [] f = ok f
  score_families c counts ((family, totals) ∷ rest) f =
      let raw = averages totals counts in
      let weight = family_weight c.families family c.weights fl.zero_ in
      let family_max = max_of fl (fl.literal 1 12) weight in
      midrank_scores fl raw >>= λ ranks. score_families c counts rest (record {
        pair_values =
            put family (map (λ v. fl.add (half fl) (fl.div (fl.mul (half fl) v) family_max)) raw)
              f.pair_values;
        rank_scores = put family ranks f.rank_scores;
      })

  unfoldable pub sum_at : ℕ → Dict Text (List fl.F) → fl.F → Result fl.F
  sum_at i [] sum = ok sum
  sum_at i ((family, values) ∷ rest) sum = item_at values i >>= λ v. sum_at i rest (fl.add sum v)

  -- Of the families, the mean value of a row.
  abbrev pub mean_at : ℕ → Dict Text (List fl.F) → Result fl.F
  mean_at i families = sum_at i families fl.zero_ >>= λ sum.
      ok (fl.div sum (fl.of_nat (at_least_one (length families))))

  abbrev pub same_signature_as : RankedRow fl → RankedRow fl → Bool
  same_signature_as r s =
      fl.eq s.score r.score && (fl.eq s.strength r.strength && fl.eq s.confidence r.confidence)

  unfoldable pub leading_rows : RankedRow fl → List (RankedRow fl) → ℕ
  leading_rows r [] = 0
  leading_rows r (s ∷ rows) =
      let more = leading_rows r rows in if same_signature_as r s then suc more else 0

  -- `point_ranks`: the loop over the groups of rows with one signature.
  unfoldable pub point_ranks : ℕ → ℕ → ℕ → List (RankedRow fl) → List fl.F
  point_ranks zero denominator position rows = []
  point_ranks (suc fuel) denominator position [] = []
  point_ranks (suc fuel) denominator position (r ∷ rows) =
      let size = suc (leading_rows r rows) in
      repeat (midrank fl denominator position (position + size)) size
      ++ point_ranks fuel denominator (position + size) (drop size (r ∷ rows))

  unfoldable pub families_at : ℕ → Dict Text (List fl.F) → Result (Dict Text fl.F)
  families_at i [] = ok []
  families_at i ((family, values) ∷ rest) =
      item_at values i >>= λ v. families_at i rest >>= λ more. ok ((family, fl.round v 8) ∷ more)

  -- What the update of a row reads.
  pub record Standing : Type 0 where
    pub totals : Totals fl
    pub raw : List fl.F
    pub families : FamilyScores
    pub points : List fl.F
    pub fusion : Bool

  abbrev pub share : ℕ → ℕ → fl.F
  share n count = fl.round (fl.div (fl.of_nat n) (fl.of_nat (at_least_one count))) 8

  unfoldable pub scores_at : Standing → ℕ → Result (Scores fl)
  scores_at st i =
      let weight = if st.fusion then fl.literal 75 2 else fl.one_ in
      item_at st.totals.comparison_counts i >>= λ count.
      mean_at i st.families.pair_values >>= λ pair. item_at st.raw i >>= λ margin.
      mean_at i st.families.rank_scores >>= λ rank. item_at st.points i >>= λ point.
      item_at st.totals.covered i >>= λ covered.
      item_at st.totals.directional_covered i >>= λ directional.
      families_at i st.families.rank_scores >>= λ families. ok (record {
        pairwise_score = fl.round pair 8;
        pairwise_margin_score = fl.round margin 8;
        pairwise_rank_score = fl.round rank 8;
        pointwise_rank_score = fl.round point 8;
        ranking_score =
            fl.round (fl.add (fl.mul weight rank) (fl.mul (fl.sub fl.one_ weight) point)) 8;
        pairwise_proof_coverage = share covered count;
        pairwise_directional_coverage = share directional count;
        pairwise_weight_applied = weight;
        live_feedback_rank_fusion = st.fusion;
        pairwise_family_rank_scores = families;
      })

  unfoldable pub update_rows : Standing → ℕ → List (RankedRow fl) → Result (List (RankedRow fl))
  update_rows st i [] = ok []
  update_rows st i (r ∷ rows) = scores_at st i >>= λ s.
      update_rows st (suc i) rows >>= λ rest. ok (record r { pairing = paired s } ∷ rest)

  -- The end of `_pairwise_rank`, from the comparisons and their proofs.
  unfoldable pub run_tournament :
      MarginCache fl
      → List (PairRule fl)
      → List (RankedRow fl)
      → List Duel
      → Dict Text (List (Proof fl))
      → Result (List (RankedRow fl))
  run_tournament cache rules rows duels proof_map =
      let count = length rows in
      let c = clusters_of fl rules in
      vote_all fl count c proof_map duels (no_totals fl count c cache) >>= λ t.
      score_families c t.comparison_counts t.family_totals
        (record { pair_values = []; rank_scores = [] })
      >>= λ families.
          update_rows
            (record {
              totals = t;
              raw = averages t.pair_totals t.comparison_counts;
              families = families;
              points = point_ranks count (at_least_one (count - 1)) 0 rows;
              fusion = any_true (λ (r : RankedRow fl). not (is_empty r.feedback_rule_ids)) rows;
            })
            0 rows
          >>= λ updated. ok (sort_by (in_order fl (ranking_key fl)) updated)

  abbrev pub leave_alone : List (RankedRow fl) → List (RankedRow fl)
  leave_alone = map (λ (r : RankedRow fl). record r { pairing = alone })

  -- `_pairwise_rank`, from the plan of the comparisons, which may raise, and the proofs of its specs.
  -- It returns the rows; the cache that it leaves is in the totals of `run_tournament`.
  unfoldable pub pairwise_rank :
      MarginCache fl
      → List (PairRule fl)
      → List (RankedRow fl)
      → Result Plan
      → (List Spec → Result (Dict Text (List (Proof fl))))
      → Result (List (RankedRow fl))
  pairwise_rank cache rules rows plan prove =
      if is_empty rules || ltb (length rows) 2
      then ok (leave_alone rows)
      else (plan >>= λ p. prove p.pair_specs >>= λ proof_map.
          run_tournament cache rules rows p.comparisons proof_map)
