-- ===== src/Ranking/Ended.antt =====
-- The rows of the tournament get their scores, so that `_pairwise_rank` returns.
use symbolic_recommendation.Prelude.{
  ℕ, zero, suc, ◌+◌, ◌-◌, ◌≤◌, ◌<◌, ◌≡◌, refl, sym, ◌∙◌, Bool, true, not, ◌&&◌, ◌||◌, List, [], ◌∷◌,
  arith, ltb, length, length-append, length-drop, drop, is_empty, any_true, all_true, sort_by, elem,
  beq_self, subst, length-map, code_keys, Bool-cases, inl, inr, Result, ok,
}
use symbolic_recommendation.Prelude.Dict.{Dict, has, AllValues}
use symbolic_recommendation.Metta.{Text}
use symbolic_recommendation.Quantiles.{Floats}
use symbolic_recommendation.Quantiles.Laws.{item_at-in_range}
use symbolic_recommendation.Ranking.Plan.{Duel, Plan, pairwise_plan}
use symbolic_recommendation.Ranking.Oriented.{Spec, Lab}
use symbolic_recommendation.Ranking.Features.{Candidate}
use symbolic_recommendation.Ranking.Exhaustive.{place_pair_keys, places, pairwise_plan-IsComplete}
use symbolic_recommendation.Ranking.Margins.{Proof, PairRule, MarginCache, repeat, clusters_of}
use symbolic_recommendation.Ranking.Votes.{no_totals}
use symbolic_recommendation.Ranking.Midranks.{at_least_one, midrank}
use symbolic_recommendation.Ranking.Rows.{RankedRow, Scores, paired, ranking_key, in_order}
use symbolic_recommendation.Ranking.Scoring.{row_ids}
use symbolic_recommendation.Ranking.Tournament.{
  averages, sum_at, leading_rows, point_ranks, families_at, Standing, scores_at, update_rows,
  run_tournament, leave_alone, pairwise_rank,
}
use symbolic_recommendation.Ranking.Sized.{length-repeat, OfLength}
use symbolic_recommendation.Ranking.Remembered.{AreReadable, HasRoom}
use symbolic_recommendation.Ranking.Returns.{
  Fits, is_ready, vote_all-Fits, no_totals-Fits, length-averages, FamiliesFit, score_families-Fit,
}

module _ (fl : Floats) where
  sum_at-returns :
      (count i : ℕ) (families : Dict Text (List fl.F)) (sum : fl.F)
      → i < count
      → OfLength fl count families
      → (total : fl.F) × (sum_at fl i families sum ≡ ok total)
  unfolding sum_at
  sum_at-returns count i [] sum h full = (sum, refl)
  sum_at-returns count i ((family, values) ∷ families) sum h full =
      let (v, found) = item_at-in_range values i (omega (arith, full.0)) in
      let (total, loops) = sum_at-returns count i families (fl.add sum v) h full.1 in
      (total, rw found loops)

  families_at-returns :
      (count i : ℕ) (families : Dict Text (List fl.F))
      → i < count
      → OfLength fl count families
      → (row : Dict Text fl.F) × (families_at fl i families ≡ ok row)
  unfolding families_at
  families_at-returns count i [] h full = ([], refl)
  families_at-returns count i ((family, values) ∷ families) h full =
      let (v, found) = item_at-in_range values i (omega (arith, full.0)) in
      let (row, loops) = families_at-returns count i families h full.1 in
      ((family, fl.round v 8) ∷ row, rw (found, loops) refl)

  leading_rows-le :
      (r : RankedRow fl) (rows : List (RankedRow fl)) → leading_rows fl r rows ≤ length rows
  unfolding leading_rows
  leading_rows-le r [] = omega arith
  leading_rows-le r (s ∷ rows) = ground (arith, leading_rows-le r rows)

  -- Every row has a rank by points.
  length-point_ranks :
      (fuel denominator position : ℕ) (rows : List (RankedRow fl))
      → length rows ≤ fuel
      → length (point_ranks fl fuel denominator position rows) ≡ length rows
  unfolding point_ranks
  length-point_ranks zero denominator position [] h = refl
  length-point_ranks zero denominator position (r ∷ rows) h = absurd (omega (arith, h))
  length-point_ranks (suc fuel) denominator position [] h = refl
  length-point_ranks (suc fuel) denominator position (r ∷ rows) h =
      let size = suc (leading_rows fl r rows) in
      let rank = midrank fl denominator position (position + size) in
      let later = point_ranks fl fuel denominator (position + size) (drop size (r ∷ rows)) in
      let left = length-drop size (r ∷ rows) (omega (arith, leading_rows-le r rows)) in
      omega (
        arith,
        length-append (repeat rank size) later,
        length-repeat rank size,
        left,
        length-point_ranks fuel denominator (position + size) (drop size (r ∷ rows))
            (omega (arith, left)),
      )

  -- What is read of a slate of a size.
  pub record StandingFits (count : ℕ) (st : Standing fl) : Type 0 where
    pub totals_fit : Fits fl count st.totals
    pub raw_fit : length st.raw ≡ count
    pub families_fit : FamiliesFit fl count st.families
    pub points_fit : length st.points ≡ count

  scores_at-returns :
      (count : ℕ) (st : Standing fl) (i : ℕ)
      → StandingFits count st
      → i < count
      → (s : Scores fl) × (scores_at fl st i ≡ ok s)
  unfolding scores_at
  scores_at-returns count st i fits h =
      let t = fits.totals_fit in
      let f = fits.families_fit in
      let (n, at_n) =
        item_at-in_range st.totals.comparison_counts i (omega (arith, h, t.counts_fit)) in
      let (pair, at_pair) =
        sum_at-returns count i st.families.pair_values fl.zero_ h f.values_fit in
      let (margin, at_margin) = item_at-in_range st.raw i (omega (arith, h, fits.raw_fit)) in
      let (rank, at_rank) = sum_at-returns count i st.families.rank_scores fl.zero_ h f.ranks_fit in
      let (point, at_point) = item_at-in_range st.points i (omega (arith, h, fits.points_fit)) in
      let (covered, at_covered) =
        item_at-in_range st.totals.covered i (omega (arith, h, t.covered_fit)) in
      let (directional, at_directional) =
        item_at-in_range st.totals.directional_covered i (omega (arith, h, t.directional_fit)) in
      let (row, at_row) = families_at-returns count i st.families.rank_scores h f.ranks_fit in
      rw (at_n, at_pair, at_margin, at_rank, at_point, at_covered, at_directional, at_row) (_, refl)

  update_rows-returns :
      (count : ℕ) (st : Standing fl) (i : ℕ) (rows : List (RankedRow fl))
      → StandingFits count st
      → i + length rows ≤ count
      → (updated : List (RankedRow fl)) × (update_rows fl st i rows ≡ ok updated)
  unfolding update_rows
  update_rows-returns count st i [] fits h = ([], refl)
  update_rows-returns count st i (r ∷ rows) fits h =
      let (s, scored) = scores_at-returns count st i fits (omega (arith, h)) in
      let (rest, loops) = update_rows-returns count st (suc i) rows fits (omega (arith, h)) in
      (record r { pairing = paired s } ∷ rest, rw (scored, loops) refl)

  run_tournament-returns :
      (cache : MarginCache fl) (rules : List (PairRule fl)) (rows : List (RankedRow fl))
      (duels : List Duel) (proof_map : Dict Text (List (Proof fl)))
      → all_true (is_ready fl (length rows) proof_map) duels ≡ true
      → AllValues (AreReadable fl) proof_map
      → HasRoom fl (length duels + length duels) cache
      → (ranked : List (RankedRow fl)) × (run_tournament fl cache rules rows duels proof_map
          ≡ ok ranked)
  unfolding run_tournament
  run_tournament-returns cache rules rows duels proof_map h readable room =
      let count = length rows in
      let c = clusters_of fl rules in
      let (t, votes, fits) =
        vote_all-Fits fl count c proof_map duels (no_totals fl count c cache) h readable room
          (no_totals-Fits fl count c cache) in
      let (families, scored, families_fit) =
        score_families-Fit fl count c t.comparison_counts t.family_totals
          (record { pair_values = []; rank_scores = [] }) fits.counts_fit fits.families_fit
          (record { values_fit = tt; ranks_fit = tt }) in
      let st : Standing fl = record {
        totals = t;
        raw = averages fl t.pair_totals t.comparison_counts;
        families = families;
        points = point_ranks fl count (at_least_one (count - 1)) 0 rows;
        fusion = any_true (λ (r : RankedRow fl). not (is_empty r.feedback_rule_ids)) rows;
      } in
      let st_fits : StandingFits count st = record {
        totals_fit = fits;
        raw_fit =
            length-averages fl t.pair_totals t.comparison_counts
              (fits.totals_fit ∙ sym fits.counts_fit)
            ∙ fits.totals_fit;
        families_fit = families_fit;
        points_fit = length-point_ranks count (at_least_one (count - 1)) 0 rows (omega arith);
      } in
      let (updated, updates) = update_rows-returns count st 0 rows st_fits (omega arith) in
      (sort_by (in_order fl (ranking_key fl)) updated, rw (votes, scored, updates) refl)

  -- The cases of a plan have proofs, or have been found to have none.
  abbrev pub has_cases : Dict Text (List (Proof fl)) → Duel → Bool
  has_cases proof_map d = has d.forward_case proof_map && has d.reverse_case proof_map

  duels-ready :
      (n : ℕ) (proof_map : Dict Text (List (Proof fl))) (duels : List Duel)
      → ((i j : ℕ) → elem (i, j) (places duels) ≡ true → (ltb i j && ltb j n) ≡ true)
      → all_true (has_cases proof_map) duels ≡ true
      → all_true (is_ready fl n proof_map) duels ≡ true
  unfolding all_true places
  duels-ready n proof_map [] within h = refl
  duels-ready n proof_map (d ∷ duels) within h = ground (
    arith,
    within d.left d.right,
    beq_self {A = ℕ × ℕ} (d.left, d.right),
    duels-ready n proof_map duels (λ i j e. within i j (ground arith)),
  )

  -- Where the plan of the slate, within the limit on comparisons, is given, the proofs that the
  -- reasoner returns cover its cases, whether or not there are proofs for a case, the evidence sources
  -- of the proofs can be read, and the cache of margins, whatever is in it, has room for two more
  -- entries for each comparison: `_pairwise_rank` returns rows, and so meets no index out of range, no
  -- missing key and not the limit of the cache.
  pub pairwise_rank-returns :
      (cache : MarginCache fl) (rules : List (PairRule fl)) (rows : List (RankedRow fl))
      (lab : Lab fl) (limit : ℕ) (specs : List (Text × Candidate fl)) (plan : Plan)
      (prove : List Spec → Result (Dict Text (List (Proof fl))))
      (proof_map : Dict Text (List (Proof fl)))
      → pairwise_plan fl lab limit (row_ids fl rows) specs ≡ ok plan
      → prove plan.pair_specs ≡ ok proof_map
      → all_true (has_cases proof_map) plan.comparisons ≡ true
      → AllValues (AreReadable fl) proof_map
      → HasRoom fl (length plan.comparisons + length plan.comparisons) cache
      → (ranked : List (RankedRow fl)) × (pairwise_rank fl cache rules rows
            (pairwise_plan fl lab limit (row_ids fl rows) specs)
            prove
          ≡ ok ranked)
  unfolding pairwise_rank
  pairwise_rank-returns cache rules rows lab limit specs plan prove proof_map planned proved covers
        readable room =
      let complete = pairwise_plan-IsComplete fl lab limit (row_ids fl rows) specs planned in
      let n = length (row_ids fl rows) in
      let ready =
        duels-ready n proof_map plan.comparisons (λ i j e. sym (complete.each i j) ∙ e) covers in
      let (ranked, ran) =
        run_tournament-returns cache rules rows plan.comparisons proof_map
          (subst (λ k. all_true (is_ready fl k proof_map) plan.comparisons ≡ true)
            (length-map (λ (r : RankedRow fl). r.article) rows) ready)
          readable room in
      elim (Bool-cases (is_empty rules || ltb (length rows) 2)) [
        | inl few ↦ rw few (leave_alone fl rows, refl)
        | inr many ↦ rw (many, planned, proved) (ranked, ran)
      ]
