-- ===== src/Ranking/Scored.antt =====
-- What `score` promises: of its candidates, each is ranked once, by the tournament where there is one
-- and by points where there is none.
use symbolic_recommendation.Prelude.{
  ℕ, suc, ◌≡◌, refl, sym, ◌∙◌, ap, subst, Bool, true, false, not, ◌&&◌, ◌||◌, Option, List, [], ◌∷◌,
  arith, nat_eq, ltb, if◌then◌else◌, length, is_empty, all_true, all_true-sort_by, sort_by,
  IsOrdered, elem, code_keys, Bool-cases, inl, inr, Result, ok, ok-injective, >>=-eq-ok,
  if_err-eq-ok,
}
use symbolic_recommendation.Prelude.Dict.{Dict}
use symbolic_recommendation.Metta.{Text}
use symbolic_recommendation.Quantiles.{Floats}
use symbolic_recommendation.Quantiles.Laws.{FloatLaws}
use symbolic_recommendation.Feed.Stream.{times}
use symbolic_recommendation.Ranking.Plan.{Duel, Plan, pairwise_plan}
use symbolic_recommendation.Ranking.Oriented.{Spec}
use symbolic_recommendation.Ranking.Margins.{Proof, PairRule, MarginCache, clusters_of, or_else}
use symbolic_recommendation.Ranking.Votes.{no_totals, vote_all}
use symbolic_recommendation.Ranking.Rows.{alone, RankedRow, ranking_key, point_key, in_order}
use symbolic_recommendation.Ranking.Tournament.{
  Standing, scores_at, score_families, update_rows, run_tournament, leave_alone, pairwise_rank,
}
use symbolic_recommendation.Ranking.Score.{PointSpec, Scorer}
use symbolic_recommendation.Ranking.Scoring.{
  point_rows, limited, row_ids, pair_candidates, rank, candidate_specs, candidates_for, score,
}
use symbolic_recommendation.Ranking.Order.{sort_rows-IsOrdered}
use symbolic_recommendation.Ranking.Ranked.{
  times_in, times_in-sort_by, pairwise_rank-times, point_rows-ids, candidate_specs-ids, spec_ids,
}

module _ (fl : Floats) where
  abbrev pub Key : Type 0
  Key = RankedRow fl → List fl.F

  -- The numbers of the key of a row are finite.
  abbrev pub is_finite_row : Key → RankedRow fl → Bool
  is_finite_row key r = all_true fl.is_finite (key r)

  -- The tournament's key, or that of points.
  abbrev pub key_of : Bool → Key
  key_of apply_pairwise = if apply_pairwise then ranking_key fl else point_key fl

  -- A ranking of candidates: all of them once, in the order of the key where its numbers are finite,
  -- up to a limit, where 0 is no limit.
  pub record Ranks (key : Key) (candidates : List Text) (limit : ℕ) (ranked : List (RankedRow fl))
      : Type 0 where
    pub whole : List (RankedRow fl)
    pub cut : ranked ≡ limited fl limit whole
    pub once : (a : Text) → times_in fl a whole ≡ times a candidates
    pub ordered : all_true (is_finite_row key) whole ≡ true → IsOrdered (in_order fl key) whole

  abbrev is_paired : RankedRow fl → Bool
  is_paired r = nat_eq (length (ranking_key fl r)) 8

  update_rows-paired :
      (st : Standing fl) (i : ℕ) (rows : List (RankedRow fl)) {updated : List (RankedRow fl)}
      → update_rows fl st i rows ≡ ok updated
      → all_true is_paired updated ≡ true
  unfolding update_rows all_true
  update_rows-paired st i [] e = subst (λ l. all_true is_paired l ≡ true) (ok-injective e) refl
  update_rows-paired st i (r ∷ rows) e =
      let (s, _, e1) = >>=-eq-ok (scores_at fl st i) _ e in
      let (rest, found, e2) = >>=-eq-ok (update_rows fl st (suc i) rows) _ e1 in
      subst (λ l. all_true is_paired l ≡ true) (ok-injective e2)
        (update_rows-paired st (suc i) rows found)

  both_true :
      {A : Type 0} (p q : A → Bool) (xs : List A)
      → all_true p xs ≡ true
      → all_true q xs ≡ true
      → all_true (λ x. p x && q x) xs ≡ true
  unfolding all_true
  both_true p q [] h g = refl
  both_true p q (x ∷ xs) h g = ground (arith, both_true p q xs)

module _ (fl : Floats) (laws : FloatLaws fl) where
  abbrev ranking_order : RankedRow fl → RankedRow fl → Bool
  ranking_order = in_order fl (ranking_key fl)

  run_tournament-IsOrdered :
      (cache : MarginCache fl) (rules : List (PairRule fl)) (rows : List (RankedRow fl))
      (duels : List Duel) (proof_map : Dict Text (List (Proof fl))) {ranked : List (RankedRow fl)}
      → run_tournament fl cache rules rows duels proof_map ≡ ok ranked
      → all_true (is_finite_row fl (ranking_key fl)) ranked ≡ true
      → IsOrdered ranking_order ranked
  unfolding run_tournament
  run_tournament-IsOrdered cache rules rows duels proof_map {ranked} e finite =
      let count = length rows in
      let c = clusters_of fl rules in
      let (t, _, e1) =
        >>=-eq-ok (vote_all fl count c proof_map duels (no_totals fl count c cache)) _ e in
      let (families, _, e2) =
        >>=-eq-ok
          (score_families fl c t.comparison_counts t.family_totals
            (record { pair_values = []; rank_scores = [] }))
          _ e1 in
      let (updated, found, e3) = >>=-eq-ok _ _ e2 in
      let same = ok-injective e3 in
      let pairs : all_true (is_paired fl) (sort_by ranking_order updated) ≡ true =
        all_true-sort_by (is_paired fl) ranking_order updated
        ∙ update_rows-paired fl _ 0 rows found in
      subst (IsOrdered ranking_order) same (
        sort_rows-IsOrdered fl laws (ranking_key fl) 8 updated (
          both_true fl (is_paired fl) (is_finite_row fl (ranking_key fl))
            (sort_by ranking_order updated) pairs
            (subst (λ l. all_true (is_finite_row fl (ranking_key fl)) l ≡ true) (sym same) finite)))

  abbrev point_order : List (RankedRow fl) → List (RankedRow fl)
  point_order = sort_by (in_order fl (point_key fl))

  point_sort-IsOrdered :
      (rows : List (RankedRow fl))
      → all_true (is_finite_row fl (point_key fl)) (point_order rows) ≡ true
      → IsOrdered (in_order fl (point_key fl)) (point_order rows)
  point_sort-IsOrdered rows finite = sort_rows-IsOrdered fl laws (point_key fl) 6 rows finite

  alone-all_true :
      (p : RankedRow fl → Bool) (rows : List (RankedRow fl))
      → all_true p (leave_alone fl rows)
        ≡ all_true (λ (r : RankedRow fl). p (record r { pairing = alone })) rows
  unfolding all_true
  alone-all_true p [] = refl
  alone-all_true p (r ∷ rows) =
      ap (λ b. p (record r { pairing = alone }) && b) (alone-all_true p rows)

  alone-IsOrdered :
      (rows : List (RankedRow fl))
      → IsOrdered (in_order fl (point_key fl)) rows
      → IsOrdered ranking_order (leave_alone fl rows)
  alone-IsOrdered [] h = tt
  alone-IsOrdered (r ∷ rows) h = (
    alone-all_true (ranking_order (record r { pairing = alone })) rows ∙ h.0,
    alone-IsOrdered rows h.1,
  )

  pairwise_rank-IsOrdered :
      (cache : MarginCache fl) (rules : List (PairRule fl)) (rows : List (RankedRow fl))
      (plan : Result Plan) (prove : List Spec → Result (Dict Text (List (Proof fl))))
      {ranked : List (RankedRow fl)}
      → pairwise_rank fl cache rules (point_order rows) plan prove ≡ ok ranked
      → all_true (is_finite_row fl (ranking_key fl)) ranked ≡ true
      → IsOrdered ranking_order ranked
  unfolding pairwise_rank
  pairwise_rank-IsOrdered cache rules rows plan prove {ranked} e finite =
      elim (Bool-cases (is_empty rules || ltb (length (point_order rows)) 2)) [
        | inl few ↦
            let same = ok-injective (rw few at e) in
            subst (IsOrdered ranking_order) same (
              alone-IsOrdered (point_order rows) (
                point_sort-IsOrdered rows (
                  sym (alone-all_true (is_finite_row fl (ranking_key fl)) (point_order rows))
                  ∙ ap (all_true (is_finite_row fl (ranking_key fl))) same
                  ∙ finite)))
        | inr many ↦
            let (p, _, e1) = >>=-eq-ok plan _ (rw many at e) in
            let (proof_map, _, e2) = >>=-eq-ok (prove p.pair_specs) _ e1 in
            run_tournament-IsOrdered cache rules (point_order rows) p.comparisons proof_map e2
              finite
      ]

  rank-Ranks :
      (sc : Scorer fl) (specs : List (PointSpec fl)) (groups : Dict Text (List (Proof fl)))
      (limit : ℕ) (apply_pairwise : Bool) {ranked : List (RankedRow fl)}
      → rank fl sc specs groups limit apply_pairwise ≡ ok ranked
      → Ranks fl (key_of fl apply_pairwise) (spec_ids fl specs) limit ranked
  unfolding rank
  rank-Ranks sc specs groups limit true e =
      let (given, found, e1) = >>=-eq-ok (point_rows fl sc specs groups) _ e in
      let rows = point_order given in
      let plan =
        pairwise_plan fl sc.lab sc.max_pair_comparisons (row_ids fl rows)
          (pair_candidates fl specs) in
      let (whole, ran, e2) =
        >>=-eq-ok
          (pairwise_rank fl (sc.pair_margins (row_ids fl rows)) sc.pair_rules rows plan
            sc.pair_proofs)
          _ e1 in
      record {
        whole = whole;
        cut = sym (ok-injective e2);
        once = λ a.
            pairwise_rank-times fl (sc.pair_margins (row_ids fl rows)) sc.pair_rules rows plan
              sc.pair_proofs ran a
            ∙ times_in-sort_by fl a (in_order fl (point_key fl)) given
            ∙ ap (times a) (point_rows-ids fl sc specs groups found);
        ordered =
            pairwise_rank-IsOrdered (sc.pair_margins (row_ids fl rows)) sc.pair_rules given plan
              sc.pair_proofs ran;
      }
  rank-Ranks sc specs groups limit false e =
      let (given, found, e1) = >>=-eq-ok (point_rows fl sc specs groups) _ e in
      record {
        whole = point_order given;
        cut = sym (ok-injective e1);
        once = λ a.
            times_in-sort_by fl a (in_order fl (point_key fl)) given
            ∙ ap (times a) (point_rows-ids fl sc specs groups found);
        ordered = point_sort-IsOrdered given;
      }

  -- Whatever the proofs say, a call of `score` that does not raise returns, up to its limit, a ranking
  -- of its candidates, those given or the user's default ones, without their repetitions: each is
  -- ranked once and nothing else is, and where their numbers are finite the rows stand in the order of
  -- the tournament's key, or of the key of points where the tournament is not asked for.
  pub score-Ranks :
      (sc : Scorer fl) (user : Text) (given : Option (List Text)) (limit : Option ℕ)
      (apply_pairwise : Bool) {ranked : List (RankedRow fl)}
      → score fl sc user given limit apply_pairwise ≡ ok ranked
      → Ranks fl
          (key_of fl apply_pairwise)
          (candidates_for fl sc user given)
          (or_else sc.top_k limit)
          ranked
  unfolding score
  score-Ranks sc user given limit apply_pairwise {ranked} e =
      let candidates = candidates_for fl sc user given in
      let (_, e1) = if_err-eq-ok (not (elem user sc.users)) _ _ e in
      let (_, e2) = if_err-eq-ok (not (all_true (λ aid. elem aid sc.articles) candidates)) _ _ e1 in
      let (specs, prepared, e3) = >>=-eq-ok (candidate_specs fl sc user candidates) _ e2 in
      let (groups, _, e4) = >>=-eq-ok (sc.point_proofs specs) _ e3 in
      subst (λ ids. Ranks fl (key_of fl apply_pairwise) ids (or_else sc.top_k limit) ranked)
        (candidate_specs-ids fl sc user candidates prepared)
        (rank-Ranks sc specs groups (or_else sc.top_k limit) apply_pairwise e4)
