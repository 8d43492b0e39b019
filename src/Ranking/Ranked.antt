-- ===== src/Ranking/Ranked.antt =====
-- `score` ranks its candidates: a row for each, in the order of their scores.
use symbolic_recommendation.Prelude.{
  ℕ, suc, ◌≡◌, refl, sym, ◌∙◌, ap, subst, Bool, true, false, ◌||◌, List, [], ◌∷◌, ◌++◌, append-nil,
  append_assoc, map, arith, ltb, length, is_empty, count_if, count_if-sort_by, sort_by, elem,
  elem-append, IsDistinct, ◌==◌, code_keys, ap₂, Bool-cases, inl, inr, Result, ok, ok-injective,
  >>=-eq-ok,
}
use symbolic_recommendation.Prelude.Dict.{Dict, get}
use symbolic_recommendation.Metta.{Text}
use symbolic_recommendation.Quantiles.{Floats}
use symbolic_recommendation.Feed.Stream.{times}
use symbolic_recommendation.Ranking.Plan.{Duel, Plan}
use symbolic_recommendation.Ranking.Oriented.{Spec}
use symbolic_recommendation.Ranking.Margins.{
  Proof, PairRule, MarginCache, distinct_texts, clusters_of,
}
use symbolic_recommendation.Ranking.Votes.{no_totals, vote_all}
use symbolic_recommendation.Ranking.Rows.{RankedRow, ranking_key, in_order}
use symbolic_recommendation.Ranking.Tournament.{
  Standing, scores_at, score_families, update_rows, run_tournament, leave_alone, pairwise_rank,
}
use symbolic_recommendation.Ranking.Score.{PointSpec, Scorer, found_baseline, point_row}
use symbolic_recommendation.Ranking.Scoring.{find_group, point_rows, row_ids, candidate_specs}

-- A list of texts without repetitions stays as it is.
distinct_texts-append :
    (seen ts : List Text)
    → IsDistinct ts
    → ((t : Text) → elem t ts ≡ true → elem t seen ≡ false)
    → distinct_texts seen ts ≡ seen ++ ts
unfolding distinct_texts
distinct_texts-append seen [] h new = sym (append-nil seen)
distinct_texts-append seen (t ∷ ts) h new = rw (new t (ground (arith, code_keys.beq_iff t t))) (
    distinct_texts-append (seen ++ t ∷ []) ts h.1
      (λ s m. ground (arith, elem-append s seen (t ∷ []), new s, code_keys.beq_iff s t, h.0))
    ∙ append_assoc seen (t ∷ []) ts)

pub distinct_texts-same : (ts : List Text) → IsDistinct ts → distinct_texts [] ts ≡ ts
distinct_texts-same ts h = distinct_texts-append [] ts h (λ t m. refl)

module _ (fl : Floats) where
  -- How often an article stands in rows.
  abbrev pub times_in : Text → List (RankedRow fl) → ℕ
  times_in a rows = times a (row_ids fl rows)

  times_in-count :
      (a : Text) (rows : List (RankedRow fl))
      → times_in a rows ≡ count_if (λ (r : RankedRow fl). a == r.article) rows
  unfolding count_if
  times_in-count a [] = refl
  times_in-count a (r ∷ rows) = ground (arith, times_in-count a rows)

  pub times_in-sort_by :
      (a : Text) (le : RankedRow fl → RankedRow fl → Bool) (rows : List (RankedRow fl))
      → times_in a (sort_by le rows) ≡ times_in a rows
  times_in-sort_by a le rows =
      times_in-count a (sort_by le rows)
      ∙ count_if-sort_by (λ (r : RankedRow fl). a == r.article) le rows
      ∙ sym (times_in-count a rows)

  update_rows-ids :
      (st : Standing fl) (i : ℕ) (rows : List (RankedRow fl)) {updated : List (RankedRow fl)}
      → update_rows fl st i rows ≡ ok updated
      → row_ids fl updated ≡ row_ids fl rows
  unfolding update_rows
  update_rows-ids st i [] e = ap (row_ids fl) (sym (ok-injective e))
  update_rows-ids st i (r ∷ rows) e =
      let (s, _, e1) = >>=-eq-ok (scores_at fl st i) _ e in
      let (rest, found, e2) = >>=-eq-ok (update_rows fl st (suc i) rows) _ e1 in
      ap (row_ids fl) (sym (ok-injective e2))
      ∙ ap (λ l. r.article ∷ l) (update_rows-ids st (suc i) rows found)

  leave_alone-ids :
      (rows : List (RankedRow fl)) → row_ids fl (leave_alone fl rows) ≡ row_ids fl rows
  leave_alone-ids [] = refl
  leave_alone-ids (r ∷ rows) = ap (λ l. r.article ∷ l) (leave_alone-ids rows)

  pub run_tournament-times :
      (cache : MarginCache fl) (rules : List (PairRule fl)) (rows : List (RankedRow fl))
      (duels : List Duel) (proof_map : Dict Text (List (Proof fl))) {ranked : List (RankedRow fl)}
      → run_tournament fl cache rules rows duels proof_map ≡ ok ranked
      → (a : Text) → times_in a ranked ≡ times_in a rows
  unfolding run_tournament
  run_tournament-times cache rules rows duels proof_map {ranked} e a =
      let count = length rows in
      let c = clusters_of fl rules in
      let (t, _, e1) =
        >>=-eq-ok (vote_all fl count c proof_map duels (no_totals fl count c cache)) _ e in
      let (families, _, e2) =
        >>=-eq-ok
          (score_families fl c t.comparison_counts t.family_totals
            (record { pair_values = []; rank_scores = [] }))
          _ e1 in
      let (updated, found, e3) = >>=-eq-ok _ _ e2 in
      subst (λ l. times_in a l ≡ times_in a rows) (ok-injective e3)
        (times_in-sort_by a (in_order fl (ranking_key fl)) updated
          ∙ ap (times a) (update_rows-ids _ 0 rows found))

  pub pairwise_rank-times :
      (cache : MarginCache fl) (rules : List (PairRule fl)) (rows : List (RankedRow fl))
      (plan : Result Plan) (prove : List Spec → Result (Dict Text (List (Proof fl))))
      {ranked : List (RankedRow fl)}
      → pairwise_rank fl cache rules rows plan prove ≡ ok ranked
      → (a : Text) → times_in a ranked ≡ times_in a rows
  unfolding pairwise_rank
  pairwise_rank-times cache rules rows plan prove e a =
      elim (Bool-cases (is_empty rules || ltb (length rows) 2)) [
        | inl few ↦
            ap (times a) (ap (row_ids fl) (sym (ok-injective (rw few at e))) ∙ leave_alone-ids rows)
        | inr many ↦
            let (p, _, e1) = >>=-eq-ok plan _ (rw many at e) in
            let (proof_map, _, e2) = >>=-eq-ok (prove p.pair_specs) _ e1 in
            run_tournament-times cache rules rows p.comparisons proof_map e2 a
      ]

  point_row-id :
      (sc : Scorer fl) (spec : PointSpec fl) (proofs : List (Proof fl)) {row : RankedRow fl}
      → point_row fl sc spec proofs ≡ ok row
      → row.article ≡ spec.aid
  unfolding point_row
  point_row-id sc spec proofs e =
      let (baseline, _, e1) = >>=-eq-ok (found_baseline fl (get spec.aid sc.popularity)) _ e in
      ap (λ (r : RankedRow fl). r.article) (sym (ok-injective e1))

  abbrev pub spec_ids : List (PointSpec fl) → List Text
  spec_ids = map (λ (s : PointSpec fl). s.aid)

  pub point_rows-ids :
      (sc : Scorer fl) (specs : List (PointSpec fl)) (groups : Dict Text (List (Proof fl)))
      {rows : List (RankedRow fl)}
      → point_rows fl sc specs groups ≡ ok rows
      → row_ids fl rows ≡ spec_ids specs
  unfolding point_rows
  point_rows-ids sc [] groups e = ap (row_ids fl) (sym (ok-injective e))
  point_rows-ids sc (spec ∷ specs) groups e =
      let (proofs, _, e1) = >>=-eq-ok (find_group fl (get spec.case groups)) _ e in
      let (row, at_row, e2) = >>=-eq-ok (point_row fl sc spec proofs) _ e1 in
      let (rest, found, e3) = >>=-eq-ok (point_rows fl sc specs groups) _ e2 in
      ap (row_ids fl) (sym (ok-injective e3))
      ∙ ap₂ (λ i l. i ∷ l) (point_row-id sc spec proofs at_row)
          (point_rows-ids sc specs groups found)

  pub candidate_specs-ids :
      (sc : Scorer fl) (user : Text) (candidates : List Text) {specs : List (PointSpec fl)}
      → candidate_specs fl sc user candidates ≡ ok specs
      → spec_ids specs ≡ candidates
  unfolding candidate_specs
  candidate_specs-ids sc user [] e = ap spec_ids (sym (ok-injective e))
  candidate_specs-ids sc user (aid ∷ candidates) e =
      let (spec, _, e1) = >>=-eq-ok (sc.prepare user aid) _ e in
      let (rest, found, e2) = >>=-eq-ok (candidate_specs fl sc user candidates) _ e1 in
      ap spec_ids (sym (ok-injective e2))
      ∙ ap (λ l. aid ∷ l) (candidate_specs-ids sc user candidates found)
