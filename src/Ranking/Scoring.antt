-- ===== src/Ranking/Scoring.antt =====
-- The loops of `_rank` and `score`.
use symbolic_recommendation.Prelude.{
  ℕ, Bool, true, not, Option, none, some, List, [], ◌∷◌, map, nat_eq, if◌then◌else◌, take, all_true,
  sort_by, elem, code_keys, Result, ok, err, ◌>>=◌, value_error, key_error,
}
use symbolic_recommendation.Prelude.Dict.{Dict, get}
use symbolic_recommendation.Metta.{Text}
use symbolic_recommendation.Quantiles.{Floats}
use symbolic_recommendation.Ranking.Features.{Candidate}
use symbolic_recommendation.Ranking.Plan.{pairwise_plan}
use symbolic_recommendation.Ranking.Margins.{Proof, distinct_texts, or_else}
use symbolic_recommendation.Ranking.Rows.{RankedRow, point_key, in_order}
use symbolic_recommendation.Ranking.Tournament.{pairwise_rank}
use symbolic_recommendation.Ranking.Score.{PointSpec, Scorer, point_row}

module _ (fl : Floats) where
  abbrev pub find_group : Option (List (Proof fl)) → Result (List (Proof fl))
  find_group none = err (key_error "case")
  find_group (some proofs) = ok proofs

  -- The rows, each with the proofs of its case.
  unfoldable pub point_rows :
      Scorer fl → List (PointSpec fl) → Dict Text (List (Proof fl)) → Result (List (RankedRow fl))
  point_rows sc [] groups = ok []
  point_rows sc (spec ∷ specs) groups = find_group (get spec.case groups) >>= λ proofs.
      point_row fl sc spec proofs >>= λ row. point_rows sc specs groups >>= λ rest. ok (row ∷ rest)

  abbrev pub limited : ℕ → List (RankedRow fl) → List (RankedRow fl)
  limited limit rows = if nat_eq limit 0 then rows else take limit rows

  abbrev pub row_ids : List (RankedRow fl) → List Text
  row_ids = map (λ (r : RankedRow fl). r.article)

  abbrev pub pair_candidates : List (PointSpec fl) → List (Text × Candidate fl)
  pair_candidates = map (λ (s : PointSpec fl). (s.aid, s.candidate))

  -- `_rank`
  unfoldable pub rank :
      Scorer fl
      → List (PointSpec fl)
      → Dict Text (List (Proof fl))
      → ℕ
      → Bool
      → Result (List (RankedRow fl))
  rank sc specs groups limit apply_pairwise = point_rows sc specs groups >>= λ given.
      let rows = sort_by (in_order fl (point_key fl)) given in
      let plan =
        pairwise_plan fl sc.lab sc.max_pair_comparisons (row_ids rows) (pair_candidates specs) in
      (if apply_pairwise
        then pairwise_rank fl (sc.pair_margins (row_ids rows)) sc.pair_rules rows plan
            sc.pair_proofs
        else ok rows)
      >>= λ ranked. ok (limited limit ranked)

  -- `_candidate_specs`, of what is prepared for each candidate
  unfoldable pub candidate_specs : Scorer fl → Text → List Text → Result (List (PointSpec fl))
  candidate_specs sc user [] = ok []
  candidate_specs sc user (aid ∷ candidates) = sc.prepare user aid >>= λ spec.
      candidate_specs sc user candidates >>= λ rest. ok (record spec { aid = aid } ∷ rest)

  abbrev pub candidates_for : Scorer fl → Text → Option (List Text) → List Text
  candidates_for sc user candidates =
      distinct_texts [] (or_else (sc.default_candidates user) candidates)

  -- What `score` computes where it takes nothing from the cache of feeds.
  abbrev pub score_afresh : Scorer fl → Text → List Text → ℕ → Bool → Result (List (RankedRow fl))
  score_afresh sc user candidates limit apply_pairwise =
      candidate_specs sc user candidates >>= λ specs.
      sc.point_proofs specs >>= λ groups. rank sc specs groups limit apply_pairwise

  -- `score` with `cache_result=False`
  unfoldable pub score :
      Scorer fl → Text → Option (List Text) → Option ℕ → Bool → Result (List (RankedRow fl))
  score sc user given limit apply_pairwise =
      let candidates = candidates_for sc user given in
      if not (elem user sc.users)
      then err (value_error "unknown user")
      else if not (all_true (λ aid. elem aid sc.articles) candidates)
      then err (value_error "unknown article")
      else score_afresh sc user candidates (or_else sc.top_k limit) apply_pairwise

  -- What the feed takes of a row: `score` of a window, without a limit.
  unfoldable pub feed_score : Scorer fl → Text → List Text → Result (List (Text × RankedRow fl))
  feed_score sc user candidates = score sc user (some candidates) (some 0) true >>= λ rows.
      ok (map (λ (r : RankedRow fl). (r.article, r)) rows)
