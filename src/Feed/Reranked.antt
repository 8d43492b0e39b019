-- ===== src/Feed/Reranked.antt =====
-- The rerank of `_rerank_unserved_queue` over the rows that `score` has returned: it keeps what the
-- session has in its queue.
use symbolic_recommendation.Prelude.{
  ℕ, ◌≡◌, refl, sym, ◌∙◌, ap, ap₂, Bool, true, ◌&&◌, Option, none, some, List, [], ◌∷◌, map, arith,
  count_if, all_true, keep_if, sort_by, ◌==◌, code_keys, IsDistinct, Bool-cases, Option-cases, inl,
  inr, Result, ok, ok-injective, ◌>>=◌, >>=-eq-ok,
}
use symbolic_recommendation.Prelude.Dict.{Dict, get, put, get-put}
use symbolic_recommendation.Metta.{Text}
use symbolic_recommendation.Quantiles.{Floats}
use symbolic_recommendation.Quantiles.Laws.{FloatLaws}
use symbolic_recommendation.Feed.{Row, FeedSession}
use symbolic_recommendation.Feed.Stream.{times, times_ranked, times_row, Tracks}
use symbolic_recommendation.Feed.Pool.{IsDistinct-times}
use symbolic_recommendation.Feed.Offers.{Offers, offer_of, times-le}
use symbolic_recommendation.Feed.Feedback.{Acceptance, accept_feedback, live_feedback}
use symbolic_recommendation.Feed.Reacting.{left_shown}
use symbolic_recommendation.Feed.Steps.{feeds_back, FeedStep-Offers}
use symbolic_recommendation.Feed.Scored.{times_ranked-rows, feed_score-RanksAll}
use symbolic_recommendation.Ranking.Plan.{Duel}
use symbolic_recommendation.Ranking.Rows.{RankedRow, point_key, in_order}
use symbolic_recommendation.Ranking.Score.{Scorer}
use symbolic_recommendation.Ranking.Scoring.{row_ids, feed_score}
use symbolic_recommendation.Ranking.Ranked.{
  times_in, times_in-sort_by, pairwise_rank-times, distinct_texts-same,
}
use symbolic_recommendation.Ranking.Scored.{score-Ranks}
use symbolic_recommendation.Ranking.Replay.{
  Replay, pairwise_replay_plan, proofs_of, has_pairs, by_id, renew, rank_replayed, score_changed,
  rerank_incrementally, can_replay, rerank_rows,
}

module _ (fl : Floats) where
  -- Every row stands under its own article.
  abbrev IsById : Dict Text (RankedRow fl) → Type 0
  IsById d = (aid : Text) (r : RankedRow fl) → get aid d ≡ some r → r.article ≡ aid

  put-IsById :
      (r : RankedRow fl) (d : Dict Text (RankedRow fl)) → IsById d → IsById (put r.article r d)
  put-IsById r d h aid s e = elim (Bool-cases (aid == r.article)) [
    | inl same ↦ cc (get-put r.article aid r d, same, (code_keys.beq_iff aid r.article).0 same, e)
    | inr other ↦ h aid s (sym (get-put r.article aid r d ∙ rw other refl) ∙ e)
  ]

  by_id-IsById :
      (rows : List (RankedRow fl)) (d : Dict Text (RankedRow fl))
      → IsById d
      → IsById (by_id fl rows d)
  unfolding by_id
  by_id-IsById [] d h = h
  by_id-IsById (r ∷ rows) d h = by_id-IsById rows (put r.article r d) (put-IsById r d h)

  empty-IsById : IsById []
  unfolding get
  empty-IsById aid r e = cc e

  renew-ids :
      (d : Dict Text (RankedRow fl)) (rows : List (RankedRow fl))
      → IsById d
      → row_ids fl (renew fl d rows) ≡ row_ids fl rows
  renew-ids d [] h = refl
  renew-ids d (r ∷ rows) h = elim (Option-cases (get r.article d)) [
    | inl same ↦ rw same (ap (λ l. r.article ∷ l) (renew-ids d rows h))
    | inr (s, found) ↦ rw found (ap₂ (λ i l. i ∷ l) (h r.article s found) (renew-ids d rows h))
  ]

  rank_replayed-times :
      (sc : Scorer fl) (replay : Option (Replay fl)) (rows : List (RankedRow fl))
      (plan : Option (List Duel)) {ranked : List (RankedRow fl)}
      → rank_replayed fl sc replay rows plan ≡ ok ranked
      → (a : Text) → times_in fl a ranked ≡ times_in fl a rows
  rank_replayed-times sc replay rows none e a = cc e
  rank_replayed-times sc replay rows (some comparisons) e a =
      pairwise_rank-times fl (sc.pair_margins (row_ids fl rows)) sc.pair_rules rows
        (ok (record { comparisons = comparisons; pair_specs = [] }))
        (λ specs. ok (proofs_of fl replay)) e a

  rerank_incrementally-times :
      (sc revised : Scorer fl) (version : ℕ) (user : Text) (changed : Text → Bool)
      (replay : Option (Replay fl)) (rows : List (RankedRow fl)) {ranked : List (RankedRow fl)}
      → rerank_incrementally fl sc revised version user changed replay rows ≡ ok ranked
      → (a : Text) → times_in fl a ranked ≡ times_in fl a rows
  unfolding rerank_incrementally
  rerank_incrementally-times sc revised version user changed replay rows e a =
      let (again, _, e1) =
        >>=-eq-ok (score_changed fl revised user (keep_if changed (row_ids fl rows))) _ e in
      let d = by_id fl again [] in
      let renewed = sort_by (in_order fl (point_key fl)) (renew fl d rows) in
      rank_replayed-times sc replay renewed
        (pairwise_replay_plan fl version (row_ids fl renewed) replay) e1 a
      ∙ times_in-sort_by fl a (in_order fl (point_key fl)) (renew fl d rows)
      ∙ ap (times a) (renew-ids d rows (by_id-IsById again [] empty-IsById))

  -- The rows of a queue.
  abbrev pub queue_rows : FeedSession (RankedRow fl) → List (RankedRow fl)
  queue_rows s = map (λ (r : Row (RankedRow fl)). record r.context { article = r.article }) s.queue

  -- The rerank of a session's queue by the scorer.
  abbrev pub feed_rerank :
      Scorer fl
      → Scorer fl
      → ℕ
      → Bool
      → (Text → Bool)
      → Option (Replay fl)
      → FeedSession (RankedRow fl)
      → Result (List (Text × RankedRow fl))
  feed_rerank sc revised version skip changed replay s =
      rerank_rows fl sc revised version s.user skip changed replay (queue_rows s) >>= λ rows.
      ok (map (λ (r : RankedRow fl). (r.article, r)) rows)

  times_row-queue :
      (a : Text) (rows : List (Row (RankedRow fl)))
      → times_in fl a
          (map (λ (r : Row (RankedRow fl)). record r.context { article = r.article }) rows)
        ≡ times_row a rows
  unfolding count_if
  times_row-queue a [] = refl
  times_row-queue a (r ∷ rows) = ground (arith, times_row-queue a rows)

  -- A session that tracks its items has no article twice in its queue.
  queue-IsDistinct :
      (s : FeedSession (RankedRow fl)) (shown : List (Row (RankedRow fl)))
      → Tracks s shown
      → IsDistinct (row_ids fl (queue_rows s))
  queue-IsDistinct s shown t =
      IsDistinct-times (row_ids fl (queue_rows s)) (λ a.
        omega (arith, t.conserved a, times-le a s.items t.distinct, times_row-queue a s.queue))

module _ (fl : Floats) (laws : FloatLaws fl) (sc revised : Scorer fl) (version : ℕ) (skip : Bool)
    (changed : Text → Bool) (replay : Option (Replay fl)) where
  rerank_rows-times :
      (user : Text) (rows : List (RankedRow fl)) {ranked : List (RankedRow fl)}
      → IsDistinct (row_ids fl rows)
      → rerank_rows fl sc revised version user skip changed replay rows ≡ ok ranked
      → (a : Text) → times_in fl a ranked ≡ times_in fl a rows
  unfolding rerank_rows
  rerank_rows-times user rows distinct e a =
      elim (Bool-cases (
        (skip && all_true (λ (r : RankedRow fl). has_pairs fl r.pairing) rows)
        && can_replay fl (pairwise_replay_plan fl version (row_ids fl rows) replay))) [
          | inl reuses ↦
              rerank_incrementally-times fl sc revised version user changed replay rows
                (rw reuses at e) a
          | inr afresh ↦
              let r =
                score-Ranks fl laws sc user (some (row_ids fl rows)) (some 0) true
                  (rw afresh at e) in
              ap (times_in fl a) r.cut
              ∙ r.once a
              ∙ ap (times a) (distinct_texts-same (row_ids fl rows) distinct)
        ]

  rerank-keeps :
      (s : FeedSession (RankedRow fl)) (shown : List (Row (RankedRow fl)))
      (ranked : List (Text × RankedRow fl))
      → Tracks s shown
      → feed_rerank fl sc revised version skip changed replay s ≡ ok ranked
      → (a : Text) → times_ranked a ranked ≡ times_row a s.queue
  rerank-keeps s shown ranked t e a =
      let rows = queue_rows fl s in
      let (again, found, e1) =
        >>=-eq-ok (rerank_rows fl sc revised version s.user skip changed replay rows) _ e in
      ap (times_ranked a) (sym (ok-injective e1))
      ∙ times_ranked-rows fl laws sc a again
      ∙ rerank_rows-times s.user rows (queue-IsDistinct fl s shown t) found a
      ∙ times_row-queue fl a s.queue

  -- Over the program's scorer and its rerank, whatever the proofs, for any row, report of an acceptance
  -- and action, and however it ends: from a session that tracks what it has shown, a feedback is a step
  -- of the abstract offer. The articles shown and in stock stay as they were, or, where an accepted
  -- position rolls the session back, the last ones shown go back into stock. So both where the queue
  -- is ranked again from the proved pairs and where it is scored afresh.
  pub scored_feedback-Offers :
      (prepare : RankedRow fl → Result (Unit {0})) (show : ℕ → Text) (id : Text) (now : ℕ)
      (given : Option Acceptance) (key : Text × Text) (s : FeedSession (RankedRow fl))
      (shown : List (Row (RankedRow fl)))
      → Tracks s shown
      → Offers (offer_of s shown) (
          offer_of
            (live_feedback prepare
              (feed_rerank fl sc revised version skip changed replay)
              show
              id
              now
              version
              given
              key
              s).1
            (left_shown (accept_feedback given key s) shown))
  scored_feedback-Offers prepare show id now given key s shown t =
      FeedStep-Offers (feed_score fl sc) (feed_score-RanksAll fl laws sc)
        (feeds_back prepare (feed_rerank fl sc revised version skip changed replay) show id now
          version given key rerank-keeps)
        t
