-- ===== src/Feed/Scored.antt =====
-- The live feed over `score` of ranking/lab_pairwise.py, which ranks its windows.
use symbolic_recommendation.Prelude.{
  ◌≡◌, refl, sym, ◌∙◌, ap, true, some, List, [], ◌∷◌, map, arith, count_if, code_keys, IsDistinct,
  ok-injective, >>=-eq-ok,
}
use symbolic_recommendation.Prelude.Dict.{Dict}
use symbolic_recommendation.Metta.{Text}
use symbolic_recommendation.Quantiles.{Floats}
use symbolic_recommendation.Quantiles.Laws.{FloatLaws}
use symbolic_recommendation.Feed.{Row, FeedSession}
use symbolic_recommendation.Feed.Pages.{FeedLab, PageRequest}
use symbolic_recommendation.Feed.Stream.{times, times_ranked}
use symbolic_recommendation.Feed.Filling.{RanksAll}
use symbolic_recommendation.Feed.Requests.{feed_page}
use symbolic_recommendation.Feed.Sessions.{AllTrack, after_page, feed_page-AllTrack}
use symbolic_recommendation.Ranking.Rows.{RankedRow}
use symbolic_recommendation.Ranking.Score.{Scorer}
use symbolic_recommendation.Ranking.Scoring.{feed_score, score}
use symbolic_recommendation.Ranking.Ranked.{times_in, distinct_texts-same}
use symbolic_recommendation.Ranking.Scored.{score-Ranks}

module _ (fl : Floats) (laws : FloatLaws fl) (sc : Scorer fl) where
  pub times_ranked-rows :
      (a : Text) (rows : List (RankedRow fl))
      → times_ranked a (map (λ (r : RankedRow fl). (r.article, r)) rows) ≡ times_in fl a rows
  unfolding count_if
  times_ranked-rows a [] = refl
  times_ranked-rows a (r ∷ rows) = ground (arith, times_ranked-rows a rows)

  pub feed_score-RanksAll : RanksAll (feed_score fl sc)
  unfolding feed_score
  feed_score-RanksAll user candidates ranked distinct e a =
      let (rows, scored, e1) = >>=-eq-ok (score fl sc user (some candidates) (some 0) true) _ e in
      let r = score-Ranks fl laws sc user (some candidates) (some 0) true scored in
      ap (times_ranked a) (sym (ok-injective e1))
      ∙ times_ranked-rows a rows
      ∙ ap (times_in fl a) r.cut
      ∙ r.once a
      ∙ ap (times a) (distinct_texts-same candidates distinct)

  module _ (lab : FeedLab) (q : PageRequest) (f : Text → List (Row (RankedRow fl)))
      (corpus : IsDistinct lab.articles)
      (reorders : (a : Text) (xs : List Text) → times a (lab.shuffle q.user xs) ≡ times a xs)
      (unused : f q.fresh_id ≡ []) where
    -- Over the program's scorer, whatever the proofs, where the corpus names each article once, the
    -- shuffle only reorders and the fresh ID names no session that has shown anything: after a call of
    -- `feed_page`, whatever the request and however it ends, an exception of the scorer included, every
    -- session that is kept has shown what it had, followed by the rows of the page where the page is the
    -- session's, and these with its queue and its unranked items are exactly the items of the session.
    pub scored_page-AllTrack :
        (d : Dict Text (FeedSession (RankedRow fl)))
        → AllTrack d f
        → AllTrack
            (feed_page (feed_score fl sc) lab q d).1
            (after_page (feed_page (feed_score fl sc) lab q d).0 f)
    scored_page-AllTrack d t =
        feed_page-AllTrack (feed_score fl sc) feed_score-RanksAll lab q f corpus reorders unused d t
