-- ===== src/Ranking/RerankTests.antt =====
-- A skip of a served row, after which the scorer ranks the queue again.
use symbolic_recommendation.Prelude.{refl, true, none, List, [], ◌∷◌, codes, Result, ok}
use symbolic_recommendation.Metta.{Text}
use symbolic_recommendation.Quantiles.Naturals.{naturals, naturals-FloatLaws}
use symbolic_recommendation.Feed.{Row, FeedSession}
use symbolic_recommendation.Feed.Pages.{new_session}
use symbolic_recommendation.Feed.Queue.{fill_queue, serve_rows}
use symbolic_recommendation.Feed.Stream.{Tracks, serve_rows-Tracks}
use symbolic_recommendation.Feed.Filling.{fill_queue-Tracks}
use symbolic_recommendation.Feed.Sessions.{new_session-Tracks}
use symbolic_recommendation.Feed.Offers.{Offers, offer_of}
use symbolic_recommendation.Feed.Feedback.{accept_feedback, live_feedback}
use symbolic_recommendation.Feed.Reacting.{left_shown}
use symbolic_recommendation.Feed.Scored.{feed_score-RanksAll}
use symbolic_recommendation.Feed.Reranked.{feed_rerank, scored_feedback-Offers}
use symbolic_recommendation.Ranking.Rows.{RankedRow}
use symbolic_recommendation.Ranking.Scoring.{feed_score}
use symbolic_recommendation.Ranking.Tests.{ids}
use symbolic_recommendation.Ranking.ScoreTests.{scorer, feed_lab}

abbrev opened : FeedSession (RankedRow naturals)
opened = new_session (codes "u") ids 10 1

abbrev filled : FeedSession (RankedRow naturals)
filled = (fill_queue (feed_score naturals scorer) feed_lab.show (codes "s") 2 1 2 opened).1

abbrev served : FeedSession (RankedRow naturals)
served = (serve_rows feed_lab.limits 1 11 filled).1

abbrev page : List (Row (RankedRow naturals))
page = (serve_rows feed_lab.limits 1 11 filled).0

served-Tracks : Tracks served page
served-Tracks = serve_rows-Tracks feed_lab.limits 1 11 filled [] (
    fill_queue-Tracks (feed_score naturals scorer)
      (feed_score-RanksAll naturals naturals-FloatLaws scorer) feed_lab.show (codes "s") 2 1 2
      opened [] (new_session-Tracks (codes "u") ids 10 1 (refl, (refl, tt))))

abbrev key_in : List (Row (RankedRow naturals)) → Text × Text
key_in [] = ([], [])
key_in (r ∷ rows) = (r.impression, r.article)

abbrev prepare : RankedRow naturals → Result (Unit {0})
prepare r = ok tt

scored_feedback-Offers_example : Offers (offer_of served page) (
    offer_of
      (live_feedback prepare
        (feed_rerank naturals scorer scorer 1 true (λ aid. true) none)
        feed_lab.show
        (codes "s")
        12
        1
        none
        (key_in page)
        served).1
      (left_shown (accept_feedback none (key_in page) served) page))
scored_feedback-Offers_example =
    scored_feedback-Offers naturals naturals-FloatLaws scorer scorer 1 true (λ aid. true) none
      prepare feed_lab.show (codes "s") 12 none (key_in page) served page served-Tracks
