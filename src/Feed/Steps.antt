-- ===== src/Feed/Steps.antt =====
-- What may happen to a session, in the order in which it happens, and that every step is one of the
-- abstract offer.
use symbolic_recommendation.Prelude.{
  Option, none, some, err, ℕ, ◌+◌, ◌≡◌, refl, sym, ◌∙◌, ap, List, ◌++◌, arith, count_if-append,
  take, drop, take-append-drop, ◌==◌, code_keys, Scalar, Result, ok,
}
use symbolic_recommendation.Metta.{Text}
use symbolic_recommendation.Feed.{
  Row, FeedSession, DeliveryLimits, Recovered, acknowledge_deliveries, recover_deliveries,
}
use symbolic_recommendation.Feed.Queue.{serve_rows, fill_queue, rerank_queue}
use symbolic_recommendation.Feed.Stream.{times, times_ranked, times_row, Tracks, serve_rows-Tracks}
use symbolic_recommendation.Feed.Filling.{RanksAll, fill_queue-Tracks}
use symbolic_recommendation.Feed.Identity.{
  SameFeed, serve_rows-SameFeed, rerank_queue-SameFeed, fill_queue-SameFeed,
}
use symbolic_recommendation.Feed.TakeBack.{
  acknowledged-Tracks, recover_deliveries-Tracks, rerank_queue-Tracks,
}
use symbolic_recommendation.Feed.Feedback.{Acceptance, accept_feedback, live_feedback}
use symbolic_recommendation.Feed.Reacting.{left_shown, recovered-SameFeed, live_feedback-Tracks}
use symbolic_recommendation.Feed.Offers.{
  Offers, shows, takes_back, keeps, articles_of, articles_of-append, articles_of-take, offer_of,
  stock_is,
}

-- What may happen to a session, with what it has shown.
pub data FeedStep {C : Type 0} (rank : Text → List Text → Result (List (Text × C)))
    (s : FeedSession C) (shown : List (Row C)) : FeedSession C → List (Row C) → Type 0 where
  fills :
      (show : ℕ → Text) (id : Text) (window page_size fuel : ℕ)
      → FeedStep rank s shown (fill_queue rank show id window page_size fuel s).1 shown
  serves :
      (l : DeliveryLimits) (page_size now : ℕ)
      → FeedStep rank s shown
          (serve_rows l page_size now s).1
          (shown ++ (serve_rows l page_size now s).0)
  acknowledges :
      FeedStep rank s shown
        (record s { deliveries = acknowledge_deliveries s.position s.deliveries })
        shown
  recovers :
      (position revision : Scalar) (report : Recovered) {s' : FeedSession C}
      → recover_deliveries position revision s ≡ ok (report, s')
      → FeedStep rank s shown s' (take report.accepted_position shown)
  reranks :
      (show : ℕ → Text) (id : Text) (now version : ℕ) (r : Result (List (Text × C)))
      → ((ranked : List (Text × C))
          → r ≡ ok ranked
          → (a : Text) → times_ranked a ranked ≡ times_row a s.queue)
      → FeedStep rank s shown (rerank_queue show id now version r s).1 shown
  feeds_back :
      (prepare : C → Result (Unit {0})) (rerank : FeedSession C → Result (List (Text × C)))
      (show : ℕ → Text) (id : Text) (now version : ℕ) (given : Option Acceptance)
      (key : Text × Text)
      → ((s' : FeedSession C) (shown' : List (Row C)) (ranked : List (Text × C))
          → Tracks s' shown'
          → rerank s' ≡ ok ranked
          → (a : Text) → times_ranked a ranked ≡ times_row a s'.queue)
      → FeedStep rank s shown
          (live_feedback prepare rerank show id now version given key s).1
          (left_shown (accept_feedback given key s) shown)

module _ {C : Type 0} (rank : Text → List Text → Result (List (Text × C)))
    (all : RanksAll rank) where
  pub FeedStep-Tracks :
      {s s' : FeedSession C} {shown shown' : List (Row C)}
      → FeedStep rank s shown s' shown'
      → Tracks s shown
      → Tracks s' shown'
  FeedStep-Tracks {s} {shown = shown} (fills show id window page_size fuel) t =
      fill_queue-Tracks rank all show id window page_size fuel s shown t
  FeedStep-Tracks {s} {shown = shown} (serves l page_size now) t =
      serve_rows-Tracks l page_size now s shown t
  FeedStep-Tracks {s} {shown = shown} acknowledges t = acknowledged-Tracks s shown t
  FeedStep-Tracks {s} {s'} {shown} (recovers position revision report h) t =
      recover_deliveries-Tracks position revision s s' report shown t h
  FeedStep-Tracks {s} {shown = shown} (reranks show id now version r law) t =
      rerank_queue-Tracks show id now version r s shown t law
  FeedStep-Tracks {s} {shown = shown} (feeds_back prepare rerank show id now version given key law)
        t =
      (live_feedback-Tracks prepare rerank show id now version law given key s shown t).0

  pub FeedStep-SameFeed :
      {s s' : FeedSession C} {shown shown' : List (Row C)}
      → FeedStep rank s shown s' shown'
      → Tracks s shown
      → SameFeed s s'
  FeedStep-SameFeed {s} (fills show id window page_size fuel) t =
      fill_queue-SameFeed rank show id window page_size fuel s
  FeedStep-SameFeed {s} (serves l page_size now) t = serve_rows-SameFeed l page_size now s
  FeedStep-SameFeed acknowledges t = (refl, refl)
  FeedStep-SameFeed {s} {s'} (recovers position revision report h) t =
      recovered-SameFeed position revision report s s' h
  FeedStep-SameFeed {s} (reranks show id now version r law) t =
      rerank_queue-SameFeed show id now version r s
  FeedStep-SameFeed {s} {shown = shown}
        (feeds_back prepare rerank show id now version given key law) t =
      (live_feedback-Tracks prepare rerank show id now version law given key s shown t).1

  -- The stock after a step is what the articles shown by it leave.
  step-stock :
      {s s' : FeedSession C} {shown shown' : List (Row C)} (a : Text)
      → FeedStep rank s shown s' shown'
      → Tracks s shown
      → times a (articles_of shown') + (offer_of s' shown').stock a
        ≡ times a (articles_of shown) + (offer_of s shown).stock a
  step-stock {s} {s'} {shown} {shown'} a step t =
      stock_is s' shown' a (FeedStep-Tracks step t)
      ∙ ap (times a) (FeedStep-SameFeed step t).1
      ∙ sym (stock_is s shown a t)

  -- The same articles in other places: shown, in the queue or not ranked yet.
  abbrev SameStock : FeedSession C → List (Row C) → FeedSession C → List (Row C) → Type 0
  SameStock s shown s' shown' =
      (a : Text)
      → times a (articles_of shown') + (offer_of s' shown').stock a
        ≡ times a (articles_of shown) + (offer_of s shown).stock a

  taken_back :
      (n : ℕ) (s s' : FeedSession C) (shown : List (Row C))
      → SameStock s shown s' (take n shown)
      → Offers (offer_of s shown) (offer_of s' (take n shown))
  taken_back n s s' shown same = takes_back n (articles_of-take n shown) (λ a. omega (
    arith,
    same a,
    ap (times a) (articles_of-take n shown),
    ap (times a) (take-append-drop n (articles_of shown)),
    count_if-append (λ x. a == x) (take n (articles_of shown)) (drop n (articles_of shown)),
  ))

  left_shown-Offers :
      (r : Result (C × Option Recovered × FeedSession C)) (s s' : FeedSession C)
      (shown : List (Row C))
      → SameStock s shown s' (left_shown r shown)
      → Offers (offer_of s shown) (offer_of s' (left_shown r shown))
  left_shown-Offers (err x) s s' shown same = keeps refl (λ a. omega (arith, same a))
  left_shown-Offers (ok (context, none, v)) s s' shown same =
      keeps refl (λ a. omega (arith, same a))
  left_shown-Offers (ok (context, some report, v)) s s' shown same =
      taken_back report.accepted_position s s' shown same

  -- Every step of a session that tracks what it has shown is a step of the abstract offer, for a
  -- scorer that ranks all that it is given and a rerank that ranks the queue: filling, acknowledging
  -- and reranking keep the offer, a page shows articles that were in stock, a recovery takes the last
  -- articles back into it, and a feedback, however it ends, does so or keeps the offer.
  pub FeedStep-Offers :
      {s s' : FeedSession C} {shown shown' : List (Row C)}
      → FeedStep rank s shown s' shown'
      → Tracks s shown
      → Offers (offer_of s shown) (offer_of s' shown')
  FeedStep-Offers {s} {s'} {shown} (fills show id window page_size fuel) t =
      let step : FeedStep rank s shown (fill_queue rank show id window page_size fuel s).1 shown =
        fills show id window page_size fuel in
      keeps refl (λ a. omega (arith, step-stock a step t))
  FeedStep-Offers {s} {s'} {shown} (serves l page_size now) t =
      let rows = (serve_rows l page_size now s).0 in
      let step : FeedStep rank s shown (serve_rows l page_size now s).1 (shown ++ rows) =
        serves l page_size now in
      shows (articles_of rows) (articles_of-append shown rows) (λ a. omega (
        arith,
        step-stock a step t,
        ap (times a) (articles_of-append shown rows),
        count_if-append (λ x. a == x) (articles_of shown) (articles_of rows),
      ))
  FeedStep-Offers {s} {shown = shown} acknowledges t = keeps refl (λ a. refl)
  FeedStep-Offers {s} {s'} {shown} (recovers position revision report h) t =
      let step : FeedStep rank s shown s' (take report.accepted_position shown) =
        recovers position revision report h in
      taken_back report.accepted_position s s' shown (λ a. step-stock a step t)
  FeedStep-Offers {s} {s'} {shown} (reranks show id now version r law) t =
      let step : FeedStep rank s shown (rerank_queue show id now version r s).1 shown =
        reranks show id now version r law in
      keeps refl (λ a. omega (arith, step-stock a step t))
  FeedStep-Offers {s} {s'} {shown} (feeds_back prepare rerank show id now version given key law) t =
      let step : FeedStep rank s shown
          (live_feedback prepare rerank show id now version given key s).1
          (left_shown (accept_feedback given key s) shown) =
        feeds_back prepare rerank show id now version given key law in
      left_shown-Offers (accept_feedback given key s) s
        (live_feedback prepare rerank show id now version given key s).1 shown
        (λ a. step-stock a step t)
