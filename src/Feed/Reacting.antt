-- ===== src/Feed/Reacting.antt =====
-- A feedback takes back the rows that its client has not accepted, and shows nothing.
use symbolic_recommendation.Prelude.{
  ℕ, ◌≡◌, refl, sym, ◌∙◌, subst, Bool, true, false, Option, none, some, List, append-nil, take,
  Bool-cases, inl, inr, place_keys, Scalar, Result-cases, Result, ok, err,
}
use symbolic_recommendation.Prelude.Dict.{get}
use symbolic_recommendation.Metta.{Text}
use symbolic_recommendation.Feed.{Row, FeedSession, Recovered, recover_deliveries}
use symbolic_recommendation.Feed.Stream.{times_ranked, times_row, Tracks}
use symbolic_recommendation.Feed.TakeBack.{
  recover_deliveries-Tracks, recover_deliveries-TakenBack, rerank_queue-Tracks,
}
use symbolic_recommendation.Feed.Identity.{SameFeed, put_back-SameFeed, rerank_queue-SameFeed}
use symbolic_recommendation.Feed.Feedback.{
  Acceptance, is_unaccepted, recover_accepted, accept_row, accept_feedback, forget_row, is_supplied,
  react, react_to, live_feedback,
}

module _ {C : Type 0} where
  -- The rows that stay shown.
  abbrev pub left_shown :
      Result (C × Option Recovered × FeedSession C) → List (Row C) → List (Row C)
  left_shown (err x) shown = shown
  left_shown (ok (context, none, s)) shown = shown
  left_shown (ok (context, some report, s)) shown = take report.accepted_position shown

  pub recovered-SameFeed :
      (position revision : Scalar) (report : Recovered) (s s' : FeedSession C)
      → recover_deliveries position revision s ≡ ok (report, s')
      → SameFeed s s'
  recovered-SameFeed position revision report s s' h =
      let (rows, _, _, made) = recover_deliveries-TakenBack position revision s s' report h in
      subst (λ u. SameFeed s u) (sym made) (put_back-SameFeed report.accepted_position rows s)

  forget_row-Tracks :
      (protocol_supplied : Bool) (key : Text × Text) (s : FeedSession C) (shown : List (Row C))
      → Tracks s shown
      → Tracks (forget_row protocol_supplied key s) shown
  forget_row-Tracks true key s shown t = record {
    counted = t.counted;
    older = t.older;
    split = t.split;
    chain = t.chain;
    distinct = t.distinct;
    in_stock = t.in_stock;
    conserved = t.conserved;
  }
  forget_row-Tracks false key s shown t = record {
    counted = t.counted;
    older = shown;
    split = sym (append-nil shown);
    chain = t.counted;
    distinct = t.distinct;
    in_stock = t.in_stock;
    conserved = t.conserved;
  }

  -- What an accepted feedback has done so far.
  abbrev Accepted :
      FeedSession C → List (Row C) → Result (C × Option Recovered × FeedSession C) → Type 0
  Accepted s shown (err x) = Unit
  Accepted s shown (ok (context, report, s')) =
      Tracks s' (left_shown (ok (context, report, s')) shown) × SameFeed s s'

  recover_accepted-Accepted :
      (context : C) (a : Acceptance) (s : FeedSession C) (shown : List (Row C))
      → Tracks s shown
      → Accepted s shown (recover_accepted context a s)
  recover_accepted-Accepted context a s shown t =
      elim (Result-cases (recover_deliveries a.feed_position a.queue_revision s)) [
        | inl ((report, s'), found) ↦ rw found (
          recover_deliveries-Tracks a.feed_position a.queue_revision s s' report shown t found,
          recovered-SameFeed a.feed_position a.queue_revision report s s' found,
        )
        | inr (x, failed) ↦ rw failed tt
      ]

  accept_row-Accepted :
      (given : Option Acceptance) (key : Text × Text) (s : FeedSession C) (context : Option C)
      (shown : List (Row C))
      → Tracks s shown
      → Accepted s shown (accept_row given key s context)
  accept_row-Accepted given key s none shown t = tt
  accept_row-Accepted none key s (some context) shown t = (t, (refl, refl))
  accept_row-Accepted (some a) key s (some context) shown t =
      elim (Bool-cases (is_unaccepted a.feed_position (get key s.feedback_positions))) [
        | inl unaccepted ↦ rw unaccepted tt
        | inr accepted ↦ rw accepted (recover_accepted-Accepted context a s shown t)
      ]

module _ {C : Type 0} (prepare : C → Result (Unit {0}))
    (rerank : FeedSession C → Result (List (Text × C))) (show : ℕ → Text) (id : Text)
    (now version : ℕ)
    (all_again : (s : FeedSession C) (shown : List (Row C)) (ranked : List (Text × C))
      → Tracks s shown
      → rerank s ≡ ok ranked
      → (a : Text) → times_ranked a ranked ≡ times_row a s.queue) where
  react-Tracks :
      (protocol_supplied : Bool) (key : Text × Text) (r : Result (Unit {0})) (s : FeedSession C)
      (shown : List (Row C))
      → Tracks s shown
      → Tracks (react prepare rerank show id now version protocol_supplied key r s).1 shown
        × SameFeed s (react prepare rerank show id now version protocol_supplied key r s).1
  react-Tracks protocol_supplied key (err x) s shown t = (t, (refl, refl))
  react-Tracks protocol_supplied key (ok u) s shown t =
      let s' = forget_row protocol_supplied key s in
      (
        rerank_queue-Tracks show id now version (rerank s') s' shown
            (forget_row-Tracks protocol_supplied key s shown t)
            (λ ranked.
              all_again s' shown ranked (forget_row-Tracks protocol_supplied key s shown t)),
        rerank_queue-SameFeed show id now version (rerank s') s',
      )

  react_to-Tracks :
      (protocol_supplied : Bool) (key : Text × Text) (s : FeedSession C)
      (r : Result (C × Option Recovered × FeedSession C)) (shown : List (Row C))
      → Tracks s shown
      → Accepted s shown r
      → Tracks
          (react_to prepare rerank show id now version protocol_supplied key s r).1
          (left_shown r shown)
        × SameFeed s (react_to prepare rerank show id now version protocol_supplied key s r).1
  react_to-Tracks protocol_supplied key s (err x) shown t a = (t, (refl, refl))
  react_to-Tracks protocol_supplied key s (ok (context, report, s')) shown t a =
      let (tracks, same) = a in
      let left = left_shown (ok (context, report, s')) shown in
      let (tracks', same') = react-Tracks protocol_supplied key (prepare context) s' left tracks in
      (tracks', (same'.0 ∙ same.0, same'.1 ∙ same.1))

  -- After a feedback the session tracks what is still shown, and is over the same items of the same
  -- user.
  pub live_feedback-Tracks :
      (given : Option Acceptance) (key : Text × Text) (s : FeedSession C) (shown : List (Row C))
      → Tracks s shown
      → Tracks
          (live_feedback prepare rerank show id now version given key s).1
          (left_shown (accept_feedback given key s) shown)
        × SameFeed s (live_feedback prepare rerank show id now version given key s).1
  unfolding live_feedback accept_feedback
  live_feedback-Tracks given key s shown t =
      react_to-Tracks (is_supplied given) key s
        (accept_row given key s (get key s.feedback_contexts)) shown t
        (accept_row-Accepted given key s (get key s.feedback_contexts) shown t)
