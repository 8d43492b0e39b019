-- ===== src/Feed/Feedback.antt =====
-- `event` of app/server.py, as far as it concerns the session of a served row: which feedback it
-- accepts, and the recovery and the rerank that follow. What records the event and the profile of the
-- user is not here; what of it may raise before the session changes is a parameter.
use symbolic_recommendation.Prelude.{
  ℕ, Bool, true, false, Option, none, some, List, [], ltb, if◌then◌else◌, code_keys, place_keys,
  pos, Scalar, int_value, Result, ok, err, ◌>>=◌, value_error,
}
use symbolic_recommendation.Prelude.Dict.{get, remove}
use symbolic_recommendation.Metta.{Text}
use symbolic_recommendation.Feed.{FeedSession, Recovered, recover_deliveries}
use symbolic_recommendation.Feed.Queue.{rerank_queue}

-- `feed_position` and `queue_revision` of a client that says which pages it has accepted.
pub record Acceptance : Type 0 where
  pub feed_position : Scalar
  pub queue_revision : Scalar

-- type(feed_position) is not int or accepted_end is None or accepted_end > feed_position
unfoldable pub is_unaccepted : Scalar → Option ℕ → Bool
is_unaccepted (int_value (pos p)) (some end_) = ltb p end_
is_unaccepted _ _ = true

abbrev pub is_supplied : Option Acceptance → Bool
is_supplied none = false
is_supplied (some a) = true

module _ {C : Type 0} where
  abbrev pub recover_accepted :
      C → Acceptance → FeedSession C → Result (C × Option Recovered × FeedSession C)
  recover_accepted context a s =
      recover_deliveries a.feed_position a.queue_revision s >>= λ r. ok (context, some r.0, r.1)

  abbrev pub accept_row :
      Option Acceptance
      → Text × Text
      → FeedSession C
      → Option C
      → Result (C × Option Recovered × FeedSession C)
  accept_row given key s none =
      err (value_error "feedback does not match an active served feed item")
  accept_row none key s (some context) = ok (context, none, s)
  accept_row (some a) key s (some context) =
      if is_unaccepted a.feed_position (get key s.feedback_positions)
      then err (value_error "feedback item was not accepted by the client")
      else recover_accepted context a s

  -- The checks of a feedback on a served row, with the recovery of the pages that were not accepted.
  unfoldable pub accept_feedback :
      Option Acceptance
      → Text × Text
      → FeedSession C
      → Result (C × Option Recovered × FeedSession C)
  accept_feedback given key s = accept_row given key s (get key s.feedback_contexts)

  -- A client without acceptance has seen all pages.
  abbrev pub forget_row : Bool → Text × Text → FeedSession C → FeedSession C
  forget_row protocol_supplied key s = record s {
    feedback_contexts = remove key s.feedback_contexts;
    feedback_positions = remove key s.feedback_positions;
    deliveries = if protocol_supplied then s.deliveries else [];
  }

module _ {C : Type 0} (prepare : C → Result (Unit {0}))
    (rerank : FeedSession C → Result (List (Text × C))) (show : ℕ → Text) (id : Text)
    (now version : ℕ) where
  abbrev pub react :
      Bool → Text × Text → Result (Unit {0}) → FeedSession C → Result (Unit {0}) × FeedSession C
  react protocol_supplied key (err x) s = (err x, s)
  react protocol_supplied key (ok u) s =
      let s' = forget_row protocol_supplied key s in rerank_queue show id now version (rerank s') s'

  abbrev pub react_to :
      Bool
      → Text × Text
      → FeedSession C
      → Result (C × Option Recovered × FeedSession C)
      → Result (Unit {0}) × FeedSession C
  react_to protocol_supplied key s (err x) = (err x, s)
  react_to protocol_supplied key s (ok (context, report, s')) =
      react protocol_supplied key (prepare context) s'

  -- What a feedback on the row `key` does to its session.
  unfoldable pub live_feedback :
      Option Acceptance → Text × Text → FeedSession C → Result (Unit {0}) × FeedSession C
  live_feedback given key s = react_to (is_supplied given) key s (accept_feedback given key s)
