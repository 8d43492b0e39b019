-- ===== src/Feed.antt =====
-- app/lab_serving.py: the sessions of the live feed. A session walks through its items in windows,
-- which the scorer ranks, and serves the ranked rows page by page; a tail of the pages is kept, so
-- that what a client never accepted can go back into the queue.
pub mod Pages
pub mod Queue
pub mod Stream
pub mod Filling
pub mod TakeBack
pub mod Requests
pub mod Recovery
pub mod Sessions
pub mod Identity
pub mod Offers
pub mod Steps
pub mod Feedback
pub mod Reacting
pub mod RoundTrip
pub mod Isolation
pub mod Pool
pub mod Scored
pub mod Reranked
mod Tests
use symbolic_recommendation.Prelude.{
  ℕ, zero, suc, ◌+◌, ◌-◌, Bool, true, false, not, ◌&&◌, ◌||◌, Option, none, some, List, [], ◌∷◌,
  ◌++◌, map, ltb, nat_eq, if◌then◌else◌, length, is_empty, keep_if, codes, String, pos, Scalar,
  int_value, Result, ok, err, ◌>>=◌, value_error, place_keys,
}
use symbolic_recommendation.Prelude.Dict.{Dict, put, remove}
use symbolic_recommendation.Metta.{Text}

-- A row of the feed. The context stands for the row's other public fields too.
pub record Row (C : Type 0) : Type 0 where
  pub article : Text
  pub impression : Text
  pub context : C
  pub revision : ℕ

pub record Delivery (C : Type 0) : Type 0 where
  pub start_position : ℕ
  pub end_position : ℕ
  pub delivery_revision : ℕ
  pub rows : List (Row C)

-- A session, less its replay data and the summary of its last feedback.
pub record FeedSession (C : Type 0) : Type 0 where
  pub user : Text
  pub items : List Text
  pub source_position : ℕ
  pub queue : List (Row C)
  pub position : ℕ
  pub last_access : ℕ
  pub version : ℕ
  pub feedback_contexts : Dict (Text × Text) C
  pub feedback_positions : Dict (Text × Text) ℕ
  pub deliveries : List (Delivery C)
  pub queue_revision : ℕ

-- FEED_DELIVERY_HISTORY_LIMIT and FEED_DELIVERY_ROW_LIMIT.
pub record DeliveryLimits : Type 0 where
  pub history_limit : ℕ
  pub row_limit : ℕ

-- What a recovery reports.
pub record Recovered : Type 0 where
  pub accepted_position : ℕ
  pub server_position_before_recovery : ℕ
  pub recovered_rows : ℕ

-- `type(value) is int and value >= 0`
unfoldable pub non_negative : String → Scalar → Result ℕ
non_negative message (int_value (pos n)) = ok n
non_negative message _ = err (value_error message)

module _ {C : Type 0} where
  unfoldable pub acknowledge_deliveries : ℕ → List (Delivery C) → List (Delivery C)
  acknowledge_deliveries position = keep_if (λ d. ltb position d.end_position)

  unfoldable pub row_count : List (Delivery C) → ℕ
  row_count [] = 0
  row_count (d ∷ ds) = length d.rows + row_count ds

  -- The loop that forgets the oldest pages, but never the last one. The count of retained rows is
  -- that of the rest.
  unfoldable pub trim_deliveries : DeliveryLimits → List (Delivery C) → List (Delivery C)
  trim_deliveries l [] = []
  trim_deliveries l (d ∷ ds) =
      let rest = trim_deliveries l ds in
      if not (is_empty ds)
        && (ltb l.history_limit (length (d ∷ ds)) || ltb l.row_limit (row_count (d ∷ ds)))
      then rest
      else d ∷ ds

  unfoldable pub record_delivery :
      DeliveryLimits → ℕ → ℕ → List (Row C) → FeedSession C → FeedSession C
  record_delivery l start_ end_ [] s = s
  record_delivery l start_ end_ (row ∷ rows) s = record s {
    deliveries = trim_deliveries l (
        s.deliveries
        ++ (record {
          start_position = start_;
          end_position = end_;
          delivery_revision = s.queue_revision;
          rows = row ∷ rows;
        })
          ∷ []);
  }

  -- The loop over the pages that the client did not accept: their rows, and where they end.
  unfoldable pub collect_rows : ℕ → ℕ → List (Delivery C) → Result (List (Row C) × ℕ)
  collect_rows revision cursor [] = ok ([], cursor)
  collect_rows revision cursor (d ∷ ds) =
      if nat_eq d.start_position cursor && nat_eq d.delivery_revision revision
      then (collect_rows revision d.end_position ds >>= λ p. ok (d.rows ++ p.0, p.1))
      else err (value_error "feed_position is outside retained delivery history")

  -- for row in recovered: pop(key, None)
  unfoldable pub forget_rows {ℓ} :
      {V : Type ℓ} → List (Row C) → Dict (Text × Text) V → Dict (Text × Text) V
  forget_rows [] d = d
  forget_rows (r ∷ rows) d = forget_rows rows (remove (r.impression, r.article) d)

  abbrev pub put_back : ℕ → List (Row C) → FeedSession C → FeedSession C
  put_back accepted [] s = record s { deliveries = [] }
  put_back accepted (r ∷ rows) s = record s {
    queue = r ∷ rows ++ s.queue;
    feedback_contexts = forget_rows (r ∷ rows) s.feedback_contexts;
    feedback_positions = forget_rows (r ∷ rows) s.feedback_positions;
    position = accepted;
    deliveries = [];
  }

  abbrev pub recover_rows :
      ℕ → FeedSession C → List (Row C) × ℕ → Result (Recovered × FeedSession C)
  recover_rows accepted s (rows, cursor) =
      if nat_eq cursor s.position
      then ok (
        record {
          accepted_position = accepted;
          server_position_before_recovery = s.position;
          recovered_rows = length rows;
        },
        put_back accepted rows s,
      )
      else err (value_error "feed_position is outside retained delivery history")

  -- The checks behind those of the two types.
  unfoldable pub recover_at : ℕ → ℕ → FeedSession C → Result (Recovered × FeedSession C)
  recover_at accepted revision s =
      if not (nat_eq revision s.queue_revision)
      then err (value_error "stale feedback queue revision")
      else if ltb s.position accepted
      then err (value_error "feed_position is ahead of the feed session")
      else (collect_rows revision accepted (acknowledge_deliveries accepted s.deliveries)
          >>= λ found. recover_rows accepted s found)

  -- `_recover_unaccepted_feed_deliveries`: nothing changes where it raises.
  unfoldable pub recover_deliveries :
      Scalar → Scalar → FeedSession C → Result (Recovered × FeedSession C)
  recover_deliveries accepted_position accepted_revision s =
      non_negative "feed_position must be a non-negative integer" accepted_position >>= λ accepted.
      non_negative "queue_revision must be a non-negative integer" accepted_revision >>= λ revision.
      recover_at accepted revision s
