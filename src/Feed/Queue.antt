-- ===== src/Feed/Queue.antt =====
-- The queue of a session: the windows that `feed_page` has ranked into it, the page that it serves from
-- its front, and the order that `_rerank_unserved_queue` gives it. The scorer is a parameter: it
-- ranks candidates, with the context that is served with each, or raises.
use symbolic_recommendation.Prelude.{
  ℕ, zero, suc, ◌+◌, ◌-◌, Bool, ◌&&◌, List, [], ◌∷◌, ◌++◌, map, ltb, if◌then◌else◌, length,
  is_empty, take, drop, codes, code_keys, place_keys, Result, ok, err,
}
use symbolic_recommendation.Prelude.Dict.{Dict, put}
use symbolic_recommendation.Metta.{Text}
use symbolic_recommendation.Feed.{Row, FeedSession, DeliveryLimits, record_delivery}

unfoldable pub impression_of : (ℕ → Text) → Text → ℕ → ℕ → Text
impression_of show session a b =
    codes "live_" ++ session ++ codes "_" ++ show a ++ codes "_" ++ show b

module _ {C : Type 0} where
  abbrev pub ranked_row : Text → ℕ → Text × C → Row C
  ranked_row impression revision (aid, context) = record {
    article = aid;
    impression = impression;
    context = context;
    revision = revision;
  }

  -- One window: what the scorer returns for it is queued.
  abbrev pub queue_window :
      (ℕ → Text)
      → Text
      → ℕ
      → Result (List (Text × C))
      → FeedSession C
      → Result (Unit {0}) × FeedSession C
  queue_window show id end_ (err x) s = (err x, s)
  queue_window show id end_ (ok ranked) s = (
    ok tt,
    record s {
      queue =
          s.queue
          ++ map (ranked_row (impression_of show id s.source_position end_) s.queue_revision)
              ranked;
      source_position = end_;
    },
  )

  abbrev pub window_end : ℕ → FeedSession C → ℕ
  window_end window s =
      if ltb (length s.items) (s.source_position + window)
      then length s.items
      else s.source_position + window

  abbrev pub window_items : ℕ → FeedSession C → List Text
  window_items window s =
      take (window_end window s - s.source_position) (drop s.source_position s.items)

  abbrev pub is_hungry : ℕ → FeedSession C → Bool
  is_hungry page_size s = ltb (length s.queue) page_size && ltb s.source_position (length s.items)

  abbrev pub then_again :
      Result (Unit {0}) × FeedSession C
      → (FeedSession C → Result (Unit {0}) × FeedSession C)
      → Result (Unit {0}) × FeedSession C
  then_again (err x, s) again = (err x, s)
  then_again (ok u, s) again = again s

module _ {C : Type 0} (rank : Text → List Text → Result (List (Text × C))) where
  abbrev pub arrive : (ℕ → Text) → Text → ℕ → FeedSession C → Result (Unit {0}) × FeedSession C
  arrive show id window s =
      queue_window show id (window_end window s) (rank s.user (window_items window s)) s

  -- The loop over the windows, with fuel: each round takes at least one item.
  unfoldable pub fill_queue :
      (ℕ → Text) → Text → ℕ → ℕ → ℕ → FeedSession C → Result (Unit {0}) × FeedSession C
  fill_queue show id window page_size zero s = (ok tt, s)
  fill_queue show id window page_size (suc fuel) s =
      let round =
        then_again (arrive show id window s) (λ s'. fill_queue show id window page_size fuel s') in
      if is_hungry page_size s then round else (ok tt, s)

module _ {C : Type 0} where
  unfoldable pub note_contexts : List (Row C) → Dict (Text × Text) C → Dict (Text × Text) C
  note_contexts [] d = d
  note_contexts (r ∷ rows) d = note_contexts rows (put (r.impression, r.article) r.context d)

  unfoldable pub note_positions : ℕ → List (Row C) → Dict (Text × Text) ℕ → Dict (Text × Text) ℕ
  note_positions end_ [] d = d
  note_positions end_ (r ∷ rows) d = note_positions end_ rows (put (r.impression, r.article) end_ d)

  -- The end of `feed_page`: the rows of the page, and the session that has delivered them.
  unfoldable pub serve_rows : DeliveryLimits → ℕ → ℕ → FeedSession C → List (Row C) × FeedSession C
  serve_rows l page_size now s =
      let rows = take page_size s.queue in
      let end_ = s.position + length rows in
      (
        rows,
        record_delivery l s.position end_ rows (record s {
          queue = drop (length rows) s.queue;
          feedback_contexts = note_contexts rows s.feedback_contexts;
          feedback_positions = note_positions end_ rows s.feedback_positions;
          position = end_;
          last_access = now;
        }),
      )

  abbrev pub requeue :
      Text → Result (List (Text × C)) → FeedSession C → Result (Unit {0}) × FeedSession C
  requeue impression (err x) s = (err x, s)
  requeue impression (ok reranked) s =
      (ok tt, record s { queue = map (ranked_row impression s.queue_revision) reranked })

  abbrev pub reranked :
      ℕ → ℕ → Result (Unit {0}) × FeedSession C → Result (Unit {0}) × FeedSession C
  reranked now version (err x, s) = (err x, s)
  reranked now version (ok u, s) = (ok u, record s { version = version; last_access = now })

  -- The queue that a feedback leaves, and the revision that it begins.
  unfoldable pub rerank_queue :
      (ℕ → Text)
      → Text
      → ℕ
      → ℕ
      → Result (List (Text × C))
      → FeedSession C
      → Result (Unit {0}) × FeedSession C
  rerank_queue show id now version ranked s =
      let begun = record s { queue_revision = s.queue_revision + 1 } in
      reranked now version (
        if is_empty s.queue
        then (ok tt, begun)
        else requeue (impression_of show id s.position s.source_position) ranked begun)
