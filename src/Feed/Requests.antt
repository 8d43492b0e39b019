-- ===== src/Feed/Requests.antt =====
-- `feed_page` as a whole, over the sessions of all users, and what every session goes on to keep.
use symbolic_recommendation.Prelude.{
  ◌-◌, ℕ, Bool, true, false, not, ◌||◌, Option, none, some, List, ltb, nat_eq, if◌then◌else◌,
  length, is_empty, elem, code_keys, ℤ, pos, Result, ok, err, value_error, is_some,
}
use symbolic_recommendation.Prelude.Dict.{Dict, put}
use symbolic_recommendation.Metta.{Text}
use symbolic_recommendation.Feed.{Row, FeedSession, acknowledge_deliveries}
use symbolic_recommendation.Feed.Pages.{
  pool_of, cursor, PageRequest, Page, FeedLab, int_is, page_size_of, resolve_cursor, prune_sessions,
  session_for_user, new_session,
}
use symbolic_recommendation.Feed.Queue.{fill_queue, serve_rows}

abbrev pub larger : ℕ → ℕ → ℕ
larger a b = if ltb a b then b else a

module _ {C : Type 0} where
  abbrev pub needs_reset : ℕ → Option (ℤ × ℤ) → Option (FeedSession C) → Bool
  needs_reset version at none = is_some at
  needs_reset version at (some s) = not (nat_eq s.version version)

  -- The checks of a cursor, and the pages that it acknowledges.
  unfoldable pub follow_cursor : Option (ℤ × ℤ) → FeedSession C → Result (FeedSession C)
  follow_cursor none s = ok s
  follow_cursor (some (position, revision)) s =
      if not (int_is position s.position)
      then err (value_error "stale feed cursor")
      else if not (int_is revision s.queue_revision)
      then err (value_error "stale feed cursor revision")
      else ok (record s { deliveries = acknowledge_deliveries s.position s.deliveries })

  abbrev pub has_more_rows : FeedSession C → Bool
  has_more_rows s = not (is_empty s.queue) || ltb s.source_position (length s.items)

  abbrev pub page_result : Text → Bool → ℕ → List (Row C) → FeedSession C → Page C
  page_result id reset version rows s = record {
    feed = rows;
    page_session = id;
    next_cursor =
        if has_more_rows s then some (cursor id (pos s.position) (pos s.queue_revision)) else none;
    has_more = has_more_rows s;
    page_position = s.position;
    remaining = length s.items - s.position;
    total_candidates = length s.items;
    rule_version = version;
    reset = reset;
    page_revision = s.queue_revision;
  }

module _ {C : Type 0} (rank : Text → List Text → Result (List (Text × C))) (lab : FeedLab)
    (q : PageRequest) where
  abbrev pub finish_page :
      Text
      → Bool
      → ℕ
      → Dict Text (FeedSession C)
      → Result (Unit {0}) × FeedSession C
      → Result (Page C) × Dict Text (FeedSession C)
  finish_page id reset size d (err x, s) = (err x, put id s d)
  finish_page id reset size d (ok u, s) =
      let (rows, s') = serve_rows lab.limits size q.now s in
      (ok (page_result id reset lab.lab_version rows s'), put id s' d)

  unfoldable pub serve_session :
      Text
      → Bool
      → ℕ
      → Dict Text (FeedSession C)
      → FeedSession C
      → Result (Page C) × Dict Text (FeedSession C)
  serve_session id reset size d s =
      finish_page id reset size d
        (fill_queue rank lab.show id (larger size lab.feed_window) size (length s.items) s)

  unfoldable pub start_session :
      Bool → ℕ → Dict Text (FeedSession C) → Result (Page C) × Dict Text (FeedSession C)
  start_session reset size d =
      serve_session q.fresh_id reset size d
        (new_session q.user (pool_of lab q.user) q.now lab.lab_version)

  abbrev pub continue_session :
      Text
      → ℕ
      → Dict Text (FeedSession C)
      → Result (FeedSession C)
      → Result (Page C) × Dict Text (FeedSession C)
  continue_session id size d (err x) = (err x, d)
  continue_session id size d (ok s) = serve_session id false size d s

  abbrev pub page_of_session :
      ℕ
      → Option (ℤ × ℤ)
      → Dict Text (FeedSession C)
      → Option Text
      → Option (FeedSession C)
      → Result (Page C) × Dict Text (FeedSession C)
  page_of_session size at d none found = start_session false size d
  page_of_session size at d (some id) none =
      (err (value_error "unknown or expired feed session"), d)
  page_of_session size at d (some id) (some s) = continue_session id size d (follow_cursor at s)

  abbrev pub page_of_found :
      ℕ
      → Option Text
      → Option (ℤ × ℤ)
      → Dict Text (FeedSession C)
      → Result (Option (FeedSession C))
      → Result (Page C) × Dict Text (FeedSession C)
  page_of_found size id at d (err x) = (err x, d)
  page_of_found size id at d (ok found) =
      if needs_reset lab.lab_version at found
      then start_session true size d
      else page_of_session size at d id found

  abbrev pub page_of_target :
      Dict Text (FeedSession C)
      → Result ℕ
      → Result (Option Text × Option (ℤ × ℤ))
      → Result (Page C) × Dict Text (FeedSession C)
  page_of_target d (err x) target = (err x, d)
  page_of_target d (ok size) (err x) = (err x, d)
  page_of_target d (ok size) (ok (id, at)) =
      let pruned = prune_sessions q.now d in
      page_of_found size id at pruned (session_for_user id q.user pruned)

  unfoldable pub feed_page : Dict Text (FeedSession C) → Result (Page C) × Dict Text (FeedSession C)
  feed_page d =
      if not (elem q.user lab.users)
      then (err (value_error "unknown user"), d)
      else page_of_target d (page_size_of lab.top_k q.limit)
          (resolve_cursor q.cursor_given q.session)
