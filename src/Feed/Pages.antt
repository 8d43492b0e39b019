-- ===== src/Feed/Pages.antt =====
-- What `feed_page` reads of a request, the pool of a new session, and the sessions that are kept
-- (`_prune_feed_sessions`, `_feed_session_for_user`). A time is a number of seconds.
use symbolic_recommendation.Prelude.{
  ℕ, ◌-◌, Bool, false, not, ◌&&◌, ◌||◌, Option, none, some, List, [], ◌∷◌, ◌++◌, ltb, leb, nat_eq,
  if◌then◌else◌, length, is_empty, keep_if, take, sort_by, elem, ◌==◌, code_keys, place_keys, ℤ,
  pos, negsuc, Result, ok, err, value_error,
}
use symbolic_recommendation.Prelude.Dict.{Dict, keys, get, remove}
use symbolic_recommendation.Metta.{Text}
use symbolic_recommendation.Feed.{Row, FeedSession, DeliveryLimits}

-- `rsplit(":", 2)` and `int` of a cursor, where it is given.
pub data Cursor : Type 0 where
  no_cursor malformed : Cursor
  cursor : Text → ℤ → ℤ → Cursor

pub record PageRequest : Type 0 where
  pub user : Text
  pub cursor_given : Cursor
  pub session : Option Text
  pub limit : Option ℤ
  pub now : ℕ
  -- `uuid.uuid4().hex`
  pub fresh_id : Text

pub record Page (C : Type 0) : Type 0 where
  pub feed : List (Row C)
  pub page_session : Text
  pub next_cursor : Option Cursor
  pub has_more : Bool
  pub page_position : ℕ
  -- The position is the number of rows shown, so this does not stop at 0 too early.
  pub remaining : ℕ
  pub total_candidates : ℕ
  pub rule_version : ℕ
  pub reset : Bool
  pub page_revision : ℕ

-- What the lab gives: its users, configuration and version, its articles, and for a user the
-- candidates of the cases, what the user has seen, and the shuffle that is seeded for the user.
pub record FeedLab : Type 0 where
  pub users : List Text
  pub top_k : ℕ
  pub feed_window : ℕ
  pub lab_version : ℕ
  pub articles : List Text
  pub candidates_of : Text → List Text
  pub seen_of : Text → List Text
  pub shuffle : Text → List Text → List Text
  pub limits : DeliveryLimits
  pub show : ℕ → Text

-- The candidates of the cases that the user has not seen, each once.
unfoldable pub pool_candidates : List Text → List Text → List Text → List Text
pool_candidates previously_seen seen [] = []
pool_candidates previously_seen seen (aid ∷ aids) =
    let rest = pool_candidates previously_seen seen aids in
    let new = aid ∷ pool_candidates previously_seen (aid ∷ seen) aids in
    if elem aid seen || elem aid previously_seen then rest else new

-- `_feed_pool`, from the candidates of the user's cases, what the user has seen, and the corpus.
-- `shuffle` is `random.Random(seed).shuffle`.
unfoldable pub feed_pool : (List Text → List Text) → List Text → List Text → List Text → List Text
feed_pool shuffle candidates previously_seen articles =
    let pool = pool_candidates previously_seen [] candidates in
    pool
    ++ shuffle (keep_if (λ aid. not (elem aid pool) && not (elem aid previously_seen)) articles)

abbrev pub pool_of : FeedLab → Text → List Text
pool_of lab user =
    feed_pool (lab.shuffle user) (lab.candidates_of user) (lab.seen_of user) lab.articles

abbrev pub int_is : ℤ → ℕ → Bool
int_is (pos m) n = nat_eq m n
int_is (negsuc m) n = false

abbrev pub size_in_range : ℕ → Result ℕ
size_in_range n =
    if ltb n 1 || ltb 1000 n
    then err (value_error "feed limit must be between 1 and 1000")
    else ok n

unfoldable pub page_size_of : ℕ → Option ℤ → Result ℕ
page_size_of top_k none = size_in_range top_k
page_size_of top_k (some (pos n)) = size_in_range n
page_size_of top_k (some (negsuc n)) = err (value_error "feed limit must be between 1 and 1000")

-- if session and session != cursor_session
abbrev pub is_other : Option Text → Text → Bool
is_other none cursor_session = false
is_other (some session) cursor_session = not (is_empty session) && not (session == cursor_session)

unfoldable pub resolve_cursor : Cursor → Option Text → Result (Option Text × Option (ℤ × ℤ))
resolve_cursor no_cursor session = ok (session, none)
resolve_cursor malformed session = err (value_error "invalid feed cursor")
resolve_cursor (cursor cursor_session position revision) session =
    if is_other session cursor_session
    then err (value_error "feed cursor does not match session")
    else ok (some cursor_session, some (position, revision))

module _ {C : Type 0} where
  unfoldable pub remove_all : List Text → Dict Text (FeedSession C) → Dict Text (FeedSession C)
  remove_all [] d = d
  remove_all (k ∷ ks) d = remove_all ks (remove k d)

  abbrev pub last_access_of : Option (FeedSession C) → ℕ
  last_access_of none = 0
  last_access_of (some s) = s.last_access

  abbrev pub is_expired : ℕ → Dict Text (FeedSession C) → Text → Bool
  is_expired now d id = ltb 3600 (now - last_access_of (get id d))

  abbrev pub oldest_first : Dict Text (FeedSession C) → List Text
  oldest_first d =
      sort_by (λ a b. leb (last_access_of (get a d)) (last_access_of (get b d))) (keys d)

  unfoldable pub prune_sessions : ℕ → Dict Text (FeedSession C) → Dict Text (FeedSession C)
  prune_sessions now d =
      let kept = remove_all (keep_if (is_expired now d) (keys d)) d in
      if ltb 128 (length kept)
      then remove_all (take (length kept - 128) (oldest_first kept)) kept
      else kept

  abbrev pub find_session : Option Text → Dict Text (FeedSession C) → Option (FeedSession C)
  find_session none d = none
  find_session (some id) d = if is_empty id then none else get id d

  abbrev pub owned_by : Text → Option (FeedSession C) → Result (Option (FeedSession C))
  owned_by user none = ok none
  owned_by user (some s) =
      if not (s.user == user)
      then err (value_error "feed session belongs to another user")
      else ok (some s)

  unfoldable pub session_for_user :
      Option Text → Text → Dict Text (FeedSession C) → Result (Option (FeedSession C))
  session_for_user id user d = owned_by user (find_session id d)

  unfoldable pub new_session : Text → List Text → ℕ → ℕ → FeedSession C
  new_session user pool now version = record {
    user = user;
    items = pool;
    source_position = 0;
    queue = [];
    position = 0;
    last_access = now;
    version = version;
    feedback_contexts = [];
    feedback_positions = [];
    deliveries = [];
    queue_revision = 0;
  }
