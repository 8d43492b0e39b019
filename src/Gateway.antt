-- ===== src/Gateway.antt =====
-- app/production_pool.py: the routing state of the gateway, the admission of requests and the pool
-- of scorer processes. The digest of a user name, the process calls and the upstream's answer are
-- parameters.
pub mod Routes
pub mod Admission
mod Tests
use symbolic_recommendation.Prelude.{
  ℕ, zero, suc, ◌+◌, ◌-◌, ◌%◌, String, ◌≡◌, Bool, true, false, not, ◌&&◌, ◌||◌, Option, none, some,
  List, [], ◌∷◌, ◌++◌, map, leb, ltb, nat_eq, if◌then◌else◌, length, is_empty, all_true, get_elem?,
  ◌==◌, text_keys, Exn, Result, ok, err, ◌>>=◌, value_error, is_some,
}
use symbolic_recommendation.Prelude.Dict.{Dict, keys, get, put, remove, has}

abbrev pub session_route_limit : ℕ
session_route_limit = 100000

-- `digest` is the BLAKE2s digest of the text in UTF-8, read as a number; it raises where the text has
-- no UTF-8, as one with a lone surrogate.
unfoldable pub stable_shard : (String → Result ℕ) → String → ℕ → Result ℕ
stable_shard digest value zero = err (value_error "workers must be positive")
stable_shard digest value (suc n) = digest value >>= λ d. ok (d % suc n)

-- One item of a cookie: its key, and its value where it has one that `int` reads, negative numbers
-- being out of every range.
pub data CookieItem : Type 0 where
  no_value : String → CookieItem
  not_a_number : String → CookieItem
  number : String → ℕ → CookieItem
  negative : String → CookieItem

-- The loop over the items of the cookie.
unfoldable pub cookie_shard : List CookieItem → ℕ → Option ℕ
cookie_shard [] workers = none
cookie_shard (no_value key ∷ items) workers = cookie_shard items workers
cookie_shard (not_a_number key ∷ items) workers =
    let rest = cookie_shard items workers in if key == "recommendation_shard" then none else rest
cookie_shard (negative key ∷ items) workers =
    let rest = cookie_shard items workers in if key == "recommendation_shard" then none else rest
cookie_shard (number key shard ∷ items) workers =
    let rest = cookie_shard items workers in
    if key == "recommendation_shard" then (if ltb shard workers then some shard else none) else rest

-- A session's shard and the restarts of its worker when it was last remembered.
pub record Route : Type 0 where
  pub shard : ℕ
  pub generation : ℕ

-- The sessions stand from the one used longest ago to the latest; `restarts` are the workers'.
pub record GatewayState : Type 0 where
  pub restarts : List ℕ
  pub sessions : Dict String Route

abbrev pub or_zero : Option ℕ → ℕ
or_zero none = 0
or_zero (some n) = n

abbrev pub restarts_of : GatewayState → ℕ → ℕ
restarts_of g shard = or_zero (get_elem? g.restarts shard)

-- d.pop(key, None); d[key] = value, or move_to_end
unfoldable pub put_last : String → Route → Dict String Route → Dict String Route
put_last k v d = remove k d ++ (k, v) ∷ []

-- while len(sessions) > limit: popitem(last=False)
unfoldable pub evict : ℕ → ℕ → Dict String Route → Dict String Route
evict limit zero d = d
evict limit (suc n) [] = []
evict limit (suc n) (entry ∷ d) =
    let rest = evict limit n d in if ltb limit (length (entry ∷ d)) then rest else entry ∷ d

-- `limit` is SESSION_ROUTE_LIMIT. An unknown shard cannot be remembered: the index would raise.
unfoldable pub remember_session : ℕ → String → ℕ → GatewayState → GatewayState
remember_session limit session shard g =
    let placed =
      put_last session (record { shard = shard; generation = restarts_of g shard }) g.sessions in
    if session == "" then g else record g { sessions = evict limit (length placed) placed }

abbrev pub look_up : Option Route → String → GatewayState → (Option ℕ × Bool) × GatewayState
look_up none session g = ((none, false), g)
look_up (some route) session g =
    if nat_eq (restarts_of g route.shard) route.generation
    then ((some route.shard, false), record g { sessions = put_last session route g.sessions })
    else ((some route.shard, true), record g { sessions = remove session g.sessions })

-- The shard of a session and whether its route is stale.
unfoldable pub session_shard : String → GatewayState → (Option ℕ × Bool) × GatewayState
session_shard session g =
    if session == "" then ((none, false), g) else look_up (get session g.sessions) session g

-- What `_route` reads from a request: the session of the body, of the query or of the cursor, the
-- cookie, and the user. An absent one is the empty text.
pub record RouteRequest : Type 0 where
  pub body_session : String
  pub query_session : String
  pub cursor_session : String
  pub cookie : List CookieItem
  pub body_user : String
  pub query_user : String
  pub header_user : String

-- a or b
abbrev pub or_text : String → String → String
or_text a b = if a == "" then b else a

abbrev pub session_of : RouteRequest → String
session_of r = or_text (or_text r.body_session r.query_session) r.cursor_session

abbrev pub user_of : RouteRequest → String
user_of r = or_text (or_text r.body_user r.query_user) r.header_user

-- The shard, whether to set the cookie, and whether the session is stale.
pub record Routing : Type 0 where
  pub target : ℕ
  pub set_cookie : Bool
  pub stale : Bool

abbrev pub by_user : (String → Result ℕ) → RouteRequest → ℕ → Bool → Result Routing
by_user digest r workers stale =
    if user_of r == ""
    then ok (record { target = 0; set_cookie = true; stale = stale })
    else elim (stable_shard digest (user_of r) workers) [
      | err e ↦ err e
      | ok shard ↦ ok (record { target = shard; set_cookie = true; stale = stale })
    ]

abbrev pub by_cookie : (String → Result ℕ) → RouteRequest → ℕ → Bool → Option ℕ → Result Routing
by_cookie digest r workers stale (some shard) =
    ok (record { target = shard; set_cookie = false; stale = stale })
by_cookie digest r workers stale none = by_user digest r workers stale

abbrev pub by_session :
    (String → Result ℕ)
    → RouteRequest
    → (Option ℕ × Bool) × GatewayState
    → Result Routing × GatewayState
by_session digest r ((some shard, stale), g) =
    (ok (record { target = shard; set_cookie = false; stale = stale }), g)
by_session digest r ((none, stale), g) =
    (by_cookie digest r (length g.restarts) stale (cookie_shard r.cookie (length g.restarts)), g)

unfoldable pub route :
    (String → Result ℕ) → RouteRequest → GatewayState → Result Routing × GatewayState
route digest r g = by_session digest r (session_shard (session_of r) g)

-- `capacity` and the requests in progress, as `process_request` and `_bounded_request` change them.
pub record Admissions : Type 0 where
  pub free : ℕ
  pub admitted : ℕ
  pub refused : ℕ

unfoldable pub new_admissions : ℕ → ℕ → Admissions
new_admissions threads queue = record { free = threads + queue; admitted = 0; refused = 0 }

-- `acquire(blocking=False)`, then submit, or answer 503.
unfoldable pub process_request : Admissions → Admissions × Bool
process_request a =
    if nat_eq a.free 0
    then (record a { refused = a.refused + 1 }, false)
    else (record a { free = a.free - 1; admitted = a.admitted + 1 }, true)

-- The end of a submitted request, however it ends: the slot is released.
unfoldable pub finish_request : Admissions → Admissions
finish_request a = record a { free = a.free + 1; admitted = a.admitted - 1 }
