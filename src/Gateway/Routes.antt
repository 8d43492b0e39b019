-- ===== src/Gateway/Routes.antt =====
-- Session routes: bounded in number, faithful to the last remembered shard until its worker
-- restarts, and always in range.
use symbolic_recommendation.Prelude.{
  ℕ, zero, suc, ◌≤◌, ◌<◌, String, ◌≡◌, refl, Bool, true, false, Option, none, some, List, [], ◌∷◌,
  ◌++◌, arith, nat_eq, length, ◌==◌, text_keys, Bool-cases, inl, inr, Result, ok, err,
}
use native.Mathlib.Nat.{mod-lt}
use symbolic_recommendation.Prelude.Dict.{Dict, get, remove, has, get-remove, elem-remove}
use symbolic_recommendation.Gateway.{
  Route, GatewayState, CookieItem, no_value, not_a_number, number, negative, RouteRequest, Routing,
  restarts_of, put_last, evict, remember_session, session_shard, session_of, user_of, cookie_shard,
  stable_shard, by_user, by_cookie, by_session, look_up, route,
}

evict-le : (limit n : ℕ) (d : Dict String Route) → length d ≤ n → length (evict limit n d) ≤ limit
unfolding evict
evict-le limit zero [] h = omega arith
evict-le limit zero (x ∷ d) h = absurd (omega arith)
evict-le limit (suc n) [] h = omega arith
evict-le limit (suc n) (x ∷ d) h = ground (arith, evict-le limit n d)

-- After a session was remembered there are at most as many routes as the limit, if there were not
-- more before.
pub remember_session-le :
    (limit : ℕ) (session : String) (shard : ℕ) (g : GatewayState)
    → length g.sessions ≤ limit
    → length (remember_session limit session shard g).sessions ≤ limit
unfolding remember_session
remember_session-le limit session shard g h =
    let placed =
      put_last session (record { shard = shard; generation = restarts_of g shard }) g.sessions in
    ground (arith, evict-le limit (length placed) placed)

get-append_last :
    (s : String) (v : Route) (d : Dict String Route)
    → has s d ≡ false
    → get s (d ++ (s, v) ∷ []) ≡ some v
unfolding get
get-append_last s v [] h = ground (arith, text_keys.beq_iff s s)
get-append_last s v ((k, w) ∷ d) h = ground (arith, get-append_last s v d)

get-evict_last :
    (limit n : ℕ) (s : String) (v : Route) (d : Dict String Route)
    → 0 < limit
    → has s d ≡ false
    → get s (evict limit n (d ++ (s, v) ∷ [])) ≡ some v
unfolding evict
get-evict_last limit zero s v d pos_ h = get-append_last s v d h
get-evict_last limit (suc n) s v [] pos_ h = ground (arith, get-append_last s v [] refl)
get-evict_last limit (suc n) s v ((k, w) ∷ d) pos_ h =
    ground (arith, get-evict_last limit n s v d, get-append_last s v ((k, w) ∷ d))

-- A remembered session goes to its shard, not stale, with any positive limit, however many routes
-- had to be forgotten.
pub session_shard-remember :
    (limit : ℕ) (session : String) (shard : ℕ) (g : GatewayState)
    → 0 < limit
    → (session == "") ≡ false
    → (session_shard session (remember_session limit session shard g)).0 ≡ (some shard, false)
unfolding session_shard remember_session put_last
session_shard-remember limit session shard g pos_ named =
    let v : Route = record { shard = shard; generation = restarts_of g shard } in
    let before = remove session g.sessions in
    let absent : has session before ≡ false =
      ground (arith, elem-remove session session g.sessions, text_keys.beq_iff session session) in
    let n = length (before ++ (session, v) ∷ []) in
    ground (arith, named, get-evict_last limit n session v before pos_ absent)

-- The worker of a shard restarts.
abbrev pub add_one : ℕ → List ℕ → List ℕ
add_one i [] = []
add_one zero (n ∷ ns) = suc n ∷ ns
add_one (suc i) (n ∷ ns) = n ∷ add_one i ns

abbrev pub restart : ℕ → GatewayState → GatewayState
restart shard g = record g { restarts = add_one shard g.restarts }

-- A route whose worker has restarted since is reported as stale once, with its shard, and is then
-- forgotten.
pub stale_once :
    (session : String) (g : GatewayState) (r : Route)
    → (session == "") ≡ false
    → get session g.sessions ≡ some r
    → nat_eq (restarts_of g r.shard) r.generation ≡ false
    → ((session_shard session g).0 ≡ (some r.shard, true))
      × ((session_shard session (session_shard session g).1).0 ≡ (none, false))
unfolding session_shard
stale_once session g r named found restarted =
    ground (arith, get-remove session session g.sessions, text_keys.beq_iff session session)

-- Every route is to a worker of the pool.
pub record InRange (g : GatewayState) : Type 0 where
  pub some_worker : 0 < length g.restarts
  pub in_range : (s : String) (r : Route) → get s g.sessions ≡ some r → r.shard < length g.restarts

cookie_shard-lt :
    (items : List CookieItem) (workers shard : ℕ)
    → cookie_shard items workers ≡ some shard
    → shard < workers
unfolding cookie_shard
cookie_shard-lt [] workers shard h = cc
cookie_shard-lt (no_value key ∷ items) workers shard h = cookie_shard-lt items workers shard h
cookie_shard-lt (not_a_number key ∷ items) workers shard h =
    ground (arith, cookie_shard-lt items workers shard)
cookie_shard-lt (negative key ∷ items) workers shard h =
    ground (arith, cookie_shard-lt items workers shard)
cookie_shard-lt (number key n ∷ items) workers shard h =
    ground (arith, cookie_shard-lt items workers shard)

-- What a routing promises, with the digest of the user.
abbrev pub Routed : Result ℕ → ℕ → Result Routing → Type 0
Routed digest workers (ok r) = r.target < workers
Routed digest workers (err e) = digest ≡ err e

by_named-Routed :
    (digest : String → Result ℕ) (r : RouteRequest) (n : ℕ) (stale : Bool) (d : Result ℕ)
    → 0 < suc n
    → (user_of r == "") ≡ false
    → digest (user_of r) ≡ d
    → Routed d (suc n) (by_user digest r (suc n) stale)
unfolding stable_shard
by_named-Routed digest r n stale (ok d) h named e = rw (named, e) (mod-lt d h)
by_named-Routed digest r n stale (err x) h named e = rw (named, e) refl

by_user-Routed :
    (digest : String → Result ℕ) (r : RouteRequest) (workers : ℕ) (stale : Bool)
    → 0 < workers
    → Routed (digest (user_of r)) workers (by_user digest r workers stale)
by_user-Routed digest r zero stale h = absurd (omega arith)
by_user-Routed digest r (suc n) stale h = elim (Bool-cases (user_of r == "")) [
  | inl anonymous ↦ rw anonymous (omega arith)
  | inr named ↦ by_named-Routed digest r n stale (digest (user_of r)) h named refl
]

by_cookie-Routed :
    (digest : String → Result ℕ) (r : RouteRequest) (workers : ℕ) (stale : Bool) (o : Option ℕ)
    → 0 < workers
    → cookie_shard r.cookie workers ≡ o
    → Routed (digest (user_of r)) workers (by_cookie digest r workers stale o)
by_cookie-Routed digest r workers stale none h e = by_user-Routed digest r workers stale h
by_cookie-Routed digest r workers stale (some shard) h e = cookie_shard-lt r.cookie workers shard e

look_up-Routed :
    (digest : String → Result ℕ) (r : RouteRequest) (g : GatewayState) (session : String)
    (o : Option Route)
    → InRange g
    → get session g.sessions ≡ o
    → Routed (digest (user_of r)) (length g.restarts) (by_session digest r (look_up o session g)).0
look_up-Routed digest r g session none good e =
    by_cookie-Routed digest r (length g.restarts) false (cookie_shard r.cookie (length g.restarts))
      good.some_worker refl
look_up-Routed digest r g session (some known) good e =
    elim (Bool-cases (nat_eq (restarts_of g known.shard) known.generation)) [
      | inl same ↦ rw same (good.in_range session known e)
      | inr restarted ↦ rw restarted (good.in_range session known e)
    ]

-- With a worker in the pool and every remembered shard one of the pool's, whatever a request's
-- session, cookie and user are: it is routed to a worker of the pool, or the routing raises exactly
-- what the digest of its user raises, which is where the user's text has no UTF-8.
pub route-Routed :
    (digest : String → Result ℕ) (r : RouteRequest) (g : GatewayState)
    → InRange g
    → Routed (digest (user_of r)) (length g.restarts) (route digest r g).0
unfolding route session_shard
route-Routed digest r g good = elim (Bool-cases (session_of r == "")) [
  | inl anonymous ↦ rw anonymous (
      by_cookie-Routed digest r (length g.restarts) false
        (cookie_shard r.cookie (length g.restarts)) good.some_worker refl)
  | inr named ↦
      rw named (look_up-Routed digest r g (session_of r) (get (session_of r) g.sessions) good refl)
]
