-- ===== src/Gateway/Tests.antt =====
-- Runs of the routing and admission models, and the theorems at concrete inputs.
use symbolic_recommendation.Prelude.{◌≤◌, ◌≡◌, refl, false, some, [], ◌∷◌, arith, ok, length}
use symbolic_recommendation.Prelude.Dict.{get}
use symbolic_recommendation.Gateway.{
  GatewayState, RouteRequest, remember_session, session_shard, route, new_admissions,
  process_request, session_route_limit, number, no_value,
}
use symbolic_recommendation.Gateway.Routes.{
  session_shard-remember, remember_session-le, InRange, Routed, route-Routed, restart,
}
use symbolic_recommendation.Gateway.Admission.{admission_bound, run_events, arrives, ends}

abbrev fresh : GatewayState
fresh = record { restarts = 0 ∷ 0 ∷ []; sessions = [] }

-- Two sessions, on shards 1 and 0.
abbrev two_sessions : GatewayState
two_sessions = record {
  restarts = 0 ∷ 0 ∷ [];
  sessions =
      ("ann", record { shard = 1; generation = 0 })
      ∷ ("bob", record { shard = 0; generation = 0 })
      ∷ [];
}

abbrev restarted : GatewayState
restarted = restart 1 two_sessions

abbrev request : RouteRequest
request = record {
  body_session = "";
  query_session = "";
  cursor_session = "";
  cookie = no_value "theme" ∷ number "recommendation_shard" 1 ∷ [];
  body_user = "u";
  query_user = "";
  header_user = "";
}

session_shard-remember_example :
    (session_shard "cid" (remember_session session_route_limit "cid" 1 two_sessions)).0
    ≡ (some 1, false)
session_shard-remember_example =
    session_shard-remember session_route_limit "cid" 1 two_sessions (omega arith) refl

fresh-InRange : InRange fresh
unfolding get
fresh-InRange = record { some_worker = omega arith; in_range = λ s r h. cc }

route-Routed_example : Routed (ok 7) 2 (route (λ text. ok 7) request fresh).0
route-Routed_example = route-Routed (λ text. ok 7) request fresh fresh-InRange

admission_bound_example :
    ((run_events (new_admissions 1 1) (arrives ∷ arrives ∷ ends ∷ [])).admitted ≤ 2)
    × ((process_request (run_events (new_admissions 1 1) (arrives ∷ arrives ∷ ends ∷ []))).1 ≡ false
        → (run_events (new_admissions 1 1) (arrives ∷ arrives ∷ ends ∷ [])).admitted ≡ 2)
admission_bound_example = admission_bound 1 1 (arrives ∷ arrives ∷ ends ∷ [])

remember_session-le_example :
    length (remember_session session_route_limit "cid" 1 two_sessions).sessions
    ≤ session_route_limit
remember_session-le_example =
    remember_session-le session_route_limit "cid" 1 two_sessions (omega arith)
