-- ===== src/Gateway/Admission.antt =====
-- The admission of requests: no more than the threads and the queue hold, and refusals only then.
use symbolic_recommendation.Prelude.{
  ℕ, ◌+◌, ◌≤◌, ◌≡◌, refl, false, List, [], ◌∷◌, arith, nat_eq, if◌then◌else◌,
}
use symbolic_recommendation.Gateway.{Admissions, new_admissions, process_request, finish_request}

-- What happens to the server: a request arrives, or one that was admitted ends.
pub data Event : Type 0 where
  arrives : Event
  ends : Event

-- A request can only end that was admitted.
abbrev pub happen : Admissions → Event → Admissions
happen a arrives = (process_request a).0
happen a ends = if nat_eq a.admitted 0 then a else finish_request a

abbrev pub run_events : Admissions → List Event → Admissions
run_events a [] = a
run_events a (e ∷ es) = run_events (happen a e) es

happen-total :
    (a : Admissions) (e : Event) → (happen a e).free + (happen a e).admitted ≡ a.free + a.admitted
unfolding process_request finish_request
happen-total a arrives = ground arith
happen-total a ends = ground arith

run_events-total :
    (a : Admissions) (es : List Event)
    → (run_events a es).free + (run_events a es).admitted ≡ a.free + a.admitted
run_events-total a [] = refl
run_events-total a (e ∷ es) = ground (arith, happen-total a e, run_events-total (happen a e) es)

refused_is_full : (a : Admissions) → (process_request a).1 ≡ false → a.free ≡ 0
unfolding process_request
refused_is_full a h = ground arith

-- After any sequence of arrivals and ends at a new server, at most as many requests are in progress
-- as there are threads and places in the queue, and a request that is refused then finds exactly
-- that many.
pub admission_bound :
    (threads queue : ℕ) (es : List Event)
    → ((run_events (new_admissions threads queue) es).admitted ≤ threads + queue)
      × ((process_request (run_events (new_admissions threads queue) es)).1 ≡ false
          → (run_events (new_admissions threads queue) es).admitted ≡ threads + queue)
unfolding new_admissions
admission_bound threads queue es =
    let a = run_events (new_admissions threads queue) es in
    let total = run_events-total (new_admissions threads queue) es in
    (omega arith, λ refused. let full = refused_is_full a refused in omega arith)
