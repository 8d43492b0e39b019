-- ===== src/AsyncMining/Tests.antt =====
-- Runs of the coordinator, and the theorems at the states that they reach.
use symbolic_recommendation.Prelude.{
  ℕ, suc, ◌≤◌, ◌<◌, ◌≡◌, refl, true, false, Option, none, some, List, [], ◌∷◌, ◌++◌, int_value, pos,
}
use symbolic_recommendation.AsyncMining.{
  Answer, Coordinator, off, dead, beginning, asking, decided, proceed, time, time_and_duration,
  snapshot, model, outcome, needed, raised, new, schedule, close, text_take, worker_step, Reach,
  schedules, closes, works, here, next, failed_state, status_state,
}
use symbolic_recommendation.AsyncMining.Invariant.{Inv, reachable-Inv}
use symbolic_recommendation.AsyncMining.Epochs.{
  Consulted, request-Consulted, failed_retry_is_requested,
}
use symbolic_recommendation.AsyncMining.Closing.{rest, more, closed_worker_stops}
use symbolic_recommendation.AsyncMining.Stuck.{raising_callback_blocks}

abbrev Lab : Type 0
Lab = Coordinator ℕ ℕ ℕ

data Move : Type 0 where
  ask shut : Move
  answer : Answer ℕ ℕ ℕ → Move

-- An answer that the worker does not wait for changes nothing.
step_or_stay : Option Lab → Lab → Lab
step_or_stay none s = s
step_or_stay (some t) s = t

move : Move → Lab → Lab
unfolding step_or_stay
move ask s = (schedule s).0
move shut s = (close s).0
move (answer a) s = step_or_stay (worker_step a s) s

play : List Move → Lab → Lab
play [] s = s
play (m ∷ ms) s = play ms (move m s)

Reach-step_or_stay :
    (a : Answer ℕ ℕ ℕ) (s t : Lab) (o : Option Lab)
    → worker_step a t ≡ o
    → Reach s t
    → Reach s (step_or_stay o t)
unfolding step_or_stay
Reach-step_or_stay a s t none e r = r
Reach-step_or_stay a s t (some u) e r = next r (works a e)

Reach-move : (m : Move) (s t : Lab) → Reach s t → Reach s (move m t)
unfolding move
Reach-move ask s t r = next r schedules
Reach-move shut s t r = next r closes
Reach-move (answer a) s t r = Reach-step_or_stay a s t (worker_step a t) refl r

Reach-play : (ms : List Move) (s t : Lab) → Reach s t → Reach s (play ms t)
unfolding play
Reach-play [] s t r = r
Reach-play (m ∷ ms) s t r = Reach-play ms s (move m t) (Reach-move m s t r)

abbrev first_attempt : List Move
first_attempt =
    ask
    ∷ answer (time 10)
    ∷ answer (snapshot (record { event_sequence = 4; base_version = 1; payload = 0 }))
    ∷ answer proceed
    ∷ []

abbrev promoted_attempt : List Move
promoted_attempt =
    first_attempt
    ++ answer (model (some 5))
      ∷ answer proceed
      ∷ answer (outcome (record { promoted = true; version = int_value (pos 2) }))
      ∷ answer (time_and_duration 12 2)
      ∷ []

abbrev failed_attempt : List Move
failed_attempt =
    first_attempt ++ answer (raised "ValueError: no cases") ∷ answer (time_and_duration 12 2) ∷ []

abbrev to_idle : List Move
to_idle = answer proceed ∷ answer (needed false) ∷ answer proceed ∷ answer proceed ∷ []

promotes_and_stops :
    let s = play (promoted_attempt ++ to_idle) new in
    (s.successes ≡ 1) × (s.last_completed_event_sequence ≡ some 4) × (s.running ≡ false)
unfolding play move schedule worker_step
promotes_and_stops = (refl, refl, refl)

reports_failure : status_state (play (failed_attempt ++ to_idle) new) ≡ failed_state
unfolding play move schedule worker_step status_state text_take
reports_failure = refl

reachable-Inv_example : Inv (play promoted_attempt new)
reachable-Inv_example =
    reachable-Inv (play promoted_attempt new) (Reach-play promoted_attempt new new here)

-- A request arrives while the first attempt is built; the worker is off again later.
abbrev requested : Lab
requested = play first_attempt new

abbrev later : Lab
later =
    play
      (answer (model (some 5))
        ∷ answer proceed
        ∷ answer (outcome (record { promoted = true; version = int_value (pos 2) }))
        ∷ answer (time_and_duration 12 2)
        ∷ to_idle)
      (schedule requested).0

requested_open : requested.closed ≡ false
unfolding play move schedule worker_step
requested_open = refl

later_off : later.place ≡ off
unfolding play move schedule worker_step
later_off = refl

later_open : later.closed ≡ false
unfolding play move schedule worker_step
later_open = refl

request-Consulted_example : Consulted (suc requested.request_epoch) (schedule requested).0 later
request-Consulted_example =
    request-Consulted requested (Reach-play first_attempt new new here) requested_open later
      (Reach-play _ (schedule requested).0 (schedule requested).0 here) later_off later_open

abbrev retrying : List Move
retrying = failed_attempt ++ ask ∷ answer proceed ∷ answer (needed true) ∷ answer proceed ∷ []

retrying_decided : (play retrying new).place ≡ decided 1 true true 2
unfolding play move schedule worker_step
retrying_decided = refl

retry_step :
    worker_step proceed (play retrying new) ≡ some (play (retrying ++ answer proceed ∷ []) new)
unfolding play move schedule worker_step
retry_step = refl

retry_begins : (play (retrying ++ answer proceed ∷ []) new).place ≡ beginning
unfolding play move schedule worker_step
retry_begins = refl

failed_retry_is_requested_example : 1 < (play retrying new).request_epoch
failed_retry_is_requested_example =
    failed_retry_is_requested (play retrying new) (Reach-play retrying new new here) 1 true 2
      retrying_decided proceed (play (retrying ++ answer proceed ∷ []) new) retry_step retry_begins

-- Closed while the worker is about to ask whether to go on.
abbrev closing : Lab
closing = play (promoted_attempt ++ shut ∷ []) new

closing_closed : closing.closed ≡ true
unfolding play move schedule worker_step close
closing_closed = refl

closing_step : worker_step proceed closing ≡ some (move (answer proceed) closing)
unfolding play move schedule worker_step close
closing_step = refl

closed_worker_stops_example : 1 ≤ 13
closed_worker_stops_example =
    closed_worker_stops closing 1 (move (answer proceed) closing) closing_closed
      (more rest proceed closing_step)

abbrev asked : Lab
asked = play (promoted_attempt ++ answer proceed ∷ []) new

asked_place : asked.place ≡ asking 1 false 1
unfolding play move schedule worker_step
asked_place = refl

asked_raises :
    worker_step (raised "KeyError: events") asked
    ≡ some (move (answer (raised "KeyError: events")) asked)
unfolding play move schedule worker_step
asked_raises = refl

raising_callback_blocks_example :
    let u = (schedule (move (answer (raised "KeyError: events")) asked)).0 in
    (u.place ≡ dead) × (u.running ≡ true) × ((schedule u).1 ≡ false)
raising_callback_blocks_example =
    raising_callback_blocks asked
      (Reach-play (promoted_attempt ++ answer proceed ∷ []) new new here) 1 false 1 asked_place
      "KeyError: events" (move (answer (raised "KeyError: events")) asked)
      (schedule (move (answer (raised "KeyError: events")) asked)).0 asked_raises
      (next here schedules)
