-- ===== src/AsyncMining.antt =====
-- app/async_mining.py: at most one background model build, with coalesced triggers.
-- The worker thread is a place in the text of `_run` with the locals that live there; a step is
-- the stretch to the next lock or call. The callers' functions answer by an `Answer`.
pub mod Invariant
pub mod Epochs
pub mod Closing
pub mod Stuck
mod Tests
use symbolic_recommendation.Prelude.{
  ℕ, zero, suc, ◌+◌, ◌-◌, String, ◌≡◌, Bool, true, false, not, ◌&&◌, ◌||◌, Option, none, some, List,
  [], ◌∷◌, ltb, nat_eq, is_some, if◌then◌else◌, Scalar, bool_value, int_value,
}

pub record Snapshot (P : Type 0) : Type 0 where
  pub event_sequence : ℕ
  pub base_version : ℕ
  pub payload : P

-- The mapping that `promote` returns.
pub record Outcome : Type 0 where
  pub promoted : Bool
  pub version : Scalar

-- How an attempt ended.
pub data Ending (P : Type 0) : Type 0 where
  failed : String → Ending P
  promoted : Snapshot P → Scalar → Ending P
  discarded : Ending P

-- Where the worker thread is. The number is `attempt_epoch`.
pub data Place (P B : Type 0) : Type 0 where
  off : Place P B
  -- an exception left `_run`
  dead : Place P B
  beginning : Place P B
  capturing : ℕ → Place P B
  starting : ℕ → Snapshot P → Place P B
  building : ℕ → Snapshot P → Place P B
  checking : ℕ → Snapshot P → Option B → Place P B
  promoting : ℕ → Snapshot P → Option B → Place P B
  disposing : ℕ → Snapshot P → Option B → Place P B
  cleaning : ℕ → B → String → Place P B
  finishing : ℕ → Ending P → Place P B
  -- `_stable_retrigger_decision`: before its first lock, in the callback, before its second lock
  deciding : ℕ → Bool → Place P B
  asking : ℕ → Bool → ℕ → Place P B
  confirming : ℕ → Bool → ℕ → Bool → Place P B
  -- with the decision and the epoch that it observed
  decided : ℕ → Bool → Bool → ℕ → Place P B

-- What the clock or a caller's function gives the worker at its place.
pub data Answer (P B T : Type 0) : Type 0 where
  proceed : Answer P B T
  time : T → Answer P B T
  time_and_duration : T → T → Answer P B T
  snapshot : Snapshot P → Answer P B T
  model : Option B → Answer P B T
  outcome : Outcome → Answer P B T
  needed : Bool → Answer P B T
  raised : String → Answer P B T

pub record Coordinator (P B T : Type 0) : Type 0 where
  pub place : Place P B
  pub closed : Bool
  pub running : Bool
  pub request_epoch : ℕ
  pub attempts : ℕ
  pub successes : ℕ
  pub failures : ℕ
  pub stale_discards : ℕ
  pub retriggers : ℕ
  pub active_event_sequence : Option ℕ
  pub last_completed_event_sequence : Option ℕ
  pub last_promoted_version : Option Scalar
  pub last_started_at : Option T
  pub last_completed_at : Option T
  pub last_duration_seconds : Option T
  pub last_error : Option String

-- text[:n]
unfoldable pub text_take : ℕ → String → String
text_take zero s = ""
text_take (suc n) String.[] = ""
text_take (suc n) (String.◌∷◌ c s) = String.◌∷◌ c (text_take n s)

-- `_error_text`, from the class and the message.
unfoldable pub error_text : String → String
error_text text = text_take 2000 text

-- isinstance(version, int)
abbrev pub is_int : Scalar → Bool
is_int (bool_value _) = true
is_int (int_value _) = true
is_int _ = false

abbrev pub is_failed : {P : Type 0} → Ending P → Bool
is_failed (failed _) = true
is_failed _ = false

-- The except branch: a built value is disposed of, once more if that is what raised.
abbrev pub after_exception : {P B : Type 0} → ℕ → Option B → String → Place P B
after_exception epoch none text = finishing epoch (failed (error_text text))
after_exception epoch (some b) text = cleaning epoch b text

module _ {P B T : Type 0} where
  abbrev pub new : Coordinator P B T
  new = record {
    place = off;
    closed = false;
    running = false;
    request_epoch = 0;
    attempts = 0;
    successes = 0;
    failures = 0;
    stale_discards = 0;
    retriggers = 0;
    active_event_sequence = none;
    last_completed_event_sequence = none;
    last_promoted_version = none;
    last_started_at = none;
    last_completed_at = none;
    last_duration_seconds = none;
    last_error = none;
  }

  unfoldable pub schedule : Coordinator P B T → Coordinator P B T × Bool
  schedule s =
      let asked = record s { request_epoch = s.request_epoch + 1 } in
      if s.closed
      then (s, false)
      else if s.running
      then (asked, false)
      else (record asked { running = true; last_error = none; place = beginning }, true)

  -- `close(wait=False)`; with `wait=True` a caller then waits as `wait_for` says.
  unfoldable pub close : Coordinator P B T → Coordinator P B T × Bool
  close s = (record s { closed = true }, not s.running)

  -- The block that publishes how an attempt ended.
  abbrev pub publish : Ending P → Coordinator P B T → Coordinator P B T
  publish (failed text) s = record s { failures = s.failures + 1; last_error = some text }
  publish (promoted snap version) s = record s {
    successes = s.successes + 1;
    last_error = none;
    last_completed_event_sequence = some snap.event_sequence;
    last_promoted_version = if is_int version then some version else s.last_promoted_version;
  }
  publish discarded s = record s { stale_discards = s.stale_discards + 1; last_error = none }

  abbrev pub stop : Coordinator P B T → Coordinator P B T
  stop s = record s { running = false; place = off }

  abbrev pub go : Place P B → Coordinator P B T → Coordinator P B T
  go p s = record s { place = p }

  -- One step of `_run`. `none` where the answer is not one that the place waits for.
  unfoldable pub dispatch :
      Place P B → Answer P B T → Coordinator P B T → Option (Coordinator P B T)
  dispatch beginning (time now) s = some (record s {
    attempts = s.attempts + 1;
    last_started_at = some now;
    active_event_sequence = none;
    place = capturing s.request_epoch;
  })
  dispatch (capturing e) (snapshot snap) s = some (go (starting e snap) s)
  dispatch (capturing e) (raised text) s = some (go (after_exception e none text) s)
  dispatch (starting e snap) proceed s =
      some (record s { active_event_sequence = some snap.event_sequence; place = building e snap })
  dispatch (building e snap) (model b) s = some (go (checking e snap b) s)
  dispatch (building e snap) (raised text) s = some (go (after_exception e none text) s)
  dispatch (checking e snap b) proceed s =
      some (go (if s.closed then disposing e snap b else promoting e snap b) s)
  dispatch (promoting e snap b) (outcome o) s =
      some (go (if o.promoted then finishing e (promoted snap o.version) else disposing e snap b) s)
  dispatch (promoting e snap b) (raised text) s = some (go (after_exception e b text) s)
  dispatch (disposing e snap b) proceed s = some (go (finishing e discarded) s)
  dispatch (disposing e snap b) (raised text) s = some (go (after_exception e b text) s)
  dispatch (cleaning e b text) proceed s = some (go (finishing e (failed (error_text text))) s)
  dispatch (cleaning e b text) (raised _) s = some (go (finishing e (failed (error_text text))) s)
  dispatch (finishing e ending) (time_and_duration now duration) s =
      let s' = publish ending s in
      some (record s' {
        last_completed_at = some now;
        last_duration_seconds = some duration;
        active_event_sequence = none;
        place = deciding e (is_failed ending);
      })
  dispatch (deciding e bad) proceed s = some (
      go (if s.closed then decided e bad false s.request_epoch else asking e bad s.request_epoch) s)
  dispatch (asking e bad observed) (needed b) s = some (go (confirming e bad observed b) s)
  dispatch (asking e bad observed) (raised _) s = some (go dead s)
  dispatch (confirming e bad observed b) proceed s = some (
      go
        (if s.closed
          then decided e bad false s.request_epoch
          else if nat_eq observed s.request_epoch
          then decided e bad (b && (not bad || ltb e observed)) observed
          else deciding e bad)
        s)
  dispatch (decided e bad retry epoch) proceed s = some (
      if s.closed
      then stop s
      else if nat_eq epoch s.request_epoch
      then (if retry then record s { retriggers = s.retriggers + 1; place = beginning } else stop s)
      else go (deciding e bad) s)
  dispatch _ _ s = none

  unfoldable pub worker_step : Answer P B T → Coordinator P B T → Option (Coordinator P B T)
  unfolding dispatch
  worker_step a s = dispatch s.place a s

  -- The worker, the threads that schedule, and the one that closes, in any order.
  pub data Step (s : Coordinator P B T) : Coordinator P B T → Type 0 where
    schedules : Step s (schedule s).0
    closes : Step s (close s).0
    works : (a : Answer P B T) {t : Coordinator P B T} → worker_step a s ≡ some t → Step s t

  pub data Reach (s : Coordinator P B T) : Coordinator P B T → Type 0 where
    here : Reach s s
    next : {t u : Coordinator P B T} → Reach s t → Step t u → Reach s u

-- The loop of `wait`: what each look at the state finds, `running` and whether the deadline has
-- passed. `none` while the caller still waits.
unfoldable pub wait_for : List (Bool × Bool) → Option Bool
wait_for [] = none
wait_for ((running, expired) ∷ looks) =
    let rest = wait_for looks in
    if running then (if expired then some false else rest) else some true

pub data State : Type 0 where
  closed_state running_state failed_state idle_state : State

-- The field `state` of `status`.
unfoldable pub status_state : {P B T : Type 0} → Coordinator P B T → State
status_state s =
    if s.closed
    then closed_state
    else if s.running
    then running_state
    else if is_some s.last_error
    then failed_state
    else idle_state

-- What `status` returns.
pub record Status (T : Type 0) : Type 0 where
  pub state : State
  pub running : Bool
  pub attempts : ℕ
  pub successes : ℕ
  pub failures : ℕ
  pub stale_discards : ℕ
  pub retriggers : ℕ
  pub active_event_sequence : Option ℕ
  pub last_completed_event_sequence : Option ℕ
  pub last_promoted_version : Option Scalar
  pub last_started_at : Option T
  pub last_completed_at : Option T
  pub last_duration_seconds : Option T
  pub last_error : Option String

unfoldable pub status : {P B T : Type 0} → Coordinator P B T → Status T
status s = record {
  state = status_state s;
  running = s.running;
  attempts = s.attempts;
  successes = s.successes;
  failures = s.failures;
  stale_discards = s.stale_discards;
  retriggers = s.retriggers;
  active_event_sequence = s.active_event_sequence;
  last_completed_event_sequence = s.last_completed_event_sequence;
  last_promoted_version = s.last_promoted_version;
  last_started_at = s.last_started_at;
  last_completed_at = s.last_completed_at;
  last_duration_seconds = s.last_duration_seconds;
  last_error = s.last_error;
}
