-- ===== src/AsyncMining/Invariant.antt =====
-- What holds of the coordinator between any two steps: when `running` is set, every attempt counted
-- once, and the active sequence shown only while an attempt runs.
use symbolic_recommendation.Prelude.{
  ℕ, ◌+◌, ◌≤◌, ◌<◌, ◌≡◌, refl, Bool, true, false, Option, none, some, arith,
}
use symbolic_recommendation.AsyncMining.{
  Place, Answer, Coordinator, off, dead, beginning, capturing, starting, building, checking,
  promoting, disposing, cleaning, finishing, deciding, asking, confirming, decided, new, schedule,
  close, worker_step, dispatch, Step, Reach, schedules, closes, works, here, next,
}

module _ {P B : Type 0} where
  -- Has a worker been started that has not stopped by itself? One that an exception has ended counts.
  abbrev pub not_stopped : Place P B → Bool
  not_stopped off = false
  not_stopped _ = true

  -- The attempts that have begun and are not yet counted by their ending.
  abbrev pub in_flight : Place P B → ℕ
  in_flight off = 0
  in_flight dead = 0
  in_flight beginning = 0
  in_flight (deciding _ _) = 0
  in_flight (asking _ _ _) = 0
  in_flight (confirming _ _ _ _) = 0
  in_flight (decided _ _ _ _) = 0
  in_flight _ = 1

  -- The sequence number of the snapshot that is being built from.
  abbrev pub Shown : Place P B → Option ℕ → Type 0
  Shown (building _ snap) active = active ≡ some snap.event_sequence
  Shown (checking _ snap _) active = active ≡ some snap.event_sequence
  Shown (promoting _ snap _) active = active ≡ some snap.event_sequence
  Shown (disposing _ snap _) active = active ≡ some snap.event_sequence
  Shown (cleaning _ _ _) active = Unit
  Shown (finishing _ _) active = Unit
  Shown _ active = active ≡ none

  -- The epochs that a place holds are not ahead of the requests, and a failed attempt is retried
  -- only for a request newer than its own.
  abbrev pub EpochsFit : Place P B → ℕ → Type 0
  EpochsFit off now = Unit
  EpochsFit dead now = Unit
  EpochsFit beginning now = Unit
  EpochsFit (capturing e) now = e ≤ now
  EpochsFit (starting e _) now = e ≤ now
  EpochsFit (building e _) now = e ≤ now
  EpochsFit (checking e _ _) now = e ≤ now
  EpochsFit (promoting e _ _) now = e ≤ now
  EpochsFit (disposing e _ _) now = e ≤ now
  EpochsFit (cleaning e _ _) now = e ≤ now
  EpochsFit (finishing e _) now = e ≤ now
  EpochsFit (deciding e _) now = e ≤ now
  EpochsFit (asking e _ observed) now = (e ≤ observed) × (observed ≤ now)
  EpochsFit (confirming e _ observed _) now = (e ≤ observed) × (observed ≤ now)
  EpochsFit (decided e bad retry observed) now =
      (e ≤ observed) × (observed ≤ now) × (bad ≡ true → retry ≡ true → e < observed)

  EpochsFit-mono : (p : Place P B) (n m : ℕ) → n ≤ m → EpochsFit p n → EpochsFit p m
  EpochsFit-mono off n m h f = tt
  EpochsFit-mono dead n m h f = tt
  EpochsFit-mono beginning n m h f = tt
  EpochsFit-mono (asking e b o) n m h f = omega arith
  EpochsFit-mono (confirming e b o r) n m h f = omega arith
  EpochsFit-mono (decided e b r o) n m h f = (f.0, omega arith, f.2)
  EpochsFit-mono _ n m h f = omega arith

module _ {P B T : Type 0} where
  pub record Inv (s : Coordinator P B T) : Type 0 where
    pub single_flight : s.running ≡ not_stopped s.place
    pub accounted : s.attempts ≡ s.successes + s.failures + s.stale_discards + in_flight s.place
    pub sequence_shown : Shown s.place s.active_event_sequence
    pub epochs : EpochsFit s.place s.request_epoch

  new-Inv : Inv new
  new-Inv = record {
    single_flight = refl;
    accounted = omega arith;
    sequence_shown = refl;
    epochs = tt;
  }

  schedule-Inv : (s : Coordinator P B T) → Inv s → Inv (schedule s).0
  unfolding schedule
  schedule-Inv s i = ground (arith, EpochsFit-mono s.place s.request_epoch (s.request_epoch + 1))

  close-Inv : (s : Coordinator P B T) → Inv s → Inv (close s).0
  unfolding close
  close-Inv s i = record {
    single_flight = i.single_flight;
    accounted = i.accounted;
    sequence_shown = i.sequence_shown;
    epochs = i.epochs;
  }

  dispatch-Inv :
      (p : Place P B) (a : Answer P B T) (s : Coordinator P B T) {t : Coordinator P B T}
      → s.place ≡ p
      → Inv s
      → dispatch p a s ≡ some t
      → Inv t
  unfolding dispatch
  dispatch-Inv off a s e i h = ground arith
  dispatch-Inv _ a s e i h = ground arith

  worker_step-Inv :
      (a : Answer P B T) (s : Coordinator P B T) {t : Coordinator P B T}
      → Inv s
      → worker_step a s ≡ some t
      → Inv t
  unfolding worker_step
  worker_step-Inv a s i h = dispatch-Inv s.place a s refl i h

  pub Step-Inv : {s t : Coordinator P B T} → Inv s → Step s t → Inv t
  Step-Inv {s} i schedules = schedule-Inv s i
  Step-Inv {s} i closes = close-Inv s i
  Step-Inv {s} i (works a h) = worker_step-Inv a s i h

  pub Reach-Inv : {s t : Coordinator P B T} → Inv s → Reach s t → Inv t
  Reach-Inv i here = i
  Reach-Inv i (next r step) = Step-Inv (Reach-Inv i r) step

  -- In every state that can be reached from a new coordinator by any interleaving: `running` is clear
  -- exactly when no worker has been started or the last one has stopped by itself, so that it stays set
  -- where an exception has ended the worker; every attempt is counted once as a success, a failure, a
  -- discard or the one that has begun and not ended; the active sequence is the snapshot's while a
  -- result is built from it, checked, promoted or disposed of, and none where no snapshot is at work; and no epoch that the worker holds is ahead of the requests.
  pub reachable-Inv : (s : Coordinator P B T) → Reach new s → Inv s
  reachable-Inv s r = Reach-Inv new-Inv r
