-- ===== src/AsyncMining/Epochs.antt =====
-- Requests and epochs: no accepted request is forgotten, and a failed attempt is not retried by
-- itself.
use symbolic_recommendation.Prelude.{
  ℕ, suc, ◌≤◌, ◌<◌, ◌≡◌, refl, sym, ◌∙◌, subst, ◌⊎◌, inl, inr, Bool, true, false, some, arith,
  Bool-cases,
}
use symbolic_recommendation.AsyncMining.{
  Place, Answer, Coordinator, proceed, off, dead, beginning, deciding, asking, confirming, decided,
  new, schedule, close, worker_step, dispatch, Step, Reach, schedules, closes, works, here, next,
}
use native.Mathlib.Nat.{le_trans}
use symbolic_recommendation.AsyncMining.Invariant.{Inv, EpochsFit, not_stopped, reachable-Inv}
use symbolic_recommendation.AsyncMining.Closing.{dispatch-closed}

module _ {P B : Type 0} where
  -- The worker has not yet asked `should_retrigger` since the epoch became `r`, and is not off.
  abbrev Owed : ℕ → Place P B → Type 0
  Owed r off = ⊥
  Owed r (asking _ _ observed) = observed < r
  Owed r (confirming _ _ observed _) = observed < r
  Owed r (decided _ _ _ observed) = observed < r
  Owed r _ = Unit

Owed-request :
    {P B : Type 0} (p : Place P B) (now : ℕ)
    → not_stopped p ≡ true
    → EpochsFit p now
    → Owed (suc now) p
Owed-request off now o f = cc
Owed-request (asking e b k) now o f = omega arith
Owed-request (confirming e b k r) now o f = omega arith
Owed-request (decided e b r k) now o f = omega arith
Owed-request _ now o f = tt

module _ {P B T : Type 0} where
  -- The worker asks, having observed the epoch `r` or a later one.
  pub record Asks (r : ℕ) (s : Coordinator P B T) : Type 0 where
    pub attempt : ℕ
    pub bad : Bool
    pub observed : ℕ
    pub at_callback : s.place ≡ asking attempt bad observed
    pub fresh : r ≤ observed

  abbrev Progress : ℕ → Coordinator P B T → Type 0
  Progress r t = Owed r t.place ⊎ Asks r t ⊎ (t.closed ≡ true)

  dispatch-Progress :
      (r : ℕ) (p : Place P B) (a : Answer P B T) (s : Coordinator P B T) {t : Coordinator P B T}
      → s.place ≡ p
      → r ≤ s.request_epoch
      → Owed r p
      → dispatch p a s ≡ some t
      → Progress r t
  unfolding dispatch
  dispatch-Progress r off a s e h o d = absurd o
  dispatch-Progress r dead a s e h o d = ground arith
  dispatch-Progress r beginning a s e h o d = ground arith
  dispatch-Progress r (deciding n bad) proceed s e h o d = elim (Bool-cases s.closed) [
    | inl c ↦ inr (inr (ground arith))
    | inr c ↦ inr (
        inl (record {
          attempt = n;
          bad = bad;
          observed = s.request_epoch;
          at_callback = ground arith;
          fresh = h;
        }))
  ]
  dispatch-Progress r (deciding n bad) _ s e h o d = cc
  dispatch-Progress r _ a s e h o d = ground arith

  -- Epochs only grow.
  epoch-dispatch :
      (p : Place P B) (a : Answer P B T) (s : Coordinator P B T) {t : Coordinator P B T}
      → dispatch p a s ≡ some t
      → t.request_epoch ≡ s.request_epoch
  unfolding dispatch
  epoch-dispatch off a s d = ground arith
  epoch-dispatch _ a s d = ground arith

  Step-epoch : {s t : Coordinator P B T} → Step s t → s.request_epoch ≤ t.request_epoch
  unfolding schedule close worker_step
  Step-epoch {s} schedules = ground arith
  Step-epoch {s} closes = omega arith
  Step-epoch {s} (works a d) = omega (arith, epoch-dispatch s.place a s d)

  Step-Progress :
      (r : ℕ) {s t : Coordinator P B T}
      → r ≤ s.request_epoch
      → Owed r s.place
      → Step s t
      → Progress r t
  unfolding schedule close worker_step
  Step-Progress r {s} h o schedules = inl (ground arith)
  Step-Progress r {s} h o closes = inr (inr refl)
  Step-Progress r {s} h o (works a d) = dispatch-Progress r s.place a s refl h o d

  closed-Step : {s t : Coordinator P B T} → s.closed ≡ true → Step s t → t.closed ≡ true
  unfolding schedule close worker_step
  closed-Step {s} c schedules = ground arith
  closed-Step {s} c closes = refl
  closed-Step {s} c (works a d) = (dispatch-closed s.place a s refl c d).0

  -- On the way from `s` to `t` the worker asked, having observed the epoch `r`.
  pub record Consulted (r : ℕ) (s t : Coordinator P B T) : Type 0 where
    pub moment : Coordinator P B T
    pub before : Reach s moment
    pub asks : Asks r moment
    pub after : Reach moment t

  Reach-Progress :
      (r : ℕ) {s t : Coordinator P B T}
      → r ≤ s.request_epoch
      → Owed r s.place
      → Reach s t
      → (Owed r t.place × (r ≤ t.request_epoch)) ⊎ Consulted r s t ⊎ (t.closed ≡ true)
  Reach-Progress r h o here = inl (o, h)
  Reach-Progress r h o (next {t = t} {u = u} path step) = elim (Reach-Progress r h o path) [
    | inl (owed, reached) ↦ elim (Step-Progress r reached owed step) [
      | inl still ↦ inl (still, le_trans reached (Step-epoch step))
      | inr (inl asks) ↦
          inr (inl (record { moment = u; before = next path step; asks = asks; after = here }))
      | inr (inr c) ↦ inr (inr c)
    ]
    | inr (inl seen) ↦ inr (
        inl (record {
          moment = seen.moment;
          before = seen.before;
          asks = seen.asks;
          after = next seen.after step;
        }))
    | inr (inr c) ↦ inr (inr (closed-Step c step))
  ]

  schedule-Owed-place :
      (s : Coordinator P B T)
      → Inv s
      → s.closed ≡ false
      → Owed (suc s.request_epoch) (schedule s).0.place
  unfolding schedule
  schedule-Owed-place s i c = elim (Bool-cases s.running) [
    | inl run ↦
        rw (c, run) (Owed-request s.place s.request_epoch (sym i.single_flight ∙ run) i.epochs)
    | inr idle ↦ rw (c, idle) tt
  ]

  schedule-Owed :
      (s : Coordinator P B T)
      → Inv s
      → s.closed ≡ false
      → ((schedule s).0.request_epoch ≡ suc s.request_epoch)
        × Owed (suc s.request_epoch) (schedule s).0.place
  unfolding schedule
  schedule-Owed s i c = (ground arith, schedule-Owed-place s i c)

  -- No request is lost: after `schedule` was called on an open coordinator that is reachable, the
  -- worker is off again, with the coordinator still open, only after it has called
  -- `should_retrigger` with that request in view.
  pub request-Consulted :
      (s : Coordinator P B T)
      → Reach new s
      → s.closed ≡ false
      → (t : Coordinator P B T) → Reach (schedule s).0 t
      → t.place ≡ off
      → t.closed ≡ false
      → Consulted (suc s.request_epoch) (schedule s).0 t
  request-Consulted s r c t path e open_ =
      let (now, owed) = schedule-Owed s (reachable-Inv s r) c in
      elim (Reach-Progress (suc s.request_epoch) (omega (arith, now)) owed path) [
        | inl (still, _) ↦ absurd (subst (Owed (suc s.request_epoch)) e still)
        | inr (inl seen) ↦ seen
        | inr (inr closed_) ↦ cc
      ]

  retry-dispatch :
      (epoch observed : ℕ) (retry : Bool) (a : Answer P B T) (s : Coordinator P B T)
      {t : Coordinator P B T}
      → dispatch (decided epoch true retry observed) a s ≡ some t
      → t.place ≡ beginning
      → retry ≡ true
  unfolding dispatch
  retry-dispatch epoch observed retry a s d b = ground arith

  -- A failed attempt is not retried by itself: where the worker of a reachable state starts a new
  -- attempt after a failed one, a request newer than the failed attempt's has been made.
  pub failed_retry_is_requested :
      (s : Coordinator P B T)
      → Reach new s
      → (epoch : ℕ) (retry : Bool) (observed : ℕ) → s.place ≡ decided epoch true retry observed
      → (a : Answer P B T) (t : Coordinator P B T) → worker_step a s ≡ some t
      → t.place ≡ beginning
      → epoch < s.request_epoch
  unfolding worker_step
  failed_retry_is_requested s r epoch retry observed e a t d b =
      let fit : EpochsFit {P = P} {B = B} (decided epoch true retry observed) s.request_epoch =
        subst (λ (p : Place P B). EpochsFit p s.request_epoch) e (reachable-Inv s r).epochs in
      let yes_retry : retry ≡ true =
        retry-dispatch epoch observed retry a s (subst (λ p. dispatch p a s ≡ some t) e d) b in
      omega (arith, fit.2 refl yes_retry, fit.1)
