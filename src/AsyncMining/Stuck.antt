-- ===== src/AsyncMining/Stuck.antt =====
-- `should_retrigger` is called outside every `try`: an exception that it raises ends the thread and
-- leaves `running` set.
use symbolic_recommendation.Prelude.{ℕ, ◌≡◌, ap, ◌∙◌, subst, Bool, true, false, String, some, arith}
use symbolic_recommendation.AsyncMining.{
  Place, Answer, Coordinator, dead, asking, raised, new, schedule, close, worker_step, dispatch,
  Step, Reach, schedules, closes, works, here, next,
}
use symbolic_recommendation.AsyncMining.Invariant.{not_stopped, reachable-Inv}

module _ {P B T : Type 0} where
  dead-dispatch :
      (p : Place P B) (a : Answer P B T) (s : Coordinator P B T) {t : Coordinator P B T}
      → p ≡ dead
      → dispatch p a s ≡ some t
      → ⊥
  unfolding dispatch
  dead-dispatch dead a s e d = ground arith
  dead-dispatch _ a s e d = cc

  schedule-running :
      (s : Coordinator P B T)
      → s.running ≡ true
      → ((schedule s).1 ≡ false)
        × ((schedule s).0.running ≡ true)
        × ((schedule s).0.place ≡ s.place)
  unfolding schedule
  schedule-running s run = ground arith

  Step-dead :
      {s t : Coordinator P B T}
      → s.running ≡ true
      → s.place ≡ dead
      → Step s t
      → (t.place ≡ dead) × (t.running ≡ true)
  unfolding close worker_step
  Step-dead {s} run e schedules = let (_, run', same) = schedule-running s run in (same ∙ e, run')
  Step-dead {s} run e closes = (e, run)
  Step-dead {s} run e (works a d) = absurd (dead-dispatch s.place a s e d)

  Reach-dead :
      {s t : Coordinator P B T}
      → s.running ≡ true
      → s.place ≡ dead
      → Reach s t
      → (t.place ≡ dead) × (t.running ≡ true)
  Reach-dead run e here = (e, run)
  Reach-dead run e (next path step) =
      let (e', run') = Reach-dead run e path in Step-dead run' e' step

  worker_step-dispatch :
      (a : Answer P B T) (s t : Coordinator P B T)
      → worker_step a s ≡ some t
      → dispatch s.place a s ≡ some t
  unfolding worker_step
  worker_step-dispatch a s t d = d

  asking-raised :
      (epoch observed : ℕ) (bad : Bool) (text : String) (s : Coordinator P B T)
      {t : Coordinator P B T}
      → s.running ≡ true
      → dispatch (asking epoch bad observed) (raised text) s ≡ some t
      → (t.place ≡ dead) × (t.running ≡ true)
  unfolding dispatch
  asking-raised epoch observed bad text s run d = ground arith

  -- From a reachable state in which `should_retrigger` raises, whatever happens later, the
  -- coordinator stays marked as running with no worker left to do anything, and every later
  -- `schedule` starts no worker.
  pub raising_callback_blocks :
      (s : Coordinator P B T)
      → Reach new s
      → (epoch : ℕ) (bad : Bool) (observed : ℕ) → s.place ≡ asking epoch bad observed
      → (text : String) (t u : Coordinator P B T) → worker_step (raised text) s ≡ some t
      → Reach t u
      → (u.place ≡ dead) × (u.running ≡ true) × ((schedule u).1 ≡ false)
  raising_callback_blocks s r epoch bad observed e text t u d path =
      let busy : s.running ≡ true = (reachable-Inv s r).single_flight ∙ ap not_stopped e in
      let (at_dead, run) = asking-raised epoch observed bad text s busy (
        subst (λ p. dispatch p (raised text) s ≡ some t) e
          (worker_step-dispatch (raised text) s t d)) in
      let (still, run') = Reach-dead run at_dead path in (still, run', (schedule-running u run').0)
