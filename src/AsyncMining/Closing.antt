-- ===== src/AsyncMining/Closing.antt =====
-- Closing: it is permanent, starts no promotion and no attempt, and the worker then stops within
-- a fixed number of its steps.
use symbolic_recommendation.Prelude.{
  ℕ, suc, ◌+◌, ◌≤◌, ◌<◌, ◌≡◌, refl, ap, ◌≢◌, Bool, true, false, some, arith,
}
use symbolic_recommendation.AsyncMining.{
  Place, Answer, Coordinator, off, dead, beginning, capturing, starting, building, checking,
  promoting, disposing, cleaning, finishing, deciding, asking, confirming, decided, worker_step,
  dispatch,
}

module _ {P B : Type 0} where
  -- The worker's steps until it is off, when the coordinator is closed.
  abbrev pub rank : Place P B → ℕ
  rank off = 0
  rank dead = 0
  rank (decided _ _ _ _) = 1
  rank (confirming _ _ _ _) = 2
  rank (asking _ _ _) = 3
  rank (deciding _ _) = 4
  rank (finishing _ _) = 5
  rank (cleaning _ _ _) = 6
  rank (disposing _ _ _) = 7
  rank (promoting _ _ _) = 8
  rank (checking _ _ _) = 9
  rank (building _ _) = 10
  rank (starting _ _) = 11
  rank (capturing _) = 12
  rank beginning = 13

  abbrev pub is_promoting : Place P B → Bool
  is_promoting (promoting _ _ _) = true
  is_promoting _ = false

  rank_bound : (p : Place P B) → rank p ≤ 13
  rank_bound off = omega arith
  rank_bound _ = omega arith

  rank-ne-beginning : (p q : Place P B) → rank q < rank p → q ≡ beginning → ⊥
  rank-ne-beginning p q less e = omega (arith, rank_bound p, ap rank e)

module _ {P B T : Type 0} where
  pub dispatch-closed :
      (p : Place P B) (a : Answer P B T) (s : Coordinator P B T) {t : Coordinator P B T}
      → s.place ≡ p
      → s.closed ≡ true
      → dispatch p a s ≡ some t
      → (t.closed ≡ true) × (rank t.place < rank p) × (is_promoting t.place ≡ false)
  unfolding dispatch
  dispatch-closed off a s e c d = ground arith
  dispatch-closed _ a s e c d = ground arith

  -- Steps of the worker alone.
  pub data Works (s : Coordinator P B T) : ℕ → Coordinator P B T → Type 0 where
    rest : Works s 0 s
    more :
        {n : ℕ} {t u : Coordinator P B T}
        → Works s n t
        → (a : Answer P B T) → worker_step a t ≡ some u
        → Works s (suc n) u

  Works-rank :
      {s : Coordinator P B T} {n : ℕ} {t : Coordinator P B T}
      → s.closed ≡ true
      → Works s n t
      → (n + rank t.place ≤ rank s.place) × (t.closed ≡ true)
  unfolding worker_step
  Works-rank c rest = (omega arith, c)
  Works-rank {s} c (more {n = n} {t = t} {u = u} w a d) =
      let (bound, c') = Works-rank c w in
      let (c'', less, _) = dispatch-closed t.place a t refl c' d in
      (omega (arith, bound, less), c'')

  -- Once closed, the worker makes at most thirteen more steps, whatever the answers that it gets.
  pub closed_worker_stops :
      (s : Coordinator P B T) (n : ℕ) (t : Coordinator P B T)
      → s.closed ≡ true
      → Works s n t
      → n ≤ 13
  closed_worker_stops s n t c w = omega (arith, (Works-rank c w).0, rank_bound s.place)

  -- Once closed, no step of the worker begins a promotion or an attempt, and none reopens the
  -- coordinator.
  pub closed_begins_nothing :
      (s : Coordinator P B T) (a : Answer P B T) (t : Coordinator P B T)
      → s.closed ≡ true
      → worker_step a s ≡ some t
      → (t.closed ≡ true) × (is_promoting t.place ≡ false) × (t.place ≢ beginning)
  unfolding worker_step
  closed_begins_nothing s a t c d =
      let (c', less, calm) = dispatch-closed s.place a s refl c d in
      (c', calm, λ e. absurd (rank-ne-beginning s.place t.place less e))
