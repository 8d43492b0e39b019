-- ===== src/Reasoner/Recovery.antt =====
-- The worker's state is always the replay of the journal, and a missed deadline leaves no trace of
-- the command that missed it.
use symbolic_recommendation.Prelude.{
  ℕ, ◌+◌, ◌≤◌, String, ◌≡◌, refl, sym, ◌∙◌, ap, subst, Bool, true, false, Option, none, some, List,
  [], ◌∷◌, ◌++◌, arith, if◌then◌else◌, length, length-append, Result, ok, err, ◌>>=◌, timeout_error,
  ok-injective, >>=-eq-ok,
}
use symbolic_recommendation.Reasoner.{
  Mutation, Command, mutate, query_many, Engine, Delivery, answers, exits, misses_deadline,
  TimeoutArgument, JournalLimits, Chainer, journal_units, check_timeout, new_chainer,
  apply_mutation, serve, state_after, replay, boot_worker, received, launch, recovered, recover,
  replaced, replace, check_journal, answered, timed_out, exchange, when_checked, rpc_to, rpc,
  close_chainer,
}

-- A query leaves the runtime's atoms as they are, which the journal, having no queries, relies on.
abbrev pub QueriesKeep : {W A : Type 0} → Engine W A → Type 0
QueriesKeep {W} e =
    (w : W) (queries : List String) (steps : ℕ) → (e.run_queries w queries steps).1 ≡ w

abbrev pub total_units : List Mutation → ℕ
total_units [] = 0
total_units (m ∷ ms) = journal_units m + total_units ms

total_units-append :
    (ms : List Mutation) (m : Mutation)
    → total_units (ms ++ m ∷ []) ≡ total_units ms + journal_units m
total_units-append [] m = omega arith
total_units-append (x ∷ ms) m = let rest = total_units-append ms m in omega arith

some-injective : {B : Type 0} {a b : B} → some a ≡ some b → a ≡ b
some-injective h = cc

bind_ok : {W : Type 0} (r : Result W) → (r >>= λ w. ok w) ≡ r
bind_ok (ok w) = refl
bind_ok (err x) = refl

received-ok : {B : Type 0} (r : Result B) (b : B) → received r ≡ ok b → r ≡ ok b
received-ok (ok a) b h = h
received-ok (err x) b h = cc

module _ {W A : Type 0} (l : JournalLimits) (e : Engine W A) where
  -- A running worker holds what the snapshot and the acknowledged mutations make, and the journal is
  -- counted and within its limits.
  pub record InStep (s : Chainer W) : Type 0 where
    pub current :
        (w : W) → s.worker ≡ some w → boot_worker e s.bootstrap_statements s.mutation_journal ≡ ok w
    pub snapshot : (w : W) → s.worker ≡ some w → s.has_snapshot ≡ true
    pub counted : s.journal_statements ≡ total_units s.mutation_journal
    pub mutations_le : length s.mutation_journal ≤ l.max_journal_mutations
    pub statements_le : s.journal_statements ≤ l.max_journal_statements

  replay-append :
      (ms : List Mutation) (m : Mutation) (v w : W)
      → replay e ms v ≡ ok w
      → replay e (ms ++ m ∷ []) v ≡ state_after (apply_mutation e m w)
  unfolding replay
  replay-append [] m v w h =
      bind_ok (state_after (apply_mutation e m v))
      ∙ ap (λ u. state_after (apply_mutation e m u)) (ok-injective h)
  replay-append (x ∷ ms) m v w h =
      let (u, applied, rest) =
        >>=-eq-ok (state_after (apply_mutation e x v)) (λ u. replay e ms u) h in
      rw applied (replay-append ms m u w rest)

  boot_worker-append :
      (statements : List String) (ms : List Mutation) (m : Mutation) (w : W)
      → boot_worker e statements ms ≡ ok w
      → boot_worker e statements (ms ++ m ∷ []) ≡ state_after (apply_mutation e m w)
  unfolding boot_worker
  boot_worker-append statements ms m w h =
      let (v, started, rest) = >>=-eq-ok (e.compile_rules statements) (λ v. replay e ms v) h in
      rw started (replay-append ms m v w rest)

  launch-ok :
      (d : Delivery) (statements : List String) (ms : List Mutation) (w : W)
      → launch e d statements ms ≡ ok w
      → boot_worker e statements ms ≡ ok w
  unfolding launch
  launch-ok answers statements ms w h = received-ok (boot_worker e statements ms) w h
  launch-ok exits statements ms w h = cc
  launch-ok misses_deadline statements ms w h = cc

  retired-InStep : (s : Chainer W) → InStep s → InStep (record s { worker = none })
  retired-InStep s i = record {
    current = λ w h. cc;
    snapshot = λ w h. cc;
    counted = i.counted;
    mutations_le = i.mutations_le;
    statements_le = i.statements_le;
  }

  recovered-InStep :
      (s : Chainer W) (r : Result W)
      → InStep s
      → s.has_snapshot ≡ true
      → ((w : W) → r ≡ ok w → boot_worker e s.bootstrap_statements s.mutation_journal ≡ ok w)
      → InStep (recovered s r).1
  recovered-InStep s (err x) i known booted = i
  recovered-InStep s (ok v) i known booted = record {
    current = λ w h. booted w (ap ok (some-injective h));
    snapshot = λ w h. known;
    counted = i.counted;
    mutations_le = i.mutations_le;
    statements_le = i.statements_le;
  }

  if-InStep :
      {B : Type 0} (b : Bool) (x y : B × Chainer W)
      → (b ≡ true → InStep x.1)
      → InStep y.1
      → InStep (if b then x else y).1
  if-InStep true x y i j = i refl
  if-InStep false x y i j = j

  recover-InStep : (d : Delivery) (s : Chainer W) → InStep s → InStep (recover e d s).1
  unfolding recover
  recover-InStep d s i =
      if-InStep s.has_snapshot (recovered s (launch e d s.bootstrap_statements s.mutation_journal))
        (_, s)
        (λ known.
          recovered-InStep s (launch e d s.bootstrap_statements s.mutation_journal) i known
            (launch-ok d s.bootstrap_statements s.mutation_journal))
        i

  timed_out-InStep :
      (c : Command) (r : Result (Unit {0})) (s : Chainer W)
      → InStep s
      → InStep (timed_out {W = W} {A = A} c (r, s)).1
  timed_out-InStep c (ok u) s i = record {
    current = i.current;
    snapshot = i.snapshot;
    counted = i.counted;
    mutations_le = i.mutations_le;
    statements_le = i.statements_le;
  }
  timed_out-InStep c (err x) s i = record {
    current = i.current;
    snapshot = i.snapshot;
    counted = i.counted;
    mutations_le = i.mutations_le;
    statements_le = i.statements_le;
  }

  answered-InStep :
      QueriesKeep e
      → (c : Command) (s : Chainer W) (w : W) (r : Result A) (v : W) → InStep s
      → s.worker ≡ some w
      → check_journal l c s ≡ ok tt
      → serve e c w ≡ (r, v)
      → InStep (answered c s (r, v)).1
  unfolding check_journal
  answered-InStep keeps c s w (err x) v i running allowed served = retired-InStep s i
  answered-InStep keeps (query_many queries steps) s w (ok a) v i running allowed served = record {
    current = λ u h.
        i.current w running
        ∙ ap ok (sym (keeps w queries steps) ∙ ap (λ p. p.1) served ∙ some-injective h);
    snapshot = λ u h. i.snapshot w running;
    counted = i.counted;
    mutations_le = i.mutations_le;
    statements_le = i.statements_le;
  }
  answered-InStep keeps (mutate m) s w (ok a) v i running allowed served = record {
    current = λ u h.
        boot_worker-append s.bootstrap_statements s.mutation_journal m w (i.current w running)
        ∙ ap state_after served
        ∙ ap ok (some-injective h);
    snapshot = λ u h. i.snapshot w running;
    counted =
        ap (λ n. n + journal_units m) i.counted ∙ sym (total_units-append s.mutation_journal m);
    mutations_le = ground (arith, length-append s.mutation_journal (m ∷ []));
    statements_le = ground arith;
  }

  exchange-InStep :
      QueriesKeep e
      → (d again : Delivery) (c : Command) (s : Chainer W) (w : W) → InStep s
      → s.worker ≡ some w
      → check_journal l c s ≡ ok tt
      → InStep (exchange e d again c w s).1
  unfolding exchange
  exchange-InStep keeps answers again c s w i running allowed =
      answered-InStep keeps c s w (serve e c w).0 (serve e c w).1 i running allowed refl
  exchange-InStep keeps exits again c s w i running allowed = retired-InStep s i
  exchange-InStep keeps misses_deadline again c s w i running allowed =
      let s' = record s { worker = none } in
      timed_out-InStep c (recover e again s').0 (recover e again s').1
        (recover-InStep again s' (retired-InStep s i))

  checked-InStep :
      (r : Result (Unit {0})) (s : Chainer W) (run : Result A × Chainer W)
      → InStep s
      → (r ≡ ok tt → InStep run.1)
      → InStep (when_checked r s run).1
  checked-InStep (ok u) s run i j = j refl
  checked-InStep (err x) s run i j = i

  rpc_to-InStep :
      QueriesKeep e
      → (d again : Delivery) (c : Command) (t : TimeoutArgument) (o : Option W) (s : Chainer W)
      → InStep s
      → s.worker ≡ o
      → InStep (rpc_to l e d again c t o s).1
  rpc_to-InStep keeps d again c t none s i running = i
  rpc_to-InStep keeps d again c t (some w) s i running =
      checked-InStep (check_timeout t >>= λ _. check_journal l c s) s (exchange e d again c w s) i
        (λ h.
          let (u, timely, allowed) = >>=-eq-ok (check_timeout t) (λ _. check_journal l c s) h in
          exchange-InStep keeps d again c s w i running allowed)

  replaced-InStep :
      (statements : List String) (s : Chainer W) (r : Result W)
      → InStep s
      → ((w : W) → r ≡ ok w → boot_worker e statements [] ≡ ok w)
      → InStep (replaced statements s r).1
  replaced-InStep statements s (err x) i booted = i
  replaced-InStep statements s (ok v) i booted = record {
    current = λ w h. booted w (ap ok (some-injective h));
    snapshot = λ w h. refl;
    counted = refl;
    mutations_le = omega arith;
    statements_le = omega arith;
  }

  -- What the callers do, one after the other: the lock makes each call a step.
  pub data Turn (s : Chainer W) : Chainer W → Type 0 where
    replaces : (d : Delivery) (statements : List String) → Turn s (replace e d statements s).1
    calls :
        (d again : Delivery) (c : Command) (t : TimeoutArgument) → Turn s (rpc l e d again c t s).1
    closes : Turn s (close_chainer s)

  pub data Reached : Chainer W → Type 0 where
    here : Reached new_chainer
    next : {s t : Chainer W} → Reached s → Turn s t → Reached t

  new_chainer-InStep : InStep new_chainer
  new_chainer-InStep = record {
    current = λ w h. cc;
    snapshot = λ w h. cc;
    counted = refl;
    mutations_le = omega arith;
    statements_le = omega arith;
  }

  Turn-InStep : QueriesKeep e → {s t : Chainer W} → Turn s t → InStep s → InStep t
  unfolding rpc replace close_chainer
  Turn-InStep keeps {s} (replaces d statements) i =
      replaced-InStep statements s (launch e d statements []) i (launch-ok d statements [])
  Turn-InStep keeps {s} (calls d again c t) i = rpc_to-InStep keeps d again c t s.worker s i refl
  Turn-InStep keeps {s} closes i = retired-InStep s i

  -- Where queries leave the runtime as it is: after any sequence of `replace`, calls and `close`,
  -- whatever the worker and the deadlines do, a running worker is in exactly the state that its
  -- snapshot and the acknowledged mutations make, and the journal is counted rightly and within both
  -- limits.
  pub reachable-InStep : QueriesKeep e → {s : Chainer W} → Reached s → InStep s
  reachable-InStep keeps here = new_chainer-InStep
  reachable-InStep keeps (next r step) = Turn-InStep keeps step (reachable-InStep keeps r)

  -- The answer to a call that found the worker in state `w` and missed its deadline.
  abbrev pub Restored : Chainer W → W → Result A × Chainer W → Type 0
  Restored s w p =
      (p.0 ≡ err (timeout_error "worker snapshot recovered"))
      × (p.1.worker ≡ some w)
      × (p.1.mutation_journal ≡ s.mutation_journal)

  exchange-Restored :
      (c : Command) (s : Chainer W) (w : W)
      → s.has_snapshot ≡ true
      → boot_worker e s.bootstrap_statements s.mutation_journal ≡ ok w
      → Restored s w (exchange e misses_deadline answers c w s)
  unfolding exchange recover launch
  exchange-Restored c s w known booted = rw (known, booted) (refl, refl, refl)

  -- A call that misses its deadline, with a worker in step, and whose restart of the worker succeeds
  -- leaves the new worker in the state that the old one had before the call, with the journal as it
  -- was, and raises TimeoutError: nothing of the command remains.
  pub rpc-Restored :
      (c : Command) (t : TimeoutArgument) (s : Chainer W) (w : W)
      → InStep s
      → s.worker ≡ some w
      → check_timeout t ≡ ok tt
      → check_journal l c s ≡ ok tt
      → Restored s w (rpc l e misses_deadline answers c t s)
  unfolding rpc
  rpc-Restored c t s w i running timely allowed =
      let checked : (check_timeout t >>= λ _. check_journal l c s) ≡ ok tt =
        ap (λ r. r >>= λ _. check_journal l c s) timely ∙ allowed in
      let run = exchange e misses_deadline answers c w s in
      subst (λ o. Restored s w (rpc_to l e misses_deadline answers c t o s)) (sym running)
        (subst (λ r. Restored s w (when_checked r s run)) (sym checked)
          (exchange-Restored c s w (i.snapshot w running) (i.current w running)))
