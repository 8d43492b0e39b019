-- ===== src/Reasoner.antt =====
-- app/reasoner.py: the scorer in a worker process, its journal of acknowledged mutations, and its
-- recovery after a missed deadline. PeTTaChainer is a parameter, as is what the processes and pipes
-- do: whether an answer comes, the worker exits, or the deadline passes.
pub mod Recovery
mod Tests
use symbolic_recommendation.Prelude.{
  ℕ, ◌+◌, String, Bool, true, false, Option, none, some, List, [], ◌∷◌, ◌++◌, ltb, if◌then◌else◌,
  length, Exn, Result, ok, err, ◌>>=◌, guard, value_error, runtime_error, timeout_error,
}

pub data Mutation : Type 0 where
  adds : List String → Mutation
  removes : String → Mutation

pub data Command : Type 0 where
  mutate : Mutation → Command
  query_many : List String → ℕ → Command

-- PeTTaChainer: `W` is the state of one runtime, `A` what a call returns.
pub record Engine (W A : Type 0) : Type 0 where
  pub compile_rules : List String → Result W
  pub add_atoms : W → List String → Result A × W
  pub remove_statement : W → String → Result A × W
  pub run_queries : W → List String → ℕ → Result A × W

-- What a wait for the worker ends with.
pub data Delivery : Type 0 where
  answers exits misses_deadline : Delivery

-- The argument `timeout_sec`.
pub data TimeoutArgument : Type 0 where
  default_timeout zero_timeout positive_timeout bad_timeout : TimeoutArgument

pub record JournalLimits : Type 0 where
  pub max_journal_statements : ℕ
  pub max_journal_mutations : ℕ

-- `_last_timeout`, without the times.
pub record TimeoutReport : Type 0 where
  pub command : Command
  pub worker_recovered : Bool
  pub recovery_error : Option Exn

-- The worker is `_connection` with `_process` and the runtime that they reach.
pub record Chainer (W : Type 0) : Type 0 where
  pub worker : Option W
  pub bootstrap_statements : List String
  pub has_snapshot : Bool
  pub mutation_journal : List Mutation
  pub journal_statements : ℕ
  pub recovery_count : ℕ
  pub last_timeout : Option TimeoutReport

abbrev pub journal_units : Mutation → ℕ
journal_units (adds atoms) = length atoms
journal_units (removes name) = 1

unfoldable pub check_timeout : TimeoutArgument → Result (Unit {0})
check_timeout bad_timeout =
    err (value_error "reasoner RPC timeout must be a finite number greater than 0")
check_timeout _ = ok tt

-- `_receive`, where the worker's status was not "ok".
abbrev pub received : {B : Type 0} → Result B → Result B
received (ok b) = ok b
received (err x) = err (runtime_error "PeTTaChainer worker failure")

module _ {W : Type 0} where
  abbrev pub new_chainer : Chainer W
  new_chainer = record {
    worker = none;
    bootstrap_statements = [];
    has_snapshot = false;
    mutation_journal = [];
    journal_statements = 0;
    recovery_count = 0;
    last_timeout = none;
  }

  abbrev pub recovered : Chainer W → Result W → Result (Unit {0}) × Chainer W
  recovered s (ok w) = (ok tt, record s { worker = some w; recovery_count = s.recovery_count + 1 })
  recovered s (err x) = (err x, s)

  abbrev pub replaced : List String → Chainer W → Result W → Result (Unit {0}) × Chainer W
  replaced statements s (err x) = (err x, s)
  replaced statements s (ok w) = (
    ok tt,
    record s {
      worker = some w;
      bootstrap_statements = statements;
      has_snapshot = true;
      mutation_journal = [];
      journal_statements = 0;
    },
  )

  unfoldable pub check_journal : JournalLimits → Command → Chainer W → Result (Unit {0})
  check_journal l (query_many queries steps) s = ok tt
  check_journal l (mutate m) s =
      if ltb l.max_journal_mutations (length s.mutation_journal + 1)
      then err (runtime_error "PeTTaChainer mutation journal limit exceeded")
      else if ltb l.max_journal_statements (s.journal_statements + journal_units m)
      then err (runtime_error "PeTTaChainer statement journal limit exceeded")
      else ok tt

  abbrev pub acknowledge : Command → Chainer W → Chainer W
  acknowledge (query_many queries steps) s = s
  acknowledge (mutate m) s = record s {
    mutation_journal = s.mutation_journal ++ m ∷ [];
    journal_statements = s.journal_statements + journal_units m;
  }

  unfoldable pub close_chainer : Chainer W → Chainer W
  close_chainer s = record s { worker = none }

module _ {W A : Type 0} where
  abbrev pub apply_mutation : Engine W A → Mutation → W → Result A × W
  apply_mutation e (adds atoms) w = e.add_atoms w atoms
  apply_mutation e (removes name) w = e.remove_statement w name

  -- One turn of the worker's loop.
  abbrev pub serve : Engine W A → Command → W → Result A × W
  serve e (mutate m) w = apply_mutation e m w
  serve e (query_many queries steps) w = e.run_queries w queries steps

  abbrev pub state_after : Result A × W → Result W
  state_after (ok a, w) = ok w
  state_after (err x, w) = err x

  -- The worker's loop over the mutations that it is started with.
  unfoldable pub replay : Engine W A → List Mutation → W → Result W
  replay e [] w = ok w
  replay e (m ∷ ms) w = state_after (apply_mutation e m w) >>= λ w'. replay e ms w'

  unfoldable pub boot_worker : Engine W A → List String → List Mutation → Result W
  boot_worker e statements mutations = e.compile_rules statements >>= λ w. replay e mutations w

  unfoldable pub launch : Engine W A → Delivery → List String → List Mutation → Result W
  launch e answers statements mutations = received (boot_worker e statements mutations)
  launch e exits statements mutations =
      err (runtime_error "PeTTaChainer worker exited unexpectedly")
  launch e misses_deadline statements mutations =
      err (timeout_error "PeTTaChainer worker startup exceeded its outer deadline")

  unfoldable pub recover : Engine W A → Delivery → Chainer W → Result (Unit {0}) × Chainer W
  recover e d s =
      if s.has_snapshot
      then recovered s (launch e d s.bootstrap_statements s.mutation_journal)
      else (err (runtime_error "PeTTaChainer worker has no recoverable snapshot"), s)

  unfoldable pub replace :
      Engine W A → Delivery → List String → Chainer W → Result (Unit {0}) × Chainer W
  replace e d statements s = replaced statements s (launch e d statements [])

  -- The worker has answered; a failure retires it.
  abbrev pub answered : Command → Chainer W → Result A × W → Result A × Chainer W
  answered c s (ok a, w) = (ok a, acknowledge c (record s { worker = some w }))
  answered c s (err x, w) =
      (err (runtime_error "PeTTaChainer worker failure"), record s { worker = none })

  abbrev pub timed_out : Command → Result (Unit {0}) × Chainer W → Result A × Chainer W
  timed_out c (ok u, s) = (
    err (timeout_error "worker snapshot recovered"),
    record s {
      last_timeout = some (record { command = c; worker_recovered = true; recovery_error = none });
    },
  )
  timed_out c (err x, s) = (
    err (timeout_error "worker recovery failed"),
    record s {
      last_timeout =
          some (record { command = c; worker_recovered = false; recovery_error = some x });
    },
  )

  -- The exchange with a worker in state `w`; `again` is what a restart of it meets.
  unfoldable pub exchange :
      Engine W A → Delivery → Delivery → Command → W → Chainer W → Result A × Chainer W
  exchange e answers again c w s = answered c s (serve e c w)
  exchange e exits again c w s =
      (err (runtime_error "PeTTaChainer worker exited unexpectedly"), record s { worker = none })
  exchange e misses_deadline again c w s =
      timed_out c (recover e again (record s { worker = none }))

  abbrev pub when_checked :
      Result (Unit {0}) → Chainer W → Result A × Chainer W → Result A × Chainer W
  when_checked (err x) s run = (err x, s)
  when_checked (ok u) s run = run

  abbrev pub rpc_to :
      JournalLimits
      → Engine W A
      → Delivery
      → Delivery
      → Command
      → TimeoutArgument
      → Option W
      → Chainer W
      → Result A × Chainer W
  rpc_to l e d again c t none s =
      (err (runtime_error "PeTTaChainer worker has no compiled rule snapshot"), s)
  rpc_to l e d again c t (some w) s =
      when_checked (check_timeout t >>= λ _. check_journal l c s) s (exchange e d again c w s)

  unfoldable pub rpc :
      JournalLimits
      → Engine W A
      → Delivery
      → Delivery
      → Command
      → TimeoutArgument
      → Chainer W
      → Result A × Chainer W
  rpc l e d again c t s = rpc_to l e d again c t s.worker s
