-- ===== src/Reasoner/Tests.antt =====
-- Runs of the scorer over a runtime that keeps a list of its atoms, and the theorems at them.
use symbolic_recommendation.Prelude.{
  ℕ, String, ◌≡◌, refl, some, List, [], ◌∷◌, ◌++◌, length, keep_if, not, ◌==◌, text_keys, ok,
}
use symbolic_recommendation.Reasoner.{
  adds, removes, mutate, Engine, answers, misses_deadline, default_timeout, JournalLimits, Chainer,
  check_timeout, new_chainer, replay, boot_worker, launch, replace, check_journal, exchange, rpc,
}
use symbolic_recommendation.Reasoner.Recovery.{
  InStep, Reached, here, next, replaces, calls, Restored, reachable-InStep, rpc-Restored,
}

abbrev limits : JournalLimits
limits = record { max_journal_statements = 3; max_journal_mutations = 2 }

abbrev atoms_engine : Engine (List String) ℕ
atoms_engine = record {
  compile_rules = λ statements. ok statements;
  add_atoms = λ w atoms. (ok (length atoms), w ++ atoms);
  remove_statement = λ w name. (ok 1, keep_if (λ a. not (a == name)) w);
  run_queries = λ w queries steps. (ok (length w), w);
}

abbrev started : Chainer (List String)
started = (replace atoms_engine answers ("rule" ∷ []) new_chainer).1

abbrev extended : Chainer (List String)
extended =
    (rpc limits atoms_engine answers answers (mutate (adds ("fact" ∷ []))) default_timeout
      started).1

extended-Reached : Reached limits atoms_engine extended
extended-Reached =
    next (next here (replaces answers ("rule" ∷ [])))
      (calls answers answers (mutate (adds ("fact" ∷ []))) default_timeout)

extended_worker : extended.worker ≡ some ("rule" ∷ "fact" ∷ [])
unfolding replace launch boot_worker replay rpc check_timeout check_journal exchange
extended_worker = refl

reachable-InStep_example : InStep limits atoms_engine extended
reachable-InStep_example =
    reachable-InStep limits atoms_engine (λ w queries steps. refl) extended-Reached

may_remove : check_journal limits (mutate (removes "rule")) extended ≡ ok tt
unfolding replace launch boot_worker replay rpc check_timeout check_journal exchange
may_remove = refl

timely_default : check_timeout default_timeout ≡ ok tt
unfolding check_timeout
timely_default = refl

rpc-Restored_example : Restored limits atoms_engine extended ("rule" ∷ "fact" ∷ []) (
    rpc limits atoms_engine misses_deadline answers
      (mutate (removes "rule"))
      default_timeout
      extended)
rpc-Restored_example =
    rpc-Restored limits atoms_engine (mutate (removes "rule")) default_timeout extended
      ("rule" ∷ "fact" ∷ []) reachable-InStep_example extended_worker timely_default may_remove
