-- ===== src/Workspace/Tests.antt =====
-- Runs of the cache against a process that keeps a log of commands, and refuses those in `bad`.
use symbolic_recommendation.Prelude.{
  ℕ, zero, suc, ◌≤◌, ◌≡◌, refl, List, [], ◌∷◌, ◌++◌, arith, if◌then◌else◌, codes, Result, ok, err,
  foreign_error, insert_by, sort_by,
}
use symbolic_recommendation.Prelude.Dict.{put}
use symbolic_recommendation.Metta.{
  Text, starts_with, strip, lstrip, is_space, scan, advance, single_expression,
  single_expression_of,
}
use symbolic_recommendation.Workspace.{
  Config, Cases, empty_cache, validate_plan, normalize_facts, normalize_case, normalize_loop,
  normalize_cases, hashes_of,
}
use symbolic_recommendation.Workspace.Sync.{Lab, sync}
use symbolic_recommendation.Workspace.Budget.{plan_count, sync-plans}
use symbolic_recommendation.Workspace.Outcomes.{Settled, sync-Settled}

abbrev digits : ℕ → Text
digits zero = []
digits (suc n) = b'i' ∷ digits n

abbrev first_fact : List Text → Text
first_fact [] = []
first_fact (f ∷ fs) = f

abbrev config : Config
config = record {
  batch_size = 2;
  max_cached_plans = 1;
  max_cases_per_plan = 5;
  max_facts_per_plan = 9;
  namespace = codes "r";
  instance_id = codes "x";
  show = digits;
  digest = λ p. p;
  hash = first_fact;
}

-- A process that refuses to bind.
abbrev execute : List Text → Text → Result (Unit {0}) × List Text
execute log command =
    if starts_with (codes "!(bind") command
    then (err (foreign_error "PeTTa"), log)
    else (ok tt, log ++ command ∷ [])

abbrev initial : Lab (List Text) execute config
initial = record { cache = empty_cache; world = [] }

abbrev raw_cases : Cases
raw_cases = (codes " c1 ", codes "(a)" ∷ codes " (a)" ∷ []) ∷ []

abbrev clean_cases : Cases
clean_cases = (codes "c1", codes "(a)" ∷ []) ∷ []

normalizes : normalize_cases config raw_cases ≡ ok clean_cases
unfolding normalize_cases normalize_loop normalize_case normalize_facts single_expression
    single_expression_of strip lstrip is_space scan advance put sort_by insert_by
normalizes = refl

valid_plan : validate_plan (codes " p") ≡ ok (codes "p")
unfolding validate_plan strip lstrip is_space
valid_plan = refl

sync-plans_example :
    plan_count
      (List Text)
      execute
      config
      (sync (List Text) execute config (codes " p") raw_cases initial).1
    ≤ 1
sync-plans_example =
    sync-plans (List Text) execute config (codes " p") raw_cases initial (omega arith)

sync-Settled_example :
    Settled
      (List Text)
      execute
      config
      (codes "p")
      (hashes_of first_fact clean_cases)
      initial
      (sync (List Text) execute config (codes " p") raw_cases initial)
sync-Settled_example =
    sync-Settled (List Text) execute config (codes " p") (codes "p") raw_cases clean_cases initial
      valid_plan normalizes
