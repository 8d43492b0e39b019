-- ===== src/Incremental/SpaceTests.antt =====
-- A run of a delta space against a process that keeps a log of commands and refuses additions.
use symbolic_recommendation.Prelude.{
  ℕ, zero, suc, List, [], ◌∷◌, ◌++◌, if◌then◌else◌, codes, Result, ok, err, foreign_error,
}
use symbolic_recommendation.Metta.{Text, starts_with}
use symbolic_recommendation.Workspace.{Config, Cases}
use symbolic_recommendation.Incremental.Spaces.{
  Spaces, Prepared, prepare_delta_space, prepare_delta_space-Prepared,
}

abbrev stars : ℕ → Text
stars zero = []
stars (suc n) = b'*' ∷ stars n

abbrev small : Config
small = record {
  batch_size = 1;
  max_cached_plans = 2;
  max_cases_per_plan = 2;
  max_facts_per_plan = 4;
  namespace = codes "n";
  instance_id = codes "1";
  show = stars;
  digest = λ plan. plan;
  hash = λ facts. [];
}

abbrev refuse_additions : List Text → Text → Result (Unit {0}) × List Text
refuse_additions log command =
    if starts_with (codes "!(superpose") command
    then (err (foreign_error "PeTTa"), log)
    else (ok tt, log ++ command ∷ [])

abbrev one_case : Cases
one_case = (codes "c1", codes "(engagement c1 click)" ∷ []) ∷ []

abbrev no_spaces : Spaces (List Text) refuse_additions small
no_spaces = record { delta_spaces = []; sequence = 0; world = [] }

prepare_delta_space-Prepared_example : Prepared (List Text) refuse_additions small (codes "p") (
    prepare_delta_space
      (List Text)
      refuse_additions
      small
      (codes "p")
      (codes "c1" ∷ [])
      one_case
      no_spaces)
prepare_delta_space-Prepared_example =
    prepare_delta_space-Prepared (List Text) refuse_additions small (codes "p") (codes "c1" ∷ [])
      one_case no_spaces
