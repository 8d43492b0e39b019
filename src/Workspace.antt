-- ===== src/Workspace.antt =====
-- mining/petta_workspace.py: one AtomSpace for each mining plan, kept in step with the plan's cases.
-- The PeTTa process is a parameter: its state, and a call that runs one command and may raise.
pub mod Sync
pub mod Budget
pub mod Outcomes
mod Tests
use symbolic_recommendation.Prelude.{
  ℕ, zero, suc, ◌+◌, ◌-◌, ◌≡◌, Bool, true, false, not, ◌&&◌, ◌||◌, Option, none, some, List, [],
  ◌∷◌, ◌++◌, map, leb, ltb, nat_eq, if◌then◌else◌, length, is_empty, keep_if, sort_by, elem, codes,
  codes_leb, ◌==◌, code_keys, Exn, Result, ok, err, ◌>>=◌, guard, value_error, memory_error,
  is_some,
}
use symbolic_recommendation.Prelude.Dict.{Dict, keys, get, put, remove, has}
use symbolic_recommendation.Metta.{Text, strip, single_expression}

pub data SyncMode : Type 0 where
  created reused appended rebuilt : SyncMode

pub record WorkspaceSync : Type 0 where
  pub plan : Text
  pub space : Text
  pub mode : SyncMode
  pub reused_cases : ℕ
  pub appended_cases : ℕ
  pub total : ℕ
  pub removed : ℕ
  pub changed : ℕ
  pub appended_facts : ℕ
  pub total_facts : ℕ
  pub case_limit : ℕ
  pub fact_limit : ℕ
  pub cached_plan_limit : ℕ
  pub cached_plans_after_commit : ℕ

pub record Workspace : Type 0 where
  pub space : Text
  pub case_hashes : Dict Text Text
  pub dirty : Bool

-- The limits of a cache, and the texts that name its spaces. `show` is `str` of a number, `digest`
-- the shortened SHA-256 of a plan, `hash` the SHA-256 of the JSON text of a case's facts.
pub record Config : Type 0 where
  pub batch_size : ℕ
  pub max_cached_plans : ℕ
  pub max_cases_per_plan : ℕ
  pub max_facts_per_plan : ℕ
  pub namespace : Text
  pub instance_id : Text
  pub show : ℕ → Text
  pub digest : Text → Text
  pub hash : List Text → Text

pub record Cache : Type 0 where
  pub workspaces : Dict Text Workspace
  pub sequence : ℕ

abbrev pub empty_cache : Cache
empty_cache = record { workspaces = []; sequence = 0 }

unfoldable pub validate_plan : Text → Result Text
validate_plan plan =
    if is_empty (strip plan)
    then err (value_error "plan must be a non-empty string")
    else ok (strip plan)

-- normalized_facts.add(fact)
abbrev pub add_fact : Text → List Text → List Text
add_fact f fs = if elem f fs then fs else f ∷ fs

-- The loop over the facts of one case: the set so far and the number of submitted facts.
unfoldable pub normalize_facts : ℕ → List Text → ℕ → List Text → Result (List Text × ℕ)
normalize_facts max_facts normalized submitted [] = ok (normalized, submitted)
normalize_facts max_facts normalized submitted (fact ∷ facts) =
    if ltb max_facts (submitted + 1)
    then err (memory_error "PeTTa workspace fact limit exceeded")
    else (single_expression fact >>= λ f.
        normalize_facts max_facts (add_fact f normalized) (submitted + 1) facts)

abbrev pub Cases : Type 0
Cases = Dict Text (List Text)

-- One case: its ID, its facts, and what it adds to the canonical cases.
unfoldable pub normalize_case : Config → ℕ → Text → List Text → Cases → ℕ → Result (Cases × ℕ)
normalize_case c number raw_id facts canonical submitted =
    if ltb c.max_cases_per_plan number
    then err (memory_error "PeTTa workspace case limit exceeded")
    else if is_empty (strip raw_id)
    then err (value_error "case IDs must be non-empty strings")
    else if has (strip raw_id) canonical
    then err (value_error "duplicate normalized case ID")
    else (normalize_facts c.max_facts_per_plan [] submitted facts >>= λ found.
        if is_empty found.0
        then err (value_error "each mining case must contain at least one fact")
        else ok (put (strip raw_id) (sort_by codes_leb found.0) canonical, found.1))

unfoldable pub normalize_loop : Config → ℕ → Cases → ℕ → Cases → Result Cases
normalize_loop c number canonical submitted [] = ok canonical
normalize_loop c number canonical submitted ((raw_id, facts) ∷ rest) =
    normalize_case c number raw_id facts canonical submitted >>= λ found.
    normalize_loop c (suc number) found.0 found.1 rest

unfoldable pub normalize_cases : Config → Cases → Result Cases
normalize_cases c cases =
    if ltb c.max_cases_per_plan (length cases)
    then err (memory_error "PeTTa workspace case limit exceeded")
    else normalize_loop c 1 [] 0 cases

unfoldable pub hashes_of : (List Text → Text) → Cases → Dict Text Text
hashes_of hash [] = []
hashes_of hash ((id, facts) ∷ cases) = (id, hash facts) ∷ hashes_of hash cases

unfoldable pub count_facts : Cases → ℕ
count_facts [] = 0
count_facts ((id, facts) ∷ cases) = length facts + count_facts cases

unfoldable pub new_space_name : Config → ℕ → Text → Text
new_space_name c sequence plan =
    codes "&rec_mine_"
    ++ (c.namespace ++ codes "_" ++ c.instance_id ++ codes "_")
    ++ (c.show sequence ++ (codes "_" ++ c.digest plan))

-- The commands that the cache sends.
unfoldable pub bind_command : Text → Text
bind_command space = codes "!(bind! " ++ space ++ codes " (new-space))"

unfoldable pub clear_command : Text → Text
clear_command space =
    codes "!(let $atom (superpose (collapse (match "
    ++ space
    ++ codes " $x $x))) (remove-atom "
    ++ space
    ++ codes " $atom))"

unfoldable pub add_atom : Text → Text → Text
add_atom space fact = codes "(add-atom " ++ space ++ codes " " ++ fact ++ codes ")"

-- " ".join
unfoldable pub join_space : List Text → Text
join_space [] = []
join_space (t ∷ []) = t
join_space (t ∷ u ∷ ts) = t ++ (codes " " ++ join_space (u ∷ ts))

unfoldable pub add_command : Text → List Text → Text
add_command space facts =
    codes "!(superpose (" ++ join_space (map (add_atom space) facts) ++ codes "))"

abbrev pub facts_of_case : Option (List Text) → List Text
facts_of_case none = []
facts_of_case (some facts) = facts

-- The facts of the cases `ids`, in the order in which the two loops of `_append_facts` meet them.
unfoldable pub facts_of : Cases → List Text → List Text
facts_of cases [] = []
facts_of cases (id ∷ ids) = facts_of_case (get id cases) ++ facts_of cases ids
