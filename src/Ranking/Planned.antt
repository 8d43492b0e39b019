-- ===== src/Ranking/Planned.antt =====
-- The plan of a slate against one that builds each orientation of each pair by itself.
use symbolic_recommendation.Prelude.{
  ℕ, ◌≡◌, refl, sym, some, List, [], ◌∷◌, ltb, if◌then◌else◌, length, code_keys, Option-cases,
  Result-cases, inl, inr, Result, ok, err, ◌>>=◌, value_error, >>=-eq-ok, ok-injective, subst,
}
use symbolic_recommendation.Prelude.Dict.{Dict, get}
use symbolic_recommendation.Metta.{Text}
use symbolic_recommendation.Quantiles.{Floats, item_at}
use symbolic_recommendation.Quantiles.Laws.{FloatLaws}
use symbolic_recommendation.Ranking.Joined.{IsCompiled}
use symbolic_recommendation.Ranking.Features.{Candidate}
use symbolic_recommendation.Ranking.Antisymmetry.{IsFitted}
use symbolic_recommendation.Ranking.Reversed.{IsNeutral}
use symbolic_recommendation.Ranking.Oriented.{
  CaseCache, Lab, compiled, pair_spec, oriented_pair_specs,
}
use symbolic_recommendation.Ranking.Specs.{
  IsHonest, empty-IsHonest, both_specs, oriented_specs-both,
}
use symbolic_recommendation.Ranking.Plan.{
  Plan, index_pairs, exhaustive_count, by_article, candidate_at, add_duel, empty_plan, plan_pairs,
  pairwise_plan,
}

module _ (fl : Floats) where
  -- The plan from one orientation at a time, without an index of both, a reversal or a memo.
  unfoldable pub plan_each :
      Lab fl → List Text → Dict Text (Candidate fl) → List (ℕ × ℕ) → Result Plan
  plan_each lab ids raw [] = ok (empty_plan fl)
  plan_each lab ids raw ((i, j) ∷ pairs) = candidate_at fl ids raw i >>= λ left.
      candidate_at fl ids raw j >>= λ right.
      both_specs (pair_spec fl lab left right) (pair_spec fl lab right left) >>= λ specs.
      plan_each lab ids raw pairs >>= λ rest. ok (add_duel fl i j specs.0 specs.1 rest)

  abbrev pub AllNeutral : Dict Text (Candidate fl) → Type 0
  AllNeutral raw = (aid : Text) (c : Candidate fl) → get aid raw ≡ some c → IsNeutral c

  candidate_at-IsNeutral :
      (ids : List Text) (raw : Dict Text (Candidate fl)) (i : ℕ) (c : Candidate fl)
      → AllNeutral raw
      → candidate_at fl ids raw i ≡ ok c
      → IsNeutral c
  unfolding candidate_at
  candidate_at-IsNeutral ids raw i c neutral e =
      let (aid, _, found) = >>=-eq-ok (item_at ids i) _ e in
      elim (Option-cases (get aid raw)) [
        | inl absent ↦ cc (rw absent at found)
        | inr (c', there) ↦
            subst IsNeutral (ok-injective (rw there at found)) (neutral aid c' there)
      ]

module _ (fl : Floats) (laws : FloatLaws fl) where
  plan_pairs-each :
      (lab : Lab fl) (ids : List Text) (raw : Dict Text (Candidate fl)) (pairs : List (ℕ × ℕ))
      (cache : CaseCache)
      → IsFitted fl lab.encoders
      → IsCompiled lab.matcher
      → AllNeutral fl raw
      → IsHonest lab.pair_candidate_case cache
      → plan_pairs fl lab (compiled fl lab) ids raw pairs cache ≡ plan_each fl lab ids raw pairs
  unfolding plan_pairs plan_each
  plan_pairs-each lab ids raw [] cache fitted h neutral honest = refl
  plan_pairs-each lab ids raw ((i, j) ∷ pairs) cache fitted h neutral honest =
      elim (Result-cases (candidate_at fl ids raw i)) [
        | inr (e, raised) ↦ rw raised refl
        | inl (left, at_i) ↦ elim (Result-cases (candidate_at fl ids raw j)) [
          | inr (e, raised) ↦ rw (at_i, raised) refl
          | inl (right, at_j) ↦
              let oriented = oriented_pair_specs fl lab (compiled fl lab) left right cache in
              let (both, keeps) =
                oriented_specs-both fl laws lab left right cache fitted h
                  (candidate_at-IsNeutral fl ids raw i left neutral at_i) honest in
              rw (at_i, at_j, sym both)
                (elim (Result-cases oriented) [
                  | inr (e, raised) ↦ rw raised refl
                  | inl (o, found) ↦
                      rw
                        (
                          found,
                          plan_pairs-each lab ids raw pairs o.cache fitted h neutral
                              (keeps o found),
                        )
                        refl
                ])
        ]
      ]

  -- For a laboratory whose encoders have passed their checks and whose last matcher is that of some
  -- rules, and candidates whose history scopes are no directions: `_pairwise_plan`, which compares each
  -- two candidates once, reverses the comparison, joins through the compiled index and keeps a memo of
  -- cases over the slate, is the plan that two calls of `_pair_spec` for every two rows give, the same
  -- exceptions included; above `max_pair_comparisons` pairs it raises a ValueError and compares none.
  pub pairwise_plan-each :
      (lab : Lab fl) (limit : ℕ) (ids : List Text) (specs : List (Text × Candidate fl))
      → IsFitted fl lab.encoders
      → IsCompiled lab.matcher
      → AllNeutral fl (by_article fl specs [])
      → pairwise_plan fl lab limit ids specs ≡ (
          if ltb limit (exhaustive_count (length ids))
          then err (value_error "pairwise comparison budget exceeded")
          else plan_each fl lab ids (by_article fl specs []) (index_pairs (length ids)))
  unfolding pairwise_plan
  pairwise_plan-each lab limit ids specs fitted h neutral =
      rw
        (plan_pairs-each lab ids (by_article fl specs []) (index_pairs (length ids)) [] fitted h
          neutral (empty-IsHonest lab.pair_candidate_case))
        refl
