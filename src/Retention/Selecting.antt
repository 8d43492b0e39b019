-- ===== src/Retention/Selecting.antt =====
-- What the selection loop of `retain_complete_units` has taken when it ends.
use symbolic_recommendation.Prelude.{
  ℕ, ◌+◌, ◌≤◌, ◌<◌, String, ◌≡◌, refl, ap, ◌∙◌, subst, append_assoc, append-nil, ok-injective,
  tests, sym, ◌⊎◌, inl, inr, Bool, false, List, [], ◌∷◌, ◌++◌, arith, ltb, leb, length, Bool-cases,
  ok, length-append,
}
use symbolic_recommendation.Prelude.Dict.{Dict}
use symbolic_recommendation.Retention.{unit_cases, select_units}

abbrev pub sum_cases : Dict String ℕ → List String → ℕ
sum_cases counts [] = 0
sum_cases counts (u ∷ us) = unit_cases counts u + sum_cases counts us

-- Why the loop stopped before the first unit that is left: one of the bounds is reached.
abbrev pub Blocked : Dict String ℕ → ℕ → ℕ → ℕ → ℕ → List String → Type 0
Blocked counts max_units max_cases units cases [] = Unit
Blocked counts max_units max_cases units cases (u ∷ us) =
    (max_units ≤ units) ⊎ (max_cases < cases + unit_cases counts u)

module _ (counts : Dict String ℕ) (max_units max_cases : ℕ) where
  pub record Selected (us selected : List String) (cases : ℕ) (result : List String × ℕ × Bool)
      : Type 0 where
    pub taken : List String
    pub left : List String
    pub split : us ≡ taken ++ left
    pub chosen : result.0 ≡ selected ++ taken
    pub total : result.1 ≡ cases + sum_cases counts taken
    pub units_fit : length selected ≤ max_units → length result.0 ≤ max_units
    pub cases_fit : cases ≤ max_cases → result.1 ≤ max_cases
    pub blocked : Blocked counts max_units max_cases (length result.0) result.1 left

  Selected-take :
      (u : String) (us selected : List String) (cases : ℕ) (result : List String × ℕ × Bool)
      → leb max_units (length selected) ≡ false
      → ltb max_cases (cases + unit_cases counts u) ≡ false
      → Selected us (selected ++ u ∷ []) (cases + unit_cases counts u) result
      → Selected (u ∷ us) selected cases result
  Selected-take u us selected cases result few fits s = record {
    taken = u ∷ s.taken;
    left = s.left;
    split = ap (λ l. u ∷ l) s.split;
    chosen = s.chosen ∙ append_assoc selected (u ∷ []) s.taken;
    total = omega (arith, s.total);
    units_fit = λ h. s.units_fit (omega (tests, length-append selected (u ∷ [])));
    cases_fit = λ h. s.cases_fit (omega tests);
    blocked = s.blocked;
  }

  pub select_units-Selected :
      (us selected : List String) (cases : ℕ) (result : List String × ℕ × Bool)
      → select_units counts max_units max_cases us selected cases ≡ ok result
      → Selected us selected cases result
  unfolding select_units
  select_units-Selected [] selected cases result h =
      subst (Selected [] selected cases) (ok-injective h) (record {
        taken = [];
        left = [];
        split = refl;
        chosen = sym (append-nil selected);
        total = omega arith;
        units_fit = λ k. k;
        cases_fit = λ k. k;
        blocked = tt;
      })
  select_units-Selected (u ∷ us) selected cases result h =
      elim (Bool-cases (leb max_units (length selected))) [
        | inl full ↦ stopped (inl (omega tests)) (ground (arith, full))
        | inr few ↦ elim (Bool-cases (ltb max_cases (cases + unit_cases counts u))) [
          | inl over ↦ stopped (inr (omega tests)) (ground (arith, few, over))
          | inr fits ↦ Selected-take u us selected cases result few fits (
              select_units-Selected us (selected ++ u ∷ []) (cases + unit_cases counts u) result
                (ground arith))
        ]
      ]
    where
      stopped :
          Blocked counts max_units max_cases (length selected) cases (u ∷ us)
          → ((result.0 ≡ selected) × (result.1 ≡ cases))
          → Selected (u ∷ us) selected cases result
      stopped b e = record {
        taken = [];
        left = u ∷ us;
        split = refl;
        chosen = e.0 ∙ sym (append-nil selected);
        total = omega (arith, e.1);
        units_fit = λ k. omega (arith, ap length e.0);
        cases_fit = λ k. omega (arith, e.1);
        blocked = rw (e.0, e.1) b;
      }
