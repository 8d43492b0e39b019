-- ===== src/Ranking/Middles.antt =====
-- The loop over the groups gives each value the middle of its places.
use symbolic_recommendation.Prelude.{
  ℕ, zero, suc, ◌+◌, ◌≤◌, ◌≡◌, refl, sym, ◌∙◌, ap, ap₂, subst, fun_ext, true, false, List, [], ◌∷◌,
  ◌++◌, arith, length, take, drop, length-drop, take-append-drop, length-take, count_if-append,
  Bool-cases, inl, inr, ◌>>=◌,
}
use symbolic_recommendation.Quantiles.{Floats}
use symbolic_recommendation.Quantiles.Laws.{FloatLaws}
use symbolic_recommendation.Ranking.Midranks.{leading_equal, midrank, place_all, midrank_groups}
use symbolic_recommendation.Ranking.Groups.{
  Each, Each-drop, Numbered, Finite, Descending, Descending-drop, greater, equals, middle,
  place_each, place_nothing, place_all-Each, place_each-append, same-counts, lower-counts,
  group-counts,
}

module _ (fl : Floats) (laws : FloatLaws fl) where
  abbrev equal_to : fl.F → List (Numbered fl) → ℕ
  equal_to v = leading_equal fl (λ x. fl.eq x v)

  leading_equal-le : (v : fl.F) (rest : List (Numbered fl)) → equal_to v rest ≤ length rest
  unfolding leading_equal
  leading_equal-le v [] = omega arith
  leading_equal-le v (q ∷ rest) = ground (arith, leading_equal-le v rest)

  leading-equal :
      (v : fl.F) (rest : List (Numbered fl))
      → fl.is_finite v ≡ true
      → Finite fl rest
      → Each (λ (q : Numbered fl). q.1 ≡ v) (take (equal_to v rest) rest)
  unfolding leading_equal
  leading-equal v [] f g = tt
  leading-equal v (q ∷ rest) f g = elim (Bool-cases (fl.eq q.1 v)) [
    | inl same ↦ rw same (laws.eq_same q.1 v g.0 f same, leading-equal v rest f g.1)
    | inr other ↦ rw other tt
  ]

  -- What is not above a lower value is lower.
  all_lower :
      (v x : fl.F) (rest : List (Numbered fl))
      → fl.is_finite v ≡ true
      → fl.is_finite x ≡ true
      → Finite fl rest
      → fl.lt x v ≡ true
      → Each (λ (q : Numbered fl). fl.lt x q.1 ≡ false) rest
      → Each (λ (q : Numbered fl). fl.lt q.1 v ≡ true) rest
  all_lower v x [] f g h low below = tt
  all_lower v x (q ∷ rest) f g h low below = (
    ground (arith, laws.through v q.1 x f h.0 g, below.0),
    all_lower v x rest f g h.1 low below.1,
  )

  lower-after :
      (v : fl.F) (rest : List (Numbered fl))
      → fl.is_finite v ≡ true
      → Finite fl rest
      → Each (λ (q : Numbered fl). fl.lt v q.1 ≡ false) rest
      → Descending fl rest
      → Each (λ (q : Numbered fl). fl.lt q.1 v ≡ true) (drop (equal_to v rest) rest)
  unfolding leading_equal
  lower-after v [] f g below d = tt
  lower-after v (q ∷ rest) f g below d = elim (Bool-cases (fl.eq q.1 v)) [
    | inl same ↦ rw same (lower-after v rest f g.1 below.1 d.1)
    | inr other ↦
        let low : fl.lt q.1 v ≡ true = ground (arith, laws.eq_is q.1 v g.0 f, below.0) in
        rw other (low, all_lower v q.1 rest f g.0 g.1 low d.0)
  ]

  -- What the loop knows of some of what is left: before that come `position` values, all of them above.
  abbrev LeftIn : List (Numbered fl) → ℕ → List (Numbered fl) → List (Numbered fl) → Type 0
  LeftIn all position ordered some_left =
      Each
        (λ (q : Numbered fl).
          (greater fl q.1 all ≡ position + greater fl q.1 ordered)
          × (equals fl q.1 all ≡ equals fl q.1 ordered))
        some_left

  later-Left :
      (v : fl.F) (all group later : List (Numbered fl)) (position : ℕ)
      → fl.is_finite v ≡ true
      → Each (λ (q : Numbered fl). q.1 ≡ v) group
      → (rest : List (Numbered fl)) → Finite fl rest
      → Each (λ (q : Numbered fl). fl.lt q.1 v ≡ true) rest
      → LeftIn all position (group ++ later) rest
      → LeftIn all (position + length group) later rest
  later-Left v all group later position f same [] g low left = tt
  later-Left v all group later position f same (q ∷ rest) g low left =
      let (above, apart) = group-counts fl laws v q.1 group f g.0 low.0 same in
      (
        (
          omega (
            arith,
            left.0.0,
            above,
            count_if-append (λ (r : Numbered fl). fl.lt q.1 r.1) group later,
          ),
          omega (
            arith,
            left.0.1,
            apart,
            count_if-append (λ (r : Numbered fl). fl.eq r.1 q.1) group later,
          ),
        ),
        later-Left v all group later position f same rest g.1 low.1 left.1,
      )

  middles-constant :
      (denominator : ℕ) (all group : List (Numbered fl)) (v : fl.F)
      → Each (λ (q : Numbered fl). q.1 ≡ v) group
      → Each
          (λ (q : Numbered fl). middle fl denominator all q.1 ≡ middle fl denominator all v)
          group
  middles-constant denominator all [] v h = tt
  middles-constant denominator all (q ∷ group) v h =
      (ap (middle fl denominator all) h.0, middles-constant denominator all group v h.1)

  pub midrank_groups-each :
      (all : List (Numbered fl)) (fuel denominator position : ℕ) (ordered : List (Numbered fl))
      (scores : List fl.F)
      → length ordered ≤ fuel
      → Finite fl ordered
      → Descending fl ordered
      → LeftIn all position ordered ordered
      → midrank_groups fl fuel denominator position ordered scores
        ≡ place_each fl (middle fl denominator all) ordered scores
  unfolding midrank_groups
  midrank_groups-each all zero denominator position [] scores h f d left =
      place_nothing fl (middle fl denominator all) scores
  midrank_groups-each all zero denominator position (p ∷ rest) scores h f d left =
      absurd (omega (arith, h))
  midrank_groups-each all (suc fuel) denominator position [] scores h f d left =
      place_nothing fl (middle fl denominator all) scores
  midrank_groups-each all (suc fuel) denominator position (p ∷ rest) scores h f d left =
      let v = p.1 in
      let k = equal_to v rest in
      let ordered = p ∷ rest in
      let group = p ∷ take k rest in
      let later = drop k rest in
      let rank = middle fl denominator all in
      let same : Each (λ (q : Numbered fl). q.1 ≡ v) group = (refl, leading-equal v rest f.0 f.1) in
      let low = lower-after v rest f.0 f.1 d.0 d.1 in
      let later_finite = Each-drop (λ (q : Numbered fl). fl.is_finite q.1 ≡ true) k rest f.1 in
      let whole : ordered ≡ group ++ later = ap (λ l. p ∷ l) (sym (take-append-drop k rest)) in
      let size : length group ≡ suc k = ap suc (length-take k rest (leading_equal-le v rest)) in
      let (none_above, all_equal) = same-counts fl laws v group f.0 same in
      let (none_above', none_equal) = lower-counts fl laws v later f.0 later_finite low in
      let left_rest : LeftIn all position (group ++ later) rest =
        subst (λ l. LeftIn all position l rest) whole left.1 in
      let left' : LeftIn all (position + suc k) later later =
        subst (λ n. LeftIn all (position + n) later later) size
          (later-Left v all group later position f.0 same later later_finite low (
            Each-drop
              (λ (q : Numbered fl).
                (greater fl q.1 all ≡ position + greater fl q.1 (group ++ later))
                × (equals fl q.1 all ≡ equals fl q.1 (group ++ later)))
              k rest left_rest)) in
      let above : greater fl v all ≡ position = omega (
        arith,
        left.0.0,
        ap (greater fl v) whole,
        none_above,
        none_above',
        count_if-append (λ (r : Numbered fl). fl.lt v r.1) group later,
      ) in
      let level : equals fl v all ≡ suc k = omega (
        arith,
        left.0.1,
        ap (equals fl v) whole,
        all_equal,
        none_equal,
        size,
        count_if-append (λ (r : Numbered fl). fl.eq r.1 v) group later,
      ) in
      let same_rank : midrank fl denominator position (position + suc k) ≡ rank v =
        sym (ap₂ (λ a b. midrank fl denominator a (a + b)) above level) in
      ap
        (λ c. place_all fl c group scores >>= λ next.
          midrank_groups fl fuel denominator (position + suc k) later next)
        same_rank
      ∙ ap (λ r. r >>= λ next. midrank_groups fl fuel denominator (position + suc k) later next)
          (place_all-Each fl rank (rank v) group scores
            (middles-constant denominator all group v same))
      ∙ ap (λ f. place_each fl rank group scores >>= f)
          (fun_ext (λ next.
            midrank_groups-each all fuel denominator (position + suc k) later next
              (omega (arith, h, length-drop k rest (leading_equal-le v rest))) later_finite
              (Descending-drop fl k rest d.1) left'))
      ∙ sym (place_each-append fl rank group later scores)
      ∙ ap (λ l. place_each fl rank l scores) (sym whole)
