-- ===== src/Ranking/Midranked.antt =====
-- `_midrank_scores` against a definition by counting: every value gets the middle of its places.
use symbolic_recommendation.Prelude.{
  ℕ, suc, ◌+◌, ◌-◌, ◌≤◌, ◌≡◌, refl, sym, ◌∙◌, ap, ap₂, subst, Bool, true, false, List, [], ◌∷◌, map,
  arith, length, count_if, count_if-sort_by, sort_by, length-sort_by, all_true,
  sort_by_within-IsOrdered, IsOrdered, ok,
}
use symbolic_recommendation.Quantiles.{Floats, item_at}
use symbolic_recommendation.Quantiles.Laws.{FloatLaws}
use symbolic_recommendation.Ranking.Margins.{repeat}
use symbolic_recommendation.Ranking.Midranks.{
  at_least_one, midrank, numbered, value_order, midrank_groups, midrank_scores,
}
use symbolic_recommendation.Ranking.Sized.{midrank_scores-Gives}
use symbolic_recommendation.Ranking.Groups.{
  Each, Numbered, Finite, Descending, greater, equals, middle,
}
use symbolic_recommendation.Ranking.Middles.{midrank_groups-each}
use symbolic_recommendation.Ranking.Placed.{
  is_at, place_each-at, Each-sort_by, numbered-Each, numbered-count, numbered-Finite,
  length-numbered, numbered-has,
}

module _ (fl : Floats) where
  -- The rank of a value by counting: the middle of the places after the values above it, which are as
  -- many as the values that are equal to it.
  abbrev pub midrank_of : List fl.F → fl.F → fl.F
  midrank_of values v =
      let above = count_if (λ w. fl.lt v w) values in
      let level = count_if (λ w. fl.eq w v) values in
      midrank fl (at_least_one (length values - 1)) above (above + level)

  abbrev pub rounded : List fl.F → List fl.F
  rounded = map (λ v. fl.round v 12)

module _ (fl : Floats) (laws : FloatLaws fl) where
  abbrev is_finite_value : Numbered fl → Bool
  is_finite_value q = fl.is_finite q.1

  descending_pair :
      (p q : Numbered fl)
      → fl.is_finite p.1 ≡ true
      → fl.is_finite q.1 ≡ true
      → value_order fl p q ≡ true
      → fl.lt p.1 q.1 ≡ false
  descending_pair p q f g h = ground (arith, laws.eq_is q.1 p.1 g f)

  Each-descending :
      (p : Numbered fl) (rest : List (Numbered fl))
      → fl.is_finite p.1 ≡ true
      → Finite fl rest
      → all_true (value_order fl p) rest ≡ true
      → Each (λ (q : Numbered fl). fl.lt p.1 q.1 ≡ false) rest
  unfolding all_true
  Each-descending p [] f g h = tt
  Each-descending p (q ∷ rest) f g h =
      (descending_pair p q f g.0 (ground arith), Each-descending p rest f g.1 (ground arith))

  IsOrdered-Descending :
      (xs : List (Numbered fl)) → Finite fl xs → IsOrdered (value_order fl) xs → Descending fl xs
  IsOrdered-Descending [] f o = tt
  IsOrdered-Descending (p ∷ rest) f o =
      (Each-descending p rest f.0 f.1 o.0, IsOrdered-Descending rest f.1 o.1)

  numbered-all_finite :
      (k : ℕ) (values : List fl.F)
      → all_true fl.is_finite values ≡ true
      → all_true is_finite_value (numbered fl k values) ≡ true
  unfolding numbered all_true
  numbered-all_finite k [] h = refl
  numbered-all_finite k (x ∷ values) h = ground (arith, numbered-all_finite (suc k) values)

  sorted-IsOrdered :
      (values : List fl.F)
      → all_true fl.is_finite values ≡ true
      → IsOrdered (value_order fl) (sort_by (value_order fl) (numbered fl 0 values))
  sorted-IsOrdered values h =
      sort_by_within-IsOrdered (value_order fl) is_finite_value
        (λ a b f g e.
          ground (arith, laws.eq_is b.1 a.1 g f, laws.eq_is a.1 b.1 f g, laws.asymmetric a.1 b.1))
        (λ a b c f g k e i. ground (
          arith,
          laws.eq_is b.1 a.1 g f,
          laws.eq_is c.1 b.1 k g,
          laws.eq_is c.1 a.1 k f,
          laws.through a.1 b.1 c.1 f g k,
          laws.through c.1 b.1 a.1 k g f,
          laws.through b.1 a.1 c.1 g f k,
          laws.through a.1 c.1 b.1 f k g,
          laws.through b.1 c.1 a.1 g k f,
          laws.through c.1 a.1 b.1 k f g,
        ))
        (numbered fl 0 values) (numbered-all_finite 0 values h)

  middle-midrank_of :
      (values : List fl.F) (v : fl.F)
      → middle fl
          (at_least_one (length values - 1))
          (sort_by (value_order fl) (numbered fl 0 values))
          v
        ≡ midrank_of fl values v
  middle-midrank_of values v =
      let all = numbered fl 0 values in
      ap₂ (λ a b. midrank fl (at_least_one (length values - 1)) a (a + b))
        (count_if-sort_by (λ (q : Numbered fl). fl.lt v q.1) (value_order fl) all
          ∙ numbered-count fl (λ w. fl.lt v w) 0 values)
        (count_if-sort_by (λ (q : Numbered fl). fl.eq q.1 v) (value_order fl) all
          ∙ numbered-count fl (λ w. fl.eq w v) 0 values)

  -- The loop over the sorted values.
  sorted_groups-middle :
      (values scores : List fl.F) (n : ℕ)
      → all_true fl.is_finite values ≡ true
      → length values ≡ n
      → midrank_groups fl n
          (at_least_one (n - 1))
          0
          (sort_by (value_order fl) (numbered fl 0 values))
          (repeat fl.zero_ n)
        ≡ ok scores
      → (i : ℕ) (v : fl.F) → item_at values i ≡ ok v
      → item_at scores i ≡ ok (midrank_of fl values v)
  sorted_groups-middle values scores n finite size found i v at =
      let all = sort_by (value_order fl) (numbered fl 0 values) in
      let denominator = at_least_one (length values - 1) in
      let all_finite =
        Each-sort_by fl (λ (q : Numbered fl). fl.is_finite q.1 ≡ true) (value_order fl)
          (numbered fl 0 values) (numbered-Finite fl 0 values finite) in
      let long : length all ≡ n =
        length-sort_by (value_order fl) (numbered fl 0 values)
        ∙ length-numbered fl 0 values
        ∙ size in
      let loops =
        midrank_groups-each fl laws all n (at_least_one (n - 1)) 0 all (repeat fl.zero_ n)
          (omega (arith, long)) all_finite
          (IsOrdered-Descending all all_finite (sorted-IsOrdered values finite))
          (nothing_before all all) in
      place_each-at fl (middle fl (at_least_one (n - 1)) all) values all (repeat fl.zero_ n) i v
        (Each-sort_by fl (λ (q : Numbered fl). item_at values q.0 ≡ ok q.1) (value_order fl)
          (numbered fl 0 values)
          (numbered-Each fl values 0 values
            (λ j w e. ap (item_at values) {x = 0 + j} {y = j} (omega arith) ∙ e)))
        (sym loops ∙ found) at
        (λ none. absurd (
          omega (
            arith,
            none,
            count_if-sort_by (is_at fl i) (value_order fl) (numbered fl 0 values),
            subst (λ n. 1 ≤ count_if (is_at fl n) (numbered fl 0 values)) {x = 0 + i} {y = i}
                (omega arith) (numbered-has fl 0 i values v at),
          )))
      ∙ ap (λ k. ok (middle fl (at_least_one (k - 1)) all v)) (sym size)
      ∙ ap ok (middle-midrank_of values v)
    where
      nothing_before :
          (all some_left : List (Numbered fl))
          → Each
              (λ (q : Numbered fl).
                (greater fl q.1 all ≡ 0 + greater fl q.1 all)
                × (equals fl q.1 all ≡ equals fl q.1 all))
              some_left
      nothing_before all [] = tt
      nothing_before all (q ∷ some_left) = ((omega arith, refl), nothing_before all some_left)

  -- For numbers whose roundings to twelve digits are finite: `_midrank_scores` returns a rank for each,
  -- at its index, and it is the one that counting gives, 1 less the middle of the places of the numbers
  -- that round to the same, over one less than how many numbers there are; neither the order of the
  -- numbers nor the loop over the sorted groups matters, and equal numbers get one rank.
  pub midrank_scores-middle :
      (given : List fl.F)
      → all_true fl.is_finite (rounded fl given) ≡ true
      → (scores : List fl.F) × (midrank_scores fl given ≡ ok scores)
        × (length scores ≡ length given)
        × ((i : ℕ) (v : fl.F)
            → item_at (rounded fl given) i ≡ ok v
            → item_at scores i ≡ ok (midrank_of fl (rounded fl given) v))
  unfolding midrank_scores
  midrank_scores-middle given finite =
      let (scores, found, same) = midrank_scores-Gives fl given in
      (
        scores,
        found,
        same,
        sorted_groups-middle (rounded fl given) scores (length (rounded fl given)) finite refl
            found,
      )
