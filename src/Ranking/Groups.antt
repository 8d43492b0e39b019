-- ===== src/Ranking/Groups.antt =====
-- The groups of equal values in a descending list, and the ranks that the loop over them gives.
use symbolic_recommendation.Prelude.{
  ℕ, zero, suc, ◌+◌, ◌≡◌, refl, sym, ◌∙◌, ap, subst, fun_ext, true, false, List, [], ◌∷◌, ◌++◌,
  arith, length, take, drop, take-append-drop, count_if, inl, inr, Result, Result-cases, ok, ◌>>=◌,
}
use symbolic_recommendation.Quantiles.{Floats}
use symbolic_recommendation.Quantiles.Laws.{FloatLaws}
use symbolic_recommendation.Ranking.Margins.{update_at}
use symbolic_recommendation.Ranking.Midranks.{midrank, place_all}

-- A property of every element.
abbrev pub Each {ℓ} : {A : Type ℓ} → (A → Type 0) → List A → Type 0
Each p [] = Unit
Each p (x ∷ xs) = p x × Each p xs

module _ {ℓ} {A : Type ℓ} (p : A → Type 0) where
  pub Each-right : (xs ys : List A) → Each p (xs ++ ys) → Each p ys
  Each-right [] ys h = h
  Each-right (x ∷ xs) ys h = Each-right xs ys h.1

  pub Each-drop : (n : ℕ) (xs : List A) → Each p xs → Each p (drop n xs)
  Each-drop n xs h =
      Each-right (take n xs) (drop n xs) (subst (Each p) (sym (take-append-drop n xs)) h)

module _ (fl : Floats) where
  abbrev pub Numbered : Type 0
  Numbered = ℕ × fl.F

  abbrev pub Finite : List Numbered → Type 0
  Finite = Each (λ (q : Numbered). fl.is_finite q.1 ≡ true)

  abbrev pub Descending : List Numbered → Type 0
  Descending [] = Unit
  Descending (p ∷ rest) = Each (λ (q : Numbered). fl.lt p.1 q.1 ≡ false) rest × Descending rest

  pub Descending-drop : (n : ℕ) (xs : List Numbered) → Descending xs → Descending (drop n xs)
  Descending-drop zero xs h = h
  Descending-drop (suc n) [] h = tt
  Descending-drop (suc n) (x ∷ xs) h = Descending-drop n xs h.1

  -- How many are above a value, and how many are equal to it.
  abbrev pub greater : fl.F → List Numbered → ℕ
  greater v = count_if (λ (q : Numbered). fl.lt v q.1)

  abbrev pub equals : fl.F → List Numbered → ℕ
  equals v = count_if (λ (q : Numbered). fl.eq q.1 v)

  -- The middle of the places of the values that are equal to one.
  abbrev pub middle : ℕ → List Numbered → fl.F → fl.F
  middle denominator all v = midrank fl denominator (greater v all) (greater v all + equals v all)

  -- Each index gets the rank of its value.
  unfoldable pub place_each : (fl.F → fl.F) → List Numbered → List fl.F → Result (List fl.F)
  place_each rank [] scores = ok scores
  place_each rank (p ∷ rest) scores =
      update_at (λ x. rank p.1) p.0 scores >>= λ next. place_each rank rest next

  pub place_nothing :
      (rank : fl.F → fl.F) (scores : List fl.F) → ok scores ≡ place_each rank [] scores
  unfolding place_each
  place_nothing rank scores = refl

  pub place_all-Each :
      (rank : fl.F → fl.F) (c : fl.F) (group : List Numbered) (scores : List fl.F)
      → Each (λ (q : Numbered). rank q.1 ≡ c) group
      → place_all fl c group scores ≡ place_each rank group scores
  unfolding place_all place_each
  place_all-Each rank c [] scores h = refl
  place_all-Each rank c (p ∷ group) scores h =
      ap (λ r. update_at (λ x. r) p.0 scores >>= λ next. place_all fl c group next) (sym h.0)
      ∙ ap (λ f. update_at (λ x. rank p.1) p.0 scores >>= f)
          (fun_ext (λ next. place_all-Each rank c group next h.1))

  pub place_each-append :
      (rank : fl.F → fl.F) (xs ys : List Numbered) (scores : List fl.F)
      → place_each rank (xs ++ ys) scores
        ≡ (place_each rank xs scores >>= λ next. place_each rank ys next)
  unfolding place_each
  place_each-append rank [] ys scores = refl
  place_each-append rank (x ∷ xs) ys scores =
      elim (Result-cases (update_at (λ z. rank x.1) x.0 scores)) [
        | inl (next, found) ↦ rw found (place_each-append rank xs ys next)
        | inr (e, raised) ↦ rw raised refl
      ]

module _ (fl : Floats) (laws : FloatLaws fl) where
  pub irreflexive : (v : fl.F) → fl.lt v v ≡ false
  irreflexive v = ground (arith, laws.asymmetric v v)

  -- Equal values are counted as equal to it, and none of them is above it.
  pub same-counts :
      (v : fl.F) (xs : List (Numbered fl))
      → fl.is_finite v ≡ true
      → Each (λ (q : Numbered fl). q.1 ≡ v) xs
      → (greater fl v xs ≡ 0) × (equals fl v xs ≡ length xs)
  unfolding count_if
  same-counts v [] f h = (refl, refl)
  same-counts v (x ∷ xs) f h =
      let (none_above, all_equal) = same-counts v xs f h.1 in
      rw (h.0, irreflexive v, laws.eq_is v v f f, irreflexive v)
        (none_above, omega (arith, all_equal))

  -- Of lower values none is above it and none is equal.
  pub lower-counts :
      (v : fl.F) (xs : List (Numbered fl))
      → fl.is_finite v ≡ true
      → Finite fl xs
      → Each (λ (q : Numbered fl). fl.lt q.1 v ≡ true) xs
      → (greater fl v xs ≡ 0) × (equals fl v xs ≡ 0)
  unfolding count_if
  lower-counts v [] f g h = (refl, refl)
  lower-counts v (x ∷ xs) f g h =
      let counts = lower-counts v xs f g.1 h.1 in
      rw (laws.asymmetric x.1 v h.0, laws.eq_is x.1 v g.0 f, h.0) counts

  -- Of a group of one value, all are above a lower value.
  pub group-counts :
      (v w : fl.F) (xs : List (Numbered fl))
      → fl.is_finite v ≡ true
      → fl.is_finite w ≡ true
      → fl.lt w v ≡ true
      → Each (λ (q : Numbered fl). q.1 ≡ v) xs
      → (greater fl w xs ≡ length xs) × (equals fl w xs ≡ 0)
  unfolding count_if
  group-counts v w [] f g l h = (refl, refl)
  group-counts v w (x ∷ xs) f g l h =
      let (above, apart) = group-counts v w xs f g l h.1 in
      rw (h.0, l, laws.eq_is v w f g, l, laws.asymmetric w v l) (omega (arith, above), apart)
