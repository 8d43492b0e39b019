-- ===== src/Ranking/Placed.antt =====
-- The numbered values of a list, and the ranks that are written at their numbers.
use symbolic_recommendation.Prelude.{
  ℕ, zero, suc, ◌+◌, ◌≤◌, ◌≡◌, refl, sym, ◌∙◌, ap, subst, Bool, true, false, List, [], ◌∷◌, arith,
  nat_eq, length, count_if, insert_by, sort_by, all_true, Bool-cases, inl, inr, ok, ok-injective,
  >>=-eq-ok,
}
use symbolic_recommendation.Quantiles.{Floats, item_at}
use symbolic_recommendation.Ranking.Margins.{update_at}
use symbolic_recommendation.Ranking.Midranks.{numbered}
use symbolic_recommendation.Ranking.Groups.{Each, Numbered, Finite, place_each}

item_at-here :
    {A : Type 0} (x : A) (i : ℕ) (xs : List A) {ys : List A}
    → update_at (λ z. x) i xs ≡ ok ys
    → item_at ys i ≡ ok x
unfolding update_at item_at
item_at-here x i [] e = cc e
item_at-here x zero (z ∷ xs) e = subst (λ l. item_at l 0 ≡ ok x) (ok-injective e) refl
item_at-here x (suc i) (z ∷ xs) e =
    let (ys, found, e1) = >>=-eq-ok (update_at (λ z. x) i xs) _ e in
    subst (λ l. item_at l (suc i) ≡ ok x) (ok-injective e1) (item_at-here x i xs found)

item_at-there :
    {A : Type 0} (x : A) (i j : ℕ) (xs : List A) {ys : List A}
    → nat_eq j i ≡ false
    → update_at (λ z. x) i xs ≡ ok ys
    → item_at ys j ≡ item_at xs j
unfolding update_at item_at
item_at-there x i j [] other e = cc e
item_at-there x zero zero (z ∷ xs) other e = absurd (ground arith)
item_at-there x zero (suc j) (z ∷ xs) other e = ap (λ l. item_at l (suc j)) (sym (ok-injective e))
item_at-there x (suc i) zero (z ∷ xs) other e =
    let (ys, found, e1) = >>=-eq-ok (update_at (λ z. x) i xs) _ e in
    ap (λ l. item_at l 0) (sym (ok-injective e1))
item_at-there x (suc i) (suc j) (z ∷ xs) other e =
    let (ys, found, e1) = >>=-eq-ok (update_at (λ z. x) i xs) _ e in
    ap (λ l. item_at l (suc j)) (sym (ok-injective e1))
    ∙ item_at-there x i j xs (ground arith) found

module _ (fl : Floats) where
  -- Whether an index is among the places.
  abbrev pub is_at : ℕ → Numbered fl → Bool
  is_at i q = nat_eq i q.0

  pub place_each-at :
      (rank : fl.F → fl.F) (values : List fl.F) (places : List (Numbered fl)) (scores : List fl.F)
      {final : List fl.F} (i : ℕ) (v : fl.F)
      → Each (λ (q : Numbered fl). item_at values q.0 ≡ ok q.1) places
      → place_each fl rank places scores ≡ ok final
      → item_at values i ≡ ok v
      → (count_if (is_at i) places ≡ 0 → item_at scores i ≡ ok (rank v))
      → item_at final i ≡ ok (rank v)
  unfolding place_each count_if
  place_each-at rank values [] scores i v each e at found =
      subst (λ l. item_at l i ≡ ok (rank v)) (ok-injective e) (found refl)
  place_each-at rank values (p ∷ places) scores i v each e at found =
      let (next, placed, e1) = >>=-eq-ok (update_at (λ z. rank p.1) p.0 scores) _ e in
      place_each-at rank values places next i v each.1 e1 at (λ none_left.
        elim (Bool-cases (nat_eq i p.0)) [
          | inl here ↦
              ap (item_at next) {x = i} {y = p.0} (ground arith)
              ∙ item_at-here (rank p.1) p.0 scores placed
              ∙ ap (λ x. ok (rank x)) (same_value here)
          | inr there ↦
              item_at-there (rank p.1) p.0 i scores there placed ∙ found (rw there none_left)
        ])
    where
      same_value : nat_eq i p.0 ≡ true → p.1 ≡ v
      same_value here =
          ok-injective (sym each.0 ∙ ap (item_at values) {x = p.0} {y = i} (ground arith) ∙ at)

  Each-insert_by :
      (p : Numbered fl → Type 0) (le : Numbered fl → Numbered fl → Bool) (x : Numbered fl)
      (xs : List (Numbered fl))
      → p x
      → Each p xs
      → Each p (insert_by le x xs)
  unfolding insert_by
  Each-insert_by p le x [] px h = (px, tt)
  Each-insert_by p le x (y ∷ ys) px h = elim (Bool-cases (le x y)) [
    | inl before ↦ rw before (px, h)
    | inr after ↦ rw after (h.0, Each-insert_by p le x ys px h.1)
  ]

  pub Each-sort_by :
      (p : Numbered fl → Type 0) (le : Numbered fl → Numbered fl → Bool) (xs : List (Numbered fl))
      → Each p xs
      → Each p (sort_by le xs)
  unfolding sort_by
  Each-sort_by p le [] h = tt
  Each-sort_by p le (x ∷ xs) h =
      Each-insert_by p le x (sort_by le xs) h.0 (Each-sort_by p le xs h.1)

  pub numbered-Each :
      (values : List fl.F) (k : ℕ) (rest : List fl.F)
      → ((i : ℕ) (v : fl.F) → item_at rest i ≡ ok v → item_at values (k + i) ≡ ok v)
      → Each (λ (q : Numbered fl). item_at values q.0 ≡ ok q.1) (numbered fl k rest)
  unfolding numbered item_at
  numbered-Each values k [] h = tt
  numbered-Each values k (x ∷ rest) h = (
    ap (item_at values) {x = k} {y = k + 0} (omega arith) ∙ h 0 x refl,
    numbered-Each values (suc k) rest (λ i v e.
        ap (item_at values) {x = suc k + i} {y = k + suc i} (omega arith) ∙ h (suc i) v e),
  )

  pub numbered-count :
      (p : fl.F → Bool) (k : ℕ) (values : List fl.F)
      → count_if (λ (q : Numbered fl). p q.1) (numbered fl k values) ≡ count_if p values
  unfolding numbered count_if
  numbered-count p k [] = refl
  numbered-count p k (x ∷ values) = ground (arith, numbered-count p (suc k) values)

  pub numbered-Finite :
      (k : ℕ) (values : List fl.F)
      → all_true fl.is_finite values ≡ true
      → Finite fl (numbered fl k values)
  unfolding numbered all_true
  numbered-Finite k [] h = tt
  numbered-Finite k (x ∷ values) h = (ground arith, numbered-Finite (suc k) values (ground arith))

  pub length-numbered : (k : ℕ) (values : List fl.F) → length (numbered fl k values) ≡ length values
  unfolding numbered
  length-numbered k [] = refl
  length-numbered k (x ∷ values) = omega (arith, length-numbered (suc k) values)

  -- An index of the list is among the places.
  pub numbered-has :
      (k i : ℕ) (values : List fl.F) (v : fl.F)
      → item_at values i ≡ ok v
      → 1 ≤ count_if (is_at (k + i)) (numbered fl k values)
  unfolding numbered count_if item_at
  numbered-has k i [] v e = cc e
  numbered-has k zero (x ∷ values) v e = ground arith
  numbered-has k (suc i) (x ∷ values) v e =
      let more : 1 ≤ count_if (is_at (k + suc i)) (numbered fl (suc k) values) =
        subst (λ n. 1 ≤ count_if (is_at n) (numbered fl (suc k) values)) {x = suc k + i}
          {y = k + suc i} (omega arith) (numbered-has (suc k) i values v e) in
      ground (arith, more)
