-- ===== src/Ranking/Order.antt =====
-- The keys of rows are ordered, where their numbers are finite: a sort by them orders the rows.
use symbolic_recommendation.Prelude.{
  ℕ, zero, suc, ◌≡◌, refl, sym, ◌∙◌, Bool, true, false, ◌&&◌, List, [], ◌∷◌, arith, nat_eq, length,
  all_true, sort_by, sort_by_within-IsOrdered, all_true-sort_by, IsOrdered, codes_leb,
}
use symbolic_recommendation.Metta.{Text}
use symbolic_recommendation.Quantiles.{Floats}
use symbolic_recommendation.Quantiles.Laws.{FloatLaws}
use symbolic_recommendation.Ranking.Rows.{RankedRow, key_before, in_order}

codes_leb_total : (s t : Text) → codes_leb s t ≡ false → codes_leb t s ≡ true
codes_leb_total [] t h = cc h
codes_leb_total (x ∷ s) [] h = refl
codes_leb_total (x ∷ s) (y ∷ t) h = ground (arith, codes_leb_total s t)

codes_leb_through :
    (s t u : Text) → codes_leb s t ≡ true → codes_leb t u ≡ true → codes_leb s u ≡ true
codes_leb_through [] t u h g = refl
codes_leb_through (x ∷ s) [] u h g = cc h
codes_leb_through (x ∷ s) (y ∷ t) [] h g = cc g
codes_leb_through (x ∷ s) (y ∷ t) (z ∷ u) h g = ground (arith, codes_leb_through s t u)

module _ (fl : Floats) where
  -- A key of a length whose numbers are finite.
  abbrev pub finite_key : ℕ → List fl.F → Bool
  finite_key n xs = nat_eq (length xs) n && all_true fl.is_finite xs

module _ (fl : Floats) (laws : FloatLaws fl) where
  key_before-asymmetric :
      (n : ℕ) (xs ys : List fl.F) (s t : Text)
      → finite_key fl n xs ≡ true
      → finite_key fl n ys ≡ true
      → key_before fl ys xs t s ≡ true
      → key_before fl xs ys s t ≡ false
  unfolding key_before all_true
  key_before-asymmetric n [] [] s t f g h = ground (arith, codes_leb_total s t)
  key_before-asymmetric n [] (y ∷ ys) s t f g h = ground arith
  key_before-asymmetric n (x ∷ xs) [] s t f g h = ground arith
  key_before-asymmetric zero (x ∷ xs) (y ∷ ys) s t f g h = ground arith
  key_before-asymmetric (suc n) (x ∷ xs) (y ∷ ys) s t f g h = ground (
    arith,
    key_before-asymmetric n xs ys s t,
    laws.eq_is x y,
    laws.eq_is y x,
    laws.asymmetric x y,
  )

  key_before-through :
      (n : ℕ) (xs ys zs : List fl.F) (s t u : Text)
      → finite_key fl n xs ≡ true
      → finite_key fl n ys ≡ true
      → finite_key fl n zs ≡ true
      → key_before fl ys xs t s ≡ false
      → key_before fl zs ys u t ≡ false
      → key_before fl zs xs u s ≡ false
  unfolding key_before all_true
  key_before-through n [] [] [] s t u f g k h i = ground (arith, codes_leb_through s t u)
  key_before-through n [] [] (z ∷ zs) s t u f g k h i = ground arith
  key_before-through n [] (y ∷ ys) zs s t u f g k h i = ground arith
  key_before-through n (x ∷ xs) [] zs s t u f g k h i = ground arith
  key_before-through n (x ∷ xs) (y ∷ ys) [] s t u f g k h i = ground arith
  key_before-through zero (x ∷ xs) (y ∷ ys) (z ∷ zs) s t u f g k h i = ground arith
  key_before-through (suc n) (x ∷ xs) (y ∷ ys) (z ∷ zs) s t u f g k h i = ground (
    arith,
    key_before-through n xs ys zs s t u,
    laws.eq_is y x,
    laws.eq_is z y,
    laws.eq_is z x,
    laws.through x y z,
    laws.through y z x,
    laws.through z x y,
    laws.through y x z,
    laws.through x z y,
    laws.through z y x,
  )

  module _ (key : RankedRow fl → List fl.F) (n : ℕ) where
    -- A row whose key is finite.
    abbrev finite_row : RankedRow fl → Bool
    finite_row r = finite_key fl n (key r)

    pub sort_rows-IsOrdered :
        (rows : List (RankedRow fl))
        → all_true finite_row (sort_by (in_order fl key) rows) ≡ true
        → IsOrdered (in_order fl key) (sort_by (in_order fl key) rows)
    sort_rows-IsOrdered rows h =
        sort_by_within-IsOrdered (in_order fl key) finite_row
          (λ a b fa fb e.
            ground (arith, key_before-asymmetric n (key a) (key b) a.article b.article fa fb))
          (λ a b c fa fb fc e g. ground (
            arith,
            key_before-through n (key a) (key b) (key c) a.article b.article c.article fa fb fc,
          ))
          rows (sym (all_true-sort_by finite_row (in_order fl key) rows) ∙ h)
