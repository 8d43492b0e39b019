-- ===== src/Quantiles/Laws.antt =====
-- What the encoder relies on of floats, and the items of a list by their index.
use symbolic_recommendation.Prelude.{
  ℕ, zero, suc, ◌<◌, ◌≡◌, refl, subst, Bool, true, false, not, ◌&&◌, List, [], ◌∷◌, arith, length,
  all_true, IsOrdered, Eq, ◌==◌, elem, Bool-cases, inl, inr, ok,
}
use symbolic_recommendation.Quantiles.{Floats, item_at}

-- What IEEE 754 and `math.isclose` say of finite numbers: they are ordered, equal ones are close where
-- no tolerance is negative, and which of two numbers comes first does not matter to closeness nor to
-- the size of their difference. Numbers that compare equal are one, so that -0.0 is 0.0.
pub record FloatLaws (fl : Floats) : Type 0 where
  pub asymmetric : (a b : fl.F) → fl.lt a b ≡ true → fl.lt b a ≡ false
  pub through :
      (a b c : fl.F)
      → fl.is_finite a ≡ true
      → fl.is_finite b ≡ true
      → fl.is_finite c ≡ true
      → fl.lt b a ≡ false
      → fl.lt c b ≡ false
      → fl.lt c a ≡ false
  pub le_is :
      (a b : fl.F) → fl.is_finite a ≡ true → fl.is_finite b ≡ true → fl.le b a ≡ not (fl.lt a b)
  pub eq_is :
      (a b : fl.F)
      → fl.is_finite a ≡ true
      → fl.is_finite b ≡ true
      → fl.eq a b ≡ (not (fl.lt a b) && not (fl.lt b a))
  pub eq_same :
      (a b : fl.F) → fl.is_finite a ≡ true → fl.is_finite b ≡ true → fl.eq a b ≡ true → a ≡ b
  pub equal_close :
      (relative absolute a b : fl.F)
      → fl.lt relative fl.zero_ ≡ false
      → fl.lt absolute fl.zero_ ≡ false
      → fl.is_finite a ≡ true
      → fl.is_finite b ≡ true
      → fl.lt a b ≡ false
      → fl.lt b a ≡ false
      → fl.is_close relative absolute a b ≡ true
  pub close_swap :
      (relative absolute a b : fl.F)
      → fl.is_close relative absolute a b ≡ fl.is_close relative absolute b a
  pub size_swap :
      (a b : fl.F)
      → fl.is_finite a ≡ true
      → fl.is_finite b ≡ true
      → fl.abs (fl.sub a b) ≡ fl.abs (fl.sub b a)
  pub one_zero : (a : fl.F) → fl.eq a fl.zero_ ≡ true → a ≡ fl.zero_
  pub literal_positive : (n k : ℕ) → fl.lt (fl.literal n k) fl.zero_ ≡ false
  pub zero_finite : fl.is_finite fl.zero_ ≡ true
  pub largest_finite : fl.is_finite fl.largest ≡ true
  pub largest_positive : fl.lt fl.largest fl.zero_ ≡ false
  pub difference_positive :
      (a b : fl.F)
      → fl.is_finite a ≡ true
      → fl.is_finite b ≡ true
      → fl.lt a b ≡ false
      → fl.lt (fl.sub a b) fl.zero_ ≡ false
  pub product_positive :
      (a b : fl.F)
      → fl.lt a fl.zero_ ≡ false
      → fl.lt b fl.zero_ ≡ false
      → fl.lt (fl.mul a b) fl.zero_ ≡ false

pub item_at-in_range {ℓ} :
    {A : Type ℓ} (xs : List A) (i : ℕ) → i < length xs → (a : A) × (item_at xs i ≡ ok a)
unfolding item_at
item_at-in_range [] i h = absurd (omega arith)
item_at-in_range (x ∷ xs) zero h = (x, refl)
item_at-in_range (x ∷ xs) (suc i) h = item_at-in_range xs i (omega arith)

pub all_true-item_at {ℓ} :
    {A : Type ℓ} (p : A → Bool) (xs : List A) (i : ℕ) (a : A)
    → all_true p xs ≡ true
    → item_at xs i ≡ ok a
    → p a ≡ true
unfolding item_at all_true
all_true-item_at p [] i a h e = cc
all_true-item_at p (x ∷ xs) zero a h e = ground arith
all_true-item_at p (x ∷ xs) (suc i) a h e = all_true-item_at p xs i a (ground arith) e

-- Of two elements of an ordered list, the first is before the other.
pub item_at-IsOrdered {ℓ} :
    {A : Type ℓ} (le : A → A → Bool) (xs : List A) (i k : ℕ) (a b : A)
    → IsOrdered le xs
    → i < k
    → item_at xs i ≡ ok a
    → item_at xs k ≡ ok b
    → le a b ≡ true
unfolding item_at
item_at-IsOrdered le [] i k a b o h e f = cc
item_at-IsOrdered le (x ∷ xs) i zero a b o h e f = absurd (omega arith)
item_at-IsOrdered le (x ∷ xs) zero (suc k) a b o h e f =
    all_true-item_at (le a) xs k b (subst (λ y. all_true (le y) xs ≡ true) (cc e) o.0) f
item_at-IsOrdered le (x ∷ xs) (suc i) (suc k) a b o h e f =
    item_at-IsOrdered le xs i k a b o.1 (omega arith) e f

pub item_at-below {ℓ} :
    {A : Type ℓ} (xs : List A) (i : ℕ) (a : A) → item_at xs i ≡ ok a → i < length xs
unfolding item_at
item_at-below [] i a e = cc
item_at-below (x ∷ xs) zero a e = omega arith
item_at-below (x ∷ xs) (suc i) a e = omega (arith, item_at-below xs i a e)

pub all_true-elem {ℓ} :
    {A : Type ℓ} ⦃e : Eq A⦄ (p : A → Bool) (xs : List A) (a : A)
    → all_true p xs ≡ true
    → elem a xs ≡ true
    → p a ≡ true
unfolding all_true
all_true-elem p [] a h m = cc
all_true-elem ⦃e⦄ p (x ∷ xs) a h m = ground (arith, e.beq_iff a x, all_true-elem p xs a)

pub elem-apart {ℓ} :
    {A : Type ℓ} ⦃e : Eq A⦄ (a b : A) (xs : List A)
    → elem a xs ≡ false
    → elem b xs ≡ true
    → (a == b) ≡ false
elem-apart ⦃e⦄ a b xs n m = elim (Bool-cases (a == b)) [
  | inl same ↦ cc (subst (λ x. elem x xs ≡ false) ((e.beq_iff a b).0 same) n, m)
  | inr apart ↦ apart
]
