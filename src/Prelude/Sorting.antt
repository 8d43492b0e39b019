-- ===== src/Prelude/Sorting.antt =====
-- What a stable sort keeps: the elements, each as often, and the order that it establishes.
use Prim.Native.Nat.{suc}
use mathlib.Core.Path.{◌≡◌, refl, ap, ◌∙◌}
use mathlib.Core.Bool.{Bool, true, false, not, ◌&&◌, ◌||◌}
use mathlib.Core.List.{List, [], ◌∷◌, ◌++◌, reverse, reverse-append}
use native.Mathlib.Omega.{arith}
use symbolic_recommendation.Prelude.Lists.{
  insert_by, sort_by, all_true, any_true, keep_if, length, length-append,
}
use symbolic_recommendation.Prelude.Keys.{Eq, ◌==◌, elem, IsDistinct}

module _ {ℓ} {A : Type ℓ} ⦃e : Eq A⦄ where
  pub elem-append : (a : A) (xs ys : List A) → elem a (xs ++ ys) ≡ (elem a xs || elem a ys)
  elem-append a [] ys = refl
  elem-append a (x ∷ xs) ys = ground (arith, elem-append a xs ys)

  pub elem-insert_by :
      (le : A → A → Bool) (a x : A) (ys : List A)
      → elem a (insert_by le x ys) ≡ (a == x || elem a ys)
  unfolding insert_by
  elem-insert_by le a x [] = refl
  elem-insert_by le a x (y ∷ ys) = ground (arith, elem-insert_by le a x ys)

  pub elem-sort_by : (le : A → A → Bool) (a : A) (xs : List A) → elem a (sort_by le xs) ≡ elem a xs
  unfolding sort_by
  elem-sort_by le a [] = refl
  elem-sort_by le a (x ∷ xs) =
      ground (arith, elem-insert_by le a x (sort_by le xs), elem-sort_by le a xs)

  insert_by-IsDistinct :
      (le : A → A → Bool) (x : A) (ys : List A)
      → elem x ys ≡ false
      → IsDistinct ys
      → IsDistinct (insert_by le x ys)
  unfolding insert_by
  insert_by-IsDistinct le x [] n d = (refl, tt)
  insert_by-IsDistinct le x (y ∷ ys) n d =
      ground (
        arith,
        elem-insert_by le y x ys,
        e.beq_iff x y,
        e.beq_iff y x,
        insert_by-IsDistinct le x ys,
      )

  pub sort_by-IsDistinct :
      (le : A → A → Bool) (xs : List A) → IsDistinct xs → IsDistinct (sort_by le xs)
  unfolding sort_by
  sort_by-IsDistinct le [] d = tt
  sort_by-IsDistinct le (x ∷ xs) d = ground (
    arith,
    elem-sort_by le x xs,
    insert_by-IsDistinct le x (sort_by le xs),
    sort_by-IsDistinct le xs d.1,
  )

-- Every element comes before those that follow it.
abbrev pub IsOrdered {ℓ} : {A : Type ℓ} → (A → A → Bool) → List A → Type 0
IsOrdered le [] = Unit
IsOrdered le (x ∷ xs) = (all_true (le x) xs ≡ true) × IsOrdered le xs

pub all_true-insert_by {ℓ} :
    {A : Type ℓ} (p : A → Bool) (le : A → A → Bool) (x : A) (ys : List A)
    → all_true p (insert_by le x ys) ≡ (p x && all_true p ys)
unfolding insert_by all_true
all_true-insert_by p le x [] = refl
all_true-insert_by p le x (y ∷ ys) = ground (arith, all_true-insert_by p le x ys)

pub all_true-sort_by {ℓ} :
    {A : Type ℓ} (p : A → Bool) (le : A → A → Bool) (xs : List A)
    → all_true p (sort_by le xs) ≡ all_true p xs
unfolding sort_by all_true
all_true-sort_by p le [] = refl
all_true-sort_by p le (x ∷ xs) =
    ground (arith, all_true-insert_by p le x (sort_by le xs), all_true-sort_by p le xs)

-- A sort orders a list on whose elements the comparison is a total preorder.
module _ {ℓ} {A : Type ℓ} (le : A → A → Bool) (p : A → Bool)
    (total : (a b : A) → p a ≡ true → p b ≡ true → le a b ≡ false → le b a ≡ true)
    (through : (a b c : A)
      → p a ≡ true
      → p b ≡ true
      → p c ≡ true
      → le a b ≡ true
      → le b c ≡ true
      → le a c ≡ true) where
  all_true-through :
      (a b : A) (xs : List A)
      → p a ≡ true
      → p b ≡ true
      → all_true p xs ≡ true
      → le a b ≡ true
      → all_true (le b) xs ≡ true
      → all_true (le a) xs ≡ true
  unfolding all_true
  all_true-through a b [] pa pb ps q h = refl
  all_true-through a b (x ∷ xs) pa pb ps q h =
      ground (arith, through a b x, all_true-through a b xs pa pb)

  insert_by-IsOrdered :
      (x : A) (ys : List A)
      → p x ≡ true
      → all_true p ys ≡ true
      → IsOrdered le ys
      → IsOrdered le (insert_by le x ys)
  unfolding insert_by all_true
  insert_by-IsOrdered x [] px ps o = (refl, tt)
  insert_by-IsOrdered x (y ∷ ys) px ps o = ground (
    arith,
    total x y px,
    all_true-through x y ys px,
    all_true-insert_by (le y) le x ys,
    insert_by-IsOrdered x ys px,
  )

  pub sort_by_within-IsOrdered : (xs : List A) → all_true p xs ≡ true → IsOrdered le (sort_by le xs)
  unfolding sort_by all_true
  sort_by_within-IsOrdered [] h = tt
  sort_by_within-IsOrdered (x ∷ xs) h =
      insert_by-IsOrdered x (sort_by le xs) (ground arith)
        (all_true-sort_by p le xs ∙ (ground arith)) (sort_by_within-IsOrdered xs (ground arith))

all_true-always {ℓ} : {A : Type ℓ} (xs : List A) → all_true (λ a. true) xs ≡ true
unfolding all_true
all_true-always [] = refl
all_true-always (x ∷ xs) = all_true-always xs

module _ {ℓ} {A : Type ℓ} (le : A → A → Bool) (total : (a b : A) → le a b ≡ false → le b a ≡ true)
    (through : (a b c : A) → le a b ≡ true → le b c ≡ true → le a c ≡ true) where
  pub sort_by-IsOrdered : (xs : List A) → IsOrdered le (sort_by le xs)
  sort_by-IsOrdered xs =
      sort_by_within-IsOrdered le (λ a. true) (λ a b pa pb. total a b)
        (λ a b c pa pb pc. through a b c) xs (all_true-always xs)

module _ {ℓ} {A : Type ℓ} ⦃e : Eq A⦄ where
  pub IsDistinct-append_right : (xs ys : List A) → IsDistinct (xs ++ ys) → IsDistinct ys
  IsDistinct-append_right [] ys d = d
  IsDistinct-append_right (x ∷ xs) ys d = IsDistinct-append_right xs ys d.1

  pub elem-keep_if :
      (p : A → Bool) (k : A) (ks : List A) → elem k (keep_if p ks) ≡ (p k && elem k ks)
  unfolding keep_if
  elem-keep_if p k [] = ground arith
  elem-keep_if p k (j ∷ ks) = ground (arith, e.beq_iff k j, elem-keep_if p k ks)

  pub keep_if-IsDistinct : (p : A → Bool) (ks : List A) → IsDistinct ks → IsDistinct (keep_if p ks)
  unfolding keep_if
  keep_if-IsDistinct p [] d = tt
  keep_if-IsDistinct p (k ∷ ks) d = ground (arith, elem-keep_if p k ks, keep_if-IsDistinct p ks d.1)

  pub append-IsDistinct :
      (xs ys : List A)
      → IsDistinct xs
      → IsDistinct ys
      → ((k : A) → elem k xs ≡ true → elem k ys ≡ false)
      → IsDistinct (xs ++ ys)
  append-IsDistinct [] ys d d' apart = d'
  append-IsDistinct (x ∷ xs) ys d d' apart = (
    ground (arith, elem-append x xs ys, apart x, e.beq_iff x x),
    append-IsDistinct xs ys d.1 d' (λ k h. apart k (ground arith)),
  )

  pub IsDistinct-append_one :
      (a : A) (xs : List A) → elem a xs ≡ false → IsDistinct xs → IsDistinct (xs ++ a ∷ [])
  IsDistinct-append_one a [] n d = (refl, tt)
  IsDistinct-append_one a (x ∷ xs) n d =
      ground
        (arith, elem-append x xs (a ∷ []), e.beq_iff x a, e.beq_iff a x, IsDistinct-append_one a xs)

pub length-reverse {ℓ} : {A : Type ℓ} (xs : List A) → length (reverse xs) ≡ length xs
length-reverse [] = refl
length-reverse (x ∷ xs) =
    ap length (reverse-append (x ∷ []) xs)
    ∙ length-append (reverse xs) (x ∷ [])
    ∙ omega (arith, length-reverse xs)

pub length-insert_by {ℓ} :
    {A : Type ℓ} (le : A → A → Bool) (x : A) (ys : List A)
    → length (insert_by le x ys) ≡ suc (length ys)
unfolding insert_by
length-insert_by le x [] = refl
length-insert_by le x (y ∷ ys) = ground (arith, length-insert_by le x ys)

pub length-sort_by {ℓ} :
    {A : Type ℓ} (le : A → A → Bool) (xs : List A) → length (sort_by le xs) ≡ length xs
unfolding sort_by
length-sort_by le [] = refl
length-sort_by le (x ∷ xs) =
    omega (arith, length-insert_by le x (sort_by le xs), length-sort_by le xs)

module _ {ℓ} {A : Type ℓ} (p : A → Bool) where
  pub all_true-append : (xs ys : List A) → all_true p (xs ++ ys) ≡ (all_true p xs && all_true p ys)
  unfolding all_true
  all_true-append [] ys = refl
  all_true-append (x ∷ xs) ys = ground (arith, all_true-append xs ys)

  pub any_true-not : (xs : List A) → all_true p xs ≡ true → any_true (λ x. not (p x)) xs ≡ false
  unfolding all_true any_true
  any_true-not [] h = refl
  any_true-not (x ∷ xs) h = ground (arith, any_true-not xs)

  pub all_true-keep_if :
      (q : A → Bool) (xs : List A) → all_true p xs ≡ true → all_true p (keep_if q xs) ≡ true
  unfolding all_true keep_if
  all_true-keep_if q [] h = refl
  all_true-keep_if q (x ∷ xs) h = ground (arith, all_true-keep_if q xs)
