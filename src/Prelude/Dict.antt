-- ===== src/Prelude/Dict.antt =====
-- Python's `dict` as an association list: entries stand in insertion order, an assignment to a
-- present key keeps its place.
use Prim.Native.Nat.{suc, ◌≤◌}
use mathlib.Core.Path.{◌≡◌, refl, subst}
use mathlib.Core.Logic.{inl, inr}
use mathlib.Core.Bool.{Bool, false, ◌||◌}
use mathlib.Core.Option.{Option, none, some}
use mathlib.Core.List.{List, [], ◌∷◌}
use native.Mathlib.Omega.{arith}
use symbolic_recommendation.Prelude.Tests.{if◌then◌else◌, is_some, Bool-cases}
use symbolic_recommendation.Prelude.Lists.{length}
use symbolic_recommendation.Prelude.Keys.{Eq, ◌==◌, elem, IsDistinct}

some-injective {ℓ} : {A : Type ℓ} {a b : A} → some a ≡ some b → a ≡ b
some-injective h = cc

abbrev pub Dict {ℓ κ} : Type ℓ → Type κ → Type (ℓ ⊔ κ)
Dict K V = List (K × V)

module _ {ℓ κ} {K : Type ℓ} {V : Type κ} where
  abbrev pub keys : Dict K V → List K
  keys [] = []
  keys ((k, v) ∷ d) = k ∷ keys d

module _ {ℓ κ} {K : Type ℓ} {V : Type κ} ⦃e : Eq K⦄ where
  -- d.get(k)
  unfoldable pub get : K → Dict K V → Option V
  get k [] = none
  get k ((j, v) ∷ d) = if k == j then some v else get k d

  -- d[k] = v
  unfoldable pub put : K → V → Dict K V → Dict K V
  put k v [] = (k, v) ∷ []
  put k v ((j, w) ∷ d) = let rest = put k v d in if k == j then (j, v) ∷ d else (j, w) ∷ rest

  -- d.pop(k, None)
  unfoldable pub remove : K → Dict K V → Dict K V
  remove k [] = []
  remove k ((j, w) ∷ d) = let rest = remove k d in if k == j then rest else (j, w) ∷ rest

  -- k in d
  abbrev pub has : K → Dict K V → Bool
  has k d = elem k (keys d)

  pub get-put :
      (k j : K) (v : V) (d : Dict K V) → get j (put k v d) ≡ (if j == k then some v else get j d)
  unfolding get put
  get-put k j v [] = refl
  get-put k j v ((i, w) ∷ d) =
      ground (arith, e.beq_iff k i, e.beq_iff j i, e.beq_iff j k, get-put k j v d)

  pub get-remove :
      (k j : K) (d : Dict K V) → get j (remove k d) ≡ (if j == k then none else get j d)
  unfolding get remove
  get-remove k j [] = ground arith
  get-remove k j ((i, w) ∷ d) =
      ground (arith, e.beq_iff k i, e.beq_iff j i, e.beq_iff j k, get-remove k j d)

  pub is_some-get : (k : K) (d : Dict K V) → is_some (get k d) ≡ has k d
  unfolding get
  is_some-get k [] = refl
  is_some-get k ((j, v) ∷ d) = ground (arith, is_some-get k d)

  pub elem-put : (k j : K) (v : V) (d : Dict K V) → has j (put k v d) ≡ (j == k || has j d)
  unfolding put
  elem-put k j v [] = refl
  elem-put k j v ((i, w) ∷ d) =
      ground (arith, e.beq_iff k i, e.beq_iff j i, e.beq_iff j k, elem-put k j v d)

  pub elem-remove :
      (k j : K) (d : Dict K V) → has j (remove k d) ≡ (if j == k then false else has j d)
  unfolding remove
  elem-remove k j [] = ground arith
  elem-remove k j ((i, w) ∷ d) =
      ground (arith, e.beq_iff k i, e.beq_iff j i, e.beq_iff j k, elem-remove k j d)

  -- A dict holds each key once.
  pub put-IsDistinct :
      (k : K) (v : V) (d : Dict K V) → IsDistinct (keys d) → IsDistinct (keys (put k v d))
  unfolding put
  put-IsDistinct k v [] h = (refl, tt)
  put-IsDistinct k v ((i, w) ∷ d) h =
      ground (arith, e.beq_iff k i, e.beq_iff i k, elem-put k i v d, put-IsDistinct k v d h.1)

  pub remove-IsDistinct :
      (k : K) (d : Dict K V) → IsDistinct (keys d) → IsDistinct (keys (remove k d))
  unfolding remove
  remove-IsDistinct k [] h = tt
  remove-IsDistinct k ((i, w) ∷ d) h =
      ground (arith, e.beq_iff k i, e.beq_iff i k, elem-remove k i d, remove-IsDistinct k d h.1)

  pub length-put :
      (k : K) (v : V) (d : Dict K V)
      → length (put k v d) ≡ (if has k d then length d else suc (length d))
  unfolding put
  length-put k v [] = refl
  length-put k v ((i, w) ∷ d) = ground (arith, length-put k v d)

  pub length-remove-le : (k : K) (d : Dict K V) → length (remove k d) ≤ length d
  unfolding remove
  length-remove-le k [] = omega arith
  length-remove-le k ((i, w) ∷ d) = ground (arith, length-remove-le k d)

module _ {ℓ κ} {K : Type ℓ} {V : Type κ} where
  abbrev pub AllValues : (V → Type 0) → Dict K V → Type 0
  AllValues p [] = Unit
  AllValues p ((k, v) ∷ d) = p v × AllValues p d

  pub get-AllValues :
      ⦃e : Eq K⦄ (p : V → Type 0) (k : K) (v : V) (d : Dict K V)
      → AllValues p d
      → get k d ≡ some v
      → p v
  unfolding get
  get-AllValues p k v [] h found = cc found
  get-AllValues p k v ((j, w) ∷ d) h found = elim (Bool-cases (k == j)) [
    | inl same ↦ subst p (some-injective (rw same at found)) h.0
    | inr other ↦ get-AllValues p k v d h.1 (rw other at found)
  ]

  pub put-AllValues :
      ⦃e : Eq K⦄ (p : V → Type 0) (k : K) (v : V) (d : Dict K V)
      → AllValues p d
      → p v
      → AllValues p (put k v d)
  unfolding put
  put-AllValues p k v [] h pv = (pv, tt)
  put-AllValues p k v ((j, w) ∷ d) h pv = elim (Bool-cases (k == j)) [
    | inl same ↦ rw same (pv, h.1)
    | inr other ↦ rw other (h.0, put-AllValues p k v d h.1 pv)
  ]
