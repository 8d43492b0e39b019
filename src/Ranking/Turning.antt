-- ===== src/Ranking/Turning.antt =====
-- What turning a pair's facts round does to a dict of facts, and to its building.
use symbolic_recommendation.Prelude.{
  ◌≡◌, refl, sym, ◌∙◌, ap, true, false, Option, none, some, List, [], ◌∷◌, ◌++◌, append_assoc,
  append-nil, subst, arith, ok-injective, >>=-eq-ok, IsDistinct, ◌==◌, code_keys, Bool-cases, inl,
  inr, Result, ok, err, ◌>>=◌,
}
use symbolic_recommendation.Prelude.Dict.{Dict, get, put, has, keys, elem-put, put-IsDistinct}
use symbolic_recommendation.Metta.{Text}
use symbolic_recommendation.Ranking.{PairAttrs}
use symbolic_recommendation.Ranking.Comparisons.{
  Comparison, put_some, put_values, wants, put_wanted,
}
use symbolic_recommendation.Ranking.Features.{
  bound_value, put_bounded, bound_from, bounded_pair_features,
}
use symbolic_recommendation.Ranking.Reversal.{reverse_value, reverse_from, reverse_pair_features}

-- Every value turned round, in place.
unfoldable pub turned : PairAttrs → PairAttrs
turned [] = []
turned ((p, v) ∷ attrs) = (p, reverse_value v) ∷ turned attrs

abbrev pub turned_option : Option Text → Option Text
turned_option none = none
turned_option (some v) = some (reverse_value v)

abbrev pub map_ok {ℓ κ} : {A : Type ℓ} {B : Type κ} → (A → B) → Result A → Result B
map_ok f (err e) = err e
map_ok f (ok a) = ok (f a)

pub put-turned :
    (p v : Text) (attrs : PairAttrs)
    → turned (put p v attrs) ≡ put p (reverse_value v) (turned attrs)
unfolding turned put
put-turned p v [] = refl
put-turned p v ((q, w) ∷ attrs) = elim (Bool-cases (p == q)) [
  | inl same ↦ rw same refl
  | inr other ↦ rw other (ap (λ l. (q, reverse_value w) ∷ l) (put-turned p v attrs))
]

put-new :
    (p v : Text) (attrs : PairAttrs) → has p attrs ≡ false → put p v attrs ≡ attrs ++ (p, v) ∷ []
unfolding put
put-new p v [] h = refl
put-new p v ((q, w) ∷ attrs) h = elim (Bool-cases (p == q)) [
  | inl same ↦ absurd (ground arith)
  | inr other ↦ rw other (ap (λ l. (q, w) ∷ l) (put-new p v attrs (ground arith)))
]

reverse_from-append :
    (attrs reversed : PairAttrs)
    → IsDistinct (keys attrs)
    → ((p : Text) → has p attrs ≡ true → has p reversed ≡ false)
    → reverse_from attrs reversed ≡ reversed ++ turned attrs
unfolding reverse_from turned get
reverse_from-append [] reversed h new = sym (append-nil reversed)
reverse_from-append ((p, v) ∷ attrs) reversed h new =
    let fresh = new p (ground (arith, code_keys.beq_iff p p)) in
    reverse_from-append attrs (put p (reverse_value v) reversed) h.1 (still_new h.0)
    ∙ ap (λ l. l ++ turned attrs) (put-new p (reverse_value v) reversed fresh)
    ∙ append_assoc reversed ((p, reverse_value v) ∷ []) (turned attrs)
  where
    still_new :
        has p attrs ≡ false
        → (q : Text) → has q attrs ≡ true
        → has q (put p (reverse_value v) reversed) ≡ false
    still_new once q m =
        ground (arith, elem-put p q (reverse_value v) reversed, code_keys.beq_iff q p, new q)

-- For facts with each predicate once, the reversed dict is the dict with its values reversed.
pub reverse-turned :
    (attrs : PairAttrs) → IsDistinct (keys attrs) → reverse_pair_features attrs ≡ turned attrs
unfolding reverse_pair_features
reverse-turned attrs h = reverse_from-append attrs [] h (λ p m. refl)

-- A loop whose values are turned round turns its dict round.
pub put_values-turned :
    (value other : Text → Result (Option Text)) (comparisons : List Comparison) (attrs : PairAttrs)
    → ((source : Text) → other source ≡ map_ok turned_option (value source))
    → put_values other comparisons (turned attrs)
      ≡ map_ok turned (put_values value comparisons attrs)
unfolding put_values
put_values-turned value other [] attrs h = refl
put_values-turned value other (c ∷ comparisons) attrs h =
    rw (h c.1) (step (value c.1) (λ built. put_values-turned value other comparisons built h))
  where
    step :
        (r : Result (Option Text))
        → ((built : PairAttrs)
            → put_values other comparisons (turned built)
              ≡ map_ok turned (put_values value comparisons built))
        → (map_ok turned_option r >>= λ v.
            put_values other comparisons (put_some c.0 v (turned attrs)))
          ≡ map_ok turned (r >>= λ v. put_values value comparisons (put_some c.0 v attrs))
    step (err e) rest = refl
    step (ok none) rest = rest attrs
    step (ok (some v)) rest =
        ap (put_values other comparisons) (sym (put-turned c.0 v attrs)) ∙ rest (put c.0 v attrs)

pub put_values-IsDistinct :
    (value : Text → Result (Option Text)) (comparisons : List Comparison) (attrs : PairAttrs)
    {built : PairAttrs}
    → put_values value comparisons attrs ≡ ok built
    → IsDistinct (keys attrs)
    → IsDistinct (keys built)
unfolding put_values
put_values-IsDistinct value [] attrs e h = subst (λ l. IsDistinct (keys l)) (ok-injective e) h
put_values-IsDistinct value (c ∷ comparisons) attrs e h =
    let (v, _, built) = >>=-eq-ok (value c.1) _ e in
    put_values-IsDistinct value comparisons (put_some c.0 v attrs) built (put_some_distinct v)
  where
    put_some_distinct : (v : Option Text) → IsDistinct (keys (put_some c.0 v attrs))
    put_some_distinct none = h
    put_some_distinct (some v) = put-IsDistinct c.0 v attrs h

pub put_wanted-turned :
    (needed : Option (List Text)) (p v w : Text) (attrs : PairAttrs)
    → w ≡ reverse_value v
    → put_wanted needed p w (turned attrs) ≡ turned (put_wanted needed p v attrs)
put_wanted-turned needed p v w attrs h = elim (Bool-cases (wants needed p)) [
  | inl wanted ↦ rw (wanted, h) (sym (put-turned p v attrs))
  | inr unwanted ↦ rw unwanted refl
]

pub put_wanted-IsDistinct :
    (needed : Option (List Text)) (p v : Text) (attrs : PairAttrs)
    → IsDistinct (keys attrs)
    → IsDistinct (keys (put_wanted needed p v attrs))
put_wanted-IsDistinct needed p v attrs h = elim (Bool-cases (wants needed p)) [
  | inl wanted ↦ rw wanted (put-IsDistinct p v attrs h)
  | inr unwanted ↦ rw unwanted h
]

-- The bounded facts hold each predicate once.
put_bounded-IsDistinct :
    (allowed : Option (List Text)) (p v : Text) (attrs : PairAttrs)
    → IsDistinct (keys attrs)
    → IsDistinct (keys (put_bounded allowed p v attrs))
put_bounded-IsDistinct none p v attrs h = h
put_bounded-IsDistinct (some []) p v attrs h = h
put_bounded-IsDistinct (some (a ∷ allowed)) p v attrs h =
    put-IsDistinct p (bound_value (a ∷ allowed) v) attrs h

bound_from-IsDistinct :
    (vocabulary : Dict Text (List Text)) (attrs bounded : PairAttrs)
    → IsDistinct (keys bounded)
    → IsDistinct (keys (bound_from vocabulary attrs bounded))
unfolding bound_from
bound_from-IsDistinct vocabulary [] bounded h = h
bound_from-IsDistinct vocabulary ((p, v) ∷ attrs) bounded h =
    bound_from-IsDistinct vocabulary attrs (put_bounded (get p vocabulary) p v bounded)
      (put_bounded-IsDistinct (get p vocabulary) p v bounded h)

pub bounded-IsDistinct :
    (vocabulary : Dict Text (List Text)) (attrs : PairAttrs)
    → IsDistinct (keys (bounded_pair_features vocabulary attrs))
unfolding bounded_pair_features
bounded-IsDistinct vocabulary attrs = bound_from-IsDistinct vocabulary attrs [] tt
