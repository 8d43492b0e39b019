-- ===== src/Ranking/Reversed.antt =====
-- The facts of a pair turned round are the facts of the pair the other way round.
use symbolic_recommendation.Prelude.{
  ◌≡◌, refl, sym, ◌∙◌, ap, Option, List, [], IsDistinct, ◌==◌, code_keys, Bool-cases, inl, inr,
  codes, Result, ok, err, ◌>>=◌, >>=-eq-ok, ok-injective, subst,
}
use symbolic_recommendation.Prelude.Dict.{keys}
use symbolic_recommendation.Metta.{Text}
use symbolic_recommendation.Quantiles.{Floats}
use symbolic_recommendation.Quantiles.Laws.{FloatLaws}
use symbolic_recommendation.Ranking.{PairAttrs}
use symbolic_recommendation.Ranking.Comparisons.{
  or_unknown, put_values, put_wanted, same_or_different, choose, pair_ordered_comparisons,
  pair_direct_numeric_comparisons, pair_llm_comparisons, numeric_pair_evidence,
}
use symbolic_recommendation.Ranking.Features.{
  Candidate, Encoders, scope_value, put_same, ordered_value, direct_value, llm_value,
  quantile_value, pair_features,
}
use symbolic_recommendation.Ranking.Reversal.{reverse_value, reverse_pair_features}
use symbolic_recommendation.Ranking.Turning.{
  turned, map_ok, reverse-turned, put_values-turned, put_values-IsDistinct, put_wanted-turned,
  put_wanted-IsDistinct,
}
use symbolic_recommendation.Ranking.Antisymmetry.{
  beq_sym, ordered_value-swap, direct_value-swap, llm_value-swap, IsFitted, quantile_value-swap,
}

-- A scope that is no direction.
abbrev pub IsNeutral : {fl : Floats} → Candidate fl → Type 0
IsNeutral c = reverse_value (or_unknown c.scope) ≡ or_unknown c.scope

same_or_different-swap :
    (l r : Option Text) → same_or_different r l ≡ reverse_value (same_or_different l r)
unfolding same_or_different reverse_value
same_or_different-swap l r = elim (Bool-cases (or_unknown l == or_unknown r)) [
  | inl same ↦ rw (beq_sym (or_unknown r) (or_unknown l), same) refl
  | inr other ↦ rw (beq_sym (or_unknown r) (or_unknown l), other) refl
]

-- What follows a step that has been turned round.
bind-turned :
    (r : Result PairAttrs) (next other : PairAttrs → Result PairAttrs)
    → ((a : PairAttrs) → other (turned a) ≡ map_ok turned (next a))
    → (map_ok turned r >>= other) ≡ map_ok turned (r >>= next)
bind-turned (err e) next other h = refl
bind-turned (ok a) next other h = h a

unknown_stays : codes "unknown" ≡ reverse_value (codes "unknown")
unfolding reverse_value
unknown_stays = refl

module _ (fl : Floats) where
  scope_value-swap :
      (left right : Candidate fl)
      → IsNeutral left
      → scope_value fl right left ≡ reverse_value (scope_value fl left right)
  unfolding scope_value
  scope_value-swap left right neutral =
      elim (Bool-cases (or_unknown left.scope == or_unknown right.scope)) [
        | inl same ↦
            rw (beq_sym (or_unknown right.scope) (or_unknown left.scope), same)
              (sym ((code_keys.beq_iff (or_unknown left.scope) (or_unknown right.scope)).0 same)
                ∙ sym neutral)
        | inr other ↦
            rw (beq_sym (or_unknown right.scope) (or_unknown left.scope), other) unknown_stays
      ]

  put_same-turned :
      (needed : Option (List Text)) (left right : Candidate fl) (attrs : PairAttrs)
      → put_same fl needed right left (turned attrs) ≡ turned (put_same fl needed left right attrs)
  unfolding put_same
  put_same-turned needed left right attrs =
      let topics = same_or_different left.topic right.topic in
      let p = codes "pair_same_topic" in
      rw
        (put_wanted-turned needed p topics (same_or_different right.topic left.topic) attrs
          (same_or_different-swap left.topic right.topic))
        (put_wanted-turned needed (codes "pair_same_subcategory")
          (same_or_different left.subcategory right.subcategory)
          (same_or_different right.subcategory left.subcategory) (put_wanted needed p topics attrs)
          (same_or_different-swap left.subcategory right.subcategory))

module _ (fl : Floats) (laws : FloatLaws fl) where
  pair_features-turned :
      (encoders : Encoders fl) (needed : Option (List Text)) (left right : Candidate fl)
      → IsFitted fl encoders
      → IsNeutral left
      → pair_features fl encoders needed right left
        ≡ map_ok turned (pair_features fl encoders needed left right)
  unfolding pair_features turned
  pair_features-turned encoders needed left right fitted neutral =
      let p = codes "pair_history_scope" in
      let before = put_wanted needed p (scope_value fl left right) [] in
      let ordered = choose needed pair_ordered_comparisons in
      let direct = choose needed pair_direct_numeric_comparisons in
      let llm = choose needed pair_llm_comparisons in
      let quantile = choose needed numeric_pair_evidence in
      rw
        (
          put_wanted-turned needed p (scope_value fl left right) (scope_value fl right left) []
              (scope_value-swap fl left right neutral),
          put_values-turned (ordered_value fl left right) (ordered_value fl right left) ordered
              before (ordered_value-swap fl laws left right),
        )
        (bind-turned (put_values (ordered_value fl left right) ordered before) _ _ (λ a.
          rw
            (put_values-turned (direct_value fl left right) (direct_value fl right left) direct a
              (direct_value-swap fl laws left right))
            (bind-turned (put_values (direct_value fl left right) direct a) _ _ (λ b.
              rw
                (put_values-turned (llm_value fl left right) (llm_value fl right left) llm b
                  (llm_value-swap fl laws left right))
                (bind-turned (put_values (llm_value fl left right) llm b) _ _ (λ c.
                  rw
                    (put_values-turned (quantile_value fl encoders left right)
                      (quantile_value fl encoders right left) quantile c
                      (λ source. quantile_value-swap fl laws encoders left right source fitted))
                    (bind-turned (put_values (quantile_value fl encoders left right) quantile c) _ _
                      (λ d. ap ok (put_same-turned fl needed left right d)))))))))

  pub pair_features-IsDistinct :
      (encoders : Encoders fl) (needed : Option (List Text)) (left right : Candidate fl)
      {built : PairAttrs}
      → pair_features fl encoders needed left right ≡ ok built
      → IsDistinct (keys built)
  unfolding pair_features put_same
  pair_features-IsDistinct encoders needed left right e =
      let (a, at_a, e1) = >>=-eq-ok _ _ e in
      let (b, at_b, e2) = >>=-eq-ok _ _ e1 in
      let (c, at_c, e3) = >>=-eq-ok _ _ e2 in
      let (d, at_d, e4) = >>=-eq-ok _ _ e3 in
      let p = codes "pair_history_scope" in
      let scope = put_wanted-IsDistinct needed p (scope_value fl left right) [] tt in
      let of_a = put_values-IsDistinct _ _ _ at_a scope in
      let of_b = put_values-IsDistinct _ _ _ at_b of_a in
      let of_c = put_values-IsDistinct _ _ _ at_c of_b in
      let of_d = put_values-IsDistinct _ _ _ at_d of_c in
      let topics = same_or_different left.topic right.topic in
      let with_topics = put_wanted-IsDistinct needed (codes "pair_same_topic") topics d of_d in
      let with_both =
        put_wanted-IsDistinct needed (codes "pair_same_subcategory")
          (same_or_different left.subcategory right.subcategory)
          (put_wanted needed (codes "pair_same_topic") topics d) with_topics in
      subst (λ l. IsDistinct (keys l)) (ok-injective e4) with_both

  reverse-features :
      (r : Result PairAttrs)
      → ((built : PairAttrs) → r ≡ ok built → IsDistinct (keys built))
      → map_ok turned r ≡ map_ok reverse_pair_features r
  reverse-features (err e) h = refl
  reverse-features (ok built) h = ap ok (sym (reverse-turned built (h built refl)))

  -- For candidates with any values, encoders that have passed their checks and a history scope of the
  -- left one that is no direction: `_pair_features` of the pair the other way round is
  -- `_reverse_pair_features` of that of the pair, for every vocabulary; where one of them raises, on a
  -- number that no float holds, the other raises the same.
  pub pair_features-swap :
      (encoders : Encoders fl) (needed : Option (List Text)) (left right : Candidate fl)
      → IsFitted fl encoders
      → IsNeutral left
      → pair_features fl encoders needed right left
        ≡ map_ok reverse_pair_features (pair_features fl encoders needed left right)
  pair_features-swap encoders needed left right fitted neutral =
      pair_features-turned encoders needed left right fitted neutral
      ∙ reverse-features (pair_features fl encoders needed left right)
          (λ built. pair_features-IsDistinct encoders needed left right)
