-- ===== src/Ranking/Antisymmetry.antt =====
-- Every comparison of a pair says, of the pair the other way round, the same with the sides exchanged.
use symbolic_recommendation.Prelude.{
  ℕ, suc, ◌<◌, ◌≡◌, refl, sym, ap, Bool, true, false, ◌||◌, Option, none, some, List, [], ◌∷◌,
  arith, ltb, if◌then◌else◌, ◌==◌, code_keys, Bool-cases, Option-cases, ◌⊎◌, inl, inr, codes,
  Result, ok, err, ◌>>=◌, overflow_error,
}
use symbolic_recommendation.Prelude.Dict.{Dict, get, put, has, get-put}
use symbolic_recommendation.Metta.{Text}
use symbolic_recommendation.Quantiles.{Floats}
use symbolic_recommendation.Quantiles.Laws.{FloatLaws}
use symbolic_recommendation.Quantiles.Encoder.{
  Encoder, post_init, encode_pair, PairLabel, unknown_pair, left_known, right_known, equal,
  left_bucket, right_bucket,
}
use symbolic_recommendation.Quantiles.Swap.{other_way, encode_pair-swap}
use symbolic_recommendation.Ranking.Comparisons.{ranks_from, compare_ranks, pair_orders}
use symbolic_recommendation.Ranking.Features.{
  Value, nothing, flag, word, number, huge, Candidate, Encoders, fact, shown, relative_value,
  if_finite, finite_of, finite, compare_numbers, relative_numeric_value, numeric_missing, raw_of,
  label_text, ordered_value, direct_value, llm_value, quantile_value,
}
use symbolic_recommendation.Ranking.Reversal.{reverse_value}
use symbolic_recommendation.Ranking.Turning.{turned_option, map_ok}

pub beq_sym : (s t : Text) → (s == t) ≡ (t == s)
beq_sym s t = ground (arith, code_keys.beq_iff s t, code_keys.beq_iff t s)

-- Two texts of one rank are one, while every rank is below the next index.
record RanksBelow (i : ℕ) (ranks : Dict Text ℕ) : Type 0 where
  pub below : (s : Text) (n : ℕ) → get s ranks ≡ some n → n < i
  pub one_each : (s t : Text) (n : ℕ) → get s ranks ≡ some n → get t ranks ≡ some n → s ≡ t

put-RanksBelow :
    (i : ℕ) (text : Text) (ranks : Dict Text ℕ)
    → RanksBelow i ranks
    → RanksBelow (suc i) (put text i ranks)
put-RanksBelow i text ranks r = record {
  below = λ s n e. ground (arith, get-put text s i ranks, r.below s n);
  one_each = λ s t n e f. ground (
    arith,
    get-put text s i ranks,
    get-put text t i ranks,
    r.below s n,
    r.below t n,
    r.one_each s t n,
    code_keys.beq_iff s text,
    code_keys.beq_iff t text,
  );
}

ranks_from-RanksBelow :
    (i : ℕ) (order : List Text) (ranks : Dict Text ℕ)
    → RanksBelow i ranks
    → (k : ℕ) × RanksBelow k (ranks_from i order ranks)
unfolding ranks_from
ranks_from-RanksBelow i [] ranks r = (i, r)
ranks_from-RanksBelow i (text ∷ order) ranks r =
    ranks_from-RanksBelow (suc i) order (put text i ranks) (put-RanksBelow i text ranks r)

no_ranks : RanksBelow 0 []
unfolding get
no_ranks = record { below = λ s n e. cc e; one_each = λ s t n e f. cc e }

ltb-asymmetric : (l r : ℕ) → ltb l r ≡ true → ltb r l ≡ false
ltb-asymmetric l r h = ground arith

ltb-connected : (l r : ℕ) → ltb l r ≡ false → (l ≡ r → ⊥) → ltb r l ≡ true
ltb-connected l r h apart = ground arith

compare_ranks-swap :
    (l r : Option ℕ)
    → ((n : ℕ) → l ≡ some n → r ≡ some n → ⊥)
    → compare_ranks r l ≡ reverse_value (compare_ranks l r)
unfolding compare_ranks reverse_value
compare_ranks-swap none none apart = refl
compare_ranks-swap none (some r) apart = refl
compare_ranks-swap (some l) none apart = refl
compare_ranks-swap (some l) (some r) apart = elim (Bool-cases (ltb l r)) [
  | inl up ↦ rw (up, ltb-asymmetric l r up) refl
  | inr level ↦ rw (level, ltb-connected l r level (λ e. apart l refl (ap some (sym e)))) refl
]

module _ (fl : Floats) where
  relative_value-swap :
      (left right : Value fl) (order : List Text)
      → relative_value fl right left order ≡ reverse_value (relative_value fl left right order)
  unfolding relative_value reverse_value
  relative_value-swap left right order =
      let l = shown fl left in
      let r = shown fl right in
      let (k, ranks) = ranks_from-RanksBelow 0 order [] no_ranks in
      elim (Bool-cases (l == r)) [
        | inl same ↦ rw (beq_sym r l, same) equal_stays
        | inr other ↦
            rw (beq_sym r l, other)
              (compare_ranks-swap (get l (ranks_from 0 order [])) (get r (ranks_from 0 order []))
                (λ n e f. apart other (ranks.one_each l r n e f)))
      ]
    where
      equal_stays : codes "equal" ≡ reverse_value (codes "equal")
      equal_stays = refl

      apart : {s t : Text} → (s == t) ≡ false → s ≡ t → ⊥
      apart {s} {t} other e = ground (arith, code_keys.beq_iff s t)

  -- Whether the number that is there is finite.
  AllFinite : Option fl.F → Type 0
  AllFinite o = (x : fl.F) → o ≡ some x → fl.is_finite x ≡ true

  if_finite-AllFinite : (x : fl.F) → AllFinite (if_finite fl x)
  unfolding AllFinite
  if_finite-AllFinite x y e = elim (Bool-cases (fl.is_finite x)) [
    | inl f ↦ cc (rw f at e, f)
    | inr f ↦ cc (rw f at e)
  ]

  finite_of-AllFinite : (o : Option fl.F) → AllFinite (finite_of fl o)
  unfolding AllFinite
  finite_of-AllFinite none y e = cc e
  finite_of-AllFinite (some x) y e = if_finite-AllFinite x y e

  finite-cases :
      (v : Value fl)
      → ((o : Option fl.F) × (finite fl v ≡ ok o) × AllFinite o)
        ⊎ (finite fl v ≡ err (overflow_error "int too large to convert to float"))
  unfolding finite
  finite-cases nothing = inl (none, refl, finite_of-AllFinite none)
  finite-cases (flag b) = inl (_, refl, if_finite-AllFinite (if b then fl.one_ else fl.zero_))
  finite-cases (word text) = inl (_, refl, finite_of-AllFinite (fl.parse text))
  finite-cases (number x text) = inl (_, refl, if_finite-AllFinite x)
  finite-cases (huge text) = inr refl

  -- Every encoder has passed its checks.
  abbrev pub IsFitted : Encoders fl → Type 0
  IsFitted encoders =
      (source : Text) (e : Encoder fl) → get source encoders ≡ some e → post_init fl e ≡ ok e

module _ (fl : Floats) (laws : FloatLaws fl) where
  compare_numbers-swap :
      (l r : Option fl.F)
      → AllFinite fl l
      → AllFinite fl r
      → compare_numbers fl r l ≡ reverse_value (compare_numbers fl l r)
  unfolding compare_numbers reverse_value AllFinite
  compare_numbers-swap none none f g = refl
  compare_numbers-swap none (some r) f g = refl
  compare_numbers-swap (some l) none f g = refl
  compare_numbers-swap (some l) (some r) f g =
      let e = fl.literal 1 12 in
      let swapped = laws.close_swap e e r l in
      elim (Bool-cases (fl.is_close e e l r)) [
        | inl close ↦ rw (swapped, close) refl
        | inr far ↦ elim (Bool-cases (fl.lt l r)) [
          | inl up ↦ rw (swapped, far, up, laws.asymmetric l r up) refl
          | inr level ↦ elim (Bool-cases (fl.lt r l)) [
            | inl down ↦ rw (swapped, far, level, down) refl
            | inr level' ↦ cc (
              laws.equal_close e e l r (laws.literal_positive 1 12) (laws.literal_positive 1 12)
                  (f l refl) (g r refl) level level',
              far,
            )
          ]
        ]
      ]

  relative_numeric_value-swap :
      (left right : Value fl)
      → relative_numeric_value fl right left
        ≡ map_ok reverse_value (relative_numeric_value fl left right)
  unfolding relative_numeric_value
  relative_numeric_value-swap left right = elim (finite-cases fl left) [
    | inl (l, read, f) ↦ elim (finite-cases fl right) [
      | inl (r, read', g) ↦ rw (read, read') (ap ok (compare_numbers-swap l r f g))
      | inr raised ↦ rw (read, raised) refl
    ]
    | inr raised ↦ elim (finite-cases fl right) [
      | inl (r, read', g) ↦ rw (raised, read') refl
      | inr raised' ↦ rw (raised, raised') refl
    ]
  ]

  label_text-other_way :
      (label : PairLabel fl)
      → label_text fl (other_way fl label) ≡ reverse_value (label_text fl label)
  unfolding label_text reverse_value
  label_text-other_way unknown_pair = refl
  label_text-other_way left_known = refl
  label_text-other_way right_known = refl
  label_text-other_way equal = refl
  label_text-other_way (left_bucket n) = refl
  label_text-other_way (right_bucket n) = refl

  or_comm : (a b : Bool) → (a || b) ≡ (b || a)
  or_comm a b = ground arith

  pub ordered_value-swap :
      (left right : Candidate fl) (source : Text)
      → ordered_value fl right left source
        ≡ map_ok turned_option (ordered_value fl left right source)
  unfolding ordered_value
  ordered_value-swap left right source =
      rw (or_comm (has source right.attrs) (has source left.attrs))
        (elim (Bool-cases (has source left.attrs || has source right.attrs)) [
          | inl there ↦ elim (Option-cases (get source pair_orders)) [
            | inl nothing_ ↦ rw (there, nothing_) refl
            | inr (order, found) ↦
                rw (there, found)
                  (ap (λ t. ok (some t))
                    (relative_value-swap fl (fact fl source left) (fact fl source right) order))
          ]
          | inr absent ↦ rw absent refl
        ])

  pub direct_value-swap :
      (left right : Candidate fl) (source : Text)
      → direct_value fl right left source ≡ map_ok turned_option (direct_value fl left right source)
  unfolding direct_value
  direct_value-swap left right source =
      rw (relative_numeric_value-swap (fact fl source left) (fact fl source right))
        (through (relative_numeric_value fl (fact fl source left) (fact fl source right)))
    where
      through :
          (r : Result Text)
          → (map_ok reverse_value r >>= λ t. ok (some t))
            ≡ map_ok turned_option (r >>= λ t. ok (some t))
      through (err e) = refl
      through (ok t) = refl

  pub llm_value-swap :
      (left right : Candidate fl) (source : Text)
      → llm_value fl right left source ≡ map_ok turned_option (llm_value fl left right source)
  unfolding llm_value reverse_value
  llm_value-swap left right source =
      let l = numeric_missing fl (fact fl source left) in
      let r = numeric_missing fl (fact fl source right) in
      rw (or_comm r l) (elim (Bool-cases (l || r)) [
        | inl absent ↦ rw absent refl
        | inr there ↦ rw there (direct_value-swap left right source)
      ])

  pub quantile_value-swap :
      (encoders : Encoders fl) (left right : Candidate fl) (source : Text)
      → IsFitted fl encoders
      → quantile_value fl encoders right left source
        ≡ map_ok turned_option (quantile_value fl encoders left right source)
  unfolding quantile_value reverse_value
  quantile_value-swap encoders left right source fitted =
      let l = fact fl source left in
      let r = fact fl source right in
      rw (or_comm (numeric_missing fl r) (numeric_missing fl l))
        (elim (Bool-cases (numeric_missing fl l || numeric_missing fl r)) [
          | inl absent ↦ rw absent refl
          | inr there ↦ elim (Option-cases (get source encoders)) [
            | inl no_encoder ↦ rw (there, no_encoder) refl
            | inr (e, found) ↦
                rw
                  (
                    there,
                    found,
                    encode_pair-swap fl laws e (raw_of fl l) (raw_of fl r) (fitted source e found),
                  )
                  (ap (λ t. ok (some t))
                    (label_text-other_way (encode_pair fl e (raw_of fl l) (raw_of fl r))))
          ]
        ])
