-- ===== src/Retention/Counting.antt =====
-- What the counting loop of `retain_complete_units` has built when it ends, and how the cases of
-- distinct units add up.
use symbolic_recommendation.Prelude.{
  ℕ, suc, ◌+◌, String, ◌≡◌, refl, Bool, false, ◌||◌, List, [], ◌∷◌, ◌++◌, map, arith, length,
  count_if, if◌then◌else◌, elem, ◌==◌, IsDistinct, Scalar, text_value, ok, text_keys,
  count_if-append, any_true, length-append, append-nil, append_assoc, ap, sym, ◌∙◌, reverse,
  reverse-append, subst, ok-injective, >>=-eq-ok, ◌∙◌,
}
use symbolic_recommendation.Prelude.Dict.{get, keys, get-put, put-IsDistinct, has, elem-put}
use symbolic_recommendation.Retention.{
  Tally, no_records, unit_id, tally_record, tally, unit_cases, or_zero,
}

module _ {ℓ} {A : Type ℓ} where
  -- The records of one unit.
  abbrev pub of_unit : String → String × A → Bool
  of_unit u p = u == p.0

  abbrev pub unit_count : String → List (String × A) → ℕ
  unit_count u ms = count_if (of_unit u) ms

  abbrev pub of_units : List String → String × A → Bool
  of_units us p = elem p.0 us

  -- The position of a unit's last record; `found` where there is none from position `i` on.
  unfoldable pub last_index : String → ℕ → ℕ → List (String × A) → ℕ
  last_index u i found [] = found
  last_index u i found (p ∷ ms) = last_index u (suc i) (if of_unit u p then i else found) ms

  last_index-append :
      (u : String) (i found : ℕ) (ms : List (String × A)) (p : String × A)
      → last_index u i found (ms ++ p ∷ [])
        ≡ (if of_unit u p then i + length ms else last_index u i found ms)
  unfolding last_index
  last_index-append u i found [] p = ground arith
  last_index-append u i found (m ∷ ms) p =
      ground (arith, last_index-append u (suc i) (if of_unit u m then i else found) ms p)

  any_true-append :
      (q : String × A → Bool) (xs ys : List (String × A))
      → any_true q (xs ++ ys) ≡ (any_true q xs || any_true q ys)
  unfolding any_true
  any_true-append q [] ys = refl
  any_true-append q (x ∷ xs) ys = ground (arith, any_true-append q xs ys)

  -- What the two dicts of the loop say of the records read so far.
  pub record IsTally (t : Tally A) : Type ℓ where
    pub counted : (u : String) → unit_cases t.counts u ≡ unit_count u t.materialized
    pub positioned :
        (u : String) → or_zero (get u t.last_position) ≡ last_index u 0 0 t.materialized
    pub known : (u : String) → has u t.counts ≡ any_true (of_unit u) t.materialized
    pub distinct : IsDistinct (keys t.counts)

  pub no_records-IsTally : IsTally no_records
  unfolding get count_if any_true last_index
  no_records-IsTally = record {
    counted = λ u. refl;
    positioned = λ u. refl;
    known = λ u. refl;
    distinct = tt;
  }

  tally_record-IsTally :
      (position : ℕ) (u : String) (r : A) (t : Tally A)
      → position ≡ length t.materialized
      → IsTally t
      → IsTally (tally_record position u r t)
  unfolding tally_record count_if any_true
  tally_record-IsTally position u r t e i = record {
    counted = λ v. ground (
      arith,
      i.counted u,
      i.counted v,
      get-put u v (or_zero (get u t.counts) + 1) t.counts,
      count_if-append (of_unit v) t.materialized ((u, r) ∷ []),
      text_keys.beq_iff v u,
    );
    positioned = λ v. ground (
      arith,
      e,
      i.positioned v,
      get-put u v position t.last_position,
      last_index-append v 0 0 t.materialized (u, r),
    );
    known = λ v. ground (
      arith,
      i.known v,
      elem-put u v (or_zero (get u t.counts) + 1) t.counts,
      any_true-append (of_unit v) t.materialized ((u, r) ∷ []),
    );
    distinct = put-IsDistinct u _ t.counts i.distinct;
  }

  -- The loop from a state that describes the records before `position`.
  pub tally-IsTally :
      (position : ℕ) (t : Tally A) (records : List (Scalar × A)) {t' : Tally A}
      → position ≡ length t.materialized
      → IsTally t
      → tally position t records ≡ ok t'
      → IsTally t'
  unfolding tally tally_record
  tally-IsTally position t [] e i h = subst IsTally (ok-injective h) i
  tally-IsTally position t ((raw, r) ∷ rest) e i h =
      let (u, _, k) = >>=-eq-ok (unit_id raw) _ h in
      tally-IsTally (suc position) (tally_record position u r t) rest
        (omega (arith, e, length-append t.materialized ((u, r) ∷ [])))
        (tally_record-IsTally position u r t e i) k

  -- Records that carry their unit's ID as a text.
  abbrev pub with_texts : List (String × A) → List (Scalar × A)
  with_texts source = map (λ p. (text_value p.0, p.1)) source

  pub tally-with_texts :
      (position : ℕ) (t : Tally A) (source : List (String × A)) {t' : Tally A}
      → tally position t (with_texts source) ≡ ok t'
      → t'.materialized ≡ t.materialized ++ source
  unfolding tally unit_id tally_record
  tally-with_texts position t [] h =
      ap (λ x. x.materialized) (sym (ok-injective h)) ∙ sym (append-nil t.materialized)
  tally-with_texts position t ((v, r) ∷ rest) {t'} h =
      let (u, e, k) = >>=-eq-ok (unit_id (text_value v)) _ h in
      let same : u ≡ v = ground arith in
      subst (λ x. t'.materialized ≡ t.materialized ++ (x, r) ∷ rest) same
        (tally-with_texts (suc position) (tally_record position u r t) rest k
          ∙ append_assoc t.materialized ((u, r) ∷ []) rest)

  -- The cases that a list of units has together.
  abbrev pub units_count : List String → List (String × A) → ℕ
  units_count [] ms = 0
  units_count (u ∷ us) ms = unit_count u ms + units_count us ms

  count_if-of_units :
      (u : String) (us : List String) (ms : List (String × A))
      → elem u us ≡ false
      → count_if (of_units (u ∷ us)) ms ≡ unit_count u ms + count_if (of_units us) ms
  unfolding count_if
  count_if-of_units u us [] n = refl
  count_if-of_units u us ((v, r) ∷ ms) n =
      ground (arith, text_keys.beq_iff v u, text_keys.beq_iff u v, count_if-of_units u us ms n)

  count_if-no_units : (ms : List (String × A)) → count_if (of_units []) ms ≡ 0
  unfolding count_if
  count_if-no_units [] = refl
  count_if-no_units (m ∷ ms) = count_if-no_units ms

  pub count_if-units_count :
      (us : List String) (ms : List (String × A))
      → IsDistinct us
      → count_if (of_units us) ms ≡ units_count us ms
  count_if-units_count [] ms d = count_if-no_units ms
  count_if-units_count (u ∷ us) ms d =
      ground (arith, count_if-of_units u us ms d.0, count_if-units_count us ms d.1)

  pub units_count-append :
      (us vs : List String) (ms : List (String × A))
      → units_count (us ++ vs) ms ≡ units_count us ms + units_count vs ms
  units_count-append [] vs ms = omega arith
  units_count-append (u ∷ us) vs ms = omega (arith, units_count-append us vs ms)

  pub units_count-reverse :
      (us : List String) (ms : List (String × A)) → units_count (reverse us) ms ≡ units_count us ms
  units_count-reverse [] ms = refl
  units_count-reverse (u ∷ us) ms =
      ap (λ l. units_count l ms) (reverse-append (u ∷ []) us)
      ∙ units_count-append (reverse us) (u ∷ []) ms
      ∙ omega (arith, units_count-reverse us ms)
