-- ===== src/Retention/Origin.antt =====
-- How a retained window came about, and what follows for its units and its records.
use symbolic_recommendation.Prelude.{
  ℕ, zero, suc, ◌+◌, String, ◌≡◌, refl, ap, sym, ◌∙◌, subst, Bool, List, [], ◌∷◌, ◌++◌, map,
  reverse, arith, length, keep_if, elem, IsDistinct, int_value, pos, ok, ok-injective, >>=-eq-ok,
  text_keys, length-keep_if, reverse-append, reverse-reverse, sort_by-IsDistinct,
  IsDistinct-append_right, length-map, ap₂,
}
use symbolic_recommendation.Prelude.Dict.{keys}
use symbolic_recommendation.Retention.{
  Hashing, fingerprint, Tally, RetainedWindow, no_records, positive_integer, tally, order_units,
  select_units, retained_window, retain_tally, retain_complete_units,
}
use symbolic_recommendation.Retention.Counting.{
  of_units, unit_count, units_count, IsTally, no_records-IsTally, tally-IsTally, with_texts,
  tally-with_texts, count_if-units_count, units_count-reverse,
}
use symbolic_recommendation.Retention.Selecting.{Selected, sum_cases, select_units-Selected}

module _ {ℓ} {A : Type ℓ} (hashing : Hashing) where
  -- How a window came about.
  pub record Origin (source : List (String × A)) (max_units max_cases : ℕ) (w : RetainedWindow A)
      : Type ℓ where
    pub counted : Tally A
    pub selection : List String × ℕ × Bool
    pub is_tally : IsTally counted
    pub materialized : counted.materialized ≡ source
    pub selected :
        Selected counted.counts max_units max_cases
          (reverse (order_units counted.counts counted.last_position))
          []
          0
          selection
    pub digest : String
    pub hashed : fingerprint hashing (reverse selection.0) ≡ ok digest
    pub window : w ≡ retained_window digest max_units max_cases counted selection

  pub origin :
      (source : List (String × A)) (max_units max_cases : ℕ) {w : RetainedWindow A}
      → retain_complete_units hashing
          (with_texts source)
          (int_value (pos max_units))
          (int_value (pos max_cases))
        ≡ ok w
      → Origin source max_units max_cases w
  unfolding retain_complete_units retain_tally positive_integer
  origin source zero max_cases h = cc
  origin source (suc n) zero h = cc
  origin source (suc n) (suc m) h =
      let (t, counted, h1) = >>=-eq-ok (tally 0 no_records (with_texts source)) _ h in
      let (selection, chosen, h2) = >>=-eq-ok (select_units t.counts (suc n) (suc m) _ [] 0) _ h1 in
      let (digest, hashed, h3) = >>=-eq-ok (fingerprint hashing (reverse selection.0)) _ h2 in
      record {
        counted = t;
        selection = selection;
        is_tally = tally-IsTally 0 no_records (with_texts source) refl no_records-IsTally counted;
        materialized = tally-with_texts 0 no_records source counted;
        selected = select_units-Selected t.counts (suc n) (suc m) _ [] 0 selection chosen;
        digest = digest;
        hashed = hashed;
        window = sym (ok-injective h3);
      }

  module _ {source : List (String × A)} {max_units max_cases : ℕ} {w : RetainedWindow A}
      (o : Origin source max_units max_cases w) where
    open o use {counted, selection, is_tally, materialized, selected, window}

    abbrev pub units : List String
    units = reverse selection.0

    abbrev pub ordered : List String
    ordered = order_units counted.counts counted.last_position

    pub unit_ids-units : w.unit_ids ≡ units
    unfolding retained_window
    unit_ids-units = ap (λ x. x.unit_ids) window

    pub records-kept : w.records ≡ map (λ p. p.1) (keep_if (λ p. elem p.0 units) source)
    unfolding retained_window
    records-kept =
        ap (λ x. x.records) window
        ∙ ap (λ (m : List (String × A)). map (λ p. p.1) (keep_if (λ p. elem p.0 units) m))
            materialized

    pub ordered-split : ordered ≡ reverse selected.left ++ units
    ordered-split =
        sym (reverse-reverse ordered)
        ∙ ap reverse selected.split
        ∙ reverse-append selected.taken selected.left
        ∙ ap (λ l. reverse selected.left ++ reverse l) (sym selected.chosen)

    pub ordered-IsDistinct : IsDistinct ordered
    unfolding order_units
    ordered-IsDistinct = sort_by-IsDistinct _ (keys counted.counts) is_tally.distinct

    pub units-IsDistinct : IsDistinct units
    units-IsDistinct =
        IsDistinct-append_right (reverse selected.left) units
          (subst IsDistinct ordered-split ordered-IsDistinct)

    sum_cases-units_count : (us : List String) → sum_cases counted.counts us ≡ units_count us source
    sum_cases-units_count [] = refl
    sum_cases-units_count (u ∷ us) =
        ap₂ ◌+◌ (is_tally.counted u ∙ ap (unit_count u) materialized) (sum_cases-units_count us)

    length-records-units : length w.records ≡ sum_cases counted.counts selected.taken
    length-records-units =
        ap length records-kept
        ∙ length-map (λ (p : String × A). p.1) (keep_if (of_units units) source)
        ∙ length-keep_if (of_units units) source
        ∙ count_if-units_count units source units-IsDistinct
        ∙ units_count-reverse selection.0 source
        ∙ sym (sum_cases-units_count selection.0)
        ∙ ap (sum_cases counted.counts) selected.chosen

    -- The cases that the loop added up are those of the records that are kept.
    pub length-records : length w.records ≡ selection.1
    length-records = omega (arith, selected.total, length-records-units)
