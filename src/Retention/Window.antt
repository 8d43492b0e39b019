-- ===== src/Retention/Window.antt =====
-- What a retained window promises: whole units, within both bounds, a maximal suffix of the units
-- in the order of their last records, and its audit.
use symbolic_recommendation.Prelude.{
  ℕ, ◌+◌, ◌≤◌, ◌<◌, String, ◌≡◌, refl, ap, sym, ◌∙◌, subst, fun_ext, ◌⊎◌, inl, inr, Bool, List, [],
  ◌∷◌, ◌++◌, map, reverse, arith, leb, length, keep_if, if◌then◌else◌, elem, ◌==◌, IsDistinct,
  IsOrdered, int_value, pos, ok, text_keys, length-append, reverse-reverse, any_true,
  length-reverse, length-map, keep_if-le, sort_by-IsOrdered, elem-sort_by,
}
use symbolic_recommendation.Prelude.Dict.{get, keys}
use symbolic_recommendation.Retention.{
  Hashing, Tally, RetainedWindow, or_zero, order_units, retained_window, retain_complete_units,
}
use symbolic_recommendation.Retention.Counting.{
  of_unit, of_units, unit_count, with_texts, last_index,
}
use symbolic_recommendation.Retention.Selecting.{Blocked}
use symbolic_recommendation.Retention.Origin.{
  Origin, origin, units, unit_ids-units, records-kept, ordered-split, ordered-IsDistinct,
  length-records,
}

-- The records of `u`, where each record names its unit by `tag`.
abbrev pub Tagged {ℓ} : {A : Type ℓ} → (A → String) → List (String × A) → Type 0
Tagged tag [] = Unit
Tagged tag ((u, r) ∷ source) = (tag r ≡ u) × Tagged tag source

module _ {ℓ} {A : Type ℓ} where
  keep_if-of_units :
      (tag : A → String) (us : List String) (u : String) (source : List (String × A))
      → Tagged tag source
      → keep_if (λ r. u == tag r) (map (λ p. p.1) (keep_if (of_units us) source))
        ≡ (if elem u us then map (λ p. p.1) (keep_if (of_unit u) source) else [])
  unfolding keep_if
  keep_if-of_units tag us u [] h = ground arith
  keep_if-of_units tag us u ((v, r) ∷ source) h =
      ground (arith, keep_if-of_units tag us u source h.1, text_keys.beq_iff u v)

-- What the audit says beside the window.
abbrev pub AddsUp {ℓ} : {A : Type ℓ} → List (String × A) → RetainedWindow A → Type 0
AddsUp source w =
    (w.audit.retained_cases ≡ length w.records)
    × (w.audit.retained_units ≡ length w.unit_ids)
    × (w.audit.source_cases ≡ length source)
    × (w.audit.expired_cases + w.audit.retained_cases ≡ length source)
    × (w.audit.expired_units + w.audit.retained_units ≡ w.audit.source_units)

retained_window-AddsUp {ℓ} :
    {A : Type ℓ} (digest : String) (max_units max_cases : ℕ) (t : Tally A)
    (selection : List String × ℕ × Bool)
    → length (reverse selection.0) ≤ length (order_units t.counts t.last_position)
    → AddsUp t.materialized (retained_window digest max_units max_cases t selection)
unfolding retained_window
retained_window-AddsUp digest max_units max_cases t selection h = (
  refl,
  refl,
  refl,
  omega (
    arith,
    length-map (λ (p : String × _). p.1) (keep_if (of_units (reverse selection.0)) t.materialized),
    keep_if-le (of_units (reverse selection.0)) t.materialized,
  ),
  omega arith,
)

module _ {ℓ} {A : Type ℓ} (hashing : Hashing) (source : List (String × A)) (max_units max_cases : ℕ)
    {w : RetainedWindow A}
    (returned : retain_complete_units hashing
        (with_texts source)
        (int_value (pos max_units))
        (int_value (pos max_cases))
      ≡ ok w) where
  -- A window that is returned holds whole units: the records of a unit that is retained are all of
  -- its records, in the order of the stream, and no record of any other unit is in the window.
  pub records-whole_units :
      (tag : A → String)
      → Tagged tag source
      → (u : String)
      → keep_if (λ r. u == tag r) w.records
        ≡ (if elem u w.unit_ids then map (λ p. p.1) (keep_if (of_unit u) source) else [])
  records-whole_units tag h u =
      let o = origin hashing source max_units max_cases returned in
      rw (records-kept hashing o, unit_ids-units hashing o)
        (keep_if-of_units tag (units hashing o) u source h)

  -- A window that is returned holds at most `max_units` units and at most `max_cases` records.
  pub window_bounds : (length w.unit_ids ≤ max_units) × (length w.records ≤ max_cases)
  window_bounds =
      let o = origin hashing source max_units max_cases returned in
      (
        rw (unit_ids-units hashing o)
            (omega (arith, length-reverse o.selection.0, o.selected.units_fit (omega arith))),
        rw (length-records hashing o) (o.selected.cases_fit (omega arith)),
      )

  -- Why the newest unit that expired was not taken.
  abbrev CannotTake : List String → Type 0
  CannotTake [] = Unit
  CannotTake (u ∷ older) =
      (max_units ≤ length w.unit_ids) ⊎ (max_cases < length w.records + unit_count u source)

  -- Older units, then the window's: every unit of the stream once, in the order of their last
  -- records, and the newest of the older ones would break a bound.
  pub record Suffix : Type ℓ where
    pub expired : List String
    pub distinct : IsDistinct (expired ++ w.unit_ids)
    pub complete : (u : String) → elem u (expired ++ w.unit_ids) ≡ any_true (of_unit u) source
    pub by_last_record :
        IsOrdered
          (λ a b. leb (last_index a 0 0 source) (last_index b 0 0 source))
          (expired ++ w.unit_ids)
    pub maximal : CannotTake (reverse expired)
    pub audited : w.audit.source_units ≡ length (expired ++ w.unit_ids)

  Blocked→CannotTake :
      (o : Origin hashing source max_units max_cases w) (left : List String)
      → Blocked o.counted.counts max_units max_cases (length o.selection.0) o.selection.1 left
      → CannotTake left
  Blocked→CannotTake o [] b = tt
  Blocked→CannotTake o (u ∷ us) (inl full) =
      inl (omega (arith, ap length (unit_ids-units hashing o), length-reverse o.selection.0))
  Blocked→CannotTake o (u ∷ us) (inr over) = inr (
      omega
        (arith, length-records hashing o, o.is_tally.counted u, ap (unit_count u) o.materialized))

  -- The units of a window that is returned are a maximal suffix of the stream's distinct units in
  -- the order of their last records.
  pub window-Suffix : Suffix
  unfolding order_units retained_window
  window-Suffix =
      let o = origin hashing source max_units max_cases returned in
      let t = o.counted in
      let whole : order_units t.counts t.last_position ≡ reverse o.selected.left ++ w.unit_ids =
        ordered-split hashing o
        ∙ ap (λ l. reverse o.selected.left ++ l) (sym (unit_ids-units hashing o)) in
      let position : (λ u. or_zero (get u t.last_position)) ≡ (λ u. last_index u 0 0 source) =
        fun_ext (λ u. o.is_tally.positioned u ∙ ap (last_index u 0 0) o.materialized) in
      record {
        expired = reverse o.selected.left;
        distinct = subst IsDistinct whole (ordered-IsDistinct hashing o);
        complete = λ u.
            ap (elem u) (sym whole)
            ∙ elem-sort_by _ u (keys t.counts)
            ∙ o.is_tally.known u
            ∙ ap (any_true (of_unit u)) o.materialized;
        by_last_record =
            subst
              (λ (f : String → ℕ).
                IsOrdered (λ a b. leb (f a) (f b)) (reverse o.selected.left ++ w.unit_ids))
              position
              (subst (IsOrdered _) whole (
                sort_by-IsOrdered _ (λ a b h. ground arith) (λ a b c h k. ground arith)
                  (keys t.counts)));
        maximal =
            subst CannotTake (sym (reverse-reverse o.selected.left))
              (Blocked→CannotTake o o.selected.left o.selected.blocked);
        audited = ap (λ x. x.audit.source_units) o.window ∙ ap length whole;
      }

  -- The audit of a window that is returned adds up: what is retained and what has expired are all
  -- the records of the stream and all its units.
  pub audit-AddsUp : AddsUp source w
  audit-AddsUp =
      let o = origin hashing source max_units max_cases returned in
      subst (AddsUp source) (sym o.window) (
        subst
          (λ (s : List (String × A)).
            AddsUp s (retained_window o.digest max_units max_cases o.counted o.selection))
          o.materialized
          (retained_window-AddsUp o.digest max_units max_cases o.counted o.selection (
            omega (
              arith,
              ap length (ordered-split hashing o),
              length-append (reverse o.selected.left) (reverse o.selection.0),
            ))))
