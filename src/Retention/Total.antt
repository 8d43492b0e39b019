-- ===== src/Retention/Total.antt =====
-- When `retain_complete_units` returns, and what it raises.
use symbolic_recommendation.Prelude.{
  ℕ, zero, suc, ◌+◌, ◌≤◌, ◌<◌, String, ◌≡◌, refl, ap, inl, inr, Bool, true, false, List, [], ◌∷◌,
  ◌++◌, reverse, arith, ltb, leb, length, is_empty, ◌==◌, Bool-cases, int_value, pos, ok, text_keys,
  ◌&&◌, all_true, all_true-append, all_true-sort_by, reverse-append, ◌∙◌, Result, err,
}
use symbolic_recommendation.Prelude.Dict.{Dict, put, keys}
use symbolic_recommendation.Retention.{
  Hashing, fingerprint, Tally, RetainedWindow, no_records, unit_id, tally_record, tally, unit_cases,
  order_units, positive_integer, select_units, retained_window, retain_tally, retain_complete_units,
}
use symbolic_recommendation.Retention.Selecting.{select_units-Selected}
use symbolic_recommendation.Retention.Counting.{
  unit_count, with_texts, IsTally, no_records-IsTally, tally-IsTally, tally-with_texts,
}

-- Does UTF-8 encode a text?
abbrev pub encodes : Hashing → String → Bool
encodes hashing text = elim (hashing.encode text) [ err e ↦ false | ok payload ↦ true ]

-- Every record has a unit ID, which UTF-8 encodes.
abbrev pub HaveIds {ℓ} : {A : Type ℓ} → Hashing → List (String × A) → Type 0
HaveIds hashing [] = Unit
HaveIds hashing ((u, r) ∷ source) =
    (u == "" ≡ false) × (encodes hashing u ≡ true) × HaveIds hashing source

-- `json.dumps` writes texts that UTF-8 encodes as one.
abbrev pub KeepsEncoding : Hashing → Type 0
KeepsEncoding hashing =
    (us : List String)
    → all_true (encodes hashing) us ≡ true
    → encodes hashing (hashing.dumps us) ≡ true

module _ (hashing : Hashing) where
  fingerprint-returns :
      (us : List String) (r : Result hashing.Bytes)
      → hashing.encode (hashing.dumps us) ≡ r
      → encodes hashing (hashing.dumps us) ≡ true
      → (digest : String) × (fingerprint hashing us ≡ ok digest)
  unfolding fingerprint
  fingerprint-returns us (err x) e h = let k = rw (e, encodes) at h in cc
  fingerprint-returns us (ok payload) e h = (hashing.sha256 payload, rw e refl)

all_true-reverse : (p : String → Bool) (xs : List String) → all_true p (reverse xs) ≡ all_true p xs
unfolding all_true
all_true-reverse p [] = refl
all_true-reverse p (x ∷ xs) =
    ap (all_true p) (reverse-append (x ∷ []) xs)
    ∙ all_true-append p (reverse xs) (x ∷ [])
    ∙ ground (arith, all_true-reverse p xs)

module _ (p : String → Bool) where
  all_true-put :
      (u : String) (n : ℕ) (d : Dict String ℕ)
      → p u ≡ true
      → all_true p (keys d) ≡ true
      → all_true p (keys (put u n d)) ≡ true
  unfolding all_true put
  all_true-put u n [] hu h = ground arith
  all_true-put u n ((k, m) ∷ d) hu h = ground (arith, all_true-put u n d hu)

  select_units-all_true :
      (counts : Dict String ℕ) (max_units max_cases : ℕ) (us selected : List String) (cases : ℕ)
      {result : List String × ℕ × Bool}
      → all_true p us ≡ true
      → all_true p selected ≡ true
      → select_units counts max_units max_cases us selected cases ≡ ok result
      → all_true p result.0 ≡ true
  select_units-all_true counts max_units max_cases us selected cases {result} h k e =
      let s = select_units-Selected counts max_units max_cases us selected cases result e in
      ap (all_true p) s.chosen
      ∙ all_true-append p selected s.taken
      ∙ ground (arith, k, h, ap (all_true p) s.split, all_true-append p s.taken s.left)

tally-returns {ℓ} :
    {A : Type ℓ} (hashing : Hashing) (position : ℕ) (t : Tally A) (source : List (String × A))
    → HaveIds hashing source
    → all_true (encodes hashing) (keys t.counts) ≡ true
    → (t' : Tally A) × (tally position t (with_texts source) ≡ ok t')
      × (all_true (encodes hashing) (keys t'.counts) ≡ true)
unfolding tally unit_id tally_record
tally-returns hashing position t [] h k = (t, refl, k)
tally-returns hashing position t ((u, r) ∷ rest) h k = rw h.0 (
    tally-returns hashing (suc position) (tally_record position u r t) rest h.2
      (all_true-put (encodes hashing) u _ t.counts h.1 k))

module _ (counts : Dict String ℕ) (max_units max_cases : ℕ)
    (small : (u : String) → unit_cases counts u ≤ max_cases) where
  select_units-returns :
      (us selected : List String) (cases : ℕ)
      → (result : List String × ℕ × Bool) × (select_units counts max_units max_cases us selected
            cases
          ≡ ok result)
  unfolding select_units
  select_units-returns [] selected cases = ((selected, cases, false), refl)
  select_units-returns (u ∷ us) selected cases =
      let fits : ltb max_cases (unit_cases counts u) ≡ false = ground (arith, small u) in
      let unsplit : (is_empty selected && ltb max_cases (unit_cases counts u)) ≡ false =
        ground arith in
      elim (Bool-cases (leb max_units (length selected))) [
        | inl full ↦ ((selected, cases, false), rw (unsplit, full))
        | inr few ↦ elim (Bool-cases (ltb max_cases (cases + unit_cases counts u))) [
          | inl over ↦ ((selected, cases, true), rw (unsplit, few, over))
          | inr room ↦
              rw (unsplit, few, room)
                (select_units-returns us (selected ++ u ∷ []) (cases + unit_cases counts u))
        ]
      ]

-- Where every record has a unit ID and UTF-8 encodes the IDs, both bounds are positive and no unit
-- alone has more records than `max_cases`, the function returns a window; `json.dumps` is taken to
-- write texts that UTF-8 encodes as one.
pub retain-returns {ℓ} :
    {A : Type ℓ} (hashing : Hashing) (source : List (String × A)) (max_units max_cases : ℕ)
    → KeepsEncoding hashing
    → HaveIds hashing source
    → 0 < max_units
    → 0 < max_cases
    → ((u : String) → unit_count u source ≤ max_cases)
    → (w : RetainedWindow A) × (retain_complete_units hashing
          (with_texts source)
          (int_value (pos max_units))
          (int_value (pos max_cases))
        ≡ ok w)
unfolding retain_complete_units retain_tally positive_integer order_units all_true
retain-returns hashing source zero m keeps ids hn hm small = absurd (omega arith)
retain-returns hashing source (suc n) zero keeps ids hn hm small = absurd (omega arith)
retain-returns hashing source (suc n) (suc m) keeps ids hn hm small =
    let (t, counted, encoded) = tally-returns hashing 0 no_records source ids refl in
    let same : t.materialized ≡ source = tally-with_texts 0 no_records source counted in
    let i : IsTally t =
      tally-IsTally 0 no_records (with_texts source) refl no_records-IsTally counted in
    let ordered = order_units t.counts t.last_position in
    let p = encodes hashing in
    let (selection, chosen) =
      select_units-returns t.counts (suc n) (suc m)
        (λ u. rw (i.counted u, ap (unit_count u) same) (small u)) (reverse ordered) [] 0 in
    let taken : all_true p selection.0 ≡ true =
      select_units-all_true p t.counts (suc n) (suc m) (reverse ordered) [] 0
        (all_true-reverse p ordered ∙ all_true-sort_by p _ (keys t.counts) ∙ encoded) refl chosen in
    let units = reverse selection.0 in
    let (digest, hashed) =
      fingerprint-returns hashing units (hashing.encode (hashing.dumps units)) refl
        (keeps units (all_true-reverse p selection.0 ∙ taken)) in
    (retained_window digest (suc n) (suc m) t selection, rw (counted, chosen, hashed))
