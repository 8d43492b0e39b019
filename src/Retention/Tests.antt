-- ===== src/Retention/Tests.antt =====
-- Runs of `retain_complete_units` on a small stream, and the theorems at that input.
use symbolic_recommendation.Prelude.{
  ℕ, ◌≤◌, String, ◌≡◌, refl, true, false, List, [], ◌∷◌, map, arith, length, keep_if, insert_by,
  sort_by, if◌then◌else◌, elem, ◌==◌, int_value, pos, ok, err, text_keys, memory_error, value_error,
  count_if, all_true,
}
use symbolic_recommendation.Prelude.Dict.{get, put}
use symbolic_recommendation.Retention.{
  Hashing, RetainedWindow, fingerprint, positive_integer, unit_id, tally_record, tally, order_units,
  select_units, retained_window, retain_tally, retain_complete_units,
}
use symbolic_recommendation.Retention.Counting.{of_unit, unit_count, with_texts}
use symbolic_recommendation.Retention.Window.{
  Suffix, records-whole_units, window_bounds, window-Suffix,
}
use symbolic_recommendation.Retention.Total.{retain-returns, KeepsEncoding}

abbrev first_id : List String → String
first_id [] = ""
first_id (u ∷ us) = u

-- A text stands for its bytes, the text "?" has none, and the first ID is the digest.
abbrev hashing : Hashing
hashing = record {
  Bytes = String;
  dumps = first_id;
  encode = λ text. if text == "?" then err (value_error "surrogates not allowed") else ok text;
  sha256 = λ payload. payload;
}

abbrev stream : List (String × (String × ℕ))
stream =
    ("a", ("a", 1)) ∷ ("b", ("b", 2)) ∷ ("a", ("a", 3)) ∷ ("c", ("c", 4)) ∷ ("b", ("b", 5)) ∷ []

-- Unit `a` expires: `b` and `c` have three records, `a` would make it five.
abbrev window : RetainedWindow (String × ℕ)
window = record {
  records = ("b", 2) ∷ ("c", 4) ∷ ("b", 5) ∷ [];
  unit_ids = "c" ∷ "b" ∷ [];
  audit = record {
    max_units = 2;
    max_cases = 4;
    source_units = 3;
    source_cases = 5;
    retained_units = 2;
    retained_cases = 3;
    expired_units = 1;
    expired_cases = 2;
    unit_limit_applied = true;
    case_limit_applied = false;
    retained_membership_sha256 = "c";
    policy = "newest_complete_unit_suffix_v1";
    atomic_unit = "caller_supplied_causal_unit";
    exact = true;
    split_units = false;
    expiration_update = "exact_full_rebuild";
  };
}

retained :
    retain_complete_units hashing (with_texts stream) (int_value (pos 2)) (int_value (pos 4))
    ≡ ok window
unfolding retain_complete_units retain_tally positive_integer tally tally_record unit_id order_units
    select_units fingerprint retained_window keep_if insert_by sort_by get put
retained = refl

too_large :
    retain_complete_units hashing (with_texts stream) (int_value (pos 2)) (int_value (pos 1))
    ≡ err (memory_error "newest causal unit exceeds retention case limit")
unfolding retain_complete_units retain_tally positive_integer tally tally_record unit_id order_units
    select_units fingerprint retained_window keep_if insert_by sort_by get put
too_large = refl

records-whole_units_example :
    keep_if (λ r. "b" == r.0) window.records
    ≡ (if elem "b" window.unit_ids then map (λ p. p.1) (keep_if (of_unit "b") stream) else [])
records-whole_units_example =
    records-whole_units hashing stream 2 4 retained (λ r. r.0)
      (refl, (refl, (refl, (refl, (refl, tt))))) "b"

window_bounds_example : (length window.unit_ids ≤ 2) × (length window.records ≤ 4)
window_bounds_example = window_bounds hashing stream 2 4 retained

window-Suffix_example : Suffix hashing stream 2 4 retained
window-Suffix_example = window-Suffix hashing stream 2 4 retained

abbrev short_stream : List (String × ℕ)
short_stream = ("a", 7) ∷ ("b", 8) ∷ []

short_stream_units : (u : String) → unit_count u short_stream ≤ 3
unfolding count_if
short_stream_units u = ground arith

hashing-KeepsEncoding : KeepsEncoding hashing
unfolding all_true
hashing-KeepsEncoding [] h = refl
hashing-KeepsEncoding (u ∷ us) h = ground arith

unhashed :
    retain_complete_units {A = ℕ} hashing
      (with_texts (("?", 1) ∷ []))
      (int_value (pos 2))
      (int_value (pos 1))
    ≡ err (value_error "surrogates not allowed")
unfolding retain_complete_units retain_tally positive_integer tally tally_record unit_id order_units
    select_units fingerprint retained_window keep_if insert_by sort_by get put
unhashed = refl

retain-returns_example :
    (w : RetainedWindow ℕ) × (retain_complete_units hashing
        (with_texts short_stream)
        (int_value (pos 2))
        (int_value (pos 3))
      ≡ ok w)
retain-returns_example =
    retain-returns hashing short_stream 2 3 hashing-KeepsEncoding (refl, refl, (refl, refl, tt))
      (omega arith) (omega arith) short_stream_units
