-- ===== src/Retention.antt =====
-- mining/retention.py: the newest whole units of a stream of records, within two bounds.
mod Counting
mod Selecting
mod Origin
pub mod Window
pub mod Total
mod Tests
use symbolic_recommendation.Prelude.{
  ℕ, zero, suc, ◌+◌, ◌-◌, String, Bool, true, false, ◌&&◌, Option, none, some, List, [], ◌∷◌, ◌++◌,
  map, reverse, ltb, leb, nat_eq, if◌then◌else◌, length, is_empty, keep_if, sort_by, elem, ◌==◌,
  pos, Scalar, int_value, bool_value, text_value, value_error, memory_error, Result, ok, err, ◌>>=◌,
  text_keys,
}
use symbolic_recommendation.Prelude.Dict.{Dict, get, put, keys}

abbrev pub default_retention_max_units : ℕ
default_retention_max_units = 25000

abbrev pub default_retention_max_cases : ℕ
default_retention_max_cases = 250000

-- `bool` is refused although it is an `int`.
unfoldable pub positive_integer : Scalar → Result ℕ
positive_integer (int_value (pos (suc n))) = ok (suc n)
positive_integer _ = err (value_error "must be a positive integer")

pub record RetentionAudit : Type 0 where
  pub max_units : ℕ
  pub max_cases : ℕ
  pub source_units : ℕ
  pub source_cases : ℕ
  pub retained_units : ℕ
  pub retained_cases : ℕ
  pub expired_units : ℕ
  pub expired_cases : ℕ
  pub unit_limit_applied : Bool
  pub case_limit_applied : Bool
  pub retained_membership_sha256 : String
  pub policy : String
  pub atomic_unit : String
  pub exact : Bool
  pub split_units : Bool
  pub expiration_update : String

pub record RetainedWindow {ℓ} (A : Type ℓ) : Type ℓ where
  pub records : List A
  pub unit_ids : List String
  pub audit : RetentionAudit

-- What the first loop builds.
pub record Tally {ℓ} (A : Type ℓ) : Type ℓ where
  pub materialized : List (String × A)
  pub counts : Dict String ℕ
  pub last_position : Dict String ℕ

-- d.get(unit_id, 0)
abbrev pub or_zero : Option ℕ → ℕ
or_zero none = 0
or_zero (some n) = n

unfoldable pub unit_id : Scalar → Result String
unit_id (text_value s) =
    if s == "" then err (value_error "unit IDs must be non-empty strings") else ok s
unit_id _ = err (value_error "unit IDs must be non-empty strings")

module _ {ℓ} {A : Type ℓ} where
  abbrev pub no_records : Tally A
  no_records = record { materialized = []; counts = []; last_position = [] }

  unfoldable pub tally_record : ℕ → String → A → Tally A → Tally A
  tally_record position u r t = record {
    materialized = t.materialized ++ (u, r) ∷ [];
    counts = put u (or_zero (get u t.counts) + 1) t.counts;
    last_position = put u position t.last_position;
  }

  unfoldable pub tally : ℕ → Tally A → List (Scalar × A) → Result (Tally A)
  tally position t [] = ok t
  tally position t ((raw, r) ∷ rest) =
      unit_id raw >>= λ u. tally (suc position) (tally_record position u r t) rest

abbrev pub unit_cases : Dict String ℕ → String → ℕ
unit_cases counts u = or_zero (get u counts)

-- Sorted by the position of the unit's final record.
unfoldable pub order_units : Dict String ℕ → Dict String ℕ → List String
order_units counts last_position =
    sort_by (λ a b. leb (or_zero (get a last_position)) (or_zero (get b last_position)))
      (keys counts)

-- The loop over the units from the newest on: the selected units as appended, their cases, and
-- whether the case bound stopped it.
unfoldable pub select_units :
    Dict String ℕ → ℕ → ℕ → List String → List String → ℕ → Result (List String × ℕ × Bool)
select_units counts max_units max_cases [] selected cases = ok (selected, cases, false)
select_units counts max_units max_cases (u ∷ us) selected cases =
    let rest =
      select_units counts max_units max_cases us (selected ++ u ∷ [])
        (cases + unit_cases counts u) in
    if is_empty selected && ltb max_cases (unit_cases counts u)
    then err (memory_error "newest causal unit exceeds retention case limit")
    else if leb max_units (length selected)
    then ok (selected, cases, false)
    else if ltb max_cases (cases + unit_cases counts u)
    then ok (selected, cases, true)
    else rest

-- The JSON object of an audit.
unfoldable pub as_dict : RetentionAudit → Dict String Scalar
as_dict a =
    ("policy", text_value a.policy)
    ∷ ("atomic_unit", text_value a.atomic_unit)
    ∷ ("max_units", int_value (pos a.max_units))
    ∷ ("max_cases", int_value (pos a.max_cases))
    ∷ ("source_units", int_value (pos a.source_units))
    ∷ ("source_cases", int_value (pos a.source_cases))
    ∷ ("retained_units", int_value (pos a.retained_units))
    ∷ ("retained_cases", int_value (pos a.retained_cases))
    ∷ ("expired_units", int_value (pos a.expired_units))
    ∷ ("expired_cases", int_value (pos a.expired_cases))
    ∷ ("unit_limit_applied", bool_value a.unit_limit_applied)
    ∷ ("case_limit_applied", bool_value a.case_limit_applied)
    ∷ ("retained_membership_sha256", text_value a.retained_membership_sha256)
    ∷ ("exact", bool_value a.exact)
    ∷ ("split_units", bool_value a.split_units)
    ∷ ("expiration_update", text_value a.expiration_update)
    ∷ []

-- What `_fingerprint` calls: `json.dumps`, `str.encode` to UTF-8, which raises for a text with a lone
-- surrogate, and SHA-256.
pub record Hashing : Type 1 where
  pub Bytes : Type 0
  pub dumps : List String → String
  pub encode : String → Result Bytes
  pub sha256 : Bytes → String

-- `_fingerprint`
unfoldable pub fingerprint : Hashing → List String → Result String
fingerprint hashing unit_ids =
    hashing.encode (hashing.dumps unit_ids) >>= λ payload. ok (hashing.sha256 payload)

module _ {ℓ} {A : Type ℓ} where
  -- The snapshot, with the fingerprint of its units.
  unfoldable pub retained_window :
      String → ℕ → ℕ → Tally A → List String × ℕ × Bool → RetainedWindow A
  retained_window digest max_units max_cases t selection =
      let units = reverse selection.0 in
      let kept = map (λ p. p.1) (keep_if (λ p. elem p.0 units) t.materialized) in
      let ordered = order_units t.counts t.last_position in
      record {
        records = kept;
        unit_ids = units;
        audit = record {
          max_units = max_units;
          max_cases = max_cases;
          source_units = length ordered;
          source_cases = length t.materialized;
          retained_units = length units;
          retained_cases = length kept;
          expired_units = length ordered - length units;
          expired_cases = length t.materialized - length kept;
          unit_limit_applied =
              ltb (length units) (length ordered) && nat_eq (length units) max_units;
          case_limit_applied = selection.2;
          retained_membership_sha256 = digest;
          policy = "newest_complete_unit_suffix_v1";
          atomic_unit = "caller_supplied_causal_unit";
          exact = true;
          split_units = false;
          expiration_update = "exact_full_rebuild";
        };
      }

module _ {ℓ} {A : Type ℓ} (hashing : Hashing) where
  unfoldable pub retain_tally : ℕ → ℕ → Tally A → Result (RetainedWindow A)
  retain_tally max_units max_cases t =
      select_units t.counts max_units max_cases (reverse (order_units t.counts t.last_position)) []
        0
      >>= λ selection. fingerprint hashing (reverse selection.0) >>= λ digest.
          ok (retained_window digest max_units max_cases t selection)

  unfoldable pub retain_complete_units :
      List (Scalar × A) → Scalar → Scalar → Result (RetainedWindow A)
  retain_complete_units records raw_units raw_cases = positive_integer raw_units >>= λ max_units.
      positive_integer raw_cases >>= λ max_cases.
      tally 0 no_records records >>= λ t. retain_tally max_units max_cases t
