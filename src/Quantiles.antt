-- ===== src/Quantiles.antt =====
-- core/symbolic.py: the encoder of numbers into the symbols of mined rules, over the cuts of a training
-- split. Floats and what `math` does with them are a parameter; here, the cuts.
pub mod Encoder
pub mod Laws
pub mod Metadata
pub mod Restore
pub mod Cuts
pub mod Rising
pub mod Sound
pub mod Symbols
pub mod Fitted
pub mod Swap
pub mod Naturals
mod Tests
use symbolic_recommendation.Prelude.{
  ℕ, zero, suc, ◌+◌, ◌-◌, Bool, true, false, not, ◌&&◌, ◌||◌, Option, none, some, List, [], ◌∷◌,
  ◌++◌, ltb, leb, nat_eq, if◌then◌else◌, length, is_empty, elem, nat_keys, insert_by, sort_by,
  get_elem?, Result, ok, err, ◌>>=◌, value_error, index_error,
}

-- The floats: IEEE comparisons and arithmetic, `math.isfinite`, and `math.isclose` with its relative
-- and absolute tolerance before the numbers.
pub record Floats : Type 1 where
  pub F : Type 0
  pub zero_ : F
  pub one_ : F
  -- sys.float_info.max
  pub largest : F
  pub of_nat : ℕ → F
  -- `literal n k` is n · 10^-k
  pub literal : ℕ → ℕ → F
  -- what `float` makes of a text, none where it raises
  pub parse : List ℕ → Option F
  pub is_finite : F → Bool
  pub lt : F → F → Bool
  pub le : F → F → Bool
  pub eq : F → F → Bool
  pub add : F → F → F
  pub sub : F → F → F
  pub mul : F → F → F
  pub div : F → F → F
  pub abs : F → F
  -- math.log of a positive number
  pub log : F → F
  -- `round` to a number of digits
  pub round : F → ℕ → F
  pub is_close : F → F → F → F → Bool

-- What the sequence holds at an index from 0.
unfoldable pub item_at {ℓ} : {A : Type ℓ} → List A → ℕ → Result A
item_at [] i = err (index_error "list index out of range")
item_at (x ∷ xs) zero = ok x
item_at (x ∷ xs) (suc i) = item_at xs i

-- selected.add
abbrev pub add_index : ℕ → List ℕ → List ℕ
add_index i selected = if elem i selected then selected else selected ++ i ∷ []

module _ (fl : Floats) where
  -- `sorted` of the values with their weights, by the value.
  abbrev pub not_above : fl.F × fl.F → fl.F × fl.F → Bool
  not_above p q = not (fl.lt q.0 p.0)

  unfoldable pub zip_weights : List fl.F → List fl.F → List (fl.F × fl.F)
  zip_weights [] weights = []
  zip_weights (v ∷ values) [] = []
  zip_weights (v ∷ values) (w ∷ weights) = (v, w) ∷ zip_weights values weights

  -- The indices before which a new distinct value begins; `i` is that of the first of `rest`, and
  -- `previous` the value before it.
  unfoldable pub eligible_from : fl.F → fl.F → ℕ → fl.F → List (fl.F × fl.F) → List ℕ
  eligible_from relative absolute i previous [] = []
  eligible_from relative absolute i previous (p ∷ rest) =
      let others = eligible_from relative absolute (suc i) p.0 rest in
      if fl.is_close relative absolute previous p.0 then others else i ∷ others

  abbrev pub eligible : fl.F → fl.F → List (fl.F × fl.F) → List ℕ
  eligible relative absolute [] = []
  eligible relative absolute (p ∷ rest) = eligible_from relative absolute 1 p.0 rest

  unfoldable pub accumulate : fl.F → List (fl.F × fl.F) → List fl.F
  accumulate running [] = []
  accumulate running (p ∷ rest) = fl.add running p.1 ∷ accumulate (fl.add running p.1) rest

  -- cumulative[-1]
  unfoldable pub last_of : fl.F → List fl.F → fl.F
  last_of x [] = x
  last_of x (y ∷ ys) = last_of y ys

  -- abs(cumulative[index - 1] - target)
  abbrev pub distance : List fl.F → fl.F → ℕ → Result fl.F
  distance cumulative target index =
      item_at cumulative (index - 1) >>= λ c. ok (fl.abs (fl.sub c target))

  -- The order of pairs of a distance and an index.
  abbrev pub comes_before : fl.F × ℕ → fl.F × ℕ → Bool
  comes_before (d, i) (e, j) = if fl.eq d e then ltb i j else fl.lt d e

  abbrev pub better : fl.F × ℕ → fl.F × ℕ → fl.F × ℕ
  better best p = if comes_before p best then p else best

  -- `min` keeps the first of the best.
  unfoldable pub nearest_from : List fl.F → fl.F → fl.F × ℕ → List ℕ → Result ℕ
  nearest_from cumulative target best [] = ok best.1
  nearest_from cumulative target best (i ∷ indices) = distance cumulative target i >>= λ d.
      nearest_from cumulative target (better best (d, i)) indices

  unfoldable pub nearest : List fl.F → fl.F → List ℕ → Result ℕ
  nearest cumulative target [] = err (value_error "min() arg is an empty sequence")
  nearest cumulative target (i ∷ indices) =
      distance cumulative target i >>= λ d. nearest_from cumulative target (d, i) indices

  -- The loop over the quantiles, of which `left` are left.
  unfoldable pub select_cuts : List fl.F → List ℕ → fl.F → ℕ → ℕ → List ℕ → Result (List ℕ)
  select_cuts cumulative indices total bins zero selected = ok selected
  select_cuts cumulative indices total bins (suc left) selected =
      let target = fl.div (fl.mul (fl.of_nat (bins - suc left)) total) (fl.of_nat bins) in
      nearest cumulative target indices >>= λ i.
      select_cuts cumulative indices total bins left (add_index i selected)

  unfoldable pub values_at : List (fl.F × fl.F) → List ℕ → Result (List fl.F)
  values_at ordered [] = ok []
  values_at ordered (i ∷ indices) =
      item_at ordered i >>= λ p. values_at ordered indices >>= λ rest. ok (p.0 ∷ rest)

  -- From the ordered values on, where there are two or more and two or more bins.
  unfoldable pub cut : fl.F → fl.F → ℕ → List (fl.F × fl.F) → Result (List fl.F)
  cut relative absolute bins ordered =
      let indices = eligible relative absolute ordered in
      let cumulative = accumulate fl.zero_ ordered in
      let total = last_of fl.zero_ cumulative in
      if is_empty indices
      then ok []
      else if fl.le total fl.zero_
      then ok []
      else (select_cuts cumulative indices total bins (bins - 1) [] >>= λ selected.
          values_at ordered (sort_by leb selected))

  unfoldable pub ones : List fl.F → List fl.F
  ones [] = []
  ones (v ∷ values) = fl.one_ ∷ ones values

  abbrev pub weights_of : List fl.F → Option (List fl.F) → List fl.F
  weights_of values none = ones values
  weights_of values (some weights) = weights

  -- `_distinct_quantile_thresholds`.
  unfoldable pub distinct_quantile_thresholds :
      List fl.F → ℕ → Option (List fl.F) → fl.F → fl.F → Result (List fl.F)
  distinct_quantile_thresholds values bins weights relative absolute =
      let given = weights_of values weights in
      let ordered = sort_by not_above (zip_weights values given) in
      if not (nat_eq (length given) (length values))
      then err (value_error "quantile weights length must equal values length")
      else if ltb (length ordered) 2 || leb bins 1
      then ok []
      else cut relative absolute bins ordered
