-- ===== src/Grid.antt =====
-- src/grid.rs: the geometric grid of price levels, which levels a bar crosses, when a level is
-- armed again, and the mechanical budget of a level.
pub mod Crossing
pub mod Rearm
pub mod Levels
pub mod Prices
pub mod BoardLot
mod Tests
use grid_edge_t.Base.{
  ℕ, zero, suc, ◌+◌, ◌*◌, ltb, Bool, true, false, not, ◌&&◌, ◌||◌, Option, none, some, List, [],
  ◌∷◌, map, any, keep, if◌then◌else◌,
}
use grid_edge_t.Base.Int.{ℤ, pos, negsuc, magnitude, ◌+ℤ◌, ◌-ℤ◌, ltb_ℤ, leb_ℤ, eqb_ℤ, max_ℤ, quot}
use grid_edge_t.Base.Machine.{checked_abs_i32, checked_mul}
use grid_edge_t.Base.Results.{Result, ok, err, panic, ok_or, fail_if, ◌>>=◌, ◌>>◌}
use grid_edge_t.Decimal.{
  Decimal, zero_decimal, one_decimal, from_i64, DecimalOps, midpoint_away_from_zero,
}
use grid_edge_t.Domain.{GridLevelState, GridLevelStatus, armed, touched, executed, skipped, rearmed}

-- Each stands for one message.
pub data GridError : Type 0 where
  anchor_not_positive ratio_out_of_range bad_levels price_scale_too_large : GridError
  index_not_representable index_out_of_envelope factor_not_representable factor_too_small :
      GridError
  price_multiplication_overflow price_division_overflow price_not_positive : GridError
  width_not_representable threshold_overflow lower_boundary_overflow upper_boundary_overflow :
      GridError
  budget_overflow deferred_budget_overflow quantity_division_overflow quantity_overflow : GridError

abbrev pub max_boundary_levels : ℤ
max_boundary_levels = pos 512

pub record GridSpec : Type 0 where
  pub anchor : Decimal
  pub ratio : Decimal
  pub trade_levels : ℤ  -- i32
  pub boundary_levels : ℤ  -- i32
  pub price_scale : ℕ  -- u32

abbrev new_level : ℤ → Decimal → GridLevelState
new_level i p = record { index = i; price = p; status = armed; touch_count = 0 }

module _ ⦃o : DecimalOps⦄ where
  open o use {checked_add_decimal, checked_mul_decimal, checked_div_decimal, round_dp_with_strategy}

  -- `for _ in 0..n { result = result.checked_mul(factor)? }`, and the same with `checked_div`.
  multiply_times : ℕ → Decimal → Decimal → Result GridError Decimal
  multiply_times zero factor result = ok result
  multiply_times (suc n) factor result = do
    next ← ok_or (checked_mul_decimal result factor) price_multiplication_overflow
    multiply_times n factor next

  divide_times : ℕ → Decimal → Decimal → Result GridError Decimal
  divide_times zero factor result = ok result
  divide_times (suc n) factor result = do
    next ← ok_or (checked_div_decimal result factor) price_division_overflow
    divide_times n factor next

  -- The price of an index before it is rounded.
  unrounded : GridSpec → Decimal → ℤ → Result GridError Decimal
  unrounded spec factor index =
      if ltb_ℤ (pos 0) index
      then multiply_times (magnitude index) factor spec.anchor
      else divide_times (magnitude index) factor spec.anchor

  -- `GridSpec::price`.
  unfoldable pub price : GridSpec → ℤ → Result GridError Decimal
  unfolding unrounded multiply_times divide_times
  price spec index = do
    depth ← ok_or (checked_abs_i32 index) index_not_representable
    fail_if (ltb_ℤ spec.boundary_levels depth || ltb_ℤ max_boundary_levels spec.boundary_levels)
        index_out_of_envelope
    factor ← ok_or (checked_add_decimal one_decimal spec.ratio) factor_not_representable
    fail_if (leb_ℤ factor one_decimal) factor_too_small
    result ← unrounded spec factor index
    let rounded = round_dp_with_strategy spec.price_scale midpoint_away_from_zero result
    fail_if (leb_ℤ rounded zero_decimal) price_not_positive
    ok rounded

  -- The loop of `validate` over `n` indices from `index`, and that of `levels`. The keys increase,
  -- so each insertion into the map is at its end.
  check_prices : GridSpec → ℕ → ℤ → Result GridError (Unit {0})
  check_prices spec zero index = ok tt
  check_prices spec (suc n) index = do
    if eqb_ℤ index (pos 0) then ok tt else (price spec index >>= λ p. ok tt)
    check_prices spec n (index +ℤ pos 1)

  levels_from : GridSpec → ℕ → ℤ → Result GridError (List GridLevelState)
  levels_from spec zero index = ok []
  levels_from spec (suc n) index =
      let rest = levels_from spec n (index +ℤ pos 1) in
      if eqb_ℤ index (pos 0)
      then rest
      else (do p ← price spec index; others ← rest; ok (new_level index p ∷ others))

  -- `-boundary_levels..=boundary_levels`.
  abbrev first_index : GridSpec → ℤ
  first_index spec = pos 0 -ℤ spec.boundary_levels

  abbrev index_count : GridSpec → ℕ
  index_count spec = 2 * magnitude spec.boundary_levels + 1

  -- `GridSpec::validate`.
  pub validate : GridSpec → Result GridError (Unit {0})
  unfolding check_prices
  validate spec = do
    fail_if (leb_ℤ spec.anchor zero_decimal) anchor_not_positive
    fail_if (leb_ℤ spec.ratio zero_decimal || leb_ℤ one_decimal spec.ratio) ratio_out_of_range
    fail_if
        (ltb_ℤ spec.trade_levels (pos 1)
          || leb_ℤ spec.boundary_levels spec.trade_levels
          || ltb_ℤ max_boundary_levels spec.boundary_levels)
        bad_levels
    fail_if (ltb 8 spec.price_scale) price_scale_too_large
    check_prices spec (index_count spec) (first_index spec)

  -- `GridSpec::levels`.
  pub levels : GridSpec → Result GridError (List GridLevelState)
  unfolding validate levels_from
  levels spec = do validate spec; levels_from spec (index_count spec) (first_index spec)

-- `GridSpec::is_trade_level`.
pub is_trade_level : GridSpec → ℤ → Bool
is_trade_level spec index =
    not (eqb_ℤ index (pos 0))
    && elim (checked_abs_i32 index) [ none ↦ false | some depth ↦ leb_ℤ depth spec.trade_levels ]

pub data TouchClassification : Type 0 where
  normal ambiguous : TouchClassification

pub crosses_level : ℤ → Decimal → Decimal → Decimal → Decimal → Bool
crosses_level index level_price previous_close low high =
    if ltb_ℤ index (pos 0)
    then ltb_ℤ level_price previous_close && leb_ℤ low level_price
    else ltb_ℤ previous_close level_price && leb_ℤ level_price high

abbrev is_armed : GridLevelStatus → Bool
is_armed armed = true
is_armed rearmed = true
is_armed _ = false

-- `crossed_levels`, over the levels in the order of their indices.
pub crossed_levels :
    List GridLevelState → Decimal → Decimal → Decimal → List ℤ × TouchClassification
unfolding crosses_level
crossed_levels levels previous_close low high =
    let touches = λ (l : GridLevelState).
      is_armed l.status && crosses_level l.index l.price previous_close low high in
    let indices = map (λ (l : GridLevelState). l.index) (keep touches levels) in
    let has_lower = any (λ i. ltb_ℤ i (pos 0)) indices in
    let has_upper = any (λ i. ltb_ℤ (pos 0) i) indices in
    (indices, if has_lower && has_upper then ambiguous else normal)

abbrev may_rearm : GridLevelStatus → Bool
may_rearm touched = true
may_rearm executed = true
may_rearm skipped = true
may_rearm _ = false

module _ ⦃o : DecimalOps⦄ where
  open o use {
    checked_add_decimal, checked_sub_decimal, checked_mul_decimal, checked_div_decimal,
    floor_to_i64,
  }

  rearm_width : Decimal → Result GridError Decimal
  rearm_width grid_width =
      if ltb_ℤ grid_width zero_decimal
      then ok_or (checked_mul_decimal grid_width (pos 0 -ℤ one_decimal)) width_not_representable
      else ok grid_width

  -- The test whether the price has cleared the level on its safe side.
  is_cleared : GridLevelState → Decimal → Decimal → Result GridError Bool
  is_cleared level current_price threshold =
      if ltb_ℤ level.index (pos 0)
      then (do
        boundary ← ok_or (checked_add_decimal level.price threshold) lower_boundary_overflow
        ok (leb_ℤ boundary current_price))
      else (do
        boundary ← ok_or (checked_sub_decimal level.price threshold) upper_boundary_overflow
        ok (leb_ℤ current_price boundary))

  -- `maybe_rearm`, with the level after the call.
  pub maybe_rearm :
      GridLevelState → Decimal → Decimal → Decimal → Result GridError (GridLevelState × Bool)
  unfolding rearm_width is_cleared
  maybe_rearm level current_price grid_width hysteresis_ratio =
      if not (may_rearm level.status) then ok (level, false) else (do
        width ← rearm_width grid_width
        threshold ← ok_or (checked_mul_decimal width hysteresis_ratio) threshold_overflow
        cleared ← is_cleared level current_price threshold
        ok (if cleared then (record level { status = rearmed }, true) else (level, false)))

  pub mechanical_cap : ℤ → Decimal → Result GridError Decimal
  mechanical_cap index standard_budget = do
    depth ← ok_or (checked_abs_i32 index) index_not_representable
    ok_or (checked_mul_decimal (from_i64 depth) standard_budget) budget_overflow

  pub available_deferred_budget : ℤ → Decimal → Decimal → Result GridError Decimal
  unfolding mechanical_cap
  available_deferred_budget index standard_budget deployed = do
    cap ← mechanical_cap index standard_budget
    left ← ok_or (checked_sub_decimal cap deployed) deferred_budget_overflow
    ok (max_ℤ left zero_decimal)

  -- `board_lot_quantity`: `none` of the floor is a whole number that is not an `i64`.
  pub board_lot_quantity : Decimal → Decimal → ℤ → Result GridError ℤ
  board_lot_quantity budget price lot_size =
      if leb_ℤ budget zero_decimal || leb_ℤ price zero_decimal || leb_ℤ lot_size (pos 0)
      then ok (pos 0)
      else (do
        shares ← ok_or (checked_div_decimal budget price) quantity_division_overflow
        raw ← ok_or (floor_to_i64 shares) quantity_overflow
        ok_or (checked_mul (quot raw lot_size) lot_size) quantity_overflow)
