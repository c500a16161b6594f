-- ===== src/Risk/Opening.antt =====
-- `canonical_initial_buy_units` of src/risk.rs: the opening purchase of a resource-aware run.
pub mod Pending
pub mod Limits
pub mod Deployment
use grid_edge_t.Base.{
  Bool, true, false, not, ◌||◌, ◌&&◌, Option, none, some, List, [], ◌∷◌, map, keep, if◌then◌else◌,
}
use grid_edge_t.Base.Int.{ℤ, pos, ltb_ℤ, leb_ℤ, min_ℤ, max_ℤ, quot, ◌-ℤ◌}
use grid_edge_t.Base.Machine.{checked_add, checked_sub, to_i32}
use grid_edge_t.Base.Maps.{values}
use grid_edge_t.Base.Results.{Result, ok, err, panic, or_panic, ok_or, ◌>>=◌}
use grid_edge_t.Config.{Config, CapitalInventorySettings, spec_of}
use grid_edge_t.Decimal.{Decimal, zero_decimal, from_i64, DecimalOps}
use grid_edge_t.Domain.{
  Direction, buy, sell, OrderStatus, filled, rejected, cancelled, Order, StrategyState,
}
use grid_edge_t.Grid.{GridError, price}
use grid_edge_t.Risk.{RiskError, numeric_range, affordable_buy_units}

-- `.map_err(|_| RiskError::NumericRange)?`.
abbrev in_range : Result GridError Decimal → Result RiskError Decimal
in_range (ok value) = ok value
in_range (err _) = err numeric_range
in_range panic = panic

abbrev is_final : OrderStatus → Bool
is_final filled = true
is_final rejected = true
is_final cancelled = true
is_final _ = false

abbrev buys : Direction → Bool
buys buy = true
buys sell = false

-- What the open buy orders may still buy, added to a total so far.
pub pending_buys : ℤ → List Order → Option ℤ
pending_buys total [] = some total
pending_buys total (order ∷ orders) =
    elim (checked_sub order.intent.quantity order.filled_quantity) [
      | none ↦ none
      | some left ↦ elim (checked_add total left) [
        | none ↦ none
        | some next ↦ pending_buys next orders
      ]
    ]

abbrev open_buys : StrategyState → List Order
open_buys state =
    keep (λ (o : Order). buys o.intent.direction && not (is_final o.status)) (values state.orders)

-- Whole units between an exposure and a limit.
pub units_below : ℤ → ℤ → ℤ → Result RiskError ℤ
unfolding quot
units_below limit exposure unit = do
  room ← ok_or (checked_sub limit exposure) numeric_range
  ok (quot (max_ℤ room (pos 0)) unit)

-- `checked_sub(..).unwrap_or(Decimal::ZERO)`.
abbrev or_zero : Option Decimal → Decimal
or_zero none = zero_decimal
or_zero (some value) = value

module _ ⦃o : DecimalOps⦄ where
  open o use {checked_sub_decimal, checked_div_decimal}

  -- The units that may be bought, for the settings of a deployment that is enabled.
  pub opening_units :
      Config → StrategyState → Decimal → CapitalInventorySettings → Result RiskError ℤ
  unfolding pending_buys units_below spec_of from_i64
  opening_units config state limit_price settings = do
    free_cash ← ok_or (checked_sub_decimal state.cash.available state.cash.frozen) numeric_range
    half ← ok_or (checked_div_decimal config.initial_cash (from_i64 (pos 2))) numeric_range
    let spendable_cash =
        min_ℤ
          (max_ℤ (or_zero (checked_sub_decimal free_cash settings.minimum_free_cash)) zero_decimal)
          half
    lowest ← or_panic (to_i32 (pos 0 -ℤ config.boundary_levels))
    lower_boundary ← in_range (price (spec_of config) lowest)
    if ltb_ℤ limit_price lower_boundary || ltb_ℤ config.anchor_price limit_price
        then ok (pos 0)
        else (do
          pending ← ok_or (pending_buys (pos 0) (open_buys state)) numeric_range
          exposure ← ok_or (checked_add state.position.total pending) numeric_range
          position_units ← units_below config.max_position exposure config.standard_quantity
          target_units ← units_below settings.target_position exposure config.standard_quantity
          let maximum_units =
              max_ℤ (min_ℤ (min_ℤ config.trade_levels position_units) target_units) (pos 0)
          affordable_buy_units config limit_price spendable_cash maximum_units)

  unfoldable pub canonical_initial_buy_units : Config → StrategyState → Decimal → Result RiskError ℤ
  unfolding opening_units
  canonical_initial_buy_units config state limit_price = elim config.capital_inventory [
    | none ↦ ok (pos 0)
    | some settings ↦
        if not settings.deploy_initial_balance || leb_ℤ config.standard_quantity (pos 0)
        then ok (pos 0)
        else opening_units config state limit_price settings
  ]
