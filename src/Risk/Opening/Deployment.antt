-- ===== src/Risk/Opening/Deployment.antt =====
-- `canonical_initial_deployment_plan` of src/risk.rs: the figures of the opening purchase.
use grid_edge_t.Base.{Option, none, some, if◌then◌else◌}
use grid_edge_t.Base.Int.{ℤ, pos, ltb_ℤ, min_ℤ, max_ℤ}
use grid_edge_t.Base.Machine.{checked_add, checked_mul}
use grid_edge_t.Base.Results.{Result, ok, ok_or, ◌>>=◌}
use grid_edge_t.Config.{Config, CapitalInventorySettings}
use grid_edge_t.Decimal.{Decimal, zero_decimal, DecimalOps}
use grid_edge_t.Domain.{StrategyState}
use grid_edge_t.Risk.{RiskError, numeric_range, estimated_buy_reservation}
use grid_edge_t.Risk.Opening.{pending_buys, open_buys, units_below, canonical_initial_buy_units}

pub record InitialDeploymentPlan : Type 0 where
  pub maximum_units : ℤ
  pub selected_units : ℤ
  pub quantity : ℤ
  pub pending_buy_quantity : ℤ
  pub reservation : Decimal
  pub projected_remaining_cash : Decimal

-- `settings.target_position`, or zero without settings.
abbrev target_or_zero : Option CapitalInventorySettings → ℤ
target_or_zero none = pos 0
target_or_zero (some settings) = settings.target_position

pub maximum_opening_units : Config → ℤ → Result RiskError ℤ
unfolding units_below
maximum_opening_units config exposure = do
  position_units ← units_below config.max_position exposure config.standard_quantity
  target_units ←
      units_below (target_or_zero config.capital_inventory) exposure config.standard_quantity
  ok (max_ℤ (min_ℤ (min_ℤ config.trade_levels position_units) target_units) (pos 0))

module _ ⦃o : DecimalOps⦄ where
  open o use {checked_sub_decimal}

  unfoldable pub canonical_initial_deployment_plan :
      Config → StrategyState → Decimal → Result RiskError InitialDeploymentPlan
  unfolding pending_buys maximum_opening_units canonical_initial_buy_units estimated_buy_reservation
  canonical_initial_deployment_plan config state limit_price = do
    pending ← ok_or (pending_buys (pos 0) (open_buys state)) numeric_range
    exposure ← ok_or (checked_add state.position.total pending) numeric_range
    maximum_units ←
        if ltb_ℤ (pos 0) config.standard_quantity
        then maximum_opening_units config exposure
        else ok (pos 0)
    selected_units ← canonical_initial_buy_units config state limit_price
    quantity ← ok_or (checked_mul selected_units config.standard_quantity) numeric_range
    reservation ←
        if ltb_ℤ (pos 0) quantity
        then estimated_buy_reservation config limit_price quantity
        else ok zero_decimal
    projected ← ok_or (checked_sub_decimal state.cash.available reservation) numeric_range
    ok (record {
      maximum_units = maximum_units;
      selected_units = selected_units;
      quantity = quantity;
      pending_buy_quantity = pending;
      reservation = reservation;
      projected_remaining_cash = projected;
    })
