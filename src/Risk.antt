-- ===== src/Risk.antt =====
-- src/risk.rs: the checks before an order, and how many units a buy can afford.
pub mod Affordable
pub mod Checks
pub mod Opening
pub mod Approval
mod Tests
use grid_edge_t.Base.{ℕ, zero, suc, Bool, true, false, ◌||◌, if◌then◌else◌}
use grid_edge_t.Base.Int.{ℤ, pos, magnitude, ltb_ℤ, leb_ℤ, quot, ◌-ℤ◌}
use grid_edge_t.Base.Machine.{checked_add, checked_sub, checked_mul}
use grid_edge_t.Base.Results.{Result, ok, panic, or_panic, ok_or, fail_if, ◌>>=◌, ◌>>◌}
use grid_edge_t.Config.{Config, policy_of}
use grid_edge_t.Decimal.{Decimal, zero_decimal, DecimalOps}
use grid_edge_t.Domain.{ServiceMode, running, StrategyState}
use grid_edge_t.Profit.{checked_buy_cash_reservation_with_policy}

pub data RiskError : Type 0 where
  safe_mode insufficient_cash max_position numeric_range insufficient_sellable base_position :
      RiskError

pub is_running : ServiceMode → Bool
is_running running = true
is_running _ = false

module _ ⦃o : DecimalOps⦄ where
  open o use {checked_sub_decimal}

  pub estimated_buy_reservation : Config → Decimal → ℤ → Result RiskError Decimal
  unfolding checked_buy_cash_reservation_with_policy policy_of
  estimated_buy_reservation config limit_price quantity =
      ok_or (checked_buy_cash_reservation_with_policy (policy_of config) limit_price quantity)
        numeric_range

  -- The reservation of a number of units.
  pub reserve_units : Config → Decimal → ℤ → Result RiskError Decimal
  unfolding estimated_buy_reservation
  reserve_units config limit_price units = do
    quantity ← ok_or (checked_mul units config.standard_quantity) numeric_range
    estimated_buy_reservation config limit_price quantity

  -- The binary search, on fuel; it panics when that runs out.
  pub search_units : Config → Decimal → Decimal → ℕ → ℤ → ℤ → Result RiskError ℤ
  unfolding reserve_units quot
  search_units config limit_price cash zero low high = panic
  search_units config limit_price cash (suc fuel) low high = elim (ltb_ℤ low high) [
    | false ↦ ok low
    | true ↦ (do
      span ← ok_or (checked_sub high low) numeric_range
      half ← ok_or (checked_add low (quot span (pos 2))) numeric_range
      mid ← ok_or (checked_add half (pos 1)) numeric_range
      reserved ← reserve_units config limit_price mid
      elim (leb_ℤ reserved cash) [
        | true ↦ search_units config limit_price cash fuel mid high
        | false ↦ ok_or (checked_sub mid (pos 1)) numeric_range >>= λ below.
            search_units config limit_price cash fuel low below
      ])
  ]

  pub affordable_buy_units : Config → Decimal → Decimal → ℤ → Result RiskError ℤ
  unfolding search_units
  affordable_buy_units config limit_price spendable_cash maximum_units = do
    fail_if
        (ltb_ℤ spendable_cash zero_decimal
          || (ltb_ℤ maximum_units (pos 0) || leb_ℤ config.standard_quantity (pos 0)))
        numeric_range
    search_units config limit_price spendable_cash (suc (magnitude maximum_units)) (pos 0)
        maximum_units

  pub check_buy : Config → StrategyState → ℤ → Decimal → Result RiskError (Unit {0})
  unfolding is_running
  check_buy config state quantity estimated_cost = do
    fail_if (if is_running state.mode then false else true) safe_mode
    available_cash ←
        ok_or (checked_sub_decimal state.cash.available state.cash.frozen) numeric_range
    fail_if (leb_ℤ quantity (pos 0) || ltb_ℤ available_cash estimated_cost) insufficient_cash
    fail_if (ltb_ℤ state.position.total (pos 0) || ltb_ℤ config.max_position state.position.total)
        max_position
    room ← or_panic (checked_sub config.max_position state.position.total)
    fail_if (ltb_ℤ room quantity) max_position
    ok tt

pub check_sell : Config → StrategyState → ℤ → Result RiskError (Unit {0})
unfolding is_running
check_sell config state quantity = do
  fail_if (if is_running state.mode then false else true) safe_mode
  available ← ok_or (checked_sub state.position.sellable state.position.frozen_sell) numeric_range
  fail_if (leb_ℤ quantity (pos 0) || ltb_ℤ available quantity) insufficient_sellable
  remaining ← ok_or (checked_sub state.position.total quantity) numeric_range
  fail_if (ltb_ℤ remaining config.min_base_position) base_position
  ok tt
