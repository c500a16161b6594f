-- ===== src/Profit.antt =====
-- src/profit.rs: what an order costs at its adverse price, and the fees of a fill. These are the
-- `checked_` functions, which return `None` on overflow.
pub mod Fees
pub mod Slices
pub mod Guard
use grid_edge_t.Base.{ℕ, Bool, true, false, Option, none, some, if◌then◌else◌}
use grid_edge_t.Base.Int.{ℤ, pos, ltb_ℤ, leb_ℤ, max_ℤ}
use grid_edge_t.Base.Options.{◌>>=◌}
use grid_edge_t.Base.Results.{Result, ok, or_panic, ◌>>=◌ as bind}
use grid_edge_t.Decimal.{
  Decimal, zero_decimal, one_decimal, from_i64, DecimalOps, midpoint_away_from_zero,
  midpoint_nearest_even, to_positive_infinity, to_negative_infinity,
}
use grid_edge_t.Domain.{Direction, buy, sell, ProfitGuardPolicy}

module _ ⦃o : DecimalOps⦄ where
  open o use {
    checked_add_decimal, checked_sub_decimal, checked_mul_decimal, checked_div_decimal,
    round_dp_with_strategy,
  }

  pub checked_cumulative_order_commission_with_policy : ProfitGuardPolicy → Decimal → Option Decimal
  checked_cumulative_order_commission_with_policy policy cumulative_notional = do
    proportional ← checked_mul_decimal cumulative_notional policy.commission_rate
    some (
        round_dp_with_strategy 2 midpoint_away_from_zero
          (max_ℤ proportional policy.minimum_commission))

  unfoldable pub checked_buy_cash_reservation_with_policy :
      ProfitGuardPolicy → Decimal → ℤ → Option Decimal
  unfolding checked_cumulative_order_commission_with_policy
  checked_buy_cash_reservation_with_policy policy limit_price quantity =
      if leb_ℤ quantity (pos 0) then some zero_decimal else (do
        factor ← checked_add_decimal one_decimal policy.slippage_rate
        adverse ← checked_mul_decimal limit_price factor
        let worst_price = round_dp_with_strategy policy.price_scale to_positive_infinity adverse
        notional ← checked_mul_decimal worst_price (from_i64 quantity)
        commission ← checked_cumulative_order_commission_with_policy policy notional
        checked_add_decimal notional commission)

  sell_tax : ProfitGuardPolicy → Direction → Decimal → Option Decimal
  sell_tax policy buy fill_notional = some zero_decimal
  sell_tax policy sell fill_notional = do
    tax ← checked_mul_decimal fill_notional policy.sell_tax_rate
    some (round_dp_with_strategy 2 midpoint_nearest_even tax)

  unfoldable pub checked_actual_order_fill_charges_with_policy :
      ProfitGuardPolicy → Direction → Decimal → Decimal → Decimal → ℤ → Option (Decimal × Decimal)
  unfolding sell_tax checked_cumulative_order_commission_with_policy
  checked_actual_order_fill_charges_with_policy policy direction prior_filled_notional
        prior_commission fill_price fill_quantity =
      do
        fill_notional ← checked_mul_decimal fill_price (from_i64 fill_quantity)
        cumulative_notional ← checked_add_decimal prior_filled_notional fill_notional
        cumulative ← checked_cumulative_order_commission_with_policy policy cumulative_notional
        commission ← checked_sub_decimal cumulative prior_commission
        tax ← sell_tax policy direction fill_notional
        some (commission, tax)

  pub checked_worst_sell_fill_price_with_policy : ProfitGuardPolicy → Decimal → Option Decimal
  checked_worst_sell_fill_price_with_policy policy limit_price = do
    factor ← checked_sub_decimal one_decimal policy.slippage_rate
    adverse ← checked_mul_decimal limit_price factor
    some (round_dp_with_strategy policy.price_scale to_negative_infinity adverse)

  pub checked_conservative_sell_fees_with_policy : ProfitGuardPolicy → Decimal → ℤ → Option Decimal
  checked_conservative_sell_fees_with_policy policy fill_price quantity =
      if leb_ℤ quantity (pos 0) then some zero_decimal else (do
        notional ← checked_mul_decimal fill_price (from_i64 quantity)
        proportional ← checked_mul_decimal notional policy.commission_rate
        let commission =
            round_dp_with_strategy 2 to_positive_infinity
              (max_ℤ proportional policy.minimum_commission)
        taxed ← checked_mul_decimal notional policy.sell_tax_rate
        checked_add_decimal commission (round_dp_with_strategy 2 to_positive_infinity taxed))
