-- ===== src/Profit/Slices.antt =====
-- `split_planned_allocation_with_policy` and `canonical_fill_allocations` of src/profit.rs: the
-- slices of a planned sale that a partial fill closes.
pub mod Cover
mod Tests
use grid_edge_t.Base.{
  Bool, true, false, not, ◌||◌, Option, none, some, List, [], ◌∷◌, if◌then◌else◌,
}
use grid_edge_t.Base.Int.{ℤ, pos, ltb_ℤ, leb_ℤ, eqb_ℤ, min_ℤ}
use grid_edge_t.Base.Machine.{checked_add, checked_sub}
use grid_edge_t.Base.Options
use grid_edge_t.Base.Results.{Result, ok, err, Absent, absent, or_panic, ok_or, ◌>>=◌}
use grid_edge_t.Decimal.{Decimal, zero_decimal, from_i64, DecimalOps}
use grid_edge_t.Domain.{LotQuantityAllocation, ProfitGuardPolicy}
use grid_edge_t.Profit.{
  checked_worst_sell_fill_price_with_policy, checked_conservative_sell_fees_with_policy,
}

-- What one exact slice of a lot earns at its adverse price.
pub record SellSliceEconomics : Type 0 where
  pub cost_basis : Decimal
  pub worst_fill_price : Decimal
  pub maximum_sell_fees : Decimal
  pub worst_case_profit : Decimal

module _ ⦃o : DecimalOps⦄ where
  open o use {checked_sub_decimal, checked_mul_decimal, checked_div_decimal}

  -- The cost of the first `consumed` shares of a planned slice.
  pub prefix_cost : LotQuantityAllocation → ℤ → Option Decimal
  prefix_cost planned consumed =
      if eqb_ℤ consumed planned.quantity
      then some planned.cost_basis
      else Options.◌>>=◌ (checked_mul_decimal planned.cost_basis (from_i64 consumed))
          λ value. checked_div_decimal value (from_i64 planned.quantity)

  -- Price, fees and profit of `quantity` shares with a known cost, at the adverse price.
  unfoldable pub economics :
      ProfitGuardPolicy → Decimal → ℤ → Decimal → Result Absent SellSliceEconomics
  economics policy cost_basis quantity limit_price = do
    worst ← ok_or (checked_worst_sell_fill_price_with_policy policy limit_price) absent
    fees ← ok_or (checked_conservative_sell_fees_with_policy policy worst quantity) absent
    proceeds ← ok_or (checked_mul_decimal worst (from_i64 quantity)) absent
    net ← ok_or (checked_sub_decimal proceeds fees) absent
    profit ← ok_or (checked_sub_decimal net cost_basis) absent
    ok (record {
      cost_basis = cost_basis;
      worst_fill_price = worst;
      maximum_sell_fees = fees;
      worst_case_profit = profit;
    })

  -- The allocation of a slice, unless it would lose.
  abbrev allocation_of :
      LotQuantityAllocation → ℤ → SellSliceEconomics → Result Absent LotQuantityAllocation
  allocation_of planned quantity e =
      if ltb_ℤ e.worst_case_profit zero_decimal
      then err absent
      else ok (record planned {
        quantity = quantity;
        cost_basis = e.cost_basis;
        worst_fill_price = e.worst_fill_price;
        maximum_sell_fees = e.maximum_sell_fees;
        worst_case_profit = e.worst_case_profit;
      })

  pub split_planned_allocation_with_policy :
      ProfitGuardPolicy
      → LotQuantityAllocation
      → ℤ
      → ℤ
      → Decimal
      → Result Absent LotQuantityAllocation
  unfolding economics prefix_cost
  split_planned_allocation_with_policy policy planned already_consumed quantity limit_price = do
    available ← ok_or (checked_sub planned.quantity already_consumed) absent
    if leb_ℤ quantity (pos 0) || ltb_ℤ available quantity then err absent else (do
      consumed ← ok_or (checked_add already_consumed quantity) absent
      upto ← ok_or (prefix_cost planned consumed) absent
      before ← ok_or (prefix_cost planned already_consumed) absent
      cost_basis ← ok_or (checked_sub_decimal upto before) absent
      e ← economics policy cost_basis quantity limit_price
      allocation_of planned quantity e)

  -- The loop over the planned slices, with the shares still to skip and those still to fill. It
  -- ends when nothing is left to fill.
  fill_slices :
      ProfitGuardPolicy
      → Decimal
      → ℤ
      → ℤ
      → List LotQuantityAllocation
      → Result Absent (List LotQuantityAllocation)
  fill_slices policy limit_price skip remaining [] =
      if eqb_ℤ remaining (pos 0) then ok [] else err absent
  fill_slices policy limit_price skip remaining (planned ∷ rest) =
      let skipped = or_panic (checked_sub skip planned.quantity) >>= λ left.
      fill_slices policy limit_price left remaining rest in
      let taken = or_panic (checked_sub planned.quantity skip) >>= λ available.
      let quantity = min_ℤ available remaining in
      if ltb_ℤ (pos 0) quantity
      then (do
        slice ← split_planned_allocation_with_policy policy planned skip quantity limit_price
        left ← or_panic (checked_sub remaining quantity)
        others ←
            if eqb_ℤ left (pos 0) then ok [] else fill_slices policy limit_price (pos 0) left rest
        ok (slice ∷ others))
      else if eqb_ℤ remaining (pos 0)
      then ok []
      else fill_slices policy limit_price (pos 0) remaining rest in
      if leb_ℤ planned.quantity skip then skipped else taken

  unfoldable pub canonical_fill_allocations :
      ProfitGuardPolicy
      → List LotQuantityAllocation
      → ℤ
      → ℤ
      → Decimal
      → Result Absent (List LotQuantityAllocation)
  unfolding fill_slices
  canonical_fill_allocations policy planned already_filled fill_quantity limit_price =
      if ltb_ℤ already_filled (pos 0) || leb_ℤ fill_quantity (pos 0)
      then err absent
      else fill_slices policy limit_price already_filled fill_quantity planned
