-- ===== src/Profit/Guard.antt =====
-- `effective_remaining_cost` of src/domain.rs, and `allocated_cost_for_close`,
-- `evaluate_sell_slice_with_policy`, `prove_non_loss` and `plan_non_loss_sales` of src/profit.rs:
-- which lots a sale may close.
pub mod Plan
mod Tests
use Prim.Native.Nat.{Ordering}
use grid_edge_t.Base.{ℕ, ◌==◌, ltb, Bool, true, false, ◌||◌, ◌&&◌, List, [], ◌∷◌, if◌then◌else◌}
use grid_edge_t.Base.Int.{ℤ, pos, ltb_ℤ, leb_ℤ, eqb_ℤ, min_ℤ, max_ℤ}
use grid_edge_t.Base.Ids.{Text, compare_text}
use grid_edge_t.Base.Machine.{checked_sub, checked_abs_i32}
use grid_edge_t.Base.Results.{
  Result, ok, err, panic, Absent, absent, or_panic, ok_or, fail_if, ◌>>=◌, ◌>>◌,
}
use grid_edge_t.Config.{Config, policy_of}
use grid_edge_t.Decimal.{Decimal, zero_decimal, from_i64, DecimalOps}
use grid_edge_t.Domain.{LotQuantityAllocation, ProfitGuardPolicy, TradingLot}
use grid_edge_t.Profit.Slices.{SellSliceEconomics, economics}

module _ ⦃o : DecimalOps⦄ where
  open o use {checked_mul_decimal, checked_div_decimal}

  -- A lot of an old record has no remaining cost: its share of the allocated cost.
  unfoldable pub effective_remaining_cost : {E : Type 0} → TradingLot → Result E Decimal
  effective_remaining_cost lot =
      if eqb_ℤ lot.remaining_cost zero_decimal
        && (ltb_ℤ zero_decimal lot.allocated_cost && ltb_ℤ (pos 0) lot.remaining_quantity)
      then (do
        product ←
            or_panic (checked_mul_decimal lot.allocated_cost (from_i64 lot.remaining_quantity))
        or_panic (checked_div_decimal product (from_i64 lot.original_quantity)))
      else ok lot.remaining_cost

  pub allocated_cost_for_close : TradingLot → ℤ → Result Absent Decimal
  unfolding effective_remaining_cost
  allocated_cost_for_close lot quantity = do
    fail_if
        (leb_ℤ quantity (pos 0)
          || (ltb_ℤ lot.remaining_quantity quantity || leb_ℤ lot.remaining_quantity (pos 0)))
        absent
    remaining_cost ← effective_remaining_cost lot
    fail_if (leb_ℤ remaining_cost zero_decimal) absent
    if eqb_ℤ quantity lot.remaining_quantity then ok remaining_cost else (do
      product ← ok_or (checked_mul_decimal remaining_cost (from_i64 quantity)) absent
      ok_or (checked_div_decimal product (from_i64 lot.remaining_quantity)) absent)

  pub evaluate_sell_slice_with_policy :
      ProfitGuardPolicy → TradingLot → ℤ → Decimal → Result Absent SellSliceEconomics
  unfolding allocated_cost_for_close economics
  evaluate_sell_slice_with_policy policy lot quantity reference_price = do
    cost_basis ← allocated_cost_for_close lot quantity
    economics policy cost_basis quantity reference_price

  pub prove_non_loss : Config → TradingLot → ℤ → Decimal → Result Absent LotQuantityAllocation
  unfolding evaluate_sell_slice_with_policy policy_of
  prove_non_loss config lot quantity limit_price = do
    e ← evaluate_sell_slice_with_policy (policy_of config) lot quantity limit_price
    fail_if (ltb_ℤ e.worst_case_profit zero_decimal) absent
    ok (record {
      lot_id = lot.lot_id;
      tranche_id = [];
      quantity = quantity;
      cost_basis = e.cost_basis;
      worst_fill_price = e.worst_fill_price;
      maximum_sell_fees = e.maximum_sell_fees;
      worst_case_profit = e.worst_case_profit;
    })

-- The order of sale: the outermost grid level first, then the older lot, then the lower id. The
-- magnitude of a level is that of `i32`.
is_le : Ordering → Bool
is_le Ordering.gt = false
is_le _ = true

not_after : TradingLot → TradingLot → Result Absent Bool
unfolding checked_abs_i32 is_le
not_after a b = do
  level_a ← or_panic (checked_abs_i32 a.grid_index)
  level_b ← or_panic (checked_abs_i32 b.grid_index)
  ok (
      ltb_ℤ level_b level_a
      || (eqb_ℤ level_a level_b
          && (ltb a.opened_on b.opened_on
              || (a.opened_on == b.opened_on && is_le (compare_text a.lot_id b.lot_id)))))

-- `sort_by_key`, which is stable.
place : TradingLot → List TradingLot → Result Absent (List TradingLot)
unfolding not_after
place lot [] = ok (lot ∷ [])
place lot (other ∷ others) =
    let rest = place lot others in
    not_after lot other >>= λ here.
    if here then ok (lot ∷ other ∷ others) else (rest >>= λ placed. ok (other ∷ placed))

sort_lots : List TradingLot → Result Absent (List TradingLot)
unfolding place
sort_lots [] = ok []
sort_lots (lot ∷ lots) = sort_lots lots >>= place lot

module _ ⦃o : DecimalOps⦄ where
  -- The loop over the sorted lots, with the quantity that is still to plan.
  plan_lots : Config → Decimal → ℤ → List TradingLot → Result Absent (List LotQuantityAllocation)
  unfolding prove_non_loss
  plan_lots config limit_price remaining [] = ok []
  plan_lots config limit_price remaining (lot ∷ lots) =
      let quantity = min_ℤ remaining lot.remaining_quantity in
      let next : Result Absent (List LotQuantityAllocation) =
        elim (prove_non_loss config lot quantity limit_price) [
          | ok allocation ↦ or_panic (checked_sub remaining quantity) >>= λ left.
              plan_lots config limit_price left lots >>= λ others. ok (allocation ∷ others)
          | err _ ↦ plan_lots config limit_price remaining lots
          | panic ↦ panic
        ] in
      if eqb_ℤ remaining (pos 0) then ok [] else next

  pub plan_non_loss_sales :
      Config → List TradingLot → ℤ → Decimal → Result Absent (List LotQuantityAllocation)
  unfolding sort_lots plan_lots
  plan_non_loss_sales config lots requested_quantity limit_price =
      sort_lots lots >>= plan_lots config limit_price (max_ℤ requested_quantity (pos 0))
