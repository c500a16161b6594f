-- ===== src/Account/Fills/NoLoss.antt =====
-- `apply_fill_with_policy` of src/domain.rs, over the realized profit.
use grid_edge_t.Base.{
  ◌≡◌, leb, Bool, true, List, [], ◌∷◌, Option, ◌||◌, ◌&&◌, ap, subst, All, arith,
}
use grid_edge_t.Base.Int.{ℤ, pos, ltb_ℤ, leb_ℤ, ◌≤ℤ◌, ◌-ℤ◌, ltb_ℤ→ge, ≤ℤ_trans}
use grid_edge_t.Base.Machine.{checked_sub}
use grid_edge_t.Base.Maps.{lookup}
use grid_edge_t.Base.Results.{
  returned, ok, or_panic, ok_or, fail_if, >>=-eq-ok, ok_or-eq, fail_if-ok,
}
use grid_edge_t.Account.{
  numeric_range, insufficient_cash, insufficient_lot_quantity, invalid_lot_allocation,
  loss_making_sell,
}
use grid_edge_t.Account.Fills.{
  ProjectedSlice, buy_position, apply_buy, apply_direction, apply_fill_with_policy, slice_cost,
  slice_fees, slice_pnl, project_slice, project_slices, apply_slices, next_fee, is_empty,
}
use grid_edge_t.Account.Fills.Effect.{apply_sell-IsSale, apply_fill_with_policy-IsApplied}
use grid_edge_t.Decimal.{Decimal, zero_decimal, DecimalOps}
use grid_edge_t.Decimal.Laws.{DecimalLaws}
use grid_edge_t.Domain.{Direction, buy, sell, LotQuantityAllocation, Fill, StrategyState}
use grid_edge_t.Profit.Guard.{effective_remaining_cost}

≤ℤ_same : (a : ℤ) → a ≤ℤ a
≤ℤ_same a = omega arith

abbrev Earns : ProjectedSlice → Type 0
Earns slice = pos 0 ≤ℤ slice.pnl

module _ ⦃o : DecimalOps⦄ where
  project_slice-pnl :
      (s : StrategyState) (fill : Fill) (fees : Decimal) (explicit : Option Decimal)
      (is_last : Bool) (allocated : Decimal) (a : LotQuantityAllocation) (slice : ProjectedSlice)
      (allocated' : Decimal)
      → project_slice s fill true fees explicit is_last allocated a ≡ ok (slice, allocated')
      → Earns slice
  unfolding project_slice
  project_slice-pnl s fill fees explicit is_last allocated a slice allocated' h =
      let (lot, _, k1) = >>=-eq-ok (ok_or (lookup a.lot_id s.lots) insufficient_lot_quantity) _ h in
      let (_, _, k2) =
        >>=-eq-ok
          (fail_if
            (leb fill.trade_date lot.opened_on
              || (leb_ℤ a.quantity (pos 0) || ltb_ℤ lot.remaining_quantity a.quantity))
            insufficient_lot_quantity)
          _ k1 in
      let (remaining_cost, _, k3) = >>=-eq-ok (effective_remaining_cost lot) _ k2 in
      let (buy_cost, _, k4) = >>=-eq-ok (slice_cost fill a lot remaining_cost) _ k3 in
      let (_, _, k5) =
        >>=-eq-ok
          (fail_if (ltb_ℤ buy_cost zero_decimal || ltb_ℤ remaining_cost buy_cost)
            invalid_lot_allocation)
          _ k4 in
      let (sell_fees, _, k6) =
        >>=-eq-ok (slice_fees explicit is_last fees allocated a.quantity fill.quantity) _ k5 in
      let (allocated_fees, _, k7) =
        >>=-eq-ok (ok_or (o.checked_add_decimal allocated sell_fees) numeric_range) _ k6 in
      let (pnl, _, k8) = >>=-eq-ok (slice_pnl fill.price a.quantity buy_cost sell_fees) _ k7 in
      let (_, earns, k9) =
        >>=-eq-ok
          (fail_if (true && ltb_ℤ pnl zero_decimal) (loss_making_sell a.lot_id (pos 0 -ℤ pnl))) _
          k8 in
      let (cost_after, _, fin) =
        >>=-eq-ok (ok_or (o.checked_sub_decimal remaining_cost buy_cost) numeric_range) _ k9 in
      subst (λ (p : ProjectedSlice × Decimal). Earns p.0) (returned fin)
        (ltb_ℤ→ge pnl zero_decimal (fail_if-ok _ _ _ earns))

  project_slices-Earns :
      (s : StrategyState) (fill : Fill) (fees : Decimal) (explicit : Option (List Decimal))
      (allocated : Decimal) (as' : List LotQuantityAllocation) (slices : List ProjectedSlice)
      → project_slices s fill true fees explicit allocated as' ≡ ok slices
      → All Earns slices
  unfolding project_slices
  project_slices-Earns s fill fees explicit allocated [] slices h =
      subst (All Earns) (returned h) tt
  project_slices-Earns s fill fees explicit allocated (a ∷ rest) slices h =
      let ((fee, later), _, k1) = >>=-eq-ok (next_fee explicit) _ h in
      let ((slice, allocated'), projects, k2) =
        >>=-eq-ok (project_slice s fill true fees fee (is_empty rest) allocated a) _ k1 in
      let (others, more, fin) =
        >>=-eq-ok (project_slices s fill true fees later allocated' rest) _ k2 in
      subst (All Earns) (returned fin) (
        project_slice-pnl s fill fees fee (is_empty rest) allocated a slice allocated' projects,
        project_slices-Earns s fill fees later allocated' rest others more,
      )

  apply_buy-realized :
      (s s' : StrategyState) (fill : Fill) (g : ℤ) (op : Bool) (notional fees : Decimal)
      → apply_buy s fill g op notional fees ≡ ok s'
      → s.realized_pnl ≡ s'.realized_pnl
  unfolding apply_buy
  apply_buy-realized s s' fill g op notional fees h =
      let (total, _, k1) =
        >>=-eq-ok (ok_or (o.checked_add_decimal notional fees) numeric_range) _ h in
      let (_, _, k2) = >>=-eq-ok (fail_if (ltb_ℤ s.cash.available total) insufficient_cash) _ k1 in
      let (available, _, k3) =
        >>=-eq-ok (ok_or (o.checked_sub_decimal s.cash.available total) numeric_range) _ k2 in
      let (total_fees, _, k4) =
        >>=-eq-ok (ok_or (o.checked_add_decimal s.cash.total_fees fees) numeric_range) _ k3 in
      let (p, _, k5) = >>=-eq-ok (buy_position s.position fill.quantity) _ k4 in
      let (deployed, _, fin) =
        >>=-eq-ok (ok_or (o.checked_add_decimal s.deployed_grid_budget notional) numeric_range) _
          k5 in
      ap (λ (x : StrategyState). x.realized_pnl) (returned fin)

module _ ⦃o : DecimalOps⦄ (laws : DecimalLaws o) where
  apply_slices-realized :
      (slices : List ProjectedSlice) (s s' : StrategyState)
      → All Earns slices
      → apply_slices slices s ≡ ok s'
      → s.realized_pnl ≤ℤ s'.realized_pnl
  unfolding apply_slices
  apply_slices-realized [] s s' e h =
      subst (λ (x : StrategyState). s.realized_pnl ≤ℤ x.realized_pnl) (returned h)
        (≤ℤ_same s.realized_pnl)
  apply_slices-realized (slice ∷ rest) s s' (e, es) h =
      let (lot, _, k1) = >>=-eq-ok (or_panic (lookup slice.allocation.lot_id s.lots)) _ h in
      let (remaining, _, k2) =
        >>=-eq-ok
          (ok_or (checked_sub lot.remaining_quantity slice.allocation.quantity) numeric_range) _
          k1 in
      let (lot_pnl, _, k3) =
        >>=-eq-ok (ok_or (o.checked_add_decimal lot.realized_pnl slice.pnl) numeric_range) _ k2 in
      let (realized, added, k4) =
        >>=-eq-ok (ok_or (o.checked_add_decimal s.realized_pnl slice.pnl) numeric_range) _ k3 in
      let grown = laws.add_mono s.realized_pnl slice.pnl realized e (ok_or-eq _ _ realized added) in
      ≤ℤ_trans s.realized_pnl realized s'.realized_pnl grown (apply_slices-realized rest _ s' es k4)

  apply_direction-realized :
      (d : Direction) (s s' : StrategyState) (fill : Fill) (g : ℤ) (op : Bool)
      (notional fees : Decimal)
      → apply_direction d s fill g true op notional fees ≡ ok s'
      → s.realized_pnl ≤ℤ s'.realized_pnl
  unfolding apply_direction
  apply_direction-realized buy s s' fill g op notional fees h =
      subst (λ x. s.realized_pnl ≤ℤ x) (apply_buy-realized s s' fill g op notional fees h)
        (≤ℤ_same s.realized_pnl)
  apply_direction-realized sell s s' fill g op notional fees h =
      let sale = apply_sell-IsSale s s' fill true notional fees h in
      subst (λ x. s.realized_pnl ≤ℤ x) sale.same_pnl
        (apply_slices-realized sale.projected s sale.sold
          (project_slices-Earns s fill fees sale.explicit zero_decimal sale.allocations
            sale.projected sale.projects)
          sale.applies)

  -- A fill that is applied under the no-loss rule never lowers the realized profit.
  pub apply_fill_with_policy-realized :
      (s s' : StrategyState) (fill : Fill) (g : ℤ) (op : Bool)
      → apply_fill_with_policy s fill g true op ≡ ok (s', true)
      → s.realized_pnl ≤ℤ s'.realized_pnl
  apply_fill_with_policy-realized s s' fill g op h =
      let a = apply_fill_with_policy-IsApplied s s' fill g true op h in
      subst (λ (x : StrategyState). s.realized_pnl ≤ℤ x.realized_pnl) a.result
        (apply_direction-realized fill.direction s a.after fill g op a.notional a.fees a.applies)
