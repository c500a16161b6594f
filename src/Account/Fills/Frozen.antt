-- ===== src/Account/Fills/Frozen.antt =====
-- `apply_fill_with_policy` of src/domain.rs, over the orders and the shares that are frozen.
use grid_edge_t.Base.{◌≡◌, Bool, true, false, List, [], ◌∷◌, sym, ap, ◌∙◌}
use grid_edge_t.Base.Int.{ℤ, ltb_ℤ}
use grid_edge_t.Base.Machine.{checked_add, checked_sub}
use grid_edge_t.Base.Maps.{lookup}
use grid_edge_t.Base.Results.{returned, ok, or_panic, ok_or, fail_if, >>=-eq-ok}
use grid_edge_t.Account.{numeric_range, insufficient_cash}
use grid_edge_t.Account.Fills.{
  ProjectedSlice, buy_position, sell_position, apply_buy, apply_direction, apply_fill_with_policy,
  apply_slices,
}
use grid_edge_t.Account.Fills.Effect.{
  apply_sell-IsSale, apply_fill_with_policy-IsApplied, apply_fill_with_policy-unapplied,
}
use grid_edge_t.Decimal.{Decimal, DecimalOps}
use grid_edge_t.Domain.{Direction, buy, sell, Fill, Position, StrategyState}

-- The orders and the frozen shares of two states are the same.
abbrev pub SameFrozen : StrategyState → StrategyState → Type 0
SameFrozen s s' = (s'.orders ≡ s.orders) × (s'.position.frozen_sell ≡ s.position.frozen_sell)

buy_position-frozen :
    (p p' : Position) (q : ℤ) → buy_position p q ≡ ok p' → p'.frozen_sell ≡ p.frozen_sell
unfolding buy_position
buy_position-frozen p p' q h =
    let (_, _, k) = >>=-eq-ok (ok_or (checked_add p.total q) numeric_range) _ h in
    let (_, _, fin) = >>=-eq-ok (ok_or (checked_add p.today_bought q) numeric_range) _ k in
    sym (ap (λ (x : Position). x.frozen_sell) (returned fin))

sell_position-frozen :
    (p p' : Position) (q : ℤ) → sell_position p q ≡ ok p' → p'.frozen_sell ≡ p.frozen_sell
unfolding sell_position
sell_position-frozen p p' q h =
    let (_, _, k) = >>=-eq-ok (ok_or (checked_sub p.total q) numeric_range) _ h in
    let (_, _, fin) = >>=-eq-ok (ok_or (checked_sub p.sellable q) numeric_range) _ k in
    sym (ap (λ (x : Position). x.frozen_sell) (returned fin))

module _ ⦃o : DecimalOps⦄ where
  apply_slices-SameFrozen :
      (slices : List ProjectedSlice) (s s' : StrategyState)
      → apply_slices slices s ≡ ok s'
      → SameFrozen s s'
  unfolding apply_slices
  apply_slices-SameFrozen [] s s' h = (
    sym (ap (λ (x : StrategyState). x.orders) (returned h)),
    sym (ap (λ (x : StrategyState). x.position.frozen_sell) (returned h)),
  )
  apply_slices-SameFrozen (slice ∷ rest) s s' h =
      let (lot, _, k1) = >>=-eq-ok (or_panic (lookup slice.allocation.lot_id s.lots)) _ h in
      let (remaining, _, k2) =
        >>=-eq-ok
          (ok_or (checked_sub lot.remaining_quantity slice.allocation.quantity) numeric_range) _
          k1 in
      let (lot_pnl, _, k3) =
        >>=-eq-ok (ok_or (o.checked_add_decimal lot.realized_pnl slice.pnl) numeric_range) _ k2 in
      let (realized, _, k4) =
        >>=-eq-ok (ok_or (o.checked_add_decimal s.realized_pnl slice.pnl) numeric_range) _ k3 in
      apply_slices-SameFrozen rest _ s' k4

  apply_buy-SameFrozen :
      (s s' : StrategyState) (fill : Fill) (g : ℤ) (op : Bool) (notional fees : Decimal)
      → apply_buy s fill g op notional fees ≡ ok s'
      → SameFrozen s s'
  unfolding apply_buy
  apply_buy-SameFrozen s s' fill g op notional fees h =
      let (total, _, k1) =
        >>=-eq-ok (ok_or (o.checked_add_decimal notional fees) numeric_range) _ h in
      let (_, _, k2) = >>=-eq-ok (fail_if (ltb_ℤ s.cash.available total) insufficient_cash) _ k1 in
      let (available, _, k3) =
        >>=-eq-ok (ok_or (o.checked_sub_decimal s.cash.available total) numeric_range) _ k2 in
      let (total_fees, _, k4) =
        >>=-eq-ok (ok_or (o.checked_add_decimal s.cash.total_fees fees) numeric_range) _ k3 in
      let (p, position, k5) = >>=-eq-ok (buy_position s.position fill.quantity) _ k4 in
      let (deployed, _, fin) =
        >>=-eq-ok (ok_or (o.checked_add_decimal s.deployed_grid_budget notional) numeric_range) _
          k5 in
      (
        sym (ap (λ (x : StrategyState). x.orders) (returned fin)),
        sym (ap (λ (x : StrategyState). x.position.frozen_sell) (returned fin))
            ∙ buy_position-frozen s.position p fill.quantity position,
      )

  apply_direction-SameFrozen :
      (d : Direction) (s s' : StrategyState) (fill : Fill) (g : ℤ) (enforce op : Bool)
      (notional fees : Decimal)
      → apply_direction d s fill g enforce op notional fees ≡ ok s'
      → SameFrozen s s'
  unfolding apply_direction
  apply_direction-SameFrozen buy s s' fill g enforce op notional fees h =
      apply_buy-SameFrozen s s' fill g op notional fees h
  apply_direction-SameFrozen sell s s' fill g enforce op notional fees h =
      let sale = apply_sell-IsSale s s' fill enforce notional fees h in
      let (orders, frozen) = apply_slices-SameFrozen sale.projected s sale.sold sale.applies in
      (
        sym sale.same_orders ∙ orders,
        sell_position-frozen sale.sold.position s'.position fill.quantity sale.has_position
            ∙ frozen,
      )

  -- Booking a fill leaves the orders and the frozen shares as they are.
  pub apply_fill_with_policy-SameFrozen :
      (s s' : StrategyState) (fill : Fill) (g : ℤ) (enforce op applied : Bool)
      → apply_fill_with_policy s fill g enforce op ≡ ok (s', applied)
      → SameFrozen s s'
  apply_fill_with_policy-SameFrozen s s' fill g enforce op true h =
      let a = apply_fill_with_policy-IsApplied s s' fill g enforce op h in
      let (orders, frozen) =
        apply_direction-SameFrozen fill.direction s a.after fill g enforce op a.notional a.fees
          a.applies in
      (
        sym (ap (λ (x : StrategyState). x.orders) a.result) ∙ orders,
        sym (ap (λ (x : StrategyState). x.position.frozen_sell) a.result) ∙ frozen,
      )
  apply_fill_with_policy-SameFrozen s s' fill g enforce op false h =
      let same = apply_fill_with_policy-unapplied s s' fill g enforce op h in
      (
        ap (λ (x : StrategyState). x.orders) same,
        ap (λ (x : StrategyState). x.position.frozen_sell) same,
      )
