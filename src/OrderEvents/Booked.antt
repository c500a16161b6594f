-- ===== src/OrderEvents/Booked.antt =====
-- A fill that src/event.rs applies, over the counters of its order and the account.
use grid_edge_t.Base.{
  not, ◌||◌, any, ◌≡◌, ℕ, Bool, true, false, some, sym, ap, subst, ◌∙◌, refl, if◌then◌else◌,
}
use mathlib.Core.Bool.{false≢true}
use grid_edge_t.Base.Int.{ℤ, pos, ◌+ℤ◌, leb_ℤ, ltb_ℤ}
use grid_edge_t.Base.Machine.{checked_add, to_i64-eq}
use grid_edge_t.Base.Maps.{lookup, member, lookup-insert_self}
use grid_edge_t.Base.Options
use grid_edge_t.Base.Results.{ok, ok_or, fail_if, returned, >>=-eq-ok, ok_or-eq}
use grid_edge_t.Decimal.{Decimal, from_i64, DecimalOps}
use grid_edge_t.Domain.{Order, OrderStatus, filled, Fill, StrategyState, is_initial_deployment}
use grid_edge_t.OrderEvents.{
  direction_mismatch, exceeds_intent, foreign_lot, order_missing, numeric_range, same_status,
  with_order,
}
use grid_edge_t.OrderEvents.Fills.{
  FillEffect, same_direction, is_foreign, resulting_quantity, check_charges, check_sale,
  check_finality, reserve_cash, reserve_shares, plan_fill, book_fill, finish_fill, filled_order,
  frozen_after, moved_order, mark_level, fill_order, report_fill, fill_status,
}

-- The cash and the position of a state, without what is frozen, are those of another.
pub record SameAccount (s s' : StrategyState) : Type 0 where
  pub same_available : s'.cash.available ≡ s.cash.available
  pub same_fees : s'.cash.total_fees ≡ s.cash.total_fees
  pub same_total : s'.position.total ≡ s.position.total
  pub same_sellable : s'.position.sellable ≡ s.position.sellable
  pub same_today : s'.position.today_bought ≡ s.position.today_bought

mark_level-keeps :
    (opening : Bool) (g : ℤ) (s : StrategyState)
    → SameAccount s (mark_level opening g s) × ((mark_level opening g s).orders ≡ s.orders)
unfolding mark_level
mark_level-keeps true g s = (
  record {
    same_available = refl;
    same_fees = refl;
    same_total = refl;
    same_sellable = refl;
    same_today = refl;
  },
  refl,
)
mark_level-keeps false g s = (
  record {
    same_available = refl;
    same_fees = refl;
    same_total = refl;
    same_sellable = refl;
    same_today = refl;
  },
  refl,
)

finish_fill_lem :
    (opening : Bool) (next : OrderStatus) (fill : Fill) (g : ℤ) (effect : FillEffect)
    (after s' : StrategyState)
    → finish_fill opening next fill g effect after ≡ ok s'
    → (order : Order) × (lookup fill.order_id s'.orders ≡ some order)
      × (order.filled_notional ≡ effect.resulting_notional)
      × (order.filled_quantity ≡ effect.resulting_quantity)
      × (order.commission_charged ≡ effect.resulting_commission)
      × SameAccount after s'
unfolding finish_fill filled_order frozen_after
finish_fill_lem opening next fill g effect after s' h =
    let (current, found, k1) =
      >>=-eq-ok (ok_or (lookup fill.order_id after.orders) order_missing) _ h in
    let (moved, moves, fin) = >>=-eq-ok (moved_order current next) _ k1 in
    let written : StrategyState =
      with_order (frozen_after after effect) fill.order_id (filled_order moved effect) in
    let (account, orders) = mark_level-keeps opening g written in
    let e : mark_level opening g written ≡ s' = returned fin in
    (
      filled_order moved effect,
      subst
          (λ (x : StrategyState). lookup fill.order_id x.orders ≡ some (filled_order moved effect))
          e
          (ap (lookup fill.order_id) orders
            ∙ lookup-insert_self fill.order_id (filled_order moved effect) after.orders),
      refl,
      refl,
      refl,
      subst (SameAccount after) e (record {
        same_available = account.same_available;
        same_fees = account.same_fees;
        same_total = account.same_total;
        same_sellable = account.same_sellable;
        same_today = account.same_today;
      }),
    )

pub when_new :
    {A : Type 0} (seen : Bool) (first rest result : A)
    → seen ≡ false
    → (if seen then first else rest) ≡ result
    → rest ≡ result
when_new true first rest result new h = absurd (false≢true (sym new))
when_new false first rest result new h = h

resulting_quantity-sum :
    (order : Order) (fill : Fill) (q : ℤ)
    → resulting_quantity order fill ≡ ok q
    → q ≡ order.filled_quantity +ℤ fill.quantity
unfolding resulting_quantity
resulting_quantity-sum order fill q h =
    let (_, _, k1) =
      >>=-eq-ok
        (fail_if (not (same_direction fill.direction order.intent.direction)) direction_mismatch) _
        h in
    let (total, t, k2) =
      >>=-eq-ok (ok_or (checked_add order.filled_quantity fill.quantity) numeric_range) _ k1 in
    let (_, _, k3) =
      >>=-eq-ok
        (fail_if (leb_ℤ fill.quantity (pos 0) || ltb_ℤ order.intent.quantity total) exceeds_intent)
        _ k2 in
    let (_, _, fin) =
      >>=-eq-ok (fail_if (any (is_foreign order) fill.target_lot_ids) foreign_lot) _ k3 in
    sym (returned fin)
    ∙ to_i64-eq (order.filled_quantity +ℤ fill.quantity) total (ok_or-eq _ numeric_range total t)

module _ ⦃o : DecimalOps⦄ where
  plan_fill-counters :
      (s : StrategyState) (schema : ℕ) (order : Order) (next : OrderStatus) (fill : Fill)
      (effect : FillEffect)
      → plan_fill s schema order next fill ≡ ok effect
      → (notional : Decimal) × (o.checked_mul_decimal fill.price (from_i64 fill.quantity)
          ≡ some notional)
        × (o.checked_add_decimal order.filled_notional notional ≡ some effect.resulting_notional)
        × (o.checked_add_decimal order.commission_charged fill.commission
            ≡ some effect.resulting_commission)
        × (effect.resulting_quantity ≡ order.filled_quantity +ℤ fill.quantity)
  unfolding plan_fill
  plan_fill-counters s schema order next fill effect h =
      let (q, is_q, k1) = >>=-eq-ok (resulting_quantity order fill) _ h in
      let (_, _, k2) = >>=-eq-ok (check_charges schema order fill) _ k1 in
      let (_, _, k3) = >>=-eq-ok (check_sale schema order fill) _ k2 in
      let (_, _, k4) = >>=-eq-ok (check_finality order next q) _ k3 in
      let (notional, n, k5) =
        >>=-eq-ok (ok_or (o.checked_mul_decimal fill.price (from_i64 fill.quantity)) numeric_range)
          _ k4 in
      let (cost, _, k6) =
        >>=-eq-ok
          (ok_or
            (Options.◌>>=◌ (o.checked_add_decimal notional fill.commission)
              λ value. o.checked_add_decimal value fill.tax)
            numeric_range)
          _ k5 in
      let (cash, _, k7) =
        >>=-eq-ok
          (reserve_cash fill.direction (same_status next filled) s.cash.frozen
            order.reserved_cash_remaining cost)
          _ k6 in
      let (shares, _, k8) =
        >>=-eq-ok
          (reserve_shares fill.direction (same_status next filled) s.position.frozen_sell
            order.reserved_quantity_remaining fill.quantity)
          _ k7 in
      let (total, t, k9) =
        >>=-eq-ok (ok_or (o.checked_add_decimal order.filled_notional notional) numeric_range) _
          k8 in
      let (commission, c, fin) =
        >>=-eq-ok
          (ok_or (o.checked_add_decimal order.commission_charged fill.commission) numeric_range) _
          k9 in
      let e = returned fin in
      (
        notional,
        ok_or-eq _ numeric_range notional n,
        ok_or-eq _ numeric_range total t ∙ (λ i. some (e i).resulting_notional),
        ok_or-eq _ numeric_range commission c ∙ (λ i. some (e i).resulting_commission),
        sym (λ i. (e i).resulting_quantity) ∙ resulting_quantity-sum order fill q is_q,
      )

  -- What a fill of a known order leads to.
  pub record IsReported (s s' : StrategyState) (schema : ℕ) (order : Order) (fill : Fill) (g : ℤ)
      : Type 0 where
    pub after : StrategyState
    pub notional : Decimal
    pub next : Order
    pub books : book_fill schema order s fill g ≡ ok after
    pub notional_is : o.checked_mul_decimal fill.price (from_i64 fill.quantity) ≡ some notional
    pub known : lookup fill.order_id s'.orders ≡ some next
    pub quantity_is : next.filled_quantity ≡ order.filled_quantity +ℤ fill.quantity
    pub filled_is : o.checked_add_decimal order.filled_notional notional ≡ some next.filled_notional
    pub charged_is :
        o.checked_add_decimal order.commission_charged fill.commission
        ≡ some next.commission_charged
    pub same : SameAccount after s'

  pub fill_order-IsReported :
      (s s' : StrategyState) (schema : ℕ) (order : Order) (next : OrderStatus) (fill : Fill) (g : ℤ)
      → fill_order s schema order next fill g ≡ ok s'
      → IsReported s s' schema order fill g
  unfolding fill_order
  fill_order-IsReported s s' schema order next fill g h =
      let (effect, planned, k1) = >>=-eq-ok (plan_fill s schema order next fill) _ h in
      let (after, booked, k2) = >>=-eq-ok (book_fill schema order s fill g) _ k1 in
      let (notional, n, filled_is, charged_is, quantity_is) =
        plan_fill-counters s schema order next fill effect planned in
      let (order', known, notional', quantity', commission', same) =
        finish_fill_lem (is_initial_deployment order.intent.origin) next fill g effect after s'
          k2 in
      record {
        after = after;
        notional = notional;
        next = order';
        books = booked;
        notional_is = n;
        known = known;
        quantity_is = quantity' ∙ quantity_is;
        filled_is = filled_is ∙ ap some (sym notional');
        charged_is = charged_is ∙ ap some (sym commission');
        same = same;
      }

  pub report_fill-IsReported :
      (s s' : StrategyState) (schema : ℕ) (final : Bool) (fill : Fill) (g : ℤ)
      → member fill.fill_id s.processed_fills ≡ false
      → report_fill s schema final fill g ≡ ok s'
      → (order : Order) × (lookup fill.order_id s.orders ≡ some order)
        × IsReported s s' schema order fill g
  unfolding report_fill
  report_fill-IsReported s s' schema final fill g new h =
      let (order, found, k) =
        >>=-eq-ok (ok_or (lookup fill.order_id s.orders) order_missing) _
          (when_new (member fill.fill_id s.processed_fills) (ok s) _ (ok s') new h) in
      (
        order,
        ok_or-eq (lookup fill.order_id s.orders) order_missing order found,
        fill_order-IsReported s s' schema order (fill_status final) fill g k,
      )
