-- ===== src/OrderEvents/Frozen.antt =====
-- The fills of src/event.rs, over the shares that sell orders freeze, and sequences of order events.
mod Tests
use grid_edge_t.Base.{
  ◌≡◌, ◌≢◌, ℕ, Bool, true, false, not, ◌&&◌, ◌||◌, Option, some, none, List, [], ◌∷◌, inl, inr, ◌⊎◌,
  refl, sym, ap, subst, arith, Bool-cases, ◌∙◌, if◌then◌else◌, any, not-false,
}
use grid_edge_t.Base.Ids.{Text}
use grid_edge_t.Base.Int.{ℤ, pos, ltb_ℤ, leb_ℤ, eqb_ℤ, ◌+ℤ◌, ◌-ℤ◌, int_laws}
use grid_edge_t.Base.Machine.{checked_add, checked_sub, to_i64-eq}
use grid_edge_t.Base.Maps.{Map, lookup, insert, member}
use grid_edge_t.Base.Options
use grid_edge_t.Base.Results.{
  Result, ok, err, panic, returned, ok_or, fail_if, ◌>>=◌, >>=-eq-ok, ok_or-eq, fail_if-ok,
  Result-cases,
}
use grid_edge_t.Account.{DomainError}
use grid_edge_t.Account.Fills.{
  apply_fill, apply_initial_deployment_fill, apply_legacy_fill, apply_fill_with_policy,
}
use grid_edge_t.Account.Fills.Frozen.{SameFrozen, apply_fill_with_policy-SameFrozen}
use grid_edge_t.Decimal.{Decimal, from_i64, DecimalOps}
use grid_edge_t.Domain.{
  Direction, buy, sell, OrderStatus, created, submitted, partially_filled, filled, Order, Fill,
  StrategyState, is_initial_deployment,
}
use grid_edge_t.OrderEvents.{
  EventError, StatusEvent, order_missing, numeric_range, direction_mismatch, exceeds_intent,
  foreign_lot, finality_mismatch, exceeds_reserved_quantity, invalid_fill_transition, same_status,
  move, with_order, submit_order, report_status,
}
use grid_edge_t.OrderEvents.Fills.{
  same_direction, or_domain, is_foreign, resulting_quantity, is_mismatched, is_refused,
  check_finality, check_charges, check_sale, reserve_cash, reserve_shares, book_fill, moved_order,
  mark_level, fill_order, plan_fill, finish_fill, filled_order, frozen_after, FillEffect,
  fill_status, report_fill,
}
use grid_edge_t.OrderEvents.Reserved.{
  held, held_in, IsReserved, IsSaleOnly, replace-IsReserved, move_lem, held_before, held_after,
  submit_order-IsReserved, report_status-IsReserved, same_status-eq, freeze_same,
}
use grid_edge_t.Orders.{can_transition}
use grid_edge_t.OrderEvents.Parts.{
  resulting_quantity-direction, check_finality-held, moved_order_lem, reserve_shares_lem,
  book_fill-cases, book_fill-SameFrozen, unless_seen,
}

some_inj : {a b : Order} → ◌≡◌ {A = Option Order} (some a) (some b) → a ≡ b
some_inj h = ground arith

mark_level-IsReserved :
    (opening : Bool) (g : ℤ) (s : StrategyState)
    → IsReserved s
    → IsReserved (mark_level opening g s)
unfolding mark_level
mark_level-IsReserved true g s k = k
mark_level-IsReserved false g s k = record {
  sorted = k.sorted;
  sale_only = k.sale_only;
  frozen = k.frozen;
}

-- The end of a fill: what was worked out before is frozen and reserved.
finish_fill-IsReserved :
    (s after s' : StrategyState) (opening : Bool) (order : Order) (next : OrderStatus) (fill : Fill)
    (g : ℤ) (effect : FillEffect)
    → next ≢ created
    → IsReserved s
    → lookup fill.order_id s.orders ≡ some order
    → SameFrozen s after
    → effect.frozen_sell ≡ s.position.frozen_sell -ℤ held order +ℤ effect.quantity_reservation
    → (order.intent.direction ≡ buy → effect.quantity_reservation ≡ pos 0)
    → finish_fill opening next fill g effect after ≡ ok s'
    → IsReserved s'
unfolding finish_fill filled_order frozen_after
finish_fill-IsReserved s after s' opening order next fill g effect nc k known (orders, _) frozen
      only h =
    let (current, found, k1) =
      >>=-eq-ok (ok_or (lookup fill.order_id after.orders) order_missing) _ h in
    let (moved, moves, fin) = >>=-eq-ok (moved_order current next) _ k1 in
    let is_current : current ≡ order = some_inj (
      sym (ok_or-eq (lookup fill.order_id after.orders) order_missing current found)
      ∙ ap (lookup fill.order_id) orders
      ∙ known) in
    let moved_is : record order { status = next } ≡ moved =
      (λ i. record (sym is_current i) { status = next })
      ∙ moved_order_lem current moved next moves in
    let holds : held (filled_order moved effect) ≡ effect.quantity_reservation =
      ap (λ (x : Order). held_in x.status effect.quantity_reservation) (sym moved_is)
      ∙ held_after next effect.quantity_reservation nc in
    subst IsReserved (returned fin) (
      mark_level-IsReserved opening g _ (
        replace-IsReserved s _ fill.order_id order (filled_order moved effect) k known
          (λ d. only (ap (λ (x : Order). x.intent.direction) moved_is ∙ d))
          (ap (insert fill.order_id (filled_order moved effect)) orders) (rw (frozen, holds) refl)))

module _ ⦃o : DecimalOps⦄ where
  plan_fill_lem :
      (s : StrategyState) (schema : ℕ) (order : Order) (next : OrderStatus) (fill : Fill)
      (effect : FillEffect)
      → next ≢ submitted
      → next ≢ created
      → IsSaleOnly order
      → plan_fill s schema order next fill ≡ ok effect
      → (effect.frozen_sell ≡ s.position.frozen_sell -ℤ held order +ℤ effect.quantity_reservation)
        × (order.intent.direction ≡ buy → effect.quantity_reservation ≡ pos 0)
  unfolding plan_fill
  plan_fill_lem s schema order next fill effect ns nc only h =
      let (q, is_q, k1) = >>=-eq-ok (resulting_quantity order fill) _ h in
      let (_, _, k2) = >>=-eq-ok (check_charges schema order fill) _ k1 in
      let (_, _, k3) = >>=-eq-ok (check_sale schema order fill) _ k2 in
      let (_, final, k4) = >>=-eq-ok (check_finality order next q) _ k3 in
      let (notional, _, k5) =
        >>=-eq-ok (ok_or (o.checked_mul_decimal fill.price (from_i64 fill.quantity)) numeric_range)
          _ k4 in
      let (cost, _, k6) =
        >>=-eq-ok
          (ok_or
            (Options.◌>>=◌ (o.checked_add_decimal notional fill.commission)
              λ value. o.checked_add_decimal value fill.tax)
            numeric_range)
          _ k5 in
      let (cash, _, k7) =
        >>=-eq-ok
          (reserve_cash fill.direction (same_status next filled) s.cash.frozen
            order.reserved_cash_remaining cost)
          _ k6 in
      let (shares, reserves, k8) =
        >>=-eq-ok
          (reserve_shares fill.direction (same_status next filled) s.position.frozen_sell
            order.reserved_quantity_remaining fill.quantity)
          _ k7 in
      let (filled_notional, _, k9) =
        >>=-eq-ok (ok_or (o.checked_add_decimal order.filled_notional notional) numeric_range) _
          k8 in
      let (commission, _, fin) =
        >>=-eq-ok
          (ok_or (o.checked_add_decimal order.commission_charged fill.commission) numeric_range) _
          k9 in
      let direction = resulting_quantity-direction order fill q is_q in
      let (frozen, left) =
        reserve_shares_lem fill.direction (same_status next filled) s.position.frozen_sell
          order.reserved_quantity_remaining fill.quantity (shares.0) (shares.1)
          (λ d. only (sym direction ∙ d)) reserves in
      let was = check_finality-held order next q ns nc final in
      let result = returned fin in
      (
        sym (ap (λ (e : FillEffect). e.frozen_sell) result)
            ∙ frozen
            ∙ (λ i. s.position.frozen_sell -ℤ sym was i +ℤ (result i).quantity_reservation),
        λ d. sym (ap (λ (e : FillEffect). e.quantity_reservation) result) ∙ left (direction ∙ d),
      )

  fill_order-IsReserved :
      (s s' : StrategyState) (schema : ℕ) (order : Order) (next : OrderStatus) (fill : Fill) (g : ℤ)
      → next ≢ submitted
      → next ≢ created
      → IsReserved s
      → lookup fill.order_id s.orders ≡ some order
      → fill_order s schema order next fill g ≡ ok s'
      → IsReserved s'
  unfolding fill_order
  fill_order-IsReserved s s' schema order next fill g ns nc k known h =
      let (effect, planned, k1) = >>=-eq-ok (plan_fill s schema order next fill) _ h in
      let (after, booked, k2) = >>=-eq-ok (book_fill schema order s fill g) _ k1 in
      let (frozen, only) =
        plan_fill_lem s schema order next fill effect ns nc (k.sale_only fill.order_id order known)
          planned in
      finish_fill-IsReserved s after s' (is_initial_deployment order.intent.origin) order next fill
        g effect nc k known (book_fill-SameFrozen schema order s after fill g booked) frozen only k2

  fill_status-ne : (final : Bool) → (fill_status final ≢ submitted) × (fill_status final ≢ created)
  fill_status-ne true = (λ h. cc, λ h. cc)
  fill_status-ne false = (λ h. cc, λ h. cc)

  report_fill-IsReserved :
      (s s' : StrategyState) (schema : ℕ) (final : Bool) (fill : Fill) (g : ℤ)
      → IsReserved s
      → report_fill s schema final fill g ≡ ok s'
      → IsReserved s'
  unfolding report_fill
  report_fill-IsReserved s s' schema final fill g k h =
      elim (unless_seen (member fill.fill_id s.processed_fills) s _ s' h) [
        | inl same ↦ subst IsReserved same k
        | inr h1 ↦
            let (order, found, k1) =
              >>=-eq-ok (ok_or (lookup fill.order_id s.orders) order_missing) _ h1 in
            let (ns, nc) = fill_status-ne final in
            fill_order-IsReserved s s' schema order (fill_status final) fill g ns nc k
              (ok_or-eq (lookup fill.order_id s.orders) order_missing order found) k1
      ]

-- An event of an order, as it was read.
pub data OrderEvent : Type 0 where
  order_submitted : Text → OrderEvent
  order_status : Text → ℕ → StatusEvent → OrderEvent  -- order_id, event_time
  order_fill : ℕ → Bool → Fill → ℤ → OrderEvent  -- schema_version, final, grid_index

module _ ⦃o : DecimalOps⦄ where
  pub apply_order_event : StrategyState → OrderEvent → Result EventError StrategyState
  unfolding submit_order report_status report_fill
  apply_order_event s (order_submitted id) = submit_order s id
  apply_order_event s (order_status id time event) = report_status s id time event
  apply_order_event s (order_fill schema final fill g) = report_fill s schema final fill g

  pub apply_order_events : StrategyState → List OrderEvent → Result EventError StrategyState
  unfolding apply_order_event
  apply_order_events s [] = ok s
  apply_order_events s (event ∷ events) =
      apply_order_event s event >>= λ next. apply_order_events next events

  apply_order_event-IsReserved :
      (s s' : StrategyState) (event : OrderEvent)
      → IsReserved s
      → apply_order_event s event ≡ ok s'
      → IsReserved s'
  unfolding apply_order_event
  apply_order_event-IsReserved s s' (order_submitted id) k h = submit_order-IsReserved s s' id k h
  apply_order_event-IsReserved s s' (order_status id time event) k h =
      report_status-IsReserved s s' id time event k h
  apply_order_event-IsReserved s s' (order_fill schema final fill g) k h =
      report_fill-IsReserved s s' schema final fill g k h

  -- Over any sequence of order events that is applied, the frozen shares stay equal to what the
  -- submitted orders together still reserve, buys reserve no shares, and the orders stay listed by
  -- their ids.
  pub apply_order_events-IsReserved :
      (s s' : StrategyState) (events : List OrderEvent)
      → IsReserved s
      → apply_order_events s events ≡ ok s'
      → IsReserved s'
  unfolding apply_order_events
  apply_order_events-IsReserved s s' [] k h = subst IsReserved (returned h) k
  apply_order_events-IsReserved s s' (event ∷ events) k h =
      let (next, e, rest) = >>=-eq-ok (apply_order_event s event) _ h in
      apply_order_events-IsReserved next s' events (apply_order_event-IsReserved s next event k e)
        rest
