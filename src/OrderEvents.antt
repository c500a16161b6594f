-- ===== src/OrderEvents.antt =====
-- The events of an order in `StrategyState::apply_event_in_place` of src/event.rs: submission, the
-- status reports, and the fills. A payload that was read is an argument; the program applies an event
-- to a copy of the state, so an error changes nothing.
pub mod Fills
pub mod Reserved
pub mod Parts
pub mod Frozen
pub mod Booked
use grid_edge_t.Base.{ℕ, ◌==◌, Bool, true, false, not, ◌||◌, Option, some, none, if◌then◌else◌}
use grid_edge_t.Base.Int.{ℤ, pos}
use grid_edge_t.Base.Ids.{Text, ◌=ᵗ◌, is_blank}
use grid_edge_t.Base.Machine.{checked_add, checked_sub}
use grid_edge_t.Base.Maps.{Map, lookup, insert}
use grid_edge_t.Base.Results.{Result, ok, err, panic, ok_or, fail_if, ◌>>=◌, ◌>>◌}
use grid_edge_t.Account.{DomainError}
use grid_edge_t.Decimal.{Decimal, zero_decimal, DecimalOps}
use grid_edge_t.Domain.{
  OrderStatus, created, submitted, accepted, partially_filled, filled, rejected, cancel_pending,
  cancelled, Order, StrategyState,
}
use grid_edge_t.Orders.{TransitionError, transition}

-- What goes wrong when an order event is applied.
pub data EventError : Type 0 where
  order_missing reason_missing conflicting_cancel numeric_range direction_mismatch exceeds_intent
        foreign_lot policy_missing charges_mismatch not_sliced no_loss_violated finality_mismatch
        exceeds_reserved_cash exceeds_reserved_quantity :
      EventError
  invalid_fill_transition : OrderStatus → OrderStatus → EventError
  invalid_transition : TransitionError → EventError
  domain : DomainError → EventError

-- The status of an event that reports one, with the reason of a request to cancel.
pub data StatusEvent : Type 0 where
  order_accepted order_rejected order_cancelled : StatusEvent
  order_cancel_requested : Option Text → StatusEvent

abbrev pub status_of : StatusEvent → OrderStatus
status_of order_accepted = accepted
status_of (order_cancel_requested reason) = cancel_pending
status_of order_rejected = rejected
status_of order_cancelled = cancelled

-- `==` of two statuses.
abbrev pub same_status : OrderStatus → OrderStatus → Bool
same_status created created = true
same_status submitted submitted = true
same_status accepted accepted = true
same_status partially_filled partially_filled = true
same_status filled filled = true
same_status rejected rejected = true
same_status cancel_pending cancel_pending = true
same_status cancelled cancelled = true
same_status _ _ = false

-- `order.transition(next)?`.
abbrev pub or_invalid : Result TransitionError Order → Result EventError Order
or_invalid (ok order) = ok order
or_invalid (err e) = err (invalid_transition e)
or_invalid panic = panic

pub move : Order → OrderStatus → Result EventError Order
unfolding transition
move order next = or_invalid (transition order next)

-- The order back in its place.
abbrev pub with_order : StrategyState → Text → Order → StrategyState
with_order state order_id order = record state { orders = insert order_id order state.orders }

abbrev pub is_instant : Option ℕ → ℕ → Bool
is_instant none time = false
is_instant (some t) time = t == time

-- A request to cancel is kept with its time; one that differs from it is refused.
pub keep_request : Order → ℕ → Text → Option Text → Result EventError Order
keep_request order time reason none =
    ok (record order { cancel_requested_reason = some reason; cancel_requested_at = some time })
keep_request order time reason (some existing) =
    if not (existing =ᵗ reason) || not (is_instant order.cancel_requested_at time)
    then err conflicting_cancel
    else ok order

pub request_cancel : Order → ℕ → Option Text → Result EventError Order
unfolding keep_request is_blank
request_cancel order time none = err reason_missing
request_cancel order time (some reason) =
    if is_blank reason
    then err reason_missing
    else keep_request order time reason order.cancel_requested_reason

pub requested : StatusEvent → Order → ℕ → Result EventError Order
unfolding request_cancel
requested (order_cancel_requested reason) order time = request_cancel order time reason
requested _ order time = ok order

module _ ⦃o : DecimalOps⦄ where
  open o use {checked_add_decimal, checked_sub_decimal}

  -- `OrderSubmitted`: what the order reserves is frozen.
  unfoldable submit_order : StrategyState → Text → Result EventError StrategyState
  unfolding lookup insert move
  submit_order state order_id = do
    order ← ok_or (lookup order_id state.orders) order_missing
    if same_status order.status submitted then ok state else (do
      frozen_cash ←
          ok_or (checked_add_decimal state.cash.frozen order.reserved_cash_remaining) numeric_range
      frozen_sell ←
          ok_or (checked_add state.position.frozen_sell order.reserved_quantity_remaining)
            numeric_range
      next ← move order submitted
      ok (
          with_order
            (record state {
              cash = record state.cash { frozen = frozen_cash };
              position = record state.position { frozen_sell = frozen_sell };
            })
            order_id next))

  -- A rejection or a cancellation gives back what the order still reserves.
  pub release : StrategyState → Text → Order → OrderStatus → Result EventError StrategyState
  unfolding insert move
  release state order_id order next = do
    frozen_cash ←
        ok_or (checked_sub_decimal state.cash.frozen order.reserved_cash_remaining) numeric_range
    frozen_sell ←
        ok_or (checked_sub state.position.frozen_sell order.reserved_quantity_remaining)
          numeric_range
    moved ← move order next
    ok (
        with_order
          (record state {
            cash = record state.cash { frozen = frozen_cash };
            position = record state.position { frozen_sell = frozen_sell };
          })
          order_id
          (record moved {
            reserved_cash_remaining = zero_decimal;
            reserved_quantity_remaining = pos 0;
          }))

  abbrev pub ends : OrderStatus → Bool
  ends rejected = true
  ends cancelled = true
  ends _ = false

  pub report_moved : StrategyState → Text → Order → OrderStatus → Result EventError StrategyState
  unfolding insert move release
  report_moved state order_id order next =
      if same_status order.status next
      then ok (with_order state order_id order)
      else if ends next
      then release state order_id order next
      else (move order next >>= λ moved. ok (with_order state order_id moved))

  -- `OrderAccepted`, `OrderCancelRequested`, `OrderRejected` and `OrderCancelled`, at the time of
  -- the event.
  unfoldable report_status :
      StrategyState → Text → ℕ → StatusEvent → Result EventError StrategyState
  unfolding lookup requested report_moved
  report_status state order_id time event = do
    known ← ok_or (lookup order_id state.orders) order_missing
    order ← requested event known time
    report_moved state order_id order (status_of event)
