-- ===== src/Orders.antt =====
-- `OrderStatus::can_transition` and `Order::transition` of src/domain.rs.
pub mod Reach
use grid_edge_t.Base.{ℕ, Bool, true, false, if◌then◌else◌}
use grid_edge_t.Base.Results.{Result, ok, err}
use grid_edge_t.Domain.{
  OrderStatus, created, submitted, accepted, partially_filled, filled, rejected, cancel_pending,
  cancelled, Order,
}

-- `DomainError::InvalidOrderTransition`, with the two statuses.
pub data TransitionError : Type 0 where
  invalid_order_transition : OrderStatus → OrderStatus → TransitionError

unfoldable pub can_transition : OrderStatus → OrderStatus → Bool
can_transition created submitted = true
can_transition submitted accepted = true
can_transition submitted rejected = true
can_transition submitted cancel_pending = true
can_transition accepted partially_filled = true
can_transition accepted filled = true
can_transition accepted cancel_pending = true
can_transition accepted rejected = true
can_transition partially_filled partially_filled = true
can_transition partially_filled filled = true
can_transition partially_filled cancel_pending = true
can_transition cancel_pending cancelled = true
can_transition cancel_pending partially_filled = true
can_transition cancel_pending filled = true
can_transition _ _ = false

unfoldable pub transition : Order → OrderStatus → Result TransitionError Order
transition o next =
    if can_transition o.status next
    then ok (record o { status = next })
    else err (invalid_order_transition o.status next)
