-- ===== src/Orders/Reach/Tests.antt =====
-- Runs of the order state machine of src/domain.rs.
use grid_edge_t.Base.{◌≡◌, ◌≤◌, refl, [], ◌∷◌, false, none, arith}
use grid_edge_t.Base.Int.{pos}
use grid_edge_t.Base.Results.{ok, err}
use grid_edge_t.Domain.{
  Order, OrderStatus, buy, created, submitted, accepted, partially_filled, filled, cancel_pending,
  cancelled, grid_right,
}
use grid_edge_t.Orders.{can_transition, transition, TransitionError}
use grid_edge_t.Orders.Reach.{
  transitions, phase, IsFinal, reports_to_filled, transitions-phase, transitions-IsFinal,
  transitions_to_filled,
}

abbrev order_in : OrderStatus → Order
order_in s = record {
  order_id = 1 ∷ [];
  intent = record {
    intent_id = 2 ∷ [];
    origin = grid_right;
    right_id = 3 ∷ [];
    grid_index = pos 1;
    direction = buy;
    limit_price = pos 100;
    quantity = pos 100;
    target_lot_ids = [];
    target_lot_allocations = [];
    profit_guard_version = [];
    profit_guard_policy = none;
    created_on = 20_000;
  };
  status = s;
  filled_quantity = pos 0;
  filled_notional = pos 0;
  commission_charged = pos 0;
  reserved_cash_remaining = pos 0;
  reserved_quantity_remaining = pos 0;
  cancel_requested_reason = none;
  cancel_requested_at = none;
}

no_way_back : can_transition accepted submitted ≡ false
unfolding can_transition
no_way_back = refl

filled_in_parts :
    transitions (order_in created) (submitted ∷ accepted ∷ partially_filled ∷ filled ∷ [])
    ≡ ok (order_in filled)
unfolding transitions transition can_transition
filled_in_parts = refl

cancelled_late :
    transitions (order_in partially_filled) (cancel_pending ∷ cancelled ∷ [])
    ≡ ok (order_in cancelled)
unfolding transitions transition can_transition
cancelled_late = refl

transitions-phase_example :
    (order_in filled ≡ record (order_in created) { status = filled })
    × (phase created ≤ phase filled)
transitions-phase_example =
    transitions-phase (order_in created) (submitted ∷ accepted ∷ partially_filled ∷ filled ∷ [])
      (order_in filled) filled_in_parts

cancelled-IsFinal : IsFinal cancelled
cancelled-IsFinal = ground arith

transitions-IsFinal_example :
    transitions (order_in cancelled) (filled ∷ [])
    ≡ err (TransitionError.invalid_order_transition cancelled filled)
transitions-IsFinal_example = transitions-IsFinal (order_in cancelled) filled [] cancelled-IsFinal

submitted_is_open : ¬ IsFinal submitted
submitted_is_open = ground arith

transitions_to_filled_example :
    transitions (order_in submitted) (reports_to_filled submitted) ≡ ok (order_in filled)
transitions_to_filled_example = transitions_to_filled (order_in submitted) submitted_is_open
