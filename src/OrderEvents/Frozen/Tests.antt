-- ===== src/OrderEvents/Frozen/Tests.antt =====
-- A run of the order events of src/event.rs: a sale of 100 shares that is filled in part and cancelled.
use grid_edge_t.Base.{
  ◌≡◌, ◌*◌, ℕ, Bool, true, false, Option, some, none, List, [], ◌∷◌, refl, sym, ap, inl, inr,
  Bool-cases, arith,
}
use grid_edge_t.Base.Ids.{Text, ◌=ᵗ◌}
use grid_edge_t.Base.Int.{ℤ, pos}
use grid_edge_t.Base.Maps.{lookup}
use grid_edge_t.Base.Results.{Result, ok, err, panic}
use grid_edge_t.Decimal.{Decimal}
use grid_edge_t.Decimal.Exact.{exact_ops}
use grid_edge_t.Domain.{
  buy, sell, Fill, Order, created, grid_right, StrategyState, TradingLot, running,
}
use grid_edge_t.OrderEvents.{
  EventError, order_accepted, order_cancel_requested, order_cancelled, exceeds_reserved_quantity,
}
use grid_edge_t.OrderEvents.Frozen.{
  OrderEvent, order_submitted, order_status, order_fill, apply_order_events,
  apply_order_events-IsReserved,
}
use grid_edge_t.OrderEvents.Reserved.{IsReserved, IsSaleOnly}

abbrev cents : ℕ → Decimal
cents n = pos (n * 100_000_000_000_000_000_000_000_000)

abbrev order : ℤ → Order
order reserved = record {
  order_id = 5 ∷ [];
  intent = record {
    intent_id = 2 ∷ [];
    origin = grid_right;
    right_id = 3 ∷ [];
    grid_index = pos 1;
    direction = sell;
    limit_price = cents 1000;
    quantity = pos 100;
    target_lot_ids = [];
    target_lot_allocations = [];
    profit_guard_version = [];
    profit_guard_policy = none;
    created_on = 20_001;
  };
  status = created;
  filled_quantity = pos 0;
  filled_notional = pos 0;
  commission_charged = pos 0;
  reserved_cash_remaining = pos 0;
  reserved_quantity_remaining = reserved;
  cancel_requested_reason = none;
  cancel_requested_at = none;
}

abbrev lot : TradingLot
lot = record {
  lot_id = 9 ∷ [];
  source_order_id = [];
  grid_index = pos 1;
  opening_allocation = false;
  opened_on = 20_000;
  original_quantity = pos 100;
  remaining_quantity = pos 100;
  open_price = cents 895;
  allocated_cost = cents 90_000;
  remaining_cost = cents 90_000;
  realized_pnl = pos 0;
}

abbrev before : StrategyState
before = record {
  cycle_id = [];
  mode = running;
  deployed_grid_budget = pos 0;
  orders = (5 ∷ [], order (pos 100)) ∷ [];
  lots = (9 ∷ [], lot) ∷ [];
  processed_fills = [];
  audited_profit_guard_policy = none;
  cash = record { available = cents 100_000; frozen = pos 0; total_fees = pos 0 };
  position = record {
    total = pos 100;
    sellable = pos 100;
    today_bought = pos 0;
    frozen_sell = pos 0;
  };
  realized_pnl = pos 0;
  current_trade_date = some 20_001;
  last_price = none;
  levels = [];
  historically_executed_levels = [];
}

abbrev part : Fill
part = record {
  fill_id = 4 ∷ [];
  order_id = 5 ∷ [];
  direction = sell;
  price = cents 1000;
  quantity = pos 60;
  commission = cents 500;
  tax = cents 50;
  trade_date = 20_001;
  target_lot_ids = [];
  target_lot_allocations = [];
}

abbrev events : List OrderEvent
events =
    order_submitted (5 ∷ [])
    ∷ order_status (5 ∷ []) 7 order_accepted
    ∷ order_fill 1 false part (pos 1)
    ∷ order_status (5 ∷ []) 8 (order_cancel_requested (some (6 ∷ [])))
    ∷ order_status (5 ∷ []) 9 order_cancelled
    ∷ []

abbrev state_of : Result EventError StrategyState → StrategyState
state_of (ok s) = s
state_of (err _) = before
state_of panic = before

after_submission :
    (state_of (apply_order_events before (order_submitted (5 ∷ []) ∷ []))).position.frozen_sell
    ≡ pos 100
unfolding apply_order_events grid_edge_t.Base.Ids.compare_text exact_ops
after_submission = refl

after_part :
    (state_of (
      apply_order_events before (
        order_submitted (5 ∷ [])
        ∷ order_status (5 ∷ []) 7 order_accepted
        ∷ order_fill 1 false part (pos 1)
        ∷ []))).position.frozen_sell
    ≡ pos 40
unfolding apply_order_events grid_edge_t.Base.Ids.compare_text exact_ops
    grid_edge_t.Decimal.from_i64 grid_edge_t.Base.Int.◌*ℤ◌ grid_edge_t.Base.Machine.try_sum_from
after_part = refl

after_all : (state_of (apply_order_events before events)).position.frozen_sell ≡ pos 0
unfolding apply_order_events grid_edge_t.Base.Ids.compare_text exact_ops
    grid_edge_t.Decimal.from_i64 grid_edge_t.Base.Int.◌*ℤ◌ grid_edge_t.Base.Machine.try_sum_from
after_all = refl

succeeds : apply_order_events before events ≡ ok (state_of (apply_order_events before events))
unfolding apply_order_events grid_edge_t.Base.Ids.compare_text exact_ops
    grid_edge_t.Decimal.from_i64 grid_edge_t.Base.Int.◌*ℤ◌ grid_edge_t.Base.Machine.try_sum_from
succeeds = refl

-- A sale that reserved less than it sells is refused.
too_few :
    apply_order_events
      (record before { orders = (5 ∷ [], order (pos 59)) ∷ [] })
      (order_submitted (5 ∷ [])
        ∷ order_status (5 ∷ []) 7 order_accepted
        ∷ order_fill 1 false part (pos 1)
        ∷ [])
    ≡ err exceeds_reserved_quantity
unfolding apply_order_events grid_edge_t.Base.Ids.compare_text exact_ops
too_few = refl

only_sale : (id : Text) (x : Order) → lookup id before.orders ≡ some x → IsSaleOnly x
unfolding lookup
only_sale id x h d = elim (Bool-cases (id =ᵗ 5 ∷ [])) [
  | inl here ↦
      let e : order (pos 100) ≡ x = ordered (rw here at h) in
      absurd (sells (ap (λ (y : Order). y.intent.direction) e) d)
  | inr other ↦ absurd (nothing (rw other at h))
]
  where
    ordered : {a b : Order} → ◌≡◌ {A = Option Order} (some a) (some b) → a ≡ b
    ordered q = ground arith

    nothing : {a : Order} → ◌≡◌ {A = Option Order} none (some a) → ⊥
    nothing q = cc

    sells : sell ≡ x.intent.direction → x.intent.direction ≡ buy → ⊥
    sells s b = cc

before-IsReserved : IsReserved before
unfolding grid_edge_t.Base.Totals.total grid_edge_t.Base.Int.◌+ℤ◌
before-IsReserved = record { sorted = (tt, tt); sale_only = only_sale; frozen = refl }

apply_order_events-IsReserved_example : IsReserved (state_of (apply_order_events before events))
apply_order_events-IsReserved_example =
    apply_order_events-IsReserved before (state_of (apply_order_events before events)) events
      before-IsReserved succeeds
