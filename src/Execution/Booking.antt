-- ===== src/Execution/Booking.antt =====
-- The fills that src/service.rs records for an accepted report of the broker.
use grid_edge_t.Base.{ℕ, List, [], if◌then◌else◌}
use grid_edge_t.Base.Int.{ℤ}
use grid_edge_t.Base.Ids.{Text}
use grid_edge_t.Base.Maps.{lookup, member}
use grid_edge_t.Base.Results.{Result, ok, err, panic, Absent, ◌>>=◌, ok_or}
use grid_edge_t.Config.{Config, policy_of}
use grid_edge_t.Decimal.{DecimalOps, from_i64}
use grid_edge_t.Domain.{
  Direction, buy, sell, Fill, Order, OrderIntent, LotQuantityAllocation, StrategyState,
}
use grid_edge_t.Execution.{FillReport}
use grid_edge_t.Profit.Slices.{canonical_fill_allocations}
use grid_edge_t.OrderEvents.{EventError}
use grid_edge_t.OrderEvents.Fills.{report_fill}
use grid_edge_t.Profit.{checked_actual_order_fill_charges_with_policy}

-- The errors of the booking of a fill: a number out of range, and a sale without its slices.
pub data BookingError : Type 0 where
  charge_overflow no_order no_policy no_slices : BookingError
  refused : EventError → BookingError

abbrev or_booking : {A : Type 0} → Result Absent A → Result BookingError A
or_booking (ok a) = ok a
or_booking (err _) = err no_slices
or_booking panic = panic

abbrev pub or_refused : Result EventError StrategyState → Result BookingError StrategyState
or_refused (ok s) = ok s
or_refused (err e) = err (refused e)
or_refused panic = panic

module _ ⦃o : DecimalOps⦄ where
  -- `fill_lot_allocations` of src/service.rs.
  pub fill_lot_allocations :
      OrderIntent → Direction → ℤ → ℤ → Result BookingError (List LotQuantityAllocation)
  unfolding canonical_fill_allocations
  fill_lot_allocations intent buy already_filled fill_quantity = ok []
  fill_lot_allocations intent sell already_filled fill_quantity = do
    policy ← ok_or intent.profit_guard_policy no_policy
    or_booking (
        canonical_fill_allocations policy intent.target_lot_allocations already_filled fill_quantity
          intent.limit_price)

  -- The fill that the service records for a fill of a report, and the charges that it works out.
  unfoldable pub broker_fill :
      Config → OrderIntent → Text → Order → ℕ → FillReport → Result BookingError Fill
  unfolding fill_lot_allocations checked_actual_order_fill_charges_with_policy policy_of
  broker_fill config intent order_id order date report = do
    notional ← ok_or (o.checked_mul_decimal report.price (from_i64 report.quantity)) charge_overflow
    charges ←
        ok_or
          (checked_actual_order_fill_charges_with_policy (policy_of config) intent.direction
            order.filled_notional order.commission_charged report.price report.quantity)
          charge_overflow
    fees ← ok_or (o.checked_add_decimal charges.0 charges.1) charge_overflow
    allocations ← fill_lot_allocations intent intent.direction order.filled_quantity report.quantity
    ok (record {
      fill_id = report.fill_id;
      order_id = order_id;
      direction = intent.direction;
      price = report.price;
      quantity = report.quantity;
      commission = charges.0;
      tax = charges.1;
      trade_date = date;
      target_lot_ids = intent.target_lot_ids;
      target_lot_allocations = allocations;
    })

module _ ⦃o : DecimalOps⦄ where
  -- The loop of the service over the fills of an accepted report: one fill, with the version that
  -- its events have. A fill that was processed before is passed over.
  unfoldable pub book_report :
      Config
      → OrderIntent
      → Text
      → ℕ
      → ℕ
      → StrategyState
      → FillReport
      → Result BookingError StrategyState
  unfolding broker_fill report_fill lookup member
  book_report config intent order_id schema_version date s report =
      if member report.fill_id s.processed_fills then ok s else (do
        order ← ok_or (lookup order_id s.orders) no_order
        fill ← broker_fill config intent order_id order date report
        or_refused (report_fill s schema_version report.final_fill fill intent.grid_index))
