-- ===== src/Execution/Settle.antt =====
-- `PaperExecutionGateway::persist_report` of src/execution.rs: what a report does to the account.
use Prim.Native.Nat.{Ordering}
use grid_edge_t.Base.{not, List, [], ◌∷◌, ◌++◌, any, keep, if◌then◌else◌}
use grid_edge_t.Base.Int.{ℤ}
use grid_edge_t.Base.Ids.{Text, compare_text, ◌=ᵗ◌}
use grid_edge_t.Base.Machine.{checked_add, checked_sub}
use grid_edge_t.Base.Results.{Result, ok, ok_or, ◌>>=◌}
use grid_edge_t.Config.{Config, policy_of}
use grid_edge_t.Decimal.{Decimal, zero_decimal, from_i64, DecimalOps}
use grid_edge_t.Domain.{Direction, buy, sell, OrderIntent, Position, AccountSnapshot}
use grid_edge_t.Execution.{
  FillReport, ExecutionReport, rejected, accepted, cancelled, PaperError, numeric_range,
  PaperExecutionGateway, insert_order, updated,
}
use grid_edge_t.Profit.{checked_actual_order_fill_charges_with_policy}

-- `sort()` of a `Vec<String>`.
place : Text → List Text → List Text
unfolding compare_text
place id [] = id ∷ []
place id (other ∷ others) =
    let rest = place id others in
    elim (compare_text id other) [ Ordering.gt ↦ other ∷ rest | _ ↦ id ∷ other ∷ others ]

sorted : List Text → List Text
unfolding place
sorted [] = []
sorted (id ∷ ids) = place id (sorted ids)

-- `open_order_ids.retain(|id| id != order_id)`.
unfoldable pub without : Text → List Text → List Text
without order_id = keep (λ id. not (id =ᵗ order_id))

-- An order that is held open: its id is listed, and a sale freezes its shares.
pub opened_ids : Text → List Text → List Text
unfolding sorted
opened_ids id ids = if any (λ other. other =ᵗ id) ids then ids else sorted (ids ++ (id ∷ []))

unfoldable pub frozen_by : Direction → Position → ℤ → Result PaperError Position
frozen_by buy p quantity = ok p
frozen_by sell p quantity = do
  frozen ← ok_or (checked_add p.frozen_sell quantity) numeric_range
  ok (record p { frozen_sell = frozen })

unfoldable pub hold_open : OrderIntent → Text → AccountSnapshot → Result PaperError AccountSnapshot
unfolding opened_ids frozen_by
hold_open intent order_id s = do
  position ← frozen_by intent.direction s.position intent.quantity
  ok (record s { open_order_ids = opened_ids order_id s.open_order_ids; position = position })

-- The account while the fills of an order are settled, with what was filled and charged so far.
pub record Settlement : Type 0 where
  pub next : AccountSnapshot
  pub filled_notional : Decimal
  pub commission_charged : Decimal

unfoldable pub settle_position : Direction → Position → ℤ → Result PaperError Position
settle_position buy p quantity = do
  total ← ok_or (checked_add p.total quantity) numeric_range
  today_bought ← ok_or (checked_add p.today_bought quantity) numeric_range
  ok (record p { total = total; today_bought = today_bought })
settle_position sell p quantity = do
  total ← ok_or (checked_sub p.total quantity) numeric_range
  sellable ← ok_or (checked_sub p.sellable quantity) numeric_range
  ok (record p { total = total; sellable = sellable })

module _ ⦃o : DecimalOps⦄ where
  open o use {checked_add_decimal, checked_sub_decimal, checked_mul_decimal}

  unfoldable pub settle_available :
      Direction → Decimal → Decimal → Decimal → Result PaperError Decimal
  settle_available buy available notional fees = do
    debit ← ok_or (checked_add_decimal notional fees) numeric_range
    ok_or (checked_sub_decimal available debit) numeric_range
  settle_available sell available notional fees = do
    credit ← ok_or (checked_sub_decimal notional fees) numeric_range
    ok_or (checked_add_decimal available credit) numeric_range

  -- The body of the loop over the fills.
  unfoldable pub settle_fill :
      Config → Direction → Settlement → FillReport → Result PaperError Settlement
  unfolding settle_position settle_available checked_actual_order_fill_charges_with_policy policy_of
  settle_fill config direction s fill = do
    notional ← ok_or (checked_mul_decimal fill.price (from_i64 fill.quantity)) numeric_range
    filled_notional ← ok_or (checked_add_decimal s.filled_notional notional) numeric_range
    (commission, tax) ←
        ok_or
          (checked_actual_order_fill_charges_with_policy (policy_of config) direction
            s.filled_notional s.commission_charged fill.price fill.quantity)
          numeric_range
    commission_charged ← ok_or (checked_add_decimal s.commission_charged commission) numeric_range
    fees ← ok_or (checked_add_decimal commission tax) numeric_range
    available ← settle_available direction s.next.cash.available notional fees
    position ← settle_position direction s.next.position fill.quantity
    total_fees ← ok_or (checked_add_decimal s.next.cash.total_fees fees) numeric_range
    filled ← ok_or (checked_add s.next.cumulative_filled_quantity fill.quantity) numeric_range
    ok (record {
      next = record s.next {
        cash = record s.next.cash { available = available; total_fees = total_fees };
        position = position;
        cumulative_filled_quantity = filled;
      };
      filled_notional = filled_notional;
      commission_charged = commission_charged;
    })

  pub settle_fills :
      Config → Direction → Settlement → List FillReport → Result PaperError Settlement
  unfolding settle_fill
  settle_fills config direction s [] = ok s
  settle_fills config direction s (fill ∷ fills) =
      settle_fill config direction s fill >>= λ next. settle_fills config direction next fills

  -- The account after a report.
  unfoldable pub settled :
      Config → OrderIntent → AccountSnapshot → ExecutionReport → Result PaperError AccountSnapshot
  unfolding hold_open settle_fills without
  settled config intent s (rejected order_id reason) = ok s
  settled config intent s (cancelled order_id reason) =
      ok (record s { open_order_ids = without order_id s.open_order_ids })
  settled config intent s (accepted order_id []) = hold_open intent order_id s
  settled config intent s (accepted order_id (fill ∷ fills)) = do
    settlement ←
        settle_fills config intent.direction
          (record {
            next = record s { open_order_ids = without order_id s.open_order_ids };
            filled_notional = zero_decimal;
            commission_charged = zero_decimal;
          })
          (fill ∷ fills)
    ok settlement.next

  unfoldable pub persist_report :
      PaperExecutionGateway
      → OrderIntent
      → ExecutionReport
      → Result PaperError PaperExecutionGateway
  unfolding settled insert_order
  persist_report g intent report = do
    next ← settled g.config intent g.snapshot report
    orders ← insert_order g.ledger.orders intent.intent_id report
    ok (record g {
      ledger = record g.ledger { account = updated next g.ledger.account; orders = orders };
      snapshot = next;
    })
