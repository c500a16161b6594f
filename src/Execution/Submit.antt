-- ===== src/Execution/Submit.antt =====
-- `sell_report_obeys_no_loss_guard`, `submit` and `cancel` of src/execution.rs.
use grid_edge_t.Base.{
  ltb, ◌==◌, Bool, true, false, not, ◌||◌, ◌&&◌, Option, some, none, List, [], ◌∷◌, any, all,
  if◌then◌else◌,
}
use grid_edge_t.Base.Int.{ℤ, pos, ltb_ℤ, leb_ℤ, eqb_ℤ, quot}
use grid_edge_t.Base.Ids.{Text, text, ◌=ᵗ◌}
use grid_edge_t.Base.Machine.{checked_add, checked_sub, checked_mul}
use grid_edge_t.Base.Maps.{insert}
use grid_edge_t.Base.Options
use grid_edge_t.Base.Results.{
  Result, ok, err, panic, Absent, absent, or_panic, ok_or, fail_if, ◌>>=◌, ◌>>◌,
}
use grid_edge_t.Config.{policy_of}
use grid_edge_t.Decimal.{
  Decimal, zero_decimal, one_decimal, from_i64, DecimalOps, to_positive_infinity,
  to_negative_infinity,
}
use grid_edge_t.Domain.{
  Direction, buy, sell, OrderIntent, LotQuantityAllocation, ProfitGuardPolicy, Position,
}
use grid_edge_t.Execution.{
  FillReport, ExecutionReport, rejected, accepted, cancelled, PaperError, numeric_range,
  policy_mismatch, PaperExecutionGateway, PaperHashes, stable_id, stable_draw_bps,
  report_for_intent, roll_trading_day, updated,
}
use grid_edge_t.Execution.Settle.{persist_report, without}
use grid_edge_t.Profit.{checked_actual_order_fill_charges_with_policy}
use grid_edge_t.Profit.Fees.{allocate_actual_fill_fees}
use grid_edge_t.Profit.Slices.{canonical_fill_allocations}

-- `PROFIT_GUARD_VERSION` of src/profit.rs.
abbrev profit_guard_version : Text
profit_guard_version = text "LOT_SLICE_NO_LOSS_V1"

abbrev pub is_sell : Direction → Bool
is_sell buy = false
is_sell sell = true

abbrev is_empty : {A : Type 0} → List A → Bool
is_empty [] = true
is_empty (_ ∷ _) = false

-- `==` of two policies.
pub same_policy : ProfitGuardPolicy → ProfitGuardPolicy → Bool
same_policy p q =
    p.price_scale == q.price_scale
    && (eqb_ℤ p.commission_rate q.commission_rate
        && (eqb_ℤ p.minimum_commission q.minimum_commission
            && (eqb_ℤ p.sell_tax_rate q.sell_tax_rate && eqb_ℤ p.slippage_rate q.slippage_rate)))

abbrev pub has_policy : Option ProfitGuardPolicy → ProfitGuardPolicy → Bool
has_policy none q = false
has_policy (some p) q = same_policy p q

-- The gateway and the answer of an operation; an error keeps the gateway.
abbrev pub answer :
    PaperExecutionGateway
    → Result PaperError (PaperExecutionGateway × ExecutionReport)
    → PaperExecutionGateway × Result PaperError ExecutionReport
answer g (ok (next, report)) = (next, ok report)
answer g (err e) = (g, err e)
answer g panic = (g, panic)

module _ ⦃o : DecimalOps⦄ where
  open o use {checked_add_decimal, checked_sub_decimal, checked_mul_decimal, round_dp_with_strategy}

  -- Whether a slice of a sale loses, or its profit is out of range.
  slice_loses : Decimal → LotQuantityAllocation → Decimal → Bool
  slice_loses price a fee =
      let pnl = Options.◌>>=◌ (checked_mul_decimal price (from_i64 a.quantity)) λ value.
        Options.◌>>=◌ (checked_sub_decimal value a.cost_basis) λ net. checked_sub_decimal net fee in
      elim pnl [ none ↦ true | some value ↦ ltb_ℤ value zero_decimal ]

  -- `fill_allocations.iter().zip(fees).any(..)`.
  any_loses : Decimal → List LotQuantityAllocation → List Decimal → Bool
  unfolding slice_loses
  any_loses price (a ∷ rest) (fee ∷ fees) = slice_loses price a fee || any_loses price rest fees
  any_loses price _ _ = false

  -- The loop over the fills, with what was filled, its value and its commission so far. `false` is
  -- the error here, and `true` the result.
  obeys_fills :
      PaperExecutionGateway
      → OrderIntent
      → ProfitGuardPolicy
      → ℤ
      → Decimal
      → Decimal
      → List FillReport
      → Result Absent (Unit {0})
  unfolding any_loses canonical_fill_allocations allocate_actual_fill_fees policy_of
      checked_actual_order_fill_charges_with_policy
  obeys_fills g intent policy filled notional charged [] =
      fail_if (not (eqb_ℤ filled intent.quantity)) absent
  obeys_fills g intent policy filled notional charged (fill ∷ fills) = do
    allocations ←
        canonical_fill_allocations policy intent.target_lot_allocations filled fill.quantity
          intent.limit_price
    fail_if (any (λ (a : LotQuantityAllocation). ltb_ℤ fill.price a.worst_fill_price) allocations)
        absent
    (commission, tax) ←
        ok_or
          (checked_actual_order_fill_charges_with_policy (policy_of g.config) sell notional charged
            fill.price fill.quantity)
          absent
    total_fees ← ok_or (checked_add_decimal commission tax) absent
    fees ← allocate_actual_fill_fees allocations total_fees
    fail_if (any_loses fill.price allocations fees) absent
    fill_notional ← ok_or (checked_mul_decimal fill.price (from_i64 fill.quantity)) absent
    next_notional ← ok_or (checked_add_decimal notional fill_notional) absent
    next_commission ← ok_or (checked_add_decimal charged commission) absent
    next_quantity ← ok_or (checked_add filled fill.quantity) absent
    obeys_fills g intent policy next_quantity next_notional next_commission fills

  pub sell_report_obeys_no_loss_guard :
      PaperExecutionGateway → OrderIntent → List FillReport → Result Absent (Unit {0})
  unfolding obeys_fills policy_of same_policy
  sell_report_obeys_no_loss_guard g intent fills =
      if not (is_sell intent.direction)
        || (not (intent.profit_guard_version =ᵗ profit_guard_version)
            || is_empty intent.target_lot_allocations)
      then fail_if (is_sell intent.direction) absent
      else (do
        policy ← ok_or intent.profit_guard_policy absent
        fail_if (not (same_policy policy (policy_of g.config))) absent
        if is_empty fills
            then fail_if
                (not (
                  all (λ (a : LotQuantityAllocation). leb_ℤ zero_decimal a.worst_case_profit)
                    intent.target_lot_allocations))
                absent
            else obeys_fills g intent policy (pos 0) zero_decimal zero_decimal fills)

  -- The limit price, moved against the order and rounded.
  pub fill_price : PaperExecutionGateway → Direction → Decimal → Result PaperError Decimal
  fill_price g buy limit_price = do
    slip ← or_panic (checked_add_decimal one_decimal g.slippage_rate)
    price ← ok_or (checked_mul_decimal limit_price slip) numeric_range
    ok (round_dp_with_strategy g.price_scale to_positive_infinity price)
  fill_price g sell limit_price = do
    slip ← or_panic (checked_sub_decimal one_decimal g.slippage_rate)
    price ← ok_or (checked_mul_decimal limit_price slip) numeric_range
    ok (round_dp_with_strategy g.price_scale to_negative_infinity price)

-- `(quantity / 2 / lot_size) * lot_size`; a division by zero panics.
pub first_part : ℤ → ℤ → Result PaperError ℤ
first_part quantity lot_size =
    if eqb_ℤ lot_size (pos 0)
    then panic
    else or_panic (checked_mul (quot (quot quantity (pos 2)) lot_size) lot_size)

module _ ⦃hashes : PaperHashes⦄ where
  unfoldable pub in_parts : OrderIntent → Decimal → ℤ → Result PaperError (List FillReport)
  unfolding first_part stable_id
  in_parts intent price lot_size = do
    first ← first_part intent.quantity lot_size
    second ← or_panic (checked_sub intent.quantity first)
    ok (
        record {
          fill_id = stable_id (text "fill") intent.intent_id 1;
          quantity = first;
          price = price;
          final_fill = false;
        }
        ∷ record {
          fill_id = stable_id (text "fill") intent.intent_id 2;
          quantity = second;
          price = price;
          final_fill = true;
        }
        ∷ [])

  abbrev pub in_one : OrderIntent → Decimal → List FillReport
  in_one intent price =
      record {
        fill_id = stable_id (text "fill") intent.intent_id 1;
        quantity = intent.quantity;
        price = price;
        final_fill = true;
      }
      ∷ []

  abbrev pub is_partial : PaperExecutionGateway → OrderIntent → ℤ → Bool
  is_partial g intent two_lots =
      leb_ℤ two_lots intent.quantity
      && ltb (stable_draw_bps g intent.intent_id (text "partial")) g.partial_bps

  abbrev pub is_held_open : PaperExecutionGateway → OrderIntent → Bool
  is_held_open g intent =
      is_sell intent.direction
      && ltb (stable_draw_bps g intent.intent_id (text "hold-open")) g.hold_open_bps

  -- The fills of an order that is not rejected at once.
  unfoldable pub drawn_fills :
      PaperExecutionGateway → OrderIntent → Decimal → Result PaperError (List FillReport)
  unfolding in_parts stable_draw_bps stable_id
  drawn_fills g intent price = do
    two_lots ← or_panic (checked_mul (pos 2) g.config.lot_size)
    if is_held_open g intent
        then ok []
        else if is_partial g intent two_lots
        then in_parts intent price g.config.lot_size
        else ok (in_one intent price)

-- The report of fills, unless they break the no-loss guard.
abbrev pub guarded :
    Text → List FillReport → Result Absent (Unit {0}) → Result PaperError ExecutionReport
guarded order_id fills (ok _) = ok (accepted order_id fills)
guarded order_id fills (err _) = ok (rejected order_id (text "PAPER_NO_LOSS_GUARD_REJECTED"))
guarded order_id fills panic = panic

unfoldable pub unfrozen : Direction → Position → ℤ → Result PaperError Position
unfrozen buy p quantity = ok p
unfrozen sell p quantity = do
  frozen ← ok_or (checked_sub p.frozen_sell quantity) numeric_range
  ok (record p { frozen_sell = frozen })

-- The gateway once an order is cancelled that was held open, with what is left frozen.
unfoldable pub released :
    PaperExecutionGateway → OrderIntent → Text → Text → Position → PaperExecutionGateway
unfolding without insert
released g intent order_id reason position =
    let next = record g.snapshot {
      open_order_ids = without order_id g.snapshot.open_order_ids;
      position = position;
    } in
    record g {
      ledger = record g.ledger {
        account = updated next g.ledger.account;
        orders = insert intent.intent_id (cancelled order_id reason) g.ledger.orders;
      };
      snapshot = next;
    }

unfoldable pub cancel_open :
    PaperExecutionGateway
    → OrderIntent
    → Text
    → Text
    → Result PaperError (PaperExecutionGateway × ExecutionReport)
unfolding unfrozen released
cancel_open g intent order_id reason = do
  position ← unfrozen intent.direction g.snapshot.position intent.quantity
  ok (released g intent order_id reason position, cancelled order_id reason)

module _ ⦃o : DecimalOps⦄ ⦃hashes : PaperHashes⦄ where
  -- The report of an order that the broker has not seen.
  unfoldable pub fresh_report :
      PaperExecutionGateway → OrderIntent → Result PaperError ExecutionReport
  unfolding fill_price drawn_fills sell_report_obeys_no_loss_guard stable_draw_bps stable_id
  fresh_report g intent =
      let order_id = stable_id (text "order") intent.intent_id 0 in
      if ltb (stable_draw_bps g intent.intent_id (text "reject")) g.reject_bps
      then ok (rejected order_id (text "PAPER_CONFIGURED_REJECTION"))
      else (do
        price ← fill_price g intent.direction intent.limit_price
        fills ← drawn_fills g intent price
        guarded order_id fills (sell_report_obeys_no_loss_guard g intent fills))

  -- The stored report of an order, or a fresh one, which is stored.
  unfoldable pub unless_known :
      PaperExecutionGateway
      → OrderIntent
      → Option ExecutionReport
      → Result PaperError (PaperExecutionGateway × ExecutionReport)
  unfolding fresh_report persist_report
  unless_known g intent (some report) = ok (g, report)
  unless_known g intent none = do
    report ← fresh_report g intent
    next ← persist_report g intent report
    ok (next, report)

  -- `submit` after the day is rolled.
  unfoldable pub submit_today :
      PaperExecutionGateway
      → OrderIntent
      → Result PaperError (PaperExecutionGateway × ExecutionReport)
  unfolding unless_known report_for_intent same_policy policy_of
  submit_today g intent = do
    fail_if (not (has_policy intent.profit_guard_policy (policy_of g.config))) policy_mismatch
    unless_known g intent (report_for_intent g intent.intent_id)

  -- An error after the day is rolled keeps the new day.
  unfoldable pub submit :
      PaperExecutionGateway
      → OrderIntent
      → PaperExecutionGateway × Result PaperError ExecutionReport
  unfolding roll_trading_day submit_today
  submit g intent = elim (roll_trading_day g intent.created_on) [
    | err e ↦ (g, err e)
    | panic ↦ (g, panic)
    | ok today ↦ answer today (submit_today today intent)
  ]

  unfoldable pub cancel_known :
      PaperExecutionGateway
      → OrderIntent
      → Text
      → Option ExecutionReport
      → PaperExecutionGateway × Result PaperError ExecutionReport
  unfolding cancel_open submit
  cancel_known g intent reason none = submit g intent
  cancel_known g intent reason (some (accepted order_id [])) =
      answer g (cancel_open g intent order_id reason)
  cancel_known g intent reason (some report) = (g, ok report)

  unfoldable pub cancel :
      PaperExecutionGateway
      → OrderIntent
      → Text
      → PaperExecutionGateway × Result PaperError ExecutionReport
  unfolding report_for_intent cancel_known
  cancel g intent reason = cancel_known g intent reason (report_for_intent g intent.intent_id)
