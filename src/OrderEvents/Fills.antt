-- ===== src/OrderEvents/Fills.antt =====
-- `OrderPartiallyFilled` and `OrderFilled` in `StrategyState::apply_event_in_place` of src/event.rs.
use grid_edge_t.Base.{
  ℕ, leb, Bool, true, false, not, ◌||◌, ◌&&◌, Option, some, none, List, [], ◌∷◌, any, map,
  if◌then◌else◌,
}
use grid_edge_t.Base.Int.{ℤ, pos, ltb_ℤ, leb_ℤ, eqb_ℤ}
use grid_edge_t.Base.Ids.{Text, ◌=ᵗ◌, is_empty as is_empty_text}
use grid_edge_t.Base.Machine.{checked_add, checked_sub, try_sum}
use grid_edge_t.Base.Maps.{lookup, insert, member}
use grid_edge_t.Base.Options
use grid_edge_t.Base.Results.{Result, ok, err, panic, Absent, ok_or, fail_if, ◌>>=◌, ◌>>◌}
use grid_edge_t.Account.{DomainError, is_empty}
use grid_edge_t.Account.Fills.{apply_fill, apply_initial_deployment_fill, apply_legacy_fill}
use grid_edge_t.Decimal.{Decimal, zero_decimal, from_i64, DecimalOps}
use grid_edge_t.Domain.{
  Direction, buy, sell, OrderStatus, partially_filled, filled, Order, LotQuantityAllocation, Fill,
  GridLevelState, executed, StrategyState, is_initial_deployment,
}
use grid_edge_t.OrderEvents.{
  EventError, order_missing, numeric_range, direction_mismatch, exceeds_intent, foreign_lot,
  policy_missing, charges_mismatch, not_sliced, no_loss_violated, finality_mismatch,
  exceeds_reserved_cash, exceeds_reserved_quantity, invalid_fill_transition, domain, same_status,
  move, with_order,
}
use grid_edge_t.Orders.{can_transition}
use grid_edge_t.Profit.{checked_actual_order_fill_charges_with_policy}
use grid_edge_t.Profit.Slices.{canonical_fill_allocations}

abbrev pub same_direction : Direction → Direction → Bool
same_direction buy buy = true
same_direction sell sell = true
same_direction _ _ = false

abbrev is_sell : Direction → Bool
is_sell buy = false
is_sell sell = true

-- `==` of two allocations, and of two lists of them.
same_allocation : LotQuantityAllocation → LotQuantityAllocation → Bool
same_allocation a b =
    (a.lot_id =ᵗ b.lot_id)
    && ((a.tranche_id =ᵗ b.tranche_id)
        && (eqb_ℤ a.quantity b.quantity
            && (eqb_ℤ a.cost_basis b.cost_basis
                && (eqb_ℤ a.worst_fill_price b.worst_fill_price
                    && (eqb_ℤ a.maximum_sell_fees b.maximum_sell_fees
                        && eqb_ℤ a.worst_case_profit b.worst_case_profit)))))

same_allocations : List LotQuantityAllocation → List LotQuantityAllocation → Bool
unfolding same_allocation
same_allocations [] [] = true
same_allocations (a ∷ as') (b ∷ bs) = same_allocation a b && same_allocations as' bs
same_allocations _ _ = false

-- `.context(..)?` on an option that a function may panic instead of returning.
abbrev or_error : {A : Type 0} → Result Absent A → EventError → Result EventError A
or_error (ok a) e = ok a
or_error (err _) e = err e
or_error panic e = panic

abbrev pub or_domain : Result DomainError (StrategyState × Bool) → Result EventError StrategyState
or_domain (ok (state, _)) = ok state
or_domain (err e) = err (domain e)
or_domain panic = panic

-- An allocation of a sale that is no part of what the order planned, or that would lose.
is_unproved : Order → LotQuantityAllocation → Bool
is_unproved order a =
    leb_ℤ a.quantity (pos 0)
    || (is_empty_text a.tranche_id
        || (ltb_ℤ a.worst_case_profit zero_decimal
            || not (
                any
                  (λ (p : LotQuantityAllocation).
                    (p.lot_id =ᵗ a.lot_id) && (p.tranche_id =ᵗ a.tranche_id))
                  order.intent.target_lot_allocations)))

abbrev differs : Option (List LotQuantityAllocation) → List LotQuantityAllocation → Bool
differs none actual = false
differs (some expected) actual = not (same_allocations actual expected)

abbrev pub is_foreign : Order → Text → Bool
is_foreign order id = not (any (λ target. target =ᵗ id) order.intent.target_lot_ids)

-- The quantity of the order that is filled after the fill.
unfoldable pub resulting_quantity : Order → Fill → Result EventError ℤ
resulting_quantity order fill = do
  fail_if (not (same_direction fill.direction order.intent.direction)) direction_mismatch
  quantity ← ok_or (checked_add order.filled_quantity fill.quantity) numeric_range
  fail_if (leb_ℤ fill.quantity (pos 0) || ltb_ℤ order.intent.quantity quantity) exceeds_intent
  fail_if (any (is_foreign order) fill.target_lot_ids) foreign_lot
  ok quantity

abbrev pub is_mismatched : Order → OrderStatus → ℤ → Bool
is_mismatched order next quantity =
    (same_status next filled && not (eqb_ℤ quantity order.intent.quantity))
    || (same_status next partially_filled && leb_ℤ order.intent.quantity quantity)

abbrev pub is_refused : OrderStatus → OrderStatus → Bool
is_refused status next = not (same_status status next) && not (can_transition status next)

-- Whether the fill is the last one fits what it leaves to fill, and the order may be filled.
unfoldable pub check_finality : Order → OrderStatus → ℤ → Result EventError (Unit {0})
unfolding can_transition
check_finality order next quantity = do
  fail_if (is_mismatched order next quantity) finality_mismatch
  fail_if (is_refused order.status next) (invalid_fill_transition order.status next)

-- `historically_executed_levels.insert(..)`, and `levels.get_mut(..)` with a new status.
add_level : ℤ → List ℤ → List ℤ
add_level index [] = index ∷ []
add_level index (other ∷ others) =
    let rest = add_level index others in
    if ltb_ℤ index other
    then index ∷ other ∷ others
    else if eqb_ℤ index other
    then other ∷ others
    else other ∷ rest

execute_level : ℤ → List (ℤ × GridLevelState) → List (ℤ × GridLevelState)
execute_level index [] = []
execute_level index ((other, level) ∷ levels) =
    let rest = execute_level index levels in
    if eqb_ℤ index other
    then (other, record level { status = executed }) ∷ levels
    else (other, level) ∷ rest

-- The level of a grid order that was filled.
unfoldable pub mark_level : Bool → ℤ → StrategyState → StrategyState
unfolding add_level execute_level
mark_level true grid_index state = state
mark_level false grid_index state = record state {
  historically_executed_levels = add_level grid_index state.historically_executed_levels;
  levels = execute_level grid_index state.levels;
}

-- The order once its fill is booked.
unfoldable pub moved_order : Order → OrderStatus → Result EventError Order
unfolding move
moved_order order next = if same_status order.status next then ok order else move order next

-- What an order reserves after a fill, and what stays frozen: its rest is freed at the end.
unfoldable pub reserve_shares : Direction → Bool → ℤ → ℤ → ℤ → Result EventError (ℤ × ℤ)
reserve_shares buy final frozen reserved quantity = ok (if final then pos 0 else reserved, frozen)
reserve_shares sell final frozen reserved quantity = do
  fail_if (ltb_ℤ reserved quantity) exceeds_reserved_quantity
  left ← ok_or (checked_sub reserved quantity) numeric_range
  still_frozen ← ok_or (checked_sub frozen quantity) numeric_range
  freed ← if final then ok_or (checked_sub still_frozen left) numeric_range else ok still_frozen
  ok (if final then pos 0 else left, freed)

-- What a fill leads to: the `resulting_` values, and what is frozen and reserved at its end.
pub record FillEffect : Type 0 where
  pub resulting_quantity : ℤ
  pub resulting_notional : Decimal
  pub resulting_commission : Decimal
  pub cash_reservation : Decimal
  pub frozen_cash : Decimal
  pub quantity_reservation : ℤ
  pub frozen_sell : ℤ

unfoldable pub filled_order : Order → FillEffect → Order
filled_order order effect = record order {
  filled_quantity = effect.resulting_quantity;
  filled_notional = effect.resulting_notional;
  commission_charged = effect.resulting_commission;
  reserved_cash_remaining = effect.cash_reservation;
  reserved_quantity_remaining = effect.quantity_reservation;
}

-- The state with what is frozen and reserved, once the fill is booked.
unfoldable pub frozen_after : StrategyState → FillEffect → StrategyState
frozen_after state effect = record state {
  cash = record state.cash { frozen = effect.frozen_cash };
  position = record state.position { frozen_sell = effect.frozen_sell };
}

unfoldable pub finish_fill :
    Bool → OrderStatus → Fill → ℤ → FillEffect → StrategyState → Result EventError StrategyState
unfolding lookup insert moved_order mark_level filled_order frozen_after
finish_fill opening next fill grid_index effect after = do
  current ← ok_or (lookup fill.order_id after.orders) order_missing
  moved ← moved_order current next
  ok (
      mark_level opening grid_index
        (with_order (frozen_after after effect) fill.order_id (filled_order moved effect)))

module _ ⦃o : DecimalOps⦄ where
  open o use {checked_add_decimal, checked_sub_decimal, checked_mul_decimal}

  pub reserve_cash :
      Direction → Bool → Decimal → Decimal → Decimal → Result EventError (Decimal × Decimal)
  reserve_cash sell final frozen reserved cost =
      ok (if final then zero_decimal else reserved, frozen)
  reserve_cash buy final frozen reserved cost = do
    fail_if (ltb_ℤ reserved cost) exceeds_reserved_cash
    left ← ok_or (checked_sub_decimal reserved cost) numeric_range
    still_frozen ← ok_or (checked_sub_decimal frozen cost) numeric_range
    freed ←
        if final
        then ok_or (checked_sub_decimal still_frozen left) numeric_range
        else ok still_frozen
    ok (if final then zero_decimal else left, freed)

  -- From version 3 on, the charges of a fill are those of the order's policy.
  pub check_charges : ℕ → Order → Fill → Result EventError (Unit {0})
  unfolding checked_actual_order_fill_charges_with_policy
  check_charges schema_version order fill =
      if leb 3 schema_version
      then (do
        policy ← ok_or order.intent.profit_guard_policy policy_missing
        (commission, tax) ←
            ok_or
              (checked_actual_order_fill_charges_with_policy policy fill.direction
                order.filled_notional order.commission_charged fill.price fill.quantity)
              numeric_range
        fail_if (not (eqb_ℤ fill.commission commission) || not (eqb_ℤ fill.tax tax))
            charges_mismatch)
      else ok tt

  expected_allocations : ℕ → Order → Fill → Result EventError (Option (List LotQuantityAllocation))
  unfolding canonical_fill_allocations
  expected_allocations schema_version order fill =
      if leb 3 schema_version
      then (do
        policy ← ok_or order.intent.profit_guard_policy policy_missing
        expected ←
            or_error
              (canonical_fill_allocations policy order.intent.target_lot_allocations
                order.filled_quantity fill.quantity order.intent.limit_price)
              not_sliced
        ok (some expected))
      else ok none

  -- From version 2 on, a sale carries the slices that prove that it does not lose.
  pub check_sale : ℕ → Order → Fill → Result EventError (Unit {0})
  unfolding expected_allocations same_allocations is_unproved
  check_sale schema_version order fill =
      if leb 2 schema_version && is_sell fill.direction
      then (do
        expected ← expected_allocations schema_version order fill
        allocated ←
            ok_or
              (try_sum
                (map (λ (a : LotQuantityAllocation). a.quantity) fill.target_lot_allocations))
              numeric_range
        fail_if
            (not (eqb_ℤ allocated fill.quantity)
              || (is_empty fill.target_lot_allocations
                  || (differs expected fill.target_lot_allocations
                      || any (is_unproved order) fill.target_lot_allocations)))
            no_loss_violated)
      else ok tt

  -- The account after the fill, by the version of the event and the origin of the order.
  unfoldable pub book_fill : ℕ → Order → StrategyState → Fill → ℤ → Result EventError StrategyState
  unfolding apply_fill apply_initial_deployment_fill apply_legacy_fill
  book_fill schema_version order state fill grid_index =
      if eqb_ℤ (pos schema_version) (pos 1)
      then or_domain (apply_legacy_fill state fill grid_index)
      else if is_initial_deployment order.intent.origin
      then or_domain (apply_initial_deployment_fill state fill)
      else or_domain (apply_fill state fill grid_index)

  -- The checks of a fill that was not processed before, and what it leads to.
  unfoldable pub plan_fill :
      StrategyState → ℕ → Order → OrderStatus → Fill → Result EventError FillEffect
  unfolding resulting_quantity check_charges check_sale check_finality reserve_cash reserve_shares
  plan_fill state schema_version order next fill = do
    quantity ← resulting_quantity order fill
    check_charges schema_version order fill
    check_sale schema_version order fill
    check_finality order next quantity
    notional ← ok_or (checked_mul_decimal fill.price (from_i64 fill.quantity)) numeric_range
    cost ←
        ok_or
          (Options.◌>>=◌ (checked_add_decimal notional fill.commission)
            λ value. checked_add_decimal value fill.tax)
          numeric_range
    let final = same_status next filled
    cash ← reserve_cash fill.direction final state.cash.frozen order.reserved_cash_remaining cost
    shares ←
        reserve_shares fill.direction final state.position.frozen_sell
          order.reserved_quantity_remaining fill.quantity
    filled_notional ← ok_or (checked_add_decimal order.filled_notional notional) numeric_range
    commission ← ok_or (checked_add_decimal order.commission_charged fill.commission) numeric_range
    ok (record {
      resulting_quantity = quantity;
      resulting_notional = filled_notional;
      resulting_commission = commission;
      cash_reservation = cash.0;
      frozen_cash = cash.1;
      quantity_reservation = shares.0;
      frozen_sell = shares.1;
    })

  unfoldable pub fill_order :
      StrategyState → ℕ → Order → OrderStatus → Fill → ℤ → Result EventError StrategyState
  unfolding plan_fill book_fill finish_fill
  fill_order state schema_version order next fill grid_index = do
    effect ← plan_fill state schema_version order next fill
    after ← book_fill schema_version order state fill grid_index
    finish_fill (is_initial_deployment order.intent.origin) next fill grid_index effect after

  abbrev pub fill_status : Bool → OrderStatus
  fill_status true = filled
  fill_status false = partially_filled

  -- A fill that was processed before is passed over.
  unfoldable pub report_fill : StrategyState → ℕ → Bool → Fill → ℤ → Result EventError StrategyState
  unfolding fill_order member lookup
  report_fill state schema_version final fill grid_index =
      if member fill.fill_id state.processed_fills then ok state else (do
        order ← ok_or (lookup fill.order_id state.orders) order_missing
        fill_order state schema_version order (fill_status final) fill grid_index)
