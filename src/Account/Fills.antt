-- ===== src/Account/Fills.antt =====
-- `apply_fill`, `apply_fill_with_policy` and `apply_fill_inner` of src/domain.rs: what a fill does to
-- the account. The program works on a copy of the state, so an error changes nothing.
pub mod Effect
pub mod NoLoss
pub mod Frozen
pub mod Moves
mod Tests
use grid_edge_t.Base.{
  ℕ, leb, Bool, true, false, not, ◌||◌, ◌&&◌, Option, some, none, List, [], ◌∷◌, ◌++◌, map,
  if◌then◌else◌,
}
use grid_edge_t.Base.Int.{ℤ, pos, ltb_ℤ, leb_ℤ, eqb_ℤ, ◌-ℤ◌}
use grid_edge_t.Base.Ids.{Text}
use grid_edge_t.Base.Machine.{checked_add, checked_sub, try_sum}
use grid_edge_t.Base.Maps.{Map, lookup, insert, member, add}
use grid_edge_t.Base.Options
use grid_edge_t.Base.Results.{Result, ok, err, panic, Absent, or_panic, ok_or, fail_if, ◌>>=◌, ◌>>◌}
use grid_edge_t.Account.{
  DomainError, insufficient_cash, insufficient_sellable, insufficient_lot_quantity,
  invalid_lot_allocation, invalid_fill, numeric_range, loss_making_sell, is_empty,
  sell_fill_allocations,
}
use grid_edge_t.Decimal.{Decimal, zero_decimal, from_i64, DecimalOps}
use grid_edge_t.Domain.{
  Direction, buy, sell, LotQuantityAllocation, Fill, TradingLot, CashAccount, Position,
  StrategyState,
}
use grid_edge_t.Profit.Fees.{allocate_actual_fill_fees}
use grid_edge_t.Profit.Guard.{effective_remaining_cost}

-- A slice of a sale, checked: its allocation, what its lot costs after it, and what it earns.
pub record ProjectedSlice : Type 0 where
  pub allocation : LotQuantityAllocation
  pub cost_after : Decimal
  pub pnl : Decimal

-- `format!("lot:{}", id)`.
abbrev lot_id_of : Text → Text
lot_id_of fill_id = 108 ∷ 111 ∷ 116 ∷ 58 ∷ fill_id

-- `explicit[index]` for the slice at hand, and the fees of those after it.
abbrev next_fee :
    Option (List Decimal) → Result DomainError (Option Decimal × Option (List Decimal))
next_fee none = ok (none, none)
next_fee (some []) = panic
next_fee (some (fee ∷ fees)) = ok (some fee, some fees)

-- What a buy and a sale do to the position.
buy_position : Position → ℤ → Result DomainError Position
buy_position p quantity = do
  total ← ok_or (checked_add p.total quantity) numeric_range
  today_bought ← ok_or (checked_add p.today_bought quantity) numeric_range
  ok (record p { total = total; today_bought = today_bought })

pub sell_position : Position → ℤ → Result DomainError Position
sell_position p quantity = do
  total ← ok_or (checked_sub p.total quantity) numeric_range
  sellable ← ok_or (checked_sub p.sellable quantity) numeric_range
  ok (record p { total = total; sellable = sellable })

module _ ⦃o : DecimalOps⦄ where
  open o use {checked_add_decimal, checked_sub_decimal, checked_mul_decimal, checked_div_decimal}

  -- A share of an amount, in proportion to a quantity.
  share : Decimal → ℤ → ℤ → Result DomainError Decimal
  share amount part whole =
      ok_or
        (Options.◌>>=◌ (checked_mul_decimal amount (from_i64 part))
          λ value. checked_div_decimal value (from_i64 whole))
        numeric_range

  new_lot : Fill → ℤ → Bool → Decimal → TradingLot
  new_lot fill grid_index opening_allocation total = record {
    lot_id = lot_id_of fill.fill_id;
    source_order_id = fill.order_id;
    grid_index = grid_index;
    opening_allocation = opening_allocation;
    opened_on = fill.trade_date;
    original_quantity = fill.quantity;
    remaining_quantity = fill.quantity;
    open_price = fill.price;
    allocated_cost = total;
    remaining_cost = total;
    realized_pnl = zero_decimal;
  }

  apply_buy : StrategyState → Fill → ℤ → Bool → Decimal → Decimal → Result DomainError StrategyState
  unfolding new_lot buy_position insert
  apply_buy state fill grid_index opening_allocation notional fees = do
    total ← ok_or (checked_add_decimal notional fees) numeric_range
    fail_if (ltb_ℤ state.cash.available total) insufficient_cash
    available ← ok_or (checked_sub_decimal state.cash.available total) numeric_range
    total_fees ← ok_or (checked_add_decimal state.cash.total_fees fees) numeric_range
    position ← buy_position state.position fill.quantity
    deployed ← ok_or (checked_add_decimal state.deployed_grid_budget notional) numeric_range
    ok (record state {
      cash = record state.cash { available = available; total_fees = total_fees };
      position = position;
      deployed_grid_budget = deployed;
      lots =
          insert (lot_id_of fill.fill_id) (new_lot fill grid_index opening_allocation total)
            state.lots;
    })

  -- What a slice of a sale cost to buy.
  slice_cost : Fill → LotQuantityAllocation → TradingLot → Decimal → Result DomainError Decimal
  unfolding share
  slice_cost fill allocation lot remaining_cost =
      if not (is_empty fill.target_lot_allocations)
      then ok allocation.cost_basis
      else if eqb_ℤ allocation.quantity lot.remaining_quantity
      then ok remaining_cost
      else share remaining_cost allocation.quantity lot.remaining_quantity

  -- The fees of a slice: those assigned to it, or its share; the last slice takes what is left.
  slice_fees : Option Decimal → Bool → Decimal → Decimal → ℤ → ℤ → Result DomainError Decimal
  unfolding share
  slice_fees (some explicit) is_last fees allocated quantity fill_quantity = ok explicit
  slice_fees none is_last fees allocated quantity fill_quantity =
      if is_last
      then ok_or (checked_sub_decimal fees allocated) numeric_range
      else share fees quantity fill_quantity

  slice_pnl : Decimal → ℤ → Decimal → Decimal → Result DomainError Decimal
  slice_pnl price quantity buy_cost sell_fees =
      ok_or
        (Options.◌>>=◌ (checked_mul_decimal price (from_i64 quantity)) λ value.
          Options.◌>>=◌ (checked_sub_decimal value buy_cost)
            λ net. checked_sub_decimal net sell_fees)
        numeric_range

  -- The checks of one slice, given the fees assigned to it and those allocated before it.
  project_slice :
      StrategyState
      → Fill
      → Bool
      → Decimal
      → Option Decimal
      → Bool
      → Decimal
      → LotQuantityAllocation
      → Result DomainError (ProjectedSlice × Decimal)
  unfolding lookup slice_cost slice_fees slice_pnl effective_remaining_cost
  project_slice state fill enforce_no_loss fees explicit is_last allocated allocation = do
    lot ← ok_or (lookup allocation.lot_id state.lots) insufficient_lot_quantity
    fail_if
        (leb fill.trade_date lot.opened_on
          || (leb_ℤ allocation.quantity (pos 0)
              || ltb_ℤ lot.remaining_quantity allocation.quantity))
        insufficient_lot_quantity
    remaining_cost ← effective_remaining_cost lot
    buy_cost ← slice_cost fill allocation lot remaining_cost
    fail_if (ltb_ℤ buy_cost zero_decimal || ltb_ℤ remaining_cost buy_cost) invalid_lot_allocation
    sell_fees ← slice_fees explicit is_last fees allocated allocation.quantity fill.quantity
    allocated_fees ← ok_or (checked_add_decimal allocated sell_fees) numeric_range
    pnl ← slice_pnl fill.price allocation.quantity buy_cost sell_fees
    fail_if (enforce_no_loss && ltb_ℤ pnl zero_decimal)
        (loss_making_sell allocation.lot_id (pos 0 -ℤ pnl))
    cost_after ← ok_or (checked_sub_decimal remaining_cost buy_cost) numeric_range
    ok (record { allocation = allocation; cost_after = cost_after; pnl = pnl }, allocated_fees)

  -- The loop that checks the slices of a sale.
  pub project_slices :
      StrategyState
      → Fill
      → Bool
      → Decimal
      → Option (List Decimal)
      → Decimal
      → List LotQuantityAllocation
      → Result DomainError (List ProjectedSlice)
  unfolding project_slice
  project_slices state fill enforce_no_loss fees explicit allocated [] = ok []
  project_slices state fill enforce_no_loss fees explicit allocated (a ∷ rest) = do
    (fee, later) ← next_fee explicit
    (slice, allocated_fees) ←
        project_slice state fill enforce_no_loss fees fee (is_empty rest) allocated a
    others ← project_slices state fill enforce_no_loss fees later allocated_fees rest
    ok (slice ∷ others)

  -- The loop that applies the checked slices to the lots and to the profit.
  pub apply_slices : List ProjectedSlice → StrategyState → Result DomainError StrategyState
  unfolding lookup insert
  apply_slices [] state = ok state
  apply_slices (slice ∷ rest) state = do
    lot ← or_panic (lookup slice.allocation.lot_id state.lots)
    remaining ← ok_or (checked_sub lot.remaining_quantity slice.allocation.quantity) numeric_range
    lot_pnl ← ok_or (checked_add_decimal lot.realized_pnl slice.pnl) numeric_range
    realized ← ok_or (checked_add_decimal state.realized_pnl slice.pnl) numeric_range
    apply_slices rest (record state {
      lots =
          insert slice.allocation.lot_id
            (record lot {
              remaining_quantity = remaining;
              remaining_cost = slice.cost_after;
              realized_pnl = lot_pnl;
            })
            state.lots;
      realized_pnl = realized;
    })

  -- `allocate_actual_fill_fees(..).ok_or(InvalidLotAllocation)?`, for a fill that names its slices.
  explicit_fees :
      Fill → List LotQuantityAllocation → Decimal → Result DomainError (Option (List Decimal))
  unfolding allocate_actual_fill_fees
  explicit_fees fill allocations fees =
      if is_empty fill.target_lot_allocations
      then ok none
      else elim (allocate_actual_fill_fees allocations fees) [
        | ok assigned ↦ ok (some assigned)
        | err _ ↦ err invalid_lot_allocation
        | panic ↦ panic
      ]

  pub apply_sell :
      StrategyState → Fill → Bool → Decimal → Decimal → Result DomainError StrategyState
  unfolding sell_fill_allocations explicit_fees project_slices apply_slices sell_position
  apply_sell state fill enforce_no_loss notional fees = do
    fail_if (ltb_ℤ state.position.sellable fill.quantity) insufficient_sellable
    allocations ← sell_fill_allocations state fill
    explicit ← explicit_fees fill allocations fees
    projected ← project_slices state fill enforce_no_loss fees explicit zero_decimal allocations
    quantity ←
        ok_or (try_sum (map (λ (s : ProjectedSlice). s.allocation.quantity) projected))
          numeric_range
    fail_if (not (eqb_ℤ quantity fill.quantity)) insufficient_lot_quantity
    sold ← apply_slices projected state
    proceeds ← ok_or (checked_sub_decimal notional fees) numeric_range
    available ← ok_or (checked_add_decimal sold.cash.available proceeds) numeric_range
    total_fees ← ok_or (checked_add_decimal sold.cash.total_fees fees) numeric_range
    position ← sell_position sold.position fill.quantity
    ok (record sold {
      cash = record sold.cash { available = available; total_fees = total_fees };
      position = position;
    })

  pub apply_direction :
      Direction
      → StrategyState
      → Fill
      → ℤ
      → Bool
      → Bool
      → Decimal
      → Decimal
      → Result DomainError StrategyState
  unfolding apply_buy apply_sell
  apply_direction buy state fill grid_index enforce_no_loss opening notional fees =
      apply_buy state fill grid_index opening notional fees
  apply_direction sell state fill grid_index enforce_no_loss opening notional fees =
      apply_sell state fill enforce_no_loss notional fees

  abbrev is_invalid_fill : Fill → Bool
  is_invalid_fill fill =
      leb_ℤ fill.quantity (pos 0)
      || (leb_ℤ fill.price zero_decimal
          || (ltb_ℤ fill.commission zero_decimal || ltb_ℤ fill.tax zero_decimal))

  -- The state after a fill, and whether it was applied.
  apply_fill_inner :
      StrategyState → Fill → ℤ → Bool → Bool → Result DomainError (StrategyState × Bool)
  unfolding apply_direction add member
  apply_fill_inner state fill grid_index enforce_no_loss opening =
      if member fill.fill_id state.processed_fills then ok (state, false) else (do
        fail_if (is_invalid_fill fill) invalid_fill
        notional ← ok_or (checked_mul_decimal fill.price (from_i64 fill.quantity)) numeric_range
        fees ← ok_or (checked_add_decimal fill.commission fill.tax) numeric_range
        after ←
            apply_direction fill.direction state fill grid_index enforce_no_loss opening notional
              fees
        ok (record after { processed_fills = add fill.fill_id after.processed_fills }, true))

  pub apply_fill_with_policy :
      StrategyState → Fill → ℤ → Bool → Bool → Result DomainError (StrategyState × Bool)
  unfolding apply_fill_inner member
  apply_fill_with_policy state fill grid_index enforce_no_loss opening =
      if member fill.fill_id state.processed_fills
      then ok (state, false)
      else apply_fill_inner state fill grid_index enforce_no_loss opening

  -- The entry points: a fill of a grid order, of the initial deployment, and of an old record.
  unfoldable pub apply_fill : StrategyState → Fill → ℤ → Result DomainError (StrategyState × Bool)
  unfolding apply_fill_with_policy
  apply_fill state fill grid_index = apply_fill_with_policy state fill grid_index true false

  unfoldable pub apply_initial_deployment_fill :
      StrategyState → Fill → Result DomainError (StrategyState × Bool)
  unfolding apply_fill_with_policy
  apply_initial_deployment_fill state fill = apply_fill_with_policy state fill (pos 0) true true

  unfoldable pub apply_legacy_fill :
      StrategyState → Fill → ℤ → Result DomainError (StrategyState × Bool)
  unfolding apply_fill_with_policy
  apply_legacy_fill state fill grid_index = apply_fill_with_policy state fill grid_index false false
