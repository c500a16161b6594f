-- ===== src/Account.antt =====
-- The account of src/domain.rs: what rolls it to a trading day, its snapshot, and which lots a sale
-- takes from.
pub mod Fills
pub mod Days
pub mod Allocations
use grid_edge_t.Base.{
  ℕ, ltb, leb, ◌==◌, Bool, true, false, not, ◌||◌, ◌&&◌, Option, some, none, List, [], ◌∷◌, map,
  any, length, if◌then◌else◌,
}
use grid_edge_t.Base.Int.{ℤ, pos, ltb_ℤ, leb_ℤ, eqb_ℤ, min_ℤ}
use grid_edge_t.Base.Ids.{Text}
use grid_edge_t.Base.Machine.{checked_add, checked_sub, try_sum}
use grid_edge_t.Base.Maps.{Map, TextSet, lookup, values, member, add}
use grid_edge_t.Base.Results.{Result, ok, err, or_panic, ok_or, fail_if, ◌>>=◌, ◌>>◌}
use grid_edge_t.Decimal.{Decimal, zero_decimal}
use grid_edge_t.Domain.{
  OrderStatus, created, submitted, accepted, partially_filled, cancel_pending, Order,
  LotQuantityAllocation, Fill, TradingLot, CashAccount, Position, AccountSnapshot, StrategyState,
}

-- The errors of `DomainError` that these operations return.
pub data DomainError : Type 0 where
  insufficient_cash insufficient_sellable insufficient_lot_quantity invalid_lot_allocation
        invalid_fill numeric_range :
      DomainError
  loss_making_sell : Text → Decimal → DomainError  -- lot_id, projected_loss

pub is_earlier : Option ℕ → ℕ → Bool
is_earlier none date = false
is_earlier (some d) date = ltb d date

-- What was bought before the new day can be sold on it.
pub roll_trading_day : StrategyState → ℕ → Result DomainError StrategyState
unfolding is_earlier
roll_trading_day state date =
    if is_earlier state.current_trade_date date
    then (do
      sellable ←
          ok_or (checked_add state.position.sellable state.position.today_bought) numeric_range
      ok (record state {
        position = record state.position { sellable = sellable; today_bought = pos 0 };
        current_trade_date = some date;
      }))
    else ok (record state { current_trade_date = some date })

pub is_open : OrderStatus → Bool
is_open created = true
is_open submitted = true
is_open accepted = true
is_open partially_filled = true
is_open cancel_pending = true
is_open _ = false

open_ids : Map Order → List Text
unfolding is_open
open_ids [] = []
open_ids ((id, order) ∷ orders) =
    let rest = open_ids orders in if is_open order.status then id ∷ rest else rest

pub snapshot : StrategyState → Result DomainError AccountSnapshot
unfolding open_ids
snapshot state = do
  filled ←
      ok_or (try_sum (map (λ (o : Order). o.filled_quantity) (values state.orders))) numeric_range
  ok (record {
    cash = state.cash;
    position = state.position;
    open_order_ids = open_ids state.orders;
    cumulative_filled_quantity = filled;
  })

abbrev keys : Map TradingLot → List Text
keys [] = []
keys ((id, _) ∷ lots) = id ∷ keys lots

to_set : List Text → TextSet
unfolding add
to_set [] = []
to_set (id ∷ ids) = add id (to_set ids)

abbrev pub is_empty : {A : Type 0} → List A → Bool
is_empty [] = true
is_empty (_ ∷ _) = false

abbrev lot_ids_of : List LotQuantityAllocation → List Text
lot_ids_of = map (λ (a : LotQuantityAllocation). a.lot_id)

-- The allocations that the fill names.
explicit_allocations : Fill → Result DomainError (List LotQuantityAllocation)
unfolding to_set member
explicit_allocations fill = do
  total ←
      ok_or (try_sum (map (λ (a : LotQuantityAllocation). a.quantity) fill.target_lot_allocations))
        numeric_range
  fail_if
      (not (eqb_ℤ total fill.quantity)
        || (not (
              length (to_set (lot_ids_of fill.target_lot_allocations))
              == length fill.target_lot_allocations)
            || (not (is_empty fill.target_lot_ids)
                && any (λ id. not (member id fill.target_lot_ids))
                    (lot_ids_of fill.target_lot_allocations))))
      invalid_lot_allocation
  ok fill.target_lot_allocations

abbrev taken_from : Text → ℤ → LotQuantityAllocation
taken_from id quantity = record {
  lot_id = id;
  tranche_id = [];
  quantity = quantity;
  cost_basis = zero_decimal;
  worst_fill_price = zero_decimal;
  maximum_sell_fees = zero_decimal;
  worst_case_profit = zero_decimal;
}

-- The loop over the lots of a fill that names no allocations, with the shares that remain to sell.
take_lots : Map TradingLot → ℕ → ℤ → List Text → Result DomainError (List LotQuantityAllocation)
unfolding lookup
take_lots lots trade_date remaining [] =
    if eqb_ℤ remaining (pos 0) then ok [] else err insufficient_lot_quantity
take_lots lots trade_date remaining (id ∷ ids) =
    let skipped = take_lots lots trade_date remaining ids in
    let next : Result DomainError (List LotQuantityAllocation) = elim (lookup id lots) [
      | none ↦ skipped
      | some lot ↦
          let quantity = min_ℤ remaining lot.remaining_quantity in
          let taken = or_panic (checked_sub remaining quantity) >>= λ left.
          take_lots lots trade_date left ids >>= λ others. ok (taken_from id quantity ∷ others) in
          if leb trade_date lot.opened_on
          then skipped
          else if ltb_ℤ (pos 0) quantity
          then taken
          else skipped
    ] in
    if eqb_ℤ remaining (pos 0) then ok [] else next

pub sell_fill_allocations : StrategyState → Fill → Result DomainError (List LotQuantityAllocation)
unfolding explicit_allocations take_lots
sell_fill_allocations state fill =
    let ids = if is_empty fill.target_lot_ids then keys state.lots else fill.target_lot_ids in
    if is_empty fill.target_lot_allocations
    then take_lots state.lots fill.trade_date fill.quantity ids
    else explicit_allocations fill
