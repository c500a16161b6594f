-- ===== src/Account/Fills/Tests.antt =====
-- Runs of `apply_fill` and `roll_trading_day` of src/domain.rs: 100 shares, bought for 900.00, sold for 10.00.
use grid_edge_t.Base.{◌≡◌, ◌*◌, ◌≤◌, ℕ, Bool, List, [], ◌∷◌, refl, none, some, true, false, arith}
use grid_edge_t.Base.Int.{ℤ, pos, negsuc, ◌≤ℤ◌}
use grid_edge_t.Base.Machine.{IsI64}
use grid_edge_t.Base.Maps.{TextSet}
use grid_edge_t.Base.Results.{ok, err}
use grid_edge_t.Account.{insufficient_sellable, roll_trading_day, sell_fill_allocations, taken_from}
use grid_edge_t.Account.Allocations.{shares_of, sell_fill_allocations-sum}
use grid_edge_t.Account.Days.{IsRolled, roll_trading_day-IsRolled}
use grid_edge_t.Account.Fills.{apply_fill_with_policy}
use grid_edge_t.Account.Fills.Effect.{
  IsBalanced, apply_fill_with_policy-IsBalanced, apply_fill_with_policy-again,
}
use grid_edge_t.Account.Fills.NoLoss.{apply_fill_with_policy-realized}
use grid_edge_t.Decimal.{Decimal}
use grid_edge_t.Decimal.Exact.{exact_ops}
use grid_edge_t.Decimal.Exact.Lawful.{exact_laws}
use grid_edge_t.Domain.{Fill, TradingLot, StrategyState, Position, running, sell}

abbrev cents : ℕ → Decimal
cents n = pos (n * 100_000_000_000_000_000_000_000_000)

abbrev lot : ℤ → Decimal → Decimal → TradingLot
lot remaining cost pnl = record {
  lot_id = 9 ∷ [];
  source_order_id = [];
  grid_index = pos 1;
  opening_allocation = false;
  opened_on = 20_000;
  original_quantity = pos 100;
  remaining_quantity = remaining;
  open_price = cents 895;
  allocated_cost = cents 90_000;
  remaining_cost = cost;
  realized_pnl = pnl;
}

abbrev state : TradingLot → TextSet → Decimal → Decimal → Position → Decimal → StrategyState
state l fills available fees position realized = record {
  cycle_id = [];
  mode = running;
  deployed_grid_budget = pos 0;
  orders = [];
  lots = (9 ∷ [], l) ∷ [];
  processed_fills = fills;
  audited_profit_guard_policy = none;
  cash = record { available = available; frozen = pos 0; total_fees = fees };
  position = position;
  realized_pnl = realized;
  current_trade_date = some 20_001;
  last_price = none;
  levels = [];
  historically_executed_levels = [];
}

abbrev shares : ℤ → Position
shares n = record { total = n; sellable = n; today_bought = pos 0; frozen_sell = pos 0 }

abbrev before : StrategyState
before =
    state (lot (pos 100) (cents 90_000) (pos 0)) [] (cents 100_000) (pos 0) (shares (pos 100))
      (pos 0)

abbrev after : StrategyState
after =
    state (lot (pos 0) (pos 0) (cents 9_450)) ((4 ∷ []) ∷ []) (cents 199_450) (cents 550)
      (shares (pos 0)) (cents 9_450)

abbrev sale : ℤ → Fill
sale quantity = record {
  fill_id = 4 ∷ [];
  order_id = 5 ∷ [];
  direction = sell;
  price = cents 1000;
  quantity = quantity;
  commission = cents 500;
  tax = cents 50;
  trade_date = 20_001;
  target_lot_ids = [];
  target_lot_allocations = [];
}

sold : apply_fill_with_policy before (sale (pos 100)) (pos 1) true false ≡ ok (after, true)
unfolding apply_fill_with_policy exact_ops grid_edge_t.Base.Ids.compare_text
    grid_edge_t.Decimal.from_i64 grid_edge_t.Base.Int.◌*ℤ◌ grid_edge_t.Base.Machine.try_sum_from
sold = refl

-- A fill that names no slices and one lot twice takes 150 shares from its 100.
abbrev repeated : Fill
repeated = record (sale (pos 150)) {
  commission = pos 0;
  tax = pos 0;
  target_lot_ids = (9 ∷ []) ∷ (9 ∷ []) ∷ [];
}

lot_taken_twice :
    apply_fill_with_policy
      (state
        (lot (pos 100) (cents 90_000) (pos 0))
        []
        (cents 100_000)
        (pos 0)
        (shares (pos 200))
        (pos 0))
      repeated
      (pos 1)
      true
      false
    ≡ ok (
      state
          (lot (negsuc 49) (cents 45_000) (cents 15_000))
          ((4 ∷ []) ∷ [])
          (cents 250_000)
          (pos 0)
          (shares (pos 50))
          (cents 15_000),
      true,
    )
unfolding apply_fill_with_policy exact_ops grid_edge_t.Base.Ids.compare_text
    grid_edge_t.Decimal.from_i64 grid_edge_t.Base.Int.◌*ℤ◌ grid_edge_t.Base.Machine.try_sum_from
lot_taken_twice = refl

too_many :
    apply_fill_with_policy before (sale (pos 200)) (pos 1) true false ≡ err insufficient_sellable
unfolding apply_fill_with_policy exact_ops
too_many = refl

all_for_sale : IsBalanced (shares (pos 100))
unfolding grid_edge_t.Base.Int.◌+ℤ◌
all_for_sale = record { total_is = refl; sellable_nonneg = omega arith; today_nonneg = omega arith }

apply_fill_with_policy-realized_example : pos 0 ≤ℤ cents 9_450
apply_fill_with_policy-realized_example =
    apply_fill_with_policy-realized exact_laws before after (sale (pos 100)) (pos 1) false sold

apply_fill_with_policy-IsBalanced_example : IsBalanced (shares (pos 0))
apply_fill_with_policy-IsBalanced_example =
    apply_fill_with_policy-IsBalanced before after (sale (pos 100)) (pos 1) true false all_for_sale
      sold

apply_fill_with_policy-again_example :
    apply_fill_with_policy after (sale (pos 100)) (pos 0) true true ≡ ok (after, false)
apply_fill_with_policy-again_example =
    apply_fill_with_policy-again before after (sale (pos 100)) (pos 1) (pos 0) true true false true
      sold

roll_trading_day-IsRolled_example :
    (s' : StrategyState) × (roll_trading_day before 20_002 ≡ ok s') × IsRolled before s' 20_002
roll_trading_day-IsRolled_example =
    roll_trading_day-IsRolled before 20_002 all_for_sale (omega arith, omega arith)

one_slice : sell_fill_allocations before (sale (pos 100)) ≡ ok (taken_from (9 ∷ []) (pos 100) ∷ [])
unfolding sell_fill_allocations grid_edge_t.Base.Ids.compare_text grid_edge_t.Base.Machine.to_i64
    grid_edge_t.Base.Int.◌-ℤ◌
one_slice = refl

sell_fill_allocations-sum_example : shares_of (taken_from (9 ∷ []) (pos 100) ∷ []) ≡ pos 100
sell_fill_allocations-sum_example =
    sell_fill_allocations-sum before (sale (pos 100)) (taken_from (9 ∷ []) (pos 100) ∷ []) one_slice
