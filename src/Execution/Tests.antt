-- ===== src/Execution/Tests.antt =====
-- Runs of the paper broker of src/execution.rs: a purchase, a sale that is held open, and its
-- cancellation.
use grid_edge_t.Base.{
  ◌≡◌, ◌*◌, ℕ, Bool, true, false, Option, some, none, List, [], ◌∷◌, refl, inl, inr, ◌⊎◌, ◌++◌, map,
  arith,
}
use grid_edge_t.Base.Ids.{Text, text}
use grid_edge_t.Base.Int.{ℤ, pos}
use grid_edge_t.Base.Maps.{lookup, member}
use grid_edge_t.Base.Results.{Result, ok, err}
use grid_edge_t.Config.{Config, policy_of}
use grid_edge_t.Decimal.{Decimal}
use grid_edge_t.Decimal.Exact.{exact_ops}
use grid_edge_t.Domain.{
  Direction, buy, sell, grid_right, OrderIntent, Order, accepted as order_accepted, StrategyState,
  LotQuantityAllocation, AccountSnapshot, running,
}
use grid_edge_t.Execution.{
  FillReport, ExecutionReport, accepted, rejected, PaperError, PaperLedger, PaperExecutionGateway,
  PaperHashes, policy_mismatch, open_ledger, open_existing, report_for_intent, opened,
}
use grid_edge_t.Execution.Agreement.{InStep, book_report-InStep}
use grid_edge_t.Execution.Booking.{BookingError, book_report}
use grid_edge_t.Execution.Covered.{IsDrawn, fresh_report-IsDrawn}
use grid_edge_t.Execution.Durable.{Operation, roll, place, withdraw, run, open_existing-run}
use grid_edge_t.Execution.Release.{IsRestored, cancel-submit_today}
use grid_edge_t.Execution.Reports.{submit-again}
use grid_edge_t.Execution.Settle.{Settlement, settle_fill}
use grid_edge_t.Execution.Submit.{
  submit, submit_today, fresh_report, fill_price, sell_report_obeys_no_loss_guard,
}

abbrev cents : ℕ → Decimal
cents n = pos (n * 100_000_000_000_000_000_000_000_000)

-- Every draw is 0, and a name is its own identifier.
instance plain_hashes : PaperHashes
plain_hashes = record { digest_prefix = λ seed id purpose. 0; uuid_v5 = λ name. name }

abbrev config : ℕ → ℕ → Config
config partial hold_open = record {
  initial_cash = cents 10_000_000;
  anchor_price = cents 1000;
  grid_ratio = cents 10;
  trade_levels = pos 1;
  boundary_levels = pos 2;
  price_scale = 2;
  standard_quantity = pos 100;
  lot_size = pos 100;
  max_position = pos 1000;
  min_base_position = pos 300;
  commission_rate = pos 3_000_000_000_000_000_000_000_000;
  minimum_commission = cents 500;
  sell_tax_rate = pos 5_000_000_000_000_000_000_000_000;
  slippage_rate = pos 10_000_000_000_000_000_000_000_000;
  paper = record {
    reject_probability_bps = 0;
    partial_fill_bps = partial;
    seed = 7;
    hold_open_probability_bps = hold_open;
  };
  capital_inventory = none;
}

abbrev planned : LotQuantityAllocation
planned = record {
  lot_id = 9 ∷ [];
  tranche_id = 8 ∷ [];
  quantity = pos 300;
  cost_basis = cents 200_000;
  worst_fill_price = cents 990;
  maximum_sell_fees = cents 1000;
  worst_case_profit = cents 96_000;
}

abbrev intent : Direction → List LotQuantityAllocation → OrderIntent
intent d allocations = record {
  intent_id = 1 ∷ [];
  origin = grid_right;
  right_id = [];
  grid_index = pos 1;
  direction = d;
  limit_price = cents 1000;
  quantity = pos 300;
  target_lot_ids = [];
  target_lot_allocations = allocations;
  profit_guard_version = text "LOT_SLICE_NO_LOSS_V1";
  profit_guard_policy = some (policy_of (config 0 0));
  created_on = 20_001;
}

abbrev account : AccountSnapshot
account = record {
  cash = record { available = cents 1_000_000; frozen = pos 0; total_fees = pos 0 };
  position = record {
    total = pos 300;
    sellable = pos 300;
    today_bought = pos 0;
    frozen_sell = pos 0;
  };
  open_order_ids = [];
  cumulative_filled_quantity = pos 0;
}

abbrev ledger : PaperLedger
ledger = record { account = some account; trade_date = some 20_001; orders = [] }

abbrev gateway : ℕ → ℕ → PaperExecutionGateway
gateway partial hold_open = opened (config partial hold_open) ledger account

abbrev report_of : Result PaperError ExecutionReport → ExecutionReport
report_of (ok r) = r
report_of _ = rejected [] []

abbrev answer_to : PaperExecutionGateway → OrderIntent → ExecutionReport
answer_to g i = report_of (submit g i).1

buys : submit (gateway 10_000 0) (intent buy []) ≡ (
  (submit (gateway 10_000 0) (intent buy [])).0,
  ok (answer_to (gateway 10_000 0) (intent buy [])),
)
unfolding submit opened plain_hashes exact_ops grid_edge_t.Base.Int.◌*ℤ◌ grid_edge_t.Base.Int.quot
buys = refl

-- 300 shares at 10.01, in two parts: 3003.00 and a commission of 5.00 for each of the parts together.
bought :
    (submit (gateway 10_000 0) (intent buy [])).0.snapshot.cash
    ≡ record { available = cents 699_200; frozen = pos 0; total_fees = cents 500 }
unfolding submit opened plain_hashes exact_ops grid_edge_t.Base.Int.◌*ℤ◌ grid_edge_t.Base.Int.quot
    grid_edge_t.Decimal.from_i64
bought = refl

-- The fee terms of an order must be those of the account.
other_policy :
    (submit (gateway 0 0) (record (intent buy []) { profit_guard_policy = none })).1
    ≡ err policy_mismatch
unfolding submit opened
other_policy = refl

submit-again_example : submit (submit (gateway 10_000 0) (intent buy [])).0 (intent buy []) ≡ (
  (submit (gateway 10_000 0) (intent buy [])).0,
  ok (answer_to (gateway 10_000 0) (intent buy [])),
)
submit-again_example =
    submit-again (gateway 10_000 0) (submit (gateway 10_000 0) (intent buy [])).0 (intent buy [])
      (answer_to (gateway 10_000 0) (intent buy [])) buys

abbrev gateway_of :
    PaperExecutionGateway
    → Result PaperError (PaperExecutionGateway × ExecutionReport)
    → PaperExecutionGateway
gateway_of g (ok (next, r)) = next
gateway_of g _ = g

abbrev sale : OrderIntent
sale = intent sell (planned ∷ [])

abbrev holding : PaperExecutionGateway
holding = gateway 0 10_000

abbrev held : PaperExecutionGateway
held = gateway_of holding (submit_today holding sale)

holds :
    submit_today holding sale
    ≡ ok (held, accepted (text "paper:order:" ++ (1 ∷ []) ++ text ":0") [])
unfolding submit_today opened plain_hashes exact_ops grid_edge_t.Base.Int.◌*ℤ◌
holds = refl

freezes : held.snapshot.position.frozen_sell ≡ pos 300
unfolding submit_today opened plain_hashes exact_ops grid_edge_t.Base.Int.◌*ℤ◌
freezes = refl

unknown : report_for_intent holding sale.intent_id ≡ none
unfolding report_for_intent opened
unknown = refl

cancel-submit_today_example :
    IsRestored holding sale (text "paper:order:" ++ (1 ∷ []) ++ text ":0") (text "stop") held
unfolding opened
cancel-submit_today_example =
    cancel-submit_today holding held sale (text "paper:order:" ++ (1 ∷ []) ++ text ":0")
      (text "stop") (omega arith, omega arith) unknown holds

abbrev fills_of : Result PaperError ExecutionReport → List FillReport
fills_of (ok (accepted id fills)) = fills
fills_of _ = []

abbrev parts : List FillReport
parts = fills_of (fresh_report (gateway 10_000 0) (intent buy []))

two_parts : map (λ (f : FillReport). f.quantity) parts ≡ pos 100 ∷ pos 200 ∷ []
unfolding fresh_report plain_hashes opened exact_ops grid_edge_t.Base.Int.◌*ℤ◌
    grid_edge_t.Base.Int.quot
two_parts = refl

reports :
    fresh_report (gateway 10_000 0) (intent buy [])
    ≡ ok (accepted (text "paper:order:" ++ (1 ∷ []) ++ text ":0") parts)
unfolding fresh_report plain_hashes opened exact_ops grid_edge_t.Base.Int.◌*ℤ◌
    grid_edge_t.Base.Int.quot
reports = refl

fresh_report-IsDrawn_example :
    (price : Decimal) × (fill_price (gateway 10_000 0) buy (cents 1000) ≡ ok price)
    × IsDrawn (intent buy []) price parts
    × (sell_report_obeys_no_loss_guard (gateway 10_000 0) (intent buy []) parts ≡ ok tt)
fresh_report-IsDrawn_example =
    fresh_report-IsDrawn (gateway 10_000 0) (intent buy [])
      (text "paper:order:" ++ (1 ∷ []) ++ text ":0") parts reports

abbrev days : List Operation
days = place sale ∷ withdraw sale (text "stop") ∷ roll 20_002 ∷ place (intent buy []) ∷ []

opens : open_ledger (config 0 10_000) ledger account false ≡ ok holding
unfolding open_ledger
opens = refl

open_existing-run_example :
    open_existing (config 0 10_000) (run holding days).ledger account ≡ ok (run holding days)
open_existing-run_example =
    open_existing-run (config 0 10_000) ledger account account false holding days opens

abbrev order : Order
order = record {
  order_id = 5 ∷ [];
  intent = intent buy [];
  status = order_accepted;
  filled_quantity = pos 0;
  filled_notional = pos 0;
  commission_charged = pos 0;
  reserved_cash_remaining = cents 400_000;
  reserved_quantity_remaining = pos 0;
  cancel_requested_reason = none;
  cancel_requested_at = none;
}

abbrev state : StrategyState
state = record {
  cycle_id = [];
  mode = running;
  deployed_grid_budget = pos 0;
  orders = (5 ∷ [], order) ∷ [];
  lots = [];
  processed_fills = [];
  audited_profit_guard_policy = none;
  cash = record { available = cents 1_000_000; frozen = cents 400_000; total_fees = pos 0 };
  position = account.position;
  realized_pnl = pos 0;
  current_trade_date = some 20_001;
  last_price = none;
  levels = [];
  historically_executed_levels = [];
}

abbrev settlement : Settlement
settlement = record { next = account; filled_notional = pos 0; commission_charged = pos 0 }

abbrev report : FillReport
report = record { fill_id = 4 ∷ []; quantity = pos 100; price = cents 1001; final_fill = false }

abbrev state_of : Result BookingError StrategyState → StrategyState
state_of (ok s) = s
state_of _ = state

abbrev settlement_of : Result PaperError Settlement → Settlement
settlement_of (ok s) = s
settlement_of _ = settlement

abbrev booked : StrategyState
booked = state_of (book_report (config 0 0) (intent buy []) (5 ∷ []) 4 20_001 state report)

abbrev after_report : Settlement
after_report = settlement_of (settle_fill (config 0 0) buy settlement report)

books : book_report (config 0 0) (intent buy []) (5 ∷ []) 4 20_001 state report ≡ ok booked
unfolding book_report policy_of settle_fill exact_ops grid_edge_t.Base.Int.◌*ℤ◌
    grid_edge_t.Base.Ids.compare_text grid_edge_t.Decimal.from_i64
books = refl

settles : settle_fill (config 0 0) buy settlement report ≡ ok after_report
unfolding settle_fill policy_of exact_ops grid_edge_t.Base.Int.◌*ℤ◌
    grid_edge_t.Base.Ids.compare_text grid_edge_t.Decimal.from_i64
settles = refl

spends : booked.cash.available ≡ cents 899_400
unfolding book_report grid_edge_t.Base.Ids.compare_text exact_ops grid_edge_t.Decimal.from_i64
    grid_edge_t.Base.Int.◌*ℤ◌
spends = refl

in_step : InStep (5 ∷ []) (pos 0) state settlement
unfolding lookup grid_edge_t.Base.Ids.compare_text grid_edge_t.Base.Int.◌+ℤ◌
in_step = record {
  order = order;
  known = refl;
  same_quantity = refl;
  same_notional = refl;
  same_commission = refl;
  agrees = record {
    same_available = refl;
    same_fees = refl;
    same_total = refl;
    same_sellable = refl;
    same_today = refl;
  };
}

book_report-InStep_example : InStep (5 ∷ []) (pos 0) booked after_report
unfolding member
book_report-InStep_example =
    book_report-InStep (config 0 0) (intent buy []) (5 ∷ []) (pos 0) 4 20_001 state booked
      settlement after_report report in_step refl books settles
