-- ===== src/Profit/Guard/Tests.antt =====
-- A run of `plan_non_loss_sales` of src/profit.rs.
use grid_edge_t.Base.{◌≡◌, ◌*◌, ℕ, List, [], ◌∷◌, refl, none, false}
use grid_edge_t.Base.Int.{ℤ, pos, max_ℤ}
use grid_edge_t.Base.Results.{ok}
use grid_edge_t.Config.{Config, policy_of}
use grid_edge_t.Decimal.{Decimal}
use grid_edge_t.Decimal.Exact.{exact_ops}
use grid_edge_t.Domain.{LotQuantityAllocation, TradingLot}
use grid_edge_t.Profit.Guard.{plan_non_loss_sales}
use grid_edge_t.Profit.Guard.Plan.{IsPlan, plan_non_loss_sales-IsPlan}

abbrev cents : ℕ → Decimal
cents n = pos (n * 100_000_000_000_000_000_000_000_000)

abbrev config : Config
config = record {
  initial_cash = cents 10_000_000;
  anchor_price = cents 1000;
  grid_ratio = cents 10;
  trade_levels = pos 1;
  boundary_levels = pos 2;
  price_scale = 2;
  standard_quantity = pos 100;
  lot_size = pos 100;
  max_position = pos 10_000;
  min_base_position = pos 0;
  commission_rate = pos 3_000_000_000_000_000_000_000_000;
  minimum_commission = cents 500;
  sell_tax_rate = pos 5_000_000_000_000_000_000_000_000;
  slippage_rate = pos 10_000_000_000_000_000_000_000_000;
  paper = record {
    reject_probability_bps = 0;
    partial_fill_bps = 0;
    seed = 7;
    hold_open_probability_bps = 0;
  };
  capital_inventory = none;
}

abbrev lot : ℕ → ℤ → Decimal → TradingLot
lot id level cost = record {
  lot_id = id ∷ [];
  source_order_id = [];
  grid_index = level;
  opening_allocation = false;
  opened_on = 20_000;
  original_quantity = pos 100;
  remaining_quantity = pos 100;
  open_price = cents 900;
  allocated_cost = cost;
  remaining_cost = cost;
  realized_pnl = pos 0;
}

-- The second lot stands at an outer level, and the third would lose.
abbrev lots : List TradingLot
lots =
    lot 1 (pos 1) (cents 90_000) ∷ lot 2 (pos 2) (cents 90_000) ∷ lot 3 (pos 2) (cents 99_900) ∷ []

abbrev allocation : ℕ → LotQuantityAllocation
allocation id = record {
  lot_id = id ∷ [];
  tranche_id = [];
  quantity = pos 100;
  cost_basis = cents 90_000;
  worst_fill_price = cents 999;
  maximum_sell_fees = cents 550;
  worst_case_profit = cents 9_350;
}

abbrev plan : List LotQuantityAllocation
plan = allocation 2 ∷ allocation 1 ∷ []

skips_the_loss : plan_non_loss_sales config lots (pos 300) (cents 1000) ≡ ok plan
unfolding plan_non_loss_sales exact_ops grid_edge_t.Base.Ids.compare_text
    grid_edge_t.Profit.checked_worst_sell_fill_price_with_policy
    grid_edge_t.Profit.checked_conservative_sell_fees_with_policy grid_edge_t.Decimal.from_i64
    grid_edge_t.Base.Int.◌*ℤ◌
skips_the_loss = refl

plan_non_loss_sales-IsPlan_example :
    IsPlan (policy_of config) (cents 1000) (max_ℤ (pos 300) (pos 0)) lots plan
plan_non_loss_sales-IsPlan_example =
    plan_non_loss_sales-IsPlan config lots (pos 300) (cents 1000) plan skips_the_loss
