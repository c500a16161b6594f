-- ===== src/Risk/Tests.antt =====
-- Runs of the checks of src/risk.rs.
use grid_edge_t.Base.{◌≡◌, ◌↔◌, ◌*◌, ◌+◌, ℕ, suc, [], refl, none, some, true, ◌⊎◌, inl, inr, arith}
use grid_edge_t.Base.Int.{ℤ, pos, magnitude, ◌≤ℤ◌, ◌<ℤ◌, ◌+ℤ◌, ◌-ℤ◌}
use grid_edge_t.Base.Machine.{IsI64}
use grid_edge_t.Base.Results.{ok, err, panic}
use grid_edge_t.Config.{Config, CapitalInventorySettings}
use grid_edge_t.Decimal.{Decimal}
use grid_edge_t.Decimal.Exact.{exact_ops}
use grid_edge_t.Domain.{StrategyState, running, buy, sell}
use grid_edge_t.Risk.{check_buy, check_sell, affordable_buy_units, base_position}
use grid_edge_t.Risk.Affordable.{Outcome, IsBoundary, affordable_buy_units-IsBoundary}
use grid_edge_t.Risk.Opening.{canonical_initial_buy_units}
use grid_edge_t.Risk.Opening.Limits.{IsOpening, canonical_initial_buy_units_lem}
use grid_edge_t.Risk.Approval.{
  GridRight, no_approval, approve_buy, approve_sell, canonical_approval,
}
use grid_edge_t.Risk.Opening.Deployment.{canonical_initial_deployment_plan}
use grid_edge_t.Risk.Approval.Ends.{Ends}
use grid_edge_t.Risk.Approval.Largest.{
  candidate, SalePanics, IsApproved, canonical_approval-IsApproved,
}
use grid_edge_t.Risk.Approval.Fuel.{approval_loops-end}
use grid_edge_t.Risk.Checks.{IsSellable, IsBuyable, check_sell_iff, check_buy-IsBuyable}

abbrev cents : ℕ → Decimal
cents n = pos (n * 100_000_000_000_000_000_000_000_000)

abbrev config : Config
config = record {
  initial_cash = cents 10_000_000;
  anchor_price = cents 1000;
  grid_ratio = cents 10;
  trade_levels = pos 1;
  boundary_levels = pos 2;
  price_scale = 2;
  standard_quantity = pos 100;
  lot_size = pos 100;
  max_position = pos 1000;
  min_base_position = pos 300;
  commission_rate = pos 3_000_000_000_000_000_000_000_000;
  minimum_commission = cents 500;
  sell_tax_rate = pos 5_000_000_000_000_000_000_000_000;
  slippage_rate = pos 10_000_000_000_000_000_000_000_000;
  paper = record {
    reject_probability_bps = 0;
    partial_fill_bps = 0;
    seed = 7;
    hold_open_probability_bps = 0;
  };
  capital_inventory = none;
}

abbrev state : StrategyState
state = record {
  cycle_id = [];
  mode = running;
  deployed_grid_budget = pos 0;
  orders = [];
  lots = [];
  processed_fills = [];
  audited_profit_guard_policy = none;
  cash = record { available = cents 500_000; frozen = cents 100_000; total_fees = pos 0 };
  position = record {
    total = pos 500;
    sellable = pos 500;
    today_bought = pos 0;
    frozen_sell = pos 100;
  };
  realized_pnl = pos 0;
  current_trade_date = none;
  last_price = none;
  levels = [];
  historically_executed_levels = [];
}

two_of_five : affordable_buy_units config (cents 1000) (cents 250_000) (pos 5) ≡ ok (pos 2)
unfolding affordable_buy_units exact_ops grid_edge_t.Base.Int.◌*ℤ◌ grid_edge_t.Decimal.from_i64
two_of_five = refl

affordable_buy_units-IsBoundary_example :
    Outcome
      (IsBoundary config (cents 1000) (cents 250_000) (pos 5))
      (affordable_buy_units config (cents 1000) (cents 250_000) (pos 5))
affordable_buy_units-IsBoundary_example =
    affordable_buy_units-IsBoundary config (cents 1000) (cents 250_000) (pos 5)

base_is_kept : check_sell config state (pos 300) ≡ err base_position
unfolding check_sell grid_edge_t.Base.Machine.to_i64 ◌-ℤ◌
base_is_kept = refl

fits_sellable : IsI64 (pos 500 -ℤ pos 100)
unfolding ◌-ℤ◌
fits_sellable = (omega arith, omega arith)

fits_total : IsI64 (pos 500 -ℤ pos 200)
unfolding ◌-ℤ◌
fits_total = (omega arith, omega arith)

check_sell_iff_example :
    (check_sell config state (pos 200) ≡ ok tt) ↔ IsSellable config state (pos 200)
check_sell_iff_example = check_sell_iff config state (pos 200) fits_sellable fits_total

allowed : check_buy config state (pos 300) (cents 300_800) ≡ ok tt
unfolding check_buy exact_ops
allowed = refl

check_buy-IsBuyable_example : IsBuyable config state (pos 300) (cents 300_800)
check_buy-IsBuyable_example = check_buy-IsBuyable config state (pos 300) (cents 300_800) allowed

abbrev settings : CapitalInventorySettings
settings = record {
  target_position = pos 800;
  minimum_free_cash = cents 100_000;
  deploy_initial_balance = true;
}

abbrev opening_config : Config
opening_config = record config { capital_inventory = some settings }

-- Three units are below the target, and one is below the trade levels.
buys_one_unit : canonical_initial_buy_units opening_config state (cents 1000) ≡ ok (pos 1)
unfolding canonical_initial_buy_units exact_ops grid_edge_t.Base.Int.◌*ℤ◌
    grid_edge_t.Base.Machine.to_i32 grid_edge_t.Grid.price grid_edge_t.Base.Machine.checked_abs_i32
    affordable_buy_units
buys_one_unit = refl

canonical_initial_buy_units_lem_example :
    (pos 1 ≡ pos 0)
    ⊎ ((s : CapitalInventorySettings) × (opening_config.capital_inventory ≡ some s)
        × IsOpening opening_config state s (pos 1))
canonical_initial_buy_units_lem_example =
    canonical_initial_buy_units_lem opening_config state (cents 1000) (pos 1) buys_one_unit

opening_figures :
    canonical_initial_deployment_plan opening_config state (cents 1000)
    ≡ ok (record {
      maximum_units = pos 1;
      selected_units = pos 1;
      quantity = pos 100;
      pending_buy_quantity = pos 0;
      reservation = cents 100_600;
      projected_remaining_cash = cents 399_400;
    })
unfolding canonical_initial_deployment_plan exact_ops grid_edge_t.Base.Int.◌*ℤ◌
    grid_edge_t.Base.Machine.to_i32 grid_edge_t.Grid.price grid_edge_t.Base.Machine.checked_abs_i32
    affordable_buy_units grid_edge_t.Risk.estimated_buy_reservation grid_edge_t.Decimal.from_i64
opening_figures = refl

abbrev buy_right : GridRight
buy_right = record { direction = buy; grid_price = cents 1000; eligible_lot_ids = [] }

-- The free cash does not pay for four units or more.
approves_three_units :
    canonical_approval config state buy_right (pos 500)
    ≡ ok (record { quantity = pos 300; sell_allocations = [] })
unfolding canonical_approval exact_ops grid_edge_t.Risk.estimated_buy_reservation check_buy
    grid_edge_t.Decimal.from_i64 grid_edge_t.Base.Int.◌*ℤ◌
approves_three_units = refl

-- A buy is not cut to whole units.
approves_a_residual :
    canonical_approval config state buy_right (pos 150)
    ≡ ok (record { quantity = pos 150; sell_allocations = [] })
unfolding canonical_approval exact_ops grid_edge_t.Risk.estimated_buy_reservation check_buy
    grid_edge_t.Decimal.from_i64 grid_edge_t.Base.Int.◌*ℤ◌
approves_a_residual = refl

canonical_approval-IsApproved_example :
    (((pos 500 ≤ℤ pos 0) ⊎ (config.standard_quantity ≤ℤ pos 0))
      × (canonical_approval config state buy_right (pos 500) ≡ ok no_approval))
    ⊎ Ends
        (SalePanics config state buy_right buy)
        (IsApproved config state buy_right buy (pos 500))
        (canonical_approval config state buy_right (pos 500))
canonical_approval-IsApproved_example =
    canonical_approval-IsApproved config state buy_right (pos 500) (omega arith, omega arith)

approval_loops-end_example :
    (approve_buy config state (cents 1000) panic (suc (magnitude (pos 500))) (pos 500)
      ≡ approve_buy config state (cents 1000) (ok (pos 7)) (suc (magnitude (pos 500))) (pos 500))
    × (approve_sell config state buy_right panic
          (suc (magnitude (pos 500)))
          (candidate config state buy_right sell (pos 500))
        ≡ approve_sell config state buy_right
            (ok no_approval)
            (suc (magnitude (pos 500)))
            (candidate config state buy_right sell (pos 500)))
approval_loops-end_example =
    approval_loops-end config state buy_right (pos 500) (ok (pos 7)) (ok no_approval) (omega arith)
      (omega arith)
