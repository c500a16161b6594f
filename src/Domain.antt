-- ===== src/Domain.antt =====
-- The data of src/domain.rs: the fields
-- that the modelled operations read or write. Dates are day numbers and times are instants, which
-- the program only compares. Text ids are `Text`, ordered maps are `Map`.
use grid_edge_t.Base.{ℕ, Bool, true, false, Option, List}
use grid_edge_t.Base.Int.{ℤ}
use grid_edge_t.Base.Ids.{Text}
use grid_edge_t.Base.Maps.{Map, TextSet}
use grid_edge_t.Decimal.{Decimal}

pub data Direction : Type 0 where
  buy sell : Direction

pub data ServiceMode : Type 0 where
  running safe read_only stopped : ServiceMode

pub data GridLevelStatus : Type 0 where
  armed touched executed skipped rearmed : GridLevelStatus

pub record GridLevelState : Type 0 where
  pub index : ℤ  -- i32
  pub price : Decimal
  pub status : GridLevelStatus
  pub touch_count : ℕ  -- u64

pub data OrderStatus : Type 0 where
  created submitted accepted partially_filled filled rejected cancel_pending cancelled : OrderStatus

pub record ProfitGuardPolicy : Type 0 where
  pub price_scale : ℕ  -- u32
  pub commission_rate : Decimal
  pub minimum_commission : Decimal
  pub sell_tax_rate : Decimal
  pub slippage_rate : Decimal

pub record LotQuantityAllocation : Type 0 where
  pub lot_id : Text
  pub tranche_id : Text
  pub quantity : ℤ  -- i64
  pub cost_basis : Decimal
  pub worst_fill_price : Decimal
  pub maximum_sell_fees : Decimal
  pub worst_case_profit : Decimal

pub data OrderIntentOrigin : Type 0 where
  grid_right : OrderIntentOrigin
  -- deployment_id, source_market_event_id, source_evidence_sha256, policy_version
  initial_deployment_v1 : Text → Text → Text → Text → OrderIntentOrigin

-- `OrderIntentOrigin::is_initial_deployment`.
abbrev pub is_initial_deployment : OrderIntentOrigin → Bool
is_initial_deployment grid_right = false
is_initial_deployment (initial_deployment_v1 _ _ _ _) = true

pub record OrderIntent : Type 0 where
  pub intent_id : Text
  pub origin : OrderIntentOrigin
  pub right_id : Text
  pub grid_index : ℤ  -- i32
  pub direction : Direction
  pub limit_price : Decimal
  pub quantity : ℤ  -- i64
  pub target_lot_ids : List Text
  pub target_lot_allocations : List LotQuantityAllocation
  pub profit_guard_version : Text
  pub profit_guard_policy : Option ProfitGuardPolicy
  pub created_on : ℕ  -- the date of `created_at`

pub record Order : Type 0 where
  pub order_id : Text
  pub intent : OrderIntent
  pub status : OrderStatus
  pub filled_quantity : ℤ  -- i64
  pub filled_notional : Decimal
  pub commission_charged : Decimal
  pub reserved_cash_remaining : Decimal
  pub reserved_quantity_remaining : ℤ  -- i64
  pub cancel_requested_reason : Option Text
  pub cancel_requested_at : Option ℕ

pub record Fill : Type 0 where
  pub fill_id : Text
  pub order_id : Text
  pub direction : Direction
  pub price : Decimal
  pub quantity : ℤ  -- i64
  pub commission : Decimal
  pub tax : Decimal
  pub trade_date : ℕ
  pub target_lot_ids : List Text
  pub target_lot_allocations : List LotQuantityAllocation

pub record TradingLot : Type 0 where
  pub lot_id : Text
  pub source_order_id : Text
  pub grid_index : ℤ  -- i32
  pub opening_allocation : Bool
  pub opened_on : ℕ
  pub original_quantity : ℤ  -- i64
  pub remaining_quantity : ℤ  -- i64
  pub open_price : Decimal
  pub allocated_cost : Decimal
  pub remaining_cost : Decimal
  pub realized_pnl : Decimal

pub record CashAccount : Type 0 where
  pub available : Decimal
  pub frozen : Decimal
  pub total_fees : Decimal

pub record Position : Type 0 where
  pub total : ℤ  -- i64
  pub sellable : ℤ  -- i64
  pub today_bought : ℤ  -- i64
  pub frozen_sell : ℤ  -- i64

pub record AccountSnapshot : Type 0 where
  pub cash : CashAccount
  pub position : Position
  pub open_order_ids : List Text
  pub cumulative_filled_quantity : ℤ  -- i64

pub record StrategyState : Type 0 where
  pub cycle_id : Text
  pub mode : ServiceMode
  pub deployed_grid_budget : Decimal
  pub orders : Map Order
  pub lots : Map TradingLot
  pub processed_fills : TextSet
  pub audited_profit_guard_policy : Option ProfitGuardPolicy
  pub cash : CashAccount
  pub position : Position
  pub realized_pnl : Decimal
  pub current_trade_date : Option ℕ
  pub last_price : Option Decimal
  pub levels : List (ℤ × GridLevelState)  -- by index
  pub historically_executed_levels : List ℤ
