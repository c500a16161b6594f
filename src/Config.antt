-- ===== src/Config.antt =====
-- The parts of src/config.rs that the modelled code reads.
use grid_edge_t.Base.{ℕ, Bool, Option}
use grid_edge_t.Base.Int.{ℤ}
use grid_edge_t.Decimal.{Decimal}
use grid_edge_t.Domain.{ProfitGuardPolicy}
use grid_edge_t.Grid.{GridSpec}

pub record CapitalInventorySettings : Type 0 where
  pub target_position : ℤ  -- i64
  pub minimum_free_cash : Decimal
  pub deploy_initial_balance : Bool

pub record PaperSettings : Type 0 where
  pub reject_probability_bps : ℕ  -- u16
  pub partial_fill_bps : ℕ  -- u16
  pub seed : ℕ  -- u64
  pub hold_open_probability_bps : ℕ  -- u16

pub record Config : Type 0 where
  pub initial_cash : Decimal
  pub anchor_price : Decimal
  pub grid_ratio : Decimal
  pub trade_levels : ℤ  -- i32
  pub boundary_levels : ℤ  -- i32
  pub price_scale : ℕ  -- u32
  pub standard_quantity : ℤ  -- i64
  pub lot_size : ℤ  -- i64
  pub max_position : ℤ  -- i64
  pub min_base_position : ℤ  -- i64
  pub commission_rate : Decimal
  pub minimum_commission : Decimal
  pub sell_tax_rate : Decimal
  pub slippage_rate : Decimal
  pub paper : PaperSettings
  pub capital_inventory : Option CapitalInventorySettings  -- in `gate`

-- `ProfitGuardPolicy::from(&Config)` and `GridSpec::from(&Config)`.
unfoldable pub policy_of : Config → ProfitGuardPolicy
policy_of c = record {
  price_scale = c.price_scale;
  commission_rate = c.commission_rate;
  minimum_commission = c.minimum_commission;
  sell_tax_rate = c.sell_tax_rate;
  slippage_rate = c.slippage_rate;
}

unfoldable pub spec_of : Config → GridSpec
spec_of c = record {
  anchor = c.anchor_price;
  ratio = c.grid_ratio;
  trade_levels = c.trade_levels;
  boundary_levels = c.boundary_levels;
  price_scale = c.price_scale;
}
