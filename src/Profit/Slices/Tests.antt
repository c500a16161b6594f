-- ===== src/Profit/Slices/Tests.antt =====
-- A run of `canonical_fill_allocations` of src/profit.rs: 150 of 200 planned shares, after 50.
use grid_edge_t.Base.{◌*◌, ℕ, List, [], ◌∷◌}
use grid_edge_t.Base.Int.{ℤ, pos}
use grid_edge_t.Decimal.{Decimal}
use grid_edge_t.Domain.{LotQuantityAllocation, ProfitGuardPolicy}
use grid_edge_t.Profit.Slices.{fill_slices}

abbrev cents : ℕ → Decimal
cents n = pos (n * 100_000_000_000_000_000_000_000_000)

-- 0.03% commission but at least 5.00, 0.05% tax, 0.1% slippage.
abbrev policy : ProfitGuardPolicy
policy = record {
  price_scale = 2;
  commission_rate = pos 3_000_000_000_000_000_000_000_000;
  minimum_commission = cents 500;
  sell_tax_rate = pos 5_000_000_000_000_000_000_000_000;
  slippage_rate = pos 10_000_000_000_000_000_000_000_000;
}

abbrev slice : ℤ → Decimal → Decimal → Decimal → LotQuantityAllocation
slice quantity cost fees profit = record {
  lot_id = 1 ∷ [];
  tranche_id = 2 ∷ [];
  quantity = quantity;
  cost_basis = cost;
  worst_fill_price = cents 999;
  maximum_sell_fees = fees;
  worst_case_profit = profit;
}

abbrev planned : List LotQuantityAllocation
planned = slice (pos 200) (cents 180_000) (cents 600) (cents 19_200) ∷ []

abbrev filled : List LotQuantityAllocation
filled = slice (pos 150) (cents 135_000) (cents 575) (cents 14_275) ∷ []
