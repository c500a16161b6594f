-- ===== src/Profit/Fees/Tests.antt =====
-- A run of `allocate_actual_fill_fees` of src/profit.rs.
use grid_edge_t.Base.{◌≡◌, ◌*◌, ℕ, All, List, [], ◌∷◌, refl, arith}
use grid_edge_t.Base.Int.{pos}
use grid_edge_t.Base.Machine.{sum}
use grid_edge_t.Base.Results.{ok}
use grid_edge_t.Decimal.{Decimal}
use grid_edge_t.Decimal.Exact.{exact_ops}
use grid_edge_t.Decimal.Exact.Lawful.{exact_laws}
use grid_edge_t.Domain.{LotQuantityAllocation}
use grid_edge_t.Profit.Fees.{
  IsCents, WithinCeilings, assign_fees, allocate_actual_fill_fees, allocate_actual_fill_fees-sum,
}

abbrev cents : ℕ → Decimal
cents n = pos (n * 100_000_000_000_000_000_000_000_000)

abbrev slice : Decimal → LotQuantityAllocation
slice ceiling = record {
  lot_id = 1 ∷ [];
  tranche_id = [];
  quantity = pos 100;
  cost_basis = cents 90_000;
  worst_fill_price = cents 999;
  maximum_sell_fees = ceiling;
  worst_case_profit = cents 9_350;
}

abbrev slices : List LotQuantityAllocation
slices = slice (cents 550) ∷ slice (cents 550) ∷ []

abbrev fees : List Decimal
fees = cents 550 ∷ cents 150 ∷ []

first_takes_most : allocate_actual_fill_fees slices (cents 700) ≡ ok fees
unfolding allocate_actual_fill_fees assign_fees exact_ops
first_takes_most = refl

ceilings_are-IsCents : All (λ (a : LotQuantityAllocation). IsCents a.maximum_sell_fees) slices
ceilings_are-IsCents = ((550, omega arith, refl), ((550, omega arith, refl), tt))

allocate_actual_fill_fees-sum_example : (sum fees ≡ cents 700) × WithinCeilings slices fees
allocate_actual_fill_fees-sum_example =
    allocate_actual_fill_fees-sum exact_laws slices (cents 700) fees (700, omega arith, refl)
      ceilings_are-IsCents first_takes_most
