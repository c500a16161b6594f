-- ===== src/Decision/Tests.antt =====
-- Runs of the decisions of src/decision.rs.
use grid_edge_t.Base.{◌≡◌, ◌↔◌, ◌⊎◌, refl, arith, ◌*◌}
use grid_edge_t.Base.Int.{ℤ, pos, ◌≤ℤ◌, ◌<ℤ◌, quot, rem}
use grid_edge_t.Base.Results.{ok}
use grid_edge_t.Decimal.Exact.{exact_ops}
use grid_edge_t.Decimal.Exact.Lawful.{exact_laws}
use grid_edge_t.Decision.{exercise, from_gate, whole_unit_partition, quantities}
use grid_edge_t.Decision.Partition.{
  IsPartition, IsDecided, whole_unit_partition_lem, from_gate-IsDecided,
}

rest_is_kept : whole_unit_partition (pos 250) (pos 100) ≡ ok (pos 200, pos 50)
unfolding whole_unit_partition grid_edge_t.Base.Machine.to_i64 grid_edge_t.Base.Int.◌-ℤ◌ rem
rest_is_kept = refl

whole_unit_partition_lem_example :
    (authorized : ℤ) × (residual : ℤ) × (whole_unit_partition (pos 250) (pos 100)
      ≡ ok (authorized, residual))
    × IsPartition (pos 250) (pos 100) authorized residual
whole_unit_partition_lem_example =
    whole_unit_partition_lem (pos 250) (pos 100) (omega arith) (omega arith)
      (omega arith, omega arith)

-- Half of five units of 100 shares: two are exercised and three deferred.
half_of_five :
    from_gate (pos 5_000_000_000_000_000_000_000_000_000) (pos 500) (pos 100)
    ≡ ok (exercise (pos 200) (pos 300))
unfolding from_gate exact_ops grid_edge_t.Base.Int.◌*ℤ◌ grid_edge_t.Decimal.from_i64 quot
half_of_five = refl

no_rest : rem (pos 500) (pos 100) ≡ pos 0
unfolding rem
no_rest = refl

from_gate-IsDecided_example :
    IsDecided
      (pos 500)
      (pos 100)
      (quantities (exercise (pos 200) (pos 300))).0
      (quantities (exercise (pos 200) (pos 300))).1
from_gate-IsDecided_example =
    from_gate-IsDecided exact_laws (pos 5_000_000_000_000_000_000_000_000_000) (pos 500) (pos 100)
      (exercise (pos 200) (pos 300)) (omega arith) (omega arith) (omega arith) (omega arith) no_rest
      half_of_five
