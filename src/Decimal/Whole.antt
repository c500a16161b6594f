-- ===== src/Decimal/Whole.antt =====
-- Whole numbers as decimals.
use grid_edge_t.Base.{◌≡◌, arith, ◌+◌, ◌*◌}
use grid_edge_t.Base.Int.{ℤ, pos, pos_part, neg_part, ◌*ℤ◌, ◌≤ℤ◌}
use grid_edge_t.Decimal.{from_i64}

pub from_i64_parts :
    (q : ℤ)
    → pos_part (from_i64 q) + 10_000_000_000_000_000_000_000_000_000 * neg_part q
      ≡ neg_part (from_i64 q) + 10_000_000_000_000_000_000_000_000_000 * pos_part q
unfolding from_i64 ◌*ℤ◌
from_i64_parts q = ground arith

pub from_i64_cancel_le : (a b : ℤ) → from_i64 a ≤ℤ from_i64 b → a ≤ℤ b
from_i64_cancel_le a b h = omega (arith, from_i64_parts)

pub from_i64_nonneg : (a : ℤ) → pos 0 ≤ℤ a → pos 0 ≤ℤ from_i64 a
from_i64_nonneg a h = omega (arith, from_i64_parts)

pub from_i64_mono : (a b : ℤ) → a ≤ℤ b → from_i64 a ≤ℤ from_i64 b
from_i64_mono a b h = omega (arith, from_i64_parts)
