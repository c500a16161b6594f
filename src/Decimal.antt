-- ===== src/Decimal.antt =====
-- `rust_decimal::Decimal`, which the program takes from a crate: a parameter of the model.
-- A decimal is a whole number of units of 10^-28 (its scale is at most 28), so its value is an
-- integer, comparisons and `==` are those of the values, and `normalize` keeps the value. What the
-- operations return is not defined here: they are the fields of `DecimalOps`.
pub mod Laws
pub mod Exact
pub mod Whole
use grid_edge_t.Base.{ℕ, Option}
use grid_edge_t.Base.Int.{ℤ, pos, ◌*ℤ◌}

abbrev pub Decimal : Type 0
Decimal = ℤ

-- `Decimal::ZERO`, `Decimal::ONE` and `Decimal::from(i64)`.
abbrev pub zero_decimal : Decimal
zero_decimal = pos 0

abbrev pub one_decimal : Decimal
one_decimal = pos 10_000_000_000_000_000_000_000_000_000

unfoldable pub from_i64 : ℤ → Decimal
from_i64 q = q *ℤ one_decimal

-- The rounding strategies that the program names; `midpoint_nearest_even` is that of `round_dp`.
pub data RoundingStrategy : Type 0 where
  midpoint_away_from_zero midpoint_nearest_even to_positive_infinity to_negative_infinity :
      RoundingStrategy

-- The operations of the crate. A checked operation returns `none` on overflow.
pub record DecimalOps : Type 0 where
  pub checked_add_decimal : Decimal → Decimal → Option Decimal
  pub checked_sub_decimal : Decimal → Decimal → Option Decimal
  pub checked_mul_decimal : Decimal → Decimal → Option Decimal
  pub checked_div_decimal : Decimal → Decimal → Option Decimal
  pub round_dp_with_strategy : ℕ → RoundingStrategy → Decimal → Decimal
  -- `floor().to_string().parse::<i64>()`: `none` where the whole number does not fit an `i64`.
  pub floor_to_i64 : Decimal → Option ℤ
