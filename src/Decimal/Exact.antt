-- ===== src/Decimal/Exact.antt =====
-- A value of the parameter `DecimalOps`, which the tests and witnesses use: sums are exact, products
-- and quotients are cut to whole units, a tie is rounded away from zero, and nothing overflows.
pub mod Lawful
use grid_edge_t.Base.{ℕ, suc, ◌+◌, ◌-◌, ◌*◌, ◌/◌, ◌^◌, Option, some, none, if◌then◌else◌, ◌==◌}
use grid_edge_t.Base.Int.{ℤ, pos, negsuc, neg_ℕ, magnitude, ◌+ℤ◌, ◌-ℤ◌}
use grid_edge_t.Base.Machine.{to_i64}
use grid_edge_t.Decimal.{DecimalOps, RoundingStrategy, to_positive_infinity, to_negative_infinity}

-- Division rounding down, by a positive divisor.
floor_div : ℤ → ℕ → ℤ
floor_div (pos n) d = pos (n / d)
floor_div (negsuc n) d = negsuc (n / d)

-- A multiple of `u`, after adding `above` to a number and `below` to the magnitude of a negative one.
round_by : ℕ → ℕ → ℕ → ℤ → ℤ
round_by above below u (pos m) = pos ((m + above) / u * u)
round_by above below u (negsuc m) = neg_ℕ ((suc m + below) / u * u)

round_exact : ℕ → RoundingStrategy → ℤ → ℤ
unfolding round_by
round_exact n to_positive_infinity a = let u = 10 ^ (28 - n) in round_by (u - 1) 0 u a
round_exact n to_negative_infinity a = let u = 10 ^ (28 - n) in round_by 0 (u - 1) u a
round_exact n _ a = let u = 10 ^ (28 - n) in round_by (u / 2) (u / 2) u a

-- Apply an operation on magnitudes, with the sign of a product.
signed : (ℕ → ℕ → ℕ) → ℤ → ℤ → ℤ
signed f (pos a) (pos b) = pos (f a b)
signed f (pos a) (negsuc b) = neg_ℕ (f a (suc b))
signed f (negsuc a) (pos b) = neg_ℕ (f (suc a) b)
signed f (negsuc a) (negsuc b) = pos (f (suc a) (suc b))

mul_exact : ℤ → ℤ → ℤ
unfolding signed
mul_exact = signed (λ a b. a * b / 10_000_000_000_000_000_000_000_000_000)

div_exact : ℤ → ℤ → Option ℤ
unfolding signed
div_exact a b =
    if magnitude b == 0
    then none
    else some (signed (λ a b. a * 10_000_000_000_000_000_000_000_000_000 / b) a b)

instance unfoldable pub exact_ops : DecimalOps
unfolding mul_exact div_exact round_exact floor_div to_i64 ◌+ℤ◌ ◌-ℤ◌
exact_ops = record {
  checked_add_decimal = λ a b. some (a +ℤ b);
  checked_sub_decimal = λ a b. some (a -ℤ b);
  checked_mul_decimal = λ a b. some (mul_exact a b);
  checked_div_decimal = div_exact;
  round_dp_with_strategy = round_exact;
  floor_to_i64 = λ a. to_i64 (floor_div a 10_000_000_000_000_000_000_000_000_000);
}
