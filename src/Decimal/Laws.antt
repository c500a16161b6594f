-- ===== src/Decimal/Laws.antt =====
-- What the program relies on of the decimal operations. The crate computes the exact result and
-- rounds it to a value that it can represent; rounding keeps the order.
use grid_edge_t.Base.{ℕ, ◌+◌, ◌-◌, ◌*◌, ◌^◌, ◌<◌, ◌≤◌, ◌≡◌, some}
use grid_edge_t.Base.Int.{ℤ, pos, pos_part, neg_part, ◌+ℤ◌, ◌-ℤ◌, ◌≤ℤ◌, ◌<ℤ◌}
use grid_edge_t.Decimal.{Decimal, one_decimal, from_i64, DecimalOps, RoundingStrategy}

-- Values that a 96-bit mantissa holds at one of the scales 0 to 28.
abbrev pub IsRepresentable : Decimal → Type 0
IsRepresentable d =
    (scale : ℕ) × (mantissa : ℕ) × (scale ≤ 28)
    × (mantissa < 79_228_162_514_264_337_593_543_950_336)
    × (pos_part d + neg_part d ≡ mantissa * 10 ^ (28 - scale))

pub record DecimalLaws (o : DecimalOps) : Type 0 where
  -- A difference that can be represented is returned exactly.
  pub sub_exact :
      (a b c : Decimal) → IsRepresentable (a -ℤ b) → o.checked_sub_decimal a b ≡ some c → c ≡ a -ℤ b
  -- Adding what is not negative does not decrease, subtracting it does not increase.
  pub add_mono : (a b c : Decimal) → pos 0 ≤ℤ b → o.checked_add_decimal a b ≡ some c → a ≤ℤ c
  pub sub_shrinks : (a b c : Decimal) → pos 0 ≤ℤ b → o.checked_sub_decimal a b ≡ some c → c ≤ℤ a
  -- The sign of a product, and what a factor of at most or of at least one does.
  pub mul_nonneg :
      (a b c : Decimal) → pos 0 ≤ℤ a → pos 0 ≤ℤ b → o.checked_mul_decimal a b ≡ some c → pos 0 ≤ℤ c
  pub mul_negatives :
      (a b c : Decimal) → a ≤ℤ pos 0 → b ≤ℤ pos 0 → o.checked_mul_decimal a b ≡ some c → pos 0 ≤ℤ c
  pub mul_shrinks :
      (a b c : Decimal)
      → pos 0 ≤ℤ a
      → b ≤ℤ one_decimal
      → o.checked_mul_decimal a b ≡ some c
      → c ≤ℤ a
  pub mul_grows :
      (a b c : Decimal)
      → pos 0 ≤ℤ a
      → one_decimal ≤ℤ b
      → o.checked_mul_decimal a b ≡ some c
      → a ≤ℤ c
  -- A quotient of what is not negative; a divisor of at least one does not enlarge.
  pub div_nonneg :
      (a b c : Decimal) → pos 0 ≤ℤ a → pos 0 <ℤ b → o.checked_div_decimal a b ≡ some c → pos 0 ≤ℤ c
  pub div_shrinks :
      (a b c : Decimal)
      → pos 0 ≤ℤ a
      → one_decimal ≤ℤ b
      → o.checked_div_decimal a b ≡ some c
      → c ≤ℤ a
  -- The floor is the greatest whole number that is not above the value.
  pub floor_below : (a : Decimal) (n : ℤ) → o.floor_to_i64 a ≡ some n → from_i64 n ≤ℤ a
  pub floor_above : (a : Decimal) (n : ℤ) → o.floor_to_i64 a ≡ some n → a <ℤ from_i64 (n +ℤ pos 1)
  -- Rounding keeps the order.
  pub round_mono :
      (n : ℕ) (r : RoundingStrategy) (a b : Decimal)
      → a ≤ℤ b
      → o.round_dp_with_strategy n r a ≤ℤ o.round_dp_with_strategy n r b
