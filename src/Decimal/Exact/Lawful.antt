-- ===== src/Decimal/Exact/Lawful.antt =====
-- The operations of `exact_ops` meet the laws that the theorems assume.
use native.Mathlib.Nat.{mod-lt, div-add-mod}
use grid_edge_t.Base.{
  ℕ, zero, suc, ◌+◌, ◌-◌, ◌*◌, ◌/◌, ◌^◌, ◌≤◌, ◌<◌, ◌≡◌, refl, subst, sym, some, arith,
}
use grid_edge_t.Base.Int.{
  ℤ, pos, negsuc, pos_part, neg_part, neg_ℕ, ◌+ℤ◌, ◌-ℤ◌, ◌≤ℤ◌, ◌<ℤ◌, int_laws,
}
use grid_edge_t.Base.Machine.{to_i64-eq}
use grid_edge_t.Decimal.{
  from_i64, one_decimal, RoundingStrategy, midpoint_away_from_zero, midpoint_nearest_even,
  to_positive_infinity, to_negative_infinity,
}
use grid_edge_t.Decimal.Laws.{DecimalLaws}
use grid_edge_t.Decimal.Whole.{from_i64_parts}
use grid_edge_t.Decimal.Exact.{
  floor_div, round_by, round_exact, signed, mul_exact, div_exact, exact_ops,
}

div_mono : (a b u : ℕ) → 0 < u → a ≤ b → a / u ≤ b / u
div_mono a b u h k = grind (arith, div-add-mod a u, mod-lt b h, div-add-mod b u)

div_cut : (a b d : ℕ) → 0 < d → b ≤ d → a * b / d ≤ a
div_cut a b d h k = grind (arith, div-add-mod (a * b) d)

div_kept : (a b d : ℕ) → 0 < d → d ≤ b → a ≤ a * b / d
div_kept a b d h k = grind (arith, div-add-mod (a * b) d, mod-lt (a * b) h)

pow_pos : (n : ℕ) → 0 < 10 ^ n
pow_pos zero = omega arith
pow_pos (suc n) = let p = pow_pos n in grind arith

floor_low :
    (n : ℕ)
    → n / 10_000_000_000_000_000_000_000_000_000 * 10_000_000_000_000_000_000_000_000_000 ≤ n
floor_low n = omega arith

floor_high :
    (n : ℕ)
    → n
      < n / 10_000_000_000_000_000_000_000_000_000 * 10_000_000_000_000_000_000_000_000_000
        + 10_000_000_000_000_000_000_000_000_000
floor_high n = omega arith

parts_neg : (n : ℕ) → (pos_part (neg_ℕ n) ≡ 0) × (neg_part (neg_ℕ n) ≡ n)
parts_neg zero = (refl, refl)
parts_neg (suc n) = (refl, refl)

only : (x c : ℤ) → some x ≡ some c → x ≡ c
only x c h = ground arith

signed_nonneg : (f : ℕ → ℕ → ℕ) (a b : ℤ) → pos 0 ≤ℤ a → pos 0 ≤ℤ b → pos 0 ≤ℤ signed f a b
unfolding signed
signed_nonneg f (pos a) (pos b) h k = omega arith
signed_nonneg f (pos a) (negsuc b) h k = absurd (omega arith)
signed_nonneg f (negsuc a) b h k = absurd (omega arith)

mul_of_negatives : (a b : ℤ) → a ≤ℤ pos 0 → b ≤ℤ pos 0 → pos 0 ≤ℤ mul_exact a b
unfolding mul_exact signed
mul_of_negatives (pos a) (pos b) h k = omega arith
mul_of_negatives (pos zero) (negsuc b) h k =
    let (p, q) = parts_neg (0 * suc b / 10_000_000_000_000_000_000_000_000_000) in grind arith
mul_of_negatives (pos (suc a)) (negsuc b) h k = absurd (omega arith)
mul_of_negatives (negsuc a) (pos zero) h k = grind arith
mul_of_negatives (negsuc a) (pos (suc b)) h k = absurd (omega arith)
mul_of_negatives (negsuc a) (negsuc b) h k = omega arith

mul_of_nonneg : (a b : ℤ) → pos 0 ≤ℤ a → pos 0 ≤ℤ b → pos 0 ≤ℤ mul_exact a b
unfolding mul_exact
mul_of_nonneg = signed_nonneg _

mul_cut : (a b : ℤ) → pos 0 ≤ℤ a → b ≤ℤ one_decimal → mul_exact a b ≤ℤ a
unfolding mul_exact signed
mul_cut (pos a) (pos b) h k =
    let cut = div_cut a b 10_000_000_000_000_000_000_000_000_000 (omega arith) (omega arith) in
    omega arith
mul_cut (pos a) (negsuc b) h k =
    let (p, q) = parts_neg (a * suc b / 10_000_000_000_000_000_000_000_000_000) in omega arith
mul_cut (negsuc a) b h k = absurd (omega arith)

mul_kept : (a b : ℤ) → pos 0 ≤ℤ a → one_decimal ≤ℤ b → a ≤ℤ mul_exact a b
unfolding mul_exact signed
mul_kept (pos a) (pos b) h k =
    let kept = div_kept a b 10_000_000_000_000_000_000_000_000_000 (omega arith) (omega arith) in
    omega arith
mul_kept (pos a) (negsuc b) h k = absurd (omega arith)
mul_kept (negsuc a) b h k = absurd (omega arith)

quotient : ℤ → ℤ → ℤ
quotient = signed (λ a b. a * 10_000_000_000_000_000_000_000_000_000 / b)

div_exact-eq : (a b c : ℤ) → pos 0 <ℤ b → div_exact a b ≡ some c → quotient a b ≡ c
unfolding div_exact quotient
div_exact-eq a b c h k = ground arith

quotient_nonneg : (a b : ℤ) → pos 0 ≤ℤ a → pos 0 ≤ℤ b → pos 0 ≤ℤ quotient a b
unfolding quotient
quotient_nonneg = signed_nonneg _

div_reduces : (a b d : ℕ) → 0 < d → d ≤ b → a * d / b ≤ a
div_reduces a b d h k = grind (arith, div-add-mod (a * d) b)

div_cuts : (a b : ℤ) → pos 0 ≤ℤ a → one_decimal ≤ℤ b → quotient a b ≤ℤ a
unfolding quotient signed
div_cuts (pos a) (pos b) h k =
    let cut = div_reduces a b 10_000_000_000_000_000_000_000_000_000 (omega arith) (omega arith) in
    omega arith
div_cuts (pos a) (negsuc b) h k = absurd (omega arith)
div_cuts (negsuc a) b h k = absurd (omega arith)

floor_is_below : (a : ℤ) → from_i64 (floor_div a 10_000_000_000_000_000_000_000_000_000) ≤ℤ a
unfolding floor_div
floor_is_below (pos n) = omega (arith, from_i64_parts, floor_low)
floor_is_below (negsuc n) = omega (arith, from_i64_parts, floor_high)

floor_is_above :
    (a : ℤ) → a <ℤ from_i64 (floor_div a 10_000_000_000_000_000_000_000_000_000 +ℤ pos 1)
unfolding floor_div
floor_is_above (pos n) = omega (int_laws, from_i64_parts, floor_high)
floor_is_above (negsuc n) = omega (int_laws, from_i64_parts, floor_low)

multiple_mono : (a b u : ℕ) → 0 < u → a ≤ b → a / u * u ≤ b / u * u
multiple_mono a b u h k = let below = div_mono a b u h k in grind arith

round_by-mono : (p q u : ℕ) (a b : ℤ) → 0 < u → a ≤ℤ b → round_by p q u a ≤ℤ round_by p q u b
unfolding round_by
round_by-mono p q u (pos a) (pos b) h k =
    let below = multiple_mono (a + p) (b + p) u h (omega arith) in omega arith
round_by-mono p q u (pos a) (negsuc b) h k = absurd (omega arith)
round_by-mono p q u (negsuc a) (pos b) h k =
    let (x, y) = parts_neg ((suc a + q) / u * u) in omega arith
round_by-mono p q u (negsuc a) (negsuc b) h k =
    let below = multiple_mono (suc b + q) (suc a + q) u h (omega arith) in
    let (x, y) = parts_neg ((suc a + q) / u * u) in
    let (z, w) = parts_neg ((suc b + q) / u * u) in omega arith

round_exact-mono :
    (n : ℕ) (r : RoundingStrategy) (a b : ℤ) → a ≤ℤ b → round_exact n r a ≤ℤ round_exact n r b
unfolding round_exact
round_exact-mono n to_positive_infinity a b h = round_by-mono _ _ _ a b (pow_pos (28 - n)) h
round_exact-mono n to_negative_infinity a b h = round_by-mono _ _ _ a b (pow_pos (28 - n)) h
round_exact-mono n midpoint_away_from_zero a b h = round_by-mono _ _ _ a b (pow_pos (28 - n)) h
round_exact-mono n midpoint_nearest_even a b h = round_by-mono _ _ _ a b (pow_pos (28 - n)) h

pub exact_laws : DecimalLaws exact_ops
unfolding exact_ops
exact_laws = record {
  sub_exact = λ a b c r h. sym (only (a -ℤ b) c h);
  add_mono = λ a b c n h. subst (λ x. a ≤ℤ x) (only (a +ℤ b) c h) (omega int_laws);
  sub_shrinks = λ a b c n h. subst (λ x. x ≤ℤ a) (only (a -ℤ b) c h) (omega int_laws);
  mul_nonneg =
      λ a b c n m h. subst (λ x. pos 0 ≤ℤ x) (only (mul_exact a b) c h) (mul_of_nonneg a b n m);
  mul_negatives =
      λ a b c n m h. subst (λ x. pos 0 ≤ℤ x) (only (mul_exact a b) c h) (mul_of_negatives a b n m);
  mul_shrinks = λ a b c n m h. subst (λ x. x ≤ℤ a) (only (mul_exact a b) c h) (mul_cut a b n m);
  mul_grows = λ a b c n m h. subst (λ x. a ≤ℤ x) (only (mul_exact a b) c h) (mul_kept a b n m);
  div_nonneg = λ a b c n m h.
      subst (λ x. pos 0 ≤ℤ x) (div_exact-eq a b c m h) (quotient_nonneg a b n (omega arith));
  div_shrinks =
      λ a b c n m h. subst (λ x. x ≤ℤ a) (div_exact-eq a b c (omega arith) h) (div_cuts a b n m);
  floor_below = λ a n h.
      rw (to_i64-eq (floor_div a 10_000_000_000_000_000_000_000_000_000) n h) (floor_is_below a);
  floor_above = λ a n h.
      rw (to_i64-eq (floor_div a 10_000_000_000_000_000_000_000_000_000) n h) (floor_is_above a);
  round_mono = round_exact-mono;
}
