-- ===== src/Grid/BoardLot.antt =====
-- `board_lot_quantity` of src/grid.rs.
use grid_edge_t.Base.{◌≡◌, ◌||◌, false, some, arith}
use grid_edge_t.Base.Int.{ℤ, pos, leb_ℤ, ◌≤ℤ◌, ◌<ℤ◌, ◌+ℤ◌, ◌*ℤ◌, int_laws, quot, rem, ≤ℤ_trans}
use grid_edge_t.Base.Division.{quot_nonneg, whole_units_bounds, rem_of_multiple, quot_upper}
use grid_edge_t.Base.Machine.{to_i64-eq}
use grid_edge_t.Base.Results.{ok, ok_or, >>=-eq-ok, ok_or-eq}
use grid_edge_t.Decimal.{Decimal, DecimalOps, zero_decimal, from_i64}
use grid_edge_t.Decimal.Laws.{DecimalLaws}
use grid_edge_t.Decimal.Whole.{from_i64_parts, from_i64_mono}
use grid_edge_t.Grid.{board_lot_quantity, quantity_division_overflow, quantity_overflow}

-- A number of whole lots, not more than the value, of which one lot more would be too much.
abbrev pub IsMostLots : Decimal → ℤ → ℤ → Type 0
IsMostLots shares lot q =
    (rem q lot ≡ pos 0) × (pos 0 ≤ℤ q) × (from_i64 q ≤ℤ shares) × (shares <ℤ from_i64 (q +ℤ lot))

whole_lots :
    (shares : Decimal) (raw lot q : ℤ)
    → pos 0 ≤ℤ shares
    → pos 0 <ℤ lot
    → from_i64 raw ≤ℤ shares
    → shares <ℤ from_i64 (raw +ℤ pos 1)
    → q ≡ quot raw lot *ℤ lot
    → IsMostLots shares lot q
whole_lots shares raw lot q n l low high exact =
    let raw_nonneg : pos 0 ≤ℤ raw = omega (int_laws, from_i64_parts) in
    let units = quot_nonneg raw lot raw_nonneg l in
    let most : quot raw lot ≤ℤ quot raw lot = omega arith in
    let (q_nonneg, q_most) = whole_units_bounds (quot raw lot) raw lot units l raw_nonneg most in
    let upper = quot_upper raw lot raw_nonneg l in
    let below = from_i64_mono (quot raw lot *ℤ lot) raw q_most in
    rw exact (
      rem_of_multiple (quot raw lot) lot units l,
      q_nonneg,
      ≤ℤ_trans (from_i64 (quot raw lot *ℤ lot)) (from_i64 raw) shares below low,
      omega (int_laws, from_i64_parts),
    )

module _ ⦃o : DecimalOps⦄ (laws : DecimalLaws o) where
  -- For a positive budget, price and lot size, the quantity is a number of whole lots, it is not
  -- more than the quotient of budget and price, and one lot more would be.
  pub board_lot_quantity_lem :
      (budget price : Decimal) (lot q : ℤ)
      → pos 0 <ℤ budget
      → pos 0 <ℤ price
      → pos 0 <ℤ lot
      → board_lot_quantity budget price lot ≡ ok q
      → (shares : Decimal) × (o.checked_div_decimal budget price ≡ some shares)
        × IsMostLots shares lot q
  unfolding board_lot_quantity
  board_lot_quantity_lem budget price lot q b p l h =
      let open_ : (leb_ℤ budget zero_decimal || leb_ℤ price zero_decimal || leb_ℤ lot (pos 0))
          ≡ false =
        ground arith in
      let (shares, quotient, k1) =
        >>=-eq-ok (ok_or (o.checked_div_decimal budget price) quantity_division_overflow) _
          (rw open_ at h) in
      let (raw, floor, k2) = >>=-eq-ok (ok_or (o.floor_to_i64 shares) quantity_overflow) _ k1 in
      let div = ok_or-eq _ _ shares quotient in
      let nonneg = laws.div_nonneg budget price shares (omega arith) p div in
      let low = laws.floor_below shares raw (ok_or-eq _ _ raw floor) in
      let high = laws.floor_above shares raw (ok_or-eq _ _ raw floor) in
      let exact = to_i64-eq (quot raw lot *ℤ lot) q (ok_or-eq _ _ q k2) in
      (shares, div, whole_lots shares raw lot q nonneg l low high exact)
