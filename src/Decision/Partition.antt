-- ===== src/Decision/Partition.antt =====
-- `whole_unit_partition` and `RightDecision::from_gate` of src/decision.rs.
use grid_edge_t.Base.Division.{
  rem_facts, quot_nonneg, whole_units_bounds, rem_of_multiple, rem_of_rest,
}
use grid_edge_t.Base.{
  ◌≡◌, ◌↔◌, ◌⊎◌, subst, arith, inl, inr, Bool-cases, Option-cases, false, if◌then◌else◌, ◌||◌, ◌&&◌,
  not,
}
use grid_edge_t.Base.Int.{
  ℤ, pos, ◌+ℤ◌, ◌-ℤ◌, ◌*ℤ◌, ◌≤ℤ◌, ◌<ℤ◌, quot, rem, int_laws, ltb_ℤ, leb_ℤ, eqb_ℤ,
}
use grid_edge_t.Base.Machine.{to_i64, to_i64-eq, IsI64, to_i64-some}
use grid_edge_t.Base.Results.{Result, ok, err, or_panic, ◌>>=◌, >>=-eq-ok, or_panic-eq}
use grid_edge_t.Decimal.{Decimal, one_decimal, zero_decimal, from_i64, DecimalOps}
use grid_edge_t.Decimal.Laws.{DecimalLaws}
use grid_edge_t.Decimal.Whole.{from_i64_cancel_le, from_i64_parts, from_i64_nonneg}
use grid_edge_t.Decision.{
  whole_unit_partition, bad_quantity_or_unit, RightDecision, exercise, defer, quantities, from_gate,
  exercise_share, scaled_units,
}

-- What `whole_unit_partition` promises.
pub record IsPartition (quantity unit authorized residual : ℤ) : Type 0 where
  pub total : authorized +ℤ residual ≡ quantity
  pub whole : rem authorized unit ≡ pos 0
  pub residual_nonneg : pos 0 ≤ℤ residual
  pub residual_small : residual <ℤ unit

-- A quantity that is not negative is split, for a positive unit, into whole units and a residual of
-- less than one unit.
pub whole_unit_partition_lem :
    (quantity unit : ℤ)
    → pos 0 ≤ℤ quantity
    → pos 0 <ℤ unit
    → IsI64 quantity
    → (authorized : ℤ) × (residual : ℤ) × (whole_unit_partition quantity unit
        ≡ ok (authorized, residual))
      × IsPartition quantity unit authorized residual
unfolding whole_unit_partition
whole_unit_partition_lem quantity unit q u f =
    let (whole, nonneg, small, below) = rem_facts quantity unit q u in
    let fits : IsI64 (quantity -ℤ rem quantity unit) = omega int_laws in
    (
      quantity -ℤ rem quantity unit,
      rem quantity unit,
      ground (arith, to_i64-some (quantity -ℤ rem quantity unit)),
      record {
        total = omega int_laws;
        whole = whole;
        residual_nonneg = nonneg;
        residual_small = small;
      },
    )

-- The error is for a negative quantity or a unit that is not positive, and for nothing else.
whole_unit_partition_err :
    (quantity unit : ℤ)
    → (whole_unit_partition quantity unit ≡ err bad_quantity_or_unit)
      ↔ ((quantity <ℤ pos 0) ⊎ (unit ≤ℤ pos 0))
unfolding whole_unit_partition
whole_unit_partition_err quantity unit = (λ h. ground arith, λ b. ground arith)

-- What the decision of a gate promises of its two quantities.
pub record IsDecided (authorized unit exercised deferred : ℤ) : Type 0 where
  pub total : exercised +ℤ deferred ≡ authorized
  pub exercised_nonneg : pos 0 ≤ℤ exercised
  pub deferred_nonneg : pos 0 ≤ℤ deferred
  pub exercised_whole : rem exercised unit ≡ pos 0
  pub deferred_whole : rem deferred unit ≡ pos 0

-- The decision is to exercise if there is something to exercise.
chosen :
    (authorized unit e f : ℤ) (d : RightDecision)
    → IsDecided authorized unit e f
    → ◌≡◌ {A = Result ⊥ RightDecision}
        (ok (if ltb_ℤ (pos 0) e then exercise e f else defer f))
        (ok d)
    → IsDecided authorized unit (quantities d).0 (quantities d).1
unfolding quantities
chosen authorized unit e f d parts h = elim (Bool-cases (ltb_ℤ (pos 0) e)) [
  | inl some_units ↦ let same : d ≡ exercise e f = ground arith in rw same parts
  | inr no_units ↦
      let same : d ≡ defer f = ground arith in
      let nonneg = parts.exercised_nonneg in
      let zero_units : e ≡ pos 0 = ground arith in
      rw same (subst (λ x. IsDecided authorized unit x f) zero_units parts)
]

module _ ⦃o : DecimalOps⦄ (laws : DecimalLaws o) where
  scaled_units_bounds :
      (alpha : Decimal) (units n : ℤ)
      → pos 0 ≤ℤ units
      → pos 0 ≤ℤ alpha
      → alpha ≤ℤ one_decimal
      → scaled_units alpha units ≡ ok n
      → (pos 0 ≤ℤ n) × (n ≤ℤ units)
  unfolding scaled_units
  scaled_units_bounds alpha units n u p l h =
      elim (Option-cases (o.checked_mul_decimal (from_i64 units) alpha)) [
        | inl over ↦ ground arith
        | inr (product, e) ↦
            let shrunk =
              laws.mul_shrinks (from_i64 units) alpha product (from_i64_nonneg units u) l e in
            let positive' =
              laws.mul_nonneg (from_i64 units) alpha product (from_i64_nonneg units u) p e in
            elim (Option-cases (o.floor_to_i64 product)) [
              | inl unfit ↦ ground arith
              | inr (m, f) ↦
                  let low = laws.floor_below product m f in
                  let high = laws.floor_above product m f in
                  let le : m ≤ℤ units = from_i64_cancel_le m units (omega arith) in
                  let above : pos 1 ≤ℤ m +ℤ pos 1 = omega (int_laws, from_i64_parts) in
                  let ge : pos 0 ≤ℤ m = omega int_laws in ground arith
            ]
      ]

  -- The share of `alpha` between zero and one lies between nothing and all.
  exercise_share_bounds :
      (alpha : Decimal) (authorized unit e : ℤ)
      → pos 0 ≤ℤ authorized
      → pos 0 <ℤ unit
      → pos 0 ≤ℤ alpha
      → alpha ≤ℤ one_decimal
      → exercise_share alpha authorized unit ≡ ok e
      → (pos 0 ≤ℤ e) × (e ≤ℤ authorized)
  unfolding exercise_share
  exercise_share_bounds alpha authorized unit e a u n l h =
      elim (Bool-cases (eqb_ℤ alpha one_decimal)) [
        | inl full ↦ ground arith
        | inr part ↦
            let units = quot authorized unit in
            let k : (scaled_units alpha units >>= λ m. or_panic (to_i64 (m *ℤ unit))) ≡ ok e =
              rw part at h in
            let (m, scaled, shares) = >>=-eq-ok (scaled_units alpha units) _ k in
            let (nonneg, most) =
              scaled_units_bounds alpha units m (quot_nonneg authorized unit a u) n l scaled in
            let exact = to_i64-eq (m *ℤ unit) e (or_panic-eq _ e shares) in
            rw exact (whole_units_bounds m authorized unit nonneg u a most)
      ]

  exercise_share_whole :
      (alpha : Decimal) (authorized unit e : ℤ)
      → pos 0 ≤ℤ authorized
      → pos 0 <ℤ unit
      → pos 0 ≤ℤ alpha
      → alpha ≤ℤ one_decimal
      → rem authorized unit ≡ pos 0
      → exercise_share alpha authorized unit ≡ ok e
      → rem e unit ≡ pos 0
  unfolding exercise_share
  exercise_share_whole alpha authorized unit e a u n l w h =
      elim (Bool-cases (eqb_ℤ alpha one_decimal)) [
        | inl full ↦ ground arith
        | inr part ↦
            let units = quot authorized unit in
            let k : (scaled_units alpha units >>= λ m. or_panic (to_i64 (m *ℤ unit))) ≡ ok e =
              rw part at h in
            let (m, scaled, shares) = >>=-eq-ok (scaled_units alpha units) _ k in
            let (nonneg, _) =
              scaled_units_bounds alpha units m (quot_nonneg authorized unit a u) n l scaled in
            let exact = to_i64-eq (m *ℤ unit) e (or_panic-eq _ e shares) in
            rw exact (rem_of_multiple m unit nonneg u)
      ]

  -- For an authorized quantity of whole units that is not negative, a positive unit and an `alpha` from
  -- zero to one, a decision exercises and defers whole units, neither of them negative, which add up
  -- to what was authorized.
  pub from_gate-IsDecided :
      (alpha : Decimal) (authorized unit : ℤ) (d : RightDecision)
      → pos 0 ≤ℤ authorized
      → pos 0 <ℤ unit
      → pos 0 ≤ℤ alpha
      → alpha ≤ℤ one_decimal
      → rem authorized unit ≡ pos 0
      → from_gate alpha authorized unit ≡ ok d
      → IsDecided authorized unit (quantities d).0 (quantities d).1
  unfolding from_gate quantities
  from_gate-IsDecided alpha authorized unit d a u n l w h =
      let passed : (ltb_ℤ authorized (pos 0)
            || leb_ℤ unit (pos 0)
            || not (leb_ℤ zero_decimal alpha && leb_ℤ alpha one_decimal))
          ≡ false =
        ground arith in
      let (e, share, k) = >>=-eq-ok (exercise_share alpha authorized unit) _ (rw passed at h) in
      let (nonneg, most) = exercise_share_bounds alpha authorized unit e a u n l share in
      let whole = exercise_share_whole alpha authorized unit e a u n l w share in
      let (f, left, fin) = >>=-eq-ok (or_panic (to_i64 (authorized -ℤ e))) _ k in
      let exact = to_i64-eq (authorized -ℤ e) f (or_panic-eq _ f left) in
      let rest_whole = rem_of_rest authorized e unit a nonneg most u w whole in
      let parts : IsDecided authorized unit e f = rw exact (record {
        total = omega int_laws;
        exercised_nonneg = nonneg;
        deferred_nonneg = omega int_laws;
        exercised_whole = whole;
        deferred_whole = rest_whole;
      }) in
      chosen authorized unit e f d parts fin
