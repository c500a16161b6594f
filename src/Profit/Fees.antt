-- ===== src/Profit/Fees.antt =====
-- `allocate_actual_fill_fees` of src/profit.rs: the exact fee of a fill, assigned to its slices.
mod Tests
use grid_edge_t.Base.{
  ◌≡◌, ◌≤◌, ◌<◌, ◌+◌, ◌*◌, ◌-◌, ◌∙◌, ℕ, Bool, true, false, List, [], ◌∷◌, Option, some, none, arith,
  if◌then◌else◌, Bool-cases, inl, inr, refl, sym, subst, All, map,
}
use grid_edge_t.Base.Int.{
  taken_back, ℤ, pos, ltb_ℤ, eqb_ℤ, min_ℤ, ◌≤ℤ◌, ◌<ℤ◌, ◌+ℤ◌, ◌-ℤ◌, pos_part, neg_part, int_laws,
  eqb_ℤ→eq, ltb_ℤ→ge, +ℤ_assoc,
}
use grid_edge_t.Base.Machine.{sum}
use grid_edge_t.Base.Results.{
  Result, ok, err, panic, Absent, absent, or_panic, fail_if, ◌>>=◌, ◌>>◌, >>=-eq-ok, fail_if-ok,
  or_panic-eq,
}
use grid_edge_t.Decimal.{Decimal, zero_decimal, DecimalOps}
use grid_edge_t.Decimal.Laws.{DecimalLaws}
use grid_edge_t.Domain.{LotQuantityAllocation}

module _ ⦃o : DecimalOps⦄ where
  open o use {checked_sub_decimal}

  -- The loop over the allocations, with the fees that remain; they must be used up at its end.
  assign_fees : Decimal → List LotQuantityAllocation → Result Absent (List Decimal)
  assign_fees remaining [] = if eqb_ℤ remaining zero_decimal then ok [] else err absent
  assign_fees remaining (a ∷ rest) = do
    fail_if (ltb_ℤ a.maximum_sell_fees zero_decimal) absent
    let assigned = min_ℤ remaining a.maximum_sell_fees
    left ← or_panic (checked_sub_decimal remaining assigned)
    others ← assign_fees left rest
    ok (assigned ∷ others)

  unfoldable pub allocate_actual_fill_fees :
      List LotQuantityAllocation → Decimal → Result Absent (List Decimal)
  unfolding assign_fees
  allocate_actual_fill_fees allocations total_fees =
      if ltb_ℤ total_fees zero_decimal then err absent else assign_fees total_fees allocations

-- Whole cents that a decimal can hold: fees are rounded to two places.
abbrev pub IsCents : Decimal → Type 0
IsCents d =
    (cents : ℕ) × (cents < 79_228_162_514_264_337_593_543_950_336)
    × (d ≡ pos (cents * 100_000_000_000_000_000_000_000_000))

-- One fee for each slice, not negative and not above the slice's ceiling.
abbrev pub WithinCeilings : List LotQuantityAllocation → List Decimal → Type 0
WithinCeilings [] [] = Unit
WithinCeilings [] (f ∷ fs) = ⊥
WithinCeilings (a ∷ as') [] = ⊥
WithinCeilings (a ∷ as') (f ∷ fs) =
    ((pos 0 ≤ℤ f) × (f ≤ℤ a.maximum_sell_fees)) × WithinCeilings as' fs

cents_difference :
    (n m : ℕ)
    → pos (n * 100_000_000_000_000_000_000_000_000)
        -ℤ min_ℤ
            (pos (n * 100_000_000_000_000_000_000_000_000))
            (pos (m * 100_000_000_000_000_000_000_000_000))
      ≡ pos ((n - m) * 100_000_000_000_000_000_000_000_000)
unfolding ◌-ℤ◌
cents_difference n m = ground arith

cents_nonneg : (d : Decimal) → IsCents d → pos 0 ≤ℤ d
cents_nonneg d (n, h, e) = rw e (omega arith)

min_bounds : (a b : Decimal) → pos 0 ≤ℤ a → pos 0 ≤ℤ b → (pos 0 ≤ℤ min_ℤ a b) × (min_ℤ a b ≤ℤ b)
min_bounds a b h k = ground arith

module _ ⦃o : DecimalOps⦄ (laws : DecimalLaws o) where
  -- Taking part of some cents from them is exact.
  IsCents-taken :
      (remaining ceiling left : Decimal)
      → IsCents remaining
      → IsCents ceiling
      → o.checked_sub_decimal remaining (min_ℤ remaining ceiling) ≡ some left
      → (left ≡ remaining -ℤ min_ℤ remaining ceiling) × IsCents left
  IsCents-taken remaining ceiling left (n, hn, en) (m, hm, em) h =
      let difference : remaining -ℤ min_ℤ remaining ceiling
          ≡ pos ((n - m) * 100_000_000_000_000_000_000_000_000) =
        rw (en, em) (cents_difference n m) in
      let exact =
        laws.sub_exact remaining (min_ℤ remaining ceiling) left
          (rw difference (2, n - m, omega arith, omega arith, omega arith)) h in
      (exact, (n - m, omega arith, exact ∙ difference))

  no_more :
      (remaining : Decimal) (fees : List Decimal)
      → ◌≡◌ {A = Result Absent (List Decimal)}
          (if eqb_ℤ remaining zero_decimal then ok [] else err absent)
          (ok fees)
      → (sum fees ≡ remaining) × WithinCeilings [] fees
  unfolding sum
  no_more remaining fees h =
      let same : [] ≡ fees = ground arith in
      let empty : pos 0 ≡ remaining = ground arith in
      subst (λ fs. (sum fs ≡ remaining) × WithinCeilings [] fs) same (empty, tt)

  assign_fees_lem :
      (remaining : Decimal) (as' : List LotQuantityAllocation) (fees : List Decimal)
      → IsCents remaining
      → All (λ (a : LotQuantityAllocation). IsCents a.maximum_sell_fees) as'
      → assign_fees remaining as' ≡ ok fees
      → (sum fees ≡ remaining) × WithinCeilings as' fees
  unfolding assign_fees sum
  assign_fees_lem remaining [] fees r c h = no_more remaining fees h
  assign_fees_lem remaining (a ∷ rest) fees r (c, cs) h =
      let (_, _, k) = >>=-eq-ok (fail_if (ltb_ℤ a.maximum_sell_fees zero_decimal) absent) _ h in
      let assigned = min_ℤ remaining a.maximum_sell_fees in
      let (left, took, k1) = >>=-eq-ok (or_panic (o.checked_sub_decimal remaining assigned)) _ k in
      let (others, rest_ok, fin) = >>=-eq-ok (assign_fees left rest) _ k1 in
      let (exact, cents) =
        IsCents-taken remaining a.maximum_sell_fees left r c (or_panic-eq _ left took) in
      let (total, within) = assign_fees_lem left rest others cents cs rest_ok in
      let ceiling_nonneg = cents_nonneg a.maximum_sell_fees c in
      let nonneg = cents_nonneg remaining r in
      let same : assigned ∷ others ≡ fees = ground arith in
      subst (λ fs. (sum fs ≡ remaining) × WithinCeilings (a ∷ rest) fs) same
        (
          rw (total, exact) (taken_back remaining assigned),
          (min_bounds remaining a.maximum_sell_fees nonneg ceiling_nonneg, within),
        )

  -- If fees and ceilings are whole cents, the fees that are assigned to the slices add up to exactly
  -- the fee of the fill, and none is negative or above its slice's ceiling.
  pub allocate_actual_fill_fees-sum :
      (as' : List LotQuantityAllocation) (total : Decimal) (fees : List Decimal)
      → IsCents total
      → All (λ (a : LotQuantityAllocation). IsCents a.maximum_sell_fees) as'
      → allocate_actual_fill_fees as' total ≡ ok fees
      → (sum fees ≡ total) × WithinCeilings as' fees
  unfolding allocate_actual_fill_fees
  allocate_actual_fill_fees-sum as' total fees t c h =
      elim (Bool-cases (ltb_ℤ total zero_decimal)) [
        | inl neg ↦ ground arith
        | inr nonneg ↦ assign_fees_lem total as' fees t c (rw nonneg at h)
      ]
