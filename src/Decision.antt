-- ===== src/Decision.antt =====
-- The quantities of a decision: `whole_unit_partition` and `RightDecision` of src/decision.rs.

pub mod Partition
mod Tests
use grid_edge_t.Base.{
  Bool, true, false, not, ◌&&◌, ◌||◌, none, some, if◌then◌else◌, List, [], ◌∷◌, all, ◌==◌, ltb, ℕ,
}
use grid_edge_t.Base.Int.{ℤ, pos, ltb_ℤ, leb_ℤ, eqb_ℤ, max_ℤ, quot, rem}
use grid_edge_t.Base.Machine.{checked_sub, checked_mul}
use grid_edge_t.Base.Results.{Result, ok, fail_if, or_panic, ◌>>=◌, ◌>>◌}
use grid_edge_t.Decimal.{Decimal, zero_decimal, one_decimal, from_i64, DecimalOps}

-- `supported_contract_versions_are_canonical`: some versions, each 3 or 4, in increasing order.
is_increasing : List ℕ → Bool
is_increasing [] = true
is_increasing (a ∷ []) = true
is_increasing (a ∷ b ∷ vs) = ltb a b && is_increasing (b ∷ vs)

abbrev pub is_nonempty : List ℕ → Bool
is_nonempty [] = false
is_nonempty (v ∷ vs) = true

pub supported_contract_versions_are_canonical : List ℕ → Bool
unfolding is_increasing
supported_contract_versions_are_canonical vs =
    is_nonempty vs && all (λ v. v == 3 || v == 4) vs && is_increasing vs

pub data PartitionError : Type 0 where
  bad_quantity_or_unit : PartitionError

pub whole_unit_partition : ℤ → ℤ → Result PartitionError (ℤ × ℤ)
whole_unit_partition quantity standard_quantity = do
  fail_if (ltb_ℤ quantity (pos 0) || leb_ℤ standard_quantity (pos 0)) bad_quantity_or_unit
  let residual = rem quantity standard_quantity
  authorized ← or_panic (checked_sub quantity residual)
  ok (authorized, residual)

pub data RightDecision : Type 0 where
  exercise : ℤ → ℤ → RightDecision  -- exercise_quantity, defer_quantity
  defer : ℤ → RightDecision  -- defer_quantity

pub quantities : RightDecision → ℤ × ℤ
quantities (exercise exercised deferred) = (exercised, deferred)
quantities (defer deferred) = (pos 0, deferred)

module _ ⦃o : DecimalOps⦄ where
  open o use {checked_mul_decimal, floor_to_i64}

  -- `(Decimal::from(units) * alpha).floor().to_string().parse::<i64>().unwrap_or(0)`.
  scaled_units : Decimal → ℤ → Result ⊥ ℤ
  scaled_units alpha units = do
    product ← or_panic (checked_mul_decimal (from_i64 units) alpha)
    ok (elim (floor_to_i64 product) [ none ↦ pos 0 | some n ↦ n ])

  -- The share that `alpha` gives: all of it for one, and whole units below.
  exercise_share : Decimal → ℤ → ℤ → Result ⊥ ℤ
  exercise_share alpha authorized standard_quantity =
      if eqb_ℤ alpha one_decimal then ok authorized else (do
        units ← scaled_units alpha (quot authorized standard_quantity)
        or_panic (checked_mul units standard_quantity))

  -- `RightDecision::from_gate`, at the `alpha` of the gate's decision.
  pub from_gate : Decimal → ℤ → ℤ → Result ⊥ RightDecision
  unfolding exercise_share scaled_units
  from_gate alpha authorized standard_quantity =
      if ltb_ℤ authorized (pos 0)
        || leb_ℤ standard_quantity (pos 0)
        || not (leb_ℤ zero_decimal alpha && leb_ℤ alpha one_decimal)
      then ok (defer (max_ℤ authorized (pos 0)))
      else (do
        exercised ← exercise_share alpha authorized standard_quantity
        deferred ← or_panic (checked_sub authorized exercised)
        ok (if ltb_ℤ (pos 0) exercised then exercise exercised deferred else defer deferred))
