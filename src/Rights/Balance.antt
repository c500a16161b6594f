-- ===== src/Rights/Balance.antt =====
-- The balance events of a right, `RIGHT_BALANCE_RESERVED` to `RIGHT_BALANCE_EXPIRED`, as
-- `StrategyState::apply` handles them in src/event.rs. The payload is a value: its text is parsed
-- elsewhere.
pub mod Conservation
mod Tests
use grid_edge_t.Base.{
  Bool, true, false, not, ◌&&◌, ◌||◌, Option, none, some, List, [], ◌∷◌, ◌==◌, ◌<◌,
}
use grid_edge_t.Base.Int.{ℤ, pos, magnitude, ltb_ℤ, eqb_ℤ}
use grid_edge_t.Base.Ids.{Text, ◌=ᵗ◌}
use grid_edge_t.Base.Maps.{Map, lookup, insert}
use grid_edge_t.Base.Machine.{checked_add, checked_sub, checked_abs_i32}
use grid_edge_t.Base.Results.{Result, ok, err, ok_or, fail_if, ◌>>=◌, ◌>>◌}
use grid_edge_t.Decimal.{Decimal, zero_decimal, DecimalOps}
use grid_edge_t.Rights.Tranche.{
  RightTranche, RightTrancheUnit, budget_unit, quantity_unit, TrancheError, allocation_empty,
  allocated_tranche_missing, invalid_tranche_allocation, reservation_exceeds_availability,
  release_exceeds_reservation, consumption_exceeds_reservation, invalid_tranche_revocation,
  invalid_tranche_expiry, depth_not_representable, missing_reversal, numeric_range, validate,
  is_nonzero, is_negative,
}

-- The five event types; a revocation carries `reversal_from_grid`, if its payload has one that is
-- an `i32`.
pub data BalanceEvent : Type 0 where
  reserved released consumed expired : BalanceEvent
  revoked : Option ℤ → BalanceEvent

pub record TrancheAllocation : Type 0 where
  pub tranche_id : Text
  pub budget : Decimal
  pub quantity : ℤ  -- i64

abbrev pub is_budget_unit : RightTrancheUnit → Bool
is_budget_unit budget_unit = true
is_budget_unit quantity_unit = false

-- The guard that every event shares.
is_invalid_allocation : Text → TrancheAllocation → RightTranche → Bool
is_invalid_allocation right_id a t =
    not (t.owner_right_id =ᵗ right_id)
    || is_negative a.budget
    || is_negative a.quantity
    || (eqb_ℤ a.budget zero_decimal && eqb_ℤ a.quantity (pos 0))
    || (is_budget_unit t.unit && is_nonzero a.quantity)
    || (not (is_budget_unit t.unit) && is_nonzero a.budget)

-- What leaves one account of a tranche and enters another: the four new balances.
record Moved : Type 0 where
  from_budget : Decimal
  to_budget : Decimal
  from_quantity : ℤ
  to_quantity : ℤ

module _ ⦃o : DecimalOps⦄ where
  open o use {checked_add_decimal, checked_sub_decimal}

  moved : Decimal → Decimal → ℤ → ℤ → TrancheAllocation → Result TrancheError Moved
  moved from_b to_b from_q to_q a = do
    b ← ok_or (checked_sub_decimal from_b a.budget) numeric_range
    b' ← ok_or (checked_add_decimal to_b a.budget) numeric_range
    q ← ok_or (checked_sub from_q a.quantity) numeric_range
    q' ← ok_or (checked_add to_q a.quantity) numeric_range
    ok (record { from_budget = b; to_budget = b'; from_quantity = q; to_quantity = q' })

  reserve : TrancheAllocation → RightTranche → Result TrancheError RightTranche
  unfolding moved
  reserve a t = do
    fail_if (ltb_ℤ t.available_budget a.budget || ltb_ℤ t.available_quantity a.quantity)
        reservation_exceeds_availability
    m ← moved t.available_budget t.reserved_budget t.available_quantity t.reserved_quantity a
    ok (record t {
      available_budget = m.from_budget;
      reserved_budget = m.to_budget;
      available_quantity = m.from_quantity;
      reserved_quantity = m.to_quantity;
    })

  release : TrancheAllocation → RightTranche → Result TrancheError RightTranche
  unfolding moved
  release a t = do
    fail_if (ltb_ℤ t.reserved_budget a.budget || ltb_ℤ t.reserved_quantity a.quantity)
        release_exceeds_reservation
    m ← moved t.reserved_budget t.available_budget t.reserved_quantity t.available_quantity a
    ok (record t {
      reserved_budget = m.from_budget;
      available_budget = m.to_budget;
      reserved_quantity = m.from_quantity;
      available_quantity = m.to_quantity;
    })

  consume : TrancheAllocation → RightTranche → Result TrancheError RightTranche
  unfolding moved
  consume a t = do
    fail_if (ltb_ℤ t.reserved_budget a.budget || ltb_ℤ t.reserved_quantity a.quantity)
        consumption_exceeds_reservation
    m ← moved t.reserved_budget t.consumed_budget t.reserved_quantity t.consumed_quantity a
    ok (record t {
      reserved_budget = m.from_budget;
      consumed_budget = m.to_budget;
      reserved_quantity = m.from_quantity;
      consumed_quantity = m.to_quantity;
    })

  revoke : Option ℤ → TrancheAllocation → RightTranche → Result TrancheError RightTranche
  unfolding moved
  revoke reversal_from_grid a t = do
    tranche_depth ← ok_or (checked_abs_i32 t.birth_grid_index) depth_not_representable
    reversal ← ok_or reversal_from_grid missing_reversal
    reversal_depth ← ok_or (checked_abs_i32 reversal) depth_not_representable
    fail_if
        (ltb_ℤ t.available_budget a.budget
          || ltb_ℤ t.available_quantity a.quantity
          || not (eqb_ℤ tranche_depth reversal_depth))
        invalid_tranche_revocation
    m ← moved t.available_budget t.revoked_budget t.available_quantity t.revoked_quantity a
    ok (record t {
      available_budget = m.from_budget;
      revoked_budget = m.to_budget;
      available_quantity = m.from_quantity;
      revoked_quantity = m.to_quantity;
    })

  expire : TrancheAllocation → RightTranche → Result TrancheError RightTranche
  unfolding moved
  expire a t = do
    fail_if
        (ltb_ℤ t.available_budget a.budget
          || ltb_ℤ t.available_quantity a.quantity
          || is_nonzero t.reserved_budget
          || is_nonzero t.reserved_quantity)
        invalid_tranche_expiry
    m ← moved t.available_budget t.expired_budget t.available_quantity t.expired_quantity a
    ok (record t {
      available_budget = m.from_budget;
      expired_budget = m.to_budget;
      available_quantity = m.from_quantity;
      expired_quantity = m.to_quantity;
    })

  -- The `match event.event_type` on one tranche.
  dispatch : BalanceEvent → TrancheAllocation → RightTranche → Result TrancheError RightTranche
  dispatch reserved a t = reserve a t
  dispatch released a t = release a t
  dispatch consumed a t = consume a t
  dispatch expired a t = expire a t
  dispatch (revoked reversal) a t = revoke reversal a t

  -- One allocation: the shared guard, the event's move, and the tranche's own check.
  pub apply_allocation :
      BalanceEvent → Text → TrancheAllocation → RightTranche → Result TrancheError RightTranche
  unfolding is_invalid_allocation dispatch
  apply_allocation event right_id a t = do
    fail_if (is_invalid_allocation right_id a t) invalid_tranche_allocation
    t' ← dispatch event a t
    validate t'
    ok t'

  -- The loop over the allocations; the tranches are changed in place.
  pub apply_allocations :
      BalanceEvent
      → Text
      → List TrancheAllocation
      → Map RightTranche
      → Result TrancheError (Map RightTranche)
  apply_allocations event right_id [] m = ok m
  apply_allocations event right_id (a ∷ rest) m = do
    t ← ok_or (lookup a.tranche_id m) allocated_tranche_missing
    t' ← apply_allocation event right_id a t
    apply_allocations event right_id rest (insert a.tranche_id t' m)

  pub apply_balance_event :
      BalanceEvent
      → Text
      → List TrancheAllocation
      → Map RightTranche
      → Result TrancheError (Map RightTranche)
  apply_balance_event event right_id [] m = err allocation_empty
  apply_balance_event event right_id (a ∷ rest) m = apply_allocations event right_id (a ∷ rest) m
