-- ===== src/Rights/Balance/Tests.antt =====
-- Runs of the balance events of src/event.rs.
use mathlib.Core.Option.{some-injective}
use grid_edge_t.Base.{
  ◌≡◌, refl, subst, List, [], ◌∷◌, inl, inr, Bool-cases, arith, Option, some, none,
}
use grid_edge_t.Base.Int.{ℤ, pos}
use grid_edge_t.Base.Ids.{◌=ᵗ◌, compare_text, is_blank}
use grid_edge_t.Base.Maps.{Map, lookup, insert}
use grid_edge_t.Base.Machine.{to_i64, try_sum_from}
use grid_edge_t.Base.Results.{ok}
use grid_edge_t.Decimal.Exact.{exact_ops}
use grid_edge_t.Rights.Tests.{tranche}
use grid_edge_t.Rights.Tranche.{RightTranche, validate}
use grid_edge_t.Rights.Balance.{
  consumed, TrancheAllocation, apply_balance_event, apply_allocations, apply_allocation, dispatch,
  consume, moved, is_invalid_allocation,
}
use grid_edge_t.Rights.Balance.Conservation.{
  AreNonneg, AllNonneg, IsKept, apply_balance_event-IsKept,
}

abbrev held : ℤ → ℤ → ℤ → Map RightTranche
held a r c = (7 ∷ [], tranche a r c) ∷ []

held_nonneg : AllNonneg (held (pos 100) (pos 200) (pos 0))
unfolding lookup
held_nonneg k t h = elim (Bool-cases (k =ᵗ (7 ∷ []))) [
  | inl it ↦ subst AreNonneg (some-injective _ _ (rw it at h)) (record {
    available_nonneg = omega arith;
    reserved_nonneg = omega arith;
    consumed_nonneg = omega arith;
    revoked_nonneg = omega arith;
    expired_nonneg = omega arith;
  })
  | inr other ↦ absurd (nothing_found t (rw other at h))
]
  where
    nothing_found : (t : RightTranche) → ◌≡◌ {A = Option RightTranche} none (some t) → ⊥
    nothing_found t h = cc

abbrev fifty : List TrancheAllocation
fifty = record { tranche_id = 7 ∷ []; budget = pos 0; quantity = pos 50 } ∷ []

consumed_in_part :
    apply_balance_event consumed (3 ∷ []) fifty (held (pos 100) (pos 200) (pos 0))
    ≡ ok (held (pos 100) (pos 150) (pos 50))
unfolding apply_balance_event apply_allocations apply_allocation dispatch consume moved
    is_invalid_allocation lookup insert exact_ops compare_text to_i64 validate is_blank try_sum_from
consumed_in_part = refl

tranche_is_held :
    lookup (7 ∷ []) (held (pos 100) (pos 200) (pos 0)) ≡ some (tranche (pos 100) (pos 200) (pos 0))
unfolding lookup compare_text
tranche_is_held = refl

apply_balance_event-IsKept_example :
    (t' : RightTranche) × (lookup (7 ∷ []) (held (pos 100) (pos 150) (pos 50)) ≡ some t')
    × IsKept (tranche (pos 100) (pos 200) (pos 0)) t'
    × AreNonneg t'
apply_balance_event-IsKept_example =
    apply_balance_event-IsKept consumed (3 ∷ []) fifty (held (pos 100) (pos 200) (pos 0))
      (held (pos 100) (pos 150) (pos 50)) held_nonneg consumed_in_part (7 ∷ [])
      (tranche (pos 100) (pos 200) (pos 0)) tranche_is_held
