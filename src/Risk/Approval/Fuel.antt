-- ===== src/Risk/Approval/Fuel.antt =====
-- The loops of `canonical_approval` of src/risk.rs end: their fuel is enough.
use grid_edge_t.Base.{
  ◌≡◌, ℕ, zero, suc, Bool, true, false, Option, List, some, none, inl, inr, refl, Bool-cases,
}
use grid_edge_t.Base.Int.{ℤ, pos, magnitude, ltb_ℤ, ◌-ℤ◌, ◌≤ℤ◌, ◌<ℤ◌}
use grid_edge_t.Base.Machine.{checked_sub, to_i64-eq}
use grid_edge_t.Base.Results.{Result, ok, err, panic, ok_or, ◌>>=◌, ok_or-eq}
use grid_edge_t.Config.{Config}
use grid_edge_t.Decimal.{Decimal, DecimalOps}
use grid_edge_t.Domain.{sell, LotQuantityAllocation, StrategyState}
use grid_edge_t.Risk.{RiskError, numeric_range, check_buy, estimated_buy_reservation}
use grid_edge_t.Risk.Approval.{
  GridRight, CanonicalApproval, or_smaller, buy_round, sell_round, approve_buy, plan_candidate,
  approve_sell,
}
use grid_edge_t.Risk.Approval.Buys.{one_less, not_positive}
use grid_edge_t.Risk.Approval.Largest.{candidate, whole_within, within_magnitude}

same_after :
    {A B : Type 0} (m : Result RiskError A) (f g : A → Result RiskError B)
    → ((a : A) → m ≡ ok a → f a ≡ g a)
    → (m >>= f) ≡ (m >>= g)
same_after (ok a) f g h = h a refl
same_after (err e) f g h = refl
same_after panic f g h = refl

module _ ⦃o : DecimalOps⦄ (config : Config) (state : StrategyState) (right : GridRight)
    (unit_positive : pos 0 <ℤ config.standard_quantity) where
  -- What a loop does with a smaller quantity.
  next_same :
      {B : Type 0} (f g : ℤ → Result RiskError B) (a : ℤ) (n : ℕ)
      → a ≤ℤ pos (suc n)
      → ((less : ℤ) → less ≤ℤ pos n → f less ≡ g less)
      → (ok_or (checked_sub a config.standard_quantity) numeric_range >>= f)
        ≡ (ok_or (checked_sub a config.standard_quantity) numeric_range >>= g)
  next_same f g a n h k =
      same_after (ok_or (checked_sub a config.standard_quantity) numeric_range) f g (λ less e.
        k less (
          one_less a config.standard_quantity less n h unit_positive
            (to_i64-eq (a -ℤ config.standard_quantity) less (ok_or-eq _ numeric_range less e))))

  buy_round-same :
      (grid_price : Decimal) (f g : ℤ → Result RiskError ℤ) (a : ℤ) (n : ℕ)
      → a ≤ℤ pos (suc n)
      → ((less : ℤ) → less ≤ℤ pos n → f less ≡ g less)
      → buy_round config state grid_price f a ≡ buy_round config state grid_price g a
  unfolding buy_round
  buy_round-same grid_price f g a n h k = elim (Bool-cases (ltb_ℤ (pos 0) a)) [
    | inr done ↦ rw (done, buy_round) refl
    | inl more ↦
        rw (more, buy_round)
          (same_after (estimated_buy_reservation config grid_price a) _ _ (λ r _.
            same_after (or_smaller (check_buy config state a r)) _ _ (λ fits _. at_check fits)))
  ]
    where
      at_check :
          (fits : Bool)
          → ◌≡◌ {A = Result RiskError ℤ}
              (elim fits [
                | true ↦ ok a
                | false ↦ ok_or (checked_sub a config.standard_quantity) numeric_range >>= f
              ])
              (elim fits [
                | true ↦ ok a
                | false ↦ ok_or (checked_sub a config.standard_quantity) numeric_range >>= g
              ])
      at_check true = refl
      at_check false = next_same f g a n h k

  sell_round-same :
      (f g : ℤ → Result RiskError CanonicalApproval) (a : ℤ) (n : ℕ)
      → a ≤ℤ pos (suc n)
      → ((less : ℤ) → less ≤ℤ pos n → f less ≡ g less)
      → sell_round config state right f a ≡ sell_round config state right g a
  unfolding sell_round
  sell_round-same f g a n h k = elim (Bool-cases (ltb_ℤ (pos 0) a)) [
    | inr done ↦ rw (done, sell_round) refl
    | inl more ↦
        rw (more, sell_round)
          (same_after (plan_candidate config state right a) _ _ (λ plan _. at_plan plan))
  ]
    where
      at_plan :
          (plan : Option (List LotQuantityAllocation))
          → ◌≡◌ {A = Result RiskError CanonicalApproval}
              (elim plan [
                | some allocations ↦ ok (record { quantity = a; sell_allocations = allocations })
                | none ↦ ok_or (checked_sub a config.standard_quantity) numeric_range >>= f
              ])
              (elim plan [
                | some allocations ↦ ok (record { quantity = a; sell_allocations = allocations })
                | none ↦ ok_or (checked_sub a config.standard_quantity) numeric_range >>= g
              ])
      at_plan (some allocations) = refl
      at_plan none = next_same f g a n h k

  approve_buy-exhausted :
      (r r' : Result RiskError ℤ) (grid_price : Decimal) (n : ℕ) (a : ℤ)
      → a ≤ℤ pos n
      → approve_buy config state grid_price r (suc n) a
        ≡ approve_buy config state grid_price r' (suc n) a
  unfolding approve_buy buy_round
  approve_buy-exhausted r r' grid_price zero a h = rw (not_positive a h, buy_round) refl
  approve_buy-exhausted r r' grid_price (suc n) a h =
      buy_round-same grid_price (approve_buy config state grid_price r (suc n))
        (approve_buy config state grid_price r' (suc n)) a n h
        (approve_buy-exhausted r r' grid_price n)

  approve_sell-exhausted :
      (r r' : Result RiskError CanonicalApproval) (n : ℕ) (a : ℤ)
      → a ≤ℤ pos n
      → approve_sell config state right r (suc n) a ≡ approve_sell config state right r' (suc n) a
  unfolding approve_sell sell_round
  approve_sell-exhausted r r' zero a h = rw (not_positive a h, sell_round) refl
  approve_sell-exhausted r r' (suc n) a h =
      sell_round-same (approve_sell config state right r (suc n))
        (approve_sell config state right r' (suc n)) a n h (approve_sell-exhausted r r' n)

module _ ⦃o : DecimalOps⦄ (config : Config) (state : StrategyState) (right : GridRight) where
  -- Where the unit is positive, the loops over a positive exercise end before their fuel runs out:
  -- whatever they were to return in that case, a panic or anything else, the results are the same.
  pub approval_loops-end :
      (exercised : ℤ) (bought : Result RiskError ℤ) (sold : Result RiskError CanonicalApproval)
      → pos 0 <ℤ config.standard_quantity
      → pos 0 <ℤ exercised
      → (approve_buy config state right.grid_price panic (suc (magnitude exercised)) exercised
          ≡ approve_buy config state right.grid_price bought (suc (magnitude exercised)) exercised)
        × (approve_sell config state right panic
              (suc (magnitude exercised))
              (candidate config state right sell exercised)
            ≡ approve_sell config state right sold
                (suc (magnitude exercised))
                (candidate config state right sell exercised))
  approval_loops-end exercised bought sold u p = (
    approve_buy-exhausted config state right u panic bought right.grid_price (magnitude exercised)
        exercised (within_magnitude exercised),
    approve_sell-exhausted config state right u panic sold (magnitude exercised)
        (candidate config state right sell exercised)
        (whole_within exercised config.standard_quantity p u),
  )
