-- ===== src/Risk/Approval.antt =====
-- `canonical_approval` of src/risk.rs: how much of what an algorithm exercises the platform approves.
-- The loops that try one unit less run on fuel, and would panic where that runs out.

pub mod Ends
mod Buys
pub mod Sales
pub mod Largest
pub mod Fuel
use grid_edge_t.Base.{
  ℕ, zero, suc, Bool, true, false, ◌||◌, Option, none, some, List, [], ◌∷◌, map, if◌then◌else◌,
}
use grid_edge_t.Base.Ids.{Text}
use grid_edge_t.Base.Int.{ℤ, pos, magnitude, ltb_ℤ, leb_ℤ, eqb_ℤ, max_ℤ, quot, ◌*ℤ◌}
use grid_edge_t.Base.Machine.{checked_sub, try_sum}
use grid_edge_t.Base.Maps.{Map, lookup}
use grid_edge_t.Base.Results.{Result, ok, err, panic, Absent, ok_or, ◌>>=◌}
use grid_edge_t.Config.{Config}
use grid_edge_t.Decimal.{Decimal, DecimalOps}
use grid_edge_t.Domain.{Direction, buy, sell, LotQuantityAllocation, StrategyState, TradingLot}
use grid_edge_t.Profit.Guard.{plan_non_loss_sales}
use grid_edge_t.Risk.{RiskError, numeric_range, check_buy, check_sell, estimated_buy_reservation}

-- What the approval reads of a `GridRight`; the lots are those of its capacity.
pub record GridRight : Type 0 where
  pub direction : Direction
  pub grid_price : Decimal
  pub eligible_lot_ids : List Text

pub record CanonicalApproval : Type 0 where
  pub quantity : ℤ
  pub sell_allocations : List LotQuantityAllocation

abbrev pub no_approval : CanonicalApproval
no_approval = record { quantity = pos 0; sell_allocations = [] }

-- What the loop over a buy does with a check: it ends, goes on with less, or returns the error.
pub or_smaller : Result RiskError (Unit {0}) → Result RiskError Bool
or_smaller (ok _) = ok true
or_smaller (err numeric_range) = err numeric_range
or_smaller (err _) = ok false
or_smaller panic = panic

-- `is_ok()`.
pub succeeds : Result RiskError (Unit {0}) → Result RiskError Bool
succeeds (ok _) = ok true
succeeds (err _) = ok false
succeeds panic = panic

-- A plan is returned or panics; it is never absent.
pub planned : {A : Type 0} → Result Absent A → Result RiskError A
planned (ok value) = ok value
planned (err _) = panic
planned panic = panic

-- `filter_map(|lot_id| lots.get(lot_id))`.
pub eligible_lots : Map TradingLot → List Text → List TradingLot
eligible_lots lots [] = []
eligible_lots lots (id ∷ ids) =
    let rest = eligible_lots lots ids in
    elim (lookup id lots) [ none ↦ rest | some lot ↦ lot ∷ rest ]

module _ ⦃o : DecimalOps⦄ where
  -- One round of the loop over a buy, and what comes after it for a smaller quantity.
  pub buy_round :
      Config → StrategyState → Decimal → (ℤ → Result RiskError ℤ) → ℤ → Result RiskError ℤ
  unfolding or_smaller
  buy_round config state grid_price others approved = elim (ltb_ℤ (pos 0) approved) [
    | false ↦ ok approved
    | true ↦ (do
      reservation ← estimated_buy_reservation config grid_price approved
      fits ← or_smaller (check_buy config state approved reservation)
      elim fits [
        | true ↦ ok approved
        | false ↦ ok_or (checked_sub approved config.standard_quantity) numeric_range >>= λ less.
            others less
      ])
  ]

  -- The loop over a buy, with the result where the fuel runs out.
  pub approve_buy :
      Config → StrategyState → Decimal → Result RiskError ℤ → ℕ → ℤ → Result RiskError ℤ
  unfolding buy_round
  approve_buy config state grid_price exhausted zero approved = exhausted
  approve_buy config state grid_price exhausted (suc fuel) approved =
      buy_round config state grid_price (approve_buy config state grid_price exhausted fuel)
        approved

  -- The allocations of a plan, if it sells exactly the candidate.
  pub plan_exactly :
      Config
      → StrategyState
      → GridRight
      → ℤ
      → Result RiskError (Option (List LotQuantityAllocation))
  unfolding planned eligible_lots
  plan_exactly config state right candidate = do
    allocations ← planned (
        plan_non_loss_sales config (eligible_lots state.lots right.eligible_lot_ids) candidate
          right.grid_price)
    total ←
        ok_or (try_sum (map (λ (a : LotQuantityAllocation). a.quantity) allocations)) numeric_range
    ok (if eqb_ℤ total candidate then some allocations else none)

  pub plan_candidate :
      Config
      → StrategyState
      → GridRight
      → ℤ
      → Result RiskError (Option (List LotQuantityAllocation))
  unfolding succeeds plan_exactly
  plan_candidate config state right candidate =
      succeeds (check_sell config state candidate) >>= λ sellable. elim sellable [
        | false ↦ ok none
        | true ↦ plan_exactly config state right candidate
      ]

  pub sell_round :
      Config
      → StrategyState
      → GridRight
      → (ℤ → Result RiskError CanonicalApproval)
      → ℤ
      → Result RiskError CanonicalApproval
  unfolding plan_candidate
  sell_round config state right others candidate = elim (ltb_ℤ (pos 0) candidate) [
    | false ↦ ok no_approval
    | true ↦ (do
      plan ← plan_candidate config state right candidate
      elim plan [
        | some allocations ↦ ok (record { quantity = candidate; sell_allocations = allocations })
        | none ↦ ok_or (checked_sub candidate config.standard_quantity) numeric_range >>= λ less.
            others less
      ])
  ]

  -- The loop over a sale, with the result where the fuel runs out.
  pub approve_sell :
      Config
      → StrategyState
      → GridRight
      → Result RiskError CanonicalApproval
      → ℕ
      → ℤ
      → Result RiskError CanonicalApproval
  unfolding sell_round
  approve_sell config state right exhausted zero candidate = exhausted
  approve_sell config state right exhausted (suc fuel) candidate =
      sell_round config state right (approve_sell config state right exhausted fuel) candidate

  pub approve_direction :
      Config → StrategyState → GridRight → Direction → ℤ → Result RiskError CanonicalApproval
  unfolding approve_buy approve_sell quot
  approve_direction config state right buy exercise_quantity = do
    approved ←
        approve_buy config state right.grid_price panic (suc (magnitude exercise_quantity))
          exercise_quantity
    ok (record { quantity = max_ℤ approved (pos 0); sell_allocations = [] })
  approve_direction config state right sell exercise_quantity =
      approve_sell config state right panic (suc (magnitude exercise_quantity))
        (quot exercise_quantity config.standard_quantity *ℤ config.standard_quantity)

  unfoldable pub canonical_approval :
      Config → StrategyState → GridRight → ℤ → Result RiskError CanonicalApproval
  unfolding approve_direction
  canonical_approval config state right exercise_quantity =
      if leb_ℤ exercise_quantity (pos 0) || leb_ℤ config.standard_quantity (pos 0)
      then ok no_approval
      else approve_direction config state right right.direction exercise_quantity
