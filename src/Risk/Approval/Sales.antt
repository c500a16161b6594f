-- ===== src/Risk/Approval/Sales.antt =====
-- The loop over a sale in `canonical_approval` of src/risk.rs, and the candidates that it refuses.
use grid_edge_t.Base.{
  if◌then◌else◌, ◌≡◌, ◌≢◌, ◌⊎◌, ℕ, zero, suc, Bool, true, false, Option, none, some, List, map, inl,
  inr, refl, sym, ap, subst, ◌∙◌, arith, Bool-cases,
}
use grid_edge_t.Base.Int.{
  ◌-ℤ◌, ℤ, pos, ltb_ℤ, eqb_ℤ, ◌≤ℤ◌, ◌<ℤ◌, ltb_ℤ→lt, ltb_ℤ→ge, eqb_ℤ→eq, eqb_ℤ→ne,
}
use grid_edge_t.Base.Machine.{checked_sub, try_sum}
use grid_edge_t.Base.Results.{Absent}
use grid_edge_t.Base.Results.{Result, ok, err, panic, ok_or, ◌>>=◌}
use grid_edge_t.Config.{Config}
use grid_edge_t.Decimal.{DecimalOps}
use grid_edge_t.Domain.{sell, LotQuantityAllocation, StrategyState}
use grid_edge_t.Profit.Guard.{plan_non_loss_sales}
use grid_edge_t.Risk.{RiskError, numeric_range, check_sell}
use grid_edge_t.Risk.Approval.Ends.{Ends, Ends-then, checked-Ends, check_sell-quiet, succeeds-Ends}
use grid_edge_t.Risk.Approval.{
  GridRight, CanonicalApproval, no_approval, succeeds, planned, eligible_lots, sell_round,
  plan_exactly, plan_candidate, approve_sell,
}
use grid_edge_t.Risk.Approval.Buys.{
  falls, Falls, stays, Approves, CanApprove, ok_inj, weaken, less-Ends, not_positive,
}

some_total : {x y : ℤ} → ◌≡◌ {A = Option ℤ} (some x) (some y) → x ≡ y
some_total e = ground arith

planned-Ends :
    {A : Type 0} (Reason : Type 0) (m : Result Absent A)
    → (planned m ≡ panic → Reason)
    → Ends Reason (λ a. planned m ≡ ok a) (planned m)
unfolding planned
planned-Ends Reason (ok a) k = inr (inr (a, refl, refl))
planned-Ends Reason (err e) k = inr (inl (refl, k refl))
planned-Ends Reason panic k = inr (inl (refl, k refl))

list_inj :
    {xs ys : List LotQuantityAllocation}
    → ◌≡◌ {A = Option (List LotQuantityAllocation)} (some xs) (some ys)
    → xs ≡ ys
list_inj e = ground arith

abbrev quantities : List LotQuantityAllocation → List ℤ
quantities = map (λ (a : LotQuantityAllocation). a.quantity)

module _ ⦃o : DecimalOps⦄ (config : Config) (state : StrategyState) (right : GridRight) where
  -- Where the loop over a sale ends.
  abbrev pub SaleEnd : ℤ → CanonicalApproval → Type 0
  SaleEnd a approval =
      (b : ℤ) × Falls (CanApprove config state right sell) config.standard_quantity a b
      × (((b ≤ℤ pos 0) × (approval ≡ no_approval))
          ⊎ ((pos 0 <ℤ b)
              × (approval.quantity ≡ b)
              × Approves config state right sell b approval.sell_allocations))

  -- The plan of some sale panics.
  pub PlanPanics : Type 0
  PlanPanics =
      (quantity : ℤ) × (planned (
          plan_non_loss_sales config (eligible_lots state.lots right.eligible_lot_ids) quantity
            right.grid_price)
        ≡ panic)

  abbrev Candidate : ℤ → Option (List LotQuantityAllocation) → Type 0
  Candidate a plan =
      ((allocations : List LotQuantityAllocation) × (plan ≡ some allocations)
        × Approves config state right sell a allocations)
      ⊎ ((plan ≡ none) × (CanApprove config state right sell a → ⊥))

  falls_sale :
      (a less : ℤ) (approval : CanonicalApproval)
      → (CanApprove config state right sell a → ⊥)
      → less ≡ a -ℤ config.standard_quantity
      → SaleEnd less approval
      → SaleEnd a approval
  falls_sale a less approval refused e (b, path, end) = (
    b,
    falls a b refused (
        subst (λ x. Falls (CanApprove config state right sell) config.standard_quantity x b) e
          path),
    end,
  )

  -- What the plan of a candidate gives, where its sale is allowed.
  whole_plan :
      (a total : ℤ) (allocations : List LotQuantityAllocation)
      → check_sell config state a ≡ ok tt
      → planned (
          plan_non_loss_sales config
            (eligible_lots state.lots right.eligible_lot_ids)
            a
            right.grid_price)
        ≡ ok allocations
      → try_sum (quantities allocations) ≡ some total
      → Candidate a (if eqb_ℤ total a then some allocations else none)
  whole_plan a total allocations s p sums = elim (Bool-cases (eqb_ℤ total a)) [
    | inl same ↦
        let is_total : total ≡ a = eqb_ℤ→eq total a same in
        rw same (inl (allocations, refl, (s, p, sums ∙ ap some is_total)))
    | inr other ↦ rw other (
        inr (
          refl,
          λ (others, (_, q, r)).
              let is_plan : others ≡ allocations = ok_inj q p in
              eqb_ℤ→ne total a other
                (some_total (sym sums ∙ ap (λ xs. try_sum (quantities xs)) (sym is_plan) ∙ r)),
        ))
  ]

  plan_exactly-Ends :
      (a : ℤ)
      → check_sell config state a ≡ ok tt
      → Ends PlanPanics (Candidate a) (plan_exactly config state right a)
  unfolding plan_exactly PlanPanics
  plan_exactly-Ends a s =
      let plan =
        plan_non_loss_sales config (eligible_lots state.lots right.eligible_lot_ids) a
          right.grid_price in
      Ends-then PlanPanics (Candidate a) (planned plan) _ (
        weaken config state right PlanPanics (λ allocations. planned plan ≡ ok allocations) _
          (planned plan)
          (λ allocations p.
            Ends-then PlanPanics (Candidate a)
              (ok_or (try_sum (quantities allocations)) numeric_range) _
              (checked-Ends PlanPanics _ (try_sum (quantities allocations))
                (λ total sums. inr (inr (_, refl, whole_plan a total allocations s p sums)))))
          (planned-Ends PlanPanics plan (λ panics. (a, panics))))

  plan_candidate-Ends :
      (a : ℤ) → Ends PlanPanics (Candidate a) (plan_candidate config state right a)
  unfolding plan_candidate
  plan_candidate-Ends a =
      Ends-then PlanPanics (Candidate a) (succeeds (check_sell config state a)) _ (
        weaken config state right PlanPanics _ _ (succeeds (check_sell config state a)) at_check
          (succeeds-Ends PlanPanics (check_sell config state a) (check_sell-quiet config state a)))
    where
      at_check :
          (b : Bool)
          → ((b ≡ true) × (check_sell config state a ≡ ok tt))
            ⊎ ((b ≡ false) × (check_sell config state a ≢ ok tt))
          → Ends PlanPanics
              (Candidate a)
              (elim b [ false ↦ ok none | true ↦ plan_exactly config state right a ])
      at_check true (inl (_, allowed)) = plan_exactly-Ends a allowed
      at_check true (inr (e, _)) = cc
      at_check false (inl (e, _)) = cc
      at_check false (inr (_, refused)) =
          inr (inr (none, refl, inr (refl, λ (_, (allowed, _, _)). refused allowed)))

  -- A round of the loop over a sale, after its plan.
  at_plan :
      (others : ℤ → Result RiskError CanonicalApproval) (a : ℤ) (n : ℕ)
      (plan : Option (List LotQuantityAllocation))
      → pos 0 <ℤ config.standard_quantity
      → pos 0 <ℤ a
      → a ≤ℤ pos (suc n)
      → ((less : ℤ) → less ≤ℤ pos n → Ends PlanPanics (SaleEnd less) (others less))
      → Candidate a plan
      → Ends PlanPanics (SaleEnd a) (elim plan [
        | some allocations ↦ ok (record { quantity = a; sell_allocations = allocations })
        | none ↦ ok_or (checked_sub a config.standard_quantity) numeric_range >>= others
      ])
  at_plan others a n (some allocations) u p h k (inl (found, e, approves)) = inr (
      inr (
        record { quantity = a; sell_allocations = allocations },
        refl,
        (
          a,
          stays a,
          inr (p, refl, subst (Approves config state right sell a) (sym (list_inj e)) approves),
        ),
      ))
  at_plan others a n (some allocations) u p h k (inr (e, _)) = cc
  at_plan others a n none u p h k (inl (found, e, approves)) = cc
  at_plan others a n none u p h k (inr (_, refused)) =
      less-Ends config state right PlanPanics (SaleEnd a) others a n u h (λ less e small.
        weaken config state right PlanPanics (SaleEnd less) (SaleEnd a) (others less)
          (λ approval. falls_sale a less approval refused e) (k less small))

  sell_round-Ends :
      (others : ℤ → Result RiskError CanonicalApproval) (a : ℤ) (n : ℕ)
      → pos 0 <ℤ config.standard_quantity
      → a ≤ℤ pos (suc n)
      → ((less : ℤ) → less ≤ℤ pos n → Ends PlanPanics (SaleEnd less) (others less))
      → Ends PlanPanics (SaleEnd a) (sell_round config state right others a)
  unfolding sell_round
  sell_round-Ends others a n u h k = elim (Bool-cases (ltb_ℤ (pos 0) a)) [
    | inr done ↦
        rw (done, sell_round)
          (inr (inr (no_approval, refl, (a, stays a, inl (ltb_ℤ→ge (pos 0) a done, refl)))))
    | inl more ↦
        rw (more, sell_round)
          (Ends-then PlanPanics (SaleEnd a) (plan_candidate config state right a) _ (
            weaken config state right PlanPanics (Candidate a) _
              (plan_candidate config state right a)
              (λ plan. at_plan others a n plan u (ltb_ℤ→lt (pos 0) a more) h k)
              (plan_candidate-Ends a)))
  ]

  -- The loop over a sale, on enough fuel.
  pub approve_sell-Ends :
      (exhausted : Result RiskError CanonicalApproval) (n : ℕ) (a : ℤ)
      → pos 0 <ℤ config.standard_quantity
      → a ≤ℤ pos n
      → Ends PlanPanics (SaleEnd a) (approve_sell config state right exhausted (suc n) a)
  unfolding approve_sell sell_round
  approve_sell-Ends exhausted zero a u h =
      rw (not_positive a h, sell_round) (inr (inr (no_approval, refl, (a, stays a, inl (h, refl)))))
  approve_sell-Ends exhausted (suc n) a u h =
      sell_round-Ends (approve_sell config state right exhausted (suc n)) a n u h
        (λ less. approve_sell-Ends exhausted n less u)
