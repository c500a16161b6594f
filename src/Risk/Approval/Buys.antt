-- ===== src/Risk/Approval/Buys.antt =====
-- The loop over a buy in `canonical_approval` of src/risk.rs, and the candidates that it refuses.
use grid_edge_t.Base.{
  ◌≡◌, ◌≢◌, ◌⊎◌, ℕ, zero, suc, Bool, true, false, some, List, [], map, inl, inr, refl, sym, ap,
  subst, ◌∙◌, arith, Bool-cases,
}
use grid_edge_t.Base.Int.{ℤ, pos, ltb_ℤ, ◌-ℤ◌, ◌≤ℤ◌, ◌<ℤ◌, int_laws, ltb_ℤ→lt, ltb_ℤ→ge}
use grid_edge_t.Base.Machine.{IsI64, checked_sub, to_i64-eq, try_sum}
use grid_edge_t.Base.Results.{Result, ok, ok_or, ◌>>=◌, returned}
use grid_edge_t.Config.{Config, policy_of}
use grid_edge_t.Decimal.{Decimal, DecimalOps}
use grid_edge_t.Domain.{Direction, buy, sell, LotQuantityAllocation, StrategyState}
use grid_edge_t.Profit.Guard.{plan_non_loss_sales}
use grid_edge_t.Risk.{RiskError, numeric_range, check_buy, check_sell, estimated_buy_reservation}
use grid_edge_t.Profit.{checked_buy_cash_reservation_with_policy}
use grid_edge_t.Risk.Approval.Ends.{Ends, Ends-then, checked-Ends, check_buy-quiet, or_smaller-Ends}
use grid_edge_t.Risk.Approval.{
  GridRight, or_smaller, planned, eligible_lots, buy_round, approve_buy,
}

-- From one quantity to another in steps of a unit, and nothing that was left behind is allowed.
pub data Falls (Allowed : ℤ → Type 0) (unit : ℤ) : ℤ → ℤ → Type 0 where
  stays : (a : ℤ) → Falls Allowed unit a a
  falls : (a b : ℤ) → (Allowed a → ⊥) → Falls Allowed unit (a -ℤ unit) b → Falls Allowed unit a b

module _ ⦃o : DecimalOps⦄ where
  -- What the platform may approve of a right: a buy that it can pay for, or a sale of exactly the
  -- lots of a plan without loss.
  abbrev pub Approves :
      Config → StrategyState → GridRight → Direction → ℤ → List LotQuantityAllocation → Type 0
  Approves config state right buy quantity allocations =
      (reservation : Decimal) × (estimated_buy_reservation config right.grid_price quantity
        ≡ ok reservation)
      × (check_buy config state quantity reservation ≡ ok tt)
      × (allocations ≡ [])
  Approves config state right sell quantity allocations =
      (check_sell config state quantity ≡ ok tt)
      × (planned (
            plan_non_loss_sales config (eligible_lots state.lots right.eligible_lot_ids) quantity
              right.grid_price)
          ≡ ok allocations)
      × (try_sum (map (λ (a : LotQuantityAllocation). a.quantity) allocations) ≡ some quantity)

  abbrev pub CanApprove : Config → StrategyState → GridRight → Direction → ℤ → Type 0
  CanApprove config state right direction quantity =
      (allocations : List LotQuantityAllocation) × Approves config state right direction quantity
        allocations

estimated-Ends :
    ⦃o : DecimalOps⦄ (config : Config) (price : Decimal) (quantity : ℤ)
    → Ends ⊥
        (λ r. estimated_buy_reservation config price quantity ≡ ok r)
        (estimated_buy_reservation config price quantity)
unfolding estimated_buy_reservation
estimated-Ends config price quantity =
    checked-Ends ⊥ _ (checked_buy_cash_reservation_with_policy (policy_of config) price quantity)
      (λ a e. ap (λ x. ok_or x numeric_range) e)

pub ok_inj : {A : Type 0} {a b : A} {m : Result RiskError A} → m ≡ ok a → m ≡ ok b → a ≡ b
ok_inj p q = returned (sym p ∙ q)

pub one_less :
    (a unit less : ℤ) (n : ℕ) → a ≤ℤ pos (suc n) → pos 0 <ℤ unit → less ≡ a -ℤ unit → less ≤ℤ pos n
one_less a unit less n h u e = rw e (omega int_laws)

pub not_positive : (a : ℤ) → a ≤ℤ pos 0 → ltb_ℤ (pos 0) a ≡ false
not_positive a h = ground arith

module _ ⦃o : DecimalOps⦄ (config : Config) (state : StrategyState) (right : GridRight) where
  -- Where the loop over a buy ends.
  abbrev pub BuyEnd : ℤ → ℤ → Type 0
  BuyEnd a b =
      Falls (CanApprove config state right buy) config.standard_quantity a b
      × ((b ≤ℤ pos 0) ⊎ ((pos 0 <ℤ b) × Approves config state right buy b []))

  abbrev Checked : Decimal → ℤ → Bool → Type 0
  Checked reservation a b =
      ((b ≡ true) × (check_buy config state a reservation ≡ ok tt))
      ⊎ ((b ≡ false) × (check_buy config state a reservation ≢ ok tt))

  falls_buy :
      (a less b : ℤ)
      → (CanApprove config state right buy a → ⊥)
      → less ≡ a -ℤ config.standard_quantity
      → BuyEnd less b
      → BuyEnd a b
  falls_buy a less b refused e (path, end) = (
    falls a b refused (
        subst (λ x. Falls (CanApprove config state right buy) config.standard_quantity x b) e path),
    end,
  )

  pub weaken :
      {A : Type 0} (Reason : Type 0) (P Q : A → Type 0) (m : Result RiskError A)
      → ((a : A) → P a → Q a)
      → Ends Reason P m
      → Ends Reason Q m
  weaken Reason P Q m k (inl e) = inl e
  weaken Reason P Q m k (inr (inl panics)) = inr (inl panics)
  weaken Reason P Q m k (inr (inr (a, e, p))) = inr (inr (a, e, k a p))

  -- A loop that goes on with less.
  pub less-Ends :
      {B : Type 0} (Reason : Type 0) (P : B → Type 0) (others : ℤ → Result RiskError B) (a : ℤ)
      (n : ℕ)
      → pos 0 <ℤ config.standard_quantity
      → a ≤ℤ pos (suc n)
      → ((less : ℤ)
          → less ≡ a -ℤ config.standard_quantity
          → less ≤ℤ pos n
          → Ends Reason P (others less))
      → Ends Reason P (ok_or (checked_sub a config.standard_quantity) numeric_range >>= others)
  less-Ends Reason P others a n u h k =
      Ends-then Reason P (ok_or (checked_sub a config.standard_quantity) numeric_range) others (
        checked-Ends Reason (λ less. Ends Reason P (others less))
          (checked_sub a config.standard_quantity)
          (λ less e.
            let less_is = to_i64-eq (a -ℤ config.standard_quantity) less e in
            k less less_is (one_less a config.standard_quantity less n h u less_is)))

  -- A round of the loop over a buy, after its check.
  at_check :
      (others : ℤ → Result RiskError ℤ) (a : ℤ) (n : ℕ) (reservation : Decimal) (b : Bool)
      → pos 0 <ℤ config.standard_quantity
      → pos 0 <ℤ a
      → a ≤ℤ pos (suc n)
      → ((less : ℤ) → less ≤ℤ pos n → Ends ⊥ (BuyEnd less) (others less))
      → estimated_buy_reservation config right.grid_price a ≡ ok reservation
      → Checked reservation a b
      → Ends ⊥ (BuyEnd a) (elim b [
        | true ↦ ok a
        | false ↦ ok_or (checked_sub a config.standard_quantity) numeric_range >>= others
      ])
  at_check others a n reservation true u p h k r (inl (_, allowed)) =
      inr (inr (a, refl, (stays a, inr (p, (reservation, r, allowed, refl)))))
  at_check others a n reservation true u p h k r (inr (e, _)) = cc
  at_check others a n reservation false u p h k r (inl (e, _)) = cc
  at_check others a n reservation false u p h k r (inr (_, refused)) =
      less-Ends ⊥ (BuyEnd a) others a n u h (λ less e small.
        weaken ⊥ (BuyEnd less) (BuyEnd a) (others less)
          (λ b.
            falls_buy a less b
              (λ (_, (other, s, allowed, _)).
                refused (ap (check_buy config state a) (ok_inj r s) ∙ allowed))
              e)
          (k less small))

  buy_round-Ends :
      (others : ℤ → Result RiskError ℤ) (a : ℤ) (n : ℕ)
      → IsI64 config.max_position
      → pos 0 <ℤ config.standard_quantity
      → a ≤ℤ pos (suc n)
      → ((less : ℤ) → less ≤ℤ pos n → Ends ⊥ (BuyEnd less) (others less))
      → Ends ⊥ (BuyEnd a) (buy_round config state right.grid_price others a)
  unfolding buy_round
  buy_round-Ends others a n f u h k = elim (Bool-cases (ltb_ℤ (pos 0) a)) [
    | inr done ↦
        rw (done, buy_round) (inr (inr (a, refl, (stays a, inl (ltb_ℤ→ge (pos 0) a done)))))
    | inl more ↦
        rw (more, buy_round)
          (Ends-then ⊥ (BuyEnd a) (estimated_buy_reservation config right.grid_price a) _ (
            weaken ⊥
              (λ reservation. estimated_buy_reservation config right.grid_price a ≡ ok reservation)
              _ (estimated_buy_reservation config right.grid_price a)
              (λ reservation r.
                Ends-then ⊥ (BuyEnd a) (or_smaller (check_buy config state a reservation)) _ (
                  weaken ⊥ (Checked reservation a) _
                    (or_smaller (check_buy config state a reservation))
                    (λ b. at_check others a n reservation b u (ltb_ℤ→lt (pos 0) a more) h k r)
                    (or_smaller-Ends (check_buy config state a reservation)
                      (check_buy-quiet config state a reservation f))))
              (estimated-Ends config right.grid_price a)))
  ]

  -- The loop over a buy, on enough fuel.
  pub approve_buy-Ends :
      (exhausted : Result RiskError ℤ) (n : ℕ) (a : ℤ)
      → IsI64 config.max_position
      → pos 0 <ℤ config.standard_quantity
      → a ≤ℤ pos n
      → Ends ⊥ (BuyEnd a) (approve_buy config state right.grid_price exhausted (suc n) a)
  unfolding approve_buy buy_round
  approve_buy-Ends exhausted zero a f u h =
      rw (not_positive a h, buy_round) (inr (inr (a, refl, (stays a, inl h))))
  approve_buy-Ends exhausted (suc n) a f u h =
      buy_round-Ends (approve_buy config state right.grid_price exhausted (suc n)) a n f u h
        (λ less. approve_buy-Ends exhausted n less f u)
