-- ===== src/Risk/Approval/Largest.antt =====
-- `canonical_approval` of src/risk.rs: the largest candidate that the platform may approve.
use grid_edge_t.Base.{◌≡◌, ◌⊎◌, suc, Bool, true, false, ◌||◌, [], inl, inr, refl, arith, Bool-cases}
use grid_edge_t.Base.Int.{
  rem, ◌-ℤ◌, int_laws, ℤ, pos, magnitude, leb_ℤ, max_ℤ, quot, ◌*ℤ◌, ◌≤ℤ◌, ◌<ℤ◌, leb_ℤ→le, leb_ℤ→gt,
}
use grid_edge_t.Base.Division.{rem_of_itself, rem_of_rest, whole_units_bounds, quot_nonneg}
use grid_edge_t.Base.Machine.{IsI64}
use grid_edge_t.Base.Results.{Result, ok, panic}
use grid_edge_t.Config.{Config}
use grid_edge_t.Decimal.{DecimalOps}
use grid_edge_t.Domain.{Direction, buy, sell, StrategyState}
use grid_edge_t.Risk.{RiskError}
use grid_edge_t.Risk.Approval.Ends.{Ends, Ends-then}
use grid_edge_t.Risk.Approval.{
  GridRight, CanonicalApproval, no_approval, approve_buy, approve_sell, approve_direction,
  canonical_approval,
}
use grid_edge_t.Risk.Approval.Buys.{
  falls, Falls, stays, Approves, CanApprove, BuyEnd, weaken, approve_buy-Ends,
}
use grid_edge_t.Risk.Approval.Sales.{PlanPanics, SaleEnd, approve_sell-Ends}

max_low : (b : ℤ) → b ≤ℤ pos 0 → max_ℤ b (pos 0) ≡ pos 0
max_low b h = ground arith

max_high : (b : ℤ) → pos 0 <ℤ b → max_ℤ b (pos 0) ≡ b
max_high b h = ground arith

nothing_to_do :
    (exercised unit : ℤ)
    → (leb_ℤ exercised (pos 0) || leb_ℤ unit (pos 0)) ≡ true
    → (exercised ≤ℤ pos 0) ⊎ (unit ≤ℤ pos 0)
nothing_to_do exercised unit h = elim (Bool-cases (leb_ℤ exercised (pos 0))) [
  | inl none_left ↦ inl (leb_ℤ→le exercised (pos 0) none_left)
  | inr some_left ↦ inr (leb_ℤ→le unit (pos 0) (rw some_left at h))
]

either_false : (a b : Bool) → (a || b) ≡ false → (a ≡ false) × (b ≡ false)
either_false a b h = ground arith

pub within_magnitude : (a : ℤ) → a ≤ℤ pos (magnitude a)
within_magnitude a = ground arith

under_magnitude : (a b : ℤ) → pos 0 <ℤ b → a ≤ℤ b → a ≤ℤ pos (magnitude b)
under_magnitude a b p h = ground arith

-- The whole units of an exercise are not more than it.
pub whole_within :
    (a unit : ℤ) → pos 0 <ℤ a → pos 0 <ℤ unit → quot a unit *ℤ unit ≤ℤ pos (magnitude a)
whole_within a unit p u =
    let (_, whole) =
      whole_units_bounds (quot a unit) a unit (quot_nonneg a unit (omega arith) u) u (omega arith)
        (omega arith) in
    under_magnitude (quot a unit *ℤ unit) a p whole

never_panics :
    {A : Type 0} (Reason : Type 0) {P : A → Type 0} (m : Result RiskError A)
    → Ends ⊥ P m
    → Ends Reason P m
never_panics Reason m (inl e) = inl e
never_panics Reason m (inr (inl (_, never))) = absurd never
never_panics Reason m (inr (inr found)) = inr (inr found)

by_one_unit :
    (a unit : ℤ) → pos 0 <ℤ unit → unit ≤ℤ a → rem a unit ≡ pos 0 → rem (a -ℤ unit) unit ≡ pos 0
by_one_unit a unit u h whole =
    rem_of_rest a unit unit (omega arith) (omega arith) h u whole (rem_of_itself unit u)

Falls-below :
    (Allowed : ℤ → Type 0) (unit : ℤ) → pos 0 <ℤ unit → (a b : ℤ) → Falls Allowed unit a b → b ≤ℤ a
Falls-below Allowed unit u _ _ (stays a) = omega arith
Falls-below Allowed unit u _ _ (falls a b refused path) =
    let below = Falls-below Allowed unit u (a -ℤ unit) b path in omega int_laws

-- Whole units are left in steps of a unit.
Falls-whole :
    (Allowed : ℤ → Type 0) (unit : ℤ)
    → pos 0 <ℤ unit
    → (a b : ℤ) → pos 0 <ℤ b
    → Falls Allowed unit a b
    → rem a unit ≡ pos 0
    → rem b unit ≡ pos 0
Falls-whole Allowed unit u _ _ p (stays a) whole = whole
Falls-whole Allowed unit u _ _ p (falls a b refused path) whole =
    let below = Falls-below Allowed unit u (a -ℤ unit) b path in
    Falls-whole Allowed unit u (a -ℤ unit) b p path (by_one_unit a unit u (omega int_laws) whole)

module _ ⦃o : DecimalOps⦄ (config : Config) (state : StrategyState) (right : GridRight) where
  -- The first candidate of an exercise: a buy takes it as it is, a sale cuts it to whole units.
  abbrev pub candidate : Direction → ℤ → ℤ
  candidate buy exercised = exercised
  candidate sell exercised = quot exercised config.standard_quantity *ℤ config.standard_quantity

  -- An approval, and that every larger candidate was refused.
  pub record IsApproved (direction : Direction) (start : ℤ) (approval : CanonicalApproval)
      : Type 0 where
    pub last : ℤ
    pub refused :
        Falls (CanApprove config state right direction) config.standard_quantity start last
    pub outcome :
        ((last ≤ℤ pos 0) × (approval ≡ no_approval))
        ⊎ ((pos 0 <ℤ last)
            × (approval.quantity ≡ last)
            × (rem start config.standard_quantity ≡ pos 0
                → rem last config.standard_quantity ≡ pos 0)
            × Approves config state right direction last approval.sell_allocations)

  -- Why the approval may panic: a sale whose plan does.
  abbrev pub SalePanics : Direction → Type 0
  SalePanics direction = (direction ≡ sell) × PlanPanics config state right

  bought :
      (exercised b : ℤ)
      → pos 0 <ℤ config.standard_quantity
      → BuyEnd config state right exercised b
      → IsApproved buy exercised (record { quantity = max_ℤ b (pos 0); sell_allocations = [] })
  bought exercised b u (path, inl low) = record {
    last = b;
    refused = path;
    outcome = inl (low, λ i. record { quantity = max_low b low i; sell_allocations = [] });
  }
  bought exercised b u (path, inr (high, approves)) = record {
    last = b;
    refused = path;
    outcome = inr (
      high,
      max_high b high,
      Falls-whole _ config.standard_quantity u exercised b high path,
      approves,
    );
  }

  sold :
      pos 0 <ℤ config.standard_quantity
      → (a b : ℤ) (approval : CanonicalApproval)
      → Falls (CanApprove config state right sell) config.standard_quantity a b
      → ((b ≤ℤ pos 0) × (approval ≡ no_approval))
        ⊎ ((pos 0 <ℤ b)
            × (approval.quantity ≡ b)
            × Approves config state right sell b approval.sell_allocations)
      → ((b ≤ℤ pos 0) × (approval ≡ no_approval))
        ⊎ ((pos 0 <ℤ b)
            × (approval.quantity ≡ b)
            × (rem a config.standard_quantity ≡ pos 0 → rem b config.standard_quantity ≡ pos 0)
            × Approves config state right sell b approval.sell_allocations)
  sold u a b approval path (inl nothing) = inl nothing
  sold u a b approval path (inr (high, quantity, approves)) =
      inr (high, quantity, Falls-whole _ config.standard_quantity u a b high path, approves)

  approve_direction-Ends :
      (direction : Direction) (exercised : ℤ)
      → IsI64 config.max_position
      → pos 0 <ℤ config.standard_quantity
      → pos 0 <ℤ exercised
      → Ends
          (SalePanics direction)
          (IsApproved direction (candidate direction exercised))
          (approve_direction config state right direction exercised)
  unfolding approve_direction
  approve_direction-Ends buy exercised f u p =
      let loop =
        approve_buy config state right.grid_price panic (suc (magnitude exercised)) exercised in
      Ends-then (SalePanics buy) (IsApproved buy exercised) loop _ (
        never_panics _ loop (
          weaken config state right ⊥ (BuyEnd config state right exercised) _ loop
            (λ b end. inr (inr (_, refl, bought exercised b u end)))
            (approve_buy-Ends config state right panic (magnitude exercised) exercised f u
              (within_magnitude exercised))))
  approve_direction-Ends sell exercised f u p =
      for_sale u
        (approve_sell config state right panic (suc (magnitude exercised))
          (candidate sell exercised))
        (candidate sell exercised)
        (approve_sell-Ends config state right panic (magnitude exercised) (candidate sell exercised)
          u (whole_within exercised config.standard_quantity p u))
    where
      for_sale :
          pos 0 <ℤ config.standard_quantity
          → (m : Result RiskError CanonicalApproval) (a : ℤ)
          → Ends (PlanPanics config state right) (SaleEnd config state right a) m
          → Ends (SalePanics sell) (IsApproved sell a) m
      for_sale u m a (inl e) = inl e
      for_sale u m a (inr (inl (e, panics))) = inr (inl (e, (refl, panics)))
      for_sale u m a (inr (inr (approval, e, (b, path, end)))) = inr (
          inr (
            approval,
            e,
            record { last = b; refused = path; outcome = sold u a b approval path end },
          ))

  -- Where nothing is exercised or the unit is not positive, nothing is approved. Otherwise, for a
  -- maximum position that is an `i64`, the approval leaves the numeric range, or panics because the
  -- plan of a sale does, or is the first candidate that the platform may approve, on the way down from
  -- the exercised quantity in steps of the unit: each larger one is refused, and nothing is approved if
  -- there is none above zero. Only a sale cuts the exercised quantity to whole units first; if the
  -- first candidate is of whole units, so is the approval. A buy may be approved if check_buy allows it for its reservation; a sale if check_sell allows it and its plan
  -- without loss sells exactly that.
  pub canonical_approval-IsApproved :
      (exercised : ℤ)
      → IsI64 config.max_position
      → (((exercised ≤ℤ pos 0) ⊎ (config.standard_quantity ≤ℤ pos 0))
          × (canonical_approval config state right exercised ≡ ok no_approval))
        ⊎ Ends
            (SalePanics right.direction)
            (IsApproved right.direction (candidate right.direction exercised))
            (canonical_approval config state right exercised)
  unfolding canonical_approval
  canonical_approval-IsApproved exercised f =
      elim (Bool-cases (leb_ℤ exercised (pos 0) || leb_ℤ config.standard_quantity (pos 0))) [
        | inl off ↦
            rw (off, canonical_approval)
              (inl (nothing_to_do exercised config.standard_quantity off, refl))
        | inr on ↦
            let (some_left, unit) =
              either_false (leb_ℤ exercised (pos 0)) (leb_ℤ config.standard_quantity (pos 0)) on in
            rw (on, canonical_approval)
              (inr (
                approve_direction-Ends right.direction exercised f
                  (leb_ℤ→gt config.standard_quantity (pos 0) unit)
                  (leb_ℤ→gt exercised (pos 0) some_left)))
      ]
