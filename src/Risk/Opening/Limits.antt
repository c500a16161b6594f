-- ===== src/Risk/Opening/Limits.antt =====
-- `canonical_initial_buy_units` of src/risk.rs, and the limits that it observes.
use native.Mathlib.Nat.{zero-div}
use grid_edge_t.Base.{
  ◌≡◌, ◌⊎◌, Bool, true, false, not, ◌||◌, Option, none, some, inl, inr, refl, sym, subst, ◌∙◌,
  arith, if◌then◌else◌, Bool-cases,
}
use grid_edge_t.Base.Int.{
  ℤ, pos, negsuc, ltb_ℤ, leb_ℤ, min_ℤ, max_ℤ, quot, ◌*ℤ◌, ◌+ℤ◌, ◌-ℤ◌, ◌≤ℤ◌, ◌<ℤ◌, int_laws,
  leb_ℤ→gt, ltb_ℤ→ge,
}
use grid_edge_t.Base.Division.{whole_units_bounds}
use grid_edge_t.Base.Machine.{checked_add, checked_sub, to_i32, to_i64-eq}
use grid_edge_t.Base.Results.{returned, Result, ok, err, or_panic, ok_or, >>=-eq-ok, ok_or-eq}
use grid_edge_t.Config.{Config, CapitalInventorySettings, spec_of}
use grid_edge_t.Decimal.{Decimal, zero_decimal, from_i64, DecimalOps}
use grid_edge_t.Risk.Opening.Pending.{StillBuys, pending_buys-open_buys}
use grid_edge_t.Domain.{StrategyState}
use grid_edge_t.Base.Maps.{values}
use grid_edge_t.Grid.{price}
use grid_edge_t.Risk.{RiskError, numeric_range, affordable_buy_units}
use grid_edge_t.Risk.Affordable.{affordable_buy_units-IsBoundary}
use grid_edge_t.Risk.Opening.{
  canonical_initial_buy_units, opening_units, pending_buys, open_buys, units_below, in_range,
  or_zero,
}

switches : (a b : Bool) → (not a || b) ≡ false → (a ≡ true) × (b ≡ false)
switches a b h = ground arith

no_units : (unit : ℤ) → pos 0 <ℤ unit → quot (pos 0) unit ≤ℤ pos 0
unfolding quot
no_units (pos u) h = grind (arith, zero-div u)
no_units (negsuc u) h = absurd (omega arith)

units_fit :
    (n room unit : ℤ)
    → pos 0 <ℤ n
    → pos 0 <ℤ unit
    → n ≤ℤ quot (max_ℤ room (pos 0)) unit
    → n *ℤ unit ≤ℤ room
units_fit n room unit p u h = elim (Bool-cases (ltb_ℤ room (pos 0))) [
  | inl over ↦
      let none_left : n ≤ℤ quot (pos 0) unit = rw over at h in
      absurd (let z = no_units unit u in omega arith)
  | inr under ↦
      let some_left : n ≤ℤ quot room unit = rw under at h in
      (whole_units_bounds n room unit (omega arith) u (ltb_ℤ→ge room (pos 0) under) some_left).1
]

under_all :
    (n a b c : ℤ)
    → pos 0 <ℤ n
    → n ≤ℤ max_ℤ (min_ℤ (min_ℤ a b) c) (pos 0)
    → (n ≤ℤ a) × (n ≤ℤ b) × (n ≤ℤ c)
under_all n a b c p h = ground arith

added : (exposure bought limit : ℤ) → bought ≤ℤ limit -ℤ exposure → exposure +ℤ bought ≤ℤ limit
added exposure bought limit h = omega int_laws

-- The units below a limit, times the unit, stay below it.
units_below-fit :
    (limit exposure unit n units : ℤ)
    → pos 0 <ℤ n
    → pos 0 <ℤ unit
    → units_below limit exposure unit ≡ ok units
    → n ≤ℤ units
    → exposure +ℤ n *ℤ unit ≤ℤ limit
unfolding units_below
units_below-fit limit exposure unit n units p u h k =
    let (room, r, fin) = >>=-eq-ok (ok_or (checked_sub limit exposure) numeric_range) _ h in
    let room_is =
      to_i64-eq (limit -ℤ exposure) room
        (ok_or-eq (checked_sub limit exposure) numeric_range room r) in
    let below : n ≤ℤ quot (max_ℤ room (pos 0)) unit = subst (λ x. n ≤ℤ x) (sym (returned fin)) k in
    added exposure (n *ℤ unit) limit (rw room_is at (units_fit n room unit p u below))

nothing_or_some : (n : ℤ) → pos 0 ≤ℤ n → (n ≡ pos 0) ⊎ (pos 0 <ℤ n)
nothing_or_some n h = ground arith

-- An opening purchase of some units.
pub record IsOpening (config : Config) (state : StrategyState) (settings : CapitalInventorySettings)
    (units : ℤ) : Type 0 where
  pub units_positive : pos 0 <ℤ units
  pub enabled : settings.deploy_initial_balance ≡ true
  pub on_levels : units ≤ℤ config.trade_levels
  pub pending : ℤ
  pub is_pending : StillBuys (values state.orders) pending
  pub under_maximum :
      state.position.total +ℤ pending +ℤ units *ℤ config.standard_quantity ≤ℤ config.max_position
  pub under_target :
      state.position.total +ℤ pending +ℤ units *ℤ config.standard_quantity
      ≤ℤ settings.target_position

module _ ⦃o : DecimalOps⦄ where
  affordable_bounds :
      (config : Config) (limit_price cash : Decimal) (maximum units : ℤ)
      → affordable_buy_units config limit_price cash maximum ≡ ok units
      → (pos 0 ≤ℤ units) × (units ≤ℤ maximum)
  affordable_bounds config limit_price cash maximum units h =
      elim (affordable_buy_units-IsBoundary config limit_price cash maximum) [
        | inl failed ↦ absurd (refused failed h)
        | inr (found, e, boundary) ↦
            let same : found ≡ units = returned (sym e ∙ h) in
            subst (λ x. (pos 0 ≤ℤ x) × (x ≤ℤ maximum)) same (boundary.units_nonneg, boundary.within)
      ]
    where
      refused : {m : Result RiskError ℤ} → m ≡ err numeric_range → m ≡ ok units → ⊥
      refused p q = ground arith

  opening_units_lem :
      (config : Config) (state : StrategyState) (limit_price : Decimal)
      (settings : CapitalInventorySettings) (units : ℤ)
      → settings.deploy_initial_balance ≡ true
      → pos 0 <ℤ config.standard_quantity
      → opening_units config state limit_price settings ≡ ok units
      → (units ≡ pos 0) ⊎ IsOpening config state settings units
  unfolding opening_units
  opening_units_lem config state limit_price settings units on q h =
      let (free_cash, _, k1) =
        >>=-eq-ok
          (ok_or (o.checked_sub_decimal state.cash.available state.cash.frozen) numeric_range) _
          h in
      let (half, _, k2) =
        >>=-eq-ok
          (ok_or (o.checked_div_decimal config.initial_cash (from_i64 (pos 2))) numeric_range) _
          k1 in
      let (lowest, _, k3) = >>=-eq-ok (or_panic (to_i32 (pos 0 -ℤ config.boundary_levels))) _ k2 in
      let (lower, _, k4) = >>=-eq-ok (in_range (price (spec_of config) lowest)) _ k3 in
      elim (Bool-cases (ltb_ℤ limit_price lower || ltb_ℤ config.anchor_price limit_price)) [
        | inl off ↦ inl (sym (returned (rw off at k4)))
        | inr within ↦
            let (pending, p, k5) =
              >>=-eq-ok (ok_or (pending_buys (pos 0) (open_buys state)) numeric_range) _
                (rw within at k4) in
            let (exposure, x, k6) =
              >>=-eq-ok (ok_or (checked_add state.position.total pending) numeric_range) _ k5 in
            let (position_units, pu, k7) =
              >>=-eq-ok (units_below config.max_position exposure config.standard_quantity) _ k6 in
            let (target_units, tu, k8) =
              >>=-eq-ok (units_below settings.target_position exposure config.standard_quantity) _
                k7 in
            let exposure_is =
              to_i64-eq (state.position.total +ℤ pending) exposure
                (ok_or-eq (checked_add state.position.total pending) numeric_range exposure x) in
            let (nonneg, most) =
              affordable_bounds config limit_price
                (min_ℤ
                  (max_ℤ (or_zero (o.checked_sub_decimal free_cash settings.minimum_free_cash))
                    zero_decimal)
                  half)
                (max_ℤ (min_ℤ (min_ℤ config.trade_levels position_units) target_units) (pos 0))
                units k8 in
            elim (nothing_or_some units nonneg) [
              | inl nothing ↦ inl nothing
              | inr positive ↦
                  let (levels, positions, targets) =
                    under_all units config.trade_levels position_units target_units positive most in
                  inr (record {
                    units_positive = positive;
                    enabled = on;
                    on_levels = levels;
                    pending = pending;
                    is_pending =
                        pending_buys-open_buys state pending (
                          ok_or-eq (pending_buys (pos 0) (open_buys state)) numeric_range pending
                            p);
                    under_maximum = rw exposure_is at (
                        units_below-fit config.max_position exposure config.standard_quantity units
                          position_units positive q pu positions);
                    under_target = rw exposure_is at (
                        units_below-fit settings.target_position exposure config.standard_quantity
                          units target_units positive q tu targets);
                  })
            ]
      ]

  by_settings :
      (config : Config) (state : StrategyState) (limit_price : Decimal) (units : ℤ)
      (chosen : Option CapitalInventorySettings)
      → ◌≡◌ {A = Result RiskError ℤ}
          (elim chosen [
            | none ↦ ok (pos 0)
            | some settings ↦
                if not settings.deploy_initial_balance || leb_ℤ config.standard_quantity (pos 0)
                then ok (pos 0)
                else opening_units config state limit_price settings
          ])
          (ok units)
      → (units ≡ pos 0)
        ⊎ ((settings : CapitalInventorySettings) × (chosen ≡ some settings)
            × IsOpening config state settings units)
  by_settings config state limit_price units none h = inl (sym (returned h))
  by_settings config state limit_price units (some settings) h =
      elim (Bool-cases
        (not settings.deploy_initial_balance || leb_ℤ config.standard_quantity (pos 0))) [
          | inl off ↦ inl (sym (returned (rw off at h)))
          | inr on ↦
              let (deploys, low) =
                switches settings.deploy_initial_balance (leb_ℤ config.standard_quantity (pos 0))
                  on in
              elim (opening_units_lem config state limit_price settings units deploys
                (leb_ℤ→gt config.standard_quantity (pos 0) low) (rw on at h)) [
                  | inl nothing ↦ inl nothing
                  | inr opening ↦ inr (settings, refl, opening)
                ]
        ]

  -- The opening purchase buys nothing, or it is enabled, and its units are at most the trade levels
  -- and, with the position and what the open buy orders may still buy, stay within the maximum
  -- position and the target position.
  pub canonical_initial_buy_units_lem :
      (config : Config) (state : StrategyState) (limit_price : Decimal) (units : ℤ)
      → canonical_initial_buy_units config state limit_price ≡ ok units
      → (units ≡ pos 0)
        ⊎ ((settings : CapitalInventorySettings) × (config.capital_inventory ≡ some settings)
            × IsOpening config state settings units)
  unfolding canonical_initial_buy_units
  canonical_initial_buy_units_lem config state limit_price units h =
      by_settings config state limit_price units config.capital_inventory h
