-- ===== src/Account/Fills/Effect.antt =====
-- `apply_fill_with_policy` of src/domain.rs, over the position and the processed fills.
use grid_edge_t.Base.{
  ◌≡◌, ◌∙◌, Bool, true, false, List, [], ◌∷◌, Option, arith, ◌||◌, not, Bool-cases, inl, inr, sym,
  ap, some, subst, map,
}
use mathlib.Core.Bool.{false≢true}
use grid_edge_t.Base.Int.{
  ℤ, pos, ltb_ℤ, leb_ℤ, eqb_ℤ, ◌≤ℤ◌, ◌<ℤ◌, ◌+ℤ◌, ◌-ℤ◌, int_laws, ltb_ℤ→ge, leb_ℤ→gt,
}
use grid_edge_t.Base.Machine.{checked_add, checked_sub, to_i64-eq, try_sum}
use grid_edge_t.Base.Maps.{member, add, lookup, member-add_self}
use grid_edge_t.Base.Results.{
  returned, Result, ok, or_panic, ok_or, fail_if, >>=-eq-ok, ok_or-eq, fail_if-ok,
}
use grid_edge_t.Account.{
  DomainError, invalid_fill, numeric_range, insufficient_sellable, insufficient_cash,
  insufficient_lot_quantity, sell_fill_allocations,
}
use grid_edge_t.Account.Fills.{
  ProjectedSlice, buy_position, sell_position, apply_buy, apply_sell, apply_direction,
  apply_fill_inner, apply_fill_with_policy, is_invalid_fill, project_slices, apply_slices,
  explicit_fees,
}
use grid_edge_t.Decimal.{Decimal, zero_decimal, from_i64, DecimalOps}
use grid_edge_t.Domain.{Direction, buy, sell, LotQuantityAllocation, Fill, Position, StrategyState}

-- Every share is either for sale or bought today.
pub record IsBalanced (p : Position) : Type 0 where
  pub total_is : p.total ≡ p.sellable +ℤ p.today_bought
  pub sellable_nonneg : pos 0 ≤ℤ p.sellable
  pub today_nonneg : pos 0 ≤ℤ p.today_bought

first_false : (a b : Bool) → (a || b) ≡ false → a ≡ false
first_false a b h = ground arith

second_false :
    {s s' : StrategyState}
    → ◌≡◌ {A = Result DomainError (StrategyState × Bool)} (ok (s, false)) (ok (s', true))
    → ⊥
second_false h = ground arith

later_total : (s t q : ℤ) → s +ℤ t +ℤ q ≡ s +ℤ (t +ℤ q)
later_total s t q = omega int_laws

sold_total : (s t q : ℤ) → s +ℤ t -ℤ q ≡ s -ℤ q +ℤ t
sold_total s t q = omega int_laws

buy_position-IsBalanced :
    (p p' : Position) (q : ℤ) → pos 0 <ℤ q → IsBalanced p → buy_position p q ≡ ok p' → IsBalanced p'
unfolding buy_position
buy_position-IsBalanced p p' q n b h =
    let (total, t, k) = >>=-eq-ok (ok_or (checked_add p.total q) numeric_range) _ h in
    let (today, d, fin) = >>=-eq-ok (ok_or (checked_add p.today_bought q) numeric_range) _ k in
    let total_eq =
      to_i64-eq (p.total +ℤ q) total (ok_or-eq (checked_add p.total q) numeric_range total t) in
    let today_eq =
      to_i64-eq (p.today_bought +ℤ q) today
        (ok_or-eq (checked_add p.today_bought q) numeric_range today d) in
    let bought_nonneg : pos 0 ≤ℤ p.today_bought +ℤ q = let c = b.today_nonneg in omega int_laws in
    subst IsBalanced (returned fin) (record {
      total_is = rw (total_eq, today_eq, b.total_is) (later_total p.sellable p.today_bought q);
      sellable_nonneg = b.sellable_nonneg;
      today_nonneg = rw today_eq bought_nonneg;
    })

sell_position-IsBalanced :
    (p p' : Position) (q : ℤ)
    → q ≤ℤ p.sellable
    → IsBalanced p
    → sell_position p q ≡ ok p'
    → IsBalanced p'
unfolding sell_position
sell_position-IsBalanced p p' q n b h =
    let (total, t, k) = >>=-eq-ok (ok_or (checked_sub p.total q) numeric_range) _ h in
    let (sellable, d, fin) = >>=-eq-ok (ok_or (checked_sub p.sellable q) numeric_range) _ k in
    let total_eq =
      to_i64-eq (p.total -ℤ q) total (ok_or-eq (checked_sub p.total q) numeric_range total t) in
    let sellable_eq =
      to_i64-eq (p.sellable -ℤ q) sellable
        (ok_or-eq (checked_sub p.sellable q) numeric_range sellable d) in
    let left_nonneg : pos 0 ≤ℤ p.sellable -ℤ q = omega int_laws in
    subst IsBalanced (returned fin) (record {
      total_is = rw (total_eq, sellable_eq, b.total_is) (sold_total p.sellable p.today_bought q);
      sellable_nonneg = rw sellable_eq left_nonneg;
      today_nonneg = b.today_nonneg;
    })

module _ ⦃o : DecimalOps⦄ where
  apply_slices-position :
      (slices : List ProjectedSlice) (s s' : StrategyState)
      → apply_slices slices s ≡ ok s'
      → s'.position ≡ s.position
  unfolding apply_slices
  apply_slices-position [] s s' h = sym (ap (λ (x : StrategyState). x.position) (returned h))
  apply_slices-position (slice ∷ rest) s s' h =
      let (lot, _, k1) = >>=-eq-ok (or_panic (lookup slice.allocation.lot_id s.lots)) _ h in
      let (remaining, _, k2) =
        >>=-eq-ok
          (ok_or (checked_sub lot.remaining_quantity slice.allocation.quantity) numeric_range) _
          k1 in
      let (lot_pnl, _, k3) =
        >>=-eq-ok (ok_or (o.checked_add_decimal lot.realized_pnl slice.pnl) numeric_range) _ k2 in
      let (realized, _, k4) =
        >>=-eq-ok (ok_or (o.checked_add_decimal s.realized_pnl slice.pnl) numeric_range) _ k3 in
      apply_slices-position rest _ s' k4

  apply_buy-IsBalanced :
      (s s' : StrategyState) (fill : Fill) (g : ℤ) (op : Bool) (notional fees : Decimal)
      → pos 0 <ℤ fill.quantity
      → IsBalanced s.position
      → apply_buy s fill g op notional fees ≡ ok s'
      → IsBalanced s'.position
  unfolding apply_buy
  apply_buy-IsBalanced s s' fill g op notional fees n b h =
      let (total, _, k1) =
        >>=-eq-ok (ok_or (o.checked_add_decimal notional fees) numeric_range) _ h in
      let (_, _, k2) = >>=-eq-ok (fail_if (ltb_ℤ s.cash.available total) insufficient_cash) _ k1 in
      let (available, _, k3) =
        >>=-eq-ok (ok_or (o.checked_sub_decimal s.cash.available total) numeric_range) _ k2 in
      let (total_fees, _, k4) =
        >>=-eq-ok (ok_or (o.checked_add_decimal s.cash.total_fees fees) numeric_range) _ k3 in
      let (p, position, k5) = >>=-eq-ok (buy_position s.position fill.quantity) _ k4 in
      let (deployed, _, fin) =
        >>=-eq-ok (ok_or (o.checked_add_decimal s.deployed_grid_budget notional) numeric_range) _
          k5 in
      subst (λ (x : StrategyState). IsBalanced x.position) (returned fin)
        (buy_position-IsBalanced s.position p fill.quantity n b position)

  -- What a sale goes through.
  pub record IsSale (s s' : StrategyState) (fill : Fill) (enforce : Bool) (notional fees : Decimal)
      : Type 0 where
    pub allocations : List LotQuantityAllocation
    pub explicit : Option (List Decimal)
    pub projected : List ProjectedSlice
    pub sold : StrategyState
    pub covered : fill.quantity ≤ℤ s.position.sellable
    pub projects :
        project_slices s fill enforce fees explicit zero_decimal allocations ≡ ok projected
    pub applies : apply_slices projected s ≡ ok sold
    pub has_position : sell_position sold.position fill.quantity ≡ ok s'.position
    pub same_pnl : sold.realized_pnl ≡ s'.realized_pnl
    pub same_orders : sold.orders ≡ s'.orders
    pub proceeds : Decimal
    pub proceeds_is : o.checked_sub_decimal notional fees ≡ some proceeds
    pub available_is : o.checked_add_decimal sold.cash.available proceeds ≡ some s'.cash.available
    pub fees_is : o.checked_add_decimal sold.cash.total_fees fees ≡ some s'.cash.total_fees

  pub apply_sell-IsSale :
      (s s' : StrategyState) (fill : Fill) (enforce : Bool) (notional fees : Decimal)
      → apply_sell s fill enforce notional fees ≡ ok s'
      → IsSale s s' fill enforce notional fees
  unfolding apply_sell
  apply_sell-IsSale s s' fill enforce notional fees h =
      let (_, covers, k1) =
        >>=-eq-ok (fail_if (ltb_ℤ s.position.sellable fill.quantity) insufficient_sellable) _ h in
      let (allocations, _, k2) = >>=-eq-ok (sell_fill_allocations s fill) _ k1 in
      let (explicit, _, k3) = >>=-eq-ok (explicit_fees fill allocations fees) _ k2 in
      let (projected, projects, k4) =
        >>=-eq-ok (project_slices s fill enforce fees explicit zero_decimal allocations) _ k3 in
      let (quantity, _, k5) =
        >>=-eq-ok
          (ok_or (try_sum (map (λ (x : ProjectedSlice). x.allocation.quantity) projected))
            numeric_range)
          _ k4 in
      let (_, _, k6) =
        >>=-eq-ok (fail_if (not (eqb_ℤ quantity fill.quantity)) insufficient_lot_quantity) _ k5 in
      let (sold, applies, k7) = >>=-eq-ok (apply_slices projected s) _ k6 in
      let (proceeds, pr, k8) =
        >>=-eq-ok (ok_or (o.checked_sub_decimal notional fees) numeric_range) _ k7 in
      let (available, av, k9) =
        >>=-eq-ok (ok_or (o.checked_add_decimal sold.cash.available proceeds) numeric_range) _ k8 in
      let (total_fees, tf, k10) =
        >>=-eq-ok (ok_or (o.checked_add_decimal sold.cash.total_fees fees) numeric_range) _ k9 in
      let (p, position, fin) = >>=-eq-ok (sell_position sold.position fill.quantity) _ k10 in
      let result = returned fin in
      record {
        allocations = allocations;
        explicit = explicit;
        projected = projected;
        sold = sold;
        covered = ltb_ℤ→ge s.position.sellable fill.quantity (fail_if-ok _ _ _ covers);
        projects = projects;
        applies = applies;
        has_position =
            subst (λ (x : StrategyState). sell_position sold.position fill.quantity ≡ ok x.position)
              result position;
        same_pnl = ap (λ (x : StrategyState). x.realized_pnl) result;
        same_orders = ap (λ (x : StrategyState). x.orders) result;
        proceeds = proceeds;
        proceeds_is = ok_or-eq _ numeric_range proceeds pr;
        available_is =
            ok_or-eq _ numeric_range available av ∙ (λ i. some (result i).cash.available);
        fees_is = ok_or-eq _ numeric_range total_fees tf ∙ (λ i. some (result i).cash.total_fees);
      }

  apply_direction-IsBalanced :
      (d : Direction) (s s' : StrategyState) (fill : Fill) (g : ℤ) (enforce op : Bool)
      (notional fees : Decimal)
      → pos 0 <ℤ fill.quantity
      → IsBalanced s.position
      → apply_direction d s fill g enforce op notional fees ≡ ok s'
      → IsBalanced s'.position
  unfolding apply_direction
  apply_direction-IsBalanced buy s s' fill g enforce op notional fees n b h =
      apply_buy-IsBalanced s s' fill g op notional fees n b h
  apply_direction-IsBalanced sell s s' fill g enforce op notional fees n b h =
      let sale = apply_sell-IsSale s s' fill enforce notional fees h in
      let same = apply_slices-position sale.projected s sale.sold sale.applies in
      let position : sell_position s.position fill.quantity ≡ ok s'.position =
        rw same at sale.has_position in
      sell_position-IsBalanced s.position s'.position fill.quantity sale.covered b position

  -- What a fill that is applied goes through.
  pub record IsApplied (s s' : StrategyState) (fill : Fill) (g : ℤ) (enforce op : Bool)
      : Type 0 where
    pub notional : Decimal
    pub fees : Decimal
    pub after : StrategyState
    pub notional_is : o.checked_mul_decimal fill.price (from_i64 fill.quantity) ≡ some notional
    pub fees_is : o.checked_add_decimal fill.commission fill.tax ≡ some fees
    pub positive : pos 0 <ℤ fill.quantity
    pub applies : apply_direction fill.direction s fill g enforce op notional fees ≡ ok after
    pub result : record after { processed_fills = add fill.fill_id after.processed_fills } ≡ s'

  pub apply_fill_with_policy-IsApplied :
      (s s' : StrategyState) (fill : Fill) (g : ℤ) (enforce op : Bool)
      → apply_fill_with_policy s fill g enforce op ≡ ok (s', true)
      → IsApplied s s' fill g enforce op
  unfolding apply_fill_with_policy apply_fill_inner
  apply_fill_with_policy-IsApplied s s' fill g enforce op h =
      elim (Bool-cases (member fill.fill_id s.processed_fills)) [
        | inl seen ↦
            let k : ◌≡◌ {A = Result DomainError (StrategyState × Bool)} (ok (s, false))
                (ok (s', true)) =
              rw seen at h in
            absurd (second_false k)
        | inr new ↦
            let (_, valid, k1) =
              >>=-eq-ok (fail_if (is_invalid_fill fill) invalid_fill) _ (rw new at h) in
            let (notional, n, k2) =
              >>=-eq-ok
                (ok_or (o.checked_mul_decimal fill.price (from_i64 fill.quantity)) numeric_range) _
                k1 in
            let (fees, f, k3) =
              >>=-eq-ok (ok_or (o.checked_add_decimal fill.commission fill.tax) numeric_range) _
                k2 in
            let (after, applies, fin) =
              >>=-eq-ok (apply_direction fill.direction s fill g enforce op notional fees) _ k3 in
            record {
              notional = notional;
              fees = fees;
              after = after;
              notional_is = ok_or-eq _ _ _ n;
              fees_is = ok_or-eq _ _ _ f;
              positive = leb_ℤ→gt fill.quantity (pos 0) (
                  first_false (leb_ℤ fill.quantity (pos 0))
                    (leb_ℤ fill.price zero_decimal
                      || (ltb_ℤ fill.commission zero_decimal || ltb_ℤ fill.tax zero_decimal))
                    (fail_if-ok _ _ _ valid));
              applies = applies;
              result = ap (λ p. p.0) (returned fin);
            }
      ]

  -- A fill that was not processed before is applied.
  pub apply_fill_with_policy-new :
      (s s' : StrategyState) (fill : Fill) (g : ℤ) (enforce op applied : Bool)
      → member fill.fill_id s.processed_fills ≡ false
      → apply_fill_with_policy s fill g enforce op ≡ ok (s', applied)
      → applied ≡ true
  unfolding apply_fill_with_policy apply_fill_inner
  apply_fill_with_policy-new s s' fill g enforce op applied new h =
      let (_, valid, k1) =
        >>=-eq-ok (fail_if (is_invalid_fill fill) invalid_fill) _ (rw new at h) in
      let (notional, n, k2) =
        >>=-eq-ok (ok_or (o.checked_mul_decimal fill.price (from_i64 fill.quantity)) numeric_range)
          _ k1 in
      let (fees, f, k3) =
        >>=-eq-ok (ok_or (o.checked_add_decimal fill.commission fill.tax) numeric_range) _ k2 in
      let (after, applies, fin) =
        >>=-eq-ok (apply_direction fill.direction s fill g enforce op notional fees) _ k3 in
      sym (λ i. (returned fin i).1)

  -- A fill that is not applied changes nothing.
  pub apply_fill_with_policy-unapplied :
      (s s' : StrategyState) (fill : Fill) (g : ℤ) (enforce op : Bool)
      → apply_fill_with_policy s fill g enforce op ≡ ok (s', false)
      → s' ≡ s
  unfolding apply_fill_with_policy apply_fill_inner
  apply_fill_with_policy-unapplied s s' fill g enforce op h =
      elim (Bool-cases (member fill.fill_id s.processed_fills)) [
        | inl seen ↦
            let k : ◌≡◌ {A = Result DomainError (StrategyState × Bool)} (ok (s, false))
                (ok (s', false)) =
              rw seen at h in
            sym (ap (λ p. p.0) (returned k))
        | inr new ↦
            absurd (false≢true (apply_fill_with_policy-new s s' fill g enforce op false new h))
      ]

  -- A position in which every share is for sale or bought today, with neither part negative, stays
  -- so over any fill that is applied.
  pub apply_fill_with_policy-IsBalanced :
      (s s' : StrategyState) (fill : Fill) (g : ℤ) (enforce op : Bool)
      → IsBalanced s.position
      → apply_fill_with_policy s fill g enforce op ≡ ok (s', true)
      → IsBalanced s'.position
  apply_fill_with_policy-IsBalanced s s' fill g enforce op b h =
      let a = apply_fill_with_policy-IsApplied s s' fill g enforce op h in
      subst (λ (x : StrategyState). IsBalanced x.position) a.result
        (apply_direction-IsBalanced fill.direction s a.after fill g enforce op a.notional a.fees
          a.positive b a.applies)

  -- A fill counts once: after it is applied, the same fill is accepted and changes nothing, whatever
  -- the level and the flags it comes with.
  pub apply_fill_with_policy-again :
      (s s' : StrategyState) (fill : Fill) (g g' : ℤ) (enforce enforce' op op' : Bool)
      → apply_fill_with_policy s fill g enforce op ≡ ok (s', true)
      → apply_fill_with_policy s' fill g' enforce' op' ≡ ok (s', false)
  unfolding apply_fill_with_policy
  apply_fill_with_policy-again s s' fill g g' enforce enforce' op op' h =
      let a = apply_fill_with_policy-IsApplied s s' fill g enforce op h in
      let seen : member fill.fill_id s'.processed_fills ≡ true =
        subst (λ (x : StrategyState). member fill.fill_id x.processed_fills ≡ true) a.result
          (member-add_self fill.fill_id a.after.processed_fills) in
      rw seen
