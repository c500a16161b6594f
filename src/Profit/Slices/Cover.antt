-- ===== src/Profit/Slices/Cover.antt =====
-- `canonical_fill_allocations` of src/profit.rs, over all its slices.
use grid_edge_t.Base.{◌≡◌, Any, some, List, refl, subst, map}
use grid_edge_t.Base.Int.{◌+ℤ◌, ℤ, pos, ◌≤ℤ◌, ◌<ℤ◌}
use grid_edge_t.Base.Results.{ok, absent, ok_or, >>=-eq-ok, ok_or-eq, returned}
use grid_edge_t.Base.Ids.{Text}
use grid_edge_t.Decimal.{Decimal, from_i64, DecimalOps}
use grid_edge_t.Profit.{
  checked_worst_sell_fill_price_with_policy, checked_conservative_sell_fees_with_policy,
}
use grid_edge_t.Domain.{LotQuantityAllocation, ProfitGuardPolicy}
use grid_edge_t.Profit.Slices.{SellSliceEconomics, economics, prefix_cost}

abbrev pub quantities : List LotQuantityAllocation → List ℤ
quantities = map (λ (a : LotQuantityAllocation). a.quantity)

module _ ⦃o : DecimalOps⦄ where
  -- A slice that sells something and does not lose: at its adverse price, its proceeds without the
  -- ceiling of its fees and without its cost are its profit, which is not negative.
  pub record EarnsItsCost (policy : ProfitGuardPolicy) (limit_price : Decimal)
      (a : LotQuantityAllocation) : Type 0 where
    pub sells : pos 0 <ℤ a.quantity
    pub price_is :
        checked_worst_sell_fill_price_with_policy policy limit_price ≡ some a.worst_fill_price
    pub fees_are :
        checked_conservative_sell_fees_with_policy policy a.worst_fill_price a.quantity
        ≡ some a.maximum_sell_fees
    pub proceeds : Decimal
    pub net : Decimal
    pub proceeds_are :
        o.checked_mul_decimal a.worst_fill_price (from_i64 a.quantity) ≡ some proceeds
    pub net_is : o.checked_sub_decimal proceeds a.maximum_sell_fees ≡ some net
    pub profit_is : o.checked_sub_decimal net a.cost_basis ≡ some a.worst_case_profit
    pub no_loss : pos 0 ≤ℤ a.worst_case_profit

  -- The allocation of some shares of a lot with these figures.
  abbrev pub allocated : Text → Text → ℤ → SellSliceEconomics → LotQuantityAllocation
  allocated lot tranche quantity e = record {
    lot_id = lot;
    tranche_id = tranche;
    quantity = quantity;
    cost_basis = e.cost_basis;
    worst_fill_price = e.worst_fill_price;
    maximum_sell_fees = e.maximum_sell_fees;
    worst_case_profit = e.worst_case_profit;
  }

  pub economics-EarnsItsCost :
      (policy : ProfitGuardPolicy) (cost : Decimal) (quantity : ℤ) (limit_price : Decimal)
      (e : SellSliceEconomics) (lot tranche : Text)
      → pos 0 <ℤ quantity
      → pos 0 ≤ℤ e.worst_case_profit
      → economics policy cost quantity limit_price ≡ ok e
      → EarnsItsCost policy limit_price (allocated lot tranche quantity e) × (e.cost_basis ≡ cost)
  unfolding economics
  economics-EarnsItsCost policy cost quantity limit_price e lot tranche n earns h =
      let (worst, w, k1) =
        >>=-eq-ok (ok_or (checked_worst_sell_fill_price_with_policy policy limit_price) absent) _
          h in
      let (fees, f, k2) =
        >>=-eq-ok (ok_or (checked_conservative_sell_fees_with_policy policy worst quantity) absent)
          _ k1 in
      let (proceeds, p, k3) =
        >>=-eq-ok (ok_or (o.checked_mul_decimal worst (from_i64 quantity)) absent) _ k2 in
      let (net, m, k4) = >>=-eq-ok (ok_or (o.checked_sub_decimal proceeds fees) absent) _ k3 in
      let (profit, r, fin) = >>=-eq-ok (ok_or (o.checked_sub_decimal net cost) absent) _ k4 in
      subst
        (λ (x : SellSliceEconomics).
          pos 0 ≤ℤ x.worst_case_profit
          → EarnsItsCost policy limit_price (allocated lot tranche quantity x)
            × (x.cost_basis ≡ cost))
        (returned fin)
        (λ nonneg. (
          record {
            sells = n;
            price_is = ok_or-eq _ absent worst w;
            fees_are = ok_or-eq _ absent fees f;
            proceeds = proceeds;
            net = net;
            proceeds_are = ok_or-eq _ absent proceeds p;
            net_is = ok_or-eq _ absent net m;
            profit_is = ok_or-eq _ absent profit r;
            no_loss = nonneg;
          },
          refl,
        ))
        earns

  -- The slice takes its shares of a planned one from some share on, at what these shares cost.
  pub record IsSliceOf (s planned : LotQuantityAllocation) : Type 0 where
    pub skipped : ℤ
    pub upto : Decimal
    pub before : Decimal
    pub same_lot : s.lot_id ≡ planned.lot_id
    pub fits : skipped +ℤ s.quantity ≤ℤ planned.quantity
    pub upto_is : prefix_cost planned (skipped +ℤ s.quantity) ≡ some upto
    pub before_is : prefix_cost planned skipped ≡ some before
    pub cost_is : o.checked_sub_decimal upto before ≡ some s.cost_basis

  -- A slice of a planned sale.
  abbrev pub IsSlice :
      ProfitGuardPolicy → Decimal → List LotQuantityAllocation → LotQuantityAllocation → Type 0
  IsSlice policy limit_price planned s =
      EarnsItsCost policy limit_price s × Any (IsSliceOf s) planned
