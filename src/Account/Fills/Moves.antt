-- ===== src/Account/Fills/Moves.antt =====
-- `apply_fill_with_policy` of src/domain.rs, over the cash and the position.
use grid_edge_t.Base.{◌≡◌, Bool, true, Option, some, List, [], ◌∷◌, sym, subst, ◌∙◌, arith}
use grid_edge_t.Base.Int.{ℤ, ltb_ℤ}
use grid_edge_t.Base.Machine.{checked_add, checked_sub}
use grid_edge_t.Base.Maps.{lookup}
use grid_edge_t.Base.Results.{ok, or_panic, ok_or, fail_if, returned, >>=-eq-ok, ok_or-eq}
use grid_edge_t.Account.{insufficient_cash, numeric_range}
use grid_edge_t.Account.Fills.{
  ProjectedSlice, buy_position, sell_position, apply_buy, apply_sell, apply_direction,
  apply_fill_with_policy, apply_slices,
}
use grid_edge_t.Account.Fills.Effect.{apply_sell-IsSale, apply_fill_with_policy-IsApplied}
use grid_edge_t.Decimal.{Decimal, DecimalOps, from_i64}
use grid_edge_t.Domain.{Direction, buy, sell, Fill, CashAccount, Position, StrategyState}

-- The cash and the position of two accounts, without what is frozen.
pub record Agrees (c : CashAccount) (p : Position) (c' : CashAccount) (p' : Position) : Type 0 where
  pub same_available : c'.available ≡ c.available
  pub same_fees : c'.total_fees ≡ c.total_fees
  pub same_total : p'.total ≡ p.total
  pub same_sellable : p'.sellable ≡ p.sellable
  pub same_today : p'.today_bought ≡ p.today_bought

-- What a fill does to a position.
abbrev pub PositionMoves : Direction → Position → Position → ℤ → Type 0
PositionMoves buy p p' q =
    (checked_add p.total q ≡ some p'.total)
    × (p'.sellable ≡ p.sellable)
    × (checked_add p.today_bought q ≡ some p'.today_bought)
PositionMoves sell p p' q =
    (checked_sub p.total q ≡ some p'.total)
    × (checked_sub p.sellable q ≡ some p'.sellable)
    × (p'.today_bought ≡ p.today_bought)

pub some_inj : {a b : ℤ} → ◌≡◌ {A = Option ℤ} (some a) (some b) → a ≡ b
some_inj h = ground arith

module _ ⦃o : DecimalOps⦄ where
  -- What a fill does to the cash.
  abbrev pub CashMoves : Direction → CashAccount → CashAccount → Decimal → Decimal → Type 0
  CashMoves buy c c' notional fees =
      (debit : Decimal) × (o.checked_add_decimal notional fees ≡ some debit)
      × (o.checked_sub_decimal c.available debit ≡ some c'.available)
      × (o.checked_add_decimal c.total_fees fees ≡ some c'.total_fees)
  CashMoves sell c c' notional fees =
      (credit : Decimal) × (o.checked_sub_decimal notional fees ≡ some credit)
      × (o.checked_add_decimal c.available credit ≡ some c'.available)
      × (o.checked_add_decimal c.total_fees fees ≡ some c'.total_fees)

  -- Two accounts that agree still agree after the same fill.
  pub moves-Agrees :
      (d : Direction) (c c' b b' : CashAccount) (p p' r r' : Position) (notional fees : Decimal)
      (q : ℤ)
      → Agrees c p b r
      → CashMoves d c c' notional fees
      → CashMoves d b b' notional fees
      → PositionMoves d p p' q
      → PositionMoves d r r' q
      → Agrees c' p' b' r'
  moves-Agrees buy c c' b b' p p' r r' notional fees q k (x, x_is, ca, cf) (y, y_is, ba, bf)
        (pt, ps, pd) (rt, rs, rd) =
      let same = some_inj (sym y_is ∙ x_is) in
      record {
        same_available =
            some_inj (sym ba ∙ (λ i. o.checked_sub_decimal (k.same_available i) (same i)) ∙ ca);
        same_fees = some_inj (sym bf ∙ (λ i. o.checked_add_decimal (k.same_fees i) fees) ∙ cf);
        same_total = some_inj (sym rt ∙ (λ i. checked_add (k.same_total i) q) ∙ pt);
        same_sellable = rs ∙ k.same_sellable ∙ sym ps;
        same_today = some_inj (sym rd ∙ (λ i. checked_add (k.same_today i) q) ∙ pd);
      }
  moves-Agrees sell c c' b b' p p' r r' notional fees q k (x, x_is, ca, cf) (y, y_is, ba, bf)
        (pt, ps, pd) (rt, rs, rd) =
      let same = some_inj (sym y_is ∙ x_is) in
      record {
        same_available =
            some_inj (sym ba ∙ (λ i. o.checked_add_decimal (k.same_available i) (same i)) ∙ ca);
        same_fees = some_inj (sym bf ∙ (λ i. o.checked_add_decimal (k.same_fees i) fees) ∙ cf);
        same_total = some_inj (sym rt ∙ (λ i. checked_sub (k.same_total i) q) ∙ pt);
        same_sellable = some_inj (sym rs ∙ (λ i. checked_sub (k.same_sellable i) q) ∙ ps);
        same_today = rd ∙ k.same_today ∙ sym pd;
      }

  buy_position-moves :
      (p p' : Position) (q : ℤ) → buy_position p q ≡ ok p' → PositionMoves buy p p' q
  unfolding buy_position
  buy_position-moves p p' q h =
      let (total, t, k) = >>=-eq-ok (ok_or (checked_add p.total q) numeric_range) _ h in
      let (today, d, fin) = >>=-eq-ok (ok_or (checked_add p.today_bought q) numeric_range) _ k in
      let e = returned fin in
      (
        ok_or-eq _ numeric_range total t ∙ (λ i. some (e i).total),
        sym (λ i. (e i).sellable),
        ok_or-eq _ numeric_range today d ∙ (λ i. some (e i).today_bought),
      )

  sell_position-moves :
      (p p' : Position) (q : ℤ) → sell_position p q ≡ ok p' → PositionMoves sell p p' q
  unfolding sell_position
  sell_position-moves p p' q h =
      let (total, t, k) = >>=-eq-ok (ok_or (checked_sub p.total q) numeric_range) _ h in
      let (sellable, d, fin) = >>=-eq-ok (ok_or (checked_sub p.sellable q) numeric_range) _ k in
      let e = returned fin in
      (
        ok_or-eq _ numeric_range total t ∙ (λ i. some (e i).total),
        ok_or-eq _ numeric_range sellable d ∙ (λ i. some (e i).sellable),
        sym (λ i. (e i).today_bought),
      )

  -- Slices leave the cash and the position alone.
  apply_slices-account :
      (slices : List ProjectedSlice) (s s' : StrategyState)
      → apply_slices slices s ≡ ok s'
      → (s.cash ≡ s'.cash) × (s.position ≡ s'.position)
  unfolding apply_slices
  apply_slices-account [] s s' h = ((λ i. (returned h i).cash), (λ i. (returned h i).position))
  apply_slices-account (slice ∷ rest) s s' h =
      let (lot, _, k1) = >>=-eq-ok (or_panic (lookup slice.allocation.lot_id s.lots)) _ h in
      let (remaining, _, k2) =
        >>=-eq-ok
          (ok_or (checked_sub lot.remaining_quantity slice.allocation.quantity) numeric_range) _
          k1 in
      let (lot_pnl, _, k3) =
        >>=-eq-ok (ok_or (o.checked_add_decimal lot.realized_pnl slice.pnl) numeric_range) _ k2 in
      let (realized, _, k4) =
        >>=-eq-ok (ok_or (o.checked_add_decimal s.realized_pnl slice.pnl) numeric_range) _ k3 in
      apply_slices-account rest _ s' k4

  apply_buy-moves :
      (s s' : StrategyState) (fill : Fill) (g : ℤ) (op : Bool) (notional fees : Decimal)
      → apply_buy s fill g op notional fees ≡ ok s'
      → CashMoves buy s.cash s'.cash notional fees
        × PositionMoves buy s.position s'.position fill.quantity
  unfolding apply_buy
  apply_buy-moves s s' fill g op notional fees h =
      let (total, t, k1) =
        >>=-eq-ok (ok_or (o.checked_add_decimal notional fees) numeric_range) _ h in
      let (_, _, k2) = >>=-eq-ok (fail_if (ltb_ℤ s.cash.available total) insufficient_cash) _ k1 in
      let (available, a, k3) =
        >>=-eq-ok (ok_or (o.checked_sub_decimal s.cash.available total) numeric_range) _ k2 in
      let (total_fees, f, k4) =
        >>=-eq-ok (ok_or (o.checked_add_decimal s.cash.total_fees fees) numeric_range) _ k3 in
      let (p, position, k5) = >>=-eq-ok (buy_position s.position fill.quantity) _ k4 in
      let (deployed, _, fin) =
        >>=-eq-ok (ok_or (o.checked_add_decimal s.deployed_grid_budget notional) numeric_range) _
          k5 in
      let e = returned fin in
      let moved : buy_position s.position fill.quantity ≡ ok s'.position =
        position ∙ (λ i. ok (e i).position) in
      (
        (
          total,
          ok_or-eq _ numeric_range total t,
          ok_or-eq _ numeric_range available a ∙ (λ i. some (e i).cash.available),
          ok_or-eq _ numeric_range total_fees f ∙ (λ i. some (e i).cash.total_fees),
        ),
        buy_position-moves s.position s'.position fill.quantity moved,
      )

  apply_sell-moves :
      (s s' : StrategyState) (fill : Fill) (enforce : Bool) (notional fees : Decimal)
      → apply_sell s fill enforce notional fees ≡ ok s'
      → CashMoves sell s.cash s'.cash notional fees
        × PositionMoves sell s.position s'.position fill.quantity
  apply_sell-moves s s' fill enforce notional fees h =
      let sale = apply_sell-IsSale s s' fill enforce notional fees h in
      let (cash, position) = apply_slices-account sale.projected s sale.sold sale.applies in
      let moved : sell_position s.position fill.quantity ≡ ok s'.position =
        (λ i. sell_position (position i) fill.quantity) ∙ sale.has_position in
      (
        (
          sale.proceeds,
          sale.proceeds_is,
          (λ i. o.checked_add_decimal (cash i).available sale.proceeds) ∙ sale.available_is,
          (λ i. o.checked_add_decimal (cash i).total_fees fees) ∙ sale.fees_is,
        ),
        sell_position-moves s.position s'.position fill.quantity moved,
      )

  apply_direction-moves :
      (d : Direction) (s after : StrategyState) (fill : Fill) (g : ℤ) (enforce op : Bool)
      (notional fees : Decimal)
      → apply_direction d s fill g enforce op notional fees ≡ ok after
      → CashMoves d s.cash after.cash notional fees
        × PositionMoves d s.position after.position fill.quantity
  unfolding apply_direction
  apply_direction-moves buy s after fill g enforce op notional fees k =
      apply_buy-moves s after fill g op notional fees k
  apply_direction-moves sell s after fill g enforce op notional fees k =
      apply_sell-moves s after fill enforce notional fees k

  -- A fill that is applied moves the cash and the position by its value, its fees and its shares.
  pub apply_fill_with_policy-moves :
      (s s' : StrategyState) (fill : Fill) (g : ℤ) (enforce op : Bool)
      → apply_fill_with_policy s fill g enforce op ≡ ok (s', true)
      → (notional : Decimal) × (fees : Decimal) × (o.checked_mul_decimal fill.price
            (from_i64 fill.quantity)
          ≡ some notional)
        × (o.checked_add_decimal fill.commission fill.tax ≡ some fees)
        × CashMoves fill.direction s.cash s'.cash notional fees
        × PositionMoves fill.direction s.position s'.position fill.quantity
  apply_fill_with_policy-moves s s' fill g enforce op h =
      let a = apply_fill_with_policy-IsApplied s s' fill g enforce op h in
      let (cash, position) =
        apply_direction-moves fill.direction s a.after fill g enforce op a.notional a.fees
          a.applies in
      (
        a.notional,
        a.fees,
        a.notional_is,
        a.fees_is,
        subst (λ (x : StrategyState). CashMoves fill.direction s.cash x.cash a.notional a.fees)
            a.result cash,
        subst
            (λ (x : StrategyState).
              PositionMoves fill.direction s.position x.position fill.quantity)
            a.result position,
      )
