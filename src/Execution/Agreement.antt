-- ===== src/Execution/Agreement.antt =====
-- The account of src/domain.rs and the paper account of src/execution.rs, in step over a fill.
use grid_edge_t.Base.{◌≡◌, ℕ, false, Option, some, sym, subst, ◌∙◌, arith}
use grid_edge_t.Base.Int.{ℤ, ◌+ℤ◌, int_laws}
use grid_edge_t.Base.Machine.{checked_add, checked_sub, to_i64-eq}
use grid_edge_t.Base.Ids.{Text}
use grid_edge_t.Base.Maps.{lookup, member}
use grid_edge_t.Base.Results.{Result, ok, err, panic, ok_or, returned, >>=-eq-ok, ok_or-eq}
use grid_edge_t.Account.Fills.Moves.{
  Agrees, PositionMoves, CashMoves, moves-Agrees, some_inj, apply_fill_with_policy-moves,
}
use grid_edge_t.Config.{Config, policy_of}
use grid_edge_t.Decimal.{Decimal, DecimalOps, from_i64}
use grid_edge_t.Domain.{
  Direction, buy, sell, Fill, Order, OrderIntent, CashAccount, Position, StrategyState,
}
use grid_edge_t.Execution.{FillReport, numeric_range}
use grid_edge_t.Execution.Settle.{Settlement, settle_fill, settle_available, settle_position}
use grid_edge_t.OrderEvents.{EventError}
use grid_edge_t.OrderEvents.Fills.{report_fill}
use grid_edge_t.OrderEvents.Booked.{report_fill-IsReported, when_new}
use grid_edge_t.Account.Fills.Effect.{apply_fill_with_policy-new}
use grid_edge_t.OrderEvents.Parts.{book_fill-cases}
use grid_edge_t.Profit.{checked_actual_order_fill_charges_with_policy}
use grid_edge_t.Execution.Booking.{
  charge_overflow, no_order, or_refused, fill_lot_allocations, broker_fill, book_report,
}

some_order : {a b : Order} → ◌≡◌ {A = Option Order} (some a) (some b) → a ≡ b
some_order h = ground arith

some_charges :
    {a b : Decimal × Decimal} → ◌≡◌ {A = Option (Decimal × Decimal)} (some a) (some b) → a ≡ b
some_charges h = ground arith

moved_position :
    (d d' : Direction) (p p' : Position) (q q' : ℤ)
    → d ≡ d'
    → q ≡ q'
    → PositionMoves d p p' q
    → PositionMoves d' p p' q'
moved_position d d' p p' q q' e k m =
    subst (λ x. PositionMoves d' p p' x) k (subst (λ x. PositionMoves x p p' q) e m)

moved_cash :
    ⦃o : DecimalOps⦄ (d d' : Direction) (c c' : CashAccount) (n n' f f' : Decimal)
    → d ≡ d'
    → n ≡ n'
    → f ≡ f'
    → CashMoves d c c' n f
    → CashMoves d' c c' n' f'
moved_cash d d' c c' n n' f f' e k l m =
    subst (λ x. CashMoves d' c c' n' x) l
      (subst (λ x. CashMoves d' c c' x f) k (subst (λ x. CashMoves x c c' n f) e m))

counted : (others filled more : ℤ) → others +ℤ filled +ℤ more ≡ others +ℤ (filled +ℤ more)
counted others filled more = omega int_laws

or_refused-eq :
    (r : Result EventError StrategyState) (s : StrategyState) → or_refused r ≡ ok s → r ≡ ok s
or_refused-eq (ok x) s h = λ i. ok (returned h i)
or_refused-eq (err e) s h = cc
or_refused-eq panic s h = cc

module _ ⦃o : DecimalOps⦄ where
  settle_position-moves :
      (d : Direction) (p p' : Position) (q : ℤ)
      → settle_position d p q ≡ ok p'
      → PositionMoves d p p' q
  unfolding settle_position
  settle_position-moves buy p p' q h =
      let (total, t, k) = >>=-eq-ok (ok_or (checked_add p.total q) numeric_range) _ h in
      let (today, d, fin) = >>=-eq-ok (ok_or (checked_add p.today_bought q) numeric_range) _ k in
      let e = returned fin in
      (
        ok_or-eq _ numeric_range total t ∙ (λ i. some (e i).total),
        sym (λ i. (e i).sellable),
        ok_or-eq _ numeric_range today d ∙ (λ i. some (e i).today_bought),
      )
  settle_position-moves sell p p' q h =
      let (total, t, k) = >>=-eq-ok (ok_or (checked_sub p.total q) numeric_range) _ h in
      let (sellable, d, fin) = >>=-eq-ok (ok_or (checked_sub p.sellable q) numeric_range) _ k in
      let e = returned fin in
      (
        ok_or-eq _ numeric_range total t ∙ (λ i. some (e i).total),
        ok_or-eq _ numeric_range sellable d ∙ (λ i. some (e i).sellable),
        sym (λ i. (e i).today_bought),
      )

  settle_available-moves :
      (d : Direction) (c c' : CashAccount) (notional fees : Decimal)
      → settle_available d c.available notional fees ≡ ok c'.available
      → o.checked_add_decimal c.total_fees fees ≡ some c'.total_fees
      → CashMoves d c c' notional fees
  unfolding settle_available
  settle_available-moves buy c c' notional fees h f =
      let (debit, d, k) =
        >>=-eq-ok (ok_or (o.checked_add_decimal notional fees) numeric_range) _ h in
      (debit, ok_or-eq _ numeric_range debit d, ok_or-eq _ numeric_range c'.available k, f)
  settle_available-moves sell c c' notional fees h f =
      let (credit, d, k) =
        >>=-eq-ok (ok_or (o.checked_sub_decimal notional fees) numeric_range) _ h in
      (credit, ok_or-eq _ numeric_range credit d, ok_or-eq _ numeric_range c'.available k, f)

  -- What settling a fill goes through.
  record IsSettled (config : Config) (d : Direction) (s s' : Settlement) (report : FillReport)
      : Type 0 where
    pub notional : Decimal
    pub fees : Decimal
    pub charges : Decimal × Decimal
    pub notional_is : o.checked_mul_decimal report.price (from_i64 report.quantity) ≡ some notional
    pub charges_is :
        checked_actual_order_fill_charges_with_policy
          (policy_of config)
          d
          s.filled_notional
          s.commission_charged
          report.price
          report.quantity
        ≡ some charges
    pub fees_is : o.checked_add_decimal charges.0 charges.1 ≡ some fees
    pub filled_is : o.checked_add_decimal s.filled_notional notional ≡ some s'.filled_notional
    pub charged_is :
        o.checked_add_decimal s.commission_charged charges.0 ≡ some s'.commission_charged
    pub quantity_is :
        s'.next.cumulative_filled_quantity ≡ s.next.cumulative_filled_quantity +ℤ report.quantity
    pub cash_moves : CashMoves d s.next.cash s'.next.cash notional fees
    pub position_moves : PositionMoves d s.next.position s'.next.position report.quantity

  settle_fill-IsSettled :
      (config : Config) (d : Direction) (s s' : Settlement) (report : FillReport)
      → settle_fill config d s report ≡ ok s'
      → IsSettled config d s s' report
  unfolding settle_fill
  settle_fill-IsSettled config d s s' report h =
      let (notional, n, k1) =
        >>=-eq-ok
          (ok_or (o.checked_mul_decimal report.price (from_i64 report.quantity)) numeric_range) _
          h in
      let (filled, fi, k2) =
        >>=-eq-ok (ok_or (o.checked_add_decimal s.filled_notional notional) numeric_range) _ k1 in
      let (charges, ch, k3) =
        >>=-eq-ok
          (ok_or
            (checked_actual_order_fill_charges_with_policy (policy_of config) d s.filled_notional
              s.commission_charged report.price report.quantity)
            numeric_range)
          _ k2 in
      let (charged, cc', k4) =
        >>=-eq-ok (ok_or (o.checked_add_decimal s.commission_charged charges.0) numeric_range) _
          k3 in
      let (fees, fe, k5) =
        >>=-eq-ok (ok_or (o.checked_add_decimal charges.0 charges.1) numeric_range) _ k4 in
      let (available, av, k6) =
        >>=-eq-ok (settle_available d s.next.cash.available notional fees) _ k5 in
      let (position, po, k7) = >>=-eq-ok (settle_position d s.next.position report.quantity) _ k6 in
      let (total_fees, tf, k8) =
        >>=-eq-ok (ok_or (o.checked_add_decimal s.next.cash.total_fees fees) numeric_range) _ k7 in
      let (cumulative, cu, fin) =
        >>=-eq-ok
          (ok_or (checked_add s.next.cumulative_filled_quantity report.quantity) numeric_range) _
          k8 in
      let e = returned fin in
      record {
        notional = notional;
        fees = fees;
        charges = charges;
        notional_is = ok_or-eq _ numeric_range notional n;
        charges_is = ok_or-eq _ numeric_range charges ch;
        fees_is = ok_or-eq _ numeric_range fees fe;
        filled_is = ok_or-eq _ numeric_range filled fi ∙ (λ i. some (e i).filled_notional);
        charged_is = ok_or-eq _ numeric_range charged cc' ∙ (λ i. some (e i).commission_charged);
        quantity_is =
            sym (λ i. (e i).next.cumulative_filled_quantity)
            ∙ to_i64-eq (s.next.cumulative_filled_quantity +ℤ report.quantity) cumulative
                (ok_or-eq _ numeric_range cumulative cu);
        cash_moves =
            settle_available-moves d s.next.cash s'.next.cash notional fees
              (av ∙ (λ i. ok (e i).next.cash.available))
              (ok_or-eq _ numeric_range total_fees tf ∙ (λ i. some (e i).next.cash.total_fees));
        position_moves =
            settle_position-moves d s.next.position s'.next.position report.quantity
              (po ∙ (λ i. ok (e i).next.position));
      }

  -- What a recorded fill takes from its report.
  record IsBooked (config : Config) (intent : OrderIntent) (id : Text) (order : Order)
      (report : FillReport) (fill : Fill) : Type 0 where
    pub booked_id : fill.fill_id ≡ report.fill_id
    pub booked_order : fill.order_id ≡ id
    pub booked_direction : fill.direction ≡ intent.direction
    pub booked_price : fill.price ≡ report.price
    pub booked_quantity : fill.quantity ≡ report.quantity
    pub booked_charges :
        checked_actual_order_fill_charges_with_policy
          (policy_of config)
          intent.direction
          order.filled_notional
          order.commission_charged
          report.price
          report.quantity
        ≡ some (fill.commission, fill.tax)

  broker_fill-IsBooked :
      (config : Config) (intent : OrderIntent) (id : Text) (order : Order) (date : ℕ)
      (report : FillReport) (fill : Fill)
      → broker_fill config intent id order date report ≡ ok fill
      → IsBooked config intent id order report fill
  unfolding broker_fill
  broker_fill-IsBooked config intent id order date report fill h =
      let (notional, n, k1) =
        >>=-eq-ok
          (ok_or (o.checked_mul_decimal report.price (from_i64 report.quantity)) charge_overflow) _
          h in
      let (charges, ch, k2) =
        >>=-eq-ok
          (ok_or
            (checked_actual_order_fill_charges_with_policy (policy_of config) intent.direction
              order.filled_notional order.commission_charged report.price report.quantity)
            charge_overflow)
          _ k1 in
      let (fees, _, k3) =
        >>=-eq-ok (ok_or (o.checked_add_decimal charges.0 charges.1) charge_overflow) _ k2 in
      let (allocations, _, fin) =
        >>=-eq-ok
          (fill_lot_allocations intent intent.direction order.filled_quantity report.quantity) _
          k3 in
      let e = returned fin in
      record {
        booked_id = sym (λ i. (e i).fill_id);
        booked_order = sym (λ i. (e i).order_id);
        booked_direction = sym (λ i. (e i).direction);
        booked_price = sym (λ i. (e i).price);
        booked_quantity = sym (λ i. (e i).quantity);
        booked_charges =
            ok_or-eq _ charge_overflow charges ch ∙ (λ i. some ((e i).commission, (e i).tax));
      }

  -- The account of the domain, with the order, against the paper account while its report is settled.
  -- The paper account counts the shares of all orders: those of other orders are given.
  pub record InStep (id : Text) (others : ℤ) (s : StrategyState) (b : Settlement) : Type 0 where
    pub order : Order
    pub known : lookup id s.orders ≡ some order
    pub same_quantity : b.next.cumulative_filled_quantity ≡ others +ℤ order.filled_quantity
    pub same_notional : b.filled_notional ≡ order.filled_notional
    pub same_commission : b.commission_charged ≡ order.commission_charged
    pub agrees : Agrees s.cash s.position b.next.cash b.next.position

  -- The same for a fill that is recorded as the report has it.
  recorded-InStep :
      (config : Config) (intent : OrderIntent) (id : Text) (others : ℤ) (schema date : ℕ)
      (s s' : StrategyState) (b b' : Settlement) (report : FillReport) (order : Order) (fill : Fill)
      → InStep id others s b
      → member report.fill_id s.processed_fills ≡ false
      → lookup id s.orders ≡ some order
      → IsBooked config intent id order report fill
      → report_fill s schema report.final_fill fill intent.grid_index ≡ ok s'
      → IsSettled config intent.direction b b' report
      → InStep id others s' b'
  recorded-InStep config intent id others schema date s s' b b' report order fill k new known booked
        h z =
      let unseen : member fill.fill_id s.processed_fills ≡ false =
        (λ i. member (booked.booked_id i) s.processed_fills) ∙ new in
      let (order', known', r) =
        report_fill-IsReported s s' schema report.final_fill fill intent.grid_index unseen h in
      let (level, enforce, opening, applied, e) =
        book_fill-cases schema order' s r.after fill intent.grid_index r.books in
      let is_applied =
        apply_fill_with_policy-new s r.after fill level enforce opening applied unseen e in
      let (notional, fees, n, f, cash, position) =
        apply_fill_with_policy-moves s r.after fill level enforce opening
          (e ∙ (λ i. ok (r.after, is_applied i))) in
      let order_is : order ≡ k.order = some_order (sym known ∙ k.known) in
      let order'_is : order' ≡ k.order =
        some_order (sym known' ∙ (λ i. lookup (booked.booked_order i) s.orders) ∙ k.known) in
      let charges_are : z.charges ≡ (fill.commission, fill.tax) = some_charges (
        sym z.charges_is
        ∙ (λ i.
            checked_actual_order_fill_charges_with_policy (policy_of config) intent.direction
              ((k.same_notional ∙ (λ j. (sym order_is j).filled_notional)) i)
              ((k.same_commission ∙ (λ j. (sym order_is j).commission_charged)) i) report.price
              report.quantity)
        ∙ booked.booked_charges) in
      let value : o.checked_mul_decimal fill.price (from_i64 fill.quantity) ≡ some z.notional =
        (λ i. o.checked_mul_decimal (booked.booked_price i) (from_i64 (booked.booked_quantity i)))
        ∙ z.notional_is in
      let notional_is : notional ≡ z.notional = some_inj (sym n ∙ value) in
      let value_is : r.notional ≡ z.notional = some_inj (sym r.notional_is ∙ value) in
      let fees_are : fees ≡ z.fees = some_inj (
        sym f
        ∙ (λ i. o.checked_add_decimal (sym charges_are i).0 (sym charges_are i).1)
        ∙ z.fees_is) in
      let cash' : CashMoves intent.direction s.cash r.after.cash z.notional z.fees =
        moved_cash fill.direction intent.direction s.cash r.after.cash notional z.notional fees
          z.fees booked.booked_direction notional_is fees_are cash in
      let position' : PositionMoves intent.direction s.position r.after.position report.quantity =
        moved_position fill.direction intent.direction s.position r.after.position fill.quantity
          report.quantity booked.booked_direction booked.booked_quantity position in
      let both =
        moves-Agrees intent.direction s.cash r.after.cash b.next.cash b'.next.cash s.position
          r.after.position b.next.position b'.next.position z.notional z.fees report.quantity
          k.agrees cash' z.cash_moves position' z.position_moves in
      record {
        order = r.next;
        known = (λ i. lookup (sym booked.booked_order i) s'.orders) ∙ r.known;
        same_quantity =
            z.quantity_is
            ∙ (λ i. k.same_quantity i +ℤ report.quantity)
            ∙ counted others k.order.filled_quantity report.quantity
            ∙ (λ i. others +ℤ ((sym order'_is i).filled_quantity +ℤ sym booked.booked_quantity i))
            ∙ (λ i. others +ℤ sym r.quantity_is i);
        same_notional = some_inj (
            sym z.filled_is
            ∙ (λ i.
                o.checked_add_decimal
                  ((k.same_notional ∙ (λ j. (sym order'_is j).filled_notional)) i) (sym value_is i))
            ∙ r.filled_is);
        same_commission = some_inj (
            sym z.charged_is
            ∙ (λ i.
                o.checked_add_decimal
                  ((k.same_commission ∙ (λ j. (sym order'_is j).commission_charged)) i)
                  (charges_are i).0)
            ∙ r.charged_is);
        agrees = record {
          same_available = both.same_available ∙ sym r.same.same_available;
          same_fees = both.same_fees ∙ sym r.same.same_fees;
          same_total = both.same_total ∙ sym r.same.same_total;
          same_sellable = both.same_sellable ∙ sym r.same.same_sellable;
          same_today = both.same_today ∙ sym r.same.same_today;
        };
      }

  -- A fill of the paper report that the service has not recorded yet keeps the two accounts in step:
  -- from states that agree on the available cash, the fees, the shares in total, for sale and bought
  -- today, and on the notional, the commission and the quantity that the order was filled with, where
  -- the paper account counts that of other orders too, the states after recording it and after settling
  -- it agree on them again. What is frozen is not compared.
  pub book_report-InStep :
      (config : Config) (intent : OrderIntent) (id : Text) (others : ℤ) (schema date : ℕ)
      (s s' : StrategyState) (b b' : Settlement) (report : FillReport)
      → InStep id others s b
      → member report.fill_id s.processed_fills ≡ false
      → book_report config intent id schema date s report ≡ ok s'
      → settle_fill config intent.direction b report ≡ ok b'
      → InStep id others s' b'
  unfolding book_report
  book_report-InStep config intent id others schema date s s' b b' report k new h settles =
      let (order, found, h1) =
        >>=-eq-ok (ok_or (lookup id s.orders) no_order) _
          (when_new (member report.fill_id s.processed_fills) (ok s) _ (ok s') new h) in
      let (fill, made, h2) = >>=-eq-ok (broker_fill config intent id order date report) _ h1 in
      let reported =
        or_refused-eq (report_fill s schema report.final_fill fill intent.grid_index) s' h2 in
      recorded-InStep config intent id others schema date s s' b b' report order fill k new
        (ok_or-eq (lookup id s.orders) no_order order found)
        (broker_fill-IsBooked config intent id order date report fill made) reported
        (settle_fill-IsSettled config intent.direction b b' report settles)
