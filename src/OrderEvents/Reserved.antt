-- ===== src/OrderEvents/Reserved.antt =====
-- The order events of src/event.rs, over the shares that sell orders freeze.
use grid_edge_t.Base.{
  ◌≡◌, ◌≢◌, ℕ, true, not, ◌||◌, Option, some, none, inl, inr, refl, sym, ap, subst, arith,
  Bool-cases, ◌∙◌,
}
use grid_edge_t.Base.Ids.{Text, ◌=ᵗ◌, is_blank}
use grid_edge_t.Base.Int.{ℤ, pos, ◌+ℤ◌, ◌-ℤ◌, int_laws}
use grid_edge_t.Base.Machine.{checked_add, checked_sub, to_i64-eq}
use grid_edge_t.Base.Maps.{lookup, insert, lookup-insert-cases}
use grid_edge_t.Base.Results.{Result, ok, err, returned, ok_or, >>=-eq-ok, ok_or-eq}
use grid_edge_t.Base.Totals.{IsSorted, total, insert-IsSorted, total-insert}
use grid_edge_t.Decimal.{DecimalOps}
use grid_edge_t.Domain.{
  buy, OrderStatus, created, submitted, accepted, partially_filled, filled, rejected,
  cancel_pending, cancelled, Order, StrategyState,
}
use grid_edge_t.OrderEvents.{
  EventError, StatusEvent, order_accepted, order_rejected, order_cancelled, order_cancel_requested,
  order_missing, numeric_range, same_status, status_of, move, or_invalid, with_order, requested,
  request_cancel, keep_request, is_instant, reason_missing, conflicting_cancel, submit_order,
  release, ends, report_moved, report_status,
}
use grid_edge_t.Orders.{can_transition, transition}

-- What an order keeps frozen: nothing before it is submitted.
abbrev pub held_in : OrderStatus → ℤ → ℤ
held_in created reserved = pos 0
held_in _ reserved = reserved

abbrev pub held : Order → ℤ
held order = held_in order.status order.reserved_quantity_remaining

-- A buy reserves no shares.
abbrev pub IsSaleOnly : Order → Type 0
IsSaleOnly order = order.intent.direction ≡ buy → order.reserved_quantity_remaining ≡ pos 0

-- The orders are listed in the order of their ids, buys reserve no shares, and the frozen shares are
-- what the orders keep frozen.
pub record IsReserved (s : StrategyState) : Type 0 where
  pub sorted : IsSorted s.orders
  pub sale_only : (id : Text) (order : Order) → lookup id s.orders ≡ some order → IsSaleOnly order
  pub frozen : s.position.frozen_sell ≡ total held s.orders

-- Replacing an order, with the frozen shares changed by what it holds.
pub replace-IsReserved :
    (s s' : StrategyState) (id : Text) (old next : Order)
    → IsReserved s
    → lookup id s.orders ≡ some old
    → IsSaleOnly next
    → s'.orders ≡ insert id next s.orders
    → s'.position.frozen_sell ≡ s.position.frozen_sell -ℤ held old +ℤ held next
    → IsReserved s'
replace-IsReserved s s' id old next k known only orders frozen = record {
  sorted = rw orders (insert-IsSorted id next old s.orders known k.sorted);
  sale_only = λ j order h. elim (lookup-insert-cases j id next order s.orders (rw orders at h)) [
    | inl (_, e) ↦ subst IsSaleOnly (sym e) only
    | inr (_, found) ↦ k.sale_only j order found
  ];
  frozen =
      rw (frozen, orders, total-insert held id next old s.orders known k.sorted, k.frozen) refl;
}

pub move_lem :
    (order moved : Order) (next : OrderStatus)
    → move order next ≡ ok moved
    → (can_transition order.status next ≡ true) × (record order { status = next } ≡ moved)
unfolding move transition
move_lem order moved next h = elim (Bool-cases (can_transition order.status next)) [
  | inl can ↦ (can, returned (rw can at h))
  | inr not_so ↦
      let k : ◌≡◌ {A = Result EventError Order} (or_invalid (err _)) (ok moved) = rw not_so at h in
      cc
]

only_created : (s : OrderStatus) → can_transition s submitted ≡ true → s ≡ created
unfolding can_transition
only_created s h = ground arith

-- A status that is followed by another than `submitted` is not `created`.
pub held_before :
    (s next : OrderStatus) (reserved : ℤ)
    → can_transition s next ≡ true
    → next ≢ submitted
    → held_in s reserved ≡ reserved
unfolding can_transition
held_before created next reserved h n = ground arith
held_before submitted next reserved h n = refl
held_before accepted next reserved h n = refl
held_before partially_filled next reserved h n = refl
held_before filled next reserved h n = refl
held_before rejected next reserved h n = refl
held_before cancel_pending next reserved h n = refl
held_before cancelled next reserved h n = refl

pub same_status-eq : (s next : OrderStatus) → same_status s next ≡ true → s ≡ next
same_status-eq s next h = ground arith

freeze_more : (f r : ℤ) → f +ℤ r ≡ f -ℤ pos 0 +ℤ r
freeze_more f r = omega int_laws

freeze_less : (f r : ℤ) → f -ℤ r ≡ f -ℤ r +ℤ pos 0
freeze_less f r = omega int_laws

pub freeze_same : (f r : ℤ) → f ≡ f -ℤ r +ℤ r
freeze_same f r = omega int_laws

held_zero : (s : OrderStatus) → held_in s (pos 0) ≡ pos 0
held_zero s = ground arith

-- What a request to cancel leaves of an order.
record IsSameOrder (order next : Order) : Type 0 where
  pub keeps_status : next.status ≡ order.status
  pub keeps_reserved : next.reserved_quantity_remaining ≡ order.reserved_quantity_remaining
  pub keeps_intent : next.intent ≡ order.intent

IsSameOrder-refl : (order : Order) → IsSameOrder order order
IsSameOrder-refl order = record { keeps_status = refl; keeps_reserved = refl; keeps_intent = refl }

keep_request-IsSameOrder :
    (order next : Order) (time : ℕ) (reason : Text) (known : Option Text)
    → keep_request order time reason known ≡ ok next
    → IsSameOrder order next
unfolding keep_request
keep_request-IsSameOrder order next time reason none h =
    subst (IsSameOrder order) (returned h)
      (record { keeps_status = refl; keeps_reserved = refl; keeps_intent = refl })
keep_request-IsSameOrder order next time reason (some existing) h =
    elim (Bool-cases
      (not (existing =ᵗ reason) || not (is_instant order.cancel_requested_at time))) [
        | inl differs ↦
            let k : ◌≡◌ {A = Result EventError Order} (err conflicting_cancel) (ok next) =
              rw differs at h in
            cc
        | inr same ↦ subst (IsSameOrder order) (returned (rw same at h)) (IsSameOrder-refl order)
      ]

requested-IsSameOrder :
    (event : StatusEvent) (order next : Order) (time : ℕ)
    → requested event order time ≡ ok next
    → IsSameOrder order next
unfolding requested request_cancel
requested-IsSameOrder order_accepted order next time h =
    subst (IsSameOrder order) (returned h) (IsSameOrder-refl order)
requested-IsSameOrder order_rejected order next time h =
    subst (IsSameOrder order) (returned h) (IsSameOrder-refl order)
requested-IsSameOrder order_cancelled order next time h =
    subst (IsSameOrder order) (returned h) (IsSameOrder-refl order)
requested-IsSameOrder (order_cancel_requested none) order next time h = cc
requested-IsSameOrder (order_cancel_requested (some reason)) order next time h =
    elim (Bool-cases (is_blank reason)) [
      | inl blank ↦
          let k : ◌≡◌ {A = Result EventError Order} (err reason_missing) (ok next) =
            rw blank at h in
          cc
      | inr given ↦
          keep_request-IsSameOrder order next time reason order.cancel_requested_reason
            (rw given at h)
    ]

-- None of the reported statuses is that of a submission, nor of an order just created.
status_of-ne : (event : StatusEvent) → (status_of event ≢ submitted) × (status_of event ≢ created)
status_of-ne order_accepted = (λ h. cc, λ h. cc)
status_of-ne order_rejected = (λ h. cc, λ h. cc)
status_of-ne order_cancelled = (λ h. cc, λ h. cc)
status_of-ne (order_cancel_requested reason) = (λ h. cc, λ h. cc)

pub held_after : (s : OrderStatus) (reserved : ℤ) → s ≢ created → held_in s reserved ≡ reserved
held_after created reserved n = absurd (n refl)
held_after submitted reserved n = refl
held_after accepted reserved n = refl
held_after partially_filled reserved n = refl
held_after filled reserved n = refl
held_after rejected reserved n = refl
held_after cancel_pending reserved n = refl
held_after cancelled reserved n = refl

module _ ⦃o : DecimalOps⦄ where
  pub submit_order-IsReserved :
      (s s' : StrategyState) (id : Text) → IsReserved s → submit_order s id ≡ ok s' → IsReserved s'
  unfolding submit_order
  submit_order-IsReserved s s' id k h =
      let (order, found, k1) = >>=-eq-ok (ok_or (lookup id s.orders) order_missing) _ h in
      let known = ok_or-eq (lookup id s.orders) order_missing order found in
      elim (Bool-cases (same_status order.status submitted)) [
        | inl same ↦ subst IsReserved (returned (rw same at k1)) k
        | inr other ↦
            let (cash, _, k2) =
              >>=-eq-ok
                (ok_or (o.checked_add_decimal s.cash.frozen order.reserved_cash_remaining)
                  numeric_range)
                _ (rw other at k1) in
            let (frozen, f, k3) =
              >>=-eq-ok
                (ok_or (checked_add s.position.frozen_sell order.reserved_quantity_remaining)
                  numeric_range)
                _ k2 in
            let (moved, m, fin) = >>=-eq-ok (move order submitted) _ k3 in
            let (can, is_moved) = move_lem order moved submitted m in
            let frozen_is : frozen ≡ s.position.frozen_sell +ℤ order.reserved_quantity_remaining =
              to_i64-eq _ frozen (ok_or-eq _ numeric_range frozen f) in
            let was : held order ≡ pos 0 =
              ap (λ st. held_in st order.reserved_quantity_remaining)
                (only_created order.status can) in
            subst IsReserved (returned fin) (
              replace-IsReserved s _ id order moved k known
                (subst IsSaleOnly is_moved (k.sale_only id order known)) refl
                (rw (frozen_is, was, sym (ap held is_moved))
                  (freeze_more s.position.frozen_sell order.reserved_quantity_remaining)))
      ]

  release-IsReserved :
      (s s' : StrategyState) (id : Text) (old order : Order) (next : OrderStatus)
      → IsReserved s
      → lookup id s.orders ≡ some old
      → IsSameOrder old order
      → next ≢ submitted
      → next ≢ created
      → release s id order next ≡ ok s'
      → IsReserved s'
  unfolding release
  release-IsReserved s s' id old order next k known same ns nc h =
      let (cash, _, k1) =
        >>=-eq-ok
          (ok_or (o.checked_sub_decimal s.cash.frozen order.reserved_cash_remaining) numeric_range)
          _ h in
      let (frozen, f, k2) =
        >>=-eq-ok
          (ok_or (checked_sub s.position.frozen_sell order.reserved_quantity_remaining)
            numeric_range)
          _ k1 in
      let (moved, m, fin) = >>=-eq-ok (move order next) _ k2 in
      let (can, is_moved) = move_lem order moved next m in
      let frozen_is : frozen ≡ s.position.frozen_sell -ℤ order.reserved_quantity_remaining =
        to_i64-eq _ frozen (ok_or-eq _ numeric_range frozen f) in
      let was : held old ≡ old.reserved_quantity_remaining =
        held_before old.status next old.reserved_quantity_remaining
          (subst (λ st. can_transition st next ≡ true) same.keeps_status can) ns in
      let now : held_in moved.status (pos 0) ≡ pos 0 = held_zero moved.status in
      subst IsReserved (returned fin) (
        replace-IsReserved s _ id old _ k known (λ e. refl) refl
          (rw (frozen_is, was, now, same.keeps_reserved)
            (freeze_less s.position.frozen_sell old.reserved_quantity_remaining)))

  -- An order that moves on, or stays, with what it holds.
  keep-IsReserved :
      (s : StrategyState) (id : Text) (old order : Order)
      → IsReserved s
      → lookup id s.orders ≡ some old
      → order.reserved_quantity_remaining ≡ old.reserved_quantity_remaining
      → order.intent ≡ old.intent
      → held order ≡ held old
      → IsReserved (with_order s id order)
  keep-IsReserved s id old order k known reserved intent holds =
      replace-IsReserved s _ id old order k known
        (λ e. reserved ∙ k.sale_only id old known (sym (ap (λ i. i.direction) intent) ∙ e)) refl
        (rw holds (freeze_same s.position.frozen_sell (held old)))

  report_moved-IsReserved :
      (s s' : StrategyState) (id : Text) (old order : Order) (next : OrderStatus)
      → IsReserved s
      → lookup id s.orders ≡ some old
      → IsSameOrder old order
      → next ≢ submitted
      → next ≢ created
      → report_moved s id order next ≡ ok s'
      → IsReserved s'
  unfolding report_moved
  report_moved-IsReserved s s' id old order next k known same ns nc h =
      elim (Bool-cases (same_status order.status next)) [
        | inl stays ↦ subst IsReserved (returned (rw stays at h)) (
            keep-IsReserved s id old order k known same.keeps_reserved same.keeps_intent
              (λ i. held_in (same.keeps_status i) (same.keeps_reserved i)))
        | inr moves ↦ elim (Bool-cases (ends next)) [
          | inl final ↦
              release-IsReserved s s' id old order next k known same ns nc (rw (moves, final) at h)
          | inr open_still ↦
              let (moved, m, fin) = >>=-eq-ok (move order next) _ (rw (moves, open_still) at h) in
              let (can, is_moved) = move_lem order moved next m in
              let was : held old ≡ old.reserved_quantity_remaining =
                held_before old.status next old.reserved_quantity_remaining
                  (subst (λ st. can_transition st next ≡ true) same.keeps_status can) ns in
              let now : held_in next order.reserved_quantity_remaining
                  ≡ order.reserved_quantity_remaining =
                held_after next order.reserved_quantity_remaining nc in
              let result =
                keep-IsReserved s id old (record order { status = next }) k known
                  same.keeps_reserved same.keeps_intent (now ∙ same.keeps_reserved ∙ sym was) in
              subst IsReserved (returned fin)
                (subst (λ x. IsReserved (with_order s id x)) is_moved result)
        ]
      ]

  pub report_status-IsReserved :
      (s s' : StrategyState) (id : Text) (time : ℕ) (event : StatusEvent)
      → IsReserved s
      → report_status s id time event ≡ ok s'
      → IsReserved s'
  unfolding report_status
  report_status-IsReserved s s' id time event k h =
      let (old, found, k1) = >>=-eq-ok (ok_or (lookup id s.orders) order_missing) _ h in
      let known = ok_or-eq (lookup id s.orders) order_missing old found in
      let (order, r, k2) = >>=-eq-ok (requested event old time) _ k1 in
      let (ns, nc) = status_of-ne event in
      report_moved-IsReserved s s' id old order (status_of event) k known
        (requested-IsSameOrder event old order time r) ns nc k2
