-- ===== src/OrderEvents/Parts.antt =====
-- What the parts of a fill in src/event.rs do, each on its own.
use grid_edge_t.Base.{
  ◌≡◌, ◌≢◌, ℕ, Bool, true, false, not, inl, inr, ◌⊎◌, refl, sym, ap, arith, Bool-cases, ◌∙◌,
  if◌then◌else◌, not-false,
}
use grid_edge_t.Base.Int.{ℤ, pos, ltb_ℤ, eqb_ℤ, ◌+ℤ◌, ◌-ℤ◌, int_laws}
use grid_edge_t.Base.Machine.{checked_sub, to_i64-eq}
use grid_edge_t.Base.Results.{
  Result, ok, err, panic, returned, ok_or, fail_if, ◌>>=◌, >>=-eq-ok, ok_or-eq, fail_if-ok,
}
use grid_edge_t.Account.{DomainError}
use grid_edge_t.Account.Fills.{
  apply_fill, apply_initial_deployment_fill, apply_legacy_fill, apply_fill_with_policy,
}
use grid_edge_t.Account.Fills.Frozen.{SameFrozen, apply_fill_with_policy-SameFrozen}
use grid_edge_t.Decimal.{DecimalOps}
use grid_edge_t.Domain.{
  Direction, buy, sell, OrderStatus, created, submitted, Order, Fill, StrategyState,
  is_initial_deployment,
}
use grid_edge_t.OrderEvents.{
  EventError, numeric_range, direction_mismatch, finality_mismatch, exceeds_reserved_quantity,
  same_status,
}
use grid_edge_t.OrderEvents.Fills.{
  same_direction, or_domain, resulting_quantity, is_mismatched, is_refused, check_finality,
  reserve_shares, book_fill, moved_order,
}
use grid_edge_t.OrderEvents.Reserved.{
  held, move_lem, held_before, held_after, same_status-eq, freeze_same,
}
use grid_edge_t.Orders.{can_transition}

same_direction-eq : (a b : Direction) → same_direction a b ≡ true → a ≡ b
same_direction-eq a b h = ground arith

pub resulting_quantity-direction :
    (order : Order) (fill : Fill) (q : ℤ)
    → resulting_quantity order fill ≡ ok q
    → fill.direction ≡ order.intent.direction
unfolding resulting_quantity
resulting_quantity-direction order fill q h =
    let (_, same, _) =
      >>=-eq-ok
        (fail_if (not (same_direction fill.direction order.intent.direction)) direction_mismatch) _
        h in
    same_direction-eq fill.direction order.intent.direction
      (not-false _ (fail_if-ok _ direction_mismatch _ same))

accepts :
    (status next : OrderStatus)
    → is_refused status next ≡ false
    → (status ≡ next) ⊎ (can_transition status next ≡ true)
accepts status next h = elim (Bool-cases (same_status status next)) [
  | inl same ↦ inl (same_status-eq status next same)
  | inr other ↦ inr (not-false _ (rw other at h))
]

-- A status that a fill may follow holds what is reserved.
pub check_finality-held :
    (order : Order) (next : OrderStatus) (q : ℤ)
    → next ≢ submitted
    → next ≢ created
    → check_finality order next q ≡ ok tt
    → held order ≡ order.reserved_quantity_remaining
unfolding check_finality
check_finality-held order next q ns nc h =
    let (_, _, k) = >>=-eq-ok (fail_if (is_mismatched order next q) finality_mismatch) _ h in
    let able = fail_if-ok (is_refused order.status next) _ tt k in
    elim (accepts order.status next able) [
      | inl same ↦
          held_after order.status order.reserved_quantity_remaining (λ e. nc (sym same ∙ e))
      | inr can ↦ held_before order.status next order.reserved_quantity_remaining can ns
    ]

pub moved_order_lem :
    (order moved : Order) (next : OrderStatus)
    → moved_order order next ≡ ok moved
    → record order { status = next } ≡ moved
unfolding moved_order
moved_order_lem order moved next h = elim (Bool-cases (same_status order.status next)) [
  | inl same ↦
      let e : order ≡ moved = returned (rw same at h) in
      (λ i. record order { status = sym (same_status-eq order.status next same) i }) ∙ e
  | inr other ↦ (move_lem order moved next (rw other at h)).1
]

sold_part : (f r q : ℤ) → f -ℤ q ≡ f -ℤ r +ℤ (r -ℤ q)
sold_part f r q = omega int_laws

sold_last : (f r q : ℤ) → f -ℤ q -ℤ (r -ℤ q) ≡ f -ℤ r +ℤ pos 0
sold_last f r q = omega int_laws

-- What is no longer frozen is what is no longer reserved, and a buy still reserves nothing.
pub reserve_shares_lem :
    (d : Direction) (final : Bool) (frozen reserved q left freed : ℤ)
    → (d ≡ buy → reserved ≡ pos 0)
    → reserve_shares d final frozen reserved q ≡ ok (left, freed)
    → (freed ≡ frozen -ℤ reserved +ℤ left) × (d ≡ buy → left ≡ pos 0)
unfolding reserve_shares
reserve_shares_lem buy true frozen reserved q left freed none_held h =
    let e = returned h in
    let left_is : pos 0 ≡ left = ap (λ p. p.0) e in
    let freed_is : frozen ≡ freed = ap (λ p. p.1) e in
    (rw (sym freed_is, sym left_is, none_held refl) (freeze_same frozen (pos 0)), λ _. sym left_is)
reserve_shares_lem buy false frozen reserved q left freed none_held h =
    let e = returned h in
    let left_is : reserved ≡ left = ap (λ p. p.0) e in
    let freed_is : frozen ≡ freed = ap (λ p. p.1) e in
    (
      rw (sym freed_is, sym left_is) (freeze_same frozen reserved),
      λ _. sym left_is ∙ none_held refl,
    )
reserve_shares_lem sell final frozen reserved q left freed none_held h =
    let (_, _, k1) = >>=-eq-ok (fail_if (ltb_ℤ reserved q) exceeds_reserved_quantity) _ h in
    let (rest, r, k2) = >>=-eq-ok (ok_or (checked_sub reserved q) numeric_range) _ k1 in
    let (still, t, k3) = >>=-eq-ok (ok_or (checked_sub frozen q) numeric_range) _ k2 in
    let rest_is = to_i64-eq (reserved -ℤ q) rest (ok_or-eq _ numeric_range rest r) in
    let still_is = to_i64-eq (frozen -ℤ q) still (ok_or-eq _ numeric_range still t) in
    (settle final rest still rest_is still_is k3, λ e. cc)
  where
    settle :
        (final : Bool) (rest still : ℤ)
        → rest ≡ reserved -ℤ q
        → still ≡ frozen -ℤ q
        → ◌>>=◌ {E = EventError} {B = ℤ × ℤ}
            (if final then ok_or (checked_sub still rest) numeric_range else ok still)
            (λ freed'. ok (if final then pos 0 else rest, freed'))
          ≡ ok (left, freed)
        → freed ≡ frozen -ℤ reserved +ℤ left
    settle true rest still rest_is still_is k =
        let (freed', f, fin) = >>=-eq-ok (ok_or (checked_sub still rest) numeric_range) _ k in
        let freed_is = to_i64-eq (still -ℤ rest) freed' (ok_or-eq _ numeric_range freed' f) in
        let e = returned fin in
        let left_is : pos 0 ≡ left = ap (λ p. p.0) e in
        let out : freed' ≡ freed = ap (λ p. p.1) e in
        rw (sym out, freed_is, rest_is, still_is, sym left_is) (sold_last frozen reserved q)
    settle false rest still rest_is still_is k =
        let e = returned k in
        let left_is : rest ≡ left = ap (λ p. p.0) e in
        let out : still ≡ freed = ap (λ p. p.1) e in
        rw (sym out, still_is, sym left_is, rest_is) (sold_part frozen reserved q)

module _ ⦃o : DecimalOps⦄ where
  or_domain-eq :
      (r : Result DomainError (StrategyState × Bool)) (s' : StrategyState)
      → or_domain r ≡ ok s'
      → (applied : Bool) × (r ≡ ok (s', applied))
  or_domain-eq (ok (s, applied)) s' h =
      let e : s ≡ s' = returned h in (applied, λ i. ok (e i, applied))
  or_domain-eq (err e) s' h = cc
  or_domain-eq panic s' h = cc

  -- A fill that is booked is applied to the account in one of its three ways.
  pub book_fill-cases :
      (schema : ℕ) (order : Order) (s s' : StrategyState) (fill : Fill) (g : ℤ)
      → book_fill schema order s fill g ≡ ok s'
      → (level : ℤ) × (enforce : Bool) × (opening : Bool) × (applied : Bool)
        × (apply_fill_with_policy s fill level enforce opening ≡ ok (s', applied))
  unfolding book_fill apply_fill apply_initial_deployment_fill apply_legacy_fill
  book_fill-cases schema order s s' fill g h = elim (Bool-cases (eqb_ℤ (pos schema) (pos 1))) [
    | inl old ↦
        let (applied, e) = or_domain-eq (apply_legacy_fill s fill g) s' (rw old at h) in
        (g, false, false, applied, e)
    | inr new ↦ elim (Bool-cases (is_initial_deployment order.intent.origin)) [
      | inl opening ↦
          let (applied, e) =
            or_domain-eq (apply_initial_deployment_fill s fill) s' (rw (new, opening) at h) in
          (pos 0, true, true, applied, e)
      | inr grid ↦
          let (applied, e) = or_domain-eq (apply_fill s fill g) s' (rw (new, grid) at h) in
          (g, true, false, applied, e)
    ]
  ]

  pub book_fill-SameFrozen :
      (schema : ℕ) (order : Order) (s s' : StrategyState) (fill : Fill) (g : ℤ)
      → book_fill schema order s fill g ≡ ok s'
      → SameFrozen s s'
  book_fill-SameFrozen schema order s s' fill g h =
      let (level, enforce, opening, applied, e) = book_fill-cases schema order s s' fill g h in
      apply_fill_with_policy-SameFrozen s s' fill level enforce opening applied e

pub unless_seen :
    (seen : Bool) (s : StrategyState) (rest : Result EventError StrategyState) (s' : StrategyState)
    → (if seen then ok s else rest) ≡ ok s'
    → (s ≡ s') ⊎ (rest ≡ ok s')
unless_seen true s rest s' h = inl (returned h)
unless_seen false s rest s' h = inr h
