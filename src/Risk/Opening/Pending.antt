-- ===== src/Risk/Opening/Pending.antt =====
-- `canonical_initial_buy_units` of src/risk.rs: what the open purchases may still buy.
use grid_edge_t.Base.{
  ◌≡◌, ◌⊎◌, ◌&&◌, List, [], ◌∷◌, keep, Bool, true, false, not, Option, none, some, inl, inr, refl,
  sym, subst, ◌∙◌, arith, Bool-cases,
}
use grid_edge_t.Base.Int.{ℤ, pos, ◌+ℤ◌, ◌-ℤ◌, int_laws}
use grid_edge_t.Base.Machine.{checked_add, checked_sub, to_i64-eq}
use grid_edge_t.Base.Maps.{values}
use grid_edge_t.Domain.{
  Direction, buy, sell, OrderStatus, filled, rejected, cancelled, Order, StrategyState,
}
use grid_edge_t.Risk.Opening.{pending_buys, open_buys, buys, is_final}

-- An order that is over.
abbrev pub IsOver : OrderStatus → Type 0
IsOver s = (s ≡ filled) ⊎ (s ≡ rejected) ⊎ (s ≡ cancelled)

-- What the orders may still buy together: what is left of each purchase that is not over.
pub data StillBuys : List Order → ℤ → Type 0 where
  no_orders : StillBuys [] (pos 0)
  open_buy :
      (order : Order) (orders : List Order) (rest : ℤ)
      → order.intent.direction ≡ buy
      → ¬ IsOver order.status
      → StillBuys orders rest
      → StillBuys (order ∷ orders) (order.intent.quantity -ℤ order.filled_quantity +ℤ rest)
  other_order :
      (order : Order) (orders : List Order) (rest : ℤ)
      → (order.intent.direction ≡ sell) ⊎ IsOver order.status
      → StillBuys orders rest
      → StillBuys (order ∷ orders) rest

abbrev counts : Order → Bool
counts order = buys order.intent.direction && not (is_final order.status)

counted :
    (d : Direction) (s : OrderStatus) → (buys d && not (is_final s)) ≡ true → (d ≡ buy) × ¬ IsOver s
counted d s h = ground arith

uncounted :
    (d : Direction) (s : OrderStatus) → (buys d && not (is_final s)) ≡ false → (d ≡ sell) ⊎ IsOver s
uncounted d s h = ground arith

one_more : (total left rest : ℤ) → total +ℤ left +ℤ rest ≡ total +ℤ (left +ℤ rest)
one_more total left rest = omega int_laws

no_change : (total : ℤ) → total ≡ total +ℤ pos 0
no_change total = omega int_laws

from_nothing : (rest : ℤ) → pos 0 +ℤ rest ≡ rest
from_nothing rest = omega int_laws

some_total : {a b : ℤ} → ◌≡◌ {A = Option ℤ} (some a) (some b) → a ≡ b
some_total h = ground arith

some_then :
    (x : Option ℤ) (next : ℤ → Option ℤ) (result : ℤ)
    → ◌≡◌ {A = Option ℤ} (elim x [ none ↦ none | some a ↦ next a ]) (some result)
    → (a : ℤ) × (x ≡ some a) × (next a ≡ some result)
some_then none next result h = cc
some_then (some a) next result h = (a, refl, h)

-- The total of the open purchases, from a total so far.
pending_buys-StillBuys :
    (total pending : ℤ) (orders : List Order)
    → pending_buys total (keep counts orders) ≡ some pending
    → (rest : ℤ) × StillBuys orders rest × (pending ≡ total +ℤ rest)
unfolding pending_buys
pending_buys-StillBuys total pending [] h = (pos 0, no_orders, sym (some_total h) ∙ no_change total)
pending_buys-StillBuys total pending (order ∷ orders) h = elim (Bool-cases (counts order)) [
  | inr skipped ↦
      let (rest, buying, e) = pending_buys-StillBuys total pending orders (rw skipped at h) in
      (
        rest,
        other_order order orders rest (uncounted order.intent.direction order.status skipped)
            buying,
        e,
      )
  | inl kept ↦
      let (direction, status) = counted order.intent.direction order.status kept in
      let (left, l, h1) =
        some_then (checked_sub order.intent.quantity order.filled_quantity) _ pending
          (rw kept at h) in
      let (next, n, h2) = some_then (checked_add total left) _ pending h1 in
      let (rest, buying, e) = pending_buys-StillBuys next pending orders h2 in
      let left_is = to_i64-eq (order.intent.quantity -ℤ order.filled_quantity) left l in
      let next_is = to_i64-eq (total +ℤ left) next n in
      (
        order.intent.quantity -ℤ order.filled_quantity +ℤ rest,
        open_buy order orders rest direction status buying,
        e
            ∙ (λ i. next_is i +ℤ rest)
            ∙ one_more total left rest
            ∙ (λ i. total +ℤ (left_is i +ℤ rest)),
      )
]

-- What the opening purchase takes for the exposure of the open orders.
pub pending_buys-open_buys :
    (state : StrategyState) (pending : ℤ)
    → pending_buys (pos 0) (open_buys state) ≡ some pending
    → StillBuys (values state.orders) pending
pending_buys-open_buys state pending h =
    let (rest, buying, e) = pending_buys-StillBuys (pos 0) pending (values state.orders) h in
    subst (StillBuys (values state.orders)) (sym (e ∙ from_nothing rest)) buying
