-- ===== src/Orders/Reach.antt =====
-- Sequences of calls of `Order::transition` of src/domain.rs.
mod Tests
use grid_edge_t.Base.{ℕ, ◌≤◌, ◌≡◌, ◌≢◌, ◌⊎◌, inl, inr, true, List, [], ◌∷◌, arith, Bool-cases}
use grid_edge_t.Base.Results.{Result, ok, err, panic}
use grid_edge_t.Domain.{
  OrderStatus, created, submitted, accepted, partially_filled, filled, rejected, cancel_pending,
  cancelled, Order,
}
use grid_edge_t.Orders.{can_transition, transition, TransitionError}

-- A status that no order leaves.
abbrev pub IsFinal : OrderStatus → Type 0
IsFinal s = (s ≡ filled) ⊎ (s ≡ rejected) ⊎ (s ≡ cancelled)

-- The order after a sequence of calls of `Order::transition`, in turn, up to the first error.
pub transitions : Order → List OrderStatus → Result TransitionError Order
transitions o [] = ok o
transitions o (s ∷ ss) = elim (transition o s) [
  | ok o' ↦ transitions o' ss
  | err e ↦ err e
  | panic ↦ panic
]

-- How far an order has come.
abbrev pub phase : OrderStatus → ℕ
phase created = 0
phase submitted = 1
phase accepted = 2
phase partially_filled = 3
phase cancel_pending = 3
phase _ = 4

can_transition-phase :
    (s t : OrderStatus)
    → can_transition s t ≡ true
    → (phase s ≤ phase t) × (3 ≤ phase s → t ≢ rejected)
unfolding can_transition
can_transition-phase created t h = ground arith
can_transition-phase submitted t h = ground arith
can_transition-phase accepted t h = ground arith
can_transition-phase partially_filled t h = ground arith
can_transition-phase cancel_pending t h = ground arith
can_transition-phase _ t h = ground arith

transitions_facts :
    (o : Order) (ss : List OrderStatus) (o' : Order)
    → transitions o ss ≡ ok o'
    → (o' ≡ record o { status = o'.status })
      × (phase o.status ≤ phase o'.status)
      × (3 ≤ phase o.status → o.status ≢ rejected → o'.status ≢ rejected)
unfolding transitions transition
transitions_facts o [] o' h = ground arith
transitions_facts o (s ∷ ss) o' h = elim (Bool-cases (can_transition o.status s)) [
  | inl allowed ↦
      let o1 : Order = record o { status = s } in
      let rest : transitions o1 ss ≡ ok o' = ground arith in
      let (same, later, kept) = transitions_facts o1 ss o' rest in
      let (up, keeps) = can_transition-phase o.status s allowed in ground arith
  | inr refused ↦ ground arith
]

-- A sequence of calls of `Order::transition` that all succeed changes nothing of the order but its
-- status, and never takes it back to an earlier phase.
pub transitions-phase :
    (o : Order) (ss : List OrderStatus) (o' : Order)
    → transitions o ss ≡ ok o'
    → (o' ≡ record o { status = o'.status }) × (phase o.status ≤ phase o'.status)
transitions-phase o ss o' h = let (same, later, kept) = transitions_facts o ss o' h in (same, later)

-- An order that is partially filled or being cancelled is never rejected afterwards.
transitions-ne-rejected :
    (o : Order) (ss : List OrderStatus) (o' : Order)
    → transitions o ss ≡ ok o'
    → phase o.status ≡ 3
    → o'.status ≢ rejected
transitions-ne-rejected o ss o' h p =
    (transitions_facts o ss o' h).2 (omega arith) (λ e. phase_rejected o.status p e)
  where
    phase_rejected : (s : OrderStatus) → phase s ≡ 3 → s ≢ rejected
    phase_rejected s q e = ground arith

pub reports_to_filled : OrderStatus → List OrderStatus
reports_to_filled created = submitted ∷ accepted ∷ filled ∷ []
reports_to_filled submitted = accepted ∷ filled ∷ []
reports_to_filled _ = filled ∷ []

-- `Order::transition` refuses every next status of an order that is filled, rejected or cancelled,
-- its own included, so a sequence of calls ends there.
pub transitions-IsFinal :
    (o : Order) (s : OrderStatus) (ss : List OrderStatus)
    → IsFinal o.status
    → transitions o (s ∷ ss) ≡ err (TransitionError.invalid_order_transition o.status s)
unfolding transitions transition can_transition
transitions-IsFinal o s ss f = ground arith

-- Any order that is not filled, rejected or cancelled can still be filled by calls of
-- `Order::transition`.
pub transitions_to_filled :
    (o : Order)
    → ¬ IsFinal o.status
    → transitions o (reports_to_filled o.status) ≡ ok (record o { status = filled })
unfolding transitions transition can_transition reports_to_filled
transitions_to_filled o n = ground arith
