-- ===== src/Execution/Release.antt =====
-- `submit` and `cancel` of src/execution.rs, on an order that is held open.
use grid_edge_t.Base.{◌≡◌, Option, some, none, [], ap, sym, ◌∙◌, refl, subst, inl, inr}
use grid_edge_t.Base.Ids.{Text}
use grid_edge_t.Base.Int.{ℤ, ◌+ℤ◌, ◌-ℤ◌, int_laws}
use grid_edge_t.Base.Machine.{IsI64, checked_add, checked_sub, to_i64, to_i64-eq, to_i64-some}
use grid_edge_t.Base.Maps.{lookup-insert_self}
use grid_edge_t.Base.Results.{ok, ◌>>=◌, ok_or, returned, >>=-eq-ok, ok_or-eq}
use grid_edge_t.Decimal.{DecimalOps}
use grid_edge_t.Domain.{Direction, buy, sell, OrderIntent, Position}
use grid_edge_t.Execution.{
  ExecutionReport, accepted, cancelled, numeric_range, PaperExecutionGateway, PaperHashes,
  report_for_intent, updated,
}
use grid_edge_t.Execution.Reports.{IsPersisted, insert_order-lookup, submit_today-cases}
use grid_edge_t.Execution.Settle.{settled, hold_open, frozen_by}
use grid_edge_t.Execution.Submit.{
  submit_today, cancel, cancel_known, cancel_open, answer, unfrozen, released,
}

restored : (f q : ℤ) → f +ℤ q -ℤ q ≡ f
restored f q = omega int_laws

-- What a held order freezes is given back exactly.
unfrozen-frozen_by :
    (d : Direction) (p held : Position) (q : ℤ)
    → IsI64 p.frozen_sell
    → frozen_by d p q ≡ ok held
    → unfrozen d held q ≡ ok p
unfolding frozen_by unfrozen
unfrozen-frozen_by buy p held q n h = λ i. ok (sym (returned h) i)
unfrozen-frozen_by sell p held q n h =
    let (frozen, f, fin) = >>=-eq-ok (ok_or (checked_add p.frozen_sell q) numeric_range) _ h in
    let frozen_is : frozen ≡ p.frozen_sell +ℤ q =
      to_i64-eq _ frozen (ok_or-eq _ numeric_range frozen f) in
    let back : checked_sub frozen q ≡ some p.frozen_sell =
      ap (λ x. to_i64 (x -ℤ q)) frozen_is
      ∙ ap to_i64 (restored p.frozen_sell q)
      ∙ to_i64-some p.frozen_sell n in
    subst (λ x. unfrozen sell x q ≡ ok p) (returned fin) (rw back refl)

none-some : {a : ExecutionReport} → ◌≡◌ {A = Option ExecutionReport} none (some a) → ⊥
none-some h = cc

module _ ⦃o : DecimalOps⦄ ⦃hashes : PaperHashes⦄ where
  -- The cancellation of a report that was stored without fills.
  pub record IsRestored (g : PaperExecutionGateway) (intent : OrderIntent) (id reason : Text)
      (g' : PaperExecutionGateway) : Type 0 where
    pub after : PaperExecutionGateway
    pub cancels : cancel g' intent reason ≡ (after, ok (cancelled id reason))
    pub same_cash : after.snapshot.cash ≡ g.snapshot.cash
    pub same_position : after.snapshot.position ≡ g.snapshot.position
    pub same_filled :
        after.snapshot.cumulative_filled_quantity ≡ g.snapshot.cumulative_filled_quantity
    pub stored : report_for_intent after intent.intent_id ≡ some (cancelled id reason)

  cancel-released :
      (g : PaperExecutionGateway) (intent : OrderIntent) (id reason : Text) (p : Position)
      → report_for_intent g intent.intent_id ≡ some (accepted id [])
      → unfrozen intent.direction g.snapshot.position intent.quantity ≡ ok p
      → cancel g intent reason ≡ (released g intent id reason p, ok (cancelled id reason))
  unfolding cancel cancel_known cancel_open
  cancel-released g intent id reason p known thaws =
      ap (cancel_known g intent reason) known
      ∙ ap (answer g)
          (ap (λ r. r >>= λ q. ok (released g intent id reason q, cancelled id reason)) thaws)

  persisted-IsRestored :
      (g g' : PaperExecutionGateway) (intent : OrderIntent) (id reason : Text)
      → IsI64 g.snapshot.position.frozen_sell
      → IsPersisted g intent (accepted id []) g'
      → IsRestored g intent id reason g'
  unfolding settled hold_open report_for_intent released
  persisted-IsRestored g g' intent id reason n p =
      let (held, freezes, fin) =
        >>=-eq-ok (frozen_by intent.direction g.snapshot.position intent.quantity) _ p.settles in
      let held_is : held ≡ p.next.position = (λ i. (returned fin i).position) in
      let thaws : unfrozen intent.direction p.next.position intent.quantity
          ≡ ok g.snapshot.position =
        (λ i. unfrozen intent.direction (sym held_is i) intent.quantity)
        ∙ unfrozen-frozen_by intent.direction g.snapshot.position held intent.quantity n freezes in
      let known =
        insert_order-lookup g.ledger.orders p.orders intent.intent_id (accepted id []) p.inserts in
      let stored_gateway : PaperExecutionGateway = record g {
        ledger = record g.ledger { account = updated p.next g.ledger.account; orders = p.orders };
        snapshot = p.next;
      } in
      subst (IsRestored g intent id reason) p.result (record {
        after = released stored_gateway intent id reason g.snapshot.position;
        cancels = cancel-released stored_gateway intent id reason g.snapshot.position known thaws;
        same_cash = sym (λ i. (returned fin i).cash);
        same_position = refl;
        same_filled = sym (λ i. (returned fin i).cumulative_filled_quantity);
        stored = lookup-insert_self intent.intent_id (cancelled id reason) p.orders;
      })

  -- An order that is held open, and that was not known before, is cancelled with success: the report
  -- that is stored is the cancellation, and cash, position and filled quantity are those from before
  -- the order, if the frozen shares were an i64.
  pub cancel-submit_today :
      (g g' : PaperExecutionGateway) (intent : OrderIntent) (id reason : Text)
      → IsI64 g.snapshot.position.frozen_sell
      → report_for_intent g intent.intent_id ≡ none
      → submit_today g intent ≡ ok (g', accepted id [])
      → IsRestored g intent id reason g'
  cancel-submit_today g g' intent id reason n fresh h =
      elim (submit_today-cases g g' intent (accepted id []) h) [
        | inl (known, _) ↦ absurd (none-some (sym fresh ∙ known))
        | inr (_, _, p) ↦ persisted-IsRestored g g' intent id reason n p
      ]
