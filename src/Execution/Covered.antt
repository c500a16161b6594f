-- ===== src/Execution/Covered.antt =====
-- The fills of an accepted report of src/execution.rs.
use grid_edge_t.Base.{
  ◌≡◌, Bool, true, false, ◌&&◌, List, [], map, All, inl, inr, ◌⊎◌, refl, sym, subst, Bool-cases,
  ltb,
}
use grid_edge_t.Base.Ids.{Text, text}
use grid_edge_t.Base.Int.{ℤ, pos, ◌+ℤ◌, ◌-ℤ◌, +ℤ-zero, taken_back}
use grid_edge_t.Base.Machine.{sum, checked_mul, checked_sub, to_i64-eq}
use grid_edge_t.Base.Results.{
  Result, ok, err, panic, Absent, or_panic, returned, >>=-eq-ok, or_panic-eq,
}
use grid_edge_t.Decimal.{Decimal, DecimalOps}
use grid_edge_t.Domain.{OrderIntent}
use grid_edge_t.Execution.{
  FillReport, ExecutionReport, accepted, rejected, PaperExecutionGateway, PaperHashes,
  stable_draw_bps,
}
use grid_edge_t.Execution.Submit.{
  drawn_fills, first_part, fresh_report, fill_price, sell_report_obeys_no_loss_guard, is_sell,
  in_parts, in_one, is_partial, is_held_open, guarded,
}

-- Fills that add up to a quantity, each at one price.
abbrev pub Covers : ℤ → Decimal → List FillReport → Type 0
Covers quantity price fills =
    (sum (map (λ (f : FillReport). f.quantity) fills) ≡ quantity)
    × All (λ (f : FillReport). f.price ≡ price) fills

-- Either the order is a sale that is held open, or its fills cover it.
abbrev pub IsDrawn : OrderIntent → Decimal → List FillReport → Type 0
IsDrawn intent price fills =
    ((fills ≡ []) × (is_sell intent.direction ≡ true)) ⊎ Covers intent.quantity price fills

guarded-accepted :
    (id id' : Text) (fills fills' : List FillReport) (r : Result Absent (Unit {0}))
    → guarded id fills r ≡ ok (accepted id' fills')
    → (fills ≡ fills') × (r ≡ ok tt)
guarded-accepted id id' fills fills' (ok u) h = (accepted_fills (returned h), refl)
  where
    accepted_fills : accepted id fills ≡ accepted id' fills' → fills ≡ fills'
    accepted_fills e = cc
guarded-accepted id id' fills fills' (err e) h =
    let k : ◌≡◌ {A = ExecutionReport} (rejected _ _) (accepted id' fills') = returned h in cc
guarded-accepted id id' fills fills' panic h = cc

is_sell-true : (a b : Bool) → (a && b) ≡ true → a ≡ true
is_sell-true true b h = refl
is_sell-true false b h = h

module _ ⦃hashes : PaperHashes⦄ where
  in_parts-Covers :
      (intent : OrderIntent) (price : Decimal) (lot_size : ℤ) (fills : List FillReport)
      → in_parts intent price lot_size ≡ ok fills
      → Covers intent.quantity price fills
  unfolding in_parts sum
  in_parts-Covers intent price lot_size fills h =
      let (first, _, k) = >>=-eq-ok (first_part intent.quantity lot_size) _ h in
      let (second, s, fin) = >>=-eq-ok (or_panic (checked_sub intent.quantity first)) _ k in
      let second_is = to_i64-eq (intent.quantity -ℤ first) second (or_panic-eq _ second s) in
      let whole : first +ℤ (second +ℤ pos 0) ≡ intent.quantity =
        rw (+ℤ-zero, second_is) (taken_back intent.quantity first) in
      subst (Covers intent.quantity price) (returned fin) (whole, (refl, (refl, tt)))

  drawn_fills-IsDrawn :
      (g : PaperExecutionGateway) (intent : OrderIntent) (price : Decimal) (fills : List FillReport)
      → drawn_fills g intent price ≡ ok fills
      → IsDrawn intent price fills
  unfolding drawn_fills sum
  drawn_fills-IsDrawn g intent price fills h =
      let (two_lots, _, k) = >>=-eq-ok (or_panic (checked_mul (pos 2) g.config.lot_size)) _ h in
      elim (Bool-cases (is_held_open g intent)) [
        | inl held ↦
            inl (sym (returned (rw held at k)), is_sell-true (is_sell intent.direction) _ held)
        | inr goes ↦ elim (Bool-cases (is_partial g intent two_lots)) [
          | inl parts ↦
              inr (in_parts-Covers intent price g.config.lot_size fills (rw (goes, parts) at k))
          | inr one ↦
              let e : in_one intent price ≡ fills = returned (rw (goes, one) at k) in
              inr (subst (Covers intent.quantity price) e (+ℤ-zero intent.quantity, (refl, tt)))
        ]
      ]

module _ ⦃o : DecimalOps⦄ ⦃hashes : PaperHashes⦄ where
  -- The fills of a report that accepts an order are those of a sale that is held open, or they add
  -- up to exactly the quantity of the order, all at the limit price moved by the slippage; and they
  -- obey the no-loss guard.
  pub fresh_report-IsDrawn :
      (g : PaperExecutionGateway) (intent : OrderIntent) (id : Text) (fills : List FillReport)
      → fresh_report g intent ≡ ok (accepted id fills)
      → (price : Decimal) × (fill_price g intent.direction intent.limit_price ≡ ok price)
        × IsDrawn intent price fills
        × (sell_report_obeys_no_loss_guard g intent fills ≡ ok tt)
  unfolding fresh_report
  fresh_report-IsDrawn g intent id fills h =
      elim (Bool-cases (ltb (stable_draw_bps g intent.intent_id (text "reject")) g.reject_bps)) [
        | inl rejects ↦
            let k : ◌≡◌ {A = ExecutionReport} (rejected _ _) (accepted id fills) =
              returned (rw rejects at h) in
            cc
        | inr fine ↦
            let (price, is_price, k1) =
              >>=-eq-ok (fill_price g intent.direction intent.limit_price) _ (rw fine at h) in
            let (drawn, is_drawn, k2) = >>=-eq-ok (drawn_fills g intent price) _ k1 in
            let (same, obeys) =
              guarded-accepted _ id drawn fills (sell_report_obeys_no_loss_guard g intent drawn)
                k2 in
            (
              price,
              is_price,
              subst (IsDrawn intent price) same (drawn_fills-IsDrawn g intent price drawn is_drawn),
              subst (λ f. sell_report_obeys_no_loss_guard g intent f ≡ ok tt) same obeys,
            )
      ]
