-- ===== src/Profit/Guard/Plan.antt =====
-- `prove_non_loss` and `plan_non_loss_sales` of src/profit.rs.
use grid_edge_t.Base.{
  ◌≡◌, ◌∙◌, Bool, false, List, [], ◌∷◌, arith, ◌||◌, Bool-cases, inl, inr, refl, sym, subst, All,
  Any,
}
use grid_edge_t.Base.Int.{
  ℤ, pos, ltb_ℤ, leb_ℤ, eqb_ℤ, min_ℤ, max_ℤ, ◌≤ℤ◌, ◌<ℤ◌, ◌+ℤ◌, ◌-ℤ◌, int_laws, ltb_ℤ→ge, leb_ℤ→gt,
}
use grid_edge_t.Base.Machine.{sum, checked_sub, to_i64-eq}
use grid_edge_t.Base.Results.{
  returned, Result, ok, panic, Absent, absent, or_panic, fail_if, >>=-eq-ok, or_panic-eq,
  fail_if-ok, Result-cases,
}
use grid_edge_t.Config.{Config, policy_of}
use grid_edge_t.Decimal.{Decimal, zero_decimal, DecimalOps}
use grid_edge_t.Domain.{LotQuantityAllocation, ProfitGuardPolicy, TradingLot}
use grid_edge_t.Profit.Guard.{
  prove_non_loss, evaluate_sell_slice_with_policy, allocated_cost_for_close, plan_lots,
  plan_non_loss_sales, sort_lots, place, not_after,
}
use grid_edge_t.Profit.Slices.Cover.{EarnsItsCost, economics-EarnsItsCost, quantities}

three_false : (a b c : Bool) → (a || (b || c)) ≡ false → (a ≡ false) × (b ≡ false) × (c ≡ false)
three_false a b c h = ground arith

max_nonneg : (a : ℤ) → pos 0 ≤ℤ max_ℤ a (pos 0)
max_nonneg a = ground arith

left_nonneg : (a b left : ℤ) → left ≡ a -ℤ min_ℤ a b → pos 0 ≤ℤ left
left_nonneg a b left h = let below : min_ℤ a b ≤ℤ a = ground arith in rw h (omega int_laws)

bound_more :
    (quantity sold left remaining total : ℤ)
    → sold ≡ quantity
    → left ≡ remaining -ℤ quantity
    → total ≤ℤ left
    → sold +ℤ total ≤ℤ remaining
bound_more quantity sold left remaining total e l h =
    let below : total ≤ℤ remaining -ℤ quantity = rw l at h in rw e (omega int_laws)

-- Sorting keeps the lots.
place-Any :
    (P : TradingLot → Type 0) (lot : TradingLot) (xs ys : List TradingLot)
    → place lot xs ≡ ok ys
    → Any P ys
    → Any P (lot ∷ xs)
unfolding place
place-Any P lot [] ys h p = subst (Any P) (sym (returned h)) p
place-Any P lot (x ∷ xs) ys h p =
    let (here, _, k) = >>=-eq-ok (not_after lot x) _ h in
    elim (Bool-cases here) [
      | inl first ↦ subst (Any P) (sym (returned (rw first at k))) p
      | inr later ↦
          let (placed, e, fin) = >>=-eq-ok (place lot xs) _ (rw later at k) in
          let moved : Any P (x ∷ placed) = subst (Any P) (sym (returned fin)) p in
          elim moved [
            | inl at_x ↦ inr (inl at_x)
            | inr behind ↦ elim (place-Any P lot xs placed e behind) [
              | inl at_lot ↦ inl at_lot
              | inr in_xs ↦ inr (inr in_xs)
            ]
          ]
    ]

sort_lots-Any :
    (P : TradingLot → Type 0) (xs ys : List TradingLot) → sort_lots xs ≡ ok ys → Any P ys → Any P xs
unfolding sort_lots
sort_lots-Any P [] ys h p = subst (Any P) (sym (returned h)) p
sort_lots-Any P (x ∷ xs) ys h p =
    let (sorted, e, k) = >>=-eq-ok (sort_lots xs) _ h in
    elim (place-Any P x sorted ys k p) [
      | inl here ↦ inl here
      | inr later ↦ inr (sort_lots-Any P xs sorted e later)
    ]

module _ ⦃o : DecimalOps⦄ where
  -- The allocation sells part of what remains of the lot, at what this part cost.
  abbrev pub SellsPartOf : LotQuantityAllocation → TradingLot → Type 0
  SellsPartOf a lot =
      (a.lot_id ≡ lot.lot_id)
      × (a.quantity ≤ℤ lot.remaining_quantity)
      × (allocated_cost_for_close lot a.quantity ≡ ok a.cost_basis)

  -- A plan of sales from some lots.
  pub record IsPlan (policy : ProfitGuardPolicy) (limit_price : Decimal) (limit : ℤ)
      (lots : List TradingLot) (as' : List LotQuantityAllocation) : Type 0 where
    pub bounded : sum (quantities as') ≤ℤ limit
    pub earning : All (EarnsItsCost policy limit_price) as'
    pub of_lots : All (λ (a : LotQuantityAllocation). Any (SellsPartOf a) lots) as'

  nothing_planned :
      (policy : ProfitGuardPolicy) (price : Decimal) (limit : ℤ) (lots : List TradingLot)
      (as' : List LotQuantityAllocation)
      → pos 0 ≤ℤ limit
      → ◌≡◌ {A = Result Absent (List LotQuantityAllocation)} (ok []) (ok as')
      → IsPlan policy price limit lots as'
  unfolding sum
  nothing_planned policy price limit lots as' n h =
      subst (IsPlan policy price limit lots) (returned h)
        (record { bounded = n; earning = tt; of_lots = tt })

  All-of_lots :
      (lots lots' : List TradingLot) (as' : List LotQuantityAllocation)
      → ((a : LotQuantityAllocation) → Any (SellsPartOf a) lots → Any (SellsPartOf a) lots')
      → All (λ (a : LotQuantityAllocation). Any (SellsPartOf a) lots) as'
      → All (λ (a : LotQuantityAllocation). Any (SellsPartOf a) lots') as'
  All-of_lots lots lots' [] f h = tt
  All-of_lots lots lots' (a ∷ as') f (h, hs) = (f a h, All-of_lots lots lots' as' f hs)

  All-later :
      (lots : List TradingLot) (lot : TradingLot) (as' : List LotQuantityAllocation)
      → All (λ (a : LotQuantityAllocation). Any (SellsPartOf a) lots) as'
      → All (λ (a : LotQuantityAllocation). Any (SellsPartOf a) (lot ∷ lots)) as'
  All-later lots lot as' = All-of_lots lots (lot ∷ lots) as' (λ a h. inr h)

  closable :
      (lot : TradingLot) (quantity : ℤ) (cost : Decimal)
      → allocated_cost_for_close lot quantity ≡ ok cost
      → (pos 0 <ℤ quantity) × (quantity ≤ℤ lot.remaining_quantity)
  unfolding allocated_cost_for_close
  closable lot quantity cost h =
      let (_, guard, _) =
        >>=-eq-ok
          (fail_if
            (leb_ℤ quantity (pos 0)
              || (ltb_ℤ lot.remaining_quantity quantity || leb_ℤ lot.remaining_quantity (pos 0)))
            absent)
          _ h in
      let (low, over, _) =
        three_false (leb_ℤ quantity (pos 0)) (ltb_ℤ lot.remaining_quantity quantity)
          (leb_ℤ lot.remaining_quantity (pos 0)) (fail_if-ok _ _ _ guard) in
      (leb_ℤ→gt quantity (pos 0) low, ltb_ℤ→ge lot.remaining_quantity quantity over)

  prove_non_loss_lem :
      (config : Config) (lot : TradingLot) (quantity : ℤ) (price : Decimal)
      (a : LotQuantityAllocation)
      → prove_non_loss config lot quantity price ≡ ok a
      → (a.quantity ≡ quantity) × EarnsItsCost (policy_of config) price a × SellsPartOf a lot
  unfolding prove_non_loss evaluate_sell_slice_with_policy
  prove_non_loss_lem config lot quantity price a h =
      let (e, evaluated, k) =
        >>=-eq-ok (evaluate_sell_slice_with_policy (policy_of config) lot quantity price) _ h in
      let (cost, closes, priced) = >>=-eq-ok (allocated_cost_for_close lot quantity) _ evaluated in
      let (positive, within) = closable lot quantity cost closes in
      let (_, guard, k1) =
        >>=-eq-ok (fail_if (ltb_ℤ e.worst_case_profit zero_decimal) absent) _ k in
      let nonneg = ltb_ℤ→ge e.worst_case_profit zero_decimal (fail_if-ok _ _ _ guard) in
      let (earns, cost_is) =
        economics-EarnsItsCost (policy_of config) cost quantity price e lot.lot_id [] positive
          nonneg priced in
      subst
        (λ (b : LotQuantityAllocation).
          (b.quantity ≡ quantity) × EarnsItsCost (policy_of config) price b × SellsPartOf b lot)
        (returned k1) (refl, earns, (refl, within, closes ∙ (λ i. ok (sym cost_is i))))

  -- What comes after an allocation.
  planned_more :
      (policy : ProfitGuardPolicy) (price : Decimal) (quantity left remaining : ℤ)
      (lot : TradingLot) (lots : List TradingLot) (a : LotQuantityAllocation)
      (others : List LotQuantityAllocation)
      → (a.quantity ≡ quantity) × EarnsItsCost policy price a × SellsPartOf a lot
      → left ≡ remaining -ℤ quantity
      → IsPlan policy price left lots others
      → IsPlan policy price remaining (lot ∷ lots) (a ∷ others)
  unfolding sum
  planned_more policy price quantity left remaining lot lots a others (q, earns, part) l plan =
      record {
        bounded =
            bound_more quantity a.quantity left remaining (sum (quantities others)) q l
              plan.bounded;
        earning = (earns, plan.earning);
        of_lots = (inl part, All-later lots lot others plan.of_lots);
      }

  plan_lots_lem :
      (config : Config) (price : Decimal) (remaining : ℤ) (lots : List TradingLot)
      (as' : List LotQuantityAllocation)
      → pos 0 ≤ℤ remaining
      → plan_lots config price remaining lots ≡ ok as'
      → IsPlan (policy_of config) price remaining lots as'
  unfolding plan_lots
  plan_lots_lem config price remaining [] as' n h =
      nothing_planned (policy_of config) price remaining [] as' n h
  plan_lots_lem config price remaining (lot ∷ lots) as' n h =
      elim (Bool-cases (eqb_ℤ remaining (pos 0))) [
        | inl done ↦
            nothing_planned (policy_of config) price remaining (lot ∷ lots) as' n (rw done at h)
        | inr more ↦
            let quantity = min_ℤ remaining lot.remaining_quantity in
            elim (Result-cases (prove_non_loss config lot quantity price)) [
              | inl (a, proved) ↦
                  let (left, took, k) =
                    >>=-eq-ok (or_panic (checked_sub remaining quantity)) _
                      (rw (more, proved) at h) in
                  let (others, planned, fin) = >>=-eq-ok (plan_lots config price left lots) _ k in
                  let left_is =
                    to_i64-eq (remaining -ℤ quantity) left
                      (or_panic-eq (checked_sub remaining quantity) left took) in
                  let nonneg = left_nonneg remaining lot.remaining_quantity left left_is in
                  let plan = plan_lots_lem config price left lots others nonneg planned in
                  subst (IsPlan (policy_of config) price remaining (lot ∷ lots)) (returned fin) (
                    planned_more (policy_of config) price quantity left remaining lot lots a others
                      (prove_non_loss_lem config lot quantity price a proved) left_is plan)
              | inr (inl (e, refused)) ↦
                  let plan =
                    plan_lots_lem config price remaining lots as' n (rw (more, refused) at h) in
                  record {
                    bounded = plan.bounded;
                    earning = plan.earning;
                    of_lots = All-later lots lot as' plan.of_lots;
                  }
              | inr (inr panics) ↦ let k : panic ≡ ok as' = rw (more, panics) at h in ground arith
            ]
      ]

  -- A plan sells at most what is asked for. Each allocation is part of one of the lots given to it, at
  -- what this part cost, sells something and does not lose: its profit is what it brings in at its
  -- adverse price without the ceiling of its fees and without its cost, and is not negative.
  pub plan_non_loss_sales-IsPlan :
      (config : Config) (lots : List TradingLot) (requested : ℤ) (limit_price : Decimal)
      (as' : List LotQuantityAllocation)
      → plan_non_loss_sales config lots requested limit_price ≡ ok as'
      → IsPlan (policy_of config) limit_price (max_ℤ requested (pos 0)) lots as'
  unfolding plan_non_loss_sales
  plan_non_loss_sales-IsPlan config lots requested limit_price as' h =
      let (sorted, s, k) = >>=-eq-ok (sort_lots lots) _ h in
      let plan =
        plan_lots_lem config limit_price (max_ℤ requested (pos 0)) sorted as' (max_nonneg requested)
          k in
      record {
        bounded = plan.bounded;
        earning = plan.earning;
        of_lots =
            All-of_lots sorted lots as' (λ a. sort_lots-Any (SellsPartOf a) lots sorted s)
              plan.of_lots;
      }
