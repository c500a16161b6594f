-- ===== src/Account/Allocations.antt =====
-- `sell_fill_allocations` of src/domain.rs, over its whole list.
use grid_edge_t.Base.{
  ◌≡◌, ◌∙◌, ℕ, leb, Bool, true, false, not, ◌||◌, ◌&&◌, ◌==◌, List, [], ◌∷◌, map, any, length,
  if◌then◌else◌, Bool-cases, Option-cases, inl, inr, sym, subst, arith,
}
use grid_edge_t.Base.Int.{taken_back, ℤ, pos, ltb_ℤ, eqb_ℤ, min_ℤ, ◌-ℤ◌, eqb_ℤ→eq}
use grid_edge_t.Base.Ids.{Text}
use grid_edge_t.Base.Machine.{sum, try_sum, try_sum-eq, checked_sub, to_i64-eq}
use grid_edge_t.Base.Maps.{Map, lookup, member}
use grid_edge_t.Base.Results.{
  returned, Result, ok, or_panic, ok_or, fail_if, >>=-eq-ok, or_panic-eq, ok_or-eq, fail_if-ok,
}
use grid_edge_t.Account.{
  DomainError, invalid_lot_allocation, numeric_range, is_empty, keys, to_set, lot_ids_of,
  explicit_allocations, take_lots, sell_fill_allocations,
}
use grid_edge_t.Domain.{LotQuantityAllocation, Fill, TradingLot, StrategyState}

-- The shares of some allocations.
abbrev pub shares_of : List LotQuantityAllocation → ℤ
shares_of as' = sum (map (λ (a : LotQuantityAllocation). a.quantity) as')

first_equal : (a b : Bool) → (not a || b) ≡ false → a ≡ true
first_equal a b h = ground arith

explicit_allocations-sum :
    (fill : Fill) (as' : List LotQuantityAllocation)
    → explicit_allocations fill ≡ ok as'
    → shares_of as' ≡ fill.quantity
unfolding explicit_allocations
explicit_allocations-sum fill as' h =
    let quantities = map (λ (a : LotQuantityAllocation). a.quantity) fill.target_lot_allocations in
    let (total, t, k) = >>=-eq-ok (ok_or (try_sum quantities) numeric_range) _ h in
    let (_, guard, fin) =
      >>=-eq-ok
        (fail_if
          (not (eqb_ℤ total fill.quantity)
            || (not (
                  length (to_set (lot_ids_of fill.target_lot_allocations))
                  == length fill.target_lot_allocations)
                || (not (is_empty fill.target_lot_ids)
                    && any (λ id. not (member id fill.target_lot_ids))
                        (lot_ids_of fill.target_lot_allocations))))
          invalid_lot_allocation)
        _ k in
    let same = eqb_ℤ→eq total fill.quantity (first_equal _ _ (fail_if-ok _ _ _ guard)) in
    let total_is =
      try_sum-eq quantities total (ok_or-eq (try_sum quantities) numeric_range total t) in
    subst (λ xs. shares_of xs ≡ fill.quantity) (returned fin) (sym total_is ∙ same)

nothing_taken :
    (remaining : ℤ) (as' : List LotQuantityAllocation)
    → remaining ≡ pos 0
    → ◌≡◌ {A = Result DomainError (List LotQuantityAllocation)} (ok []) (ok as')
    → shares_of as' ≡ remaining
unfolding sum
nothing_taken remaining as' e h = subst (λ xs. shares_of xs ≡ remaining) (returned h) (sym e)

take_lots-sum :
    (lots : Map TradingLot) (date : ℕ) (remaining : ℤ) (ids : List Text)
    (as' : List LotQuantityAllocation)
    → take_lots lots date remaining ids ≡ ok as'
    → shares_of as' ≡ remaining
unfolding take_lots sum
take_lots-sum lots date remaining [] as' h = elim (Bool-cases (eqb_ℤ remaining (pos 0))) [
  | inl done ↦ nothing_taken remaining as' (eqb_ℤ→eq remaining (pos 0) done) (rw done at h)
  | inr more ↦ ground arith
]
take_lots-sum lots date remaining (id ∷ ids) as' h = elim (Bool-cases (eqb_ℤ remaining (pos 0))) [
  | inl done ↦ nothing_taken remaining as' (eqb_ℤ→eq remaining (pos 0) done) (rw done at h)
  | inr more ↦ elim (Option-cases (lookup id lots)) [
    | inl missing ↦ take_lots-sum lots date remaining ids as' (rw (more, missing) at h)
    | inr (lot, found) ↦ elim (Bool-cases (leb date lot.opened_on)) [
      | inl young ↦ take_lots-sum lots date remaining ids as' (rw (more, found, young) at h)
      | inr old ↦ elim (Bool-cases (ltb_ℤ (pos 0) (min_ℤ remaining lot.remaining_quantity))) [
        | inr empty_lot ↦
            take_lots-sum lots date remaining ids as' (rw (more, found, old, empty_lot) at h)
        | inl positive ↦
            let quantity = min_ℤ remaining lot.remaining_quantity in
            let (left, took, k) =
              >>=-eq-ok (or_panic (checked_sub remaining quantity)) _
                (rw (more, found, old, positive) at h) in
            let (others, rest, fin) = >>=-eq-ok (take_lots lots date left ids) _ k in
            let left_is =
              to_i64-eq (remaining -ℤ quantity) left
                (or_panic-eq (checked_sub remaining quantity) left took) in
            subst (λ xs. shares_of xs ≡ remaining) (returned fin)
              (rw (take_lots-sum lots date left ids others rest, left_is)
                (taken_back remaining quantity))
      ]
    ]
  ]
]

-- Whether the fill names its slices, its lots or neither, the slices that a sale takes add up to
-- exactly the quantity of the fill.
pub sell_fill_allocations-sum :
    (s : StrategyState) (fill : Fill) (as' : List LotQuantityAllocation)
    → sell_fill_allocations s fill ≡ ok as'
    → shares_of as' ≡ fill.quantity
unfolding sell_fill_allocations
sell_fill_allocations-sum s fill as' h = elim (Bool-cases (is_empty fill.target_lot_allocations)) [
  | inl none_named ↦
      take_lots-sum s.lots fill.trade_date fill.quantity
        (if is_empty fill.target_lot_ids then keys s.lots else fill.target_lot_ids) as'
        (rw none_named at h)
  | inr named ↦ explicit_allocations-sum fill as' (rw named at h)
]
