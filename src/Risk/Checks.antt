-- ===== src/Risk/Checks.antt =====
-- `check_buy` and `check_sell` of src/risk.rs.
use grid_edge_t.Base.{◌≡◌, ◌↔◌, Bool, true, false, ◌||◌, some, arith, if◌then◌else◌}
use grid_edge_t.Base.Int.{
  ℤ, pos, ltb_ℤ, leb_ℤ, ◌+ℤ◌, ◌-ℤ◌, ◌≤ℤ◌, ◌<ℤ◌, int_laws, ltb_ℤ→ge, leb_ℤ→gt,
}
use grid_edge_t.Base.Machine.{IsI64, checked_sub, to_i64-eq, to_i64-some}
use grid_edge_t.Base.Results.{
  ok, or_panic, ok_or, fail_if, >>=-eq-ok, ok_or-eq, or_panic-eq, fail_if-ok,
}
use grid_edge_t.Config.{Config}
use grid_edge_t.Decimal.{Decimal, DecimalOps}
use grid_edge_t.Domain.{StrategyState}
use grid_edge_t.Risk.{
  safe_mode, insufficient_cash, max_position, numeric_range, insufficient_sellable, base_position,
  is_running, check_buy, check_sell,
}

runs : (b : Bool) → (if b then false else true) ≡ false → b ≡ true
runs b h = ground arith

both_false : (a b : Bool) → (a || b) ≡ false → (a ≡ false) × (b ≡ false)
both_false a b h = ground arith

-- A sale that is allowed: part of what can be sold and is not frozen, keeping the base position.
pub record IsSellable (config : Config) (s : StrategyState) (q : ℤ) : Type 0 where
  pub in_service : is_running s.mode ≡ true
  pub positive : pos 0 <ℤ q
  pub covered : q ≤ℤ s.position.sellable -ℤ s.position.frozen_sell
  pub keeps_base : config.min_base_position ≤ℤ s.position.total -ℤ q

check_sell-IsSellable :
    (config : Config) (s : StrategyState) (q : ℤ)
    → check_sell config s q ≡ ok tt
    → IsSellable config s q
unfolding check_sell
check_sell-IsSellable config s q h =
    let (_, running, k1) =
      >>=-eq-ok (fail_if (if is_running s.mode then false else true) safe_mode) _ h in
    let (available, a, k2) =
      >>=-eq-ok (ok_or (checked_sub s.position.sellable s.position.frozen_sell) numeric_range) _
        k1 in
    let (_, covers, k3) =
      >>=-eq-ok (fail_if (leb_ℤ q (pos 0) || ltb_ℤ available q) insufficient_sellable) _ k2 in
    let (remaining, r, k4) =
      >>=-eq-ok (ok_or (checked_sub s.position.total q) numeric_range) _ k3 in
    let (_, base, _) =
      >>=-eq-ok (fail_if (ltb_ℤ remaining config.min_base_position) base_position) _ k4 in
    let (low, over) = both_false (leb_ℤ q (pos 0)) (ltb_ℤ available q) (fail_if-ok _ _ _ covers) in
    let available_is = to_i64-eq (s.position.sellable -ℤ s.position.frozen_sell) available (
      ok_or-eq (checked_sub s.position.sellable s.position.frozen_sell) numeric_range available
        a) in
    let remaining_is =
      to_i64-eq (s.position.total -ℤ q) remaining
        (ok_or-eq (checked_sub s.position.total q) numeric_range remaining r) in
    record {
      in_service = runs (is_running s.mode) (fail_if-ok _ _ _ running);
      positive = leb_ℤ→gt q (pos 0) low;
      covered = rw available_is at (ltb_ℤ→ge available q over);
      keeps_base =
          rw remaining_is at (ltb_ℤ→ge remaining config.min_base_position (fail_if-ok _ _ _ base));
    }

sellable_passes :
    (config : Config) (s : StrategyState) (q : ℤ)
    → IsI64 (s.position.sellable -ℤ s.position.frozen_sell)
    → IsI64 (s.position.total -ℤ q)
    → IsSellable config s q
    → check_sell config s q ≡ ok tt
unfolding check_sell
sellable_passes config s q f g i =
    let a = to_i64-some (s.position.sellable -ℤ s.position.frozen_sell) f in
    let b = to_i64-some (s.position.total -ℤ q) g in
    let positive : leb_ℤ q (pos 0) ≡ false = let p = i.positive in ground arith in
    let covered : ltb_ℤ (s.position.sellable -ℤ s.position.frozen_sell) q ≡ false =
      let p = i.covered in ground arith in
    let keeps : ltb_ℤ (s.position.total -ℤ q) config.min_base_position ≡ false =
      let p = i.keeps_base in ground arith in
    rw (i.in_service, a, positive, covered, b, keeps)

-- Where the two differences that it takes are `i64`s, `check_sell` allows exactly the sales of a running
-- service that sell something, no more than what can be sold and is not frozen, and that leave the
-- minimum base position.
pub check_sell_iff :
    (config : Config) (s : StrategyState) (q : ℤ)
    → IsI64 (s.position.sellable -ℤ s.position.frozen_sell)
    → IsI64 (s.position.total -ℤ q)
    → (check_sell config s q ≡ ok tt) ↔ IsSellable config s q
check_sell_iff config s q f g = (check_sell-IsSellable config s q, sellable_passes config s q f g)

module _ ⦃o : DecimalOps⦄ where
  -- A buy that is allowed.
  pub record IsBuyable (config : Config) (s : StrategyState) (q : ℤ) (cost : Decimal) : Type 0 where
    pub in_service : is_running s.mode ≡ true
    pub positive : pos 0 <ℤ q
    pub free_cash : Decimal
    pub is_free : o.checked_sub_decimal s.cash.available s.cash.frozen ≡ some free_cash
    pub payable : cost ≤ℤ free_cash
    pub total_nonneg : pos 0 ≤ℤ s.position.total
    pub has_room : s.position.total +ℤ q ≤ℤ config.max_position

  -- A buy that `check_buy` allows is one of a running service, buys something, costs no more than the
  -- cash that is not frozen, and does not take the position, which is not negative, over the maximum.
  pub check_buy-IsBuyable :
      (config : Config) (s : StrategyState) (q : ℤ) (cost : Decimal)
      → check_buy config s q cost ≡ ok tt
      → IsBuyable config s q cost
  unfolding check_buy
  check_buy-IsBuyable config s q cost h =
      let (_, running, k1) =
        >>=-eq-ok (fail_if (if is_running s.mode then false else true) safe_mode) _ h in
      let (cash, free, k2) =
        >>=-eq-ok (ok_or (o.checked_sub_decimal s.cash.available s.cash.frozen) numeric_range) _
          k1 in
      let (_, pays, k3) =
        >>=-eq-ok (fail_if (leb_ℤ q (pos 0) || ltb_ℤ cash cost) insufficient_cash) _ k2 in
      let (_, sane, k4) =
        >>=-eq-ok
          (fail_if (ltb_ℤ s.position.total (pos 0) || ltb_ℤ config.max_position s.position.total)
            max_position)
          _ k3 in
      let (room, r, k5) =
        >>=-eq-ok (or_panic (checked_sub config.max_position s.position.total)) _ k4 in
      let (_, fits, _) = >>=-eq-ok (fail_if (ltb_ℤ room q) max_position) _ k5 in
      let (low, dear) = both_false (leb_ℤ q (pos 0)) (ltb_ℤ cash cost) (fail_if-ok _ _ _ pays) in
      let (negative, _) =
        both_false (ltb_ℤ s.position.total (pos 0)) (ltb_ℤ config.max_position s.position.total)
          (fail_if-ok _ _ _ sane) in
      let room_is =
        to_i64-eq (config.max_position -ℤ s.position.total) room
          (or_panic-eq (checked_sub config.max_position s.position.total) room r) in
      let enough : q ≤ℤ config.max_position -ℤ s.position.total =
        rw room_is at (ltb_ℤ→ge room q (fail_if-ok _ _ _ fits)) in
      record {
        in_service = runs (is_running s.mode) (fail_if-ok _ _ _ running);
        positive = leb_ℤ→gt q (pos 0) low;
        free_cash = cash;
        is_free = ok_or-eq _ _ cash free;
        payable = ltb_ℤ→ge cash cost dear;
        total_nonneg = ltb_ℤ→ge s.position.total (pos 0) negative;
        has_room = omega int_laws;
      }
