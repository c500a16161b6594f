-- ===== src/Risk/Approval/Ends.antt =====
-- How the parts of `canonical_approval` of src/risk.rs end: the checks of src/risk.rs do not panic.
use grid_edge_t.Base.{
  ◌≡◌, ◌≢◌, ◌⊎◌, ◌||◌, Bool, true, false, Option, none, some, inl, inr, refl, arith, if◌then◌else◌,
}
use grid_edge_t.Base.Int.{ℤ, pos, ltb_ℤ, leb_ℤ, ◌-ℤ◌, int_laws, ltb_ℤ→ge}
use grid_edge_t.Base.Machine.{IsI64, checked_sub, to_i64-some}
use grid_edge_t.Base.Results.{Result, ok, err, panic, or_panic, ok_or, fail_if, ◌>>=◌, fail_if-ok}
use grid_edge_t.Config.{Config}
use grid_edge_t.Decimal.{Decimal, DecimalOps}
use grid_edge_t.Domain.{StrategyState}
use grid_edge_t.Risk.{
  RiskError, safe_mode, insufficient_cash, max_position, numeric_range, insufficient_sellable,
  base_position, is_running, check_buy, check_sell,
}
use grid_edge_t.Risk.Approval.{or_smaller, succeeds}

-- An operation leaves the numeric range, or it panics for a given reason, or its result has a property.
abbrev pub Ends : {A : Type 0} → Type 0 → (A → Type 0) → Result RiskError A → Type 0
Ends {A} Reason P m =
    (m ≡ err numeric_range) ⊎ ((m ≡ panic) × Reason) ⊎ ((a : A) × (m ≡ ok a) × P a)

pub Ends-then :
    {A B : Type 0} (Reason : Type 0) (P : B → Type 0) (m : Result RiskError A)
    (next : A → Result RiskError B)
    → Ends Reason (λ a. Ends Reason P (next a)) m
    → Ends Reason P (m >>= next)
Ends-then Reason P m next (inl e) = inl (rw e refl)
Ends-then Reason P m next (inr (inl (e, reason))) = inr (inl (rw e refl, reason))
Ends-then Reason P m next (inr (inr (a, e, k))) = rw e k

pub checked-Ends :
    {A : Type 0} (Reason : Type 0) (P : A → Type 0) (x : Option A)
    → ((a : A) → x ≡ some a → P a)
    → Ends Reason P (ok_or x numeric_range)
checked-Ends Reason P none k = inl refl
checked-Ends Reason P (some a) k = inr (inr (a, refl, k a refl))

after_quiet :
    {A B : Type 0} (m : Result RiskError A) (next : A → Result RiskError B)
    → m ≢ panic
    → (m >>= next) ≡ panic
    → (a : A) × (m ≡ ok a) × (next a ≡ panic)
after_quiet (ok a) next quiet h = (a, refl, h)
after_quiet (err e) next quiet h = cc
after_quiet panic next quiet h = absurd (quiet refl)

fail_if-quiet : (b : Bool) (e : RiskError) → fail_if b e ≢ panic
fail_if-quiet true e h = cc
fail_if-quiet false e h = cc

ok-quiet : {A : Type 0} (a : A) → ◌≢◌ {A = Result RiskError A} (ok a) panic
ok-quiet a h = cc

ok_or-quiet : {A : Type 0} (x : Option A) (e : RiskError) → ok_or x e ≢ panic
ok_or-quiet none e h = cc
ok_or-quiet (some a) e h = cc

fits : (x : Option ℤ) (a : ℤ) → x ≡ some a → ◌≢◌ {A = Result RiskError ℤ} (or_panic x) panic
fits none a e h = cc
fits (some b) a e h = cc

either_false : (a b : Bool) → (a || b) ≡ false → (a ≡ false) × (b ≡ false)
either_false a b h = ground arith

room_fits :
    (total limit : ℤ)
    → IsI64 limit
    → (ltb_ℤ total (pos 0) || ltb_ℤ limit total) ≡ false
    → IsI64 (limit -ℤ total)
room_fits total limit f h =
    let (low, high) = either_false (ltb_ℤ total (pos 0)) (ltb_ℤ limit total) h in
    let nonneg = ltb_ℤ→ge total (pos 0) low in
    let most = ltb_ℤ→ge limit total high in (omega int_laws, omega int_laws)

pub check_sell-quiet :
    (config : Config) (state : StrategyState) (quantity : ℤ)
    → check_sell config state quantity ≢ panic
unfolding check_sell
check_sell-quiet config state quantity h =
    let (_, _, k1) =
      after_quiet (fail_if (if is_running state.mode then false else true) safe_mode) _
        (fail_if-quiet _ safe_mode) h in
    let (available, _, k2) =
      after_quiet
        (ok_or (checked_sub state.position.sellable state.position.frozen_sell) numeric_range) _
        (ok_or-quiet _ numeric_range) k1 in
    let (_, _, k3) =
      after_quiet
        (fail_if (leb_ℤ quantity (pos 0) || ltb_ℤ available quantity) insufficient_sellable) _
        (fail_if-quiet _ insufficient_sellable) k2 in
    let (remaining, _, k4) =
      after_quiet (ok_or (checked_sub state.position.total quantity) numeric_range) _
        (ok_or-quiet _ numeric_range) k3 in
    let (_, _, fin) =
      after_quiet (fail_if (ltb_ℤ remaining config.min_base_position) base_position) _
        (fail_if-quiet _ base_position) k4 in
    ok-quiet tt fin

module _ ⦃o : DecimalOps⦄ where
  pub check_buy-quiet :
      (config : Config) (state : StrategyState) (quantity : ℤ) (cost : Decimal)
      → IsI64 config.max_position
      → check_buy config state quantity cost ≢ panic
  unfolding check_buy
  check_buy-quiet config state quantity cost f h =
      let (_, _, k1) =
        after_quiet (fail_if (if is_running state.mode then false else true) safe_mode) _
          (fail_if-quiet _ safe_mode) h in
      let (cash, _, k2) =
        after_quiet
          (ok_or (o.checked_sub_decimal state.cash.available state.cash.frozen) numeric_range) _
          (ok_or-quiet _ numeric_range) k1 in
      let (_, _, k3) =
        after_quiet (fail_if (leb_ℤ quantity (pos 0) || ltb_ℤ cash cost) insufficient_cash) _
          (fail_if-quiet _ insufficient_cash) k2 in
      let (u, within, k4) =
        after_quiet
          (fail_if
            (ltb_ℤ state.position.total (pos 0) || ltb_ℤ config.max_position state.position.total)
            max_position)
          _ (fail_if-quiet _ max_position) k3 in
      let fits_room = to_i64-some (config.max_position -ℤ state.position.total) (
        room_fits state.position.total config.max_position f
          (fail_if-ok _ max_position u within)) in
      let (room, _, k5) =
        after_quiet (or_panic (checked_sub config.max_position state.position.total)) _
          (fits _ _ fits_room) k4 in
      let (_, _, fin) =
        after_quiet (fail_if (ltb_ℤ room quantity) max_position) _ (fail_if-quiet _ max_position)
          k5 in
      ok-quiet tt fin

-- What a check tells the loop over a buy, and the one over a sale.
pub or_smaller-Ends :
    (r : Result RiskError (Unit {0}))
    → r ≢ panic
    → Ends ⊥ (λ b. ((b ≡ true) × (r ≡ ok tt)) ⊎ ((b ≡ false) × (r ≢ ok tt))) (or_smaller r)
unfolding or_smaller
or_smaller-Ends (ok _) q = inr (inr (true, refl, inl (refl, refl)))
or_smaller-Ends (err safe_mode) q = inr (inr (false, refl, inr (refl, λ h. cc)))
or_smaller-Ends (err insufficient_cash) q = inr (inr (false, refl, inr (refl, λ h. cc)))
or_smaller-Ends (err max_position) q = inr (inr (false, refl, inr (refl, λ h. cc)))
or_smaller-Ends (err numeric_range) q = inl refl
or_smaller-Ends (err insufficient_sellable) q = inr (inr (false, refl, inr (refl, λ h. cc)))
or_smaller-Ends (err base_position) q = inr (inr (false, refl, inr (refl, λ h. cc)))
or_smaller-Ends panic q = absurd (q refl)

pub succeeds-Ends :
    (Reason : Type 0) (r : Result RiskError (Unit {0}))
    → r ≢ panic
    → Ends Reason (λ b. ((b ≡ true) × (r ≡ ok tt)) ⊎ ((b ≡ false) × (r ≢ ok tt))) (succeeds r)
unfolding succeeds
succeeds-Ends Reason (ok _) q = inr (inr (true, refl, inl (refl, refl)))
succeeds-Ends Reason (err _) q = inr (inr (false, refl, inr (refl, λ h. cc)))
succeeds-Ends Reason panic q = absurd (q refl)
