-- ===== src/Grid/Rearm.antt =====
-- `maybe_rearm` of src/grid.rs.
use grid_edge_t.Base.{
  ◌≡◌, subst, Option-cases, ◌⊎◌, Bool, true, false, arith, if◌then◌else◌, Bool-cases, inl, inr,
}
use grid_edge_t.Base.Int.{pos, ltb_ℤ, ◌≤ℤ◌, ◌<ℤ◌, ◌-ℤ◌, ltb_ℤ→lt, ltb_ℤ→ge, int_laws}
use grid_edge_t.Base.Results.{Result, ok, ok_or, >>=-eq-ok, ok_or-eq}
use grid_edge_t.Decimal.{Decimal, DecimalOps, zero_decimal, one_decimal}
use grid_edge_t.Decimal.Laws.{DecimalLaws}
use grid_edge_t.Domain.{GridLevelState, GridLevelStatus, touched, executed, skipped, rearmed}
use grid_edge_t.Grid.{
  maybe_rearm, may_rearm, rearm_width, is_cleared, GridError, threshold_overflow,
}

-- The price lies on the side of the level from which no bar has yet crossed it.
abbrev pub IsOnSafeSide : GridLevelState → Decimal → Type 0
IsOnSafeSide l current_price =
    ((l.index <ℤ pos 0) × (l.price ≤ℤ current_price))
    ⊎ ((pos 0 ≤ℤ l.index) × (current_price ≤ℤ l.price))

-- What a call of `maybe_rearm` did to a level.
pub data Rearmed (l : GridLevelState) (current_price : Decimal)
    : GridLevelState → Bool → Type 0 where
  unchanged : Rearmed l current_price l false
  armed_again :
      (l.status ≡ touched) ⊎ ((l.status ≡ executed) ⊎ (l.status ≡ skipped))
      → IsOnSafeSide l current_price
      → Rearmed l current_price (record l { status = rearmed }) true

minus_one : pos 0 -ℤ one_decimal ≤ℤ pos 0
minus_one = omega int_laws

status_before :
    (s : GridLevelStatus) → may_rearm s ≡ true → (s ≡ touched) ⊎ ((s ≡ executed) ⊎ (s ≡ skipped))
status_before s m = ground arith

module _ ⦃o : DecimalOps⦄ (laws : DecimalLaws o) where
  rearm_width_nonneg : (w r : Decimal) → rearm_width w ≡ ok r → pos 0 ≤ℤ r
  unfolding rearm_width
  rearm_width_nonneg w r h = elim (Bool-cases (ltb_ℤ w zero_decimal)) [
    | inl neg ↦
        let product = ok_or-eq _ _ r (rw neg at h) in
        let below = ltb_ℤ→lt w zero_decimal neg in
        laws.mul_negatives w (pos 0 -ℤ one_decimal) r (omega arith) minus_one product
    | inr pos' ↦
        let above = ltb_ℤ→ge w zero_decimal pos' in
        let same : ◌≡◌ {A = Result GridError Decimal} (ok w) (ok r) = rw pos' at h in ground arith
  ]

  is_cleared_safe :
      (l : GridLevelState) (current_price threshold : Decimal)
      → pos 0 ≤ℤ threshold
      → is_cleared l current_price threshold ≡ ok true
      → IsOnSafeSide l current_price
  unfolding is_cleared
  is_cleared_safe l c t n h = elim (Bool-cases (ltb_ℤ l.index (pos 0))) [
    | inl lower ↦ elim (Option-cases (o.checked_add_decimal l.price t)) [
      | inl over ↦ ground arith
      | inr (b, e) ↦ let grown = laws.add_mono l.price t b n e in ground arith
    ]
    | inr upper ↦ elim (Option-cases (o.checked_sub_decimal l.price t)) [
      | inl over ↦ ground arith
      | inr (b, e) ↦ let shrunk = laws.sub_shrinks l.price t b n e in ground arith
    ]
  ]

  abbrev outcome : GridLevelState → Bool → GridLevelState × Bool
  outcome l b = if b then (record l { status = rearmed }, true) else (l, false)

  result :
      (l : GridLevelState) (c : Decimal) (b : Bool) (l' : GridLevelState) (done : Bool)
      → Rearmed l c (outcome l b).0 (outcome l b).1
      → ◌≡◌ {A = Result GridError (GridLevelState × Bool)} (ok (outcome l b)) (ok (l', done))
      → Rearmed l c l' done
  result l c b l' done r h =
      let same : outcome l b ≡ (l', done) = ground arith in
      subst (λ (x : GridLevelState × Bool). Rearmed l c x.0 x.1) same r

  is_cleared-Rearmed :
      (l : GridLevelState) (c t : Decimal) (b : Bool)
      → pos 0 ≤ℤ t
      → may_rearm l.status ≡ true
      → is_cleared l c t ≡ ok b
      → Rearmed l c (outcome l b).0 (outcome l b).1
  is_cleared-Rearmed l c t true n m h =
      armed_again (status_before l.status m) (is_cleared_safe l c t n h)
  is_cleared-Rearmed l c t false n m h = unchanged

  -- For a hysteresis ratio that is not negative, `maybe_rearm` leaves the level alone and says so,
  -- or arms it again; it arms only a level that was touched, executed or skipped, changes only its
  -- status, and does so only while the price is on the level's safe side.
  pub maybe_rearm-Rearmed :
      (l : GridLevelState) (current_price grid_width hysteresis_ratio : Decimal)
      → pos 0 ≤ℤ hysteresis_ratio
      → (l' : GridLevelState) (done : Bool)
      → maybe_rearm l current_price grid_width hysteresis_ratio ≡ ok (l', done)
      → Rearmed l current_price l' done
  unfolding maybe_rearm
  maybe_rearm-Rearmed l c w r n l' done h = elim (Bool-cases (may_rearm l.status)) [
    | inl may ↦
        let (width, wide, k) = >>=-eq-ok (rearm_width w) _ (rw may at h) in
        let (t, product, k') =
          >>=-eq-ok (ok_or (o.checked_mul_decimal width r) threshold_overflow) _ k in
        let nonneg = rearm_width_nonneg w width wide in
        let t_nonneg = laws.mul_nonneg width r t nonneg n (ok_or-eq _ _ t product) in
        let (b, test, final) = >>=-eq-ok (is_cleared l c t) _ k' in
        result l c b l' done (is_cleared-Rearmed l c t b t_nonneg may test) final
    | inr never ↦
        let same : (l ≡ l') × (done ≡ false) = ground arith in
        subst (λ (m : GridLevelState). Rearmed l c m done) same.0 (rw same.1 unchanged)
  ]
