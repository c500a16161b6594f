-- ===== src/Risk/Affordable.antt =====
-- `affordable_buy_units` of src/risk.rs.
use grid_edge_t.Base.{
  ◌≡◌, ◌⊎◌, ℕ, zero, suc, Bool, true, false, ◌||◌, Option, some, none, inl, inr, refl, sym, subst,
  arith,
}
use grid_edge_t.Base.Int.{
  ℤ, pos, negsuc, magnitude, ltb_ℤ, leb_ℤ, quot, ◌+ℤ◌, ◌-ℤ◌, ◌≤ℤ◌, ◌<ℤ◌, int_laws, ltb_ℤ→lt,
  ltb_ℤ→ge, leb_ℤ→le, leb_ℤ→gt,
}
use grid_edge_t.Base.Machine.{checked_add, checked_sub, checked_mul, to_i64-eq}
use grid_edge_t.Base.Results.{Result, ok, err, ok_or, fail_if, ◌>>=◌, ◌>>◌}
use grid_edge_t.Config.{Config, policy_of}
use grid_edge_t.Decimal.{Decimal, zero_decimal, DecimalOps}
use grid_edge_t.Profit.{checked_buy_cash_reservation_with_policy}
use grid_edge_t.Risk.{
  RiskError, numeric_range, estimated_buy_reservation, reserve_units, search_units,
  affordable_buy_units,
}

-- An operation leaves the numeric range, or its result has a property; it does not panic.
abbrev pub Outcome : {A : Type 0} → (A → Type 0) → Result RiskError A → Type 0
Outcome {A} P m = (m ≡ err numeric_range) ⊎ ((a : A) × (m ≡ ok a) × P a)

checked_then :
    {A B : Type 0} (P : B → Type 0) (x : Option A) (next : A → Result RiskError B)
    → ((a : A) → x ≡ some a → Outcome P (next a))
    → Outcome P (ok_or x numeric_range >>= next)
checked_then P none next k = inl refl
checked_then P (some a) next k = k a refl

result_then :
    {A B : Type 0} (P : B → Type 0) (m : Result RiskError A) (next : A → Result RiskError B)
    → Outcome (λ a. Unit {0}) m
    → ((a : A) → m ≡ ok a → Outcome P (next a))
    → Outcome P (m >>= next)
result_then P m next (inl e) k = inl (rw e refl)
result_then P m next (inr (a, e, _)) k = rw e (k a e)

half_bounds :
    (span : ℤ) → pos 0 <ℤ span → (pos 0 ≤ℤ quot span (pos 2)) × (quot span (pos 2) <ℤ span)
unfolding quot
half_bounds (pos s) h = (omega arith, omega arith)
half_bounds (negsuc s) h = absurd (omega arith)

mid_bounds :
    (low high span half mid : ℤ)
    → low <ℤ high
    → span ≡ high -ℤ low
    → half ≡ low +ℤ quot span (pos 2)
    → mid ≡ half +ℤ pos 1
    → (low <ℤ mid) × (mid ≤ℤ high)
mid_bounds low high span half mid h s f m =
    let positive : pos 0 <ℤ high -ℤ low = omega int_laws in
    let (nonneg, small) = half_bounds (high -ℤ low) positive in
    rw (m, f, s) (omega int_laws, omega int_laws)

fewer_above :
    (low high mid : ℤ) (fuel : ℕ)
    → low <ℤ mid
    → high <ℤ low +ℤ pos (suc fuel)
    → high <ℤ mid +ℤ pos fuel
fewer_above low high mid fuel above f = omega int_laws

fewer_below :
    (low high mid below : ℤ) (fuel : ℕ)
    → below ≡ mid -ℤ pos 1
    → mid ≤ℤ high
    → high <ℤ low +ℤ pos (suc fuel)
    → below <ℤ low +ℤ pos fuel
fewer_below low high mid below fuel b upto f = rw b (omega int_laws)

middle_false : (a b c : Bool) → (a || (b || c)) ≡ false → b ≡ false
middle_false a b c h = ground arith

branch :
    {A : Type 0} (P : A → Type 0) (b : Bool) (on_false on_true : Result RiskError A)
    → (b ≡ false → Outcome P on_false)
    → (b ≡ true → Outcome P on_true)
    → Outcome P (elim b [ false ↦ on_false | true ↦ on_true ])
branch P true on_false on_true f t = t refl
branch P false on_false on_true f t = f refl

guarded :
    {A : Type 0} (P : A → Type 0) (b : Bool) (next : Result RiskError A)
    → (b ≡ false → Outcome P next)
    → Outcome P (fail_if b numeric_range >> next)
guarded P true next k = inl refl
guarded P false next k = k refl

back_again : (mid : ℤ) → mid -ℤ pos 1 +ℤ pos 1 ≡ mid
back_again mid = omega int_laws

module _ ⦃o : DecimalOps⦄ (config : Config) (limit_price cash : Decimal) where
  reserve_units-Outcome :
      (units : ℤ) → Outcome (λ r. Unit {0}) (reserve_units config limit_price units)
  unfolding reserve_units estimated_buy_reservation
  reserve_units-Outcome units =
      checked_then _ (checked_mul units config.standard_quantity) _ λ quantity _.
        present (checked_buy_cash_reservation_with_policy (policy_of config) limit_price quantity)
    where
      present : (x : Option Decimal) → Outcome (λ r. Unit {0}) (ok_or x numeric_range)
      present none = inl refl
      present (some r) = inr (r, refl, tt)

  -- The reservation of so many units can be paid, or cannot.
  abbrev pub IsPayable : ℤ → Type 0
  IsPayable units = (r : Decimal) × (reserve_units config limit_price units ≡ ok r) × (r ≤ℤ cash)

  abbrev pub IsTooMuch : ℤ → Type 0
  IsTooMuch units = (r : Decimal) × (reserve_units config limit_price units ≡ ok r) × (cash <ℤ r)

  -- A number of units that can be paid, where one more cannot or is not wanted.
  pub record IsBoundary (maximum units : ℤ) : Type 0 where
    pub units_nonneg : pos 0 ≤ℤ units
    pub within : units ≤ℤ maximum
    pub payable : (units ≡ pos 0) ⊎ IsPayable units
    pub no_more : (units ≡ maximum) ⊎ IsTooMuch (units +ℤ pos 1)

  -- What holds of the two ends of the search.
  record IsInterval (maximum low high : ℤ) : Type 0 where
    low_nonneg : pos 0 ≤ℤ low
    ordered : low ≤ℤ high
    within : high ≤ℤ maximum
    payable : (low ≡ pos 0) ⊎ IsPayable low
    no_more : (high ≡ maximum) ⊎ IsTooMuch (high +ℤ pos 1)

  stopped :
      (maximum low high : ℤ) → IsInterval maximum low high → high ≤ℤ low → IsBoundary maximum low
  stopped maximum low high i ge =
      let le = i.ordered in
      let same : high ≡ low = omega int_laws in
      record {
        units_nonneg = i.low_nonneg;
        within = rw same at i.within;
        payable = i.payable;
        no_more = subst (λ h. (h ≡ maximum) ⊎ IsTooMuch (h +ℤ pos 1)) same i.no_more;
      }

  raised :
      (maximum low high mid : ℤ)
      → IsInterval maximum low high
      → low <ℤ mid
      → mid ≤ℤ high
      → IsPayable mid
      → IsInterval maximum mid high
  raised maximum low high mid i above upto p = record {
    low_nonneg = let n = i.low_nonneg in omega arith;
    ordered = upto;
    within = i.within;
    payable = inr p;
    no_more = i.no_more;
  }

  lowered :
      (maximum low high mid below : ℤ)
      → IsInterval maximum low high
      → below ≡ mid -ℤ pos 1
      → low <ℤ mid
      → mid ≤ℤ high
      → IsTooMuch mid
      → IsInterval maximum low below
  lowered maximum low high mid below i b above upto t = record {
    low_nonneg = i.low_nonneg;
    ordered = rw b (omega int_laws);
    within = let w = i.within in rw b (omega int_laws);
    payable = i.payable;
    no_more = inr (subst IsTooMuch (sym (rw b (back_again mid))) t);
  }

  search_units-IsBoundary :
      (maximum : ℤ) (fuel : ℕ) (low high : ℤ)
      → IsInterval maximum low high
      → high <ℤ low +ℤ pos fuel
      → Outcome (IsBoundary maximum) (search_units config limit_price cash fuel low high)
  unfolding search_units
  search_units-IsBoundary maximum zero low high i f = absurd (let le = i.ordered in omega int_laws)
  search_units-IsBoundary maximum (suc fuel) low high i f =
      branch (IsBoundary maximum) (ltb_ℤ low high) _ _
        (λ done. inr (low, refl, stopped maximum low high i (ltb_ℤ→ge low high done)))
        (λ more. checked_then (IsBoundary maximum) (checked_sub high low) _ λ span s.
          checked_then (IsBoundary maximum) (checked_add low (quot span (pos 2))) _ λ half h.
            checked_then (IsBoundary maximum) (checked_add half (pos 1)) _ λ mid m.
              result_then (IsBoundary maximum) (reserve_units config limit_price mid) _
                (reserve_units-Outcome mid)
                λ reserved r.
                  let (above, upto) =
                    mid_bounds low high span half mid (ltb_ℤ→lt low high more)
                      (to_i64-eq (high -ℤ low) span s) (to_i64-eq (low +ℤ quot span (pos 2)) half h)
                      (to_i64-eq (half +ℤ pos 1) mid m) in
                  branch (IsBoundary maximum) (leb_ℤ reserved cash) _ _
                    (λ dear.
                      checked_then (IsBoundary maximum) (checked_sub mid (pos 1)) _ λ below b.
                        search_units-IsBoundary maximum fuel low below
                          (lowered maximum low high mid below i (to_i64-eq (mid -ℤ pos 1) below b)
                            above upto (reserved, r, leb_ℤ→gt reserved cash dear))
                          (fewer_below low high mid below fuel (to_i64-eq (mid -ℤ pos 1) below b)
                            upto f))
                    (λ cheap.
                      search_units-IsBoundary maximum fuel mid high
                        (raised maximum low high mid i above upto
                          (reserved, r, leb_ℤ→le reserved cash cheap))
                        (fewer_above low high mid fuel above f)))

  -- The search ends within its fuel: it leaves the numeric range, or it finds a number of units from
  -- zero to the maximum whose reservation the cash can pay (or zero), while that of one unit more
  -- is more than the cash (or the maximum is reached).
  pub affordable_buy_units-IsBoundary :
      (maximum : ℤ)
      → Outcome (IsBoundary maximum) (affordable_buy_units config limit_price cash maximum)
  unfolding affordable_buy_units
  affordable_buy_units-IsBoundary maximum =
      guarded (IsBoundary maximum)
        (ltb_ℤ cash zero_decimal
          || (ltb_ℤ maximum (pos 0) || leb_ℤ config.standard_quantity (pos 0)))
        _
        λ open_.
          let nonneg = ltb_ℤ→ge maximum (pos 0) (
            middle_false (ltb_ℤ cash zero_decimal) (ltb_ℤ maximum (pos 0))
              (leb_ℤ config.standard_quantity (pos 0)) open_) in
          search_units-IsBoundary maximum (suc (magnitude maximum)) (pos 0) maximum
            (record {
              low_nonneg = omega arith;
              ordered = nonneg;
              within = omega arith;
              payable = inl refl;
              no_more = inl refl;
            })
            (omega int_laws)
