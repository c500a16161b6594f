-- ===== src/Grid/Prices.antt =====
-- `GridSpec::price` of src/grid.rs.
use mathlib.Core.Path.{subst₂}
use mathlib.Core.Option.{some-injective}
use grid_edge_t.Base.{
  ◌≡◌, ◌||◌, ◌≤◌, ℕ, zero, suc, true, some, arith, Bool-cases, inl, inr, sym, subst, ◌∙◌,
}
use grid_edge_t.Base.Int.{ℤ, pos, ltb_ℤ, leb_ℤ, ◌≤ℤ◌, ◌<ℤ◌, magnitude, leb_ℤ→gt, ≤ℤ_trans}
use grid_edge_t.Base.Machine.{checked_abs_i32}
use grid_edge_t.Base.Results.{ok, ok_or, fail_if, >>=-eq-ok, ok_or-eq, fail_if-ok}
use grid_edge_t.Decimal.{Decimal, DecimalOps, zero_decimal, one_decimal, midpoint_away_from_zero}
use grid_edge_t.Decimal.Laws.{DecimalLaws}
use grid_edge_t.Grid.{
  GridSpec, price, unrounded, multiply_times, divide_times, factor_not_representable,
  price_multiplication_overflow, price_division_overflow, index_not_representable, factor_too_small,
  index_out_of_envelope, price_not_positive, max_boundary_levels,
}

module _ ⦃o : DecimalOps⦄ where
  -- How a price comes about.
  record IsPrice (spec : GridSpec) (index : ℤ) (p : Decimal) : Type 0 where
    factor : Decimal
    result : Decimal
    has_factor : o.checked_add_decimal one_decimal spec.ratio ≡ some factor
    factor_large : one_decimal <ℤ factor
    has_result : unrounded spec factor index ≡ ok result
    rounded : o.round_dp_with_strategy spec.price_scale midpoint_away_from_zero result ≡ p
    positive : pos 0 <ℤ p

  price-IsPrice :
      (spec : GridSpec) (index : ℤ) (p : Decimal) → price spec index ≡ ok p → IsPrice spec index p
  unfolding price
  price-IsPrice spec index p h =
      let (depth, _, k1) = >>=-eq-ok (ok_or (checked_abs_i32 index) index_not_representable) _ h in
      let (_, _, k2) =
        >>=-eq-ok
          (fail_if
            (ltb_ℤ spec.boundary_levels depth || ltb_ℤ max_boundary_levels spec.boundary_levels)
            index_out_of_envelope)
          _ k1 in
      let (f, hf, k3) =
        >>=-eq-ok (ok_or (o.checked_add_decimal one_decimal spec.ratio) factor_not_representable) _
          k2 in
      let (_, large, k4) = >>=-eq-ok (fail_if (leb_ℤ f one_decimal) factor_too_small) _ k3 in
      let (r, hr, k5) = >>=-eq-ok (unrounded spec f index) _ k4 in
      let q = o.round_dp_with_strategy spec.price_scale midpoint_away_from_zero r in
      let (_, above, k6) = >>=-eq-ok (fail_if (leb_ℤ q zero_decimal) price_not_positive) _ k5 in
      let same : q ≡ p = ground arith in
      record {
        factor = f;
        result = r;
        has_factor = ok_or-eq _ _ f hf;
        factor_large = leb_ℤ→gt f one_decimal (fail_if-ok _ _ _ large);
        has_result = hr;
        rounded = same;
        positive = subst (λ x. pos 0 <ℤ x) same (leb_ℤ→gt q zero_decimal (fail_if-ok _ _ _ above));
      }

module _ ⦃o : DecimalOps⦄ (laws : DecimalLaws o) where
  multiply_times-grows :
      (n : ℕ) (f r x : Decimal)
      → pos 0 ≤ℤ r
      → one_decimal ≤ℤ f
      → multiply_times n f r ≡ ok x
      → r ≤ℤ x
  unfolding multiply_times
  multiply_times-grows zero f r x n l h = ground arith
  multiply_times-grows (suc k) f r x n l h =
      let (next, product, rest) =
        >>=-eq-ok (ok_or (o.checked_mul_decimal r f) price_multiplication_overflow) _ h in
      let step = laws.mul_grows r f next n l (ok_or-eq _ _ next product) in
      let later = multiply_times-grows k f next x (≤ℤ_trans (pos 0) r next n step) l rest in
      ≤ℤ_trans r next x step later

  multiply_times_mono :
      (n m : ℕ) (f r x y : Decimal)
      → pos 0 ≤ℤ r
      → one_decimal ≤ℤ f
      → n ≤ m
      → multiply_times n f r ≡ ok x
      → multiply_times m f r ≡ ok y
      → x ≤ℤ y
  unfolding multiply_times
  multiply_times_mono zero m f r x y n l le h k =
      let same : r ≡ x = ground arith in
      subst (λ z. z ≤ℤ y) same (multiply_times-grows m f r y n l k)
  multiply_times_mono (suc a) zero f r x y n l le h k = absurd (omega arith)
  multiply_times_mono (suc a) (suc b) f r x y n l le h k =
      let (next, product, rest) =
        >>=-eq-ok (ok_or (o.checked_mul_decimal r f) price_multiplication_overflow) _ h in
      let mul = ok_or-eq _ _ next product in
      let step = laws.mul_grows r f next n l mul in
      let (next', product', rest') =
        >>=-eq-ok (ok_or (o.checked_mul_decimal r f) price_multiplication_overflow) _ k in
      let same : next' ≡ next = some-injective _ _ (sym (ok_or-eq _ _ next' product') ∙ mul) in
      multiply_times_mono a b f next x y (≤ℤ_trans (pos 0) r next n step) l (omega arith) rest
        (subst (λ z. multiply_times b f z ≡ ok y) same rest')

  divide_times-shrinks :
      (n : ℕ) (f r x : Decimal)
      → pos 0 ≤ℤ r
      → one_decimal ≤ℤ f
      → divide_times n f r ≡ ok x
      → (x ≤ℤ r) × (pos 0 ≤ℤ x)
  unfolding divide_times
  divide_times-shrinks zero f r x n l h = ground arith
  divide_times-shrinks (suc k) f r x n l h =
      let (next, quotient, rest) =
        >>=-eq-ok (ok_or (o.checked_div_decimal r f) price_division_overflow) _ h in
      let div = ok_or-eq _ _ next quotient in
      let step = laws.div_shrinks r f next n l div in
      let nonneg = laws.div_nonneg r f next n (omega arith) div in
      let (later, nonneg') = divide_times-shrinks k f next x nonneg l rest in
      (≤ℤ_trans x next r later step, nonneg')

  divide_times_mono :
      (n m : ℕ) (f r x y : Decimal)
      → pos 0 ≤ℤ r
      → one_decimal ≤ℤ f
      → n ≤ m
      → divide_times n f r ≡ ok x
      → divide_times m f r ≡ ok y
      → y ≤ℤ x
  unfolding divide_times
  divide_times_mono zero m f r x y n l le h k =
      let same : r ≡ x = ground arith in
      subst (λ z. y ≤ℤ z) same (divide_times-shrinks m f r y n l k).0
  divide_times_mono (suc a) zero f r x y n l le h k = absurd (omega arith)
  divide_times_mono (suc a) (suc b) f r x y n l le h k =
      let (next, quotient, rest) =
        >>=-eq-ok (ok_or (o.checked_div_decimal r f) price_division_overflow) _ h in
      let div = ok_or-eq _ _ next quotient in
      let nonneg = laws.div_nonneg r f next n (omega arith) div in
      let (next', quotient', rest') =
        >>=-eq-ok (ok_or (o.checked_div_decimal r f) price_division_overflow) _ k in
      let same : next' ≡ next = some-injective _ _ (sym (ok_or-eq _ _ next' quotient') ∙ div) in
      divide_times_mono a b f next x y nonneg l (omega arith) rest
        (subst (λ z. divide_times b f z ≡ ok y) same rest')

  unrounded_mono :
      (spec : GridSpec) (f : Decimal) (i j : ℤ) (x y : Decimal)
      → pos 0 ≤ℤ spec.anchor
      → one_decimal ≤ℤ f
      → i ≤ℤ j
      → unrounded spec f i ≡ ok x
      → unrounded spec f j ≡ ok y
      → x ≤ℤ y
  unfolding unrounded
  unrounded_mono spec f i j x y n l le h k = elim (Bool-cases (ltb_ℤ (pos 0) i)) [
    | inl i_up ↦
        let j_up : ltb_ℤ (pos 0) j ≡ true = ground arith in
        let deeper : magnitude i ≤ magnitude j = ground arith in
        multiply_times_mono (magnitude i) (magnitude j) f spec.anchor x y n l deeper (rw i_up at h)
          (rw j_up at k)
    | inr i_down ↦
        let (below, _) = divide_times-shrinks (magnitude i) f spec.anchor x n l (rw i_down at h) in
        elim (Bool-cases (ltb_ℤ (pos 0) j)) [
          | inl j_up ↦
              ≤ℤ_trans x spec.anchor y below
                (multiply_times-grows (magnitude j) f spec.anchor y n l (rw j_up at k))
          | inr j_down ↦
              let shallower : magnitude j ≤ magnitude i = ground arith in
              divide_times_mono (magnitude j) (magnitude i) f spec.anchor y x n l shallower
                (rw j_down at k) (rw i_down at h)
        ]
  ]

  -- Every price of a grid is positive, and prices do not fall as the index rises, across the anchor
  -- too. The anchor is not negative.
  pub price_mono :
      (spec : GridSpec) (i j : ℤ) (p q : Decimal)
      → pos 0 ≤ℤ spec.anchor
      → i ≤ℤ j
      → price spec i ≡ ok p
      → price spec j ≡ ok q
      → (pos 0 <ℤ p) × (p ≤ℤ q)
  price_mono spec i j p q n le h k =
      let a = price-IsPrice spec i p h in
      let b = price-IsPrice spec j q k in
      let same : b.factor ≡ a.factor = some-injective _ _ (sym b.has_factor ∙ a.has_factor) in
      let large = a.factor_large in
      let raised =
        unrounded_mono spec a.factor i j a.result b.result n (omega arith) le a.has_result
          (subst (λ f. unrounded spec f j ≡ ok b.result) same b.has_result) in
      let ordered =
        laws.round_mono spec.price_scale midpoint_away_from_zero a.result b.result raised in
      (a.positive, subst₂ (λ x y. x ≤ℤ y) a.rounded b.rounded ordered)
