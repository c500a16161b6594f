-- ===== src/Grid/Levels.antt =====
-- `GridSpec::levels` of src/grid.rs.
use grid_edge_t.Base.{
  ◌≡◌, ◌≢◌, ◌+◌, ◌*◌, ℕ, zero, suc, false, List, [], ◌∷◌, arith, Bool-cases, inl, inr, All, Any,
  All-map, refl, sym, subst, ◌∙◌,
}
use grid_edge_t.Base.Int.{
  ℤ, pos, eqb_ℤ, ◌≤ℤ◌, ◌<ℤ◌, pos_part, neg_part, magnitude, ◌-ℤ◌, ◌+ℤ◌, int_laws, eqb_ℤ→eq,
  eq_of_parts, eqb_ℤ→ne,
}
use grid_edge_t.Base.Results.{ok, >>=-eq-ok}
use grid_edge_t.Decimal.{Decimal, DecimalOps}
use grid_edge_t.Domain.{GridLevelState, armed}
use grid_edge_t.Grid.{GridSpec, price, levels, levels_from, validate, new_level}

-- The indices increase from each level to the next.
abbrev pub IsAscending : List GridLevelState → Type 0
IsAscending [] = Unit
IsAscending (l ∷ ls) = All (λ (k : GridLevelState). l.index <ℤ k.index) ls × IsAscending ls

module _ ⦃o : DecimalOps⦄ where
  -- A fresh level at one of `n` indices from `first`, with the price that the grid gives it.
  pub record IsLevel (spec : GridSpec) (first : ℤ) (n : ℕ) (l : GridLevelState) : Type 0 where
    pub from_first : first ≤ℤ l.index
    pub before_end : l.index <ℤ first +ℤ pos n
    pub off_anchor : l.index ≢ pos 0
    pub is_armed : l.status ≡ armed
    pub untouched : l.touch_count ≡ 0
    pub priced : price spec l.index ≡ ok l.price

  wider :
      (spec : GridSpec) (first : ℤ) (n : ℕ) (l : GridLevelState)
      → IsLevel spec (first +ℤ pos 1) n l
      → IsLevel spec first (suc n) l
  wider spec first n l k = record {
    from_first = let a = k.from_first in omega int_laws;
    before_end = let a = k.before_end in omega int_laws;
    off_anchor = k.off_anchor;
    is_armed = k.is_armed;
    untouched = k.untouched;
    priced = k.priced;
  }

  first-IsLevel :
      (spec : GridSpec) (first : ℤ) (n : ℕ) (p : Decimal)
      → eqb_ℤ first (pos 0) ≡ false
      → price spec first ≡ ok p
      → IsLevel spec first (suc n) (new_level first p)
  first-IsLevel spec first n p nonzero priced = record {
    from_first = omega int_laws;
    before_end = omega int_laws;
    off_anchor = eqb_ℤ→ne first (pos 0) nonzero;
    is_armed = refl;
    untouched = refl;
    priced = priced;
  }

  after_first :
      (spec : GridSpec) (first : ℤ) (n : ℕ) (l : GridLevelState)
      → IsLevel spec (first +ℤ pos 1) n l
      → first <ℤ l.index
  after_first spec first n l k = let a = k.from_first in omega int_laws

  not_first : (first i : ℤ) → first ≤ℤ i → first ≢ i → first +ℤ pos 1 ≤ℤ i
  not_first first i a ne =
      let apart = λ (e : pos_part first + neg_part i ≡ pos_part i + neg_part first).
        ne (eq_of_parts first i e) in
      omega int_laws

  last_index : (b i : ℤ) → pos 0 -ℤ b ≤ℤ i → i ≤ℤ b → i <ℤ pos 0 -ℤ b +ℤ pos (2 * magnitude b + 1)
  last_index b i h k = omega int_laws

  shift : (first i : ℤ) (n : ℕ) → i <ℤ first +ℤ pos (suc n) → i <ℤ first +ℤ pos 1 +ℤ pos n
  shift first i n b = omega int_laws

  levels_from-IsLevel :
      (spec : GridSpec) (n : ℕ) (first : ℤ) (m : List GridLevelState)
      → levels_from spec n first ≡ ok m
      → All (IsLevel spec first n) m × IsAscending m
  unfolding levels_from
  levels_from-IsLevel spec zero first m h =
      let same : [] ≡ m = ground arith in
      subst (λ (x : List GridLevelState). All (IsLevel spec first zero) x × IsAscending x) same
        (tt, tt)
  levels_from-IsLevel spec (suc n) first m h = elim (Bool-cases (eqb_ℤ first (pos 0))) [
    | inl zero_index ↦
        let (each, ascending) =
          levels_from-IsLevel spec n (first +ℤ pos 1) m (rw zero_index at h) in
        (All-map _ (IsLevel spec first (suc n)) (wider spec first n) m each, ascending)
    | inr nonzero ↦
        let (p, priced, k) = >>=-eq-ok (price spec first) _ (rw nonzero at h) in
        let (others, rest, fin) = >>=-eq-ok (levels_from spec n (first +ℤ pos 1)) _ k in
        let (each, ascending) = levels_from-IsLevel spec n (first +ℤ pos 1) others rest in
        let same : new_level first p ∷ others ≡ m = ground arith in
        subst (λ (x : List GridLevelState). All (IsLevel spec first (suc n)) x × IsAscending x) same
          (
            (
              first-IsLevel spec first n p nonzero priced,
              All-map _ (IsLevel spec first (suc n)) (wider spec first n) others each,
            ),
            (
              All-map (IsLevel spec (first +ℤ pos 1) n) (λ k. first <ℤ k.index)
                  (after_first spec first n) others each,
              ascending,
            ),
          )
  ]

  -- Every index of the range but the anchor's has its level.
  levels_from-Any :
      (spec : GridSpec) (n : ℕ) (first : ℤ) (m : List GridLevelState)
      → levels_from spec n first ≡ ok m
      → (i : ℤ) → first ≤ℤ i
      → i <ℤ first +ℤ pos n
      → i ≢ pos 0
      → Any (λ (l : GridLevelState). l.index ≡ i) m
  unfolding levels_from
  levels_from-Any spec zero first m h i a b nz = absurd (omega int_laws)
  levels_from-Any spec (suc n) first m h i a b nz = elim (Bool-cases (eqb_ℤ first (pos 0))) [
    | inl zero_index ↦
        let first_zero = eqb_ℤ→eq first (pos 0) zero_index in
        levels_from-Any spec n (first +ℤ pos 1) m (rw zero_index at h) i
          (not_first first i a (λ e. nz (sym e ∙ first_zero))) (shift first i n b) nz
    | inr nonzero ↦
        let (p, priced, k) = >>=-eq-ok (price spec first) _ (rw nonzero at h) in
        let (others, rest, fin) = >>=-eq-ok (levels_from spec n (first +ℤ pos 1)) _ k in
        let same : new_level first p ∷ others ≡ m = ground arith in
        subst (Any (λ (l : GridLevelState). l.index ≡ i)) same (elim (Bool-cases (eqb_ℤ first i)) [
          | inl here ↦ inl (eqb_ℤ→eq first i here)
          | inr there ↦ inr (
              levels_from-Any spec n (first +ℤ pos 1) others rest i
                (not_first first i a (eqb_ℤ→ne first i there)) (shift first i n b) nz)
        ])
  ]

  built :
      (spec : GridSpec) (m : List GridLevelState)
      → levels spec ≡ ok m
      → levels_from spec (2 * magnitude spec.boundary_levels + 1) (pos 0 -ℤ spec.boundary_levels)
        ≡ ok m
  unfolding levels
  built spec m h = let (_, _, k) = >>=-eq-ok (validate spec) _ h in k

  -- What `levels` builds, for `boundary_levels` B, is in increasing order of the indices, and each
  -- level is armed, was never touched, stands at one of the 2B + 1 indices from -B on but not at 0, and has
  -- the price that `GridSpec::price` gives its index.
  pub levels-IsLevel :
      (spec : GridSpec) (m : List GridLevelState)
      → levels spec ≡ ok m
      → All
          (IsLevel spec (pos 0 -ℤ spec.boundary_levels) (2 * magnitude spec.boundary_levels + 1))
          m
        × IsAscending m
  levels-IsLevel spec m h = levels_from-IsLevel spec _ _ m (built spec m h)

  -- And every index from -B to B other than 0 has a level.
  pub levels-Any :
      (spec : GridSpec) (m : List GridLevelState) (i : ℤ)
      → levels spec ≡ ok m
      → pos 0 -ℤ spec.boundary_levels ≤ℤ i
      → i ≤ℤ spec.boundary_levels
      → i ≢ pos 0
      → Any (λ (l : GridLevelState). l.index ≡ i) m
  levels-Any spec m i h a b nz =
      levels_from-Any spec _ _ m (built spec m h) i a (last_index spec.boundary_levels i a b) nz
