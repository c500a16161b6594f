-- ===== src/Rights/Tranche/Validity.antt =====
-- `RightTranche::validate` of src/decision.rs, on tranches of shares.
use grid_edge_t.Base.{
  ◌≡◌, ◌≢◌, ◌↔◌, ◌⊎◌, inl, inr, Option, none, some, refl, Bool, true, false, List, [], ◌∷◌, arith,
  All, sym, ◌∙◌, ◌||◌, not, not-false, any,
}
use grid_edge_t.Base.Int.{
  ℤ, pos, ◌≤ℤ◌, ◌<ℤ◌, int_laws, eqb_ℤ→ne, leb_ℤ→gt, ne→eqb_ℤ, eqb_ℤ, leb_ℤ, eqb_ℤ→eq,
}
use grid_edge_t.Base.Ids.{Text, is_blank}
use grid_edge_t.Base.Machine.{IsI64, sum, try_sum-eq, try_sum-some}
use grid_edge_t.Base.Results.{ok, fail_if, >>=-eq-ok, ok_or-eq, fail_if-ok}
use grid_edge_t.Decimal.{DecimalOps}
use grid_edge_t.Domain.{Direction, buy, sell}
use grid_edge_t.Rights.Tranche.{
  RightTranche, quantity_unit, validate, validate_quantity, budgets, quantities, is_negative,
  is_nonzero, is_malformed, validate_unit, invalid_right_tranche, TrancheIdFor, minted_quantity,
  minted_buy_quantity, lot_binding_is_valid,
}

-- The five accounts of shares.
abbrev pub accounts : RightTranche → List ℤ
accounts t =
    t.available_quantity ∷ t.reserved_quantity ∷ t.consumed_quantity ∷ t.revoked_quantity
    ∷ t.expired_quantity ∷ []

-- A purchase is bound to no lot, and a sale to one that has a name.
abbrev pub IsBound : Direction → Option Text → Type 0
IsBound direction lot =
    ((direction ≡ buy) × (lot ≡ none))
    ⊎ ((direction ≡ sell) × ((id : Text) × (lot ≡ some id) × (id ≢ [])))

-- An independent description of a sound tranche of shares.
pub record IsShareTranche (t : RightTranche) : Type 0 where
  pub minted_positive : pos 0 <ℤ t.minted_quantity
  pub accounts_nonneg : All (λ x. pos 0 ≤ℤ x) (accounts t)
  pub conserved : sum (accounts t) ≡ t.minted_quantity
  pub no_budget : All (λ x. x ≡ pos 0) (budgets t)
  pub owned : is_blank t.owner_right_id ≡ false
  pub excursion_named : is_blank t.excursion_epoch ≡ false
  pub on_grid : t.birth_grid_index ≢ pos 0
  pub bound : IsBound t.direction t.lot_id

some_text : {a b : Text} → ◌≡◌ {A = Option Text} (some a) (some b) → a ≡ b
some_text h = ground arith

valid_binding :
    (d : Direction) (lot : Option Text) → lot_binding_is_valid d lot ≡ true → IsBound d lot
valid_binding buy none h = inl (refl, refl)
valid_binding buy (some id) h = cc
valid_binding sell none h = cc
valid_binding sell (some []) h = cc
valid_binding sell (some (c ∷ cs)) h = inr (refl, (c ∷ cs, refl, λ e. cc))

binding_valid :
    (d : Direction) (lot : Option Text) → IsBound d lot → lot_binding_is_valid d lot ≡ true
binding_valid buy none h = refl
binding_valid buy (some id) h = elim h [ inl (_, e) ↦ cc | inr (e, _) ↦ cc ]
binding_valid sell none h = elim h [ inl (e, _) ↦ cc | inr (_, (_, e, _)) ↦ cc ]
binding_valid sell (some []) h = elim h [
  | inl (e, _) ↦ cc
  | inr (_, (id, e, named)) ↦ absurd (named (some_text (sym e)))
]
binding_valid sell (some (c ∷ cs)) h = refl

any_negative : (xs : List ℤ) → any is_negative xs ≡ false → All (λ x. pos 0 ≤ℤ x) xs
any_negative [] h = tt
any_negative (x ∷ xs) h = (ground arith, any_negative xs (ground arith))

not_any_negative : (xs : List ℤ) → All (λ x. pos 0 ≤ℤ x) xs → any is_negative xs ≡ false
not_any_negative [] h = refl
not_any_negative (x ∷ xs) (p, ps) = ground (arith, not_any_negative xs ps)

any_nonzero : (xs : List ℤ) → any is_nonzero xs ≡ false → All (λ x. x ≡ pos 0) xs
any_nonzero [] h = tt
any_nonzero (x ∷ xs) h = (ground arith, any_nonzero xs (ground arith))

not_any_nonzero : (xs : List ℤ) → All (λ x. x ≡ pos 0) xs → any is_nonzero xs ≡ false
not_any_nonzero [] h = refl
not_any_nonzero (x ∷ xs) (p, ps) = ground (arith, not_any_nonzero xs ps)

zeros_nonneg : (xs : List ℤ) → All (λ x. x ≡ pos 0) xs → All (λ x. pos 0 ≤ℤ x) xs
zeros_nonneg [] h = tt
zeros_nonneg (x ∷ xs) (p, ps) = (ground arith, zeros_nonneg xs ps)

five_false :
    (a b c d e : Bool)
    → (a || b || c || d || e) ≡ false
    → (a ≡ false) × (b ≡ false) × (c ≡ false) × (d ≡ false) × (e ≡ false)
five_false a b c d e h = ground arith

four_false :
    (a b c d : Bool)
    → (a || b || c || d) ≡ false
    → (a ≡ false) × (b ≡ false) × (c ≡ false) × (d ≡ false)
four_false a b c d h = ground arith

sum_of_first : (q : ℤ) → sum (q ∷ pos 0 ∷ pos 0 ∷ pos 0 ∷ pos 0 ∷ []) ≡ q
unfolding sum
sum_of_first q = omega int_laws

module _ ⦃o : DecimalOps⦄ where
  -- A tranche of shares that `validate` accepts is sound.
  validate_sound :
      (t : RightTranche) → t.unit ≡ quantity_unit → validate t ≡ ok tt → IsShareTranche t
  unfolding validate is_malformed validate_unit validate_quantity
  validate_sound t u h =
      let (_, guard, rest) = >>=-eq-ok (fail_if (is_malformed t) invalid_right_tranche) _ h in
      let (b, q, owner, epoch, index) =
        five_false (any is_negative (budgets t)) (any is_negative (quantities t))
          (is_blank t.owner_right_id) (is_blank t.excursion_epoch)
          (eqb_ℤ t.birth_grid_index (pos 0)) (fail_if-ok _ _ _ guard) in
      let checks : validate_unit t.unit t ≡ ok tt = rest in
      let shares : validate_quantity t ≡ ok tt = rw u at checks in
      let (total, summed, checked) = >>=-eq-ok _ _ shares in
      let (minted, zeros, equal, binding) =
        four_false (leb_ℤ t.minted_quantity (pos 0)) (any is_nonzero (budgets t))
          (not (eqb_ℤ t.minted_quantity total)) (not (lot_binding_is_valid t.direction t.lot_id))
          (fail_if-ok _ _ _ checked) in
      let exact = try_sum-eq (accounts t) total (ok_or-eq _ _ _ summed) in
      record {
        minted_positive = leb_ℤ→gt t.minted_quantity (pos 0) minted;
        accounts_nonneg = (any_negative (quantities t) q).1;
        conserved = sym exact ∙ sym (eqb_ℤ→eq t.minted_quantity total (not-false _ equal));
        no_budget = any_nonzero (budgets t) zeros;
        owned = owner;
        excursion_named = epoch;
        on_grid = eqb_ℤ→ne t.birth_grid_index (pos 0) index;
        bound = valid_binding t.direction t.lot_id (not-false _ binding);
      }

  -- A sound tranche of shares is accepted.
  validate_complete :
      (t : RightTranche)
      → t.unit ≡ quantity_unit
      → IsI64 t.minted_quantity
      → IsShareTranche t
      → validate t ≡ ok tt
  unfolding validate is_malformed validate_unit validate_quantity
  validate_complete t u r s =
      let q = not_any_negative (quantities t) (omega arith, s.accounts_nonneg) in
      let b = not_any_negative (budgets t) (zeros_nonneg (budgets t) s.no_budget) in
      let z = not_any_nonzero (budgets t) s.no_budget in
      let binding = binding_valid t.direction t.lot_id s.bound in
      let total = try_sum-some (accounts t) s.accounts_nonneg (rw s.conserved r) in
      rw (b, q, s.owned, s.excursion_named, ne→eqb_ℤ t.birth_grid_index (pos 0) s.on_grid, u)
        (rw (total, s.conserved, z, binding) (ground arith))

  -- On tranches of shares `validate` accepts exactly the sound ones: something was minted, no
  -- account is negative, the five accounts add up to what was minted, no budget is set, owner and
  -- excursion are named, the birth level is on the grid, and a purchase is bound to no lot and a sale
  -- to one that has a name. What was minted is an `i64`.
  pub validate_iff :
      (t : RightTranche)
      → t.unit ≡ quantity_unit
      → IsI64 t.minted_quantity
      → (validate t ≡ ok tt) ↔ IsShareTranche t
  validate_iff t u r = (validate_sound t u, validate_complete t u r)

  -- A tranche that is minted for a sale, from a positive number of shares, an `i64`, of a lot that has
  -- a name, at a level other than the anchor, for an owner and an excursion that are not blank, is
  -- accepted by `validate`.
  pub minted_quantity-validate :
      (id_for : TrancheIdFor) (cycle excursion owner : Text) (index : ℤ) (lot : Text) (q : ℤ)
      → pos 0 <ℤ q
      → IsI64 q
      → is_blank owner ≡ false
      → is_blank excursion ≡ false
      → index ≢ pos 0
      → lot ≢ []
      → validate (minted_quantity id_for cycle excursion owner index lot q) ≡ ok tt
  unfolding minted_quantity
  minted_quantity-validate id_for cycle excursion owner index lot q p f o e i named =
      (validate_iff (minted_quantity id_for cycle excursion owner index lot q) refl f).1 (record {
        minted_positive = p;
        accounts_nonneg = omega arith;
        conserved = sum_of_first q;
        no_budget = (refl, (refl, (refl, (refl, (refl, (refl, tt))))));
        owned = o;
        excursion_named = e;
        on_grid = i;
        bound = inr (refl, (lot, refl, named));
      })

  -- A tranche that is minted for a purchase, from a positive number of shares, an `i64`, at a level
  -- other than the anchor, for an owner and an excursion that are not blank, is accepted by `validate`.
  pub minted_buy_quantity-validate :
      (id_for : TrancheIdFor) (cycle excursion owner : Text) (index q : ℤ)
      → pos 0 <ℤ q
      → IsI64 q
      → is_blank owner ≡ false
      → is_blank excursion ≡ false
      → index ≢ pos 0
      → validate (minted_buy_quantity id_for cycle excursion owner index q) ≡ ok tt
  unfolding minted_buy_quantity
  minted_buy_quantity-validate id_for cycle excursion owner index q p f o e i =
      (validate_iff (minted_buy_quantity id_for cycle excursion owner index q) refl f).1 (record {
        minted_positive = p;
        accounts_nonneg = omega arith;
        conserved = sum_of_first q;
        no_budget = (refl, (refl, (refl, (refl, (refl, (refl, tt))))));
        owned = o;
        excursion_named = e;
        on_grid = i;
        bound = inl (refl, refl);
      })
