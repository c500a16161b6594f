-- ===== src/Rights/Tests.antt =====
-- Runs of the rights and tranches of src/decision.rs and of the balance events of src/event.rs.
use grid_edge_t.Base.{◌≡◌, ◌≢◌, ◌↔◌, ◌⊎◌, refl, [], ◌∷◌, ◌++◌, false, arith, some}
use grid_edge_t.Base.Int.{ℤ, pos}
use grid_edge_t.Base.Ids.{is_blank}
use grid_edge_t.Base.Results.{ok}
use grid_edge_t.Decimal.Exact.{exact_ops}
use grid_edge_t.Domain.{sell}
use grid_edge_t.Rights.Status.{
  GridRightStatus, granted, reserved, partially_exercised, exercised, deferred, transferred,
  expired, revoked, can_transition, Reach, IsCarried, IsEnded, here, next, Reach-IsCarried,
  Reach-IsEnded, Reach-through_reserved,
}
use grid_edge_t.Rights.Tranche.{
  RightTranche, quantity_unit, TrancheIdFor, validate, minted_quantity, minted_buy_quantity,
}
use grid_edge_t.Rights.Tranche.Validity.{
  IsShareTranche, validate_iff, minted_quantity-validate, minted_buy_quantity-validate,
}

expired_after_deferral : Reach deferred expired
unfolding can_transition
expired_after_deferral = next here refl

deferred-IsCarried : IsCarried deferred
deferred-IsCarried = ground arith

Reach-IsCarried_example :
    (expired ≡ deferred) ⊎ ((expired ≡ transferred) ⊎ ((expired ≡ expired) ⊎ (expired ≡ revoked)))
Reach-IsCarried_example = Reach-IsCarried expired_after_deferral deferred-IsCarried

exercised-IsEnded : IsEnded exercised
exercised-IsEnded = ground arith

stays_exercised : Reach exercised exercised
stays_exercised = here

Reach-IsEnded_example : exercised ≡ exercised
Reach-IsEnded_example = Reach-IsEnded stays_exercised exercised-IsEnded

exercised_in_parts : Reach granted exercised
unfolding can_transition
exercised_in_parts = next {t = partially_exercised} (next {t = reserved} (next here refl) refl) refl

is_exercised :
    (exercised ≡ partially_exercised)
    ⊎ ((exercised ≡ exercised) ⊎ (exercised ≡ GridRightStatus.released))
is_exercised = ground arith

Reach-through_reserved_example : Reach granted reserved × Reach reserved exercised
Reach-through_reserved_example = Reach-through_reserved exercised_in_parts refl is_exercised

-- An id that the tests use for every tranche.
abbrev same_id : TrancheIdFor
same_id = λ cycle excursion direction index lot. cycle ++ excursion

named : is_blank (3 ∷ []) ≡ false
unfolding is_blank
named = refl

named_excursion : is_blank (2 ∷ []) ≡ false
unfolding is_blank
named_excursion = refl

off_anchor : pos 4 ≢ pos 0
off_anchor = ground arith

minted_quantity-validate_example :
    validate (minted_quantity same_id (1 ∷ []) (2 ∷ []) (3 ∷ []) (pos 4) (5 ∷ []) (pos 300)) ≡ ok tt
minted_quantity-validate_example =
    minted_quantity-validate same_id (1 ∷ []) (2 ∷ []) (3 ∷ []) (pos 4) (5 ∷ []) (pos 300)
      (omega arith) (omega arith, omega arith) named named_excursion off_anchor (λ e. cc)

minted_buy_quantity-validate_example :
    validate (minted_buy_quantity same_id (1 ∷ []) (2 ∷ []) (3 ∷ []) (pos 4) (pos 300)) ≡ ok tt
minted_buy_quantity-validate_example =
    minted_buy_quantity-validate same_id (1 ∷ []) (2 ∷ []) (3 ∷ []) (pos 4) (pos 300) (omega arith)
      (omega arith, omega arith) named named_excursion off_anchor

-- A tranche of 300 shares, of which 200 are reserved.
abbrev pub tranche : ℤ → ℤ → ℤ → RightTranche
tranche available reserved_shares consumed_shares = record {
  tranche_id = 7 ∷ [];
  cycle_id = 1 ∷ [];
  excursion_epoch = 2 ∷ [];
  direction = sell;
  birth_grid_index = pos 4;
  unit = quantity_unit;
  owner_right_id = 3 ∷ [];
  lot_id = some (5 ∷ []);
  minted_budget = pos 0;
  available_budget = pos 0;
  reserved_budget = pos 0;
  consumed_budget = pos 0;
  revoked_budget = pos 0;
  expired_budget = pos 0;
  minted_quantity = pos 300;
  available_quantity = available;
  reserved_quantity = reserved_shares;
  consumed_quantity = consumed_shares;
  revoked_quantity = pos 0;
  expired_quantity = pos 0;
}

validate_iff_example :
    (validate (tranche (pos 100) (pos 200) (pos 0)) ≡ ok tt)
    ↔ IsShareTranche (tranche (pos 100) (pos 200) (pos 0))
validate_iff_example =
    validate_iff (tranche (pos 100) (pos 200) (pos 0)) refl (omega arith, omega arith)
