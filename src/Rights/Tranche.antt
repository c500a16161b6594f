-- ===== src/Rights/Tranche.antt =====
-- `RightTranche` of src/decision.rs: a slice of authority and its five disposition accounts.
pub mod Validity
use grid_edge_t.Base.{Bool, true, false, not, ◌||◌, Option, none, some, List, [], ◌∷◌, any}
use grid_edge_t.Base.Int.{ℤ, pos, ltb_ℤ, leb_ℤ, eqb_ℤ}
use grid_edge_t.Base.Ids.{Text, is_blank, is_empty}
use grid_edge_t.Base.Machine.{try_sum}
use grid_edge_t.Base.Results.{Result, ok_or, fail_if, ◌>>=◌, ◌>>◌}
use grid_edge_t.Domain.{Direction, buy, sell}
use grid_edge_t.Decimal.{Decimal, zero_decimal, DecimalOps}

pub data RightTrancheUnit : Type 0 where
  budget_unit quantity_unit : RightTrancheUnit

pub record RightTranche : Type 0 where
  pub tranche_id : Text
  pub cycle_id : Text
  pub excursion_epoch : Text
  pub direction : Direction
  pub birth_grid_index : ℤ  -- i32
  pub unit : RightTrancheUnit
  pub owner_right_id : Text
  pub lot_id : Option Text
  pub minted_budget : Decimal
  pub available_budget : Decimal
  pub reserved_budget : Decimal
  pub consumed_budget : Decimal
  pub revoked_budget : Decimal
  pub expired_budget : Decimal
  pub minted_quantity : ℤ  -- i64
  pub available_quantity : ℤ  -- i64
  pub reserved_quantity : ℤ  -- i64
  pub consumed_quantity : ℤ  -- i64
  pub revoked_quantity : ℤ  -- i64
  pub expired_quantity : ℤ  -- i64

-- The errors of the tranche code; each stands for one message.
pub data TrancheError : Type 0 where
  invalid_right_tranche budget_conservation_overflow buy_tranche_violates_conservation :
      TrancheError
  quantity_conservation_overflow quantity_tranche_violates_conservation : TrancheError
  allocation_empty allocated_tranche_missing invalid_tranche_allocation : TrancheError
  reservation_exceeds_availability release_exceeds_reservation : TrancheError
  consumption_exceeds_reservation invalid_tranche_revocation invalid_tranche_expiry : TrancheError
  depth_not_representable missing_reversal numeric_range : TrancheError

abbrev pub budgets : RightTranche → List Decimal
budgets t =
    t.minted_budget ∷ t.available_budget ∷ t.reserved_budget ∷ t.consumed_budget ∷ t.revoked_budget
    ∷ t.expired_budget ∷ []

abbrev pub quantities : RightTranche → List ℤ
quantities t =
    t.minted_quantity ∷ t.available_quantity ∷ t.reserved_quantity ∷ t.consumed_quantity
    ∷ t.revoked_quantity ∷ t.expired_quantity ∷ []

-- `RightTranche::id_for` hashes its arguments to a UUID, which a crate computes.
abbrev pub TrancheIdFor : Type 0
TrancheIdFor = Text → Text → Direction → ℤ → Option Text → Text

module _ (id_for : TrancheIdFor) (cycle excursion owner : Text) (index : ℤ) where
  pub minted_budget : Decimal → RightTranche
  minted_budget amount = record {
    tranche_id = id_for cycle excursion buy index none;
    cycle_id = cycle;
    excursion_epoch = excursion;
    direction = buy;
    birth_grid_index = index;
    unit = budget_unit;
    owner_right_id = owner;
    lot_id = none;
    minted_budget = amount;
    available_budget = amount;
    reserved_budget = zero_decimal;
    consumed_budget = zero_decimal;
    revoked_budget = zero_decimal;
    expired_budget = zero_decimal;
    minted_quantity = pos 0;
    available_quantity = pos 0;
    reserved_quantity = pos 0;
    consumed_quantity = pos 0;
    revoked_quantity = pos 0;
    expired_quantity = pos 0;
  }

  pub minted_quantity : Text → ℤ → RightTranche
  minted_quantity lot quantity = record {
    tranche_id = id_for cycle excursion sell index (some lot);
    cycle_id = cycle;
    excursion_epoch = excursion;
    direction = sell;
    birth_grid_index = index;
    unit = quantity_unit;
    owner_right_id = owner;
    lot_id = some lot;
    minted_budget = zero_decimal;
    available_budget = zero_decimal;
    reserved_budget = zero_decimal;
    consumed_budget = zero_decimal;
    revoked_budget = zero_decimal;
    expired_budget = zero_decimal;
    minted_quantity = quantity;
    available_quantity = quantity;
    reserved_quantity = pos 0;
    consumed_quantity = pos 0;
    revoked_quantity = pos 0;
    expired_quantity = pos 0;
  }

  pub minted_buy_quantity : ℤ → RightTranche
  minted_buy_quantity quantity = record {
    tranche_id = id_for cycle excursion buy index none;
    cycle_id = cycle;
    excursion_epoch = excursion;
    direction = buy;
    birth_grid_index = index;
    unit = quantity_unit;
    owner_right_id = owner;
    lot_id = none;
    minted_budget = zero_decimal;
    available_budget = zero_decimal;
    reserved_budget = zero_decimal;
    consumed_budget = zero_decimal;
    revoked_budget = zero_decimal;
    expired_budget = zero_decimal;
    minted_quantity = quantity;
    available_quantity = quantity;
    reserved_quantity = pos 0;
    consumed_quantity = pos 0;
    revoked_quantity = pos 0;
    expired_quantity = pos 0;
  }

abbrev pub is_buy : Direction → Bool
is_buy buy = true
is_buy sell = false

abbrev pub is_negative : ℤ → Bool
is_negative x = ltb_ℤ x (pos 0)

abbrev pub is_nonzero : ℤ → Bool
is_nonzero x = not (eqb_ℤ x (pos 0))

-- The source that a tranche of shares is bound to: none for a purchase, a lot for a sale.
abbrev pub lot_binding_is_valid : Direction → Option Text → Bool
lot_binding_is_valid buy none = true
lot_binding_is_valid buy (some l) = false
lot_binding_is_valid sell none = false
lot_binding_is_valid sell (some l) = not (is_empty l)

-- The guard that both units share.
abbrev is_malformed : RightTranche → Bool
is_malformed t =
    any is_negative (budgets t)
    || any is_negative (quantities t)
    || is_blank t.owner_right_id
    || is_blank t.excursion_epoch
    || eqb_ℤ t.birth_grid_index (pos 0)

module _ ⦃o : DecimalOps⦄ where
  open o use {checked_add_decimal}

  -- `try_fold(Decimal::ZERO, |total, value| total.checked_add(value))`, from a total so far.
  pub try_sum_decimal_from : Decimal → List Decimal → Option Decimal
  try_sum_decimal_from total [] = some total
  try_sum_decimal_from total (x ∷ xs) = elim (checked_add_decimal total x) [
    | none ↦ none
    | some next ↦ try_sum_decimal_from next xs
  ]

  validate_budget : RightTranche → Result TrancheError (Unit {0})
  validate_budget t = do
    conserved ←
        ok_or
          (try_sum_decimal_from zero_decimal (
            t.available_budget ∷ t.reserved_budget ∷ t.consumed_budget ∷ t.revoked_budget
            ∷ t.expired_budget ∷ []))
          budget_conservation_overflow
    fail_if
        (not (is_buy t.direction)
          || leb_ℤ t.minted_budget zero_decimal
          || any is_nonzero (quantities t)
          || not (eqb_ℤ t.minted_budget conserved))
        buy_tranche_violates_conservation

  validate_quantity : RightTranche → Result TrancheError (Unit {0})
  validate_quantity t = do
    conserved ←
        ok_or
          (try_sum (
            t.available_quantity ∷ t.reserved_quantity ∷ t.consumed_quantity ∷ t.revoked_quantity
            ∷ t.expired_quantity ∷ []))
          quantity_conservation_overflow
    fail_if
        (leb_ℤ t.minted_quantity (pos 0)
          || any is_nonzero (budgets t)
          || not (eqb_ℤ t.minted_quantity conserved)
          || not (lot_binding_is_valid t.direction t.lot_id))
        quantity_tranche_violates_conservation

  -- `match self.unit`.
  validate_unit : RightTrancheUnit → RightTranche → Result TrancheError (Unit {0})
  validate_unit budget_unit t = validate_budget t
  validate_unit quantity_unit t = validate_quantity t

  unfoldable pub validate : RightTranche → Result TrancheError (Unit {0})
  unfolding validate_unit validate_budget validate_quantity
  validate t = do fail_if (is_malformed t) invalid_right_tranche; validate_unit t.unit t
