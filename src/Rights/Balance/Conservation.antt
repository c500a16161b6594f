-- ===== src/Rights/Balance/Conservation.antt =====
-- The balance events of src/event.rs, over the accounts of the tranches.
use mathlib.Core.Option.{some-injective}
use grid_edge_t.Base.{◌≡◌, sym, ◌∙◌, inl, inr, Option, some, List, [], ◌∷◌, arith}
use grid_edge_t.Base.Int.{ℤ, pos, ◌+ℤ◌, ◌-ℤ◌, ◌≤ℤ◌, int_laws}
use grid_edge_t.Base.Ids.{Text, Text-discrete}
use grid_edge_t.Base.Maps.{
  Map, lookup, insert, lookup-insert_self, lookup-insert_ne, lookup-insert-cases,
}
use grid_edge_t.Base.Machine.{to_i64-eq}
use grid_edge_t.Base.Results.{ok, >>=-eq-ok, ok_or-eq}
use grid_edge_t.Decimal.{DecimalOps}
use grid_edge_t.Rights.Tranche.{RightTranche}
use grid_edge_t.Rights.Balance.{
  BalanceEvent, reserved, released, consumed, expired, revoked, TrancheAllocation, moved, reserve,
  release, consume, revoke, expire, dispatch, apply_allocation, apply_allocations,
  apply_balance_event, is_invalid_allocation,
}

-- The shares in all five accounts.
abbrev pub disposed : RightTranche → ℤ
disposed t =
    t.available_quantity +ℤ t.reserved_quantity +ℤ t.consumed_quantity +ℤ t.revoked_quantity
    +ℤ t.expired_quantity

pub record AreNonneg (t : RightTranche) : Type 0 where
  pub available_nonneg : pos 0 ≤ℤ t.available_quantity
  pub reserved_nonneg : pos 0 ≤ℤ t.reserved_quantity
  pub consumed_nonneg : pos 0 ≤ℤ t.consumed_quantity
  pub revoked_nonneg : pos 0 ≤ℤ t.revoked_quantity
  pub expired_nonneg : pos 0 ≤ℤ t.expired_quantity

-- What one event does to a tranche.
pub record IsKept (t t' : RightTranche) : Type 0 where
  pub conserved : disposed t' ≡ disposed t
  pub same_minted : t'.minted_quantity ≡ t.minted_quantity
  pub consumed_grows : t.consumed_quantity ≤ℤ t'.consumed_quantity
  pub revoked_grows : t.revoked_quantity ≤ℤ t'.revoked_quantity
  pub expired_grows : t.expired_quantity ≤ℤ t'.expired_quantity

-- Two accounts change by the quantity `q`.
record Flow (q from to from' to' : ℤ) : Type 0 where
  enough : q ≤ℤ from
  taken : from' ≡ from -ℤ q
  given : to' ≡ to +ℤ q

abbrev pub AllNonneg : Map RightTranche → Type 0
AllNonneg m = (k : Text) (t : RightTranche) → lookup k m ≡ some t → AreNonneg t

insert-AllNonneg :
    (j : Text) (v : RightTranche) (m : Map RightTranche)
    → AllNonneg m
    → AreNonneg v
    → AllNonneg (insert j v m)
insert-AllNonneg j v m n nv k t h = elim (lookup-insert-cases k j v t m h) [
  | inl (p, q) ↦ rw q nv
  | inr (ne, old) ↦ n k t old
]

module _ ⦃o : DecimalOps⦄ where
  open o use {checked_add_decimal, checked_sub_decimal}

  reserve-Flow :
      (a : TrancheAllocation) (t t' : RightTranche)
      → reserve a t ≡ ok t'
      → Flow a.quantity t.available_quantity t.reserved_quantity t'.available_quantity
          t'.reserved_quantity
        × (t'.consumed_quantity ≡ t.consumed_quantity)
        × (t'.revoked_quantity ≡ t.revoked_quantity)
        × (t'.expired_quantity ≡ t.expired_quantity)
        × (t'.minted_quantity ≡ t.minted_quantity)
  unfolding reserve moved
  reserve-Flow a t t' h = ground (
    arith,
    to_i64-eq (t.available_quantity -ℤ a.quantity) t'.available_quantity,
    to_i64-eq (t.reserved_quantity +ℤ a.quantity) t'.reserved_quantity,
  )

  release-Flow :
      (a : TrancheAllocation) (t t' : RightTranche)
      → release a t ≡ ok t'
      → Flow a.quantity t.reserved_quantity t.available_quantity t'.reserved_quantity
          t'.available_quantity
        × (t'.consumed_quantity ≡ t.consumed_quantity)
        × (t'.revoked_quantity ≡ t.revoked_quantity)
        × (t'.expired_quantity ≡ t.expired_quantity)
        × (t'.minted_quantity ≡ t.minted_quantity)
  unfolding release moved
  release-Flow a t t' h = ground (
    arith,
    to_i64-eq (t.reserved_quantity -ℤ a.quantity) t'.reserved_quantity,
    to_i64-eq (t.available_quantity +ℤ a.quantity) t'.available_quantity,
  )

  consume-Flow :
      (a : TrancheAllocation) (t t' : RightTranche)
      → consume a t ≡ ok t'
      → Flow a.quantity t.reserved_quantity t.consumed_quantity t'.reserved_quantity
          t'.consumed_quantity
        × (t'.available_quantity ≡ t.available_quantity)
        × (t'.revoked_quantity ≡ t.revoked_quantity)
        × (t'.expired_quantity ≡ t.expired_quantity)
        × (t'.minted_quantity ≡ t.minted_quantity)
  unfolding consume moved
  consume-Flow a t t' h = ground (
    arith,
    to_i64-eq (t.reserved_quantity -ℤ a.quantity) t'.reserved_quantity,
    to_i64-eq (t.consumed_quantity +ℤ a.quantity) t'.consumed_quantity,
  )

  revoke-Flow :
      (r : Option ℤ) (a : TrancheAllocation) (t t' : RightTranche)
      → revoke r a t ≡ ok t'
      → Flow a.quantity t.available_quantity t.revoked_quantity t'.available_quantity
          t'.revoked_quantity
        × (t'.reserved_quantity ≡ t.reserved_quantity)
        × (t'.consumed_quantity ≡ t.consumed_quantity)
        × (t'.expired_quantity ≡ t.expired_quantity)
        × (t'.minted_quantity ≡ t.minted_quantity)
  unfolding revoke moved
  revoke-Flow r a t t' h = ground (
    arith,
    to_i64-eq (t.available_quantity -ℤ a.quantity) t'.available_quantity,
    to_i64-eq (t.revoked_quantity +ℤ a.quantity) t'.revoked_quantity,
  )

  expire-Flow :
      (a : TrancheAllocation) (t t' : RightTranche)
      → expire a t ≡ ok t'
      → Flow a.quantity t.available_quantity t.expired_quantity t'.available_quantity
          t'.expired_quantity
        × (t'.reserved_quantity ≡ t.reserved_quantity)
        × (t'.consumed_quantity ≡ t.consumed_quantity)
        × (t'.revoked_quantity ≡ t.revoked_quantity)
        × (t'.minted_quantity ≡ t.minted_quantity)
  unfolding expire moved
  expire-Flow a t t' h = ground (
    arith,
    to_i64-eq (t.available_quantity -ℤ a.quantity) t'.available_quantity,
    to_i64-eq (t.expired_quantity +ℤ a.quantity) t'.expired_quantity,
  )

  -- Each event keeps the sum of the accounts and what was minted, leaves no account negative, and
  -- takes nothing out of the three accounts that end a share's authority.
  dispatch-IsKept :
      (e : BalanceEvent) (a : TrancheAllocation) (t t' : RightTranche)
      → pos 0 ≤ℤ a.quantity
      → AreNonneg t
      → dispatch e a t ≡ ok t'
      → IsKept t t' × AreNonneg t'
  unfolding dispatch
  dispatch-IsKept reserved a t t' q n h =
      let (f, x, y, z, m) = reserve-Flow a t t' h in
      rw (f.taken, f.given, x, y, z, m) (omega int_laws)
  dispatch-IsKept released a t t' q n h =
      let (f, x, y, z, m) = release-Flow a t t' h in
      rw (f.taken, f.given, x, y, z, m) (omega int_laws)
  dispatch-IsKept consumed a t t' q n h =
      let (f, x, y, z, m) = consume-Flow a t t' h in
      rw (f.taken, f.given, x, y, z, m) (omega int_laws)
  dispatch-IsKept (revoked r) a t t' q n h =
      let (f, x, y, z, m) = revoke-Flow r a t t' h in
      rw (f.taken, f.given, x, y, z, m) (omega int_laws)
  dispatch-IsKept expired a t t' q n h =
      let (f, x, y, z, m) = expire-Flow a t t' h in
      rw (f.taken, f.given, x, y, z, m) (omega int_laws)

  apply_allocation-IsKept :
      (e : BalanceEvent) (right_id : Text) (a : TrancheAllocation) (t t' : RightTranche)
      → AreNonneg t
      → apply_allocation e right_id a t ≡ ok t'
      → IsKept t t' × AreNonneg t'
  unfolding apply_allocation is_invalid_allocation
  apply_allocation-IsKept e right_id a t t' n h =
      let nonneg : pos 0 ≤ℤ a.quantity = ground arith in
      let moved_to : dispatch e a t ≡ ok t' = ground arith in
      dispatch-IsKept e a t t' nonneg n moved_to

  IsKept-trans : (t u v : RightTranche) → IsKept t u → IsKept u v → IsKept t v
  IsKept-trans t u v h k = ground arith

  apply_allocations-IsKept :
      (e : BalanceEvent) (right_id : Text) (as' : List TrancheAllocation) (m m' : Map RightTranche)
      → AllNonneg m
      → apply_allocations e right_id as' m ≡ ok m'
      → (k : Text) (t : RightTranche) → lookup k m ≡ some t
      → (t' : RightTranche) × (lookup k m' ≡ some t') × IsKept t t' × AreNonneg t'
  unfolding apply_allocations
  apply_allocations-IsKept e right_id [] m m' n h k t found =
      let same : m ≡ m' = ground arith in (t, rw (← same) found, ground arith, n k t found)
  apply_allocations-IsKept e right_id (a ∷ rest) m m' n h k t found =
      let (u, eu, h1) = >>=-eq-ok _ _ h in
      let (u', moved_to, h2) = >>=-eq-ok _ _ h1 in
      let here = ok_or-eq (lookup a.tranche_id m) _ u eu in
      let (kept, nonneg) =
        apply_allocation-IsKept e right_id a u u' (n a.tranche_id u here) moved_to in
      let m1 : Map RightTranche = insert a.tranche_id u' m in
      let n1 : AllNonneg m1 = insert-AllNonneg a.tranche_id u' m n nonneg in
      elim (Text-discrete k a.tranche_id) [
        | yes p ↦
            let (t', there, kept', nonneg') =
              apply_allocations-IsKept e right_id rest m1 m' n1 h2 k u'
                (rw p (lookup-insert_self a.tranche_id u' m)) in
            let same : u ≡ t = some-injective _ _ (sym here ∙ rw p at found) in
            (t', there, IsKept-trans t u' t' (rw same at kept) kept', nonneg')
        | no other ↦
            apply_allocations-IsKept e right_id rest m1 m' n1 h2 k t
              (rw (lookup-insert_ne k a.tranche_id u' m other) found)
      ]

  -- After a successful balance event every tranche is still there, under the same key, with what
  -- was minted and the sum of its five accounts unchanged, no account negative, and no share taken
  -- out of the consumed, revoked and expired accounts. The tranches had no negative account before.
  pub apply_balance_event-IsKept :
      (e : BalanceEvent) (right_id : Text) (as' : List TrancheAllocation) (m m' : Map RightTranche)
      → AllNonneg m
      → apply_balance_event e right_id as' m ≡ ok m'
      → (k : Text) (t : RightTranche) → lookup k m ≡ some t
      → (t' : RightTranche) × (lookup k m' ≡ some t') × IsKept t t' × AreNonneg t'
  unfolding apply_balance_event
  apply_balance_event-IsKept e right_id [] m m' n h k t found = cc
  apply_balance_event-IsKept e right_id (a ∷ rest) m m' n h k t found =
      apply_allocations-IsKept e right_id (a ∷ rest) m m' n h k t found
