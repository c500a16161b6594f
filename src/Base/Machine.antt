-- ===== src/Base/Machine.antt =====
-- Rust's `i64` and `i32`: integers with a range, whose checked operations return `None` outside it
-- and whose plain operations panic there (the build sets `overflow-checks`).
use Prim.Native.Nat.{◌+◌, ◌≤◌, ◌<◌}
use mathlib.Core.Path.{◌≡◌, ◌∙◌, ap}
use mathlib.Core.Bool.{Bool}
use mathlib.Core.Option.{Option, none, some}
use mathlib.Core.List.{List, [], ◌∷◌}
use native.Mathlib.Omega.{arith}
use mathlib.Core.Logic.{inl, inr}
use grid_edge_t.Base.Lists.{All}
use grid_edge_t.Base.Tests.{Option-cases, ltb, if◌then◌else◌}
use grid_edge_t.Base.Int.{
  ℤ, pos, negsuc, pos_part, neg_part, magnitude, ◌+ℤ◌, ◌-ℤ◌, ◌*ℤ◌, ◌≤ℤ◌, int_laws, +ℤ_assoc,
  +ℤ-zero, zero-+ℤ,
}

-- Values from -2^63 to 2^63 - 1, and from -2^31 to 2^31 - 1.
abbrev pub in_i64 : ℤ → Bool
in_i64 (pos n) = ltb n 9_223_372_036_854_775_808
in_i64 (negsuc n) = ltb n 9_223_372_036_854_775_808

abbrev pub in_i32 : ℤ → Bool
in_i32 (pos n) = ltb n 2_147_483_648
in_i32 (negsuc n) = ltb n 2_147_483_648

abbrev pub IsI64 : ℤ → Type 0
IsI64 z =
    (pos_part z < 9_223_372_036_854_775_808 + neg_part z)
    × (neg_part z ≤ 9_223_372_036_854_775_808 + pos_part z)

-- `none` where the exact value does not fit.
unfoldable pub to_i64 : ℤ → Option ℤ
to_i64 z = if in_i64 z then some z else none

abbrev pub checked_add : ℤ → ℤ → Option ℤ
checked_add a b = to_i64 (a +ℤ b)

abbrev pub checked_sub : ℤ → ℤ → Option ℤ
checked_sub a b = to_i64 (a -ℤ b)

abbrev pub checked_mul : ℤ → ℤ → Option ℤ
checked_mul a b = to_i64 (a *ℤ b)

unfoldable pub to_i32 : ℤ → Option ℤ
to_i32 z = if in_i32 z then some z else none

-- `i32::checked_abs`: there is no magnitude for the least value.
unfoldable pub checked_abs_i32 : ℤ → Option ℤ
unfolding to_i32
checked_abs_i32 z = to_i32 (pos (magnitude z))

pub to_i64-eq : (z c : ℤ) → to_i64 z ≡ some c → c ≡ z
unfolding to_i64
to_i64-eq z c h = ground arith

pub to_i64-some : (z : ℤ) → IsI64 z → to_i64 z ≡ some z
unfolding to_i64
to_i64-some (pos n) h = ground arith
to_i64-some (negsuc n) h = ground arith

-- `try_fold(0_i64, |total, x| total.checked_add(x))`, from a total so far.
unfoldable pub try_sum_from : ℤ → List ℤ → Option ℤ
try_sum_from total [] = some total
try_sum_from total (x ∷ xs) = elim (checked_add total x) [
  | none ↦ none
  | some next ↦ try_sum_from next xs
]

abbrev pub try_sum : List ℤ → Option ℤ
try_sum = try_sum_from (pos 0)

-- The exact sum.
unfoldable pub sum : List ℤ → ℤ
sum [] = pos 0
sum (x ∷ xs) = x +ℤ sum xs

pub try_sum_from-eq :
    (total : ℤ) (xs : List ℤ) (r : ℤ) → try_sum_from total xs ≡ some r → r ≡ total +ℤ sum xs
unfolding try_sum_from sum
try_sum_from-eq total [] r h = ground (arith, +ℤ-zero total)
try_sum_from-eq total (x ∷ xs) r h = elim (Option-cases (to_i64 (total +ℤ x))) [
  | inl over ↦ ground arith
  | inr (next, e) ↦
      ground
        (arith, to_i64-eq (total +ℤ x) next, try_sum_from-eq next xs r, +ℤ_assoc total x (sum xs))
]

pub try_sum-eq : (xs : List ℤ) (r : ℤ) → try_sum xs ≡ some r → r ≡ sum xs
try_sum-eq xs r h = try_sum_from-eq (pos 0) xs r h ∙ zero-+ℤ (sum xs)

pub sum_nonneg : (xs : List ℤ) → All (λ x. pos 0 ≤ℤ x) xs → pos 0 ≤ℤ sum xs
unfolding sum
sum_nonneg [] h = omega arith
sum_nonneg (x ∷ xs) (p, ps) = omega (int_laws, sum_nonneg xs ps)

-- A sum of numbers that are not negative overflows only if its exact value does.
pub try_sum_from-some :
    (total : ℤ) (xs : List ℤ)
    → pos 0 ≤ℤ total
    → All (λ x. pos 0 ≤ℤ x) xs
    → IsI64 (total +ℤ sum xs)
    → try_sum_from total xs ≡ some (total +ℤ sum xs)
unfolding try_sum_from sum
try_sum_from-some total [] n a f = rw +ℤ-zero
try_sum_from-some total (x ∷ xs) n (p, ps) f =
    let tail_nonneg = sum_nonneg xs ps in
    let fits : IsI64 (total +ℤ x) = omega int_laws in
    let fits' : IsI64 (total +ℤ x +ℤ sum xs) = rw (+ℤ_assoc total x (sum xs)) f in
    let next_nonneg : pos 0 ≤ℤ total +ℤ x = omega int_laws in
    rw (to_i64-some (total +ℤ x) fits, try_sum_from)
      (try_sum_from-some (total +ℤ x) xs next_nonneg ps fits' ∙ ap some (+ℤ_assoc total x (sum xs)))

pub try_sum-some :
    (xs : List ℤ) → All (λ x. pos 0 ≤ℤ x) xs → IsI64 (sum xs) → try_sum xs ≡ some (sum xs)
try_sum-some xs n f =
    try_sum_from-some (pos 0) xs (omega arith) n (rw zero-+ℤ f) ∙ ap some (zero-+ℤ (sum xs))
