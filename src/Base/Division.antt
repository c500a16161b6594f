-- ===== src/Base/Division.antt =====
-- Division of integers that are not negative by a positive one, as Rust's `/` and `%` do it.
use native.Mathlib.Nat.{mod-lt, mod-le, mul-sub, div-add-mod}
use Prim.Native.Nat.{ℕ, ◌+◌, ◌-◌, ◌*◌, ◌/◌, ◌%◌, ◌≤◌, ◌<◌}
use mathlib.Core.Path.{◌≡◌}
use native.Mathlib.Omega.{arith}
use grid_edge_t.Base.Int.{ℤ, pos, negsuc, ◌+ℤ◌, ◌-ℤ◌, ◌*ℤ◌, ◌≤ℤ◌, ◌<ℤ◌, quot, rem}

mod_of_difference : (n d : ℕ) → 0 < d → (n - n % d) % d ≡ 0
mod_of_difference n d h = grind arith

positive : (d : ℕ) → pos 0 <ℤ pos d → 0 < d
positive d k = omega arith

pub rem_facts :
    (n d : ℤ)
    → pos 0 ≤ℤ n
    → pos 0 <ℤ d
    → (rem (n -ℤ rem n d) d ≡ pos 0) × (pos 0 ≤ℤ rem n d) × (rem n d <ℤ d) × (rem n d ≤ℤ n)
unfolding rem ◌-ℤ◌
rem_facts (pos n) (pos d) h k =
    ground (arith, mod_of_difference n d (positive d k), mod-lt n (positive d k), mod-le n d)
rem_facts (pos n) (negsuc d) h k = absurd (omega arith)
rem_facts (negsuc n) d h k = absurd (omega arith)

pub quot_nonneg : (a u : ℤ) → pos 0 ≤ℤ a → pos 0 <ℤ u → pos 0 ≤ℤ quot a u
unfolding quot
quot_nonneg (pos a) (pos u) h k = omega arith
quot_nonneg (pos a) (negsuc u) h k = absurd (omega arith)
quot_nonneg (negsuc a) u h k = absurd (omega arith)

div_bound : (n a u : ℕ) → 0 < u → n ≤ a / u → n * u ≤ a
div_bound n a u h k = grind arith

-- A number of whole units of a quantity lies between nothing and that quantity.
pub whole_units_bounds :
    (n a u : ℤ)
    → pos 0 ≤ℤ n
    → pos 0 <ℤ u
    → pos 0 ≤ℤ a
    → n ≤ℤ quot a u
    → (pos 0 ≤ℤ n *ℤ u) × (n *ℤ u ≤ℤ a)
unfolding quot ◌*ℤ◌
whole_units_bounds (pos n) (pos a) (pos u) hn hu ha h =
    ground (arith, div_bound n a u (positive u hu))
whole_units_bounds (pos n) (pos a) (negsuc u) hn hu ha h = absurd (omega arith)
whole_units_bounds (pos n) (negsuc a) u hn hu ha h = absurd (omega arith)
whole_units_bounds (negsuc n) a u hn hu ha h = absurd (omega arith)

mod_of_multiple : (n u : ℕ) → 0 < u → (n * u) % u ≡ 0
mod_of_multiple n u h = grind arith

pub rem_of_multiple : (n u : ℤ) → pos 0 ≤ℤ n → pos 0 <ℤ u → rem (n *ℤ u) u ≡ pos 0
unfolding rem ◌*ℤ◌
rem_of_multiple (pos n) (pos u) hn hu = ground (arith, mod_of_multiple n u (positive u hu))
rem_of_multiple (pos n) (negsuc u) hn hu = absurd (omega arith)
rem_of_multiple (negsuc n) u hn hu = absurd (omega arith)

pub rem_of_itself : (u : ℤ) → pos 0 <ℤ u → rem u u ≡ pos 0
unfolding rem
rem_of_itself (pos u) h = grind arith
rem_of_itself (negsuc u) h = absurd (omega arith)

mod_of_rest : (a e u : ℕ) → 0 < u → e ≤ a → a % u ≡ 0 → e % u ≡ 0 → (a - e) % u ≡ 0
mod_of_rest a e u h k p q =
    let split : a - e ≡ (a / u - e / u) * u =
      grind (arith, mul-sub u (a / u) (e / u), div-add-mod a u, div-add-mod e u) in
    rw split (mod_of_multiple (a / u - e / u) u h)

pub rem_of_rest :
    (a e u : ℤ)
    → pos 0 ≤ℤ a
    → pos 0 ≤ℤ e
    → e ≤ℤ a
    → pos 0 <ℤ u
    → rem a u ≡ pos 0
    → rem e u ≡ pos 0
    → rem (a -ℤ e) u ≡ pos 0
unfolding rem ◌-ℤ◌
rem_of_rest (pos a) (pos e) (pos u) ha he le hu p q =
    ground (arith, mod_of_rest a e u (positive u hu))
rem_of_rest (pos a) (pos e) (negsuc u) ha he le hu p q = absurd (omega arith)
rem_of_rest (pos a) (negsuc e) u ha he le hu p q = absurd (omega arith)
rem_of_rest (negsuc a) e u ha he le hu p q = absurd (omega arith)

div_upper : (a u : ℕ) → 0 < u → a < a / u * u + u
div_upper a u h = grind (arith, div-add-mod a u, mod-lt a h)

-- What is left over after the whole units is less than a unit.
pub quot_upper : (a u : ℤ) → pos 0 ≤ℤ a → pos 0 <ℤ u → a <ℤ quot a u *ℤ u +ℤ u
unfolding quot ◌*ℤ◌ ◌+ℤ◌
quot_upper (pos a) (pos u) h k = ground (arith, div_upper a u (positive u k))
quot_upper (pos a) (negsuc u) h k = absurd (omega arith)
quot_upper (negsuc a) u h k = absurd (omega arith)
