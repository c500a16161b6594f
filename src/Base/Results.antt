-- ===== src/Base/Results.antt =====
-- What a fallible function of the program does: it returns, it returns an error, or it panics.
use mathlib.Core.Path.{◌≡◌, refl}
use mathlib.Core.Logic.{◌⊎◌, inl, inr}
use mathlib.Core.Bool.{Bool, true, false}
use mathlib.Core.Option.{Option, none, some}
use native.Mathlib.Omega.{arith}

pub data Result (E A : Type 0) : Type 0 where
  ok : A → Result E A
  err : E → Result E A
  panic : Result E A

-- The `None` of an `Option` that is returned by a function which may also panic.
pub data Absent : Type 0 where
  absent : Absent

module _ {E : Type 0} where
  -- An operator that panics where the checked one gives nothing.
  abbrev pub or_panic : {A : Type 0} → Option A → Result E A
  or_panic none = panic
  or_panic (some value) = ok value

  -- `option.ok_or(e)?` and `option.context(e)?`.
  abbrev pub ok_or : {A : Type 0} → Option A → E → Result E A
  ok_or none e = err e
  ok_or (some value) e = ok value

  -- `?` on a result; a panic goes through as well.
  infixl 5 ◌>>=◌
  abbrev pub ◌>>=◌ : {A B : Type 0} → Result E A → (A → Result E B) → Result E B
  panic >>= next = panic
  err e >>= next = err e
  ok value >>= next = next value

  -- `if bad { return Err(e) }`.
  abbrev pub fail_if : Bool → E → Result E (Unit {0})
  fail_if false e = ok tt
  fail_if true e = err e

  infixl 5 ◌>>◌
  abbrev pub ◌>>◌ : {B : Type 0} → Result E (Unit {0}) → Result E B → Result E B
  check >> rest = check >>= λ _. rest

  pub >>=-eq-ok :
      {A B : Type 0} (first : Result E A) (next : A → Result E B) {result : B}
      → (first >>= next) ≡ ok result
      → (value : A) × (first ≡ ok value) × (next value ≡ ok result)
  >>=-eq-ok panic next h = cc
  >>=-eq-ok (err e) next h = cc
  >>=-eq-ok (ok value) next h = (value, refl, h)

  pub Result-cases :
      {A : Type 0} (r : Result E A)
      → ((a : A) × (r ≡ ok a)) ⊎ (((e : E) × (r ≡ err e)) ⊎ (r ≡ panic))
  Result-cases (ok a) = inl (a, refl)
  Result-cases (err e) = inr (inl (e, refl))
  Result-cases panic = inr (inr refl)

  pub ok_or-eq : {A : Type 0} (x : Option A) (e : E) (a : A) → ok_or x e ≡ ok a → x ≡ some a
  ok_or-eq none e a h = cc
  ok_or-eq (some x) e a h = ground arith

  pub fail_if-ok : (b : Bool) (e : E) (u : Unit {0}) → fail_if b e ≡ ok u → b ≡ false
  fail_if-ok true e u h = cc
  fail_if-ok false e u h = refl

  pub or_panic-eq : {A : Type 0} (x : Option A) (a : A) → or_panic x ≡ ok a → x ≡ some a
  or_panic-eq none a h = cc
  or_panic-eq (some x) a h = ground arith

  -- What two equal results return.
  pub returned : {A : Type 0} {a b : A} → ◌≡◌ {A = Result E A} (ok a) (ok b) → a ≡ b
  returned h = ground arith
