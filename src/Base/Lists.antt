-- ===== src/Base/Lists.antt =====
-- Lists measured by native numbers, predicates over lists, and the tests of Rust's iterators.
use Prim.Native.Nat.{ℕ, suc}
use mathlib.Core.Path.{◌≡◌}
use mathlib.Core.Logic.{◌⊎◌, ◌↔◌, inl, inr}
use mathlib.Core.Bool.{Bool, true, false, ◌&&◌, ◌||◌, false≢true}
use mathlib.Core.List.{List, [], ◌∷◌}
use native.Mathlib.Omega.{arith}
use grid_edge_t.Base.Tests.{if◌then◌else◌, Bool-cases}

module _ {ℓ} {A : Type ℓ} where
  abbrev pub length : List A → ℕ
  length [] = 0
  length (x ∷ xs) = suc (length xs)

  -- `iter().any(..)` and `iter().all(..)`.
  abbrev pub any : (A → Bool) → List A → Bool
  any p [] = false
  any p (x ∷ xs) = p x || any p xs

  abbrev pub all : (A → Bool) → List A → Bool
  all p [] = true
  all p (x ∷ xs) = p x && all p xs

  -- `iter().filter(..)`.
  abbrev pub keep : (A → Bool) → List A → List A
  keep p [] = []
  keep p (x ∷ xs) = let rest = keep p xs in if p x then x ∷ rest else rest

  abbrev pub All {κ} : (A → Type κ) → List A → Type κ
  All P [] = Unit
  All P (x ∷ xs) = P x × All P xs

  abbrev pub Any : (A → Type 0) → List A → Type 0
  Any P [] = ⊥
  Any P (x ∷ xs) = P x ⊎ Any P xs

  pub All-map {κ ι} :
      (P : A → Type κ) (Q : A → Type ι) (f : (a : A) → P a → Q a) (xs : List A)
      → All P xs
      → All Q xs
  All-map P Q f [] h = tt
  All-map P Q f (x ∷ xs) (p, ps) = (f x p, All-map P Q f xs ps)

  -- A test that decides a predicate decides whether some element has it.
  pub any_iff :
      (p : A → Bool) (P : A → Type 0)
      → ((a : A) → (p a ≡ true) ↔ P a)
      → (xs : List A) → (any p xs ≡ true) ↔ Any P xs
  any_iff p P d [] = (λ h. absurd (false≢true h), λ h. absurd h)
  any_iff p P d (x ∷ xs) = (to (any_iff p P d xs).0, from (any_iff p P d xs).1)
    where
      to : (any p xs ≡ true → Any P xs) → (p x || any p xs) ≡ true → Any P (x ∷ xs)
      to ih h = elim (Bool-cases (p x)) [ inl e ↦ inl ((d x).0 e) | inr e ↦ inr (ih (rw e at h)) ]

      from : (Any P xs → any p xs ≡ true) → Any P (x ∷ xs) → (p x || any p xs) ≡ true
      from ih (inl h) = rw ((d x).1 h)
      from ih (inr h) = let e : any p xs ≡ true = ih h in ground arith
