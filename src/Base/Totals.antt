-- ===== src/Base/Totals.antt =====
-- Totals over the values of a map, and what replacing one value does to them.
use Prim.Native.Nat.{Ordering}
use mathlib.Core.Path.{◌≡◌, refl}
use mathlib.Core.Logic.{◌≢◌, ◌⊎◌, inl, inr}
use mathlib.Core.Option.{some}
use mathlib.Core.List.{[], ◌∷◌}
use native.Mathlib.Omega.{arith}
use grid_edge_t.Base.Ids.{Text, compare_text, eq_of_compare_text}
use grid_edge_t.Base.Int.{ℤ, pos, ◌+ℤ◌, ◌-ℤ◌, int_laws}
use grid_edge_t.Base.Maps.{Map, lookup, insert}

pub compare_text-flip :
    (a b : Text) → compare_text a b ≡ Ordering.lt → compare_text b a ≡ Ordering.gt
unfolding compare_text
compare_text-flip [] [] h = cc
compare_text-flip [] (b ∷ bs) h = refl
compare_text-flip (a ∷ as') [] h = cc
compare_text-flip (a ∷ as') (b ∷ bs) h = ground (arith, compare_text-flip as' bs)

Ordering-cases : (c : Ordering) → (c ≡ Ordering.lt) ⊎ ((c ≡ Ordering.eq) ⊎ (c ≡ Ordering.gt))
Ordering-cases Ordering.lt = inl refl
Ordering-cases Ordering.eq = inr (inl refl)
Ordering-cases Ordering.gt = inr (inr refl)

head_replaced : (t a b : ℤ) → a +ℤ t ≡ b +ℤ t -ℤ b +ℤ a
head_replaced t a b = omega int_laws

tail_replaced : (x t a b : ℤ) → x +ℤ (t -ℤ a +ℤ b) ≡ x +ℤ t -ℤ a +ℤ b
tail_replaced x t a b = omega int_laws

module _ {V : Type 0} where
  -- Every key of the map comes after `k`.
  abbrev pub IsBelow : Text → Map V → Type 0
  IsBelow k [] = Unit
  IsBelow k ((j, v) ∷ m) = (compare_text k j ≡ Ordering.lt) × IsBelow k m

  abbrev pub IsSorted : Map V → Type 0
  IsSorted [] = Unit
  IsSorted ((j, v) ∷ m) = IsBelow j m × IsSorted m

  unfoldable pub total : (V → ℤ) → Map V → ℤ
  total f [] = pos 0
  total f ((j, v) ∷ m) = f v +ℤ total f m

  IsBelow-trans :
      (k j : Text) (v : V) (m : Map V)
      → compare_text k j ≡ Ordering.lt
      → IsBelow j m
      → lookup k m ≡ some v
      → ⊥
  unfolding lookup
  IsBelow-trans k j v [] c b h = cc
  IsBelow-trans k j v ((i, w) ∷ m) c (b, bs) h = ground (
    arith,
    c,
    b,
    eq_of_compare_text k i,
    compare_text-flip k j,
    compare_text-flip j i,
    IsBelow-trans k j v m c bs,
  )

  -- One step of `lookup` and of `insert`, by the order of the keys.
  lookup-past :
      (k j : Text) (x : V) (m : Map V) (c : Ordering)
      → compare_text k j ≡ c
      → c ≢ Ordering.eq
      → lookup k ((j, x) ∷ m) ≡ lookup k m
  unfolding lookup
  lookup-past k j x m Ordering.lt e h = ground arith
  lookup-past k j x m Ordering.eq e h = absurd (h refl)
  lookup-past k j x m Ordering.gt e h = ground arith

  lookup-at :
      (k j : Text) (x w : V) (m : Map V)
      → compare_text k j ≡ Ordering.eq
      → lookup k ((j, x) ∷ m) ≡ some w
      → x ≡ w
  unfolding lookup
  lookup-at k j x w m e h = ground arith

  insert-past :
      (k j : Text) (v x : V) (m : Map V)
      → compare_text k j ≡ Ordering.gt
      → insert k v ((j, x) ∷ m) ≡ (j, x) ∷ insert k v m
  unfolding insert
  insert-past k j v x m e = ground arith

  insert-at :
      (k j : Text) (v x : V) (m : Map V)
      → compare_text k j ≡ Ordering.eq
      → insert k v ((j, x) ∷ m) ≡ (j, v) ∷ m
  unfolding insert
  insert-at k j v x m e = ground (arith, eq_of_compare_text k j)

  -- A key that has a value is where the map begins or later.
  data Place (k : Text) (w : V) (j : Text) (x : V) (m : Map V) : Type 0 where
    here : compare_text k j ≡ Ordering.eq → x ≡ w → Place k w j x m
    later : compare_text k j ≡ Ordering.gt → lookup k m ≡ some w → Place k w j x m

  place :
      (k : Text) (w : V) (j : Text) (x : V) (m : Map V)
      → IsBelow j m
      → lookup k ((j, x) ∷ m) ≡ some w
      → Place k w j x m
  place k w j x m below h = elim (Ordering-cases (compare_text k j)) [
    | inl e ↦
        absurd
          (IsBelow-trans k j w m e below (rw (lookup-past k j x m Ordering.lt e (λ q. cc)) at h))
    | inr (inl e) ↦ here e (lookup-at k j x w m e h)
    | inr (inr e) ↦ later e (rw (lookup-past k j x m Ordering.gt e (λ q. cc)) at h)
  ]

  -- Replacing a value keeps the keys.
  insert-IsBelow :
      (i k : Text) (v w : V) (m : Map V)
      → IsBelow i m
      → lookup k m ≡ some w
      → IsSorted m
      → IsBelow i (insert k v m)
  unfolding lookup
  insert-IsBelow i k v w [] b h s = cc
  insert-IsBelow i k v w ((j, x) ∷ m) (b, bs) h (below, s) = elim (place k w j x m below h) [
    | here e _ ↦ rw (insert-at k j v x m e) (b, bs)
    | later e found ↦ rw (insert-past k j v x m e) (b, insert-IsBelow i k v w m bs found s)
  ]

  pub insert-IsSorted :
      (k : Text) (v w : V) (m : Map V) → lookup k m ≡ some w → IsSorted m → IsSorted (insert k v m)
  unfolding lookup
  insert-IsSorted k v w [] h s = cc
  insert-IsSorted k v w ((j, x) ∷ m) h (below, s) = elim (place k w j x m below h) [
    | here e _ ↦ rw (insert-at k j v x m e) (below, s)
    | later e found ↦
        rw (insert-past k j v x m e)
          (insert-IsBelow j k v w m below found s, insert-IsSorted k v w m found s)
  ]

  -- The total after a value is replaced.
  pub total-insert :
      (f : V → ℤ) (k : Text) (v w : V) (m : Map V)
      → lookup k m ≡ some w
      → IsSorted m
      → total f (insert k v m) ≡ total f m -ℤ f w +ℤ f v
  unfolding lookup total
  total-insert f k v w [] h s = cc
  total-insert f k v w ((j, x) ∷ m) h (below, s) = elim (place k w j x m below h) [
    | here e q ↦ rw (insert-at k j v x m e, q) (head_replaced (total f m) (f v) (f w))
    | later e found ↦
        rw (insert-past k j v x m e, total-insert f k v w m found s)
          (tail_replaced (f x) (total f m) (f w) (f v))
  ]
