-- ===== src/Base/Maps.antt =====
-- Rust's `BTreeMap`, as the list of its entries in the order of the keys.
use Prim.Native.Nat.{Ordering}
use mathlib.Core.Path.{◌≡◌}
use mathlib.Core.Logic.{◌≢◌, ◌⊎◌, inl, inr}
use mathlib.Core.Bool.{Bool, true, false, ◌||◌}
use mathlib.Core.Option.{Option, none, some}
use mathlib.Core.List.{List, [], ◌∷◌}
use native.Mathlib.Omega.{arith}
use grid_edge_t.Base.Tests.{if◌then◌else◌}
use grid_edge_t.Base.Ids.{
  Text, compare_text, ◌=ᵗ◌, compare_text_refl, eq_of_compare_text, Text-discrete,
}

abbrev pub Map {ℓ} : Type ℓ → Type ℓ
Map V = List (Text × V)

module _ {ℓ} {V : Type ℓ} where
  -- `map.get(k)`.
  unfoldable pub lookup : Text → Map V → Option V
  lookup k [] = none
  lookup k ((j, v) ∷ m) = if k =ᵗ j then some v else lookup k m

  -- `map.insert(k, v)`: the entry goes to its place in the order, or replaces that of the key.
  unfoldable pub insert : Text → V → Map V → Map V
  insert k v [] = (k, v) ∷ []
  insert k v ((j, w) ∷ m) =
      let rest = insert k v m in
      elim (compare_text k j) [
        | Ordering.lt ↦ (k, v) ∷ (j, w) ∷ m
        | Ordering.eq ↦ (k, v) ∷ m
        | Ordering.gt ↦ (j, w) ∷ rest
      ]

  -- `map.values()`.
  abbrev pub values : Map V → List V
  values [] = []
  values ((j, v) ∷ m) = v ∷ values m

  pub lookup-insert_self : (k : Text) (v : V) (m : Map V) → lookup k (insert k v m) ≡ some v
  unfolding lookup insert
  lookup-insert_self k v [] = ground (arith, compare_text_refl k)
  lookup-insert_self k v ((j, w) ∷ m) =
      ground (arith, compare_text_refl k, lookup-insert_self k v m)

  pub lookup-insert_ne :
      (j k : Text) (v : V) (m : Map V) → j ≢ k → lookup j (insert k v m) ≡ lookup j m
  unfolding lookup insert
  lookup-insert_ne j k v [] h = ground (arith, eq_of_compare_text j k)
  lookup-insert_ne j k v ((i, w) ∷ m) h =
      ground (arith, eq_of_compare_text j k, eq_of_compare_text k i, lookup-insert_ne j k v m h)

  -- After `insert`, an entry is the new one or an old one under another key.
  pub lookup-insert-cases :
      (j k : Text) (v w : V) (m : Map V)
      → lookup j (insert k v m) ≡ some w
      → ((j ≡ k) × (w ≡ v)) ⊎ ((j ≢ k) × (lookup j m ≡ some w))
  lookup-insert-cases j k v w m h = elim (Text-discrete j k) [
    | yes p ↦
        let q : lookup j (insert k v m) ≡ some v = rw p (lookup-insert_self k v m) in
        inl (p, ground arith)
    | no n ↦ inr (n, rw (lookup-insert_ne j k v m n) at h)
  ]

-- `BTreeSet<String>`.
abbrev pub TextSet : Type 0
TextSet = List Text

unfoldable pub member : Text → TextSet → Bool
member k [] = false
member k (j ∷ s) = k =ᵗ j || member k s

unfoldable pub add : Text → TextSet → TextSet
add k [] = k ∷ []
add k (j ∷ s) =
    let rest = add k s in
    elim (compare_text k j) [
      | Ordering.lt ↦ k ∷ j ∷ s
      | Ordering.eq ↦ j ∷ s
      | Ordering.gt ↦ j ∷ rest
    ]

pub member-add_self : (k : Text) (s : TextSet) → member k (add k s) ≡ true
unfolding member add
member-add_self k [] = ground (arith, compare_text_refl k)
member-add_self k (j ∷ s) = ground (arith, compare_text_refl k, member-add_self k s)
