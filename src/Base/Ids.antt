-- ===== src/Base/Ids.antt =====
-- Identifiers: Rust's `String`, as its code points. UTF-8 keeps their order, so the order of the
-- bytes, which is that of `String`, is the lexicographic order of the code points.
use Prim.Native.Nat.{ℕ, compare, Ordering}
use Prim.Native.Char.{code}
use Prim.Native.String.{String}
use mathlib.Core.Path.{◌≡◌, refl}
use mathlib.Core.Bool.{Bool, true, false, ◌&&◌, ◌||◌}
use mathlib.Core.List.{List, [], ◌∷◌}
use native.Mathlib.Omega.{arith}
use native.Mathlib.Decide.{ℕ_discrete}
use grid_edge_t.Base.Tests.{leb, ◌==◌}

abbrev pub Text : Type 0
Text = List ℕ

-- The code points of a literal.
abbrev pub text : String → Text
text String.[] = []
text (String.◌∷◌ c s) = code c ∷ text s

unfoldable pub compare_text : Text → Text → Ordering
compare_text [] [] = Ordering.eq
compare_text [] (b ∷ bs) = Ordering.lt
compare_text (a ∷ as') [] = Ordering.gt
compare_text (a ∷ as') (b ∷ bs) =
    let rest = compare_text as' bs in
    elim (compare a b) [
      | Ordering.lt ↦ Ordering.lt
      | Ordering.eq ↦ rest
      | Ordering.gt ↦ Ordering.gt
    ]

infix 50 ◌=ᵗ◌
abbrev pub ◌=ᵗ◌ : Text → Text → Bool
a =ᵗ b = elim (compare_text a b) [ Ordering.eq ↦ true | _ ↦ false ]

-- `char::is_whitespace`.
is_whitespace : ℕ → Bool
is_whitespace c =
    (leb 9 c && leb c 13)
    || c == 32
    || c == 133
    || c == 160
    || c == 5760
    || (leb 8192 c && leb c 8202)
    || c == 8232
    || c == 8233
    || c == 8239
    || c == 8287
    || c == 12288

-- `text.trim().is_empty()`.
unfoldable pub is_blank : Text → Bool
unfolding is_whitespace
is_blank [] = true
is_blank (c ∷ cs) = is_whitespace c && is_blank cs

abbrev pub is_empty : Text → Bool
is_empty [] = true
is_empty (c ∷ cs) = false

pub compare_text_refl : (a : Text) → compare_text a a ≡ Ordering.eq
unfolding compare_text
compare_text_refl [] = refl
compare_text_refl (a ∷ as') = ground (arith, compare_text_refl as')

pub eq_of_compare_text : (a b : Text) → compare_text a b ≡ Ordering.eq → a ≡ b
unfolding compare_text
eq_of_compare_text [] [] h = refl
eq_of_compare_text [] (b ∷ bs) h = cc
eq_of_compare_text (a ∷ as') [] h = cc
eq_of_compare_text (a ∷ as') (b ∷ bs) h = ground (arith, eq_of_compare_text as' bs)

pub Text-discrete : Discrete Text
Text-discrete = hlevel ℕ_discrete
