-- ===== src/Grid/Crossing.antt =====
-- `crossed_levels` of src/grid.rs.
use grid_edge_t.Base.{
  ◌≡◌, ◌↔◌, ◌⊎◌, Bool, true, false, List, [], ◌∷◌, map, any, keep, arith, Any, any_iff, refl, ◌&&◌,
  if◌then◌else◌,
}
use grid_edge_t.Base.Int.{ℤ, pos, ltb_ℤ, ◌≤ℤ◌, ◌<ℤ◌}
use grid_edge_t.Decimal.{Decimal}
use grid_edge_t.Domain.{GridLevelState, armed, rearmed}
use grid_edge_t.Grid.{
  crossed_levels, crosses_level, TouchClassification, normal, ambiguous, is_armed,
}

both :
    (a b : Bool) {P Q : Type 0}
    → (a ≡ true) ↔ P
    → (b ≡ true) ↔ Q
    → (◌≡◌ {A = TouchClassification} (if a && b then ambiguous else normal) ambiguous) ↔ (P × Q)
both true true p q = (λ h. (p.0 refl, q.0 refl), λ h. refl)
both true false p q = (λ h. cc, λ h. cc (q.1 h.1))
both false b p q = (λ h. cc, λ h. cc (p.1 h.0))

module _ (previous_close low high : Decimal) where
  -- A level below the anchor that can be touched, and that the bar falls to from above.
  pub record IsFallenTo (l : GridLevelState) : Type 0 where
    pub below_anchor : l.index <ℤ pos 0
    pub ready : (l.status ≡ armed) ⊎ (l.status ≡ rearmed)
    pub from_above : l.price <ℤ previous_close
    pub reached : low ≤ℤ l.price

  -- A level above the anchor that can be touched, and that the bar rises to from below.
  pub record IsRisenTo (l : GridLevelState) : Type 0 where
    pub above_anchor : pos 0 <ℤ l.index
    pub ready : (l.status ≡ armed) ⊎ (l.status ≡ rearmed)
    pub from_below : previous_close <ℤ l.price
    pub reached : l.price ≤ℤ high

  abbrev touches : GridLevelState → Bool
  touches l = is_armed l.status && crosses_level l.index l.price previous_close low high

  falls : (l : GridLevelState) → (touches l && ltb_ℤ l.index (pos 0)) ≡ true ↔ IsFallenTo l
  unfolding crosses_level
  falls l = (λ h. ground arith, λ r. ground arith)

  rises : (l : GridLevelState) → (touches l && ltb_ℤ (pos 0) l.index) ≡ true ↔ IsRisenTo l
  unfolding crosses_level
  rises l = (λ h. ground arith, λ r. ground arith)

  any_touched :
      (side : ℤ → Bool) (levels : List GridLevelState)
      → any side (map (λ (l : GridLevelState). l.index) (keep touches levels))
        ≡ any (λ l. touches l && side l.index) levels
  any_touched side [] = refl
  any_touched side (l ∷ levels) = ground (arith, any_touched side levels)

  -- A bar is ambiguous exactly if, among the levels that are armed or rearmed, it falls from above to
  -- one below the anchor, and rises from below to one above the anchor.
  pub crossed_levels-ambiguous :
      (levels : List GridLevelState)
      → ((crossed_levels levels previous_close low high).1 ≡ ambiguous)
        ↔ (Any IsFallenTo levels × Any IsRisenTo levels)
  unfolding crossed_levels
  crossed_levels-ambiguous levels =
      let lower = any_iff _ IsFallenTo falls levels in
      let upper = any_iff _ IsRisenTo rises levels in
      let below = any_touched (λ i. ltb_ℤ i (pos 0)) levels in
      let above = any_touched (λ i. ltb_ℤ (pos 0) i) levels in
      rw (below, above) (both _ _ lower upper)
