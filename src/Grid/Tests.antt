-- ===== src/Grid/Tests.antt =====
-- Runs of the grid of src/grid.rs: an anchor of 10.00, a ratio of 10%, two levels on each side.
use grid_edge_t.Base.{
  ◌≡◌, ◌≢◌, ◌↔◌, ◌*◌, ◌+◌, ◌≤◌, ℕ, Any, All, List, [], ◌∷◌, refl, arith, some, true, Option,
}
use grid_edge_t.Base.Int.{ℤ, pos, negsuc, magnitude, ◌≤ℤ◌, ◌<ℤ◌, ◌-ℤ◌}
use grid_edge_t.Base.Results.{ok}
use grid_edge_t.Decimal.{Decimal}
use grid_edge_t.Decimal.Exact.{exact_ops}
use grid_edge_t.Decimal.Exact.Lawful.{exact_laws}
use grid_edge_t.Domain.{GridLevelState, GridLevelStatus, armed, touched, rearmed}
use grid_edge_t.Grid.{
  GridSpec, price, levels, crossed_levels, ambiguous, maybe_rearm, board_lot_quantity,
}
use grid_edge_t.Grid.Prices.{price_mono}
use grid_edge_t.Grid.Levels.{IsLevel, IsAscending, levels-IsLevel, levels-Any}
use grid_edge_t.Grid.Crossing.{IsFallenTo, IsRisenTo, crossed_levels-ambiguous}
use grid_edge_t.Grid.Rearm.{Rearmed, maybe_rearm-Rearmed}
use grid_edge_t.Grid.BoardLot.{IsMostLots, board_lot_quantity_lem}

abbrev cents : ℕ → Decimal
cents n = pos (n * 100_000_000_000_000_000_000_000_000)

abbrev spec : GridSpec
spec = record {
  anchor = cents 1000;
  ratio = cents 10;
  trade_levels = pos 1;
  boundary_levels = pos 2;
  price_scale = 2;
}

abbrev level : ℤ → Decimal → GridLevelStatus → GridLevelState
level i p s = record { index = i; price = p; status = s; touch_count = 0 }

one_below : price spec (negsuc 0) ≡ ok (cents 909)
unfolding price exact_ops grid_edge_t.Base.Machine.checked_abs_i32
one_below = refl

two_above : price spec (pos 2) ≡ ok (cents 1210)
unfolding price exact_ops grid_edge_t.Base.Machine.checked_abs_i32
two_above = refl

price_mono_example : (pos 0 <ℤ cents 909) × (cents 909 ≤ℤ cents 1210)
price_mono_example =
    price_mono exact_laws spec (negsuc 0) (pos 2) (cents 909) (cents 1210) (omega arith)
      (omega arith) one_below two_above

abbrev four_levels : List GridLevelState
four_levels =
    level (negsuc 1) (cents 826) armed
    ∷ level (negsuc 0) (cents 909) armed
    ∷ level (pos 1) (cents 1100) armed
    ∷ level (pos 2) (cents 1210) armed
    ∷ []

builds_four : levels spec ≡ ok four_levels
unfolding levels exact_ops price grid_edge_t.Base.Machine.checked_abs_i32
builds_four = refl

levels-IsLevel_example :
    All (IsLevel spec (pos 0 -ℤ pos 2) (2 * 2 + 1)) four_levels × IsAscending four_levels
levels-IsLevel_example = levels-IsLevel spec four_levels builds_four

levels-Any_example : Any (λ (l : GridLevelState). l.index ≡ negsuc 0) four_levels
unfolding ◌-ℤ◌
levels-Any_example =
    levels-Any spec four_levels (negsuc 0) builds_four (omega arith) (omega arith) off_anchor
  where
    off_anchor : negsuc 0 ≢ pos 0
    off_anchor = ground arith

wild_bar :
    crossed_levels four_levels (cents 1000) (cents 900) (cents 1150)
    ≡ (negsuc 0 ∷ pos 1 ∷ [], ambiguous)
unfolding crossed_levels
wild_bar = refl

crossed_levels-ambiguous_example :
    ((crossed_levels four_levels (cents 1000) (cents 900) (cents 1150)).1 ≡ ambiguous) ↔ (
      Any (IsFallenTo (cents 1000) (cents 900) (cents 1150)) four_levels
      × Any (IsRisenTo (cents 1000) (cents 900) (cents 1150)) four_levels)
crossed_levels-ambiguous_example =
    crossed_levels-ambiguous (cents 1000) (cents 900) (cents 1150) four_levels

abbrev touched_level : GridLevelState
touched_level = level (negsuc 0) (cents 909) touched

abbrev rearmed_level : GridLevelState
rearmed_level = level (negsuc 0) (cents 909) rearmed

arms_again : maybe_rearm touched_level (cents 960) (cents 100) (cents 50) ≡ ok (rearmed_level, true)
unfolding maybe_rearm exact_ops
arms_again = refl

maybe_rearm-Rearmed_example : Rearmed touched_level (cents 960) rearmed_level true
maybe_rearm-Rearmed_example =
    maybe_rearm-Rearmed exact_laws touched_level (cents 960) (cents 100) (cents 50) (omega arith)
      rearmed_level true arms_again

two_lots : board_lot_quantity (cents 250_000) (cents 1000) (pos 100) ≡ ok (pos 200)
unfolding board_lot_quantity exact_ops grid_edge_t.Base.Int.◌*ℤ◌ grid_edge_t.Base.Int.quot
two_lots = refl

board_lot_quantity_lem_example :
    (shares : Decimal) × (exact_ops.checked_div_decimal (cents 250_000) (cents 1000) ≡ some shares)
    × IsMostLots shares (pos 100) (pos 200)
board_lot_quantity_lem_example =
    board_lot_quantity_lem exact_laws (cents 250_000) (cents 1000) (pos 100) (pos 200) (omega arith)
      (omega arith) (omega arith) two_lots
