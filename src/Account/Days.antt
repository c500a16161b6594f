-- ===== src/Account/Days.antt =====
-- `roll_trading_day` of src/domain.rs, on positions.
use grid_edge_t.Base.{
  ◌≡◌, ◌<◌, ◌≤◌, ℕ, Option, none, true, false, some, arith, Bool-cases, inl, inr, refl, sym, ◌∙◌,
  ◌⊎◌,
}
use grid_edge_t.Base.Int.{pos, ◌+ℤ◌, int_laws, +ℤ-zero}
use grid_edge_t.Base.Machine.{IsI64, to_i64-some}
use grid_edge_t.Base.Results.{ok}
use grid_edge_t.Account.{roll_trading_day, is_earlier}
use grid_edge_t.Account.Fills.Effect.{IsBalanced}
use grid_edge_t.Domain.{StrategyState}

-- The state on a trading day, from the state before.
pub record IsRolled (s s' : StrategyState) (date : ℕ) : Type 0 where
  pub same_total : s'.position.total ≡ s.position.total
  pub on_date : s'.current_trade_date ≡ some date
  pub balanced : IsBalanced s'.position
  pub outcome :
      ((d : ℕ) × (s.current_trade_date ≡ some d)
        × (d < date)
        × (s'.position.today_bought ≡ pos 0)
        × (s'.position.sellable ≡ s.position.total))
      ⊎ (((s.current_trade_date ≡ none) ⊎ ((d : ℕ) × (s.current_trade_date ≡ some d) × (date ≤ d)))
          × (s'.position ≡ s.position))

earlier_day :
    (last : Option ℕ) (date : ℕ)
    → is_earlier last date ≡ true
    → (d : ℕ) × (last ≡ some d) × (d < date)
unfolding is_earlier
earlier_day none date h = cc
earlier_day (some d) date h = (d, refl, ground arith)

same_day :
    (last : Option ℕ) (date : ℕ)
    → is_earlier last date ≡ false
    → (last ≡ none) ⊎ ((d : ℕ) × (last ≡ some d) × (date ≤ d))
unfolding is_earlier
same_day none date h = inl refl
same_day (some d) date h = inr (d, refl, ground arith)

-- From a position in which every share is for sale or bought today, and whose total is an `i64`,
-- rolling to a day succeeds. The total stays; on a day after the last one nothing counts as bought
-- today and the whole total can be sold, and without a last day, or on that day or one before it, the
-- position stays as it is.
pub roll_trading_day-IsRolled :
    (s : StrategyState) (date : ℕ)
    → IsBalanced s.position
    → IsI64 s.position.total
    → (s' : StrategyState) × (roll_trading_day s date ≡ ok s') × IsRolled s s' date
unfolding roll_trading_day
roll_trading_day-IsRolled s date b f = elim (Bool-cases (is_earlier s.current_trade_date date)) [
  | inl later ↦
      let p = s.position in
      let fits : IsI64 (p.sellable +ℤ p.today_bought) = rw b.total_is at f in
      let sum_ok = to_i64-some (p.sellable +ℤ p.today_bought) fits in
      (
        record s {
          position = record p { sellable = p.sellable +ℤ p.today_bought; today_bought = pos 0 };
          current_trade_date = some date;
        },
        rw (later, sum_ok),
        record {
          same_total = refl;
          on_date = refl;
          balanced = record {
            total_is = b.total_is ∙ sym (+ℤ-zero (p.sellable +ℤ p.today_bought));
            sellable_nonneg = let x = b.sellable_nonneg in let y = b.today_nonneg in omega int_laws;
            today_nonneg = omega arith;
          };
          outcome =
              let (d, known, before) = earlier_day s.current_trade_date date later in
              inl (d, known, before, refl, sym b.total_is);
        },
      )
  | inr same ↦ (
    record s { current_trade_date = some date },
    rw same,
    record {
      same_total = refl;
      on_date = refl;
      balanced = b;
      outcome = inr (same_day s.current_trade_date date same, refl);
    },
  )
]
