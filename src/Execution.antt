-- ===== src/Execution.antt =====
-- The paper broker of src/execution.rs: its ledger, its account and its reports. The stores write a
-- snapshot or a report as JSON and read it back as the same value. The hashes of the crates sha2 and
-- uuid are the parameter `PaperHashes`; the latency, which only delays a report, is left out.
pub mod Settle
pub mod Submit
pub mod Reports
pub mod Durable
pub mod Booking
pub mod Agreement
pub mod Release
pub mod Covered
mod Tests
use grid_edge_t.Base.{
  ℕ, ◌+◌, ◌%◌, ◌==◌, Bool, true, false, ◌||◌, Option, some, none, List, [], ◌∷◌, ◌++◌, any,
  if◌then◌else◌,
}
use grid_edge_t.Base.Int.{ℤ, pos}
use grid_edge_t.Base.Ids.{Text, text, ◌=ᵗ◌}
use grid_edge_t.Base.Machine.{checked_add}
use grid_edge_t.Base.Maps.{Map, lookup, insert, values}
use grid_edge_t.Base.Results.{Result, ok, err, ok_or, fail_if, ◌>>=◌, ◌>>◌}
use grid_edge_t.Config.{Config}
use grid_edge_t.Decimal.{Decimal}
use grid_edge_t.Domain.{AccountSnapshot}

pub record FillReport : Type 0 where
  pub fill_id : Text
  pub quantity : ℤ  -- i64
  pub price : Decimal
  pub final_fill : Bool

pub data ExecutionReport : Type 0 where
  rejected : Text → Text → ExecutionReport  -- order_id, reason
  accepted : Text → List FillReport → ExecutionReport  -- order_id, fills
  cancelled : Text → Text → ExecutionReport  -- order_id, reason

abbrev order_id_of : ExecutionReport → Text
order_id_of (rejected id reason) = id
order_id_of (accepted id fills) = id
order_id_of (cancelled id reason) = id

-- The errors of the gateway: a number out of range, another fee policy, no stored account, and a
-- row that breaks a uniqueness rule of the ledger.
pub data PaperError : Type 0 where
  numeric_range policy_mismatch account_missing duplicate_order : PaperError

-- The rows of one run in the tables paper_accounts, paper_trade_dates and paper_orders.
pub record PaperLedger : Type 0 where
  pub account : Option AccountSnapshot
  pub trade_date : Option ℕ
  pub orders : Map ExecutionReport  -- by intent id

pub record PaperExecutionGateway : Type 0 where
  pub config : Config
  pub ledger : PaperLedger
  pub seed : ℕ
  pub reject_bps : ℕ
  pub partial_bps : ℕ
  pub hold_open_bps : ℕ
  pub slippage_rate : Decimal
  pub price_scale : ℕ
  pub snapshot : AccountSnapshot
  pub current_trade_date : Option ℕ

-- `Sha256::digest` of "seed:intent:purpose", its first two bytes, and `Uuid::new_v5` of a name.
pub record PaperHashes : Type 0 where
  pub digest_prefix : ℕ → Text → Text → ℕ
  pub uuid_v5 : Text → Text

module _ ⦃hashes : PaperHashes⦄ where
  -- `part` is below 10 wherever the program calls it.
  pub stable_id : Text → Text → ℕ → Text
  stable_id kind intent_id part =
      hashes.uuid_v5
        (text "paper:" ++ kind ++ text ":" ++ intent_id ++ text ":" ++ ((48 + part) ∷ []))

  pub stable_draw_bps : PaperExecutionGateway → Text → Text → ℕ
  stable_draw_bps g intent_id purpose = hashes.digest_prefix g.seed intent_id purpose % 10_000

pub opened : Config → PaperLedger → AccountSnapshot → PaperExecutionGateway
opened config ledger snapshot = record {
  config = config;
  ledger = ledger;
  seed = config.paper.seed;
  reject_bps = config.paper.reject_probability_bps;
  partial_bps = config.paper.partial_fill_bps;
  hold_open_bps = config.paper.hold_open_probability_bps;
  slippage_rate = config.slippage_rate;
  price_scale = config.price_scale;
  snapshot = snapshot;
  current_trade_date = ledger.trade_date;
}

open_account :
    Config
    → PaperLedger
    → AccountSnapshot
    → Bool
    → Option AccountSnapshot
    → Result PaperError PaperExecutionGateway
unfolding opened
open_account config ledger snapshot create_if_missing (some stored) =
    ok (opened config ledger stored)
open_account config ledger snapshot true none =
    ok (opened config (record ledger { account = some snapshot }) snapshot)
open_account config ledger snapshot false none = err account_missing

-- `PaperExecutionGateway::open`: a stored account wins over the one that is given.
pub open_ledger :
    Config → PaperLedger → AccountSnapshot → Bool → Result PaperError PaperExecutionGateway
unfolding open_account
open_ledger config ledger snapshot create_if_missing =
    open_account config ledger snapshot create_if_missing ledger.account

pub new : Config → PaperLedger → AccountSnapshot → Result PaperError PaperExecutionGateway
unfolding open_ledger
new config ledger snapshot = open_ledger config ledger snapshot true

pub open_existing : Config → PaperLedger → AccountSnapshot → Result PaperError PaperExecutionGateway
unfolding open_ledger
open_existing config ledger snapshot = open_ledger config ledger snapshot false

-- `UPDATE paper_accounts SET snapshot_json`: it changes nothing where there is no row.
abbrev pub updated : AccountSnapshot → Option AccountSnapshot → Option AccountSnapshot
updated next none = none
updated next (some old) = some next

abbrev is_stored : Option ExecutionReport → Bool
is_stored none = false
is_stored (some report) = true

abbrev pub is_taken : Map ExecutionReport → Text → ExecutionReport → Bool
is_taken orders intent_id report =
    is_stored (lookup intent_id orders)
    || any (λ (r : ExecutionReport). order_id_of r =ᵗ order_id_of report) (values orders)

-- `INSERT INTO paper_orders`: intent ids and order ids are unique.
pub insert_order :
    Map ExecutionReport → Text → ExecutionReport → Result PaperError (Map ExecutionReport)
unfolding lookup insert
insert_order orders intent_id report = do
  fail_if (is_taken orders intent_id report) duplicate_order
  ok (insert intent_id report orders)

pub report_for_intent : PaperExecutionGateway → Text → Option ExecutionReport
unfolding lookup
report_for_intent g intent_id = lookup intent_id g.ledger.orders

-- What was bought on the day before can be sold now; the first day only sets the date.
pub rolled : Option ℕ → AccountSnapshot → Result PaperError AccountSnapshot
rolled none s = ok s
rolled (some before) s = do
  sellable ← ok_or (checked_add s.position.sellable s.position.today_bought) numeric_range
  ok (record s { position = record s.position { sellable = sellable; today_bought = pos 0 } })

-- Write the snapshot and the date to the ledger, and keep both.
pub on_day : PaperExecutionGateway → ℕ → AccountSnapshot → PaperExecutionGateway
on_day g date next = record g {
  ledger = record g.ledger { account = updated next g.ledger.account; trade_date = some date };
  snapshot = next;
  current_trade_date = some date;
}

abbrev pub is_date : Option ℕ → ℕ → Bool
is_date none date = false
is_date (some d) date = d == date

pub roll_trading_day : PaperExecutionGateway → ℕ → Result PaperError PaperExecutionGateway
unfolding rolled on_day
roll_trading_day g date =
    if is_date g.current_trade_date date
    then ok g
    else rolled g.current_trade_date g.snapshot >>= λ next. ok (on_day g date next)
