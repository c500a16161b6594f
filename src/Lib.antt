-- ===== src/Lib.antt =====
-- GridEdge-T is a grid trading program: it holds a position in one symbol, grants itself the right to
-- trade when the price crosses a level of a grid, and keeps an account of fills. This library models
-- the parts that decide about money and shares, and proves what makes them correct.
--
-- Parts, and the files that model them:
--   * src/domain.rs: the data (Domain), the order state machine `OrderStatus::can_transition` and
--     `Order::transition` (Orders, Orders/Reach), the account (Account: `roll_trading_day`, `snapshot`,
--     `sell_fill_allocations`; Account/Fills: `apply_fill` and what it calls).
--   * src/profit.rs: costs and fees (Profit, Profit/Fees), the slices of a planned sale that a fill
--     closes (Profit/Slices), and the planning of sales that cannot lose (Profit/Guard).
--   * src/grid.rs: prices and levels, crossings, rearming, budgets and board lots (Grid).
--   * src/decision.rs: the partition of a quantity into whole units and a gate's decision (Decision), the
--     status of a grid right (Rights/Status) and its tranches (Rights/Tranche).
--   * src/event.rs: the events RIGHT_BALANCE_RESERVED to RIGHT_BALANCE_EXPIRED (Rights/Balance).
--   * src/risk.rs: the checks before an order, the search for the units a buy can afford (Risk), the
--     opening purchase (Risk/Opening) with its figures (Risk/Opening/Deployment), and
--     `canonical_approval` (Risk/Approval).
--   * src/event.rs: submission, status reports and fills of an order (OrderEvents, OrderEvents/Fills).
--   * src/execution.rs: the paper broker: opening, days and the ledger (Execution), what a report does to
--     the account (Execution/Settle), `submit` and `cancel` (Execution/Submit); src/service.rs: how the
--     fills of a report are recorded (Execution/Booking).
--   * src/ths_sim_outbox.rs: the table of the intents for the simulated broker (Outbox).
--   * src/config.rs: the settings that these parts read (Config).
-- A fill of a sale reaches `apply_sell`, which takes fees from `allocate_actual_fill_fees` and costs
-- from `effective_remaining_cost`; a plan of sales prices each lot with the functions of Profit; the
-- balance events validate each tranche they change. The service records each fill of a paper report by a
-- fill event, which books it to the account; the paper broker settles the same fills on its own account.
-- Base holds what the parts share.
--
-- Numbers: `i64` and `i32` are integers with a range; checked operations give none outside it, and plain
-- operators panic, as the build sets `overflow-checks`. `Result` has a case for a panic. `Decimal` of the
-- crate rust_decimal is a parameter: its values are integers in units of 10^-28, its operations are the
-- record `DecimalOps` and what is relied on is `DecimalLaws` (Decimal/Laws). Decimal/Exact has an instance
-- that meets the laws, which the tests use. Text is a list of code points, a `BTreeMap<String, _>` is the
-- list of its entries in the order of the keys, dates are day numbers.
--
-- Loops are recursion on the list or the count they run over. Two kinds run on fuel: the binary search of
-- `affordable_buy_units`, on one more than the maximum, as each step shortens the interval, and the loops of
-- `canonical_approval`, on one more than the exercise, as each round takes a unit off. The
-- prefix `checked_` names functions that return none on overflow. State is passed on; an error returns no state, as the
-- program works on a copy of it.
--
-- Not modelled: the journal, the SQLite ledger, the web server, market data and the broker's user interface
-- (input and output); JSON payloads (their values are the arguments); UUIDs and hashes
-- (`TrancheIdFor` and `PaperHashes` are parameters), whether a text is JSON (`IsJson`);
-- the other events of src/event.rs; the binding, the facts and the migrations of the outbox; gates and the
-- rights coordinator.
pub mod Base
pub mod Decimal
pub mod Domain
pub mod Orders
pub mod Rights
pub mod Decision
pub mod Config
pub mod Grid
pub mod Profit
pub mod Account
pub mod Risk
pub mod Execution
pub mod OrderEvents
pub mod Outbox
