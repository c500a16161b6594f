-- ===== src/Execution/Reports.antt =====
-- `submit` of src/execution.rs, from its result: the day it rolls to and the report it stores.
use grid_edge_t.Base.{
  ◌≡◌, true, not, Option, some, none, ◌⊎◌, inl, inr, arith, ap, refl, subst, Bool-cases, ◌==◌, ℕ,
  not-false,
}
use grid_edge_t.Base.Ids.{Text}
use grid_edge_t.Base.Maps.{Map, lookup, insert, lookup-insert_self}
use grid_edge_t.Base.Results.{
  Result, ok, err, panic, fail_if, >>=-eq-ok, Result-cases, returned, fail_if-ok,
}
use grid_edge_t.Config.{policy_of}
use grid_edge_t.Decimal.{DecimalOps}
use grid_edge_t.Domain.{OrderIntent, AccountSnapshot}
use grid_edge_t.Execution.{
  ExecutionReport, PaperError, PaperExecutionGateway, PaperHashes, policy_mismatch,
  roll_trading_day, report_for_intent, insert_order, rolled, on_day, is_date, updated, is_taken,
  duplicate_order,
}
use grid_edge_t.Execution.Settle.{persist_report, settled}
use grid_edge_t.Execution.Submit.{
  fresh_report, unless_known, submit_today, submit, has_policy, answer,
}

abbrev pub Answer : Type 0
Answer = PaperExecutionGateway × Result PaperError ExecutionReport

pub answer-eq-ok :
    (g g' : PaperExecutionGateway) (x : Result PaperError (PaperExecutionGateway × ExecutionReport))
    (r : ExecutionReport)
    → ◌≡◌ {A = Answer} (answer g x) (g', ok r)
    → x ≡ ok (g', r)
answer-eq-ok g g' (ok (next, report)) r h =
    let p : next ≡ g' = ap (λ (a : Answer). a.0) h in
    let q : report ≡ r = returned (ap (λ (a : Answer). a.1) h) in λ i. ok (p i, q i)
answer-eq-ok g g' (err e) r h =
    let q : ◌≡◌ {A = Result PaperError ExecutionReport} (err e) (ok r) =
      ap (λ (a : Answer). a.1) h in
    cc
answer-eq-ok g g' panic r h =
    let q : ◌≡◌ {A = Result PaperError ExecutionReport} panic (ok r) = ap (λ (a : Answer). a.1) h in
    cc

-- Where a rolled gateway comes from.
pub roll_trading_day-cases :
    (g today : PaperExecutionGateway) (date : ℕ)
    → roll_trading_day g date ≡ ok today
    → ((is_date g.current_trade_date date ≡ true) × (g ≡ today))
      ⊎ ((next : AccountSnapshot) × (rolled g.current_trade_date g.snapshot ≡ ok next)
          × (on_day g date next ≡ today))
unfolding roll_trading_day
roll_trading_day-cases g today date h = elim (Bool-cases (is_date g.current_trade_date date)) [
  | inl same ↦ inl (same, returned (rw same at h))
  | inr other ↦
      let (next, e, k) = >>=-eq-ok (rolled g.current_trade_date g.snapshot) _ (rw other at h) in
      inr (next, e, returned k)
]

roll_trading_day-same :
    (g : PaperExecutionGateway) (date : ℕ)
    → is_date g.current_trade_date date ≡ true
    → roll_trading_day g date ≡ ok g
unfolding roll_trading_day
roll_trading_day-same g date same = rw same

date-is : (n : ℕ) → (n == n) ≡ true
date-is n = ground arith

-- The gateway stands at the day it was rolled to.
pub roll_trading_day-again :
    (g today : PaperExecutionGateway) (date : ℕ)
    → roll_trading_day g date ≡ ok today
    → is_date today.current_trade_date date ≡ true
unfolding on_day
roll_trading_day-again g today date h = elim (roll_trading_day-cases g today date h) [
  | inl (same, e) ↦
      subst (λ (x : PaperExecutionGateway). is_date x.current_trade_date date ≡ true) e same
  | inr (next, _, e) ↦
      subst (λ (x : PaperExecutionGateway). is_date x.current_trade_date date ≡ true) e
        (date-is date)
]

module _ ⦃o : DecimalOps⦄ where
  -- What storing a report does.
  pub record IsPersisted (g : PaperExecutionGateway) (intent : OrderIntent)
      (report : ExecutionReport) (g' : PaperExecutionGateway) : Type 0 where
    pub next : AccountSnapshot
    pub orders : Map ExecutionReport
    pub settles : settled g.config intent g.snapshot report ≡ ok next
    pub inserts : insert_order g.ledger.orders intent.intent_id report ≡ ok orders
    pub result :
        record g {
          ledger = record g.ledger { account = updated next g.ledger.account; orders = orders };
          snapshot = next;
        }
        ≡ g'

  pub persist_report-IsPersisted :
      (g g' : PaperExecutionGateway) (intent : OrderIntent) (report : ExecutionReport)
      → persist_report g intent report ≡ ok g'
      → IsPersisted g intent report g'
  unfolding persist_report
  persist_report-IsPersisted g g' intent report h =
      let (next, settles, k) = >>=-eq-ok (settled g.config intent g.snapshot report) _ h in
      let (orders, inserts, fin) =
        >>=-eq-ok (insert_order g.ledger.orders intent.intent_id report) _ k in
      record {
        next = next;
        orders = orders;
        settles = settles;
        inserts = inserts;
        result = returned fin;
      }

pub insert_order-lookup :
    (orders orders' : Map ExecutionReport) (id : Text) (report : ExecutionReport)
    → insert_order orders id report ≡ ok orders'
    → lookup id orders' ≡ some report
unfolding insert_order
insert_order-lookup orders orders' id report h =
    let (_, _, fin) = >>=-eq-ok (fail_if (is_taken orders id report) duplicate_order) _ h in
    let e : insert id report orders ≡ orders' = returned fin in
    subst (λ (m : Map ExecutionReport). lookup id m ≡ some report) e
      (lookup-insert_self id report orders)

module _ ⦃o : DecimalOps⦄ ⦃hashes : PaperHashes⦄ where
  -- What an order that is answered goes through.
  pub record IsSubmitted (g : PaperExecutionGateway) (intent : OrderIntent)
      (g' : PaperExecutionGateway) (report : ExecutionReport) : Type 0 where
    pub today : PaperExecutionGateway
    pub rolls : roll_trading_day g intent.created_on ≡ ok today
    pub has_terms : has_policy intent.profit_guard_policy (policy_of today.config) ≡ true
    pub answers :
        ((report_for_intent today intent.intent_id ≡ some report) × (today ≡ g'))
        ⊎ ((report_for_intent today intent.intent_id ≡ none)
            × (fresh_report today intent ≡ ok report)
            × IsPersisted today intent report g')

  pub unless_known-cases :
      (g g' : PaperExecutionGateway) (intent : OrderIntent) (known : Option ExecutionReport)
      (r : ExecutionReport)
      → unless_known g intent known ≡ ok (g', r)
      → ((known ≡ some r) × (g ≡ g'))
        ⊎ ((known ≡ none) × (fresh_report g intent ≡ ok r) × IsPersisted g intent r g')
  unfolding unless_known
  unless_known-cases g g' intent (some report) r h =
      let e = returned h in
      inl (
        ap some (ap (λ (a : PaperExecutionGateway × ExecutionReport). a.1) e),
        ap (λ (a : PaperExecutionGateway × ExecutionReport). a.0) e,
      )
  unless_known-cases g g' intent none r h =
      let (report, fresh, k) = >>=-eq-ok (fresh_report g intent) _ h in
      let (next, persists, fin) = >>=-eq-ok (persist_report g intent report) _ k in
      let e = returned fin in
      let p : next ≡ g' = ap (λ (a : PaperExecutionGateway × ExecutionReport). a.0) e in
      let q : report ≡ r = ap (λ (a : PaperExecutionGateway × ExecutionReport). a.1) e in
      let fresh' : fresh_report g intent ≡ ok r = rw q at fresh in
      let persists' : persist_report g intent r ≡ ok g' = rw (p, q) at persists in
      inr (refl, fresh', persist_report-IsPersisted g g' intent r persists')

  pub submit_today-cases :
      (g g' : PaperExecutionGateway) (intent : OrderIntent) (r : ExecutionReport)
      → submit_today g intent ≡ ok (g', r)
      → ((report_for_intent g intent.intent_id ≡ some r) × (g ≡ g'))
        ⊎ ((report_for_intent g intent.intent_id ≡ none)
            × (fresh_report g intent ≡ ok r)
            × IsPersisted g intent r g')
  unfolding submit_today
  submit_today-cases g g' intent r h =
      let (_, _, k) =
        >>=-eq-ok
          (fail_if (not (has_policy intent.profit_guard_policy (policy_of g.config)))
            policy_mismatch)
          _ h in
      unless_known-cases g g' intent (report_for_intent g intent.intent_id) r k

  pub submit-IsSubmitted :
      (g g' : PaperExecutionGateway) (intent : OrderIntent) (r : ExecutionReport)
      → submit g intent ≡ (g', ok r)
      → IsSubmitted g intent g' r
  unfolding submit submit_today
  submit-IsSubmitted g g' intent r h = elim (Result-cases (roll_trading_day g intent.created_on)) [
    | inl (today, rolls) ↦
        let k = answer-eq-ok today g' (submit_today today intent) r (rw (rolls, submit) at h) in
        let (_, terms, k1) =
          >>=-eq-ok
            (fail_if (not (has_policy intent.profit_guard_policy (policy_of today.config)))
              policy_mismatch)
            _ k in
        record {
          today = today;
          rolls = rolls;
          has_terms = not-false _ (fail_if-ok _ _ _ terms);
          answers =
              unless_known-cases today g' intent (report_for_intent today intent.intent_id) r k1;
        }
    | inr (inl (e, fails)) ↦
        let k : ◌≡◌ {A = Answer} (g, err e) (g', ok r) = rw (fails, submit) at h in
        let q : ◌≡◌ {A = Result PaperError ExecutionReport} (err e) (ok r) =
          ap (λ (a : Answer). a.1) k in
        cc
    | inr (inr fails) ↦
        let k : ◌≡◌ {A = Answer} (g, panic) (g', ok r) = rw (fails, submit) at h in
        let q : ◌≡◌ {A = Result PaperError ExecutionReport} panic (ok r) =
          ap (λ (a : Answer). a.1) k in
        cc
  ]

  submit_today-known :
      (g : PaperExecutionGateway) (intent : OrderIntent) (r : ExecutionReport)
      → has_policy intent.profit_guard_policy (policy_of g.config) ≡ true
      → report_for_intent g intent.intent_id ≡ some r
      → submit_today g intent ≡ ok (g, r)
  unfolding submit_today unless_known
  submit_today-known g intent r terms known = rw (terms, known, unless_known)

  -- What answering an order again needs.
  again :
      (g : PaperExecutionGateway) (intent : OrderIntent) (r : ExecutionReport)
      → is_date g.current_trade_date intent.created_on ≡ true
      → has_policy intent.profit_guard_policy (policy_of g.config) ≡ true
      → report_for_intent g intent.intent_id ≡ some r
      → submit g intent ≡ (g, ok r)
  unfolding submit
  again g intent r date terms known = rw (
    roll_trading_day-same g intent.created_on date,
    submit,
    submit_today-known g intent r terms known,
  )

  -- Submitting an order again right after it was answered gives the same report and changes nothing.
  pub submit-again :
      (g g' : PaperExecutionGateway) (intent : OrderIntent) (r : ExecutionReport)
      → submit g intent ≡ (g', ok r)
      → submit g' intent ≡ (g', ok r)
  unfolding report_for_intent
  submit-again g g' intent r h =
      let s = submit-IsSubmitted g g' intent r h in
      let date = roll_trading_day-again g s.today intent.created_on s.rolls in
      elim s.answers [
        | inl (known, e) ↦
            subst (λ (x : PaperExecutionGateway). submit x intent ≡ (x, ok r)) e
              (again s.today intent r date s.has_terms known)
        | inr (_, _, p) ↦
            subst (λ (x : PaperExecutionGateway). submit x intent ≡ (x, ok r)) p.result
              (again _ intent r date s.has_terms
                (insert_order-lookup s.today.ledger.orders p.orders intent.intent_id r p.inserts))
      ]
