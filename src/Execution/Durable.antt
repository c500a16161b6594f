-- ===== src/Execution/Durable.antt =====
-- `open_existing` of src/execution.rs after any sequence of operations of the gateway.
use grid_edge_t.Base.{
  ◌≡◌, ℕ, Bool, true, false, Option, some, none, List, [], ◌∷◌, inl, inr, refl, subst, ap, not,
}
use grid_edge_t.Base.Ids.{Text}
use grid_edge_t.Base.Results.{Result, ok, err, panic, Result-cases, returned, >>=-eq-ok, fail_if}
use grid_edge_t.Config.{Config, policy_of}
use grid_edge_t.Decimal.{DecimalOps}
use grid_edge_t.Domain.{OrderIntent, AccountSnapshot}
use grid_edge_t.Execution.{
  PaperError, policy_mismatch, PaperLedger, PaperExecutionGateway, PaperHashes, ExecutionReport,
  accepted, rejected, cancelled, opened, open_account, open_ledger, open_existing, roll_trading_day,
  report_for_intent, on_day, updated,
}
use grid_edge_t.Execution.Reports.{roll_trading_day-cases, IsPersisted, unless_known-cases}
use grid_edge_t.Execution.Submit.{
  submit, cancel, cancel_known, cancel_open, submit_today, answer, unfrozen, released, has_policy,
}

-- The calls that change the gateway.
pub data Operation : Type 0 where
  roll : ℕ → Operation
  place : OrderIntent → Operation
  withdraw : OrderIntent → Text → Operation

-- A gateway that holds what its ledger holds, and the settings of its configuration.
data IsSynced (config : Config) : PaperExecutionGateway → Type 0 where
  synced :
      (l : PaperLedger) (s : AccountSnapshot)
      → l.account ≡ some s
      → IsSynced config (opened config l s)

module _ (config : Config) where
  open_account-IsSynced :
      (l : PaperLedger) (s : AccountSnapshot) (create : Bool) (account : Option AccountSnapshot)
      (g : PaperExecutionGateway)
      → l.account ≡ account
      → open_account config l s create account ≡ ok g
      → IsSynced config g
  unfolding open_account
  open_account-IsSynced l s create (some stored) g e h =
      subst (IsSynced config) (returned h) (synced l stored e)
  open_account-IsSynced l s true none g e h = subst (IsSynced config) (returned h) (synced _ s refl)
  open_account-IsSynced l s false none g e h = cc

  -- Such a gateway is found again in its ledger.
  open_existing-IsSynced :
      (g : PaperExecutionGateway) (s : AccountSnapshot)
      → IsSynced config g
      → open_existing config g.ledger s ≡ ok g
  unfolding open_existing open_ledger open_account opened
  open_existing-IsSynced g s (synced l stored e) = ap (open_account config l s false) e

  on_day-IsSynced :
      (g : PaperExecutionGateway) (date : ℕ) (next : AccountSnapshot)
      → IsSynced config g
      → IsSynced config (on_day g date next)
  unfolding on_day opened
  on_day-IsSynced g date next (synced l s e) =
      synced
        (record { account = updated next l.account; trade_date = some date; orders = l.orders })
        next (ap (updated next) e)

  roll_trading_day-IsSynced :
      (g g' : PaperExecutionGateway) (date : ℕ)
      → IsSynced config g
      → roll_trading_day g date ≡ ok g'
      → IsSynced config g'
  roll_trading_day-IsSynced g g' date k h = elim (roll_trading_day-cases g g' date h) [
    | inl (_, e) ↦ subst (IsSynced config) e k
    | inr (next, _, e) ↦ subst (IsSynced config) e (on_day-IsSynced g date next k)
  ]

  -- An answer leaves the gateway, or one that the operation returns.
  answer-IsSynced :
      (g : PaperExecutionGateway) (x : Result PaperError (PaperExecutionGateway × ExecutionReport))
      → IsSynced config g
      → ((g' : PaperExecutionGateway) (r : ExecutionReport) → x ≡ ok (g', r) → IsSynced config g')
      → IsSynced config (answer g x).0
  answer-IsSynced g (ok (next, r)) k returns = returns next r refl
  answer-IsSynced g (err e) k returns = k
  answer-IsSynced g panic k returns = k

  module _ ⦃o : DecimalOps⦄ where
    IsPersisted-IsSynced :
        (g g' : PaperExecutionGateway) (intent : OrderIntent) (r : ExecutionReport)
        → IsSynced config g
        → IsPersisted g intent r g'
        → IsSynced config g'
    unfolding opened
    IsPersisted-IsSynced g g' intent r (synced l s e) p = subst (IsSynced config) p.result (
        synced
          (record {
            account = updated p.next l.account;
            trade_date = l.trade_date;
            orders = p.orders;
          })
          p.next (ap (updated p.next) e))

    module _ ⦃hashes : PaperHashes⦄ where
      submit_today-IsSynced :
          (g g' : PaperExecutionGateway) (intent : OrderIntent) (r : ExecutionReport)
          → IsSynced config g
          → submit_today g intent ≡ ok (g', r)
          → IsSynced config g'
      unfolding submit_today
      submit_today-IsSynced g g' intent r k h =
          let (_, _, h1) =
            >>=-eq-ok
              (fail_if (not (has_policy intent.profit_guard_policy (policy_of g.config)))
                policy_mismatch)
              _ h in
          elim (unless_known-cases g g' intent (report_for_intent g intent.intent_id) r h1) [
            | inl (_, e) ↦ subst (IsSynced config) e k
            | inr (_, _, p) ↦ IsPersisted-IsSynced g g' intent r k p
          ]

      submit-IsSynced :
          (g : PaperExecutionGateway) (intent : OrderIntent)
          → IsSynced config g
          → IsSynced config (submit g intent).0
      unfolding submit
      submit-IsSynced g intent k = elim (Result-cases (roll_trading_day g intent.created_on)) [
        | inl (today, rolls) ↦
            rw (rolls, submit)
              (answer-IsSynced today (submit_today today intent)
                (roll_trading_day-IsSynced g today intent.created_on k rolls)
                (λ g' r.
                  submit_today-IsSynced today g' intent r
                    (roll_trading_day-IsSynced g today intent.created_on k rolls)))
        | inr (inl (e, fails)) ↦ rw (fails, submit) k
        | inr (inr fails) ↦ rw (fails, submit) k
      ]

      cancel_open-IsSynced :
          (g g' : PaperExecutionGateway) (intent : OrderIntent) (id reason : Text)
          (r : ExecutionReport)
          → IsSynced config g
          → cancel_open g intent id reason ≡ ok (g', r)
          → IsSynced config g'
      unfolding cancel_open released opened
      cancel_open-IsSynced g g' intent id reason r (synced l s e) h =
          let (position, _, fin) =
            >>=-eq-ok (unfrozen intent.direction s.position intent.quantity) _ h in
          subst (IsSynced config)
            (ap (λ (a : PaperExecutionGateway × ExecutionReport). a.0) (returned fin))
            (synced _ _ (ap (updated _) e))

      cancel_known-IsSynced :
          (g : PaperExecutionGateway) (intent : OrderIntent) (reason : Text)
          (known : Option ExecutionReport)
          → IsSynced config g
          → IsSynced config (cancel_known g intent reason known).0
      unfolding cancel_known
      cancel_known-IsSynced g intent reason none k = submit-IsSynced g intent k
      cancel_known-IsSynced g intent reason (some (rejected id why)) k = k
      cancel_known-IsSynced g intent reason (some (cancelled id why)) k = k
      cancel_known-IsSynced g intent reason (some (accepted id (fill ∷ fills))) k = k
      cancel_known-IsSynced g intent reason (some (accepted id [])) k =
          answer-IsSynced g (cancel_open g intent id reason) k
            (λ g' r. cancel_open-IsSynced g g' intent id reason r k)

module _ ⦃o : DecimalOps⦄ ⦃hashes : PaperHashes⦄ where
  after_roll :
      PaperExecutionGateway → Result PaperError PaperExecutionGateway → PaperExecutionGateway
  after_roll g (ok next) = next
  after_roll g _ = g

  -- The gateway after an operation, whether it succeeds or not.
  pub step : PaperExecutionGateway → Operation → PaperExecutionGateway
  unfolding after_roll roll_trading_day submit cancel
  step g (roll date) = after_roll g (roll_trading_day g date)
  step g (place intent) = (submit g intent).0
  step g (withdraw intent reason) = (cancel g intent reason).0

  pub run : PaperExecutionGateway → List Operation → PaperExecutionGateway
  unfolding step
  run g [] = g
  run g (op ∷ ops) = run (step g op) ops

  step-IsSynced :
      (config : Config) (g : PaperExecutionGateway) (op : Operation)
      → IsSynced config g
      → IsSynced config (step g op)
  unfolding step after_roll cancel
  step-IsSynced config g (place intent) k = submit-IsSynced config g intent k
  step-IsSynced config g (withdraw intent reason) k =
      cancel_known-IsSynced config g intent reason (report_for_intent g intent.intent_id) k
  step-IsSynced config g (roll date) k = elim (Result-cases (roll_trading_day g date)) [
    | inl (next, e) ↦ rw (e, after_roll) (roll_trading_day-IsSynced config g next date k e)
    | inr (inl (why, e)) ↦ rw (e, after_roll) k
    | inr (inr e) ↦ rw (e, after_roll) k
  ]

  run-IsSynced :
      (config : Config) (g : PaperExecutionGateway) (ops : List Operation)
      → IsSynced config g
      → IsSynced config (run g ops)
  unfolding run
  run-IsSynced config g [] k = k
  run-IsSynced config g (op ∷ ops) k =
      run-IsSynced config (step g op) ops (step-IsSynced config g op k)

  -- After any sequence of operations on an opened gateway, whether they succeed or not, opening the
  -- ledger again, with any account at hand, gives the gateway back as it is.
  pub open_existing-run :
      (config : Config) (l : PaperLedger) (s s' : AccountSnapshot) (create : Bool)
      (g : PaperExecutionGateway) (ops : List Operation)
      → open_ledger config l s create ≡ ok g
      → open_existing config (run g ops).ledger s' ≡ ok (run g ops)
  unfolding open_ledger
  open_existing-run config l s s' create g ops h =
      open_existing-IsSynced config (run g ops) s'
        (run-IsSynced config g ops (open_account-IsSynced config l s create l.account g refl h))
