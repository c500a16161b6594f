-- ===== src/Outbox.antt =====
-- The outbox of src/ths_sim_outbox.rs: the table of the intents that are staged for the simulated
-- broker, and the operations that change it. A row is kept under its intent id, the primary key. An
-- operation is one transaction, so an error changes nothing. `IsJson` stands for serde_json.
mod Operations
mod Claimed
pub mod Claims
pub mod Sound
mod Tests
use grid_edge_t.Base.{
  ℕ, suc, leb, ltb, ◌==◌, Bool, true, false, not, ◌||◌, ◌&&◌, Option, some, none, List, [], ◌∷◌,
  any, all, length, if◌then◌else◌,
}
use grid_edge_t.Base.Int.{ℤ, pos, ltb_ℤ, leb_ℤ, eqb_ℤ, ◌+ℤ◌, ◌-ℤ◌}
use grid_edge_t.Base.Ids.{Text, ◌=ᵗ◌, is_blank, is_empty}
use grid_edge_t.Base.Maps.{Map, TextSet, lookup, insert, values, add}
use grid_edge_t.Base.Results.{Result, ok, err, ok_or, fail_if, ◌>>=◌, ◌>>◌}

pub data StagedIntentState : Type 0 where
  discovered eligible submitting submitted ambiguous : StagedIntentState

pub data StagedCancelState : Type 0 where
  not_requested cancelling cancelled cancel_ambiguous : StagedCancelState

-- The columns of a row; its hash stands for the request.
pub record StagedIntent : Type 0 where
  pub order_id : Text
  pub source_intent_sequence : ℤ  -- i64
  pub source_submitted_sequence : Option ℤ
  pub source_event_time : ℤ  -- in nanoseconds
  pub request_sha256 : Text
  pub state : StagedIntentState
  pub baseline_contract_ids : Option (List Text)
  pub remote_contract_id : Option Text
  pub remote_evidence_json : Option Text
  pub last_error : Option Text
  pub source_cancel_requested_sequence : Option ℤ
  pub source_cancel_reason : Option Text
  pub cancel_state : StagedCancelState
  pub cancel_evidence_json : Option Text
  pub cancel_error : Option Text

-- What an operation is refused for: an event of another version, an order that the broker cannot
-- take, a uniqueness rule of the table, contract ids that are not
-- canonical, a text that is missing or no JSON, a row that is not in the state that is asked for, a
-- request that changed, and an execution that is not fresh.
pub data OutboxError : Type 0 where
  old_schema bad_request not_unique bad_contract_ids missing_text not_json not_in_state
        request_changed known_contract not_fresh :
      OutboxError

pub record IsJson : Type 0 where
  pub is_json : Text → Bool

abbrev pub is_state : StagedIntentState → StagedIntentState → Bool
is_state discovered discovered = true
is_state eligible eligible = true
is_state submitting submitting = true
is_state submitted submitted = true
is_state ambiguous ambiguous = true
is_state _ _ = false

abbrev pub is_cancel_state : StagedCancelState → StagedCancelState → Bool
is_cancel_state not_requested not_requested = true
is_cancel_state cancelling cancelling = true
is_cancel_state cancelled cancelled = true
is_cancel_state cancel_ambiguous cancel_ambiguous = true
is_cancel_state _ _ = false

abbrev pub is_contract : Option Text → Text → Bool
is_contract none id = false
is_contract (some other) id = other =ᵗ id

-- `StagedIntent::verify_execution_freshness`, with the times in nanoseconds.
pub verify_execution_freshness : StagedIntent → ℤ → ℤ → Result OutboxError (Unit {0})
verify_execution_freshness row now maximum_age = do
  fail_if (not (is_state row.state eligible)) not_in_state
  fail_if (leb_ℤ maximum_age (pos 0) || ltb_ℤ (pos 600_000_000_000) maximum_age) not_fresh
  fail_if (ltb_ℤ (now +ℤ pos 120_000_000_000) row.source_event_time) not_fresh
  fail_if (ltb_ℤ maximum_age (now -ℤ row.source_event_time)) not_fresh

to_set : List Text → TextSet
unfolding add
to_set [] = []
to_set (id ∷ ids) = add id (to_set ids)

-- `is_ascii_alphanumeric() || '-' || '_'`.
is_contract_byte : ℕ → Bool
is_contract_byte c =
    (leb 48 c && leb c 57)
    || ((leb 65 c && leb c 90) || ((leb 97 c && leb c 122) || (c == 45 || c == 95)))

pub validate_contract_ids : List Text → Result OutboxError (Unit {0})
unfolding to_set is_contract_byte
validate_contract_ids ids =
    fail_if
      (not (length (to_set ids) == length ids)
        || any
            (λ (id : Text). is_empty id || (ltb 128 (length id) || not (all is_contract_byte id)))
            ids)
      bad_contract_ids

-- The uniqueness rules of the columns; a column without a value breaks none.
occurs : Option ℤ → List (Option ℤ) → Bool
occurs none others = false
occurs (some n) [] = false
occurs (some n) (none ∷ others) = occurs (some n) others
occurs (some n) (some m ∷ others) = eqb_ℤ n m || occurs (some n) others

has_contract : Option Text → List StagedIntent → Bool
has_contract none rows = false
has_contract (some id) rows = any (λ (r : StagedIntent). is_contract r.remote_contract_id id) rows

clashes : StagedIntent → List StagedIntent → Bool
unfolding occurs has_contract
clashes row rows =
    any (λ (r : StagedIntent). r.order_id =ᵗ row.order_id) rows
    || (any (λ (r : StagedIntent). eqb_ℤ r.source_intent_sequence row.source_intent_sequence) rows
        || (occurs row.source_submitted_sequence
              (columns (λ (r : StagedIntent). r.source_submitted_sequence) rows)
            || (has_contract row.remote_contract_id rows
                || occurs row.source_cancel_requested_sequence
                    (columns (λ (r : StagedIntent). r.source_cancel_requested_sequence) rows))))
  where
    columns : (StagedIntent → Option ℤ) → List StagedIntent → List (Option ℤ)
    columns f [] = []
    columns f (r ∷ rs) = f r ∷ columns f rs

pub is_unique : List StagedIntent → Bool
unfolding clashes
is_unique [] = true
is_unique (row ∷ rows) = not (clashes row rows) && is_unique rows

abbrev pub Rows : Type 0
Rows = Map StagedIntent

-- `UPDATE .. WHERE intent_id=.. AND ..`, which must change one row.
pub update_one :
    Text → (StagedIntent → Bool) → (StagedIntent → StagedIntent) → Rows → Result OutboxError Rows
unfolding lookup insert is_unique
update_one intent_id wanted change rows = do
  row ← ok_or (lookup intent_id rows) not_in_state
  fail_if (not (wanted row)) not_in_state
  fail_if (not (is_unique (values (insert intent_id (change row) rows)))) not_unique
  ok (insert intent_id (change row) rows)

-- `UPDATE .. WHERE order_id=.. AND ..` over all rows, which must change one.
pub count : (StagedIntent → Bool) → Rows → ℕ
count wanted [] = 0
count wanted ((id, row) ∷ rows) =
    let rest = count wanted rows in if wanted row then suc rest else rest

pub change_where : (StagedIntent → Bool) → (StagedIntent → StagedIntent) → Rows → Rows
change_where wanted change [] = []
change_where wanted change ((id, row) ∷ rows) =
    (id, if wanted row then change row else row) ∷ change_where wanted change rows

pub update_where :
    (StagedIntent → Bool) → (StagedIntent → StagedIntent) → Rows → Result OutboxError Rows
unfolding count change_where is_unique
update_where wanted change rows = do
  fail_if (not (is_unique (values (change_where wanted change rows)))) not_unique
  fail_if (not (count wanted rows == 1)) not_in_state
  ok (change_where wanted change rows)

-- `DELETE .. WHERE ..`, which must remove one row.
pub keep_where : (StagedIntent → Bool) → Rows → Rows
keep_where removed [] = []
keep_where removed ((id, row) ∷ rows) =
    let rest = keep_where removed rows in if removed row then rest else (id, row) ∷ rest

pub delete_where : (StagedIntent → Bool) → Rows → Result OutboxError Rows
unfolding count keep_where
delete_where removed rows = do
  fail_if (not (count removed rows == 1)) not_in_state
  ok (keep_where removed rows)

-- The request of an order intent: the draft that was accepted for the broker, by its hash.
abbrev pub new_row : Text → ℤ → ℤ → Text → StagedIntent
new_row order_id sequence time request_sha256 = record {
  order_id = order_id;
  source_intent_sequence = sequence;
  source_submitted_sequence = none;
  source_event_time = time;
  request_sha256 = request_sha256;
  state = discovered;
  baseline_contract_ids = none;
  remote_contract_id = none;
  remote_evidence_json = none;
  last_error = none;
  source_cancel_requested_sequence = none;
  source_cancel_reason = none;
  cancel_state = not_requested;
  cancel_evidence_json = none;
  cancel_error = none;
}

-- `INSERT OR IGNORE`: a row that would break a uniqueness rule is left out.
pub unless_present : Option StagedIntent → Text → StagedIntent → Rows → Rows
unfolding insert is_unique
unless_present (some known) intent_id row rows = rows
unless_present none intent_id row rows =
    if is_unique (values (insert intent_id row rows)) then insert intent_id row rows else rows

pub insert_or_ignore : Text → StagedIntent → Rows → Rows
unfolding lookup unless_present
insert_or_ignore intent_id row rows = unless_present (lookup intent_id rows) intent_id row rows

pub is_request : StagedIntent → Text → Text → ℤ → Bool
is_request row order_id request_sha256 sequence =
    (row.order_id =ᵗ order_id)
    && ((row.request_sha256 =ᵗ request_sha256) && eqb_ℤ row.source_intent_sequence sequence)

-- The version of the event is the current one, or not; the request is the hash of the draft of the
-- order, if its symbol and its draft are accepted.
pub stage_intent : Rows → Bool → Text → Text → ℤ → ℤ → Option Text → Result OutboxError Rows
unfolding insert_or_ignore lookup is_request
stage_intent rows is_current intent_id order_id sequence time request = do
  fail_if (not is_current) old_schema
  request_sha256 ← ok_or request bad_request
  let next = insert_or_ignore intent_id (new_row order_id sequence time request_sha256) rows
  existing ← ok_or (lookup intent_id next) not_in_state
  fail_if (not (is_request existing order_id request_sha256 sequence)) request_changed
  ok next

abbrev pub is_discovered : Text → StagedIntent → Bool
is_discovered order_id row = (row.order_id =ᵗ order_id) && is_state row.state discovered

pub mark_submitted : Rows → ℤ → Text → Result OutboxError Rows
unfolding update_where
mark_submitted rows sequence order_id =
    update_where (is_discovered order_id)
      (λ row. record row { source_submitted_sequence = some sequence; state = eligible }) rows

abbrev pub is_unexecuted : Text → StagedIntent → Bool
is_unexecuted order_id row =
    (row.order_id =ᵗ order_id) && (is_state row.state discovered || is_state row.state eligible)

pub remove_terminal_without_execution : Rows → Text → Result OutboxError Rows
unfolding delete_where
remove_terminal_without_execution rows order_id = delete_where (is_unexecuted order_id) rows

abbrev is_null : Option ℤ → Bool
is_null none = true
is_null (some _) = false

abbrev pub is_uncancelled : Text → StagedIntent → Bool
is_uncancelled order_id row =
    (row.order_id =ᵗ order_id) && is_null row.source_cancel_requested_sequence

pub mark_cancel_requested : Rows → Bool → ℤ → Text → Text → Result OutboxError Rows
unfolding update_where is_blank
mark_cancel_requested rows is_current sequence order_id reason = do
  fail_if (not is_current) old_schema
  fail_if (is_blank order_id || is_blank reason) missing_text
  update_where (is_uncancelled order_id)
      (λ row. record row {
        source_cancel_requested_sequence = some sequence;
        source_cancel_reason = some reason;
      })
      rows

-- The claim of an eligible intent: from here on it may be sent to the broker.
abbrev pub in_state : StagedIntentState → Text → StagedIntent → Bool
in_state state request_sha256 row =
    (row.request_sha256 =ᵗ request_sha256) && is_state row.state state

pub begin_submission : Rows → Text → Text → List Text → Result OutboxError Rows
unfolding validate_contract_ids update_one
begin_submission rows intent_id request_sha256 baseline = do
  validate_contract_ids baseline
  update_one intent_id (in_state eligible request_sha256)
      (λ row. record row {
        state = submitting;
        baseline_contract_ids = some baseline;
        last_error = none;
      })
      rows

abbrev pub baseline_of : Option StagedIntent → Text → Option (List Text)
baseline_of none request_sha256 = none
baseline_of (some row) request_sha256 =
    if in_state submitting request_sha256 row then row.baseline_contract_ids else none

-- The cancellation of a contract, in the cancel state that is asked for.
abbrev pub is_cancel : Text → Text → StagedCancelState → StagedIntent → Bool
is_cancel request_sha256 contract state row =
    (row.request_sha256 =ᵗ request_sha256)
    && (is_state row.state submitted
        && (is_contract row.remote_contract_id contract && is_cancel_state row.cancel_state state))

pub begin_cancellation : Rows → Text → Text → Text → Result OutboxError Rows
unfolding validate_contract_ids update_one
begin_cancellation rows intent_id request_sha256 contract = do
  validate_contract_ids (contract ∷ [])
  update_one intent_id (is_cancel request_sha256 contract not_requested)
      (λ row. record row { cancel_state = cancelling; cancel_error = none }) rows

module _ ⦃json : IsJson⦄ where
  pub complete_submission : Rows → Text → Text → Text → Text → Result OutboxError Rows
  unfolding validate_contract_ids update_one lookup
  complete_submission rows intent_id request_sha256 contract evidence = do
    validate_contract_ids (contract ∷ [])
    fail_if (not (json.is_json evidence)) not_json
    baseline ← ok_or (baseline_of (lookup intent_id rows) request_sha256) not_in_state
    validate_contract_ids baseline
    fail_if (any (λ id. id =ᵗ contract) baseline) known_contract
    update_one intent_id (in_state submitting request_sha256)
        (λ row. record row {
          state = submitted;
          remote_contract_id = some contract;
          remote_evidence_json = some evidence;
          last_error = none;
        })
        rows

  abbrev pub is_bad_json : Option Text → Bool
  is_bad_json none = false
  is_bad_json (some evidence) = not (json.is_json evidence)

  pub mark_ambiguous : Rows → Text → Text → Text → Option Text → Result OutboxError Rows
  unfolding update_one is_blank
  mark_ambiguous rows intent_id request_sha256 error evidence = do
    fail_if (is_blank error) missing_text
    fail_if (is_bad_json evidence) not_json
    update_one intent_id (in_state submitting request_sha256)
        (λ row. record row {
          state = ambiguous;
          remote_evidence_json = evidence;
          last_error = some error;
        })
        rows

  pub complete_cancellation : Rows → Text → Text → Text → Text → Result OutboxError Rows
  unfolding validate_contract_ids update_one
  complete_cancellation rows intent_id request_sha256 contract evidence = do
    validate_contract_ids (contract ∷ [])
    fail_if (not (json.is_json evidence)) not_json
    update_one intent_id (is_cancel request_sha256 contract cancelling)
        (λ row. record row {
          cancel_state = cancelled;
          cancel_evidence_json = some evidence;
          cancel_error = none;
        })
        rows

  pub mark_cancellation_ambiguous :
      Rows → Text → Text → Text → Text → Option Text → Result OutboxError Rows
  unfolding validate_contract_ids update_one is_blank
  mark_cancellation_ambiguous rows intent_id request_sha256 contract error evidence = do
    validate_contract_ids (contract ∷ [])
    fail_if (is_blank error) missing_text
    fail_if (is_bad_json evidence) not_json
    update_one intent_id (is_cancel request_sha256 contract cancelling)
        (λ row. record row {
          cancel_state = cancel_ambiguous;
          cancel_evidence_json = evidence;
          cancel_error = some error;
        })
        rows
