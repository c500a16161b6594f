-- ===== src/Outbox/Operations.antt =====
-- The operations of src/ths_sim_outbox.rs that change the table, as one step.
use grid_edge_t.Base.{
  ◌≡◌, Bool, true, false, not, ◌&&◌, Option, some, List, [], ◌∷◌, refl, arith, not-false,
}
use mathlib.Core.Bool.{false≢true}
use grid_edge_t.Base.Ids.{Text}
use grid_edge_t.Base.Int.{ℤ}
use grid_edge_t.Base.Maps.{lookup, insert, values}
use grid_edge_t.Base.Results.{
  Result, ok, ok_or, fail_if, ◌>>=◌, returned, >>=-eq-ok, ok_or-eq, fail_if-ok,
}
use grid_edge_t.Outbox.{
  StagedIntent, OutboxError, IsJson, not_unique, not_in_state, Rows, is_unique, update_one,
  stage_intent, mark_submitted, remove_terminal_without_execution, mark_cancel_requested,
  begin_submission, begin_cancellation, complete_submission, mark_ambiguous, complete_cancellation,
  mark_cancellation_ambiguous,
}

pub update_one-inversion :
    (id : Text) (wanted : StagedIntent → Bool) (change : StagedIntent → StagedIntent)
    (rows rows' : Rows)
    → update_one id wanted change rows ≡ ok rows'
    → (row : StagedIntent) × (lookup id rows ≡ some row)
      × (wanted row ≡ true)
      × (insert id (change row) rows ≡ rows')
unfolding update_one
update_one-inversion id wanted change rows rows' h =
    let (row, found, k1) = >>=-eq-ok (ok_or (lookup id rows) not_in_state) _ h in
    let (_, fits, k2) = >>=-eq-ok (fail_if (not (wanted row)) not_in_state) _ k1 in
    let (_, _, fin) =
      >>=-eq-ok (fail_if (not (is_unique (values (insert id (change row) rows)))) not_unique) _
        k2 in
    (
      row,
      ok_or-eq (lookup id rows) not_in_state row found,
      not-false (wanted row) (fail_if-ok _ not_in_state _ fits),
      returned fin,
    )

pub some_row : {a b : StagedIntent} → ◌≡◌ {A = Option StagedIntent} (some a) (some b) → a ≡ b
some_row h = ground arith

-- The operations that change the table, with what they were given.
pub data Operation : Type 0 where
  stage : Bool → Text → Text → ℤ → ℤ → Option Text → Operation
  submits : ℤ → Text → Operation
  removes : Text → Operation
  requests_cancel : Bool → ℤ → Text → Text → Operation
  begins : Text → Text → List Text → Operation
  completes : Text → Text → Text → Text → Operation
  fails : Text → Text → Text → Option Text → Operation
  begins_cancel : Text → Text → Text → Operation
  completes_cancel : Text → Text → Text → Text → Operation
  fails_cancel : Text → Text → Text → Text → Option Text → Operation

module _ ⦃json : IsJson⦄ where
  unfoldable pub apply : Rows → Operation → Result OutboxError Rows
  unfolding stage_intent mark_submitted remove_terminal_without_execution mark_cancel_requested
      begin_submission complete_submission mark_ambiguous begin_cancellation complete_cancellation
      mark_cancellation_ambiguous
  apply rows (stage current id order sequence time request) =
      stage_intent rows current id order sequence time request
  apply rows (submits sequence order) = mark_submitted rows sequence order
  apply rows (removes order) = remove_terminal_without_execution rows order
  apply rows (requests_cancel current sequence order reason) =
      mark_cancel_requested rows current sequence order reason
  apply rows (begins id request baseline) = begin_submission rows id request baseline
  apply rows (completes id request contract evidence) =
      complete_submission rows id request contract evidence
  apply rows (fails id request error evidence) = mark_ambiguous rows id request error evidence
  apply rows (begins_cancel id request contract) = begin_cancellation rows id request contract
  apply rows (completes_cancel id request contract evidence) =
      complete_cancellation rows id request contract evidence
  apply rows (fails_cancel id request contract error evidence) =
      mark_cancellation_ambiguous rows id request contract error evidence

  unfoldable pub apply_all : Rows → List Operation → Result OutboxError Rows
  unfolding apply
  apply_all rows [] = ok rows
  apply_all rows (op ∷ ops) = apply rows op >>= λ next. apply_all next ops

pub first_true : (a b : Bool) → (a && b) ≡ true → a ≡ true
first_true true b e = refl
first_true false b e = e

pub second_true : (a b : Bool) → (a && b) ≡ true → b ≡ true
second_true true b e = e
second_true false b e = absurd (false≢true e)
