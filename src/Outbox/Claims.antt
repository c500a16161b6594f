-- ===== src/Outbox/Claims.antt =====
-- The operations of src/ths_sim_outbox.rs, over the intents that were claimed for sending.
use grid_edge_t.Base.{
  ◌≡◌, Bool, true, false, not, ◌||◌, ◌&&◌, some, List, [], ◌∷◌, refl, sym, ap, subst, ◌∙◌, arith,
  any,
}
use mathlib.Core.Bool.{false≢true}
use grid_edge_t.Base.Ids.{Text, ◌=ᵗ◌, is_blank}
use grid_edge_t.Base.Maps.{lookup, lookup-insert_self}
use grid_edge_t.Base.Results.{ok, ok_or, fail_if, returned, >>=-eq-ok}
use grid_edge_t.Outbox.{
  StagedIntentState, discovered, eligible, submitting, submitted, ambiguous, StagedIntent, IsJson,
  not_in_state, missing_text, not_json, known_contract, request_changed, Rows, is_state,
  insert_or_ignore, new_row, is_request, stage_intent, is_discovered, mark_submitted, is_unexecuted,
  remove_terminal_without_execution, is_uncancelled, mark_cancel_requested, old_schema, bad_request,
  in_state, begin_submission, baseline_of, is_cancel, begin_cancellation, complete_submission,
  is_bad_json, mark_ambiguous, complete_cancellation, mark_cancellation_ambiguous,
  validate_contract_ids, cancelling, not_requested,
}
use grid_edge_t.Outbox.Operations.{
  update_one-inversion, some_row, Operation, stage, submits, removes, requests_cancel, begins,
  completes, fails, begins_cancel, completes_cancel, fails_cancel, apply, apply_all, second_true,
}
use grid_edge_t.Outbox.Claimed.{
  claimed, IsClaimed, update_one-IsClaimed, update_where-IsClaimed, delete_where-IsClaimed,
  unless_present-IsClaimed,
}

-- A claimed row is neither discovered nor eligible.
not_yet :
    (s : StagedIntentState)
    → claimed s ≡ true
    → (is_state s discovered ≡ false) × (is_state s eligible ≡ false)
not_yet discovered c = absurd (false≢true c)
not_yet eligible c = absurd (false≢true c)
not_yet submitting c = (refl, refl)
not_yet submitted c = (refl, refl)
not_yet ambiguous c = (refl, refl)

no_order : (a b : Bool) → b ≡ false → (a && b) ≡ false
no_order a b e = ground arith

module _ (j o h : Text) ⦃json : IsJson⦄ where
  apply-IsClaimed :
      (rows rows' : Rows) (op : Operation)
      → IsClaimed j o h rows
      → apply rows op ≡ ok rows'
      → IsClaimed j o h rows'
  unfolding apply stage_intent insert_or_ignore mark_submitted remove_terminal_without_execution
      mark_cancel_requested begin_submission complete_submission mark_ambiguous begin_cancellation
      complete_cancellation mark_cancellation_ambiguous
  apply-IsClaimed rows rows' (stage current id order sequence time given) k e =
      let (_, _, k3) = >>=-eq-ok (fail_if (not current) old_schema) _ e in
      let (request, _, k2) = >>=-eq-ok (ok_or given bad_request) _ k3 in
      let row = new_row order sequence time request in
      let next = insert_or_ignore id row rows in
      let (existing, _, k1) = >>=-eq-ok (ok_or (lookup id next) not_in_state) _ k2 in
      let (_, _, fin) =
        >>=-eq-ok (fail_if (not (is_request existing order request sequence)) request_changed) _
          k1 in
      subst (IsClaimed j o h) (returned fin)
        (unless_present-IsClaimed j o h (lookup id rows) id row rows refl k)
  apply-IsClaimed rows rows' (submits sequence order) k e =
      update_where-IsClaimed j o h (is_discovered order) _ rows rows'
        (λ row fits c.
          absurd
            (false≢true (sym (not_yet row.state c).0 ∙ second_true (row.order_id =ᵗ order) _ fits)))
        k e
  apply-IsClaimed rows rows' (removes order) k e =
      delete_where-IsClaimed j o h (is_unexecuted order) rows rows'
        (λ row c.
          no_order (row.order_id =ᵗ order) _
            ((λ i. (not_yet row.state c).0 i || (not_yet row.state c).1 i)))
        k e
  apply-IsClaimed rows rows' (requests_cancel current sequence order reason) k e =
      let (_, _, k2) = >>=-eq-ok (fail_if (not current) old_schema) _ e in
      let (_, _, k1) = >>=-eq-ok (fail_if (is_blank order || is_blank reason) missing_text) _ k2 in
      update_where-IsClaimed j o h (is_uncancelled order) _ rows rows' (λ row _ c. (refl, refl, c))
        k k1
  apply-IsClaimed rows rows' (begins id request baseline) k e =
      let (_, _, k1) = >>=-eq-ok (validate_contract_ids baseline) _ e in
      update_one-IsClaimed j o h id (in_state eligible request) _ rows rows'
        (λ row _ c. (refl, refl, refl)) k k1
  apply-IsClaimed rows rows' (completes id request contract evidence) k e =
      let (_, _, k1) = >>=-eq-ok (validate_contract_ids (contract ∷ [])) _ e in
      let (_, _, k2) = >>=-eq-ok (fail_if (not (json.is_json evidence)) not_json) _ k1 in
      let (baseline, _, k3) =
        >>=-eq-ok (ok_or (baseline_of (lookup id rows) request) not_in_state) _ k2 in
      let (_, _, k4) = >>=-eq-ok (validate_contract_ids baseline) _ k3 in
      let (_, _, k5) =
        >>=-eq-ok (fail_if (any (λ x. x =ᵗ contract) baseline) known_contract) _ k4 in
      update_one-IsClaimed j o h id (in_state submitting request) _ rows rows'
        (λ row _ c. (refl, refl, refl)) k k5
  apply-IsClaimed rows rows' (fails id request error evidence) k e =
      let (_, _, k1) = >>=-eq-ok (fail_if (is_blank error) missing_text) _ e in
      let (_, _, k2) = >>=-eq-ok (fail_if (is_bad_json evidence) not_json) _ k1 in
      update_one-IsClaimed j o h id (in_state submitting request) _ rows rows'
        (λ row _ c. (refl, refl, refl)) k k2
  apply-IsClaimed rows rows' (begins_cancel id request contract) k e =
      let (_, _, k1) = >>=-eq-ok (validate_contract_ids (contract ∷ [])) _ e in
      update_one-IsClaimed j o h id (is_cancel request contract not_requested) _ rows rows'
        (λ row _ c. (refl, refl, c)) k k1
  apply-IsClaimed rows rows' (completes_cancel id request contract evidence) k e =
      let (_, _, k1) = >>=-eq-ok (validate_contract_ids (contract ∷ [])) _ e in
      let (_, _, k2) = >>=-eq-ok (fail_if (not (json.is_json evidence)) not_json) _ k1 in
      update_one-IsClaimed j o h id (is_cancel request contract cancelling) _ rows rows'
        (λ row _ c. (refl, refl, c)) k k2
  apply-IsClaimed rows rows' (fails_cancel id request contract error evidence) k e =
      let (_, _, k1) = >>=-eq-ok (validate_contract_ids (contract ∷ [])) _ e in
      let (_, _, k2) = >>=-eq-ok (fail_if (is_blank error) missing_text) _ k1 in
      let (_, _, k3) = >>=-eq-ok (fail_if (is_bad_json evidence) not_json) _ k2 in
      update_one-IsClaimed j o h id (is_cancel request contract cancelling) _ rows rows'
        (λ row _ c. (refl, refl, c)) k k3

  apply_all-IsClaimed :
      (rows rows' : Rows) (ops : List Operation)
      → IsClaimed j o h rows
      → apply_all rows ops ≡ ok rows'
      → IsClaimed j o h rows'
  unfolding apply_all
  apply_all-IsClaimed rows rows' [] k e = subst (IsClaimed j o h) (returned e) k
  apply_all-IsClaimed rows rows' (op ∷ ops) k e =
      let (next, first, rest) = >>=-eq-ok (apply rows op) _ e in
      apply_all-IsClaimed next rows' ops (apply-IsClaimed rows next op k first) rest

-- A claimed intent cannot be claimed again.
IsClaimed-unclaimable :
    (j o h request : Text) (baseline : List Text) (rows rows' : Rows)
    → IsClaimed j o h rows
    → begin_submission rows j request baseline ≡ ok rows'
    → ⊥
unfolding begin_submission
IsClaimed-unclaimable j o h request baseline rows rows' k e =
    let (_, _, k1) = >>=-eq-ok (validate_contract_ids baseline) _ e in
    let (row, found, fits, _) =
      update_one-inversion j (in_state eligible request) _ rows rows' k1 in
    let is_row : row ≡ k.row = some_row (sym found ∙ k.found) in
    let state : claimed row.state ≡ true =
      ap (λ (x : StagedIntent). claimed x.state) is_row ∙ k.is_claimed in
    false≢true
      (sym (not_yet row.state state).1 ∙ second_true (row.request_sha256 =ᵗ request) _ fits)

begin_submission-IsClaimed :
    (j request : Text) (baseline : List Text) (rows rows' : Rows)
    → begin_submission rows j request baseline ≡ ok rows'
    → (row : StagedIntent) × (lookup j rows ≡ some row)
      × IsClaimed j row.order_id row.request_sha256 rows'
unfolding begin_submission
begin_submission-IsClaimed j request baseline rows rows' e =
    let (_, _, k1) = >>=-eq-ok (validate_contract_ids baseline) _ e in
    let (row, found, fits, result) =
      update_one-inversion j (in_state eligible request) _ rows rows' k1 in
    (
      row,
      found,
      subst (IsClaimed j row.order_id row.request_sha256) result (record {
        row = _;
        found = lookup-insert_self j _ rows;
        same_order = refl;
        same_request = refl;
        is_claimed = refl;
      }),
    )

module _ ⦃json : IsJson⦄ where
  -- An intent is claimed for sending at most once: after any sequence of operations that follows a
  -- claim, it is still in the table, with its order and its request, and it cannot be claimed again.
  pub begin_submission-once :
      (intent_id request request' : Text) (baseline baseline' : List Text)
      (rows rows1 rows2 rows3 : Rows) (ops : List Operation) (row : StagedIntent)
      → lookup intent_id rows ≡ some row
      → begin_submission rows intent_id request baseline ≡ ok rows1
      → apply_all rows1 ops ≡ ok rows2
      → IsClaimed intent_id row.order_id row.request_sha256 rows2
        × ¬ (begin_submission rows2 intent_id request' baseline' ≡ ok rows3)
  begin_submission-once id request request' baseline baseline' rows rows1 rows2 rows3 ops row found
        first later =
      let (row', found', k) = begin_submission-IsClaimed id request baseline rows rows1 first in
      let is_row : row' ≡ row = some_row (sym found' ∙ found) in
      let k' : IsClaimed id row.order_id row.request_sha256 rows1 =
        subst (λ (x : StagedIntent). IsClaimed id x.order_id x.request_sha256 rows1) is_row k in
      let k2 = apply_all-IsClaimed id row.order_id row.request_sha256 rows1 rows2 ops k' later in
      (
        k2,
        λ again.
            IsClaimed-unclaimable id row.order_id row.request_sha256 request' baseline' rows2 rows3
              k2 again,
      )
