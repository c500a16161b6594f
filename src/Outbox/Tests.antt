-- ===== src/Outbox/Tests.antt =====
-- Runs of the outbox of src/ths_sim_outbox.rs: one intent, from its event to its cancellation.
use grid_edge_t.Base.{◌≡◌, Option, some, none, true, List, [], ◌∷◌, refl, not}
use grid_edge_t.Base.Ids.{Text, text, is_empty}
use grid_edge_t.Base.Int.{pos}
use grid_edge_t.Base.Maps.{lookup}
use grid_edge_t.Base.Results.{ok, err}
use grid_edge_t.Outbox.{
  IsJson, StagedIntent, StagedIntentState, eligible, submitting, submitted, not_requested,
  cancelled, known_contract, not_fresh, Rows, begin_submission, complete_submission,
  verify_execution_freshness,
}
use grid_edge_t.Outbox.Operations.{
  Operation, stage, submits, completes, requests_cancel, begins_cancel, completes_cancel, begins,
  apply_all,
}
use grid_edge_t.Outbox.Claimed.{IsClaimed}
use grid_edge_t.Outbox.Claims.{begin_submission-once}
use grid_edge_t.Outbox.Sound.{AllSound, apply_all-AllSound}

instance some_json : IsJson
some_json = record { is_json = λ t. not (is_empty t) }

abbrev row_in : StagedIntentState → Option (List Text) → Option Text → Option Text → StagedIntent
row_in state baseline contract evidence = record {
  order_id = text "o1";
  source_intent_sequence = pos 1;
  source_submitted_sequence = some (pos 2);
  source_event_time = pos 1_000_000_000_000;
  request_sha256 = text "ab";
  state = state;
  baseline_contract_ids = baseline;
  remote_contract_id = contract;
  remote_evidence_json = evidence;
  last_error = none;
  source_cancel_requested_sequence = none;
  source_cancel_reason = none;
  cancel_state = not_requested;
  cancel_evidence_json = none;
  cancel_error = none;
}

abbrev ready : StagedIntent
ready = row_in eligible none none none

abbrev sent : StagedIntent
sent = row_in submitted (some (text "C1" ∷ [])) (some (text "C2")) (some (text "{}"))

abbrev table : StagedIntent → Rows
table row = (text "i1", row) ∷ []

abbrev claimed_rows : Rows
claimed_rows = table (row_in submitting (some (text "C1" ∷ [])) none none)

staged :
    apply_all [] (
      stage true (text "i1") (text "o1") (pos 1) (pos 1_000_000_000_000) (some (text "ab"))
      ∷ submits (pos 2) (text "o1")
      ∷ [])
    ≡ ok (table ready)
unfolding apply_all grid_edge_t.Base.Ids.compare_text
staged = refl

claims : begin_submission (table ready) (text "i1") (text "ab") (text "C1" ∷ []) ≡ ok claimed_rows
unfolding begin_submission grid_edge_t.Base.Ids.compare_text
claims = refl

sends :
    apply_all claimed_rows (completes (text "i1") (text "ab") (text "C2") (text "{}") ∷ [])
    ≡ ok (table sent)
unfolding apply_all some_json grid_edge_t.Base.Ids.compare_text
sends = refl

-- A contract that was there before the claim cannot be the new one.
old_contract :
    complete_submission claimed_rows (text "i1") (text "ab") (text "C1") (text "{}")
    ≡ err known_contract
unfolding complete_submission some_json grid_edge_t.Base.Ids.compare_text
old_contract = refl

-- Two minutes are fresh for a limit of two minutes, and a nanosecond more is not.
fresh : verify_execution_freshness ready (pos 1_120_000_000_000) (pos 120_000_000_000) ≡ ok tt
unfolding verify_execution_freshness grid_edge_t.Base.Int.◌+ℤ◌ grid_edge_t.Base.Int.◌-ℤ◌
fresh = refl

stale :
    verify_execution_freshness ready (pos 1_120_000_000_001) (pos 120_000_000_000) ≡ err not_fresh
unfolding verify_execution_freshness grid_edge_t.Base.Int.◌+ℤ◌ grid_edge_t.Base.Int.◌-ℤ◌
stale = refl

found : lookup (text "i1") (table ready) ≡ some ready
unfolding lookup grid_edge_t.Base.Ids.compare_text
found = refl

begin_submission-once_example :
    IsClaimed (text "i1") (text "o1") (text "ab") (table sent)
    × ¬ (begin_submission (table sent) (text "i1") (text "ab") [] ≡ ok (table ready))
begin_submission-once_example =
    begin_submission-once (text "i1") (text "ab") (text "ab") (text "C1" ∷ []) [] (table ready)
      claimed_rows (table sent) (table ready)
      (completes (text "i1") (text "ab") (text "C2") (text "{}") ∷ []) ready found claims sends

abbrev gone : StagedIntent
gone = record sent {
  source_cancel_requested_sequence = some (pos 3);
  source_cancel_reason = some (text "stop");
  cancel_state = cancelled;
  cancel_evidence_json = some (text "{}");
}

abbrev life : List Operation
life =
    stage true (text "i1") (text "o1") (pos 1) (pos 1_000_000_000_000) (some (text "ab"))
    ∷ submits (pos 2) (text "o1")
    ∷ begins (text "i1") (text "ab") (text "C1" ∷ [])
    ∷ completes (text "i1") (text "ab") (text "C2") (text "{}")
    ∷ requests_cancel true (pos 3) (text "o1") (text "stop")
    ∷ begins_cancel (text "i1") (text "ab") (text "C2")
    ∷ completes_cancel (text "i1") (text "ab") (text "C2") (text "{}")
    ∷ []

lives : apply_all [] life ≡ ok (table gone)
unfolding apply_all grid_edge_t.Base.Ids.compare_text some_json
lives = refl

apply_all-AllSound_example : AllSound (table gone)
apply_all-AllSound_example = apply_all-AllSound [] (table gone) life tt lives
