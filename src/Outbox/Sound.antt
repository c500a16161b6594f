-- ===== src/Outbox/Sound.antt =====
-- The operations of src/ths_sim_outbox.rs, over what each row holds in each of its states.
use Prim.Native.Nat.{Ordering}
use grid_edge_t.Base.{
  ◌≡◌, ◌==◌, Bool, true, false, not, ◌||◌, Option, some, none, List, [], ◌∷◌, inl, inr, refl, sym,
  ap, subst, ◌∙◌, arith, Bool-cases, if◌then◌else◌, any, All,
}
use grid_edge_t.Base.Ids.{Text, ◌=ᵗ◌, is_blank, compare_text}
use grid_edge_t.Base.Maps.{lookup, insert, values}
use grid_edge_t.Base.Results.{ok, ok_or, fail_if, returned, >>=-eq-ok, ok_or-eq, fail_if-ok}
use grid_edge_t.Outbox.{
  StagedIntentState, discovered, eligible, submitting, submitted, ambiguous, StagedCancelState,
  not_requested, cancelling, StagedIntent, IsJson, not_unique, not_in_state, missing_text, not_json,
  known_contract, request_changed, Rows, is_state, is_unique, update_one, count, change_where,
  update_where, keep_where, delete_where, unless_present, insert_or_ignore, new_row, is_request,
  stage_intent, is_discovered, mark_submitted, is_unexecuted, remove_terminal_without_execution,
  is_uncancelled, mark_cancel_requested, old_schema, bad_request, in_state, begin_submission,
  baseline_of, is_cancel, begin_cancellation, complete_submission, is_bad_json, mark_ambiguous,
  complete_cancellation, mark_cancellation_ambiguous, validate_contract_ids,
}
use grid_edge_t.Outbox.Operations.{
  Operation, stage, submits, removes, requests_cancel, begins, completes, fails, begins_cancel,
  completes_cancel, fails_cancel, apply, apply_all, update_one-inversion, first_true, second_true,
  some_row,
}

-- What a row that is not submitted holds of the broker and of a cancellation: nothing.
pub record IsLocal (row : StagedIntent) : Type 0 where
  pub no_contract : row.remote_contract_id ≡ none
  pub no_cancel : row.cancel_state ≡ not_requested

-- A submitted row has one contract, and it is none of those that were there before.
pub record IsRemote (row : StagedIntent) : Type 0 where
  pub baseline : List Text
  pub contract : Text
  pub has_baseline : row.baseline_contract_ids ≡ some baseline
  pub has_contract : row.remote_contract_id ≡ some contract
  pub is_new : any (λ id. id =ᵗ contract) baseline ≡ false

-- What a row holds, by its state: the contracts that were there before are known from its claim on.
abbrev pub IsSoundIn : StagedIntentState → StagedIntent → Type 0
IsSoundIn discovered row = IsLocal row × (row.baseline_contract_ids ≡ none)
IsSoundIn eligible row = IsLocal row × (row.baseline_contract_ids ≡ none)
IsSoundIn submitting row =
    IsLocal row × ((baseline : List Text) × (row.baseline_contract_ids ≡ some baseline))
IsSoundIn ambiguous row =
    IsLocal row × ((baseline : List Text) × (row.baseline_contract_ids ≡ some baseline))
IsSoundIn submitted row = IsRemote row

abbrev pub IsSound : StagedIntent → Type 0
IsSound row = IsSoundIn row.state row

abbrev pub AllSound : Rows → Type 0
AllSound rows = All (λ (e : Text × StagedIntent). IsSound e.1) rows

lookup-AllSound :
    (id : Text) (row : StagedIntent) (rows : Rows)
    → lookup id rows ≡ some row
    → AllSound rows
    → IsSound row
unfolding lookup
lookup-AllSound id row [] h k = cc
lookup-AllSound id row ((j, r) ∷ rows) h (s, k) = elim (Bool-cases (id =ᵗ j)) [
  | inl here ↦ subst IsSound (some_row (rw here at h)) s
  | inr later ↦ lookup-AllSound id row rows (rw later at h) k
]

insert-AllSound :
    (id : Text) (row : StagedIntent) (rows : Rows)
    → IsSound row
    → AllSound rows
    → AllSound (insert id row rows)
unfolding insert
insert-AllSound id row [] s k = (s, tt)
insert-AllSound id row ((j, r) ∷ rows) s (t, k) =
    let rest = insert-AllSound id row rows s k in
    elim (compare_text id j)
      as (λ c. AllSound (elim c [
        | Ordering.lt ↦ (id, row) ∷ (j, r) ∷ rows
        | Ordering.eq ↦ (id, row) ∷ rows
        | Ordering.gt ↦ (j, r) ∷ insert id row rows
      ])) [ Ordering.lt ↦ (s, (t, k)) | Ordering.eq ↦ (s, k) | Ordering.gt ↦ (t, rest) ]

-- A change that keeps the rows that it applies to sound.
abbrev KeepsSound : (StagedIntent → Bool) → (StagedIntent → StagedIntent) → Type 0
KeepsSound wanted change =
    (row : StagedIntent) → wanted row ≡ true → IsSound row → IsSound (change row)

update_one-AllSound :
    (id : Text) (wanted : StagedIntent → Bool) (change : StagedIntent → StagedIntent)
    (rows rows' : Rows)
    → ((row : StagedIntent)
        → lookup id rows ≡ some row
        → wanted row ≡ true
        → IsSound row
        → IsSound (change row))
    → AllSound rows
    → update_one id wanted change rows ≡ ok rows'
    → AllSound rows'
update_one-AllSound id wanted change rows rows' keeps k h =
    let (row, found, fits, result) = update_one-inversion id wanted change rows rows' h in
    subst AllSound result (
      insert-AllSound id (change row) rows
        (keeps row found fits (lookup-AllSound id row rows found k)) k)

change_where-AllSound :
    (wanted : StagedIntent → Bool) (change : StagedIntent → StagedIntent) (rows : Rows)
    → KeepsSound wanted change
    → AllSound rows
    → AllSound (change_where wanted change rows)
unfolding change_where
change_where-AllSound wanted change [] keeps k = tt
change_where-AllSound wanted change ((j, r) ∷ rows) keeps (s, k) =
    let rest = change_where-AllSound wanted change rows keeps k in (changed (wanted r) refl, rest)
  where
    changed : (b : Bool) → wanted r ≡ b → IsSound (if b then change r else r)
    changed true e = keeps r e s
    changed false e = s

update_where-AllSound :
    (wanted : StagedIntent → Bool) (change : StagedIntent → StagedIntent) (rows rows' : Rows)
    → KeepsSound wanted change
    → AllSound rows
    → update_where wanted change rows ≡ ok rows'
    → AllSound rows'
unfolding update_where
update_where-AllSound wanted change rows rows' keeps k e =
    let (_, _, k1) =
      >>=-eq-ok (fail_if (not (is_unique (values (change_where wanted change rows)))) not_unique) _
        e in
    let (_, _, fin) = >>=-eq-ok (fail_if (not (count wanted rows == 1)) not_in_state) _ k1 in
    subst AllSound (returned fin) (change_where-AllSound wanted change rows keeps k)

keep_where-AllSound :
    (removed : StagedIntent → Bool) (rows : Rows)
    → AllSound rows
    → AllSound (keep_where removed rows)
unfolding keep_where
keep_where-AllSound removed [] k = tt
keep_where-AllSound removed ((j, r) ∷ rows) (s, k) =
    let rest = keep_where-AllSound removed rows k in
    elim (Bool-cases (removed r)) [ inl gone ↦ rw gone rest | inr kept ↦ rw kept (s, rest) ]

unless_present-AllSound :
    (known : Option StagedIntent) (id : Text) (row : StagedIntent) (rows : Rows)
    → IsSound row
    → AllSound rows
    → AllSound (unless_present known id row rows)
unfolding unless_present
unless_present-AllSound (some r) id row rows s k = k
unless_present-AllSound none id row rows s k =
    elim (Bool-cases (is_unique (values (insert id row rows)))) [
      | inl fits ↦ rw fits (insert-AllSound id row rows s k)
      | inr clash ↦ rw clash k
    ]

-- Rows that agree on the contracts and the cancellation are sound together.
same_fields :
    (s : StagedIntentState) (row row' : StagedIntent)
    → row'.remote_contract_id ≡ row.remote_contract_id
    → row'.cancel_state ≡ row.cancel_state
    → row'.baseline_contract_ids ≡ row.baseline_contract_ids
    → IsSoundIn s row
    → IsSoundIn s row'
same_fields discovered row row' r c b (l, e) =
    (record { no_contract = r ∙ l.no_contract; no_cancel = c ∙ l.no_cancel }, b ∙ e)
same_fields eligible row row' r c b (l, e) =
    (record { no_contract = r ∙ l.no_contract; no_cancel = c ∙ l.no_cancel }, b ∙ e)
same_fields submitting row row' r c b (l, (x, e)) =
    (record { no_contract = r ∙ l.no_contract; no_cancel = c ∙ l.no_cancel }, (x, b ∙ e))
same_fields ambiguous row row' r c b (l, (x, e)) =
    (record { no_contract = r ∙ l.no_contract; no_cancel = c ∙ l.no_cancel }, (x, b ∙ e))
same_fields submitted row row' r c b k = record {
  baseline = k.baseline;
  contract = k.contract;
  has_baseline = b ∙ k.has_baseline;
  has_contract = r ∙ k.has_contract;
  is_new = k.is_new;
}

state-eq : (s t : StagedIntentState) → is_state s t ≡ true → s ≡ t
state-eq s t h = ground arith

sound_in :
    (s : StagedIntentState) (row : StagedIntent)
    → is_state row.state s ≡ true
    → IsSound row
    → IsSoundIn s row
sound_in s row e k = subst (λ t. IsSoundIn t row) (state-eq row.state s e) k

-- A cancellation that moves on is that of a submitted row.
cancel_kept :
    (request contract : Text) (c : StagedCancelState) (row row' : StagedIntent)
    → is_cancel request contract c row ≡ true
    → row'.state ≡ row.state
    → row'.remote_contract_id ≡ row.remote_contract_id
    → row'.baseline_contract_ids ≡ row.baseline_contract_ids
    → IsSound row
    → IsSound row'
cancel_kept request contract c row row' fits s r b k =
    let is_submitted =
      first_true (is_state row.state submitted) _
        (second_true (row.request_sha256 =ᵗ request) _ fits) in
    let known = sound_in submitted row is_submitted k in
    subst (λ t. IsSoundIn t row') (sym (s ∙ state-eq row.state submitted is_submitted))
      (record {
        baseline = known.baseline;
        contract = known.contract;
        has_baseline = b ∙ known.has_baseline;
        has_contract = r ∙ known.has_contract;
        is_new = known.is_new;
      })

baseline_of-eq :
    (row : StagedIntent) (request : Text) (baseline : List Text)
    → in_state submitting request row ≡ true
    → baseline_of (some row) request ≡ some baseline
    → row.baseline_contract_ids ≡ some baseline
baseline_of-eq row request baseline fits h =
    ap (λ b. if b then row.baseline_contract_ids else none) (sym fits) ∙ h

module _ ⦃json : IsJson⦄ where
  apply-AllSound :
      (rows rows' : Rows) (op : Operation)
      → AllSound rows
      → apply rows op ≡ ok rows'
      → AllSound rows'
  unfolding apply stage_intent insert_or_ignore mark_submitted remove_terminal_without_execution
      mark_cancel_requested begin_submission complete_submission mark_ambiguous begin_cancellation
      complete_cancellation mark_cancellation_ambiguous delete_where
  apply-AllSound rows rows' (stage current id order sequence time given) k e =
      let (_, _, k3) = >>=-eq-ok (fail_if (not current) old_schema) _ e in
      let (request, _, k2) = >>=-eq-ok (ok_or given bad_request) _ k3 in
      let row = new_row order sequence time request in
      let next = insert_or_ignore id row rows in
      let (existing, _, k1) = >>=-eq-ok (ok_or (lookup id next) not_in_state) _ k2 in
      let (_, _, fin) =
        >>=-eq-ok (fail_if (not (is_request existing order request sequence)) request_changed) _
          k1 in
      subst AllSound (returned fin) (
        unless_present-AllSound (lookup id rows) id row rows
          (record { no_contract = refl; no_cancel = refl }, refl) k)
  apply-AllSound rows rows' (submits sequence order) k e =
      update_where-AllSound (is_discovered order) _ rows rows'
        (λ row fits s.
          let (l, b) = sound_in discovered row (second_true (row.order_id =ᵗ order) _ fits) s in
          (record { no_contract = l.no_contract; no_cancel = l.no_cancel }, b))
        k e
  apply-AllSound rows rows' (removes order) k e =
      let (_, _, fin) =
        >>=-eq-ok (fail_if (not (count (is_unexecuted order) rows == 1)) not_in_state) _ e in
      subst AllSound (returned fin) (keep_where-AllSound (is_unexecuted order) rows k)
  apply-AllSound rows rows' (requests_cancel current sequence order reason) k e =
      let (_, _, k2) = >>=-eq-ok (fail_if (not current) old_schema) _ e in
      let (_, _, k1) = >>=-eq-ok (fail_if (is_blank order || is_blank reason) missing_text) _ k2 in
      update_where-AllSound (is_uncancelled order) _ rows rows'
        (λ row _ s. same_fields row.state row _ refl refl refl s) k k1
  apply-AllSound rows rows' (begins id request baseline) k e =
      let (_, _, k1) = >>=-eq-ok (validate_contract_ids baseline) _ e in
      update_one-AllSound id (in_state eligible request) _ rows rows'
        (λ row _ fits s.
          let (l, b) =
            sound_in eligible row (second_true (row.request_sha256 =ᵗ request) _ fits) s in
          (record { no_contract = l.no_contract; no_cancel = l.no_cancel }, (baseline, refl)))
        k k1
  apply-AllSound rows rows' (completes id request contract evidence) k e =
      let (_, _, k1) = >>=-eq-ok (validate_contract_ids (contract ∷ [])) _ e in
      let (_, _, k2) = >>=-eq-ok (fail_if (not (json.is_json evidence)) not_json) _ k1 in
      let (baseline, b, k3) =
        >>=-eq-ok (ok_or (baseline_of (lookup id rows) request) not_in_state) _ k2 in
      let (_, _, k4) = >>=-eq-ok (validate_contract_ids baseline) _ k3 in
      let (_, new, k5) =
        >>=-eq-ok (fail_if (any (λ x. x =ᵗ contract) baseline) known_contract) _ k4 in
      let is_baseline = ok_or-eq (baseline_of (lookup id rows) request) not_in_state baseline b in
      update_one-AllSound id (in_state submitting request) _ rows rows'
        (λ row found fits s. record {
          baseline = baseline;
          contract = contract;
          has_baseline =
              baseline_of-eq row request baseline fits
                (ap (λ r. baseline_of r request) (sym found) ∙ is_baseline);
          has_contract = refl;
          is_new = fail_if-ok _ known_contract _ new;
        })
        k k5
  apply-AllSound rows rows' (fails id request error evidence) k e =
      let (_, _, k1) = >>=-eq-ok (fail_if (is_blank error) missing_text) _ e in
      let (_, _, k2) = >>=-eq-ok (fail_if (is_bad_json evidence) not_json) _ k1 in
      update_one-AllSound id (in_state submitting request) _ rows rows'
        (λ row _ fits s.
          let (l, b) =
            sound_in submitting row (second_true (row.request_sha256 =ᵗ request) _ fits) s in
          (record { no_contract = l.no_contract; no_cancel = l.no_cancel }, b))
        k k2
  apply-AllSound rows rows' (begins_cancel id request contract) k e =
      let (_, _, k1) = >>=-eq-ok (validate_contract_ids (contract ∷ [])) _ e in
      update_one-AllSound id (is_cancel request contract not_requested) _ rows rows'
        (λ row _ fits s. cancel_kept request contract not_requested row _ fits refl refl refl s) k
        k1
  apply-AllSound rows rows' (completes_cancel id request contract evidence) k e =
      let (_, _, k1) = >>=-eq-ok (validate_contract_ids (contract ∷ [])) _ e in
      let (_, _, k2) = >>=-eq-ok (fail_if (not (json.is_json evidence)) not_json) _ k1 in
      update_one-AllSound id (is_cancel request contract cancelling) _ rows rows'
        (λ row _ fits s. cancel_kept request contract cancelling row _ fits refl refl refl s) k k2
  apply-AllSound rows rows' (fails_cancel id request contract error evidence) k e =
      let (_, _, k1) = >>=-eq-ok (validate_contract_ids (contract ∷ [])) _ e in
      let (_, _, k2) = >>=-eq-ok (fail_if (is_blank error) missing_text) _ k1 in
      let (_, _, k3) = >>=-eq-ok (fail_if (is_bad_json evidence) not_json) _ k2 in
      update_one-AllSound id (is_cancel request contract cancelling) _ rows rows'
        (λ row _ fits s. cancel_kept request contract cancelling row _ fits refl refl refl s) k k3

  -- Over any sequence of operations every row stays sound: the contracts that were there before are
  -- kept from the claim of an intent on, only a submitted row has a contract of the broker, which is
  -- none of those, and only a submitted row has a cancellation.
  pub apply_all-AllSound :
      (rows rows' : Rows) (ops : List Operation)
      → AllSound rows
      → apply_all rows ops ≡ ok rows'
      → AllSound rows'
  unfolding apply_all
  apply_all-AllSound rows rows' [] k e = subst AllSound (returned e) k
  apply_all-AllSound rows rows' (op ∷ ops) k e =
      let (next, first, rest) = >>=-eq-ok (apply rows op) _ e in
      apply_all-AllSound next rows' ops (apply-AllSound rows next op k first) rest
