-- ===== src/Outbox/Claimed.antt =====
-- The changes of the table in src/ths_sim_outbox.rs, over one claimed intent.
use grid_edge_t.Base.{
  ◌≡◌, ◌==◌, Bool, true, false, not, Option, some, none, [], ◌∷◌, inl, inr, sym, ap, subst, ◌∙◌,
  Bool-cases, if◌then◌else◌,
}
use grid_edge_t.Base.Ids.{Text, ◌=ᵗ◌, Text-discrete}
use grid_edge_t.Base.Maps.{lookup, insert, values, lookup-insert_self, lookup-insert_ne}
use grid_edge_t.Base.Results.{ok, fail_if, returned, >>=-eq-ok}
use grid_edge_t.Outbox.{
  StagedIntentState, discovered, eligible, StagedIntent, not_unique, not_in_state, Rows, is_unique,
  update_one, count, change_where, update_where, keep_where, delete_where, unless_present,
}
use grid_edge_t.Outbox.Operations.{update_one-inversion, some_row}

-- An intent that may have been sent to the broker.
abbrev pub claimed : StagedIntentState → Bool
claimed discovered = false
claimed eligible = false
claimed _ = true

-- The intent is in the table, for an order and a request, and it was claimed.
pub record IsClaimed (intent_id order_id request_sha256 : Text) (rows : Rows) : Type 0 where
  pub row : StagedIntent
  pub found : lookup intent_id rows ≡ some row
  pub same_order : row.order_id ≡ order_id
  pub same_request : row.request_sha256 ≡ request_sha256
  pub is_claimed : claimed row.state ≡ true

-- A change that keeps the claim of a row that it applies to.
abbrev pub KeepsClaim : (StagedIntent → Bool) → (StagedIntent → StagedIntent) → Type 0
KeepsClaim wanted change =
    (row : StagedIntent)
    → wanted row ≡ true
    → claimed row.state ≡ true
    → ((change row).order_id ≡ row.order_id)
      × ((change row).request_sha256 ≡ row.request_sha256)
      × (claimed (change row).state ≡ true)

module _ (j o h : Text) where
  pub update_one-IsClaimed :
      (id : Text) (wanted : StagedIntent → Bool) (change : StagedIntent → StagedIntent)
      (rows rows' : Rows)
      → KeepsClaim wanted change
      → IsClaimed j o h rows
      → update_one id wanted change rows ≡ ok rows'
      → IsClaimed j o h rows'
  update_one-IsClaimed id wanted change rows rows' keeps k e =
      let (row, found, fits, result) = update_one-inversion id wanted change rows rows' e in
      subst (IsClaimed j o h) result (elim (Text-discrete j id) [
        | yes same ↦
            let is_row : row ≡ k.row =
              some_row (sym found ∙ ap (λ x. lookup x rows) (sym same) ∙ k.found) in
            let (order, request, state) =
              keeps row fits (ap (λ (x : StagedIntent). claimed x.state) is_row ∙ k.is_claimed) in
            record {
              row = change row;
              found =
                  ap (λ x. lookup x (insert id (change row) rows)) same
                  ∙ lookup-insert_self id (change row) rows;
              same_order = order ∙ ap (λ (x : StagedIntent). x.order_id) is_row ∙ k.same_order;
              same_request =
                  request ∙ ap (λ (x : StagedIntent). x.request_sha256) is_row ∙ k.same_request;
              is_claimed = state;
            }
        | no other ↦ record {
          row = k.row;
          found = lookup-insert_ne j id (change row) rows other ∙ k.found;
          same_order = k.same_order;
          same_request = k.same_request;
          is_claimed = k.is_claimed;
        }
      ])

lookup-change_where :
    (wanted : StagedIntent → Bool) (change : StagedIntent → StagedIntent) (j : Text)
    (row : StagedIntent) (rows : Rows)
    → lookup j rows ≡ some row
    → lookup j (change_where wanted change rows) ≡ some (if wanted row then change row else row)
unfolding change_where lookup
lookup-change_where wanted change j row [] h = cc
lookup-change_where wanted change j row ((id, r) ∷ rows) h = elim (Bool-cases (j =ᵗ id)) [
  | inl here ↦
      let is_row : r ≡ row = some_row (rw here at h) in
      rw here (ap (λ x. some (if wanted x then change x else x)) is_row)
  | inr later ↦ rw later (lookup-change_where wanted change j row rows (rw later at h))
]

lookup-keep_where :
    (removed : StagedIntent → Bool) (j : Text) (row : StagedIntent) (rows : Rows)
    → removed row ≡ false
    → lookup j rows ≡ some row
    → lookup j (keep_where removed rows) ≡ some row
unfolding keep_where lookup
lookup-keep_where removed j row [] stays h = cc
lookup-keep_where removed j row ((id, r) ∷ rows) stays h = elim (Bool-cases (j =ᵗ id)) [
  | inl here ↦
      let is_row : r ≡ row = some_row (rw here at h) in
      let kept : removed r ≡ false = ap removed is_row ∙ stays in rw kept (at_head here is_row)
  | inr later ↦
      let rest = lookup-keep_where removed j row rows stays (rw later at h) in
      elim (Bool-cases (removed r)) [
        | inl gone ↦ rw gone rest
        | inr kept ↦ rw kept (past_head later rest)
      ]
]
  where
    at_head : (j =ᵗ id) ≡ true → r ≡ row → lookup j ((id, r) ∷ keep_where removed rows) ≡ some row
    at_head here same = rw here (ap some same)

    past_head :
        (j =ᵗ id) ≡ false
        → lookup j (keep_where removed rows) ≡ some row
        → lookup j ((id, r) ∷ keep_where removed rows) ≡ some row
    past_head later rest = rw later rest

module _ (j o h : Text) where
  pub update_where-IsClaimed :
      (wanted : StagedIntent → Bool) (change : StagedIntent → StagedIntent) (rows rows' : Rows)
      → KeepsClaim wanted change
      → IsClaimed j o h rows
      → update_where wanted change rows ≡ ok rows'
      → IsClaimed j o h rows'
  unfolding update_where
  update_where-IsClaimed wanted change rows rows' keeps k e =
      let (_, _, k1) =
        >>=-eq-ok (fail_if (not (is_unique (values (change_where wanted change rows)))) not_unique)
          _ e in
      let (_, _, fin) = >>=-eq-ok (fail_if (not (count wanted rows == 1)) not_in_state) _ k1 in
      let found = lookup-change_where wanted change j k.row rows k.found in
      subst (IsClaimed j o h) (returned fin) (elim (Bool-cases (wanted k.row)) [
        | inl fits ↦
            let (order, request, state) = keeps k.row fits k.is_claimed in
            record {
              row = change k.row;
              found = found ∙ ap (λ b. some (if b then change k.row else k.row)) fits;
              same_order = order ∙ k.same_order;
              same_request = request ∙ k.same_request;
              is_claimed = state;
            }
        | inr other ↦ record {
          row = k.row;
          found = found ∙ ap (λ b. some (if b then change k.row else k.row)) other;
          same_order = k.same_order;
          same_request = k.same_request;
          is_claimed = k.is_claimed;
        }
      ])

  at_row :
      (rows' : Rows) (row : StagedIntent)
      → lookup j rows' ≡ some row
      → row.order_id ≡ o
      → row.request_sha256 ≡ h
      → claimed row.state ≡ true
      → IsClaimed j o h rows'
  at_row rows' row found order request state = record {
    row = row;
    found = found;
    same_order = order;
    same_request = request;
    is_claimed = state;
  }

  pub delete_where-IsClaimed :
      (removed : StagedIntent → Bool) (rows rows' : Rows)
      → ((row : StagedIntent) → claimed row.state ≡ true → removed row ≡ false)
      → IsClaimed j o h rows
      → delete_where removed rows ≡ ok rows'
      → IsClaimed j o h rows'
  unfolding delete_where
  delete_where-IsClaimed removed rows rows' spares k e =
      let (_, _, fin) = >>=-eq-ok (fail_if (not (count removed rows == 1)) not_in_state) _ e in
      subst (IsClaimed j o h) (returned fin) (
        at_row (keep_where removed rows) k.row
          (lookup-keep_where removed j k.row rows (spares k.row k.is_claimed) k.found) k.same_order
          k.same_request k.is_claimed)

  pub unless_present-IsClaimed :
      (known : Option StagedIntent) (id : Text) (row : StagedIntent) (rows : Rows)
      → lookup id rows ≡ known
      → IsClaimed j o h rows
      → IsClaimed j o h (unless_present known id row rows)
  unfolding unless_present
  unless_present-IsClaimed (some r) id row rows e k = k
  unless_present-IsClaimed none id row rows e k =
      elim (Bool-cases (is_unique (values (insert id row rows)))) [
        | inr clash ↦ rw clash k
        | inl fits ↦ rw fits (elim (Text-discrete j id) [
          | yes same ↦ absurd (none_row (sym e ∙ ap (λ x. lookup x rows) (sym same) ∙ k.found))
          | no other ↦
              at_row (insert id row rows) k.row (lookup-insert_ne j id row rows other ∙ k.found)
                k.same_order k.same_request k.is_claimed
        ])
      ]
    where
      none_row : {r : StagedIntent} → ◌≡◌ {A = Option StagedIntent} none (some r) → ⊥
      none_row q = cc
