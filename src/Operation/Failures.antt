-- ===== src/Operation/Failures.antt =====
-- What becomes of an operation whose attempt failed (operation/service.go `classify`).
use vps_billing_workbuddy.Prelude.{
  ℕ, ◌≡◌, ◌≤◌, ◌<◌, ◌+◌, ◌⊎◌, refl, ap, Bool, true, false, not, ◌||◌, ◌==◌, leb, none, some, [],
  String, inl, inr, Bool-cases, arith,
}
use vps_billing_workbuddy.Database.{World, done, pure, statement_fair, >>=-done}
use vps_billing_workbuddy.Calendar.{Time, add_duration}
use vps_billing_workbuddy.Rows.{first_where, update_where}
use vps_billing_workbuddy.Rows.Laws.{first_where-update}
use vps_billing_workbuddy.Rows.Places.{first_where-Stands}
use vps_billing_workbuddy.Operation.{
  OperationStatus, operation_eq, operation_is_terminal, backoff_for,
}
use vps_billing_workbuddy.Operation.Tables.{OperationRow, Tables, is_valid}
use vps_billing_workbuddy.Operation.Sql.{
  has_id, is_seen, moved, parked, transition_operation, move_operation_to_retrying,
}
use vps_billing_workbuddy.Operation.Store.{StepFailure, transition, to_retrying}
use vps_billing_workbuddy.Operation.Engine.{classify, recorded}
use vps_billing_workbuddy.Operation.Evolution.{IsSound}
use vps_billing_workbuddy.Operation.Updates.{valid_row, seen_update}

-- The operation ends, with the failure and the time.
abbrev pub ended_row : StepFailure → Time → OperationRow → OperationRow
ended_row f at r = moved OperationStatus.failed none none (some f.code) (some f.message) at r

-- The operation waits for its next attempt, after the back-off for the attempts that `seen` counts.
abbrev pub waiting_row : StepFailure → Time → OperationRow → OperationRow → OperationRow
waiting_row f at seen r =
    parked (add_duration at (backoff_for (seen.operation.retry_count + 1))) (some f.code)
      (some f.message) at r

moved-valid :
    (code message : String) (at : Time) (r : OperationRow)
    → is_valid r ≡ true
    → is_valid (moved OperationStatus.failed none none (some code) (some message) at r) ≡ true
unfolding is_valid operation_is_terminal
moved-valid code message at r h = ground arith

parked-valid :
    (run_after : Time) (code message : String) (at : Time) (r : OperationRow)
    → is_valid r ≡ true
    → r.operation.status ≡ OperationStatus.running
    → is_valid (parked run_after (some code) (some message) at r) ≡ true
unfolding is_valid operation_is_terminal
parked-valid run_after code message at r h running = ground arith

-- The tables after a change of the operation as it was seen.
abbrev changed : (OperationRow → OperationRow) → OperationRow → Tables → Tables
changed change r t = record t {
  operations = update_where (is_seen r.operation.id r.operation.status) change t.operations;
}

operation_eq_refl : (s : OperationStatus) → operation_eq s s ≡ true
operation_eq_refl s = ground arith

classify-failed :
    (f : StepFailure) (at : Time) (w : World Tables) (r : OperationRow)
    → w.faults ≡ []
    → IsSound w.db
    → first_where (has_id r.operation.id) w.db.operations ≡ some r
    → r.operation.status ≡ OperationStatus.running
    → transition r.operation.id r.operation.status OperationStatus.failed "" "" (recorded f) at w
      ≡ done true (record w { db = changed (ended_row f at) r w.db })
unfolding transition transition_operation pure
classify-failed f at w r fair s found running =
    let valid = valid_row w.db.operations r r.operation.id s.valid found in
    let wrote =
      seen_update r.operation.id r.operation.status (ended_row f at) w.db r s found
        (operation_eq_refl r.operation.status) (moved-valid f.code f.message at r valid) in
    >>=-done _ _ w (statement_fair _ w fair wrote)

classify-parked :
    (f : StepFailure) (at : Time) (w : World Tables) (r : OperationRow)
    → w.faults ≡ []
    → IsSound w.db
    → first_where (has_id r.operation.id) w.db.operations ≡ some r
    → r.operation.status ≡ OperationStatus.running
    → to_retrying r.operation.id r.operation.status (recorded f) (r.operation.retry_count + 1) at w
      ≡ done true (record w { db = changed (waiting_row f at r) r w.db })
unfolding to_retrying move_operation_to_retrying pure
classify-parked f at w r fair s found running =
    let valid = valid_row w.db.operations r r.operation.id s.valid found in
    let wrote =
      seen_update r.operation.id r.operation.status (waiting_row f at r) w.db r s found
        (operation_eq_refl r.operation.status)
        (parked-valid _ f.code f.message at r valid running) in
    >>=-done _ _ w (statement_fair _ w fair wrote)

-- The changed operation is found in its place.
changed-found :
    (change : OperationRow → OperationRow) (t : Tables) (r : OperationRow)
    → ((x : OperationRow) → (change x).operation.id ≡ x.operation.id)
    → first_where (has_id r.operation.id) t.operations ≡ some r
    → first_where (has_id r.operation.id) (changed change r t).operations ≡ some (change r)
changed-found change t r kept found =
    let hit = (first_where-Stands (has_id r.operation.id) t.operations r found).0 in
    let selected : is_seen r.operation.id r.operation.status r ≡ true =
      let same = operation_eq_refl r.operation.status in ground arith in
    let placed =
      first_where-update (has_id r.operation.id) (is_seen r.operation.id r.operation.status) change
        (λ x. ap (λ n. n == r.operation.id) (kept x)) t.operations r found in
    rw selected at placed

spent_or_unwanted :
    (retry : Bool) (budget count : ℕ)
    → (not retry || leb budget count) ≡ true
    → (retry ≡ false) ⊎ (budget ≤ count)
spent_or_unwanted true budget count h = inr (ground arith)
spent_or_unwanted false budget count h = inl refl

-- The operation has failed at a time, with the code and the message of the failure; its retries are as
-- they were.
pub record HasFailed (f : StepFailure) (at : Time) (r r' : OperationRow) : Type 0 where
  pub same_id : r'.operation.id ≡ r.operation.id
  pub status : r'.operation.status ≡ OperationStatus.failed
  pub code : r'.operation.error_code ≡ some f.code
  pub message : r'.operation.error_message ≡ some f.message
  pub ended_now : r'.operation.finished_at ≡ some at
  pub retries : r'.operation.retry_count ≡ r.operation.retry_count
  pub budget : r'.operation.max_retries ≡ r.operation.max_retries

-- The operation waits for its next attempt, which is counted, until the back-off is over.
pub record IsWaiting (f : StepFailure) (at : Time) (r r' : OperationRow) : Type 0 where
  pub same_id : r'.operation.id ≡ r.operation.id
  pub status : r'.operation.status ≡ OperationStatus.retrying
  pub code : r'.operation.error_code ≡ some f.code
  pub message : r'.operation.error_message ≡ some f.message
  pub until : r'.run_after ≡ some (add_duration at (backoff_for (r.operation.retry_count + 1)))
  pub retries : r'.operation.retry_count ≡ r.operation.retry_count + 1
  pub budget : r'.operation.max_retries ≡ r.operation.max_retries
  pub within : r'.operation.retry_count ≤ r'.operation.max_retries

-- A failed attempt of a running operation, where the table is sound and no statement fails, is
-- recorded. Without a wish to retry, or with the budget spent, the operation has failed, with the
-- code and the time. Otherwise it waits with the code, its count of retries is one higher and within
-- the budget, and its next attempt is no earlier than the back-off of that count.
pub classify_lem :
    (f : StepFailure) (at : Time) (w : World Tables) (r : OperationRow)
    → w.faults ≡ []
    → IsSound w.db
    → first_where (has_id r.operation.id) w.db.operations ≡ some r
    → r.operation.status ≡ OperationStatus.running
    → (v : World Tables) × (r' : OperationRow) × (classify r.operation f at w ≡ done true v)
      × (first_where (has_id r.operation.id) v.db.operations ≡ some r')
      × ((((f.retry ≡ false) ⊎ (r.operation.max_retries ≤ r.operation.retry_count))
            × HasFailed f at r r')
          ⊎ ((f.retry ≡ true)
              × (r.operation.retry_count < r.operation.max_retries)
              × IsWaiting f at r r'))
unfolding classify operation_is_terminal
classify_lem f at w r fair s found running =
    elim (Bool-cases (not f.retry || leb r.operation.max_retries r.operation.retry_count)) [
      | inl spent ↦
          rw (spent, classify)
            (
              record w { db = changed (ended_row f at) r w.db },
              ended_row f at r,
              classify-failed f at w r fair s found running,
              changed-found (ended_row f at) w.db r (λ x. refl) found,
              inl (
                spent_or_unwanted f.retry r.operation.max_retries r.operation.retry_count spent,
                record {
                  same_id = refl;
                  status = refl;
                  code = refl;
                  message = refl;
                  ended_now = refl;
                  retries = refl;
                  budget = refl;
                },
              ),
            )
      | inr more ↦
          rw (more, classify)
            (
              record w { db = changed (waiting_row f at r) r w.db },
              waiting_row f at r r,
              classify-parked f at w r fair s found running,
              changed-found (waiting_row f at r) w.db r (λ x. refl) found,
              inr (
                ground arith,
                ground arith,
                record {
                  same_id = refl;
                  status = refl;
                  code = refl;
                  message = refl;
                  until = refl;
                  retries = refl;
                  budget = refl;
                  within = ground arith;
                },
              ),
            )
    ]
