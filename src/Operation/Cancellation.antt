-- ===== src/Operation/Cancellation.antt =====
-- When an operation can be cancelled (storage/operation/store.go `Cancel`, db/sqlcgen/operations.sql.go
-- `CancelOperation`).
use vps_billing_workbuddy.Prelude.{
  ℕ, ◌≡◌, ◌↔◌, refl, Bool, true, false, not, ◌||◌, Option, none, some, [], String, if◌then◌else◌,
  arith,
}
use vps_billing_workbuddy.Errors.{Result, ok, err, statement_failed}
use vps_billing_workbuddy.Database.{
  World, Outcome, done, failed, ◌>>=◌, pure, statement_fair, statement_fair-err,
}
use vps_billing_workbuddy.Ledger.{Uuid}
use vps_billing_workbuddy.Calendar.{Time}
use vps_billing_workbuddy.Rows.{first_where, update_where}
use vps_billing_workbuddy.Rows.Places.{first_where-Stands, count_one}
use vps_billing_workbuddy.Operation.{OperationStatus, operation_eq, operation_is_terminal}
use vps_billing_workbuddy.Operation.Tables.{OperationRow, Tables, is_null, is_valid}
use vps_billing_workbuddy.Operation.Sql.{
  has_id, update_operations, is_cancellable, cancelled_row, cancel_operation,
}
use vps_billing_workbuddy.Operation.Store
use vps_billing_workbuddy.Operation.Updates.{all_valid_one, valid_row}
use vps_billing_workbuddy.Operation.Evolution.{IsSound}

listed_open :
    (s : OperationStatus)
    → (operation_eq s OperationStatus.queued
        || operation_eq s OperationStatus.running
        || operation_eq s OperationStatus.waiting_provider
        || operation_eq s OperationStatus.waiting_resource
        || operation_eq s OperationStatus.verifying
        || operation_eq s OperationStatus.retrying)
      ≡ not (operation_is_terminal s)
unfolding operation_is_terminal
listed_open s = ground arith

cancellable_open :
    (id : Uuid) (r : OperationRow)
    → has_id id r ≡ true
    → is_cancellable id r ≡ not (operation_is_terminal r.operation.status)
cancellable_open id r h = let listed = listed_open r.operation.status in ground arith

-- A cancelled row keeps the constraints when it carries no error code.
cancelled-valid :
    (at : Time) (r : OperationRow)
    → is_valid r ≡ true
    → is_valid (cancelled_row at r) ≡ is_null r.operation.error_code
unfolding is_valid operation_is_terminal
cancelled-valid at r h = ground arith

-- What the statement answers for a row, by whether it has ended and by its error code.
abbrev cancel_answer : Bool → Option String → Tables → Result (ℕ × Tables)
cancel_answer true code d = ok (0, d)
cancel_answer false none d = ok (1, d)
cancel_answer false (some code) d = err statement_failed

-- The answer, from the count of rows and the check of the row after.
answer_lem :
    (ended : Bool) (code : Option String) (matched checked : Bool) (n : ℕ) (d : Tables)
    → matched ≡ not ended
    → n ≡ (if matched then 1 else 0)
    → checked ≡ (not matched || is_null code)
    → (if checked then ok (n, d) else err statement_failed) ≡ cancel_answer ended code d
answer_lem true code matched checked n d m c k = ground arith
answer_lem false none matched checked n d m c k = ground arith
answer_lem false (some code) matched checked n d m c k = ground arith

cancel_operation_lem :
    (id : Uuid) (at : Time) (t : Tables) (r : OperationRow)
    → IsSound t
    → first_where (has_id id) t.operations ≡ some r
    → cancel_operation id at t
      ≡ cancel_answer (operation_is_terminal r.operation.status) r.operation.error_code (record t {
        operations = update_where (is_cancellable id) (cancelled_row at) t.operations;
      })
unfolding cancel_operation update_operations
cancel_operation_lem id at t r s f =
    let (hit, stands) = first_where-Stands (has_id id) t.operations r f in
    let narrow : (x : OperationRow) → is_cancellable id x ≡ true → has_id id x ≡ true =
      λ x h. ground arith in
    let checked =
      all_valid_one id (is_cancellable id) (cancelled_row at) narrow t.operations r (s.distinct id)
        f in
    let counted =
      count_one (has_id id) (is_cancellable id) narrow r t.operations stands hit (s.distinct id) in
    let unless_ended = cancellable_open id r hit in
    let kept = cancelled-valid at r (valid_row t.operations r id s.valid f) in
    answer_lem (operation_is_terminal r.operation.status) r.operation.error_code
      (is_cancellable id r) _ _ _ unless_ended counted (rw (← kept) checked)

-- The answer of the call for the answer of its statement.
abbrev cancel_outcome : Bool → Option String → World Tables → Tables → Outcome Tables Bool
cancel_outcome true code w d = done false (record w { db = d })
cancel_outcome false none w d = done true (record w { db = d })
cancel_outcome false (some code) w d = failed statement_failed (record w { faults = [] })

cancel-outcome :
    (w : World Tables) (id : Uuid) (at : Time) (ended : Bool) (code : Option String) (d : Tables)
    → w.faults ≡ []
    → cancel_operation id at w.db ≡ cancel_answer ended code d
    → Store.cancel id at w ≡ cancel_outcome ended code w d
unfolding Store.cancel ◌>>=◌ pure
cancel-outcome w id at true code d fair e =
    let ran = statement_fair (cancel_operation id at) w fair e in ground arith
cancel-outcome w id at false none d fair e =
    let ran = statement_fair (cancel_operation id at) w fair e in ground arith
cancel-outcome w id at false (some code) d fair e =
    let ran = statement_fair-err (cancel_operation id at) w fair e in ground arith

outcome_iff :
    (ended : Bool) (code : Option String) (w : World Tables) (d : Tables)
    → ((v : World Tables) × (cancel_outcome ended code w d ≡ done true v))
      ↔ ((ended ≡ false) × (code ≡ none))
outcome_iff true code w d = (λ (v, h). ground arith, λ (e, n). cc)
outcome_iff false none w d = (λ h. (refl, refl), λ h. (record w { db = d }, refl))
outcome_iff false (some code) w d = (λ (v, h). cc, λ (e, n). cc)

-- In a sound table, with no statement failing, Cancel reports that it cancelled an operation
-- exactly when the operation has neither succeeded, failed nor been cancelled and carries no error
-- code: one that waits for its retry with the code of its last attempt is refused by the table's
-- CHECK.
pub cancel_iff :
    (w : World Tables) (id : Uuid) (at : Time) (r : OperationRow)
    → w.faults ≡ []
    → IsSound w.db
    → first_where (has_id id) w.db.operations ≡ some r
    → ((v : World Tables) × (Store.cancel id at w ≡ done true v))
      ↔ ((operation_is_terminal r.operation.status ≡ false) × (r.operation.error_code ≡ none))
cancel_iff w id at r fair s f =
    rw (cancel-outcome w id at _ _ _ fair (cancel_operation_lem id at w.db r s f))
      (outcome_iff (operation_is_terminal r.operation.status) r.operation.error_code w _)

-- In a sound table, with no statement failing, cancelling an operation that waits for its retry
-- with an error code fails and leaves it waiting.
pub cancel-retrying :
    (w : World Tables) (id : Uuid) (at : Time) (r : OperationRow) (code : String)
    → w.faults ≡ []
    → IsSound w.db
    → first_where (has_id id) w.db.operations ≡ some r
    → r.operation.status ≡ OperationStatus.retrying
    → r.operation.error_code ≡ some code
    → Store.cancel id at w ≡ failed statement_failed w
unfolding operation_is_terminal
cancel-retrying w id at r code fair s f waiting coded =
    let answered = cancel_operation_lem id at w.db r s f in
    let refused = rw (waiting, coded) at answered in
    rw (cancel-outcome w id at false (some code) w.db fair refused) (ground arith)
