-- ===== src/Operation/Store.antt =====
-- backend/internal/storage/operation/store.go: the persistence of operations over the statements.
use vps_billing_workbuddy.Prelude.{
  ℕ, String, Bool, Option, none, some, List, [], ◌∷◌, ltb, ◌==◌, str_eq, if◌then◌else◌,
}
use vps_billing_workbuddy.Errors.{operation_not_found}
use vps_billing_workbuddy.Database.{
  done, failed, Action, ◌>>=◌, ◌>>◌, pure, map_error, statement, when_no_rows, if_applied,
}
use vps_billing_workbuddy.Ledger.{Uuid}
use vps_billing_workbuddy.Calendar.{Time, add_duration}
use vps_billing_workbuddy.Operation.{OperationStatus, StepStatus, Operation, Step, backoff_for}
use vps_billing_workbuddy.Operation.Tables.{OperationRow, Tables}
use vps_billing_workbuddy.Operation.Sql

abbrev pub Call : Type 0 → Type 0
Call A = Action Tables A

-- operation/service.go `StepFailure`
pub record StepFailure : Type 0 where
  pub code : String
  pub message : String
  pub retry : Bool

abbrev max_retries_ceiling : ℕ
max_retries_ceiling = 1_000_000

abbrev step_order_ceiling : ℕ
step_order_ceiling = 100_000

abbrev min : ℕ → ℕ → ℕ
min a b = if ltb a b then a else b

abbrev pub failure_code : Option StepFailure → Option String
failure_code none = none
failure_code (some f) = some f.code

abbrev pub failure_message : Option StepFailure → Option String
failure_message none = none
failure_message (some f) = some f.message

abbrev pub text_or_null : String → Option String
text_or_null value = if str_eq value "" then none else some value

-- `fromRow`
abbrev pub from_row : OperationRow → Operation
from_row r = r.operation

abbrev pub from_claim : Option OperationRow → Option Operation
from_claim none = none
from_claim (some r) = some r.operation

unfoldable pub create_steps : Uuid → List Step → Call (Unit {0})
create_steps id [] = pure tt
create_steps id (s ∷ ss) = do
  statement (
      Sql.create_operation_step
        (record s { operation_id = id; step_order = min s.step_order step_order_ceiling }))
  create_steps id ss

-- An insert that failed may have lost a race: then the winner is the answer, and else its error.
unfoldable pub or_raced : String → Call Operation → Call (Unit {0}) → Call Operation
or_raced key rest insert w = elim (insert w) [
  | done _ w' ↦ rest w'
  | failed e w' ↦ elim (statement (Sql.operation_by_idempotency_key key) w') [
    | done r v ↦ done (from_row r) v
    | failed _ v ↦ failed e v
  ]
]

abbrev pub read_created : Operation → List Step → Call Operation
read_created o steps = do
  create_steps o.id steps
  r ← statement (Sql.operation_by_id o.id)
  pure (from_row r)

abbrev pub clamped : Operation → Operation
clamped o = record o { max_retries = min o.max_retries max_retries_ceiling }

abbrev pub enqueue_new : Operation → List Step → Time → Option OperationRow → Call Operation
enqueue_new o steps at (some existing) = pure (from_row existing)
enqueue_new o steps at none =
    or_raced o.idempotency_key (read_created o steps)
      (statement (Sql.create_operation (clamped o) at))

-- `Enqueue`: the statements run one by one, in no transaction.
unfoldable pub enqueue : Operation → List Step → Time → Call Operation
unfolding create_steps or_raced
enqueue o steps at = do
  existing ← if_applied (statement (Sql.operation_by_idempotency_key o.idempotency_key))
  enqueue_new o steps at existing

unfoldable pub claim_queued : Time → Call (Option Operation)
claim_queued at = do r ← if_applied (statement (Sql.claim_queued_operation at)); pure (from_claim r)

unfoldable pub claim_retryable : Time → Call (Option Operation)
claim_retryable at = do
  r ← if_applied (statement (Sql.claim_retryable_operation at))
  pure (from_claim r)

unfoldable pub by_id : Uuid → Call Operation
by_id id = do
  r ← map_error (when_no_rows operation_not_found) (statement (Sql.operation_by_id id))
  pure (from_row r)

unfoldable pub by_idempotency_key : String → Call Operation
by_idempotency_key key = do
  r ←
      map_error (when_no_rows operation_not_found)
        (statement (Sql.operation_by_idempotency_key key))
  pure (from_row r)

unfoldable pub steps : Uuid → Call (List Step)
steps id = statement (Sql.steps_for_operation id)

unfoldable pub transition :
    Uuid
    → OperationStatus
    → OperationStatus
    → String
    → String
    → Option StepFailure
    → Time
    → Call Bool
transition id from to phase message_key failure at = do
  rows ← statement (
      Sql.transition_operation id from to (text_or_null phase) (text_or_null message_key)
        (failure_code failure) (failure_message failure) at)
  pure (rows == 1)

unfoldable pub to_retrying : Uuid → OperationStatus → Option StepFailure → ℕ → Time → Call Bool
unfolding backoff_for
to_retrying id from failure completed_attempts at = do
  rows ← statement (
      Sql.move_operation_to_retrying id from (add_duration at (backoff_for completed_attempts))
        (failure_code failure) (failure_message failure) at)
  pure (rows == 1)

unfoldable pub cancel : Uuid → Time → Call Bool
cancel id at = do rows ← statement (Sql.cancel_operation id at); pure (rows == 1)

unfoldable pub set_phase : Uuid → String → String → Time → Call (Unit {0})
set_phase id phase message_key at = do
  statement (Sql.set_operation_phase id (text_or_null phase) (text_or_null message_key) at)
  pure tt

unfoldable pub set_provider_operation : Uuid → String → Time → Call (Unit {0})
set_provider_operation id name at = do
  statement (Sql.set_operation_provider id (text_or_null name) at)
  pure tt

unfoldable pub start_step : Uuid → String → Time → Call Bool
start_step id key at = do rows ← statement (Sql.start_operation_step id key at); pure (rows == 1)

unfoldable pub sync_progress : Uuid → Time → Call (Unit {0})
sync_progress id at = do statement (Sql.sync_operation_progress id at); pure tt

unfoldable pub finish_step :
    Uuid → String → StepStatus → Option StepFailure → Time → Call (Unit {0})
unfolding sync_progress
finish_step id key status failure at = do
  statement
      (Sql.finish_operation_step id key status (failure_code failure) (failure_message failure) at)
  sync_progress id at

unfoldable pub open_by_resource : String → Uuid → Call (Option Operation)
open_by_resource resource_type resource_id = do
  r ← if_applied (statement (Sql.open_operation_by_resource resource_type resource_id))
  pure (from_claim r)
