-- ===== src/Operation/Tables.antt =====
-- The rows of the operation system (backend/migrations/0007_operations.up.sql): an operation with the
-- columns that only statements read, and the CHECK constraints of the table.
use vps_billing_workbuddy.Prelude.{String, Bool, true, false, ◌&&◌, Option, none, some, List, leb}
use vps_billing_workbuddy.Calendar.{Time}
use vps_billing_workbuddy.Operation.{OperationStatus, Operation, Step, operation_is_terminal}

pub record OperationRow : Type 0 where
  pub operation : Operation
  pub run_after : Option Time
  pub updated_at : Time

pub record Tables : Type 0 where
  pub operations : List OperationRow
  pub steps : List Step

abbrev pub is_null : {A : Type 0} → Option A → Bool
is_null none = true
is_null (some a) = false

abbrev same : Bool → Bool → Bool
same true b = b
same false true = false
same false false = true

-- `operations_failure_has_a_code`
abbrev pub failure_has_a_code : OperationStatus → Option String → Bool
failure_has_a_code OperationStatus.failed none = false
failure_has_a_code OperationStatus.failed (some code) = true
failure_has_a_code OperationStatus.retrying code = true
failure_has_a_code _ code = is_null code

-- `operations_finished_at_matches_status`
abbrev pub finished_at_matches : OperationStatus → Option Time → Bool
finished_at_matches s none = same (operation_is_terminal s) false
finished_at_matches s (some at) = operation_is_terminal s

-- The constraints of a row, with the bound on its progress.
unfoldable pub is_valid : OperationRow → Bool
unfolding operation_is_terminal
is_valid r =
    failure_has_a_code r.operation.status r.operation.error_code
    && finished_at_matches r.operation.status r.operation.finished_at
    && leb r.operation.progress 100
