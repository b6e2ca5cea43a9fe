-- ===== src/Operation/Sql/Operations.antt =====
-- The statements on `operations` (backend/internal/db/sqlcgen/operations.sql.go). An UPDATE that would
-- break a CHECK constraint of a row is refused as a whole. Rows of equal age are taken in the order of
-- the table.
use vps_billing_workbuddy.Prelude.{
  ℕ, ◌+◌, String, Bool, true, false, not, ◌&&◌, ◌||◌, Option, none, some, List, [], ◌∷◌, ◌++◌, leb,
  ◌==◌, str_eq, if◌then◌else◌,
}
use vps_billing_workbuddy.Errors.{Result, ok, err, no_rows, statement_failed}
use vps_billing_workbuddy.Database.{one_row, insert_unless}
use vps_billing_workbuddy.Ledger.{Uuid}
use vps_billing_workbuddy.Calendar.{Time, instant}
use vps_billing_workbuddy.Rows.{first_where, all_where, update_where, count_where}
use vps_billing_workbuddy.Operation.{
  OperationStatus, Operation, Step, operation_eq, operation_is_terminal,
}
use vps_billing_workbuddy.Operation.Tables.{OperationRow, Tables, is_valid}
use vps_billing_workbuddy.Operation.Sql.Steps.{derived_progress}

abbrev pub has_id : Uuid → OperationRow → Bool
has_id id r = r.operation.id == id

abbrev pub in_state : OperationStatus → OperationRow → Bool
in_state s r = operation_eq r.operation.status s

-- The row is of the operation, in the state that the caller saw.
abbrev pub is_seen : Uuid → OperationStatus → OperationRow → Bool
is_seen id from r = has_id id r && in_state from r

-- Every updated row keeps the constraints.
abbrev pub all_valid :
    (OperationRow → Bool) → (OperationRow → OperationRow) → List OperationRow → Bool
all_valid test change [] = true
all_valid test change (r ∷ rs) = (not (test r) || is_valid (change r)) && all_valid test change rs

-- UPDATE operations SET … WHERE …, with the number of rows.
unfoldable pub update_operations :
    (OperationRow → Bool) → (OperationRow → OperationRow) → Tables → Result (ℕ × Tables)
update_operations test change t =
    if all_valid test change t.operations
    then ok (
      count_where test t.operations,
      record t { operations = update_where test change t.operations },
    )
    else err statement_failed

-- ORDER BY … LIMIT 1: the least row by a key, the first of equals.
abbrev sooner : (OperationRow → ℕ) → OperationRow → Option OperationRow → OperationRow
sooner key r none = r
sooner key r (some s) = if leb (key r) (key s) then r else s

unfoldable pub least_where :
    (OperationRow → ℕ) → (OperationRow → Bool) → List OperationRow → Option OperationRow
least_where key test [] = none
least_where key test (r ∷ rs) = elim (test r) [
  | true ↦ some (sooner key r (least_where key test rs))
  | false ↦ least_where key test rs
]

-- UPDATE … WHERE id = (SELECT …) RETURNING: no row where the query selects none.
abbrev pub claim :
    Option OperationRow → (OperationRow → OperationRow) → Tables → Result (OperationRow × Tables)
claim none change t = err no_rows
claim (some r) change t =
    if all_valid (has_id r.operation.id) change t.operations
    then ok (
      change r,
      record t { operations = update_where (has_id r.operation.id) change t.operations },
    )
    else err statement_failed

abbrev pub claimed : Time → OperationRow → OperationRow
claimed at r = record r {
  operation = record r.operation { status = OperationStatus.running; started_at = some at };
  updated_at = at;
}

unfoldable pub claim_queued_operation : Time → Tables → Result (OperationRow × Tables)
claim_queued_operation at t =
    claim
      (least_where (λ (r : OperationRow). instant r.operation.created_at)
        (in_state OperationStatus.queued) t.operations)
      (claimed at) t

abbrev or_else : {A : Type 0} → Option A → A → A
or_else none a = a
or_else (some b) a = b

abbrev pub reclaimed : Time → OperationRow → OperationRow
reclaimed at r = record r {
  operation = record r.operation {
    status = OperationStatus.running;
    started_at = some (or_else r.operation.started_at at);
    error_code = none;
    error_message = none;
  };
  updated_at = at;
}

-- A retry that is parked until a moment is due when the moment has come; NULL is never due.
abbrev is_due : Option Time → Time → Bool
is_due none at = false
is_due (some after) at = leb (instant after) (instant at)

abbrev pub is_retryable : Time → OperationRow → Bool
is_retryable at r = in_state OperationStatus.retrying r && is_due r.run_after at

unfoldable pub claim_retryable_operation : Time → Tables → Result (OperationRow × Tables)
claim_retryable_operation at t =
    claim (least_where (λ (r : OperationRow). instant r.updated_at) (is_retryable at) t.operations)
      (reclaimed at) t

-- The new operation is queued, and the columns that the statement leaves out have their defaults.
abbrev pub created : Operation → Time → OperationRow
created o at = record {
  operation = record o {
    status = OperationStatus.queued;
    phase = none;
    progress = 0;
    message_key = none;
    provider_id = none;
    provider_operation_id = none;
    retryable = false;
    retry_count = 0;
    error_code = none;
    error_message = none;
    started_at = none;
    finished_at = none;
    created_at = at;
  };
  run_after = none;
  updated_at = at;
}

abbrev pub has_key : String → OperationRow → Bool
has_key key r = str_eq r.operation.idempotency_key key

unfoldable pub create_operation : Operation → Time → Tables → Result (Unit {0} × Tables)
create_operation o at t =
    insert_unless
      (count_where (λ (r : OperationRow). has_id o.id r || has_key o.idempotency_key r)
        t.operations)
      "operations_idempotency_key_key" (record t { operations = t.operations ++ created o at ∷ [] })

unfoldable pub operation_by_id : Uuid → Tables → Result (OperationRow × Tables)
operation_by_id id t = one_row (first_where (has_id id) t.operations) t

unfoldable pub operation_by_idempotency_key : String → Tables → Result (OperationRow × Tables)
operation_by_idempotency_key key t = one_row (first_where (has_key key) t.operations) t

abbrev finish_time : OperationStatus → Time → Option Time → Option Time
finish_time to at finished = if operation_is_terminal to then some at else finished

abbrev pub moved :
    OperationStatus
    → Option String
    → Option String
    → Option String
    → Option String
    → Time
    → OperationRow
    → OperationRow
moved to phase message_key code message at r = record r {
  operation = record r.operation {
    status = to;
    phase = phase;
    message_key = message_key;
    error_code = code;
    error_message = message;
    finished_at = finish_time to at r.operation.finished_at;
  };
  updated_at = at;
}

unfoldable pub transition_operation :
    Uuid
    → OperationStatus
    → OperationStatus
    → Option String
    → Option String
    → Option String
    → Option String
    → Time
    → Tables
    → Result (ℕ × Tables)
unfolding update_operations
transition_operation id from to phase message_key code message at t =
    update_operations (is_seen id from) (moved to phase message_key code message at) t

abbrev pub parked : Time → Option String → Option String → Time → OperationRow → OperationRow
parked run_after code message at r = record r {
  operation = record r.operation {
    status = OperationStatus.retrying;
    retry_count = r.operation.retry_count + 1;
    error_code = code;
    error_message = message;
  };
  run_after = some run_after;
  updated_at = at;
}

unfoldable pub move_operation_to_retrying :
    Uuid
    → OperationStatus
    → Time
    → Option String
    → Option String
    → Time
    → Tables
    → Result (ℕ × Tables)
unfolding update_operations
move_operation_to_retrying id from run_after code message at t =
    update_operations (is_seen id from) (parked run_after code message at) t

-- The rows that `CancelOperation` matches, and the row that it makes.
abbrev pub is_cancellable : Uuid → OperationRow → Bool
is_cancellable id r =
    has_id id r
    && (in_state OperationStatus.queued r
        || in_state OperationStatus.running r
        || in_state OperationStatus.waiting_provider r
        || in_state OperationStatus.waiting_resource r
        || in_state OperationStatus.verifying r
        || in_state OperationStatus.retrying r)

abbrev pub cancelled_row : Time → OperationRow → OperationRow
cancelled_row at r = record r {
  operation = record r.operation { status = OperationStatus.cancelled; finished_at = some at };
  updated_at = at;
}

unfoldable pub cancel_operation : Uuid → Time → Tables → Result (ℕ × Tables)
unfolding update_operations
cancel_operation id at t = update_operations (is_cancellable id) (cancelled_row at) t

abbrev pub with_phase : Option String → Option String → Time → OperationRow → OperationRow
with_phase phase message_key at r = record r {
  operation = record r.operation { phase = phase; message_key = message_key };
  updated_at = at;
}

unfoldable pub set_operation_phase :
    Uuid → Option String → Option String → Time → Tables → Result (ℕ × Tables)
unfolding update_operations
set_operation_phase id phase message_key at t =
    update_operations (has_id id) (with_phase phase message_key at) t

abbrev pub with_provider : Option String → Time → OperationRow → OperationRow
with_provider name at r = record r {
  operation = record r.operation { provider_operation_id = name };
  updated_at = at;
}

unfoldable pub set_operation_provider : Uuid → Option String → Time → Tables → Result (ℕ × Tables)
unfolding update_operations
set_operation_provider id name at t = update_operations (has_id id) (with_provider name at) t

abbrev pub with_progress : ℕ → Time → OperationRow → OperationRow
with_progress n at r = record r { operation = record r.operation { progress = n }; updated_at = at }

unfoldable pub sync_operation_progress : Uuid → Time → Tables → Result (ℕ × Tables)
unfolding update_operations derived_progress
sync_operation_progress id at t =
    update_operations (has_id id)
      (with_progress (derived_progress (all_where (λ (s : Step). s.operation_id == id) t.steps)) at)
      t

abbrev is_open : OperationRow → Bool
is_open r =
    in_state OperationStatus.queued r
    || in_state OperationStatus.running r
    || in_state OperationStatus.waiting_provider r
    || in_state OperationStatus.waiting_resource r
    || in_state OperationStatus.verifying r
    || in_state OperationStatus.retrying r

-- ORDER BY created_at DESC LIMIT 1: the latest row, the first of equals.
abbrev later : (OperationRow → ℕ) → OperationRow → Option OperationRow → OperationRow
later key r none = r
later key r (some s) = if leb (key s) (key r) then r else s

abbrev latest_where :
    (OperationRow → ℕ) → (OperationRow → Bool) → List OperationRow → Option OperationRow
latest_where key test [] = none
latest_where key test (r ∷ rs) = elim (test r) [
  | true ↦ some (later key r (latest_where key test rs))
  | false ↦ latest_where key test rs
]

unfoldable pub open_operation_by_resource : String → Uuid → Tables → Result (OperationRow × Tables)
open_operation_by_resource resource_type resource_id t =
    one_row
      (latest_where (λ (r : OperationRow). instant r.operation.created_at)
        (λ (r : OperationRow).
          str_eq r.operation.resource_type resource_type
          && r.operation.resource_id == resource_id
          && is_open r)
        t.operations)
      t
