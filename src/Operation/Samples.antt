-- ===== src/Operation/Samples.antt =====
-- Operations and tables that the tests share.
use vps_billing_workbuddy.Prelude.{
  ◌≡◌, true, false, none, some, [], ◌∷◌, Bool-cases, inl, inr, arith,
}
use vps_billing_workbuddy.Database.{World}
use vps_billing_workbuddy.Calendar.{Time}
use vps_billing_workbuddy.Rows.{count_where}
use vps_billing_workbuddy.Operation.{OperationStatus, StepStatus, Operation, Step}
use vps_billing_workbuddy.Operation.Tables.{OperationRow, Tables, is_valid}
use vps_billing_workbuddy.Operation.Sql.{has_id, has_key}
use vps_billing_workbuddy.Operation.Evolution.{IsSound}

abbrev pub noon : Time
noon = record { year = 2026; month = 1; day = 10; nanos = 0 }

abbrev pub boot : Operation
boot = record {
  id = 7;
  type = "instance.boot";
  resource_type = "instance";
  resource_id = 3;
  status = OperationStatus.queued;
  phase = none;
  progress = 0;
  message_key = none;
  provider_id = none;
  provider_operation_id = none;
  idempotency_key = "boot-3";
  retryable = false;
  retry_count = 0;
  max_retries = 2;
  error_code = none;
  error_message = none;
  trace_id = "t";
  started_at = none;
  finished_at = none;
  created_at = noon;
}

abbrev pub boot_step : Step
boot_step = record {
  id = 8;
  operation_id = 7;
  step_key = "boot";
  step_order = 1;
  status = StepStatus.pending;
  progress = 0;
  attempt = 0;
  error_code = none;
  error_message = none;
  started_at = none;
  finished_at = none;
}

abbrev pub empty : World Tables
empty = record { db = record { operations = []; steps = [] }; faults = []; drawn = 0 }

-- The operation, when its attempt runs, and when it waits for the next one after a failure.
abbrev pub running_boot : OperationRow
running_boot = record {
  operation = record boot { status = OperationStatus.running; started_at = some noon };
  run_after = none;
  updated_at = noon;
}

abbrev pub waiting_boot : OperationRow
waiting_boot = record {
  operation = record boot {
    status = OperationStatus.retrying;
    started_at = some noon;
    retry_count = 1;
    error_code = some "PROVIDER_UNREACHABLE";
    error_message = some "timeout";
  };
  run_after = some noon;
  updated_at = noon;
}

abbrev pub cancelled_boot : OperationRow
cancelled_boot = record {
  operation = record boot { status = OperationStatus.cancelled; finished_at = some noon };
  run_after = none;
  updated_at = noon;
}

-- A table of one operation, with its step.
abbrev pub one_row : OperationRow → World Tables
one_row r = record {
  db = record { operations = r ∷ []; steps = boot_step ∷ [] };
  faults = [];
  drawn = 0;
}

pub empty-IsSound : IsSound empty.db
unfolding count_where
empty-IsSound = record { valid = tt; distinct = λ id. omega arith; keyed = λ key. omega arith }

pub one_row-IsSound : (r : OperationRow) → is_valid r ≡ true → IsSound (one_row r).db
unfolding count_where
one_row-IsSound r h = record {
  valid = (h, tt);
  distinct =
      λ id. elim (Bool-cases (has_id id r)) [ inl hit ↦ ground arith | inr miss ↦ ground arith ];
  keyed =
      λ key. elim (Bool-cases (has_key key r)) [ inl hit ↦ ground arith | inr miss ↦ ground arith ];
}
