-- ===== src/Operation/Tests.antt =====
-- Tests of the operations.
use vps_billing_workbuddy.Prelude.{
  ◌≡◌, ◌≤◌, ◌<◌, ◌-◌, ◌*◌, ◌^◌, ◌↔◌, ◌⊎◌, refl, true, false, none, some, [], ◌∷◌, length, All,
  arith,
}
use vps_billing_workbuddy.Errors.{statement_failed}
use vps_billing_workbuddy.Database.{
  World, done, failed, ◌>>=◌, if_applied, statement, pure, world_after,
}
use vps_billing_workbuddy.Machine.{Moves}
use vps_billing_workbuddy.Rows.{first_where, count_where}
use vps_billing_workbuddy.Operation.{
  OperationStatus, StepStatus, Step, operation_can_transition, operation_is_terminal, backoff_base,
  backoff_cap, backoff_for, progress_of,
}
use vps_billing_workbuddy.Operation.Tables.{OperationRow, Tables, is_valid}
use vps_billing_workbuddy.Operation.Sql.{has_id, is_step, derived_progress}
use vps_billing_workbuddy.Operation.Sql
use vps_billing_workbuddy.Operation.Store
use vps_billing_workbuddy.Operation.Store.{StepFailure, enqueue}
use vps_billing_workbuddy.Operation.Engine.{begin_step, classify}
use vps_billing_workbuddy.Operation.Samples.{
  noon, boot, boot_step, empty, running_boot, waiting_boot, one_row, one_row-IsSound,
}
use vps_billing_workbuddy.Operation.Backoff.{capped, backoff_for_lem}
use vps_billing_workbuddy.Operation.Progress.{IsDone, progress_of_lem, derived_progress_lem}
use vps_billing_workbuddy.Operation.Machine.{operation_terminal_iff}
use vps_billing_workbuddy.Operation.Cancellation.{cancel_iff, cancel-retrying}
use vps_billing_workbuddy.Operation.Attempts.{begin_step_iff}
use vps_billing_workbuddy.Operation.Requests.{enqueue_again}
use vps_billing_workbuddy.Operation.Failures.{HasFailed, IsWaiting, classify_lem}

fourth_delay : backoff_for 4 ≡ 16_000_000_000
unfolding backoff_for
fourth_delay = refl

backoff_for_example :
    (backoff_for 9 ≡ capped (backoff_base * 2 ^ (9 - 1)))
    × (backoff_base ≤ backoff_for 9)
    × (backoff_for 9 ≤ backoff_cap)
backoff_for_example = backoff_for_lem 9

abbrev skipped_step : Step
skipped_step = record boot_step { status = StepStatus.skipped }

progress_of_example :
    (progress_of (boot_step ∷ skipped_step ∷ []) ≤ 100)
    × ((progress_of (boot_step ∷ skipped_step ∷ []) ≡ 100) ↔ (
        (0 < length (boot_step ∷ skipped_step ∷ [])) × All IsDone (boot_step ∷ skipped_step ∷ [])))
progress_of_example = progress_of_lem (boot_step ∷ skipped_step ∷ [])

derived_progress_example :
    derived_progress (boot_step ∷ skipped_step ∷ []) ≡ progress_of (boot_step ∷ skipped_step ∷ [])
derived_progress_example = derived_progress_lem (boot_step ∷ skipped_step ∷ []) (refl, (refl, tt))

operation_terminal_example : (operation_is_terminal OperationStatus.verifying ≡ true) ↔ (
    (t : OperationStatus)
    → Moves operation_can_transition OperationStatus.verifying t
    → t ≡ OperationStatus.verifying)
operation_terminal_example = operation_terminal_iff OperationStatus.verifying

cancel_iff_example :
    ((v : World Tables) × (Store.cancel 7 noon (one_row running_boot) ≡ done true v)) ↔ (
      (operation_is_terminal OperationStatus.running ≡ false)
      × (running_boot.operation.error_code ≡ none))
unfolding first_where is_valid
cancel_iff_example =
    cancel_iff (one_row running_boot) 7 noon running_boot refl (one_row-IsSound running_boot refl)
      refl

cancel-retrying_example :
    Store.cancel 7 noon (one_row waiting_boot) ≡ failed statement_failed (one_row waiting_boot)
unfolding first_where is_valid
cancel-retrying_example =
    cancel-retrying (one_row waiting_boot) 7 noon waiting_boot "PROVIDER_UNREACHABLE" refl
      (one_row-IsSound waiting_boot refl) refl refl refl

begin_step_iff_example :
    ((v : World Tables) × (begin_step boot "boot" noon (one_row running_boot) ≡ done tt v))
    ↔ ((boot_step.status ≡ StepStatus.pending) ⊎ (boot_step.status ≡ StepStatus.failed))
unfolding first_where count_where
begin_step_iff_example =
    begin_step_iff boot "boot" noon (one_row running_boot) boot_step refl (omega arith) refl

abbrev requested : World Tables
requested = world_after (enqueue boot (boot_step ∷ []) noon empty)

abbrev overloaded : StepFailure
overloaded = record { code = "CAPACITY_UNAVAILABLE"; message = "no node"; retry = true }

classify_example :
    (v : World Tables) × (r' : OperationRow) × (classify running_boot.operation overloaded noon
        (one_row running_boot)
      ≡ done true v)
    × (first_where (has_id 7) v.db.operations ≡ some r')
    × ((((true ≡ false) ⊎ (2 ≤ 0)) × HasFailed overloaded noon running_boot r')
        ⊎ ((true ≡ true) × (0 < 2) × IsWaiting overloaded noon running_boot r'))
unfolding first_where is_valid
classify_example =
    classify_lem overloaded noon (one_row running_boot) running_boot refl
      (one_row-IsSound running_boot refl) refl refl

first_request : enqueue boot (boot_step ∷ []) noon empty ≡ done boot requested
unfolding enqueue ◌>>=◌ if_applied statement pure Sql.operation_by_idempotency_key
    Sql.create_operation Sql.create_operation_step Sql.operation_by_id Store.create_steps
    Store.or_raced count_where first_where
first_request = refl

enqueue_again_example :
    enqueue (record boot { id = 9; max_retries = 5 }) [] noon requested ≡ done boot requested
unfolding enqueue ◌>>=◌ if_applied statement pure Sql.operation_by_idempotency_key
    Sql.create_operation Sql.create_operation_step Sql.operation_by_id Store.create_steps
    Store.or_raced count_where first_where
enqueue_again_example =
    enqueue_again boot (record boot { id = 9; max_retries = 5 }) (boot_step ∷ []) [] noon noon empty
      requested requested boot first_request refl refl refl
