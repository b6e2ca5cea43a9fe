-- ===== src/Operation/Sql/Steps.antt =====
-- The statements on `operation_steps` (backend/internal/db/sqlcgen/operations.sql.go).
use vps_billing_workbuddy.Prelude.{
  ℕ, ◌+◌, ◌/◌, String, Bool, ◌&&◌, ◌||◌, Option, none, some, List, [], ◌∷◌, ◌++◌, length, leb, ◌==◌,
  str_eq, if◌then◌else◌,
}
use vps_billing_workbuddy.Errors.{Result, ok}
use vps_billing_workbuddy.Database.{insert_unless}
use vps_billing_workbuddy.Ledger.{Uuid}
use vps_billing_workbuddy.Calendar.{Time}
use vps_billing_workbuddy.Rows.{all_where, update_where, count_where}
use vps_billing_workbuddy.Operation.{StepStatus, Step, step_eq, is_done}
use vps_billing_workbuddy.Operation.Tables.{Tables}

-- The row is the operation's step of that name.
abbrev pub is_step : Uuid → String → Step → Bool
is_step operation key s = s.operation_id == operation && str_eq s.step_key key

unfoldable pub create_operation_step : Step → Tables → Result (Unit {0} × Tables)
create_operation_step s t =
    insert_unless
      (count_where (λ (r : Step). r.id == s.id || is_step s.operation_id s.step_key r) t.steps)
      "operation_steps_operation_id_step_key_key"
      (record t {
        steps =
            t.steps
            ++ record s {
              status = StepStatus.pending;
              progress = 0;
              attempt = 0;
              error_code = none;
              error_message = none;
              started_at = none;
              finished_at = none;
            }
              ∷ [];
      })

-- The steps of an operation; the query orders them by `step_order`.
abbrev insert_step : Step → List Step → List Step
insert_step s [] = s ∷ []
insert_step s (x ∷ xs) = if leb s.step_order x.step_order then s ∷ x ∷ xs else x ∷ insert_step s xs

abbrev in_order : List Step → List Step
in_order [] = []
in_order (s ∷ ss) = insert_step s (in_order ss)

unfoldable pub steps_for_operation : Uuid → Tables → Result (List Step × Tables)
steps_for_operation id t = ok (in_order (all_where (λ (s : Step). s.operation_id == id) t.steps), t)

-- The rows that `StartOperationStep` matches: the step, pending or failed.
abbrev pub is_startable : Uuid → String → Step → Bool
is_startable operation key s =
    is_step operation key s
    && (step_eq s.status StepStatus.pending || step_eq s.status StepStatus.failed)

abbrev pub started : Time → Step → Step
started at s = record s {
  status = StepStatus.running;
  attempt = s.attempt + 1;
  started_at = some at;
}

unfoldable pub start_operation_step : Uuid → String → Time → Tables → Result (ℕ × Tables)
start_operation_step operation key at t = ok (
  count_where (is_startable operation key) t.steps,
  record t { steps = update_where (is_startable operation key) (started at) t.steps },
)

abbrev pub is_running_step : Uuid → String → Step → Bool
is_running_step operation key s = is_step operation key s && step_eq s.status StepStatus.running

abbrev pub finished : StepStatus → Option String → Option String → Time → Step → Step
finished status code message at s = record s {
  status = status;
  error_code = code;
  error_message = message;
  finished_at = some at;
}

unfoldable pub finish_operation_step :
    Uuid → String → StepStatus → Option String → Option String → Time → Tables → Result (ℕ × Tables)
finish_operation_step operation key status code message at t = ok (
  count_where (is_running_step operation key) t.steps,
  record t {
    steps = update_where (is_running_step operation key) (finished status code message at) t.steps;
  },
)

-- SUM(CASE WHEN status IN ('succeeded', 'skipped') THEN 100 ELSE progress END)
unfoldable pub sum_progress : List Step → ℕ
sum_progress [] = 0
sum_progress (s ∷ ss) = (if is_done s.status then 100 else s.progress) + sum_progress ss

-- The subquery: the sum over GREATEST(count(*), 1), and 0 where there is no step.
unfoldable pub derived_progress : List Step → ℕ
unfolding sum_progress
derived_progress [] = 0
derived_progress (s ∷ ss) = sum_progress (s ∷ ss) / length (s ∷ ss)
