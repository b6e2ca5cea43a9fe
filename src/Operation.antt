-- ===== src/Operation.antt =====
-- backend/internal/operation: the machine of long-running operations, its back-off and progress
-- (operation.go). Its engine, store and statements are the child modules.
pub mod Tables
pub mod Sql
pub mod Store
pub mod Engine
pub mod Samples
pub mod Tests
pub mod Machine
pub mod Evolution
pub mod Attempts
pub mod Backoff
pub mod Cancellation
pub mod Updates
pub mod Progress
pub mod Failures
pub mod Requests
use vps_billing_workbuddy.Prelude.{
  ℕ, zero, suc, ◌+◌, ◌-◌, ◌*◌, ◌/◌, String, Bool, true, false, ◌||◌, Option, List, [], ◌∷◌, length,
  ltb, leb, ◌==◌, if◌then◌else◌,
}
use vps_billing_workbuddy.Calendar.{Time}
use vps_billing_workbuddy.Ledger.{Uuid}

pub data OperationStatus : Type 0 where
  queued running waiting_provider waiting_resource verifying retrying succeeded failed cancelled :
      OperationStatus

pub data StepStatus : Type 0 where
  pending running succeeded failed skipped : StepStatus

-- The position in `OperationStatuses()`, by which statuses are compared.
abbrev operation_index : OperationStatus → ℕ
operation_index OperationStatus.queued = 0
operation_index OperationStatus.running = 1
operation_index OperationStatus.waiting_provider = 2
operation_index OperationStatus.waiting_resource = 3
operation_index OperationStatus.verifying = 4
operation_index OperationStatus.retrying = 5
operation_index OperationStatus.succeeded = 6
operation_index OperationStatus.failed = 7
operation_index OperationStatus.cancelled = 8

abbrev step_index : StepStatus → ℕ
step_index StepStatus.pending = 0
step_index StepStatus.running = 1
step_index StepStatus.succeeded = 2
step_index StepStatus.failed = 3
step_index StepStatus.skipped = 4

abbrev pub operation_eq : OperationStatus → OperationStatus → Bool
operation_eq a b = operation_index a == operation_index b

abbrev pub step_eq : StepStatus → StepStatus → Bool
step_eq a b = step_index a == step_index b

-- `operationTransitions`
operation_transitions : OperationStatus → List OperationStatus
operation_transitions OperationStatus.queued =
    OperationStatus.running ∷ OperationStatus.cancelled ∷ []
operation_transitions OperationStatus.running =
    OperationStatus.waiting_provider ∷ OperationStatus.waiting_resource ∷ OperationStatus.verifying
    ∷ OperationStatus.retrying ∷ OperationStatus.succeeded ∷ OperationStatus.failed
    ∷ OperationStatus.cancelled ∷ []
operation_transitions OperationStatus.waiting_provider =
    OperationStatus.running ∷ OperationStatus.retrying ∷ OperationStatus.failed
    ∷ OperationStatus.cancelled ∷ []
operation_transitions OperationStatus.waiting_resource =
    OperationStatus.running ∷ OperationStatus.retrying ∷ OperationStatus.failed
    ∷ OperationStatus.cancelled ∷ []
operation_transitions OperationStatus.verifying =
    OperationStatus.succeeded ∷ OperationStatus.retrying ∷ OperationStatus.failed
    ∷ OperationStatus.cancelled ∷ []
operation_transitions OperationStatus.retrying =
    OperationStatus.running ∷ OperationStatus.failed ∷ OperationStatus.cancelled ∷ []
operation_transitions _ = []

-- The loop over the allowed moves.
is_listed : List OperationStatus → OperationStatus → Bool
is_listed [] to = false
is_listed (next ∷ rest) to = operation_eq next to || is_listed rest to

unfoldable pub operation_can_transition : OperationStatus → OperationStatus → Bool
unfolding is_listed operation_transitions
operation_can_transition from to = is_listed (operation_transitions from) to

unfoldable pub operation_is_terminal : OperationStatus → Bool
operation_is_terminal OperationStatus.succeeded = true
operation_is_terminal OperationStatus.failed = true
operation_is_terminal OperationStatus.cancelled = true
operation_is_terminal _ = false

abbrev pub second : ℕ
second = 1_000_000_000

-- `2 * time.Second`
abbrev pub backoff_base : ℕ
backoff_base = 2 * second

-- `60 * time.Second`
abbrev pub backoff_cap : ℕ
backoff_cap = 60 * second

-- The loop: `n` doublings to come, and the early return at the cap.
double : ℕ → ℕ → ℕ
double zero delay = delay
double (suc n) delay = elim (leb backoff_cap (delay * 2)) [
  | true ↦ backoff_cap
  | false ↦ double n (delay * 2)
]

-- `BackoffFor`, in nanoseconds; an attempt below 1 counts as the first.
unfoldable pub backoff_for : ℕ → ℕ
unfolding double
backoff_for attempt = double (attempt - 1) backoff_base

pub record Operation : Type 0 where
  pub id : Uuid
  pub type : String
  pub resource_type : String
  pub resource_id : Uuid
  pub status : OperationStatus
  pub phase : Option String
  pub progress : ℕ
  pub message_key : Option String
  pub provider_id : Option Uuid
  pub provider_operation_id : Option String
  pub idempotency_key : String
  pub retryable : Bool
  pub retry_count : ℕ
  pub max_retries : ℕ
  pub error_code : Option String
  pub error_message : Option String
  pub trace_id : String
  pub started_at : Option Time
  pub finished_at : Option Time
  pub created_at : Time

pub record Step : Type 0 where
  pub id : Uuid
  pub operation_id : Uuid
  pub step_key : String
  pub step_order : ℕ
  pub status : StepStatus
  pub progress : ℕ
  pub attempt : ℕ
  pub error_code : Option String
  pub error_message : Option String
  pub started_at : Option Time
  pub finished_at : Option Time

abbrev pub is_done : StepStatus → Bool
is_done StepStatus.succeeded = true
is_done StepStatus.skipped = true
is_done _ = false

-- The loop of `ProgressOf`.
count_done : List Step → ℕ
count_done [] = 0
count_done (s ∷ ss) = let rest = count_done ss in if is_done s.status then suc rest else rest

unfoldable pub progress_of : List Step → ℕ
unfolding count_done
progress_of [] = 0
progress_of (s ∷ ss) = count_done (s ∷ ss) * 100 / length (s ∷ ss)
