-- ===== src/Operation/Engine.antt =====
-- backend/internal/operation/service.go: the engine that runs claimed operations, and the handle that
-- it gives a runner. Reservations through the handle are the infrastructure store's calls, left out.
use vps_billing_workbuddy.Prelude.{
  ℕ, ◌+◌, String, Bool, true, false, not, ◌||◌, Option, none, some, List, [], ◌∷◌, leb, str_eq,
  if◌then◌else◌,
}
use vps_billing_workbuddy.Errors.{
  Result, ok, err, unknown_runner, no_idempotency_key, step_not_startable, refuse_if,
}
use vps_billing_workbuddy.Database.{World, done, ◌>>=◌, ◌>>◌, pure, lift, fresh, world_after}
use vps_billing_workbuddy.Ledger.{Uuid}
use vps_billing_workbuddy.Calendar.{Time}
use vps_billing_workbuddy.Operation.{OperationStatus, StepStatus, Operation, Step}
use vps_billing_workbuddy.Operation.Tables.{Tables}
use vps_billing_workbuddy.Operation.Store.{
  Call, StepFailure, transition, to_retrying, set_phase, start_step, finish_step,
}
use vps_billing_workbuddy.Operation.Store

-- What a run ends with when it fails: the context was cancelled or ran out, or a failure that the
-- runner classified, or any other error by its text.
pub data RunError : Type 0 where
  canceled deadline_exceeded : RunError
  failure : StepFailure → RunError
  other : String → RunError

-- `Runner`: one attempt, on the store that the handle writes to.
pub record Runner : Type 0 where
  pub steps : Operation → List String
  pub run : Operation → World Tables → Option RunError × World Tables

abbrev pub Runners : Type 0
Runners = String → Option Runner

abbrev found : Option Runner → Result Runner
found none = err unknown_runner
found (some r) = ok r

-- `runnerFor`
abbrev pub runner_for : Runners → String → Result Runner
runner_for runners name = found (runners name)

abbrev with_runner : Option Runner → Runners → String → Runner → Result Runners
with_runner (some existing) runners name r = err unknown_runner
with_runner none runners name r = ok λ n. if str_eq n name then some r else runners n

-- `Register`
unfoldable pub register : Runners → String → Runner → Result Runners
register runners name r = with_runner (runners name) runners name r

-- The handle `execution`, at the time of each call.
unfoldable pub phase : Operation → String → String → Time → Call (Unit {0})
phase o name message_key at = set_phase o.id name message_key at

unfoldable pub begin_step : Operation → String → Time → Call (Unit {0})
begin_step o key at = do
  started ← start_step o.id key at
  lift (refuse_if (not started) step_not_startable)

unfoldable pub succeed : Operation → String → Time → Call (Unit {0})
succeed o key at = finish_step o.id key StepStatus.succeeded none at

unfoldable pub skip : Operation → String → Time → Call (Unit {0})
skip o key at = finish_step o.id key StepStatus.skipped none at

unfoldable pub fail_step : Operation → String → StepFailure → Time → Call (Unit {0})
fail_step o key f at =
    finish_step o.id key StepStatus.failed
      (some (record { code = f.code; message = f.message; retry = false })) at

abbrev no_runner : StepFailure
no_runner = record {
  code = "OPERATION_NO_RUNNER";
  message = "no runner is registered for this operation type";
  retry = false;
}

abbrev pub interrupted : StepFailure
interrupted = record {
  code = "OPERATION_INTERRUPTED";
  message = "the worker is shutting down";
  retry = true;
}

-- The classification of the error that a run returned.
abbrev pub failure_of : RunError → StepFailure
failure_of RunError.canceled = interrupted
failure_of RunError.deadline_exceeded = interrupted
failure_of (RunError.failure f) = f
failure_of (RunError.other text) = record {
  code = "OPERATION_UNCLASSIFIED_FAILURE";
  message = text;
  retry = true;
}

abbrev pub recorded : StepFailure → Option StepFailure
recorded f = some (record { code = f.code; message = f.message; retry = false })

-- `classify`: the budget is spent, or the operation waits for its next attempt.
unfoldable pub classify : Operation → StepFailure → Time → Call Bool
classify o f at =
    if not f.retry || leb o.max_retries o.retry_count
    then transition o.id o.status OperationStatus.failed "" "" (recorded f) at
    else to_retrying o.id o.status (recorded f) (o.retry_count + 1) at

abbrev pub conclude_run : Operation → Time → Option RunError → Call Bool
conclude_run o at none = transition o.id o.status OperationStatus.succeeded "" "" none at
conclude_run o at (some e) = classify o (failure_of e) at

-- The run of a runner, and what the engine makes of its end.
abbrev pub run_with : Option Runner → Operation → Time → Call Bool
run_with none o at w = transition o.id o.status OperationStatus.failed "" "" (some no_runner) at w
run_with (some r) o at w = let (end, w') = r.run o w in conclude_run o at end w'

-- `execute`: what the last statement answers is logged and dropped.
unfoldable pub execute : Runners → Operation → Time → World Tables → World Tables
unfolding classify
execute runners o at w = world_after (run_with (runners o.type) o at w)

abbrev pub executed : Runners → Operation → Time → Call Bool
executed runners o at w = done true (execute runners o at w)

abbrev pub run_retry : Runners → Time → Option Operation → Call Bool
run_retry runners at none = pure false
run_retry runners at (some o) = executed runners o at

abbrev pub run_claimed : Runners → Time → Option Operation → Call Bool
run_claimed runners at (some o) = executed runners o at
run_claimed runners at none = do o ← Store.claim_retryable at; run_retry runners at o

-- `Tick`
unfoldable pub tick : Runners → Time → Call Bool
unfolding execute
tick runners at = do o ← Store.claim_queued at; run_claimed runners at o

module _ (new_uuid : ℕ → Uuid) (uuid_text : Uuid → String) where
  -- The steps of a new operation, each with an identifier that is drawn.
  unfoldable pub declare_steps : Uuid → List String → ℕ → Call (List Step)
  declare_steps id [] n = pure []
  declare_steps id (key ∷ keys) n = do
    step_id ← fresh new_uuid
    rest ← declare_steps id keys (n + 1)
    pure (
        record {
          id = step_id;
          operation_id = id;
          step_key = key;
          step_order = n;
          status = StepStatus.pending;
          progress = 0;
          attempt = 0;
          error_code = none;
          error_message = none;
          started_at = none;
          finished_at = none;
        }
        ∷ rest)

  abbrev trace_or_new : String → Call String
  trace_or_new trace =
      if str_eq trace "" then (do id ← fresh new_uuid; pure (uuid_text id)) else pure trace

  -- `Enqueue` of the engine, with its default retry budget.
  unfoldable pub enqueue :
      Runners → ℕ → String → String → Uuid → String → String → List String → Time → Call Operation
  unfolding declare_steps
  enqueue runners budget type resource_type resource_id key trace step_keys at = do
    runner ← lift (runner_for runners type)
    lift (refuse_if (str_eq key "") no_idempotency_key)
    trace_id ← trace_or_new trace
    id ← fresh new_uuid
    steps ← declare_steps id step_keys 1
    Store.enqueue
        (record {
          id = id;
          type = type;
          resource_type = resource_type;
          resource_id = resource_id;
          status = OperationStatus.queued;
          phase = none;
          progress = 0;
          message_key = none;
          provider_id = none;
          provider_operation_id = none;
          idempotency_key = key;
          retryable = false;
          retry_count = 0;
          max_retries = budget;
          error_code = none;
          error_message = none;
          trace_id = trace_id;
          started_at = none;
          finished_at = none;
          created_at = at;
        })
        steps at
