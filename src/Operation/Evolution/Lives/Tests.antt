-- ===== src/Operation/Evolution/Lives/Tests.antt =====
-- Tests of whole lives: a runner of one step, a request, a tick and a cancellation.
use vps_billing_workbuddy.Prelude.{
  ◌≡◌, refl, Option, none, some, [], ◌∷◌, str_eq, if◌then◌else◌, Bool-cases, inl, inr, arith,
}
use vps_billing_workbuddy.Database.{
  World, Outcome, done, failed, ◌>>=◌, ◌>>◌, lift, pure, statement, if_applied, world_after,
}
use vps_billing_workbuddy.Calendar.{instant}
use vps_billing_workbuddy.Rows.{first_where, count_where, update_where, all_where}
use vps_billing_workbuddy.Operation.{OperationStatus, StepStatus, Operation, operation_is_terminal}
use vps_billing_workbuddy.Operation.Tables.{OperationRow, Tables, is_valid}
use vps_billing_workbuddy.Operation.Sql.{has_id}
use vps_billing_workbuddy.Operation.Sql
use vps_billing_workbuddy.Operation.Store
use vps_billing_workbuddy.Operation.Store.{Call}
use vps_billing_workbuddy.Operation.Engine.{
  execute, RunError, Runner, Runners, begin_step, succeed, tick,
}
use vps_billing_workbuddy.Operation.Samples.{
  noon, boot, boot_step, empty, empty-IsSound, one_row, one_row-IsSound, cancelled_boot,
}
use vps_billing_workbuddy.Operation.Evolution.{Keeps, Evolves, IsSound, >>=-Keeps, lift-Keeps}
use vps_billing_workbuddy.Operation.Evolution.Calls.{start_step-Keeps, finish_step-Keeps}
use vps_billing_workbuddy.Operation.Evolution.Ticks.{IsLawful, AreLawful}
use vps_billing_workbuddy.Operation.Evolution.Lives.{
  start, enqueued, cancelled, ticked, runs_lem, finished_forever,
}

abbrev end_of : Outcome Tables (Unit {0}) → Option RunError
end_of (done _ w) = none
end_of (failed e w) = some RunError.canceled

abbrev one_step : Operation → Call (Unit {0})
one_step o = begin_step o "boot" noon >> succeed o "boot" noon

abbrev booting : Runner
booting = record {
  steps = λ o. "boot" ∷ [];
  run = λ o w. (end_of (one_step o w), world_after (one_step o w));
}

abbrev runners : Runners
runners name = if str_eq name "instance.boot" then some booting else none

one_step-Keeps : (o : Operation) → Keeps (one_step o)
unfolding begin_step succeed
one_step-Keeps o =
    >>=-Keeps _ _ (>>=-Keeps _ _ (start_step-Keeps o.id "boot" noon) λ b. lift-Keeps _)
      λ u. finish_step-Keeps o.id "boot" StepStatus.succeeded none noon

booting-IsLawful : IsLawful booting
booting-IsLawful = record { lawful = λ o w h. (one_step-Keeps o).respects w }

runners-AreLawful : AreLawful runners
runners-AreLawful name r e = elim (Bool-cases (str_eq name "instance.boot")) [
  | inl hit ↦ let same : booting ≡ r = ground arith in rw (← same) booting-IsLawful
  | inr miss ↦ ground arith
]

abbrev requested : World Tables
requested = world_after (Store.enqueue boot (boot_step ∷ []) noon empty)

abbrev worked : World Tables
worked = world_after (tick runners noon requested)

worked_is :
    first_where (has_id 7) worked.db.operations
    ≡ some (record {
      operation = record boot {
        status = OperationStatus.succeeded;
        progress = 100;
        started_at = some noon;
        finished_at = some noon;
      };
      run_after = none;
      updated_at = noon;
    })
unfolding tick ◌>>=◌ lift Store.claim_queued if_applied statement Store.enqueue
    Sql.operation_by_idempotency_key Sql.create_operation count_where Sql.create_operation_step pure
    Sql.operation_by_id Sql.claim_queued_operation Sql.least_where is_valid begin_step succeed
    first_where instant execute Sql.update_operations Sql.start_operation_step Store.create_steps
    Store.or_raced Store.start_step Store.transition Store.finish_step Store.sync_progress
    operation_is_terminal update_where Sql.transition_operation Sql.finish_operation_step
    Sql.sync_operation_progress Sql.derived_progress Sql.sum_progress all_where
worked_is = refl

runs_lem_example : IsSound worked.db × Evolves empty.db.operations worked.db.operations
runs_lem_example =
    runs_lem runners empty worked runners-AreLawful empty-IsSound
      (ticked (enqueued start boot (boot_step ∷ []) noon) noon)

finished_forever_example :
    (r : OperationRow) × (first_where
        (has_id 7)
        (world_after (Store.cancel 7 noon (one_row cancelled_boot))).db.operations
      ≡ some r)
    × (r.operation.status ≡ OperationStatus.cancelled)
unfolding first_where operation_is_terminal is_valid
finished_forever_example =
    finished_forever runners (one_row cancelled_boot)
      (world_after (Store.cancel 7 noon (one_row cancelled_boot))) 7 cancelled_boot
      runners-AreLawful (one_row-IsSound cancelled_boot refl) (cancelled start 7 noon) refl refl
