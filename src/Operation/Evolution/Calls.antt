-- ===== src/Operation/Evolution/Calls.antt =====
-- The calls of the store keep the table of operations sound, and move its rows as the
-- machine allows (storage/operation/store.go).
use vps_billing_workbuddy.Prelude.{
  ℕ, ◌≡◌, sym, true, Option, none, some, List, [], ◌∷◌, String, inl, inr,
}
use vps_billing_workbuddy.Errors.{Result, ok}
use vps_billing_workbuddy.Database.{
  statement, ok_pair, inserted, one_row, world_after, Outcome-cases,
}
use vps_billing_workbuddy.Ledger.{Uuid}
use vps_billing_workbuddy.Calendar.{Time}
use vps_billing_workbuddy.Operation.{
  OperationStatus, StepStatus, Operation, Step, operation_can_transition,
}
use vps_billing_workbuddy.Operation.Tables.{OperationRow, Tables}
use vps_billing_workbuddy.Operation.Sql
use vps_billing_workbuddy.Operation.Store
use vps_billing_workbuddy.Operation.Store.{StepFailure, Call}
use vps_billing_workbuddy.Operation.Evolution.{
  Follows-chain, Keeps, pure-Keeps, statement-Keeps, query-Keeps, if_applied-Keeps, >>=-Keeps,
}
use vps_billing_workbuddy.Operation.Evolution.Statements.{
  transition_operation-Follows, move_operation_to_retrying-Follows, cancel_operation-Follows,
  set_operation_phase-Follows, sync_operation_progress-Follows, same_operations-Follows,
}
use vps_billing_workbuddy.Operation.Evolution.Claims.{
  claim_queued_operation-Follows, claim_retryable_operation-Follows, create_operation-Follows,
}

one_row-kept :
    {A : Type 0} (o : Option A) (t t' : Tables) (a : A) → one_row o t ≡ ok (a, t') → t' ≡ t
one_row-kept none t t' a e = cc
one_row-kept (some x) t t' a e = sym (ok_pair e).1

-- A statement on the steps alone.
step_statement-Keeps :
    {A : Type 0} (f : Tables → Result (A × Tables)) (written : Tables → List Step)
    → ((t t' : Tables) (a : A) → f t ≡ ok (a, t') → t' ≡ record t { steps = written t })
    → Keeps (statement f)
step_statement-Keeps f written h =
    statement-Keeps f λ t t' a e. rw (h t t' a e) (same_operations-Follows t (written t))

pub start_step-Keeps : (id : Uuid) (key : String) (at : Time) → Keeps (Store.start_step id key at)
unfolding Store.start_step Sql.start_operation_step
start_step-Keeps id key at =
    >>=-Keeps _ _ (step_statement-Keeps _ _ λ t t' a e. sym (ok_pair e).1) λ n. pure-Keeps _

pub sync_progress-Keeps : (id : Uuid) (at : Time) → Keeps (Store.sync_progress id at)
unfolding Store.sync_progress
sync_progress-Keeps id at =
    >>=-Keeps _ _ (statement-Keeps _ (sync_operation_progress-Follows id at)) λ n. pure-Keeps _

pub finish_step-Keeps :
    (id : Uuid) (key : String) (status : StepStatus) (f : Option StepFailure) (at : Time)
    → Keeps (Store.finish_step id key status f at)
unfolding Store.finish_step Sql.finish_operation_step
finish_step-Keeps id key status f at =
    >>=-Keeps _ _ (step_statement-Keeps _ _ λ t t' a e. sym (ok_pair e).1)
      λ n. sync_progress-Keeps id at

pub set_phase-Keeps :
    (id : Uuid) (phase message_key : String) (at : Time)
    → Keeps (Store.set_phase id phase message_key at)
unfolding Store.set_phase
set_phase-Keeps id phase message_key at =
    >>=-Keeps _ _ (statement-Keeps _ (set_operation_phase-Follows id _ _ at)) λ n. pure-Keeps _

pub cancel-Keeps : (id : Uuid) (at : Time) → Keeps (Store.cancel id at)
unfolding Store.cancel
cancel-Keeps id at =
    >>=-Keeps _ _ (statement-Keeps _ (cancel_operation-Follows id at)) λ n. pure-Keeps _

pub transition-Keeps :
    (id : Uuid) (from to : OperationStatus) (phase message_key : String) (f : Option StepFailure)
    (at : Time)
    → operation_can_transition from to ≡ true
    → Keeps (Store.transition id from to phase message_key f at)
unfolding Store.transition
transition-Keeps id from to phase message_key f at allowed =
    >>=-Keeps _ _ (statement-Keeps _ (transition_operation-Follows id from to _ _ _ _ at allowed))
      λ n. pure-Keeps _

pub to_retrying-Keeps :
    (id : Uuid) (from : OperationStatus) (f : Option StepFailure) (attempts : ℕ) (at : Time)
    → operation_can_transition from OperationStatus.retrying ≡ true
    → Keeps (Store.to_retrying id from f attempts at)
unfolding Store.to_retrying
to_retrying-Keeps id from f attempts at allowed =
    >>=-Keeps _ _ (statement-Keeps _ (move_operation_to_retrying-Follows id from _ _ _ at allowed))
      λ n. pure-Keeps _

pub create_steps-Keeps : (id : Uuid) (ss : List Step) → Keeps (Store.create_steps id ss)
unfolding Store.create_steps Sql.create_operation_step
create_steps-Keeps id [] = pure-Keeps tt
create_steps-Keeps id (s ∷ ss) =
    >>=-Keeps _ _ (step_statement-Keeps _ _ λ t t' u e. inserted _ _ _ e)
      λ u. create_steps-Keeps id ss

pub by_key-Keeps : (key : String) → Keeps (statement (Sql.operation_by_idempotency_key key))
unfolding Sql.operation_by_idempotency_key
by_key-Keeps key = query-Keeps _ λ t t' r e. one_row-kept _ t t' r e

pub claim_queued-Keeps : (at : Time) → Keeps (Store.claim_queued at)
unfolding Store.claim_queued
claim_queued-Keeps at =
    >>=-Keeps _ _ (if_applied-Keeps _ (statement-Keeps _ (claim_queued_operation-Follows at)))
      λ r. pure-Keeps _

pub claim_retryable-Keeps : (at : Time) → Keeps (Store.claim_retryable at)
unfolding Store.claim_retryable
claim_retryable-Keeps at =
    >>=-Keeps _ _ (if_applied-Keeps _ (statement-Keeps _ (claim_retryable_operation-Follows at)))
      λ r. pure-Keeps _

pub or_raced-Keeps :
    (key : String) (rest : Call Operation) (insert : Call (Unit {0}))
    → Keeps rest
    → Keeps insert
    → Keeps (Store.or_raced key rest insert)
unfolding Store.or_raced
or_raced-Keeps key rest insert h k = record {
  respects = λ w.
      let first = k.respects w in
      elim (Outcome-cases (insert w)) [
        | inl (u, v, e) ↦
            rw (Store.or_raced, e)
              (Follows-chain w.db v.db (world_after (rest v)).db (rw e at first) (h.respects v))
        | inr (x, v, e) ↦
            let second = (by_key-Keeps key).respects v in
            let chained = Follows-chain w.db v.db _ (rw e at first) second in
            elim (Outcome-cases (statement (Sql.operation_by_idempotency_key key) v)) [
              | inl (r, v', q) ↦ rw (Store.or_raced, e, q) (rw q at chained)
              | inr (y, v', q) ↦ rw (Store.or_raced, e, q) (rw q at chained)
            ]
      ];
}

by_id-Keeps : (id : Uuid) → Keeps (statement (Sql.operation_by_id id))
unfolding Sql.operation_by_id
by_id-Keeps id = query-Keeps _ λ t t' r e. one_row-kept _ t t' r e

enqueue_new-Keeps :
    (o : Operation) (ss : List Step) (at : Time) (existing : Option OperationRow)
    → Keeps (Store.enqueue_new o ss at existing)
enqueue_new-Keeps o ss at (some r) = pure-Keeps _
enqueue_new-Keeps o ss at none =
    or_raced-Keeps _ _ _
      (>>=-Keeps _ _ (create_steps-Keeps o.id ss)
        λ u. >>=-Keeps _ _ (by_id-Keeps o.id) λ r. pure-Keeps _)
      (statement-Keeps _ (create_operation-Follows (Store.clamped o) at))

pub enqueue-Keeps : (o : Operation) (ss : List Step) (at : Time) → Keeps (Store.enqueue o ss at)
unfolding Store.enqueue
enqueue-Keeps o ss at =
    >>=-Keeps _ _ (if_applied-Keeps _ (by_key-Keeps o.idempotency_key)) (enqueue_new-Keeps o ss at)
