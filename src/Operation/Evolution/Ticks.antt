-- ===== src/Operation/Evolution/Ticks.antt =====
-- A tick of the engine keeps the table of operations sound, and moves its rows as the machine
-- allows, for every runner whose attempts do (operation/service.go).
use vps_billing_workbuddy.Prelude.{
  ◌≡◌, refl, sym, true, false, not, ◌||◌, leb, Option, none, some, String, inl, inr, Bool-cases,
  arith,
}
use vps_billing_workbuddy.Errors.{Result, ok}
use vps_billing_workbuddy.Database.{
  World, done, statement, if_applied, ok_pair, >>=-eq-done, if_applied-eq-done, statement-eq-done,
  pure-eq-done,
}
use vps_billing_workbuddy.Calendar.{Time}
use vps_billing_workbuddy.Operation.{OperationStatus, Operation, operation_can_transition}
use vps_billing_workbuddy.Operation.Tables.{OperationRow, Tables}
use vps_billing_workbuddy.Operation.Sql
use vps_billing_workbuddy.Operation.Sql.{all_valid, has_id, claim}
use vps_billing_workbuddy.Operation.Store
use vps_billing_workbuddy.Operation.Store.{StepFailure, Call}
use vps_billing_workbuddy.Operation.Engine.{
  RunError, Runner, Runners, classify, conclude_run, run_with, execute, executed, run_retry,
  run_claimed, tick, failure_of,
}
use vps_billing_workbuddy.Operation.Evolution.{
  Follows, Follows-chain, Keeps, pure-Keeps, after-Keeps,
}
use vps_billing_workbuddy.Operation.Evolution.Calls.{
  transition-Keeps, to_retrying-Keeps, claim_queued-Keeps, claim_retryable-Keeps,
}

abbrev pub IsRunning : Operation → Type 0
IsRunning o = o.status ≡ OperationStatus.running

-- An attempt of the runner, of an operation that runs, leaves the table as the machine allows.
pub record IsLawful (r : Runner) : Type 0 where
  pub lawful : (o : Operation) (w : World Tables) → IsRunning o → Follows w.db ((r.run o w).1).db

abbrev pub AreLawful : Runners → Type 0
AreLawful runners = (name : String) (r : Runner) → runners name ≡ some r → IsLawful r

ends :
    (o : Operation) (to : OperationStatus)
    → IsRunning o
    → operation_can_transition OperationStatus.running to ≡ true
    → operation_can_transition o.status to ≡ true
ends o to h allowed = rw h allowed

classify-Keeps :
    (o : Operation) (f : StepFailure) (at : Time) → IsRunning o → Keeps (classify o f at)
unfolding classify operation_can_transition
classify-Keeps o f at h = elim (Bool-cases (not f.retry || leb o.max_retries o.retry_count)) [
  | inl spent ↦
      rw (classify, spent)
        (transition-Keeps o.id o.status OperationStatus.failed "" "" _ at
          (ends o OperationStatus.failed h refl))
  | inr more ↦
      rw (classify, more)
        (to_retrying-Keeps o.id o.status _ _ at (ends o OperationStatus.retrying h refl))
]

conclude_run-Keeps :
    (o : Operation) (at : Time) (e : Option RunError) → IsRunning o → Keeps (conclude_run o at e)
unfolding operation_can_transition
conclude_run-Keeps o at none h =
    transition-Keeps o.id o.status OperationStatus.succeeded "" "" none at
      (ends o OperationStatus.succeeded h refl)
conclude_run-Keeps o at (some e) h = classify-Keeps o (failure_of e) at h

run_with-Keeps :
    (r : Option Runner) (o : Operation) (at : Time)
    → ((x : Runner) → r ≡ some x → IsLawful x)
    → IsRunning o
    → Keeps (run_with r o at)
unfolding operation_can_transition
run_with-Keeps none o at law h = record {
  respects =
      (transition-Keeps o.id o.status OperationStatus.failed "" "" _ at
        (ends o OperationStatus.failed h refl)).respects;
}
run_with-Keeps (some r) o at law h = record {
  respects = λ w.
      let (end, w') = r.run o w in
      Follows-chain w.db w'.db _ ((law r refl).lawful o w h)
        ((conclude_run-Keeps o at end h).respects w');
}

executed-Keeps :
    (runners : Runners) (o : Operation) (at : Time)
    → AreLawful runners
    → IsRunning o
    → Keeps (executed runners o at)
unfolding execute
executed-Keeps runners o at law h = record {
  respects = (run_with-Keeps (runners o.type) o at (law o.type) h).respects;
}

-- What a claim answers runs.
claim-IsRunning :
    (o : Option OperationRow) (change : OperationRow → OperationRow)
    → ((r : OperationRow) → IsRunning (change r).operation)
    → (t t' : Tables) (r : OperationRow) → claim o change t ≡ ok (r, t')
    → IsRunning r.operation
claim-IsRunning none change running t t' r e = cc
claim-IsRunning (some x) change running t t' r e =
    elim (Bool-cases (all_valid (has_id x.operation.id) change t.operations)) [
      | inl checked ↦ rw (sym (ok_pair (rw checked at e)).0) (running x)
      | inr refused ↦ ground arith
    ]

abbrev pub Running : Option Operation → Type 0
Running none = Unit
Running (some o) = IsRunning o

from_claim-Running :
    (f : Tables → Result (OperationRow × Tables))
    → ((t t' : Tables) (r : OperationRow) → f t ≡ ok (r, t') → IsRunning r.operation)
    → (v w : World Tables) (o : Option OperationRow) → if_applied (statement f) v ≡ done o w
    → Running (Store.from_claim o)
from_claim-Running f running v w none e = tt
from_claim-Running f running v w (some r) e = elim (if_applied-eq-done (statement f) v e) [
  | inl (empty, q) ↦ cc
  | inr (r', same, q) ↦
      let answer : r ≡ r' = ground arith in
      rw answer (running v.db w.db r' (statement-eq-done f v q).0)
]

claim_queued-Running :
    (at : Time) (v w : World Tables) (o : Option Operation)
    → Store.claim_queued at v ≡ done o w
    → Running o
unfolding Store.claim_queued Sql.claim_queued_operation
claim_queued-Running at v w o e =
    let (r, v', claimed, answered) =
      >>=-eq-done (if_applied (statement (Sql.claim_queued_operation at))) _ v e in
    let same = (pure-eq-done (Store.from_claim r) v' answered).0 in
    rw (sym same) (
      from_claim-Running _ (λ t t' x q. claim-IsRunning _ (Sql.claimed at) (λ y. refl) t t' x q) v
        v' r claimed)

claim_retryable-Running :
    (at : Time) (v w : World Tables) (o : Option Operation)
    → Store.claim_retryable at v ≡ done o w
    → Running o
unfolding Store.claim_retryable Sql.claim_retryable_operation
claim_retryable-Running at v w o e =
    let (r, v', claimed, answered) =
      >>=-eq-done (if_applied (statement (Sql.claim_retryable_operation at))) _ v e in
    let same = (pure-eq-done (Store.from_claim r) v' answered).0 in
    rw (sym same) (
      from_claim-Running _ (λ t t' x q. claim-IsRunning _ (Sql.reclaimed at) (λ y. refl) t t' x q) v
        v' r claimed)

module _ (runners : Runners) (at : Time) (law : AreLawful runners) where
  run_retry-Keeps : (o : Option Operation) → Running o → Keeps (run_retry runners at o)
  run_retry-Keeps none h = pure-Keeps false
  run_retry-Keeps (some o) h = executed-Keeps runners o at law h

  run_claimed-Keeps : (o : Option Operation) → Running o → Keeps (run_claimed runners at o)
  run_claimed-Keeps (some o) h = executed-Keeps runners o at law h
  run_claimed-Keeps none h =
      after-Keeps _ _ (claim_retryable-Keeps at)
        λ o v w e. run_retry-Keeps o (claim_retryable-Running at v w o e)

  -- A tick whose runners are lawful keeps every constraint of the table of operations, whatever it
  -- answers and wherever a statement fails: every operation that was there is still in its place,
  -- the same by identifier, key and budget, and its status is one that the machine reaches from
  -- the status before.
  pub tick-Keeps : Keeps (tick runners at)
  unfolding tick
  tick-Keeps =
      after-Keeps _ _ (claim_queued-Keeps at)
        λ o v w e. run_claimed-Keeps o (claim_queued-Running at v w o e)
