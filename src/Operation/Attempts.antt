-- ===== src/Operation/Attempts.antt =====
-- When a step can begin (operation/service.go `Begin`, storage/operation/store.go `StartStep`).
use vps_billing_workbuddy.Prelude.{
  ℕ, ◌≡◌, ◌≤◌, ◌↔◌, ◌⊎◌, refl, Bool, true, false, some, [], String, inl, inr, Bool-cases,
  if◌then◌else◌, arith,
}
use vps_billing_workbuddy.Errors.{ok, step_not_startable}
use vps_billing_workbuddy.Database.{World, Outcome, done, failed, ◌>>=◌, pure, lift, statement_fair}
use vps_billing_workbuddy.Calendar.{Time}
use vps_billing_workbuddy.Rows.{first_where, update_where, count_where}
use vps_billing_workbuddy.Rows.Places.{first_where-Stands, count_one}
use vps_billing_workbuddy.Operation.{StepStatus, Operation, Step, step_eq}
use vps_billing_workbuddy.Operation.Tables.{Tables}
use vps_billing_workbuddy.Operation.Sql.{is_step, is_startable, started, start_operation_step}
use vps_billing_workbuddy.Operation.Store.{start_step}
use vps_billing_workbuddy.Operation.Engine.{begin_step}

-- What beginning a step that was found answers.
abbrev pub begin_outcome : Bool → World Tables → Tables → Outcome Tables (Unit {0})
begin_outcome true w d = done tt (record w { db = d })
begin_outcome false w d = failed step_not_startable (record w { db = d })

begin_from_count :
    (o : Operation) (key : String) (at : Time) (w : World Tables) (startable : Bool) (n : ℕ)
    (d : Tables)
    → w.faults ≡ []
    → start_operation_step o.id key at w.db ≡ ok (n, d)
    → n ≡ (if startable then 1 else 0)
    → begin_step o key at w ≡ begin_outcome startable w d
unfolding begin_step start_step ◌>>=◌ pure lift
begin_from_count o key at w true n d fair e c =
    let ran = statement_fair (start_operation_step o.id key at) w fair e in ground arith
begin_from_count o key at w false n d fair e c =
    let ran = statement_fair (start_operation_step o.id key at) w fair e in ground arith

-- The tables after the attempt to begin the step.
abbrev pub after_begin : Operation → String → Time → Tables → Tables
after_begin o key at t = record t {
  steps = update_where (is_startable o.id key) (started at) t.steps;
}

module _ (o : Operation) (key : String) (at : Time) (w : World Tables) (s : Step)
    (fair : w.faults ≡ []) (one : count_where (is_step o.id key) w.db.steps ≤ 1)
    (found : first_where (is_step o.id key) w.db.steps ≡ some s) where
  begin_step-outcome :
      begin_step o key at w ≡ begin_outcome (is_startable o.id key s) w (after_begin o key at w.db)
  unfolding start_operation_step
  begin_step-outcome =
      let (hit, stands) = first_where-Stands (is_step o.id key) w.db.steps s found in
      begin_from_count o key at w (is_startable o.id key s) _ (after_begin o key at w.db) fair refl
        (count_one (is_step o.id key) (is_startable o.id key) (λ x h. ground arith) s w.db.steps
          stands hit one)

step_eq_lem : (a b : StepStatus) → step_eq a b ≡ true → a ≡ b
step_eq_lem a b h = ground arith

startable_iff :
    (o : Operation) (key : String) (s : Step)
    → is_step o.id key s ≡ true
    → (is_startable o.id key s ≡ true)
      ↔ ((s.status ≡ StepStatus.pending) ⊎ (s.status ≡ StepStatus.failed))
startable_iff o key s hit = (
  λ h. elim (Bool-cases (step_eq s.status StepStatus.pending)) [
    | inl waiting ↦ inl (step_eq_lem s.status StepStatus.pending waiting)
    | inr other ↦ inr (step_eq_lem s.status StepStatus.failed (ground arith))
  ],
  λ e. elim e [ inl p ↦ ground arith | inr f ↦ ground arith ],
)

begin_outcome_iff :
    (startable : Bool) (w : World Tables) (d : Tables)
    → ((v : World Tables) × (begin_outcome startable w d ≡ done tt v)) ↔ (startable ≡ true)
begin_outcome_iff true w d = (λ h. refl, λ h. (record w { db = d }, refl))
begin_outcome_iff false w d = (λ (v, h). cc, λ h. cc)

-- Where the key names one step of the operation, and no statement fails, Begin accepts the step
-- exactly when it is pending or failed. A step that succeeded, was skipped or still runs is
-- refused, so an attempt that begins its chain anew cannot pass a step that an earlier attempt
-- finished.
pub begin_step_iff :
    (o : Operation) (key : String) (at : Time) (w : World Tables) (s : Step)
    → w.faults ≡ []
    → count_where (is_step o.id key) w.db.steps ≤ 1
    → first_where (is_step o.id key) w.db.steps ≡ some s
    → ((v : World Tables) × (begin_step o key at w ≡ done tt v))
      ↔ ((s.status ≡ StepStatus.pending) ⊎ (s.status ≡ StepStatus.failed))
begin_step_iff o key at w s fair one found =
    let hit = (first_where-Stands (is_step o.id key) w.db.steps s found).0 in
    let startable = startable_iff o key s hit in
    let accepted : ((v : World Tables) × (begin_step o key at w ≡ done tt v))
        ↔ (is_startable o.id key s ≡ true) =
      rw (begin_step-outcome o key at w s fair one found)
        (begin_outcome_iff (is_startable o.id key s) w (after_begin o key at w.db)) in
    (λ h. startable.0 (accepted.0 h), λ h. accepted.1 (startable.1 h))
