-- ===== src/Operation/Evolution/Statements.antt =====
-- The statements keep the table of operations sound, and move its rows as the machine allows.
use vps_billing_workbuddy.Prelude.{
  ℕ, ◌≡◌, refl, ◌==◌, str_eq, subst, ap, Bool, true, false, Option, List, [], ◌∷◌, All, String, inl,
  inr, Bool-cases, arith,
}
use vps_billing_workbuddy.Machine.{Moves, here, then}
use vps_billing_workbuddy.Errors.{ok}
use vps_billing_workbuddy.Database.{ok_pair}
use vps_billing_workbuddy.Ledger.{Uuid}
use vps_billing_workbuddy.Calendar.{Time}
use vps_billing_workbuddy.Rows.{update_where, count_where}
use vps_billing_workbuddy.Operation.{
  OperationStatus, Step, operation_eq, operation_can_transition, operation_is_terminal,
}
use vps_billing_workbuddy.Operation.Machine.{operation_eq_lem}
use vps_billing_workbuddy.Operation.Tables.{OperationRow, Tables}
use vps_billing_workbuddy.Operation.Sql
use vps_billing_workbuddy.Operation.Sql.{
  has_id, has_key, in_state, all_valid, is_seen, update_operations,
}
use vps_billing_workbuddy.Operation.Evolution.{
  Continues, Evolves, appended, continued, IsValid, IsSound, Follows, Continues-refl, Evolves-refl,
}

-- The change keeps what a row that the test selects is, and moves it as the machine allows.
abbrev pub Carries : (OperationRow → Bool) → (OperationRow → OperationRow) → OperationRow → Type 0
Carries test change r = test r ≡ true → Continues r (change r)

same_has_id : (id : Uuid) (x y : OperationRow) → Continues x y → has_id id y ≡ has_id id x
same_has_id id x y c = ap (λ n. n == id) c.same_id

same_has_key : (key : String) (x y : OperationRow) → Continues x y → has_key key y ≡ has_key key x
same_has_key key x y c = ap (λ k. str_eq k key) c.same_key

module _ (test : OperationRow → Bool) (change : OperationRow → OperationRow) where
  update-Evolves :
      (rs : List OperationRow)
      → All (Carries test change) rs
      → Evolves rs (update_where test change rs)
  unfolding update_where
  update-Evolves [] h = appended tt
  update-Evolves (r ∷ rs) (c, h) = elim (Bool-cases (test r)) [
    | inl selected ↦ rw selected (continued (c selected) (update-Evolves rs h))
    | inr kept ↦ rw kept (continued (Continues-refl r) (update-Evolves rs h))
  ]

  update-IsValid :
      (rs : List OperationRow)
      → All IsValid rs
      → all_valid test change rs ≡ true
      → All IsValid (update_where test change rs)
  unfolding update_where
  update-IsValid [] h checked = tt
  update-IsValid (r ∷ rs) (v, h) checked = (ground arith, update-IsValid rs h (ground arith))

  -- A key of the identity of the rows counts the same rows before and after.
  update-count :
      (key : OperationRow → Bool)
      → ((x y : OperationRow) → Continues x y → key y ≡ key x)
      → (rs : List OperationRow) → All (Carries test change) rs
      → count_where key (update_where test change rs) ≡ count_where key rs
  unfolding update_where count_where
  update-count key same [] h = refl
  update-count key same (r ∷ rs) (c, h) =
      let rest = update-count key same rs h in
      elim (Bool-cases (test r)) [
        | inl selected ↦ let kept = same r (change r) (c selected) in ground arith
        | inr unselected ↦ ground arith
      ]

  pub updated-Follows :
      (t : Tables)
      → (IsSound t → All (Carries test change) t.operations)
      → all_valid test change t.operations ≡ true
      → Follows t (record t { operations = update_where test change t.operations })
  updated-Follows t carried checked s =
      let carries = carried s in
      (
        record {
          valid = update-IsValid t.operations s.valid checked;
          distinct = λ id.
              rw (update-count (has_id id) (same_has_id id) t.operations carries) (s.distinct id);
          keyed = λ key.
              rw (update-count (has_key key) (same_has_key key) t.operations carries) (s.keyed key);
        },
        update-Evolves t.operations carries,
      )

  pub update_operations-Follows :
      (t t' : Tables) (n : ℕ)
      → All (Carries test change) t.operations
      → update_operations test change t ≡ ok (n, t')
      → Follows t t'
  unfolding update_operations
  update_operations-Follows t t' n carried e =
      elim (Bool-cases (all_valid test change t.operations)) [
        | inl checked ↦
            subst (Follows t) (ok_pair (rw (checked, update_operations) at e)).1
              (updated-Follows t (λ s. carried) checked)
        | inr refused ↦ ground arith
      ]

-- A change that keeps the identity of every row, and moves the selected rows as the machine allows.
record Advances (test : OperationRow → Bool) (change : OperationRow → OperationRow) : Type 0 where
  identity :
      (r : OperationRow)
      → ((change r).operation.id ≡ r.operation.id)
        × ((change r).operation.idempotency_key ≡ r.operation.idempotency_key)
        × ((change r).operation.max_retries ≡ r.operation.max_retries)
  moves :
      (r : OperationRow)
      → test r ≡ true
      → Moves operation_can_transition r.operation.status (change r).operation.status

Advances-Carries :
    (test : OperationRow → Bool) (change : OperationRow → OperationRow)
    → Advances test change
    → (r : OperationRow) → Carries test change r
Advances-Carries test change a r h =
    let (i, k, m) = a.identity r in
    record { same_id = i; same_key = k; same_budget = m; moves = a.moves r h }

every_row :
    {P : OperationRow → Type 0} → ((r : OperationRow) → P r) → (rs : List OperationRow) → All P rs
every_row h [] = tt
every_row h (r ∷ rs) = (h r, every_row h rs)

advanced-Follows :
    (test : OperationRow → Bool) (change : OperationRow → OperationRow)
    → Advances test change
    → (t t' : Tables) (n : ℕ) → update_operations test change t ≡ ok (n, t')
    → Follows t t'
advanced-Follows test change a t t' n e =
    update_operations-Follows test change t t' n
      (every_row (Advances-Carries test change a) t.operations) e

-- A status that the machine moves to, from the one that the row was seen in.
pub Moves-from :
    (s from to : OperationStatus)
    → operation_eq s from ≡ true
    → operation_can_transition from to ≡ true
    → Moves operation_can_transition s to
Moves-from s from to seen allowed =
    let same = operation_eq_lem s from seen in then here (rw same allowed)

pub transition_operation-Follows :
    (id : Uuid) (from to : OperationStatus) (phase message_key code message : Option String)
    (at : Time)
    → operation_can_transition from to ≡ true
    → (t t' : Tables) (n : ℕ)
    → Sql.transition_operation id from to phase message_key code message at t ≡ ok (n, t')
    → Follows t t'
unfolding Sql.transition_operation
transition_operation-Follows id from to phase message_key code message at allowed =
    advanced-Follows (is_seen id from) (Sql.moved to phase message_key code message at) (record {
      identity = λ r. (refl, refl, refl);
      moves = λ r h. Moves-from r.operation.status from to (ground arith) allowed;
    })

pub move_operation_to_retrying-Follows :
    (id : Uuid) (from : OperationStatus) (run_after : Time) (code message : Option String)
    (at : Time)
    → operation_can_transition from OperationStatus.retrying ≡ true
    → (t t' : Tables) (n : ℕ)
    → Sql.move_operation_to_retrying id from run_after code message at t ≡ ok (n, t')
    → Follows t t'
unfolding Sql.move_operation_to_retrying
move_operation_to_retrying-Follows id from run_after code message at allowed =
    advanced-Follows (is_seen id from) (Sql.parked run_after code message at) (record {
      identity = λ r. (refl, refl, refl);
      moves =
          λ r h. Moves-from r.operation.status from OperationStatus.retrying (ground arith) allowed;
    })

cancellable_moves :
    (s : OperationStatus)
    → operation_is_terminal s ≡ false
    → operation_can_transition s OperationStatus.cancelled ≡ true
unfolding operation_can_transition operation_is_terminal
cancellable_moves s h = ground arith

cancellable-terminal :
    (id : Uuid) (r : OperationRow)
    → Sql.is_cancellable id r ≡ true
    → operation_is_terminal r.operation.status ≡ false
unfolding operation_is_terminal
cancellable-terminal id r h = ground arith

pub cancel_operation-Follows :
    (id : Uuid) (at : Time) (t t' : Tables) (n : ℕ)
    → Sql.cancel_operation id at t ≡ ok (n, t')
    → Follows t t'
unfolding Sql.cancel_operation
cancel_operation-Follows id at =
    advanced-Follows (Sql.is_cancellable id) (Sql.cancelled_row at) (record {
      identity = λ r. (refl, refl, refl);
      moves = λ r h. then here (cancellable_moves r.operation.status (cancellable-terminal id r h));
    })

pub set_operation_phase-Follows :
    (id : Uuid) (phase message_key : Option String) (at : Time) (t t' : Tables) (n : ℕ)
    → Sql.set_operation_phase id phase message_key at t ≡ ok (n, t')
    → Follows t t'
unfolding Sql.set_operation_phase
set_operation_phase-Follows id phase message_key at =
    advanced-Follows (has_id id) (Sql.with_phase phase message_key at)
      (record { identity = λ r. (refl, refl, refl); moves = λ r h. here })

pub set_operation_provider-Follows :
    (id : Uuid) (name : Option String) (at : Time) (t t' : Tables) (n : ℕ)
    → Sql.set_operation_provider id name at t ≡ ok (n, t')
    → Follows t t'
unfolding Sql.set_operation_provider
set_operation_provider-Follows id name at =
    advanced-Follows (has_id id) (Sql.with_provider name at)
      (record { identity = λ r. (refl, refl, refl); moves = λ r h. here })

pub sync_operation_progress-Follows :
    (id : Uuid) (at : Time) (t t' : Tables) (n : ℕ)
    → Sql.sync_operation_progress id at t ≡ ok (n, t')
    → Follows t t'
unfolding Sql.sync_operation_progress
sync_operation_progress-Follows id at t =
    advanced-Follows (has_id id) (Sql.with_progress _ at)
      (record { identity = λ r. (refl, refl, refl); moves = λ r h. here }) t

-- What writes steps alone leaves the operations as they were.
pub same_operations-Follows :
    (t : Tables) (steps : List Step) → Follows t (record t { steps = steps })
same_operations-Follows t steps s =
    (record { valid = s.valid; distinct = s.distinct; keyed = s.keyed }, Evolves-refl t.operations)
