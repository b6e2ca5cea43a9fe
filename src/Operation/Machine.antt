-- ===== src/Operation/Machine.antt =====
-- The operation machine over whole lives (operation/operation.go).
use vps_billing_workbuddy.Prelude.{◌≡◌, refl, ◌↔◌, true, false, arith}
use vps_billing_workbuddy.Machine.{Moves, here, then, Moves-stay}
use vps_billing_workbuddy.Operation.{
  OperationStatus, operation_eq, operation_can_transition, operation_is_terminal,
}

-- Statuses that are compared equal are equal.
pub operation_eq_lem : (a b : OperationStatus) → operation_eq a b ≡ true → a ≡ b
operation_eq_lem a b h = ground arith

terminal_step :
    (s t : OperationStatus) → operation_is_terminal s ≡ true → operation_can_transition s t ≡ false
unfolding operation_is_terminal operation_can_transition
terminal_step s t h = ground arith

leaves :
    (s : OperationStatus)
    → ((t : OperationStatus) → Moves operation_can_transition s t → t ≡ s)
    → operation_is_terminal s ≡ true
unfolding operation_is_terminal operation_can_transition
leaves OperationStatus.queued h = let e = h OperationStatus.running (then here refl) in cc
leaves OperationStatus.running h = let e = h OperationStatus.failed (then here refl) in cc
leaves OperationStatus.waiting_provider h = let e = h OperationStatus.failed (then here refl) in cc
leaves OperationStatus.waiting_resource h = let e = h OperationStatus.failed (then here refl) in cc
leaves OperationStatus.verifying h = let e = h OperationStatus.failed (then here refl) in cc
leaves OperationStatus.retrying h = let e = h OperationStatus.failed (then here refl) in cc
leaves OperationStatus.succeeded h = refl
leaves OperationStatus.failed h = refl
leaves OperationStatus.cancelled h = refl

-- An operation status is reported terminal exactly when no life leads away from it.
pub operation_terminal_iff :
    (s : OperationStatus)
    → (operation_is_terminal s ≡ true)
      ↔ ((t : OperationStatus) → Moves operation_can_transition s t → t ≡ s)
operation_terminal_iff s =
    (λ h t m. Moves-stay operation_can_transition operation_is_terminal terminal_step m h, leaves s)
