-- ===== src/Commerce/States/Tests.antt =====
-- Tests of the machines.
use vps_billing_workbuddy.Prelude.{◌≡◌, refl, ◌↔◌, true, false}
use vps_billing_workbuddy.Commerce.States.{
  OrderStatus, PaymentStatus, SubscriptionStatus, order_can_transition, payment_can_transition,
  subscription_can_transition, order_is_terminal, payment_is_settled, subscription_is_live,
}
use vps_billing_workbuddy.Machine.{Moves, here, then}
use vps_billing_workbuddy.Commerce.States.Machines.{
  settled_forever, order_terminal_iff, subscription_dead_iff,
}

refund : Moves payment_can_transition PaymentStatus.succeeded PaymentStatus.refunded
unfolding payment_can_transition
refund =
    then {t = PaymentStatus.partially_refunded} (then {t = PaymentStatus.succeeded} here refl) refl

settled_forever_example : payment_is_settled PaymentStatus.refunded ≡ true
unfolding payment_is_settled
settled_forever_example = settled_forever refund refl

order_terminal_example : (order_is_terminal OrderStatus.refunded ≡ true) ↔ (
    (t : OrderStatus)
    → Moves order_can_transition OrderStatus.refunded t
    → t ≡ OrderStatus.refunded)
order_terminal_example = order_terminal_iff OrderStatus.refunded

subscription_dead_example : (subscription_is_live SubscriptionStatus.suspended ≡ false) ↔ (
    (t : SubscriptionStatus)
    → Moves subscription_can_transition SubscriptionStatus.suspended t
    → t ≡ SubscriptionStatus.suspended)
subscription_dead_example = subscription_dead_iff SubscriptionStatus.suspended
