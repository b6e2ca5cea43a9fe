-- ===== src/Commerce/States/Machines.antt =====
-- The order, payment and subscription machines over whole lives.
use vps_billing_workbuddy.Prelude.{◌≡◌, refl, ap, ◌↔◌, true, false, not, arith}
use vps_billing_workbuddy.Machine.{Moves, here, then, Moves-keep, Moves-stay}
use vps_billing_workbuddy.Commerce.States.{
  OrderStatus, PaymentStatus, SubscriptionStatus, order_can_transition, payment_can_transition,
  subscription_can_transition, order_is_terminal, payment_is_settled, subscription_is_live,
}

settled_step :
    (s t : PaymentStatus)
    → payment_can_transition s t ≡ true
    → payment_is_settled s ≡ true
    → payment_is_settled t ≡ true
unfolding payment_can_transition payment_is_settled
settled_step s t c h = ground arith

-- A settled payment is settled for the rest of its life.
pub settled_forever :
    {s t : PaymentStatus}
    → Moves payment_can_transition s t
    → payment_is_settled s ≡ true
    → payment_is_settled t ≡ true
settled_forever m h = Moves-keep payment_can_transition payment_is_settled settled_step m h

order_terminal_step :
    (s t : OrderStatus) → order_is_terminal s ≡ true → order_can_transition s t ≡ false
unfolding order_is_terminal order_can_transition
order_terminal_step s t h = ground arith

terminal_stays :
    {s t : OrderStatus} → Moves order_can_transition s t → order_is_terminal s ≡ true → t ≡ s
terminal_stays m h = Moves-stay order_can_transition order_is_terminal order_terminal_step m h

order_leaves :
    (s : OrderStatus)
    → ((t : OrderStatus) → Moves order_can_transition s t → t ≡ s)
    → order_is_terminal s ≡ true
unfolding order_is_terminal order_can_transition
order_leaves OrderStatus.pending h = let e = h OrderStatus.paid (then here refl) in cc
order_leaves OrderStatus.paid h = let e = h OrderStatus.fulfilling (then here refl) in cc
order_leaves OrderStatus.fulfilling h = let e = h OrderStatus.fulfilled (then here refl) in cc
order_leaves OrderStatus.fulfilled h = refl
order_leaves OrderStatus.cancelled h = refl
order_leaves OrderStatus.refund_pending h = let e = h OrderStatus.refunded (then here refl) in cc
order_leaves OrderStatus.refunded h = refl

-- An order status is reported terminal exactly when no life leads away from it.
pub order_terminal_iff :
    (s : OrderStatus)
    → (order_is_terminal s ≡ true) ↔ ((t : OrderStatus) → Moves order_can_transition s t → t ≡ s)
order_terminal_iff s = (λ h t m. terminal_stays m h, order_leaves s)

dead_step :
    (s t : SubscriptionStatus)
    → not (subscription_is_live s) ≡ true
    → subscription_can_transition s t ≡ false
unfolding subscription_is_live subscription_can_transition
dead_step s t c = ground arith

-- A subscription that is no longer live keeps its status for the rest of its life.
dead_stays :
    {s t : SubscriptionStatus}
    → Moves subscription_can_transition s t
    → subscription_is_live s ≡ false
    → t ≡ s
dead_stays m dead =
    Moves-stay subscription_can_transition (λ s. not (subscription_is_live s)) dead_step m
      (ap not dead)

subscription_leaves :
    (s : SubscriptionStatus)
    → ((t : SubscriptionStatus) → Moves subscription_can_transition s t → t ≡ s)
    → subscription_is_live s ≡ false
unfolding subscription_is_live subscription_can_transition
subscription_leaves SubscriptionStatus.pending h = refl
subscription_leaves SubscriptionStatus.active h =
    let e = h SubscriptionStatus.past_due (then here refl) in cc
subscription_leaves SubscriptionStatus.past_due h =
    let e = h SubscriptionStatus.active (then here refl) in cc
subscription_leaves SubscriptionStatus.suspended h =
    let e = h SubscriptionStatus.active (then here refl) in cc
subscription_leaves SubscriptionStatus.cancelled h = refl
subscription_leaves SubscriptionStatus.terminated h = refl
subscription_leaves SubscriptionStatus.expired h = refl

-- A subscription is reported as not live exactly when no life leads away from its status.
pub subscription_dead_iff :
    (s : SubscriptionStatus)
    → (subscription_is_live s ≡ false)
      ↔ ((t : SubscriptionStatus) → Moves subscription_can_transition s t → t ≡ s)
subscription_dead_iff s = (λ h t m. dead_stays m h, subscription_leaves s)
