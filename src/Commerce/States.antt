-- ===== src/Commerce/States.antt =====
-- backend/internal/commerce/state.go and the machine of subscription.go. A status is one of the
-- constants: the column's CHECK constraint closes each set.
pub mod Machines
mod Tests
use vps_billing_workbuddy.Prelude.{
  ℕ, Bool, true, false, ◌&&◌, ◌||◌, List, [], ◌∷◌, length, ◌==◌, if◌then◌else◌,
}

pub data OrderStatus : Type 0 where
  pending paid fulfilling fulfilled cancelled refund_pending refunded : OrderStatus

pub data PaymentStatus : Type 0 where
  pending processing succeeded failed partially_refunded refunded : PaymentStatus

pub data SubscriptionStatus : Type 0 where
  pending active past_due suspended cancelled expired terminated : SubscriptionStatus

-- The position in `OrderStatuses()`, `PaymentStatuses()`, `SubscriptionStatuses()`, by which
-- statuses are compared.
abbrev order_index : OrderStatus → ℕ
order_index OrderStatus.pending = 0
order_index OrderStatus.paid = 1
order_index OrderStatus.fulfilling = 2
order_index OrderStatus.fulfilled = 3
order_index OrderStatus.cancelled = 4
order_index OrderStatus.refund_pending = 5
order_index OrderStatus.refunded = 6

abbrev payment_index : PaymentStatus → ℕ
payment_index PaymentStatus.pending = 0
payment_index PaymentStatus.processing = 1
payment_index PaymentStatus.succeeded = 2
payment_index PaymentStatus.failed = 3
payment_index PaymentStatus.partially_refunded = 4
payment_index PaymentStatus.refunded = 5

abbrev subscription_index : SubscriptionStatus → ℕ
subscription_index SubscriptionStatus.pending = 0
subscription_index SubscriptionStatus.active = 1
subscription_index SubscriptionStatus.past_due = 2
subscription_index SubscriptionStatus.suspended = 3
subscription_index SubscriptionStatus.cancelled = 4
subscription_index SubscriptionStatus.expired = 5
subscription_index SubscriptionStatus.terminated = 6

abbrev pub order_eq : OrderStatus → OrderStatus → Bool
order_eq a b = order_index a == order_index b

abbrev pub payment_eq : PaymentStatus → PaymentStatus → Bool
payment_eq a b = payment_index a == payment_index b

abbrev pub subscription_eq : SubscriptionStatus → SubscriptionStatus → Bool
subscription_eq a b = subscription_index a == subscription_index b

-- `contains`, with the comparison of its values.
contains : {A : Type 0} → (A → A → Bool) → List A → A → Bool
contains eq [] want = false
contains eq (v ∷ vs) want = eq v want || contains eq vs want

abbrev order_statuses : List OrderStatus
order_statuses =
    OrderStatus.pending ∷ OrderStatus.paid ∷ OrderStatus.fulfilling ∷ OrderStatus.fulfilled
    ∷ OrderStatus.cancelled ∷ OrderStatus.refund_pending ∷ OrderStatus.refunded ∷ []

order_transitions : OrderStatus → List OrderStatus
order_transitions OrderStatus.pending = OrderStatus.paid ∷ OrderStatus.cancelled ∷ []
order_transitions OrderStatus.paid = OrderStatus.fulfilling ∷ OrderStatus.refund_pending ∷ []
order_transitions OrderStatus.fulfilling = OrderStatus.fulfilled ∷ []
order_transitions OrderStatus.refund_pending = OrderStatus.refunded ∷ []
order_transitions _ = []

payment_transitions : PaymentStatus → List PaymentStatus
payment_transitions PaymentStatus.pending =
    PaymentStatus.succeeded ∷ PaymentStatus.processing ∷ PaymentStatus.failed ∷ []
payment_transitions PaymentStatus.processing = PaymentStatus.succeeded ∷ PaymentStatus.failed ∷ []
payment_transitions PaymentStatus.succeeded =
    PaymentStatus.partially_refunded ∷ PaymentStatus.refunded ∷ []
payment_transitions PaymentStatus.partially_refunded = PaymentStatus.refunded ∷ []
payment_transitions _ = []

subscription_transitions : SubscriptionStatus → List SubscriptionStatus
subscription_transitions SubscriptionStatus.active =
    SubscriptionStatus.past_due ∷ SubscriptionStatus.cancelled ∷ SubscriptionStatus.terminated ∷ []
subscription_transitions SubscriptionStatus.past_due =
    SubscriptionStatus.active ∷ SubscriptionStatus.suspended ∷ SubscriptionStatus.cancelled
    ∷ SubscriptionStatus.terminated ∷ []
subscription_transitions SubscriptionStatus.suspended =
    SubscriptionStatus.active ∷ SubscriptionStatus.expired ∷ SubscriptionStatus.terminated ∷ []
subscription_transitions _ = []

unfoldable pub order_can_transition : OrderStatus → OrderStatus → Bool
unfolding contains order_transitions
order_can_transition from to = contains order_eq (order_transitions from) to

unfoldable pub payment_can_transition : PaymentStatus → PaymentStatus → Bool
unfolding contains payment_transitions
payment_can_transition from to = contains payment_eq (payment_transitions from) to

unfoldable pub subscription_can_transition : SubscriptionStatus → SubscriptionStatus → Bool
unfolding contains subscription_transitions
subscription_can_transition from to = contains subscription_eq (subscription_transitions from) to

pub order_is_terminal : OrderStatus → Bool
unfolding contains order_transitions
order_is_terminal s = length (order_transitions s) == 0 && contains order_eq order_statuses s

unfoldable pub payment_is_settled : PaymentStatus → Bool
payment_is_settled PaymentStatus.succeeded = true
payment_is_settled PaymentStatus.partially_refunded = true
payment_is_settled PaymentStatus.refunded = true
payment_is_settled _ = false

unfoldable pub subscription_is_live : SubscriptionStatus → Bool
subscription_is_live SubscriptionStatus.active = true
subscription_is_live SubscriptionStatus.past_due = true
subscription_is_live SubscriptionStatus.suspended = true
subscription_is_live _ = false
