-- ===== src/Commerce/Settlement/Atomic.antt =====
-- Callbacks that are answered with an error (commerce/service.go `Settle`).
use vps_billing_workbuddy.Prelude.{
  ℕ, String, ◌≡◌, Bool, true, false, Option, none, some, arith, if◌then◌else◌, str_eq,
}
use vps_billing_workbuddy.Errors.{Error, ok}
use vps_billing_workbuddy.Database.{
  World, failed, Reads, Atomic, statement-Reads, lift-Reads, map_error-Reads, >>=-Atomic,
  Reads-Atomic, fresh-Reads, within_transaction-Atomic, pure-Reads, throw-Reads,
}
use vps_billing_workbuddy.Ledger.{Uuid}
use vps_billing_workbuddy.Calendar.{Time}
use vps_billing_workbuddy.Commerce.States.{payment_is_settled}
use vps_billing_workbuddy.Commerce.Types.{Payment}
use vps_billing_workbuddy.Commerce.Tables.{Tables, first_where}
use vps_billing_workbuddy.Commerce.Gateway.{Gateways, Notification, gateway_named}
use vps_billing_workbuddy.Commerce.Sql
use vps_billing_workbuddy.Commerce.Sql.{one_row}
use vps_billing_workbuddy.Commerce.Store.{Call, find_payment_by_gateway_ref}
use vps_billing_workbuddy.Commerce.Settlement.{
  settle_stored, settle_succeeded, settle_failed, settle_notification, settle,
}

pub one_row-reads :
    {A : Type 0} (o : Option A) (t t' : Tables) (a : A) → one_row o t ≡ ok (a, t') → t' ≡ t
one_row-reads none t t' a h = cc
one_row-reads (some x) t t' a h = ground arith

find-Reads : (gateway reference : String) → Reads (find_payment_by_gateway_ref gateway reference)
unfolding find_payment_by_gateway_ref Sql.payment_by_gateway_ref
find-Reads gateway reference = map_error-Reads _ _ (
    statement-Reads _ (λ t t' a h.
      one_row-reads (first_where (Sql.has_gateway_ref gateway reference) t.payments) t t' a h))

if-Atomic :
    {A : Type 0} (b : Bool) (m n : Call A) → Atomic m → Atomic n → Atomic (if b then m else n)
if-Atomic true m n h k = h
if-Atomic false m n h k = k

module _ (new_uuid : ℕ → Uuid) where
  pub settle_stored-Atomic :
      (gateway : String) (n : Notification) (now : Time) (stored : Payment)
      → Atomic (settle_stored new_uuid gateway n now stored)
  unfolding settle_stored
  settle_stored-Atomic gateway n now stored = >>=-Atomic _ _ (lift-Reads _) λ _.
      >>=-Atomic _ _ (lift-Reads _) λ _.
        if-Atomic (payment_is_settled stored.status) _ _ (Reads-Atomic _ (pure-Reads _))
          (>>=-Atomic _ _ (fresh-Reads new_uuid) λ id. within_transaction-Atomic _)

  settle_notification-Atomic :
      (gateway : String) (n : Notification) (now : Time)
      → Atomic (settle_notification new_uuid gateway n now)
  unfolding settle_notification settle_succeeded settle_failed
  settle_notification-Atomic gateway n now =
      if-Atomic (str_eq n.status "succeeded") _ _
        (>>=-Atomic _ _ (find-Reads gateway n.gateway_payment_id)
          (settle_stored-Atomic gateway n now))
        (if-Atomic (str_eq n.status "failed") _ _
          (>>=-Atomic _ _ (find-Reads gateway n.gateway_payment_id) λ stored.
            if-Atomic (payment_is_settled stored.status) _ _ (Reads-Atomic _ (throw-Reads _))
              (within_transaction-Atomic _))
          (Reads-Atomic _ (throw-Reads _)))

  -- A callback that is answered with an error, whatever the error and wherever a statement failed,
  -- leaves every table as it was.
  pub settle_atomic :
      (gateways : Gateways) (name body signature : String) (now : Time) (w : World Tables)
      (e : Error) (w' : World Tables)
      → settle new_uuid gateways name body signature now w ≡ failed e w'
      → w'.db ≡ w.db
  unfolding settle
  settle_atomic gateways name body signature now =
      (>>=-Atomic _ _ (lift-Reads (gateway_named gateways name)) λ gateway.
        >>=-Atomic _ _ (lift-Reads (gateway.verify body signature))
          λ n. settle_notification-Atomic name n now).atomic
