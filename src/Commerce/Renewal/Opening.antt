-- ===== src/Commerce/Renewal/Opening.antt =====
-- Opening the invoice of a renewal (commerce/subscription_service.go `openRenewalInvoice`).
use vps_billing_workbuddy.Prelude.{ℕ, ◌≡◌, refl, ap, ◌∙◌, inl, inr, Option, List, [], ◌∷◌, arith}
use vps_billing_workbuddy.Errors.{ok}
use vps_billing_workbuddy.Database.{
  Outcome-cases, Respects, statement-Respects, map_error-Respects, lift-Respects, pure-Respects,
  fresh-Respects, within_transaction, within_transaction-Respects, >>=-Respects, one_row-found,
}
use vps_billing_workbuddy.Ledger.{Uuid}
use vps_billing_workbuddy.Calendar.{Time}
use vps_billing_workbuddy.Commerce.Types.{Invoice, InvoiceItem}
use vps_billing_workbuddy.Commerce.Tables.{Tables}
use vps_billing_workbuddy.Commerce.Sql
use vps_billing_workbuddy.Commerce.Sql.Subscriptions as SubscriptionSql
use vps_billing_workbuddy.Commerce.Store.{Call, create_invoice_items}
use vps_billing_workbuddy.Commerce.Store.Subscriptions.{
  create_subscription_invoice, create_subscription_invoice_items, open_renewal_invoice_for,
}
use vps_billing_workbuddy.Commerce.Store.Effects.{inserted}
use vps_billing_workbuddy.Commerce.Renewal.{
  SweepSubscription, or_existing, open_bill, open_renewal_invoice,
}
use vps_billing_workbuddy.Commerce.Renewal.Periods.{Same}

chain : (t u v : Tables) → Same t u → Same u v → Same t v
chain t u v h k = k ∙ h

same : (t : Tables) → Same t t
same t = refl

or_existing-Respects :
    (m existing : Call Invoice)
    → Respects Same m
    → Respects Same existing
    → Respects Same (or_existing m existing)
unfolding or_existing
or_existing-Respects m existing h k = record {
  respects = λ w. elim (Outcome-cases (m w)) [
    | inl (i, v, e) ↦ let first = h.respects w in ground arith
    | inr (x, v, e) ↦ let first = h.respects w in let second = k.respects v in ground arith
  ];
}

invoice-Same :
    (i : Invoice) (t t' : Tables) (u : Unit {0})
    → SubscriptionSql.create_subscription_invoice i t ≡ ok (u, t')
    → Same t t'
unfolding SubscriptionSql.create_subscription_invoice
invoice-Same i t t' u h = ap Tables.subscriptions (inserted _ _ _ h)

item-Same :
    (id : Uuid) (i : InvoiceItem) (t t' : Tables) (u : Unit {0})
    → Sql.create_invoice_item id i t ≡ ok (u, t')
    → Same t t'
unfolding Sql.create_invoice_item
item-Same id i t t' u h = ap Tables.subscriptions (inserted _ _ _ h)

items-Respects :
    (id : Uuid) (items : List InvoiceItem) → Respects Same (create_invoice_items id items)
unfolding create_invoice_items
items-Respects id [] = pure-Respects Same same tt
items-Respects id (i ∷ items) = >>=-Respects Same chain _ _ (lift-Respects Same same _) λ q.
    >>=-Respects Same chain _ _
      (map_error-Respects Same _ _
        (statement-Respects Same (Sql.create_invoice_item id i) same (item-Same id i)))
      λ u. items-Respects id items

open_bill-Respects : (new_uuid : ℕ → Uuid) (i : Invoice) → Respects Same (open_bill new_uuid i)
unfolding create_subscription_invoice create_subscription_invoice_items
open_bill-Respects new_uuid i =
    >>=-Respects Same chain _ _
      (map_error-Respects Same _ _ (
        statement-Respects Same (SubscriptionSql.create_subscription_invoice i) same
          (invoice-Same i)))
      λ u. >>=-Respects Same chain _ _ (items-Respects i.id i.items) λ u. pure-Respects Same same i

opened-Respects :
    (new_uuid : ℕ → Uuid) (i : Invoice) → Respects Same (within_transaction (open_bill new_uuid i))
opened-Respects new_uuid i =
    within_transaction-Respects Same (open_bill new_uuid i) same
      λ a v w e. rw e at ((open_bill-Respects new_uuid i).respects v)

bill-Same :
    (id : Uuid) (t t' : Tables) (i : Invoice)
    → SubscriptionSql.open_invoice_for_subscription id t ≡ ok (i, t')
    → Same t t'
unfolding SubscriptionSql.open_invoice_for_subscription
bill-Same id t t' i h = ap Tables.subscriptions (one_row-found _ t t' i h).1

existing-Respects : (id : Uuid) → Respects Same (open_renewal_invoice_for id)
unfolding open_renewal_invoice_for
existing-Respects id =
    map_error-Respects Same _ _ (
      statement-Respects Same (SubscriptionSql.open_invoice_for_subscription id) same
        (bill-Same id))

-- Opening the invoice leaves the subscriptions as they are.
pub open_renewal_invoice-Respects :
    (new_uuid : ℕ → Uuid) (row : SweepSubscription) (random : Option ℕ) (period_end now : Time)
    → Respects Same (open_renewal_invoice new_uuid row random period_end now)
unfolding open_renewal_invoice
open_renewal_invoice-Respects new_uuid row random period_end now =
    >>=-Respects Same chain _ _ (lift-Respects Same same _) λ number.
      >>=-Respects Same chain _ _ (fresh-Respects Same same new_uuid) λ id.
        >>=-Respects Same chain _ _ (fresh-Respects Same same new_uuid) λ item_id.
          or_existing-Respects _ _ (opened-Respects new_uuid _)
            (existing-Respects row.subscription.id)
