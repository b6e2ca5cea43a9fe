-- ===== src/Commerce/Settlement/Deliveries.antt =====
-- Deliveries of one payment's callback, one after the other (commerce/service.go `settle`), each
-- deciding on a copy of the payment that may be out of date.
use vps_billing_workbuddy.Prelude.{
  ℕ, suc, String, ◌≡◌, ◌≢◌, refl, sym, ap, ◌∙◌, ◌⊎◌, inl, inr, Bool, true, false, not, some, List,
  [], ◌∷◌, arith, if◌then◌else◌, str_eq, str_eq_iff, Bool-cases, All, subst, ◌≤◌,
}
use vps_billing_workbuddy.Prelude.Int.{◌==ℤ◌, ==ℤ_iff}
use vps_billing_workbuddy.Errors.{amount_mismatch, currency_mismatch, refuse_if-eq-ok}
use vps_billing_workbuddy.Money.{Money}
use vps_billing_workbuddy.Database.{
  World, Outcome, done, failed, world_after, Outcome-cases, >>=-eq-done, within_transaction-eq-done,
}
use vps_billing_workbuddy.Ledger.{Uuid}
use vps_billing_workbuddy.Calendar.{Time}
use vps_billing_workbuddy.Commerce.States.{payment_is_settled}
use vps_billing_workbuddy.Commerce.Types.{Payment}
use vps_billing_workbuddy.Commerce.Tables.{Tables, first_where, count_where}
use vps_billing_workbuddy.Rows.Laws.{count_where-first, count_where-update}
use vps_billing_workbuddy.Commerce.Gateway.{Notification}
use vps_billing_workbuddy.Commerce.Sql
use vps_billing_workbuddy.Commerce.Store.{Call}
use vps_billing_workbuddy.Commerce.Store.Effects.{
  lift-eq-done, pure-eq-done, settle_payment_lem, fresh-eq-done,
}
use vps_billing_workbuddy.Commerce.Settlement.{
  SettleResult, settlement_posting, not_applied, settle_body, settle_stored,
}
use vps_billing_workbuddy.Commerce.Settlement.Once.{
  Settles, revenue_posting, paid_now, settle_applied_lem,
}
use vps_billing_workbuddy.Commerce.Settlement.Atomic.{settle_stored-Atomic}

-- The call found no unsettled payment and wrote nothing.
pub NotApplied : Uuid → Tables → SettleResult → Tables → Type 0
NotApplied id t r t' = (r.already_settled ≡ true) × (t' ≡ t)

-- The call found the payment unsettled, and wrote all that settles it.
pub Applied : Uuid → Time → String → Uuid → Payment → Tables → SettleResult → Tables → Type 0
Applied id now gateway posting_id stored t r t' =
    (p : Payment) × (first_where (Sql.is_unsettled id) t.payments ≡ some p)
    × (r ≡ record { payment = some (paid_now now p); already_settled = false })
    × Settles id now gateway (revenue_posting posting_id stored) (paid_now now p) t t'

same_amount :
    (a b : Money)
    → not (a.amount_minor ==ℤ b.amount_minor) ≡ false
    → not (str_eq a.currency b.currency) ≡ false
    → a ≡ b
same_amount a b h k =
    let minor = ==ℤ_iff a.amount_minor b.amount_minor in
    let currency = str_eq_iff a.currency b.currency in ground arith

Applied-subst :
    (id : Uuid) (now : Time) (gateway : String) (posting_id : Uuid) (stored : Payment)
    (r : SettleResult) {t1 t t2 t' : Tables}
    → t1 ≡ t
    → t' ≡ t2
    → Applied id now gateway posting_id stored t1 r t2
    → Applied id now gateway posting_id stored t r t'
Applied-subst id now gateway posting_id stored r {t1 = t1} {t' = t'} before after h =
    subst (λ z. Applied id now gateway posting_id stored z r t') before
      (subst (λ z. Applied id now gateway posting_id stored t1 r z) (sym after) h)

settled_is_settled :
    (id : Uuid) (now : Time) (x : Payment)
    → Sql.is_unsettled id x ≡ true
    → Sql.is_unsettled id (Sql.settled_row now x) ≡ false
settled_is_settled id now x h = ground arith

-- An applied call found the payment unsettled and has left no unsettled row of it.
Applied-count_where :
    (id : Uuid) (now : Time) (gateway : String) (posting_id : Uuid) (stored : Payment) (t : Tables)
    (r : SettleResult) (t' : Tables)
    → Applied id now gateway posting_id stored t r t'
    → (count_where (Sql.is_unsettled id) t.payments ≢ 0)
      × (count_where (Sql.is_unsettled id) t'.payments ≡ 0)
unfolding Applied
Applied-count_where id now gateway posting_id stored t r t' (p, found, result, all) = (
  (λ none_left.
      let missed = count_where-first (Sql.is_unsettled id) t.payments none_left in ground arith),
  ap (λ (z : Tables). count_where (Sql.is_unsettled id) z.payments) all.tables
      ∙ count_where-update (Sql.is_unsettled id) (Sql.settled_row now) t.payments
          (settled_is_settled id now),
)

module _ (new_uuid : ℕ → Uuid) where
  settle_body_lem :
      (gateway : String) (posting_id : Uuid) (now : Time) (stored : Payment) (w : World Tables)
      {r : SettleResult} {w' : World Tables}
      → settle_body new_uuid gateway (settlement_posting posting_id stored) now stored w ≡ done r w'
      → NotApplied stored.id w.db r w'.db
        ⊎ Applied stored.id now gateway posting_id stored w.db r w'.db
  unfolding settle_body NotApplied Applied
  settle_body_lem gateway posting_id now stored w h =
      let (o, v, moved, rest) = >>=-eq-done _ _ w h in
      elim (settle_payment_lem stored.id now w moved) [
        | inl (missed, same, count) ↦
            let (result, ended) = pure-eq-done not_applied v (rw missed at rest) in
            inl (ap SettleResult.already_settled (sym result), ap World.db ended ∙ same)
        | inr (p, found, won, tables) ↦
            let (result, settles) =
              settle_applied_lem new_uuid stored.id posting_id gateway stored now
                (Sql.settled_row now p) w.db v tables (rw won at rest) in
            inr (p, found, result, settles)
      ]

  -- A callback that is done has either written nothing and says that the payment was settled, or
  -- it named the amount of the payment, found the payment unsettled, and wrote the settlement: the
  -- payment has succeeded, its order and the order's open invoice are paid, the posting of its
  -- amount is verified and in the ledger, every line of the order has got an active subscription,
  -- of the order's user at the line's plan and price, for one cycle from now, and the event that
  -- records it, the payment's own event is the last, and nothing else has changed.
  pub settle_stored_lem :
      (gateway : String) (n : Notification) (now : Time) (stored : Payment) (w : World Tables)
      {r : SettleResult} {w' : World Tables}
      → settle_stored new_uuid gateway n now stored w ≡ done r w'
      → NotApplied stored.id w.db r w'.db
        ⊎ ((stored.amount ≡ n.amount)
            × ((posting_id : Uuid) × Applied stored.id now gateway posting_id stored w.db r w'.db))
  unfolding settle_stored NotApplied
  settle_stored_lem gateway n now stored w h =
      let (a, v, amounts, h1) = >>=-eq-done _ _ w h in
      let (checked, same) = lift-eq-done _ w amounts in
      let (b, v', currencies, h2) = >>=-eq-done _ _ v h1 in
      let (checked', same') = lift-eq-done _ v currencies in
      let kept = ap World.db (same' ∙ same) in
      let minor = refuse_if-eq-ok _ amount_mismatch checked in
      let currency = refuse_if-eq-ok _ currency_mismatch checked' in
      elim (Bool-cases (payment_is_settled stored.status)) [
        | inl settled ↦
            let (result, ended) = pure-eq-done _ v' (rw settled at h2) in
            inl (ap SettleResult.already_settled (sym result), ap World.db ended ∙ kept)
        | inr live ↦
            let (posting_id, u, drawing, h3) = >>=-eq-done _ _ v' (rw live at h2) in
            let drawn = fresh-eq-done new_uuid v' drawing in
            let (u', u2, begun, ran, committed) = within_transaction-eq-done _ u h3 in
            elim (settle_body_lem gateway posting_id now stored u' ran) [
              | inl missed ↦ inl (missed.0, committed ∙ missed.1 ∙ begun ∙ drawn ∙ kept)
              | inr applied ↦ inr (
                same_amount stored.amount n.amount minor currency,
                (
                  posting_id,
                  Applied-subst stored.id now gateway posting_id stored _ (begun ∙ drawn ∙ kept)
                      committed applied,
                ),
              )
            ]
      ]

-- A callback as it is delivered: what was read of the payment before, and when it runs.
pub record Delivery : Type 0 where
  pub gateway : String
  pub notification : Notification
  pub at : Time
  pub stored : Payment

abbrev pub settles : {D : Type 0} → Outcome D SettleResult → Bool
settles (done r w) = not r.already_settled
settles (failed e w) = false

module _ (new_uuid : ℕ → Uuid) where
  abbrev pub deliver : Delivery → Call SettleResult
  deliver d = settle_stored new_uuid d.gateway d.notification d.at d.stored

  -- How many of the deliveries, one after the other, report a settlement of their own.
  abbrev pub settlements : List Delivery → World Tables → ℕ
  settlements [] w = 0
  settlements (d ∷ ds) w =
      let rest = settlements ds (world_after (deliver d w)) in
      if settles (deliver d w) then suc rest else rest

  -- A delivery settles an unsettled payment, or leaves the tables alone.
  deliver-cases :
      (d : Delivery) (w : World Tables)
      → ((settles (deliver d w) ≡ false) × ((world_after (deliver d w)).db ≡ w.db))
        ⊎ ((count_where (Sql.is_unsettled d.stored.id) w.db.payments ≢ 0)
            × (count_where (Sql.is_unsettled d.stored.id) (world_after (deliver d w)).db.payments
                ≡ 0))
  unfolding NotApplied Applied
  deliver-cases d w = elim (Outcome-cases (deliver d w)) [
    | inr (e, v, failure) ↦
        let kept =
          (settle_stored-Atomic new_uuid d.gateway d.notification d.at d.stored).atomic w e v
            failure in
        inl (rw failure (refl), rw failure kept)
    | inl (r, v, success) ↦
        elim (settle_stored_lem new_uuid d.gateway d.notification d.at d.stored w success) [
          | inl (settled, kept) ↦ inl (rw (success, settled) refl, rw success kept)
          | inr (amount, (posting_id, applied)) ↦
              let (before, after) =
                Applied-count_where d.stored.id d.at d.gateway posting_id d.stored w.db r v.db
                  applied in
              inr (before, rw success after)
        ]
  ]

  settled_none :
      (id : Uuid) (ds : List Delivery) (w : World Tables)
      → All (λ (d : Delivery). d.stored.id ≡ id) ds
      → count_where (Sql.is_unsettled id) w.db.payments ≡ 0
      → settlements ds w ≡ 0
  settled_none id [] w same h = refl
  settled_none id (d ∷ ds) w same h = elim (deliver-cases d w) [
    | inl (lost, kept) ↦
        let rest =
          settled_none id ds (world_after (deliver d w)) same.1
            (ap (λ (t : Tables). count_where (Sql.is_unsettled id) t.payments) kept ∙ h) in
        rw lost rest
    | inr (unsettled, moved) ↦ let paid = rw same.0 at unsettled in ground arith
  ]

  -- Of any deliveries of a payment's callback at most one settles it, whatever copy of the payment
  -- each of them decides on, wherever a statement fails, and whatever the tables hold before.
  pub settled_at_most_once :
      (id : Uuid) (ds : List Delivery) (w : World Tables)
      → All (λ (d : Delivery). d.stored.id ≡ id) ds
      → settlements ds w ≤ 1
  settled_at_most_once id [] w same = omega arith
  settled_at_most_once id (d ∷ ds) w same = elim (deliver-cases d w) [
    | inl (lost, kept) ↦ rw lost (settled_at_most_once id ds (world_after (deliver d w)) same.1)
    | inr (unsettled, moved) ↦
        let rest = settled_none id ds (world_after (deliver d w)) same.1 (
          subst (λ z. count_where (Sql.is_unsettled z) (world_after (deliver d w)).db.payments ≡ 0)
            same.0 moved) in
        ground arith
  ]
