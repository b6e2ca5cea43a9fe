-- ===== src/Commerce/Renewal/Unpaid.antt =====
-- Renewals that are not paid (commerce/subscription_service.go `payRenewalInvoice`).
use vps_billing_workbuddy.Prelude.{
  ℕ, ◌≡◌, ◌≤◌, sym, ap, ◌∙◌, ◌⊎◌, inl, inr, Bool, true, false, arith, Bool-cases, subst,
}
use vps_billing_workbuddy.Errors.{Error, ok, extension_lost}
use vps_billing_workbuddy.Database.{
  World, done, failed, world_after, Outcome-cases, >>=-eq-done, statement-eq-done,
  within_transaction, within_transaction-eq-done, within_transaction-eq-failed,
}
use vps_billing_workbuddy.Ledger.{Uuid}
use vps_billing_workbuddy.Commerce.Types.{Invoice, Subscription}
use vps_billing_workbuddy.Commerce.Tables.{Tables, count_where, update_where}
use vps_billing_workbuddy.Rows.Laws.{update_where_none}
use vps_billing_workbuddy.Commerce.Sql.Subscriptions as Sql
use vps_billing_workbuddy.Commerce.Store.{Call}
use vps_billing_workbuddy.Commerce.Store.Subscriptions.{mark_subscription_invoice_paid}
use vps_billing_workbuddy.Commerce.Store.Effects.{ok_pair, pure-eq-done, throw-eq-done}
use vps_billing_workbuddy.Commerce.Renewal.{unless_lost, charge, renewal_body, pay_renewal_invoice}

pub unless_lost-done :
    (m : Call Bool) (w : World Tables) {b : Bool} {v : World Tables}
    → m w ≡ done b v
    → unless_lost m w ≡ done b v
unfolding unless_lost
unless_lost-done m w h = ground arith

pub unless_lost-failed :
    (m : Call Bool) (w : World Tables) {e : Error} {v : World Tables}
    → m w ≡ failed e v
    → world_after (unless_lost m w) ≡ v
unfolding unless_lost
unless_lost-failed m w h = ground arith

pub mark_rows :
    (id : Uuid) (t : Tables) {n : ℕ} {t' : Tables}
    → Sql.mark_subscription_invoice_paid id t ≡ ok (n, t')
    → (count_where (Sql.is_open_bill id) t.invoices ≡ n)
      × (t' ≡ record t { invoices = update_where (Sql.is_open_bill id) Sql.paid_bill t.invoices })
unfolding Sql.mark_subscription_invoice_paid
mark_rows id t h = ((ok_pair h).0, sym (ok_pair h).1)

-- A gate that is lost, where the invoice's identifier names one row at most, changes nothing.
mark_lost :
    (id : Uuid) (w : World Tables) {w' : World Tables}
    → count_where (Sql.is_open_bill id) w.db.invoices ≤ 1
    → mark_subscription_invoice_paid id w ≡ done false w'
    → w'.db ≡ w.db
unfolding mark_subscription_invoice_paid
mark_lost id w one h =
    let (n, v, marked, ended) = >>=-eq-done _ _ w h in
    let (count, tables) = mark_rows id w.db (statement-eq-done _ w marked).0 in
    let (lost, same) = pure-eq-done _ v ended in
    let zero_rows : count_where (Sql.is_open_bill id) w.db.invoices ≡ 0 = ground arith in
    ap World.db same
    ∙ tables
    ∙ ap (λ z. record w.db { invoices = z })
        (update_where_none (Sql.is_open_bill id) Sql.paid_bill w.db.invoices zero_rows)

module _ (new_uuid : ℕ → Uuid) where
  -- The winner of the gate pays, or fails.
  pub charge_pays :
      (s : Subscription) (i : Invoice) (w : World Tables) {paid : Bool} {w' : World Tables}
      → charge new_uuid s i w ≡ done paid w'
      → paid ≡ true
  unfolding charge
  charge_pays s i w h =
      let (balance, v0, locked, h0) = >>=-eq-done _ _ w h in
      let (u, v1, covered, h1) = >>=-eq-done _ _ v0 h0 in
      let (id, v2, drawn, h2) = >>=-eq-done _ _ v1 h1 in
      let (u2, v3, posted, h3) = >>=-eq-done _ _ v2 h2 in
      let (end, v4, dated, h4) = >>=-eq-done _ _ v3 h3 in
      let (extended, v5, extending, h5) = >>=-eq-done _ _ v4 h4 in
      elim (Bool-cases extended) [
        | inl held ↦
            let (event_id, v6, drawn', h6) = >>=-eq-done _ _ v5 (rw held at h5) in
            let (u3, v7, recorded, h7) = >>=-eq-done _ _ v6 h6 in sym (pure-eq-done true v7 h7).0
        | inr lost ↦ throw-eq-done extension_lost v5 (rw lost at h5)
      ]

  body_unpaid :
      (s : Subscription) (i : Invoice) (w : World Tables) {w' : World Tables}
      → count_where (Sql.is_open_bill i.id) w.db.invoices ≤ 1
      → renewal_body new_uuid s i w ≡ done false w'
      → w'.db ≡ w.db
  unfolding renewal_body
  body_unpaid s i w one h =
      let (applied, v, gate, rest) = >>=-eq-done _ _ w h in
      elim (Bool-cases applied) [
        | inl won ↦ let pays = charge_pays s i v (rw won at rest) in cc
        | inr lost ↦
            let same = (pure-eq-done false v (rw lost at rest)).1 in
            ap World.db same ∙ mark_lost i.id w one (rw lost at gate)
      ]

  -- Where the invoice's identifier names at most one open row, an attempt to pay a renewal either
  -- answers that it was paid, or leaves every table as it was, whatever its answer and wherever a
  -- statement failed.
  pub pay_renewal_invoice_lem :
      (s : Subscription) (i : Invoice) (w : World Tables)
      → count_where (Sql.is_open_bill i.id) w.db.invoices ≤ 1
      → (pay_renewal_invoice new_uuid s i w
          ≡ done true (world_after (pay_renewal_invoice new_uuid s i w)))
        ⊎ ((world_after (pay_renewal_invoice new_uuid s i w)).db ≡ w.db)
  unfolding pay_renewal_invoice
  pay_renewal_invoice_lem s i w one =
      elim (Outcome-cases (within_transaction (renewal_body new_uuid s i) w)) [
        | inl (paid, v, ran) ↦
            let answer = unless_lost-done (within_transaction (renewal_body new_uuid s i)) w ran in
            let (u, u', begun, body, kept) =
              within_transaction-eq-done (renewal_body new_uuid s i) w ran in
            elim (Bool-cases paid) [
              | inl won ↦ inl (ground arith)
              | inr lost ↦
                  let same =
                    body_unpaid s i u
                      (subst (λ (t : Tables). count_where (Sql.is_open_bill i.id) t.invoices ≤ 1)
                        (sym begun) one)
                      (rw lost at body) in
                  inr (rw answer (kept ∙ same ∙ begun))
            ]
        | inr (e, v, failure) ↦
            let answer =
              unless_lost-failed (within_transaction (renewal_body new_uuid s i)) w failure in
            inr (
              ap World.db answer
              ∙ within_transaction-eq-failed (renewal_body new_uuid s i) w failure)
      ]
