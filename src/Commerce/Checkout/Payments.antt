-- ===== src/Commerce/Checkout/Payments.antt =====
-- Payments that are started (commerce/service.go `StartPayment`).
use vps_billing_workbuddy.Prelude.{
  ℕ, String, ◌≡◌, ◌≢◌, ◌≤◌, refl, sym, ap, ◌∙◌, Bool, true, false, not, ◌&&◌, ◌||◌, ◌==◌, Option,
  some, List, [], ◌∷◌, ◌++◌, inl, inr, Bool-cases, arith,
}
use vps_billing_workbuddy.Errors.{ok, refuse_if-eq-ok, order_not_payable}
use vps_billing_workbuddy.Database.{
  one_row-found, World, done, lift, statement, fresh, map_error, >>=-eq-done, lift-eq-done,
  pure-eq-done, map_error-eq-done, statement-eq-done, fresh-eq-done, ok_pair,
}
use vps_billing_workbuddy.Ledger.{Uuid}
use vps_billing_workbuddy.Calendar.{Time}
use vps_billing_workbuddy.Numbers.{Number, number_eq, new_number}
use vps_billing_workbuddy.Commerce.States.{OrderStatus, PaymentStatus, order_eq}
use vps_billing_workbuddy.Commerce.Types.{Order, Payment}
use vps_billing_workbuddy.Commerce.Tables.{Tables, first_where, count_where}
use vps_billing_workbuddy.Rows.Laws.{first_where-test}
use vps_billing_workbuddy.Commerce.Gateway.{Gateways, Intent, gateway_named}
use vps_billing_workbuddy.Commerce.Sql
use vps_billing_workbuddy.Commerce.Store
use vps_billing_workbuddy.Commerce.Store.{Call}
use vps_billing_workbuddy.Commerce.Checkout.{
  payment_key, started_payment, record_payment, start_payment,
}

abbrev pub has_payment_key : ℕ → Payment → Bool
has_payment_key key p = p.idempotency_key == key

abbrev pub is_order_of : Uuid → Uuid → Order → Bool
is_order_of id user o = o.id == id && o.user_id == user

-- A payment that the database accepted had a key of its own.
create_payment_lem :
    (p : Payment) (t t' : Tables) (u : Unit {0})
    → Sql.create_payment p t ≡ ok (u, t')
    → (count_where (has_payment_key p.idempotency_key) t.payments ≡ 0)
      × (t' ≡ record t { payments = t.payments ++ p ∷ [] })
unfolding Sql.create_payment
create_payment_lem p t t' u e =
    elim (Bool-cases (
      count_where (λ (r : Payment). r.id == p.id || number_eq r.payment_no p.payment_no) t.payments
      == 0)) [
        | inl new_number ↦
            elim (Bool-cases (count_where (has_payment_key p.idempotency_key) t.payments == 0)) [
              | inl new_key ↦ (ground arith, ground arith)
              | inr used_key ↦ ground arith
            ]
        | inr used_number ↦ ground arith
      ]

-- An order that was read is the customer's; its lines were read with it.
order_for_user_lem :
    (id user : Uuid) (w w' : World Tables) (o : Order)
    → Store.order_for_user id user w ≡ done o w'
    → (row : Order) × (first_where (is_order_of id user) w.db.orders ≡ some row)
      × (o.id ≡ row.id)
      × (o.status ≡ row.status)
      × (o.total ≡ row.total)
      × (w'.db ≡ w.db)
unfolding Store.order_for_user Store.order_items Sql.order_by_id_for_user Sql.order_items_for_order
order_for_user_lem id user w w' o e =
    let (row, v, read, rest) =
      >>=-eq-done (map_error _ (statement (Sql.order_by_id_for_user id user))) _ w e in
    let (items, v', lines, answered) = >>=-eq-done (Store.order_items id) _ v rest in
    let (found, same) =
      one_row-found _ w.db v.db row (statement-eq-done _ w (map_error-eq-done _ _ w read)).0 in
    let (rows, v'', selected, mapped) =
      >>=-eq-done (statement (Sql.order_items_for_order id)) _ v lines in
    let kept = (ok_pair (statement-eq-done _ v selected).0).1 in
    let (items_are, last) = pure-eq-done _ v'' mapped in
    let (order_is, final) = pure-eq-done _ v' answered in
    (
      row,
      found,
      ap (λ (x : Order). x.id) (sym order_is),
      ap (λ (x : Order). x.status) (sym order_is),
      ap (λ (x : Order). x.total) (sym order_is),
      ap (λ (x : World Tables). x.db) (final ∙ last) ∙ sym kept ∙ same,
    )

-- The payment that is recorded is pending, for the order's total, under a key of its own.
record_payment_lem :
    (new_uuid : ℕ → Uuid) (number : Number) (o : Order) (gateway : String) (i : Intent) (key : ℕ)
    (w w' : World Tables) (p : Payment) (intent : Intent)
    → record_payment new_uuid number o gateway i key w ≡ done (p, intent) w'
    → (count_where (has_payment_key p.idempotency_key) w.db.payments ≡ 0)
      × (p.idempotency_key ≡ key)
      × (p.order_id ≡ o.id)
      × (p.amount ≡ o.total)
      × (p.status ≡ PaymentStatus.pending)
      × (w'.db ≡ record w.db { payments = w.db.payments ++ p ∷ [] })
unfolding record_payment Store.create_payment
record_payment_lem new_uuid number o gateway i key w w' p intent e =
    let (id, v, drew, rest) = >>=-eq-done (fresh new_uuid) _ w e in
    let same = fresh-eq-done new_uuid w drew in
    let (u, v', wrote, answered) =
      >>=-eq-done (Store.create_payment (started_payment id number o gateway i key)) _ v rest in
    let stored = (statement-eq-done _ v (map_error-eq-done _ _ v wrote)).0 in
    let (free, table) =
      create_payment_lem (started_payment id number o gateway i key) v.db v'.db u stored in
    let (answer, last) = pure-eq-done _ v' answered in
    let is : started_payment id number o gateway i key ≡ p =
      ap (λ (x : Payment × Intent). x.0) answer in
    let is' = sym is in
    (
      rw (is', ← same) free,
      ap (λ (x : Payment). x.idempotency_key) is',
      ap (λ (x : Payment). x.order_id) is',
      ap (λ (x : Payment). x.amount) is',
      ap (λ (x : Payment). x.status) is',
      ap (λ (x : World Tables). x.db) last ∙ rw (is', ← same) table,
    )

order_id_of :
    (id user : Uuid) (orders : List Order) (o : Order)
    → first_where (is_order_of id user) orders ≡ some o
    → o.id ≡ id
order_id_of id user orders o found =
    let hit = first_where-test (is_order_of id user) orders o found in ground arith

same_payment_key :
    (digest : Uuid → String → ℕ × ℕ × ℕ → ℕ) (gateway : String) (now now' : Time)
    (order order' : Uuid)
    → order ≡ order'
    → now'.year ≡ now.year
    → now'.month ≡ now.month
    → now'.day ≡ now.day
    → payment_key digest order gateway now ≡ payment_key digest order' gateway now'
same_payment_key digest gateway now now' order order' same year month day =
    rw (same, year, month, day) refl

order_eq_lem : (a b : OrderStatus) → order_eq a b ≡ true → a ≡ b
order_eq_lem a b h = ground arith

not-not : (b : Bool) → not b ≡ false → b ≡ true
not-not true h = refl
not-not false h = cc

module _ (new_uuid : ℕ → Uuid) (digest : Uuid → String → ℕ × ℕ × ℕ → ℕ) (gateways : Gateways) where
  -- A payment that StartPayment reports is of a pending order of the customer, for the order's
  -- total and under the key of the order, the gateway and the day, under which there was none
  -- before; it is the one row that the call has added, and pending.
  pub start_payment_lem :
      (random : Option ℕ) (user order_id : Uuid) (gateway_name : String) (now : Time)
      (w w' : World Tables) (p : Payment) (intent : Intent)
      → start_payment new_uuid digest gateways random user order_id gateway_name now w
        ≡ done (p, intent) w'
      → (o : Order) × (first_where (is_order_of order_id user) w.db.orders ≡ some o)
        × (o.status ≡ OrderStatus.pending)
        × (p.order_id ≡ o.id)
        × (p.amount ≡ o.total)
        × (p.status ≡ PaymentStatus.pending)
        × (p.idempotency_key ≡ payment_key digest o.id gateway_name now)
        × (count_where (has_payment_key p.idempotency_key) w.db.payments ≡ 0)
        × (w'.db ≡ record w.db { payments = w.db.payments ++ p ∷ [] })
  unfolding start_payment
  start_payment_lem random user order_id gateway_name now w w' p intent e =
      let (gateway, v1, e1, r1) = >>=-eq-done (lift (gateway_named gateways gateway_name)) _ w e in
      let k1 = (lift-eq-done _ w e1).1 in
      let (order, v2, e2, r2) = >>=-eq-done (Store.order_for_user order_id user) _ v1 r1 in
      let (row, found, same_id, same_status, same_total, k2) =
        order_for_user_lem order_id user v1 v2 order e2 in
      let (u, v3, e3, r3) = >>=-eq-done _ _ v2 r2 in
      let (allowed, k3) = lift-eq-done _ v2 e3 in
      let (number, v4, e4, r4) = >>=-eq-done _ _ v3 r3 in
      let k4 = (lift-eq-done _ v3 e4).1 in
      let (i, v5, e5, r5) = >>=-eq-done _ _ v4 r4 in
      let k5 = (lift-eq-done _ v4 e5).1 in
      let (new_key, is_key, of_order, costs, waits, table) =
        record_payment_lem new_uuid number order gateway_name i _ v5 w' p intent r5 in
      let kept = k5 ∙ k4 ∙ k3 in
      let db = ap (λ (x : World Tables). x.db) kept ∙ k2 ∙ ap (λ (x : World Tables). x.db) k1 in
      (
        row,
        ap (λ (x : World Tables). first_where (is_order_of order_id user) x.db.orders) (sym k1)
            ∙ found,
        sym same_status
            ∙ order_eq_lem order.status OrderStatus.pending
                (not-not _ (refuse_if-eq-ok _ order_not_payable allowed)),
        of_order ∙ same_id,
        costs ∙ same_total,
        waits,
        is_key ∙ ap (λ n. payment_key digest n gateway_name now) same_id,
        ap (λ (t : Tables). count_where (has_payment_key p.idempotency_key) t.payments) (sym db)
            ∙ new_key,
        table ∙ ap (λ (t : Tables). record t { payments = t.payments ++ p ∷ [] }) db,
      )

  -- As long as a payment that was started is in the table, under its key, no call starts a second
  -- one of the same order at the same gateway on the same day, whoever asks.
  pub start_payment_once :
      (random random' : Option ℕ) (user user' order_id : Uuid) (gateway_name : String)
      (now now' : Time) (w w' v v' : World Tables) (p p' : Payment) (intent intent' : Intent)
      → start_payment new_uuid digest gateways random user order_id gateway_name now w
        ≡ done (p, intent) w'
      → 1 ≤ count_where (has_payment_key p.idempotency_key) v.db.payments
      → now'.year ≡ now.year
      → now'.month ≡ now.month
      → now'.day ≡ now.day
      → start_payment new_uuid digest gateways random' user' order_id gateway_name now' v
        ≢ done (p', intent') v'
  start_payment_once random random' user user' order_id gateway_name now now' w w' v v' p p' intent
        intent' e there year month day again =
      let (o, found, pending, of_order, costs, waits, key, free, table) =
        start_payment_lem random user order_id gateway_name now w w' p intent e in
      let (o', found', pending', of_order', costs', waits', key', free', table') =
        start_payment_lem random' user' order_id gateway_name now' v v' p' intent' again in
      let same_order =
        order_id_of order_id user w.db.orders o found
        ∙ sym (order_id_of order_id user' v.db.orders o' found') in
      let same_key : p.idempotency_key ≡ p'.idempotency_key =
        key
        ∙ same_payment_key digest gateway_name now now' o.id o'.id same_order year month day
        ∙ sym key' in
      let none_there : count_where (has_payment_key p.idempotency_key) v.db.payments ≡ 0 =
        rw same_key free' in
      omega (arith, there, none_there)
