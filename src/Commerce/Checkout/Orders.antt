-- ===== src/Commerce/Checkout/Orders.antt =====
-- Orders that are placed (commerce/service.go `CreateOrder`).
use vps_billing_workbuddy.Prelude.{
  ℕ, ◌≡◌, refl, sym, ap, ◌∙◌, Option, some, List, [], ◌∷◌, ◌++◌, map,
}
use vps_billing_workbuddy.Errors.{Error, ok}
use vps_billing_workbuddy.Database.{
  World, done, failed, ◌>>◌, pure, lift, statement, fresh, map_error, one_row-found, Reads, Atomic,
  lift-Reads, pure-Reads, fresh-Reads, map_error-Reads, >>=-Reads, statement-Reads, >>=-Atomic,
  within_transaction-Atomic, and_pure-Atomic, >>=-eq-done, lift-eq-done, pure-eq-done,
  map_error-eq-done, statement-eq-done, fresh-eq-done, inserted, within_transaction-eq-done,
}
use vps_billing_workbuddy.Money.{Money}
use vps_billing_workbuddy.Numbers.{new_number}
use vps_billing_workbuddy.Ledger.{Uuid}
use vps_billing_workbuddy.Calendar.{Time}
use vps_billing_workbuddy.Commerce.Types.{InvoiceStatus, Order, OrderItem, Invoice, InvoiceItem}
use vps_billing_workbuddy.Commerce.Tables.{Tables}
use vps_billing_workbuddy.Commerce.Orders.{line_total, new_order}
use vps_billing_workbuddy.Commerce.Sql
use vps_billing_workbuddy.Commerce.Store
use vps_billing_workbuddy.Commerce.Checkout.{
  OrderLineRequest, order_lines, invoice_item, invoice_items_for, order_invoice, record_order,
  place_order,
}

module _ (new_uuid : ℕ → Uuid) where
  order_lines-Reads : (requests : List OrderLineRequest) → Reads (order_lines new_uuid requests)
  unfolding order_lines Store.plan_by_id Sql.plan_by_id
  order_lines-Reads [] = pure-Reads _
  order_lines-Reads (r ∷ rs) =
      >>=-Reads _ _
        (map_error-Reads _ _
          (map_error-Reads _ _ (statement-Reads _ λ t t' a e. (one_row-found _ t t' a e).1)))
        λ plan. >>=-Reads _ _ (fresh-Reads new_uuid) λ id.
          >>=-Reads _ _ (lift-Reads _)
            λ line. >>=-Reads _ _ (order_lines-Reads rs) λ lines. pure-Reads _

  invoice_items_for-Reads : (lines : List OrderItem) → Reads (invoice_items_for new_uuid lines)
  unfolding invoice_items_for
  invoice_items_for-Reads [] = pure-Reads _
  invoice_items_for-Reads (l ∷ ls) = >>=-Reads _ _ (lift-Reads _) λ total.
      >>=-Reads _ _ (fresh-Reads new_uuid)
        λ id. >>=-Reads _ _ (invoice_items_for-Reads ls) λ items. pure-Reads _

  -- After the order is recorded nothing can fail.
  record-Atomic : (o : Order) (i : Invoice) → Atomic (record_order o i >> pure o)
  unfolding record_order
  record-Atomic o i = and_pure-Atomic _ (λ u. o) (within_transaction-Atomic _)

  -- An order that could not be placed, whatever the error and wherever a statement failed, leaves
  -- every table as it was.
  pub place_order-Atomic :
      (order_random invoice_random : Option ℕ) (user : Uuid) (requested : List OrderLineRequest)
      (discount : Money) (now later : Time) (w w' : World Tables) (e : Error)
      → place_order new_uuid order_random invoice_random user requested discount now later w
        ≡ failed e w'
      → w'.db ≡ w.db
  unfolding place_order
  place_order-Atomic order_random invoice_random user requested discount now later w w' e h =
      (>>=-Atomic _ _ (order_lines-Reads requested) λ lines.
          >>=-Atomic _ _ (fresh-Reads new_uuid) λ id. >>=-Atomic _ _ (lift-Reads _) λ order.
            >>=-Atomic _ _ (lift-Reads _) λ number.
              >>=-Atomic _ _ (fresh-Reads new_uuid) λ invoice_id.
                >>=-Atomic _ _ (invoice_items_for-Reads order.items)
                  λ items. record-Atomic order _).atomic
        w e w' h

-- The items of an invoice against the lines of an order: the same words, quantity and price, and the
-- total that the line has.
pub data Mirrors : List OrderItem → List InvoiceItem → Type 0 where
  nothing : Mirrors [] []
  line_by_line :
      {l : OrderItem} {i : InvoiceItem} {ls : List OrderItem} {is : List InvoiceItem}
      → i.description ≡ l.plan_snapshot.name
      → i.quantity ≡ l.quantity
      → i.unit_amount ≡ l.unit_price
      → line_total l ≡ ok i.total
      → Mirrors ls is
      → Mirrors (l ∷ ls) (i ∷ is)

-- What recording an order and its invoice adds to the tables.
abbrev pub recorded : Order → Invoice → Tables → Tables
recorded o i t = record t {
  orders = t.orders ++ record o { items = [] } ∷ [];
  order_items = t.order_items ++ map (λ (l : OrderItem). (o.id, l)) o.items;
  invoices = t.invoices ++ record i { items = [] } ∷ [];
  invoice_items = t.invoice_items ++ map (λ (l : InvoiceItem). (i.id, l)) i.items;
}

invoice_items_for-Mirrors :
    (new_uuid : ℕ → Uuid) (lines : List OrderItem) (w w' : World Tables) (items : List InvoiceItem)
    → invoice_items_for new_uuid lines w ≡ done items w'
    → Mirrors lines items × (w'.db ≡ w.db)
unfolding invoice_items_for
invoice_items_for-Mirrors new_uuid [] w w' items e =
    let (same, last) = pure-eq-done [] w e in
    (rw (sym same) nothing, ap (λ (x : World Tables). x.db) last)
invoice_items_for-Mirrors new_uuid (l ∷ ls) w w' items e =
    let (total, v1, priced, r1) = >>=-eq-done (lift (line_total l)) _ w e in
    let (is_total, k1) = lift-eq-done _ w priced in
    let (id, v2, drew, r2) = >>=-eq-done (fresh new_uuid) _ v1 r1 in
    let k2 = fresh-eq-done new_uuid v1 drew in
    let (rest, v3, others, r3) = >>=-eq-done (invoice_items_for new_uuid ls) _ v2 r2 in
    let (mirrored, k3) = invoice_items_for-Mirrors new_uuid ls v2 v3 rest others in
    let (same, last) = pure-eq-done (invoice_item id l total ∷ rest) v3 r3 in
    (
      rw (sym same) (line_by_line refl refl refl is_total mirrored),
      ap (λ (x : World Tables). x.db) last ∙ k3 ∙ k2 ∙ ap (λ (x : World Tables). x.db) k1,
    )

append_assoc :
    {A : Type 0} (xs : List A) (y : A) (ys : List A) → (xs ++ y ∷ []) ++ ys ≡ xs ++ y ∷ ys
append_assoc [] y ys = refl
append_assoc (x ∷ xs) y ys = ap (λ zs. x ∷ zs) (append_assoc xs y ys)

append_nil : {A : Type 0} (xs : List A) → xs ≡ xs ++ []
append_nil [] = refl
append_nil (x ∷ xs) = ap (λ zs. x ∷ zs) (append_nil xs)

abbrev with_order_items : Tables → List (Uuid × OrderItem) → Tables
with_order_items t xs = record t { order_items = t.order_items ++ xs }

abbrev with_invoice_items : Tables → List (Uuid × InvoiceItem) → Tables
with_invoice_items t xs = record t { invoice_items = t.invoice_items ++ xs }

create_order_items_lem :
    (id : Uuid) (lines : List OrderItem) (w w' : World Tables) (u : Unit {0})
    → Store.create_order_items id lines w ≡ done u w'
    → w'.db
      ≡ record w.db { order_items = w.db.order_items ++ map (λ (l : OrderItem). (id, l)) lines }
unfolding Store.create_order_items Sql.create_order_item
create_order_items_lem id [] w w' u e =
    ap (λ (x : World Tables). x.db) (pure-eq-done tt w e).1
    ∙ ap (λ xs. record w.db { order_items = xs }) (append_nil w.db.order_items)
create_order_items_lem id (l ∷ ls) w w' u e =
    let (a, v1, bounded, r1) = >>=-eq-done _ _ w e in
    let k1 = (lift-eq-done _ w bounded).1 in
    let (b, v2, wrote, r2) =
      >>=-eq-done (map_error _ (statement (Sql.create_order_item id l))) _ v1 r1 in
    let k2 = inserted _ _ _ (statement-eq-done _ v1 (map_error-eq-done _ _ v1 wrote)).0 in
    let k3 = create_order_items_lem id ls v2 w' u r2 in
    k3
    ∙ ap (λ (t : Tables). with_order_items t (map (λ (x : OrderItem). (id, x)) ls))
        (k2 ∙ ap (λ (x : World Tables). with_order_items x.db ((id, l) ∷ [])) k1)
    ∙ ap (λ xs. record w.db { order_items = xs })
        (append_assoc w.db.order_items (id, l) (map (λ (x : OrderItem). (id, x)) ls))

create_invoice_items_lem :
    (id : Uuid) (lines : List InvoiceItem) (w w' : World Tables) (u : Unit {0})
    → Store.create_invoice_items id lines w ≡ done u w'
    → w'.db ≡ record w.db {
      invoice_items = w.db.invoice_items ++ map (λ (l : InvoiceItem). (id, l)) lines;
    }
unfolding Store.create_invoice_items Sql.create_invoice_item
create_invoice_items_lem id [] w w' u e =
    ap (λ (x : World Tables). x.db) (pure-eq-done tt w e).1
    ∙ ap (λ xs. record w.db { invoice_items = xs }) (append_nil w.db.invoice_items)
create_invoice_items_lem id (l ∷ ls) w w' u e =
    let (a, v1, bounded, r1) = >>=-eq-done _ _ w e in
    let k1 = (lift-eq-done _ w bounded).1 in
    let (b, v2, wrote, r2) =
      >>=-eq-done (map_error _ (statement (Sql.create_invoice_item id l))) _ v1 r1 in
    let k2 = inserted _ _ _ (statement-eq-done _ v1 (map_error-eq-done _ _ v1 wrote)).0 in
    let k3 = create_invoice_items_lem id ls v2 w' u r2 in
    k3
    ∙ ap (λ (t : Tables). with_invoice_items t (map (λ (x : InvoiceItem). (id, x)) ls))
        (k2 ∙ ap (λ (x : World Tables). with_invoice_items x.db ((id, l) ∷ [])) k1)
    ∙ ap (λ xs. record w.db { invoice_items = xs })
        (append_assoc w.db.invoice_items (id, l) (map (λ (x : InvoiceItem). (id, x)) ls))

record_order_lem :
    (o : Order) (i : Invoice) (w w' : World Tables) (u : Unit {0})
    → record_order o i w ≡ done u w'
    → w'.db ≡ recorded o i w.db
unfolding record_order Store.create_order Store.create_invoice Sql.create_order Sql.create_invoice
record_order_lem o i w w' u e =
    let (v, v', begun, ran, ended) = within_transaction-eq-done _ w e in
    let (a, v1, e1, r1) = >>=-eq-done (Store.create_order o) _ v ran in
    let (b, v2, e2, r2) = >>=-eq-done (map_error _ (statement (Sql.create_order o))) _ v e1 in
    let (c, v3, e3, r3) = >>=-eq-done (Store.create_invoice i) _ v1 r1 in
    let k1 = inserted _ _ _ (statement-eq-done _ v (map_error-eq-done _ _ v e2)).0 in
    let k2 = create_order_items_lem o.id o.items v2 v1 a r2 in
    let k3 = inserted _ _ _ (statement-eq-done _ v1 (map_error-eq-done _ _ v1 e3)).0 in
    let k4 = create_invoice_items_lem i.id i.items v3 v' u r3 in
    let ordered =
      k1
      ∙ ap (λ (t : Tables). record t { orders = t.orders ++ record o { items = [] } ∷ [] }) begun in
    let lined =
      k2
      ∙ ap (λ (t : Tables). with_order_items t (map (λ (l : OrderItem). (o.id, l)) o.items))
          ordered in
    let billed =
      k3
      ∙ ap (λ (t : Tables). record t { invoices = t.invoices ++ record i { items = [] } ∷ [] })
          lined in
    ended
    ∙ k4
    ∙ ap (λ (t : Tables). with_invoice_items t (map (λ (l : InvoiceItem). (i.id, l)) i.items))
        billed

-- The order that is answered has been recorded with one invoice, open, for the order's total,
-- whose items say of every line of the order the same words, quantity, price and total; nothing
-- else has changed.
pub place_order_lem :
    (new_uuid : ℕ → Uuid) (order_random invoice_random : Option ℕ) (user : Uuid)
    (requested : List OrderLineRequest) (discount : Money) (now later : Time) (w w' : World Tables)
    (o : Order)
    → place_order new_uuid order_random invoice_random user requested discount now later w
      ≡ done o w'
    → (i : Invoice) × (i.status ≡ InvoiceStatus.open_status)
      × (i.order_id ≡ some o.id)
      × (i.amount ≡ o.total)
      × Mirrors o.items i.items
      × (w'.db ≡ recorded o i w.db)
unfolding place_order
place_order_lem new_uuid order_random invoice_random user requested discount now later w w' o e =
    let (lines, v1, e1, r1) = >>=-eq-done (order_lines new_uuid requested) _ w e in
    let k1 = (order_lines-Reads new_uuid requested).reads w in
    let (id, v2, e2, r2) = >>=-eq-done (fresh new_uuid) _ v1 r1 in
    let k2 = fresh-eq-done new_uuid v1 e2 in
    let (order, v3, e3, r3) =
      >>=-eq-done (lift (new_order id order_random user lines discount now)) _ v2 r2 in
    let k3 = (lift-eq-done _ v2 e3).1 in
    let (number, v4, e4, r4) = >>=-eq-done (lift (new_number "INV" later invoice_random)) _ v3 r3 in
    let k4 = (lift-eq-done _ v3 e4).1 in
    let (invoice_id, v5, e5, r5) = >>=-eq-done (fresh new_uuid) _ v4 r4 in
    let k5 = fresh-eq-done new_uuid v4 e5 in
    let (items, v6, e6, r6) = >>=-eq-done (invoice_items_for new_uuid order.items) _ v5 r5 in
    let (mirrored, k6) = invoice_items_for-Mirrors new_uuid order.items v5 v6 items e6 in
    let (u, v7, e7, r7) =
      >>=-eq-done (record_order order (order_invoice invoice_id number order items)) _ v6 r6 in
    let k7 = record_order_lem order (order_invoice invoice_id number order items) v6 v7 u e7 in
    let (same, last) = pure-eq-done order v7 r7 in
    let db = k6 ∙ k5 ∙ ap (λ (x : World Tables). x.db) (k4 ∙ k3) ∙ k2 ∙ (rw e1 at k1) in
    let i = order_invoice invoice_id number order items in
    rw (sym same) (
      i,
      refl,
      refl,
      refl,
      mirrored,
      ap (λ (x : World Tables). x.db) last ∙ k7 ∙ ap (λ (t : Tables). recorded order i t) db,
    )
