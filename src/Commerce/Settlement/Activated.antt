-- ===== src/Commerce/Settlement/Activated.antt =====
-- What the activation of a settled order's lines writes (commerce/subscription_service.go
-- `activateSubscriptionsFromOrder`).
use vps_billing_workbuddy.Prelude.{
  ℕ, ◌≡◌, refl, sym, ap, ◌∙◌, Bool, false, Option, none, some, List, [], ◌∷◌, ◌++◌, map, ◌==◌,
}
use mathlib.Core.List.{append_assoc, append-nil}
use vps_billing_workbuddy.Errors.{ok}
use vps_billing_workbuddy.Database.{World, done, >>=-eq-done, statement-eq-done}
use vps_billing_workbuddy.Ledger.{Uuid}
use vps_billing_workbuddy.Calendar.{Time}
use vps_billing_workbuddy.Commerce.Types.{Order, OrderItem, Subscription}
use vps_billing_workbuddy.Commerce.Tables.{Tables, OutboxEvent, Value, first_where, all_where}
use vps_billing_workbuddy.Commerce.Sql
use vps_billing_workbuddy.Commerce.Sql.Subscriptions as SubscriptionSql
use vps_billing_workbuddy.Commerce.Store.{to_order_item}
use vps_billing_workbuddy.Commerce.States.{SubscriptionStatus}
use vps_billing_workbuddy.Commerce.Cycle.{add_billing_cycle}
use vps_billing_workbuddy.Commerce.Store.Subscriptions.{order_for_settlement, create_subscription}
use vps_billing_workbuddy.Commerce.Store.Effects.{
  lift-eq-done, pure-eq-done, map_error-eq-done, ok_pair, inserted, record_outbox_event_lem,
  fresh-eq-done,
}
use vps_billing_workbuddy.Commerce.Activation.{
  activate_line, activate_lines, activate_subscriptions_from_order,
}

row_read :
    {A : Type 0} (o : Option A) (t : Tables) {a : A} {t' : Tables}
    → Sql.one_row o t ≡ ok (a, t')
    → (t' ≡ t) × (o ≡ some a)
row_read none t h = cc
row_read (some x) t h = (sym (ok_pair h).1, ap some (ok_pair h).0)

order_read :
    (id : Uuid) (t : Tables) {a : Order} {t' : Tables}
    → SubscriptionSql.order_by_id_for_settlement id t ≡ ok (a, t')
    → (t' ≡ t) × (first_where (λ (o : Order). o.id == id) t.orders ≡ some a)
unfolding SubscriptionSql.order_by_id_for_settlement
order_read id t h = row_read _ t h

abbrev pub is_line_of : Uuid → Uuid × OrderItem → Bool
is_line_of id r = r.0 == id

-- The lines of an order, as they are read, each priced in the currency of its snapshot.
abbrev pub lines_of : Uuid → List (Uuid × OrderItem) → List OrderItem
lines_of id rows =
    map
      (λ (r : Uuid × OrderItem). record (r.1) {
        unit_price = record {
          amount_minor = r.1.unit_price.amount_minor;
          currency = r.1.plan_snapshot.currency;
        };
      })
      (all_where (is_line_of id) rows)

items_read :
    (id : Uuid) (t : Tables) {a : List (Uuid × OrderItem)} {t' : Tables}
    → Sql.order_items_for_order id t ≡ ok (a, t')
    → (t' ≡ t) × (a ≡ all_where (is_line_of id) t.order_items)
unfolding Sql.order_items_for_order
items_read id t h = (sym (ok_pair h).1, sym (ok_pair h).0)

-- Reading the order with its lines changes nothing, and reads the row of the order with its lines.
pub order_for_settlement_lem :
    (id : Uuid) (w : World Tables) {o : Order} {w' : World Tables}
    → order_for_settlement id w ≡ done o w'
    → (w'.db ≡ w.db)
      × (o.items ≡ lines_of id w.db.order_items)
      × ((row : Order) × (first_where (λ (o : Order). o.id == id) w.db.orders ≡ some row)
          × (o.user_id ≡ row.user_id)
          × (o.id ≡ row.id))
unfolding order_for_settlement
order_for_settlement_lem id w h =
    let (row, v, found, rest) = >>=-eq-done _ _ w h in
    let (tables, there) =
      order_read id w.db (statement-eq-done _ w (map_error-eq-done _ _ w found)).0 in
    let (items, v', listed, ended) = >>=-eq-done _ _ v rest in
    let (rows, v2, queried, mapped) = >>=-eq-done _ _ v listed in
    let (tables', count) = items_read id v.db (statement-eq-done _ v queried).0 in
    let (listed_rows, same2) = pure-eq-done _ v2 mapped in
    let (read, same) = pure-eq-done _ v' ended in
    (
      ap World.db same ∙ ap World.db same2 ∙ tables' ∙ tables,
      ap Order.items (sym read)
          ∙ sym listed_rows
          ∙ ap (map (λ (r : Uuid × OrderItem). to_order_item r.1)) count
          ∙ ap (λ (t : Tables). lines_of id t.order_items) tables,
      (row, there, ap Order.user_id (sym read), ap Order.id (sym read)),
    )

-- The line of the order bought the subscription, from now on and for one cycle, and the event tells it.
pub record Activates (now : Time) (user_id order_id : Uuid) (line : OrderItem) (s : Subscription)
    (e : OutboxEvent) : Type 0 where
  pub user : s.user_id ≡ user_id
  pub plan : s.plan_id ≡ line.plan_id
  pub active : s.status ≡ SubscriptionStatus.active
  pub cycle : s.billing_cycle ≡ line.plan_snapshot.billing_cycle
  pub price : s.price ≡ line.unit_price
  pub started_now : s.started_at ≡ some now
  pub from_now : s.current_period_start ≡ now
  pub one_cycle : add_billing_cycle line.plan_snapshot.billing_cycle now ≡ ok s.current_period_end
  pub due_at_end : s.next_due_at ≡ s.current_period_end
  pub no_grace : s.grace_until ≡ none
  pub renews : s.cancel_at_period_end ≡ false
  pub not_ended : s.ended_at ≡ none
  pub first_version : s.version ≡ 1
  pub event_type : e.event_type ≡ "subscription.activated.v1"
  pub aggregate_type : e.aggregate_type ≡ "subscription"
  pub aggregate_id : e.aggregate_id ≡ s.id
  pub payload :
      e.payload
      ≡ ("subscription_id", Value.id_text s.id)
        ∷ ("user_id", Value.id_text user_id)
        ∷ ("plan_id", Value.id_text line.plan_id)
        ∷ ("billing_cycle", Value.text line.plan_snapshot.billing_cycle)
        ∷ ("order_id", Value.id_text order_id)
        ∷ ("current_period_end", Value.rfc3339 s.current_period_end)
        ∷ []

-- The subscriptions and the events are those of the lines, one of each for a line and in their order.
abbrev pub AreActivated :
    Time → Uuid → Uuid → List OrderItem → List Subscription → List OutboxEvent → Type 0
AreActivated now user_id order_id [] [] [] = Unit
AreActivated now user_id order_id (line ∷ lines) (s ∷ ss) (e ∷ es) =
    Activates now user_id order_id line s e × AreActivated now user_id order_id lines ss es
AreActivated now user_id order_id lines ss es = ⊥

-- Only the subscriptions of the lines and their events are added.
pub record Adds (now : Time) (order : Order) (lines : List OrderItem) (t t' : Tables) : Type 0 where
  pub subscriptions : List Subscription
  pub events : List OutboxEvent
  pub tables :
      t'
      ≡ record t { subscriptions = t.subscriptions ++ subscriptions; outbox = t.outbox ++ events }
  pub activated : AreActivated now order.user_id order.id lines subscriptions events

none_added : (now : Time) (order : Order) (t t' : Tables) → t' ≡ t → Adds now order [] t t'
none_added now order t t' h = record {
  subscriptions = [];
  events = [];
  tables = h ∙ (λ i. record t {
    subscriptions = sym (append-nil t.subscriptions) i;
    outbox = sym (append-nil t.outbox) i;
  });
  activated = tt;
}

one_added :
    (now : Time) (order : Order) (line : OrderItem) (lines : List OrderItem) (s : Subscription)
    (e : OutboxEvent) (t u v : Tables)
    → u ≡ record t { subscriptions = t.subscriptions ++ s ∷ []; outbox = t.outbox ++ e ∷ [] }
    → Activates now order.user_id order.id line s e
    → Adds now order lines u v
    → Adds now order (line ∷ lines) t v
one_added now order line lines s e t u v h one a = record {
  subscriptions = s ∷ a.subscriptions;
  events = e ∷ a.events;
  tables = rw h at a.tables ∙ (λ i. record t {
    subscriptions = append_assoc t.subscriptions (s ∷ []) a.subscriptions i;
    outbox = append_assoc t.outbox (e ∷ []) a.events i;
  });
  activated = (one, a.activated);
}

subscription_row :
    (s : Subscription) (t : Tables) {u : Unit {0}} {t' : Tables}
    → SubscriptionSql.create_subscription s t ≡ ok (u, t')
    → t' ≡ record t { subscriptions = t.subscriptions ++ s ∷ [] }
unfolding SubscriptionSql.create_subscription
subscription_row s t h = inserted _ _ _ h

create_subscription_lem :
    (s : Subscription) (w : World Tables) {u : Unit {0}} {w' : World Tables}
    → create_subscription s w ≡ done u w'
    → w'.db ≡ record w.db { subscriptions = w.db.subscriptions ++ s ∷ [] }
unfolding create_subscription
create_subscription_lem s w h =
    subscription_row s w.db (statement-eq-done _ w (map_error-eq-done _ _ w h)).0

module _ (new_uuid : ℕ → Uuid) where
  activate_line_lem :
      (order : Order) (line : OrderItem) (now : Time) (w : World Tables) {u : Unit {0}}
      {w' : World Tables}
      → activate_line new_uuid order line now w ≡ done u w'
      → (s : Subscription) × (e : OutboxEvent) × (w'.db ≡ record w.db {
        subscriptions = w.db.subscriptions ++ s ∷ [];
        outbox = w.db.outbox ++ e ∷ [];
      })
        × Activates now order.user_id order.id line s e
  activate_line_lem order line now w h =
      let (period_end, v0, priced, h0) = >>=-eq-done _ _ w h in
      let (cycle, same) = lift-eq-done _ w priced in
      let (id, v1, drawn, h1) = >>=-eq-done _ _ v0 h0 in
      let kept = fresh-eq-done new_uuid v0 drawn in
      let (a, v2, created, h2) = >>=-eq-done _ _ v1 h1 in
      let tables = create_subscription_lem _ v1 created in
      let (event_id, v3, drawn', h3) = >>=-eq-done _ _ v2 h2 in
      let kept' = fresh-eq-done new_uuid v2 drawn' in
      let tables' = record_outbox_event_lem _ v3 h3 in
      let start = kept ∙ ap World.db same in
      (
        _,
        _,
        rw start at (rw tables at (rw kept' at tables')),
        record {
          user = refl;
          plan = refl;
          active = refl;
          cycle = refl;
          price = refl;
          started_now = refl;
          from_now = refl;
          one_cycle = cycle;
          due_at_end = refl;
          no_grace = refl;
          renews = refl;
          not_ended = refl;
          first_version = refl;
          event_type = refl;
          aggregate_type = refl;
          aggregate_id = refl;
          payload = refl;
        },
      )

  -- Every line of the order adds its subscription and its event.
  activate_lines_lem :
      (order : Order) (lines : List OrderItem) (now : Time) (w : World Tables) {u : Unit {0}}
      {w' : World Tables}
      → activate_lines new_uuid order lines now w ≡ done u w'
      → Adds now order lines w.db w'.db
  unfolding activate_lines
  activate_lines_lem order [] now w h =
      none_added now order _ _ (ap World.db (pure-eq-done tt w h).1)
  activate_lines_lem order (line ∷ lines) now w h =
      let (a, v, first, rest) = >>=-eq-done _ _ w h in
      let (s, e, tables, one) = activate_line_lem order line now w first in
      one_added now order line lines s e w.db v.db _ tables one
        (activate_lines_lem order lines now v rest)

  pub activated_lem :
      (order : Order) (now : Time) (w : World Tables) {u : Unit {0}} {w' : World Tables}
      → activate_subscriptions_from_order new_uuid order now w ≡ done u w'
      → Adds now order order.items w.db w'.db
  unfolding activate_subscriptions_from_order
  activated_lem order now w h = activate_lines_lem order order.items now w h
