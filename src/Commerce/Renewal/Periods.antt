-- ===== src/Commerce/Renewal/Periods.antt =====
-- The subscription's row as it is moved and as it is renewed (commerce/subscription_service.go
-- `transitionLive` and `payRenewalInvoice`).
use vps_billing_workbuddy.Prelude.{
  ℕ, ◌≡◌, ◌≤◌, ◌+◌, ◌==◌, refl, sym, ap, ◌∙◌, ◌⊎◌, inl, inr, Bool, true, false, Option, none, some,
  arith, Bool-cases, String,
}
use vps_billing_workbuddy.Prelude.Int.{ℤ}
use vps_billing_workbuddy.Errors.{Error, ok, extension_lost}
use vps_billing_workbuddy.Money.{Currency}
use vps_billing_workbuddy.Database.{
  World, done, failed, world_after, Outcome-cases, >>=-eq-done, statement-eq-done,
  within_transaction, within_transaction-eq-done, within_transaction-eq-failed,
}
use vps_billing_workbuddy.Ledger.{Uuid, signed}
use vps_billing_workbuddy.Calendar.{Time}
use vps_billing_workbuddy.Rows.Updates.{one_updated, at_most_one}
use vps_billing_workbuddy.Rows.Laws.{update_where_none}
use vps_billing_workbuddy.Commerce.States.{SubscriptionStatus, subscription_eq}
use vps_billing_workbuddy.Commerce.Types.{Invoice, Subscription}
use vps_billing_workbuddy.Commerce.Tables.{Tables, Wallet, first_where, count_where}
use vps_billing_workbuddy.Commerce.Cycle.{add_billing_cycle}
use vps_billing_workbuddy.Commerce.Sql
use vps_billing_workbuddy.Commerce.Sql.Subscriptions as SubscriptionSql
use vps_billing_workbuddy.Commerce.Store.{Call, apply_projection}
use vps_billing_workbuddy.Commerce.Store.Subscriptions.{
  mark_subscription_invoice_paid, extend_subscription, transition_subscription,
}
use vps_billing_workbuddy.Commerce.Store.Effects.{
  ok_pair, lift-eq-done, pure-eq-done, throw-eq-done, fresh-eq-done, record_outbox_event_lem,
}
use vps_billing_workbuddy.Commerce.Store.Postings.{post_lem}
use vps_billing_workbuddy.Commerce.Renewal.Unpaid.{
  mark_rows, charge_pays, unless_lost-done, unless_lost-failed,
}
use vps_billing_workbuddy.Commerce.Renewal.Wallet.{lock_wallet_lem, bigint-ok}
use vps_billing_workbuddy.Commerce.Renewal.{
  charge, renewal_posting, renewal_body, unless_lost, pay_renewal_invoice, record_move,
  record_renewal, transition_event, transition_live,
}

abbrev pub has_id : Uuid → Subscription → Bool
has_id id s = s.id == id

-- The row of a subscription.
abbrev pub row_of : Uuid → Tables → Option Subscription
row_of id t = first_where (has_id id) t.subscriptions

-- The row was seen in a status and is in another one, with a deadline and an end; its terms and its
-- period are the same.
pub record IsMoved (id : Uuid) (from to : SubscriptionStatus) (deadline ended_at : Option Time)
    (t t' : Tables) : Type 0 where
  pub past : Subscription
  pub present : Subscription
  pub found : row_of id t ≡ some past
  pub stored : row_of id t' ≡ some present
  pub from_seen : past.status ≡ from
  pub status : present.status ≡ to
  pub grace : present.grace_until ≡ deadline
  pub ended : present.ended_at ≡ ended_at
  pub version : present.version ≡ past.version + 1
  pub same_price : present.price ≡ past.price
  pub same_cycle : present.billing_cycle ≡ past.billing_cycle
  pub same_start : present.current_period_start ≡ past.current_period_start
  pub same_end : present.current_period_end ≡ past.current_period_end

-- The row is active, for the cycle after the period that was seen.
pub record IsRenewed (s : Subscription) (t t' : Tables) : Type 0 where
  pub past : Subscription
  pub present : Subscription
  pub found : row_of s.id t ≡ some past
  pub stored : row_of s.id t' ≡ some present
  pub active : present.status ≡ SubscriptionStatus.active
  pub from_end : present.current_period_start ≡ s.current_period_end
  pub one_cycle :
      add_billing_cycle s.billing_cycle s.current_period_end ≡ ok present.current_period_end
  pub due_at_end : present.next_due_at ≡ present.current_period_end
  pub no_grace : present.grace_until ≡ none
  pub version : present.version ≡ past.version + 1
  pub same_price : present.price ≡ past.price
  pub same_cycle : present.billing_cycle ≡ past.billing_cycle

-- The subscriptions are as they were.
abbrev pub Same : Tables → Tables → Type 0
Same t t' = t'.subscriptions ≡ t.subscriptions

-- Identifiers name one row at most.
abbrev pub IsKey : Uuid → Tables → Type 0
IsKey id t = count_where (has_id id) t.subscriptions ≤ 1

pub IsKey-Same : (id : Uuid) (t t' : Tables) → Same t t' → IsKey id t → IsKey id t'
IsKey-Same id t t' same k = rw same k

equal_status : (a b : SubscriptionStatus) → subscription_eq a b ≡ true → a ≡ b
equal_status a b h = ground arith

transition_rows :
    (id : Uuid) (from to : SubscriptionStatus) (deadline ended_at : Option Time) (at : Time)
    (t : Tables) {n : ℕ} {t' : Tables}
    → IsKey id t
    → SubscriptionSql.transition_subscription id from to deadline ended_at at t ≡ ok (n, t')
    → ((n == 1) ≡ true × IsMoved id from to deadline ended_at t t') ⊎ ((n == 1) ≡ false × Same t t')
unfolding SubscriptionSql.transition_subscription
transition_rows id from to deadline ended_at at t k h =
    let test = SubscriptionSql.is_movable id from to at in
    let change = SubscriptionSql.moved_row to deadline ended_at in
    let (counted, moved) = ok_pair h in
    elim (at_most_one (has_id id) test (λ s hit. ground arith) t.subscriptions k) [
      | inl missed ↦ inr (
        ground arith,
        ap Tables.subscriptions (sym moved) ∙ update_where_none test change t.subscriptions missed,
      )
      | inr hit ↦
          let (past, found, tested, stored) =
            one_updated (has_id id) test change (λ s hit. ground arith) (λ s. refl) t.subscriptions
              k hit in
          inl (
            ground arith,
            record {
              past = past;
              present = change past;
              found = found;
              stored = ap (row_of id) (sym moved) ∙ stored;
              from_seen = equal_status past.status from (ground arith);
              status = refl;
              grace = refl;
              ended = refl;
              version = refl;
              same_price = refl;
              same_cycle = refl;
              same_start = refl;
              same_end = refl;
            },
          )
    ]

extend_rows :
    (s : Subscription) (end : Time) (t : Tables) {n : ℕ} {t' : Tables}
    → IsKey s.id t
    → add_billing_cycle s.billing_cycle s.current_period_end ≡ ok end
    → (n == 1) ≡ true
    → SubscriptionSql.extend_subscription s.id s.current_period_end end t ≡ ok (n, t')
    → IsRenewed s t t'
unfolding SubscriptionSql.extend_subscription
extend_rows s end t k cycle one h =
    let test = SubscriptionSql.is_extendable s.id in
    let change = SubscriptionSql.extended_row s.current_period_end end in
    let (counted, moved) = ok_pair h in
    let (past, found, tested, stored) =
      one_updated (has_id s.id) test change (λ s hit. ground arith) (λ s. refl) t.subscriptions k
        (ground arith) in
    record {
      past = past;
      present = change past;
      found = found;
      stored = ap (row_of s.id) (sym moved) ∙ stored;
      active = refl;
      from_end = refl;
      one_cycle = cycle;
      due_at_end = refl;
      no_grace = refl;
      version = refl;
      same_price = refl;
      same_cycle = refl;
    }

IsMoved-Same :
    {id : Uuid} {from to : SubscriptionStatus} {deadline ended_at : Option Time} {t t2 t' : Tables}
    → IsMoved id from to deadline ended_at t t2
    → Same t2 t'
    → IsMoved id from to deadline ended_at t t'
IsMoved-Same {id = id} h after = record {
  past = h.past;
  present = h.present;
  found = h.found;
  stored = ap (first_where (has_id id)) after ∙ h.stored;
  from_seen = h.from_seen;
  status = h.status;
  grace = h.grace;
  ended = h.ended;
  version = h.version;
  same_price = h.same_price;
  same_cycle = h.same_cycle;
  same_start = h.same_start;
  same_end = h.same_end;
}

pub IsMoved-before :
    {id : Uuid} {from to : SubscriptionStatus} {deadline ended_at : Option Time} {t t2 t' : Tables}
    → IsMoved id from to deadline ended_at t2 t'
    → Same t t2
    → IsMoved id from to deadline ended_at t t'
IsMoved-before {id = id} h before = record {
  past = h.past;
  present = h.present;
  found = ap (first_where (has_id id)) (sym before) ∙ h.found;
  stored = h.stored;
  from_seen = h.from_seen;
  status = h.status;
  grace = h.grace;
  ended = h.ended;
  version = h.version;
  same_price = h.same_price;
  same_cycle = h.same_cycle;
  same_start = h.same_start;
  same_end = h.same_end;
}

pub IsRenewed-Same :
    (s : Subscription) (t1 t t2 t' : Tables)
    → Same t1 t
    → Same t2 t'
    → IsRenewed s t1 t2
    → IsRenewed s t t'
IsRenewed-Same s t1 t t2 t' before after h = record {
  past = h.past;
  present = h.present;
  found = ap (first_where (has_id s.id)) before ∙ h.found;
  stored = ap (first_where (has_id s.id)) after ∙ h.stored;
  active = h.active;
  from_end = h.from_end;
  one_cycle = h.one_cycle;
  due_at_end = h.due_at_end;
  no_grace = h.no_grace;
  version = h.version;
  same_price = h.same_price;
  same_cycle = h.same_cycle;
}

done_pair : {A : Type 0} {a b : A} {v w : World Tables} → done a v ≡ done b w → (a ≡ b) × (v ≡ w)
done_pair h = (cc, cc)

unless_lost-false :
    (m : Call Bool) (w : World Tables) {e : Error} {v : World Tables} {b : Bool} {w' : World Tables}
    → m w ≡ failed e v
    → unless_lost m w ≡ done b w'
    → b ≡ false
unfolding unless_lost
unless_lost-false m w f h = ground arith

upserted-Same :
    (o : Option Wallet) (id user : Uuid) (c : Currency) (delta : ℤ) (t : Tables) {u : Unit {0}}
    {t' : Tables}
    → Sql.upsert o id user c delta t ≡ ok (u, t')
    → Same t t'
upserted-Same none id user c delta t h = ap Tables.subscriptions (sym (ok_pair h).1)
upserted-Same (some w) id user c delta t h =
    ap Tables.subscriptions (sym (ok_pair (bigint-ok _ _ h)).1)

upsert-Same :
    (id user : Uuid) (c : Currency) (delta : ℤ) (t : Tables) {u : Unit {0}} {t' : Tables}
    → Sql.upsert_wallet_balance id user c delta t ≡ ok (u, t')
    → Same t t'
unfolding Sql.upsert_wallet_balance
upsert-Same id user c delta t h = upserted-Same _ id user c delta t h

mark-Same :
    (id : Uuid) (w : World Tables) {b : Bool} {w' : World Tables}
    → mark_subscription_invoice_paid id w ≡ done b w'
    → Same w.db w'.db
unfolding mark_subscription_invoice_paid
mark-Same id w h =
    let (n, v, marked, ended) = >>=-eq-done _ _ w h in
    ap (λ (z : World Tables). z.db.subscriptions) (pure-eq-done _ v ended).1
    ∙ ap Tables.subscriptions (mark_rows id w.db (statement-eq-done _ w marked).0).1

module _ (new_uuid : ℕ → Uuid) where
  projection-Same :
      (id user : Uuid) (i : Invoice) (w : World Tables) {u : Unit {0}} {w' : World Tables}
      → apply_projection new_uuid (renewal_posting id user i).entries w ≡ done u w'
      → Same w.db w'.db
  unfolding apply_projection signed
  projection-Same id user i w h =
      let (a, v, moved, rest) = >>=-eq-done _ _ w h in
      let (wallet_id, v', drawn, written) = >>=-eq-done _ _ w moved in
      let (b, v2, skipped, rest') = >>=-eq-done _ _ v rest in
      ap (λ (z : World Tables). z.db.subscriptions)
        ((pure-eq-done tt v2 rest').1 ∙ (pure-eq-done tt v skipped).1)
      ∙ upsert-Same _ user i.amount.currency _ v'.db (statement-eq-done _ v' written).0
      ∙ ap Tables.subscriptions (fresh-eq-done new_uuid w drawn)

  record_renewal-Same :
      (s : Subscription) (i : Invoice) (end : Time) (w : World Tables) {b : Bool}
      {w' : World Tables}
      → record_renewal new_uuid s i end w ≡ done b w'
      → Same w.db w'.db
  record_renewal-Same s i end w h =
      let (event_id, v, drawn, h1) = >>=-eq-done _ _ w h in
      let (u, v1, recorded, h2) = >>=-eq-done _ _ v h1 in
      ap (λ (z : World Tables). z.db.subscriptions) (pure-eq-done true v1 h2).1
      ∙ ap Tables.subscriptions (record_outbox_event_lem _ v recorded)
      ∙ ap Tables.subscriptions (fresh-eq-done new_uuid w drawn)

  -- A charge that is done has renewed the subscription.
  charge-IsRenewed :
      (s : Subscription) (i : Invoice) (w : World Tables) {b : Bool} {w' : World Tables}
      → IsKey s.id w.db
      → charge new_uuid s i w ≡ done b w'
      → IsRenewed s w.db w'.db
  unfolding charge extend_subscription
  charge-IsRenewed s i w {w' = w'} k h =
      let (balance, v0, locked, h0) = >>=-eq-done _ _ w h in
      let t0 = (lock_wallet_lem s.user_id i.amount.currency w locked).1 in
      let (u, v1, covered, h1) = >>=-eq-done _ _ v0 h0 in
      let t1 = (lift-eq-done _ v0 covered).1 in
      let (id, v2, drawn, h2) = >>=-eq-done _ _ v1 h1 in
      let t2 = fresh-eq-done new_uuid v1 drawn in
      let (u2, v3, posted, h3) = >>=-eq-done _ _ v2 h2 in
      let (verified, (x, t3, applied)) =
        post_lem new_uuid (renewal_posting id s.user_id i) v2 posted in
      let projected = projection-Same id s.user_id i x applied in
      let (end, v4, dated, h4) = >>=-eq-done _ _ v3 h3 in
      let (cycle, t4) = lift-eq-done _ v3 dated in
      let (extended, v5, extending, h5) = >>=-eq-done _ _ v4 h4 in
      let (n, v6, ran, ended) = >>=-eq-done _ _ v4 extending in
      let (answer, t6) = pure-eq-done _ v6 ended in
      let same : Same w.db v4.db =
        ap (λ (z : World Tables). z.db.subscriptions) t4
        ∙ projected
        ∙ ap Tables.subscriptions t3
        ∙ ap Tables.subscriptions (t2 ∙ ap World.db t1 ∙ t0) in
      elim (Bool-cases extended) [
        | inl kept ↦
            let after : Same v6.db w'.db =
              record_renewal-Same s i end v5 (rw kept at h5)
              ∙ ap (λ (z : World Tables). z.db.subscriptions) t6 in
            IsRenewed-Same s v4.db w.db v6.db w'.db (sym same) after (
              extend_rows s end v4.db (IsKey-Same s.id w.db v4.db same k) cycle (answer ∙ kept)
                (statement-eq-done _ v4 ran).0)
        | inr lost ↦ throw-eq-done extension_lost v5 (rw lost at h5)
      ]

  body-IsRenewed :
      (s : Subscription) (i : Invoice) (w : World Tables) {b : Bool} {w' : World Tables}
      → IsKey s.id w.db
      → renewal_body new_uuid s i w ≡ done b w'
      → ((b ≡ true) × IsRenewed s w.db w'.db) ⊎ ((b ≡ false) × Same w.db w'.db)
  unfolding renewal_body
  body-IsRenewed s i w {w' = w'} k h =
      let (applied, v, gate, rest) = >>=-eq-done _ _ w h in
      let marked = mark-Same i.id w gate in
      elim (Bool-cases applied) [
        | inl won ↦
            let ran = rw won at rest in
            inl (
              charge_pays new_uuid s i v ran,
              IsRenewed-Same s v.db w.db w'.db w'.db (sym marked) refl
                  (charge-IsRenewed s i v (IsKey-Same s.id w.db v.db marked k) ran),
            )
        | inr lost ↦
            let (answer, same) = pure-eq-done false v (rw lost at rest) in
            inr (sym answer, ap (λ (z : World Tables). z.db.subscriptions) same ∙ marked)
      ]

  body-cases :
      (s : Subscription) (i : Invoice) (w u u' v : World Tables) (paid b : Bool) (w' : World Tables)
      → IsKey s.id w.db
      → u.db ≡ w.db
      → renewal_body new_uuid s i u ≡ done paid u'
      → v.db ≡ u'.db
      → paid ≡ b
      → v ≡ w'
      → ((b ≡ true) × IsRenewed s w.db w'.db) ⊎ ((b ≡ false) × Same w.db w'.db)
  body-cases s i w u u' v paid b w' k begun body kept answer ended =
      let start : Same w.db u.db = ap Tables.subscriptions begun in
      let end : Same u'.db w'.db = ap Tables.subscriptions (ap World.db (sym ended) ∙ kept) in
      elim (body-IsRenewed s i u (IsKey-Same s.id w.db u.db start k) body) [
        | inl (won, renewed) ↦
            inl (sym answer ∙ won, IsRenewed-Same s u.db w.db u'.db w'.db (sym start) end renewed)
        | inr (lost, same) ↦ inr (sym answer ∙ lost, end ∙ same ∙ start)
      ]

  -- A renewal that is paid has renewed the subscription, and one that is not leaves it as it was.
  pub pay-IsRenewed :
      (s : Subscription) (i : Invoice) (w : World Tables) {b : Bool} {w' : World Tables}
      → IsKey s.id w.db
      → pay_renewal_invoice new_uuid s i w ≡ done b w'
      → ((b ≡ true) × IsRenewed s w.db w'.db) ⊎ ((b ≡ false) × Same w.db w'.db)
  unfolding pay_renewal_invoice
  pay-IsRenewed s i w {b} {w'} k h =
      elim (Outcome-cases (within_transaction (renewal_body new_uuid s i) w)) [
        | inl (paid, v, ran) ↦
            let answer = unless_lost-done (within_transaction (renewal_body new_uuid s i)) w ran in
            let (u, u', begun, body, kept) =
              within_transaction-eq-done (renewal_body new_uuid s i) w ran in
            let (same_answer, same_world) = done_pair (sym answer ∙ h) in
            body-cases s i w u u' v paid b w' k begun body kept same_answer same_world
        | inr (e, v, failure) ↦
            let answer =
              unless_lost-failed (within_transaction (renewal_body new_uuid s i)) w failure in
            let kept = within_transaction-eq-failed (renewal_body new_uuid s i) w failure in
            inr (
              unless_lost-false _ w failure h,
              ap Tables.subscriptions (ap World.db (sym (ap world_after h) ∙ answer) ∙ kept),
            )
      ]

  record_move-Same :
      (event : Option String) (s : Subscription) (to : SubscriptionStatus) (now : Time)
      (w : World Tables) {b : Bool} {w' : World Tables}
      → record_move new_uuid event s to now w ≡ done b w'
      → (b ≡ true) × Same w.db w'.db
  record_move-Same none s to now w h = throw-eq-done _ w h
  record_move-Same (some event_type) s to now w h =
      let (event_id, v, drawn, h1) = >>=-eq-done _ _ w h in
      let (u, v1, recorded, h2) = >>=-eq-done _ _ v h1 in
      let (answer, same) = pure-eq-done true v1 h2 in
      (
        sym answer,
        ap (λ (z : World Tables). z.db.subscriptions) same
            ∙ ap Tables.subscriptions (record_outbox_event_lem _ v recorded)
            ∙ ap Tables.subscriptions (fresh-eq-done new_uuid w drawn),
      )

  -- A move that is applied has moved the row, and one that is not leaves the rows as they were.
  pub transition_live-IsMoved :
      (s : Subscription) (to : SubscriptionStatus) (deadline ended_at : Option Time) (now : Time)
      (w : World Tables) {b : Bool} {w' : World Tables}
      → IsKey s.id w.db
      → transition_live new_uuid s to deadline ended_at now w ≡ done b w'
      → ((b ≡ true) × IsMoved s.id s.status to deadline ended_at w.db w'.db)
        ⊎ ((b ≡ false) × Same w.db w'.db)
  unfolding transition_live transition_subscription
  transition_live-IsMoved s to deadline ended_at now w {w' = w'} k h =
      let (applied, v, moving, rest) = >>=-eq-done _ _ w h in
      let (n, v1, ran, ended) = >>=-eq-done _ _ w moving in
      let (answer, same) = pure-eq-done (n == 1) v1 ended in
      let after = ap (λ (z : World Tables). z.db.subscriptions) same in
      elim (transition_rows s.id s.status to deadline ended_at now w.db k
        (statement-eq-done _ w ran).0) [
          | inl (one, m) ↦
              let (won, recorded) =
                record_move-Same (transition_event to) s to now v (rw (sym answer ∙ one) at rest) in
              inl (won, IsMoved-Same m (recorded ∙ after))
          | inr (other, kept) ↦
              let (lost, stayed) = pure-eq-done false v (rw (sym answer ∙ other) at rest) in
              inr (sym lost, ap (λ (z : World Tables). z.db.subscriptions) stayed ∙ after ∙ kept)
        ]
