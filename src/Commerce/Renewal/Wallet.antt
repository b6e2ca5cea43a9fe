-- ===== src/Commerce/Renewal/Wallet.antt =====
-- The wallet of a renewal that is paid (commerce/subscription_service.go `payRenewalInvoice`).
use vps_billing_workbuddy.Prelude.{
  ℕ, ◌≡◌, refl, sym, ap, ◌∙◌, inl, inr, Bool, true, false, Option, none, some, List, [], ◌∷◌, ◌++◌,
  arith, Bool-cases, str_eq_iff,
}
use vps_billing_workbuddy.Prelude.Int.{ℤ, pos, ◌+ℤ◌, ◌-ℤ◌, ◌≤ℤ◌, ltb_ℤ}
use vps_billing_workbuddy.Prelude.Int64.{◌-w◌, Fits, wrap64-Fits}
use vps_billing_workbuddy.Errors.{
  Error, Result, ok, err, balance_short, extension_lost, no_rows, refuse_if-eq-ok,
}
use vps_billing_workbuddy.Database.{
  World, done, failed, statement, Outcome-cases, >>=-eq-done, statement-eq-done,
  statement-eq-failed, statement-eq-no_rows, within_transaction, within_transaction-eq-done,
}
use vps_billing_workbuddy.Money.{Money, Currency}
use vps_billing_workbuddy.Ledger.{Uuid, signed, Transaction, verify, verify_entries}
use vps_billing_workbuddy.Ledger.Balance.{verify_entries_iff}
use vps_billing_workbuddy.Calendar.{Time}
use vps_billing_workbuddy.Commerce.Types.{Invoice, Subscription}
use vps_billing_workbuddy.Commerce.Tables.{Tables, Wallet, first_where, update_where}
use vps_billing_workbuddy.Commerce.Sql
use vps_billing_workbuddy.Commerce.Sql.Subscriptions as SubscriptionSql
use vps_billing_workbuddy.Commerce.Store.{Call, apply_projection}
use vps_billing_workbuddy.Commerce.Store.Subscriptions.{
  mark_subscription_invoice_paid, lock_wallet_for_spend, balance_of, extend_subscription,
}
use vps_billing_workbuddy.Commerce.Store.Effects.{
  ok_pair, lift-eq-done, pure-eq-done, throw-eq-done, fresh-eq-done, record_outbox_event_lem,
}
use vps_billing_workbuddy.Commerce.Store.Postings.{post_lem}
use vps_billing_workbuddy.Commerce.Renewal.Unpaid.{mark_rows}
use vps_billing_workbuddy.Commerce.Renewal.{
  charge, renewal_posting, record_renewal, renewal_body, unless_lost, pay_renewal_invoice,
}

abbrev pub balance_minor_of : Option Wallet → ℤ
balance_minor_of none = pos 0
balance_minor_of (some w) = w.balance_minor

-- What a customer holds in a currency; a customer without a wallet holds nothing.
abbrev pub held : Uuid → Currency → Tables → ℤ
held user currency t = balance_minor_of (first_where (Sql.is_wallet_of user currency) t.wallets)

-- The first wallet after the ones of an owner were credited, and after one was added.
first_credited :
    (user : Uuid) (c : Currency) (delta : ℤ) (ws : List Wallet) (w : Wallet)
    → first_where (Sql.is_wallet_of user c) ws ≡ some w
    → first_where
        (Sql.is_wallet_of user c)
        (update_where (Sql.is_wallet_of user c) (Sql.credited delta) ws)
      ≡ some (Sql.credited delta w)
unfolding first_where update_where
first_credited user c delta [] w h = cc
first_credited user c delta (x ∷ xs) w h = ground (arith, first_credited user c delta xs w)

first_added :
    {A : Type 0} (test : A → Bool) (xs : List A) (x : A)
    → first_where test xs ≡ none
    → test x ≡ true
    → first_where test (xs ++ x ∷ []) ≡ some x
unfolding first_where
first_added test [] x h k = ground arith
first_added test (y ∷ ys) x h k = ground (arith, first_added test ys x)

pub bigint-ok : {A : Type 0} (n : ℤ) (r : Result A) {a : A} → Sql.bigint n r ≡ ok a → r ≡ ok a
bigint-ok n r h = ground arith

zero_plus : (a : ℤ) → a ≡ pos 0 +ℤ a
unfolding ◌+ℤ◌
zero_plus a = ground arith

upserted :
    (o : Option Wallet) (id user : Uuid) (c : Currency) (delta : ℤ) (t : Tables) {u : Unit {0}}
    {t' : Tables}
    → first_where (Sql.is_wallet_of user c) t.wallets ≡ o
    → Sql.upsert o id user c delta t ≡ ok (u, t')
    → held user c t' ≡ balance_minor_of o +ℤ delta
upserted none id user c delta t missing h =
    ap (held user c) (sym (ok_pair h).1)
    ∙ ap balance_minor_of (
        first_added (Sql.is_wallet_of user c) t.wallets
          (record { id = id; user_id = user; currency = c; balance_minor = delta }) missing
          (ground (arith, str_eq_iff c c)))
    ∙ zero_plus delta
upserted (some w) id user c delta t found h =
    ap (held user c) (sym (ok_pair (bigint-ok (w.balance_minor +ℤ delta) _ h)).1)
    ∙ ap balance_minor_of (first_credited user c delta t.wallets w found)

-- An upsert moves what is held by its delta.
upsert-held :
    (id user : Uuid) (c : Currency) (delta : ℤ) (t : Tables) {u : Unit {0}} {t' : Tables}
    → Sql.upsert_wallet_balance id user c delta t ≡ ok (u, t')
    → held user c t' ≡ held user c t +ℤ delta
unfolding Sql.upsert_wallet_balance
upsert-held id user c delta t h = upserted _ id user c delta t refl h

found_balance :
    (o : Option Wallet) (t : Tables) {x : Wallet} {t' : Tables}
    → Sql.one_row o t ≡ ok (x, t')
    → (x.balance_minor ≡ balance_minor_of o) × (t' ≡ t)
found_balance none t h = cc
found_balance (some y) t h = (ap Wallet.balance_minor (sym (ok_pair h).0), sym (ok_pair h).1)

missing_balance :
    (o : Option Wallet) (t : Tables) → Sql.one_row o t ≡ err no_rows → balance_minor_of o ≡ pos 0
missing_balance none t h = refl
missing_balance (some y) t h = cc

lock_found :
    (user : Uuid) (c : Currency) (t : Tables) {x : Wallet} {t' : Tables}
    → SubscriptionSql.lock_wallet_for_spend user c t ≡ ok (x, t')
    → (x.balance_minor ≡ held user c t) × (t' ≡ t)
unfolding SubscriptionSql.lock_wallet_for_spend
lock_found user c t h = found_balance _ t h

lock_missing :
    (user : Uuid) (c : Currency) (t : Tables)
    → SubscriptionSql.lock_wallet_for_spend user c t ≡ err no_rows
    → held user c t ≡ pos 0
unfolding SubscriptionSql.lock_wallet_for_spend
lock_missing user c t h = missing_balance _ t h

balance_failed :
    (c : Currency) (m : Call Wallet) (w : World Tables) (e : Error) (v : World Tables) {b : Money}
    {w' : World Tables}
    → m w ≡ failed e v
    → balance_of c m w ≡ done b w'
    → (e ≡ no_rows) × (b.amount_minor ≡ pos 0) × (w' ≡ v)
unfolding balance_of
balance_failed c m w e v f h = ground arith

balance_done :
    (c : Currency) (m : Call Wallet) (w : World Tables) (x : Wallet) (v : World Tables) {b : Money}
    {w' : World Tables}
    → m w ≡ done x v
    → balance_of c m w ≡ done b w'
    → (b.amount_minor ≡ x.balance_minor) × (w' ≡ v)
unfolding balance_of
balance_done c m w x v f h = ground arith

-- The locked wallet is read as what its owner holds.
pub lock_wallet_lem :
    (user : Uuid) (c : Currency) (w : World Tables) {b : Money} {w' : World Tables}
    → lock_wallet_for_spend user c w ≡ done b w'
    → (b.amount_minor ≡ held user c w.db) × (w'.db ≡ w.db)
unfolding lock_wallet_for_spend
lock_wallet_lem user c w h =
    elim (Outcome-cases (statement (SubscriptionSql.lock_wallet_for_spend user c) w)) [
      | inl (x, v, e) ↦
          let (amount, same) =
            balance_done c (statement (SubscriptionSql.lock_wallet_for_spend user c)) w x v e h in
          let (found, kept) = lock_found user c w.db (statement-eq-done _ w e).0 in
          (amount ∙ found, ap World.db same ∙ kept)
      | inr (x, v, e) ↦
          let (none_found, amount, same) =
            balance_failed c (statement (SubscriptionSql.lock_wallet_for_spend user c)) w x v e h in
          (
            amount ∙ sym (lock_missing user c w.db (statement-eq-no_rows _ w (rw none_found at e))),
            ap World.db same ∙ statement-eq-failed _ w e,
          )
    ]

extend_wallets :
    (id : Uuid) (start end : Time) (t : Tables) {n : ℕ} {t' : Tables}
    → SubscriptionSql.extend_subscription id start end t ≡ ok (n, t')
    → t'.wallets ≡ t.wallets
unfolding SubscriptionSql.extend_subscription
extend_wallets id start end t h = ap Tables.wallets (sym (ok_pair h).1)

extend_lem :
    (id : Uuid) (start end : Time) (w : World Tables) {b : Bool} {w' : World Tables}
    → extend_subscription id start end w ≡ done b w'
    → w'.db.wallets ≡ w.db.wallets
unfolding extend_subscription
extend_lem id start end w h =
    let (n, v, extended, ended) = >>=-eq-done _ _ w h in
    ap (λ (z : World Tables). z.db.wallets) (pure-eq-done _ v ended).1
    ∙ extend_wallets id start end w.db (statement-eq-done _ w extended).0

entries_nonneg :
    (id user : Uuid) (i : Invoice)
    → verify_entries (renewal_posting id user i).entries ≡ ok tt
    → pos 0 ≤ℤ i.amount.amount_minor
entries_nonneg id user i h =
    let v = (verify_entries_iff (renewal_posting id user i).entries).0 h in ground (arith, v)

entries_verified : (x : Transaction) → verify x ≡ ok tt → verify_entries x.entries ≡ ok tt
unfolding verify
entries_verified x h = ground arith

posting_nonneg :
    (id user : Uuid) (i : Invoice)
    → verify (renewal_posting id user i) ≡ ok tt
    → pos 0 ≤ℤ i.amount.amount_minor
posting_nonneg id user i h =
    entries_nonneg id user i (entries_verified (renewal_posting id user i) h)

covers : (price balance has : ℤ) → balance ≡ has → ltb_ℤ balance price ≡ false → price ≤ℤ has
covers price balance has e h = ground arith

module _ (new_uuid : ℕ → Uuid) where
  -- The projection of a renewal's posting moves what the customer holds by the signed debit.
  projection_lem :
      (id user : Uuid) (i : Invoice) (w : World Tables) {u : Unit {0}} {w' : World Tables}
      → apply_projection new_uuid (renewal_posting id user i).entries w ≡ done u w'
      → held user i.amount.currency w'.db
        ≡ held user i.amount.currency w.db +ℤ (pos 0 -w i.amount.amount_minor)
  unfolding apply_projection signed
  projection_lem id user i w h =
      let (a, v, moved, rest) = >>=-eq-done _ _ w h in
      let (wallet_id, v', drawn, written) = >>=-eq-done _ _ w moved in
      let kept = fresh-eq-done new_uuid w drawn in
      let step =
        upsert-held _ user i.amount.currency (pos 0 -w i.amount.amount_minor) v'.db
          (statement-eq-done _ v' written).0 in
      let (b, v2, skipped, rest') = >>=-eq-done _ _ v rest in
      let same = (pure-eq-done tt v skipped).1 in
      let same' = (pure-eq-done tt v2 rest').1 in
      ap (λ (z : World Tables). held user i.amount.currency z.db) (same' ∙ same)
      ∙ step
      ∙ ap (λ (t : Tables). held user i.amount.currency t +ℤ (pos 0 -w i.amount.amount_minor)) kept

  record_lem :
      (s : Subscription) (i : Invoice) (end : Time) (w : World Tables) {b : Bool}
      {w' : World Tables}
      → record_renewal new_uuid s i end w ≡ done b w'
      → w'.db.wallets ≡ w.db.wallets
  record_lem s i end w h =
      let (event_id, v, drawn, h1) = >>=-eq-done _ _ w h in
      let (u, v1, recorded, h2) = >>=-eq-done _ _ v h1 in
      ap (λ (z : World Tables). z.db.wallets) (pure-eq-done true v1 h2).1
      ∙ ap Tables.wallets (record_outbox_event_lem _ v recorded)
      ∙ ap Tables.wallets (fresh-eq-done new_uuid w drawn)

  -- A charge that is done has found the price covered, and taken it.
  charge_lem :
      (s : Subscription) (i : Invoice) (w : World Tables) {paid : Bool} {w' : World Tables}
      → charge new_uuid s i w ≡ done paid w'
      → (i.amount.amount_minor ≤ℤ held s.user_id i.amount.currency w.db)
        × (pos 0 ≤ℤ i.amount.amount_minor)
        × (held s.user_id i.amount.currency w'.db
            ≡ held s.user_id i.amount.currency w.db +ℤ (pos 0 -w i.amount.amount_minor))
  unfolding charge
  charge_lem s i w h =
      let (balance, v0, locked, h0) = >>=-eq-done _ _ w h in
      let (amount, t0) = lock_wallet_lem s.user_id i.amount.currency w locked in
      let (u, v1, covered, h1) = >>=-eq-done _ _ v0 h0 in
      let (tested, same1) = lift-eq-done _ v0 covered in
      let enough = refuse_if-eq-ok _ balance_short tested in
      let (id, v2, drawn, h2) = >>=-eq-done _ _ v1 h1 in
      let t2 = fresh-eq-done new_uuid v1 drawn in
      let (u2, v3, posted, h3) = >>=-eq-done _ _ v2 h2 in
      let (verified, (x, t3, applied)) =
        post_lem new_uuid (renewal_posting id s.user_id i) v2 posted in
      let moved = projection_lem id s.user_id i x applied in
      let (end, v4, dated, h4) = >>=-eq-done _ _ v3 h3 in
      let same4 = (lift-eq-done _ v3 dated).1 in
      let (extended, v5, extending, h5) = >>=-eq-done _ _ v4 h4 in
      let wallets5 = extend_lem _ _ _ v4 extending in
      let start : v2.db ≡ w.db = t2 ∙ ap World.db same1 ∙ t0 in
      let before : held s.user_id i.amount.currency x.db ≡ held s.user_id i.amount.currency w.db =
        ap (held s.user_id i.amount.currency) t3 ∙ ap (held s.user_id i.amount.currency) start in
      elim (Bool-cases extended) [
        | inl kept ↦
            let wallets6 = record_lem s i end v5 (rw kept at h5) in
            (
              covers _ _ _ amount enough,
              posting_nonneg id s.user_id i verified,
              ap
                    (λ z.
                      balance_minor_of
                        (first_where (Sql.is_wallet_of s.user_id i.amount.currency) z))
                    (wallets6 ∙ wallets5 ∙ ap (λ (z : World Tables). z.db.wallets) same4)
                  ∙ moved
                  ∙ ap (λ z. z +ℤ (pos 0 -w i.amount.amount_minor)) before,
            )
        | inr lost ↦ throw-eq-done extension_lost v5 (rw lost at h5)
      ]

  mark_wallets :
      (id : Uuid) (w : World Tables) {b : Bool} {w' : World Tables}
      → mark_subscription_invoice_paid id w ≡ done b w'
      → w'.db.wallets ≡ w.db.wallets
  unfolding mark_subscription_invoice_paid
  mark_wallets id w h =
      let (n, v, marked, ended) = >>=-eq-done _ _ w h in
      ap (λ (z : World Tables). z.db.wallets) (pure-eq-done _ v ended).1
      ∙ ap Tables.wallets (mark_rows id w.db (statement-eq-done _ w marked).0).1

  taken :
      (a b c : ℤ)
      → Fits a
      → pos 0 ≤ℤ a
      → a ≤ℤ b
      → c ≡ b +ℤ (pos 0 -w a)
      → (c ≡ b -ℤ a) × (pos 0 ≤ℤ c)
  unfolding ◌-w◌ ◌-ℤ◌ ◌+ℤ◌
  taken a b c f n l e = ground (arith, wrap64-Fits (pos 0 -ℤ a))

  unless_lost-true :
      (m : Call Bool) (w : World Tables) {w' : World Tables}
      → unless_lost m w ≡ done true w'
      → m w ≡ done true w'
  unfolding unless_lost
  unless_lost-true m w h = elim (Outcome-cases (m w)) [
    | inl (a, v, e) ↦ ground arith
    | inr (x, v, e) ↦ ground arith
  ]

  body_lem :
      (s : Subscription) (i : Invoice) (w : World Tables) {w' : World Tables}
      → renewal_body new_uuid s i w ≡ done true w'
      → (i.amount.amount_minor ≤ℤ held s.user_id i.amount.currency w.db)
        × (pos 0 ≤ℤ i.amount.amount_minor)
        × (held s.user_id i.amount.currency w'.db
            ≡ held s.user_id i.amount.currency w.db +ℤ (pos 0 -w i.amount.amount_minor))
  unfolding renewal_body
  body_lem s i w h =
      let (applied, v, gate, rest) = >>=-eq-done _ _ w h in
      let wallets = mark_wallets i.id w gate in
      let same : held s.user_id i.amount.currency v.db ≡ held s.user_id i.amount.currency w.db =
        ap (λ z. balance_minor_of (first_where (Sql.is_wallet_of s.user_id i.amount.currency) z))
          wallets in
      elim (Bool-cases applied) [
        | inl won ↦
            let (enough, price, moved) = charge_lem s i v (rw won at rest) in
            (rw same at enough, price, rw same at moved)
        | inr lost ↦ let answer = (pure-eq-done false v (rw lost at rest)).0 in cc
      ]

  -- A renewal that is paid, at a price that fits an int64, found a wallet that covered the price,
  -- which is not negative, has taken exactly the price out of it, and left it not overdrawn.
  pub paid_from_wallet :
      (s : Subscription) (i : Invoice) (w w' : World Tables)
      → Fits i.amount.amount_minor
      → pay_renewal_invoice new_uuid s i w ≡ done true w'
      → (i.amount.amount_minor ≤ℤ held s.user_id i.amount.currency w.db)
        × (pos 0 ≤ℤ i.amount.amount_minor)
        × (held s.user_id i.amount.currency w'.db
            ≡ held s.user_id i.amount.currency w.db -ℤ i.amount.amount_minor)
        × (pos 0 ≤ℤ held s.user_id i.amount.currency w'.db)
  unfolding pay_renewal_invoice
  paid_from_wallet s i w w' fits h =
      let ran = unless_lost-true (within_transaction (renewal_body new_uuid s i)) w h in
      let (u, u', begun, body, kept) =
        within_transaction-eq-done (renewal_body new_uuid s i) w ran in
      let (enough, price, moved) = body_lem s i u body in
      let start = ap (held s.user_id i.amount.currency) begun in
      let end = ap (held s.user_id i.amount.currency) kept in
      let enough' = rw start at enough in
      let (exact, left) =
        taken i.amount.amount_minor _ _ fits price enough'
          (end ∙ moved ∙ ap (λ z. z +ℤ (pos 0 -w i.amount.amount_minor)) start) in
      (enough', price, exact, left)
