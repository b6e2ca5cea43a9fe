-- ===== src/Commerce/Store/Postings.antt =====
-- What a posting has done to the tables when it is done.
use vps_billing_workbuddy.Prelude.{ℕ, ◌≡◌, sym, ap, ◌∙◌, false, List, [], ◌∷◌, ◌++◌, str_eq, All}
use mathlib.Core.List.{append-nil, append_assoc}
use vps_billing_workbuddy.Errors.{ok}
use vps_billing_workbuddy.Database.{World, done, >>=-eq-done, statement-eq-done}
use vps_billing_workbuddy.Ledger.{Uuid, Entry, Transaction, account_user_wallet, verify}
use vps_billing_workbuddy.Commerce.Tables.{Tables, EntryRow}
use vps_billing_workbuddy.Commerce.Sql
use vps_billing_workbuddy.Commerce.Store.{
  create_ledger_entries, post_transaction, apply_projection, post,
}
use vps_billing_workbuddy.Commerce.Store.Effects.{ok_pair, inserted, lift-eq-done, pure-eq-done}

-- The rows of a transaction's entries.
abbrev pub entry_rows : Uuid → List Entry → List EntryRow
entry_rows id [] = []
entry_rows id (e ∷ es) = record { transaction_id = id; entry = e } ∷ entry_rows id es

entry_row :
    (id : Uuid) (e : Entry) (t : Tables) {u : Unit {0}} {t' : Tables}
    → Sql.create_ledger_entry id e t ≡ ok (u, t')
    → t' ≡ record t { entries = t.entries ++ record { transaction_id = id; entry = e } ∷ [] }
unfolding Sql.create_ledger_entry
entry_row id e t h = sym (ok_pair h).1

create_ledger_entries_lem :
    (id : Uuid) (es : List Entry) (w : World Tables) {u : Unit {0}} {w' : World Tables}
    → create_ledger_entries id es w ≡ done u w'
    → w'.db ≡ record w.db { entries = w.db.entries ++ entry_rows id es }
unfolding create_ledger_entries
create_ledger_entries_lem id [] w h =
    ap World.db (pure-eq-done tt w h).1
    ∙ ap (λ r. record w.db { entries = r }) (sym (append-nil w.db.entries))
create_ledger_entries_lem id (e ∷ es) w h =
    let (a, v, written, rest) = >>=-eq-done _ _ w h in
    let tables = entry_row id e w.db (statement-eq-done _ w written).0 in
    let tables' = create_ledger_entries_lem id es v rest in
    rw tables at tables'
    ∙ ap (λ r. record w.db { entries = r })
        (append_assoc w.db.entries (record { transaction_id = id; entry = e } ∷ [])
          (entry_rows id es))

transaction_row :
    (x : Transaction) (t : Tables) {u : Unit {0}} {t' : Tables}
    → Sql.create_ledger_transaction x t ≡ ok (u, t')
    → t' ≡ record t { transactions = t.transactions ++ record x { entries = [] } ∷ [] }
unfolding Sql.create_ledger_transaction
transaction_row x t h = inserted _ _ _ h

-- The tables with a transaction and its entries added.
abbrev pub with_posting : Transaction → Tables → Tables
with_posting x t = record t {
  transactions = t.transactions ++ record x { entries = [] } ∷ [];
  entries = t.entries ++ entry_rows x.id x.entries;
}

post_transaction_lem :
    (x : Transaction) (w : World Tables) {u : Unit {0}} {w' : World Tables}
    → post_transaction x w ≡ done u w'
    → w'.db ≡ with_posting x w.db
unfolding post_transaction
post_transaction_lem x w h =
    let (a, v, written, rest) = >>=-eq-done _ _ w h in
    let tables = transaction_row x w.db (statement-eq-done _ w written).0 in
    let tables' = create_ledger_entries_lem x.id x.entries v rest in rw tables at tables'

module _ (new_uuid : ℕ → Uuid) where
  -- A posting that is done was verified and written, and the projection was applied after it.
  pub post_lem :
      (x : Transaction) (w : World Tables) {u : Unit {0}} {w' : World Tables}
      → post new_uuid x w ≡ done u w'
      → (verify x ≡ ok tt)
        × ((v : World Tables) × (v.db ≡ with_posting x w.db)
            × (apply_projection new_uuid x.entries v ≡ done tt w'))
  unfolding post
  post_lem x w h =
      let (a, v, checked, rest) = >>=-eq-done _ _ w h in
      let (verified, same) = lift-eq-done (verify x) w checked in
      let (b, v', written, applied) = >>=-eq-done _ _ v rest in
      let tables = post_transaction_lem x v written in
      (verified, (v', tables ∙ ap (λ (z : World Tables). with_posting x z.db) same, applied))

  -- Entries of other accounts leave the wallets alone.
  pub apply_projection_none :
      (es : List Entry) (w : World Tables) {u : Unit {0}} {w' : World Tables}
      → All (λ (e : Entry). str_eq e.account_type account_user_wallet ≡ false) es
      → apply_projection new_uuid es w ≡ done u w'
      → w' ≡ w
  unfolding apply_projection
  apply_projection_none [] w other h = (pure-eq-done tt w h).1
  apply_projection_none (e ∷ es) w other h =
      let (a, v, skipped, rest) = >>=-eq-done _ _ w h in
      let same = (pure-eq-done tt w (rw other.0 at skipped)).1 in
      apply_projection_none es v other.1 rest ∙ same
