-- ===== src/Ledger.antt =====
-- backend/internal/ledger/ledger.go: entries, transactions, and the rule that a posting balances.
pub mod Balance
mod Tests
use vps_billing_workbuddy.Prelude.{
  ℕ, suc, String, Bool, true, false, not, ◌&&◌, ◌||◌, List, [], ◌∷◌, length, ltb, ◌==◌, str_eq,
  if◌then◌else◌,
}
use vps_billing_workbuddy.Prelude.Int.{ℤ, pos, ◌==ℤ◌}
use vps_billing_workbuddy.Prelude.Int64.{◌+w◌, ◌-w◌}
use vps_billing_workbuddy.Numbers.{Number}
use vps_billing_workbuddy.Money.{Currency, Money, is_negative}
use vps_billing_workbuddy.Errors.{
  Error, unbalanced, single_sided, unknown_account_type, unknown_direction, unknown_type,
  no_reference, no_transaction_id, no_account_id, negative_entry, no_entry_currency, Result, ok,
  err, ◌>>=◌, ◌>>◌, refuse_if,
}

-- A UUID as its 128-bit number; `uuid.Nil` is zero.
abbrev pub Uuid : Type 0
Uuid = ℕ

abbrev pub uuid_nil : Uuid
uuid_nil = 0

-- `contains`, and the lookup in a `map[string]struct{}`.
unfoldable pub contains : List String → String → Bool
contains [] want = false
contains (v ∷ vs) want = str_eq v want || contains vs want

abbrev pub account_user_wallet : String
account_user_wallet = "user_wallet"

abbrev pub account_revenue : String
account_revenue = "revenue"

abbrev pub account_gateway_clearing : String
account_gateway_clearing = "gateway_clearing"

abbrev pub type_payment_settlement : String
type_payment_settlement = "payment_settlement"

abbrev type_refund : String
type_refund = "refund"

abbrev type_adjustment : String
type_adjustment = "adjustment"

abbrev pub direction_debit : String
direction_debit = "debit"

abbrev pub direction_credit : String
direction_credit = "credit"

abbrev pub account_id_revenue : Uuid
account_id_revenue = 0x7000_8000_0000_0000_0001

abbrev pub account_id_gateway_clearing : Uuid
account_id_gateway_clearing = 0x7000_8000_0000_0000_0002

abbrev known_account_types : List String
known_account_types = account_user_wallet ∷ account_revenue ∷ account_gateway_clearing ∷ []

abbrev known_transaction_types : List String
known_transaction_types = type_payment_settlement ∷ type_refund ∷ type_adjustment ∷ []

pub record Entry : Type 0 where
  pub account_type : String
  pub account_id : Uuid
  pub direction : String
  pub amount : Money

-- Credit is positive, for every account.
unfoldable pub signed : Entry → ℤ
signed e =
    if str_eq e.direction direction_credit
    then e.amount.amount_minor
    else pos 0 -w e.amount.amount_minor

-- A description: a text, or a text and a number after it.
pub data Description : Type 0 where
  plain : String → Description
  about : String → Number → Description

pub record Transaction : Type 0 where
  pub id : Uuid
  pub type : String
  pub reference_type : String
  pub reference_id : Uuid
  pub description : Description
  pub entries : List Entry

has_reference : Transaction → Bool
has_reference t = not (str_eq t.reference_type "") && not (t.reference_id == uuid_nil)

-- The sums of one currency, and `byCurrency` as an association list.
record Totals : Type 0 where
  debit : ℤ
  credit : ℤ

abbrev no_totals : Totals
no_totals = record { debit = pos 0; credit = pos 0 }

-- `sum.debit += …` or `sum.credit += …`
add_entry : Entry → Totals → Totals
add_entry e t =
    if str_eq e.direction direction_debit
    then record t { debit = t.debit +w e.amount.amount_minor }
    else record t { credit = t.credit +w e.amount.amount_minor }

accumulate : Currency → (Totals → Totals) → List (Currency × Totals) → List (Currency × Totals)
accumulate c f [] = (c, f no_totals) ∷ []
accumulate c f ((k, t) ∷ m) = if str_eq k c then (k, f t) ∷ m else (k, t) ∷ accumulate c f m

-- The checks of one entry, in their order.
check_entry : Entry → Result (Unit {0})
unfolding contains is_negative
check_entry e = do
  refuse_if (not (contains known_account_types e.account_type)) unknown_account_type
  refuse_if (e.account_id == uuid_nil) no_account_id
  refuse_if (not (str_eq e.direction direction_debit) && not (str_eq e.direction direction_credit))
      unknown_direction
  refuse_if (is_negative e.amount) negative_entry
  refuse_if (str_eq e.amount.currency "") no_entry_currency

-- The loop over the entries.
sum_entries : List Entry → List (Currency × Totals) → Result (List (Currency × Totals))
sum_entries [] m = ok m
sum_entries (e ∷ es) m =
    check_entry e >> sum_entries es (accumulate e.amount.currency (add_entry e) m)

-- The loop over the currencies.
all_balanced : List (Currency × Totals) → Bool
all_balanced [] = true
all_balanced ((c, t) ∷ m) = (t.debit ==ℤ t.credit) && all_balanced m

-- `Verify`
unfoldable pub verify_entries : List Entry → Result (Unit {0})
unfolding sum_entries check_entry accumulate add_entry all_balanced
verify_entries es = do
  refuse_if (ltb (length es) 2) single_sided
  by_currency ← sum_entries es []
  refuse_if (not (all_balanced by_currency)) unbalanced

-- `Transaction.Verify`
unfoldable pub verify : Transaction → Result (Unit {0})
unfolding has_reference verify_entries contains
verify t = do
  refuse_if (t.id == uuid_nil) no_transaction_id
  refuse_if (not (contains known_transaction_types t.type)) unknown_type
  refuse_if (not (str_eq t.type type_adjustment) && not (has_reference t)) no_reference
  verify_entries t.entries
