-- ===== src/Errors.antt =====
-- The errors of the modelled packages, and results that carry one. A wrapped error (`%w`) is its
-- sentinel: `errors.Is` is what callers read, and the text around it is for the log.
use vps_billing_workbuddy.Prelude.{String, Bool, true, false, ◌≡◌, refl, ◌⊎◌, inl, inr}

pub data Error : Type 0 where
  -- money
  currency_unsupported add_mismatch sub_mismatch negative_quantity : Error
  -- ledger
  unbalanced single_sided unknown_account_type unknown_direction unknown_type no_reference
        no_transaction_id no_account_id negative_entry no_entry_currency :
      Error
  -- commerce: catalogue and orders
  plan_not_purchaseable invalid_quantity empty_order mixed_currencies invalid_amount invalid_decimal
        no_line_currency number_failed :
      Error
  -- commerce: payments
  order_not_found payment_not_found amount_mismatch currency_mismatch order_not_payable
        unknown_gateway unsupported_notification plan_not_found payment_already_started conflict
        no_open_invoice :
      Error
  -- commerce: subscriptions
  unknown_billing_cycle subscription_not_found subscription_not_live nothing_due
        insufficient_balance invoice_not_found balance_short extension_lost no_event_type :
      Error
  -- operations
  operation_not_found unknown_runner no_idempotency_key step_not_startable : Error
  -- infrastructure
  no_node_available reservation_lost commit_refused : Error
  -- identity
  invalid_credentials account_suspended user_not_found admin_not_found session_not_found
        no_subject_id session_already_expired :
      Error
  -- the database: a statement that it could not run or that a constraint refused, a query with no
  -- row, and a uniqueness violation with the constraint's name
  statement_failed no_rows : Error
  unique_violation : String → Error

pub data Result {ℓ} (A : Type ℓ) : Type ℓ where
  ok : A → Result A
  err : Error → Result A

-- `if test { return e }`
abbrev pub refuse_if : Bool → Error → Result (Unit {0})
refuse_if true e = err e
refuse_if false e = ok tt

-- `if err != nil { return err }` between two calls.
infixl 5 ◌>>=◌ ◌>>◌
abbrev pub ◌>>=◌ {ι κ} : {A : Type ι} {B : Type κ} → Result A → (A → Result B) → Result B
err e >>= next = err e
ok a >>= next = next a

abbrev pub ◌>>◌ {ι} : {B : Type ι} → Result (Unit {0}) → Result B → Result B
first >> next = first >>= λ _. next

-- A chain that succeeds has a first part that does.
pub >>=-eq-ok {ι κ} :
    {A : Type ι} {B : Type κ} (first : Result A) (next : A → Result B) {b : B}
    → (first >>= next) ≡ ok b
    → (a : A) × (first ≡ ok a) × (next a ≡ ok b)
>>=-eq-ok (err e) next h = cc
>>=-eq-ok (ok a) next h = (a, refl, h)

pub refuse_if-eq-ok : (b : Bool) (e : Error) {u : Unit {0}} → refuse_if b e ≡ ok u → b ≡ false
refuse_if-eq-ok true e h = cc
refuse_if-eq-ok false e h = refl

pub Result-cases {ℓ} :
    {A : Type ℓ} (r : Result A) → ((e : Error) × (r ≡ err e)) ⊎ ((a : A) × (r ≡ ok a))
Result-cases (ok a) = inr (a, refl)
Result-cases (err e) = inl (e, refl)
