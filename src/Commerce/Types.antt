-- ===== src/Commerce/Types.antt =====
-- The records of backend/internal/commerce/types.go and subscription.go. A localised name
-- (`map[string]string`) is an association list; a pointer that may be nil is an option.
use vps_billing_workbuddy.Prelude.{ℕ, String, Bool, List, Option}
use vps_billing_workbuddy.Prelude.Int.{ℤ}
use vps_billing_workbuddy.Money.{Money, Currency}
use vps_billing_workbuddy.Numbers.{Number}
use vps_billing_workbuddy.Ledger.{Uuid}
use vps_billing_workbuddy.Calendar.{Time}
use vps_billing_workbuddy.Commerce.States.{OrderStatus, PaymentStatus, SubscriptionStatus}

abbrev pub Names : Type 0
Names = List (String × String)

pub data PlanStatus : Type 0 where
  draft active archived : PlanStatus

pub data InvoiceStatus : Type 0 where
  open_status paid_status void_status : InvoiceStatus

pub record Plan : Type 0 where
  pub id : Uuid
  pub product_id : Uuid
  pub slug : String
  pub name : Names
  pub status : PlanStatus
  pub cpu_cores : String
  pub memory_mb : ℤ
  pub disk_gb : ℤ
  pub virtualization : String
  pub billing_cycle : String
  pub price : Money

pub record PlanSnapshot : Type 0 where
  pub plan_id : Uuid
  pub slug : String
  pub name : Names
  pub cpu_cores : String
  pub memory_mb : ℤ
  pub disk_gb : ℤ
  pub virtualization : String
  pub billing_cycle : String
  pub price_minor : ℤ
  pub currency : Currency

pub record OrderItem : Type 0 where
  pub id : Uuid
  pub product_id : Uuid
  pub plan_id : Uuid
  pub quantity : ℤ
  pub unit_price : Money
  pub plan_snapshot : PlanSnapshot

pub record Order : Type 0 where
  pub id : Uuid
  pub order_no : Number
  pub user_id : Uuid
  pub status : OrderStatus
  pub subtotal : Money
  pub discount : Money
  pub total : Money
  pub items : List OrderItem
  pub paid_at : Option Time
  pub created_at : Time

pub record Payment : Type 0 where
  pub id : Uuid
  pub payment_no : Number
  pub order_id : Uuid
  pub gateway : String
  pub gateway_payment_id : String
  pub status : PaymentStatus
  pub amount : Money
  pub idempotency_key : ℕ
  pub paid_at : Option Time

pub record InvoiceItem : Type 0 where
  pub id : Uuid
  pub description : Names
  pub quantity : ℤ
  pub unit_amount : Money
  pub total : Money

pub record Invoice : Type 0 where
  pub id : Uuid
  pub invoice_no : Number
  pub user_id : Uuid
  pub order_id : Option Uuid
  pub subscription_id : Option Uuid
  pub status : InvoiceStatus
  pub amount : Money
  pub due_at : Option Time
  pub items : List InvoiceItem

pub record Subscription : Type 0 where
  pub id : Uuid
  pub user_id : Uuid
  pub plan_id : Uuid
  pub status : SubscriptionStatus
  pub billing_cycle : String
  pub price : Money
  pub started_at : Option Time
  pub current_period_start : Time
  pub current_period_end : Time
  pub next_due_at : Time
  pub grace_until : Option Time
  pub cancel_at_period_end : Bool
  pub ended_at : Option Time
  pub version : ℕ
