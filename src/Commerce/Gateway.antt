-- ===== src/Commerce/Gateway.antt =====
-- backend/internal/payment/payment.go: the port of a payment gateway, and commerce/service.go's set of
-- gateways by name. What a gateway does is its own.
use vps_billing_workbuddy.Prelude.{String, Option, none, some, List}
use vps_billing_workbuddy.Errors.{Result, ok, err, unknown_gateway}
use vps_billing_workbuddy.Money.{Money}
use vps_billing_workbuddy.Calendar.{Time}
use vps_billing_workbuddy.Numbers.{Number}
use vps_billing_workbuddy.Ledger.{Description}
use vps_billing_workbuddy.Commerce.Tables.{Value}

pub record CreateIntentRequest : Type 0 where
  pub payment_no : Number
  pub amount : Money
  pub description : Description

pub record Intent : Type 0 where
  pub gateway_payment_id : String
  pub pay_url : String
  pub expires_at : Option Time

pub record Notification : Type 0 where
  pub gateway_payment_id : String
  pub status : String
  pub amount : Money
  pub payload : List (String × Value)

pub record Gateway : Type 0 where
  pub create_intent : CreateIntentRequest → Result Intent
  pub verify : String → String → Result Notification

abbrev pub Gateways : Type 0
Gateways = String → Option Gateway

abbrev found : Option Gateway → Result Gateway
found none = err unknown_gateway
found (some g) = ok g

unfoldable pub gateway_named : Gateways → String → Result Gateway
gateway_named gateways name = found (gateways name)
