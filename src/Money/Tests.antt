-- ===== src/Money/Tests.antt =====
-- Tests of the amounts.
use vps_billing_workbuddy.Prelude.{ℕ, ◌≤◌, ◌≡◌, refl, ◌↔◌, All, codes, arith}
use vps_billing_workbuddy.Prelude.Int.{pos, ◌+ℤ◌}
use vps_billing_workbuddy.Errors.{ok}
use vps_billing_workbuddy.Money.{Money, new_currency, add, sub}
use vps_billing_workbuddy.Money.Laws.{new_currency_iff, sub-add, add_iff}
use Prim.Native.String.{len}

abbrev price : Money
price = record { amount_minor = pos 1999; currency = "USD" }

abbrev fee : Money
fee = record { amount_minor = pos 1; currency = "USD" }

new_currency_iff_example :
    (new_currency "USD" ≡ ok "USD")
    ↔ ((len "USD" ≡ 3) × All (λ r. (b'A' ≤ r) × (r ≤ b'Z')) (codes "USD"))
new_currency_iff_example = new_currency_iff "USD"

sub-add_example : sub (record { amount_minor = pos 2000; currency = "USD" }) fee ≡ ok price
unfolding add vps_billing_workbuddy.Prelude.Int64.◌+w◌ vps_billing_workbuddy.Prelude.Int64.wrap64
    vps_billing_workbuddy.Prelude.Int.◌+ℤ◌
sub-add_example =
    sub-add price fee (record { amount_minor = pos 2000; currency = "USD" }) (omega arith) refl

add_iff_example : (price.currency ≡ fee.currency) ↔ (
    add price fee
    ≡ ok (record {
      amount_minor = price.amount_minor +ℤ fee.amount_minor;
      currency = price.currency;
    }))
unfolding ◌+ℤ◌
add_iff_example = add_iff price fee (omega arith)
