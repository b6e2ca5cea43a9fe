-- ===== src/Money.antt =====
-- backend/internal/money/money.go: amounts in minor units. `int64` is an integer with wrap-around.
pub mod Laws
mod Tests
use vps_billing_workbuddy.Prelude.{
  ℕ, String, Bool, true, false, not, ◌&&◌, ◌||◌, List, [], ◌∷◌, ltb, ◌==◌, str_eq, codes,
  if◌then◌else◌,
}
use vps_billing_workbuddy.Prelude.Int.{ℤ, pos, negsuc, ltb_ℤ, ◌==ℤ◌}
use vps_billing_workbuddy.Prelude.Int64.{◌+w◌, ◌-w◌, ◌*w◌}
use vps_billing_workbuddy.Errors.{
  Error, currency_unsupported, add_mismatch, sub_mismatch, negative_quantity, Result, ok, err,
  ◌>>=◌,
}
use Prim.Native.String.{len}

-- An ISO 4217 code.
abbrev pub Currency : Type 0
Currency = String

-- The loop over the code: no rune lies outside 'A'..'Z'.
abbrev all_upper : List ℕ → Bool
all_upper [] = true
all_upper (r ∷ rs) = not (ltb r b'A' || ltb b'Z' r) && all_upper rs

-- `NewCurrency`; `len` counts bytes.
pub new_currency : String → Result Currency
new_currency c =
    if not (len c == 3)
    then err currency_unsupported
    else if all_upper (codes c)
    then ok c
    else err currency_unsupported

pub record Money : Type 0 where
  pub amount_minor : ℤ
  pub currency : Currency

-- `New`
new : ℤ → String → Result Money
unfolding new_currency
new amount c = do valid ← new_currency c; ok (record { amount_minor = amount; currency = valid })

unfoldable pub zero_money : Currency → Money
zero_money c = record { amount_minor = pos 0; currency = c }

unfoldable pub is_zero : Money → Bool
is_zero m = m.amount_minor ==ℤ pos 0

unfoldable pub is_negative : Money → Bool
is_negative m = ltb_ℤ m.amount_minor (pos 0)

unfoldable pub add : Money → Money → Result Money
add m other =
    if str_eq m.currency other.currency
    then ok (record { amount_minor = m.amount_minor +w other.amount_minor; currency = m.currency })
    else err add_mismatch

unfoldable pub sub : Money → Money → Result Money
sub m other =
    if str_eq m.currency other.currency
    then ok (record { amount_minor = m.amount_minor -w other.amount_minor; currency = m.currency })
    else err sub_mismatch

negate : Money → Money
negate m = record { amount_minor = pos 0 -w m.amount_minor; currency = m.currency }

unfoldable pub times : Money → ℤ → Result Money
times m quantity =
    if ltb_ℤ quantity (pos 0)
    then err negative_quantity
    else ok (record { amount_minor = m.amount_minor *w quantity; currency = m.currency })
