-- ===== src/Money/Laws.antt =====
-- Laws of the amounts of backend/internal/money/money.go.
use vps_billing_workbuddy.Prelude.{
  ℕ, ◌≤◌, ◌≡◌, ◌↔◌, String, true, List, [], ◌∷◌, arith, str_eq, str_eq_iff, Bool-cases, inl, inr,
  codes, All, refl, ◌*◌, ◌<◌,
}
use vps_billing_workbuddy.Prelude.Int.{pos, ◌+ℤ◌, ◌*ℤ◌}
use vps_billing_workbuddy.Prelude.Int64.{
  ◌+w◌, ◌*w◌, Fits, wrap64-Fits, two63, sub-add as wrap_sub-add,
}
use vps_billing_workbuddy.Errors.{ok}
use vps_billing_workbuddy.Money.{Money, all_upper, new_currency, add, sub, times}
use Prim.Native.String.{len}

-- The loop over the code finds exactly the codes whose characters are all 'A' to 'Z'.
all_upper_iff : (cs : List ℕ) → (all_upper cs ≡ true) ↔ All (λ r. (b'A' ≤ r) × (r ≤ b'Z')) cs
all_upper_iff [] = (λ _. tt, λ _. refl)
all_upper_iff (r ∷ rs) =
    let ih = all_upper_iff rs in (λ h. ground (arith, ih), λ h. ground (arith, ih))

-- A currency is accepted exactly when it is three bytes long and each character is 'A' to 'Z'.
pub new_currency_iff :
    (c : String)
    → (new_currency c ≡ ok c) ↔ ((len c ≡ 3) × All (λ r. (b'A' ≤ r) × (r ≤ b'Z')) (codes c))
unfolding new_currency
new_currency_iff c =
    let u = all_upper_iff (codes c) in (λ h. ground (arith, u), λ h. ground (arith, u))

-- Adding an amount and taking it away again gives the first amount back, where that fits an int64,
-- also where the sum wraps around.
pub sub-add : (m n s : Money) → Fits m.amount_minor → add m n ≡ ok s → sub s n ≡ ok m
unfolding add sub
sub-add m n s h e = ground (
  arith,
  wrap_sub-add m.amount_minor n.amount_minor h,
  str_eq_iff m.currency n.currency,
  str_eq_iff s.currency n.currency,
)

-- Two amounts whose exact sum fits an int64 are added exactly when they are in one currency, and then
-- the sum is the exact one, in that currency.
pub add_iff :
    (m n : Money)
    → Fits (m.amount_minor +ℤ n.amount_minor)
    → (m.currency ≡ n.currency) ↔ (
        add m n
        ≡ ok (record { amount_minor = m.amount_minor +ℤ n.amount_minor; currency = m.currency }))
unfolding add ◌+w◌
add_iff m n fits =
    let exact = wrap64-Fits (m.amount_minor +ℤ n.amount_minor) fits in
    let same = str_eq_iff m.currency n.currency in
    (
      λ e. rw (same.1 e, exact) refl,
      λ h. elim (Bool-cases (str_eq m.currency n.currency)) [
        | inl equal ↦ same.0 equal
        | inr other ↦ ground arith
      ],
    )

-- A price that is not negative times a count is exact where the product stays below 2^63.
pub times_exact :
    (p q : ℕ) (c : String)
    → p * q < two63
    → times (record { amount_minor = pos p; currency = c }) (pos q)
      ≡ ok (record { amount_minor = pos (p * q); currency = c })
unfolding times ◌*w◌ ◌*ℤ◌
times_exact p q c h = ground (arith, wrap64-Fits (pos (p * q)) h)
