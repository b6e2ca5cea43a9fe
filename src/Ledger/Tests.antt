-- ===== src/Ledger/Tests.antt =====
-- Tests of the ledger's rule.
use vps_billing_workbuddy.Prelude.{
  ℕ, suc, ◌^◌, ◌≤◌, ◌<◌, ◌≡◌, refl, ◌↔◌, List, [], ◌∷◌, length, All, String, arith,
}
use vps_billing_workbuddy.Prelude.Int.{pos}
use vps_billing_workbuddy.Prelude.Int64.{two63, two64}
use vps_billing_workbuddy.Errors.{ok}
use vps_billing_workbuddy.Money.{Currency}
use vps_billing_workbuddy.Ledger.{
  Uuid, Entry, account_revenue, account_gateway_clearing, account_id_revenue,
  account_id_gateway_clearing, direction_debit, direction_credit, verify_entries,
}
use vps_billing_workbuddy.Ledger.Balance.{
  IsWellFormed, side_sum, AgreesModulo, verify_entries_iff, verify_entries_exact,
}

abbrev entry : String → Uuid → String → ℕ → Entry
entry account id direction amount = record {
  account_type = account;
  account_id = id;
  direction = direction;
  amount = record { amount_minor = pos amount; currency = "USD" };
}

abbrev settlement : List Entry
settlement =
    entry account_gateway_clearing account_id_gateway_clearing direction_debit 1999
    ∷ entry account_revenue account_id_revenue direction_credit 1999
    ∷ []

-- Four debits of 2^62 and a credit of nothing.
abbrev wrapped : List Entry
wrapped =
    entry account_gateway_clearing account_id_gateway_clearing direction_debit (2 ^ 62)
    ∷ entry account_gateway_clearing account_id_gateway_clearing direction_debit (2 ^ 62)
    ∷ entry account_gateway_clearing account_id_gateway_clearing direction_debit (2 ^ 62)
    ∷ entry account_gateway_clearing account_id_gateway_clearing direction_debit (2 ^ 62)
    ∷ entry account_revenue account_id_revenue direction_credit 0
    ∷ []

verify_wrapped : verify_entries wrapped ≡ ok tt
unfolding verify_entries vps_billing_workbuddy.Prelude.Int64.◌+w◌
    vps_billing_workbuddy.Prelude.Int64.wrap64 vps_billing_workbuddy.Prelude.Int.◌+ℤ◌
verify_wrapped = refl

verify_entries_iff_example :
    (verify_entries wrapped ≡ ok tt)
    ↔ ((2 ≤ length wrapped) × All IsWellFormed wrapped × AgreesModulo wrapped)
verify_entries_iff_example = verify_entries_iff wrapped

verify_entries_exact_example : (verify_entries settlement ≡ ok tt) ↔ (
    (2 ≤ length settlement)
    × All IsWellFormed settlement
    × ((c : Currency)
        → side_sum direction_debit c settlement ≡ side_sum direction_credit c settlement))
verify_entries_exact_example = verify_entries_exact settlement λ c. ground arith
