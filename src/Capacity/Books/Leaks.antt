-- ===== src/Capacity/Books/Leaks.antt =====
-- The calls that run in a transaction leave what is lost of expired receipts as it is.
use vps_billing_workbuddy.Prelude.{ℕ, ◌≡◌, refl, sym, ap, ◌∙◌, Bool, false, arith}
use vps_billing_workbuddy.Errors.{ok}
use vps_billing_workbuddy.Database.{ok_pair, Respects}
use vps_billing_workbuddy.Ledger.{Uuid}
use vps_billing_workbuddy.Calendar.{Time}
use vps_billing_workbuddy.Rows.Updates.{All-of}
use vps_billing_workbuddy.Capacity.Sql.{
  Part, Amounts, ReservationStatus, Tables, is_open_at, update_nodes, settle_where,
  reserve_node_resources, commit_node_resources, mark_reservation_committed,
  mark_reservation_released,
}
use vps_billing_workbuddy.Capacity.Store.{commit_reservation}
use vps_billing_workbuddy.Capacity.Books.{leaked, is_expired_status}
use vps_billing_workbuddy.Capacity.Books.Leaked.{leaked-append, leaked-settle}
use vps_billing_workbuddy.Capacity.Books.Suits.{Suits, commit_reservation-Suits}
use vps_billing_workbuddy.Capacity.Books.Allotted.{created-row}
use vps_billing_workbuddy.Capacity.Books.Sweeps.{release-reservations}

module _ (lost : Uuid → Bool) where
  abbrev pub LosesSame : Tables → Tables → Type 0
  LosesSame t t' =
      (p : Part) (id : Uuid) → leaked lost t'.reservations p id ≡ leaked lost t.reservations p id

  by_reservations : (t t' : Tables) → t'.reservations ≡ t.reservations → LosesSame t t'
  by_reservations t t' same p id = ap (λ rs. leaked lost rs p id) same

  by_settling :
      (operation_id node_id : Uuid) (status : ReservationStatus) (at : Time) (t t' : Tables) (n : ℕ)
      → is_expired_status status ≡ false
      → settle_where (is_open_at operation_id node_id) status at t ≡ ok (n, t')
      → LosesSame t t'
  unfolding settle_where
  by_settling operation_id node_id status at t t' n shut h p id = rw (← (ok_pair h).1) (
      leaked-settle lost (is_open_at operation_id node_id) status at shut p id t.reservations
        (All-of (λ r hit. ground arith) t.reservations))

  pub LosesSame-Suits : Suits LosesSame
  unfolding reserve_node_resources update_nodes mark_reservation_released
  LosesSame-Suits = record {
    same = λ t p id. refl;
    chain = λ t u v h k p id. k p id ∙ h p id;
    on_reserve = λ node_id spec at t t' n h.
        by_reservations t t' (ap Tables.reservations (sym (ok_pair h).1));
    on_release = λ node_id spec at t t' n h.
        by_reservations t t' (release-reservations node_id spec at t t' h);
    on_create = λ r t t' u fresh h p id.
        rw (created-row r t h) (leaked-append lost p id t.reservations r (rw fresh refl));
    on_released = λ operation_id node_id at t t' n h.
        by_settling operation_id node_id ReservationStatus.released at t t' n refl h;
  }

  commit-reservations :
      (node_id : Uuid) (spec : Amounts) (at : Time) (t t' : Tables) (n : ℕ)
      → commit_node_resources node_id spec at t ≡ ok (n, t')
      → t'.reservations ≡ t.reservations
  unfolding commit_node_resources update_nodes
  commit-reservations node_id spec at t t' n h = ground arith

  pub commit_reservation-LosesSame :
      (operation_id node_id : Uuid) (spec : Amounts) (at : Time)
      → Respects LosesSame (commit_reservation operation_id node_id spec at)
  unfolding mark_reservation_committed
  commit_reservation-LosesSame operation_id node_id spec at =
      commit_reservation-Suits LosesSame LosesSame-Suits operation_id node_id at spec
        (λ t t' n h. by_settling operation_id node_id ReservationStatus.committed at t t' n refl h)
        λ t t' n h. by_reservations t t' (commit-reservations node_id spec at t t' n h)
