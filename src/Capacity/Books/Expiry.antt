-- ===== src/Capacity/Books/Expiry.antt =====
-- The rows that the sweep claims: they are open, though the update names them by identifier alone.
use vps_billing_workbuddy.Prelude.{
  ℕ, zero, suc, ◌≡◌, ◌≤◌, ◌==◌, Bool, true, List, [], ◌∷◌, ◌++◌, All, inl, inr, Bool-cases, leb,
  refl, arith,
}
use vps_billing_workbuddy.Errors.{ok}
use vps_billing_workbuddy.Database.{ok_pair}
use vps_billing_workbuddy.Ledger.{Uuid}
use vps_billing_workbuddy.Calendar.{Time, instant}
use vps_billing_workbuddy.Rows.{count_where, all_where}
use vps_billing_workbuddy.Rows.Places.{Stands, only}
use vps_billing_workbuddy.Rows.Updates.{All-map, All-of, all_where-Stands}
use vps_billing_workbuddy.Capacity.Sql.{
  Reservation, ReservationStatus, Tables, has_receipt_id, by_expiry, in_expiry_order, take,
  sweep_limit, is_due, due_reservations, is_among, expired_reservations,
}
use vps_billing_workbuddy.Capacity.Books.{Debt, owing_all, IsSound}
use vps_billing_workbuddy.Capacity.Books.Receipts.{IsOpen, settled-IsSound}

module _ (P : Reservation → Type 0) where
  by_expiry-All :
      (r : Reservation) (rs : List Reservation) → P r → All P rs → All P (by_expiry r rs)
  unfolding by_expiry
  by_expiry-All r [] h hs = (h, tt)
  by_expiry-All r (s ∷ ss) h (k, ks) =
      elim (Bool-cases (leb (instant r.expires_at) (instant s.expires_at))) [
        | inl sooner ↦ rw sooner (h, (k, ks))
        | inr later ↦ rw later (k, by_expiry-All r ss h ks)
      ]

  in_expiry_order-All : (rs : List Reservation) → All P rs → All P (in_expiry_order rs)
  unfolding in_expiry_order
  in_expiry_order-All [] h = tt
  in_expiry_order-All (r ∷ rs) (h, hs) =
      by_expiry-All r (in_expiry_order rs) h (in_expiry_order-All rs hs)

  take-All : (k : ℕ) (rs : List Reservation) → All P rs → All P (take k rs)
  unfolding take
  take-All zero rs h = tt
  take-All (suc k) [] h = tt
  take-All (suc k) (r ∷ rs) (h, hs) = (h, take-All k rs hs)

either :
    (x : Reservation) (xs : List Reservation) (rs : List Reservation)
    → All (λ (r : Reservation). has_receipt_id x.id r ≡ true → IsOpen r) rs
    → All (λ (r : Reservation). is_among xs r ≡ true → IsOpen r) rs
    → All (λ (r : Reservation). is_among (x ∷ xs) r ≡ true → IsOpen r) rs
unfolding is_among
either x xs [] h k = tt
either x xs (r ∷ rs) (h, hs) (k, ks) = (
  λ hit. elim (Bool-cases (r.id == x.id)) [ inl this ↦ h this | inr other ↦ k (rw other at hit) ],
  either x xs rs hs ks,
)

IsOpen-by_id :
    (r : Reservation) (before after rs : List Reservation)
    → rs ≡ before ++ r ∷ after
    → count_where (has_receipt_id r.id) rs ≤ 1
    → IsOpen r
    → All (λ (s : Reservation). has_receipt_id r.id s ≡ true → IsOpen s) rs
IsOpen-by_id r before after rs split one o =
    rw split (only IsOpen (has_receipt_id r.id) r before after (rw split at one) (ground arith) o)

module _ (rs : List Reservation) where
  -- Whatever row has the identifier of this one is open.
  abbrev OpenById : Reservation → Type 0
  OpenById x = All (λ (r : Reservation). has_receipt_id x.id r ≡ true → IsOpen r) rs

  among_IsOpen :
      (due : List Reservation)
      → All OpenById due
      → All (λ (r : Reservation). is_among due r ≡ true → IsOpen r) rs
  unfolding is_among
  among_IsOpen [] h = All-of (λ r hit. ground arith) rs
  among_IsOpen (x ∷ xs) (h, hs) = either x xs rs h (among_IsOpen xs hs)

  due-OpenById :
      (locked : Uuid → Bool) (at : Time)
      → ((id : Uuid) → count_where (has_receipt_id id) rs ≤ 1)
      → All OpenById (due_reservations locked at rs)
  unfolding due_reservations
  due-OpenById locked at keys =
      let selected = all_where (is_due locked at) rs in
      take-All OpenById sweep_limit (in_expiry_order selected) (
        in_expiry_order-All OpenById selected (
          All-map (λ (r : Reservation). (is_due locked at r ≡ true) × Stands r rs) OpenById
            (λ r (due, s). IsOpen-by_id r s.before s.after rs s.split (keys r.id) (ground arith))
            selected (all_where-Stands (is_due locked at) rs)))

-- The rows that the sweep claims are open.
pub due-IsOpen :
    (debt : Debt) (locked : Uuid → Bool) (at : Time) (t : Tables)
    → IsSound debt t
    → All
        (λ (r : Reservation).
          is_among (due_reservations locked at t.reservations) r ≡ true → IsOpen r)
        t.reservations
due-IsOpen debt locked at t s =
    among_IsOpen t.reservations (due_reservations locked at t.reservations)
      (due-OpenById t.reservations locked at s.keys)

-- The receipts that the sweep claims are owed.
pub expired-IsSound :
    (debt : Debt) (locked : Uuid → Bool) (at : Time) (t : Tables)
    → IsSound debt t
    → {rows : List Reservation} {t' : Tables} → expired_reservations locked at t ≡ ok (rows, t')
    → IsSound (owing_all rows debt) t'
unfolding expired_reservations
expired-IsSound debt locked at t s h =
    let due = due_reservations locked at t.reservations in
    rw (← (ok_pair h).0, ← (ok_pair h).1)
      (settled-IsSound debt t (is_among due) ReservationStatus.expired at refl
        (due-IsOpen debt locked at t s) s)
