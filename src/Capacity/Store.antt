-- ===== src/Capacity/Store.antt =====
-- backend/internal/storage/infra: the transitions of capacity (store.go) and the receipts of operations
-- (reservation.go).
use vps_billing_workbuddy.Prelude.{
  ℕ, ◌*◌, Bool, true, false, Option, none, some, List, [], ◌∷◌, length, ltb, ◌==◌, if◌then◌else◌,
}
use vps_billing_workbuddy.Errors.{Error, reservation_lost, commit_refused}
use vps_billing_workbuddy.Database.{
  Outcome, done, failed, Action, ◌>>=◌, ◌>>◌, pure, throw, statement, within_transaction, fresh,
  if_applied,
}
use vps_billing_workbuddy.Ledger.{Uuid}
use vps_billing_workbuddy.Calendar.{Time, add_duration}
use vps_billing_workbuddy.Capacity.Sql.{
  Amounts, Reservation, ReservationStatus, Tables, reserve_node_resources, commit_node_resources,
  release_node_resources, open_reservation, create_resource_reservation, mark_reservation_committed,
  mark_reservation_released, latest_reservation, expired_reservations,
}

abbrev pub Call : Type 0 → Type 0
Call A = Action Tables A

-- operation/service.go `ResourceSpec`: amounts and counts.
pub record ResourceSpec : Type 0 where
  pub amounts : Amounts
  pub ipv4_count : ℕ
  pub ipv6_count : ℕ
  pub nat_ports : ℕ

-- Fifteen minutes, in nanoseconds.
abbrev pub reservation_expiry : ℕ
reservation_expiry = 900 * 1_000_000_000

abbrev port_count_ceiling : ℕ
port_count_ceiling = 1_000_000

abbrev at_most : ℕ → ℕ → ℕ
at_most limit count = if ltb count limit then count else limit

-- store.go `Reserve`, `Commit`, `Release`
unfoldable pub reserve : Uuid → Amounts → Time → Call Bool
reserve node_id spec at = do
  tag ← statement (reserve_node_resources node_id spec at)
  pure (tag == 1)

unfoldable pub commit : Uuid → Amounts → Time → Call Bool
commit node_id spec at = do tag ← statement (commit_node_resources node_id spec at); pure (tag == 1)

unfoldable pub release : Uuid → Amounts → Time → Call Bool
release node_id spec at = do
  tag ← statement (release_node_resources node_id spec at)
  pure (tag == 1)

-- `if !ok { return e }`
abbrev pub or_else : Error → Bool → Call (Unit {0}) → Call (Unit {0})
or_else e false next = throw e
or_else e true next = next

-- The receipt; `now` is the clock of the database, which stamps the row.
abbrev pub receipt : Uuid → Uuid → Uuid → ResourceSpec → Time → Time → Reservation
receipt id operation_id node_id spec at now = record {
  id = id;
  node_id = node_id;
  operation_id = operation_id;
  spec = spec.amounts;
  ipv4_count = at_most port_count_ceiling spec.ipv4_count;
  ipv6_count = at_most port_count_ceiling spec.ipv6_count;
  nat_port_count = at_most port_count_ceiling spec.nat_ports;
  status = ReservationStatus.reserved;
  expires_at = add_duration at reservation_expiry;
  updated_at = now;
}

module _ (new_uuid : ℕ → ℕ) (now : Time) where
  abbrev pub record_receipt : Uuid → Uuid → ResourceSpec → Time → Call (Unit {0})
  record_receipt operation_id node_id spec at = do
    id ← fresh new_uuid
    statement (create_resource_reservation (receipt id operation_id node_id spec at now))

  unfoldable pub reserve_body : Uuid → Uuid → ResourceSpec → Time → Call (Unit {0})
  unfolding reserve
  reserve_body operation_id node_id spec at = do
    is_reserved ← reserve node_id spec.amounts at
    or_else reservation_lost is_reserved (record_receipt operation_id node_id spec at)

  abbrev pub reserve_new : Uuid → Uuid → ResourceSpec → Time → Option Reservation → Call (Unit {0})
  reserve_new operation_id node_id spec at (some existing) = pure tt
  reserve_new operation_id node_id spec at none =
      within_transaction (reserve_body operation_id node_id spec at)

  -- `ReserveForOperation`
  unfoldable pub reserve_for_operation : Uuid → Uuid → ResourceSpec → Time → Call (Unit {0})
  unfolding reserve_body
  reserve_for_operation operation_id node_id spec at = do
    existing ← if_applied (statement (open_reservation operation_id))
    reserve_new operation_id node_id spec at existing

abbrev pub commit_marked : Uuid → Amounts → Time → ℕ → Call (Unit {0})
commit_marked node_id spec at tag =
    or_else reservation_lost (tag == 1)
      (do is_committed ← commit node_id spec at; or_else commit_refused is_committed (pure tt))

unfoldable pub commit_body : Uuid → Uuid → Amounts → Time → Call (Unit {0})
unfolding commit
commit_body operation_id node_id spec at = do
  tag ← statement (mark_reservation_committed operation_id node_id at)
  commit_marked node_id spec at tag

-- `CommitReservation`
unfoldable pub commit_reservation : Uuid → Uuid → Amounts → Time → Call (Unit {0})
unfolding commit_body
commit_reservation operation_id node_id spec at =
    within_transaction (commit_body operation_id node_id spec at)

-- The receipt was released before, or it is lost; a read that fails counts as lost.
abbrev pub is_released : ReservationStatus → Bool
is_released ReservationStatus.released = true
is_released _ = false

abbrev or_lost : Outcome Tables Reservation → Outcome Tables (Unit {0})
or_lost (done r w) = if is_released r.status then done tt w else failed reservation_lost w
or_lost (failed e w) = failed reservation_lost w

unfoldable pub already_released : Uuid → Uuid → Call (Unit {0})
already_released operation_id node_id w =
    or_lost (statement (latest_reservation operation_id node_id) w)

abbrev pub release_marked : Uuid → Uuid → Amounts → Time → Bool → Call (Unit {0})
release_marked operation_id node_id spec at false = already_released operation_id node_id
release_marked operation_id node_id spec at true = do release node_id spec at; pure tt

unfoldable pub release_body : Uuid → Uuid → Amounts → Time → Call (Unit {0})
unfolding release already_released
release_body operation_id node_id spec at = do
  tag ← statement (mark_reservation_released operation_id node_id at)
  release_marked operation_id node_id spec at (tag == 1)

-- `ReleaseReservation`
unfoldable pub release_reservation : Uuid → Uuid → Amounts → Time → Call (Unit {0})
unfolding release_body
release_reservation operation_id node_id spec at =
    within_transaction (release_body operation_id node_id spec at)

unfoldable pub release_each : List Reservation → Time → Call (Unit {0})
unfolding release
release_each [] at = pure tt
release_each (r ∷ rs) at = do release r.node_id r.spec at; release_each rs at

-- `SweepExpiredReservations`, with the rows that other transactions have locked; the statements run one
-- by one, in no transaction.
unfoldable pub sweep_expired_reservations : (Uuid → Bool) → Time → Call ℕ
unfolding release_each
sweep_expired_reservations locked at = do
  rows ← statement (expired_reservations locked at)
  release_each rows at
  pure (length rows)
