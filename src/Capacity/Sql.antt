-- ===== src/Capacity/Sql.antt =====
-- The tables `nodes` and `resource_reservations`, and the statements that move capacity
-- (backend/internal/db/sqlcgen/infra.sql.go, and two queries of
-- backend/internal/storage/infra/reservation.go). An UPDATE that would break a CHECK constraint of a row
-- is refused as a whole.
use vps_billing_workbuddy.Prelude.{
  ℕ, zero, suc, ◌+◌, ◌-◌, Bool, true, false, not, ◌&&◌, Option, none, some, List, [], ◌∷◌, ◌++◌,
  leb, ltb, ◌==◌, if◌then◌else◌,
}
use vps_billing_workbuddy.Errors.{Result, ok, err, statement_failed, unique_violation}
use vps_billing_workbuddy.Database.{one_row}
use vps_billing_workbuddy.Ledger.{Uuid}
use vps_billing_workbuddy.Calendar.{Time, instant}
use vps_billing_workbuddy.Rows.{first_where, all_where, update_where, count_where}
use vps_billing_workbuddy.Infra.{NodeStatus, is_online}

-- What is counted of a node.
pub data Part : Type 0 where
  cpu memory disk : Part

pub record Amounts : Type 0 where
  pub cpu_cores : ℕ
  pub memory_mb : ℕ
  pub disk_gb : ℕ

abbrev pub amount : Part → Amounts → ℕ
amount Part.cpu a = a.cpu_cores
amount Part.memory a = a.memory_mb
amount Part.disk a = a.disk_gb

abbrev pub plus : Amounts → Amounts → Amounts
plus a b = record {
  cpu_cores = a.cpu_cores + b.cpu_cores;
  memory_mb = a.memory_mb + b.memory_mb;
  disk_gb = a.disk_gb + b.disk_gb;
}

abbrev pub minus : Amounts → Amounts → Amounts
minus a b = record {
  cpu_cores = a.cpu_cores - b.cpu_cores;
  memory_mb = a.memory_mb - b.memory_mb;
  disk_gb = a.disk_gb - b.disk_gb;
}

-- No part of the first is above the second.
abbrev pub within : Amounts → Amounts → Bool
within a b = leb a.cpu_cores b.cpu_cores && leb a.memory_mb b.memory_mb && leb a.disk_gb b.disk_gb

-- A row of `nodes`, less the columns that no statement here reads.
pub record NodeRow : Type 0 where
  pub id : Uuid
  pub status : NodeStatus
  pub total : Amounts
  pub allocated : Amounts
  pub reserved : Amounts
  pub version : ℕ
  pub updated_at : Time

pub data ReservationStatus : Type 0 where
  reserved committed released expired : ReservationStatus

abbrev pub is_open : ReservationStatus → Bool
is_open ReservationStatus.reserved = true
is_open _ = false

-- A row of `resource_reservations`.
pub record Reservation : Type 0 where
  pub id : Uuid
  pub node_id : Uuid
  pub operation_id : Uuid
  pub spec : Amounts
  pub ipv4_count : ℕ
  pub ipv6_count : ℕ
  pub nat_port_count : ℕ
  pub status : ReservationStatus
  pub expires_at : Time
  pub updated_at : Time

pub record Tables : Type 0 where
  pub nodes : List NodeRow
  pub reservations : List Reservation

abbrev pub has_node_id : Uuid → NodeRow → Bool
has_node_id id n = n.id == id

-- UPDATE nodes SET … WHERE …, with the number of rows.
unfoldable pub update_nodes : (NodeRow → Bool) → (NodeRow → NodeRow) → Tables → Result (ℕ × Tables)
update_nodes test change t =
    ok (count_where test t.nodes, record t { nodes = update_where test change t.nodes })

abbrev pub has_room : Uuid → Amounts → NodeRow → Bool
has_room id spec n =
    n.id == id && is_online n.status && within (plus (plus n.allocated n.reserved) spec) n.total

abbrev pub promise : Amounts → Time → NodeRow → NodeRow
promise spec at n = record n {
  reserved = plus n.reserved spec;
  version = suc n.version;
  updated_at = at;
}

unfoldable pub reserve_node_resources : Uuid → Amounts → Time → Tables → Result (ℕ × Tables)
unfolding update_nodes
reserve_node_resources id spec at t = update_nodes (has_room id spec) (promise spec at) t

abbrev pub allocate : Amounts → Time → NodeRow → NodeRow
allocate spec at n = record n {
  allocated = plus n.allocated spec;
  reserved = minus n.reserved spec;
  version = suc n.version;
  updated_at = at;
}

-- The counters would be below zero, which `nodes_reserved_non_negative` refuses.
abbrev pub is_short : Uuid → Amounts → NodeRow → Bool
is_short id spec n = n.id == id && not (within spec n.reserved)

unfoldable pub commit_node_resources : Uuid → Amounts → Time → Tables → Result (ℕ × Tables)
unfolding update_nodes
commit_node_resources id spec at t =
    if count_where (is_short id spec) t.nodes == 0
    then update_nodes (has_node_id id) (allocate spec at) t
    else err statement_failed

abbrev pub holds : Uuid → Amounts → NodeRow → Bool
holds id spec n = n.id == id && within spec n.reserved

abbrev pub give_back : Amounts → Time → NodeRow → NodeRow
give_back spec at n = record n {
  reserved = minus n.reserved spec;
  version = suc n.version;
  updated_at = at;
}

unfoldable pub release_node_resources : Uuid → Amounts → Time → Tables → Result (ℕ × Tables)
unfolding update_nodes
release_node_resources id spec at t = update_nodes (holds id spec) (give_back spec at) t

abbrev pub has_receipt_id : Uuid → Reservation → Bool
has_receipt_id id r = r.id == id

abbrev pub is_open_of : Uuid → Reservation → Bool
is_open_of operation_id r = r.operation_id == operation_id && is_open r.status

abbrev pub is_open_at : Uuid → Uuid → Reservation → Bool
is_open_at operation_id node_id r =
    r.operation_id == operation_id && r.node_id == node_id && is_open r.status

-- SELECT id … WHERE operation_id = $1 AND status = 'reserved'
unfoldable pub open_reservation : Uuid → Tables → Result (Reservation × Tables)
open_reservation operation_id t = one_row (first_where (is_open_of operation_id) t.reservations) t

-- The primary key, and `ux_resource_reservations_open`.
unfoldable pub create_resource_reservation : Reservation → Tables → Result (Unit {0} × Tables)
create_resource_reservation r t =
    if not (count_where (has_receipt_id r.id) t.reservations == 0)
    then err (unique_violation "resource_reservations_pkey")
    else if not (count_where (is_open_of r.operation_id) t.reservations == 0)
    then err (unique_violation "ux_resource_reservations_open")
    else ok (tt, record t { reservations = t.reservations ++ r ∷ [] })

abbrev pub settled : ReservationStatus → Time → Reservation → Reservation
settled status at r = record r { status = status; updated_at = at }

-- UPDATE resource_reservations SET status = … WHERE …, with the number of rows.
unfoldable pub settle_where :
    (Reservation → Bool) → ReservationStatus → Time → Tables → Result (ℕ × Tables)
settle_where test status at t = ok (
  count_where test t.reservations,
  record t { reservations = update_where test (settled status at) t.reservations },
)

unfoldable pub mark_reservation_committed : Uuid → Uuid → Time → Tables → Result (ℕ × Tables)
unfolding settle_where
mark_reservation_committed operation_id node_id at t =
    settle_where (is_open_at operation_id node_id) ReservationStatus.committed at t

unfoldable pub mark_reservation_released : Uuid → Uuid → Time → Tables → Result (ℕ × Tables)
unfolding settle_where
mark_reservation_released operation_id node_id at t =
    settle_where (is_open_at operation_id node_id) ReservationStatus.released at t

-- ORDER BY updated_at DESC LIMIT 1: the first of equals.
abbrev later : Reservation → Option Reservation → Reservation
later r none = r
later r (some s) = if ltb (instant r.updated_at) (instant s.updated_at) then s else r

unfoldable pub latest_at : Uuid → Uuid → List Reservation → Option Reservation
latest_at operation_id node_id [] = none
latest_at operation_id node_id (r ∷ rs) =
    let rest = latest_at operation_id node_id rs in
    if r.operation_id == operation_id && r.node_id == node_id then some (later r rest) else rest

unfoldable pub latest_reservation : Uuid → Uuid → Tables → Result (Reservation × Tables)
unfolding latest_at
latest_reservation operation_id node_id t =
    one_row (latest_at operation_id node_id t.reservations) t

-- The sweep passes over the rows that another transaction has locked.
abbrev pub is_due : (Uuid → Bool) → Time → Reservation → Bool
is_due locked at r =
    is_open r.status && leb (instant r.expires_at) (instant at) && not (locked r.id)

-- ORDER BY expires_at
unfoldable pub by_expiry : Reservation → List Reservation → List Reservation
by_expiry r [] = r ∷ []
by_expiry r (s ∷ ss) =
    let rest = by_expiry r ss in
    if leb (instant r.expires_at) (instant s.expires_at) then r ∷ s ∷ ss else s ∷ rest

unfoldable pub in_expiry_order : List Reservation → List Reservation
unfolding by_expiry
in_expiry_order [] = []
in_expiry_order (r ∷ rs) = by_expiry r (in_expiry_order rs)

-- LIMIT
unfoldable pub take : ℕ → List Reservation → List Reservation
take zero rs = []
take (suc k) [] = []
take (suc k) (r ∷ rs) = r ∷ take k rs

abbrev pub sweep_limit : ℕ
sweep_limit = 64

unfoldable pub due_reservations : (Uuid → Bool) → Time → List Reservation → List Reservation
unfolding take in_expiry_order
due_reservations locked at rs = take sweep_limit (in_expiry_order (all_where (is_due locked at) rs))

-- WHERE id IN (…)
unfoldable pub is_among : List Reservation → Reservation → Bool
is_among [] r = false
is_among (s ∷ ss) r = if r.id == s.id then true else is_among ss r

-- The rows that are returned are the updated ones; what is read of them is not updated.
unfoldable pub expired_reservations :
    (Uuid → Bool) → Time → Tables → Result (List Reservation × Tables)
unfolding is_among due_reservations
expired_reservations locked at t =
    let due = due_reservations locked at t.reservations in
    ok (
      all_where (is_among due) t.reservations,
      record t {
        reservations =
            update_where (is_among due) (settled ReservationStatus.expired at) t.reservations;
      },
    )
