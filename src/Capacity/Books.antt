-- ===== src/Capacity/Books.antt =====
-- The books of the nodes: what the counters of a node say against the receipts that are open.
pub mod Held
pub mod Nodes
pub mod Receipts
pub mod Expiry
pub mod Calls
pub mod Sweeps
pub mod Leaked
pub mod Suits
pub mod Allotted
pub mod Leaks
pub mod Lives
use vps_billing_workbuddy.Prelude.{
  ℕ, Bool, true, false, ◌≡◌, ◌≤◌, ◌+◌, ◌==◌, ◌&&◌, List, [], ◌∷◌, All, if◌then◌else◌,
}
use vps_billing_workbuddy.Ledger.{Uuid}
use vps_billing_workbuddy.Rows.{count_where}
use vps_billing_workbuddy.Capacity.Sql.{
  Part, Amounts, amount, NodeRow, Reservation, ReservationStatus, Tables, is_open, is_open_of,
  has_node_id, has_receipt_id,
}

-- What the open receipts of a node promise of a part.
unfoldable pub held : Part → Uuid → List Reservation → ℕ
held p id [] = 0
held p id (r ∷ rs) =
    let rest = held p id rs in
    if is_open r.status && r.node_id == id then amount p r.spec + rest else rest

-- What the counters of a node hold though no receipt explains it.
abbrev pub Debt : Type 0
Debt = Part → Uuid → ℕ

abbrev pub no_debt : Debt
no_debt p id = 0

-- A debt on one node more.
unfoldable pub owing : Uuid → Amounts → Debt → Debt
owing node_id spec debt p id = if node_id == id then amount p spec + debt p id else debt p id

-- A debt for each of the receipts more.
unfoldable pub owing_all : List Reservation → Debt → Debt
unfolding owing
owing_all [] debt = debt
owing_all (r ∷ rs) debt = owing r.node_id r.spec (owing_all rs debt)

abbrev pub is_committed : ReservationStatus → Bool
is_committed ReservationStatus.committed = true
is_committed _ = false

abbrev pub is_expired_status : ReservationStatus → Bool
is_expired_status ReservationStatus.expired = true
is_expired_status _ = false

-- What the expired receipts of a node promised, of those that are lost.
unfoldable pub leaked : (Uuid → Bool) → List Reservation → Debt
leaked lost [] p id = 0
leaked lost (r ∷ rs) p id =
    let rest = leaked lost rs p id in
    if is_expired_status r.status && lost r.id && r.node_id == id
    then amount p r.spec + rest
    else rest

-- What the committed receipts of a node were promised of a part.
unfoldable pub kept : Part → Uuid → List Reservation → ℕ
kept p id [] = 0
kept p id (r ∷ rs) =
    let rest = kept p id rs in
    if is_committed r.status && r.node_id == id then amount p r.spec + rest else rest

-- The allocation of every node is what it was without receipts and what its committed receipts say, less
-- an allocation that is due.
abbrev pub IsAllotted : Debt → Debt → Tables → Type 0
IsAllotted base due t =
    All
      (λ (n : NodeRow).
        (p : Part) → amount p n.allocated + due p n.id ≡ base p n.id + kept p n.id t.reservations)
      t.nodes

-- The node is not overbooked, and what it has promised is what its open receipts say, and the debt.
pub record IsBalanced (debt : Debt) (rs : List Reservation) (n : NodeRow) : Type 0 where
  pub fits : (p : Part) → amount p n.allocated + amount p n.reserved ≤ amount p n.total
  pub explained : (p : Part) → amount p n.reserved ≡ held p n.id rs + debt p n.id

pub record IsSound (debt : Debt) (t : Tables) : Type 0 where
  pub node_keys : (id : Uuid) → count_where (has_node_id id) t.nodes ≤ 1
  pub keys : (id : Uuid) → count_where (has_receipt_id id) t.reservations ≤ 1
  pub open_once : (operation_id : Uuid) → count_where (is_open_of operation_id) t.reservations ≤ 1
  pub balanced : All (IsBalanced debt t.reservations) t.nodes
