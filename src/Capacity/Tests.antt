-- ===== src/Capacity/Tests.antt =====
-- Tests of the capacity of the nodes.
use vps_billing_workbuddy.Prelude.{ℕ, ◌+◌, ◌≡◌, ◌≤◌, refl, Bool, true, false, ◌&&◌, [], ◌∷◌, arith}
use vps_billing_workbuddy.Errors.{reservation_lost}
use vps_billing_workbuddy.Database.{
  World, done, failed, world_after, ◌>>=◌, if_applied, statement, within_transaction, pure, throw,
  fresh,
}
use vps_billing_workbuddy.Calendar.{
  Time, add_duration, add_days, next_day, days_in_month, instant, day_number, days_before_month,
  days_before_year,
}
use vps_billing_workbuddy.Rows.{count_where, first_where, update_where, all_where}
use vps_billing_workbuddy.Infra.{NodeStatus}
use vps_billing_workbuddy.Capacity.Sql.{
  Part, Amounts, amount, NodeRow, Tables, open_reservation, reserve_node_resources, update_nodes,
  create_resource_reservation, mark_reservation_committed, settle_where, commit_node_resources,
  expired_reservations, due_reservations, take, in_expiry_order, by_expiry, is_among,
  release_node_resources,
}
use vps_billing_workbuddy.Capacity.Store.{
  ResourceSpec, reserve_for_operation, commit_reservation, reserve_body, reserve, commit_body,
  commit, release_each, release, sweep_expired_reservations,
}
use vps_billing_workbuddy.Capacity.Books.{no_debt, IsSound, held}
use vps_billing_workbuddy.Capacity.Books.Sweeps.{is_done}
use vps_billing_workbuddy.Capacity.Books.{kept, IsAllotted}
use vps_billing_workbuddy.Capacity.Books.Lives.{
  Runs, start, reserved, committed, swept, AreNamed, IsKept, books-IsKept,
}
use vps_billing_workbuddy.Capacity.Promises.{reserve_again}

abbrev at_noon : Time
at_noon = record { year = 2026; month = 1; day = 1; nanos = 0 }

abbrev a_day_later : Time
a_day_later = record { year = 2026; month = 1; day = 2; nanos = 0 }

abbrev nothing : Amounts
nothing = record { cpu_cores = 0; memory_mb = 0; disk_gb = 0 }

-- One core, a gigabyte, and twenty.
abbrev small : Amounts
small = record { cpu_cores = 100; memory_mb = 1024; disk_gb = 20 }

abbrev request : ResourceSpec
request = record { amounts = small; ipv4_count = 1; ipv6_count = 0; nat_ports = 20 }

-- A node with room for one such instance.
abbrev tiny : NodeRow
tiny = record {
  id = 1;
  status = NodeStatus.online;
  total = record { cpu_cores = 150; memory_mb = 2000; disk_gb = 30 };
  allocated = nothing;
  reserved = nothing;
  version = 0;
  updated_at = at_noon;
}

abbrev empty_world : World Tables
empty_world = record {
  db = record { nodes = tiny ∷ []; reservations = [] };
  faults = [];
  drawn = 0;
}

abbrev draw : ℕ → ℕ
draw n = n

abbrev promised_world : World Tables
promised_world = world_after (reserve_for_operation draw at_noon 7 1 request at_noon empty_world)

abbrev committed_world : World Tables
committed_world = world_after (commit_reservation 7 1 small at_noon promised_world)

abbrev no_locks : ℕ → Bool
no_locks id = false

abbrev swept_world : World Tables
swept_world = world_after (sweep_expired_reservations no_locks a_day_later promised_world)

-- The node has room once; the sweep of the next day gives the room back.
promised_once :
    (promised_world.db.nodes ≡ record tiny { reserved = small; version = 1 } ∷ [])
    × (reserve_for_operation draw at_noon 8 1 request at_noon promised_world
        ≡ failed reservation_lost promised_world)
    × (swept_world.db.nodes ≡ record tiny { version = 2; updated_at = a_day_later } ∷ [])
unfolding reserve_for_operation ◌>>=◌ if_applied statement open_reservation first_where
    within_transaction reserve_body reserve reserve_node_resources update_nodes pure throw
    count_where fresh create_resource_reservation update_where sweep_expired_reservations
    expired_reservations due_reservations take in_expiry_order by_expiry all_where is_among
    release_each release release_node_resources add_duration add_days next_day days_in_month instant
    day_number days_before_month days_before_year
promised_once = (refl, refl, refl)

tiny_fits : (p : Part) → amount p tiny.allocated + amount p tiny.reserved ≤ amount p tiny.total
tiny_fits Part.cpu = omega arith
tiny_fits Part.memory = omega arith
tiny_fits Part.disk = omega arith

tiny_explained : (p : Part) → amount p tiny.reserved ≡ held p tiny.id [] + no_debt p tiny.id
unfolding held
tiny_explained Part.cpu = omega arith
tiny_explained Part.memory = omega arith
tiny_explained Part.disk = omega arith

tiny-IsSound : IsSound no_debt empty_world.db
unfolding count_where held
tiny-IsSound = record {
  node_keys = λ id. ground arith;
  keys = λ id. ground arith;
  open_once = λ id. ground arith;
  balanced = (record { fits = tiny_fits; explained = tiny_explained }, tt);
}

abbrev is_unbroken : Bool
is_unbroken = true && is_done (sweep_expired_reservations no_locks a_day_later committed_world)

promised :
    reserve_for_operation draw at_noon 7 1 request at_noon empty_world ≡ done tt promised_world
unfolding reserve_for_operation ◌>>=◌ if_applied statement open_reservation first_where
    within_transaction reserve_body reserve reserve_node_resources update_nodes pure throw
    count_where fresh create_resource_reservation update_where
promised = refl

-- A promise, kept, and a sweep that finds nothing due.
abbrev a_life :
    Runs draw empty_world is_unbroken
      (world_after (sweep_expired_reservations no_locks a_day_later committed_world))
a_life =
    swept (committed (reserved start at_noon 7 1 request at_noon) 7 1 small at_noon) no_locks
      a_day_later

a_life-AreNamed : AreNamed a_life
unfolding reserve_for_operation ◌>>=◌ if_applied statement open_reservation first_where
    within_transaction reserve_body reserve reserve_node_resources update_nodes pure throw
    count_where fresh create_resource_reservation update_where commit_reservation commit_body commit
    mark_reservation_committed settle_where commit_node_resources
a_life-AreNamed = (tt, (λ hit. refl, tt))

tiny_allotted :
    (p : Part) → amount p tiny.allocated + no_debt p tiny.id ≡ no_debt p tiny.id + kept p tiny.id []
unfolding kept
tiny_allotted Part.cpu = omega arith
tiny_allotted Part.memory = omega arith
tiny_allotted Part.disk = omega arith

-- Nothing is allocated on the node but by receipts.
tiny-IsAllotted : IsAllotted no_debt no_debt empty_world.db
unfolding kept
tiny-IsAllotted = (tiny_allotted, tt)

books-IsKept_example :
    IsKept no_debt is_unbroken
      (world_after (sweep_expired_reservations no_locks a_day_later committed_world)).db
books-IsKept_example =
    books-IsKept draw no_debt empty_world tiny-IsSound tiny-IsAllotted is_unbroken
      (world_after (sweep_expired_reservations no_locks a_day_later committed_world)) a_life
      a_life-AreNamed

reserve_again_example :
    reserve_for_operation draw at_noon 7 2 request a_day_later promised_world
    ≡ done tt promised_world
unfolding reserve_for_operation ◌>>=◌ if_applied statement open_reservation first_where
    within_transaction reserve_body reserve reserve_node_resources update_nodes pure throw
    count_where fresh create_resource_reservation update_where
reserve_again_example =
    reserve_again draw 7 at_noon at_noon 1 2 request request at_noon a_day_later empty_world
      promised_world promised_world promised refl refl
