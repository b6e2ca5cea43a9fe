-- ===== src/Capacity/Books/Lives.antt =====
-- Whole lives of the capacity of the nodes: reservations, commits, releases and sweeps, one after the
-- other, in any order and with any statement failing.
use vps_billing_workbuddy.Prelude.{ℕ, ◌≡◌, refl, sym, Bool, true, false, ◌&&◌, List, [], ◌∷◌, arith}
use vps_billing_workbuddy.Database.{World, world_after}
use vps_billing_workbuddy.Ledger.{Uuid}
use vps_billing_workbuddy.Calendar.{Time}
use vps_billing_workbuddy.Capacity.Sql.{Part, Amounts, Reservation, Tables}
use vps_billing_workbuddy.Capacity.Store.{
  ResourceSpec, reserve_for_operation, commit_reservation, release_reservation,
  sweep_expired_reservations,
}
use vps_billing_workbuddy.Capacity.Books.{Debt, no_debt, leaked, IsSound, IsAllotted}
use vps_billing_workbuddy.Capacity.Books.Receipts.{agreed-IsSound}
use vps_billing_workbuddy.Capacity.Books.Suits.{
  reserve_for_operation-Suits, release_reservation-Suits,
}
use vps_billing_workbuddy.Capacity.Books.Allotted.{Allots, Allots-Suits, commit_reservation-Allots}
use vps_billing_workbuddy.Capacity.Books.Leaks.{
  LosesSame, LosesSame-Suits, commit_reservation-LosesSame,
}
use vps_billing_workbuddy.Capacity.Books.Receipts.{Names}
use vps_billing_workbuddy.Capacity.Books.Calls.{
  reserve_for_operation-Respects, commit_reservation-Respects, release_reservation-Respects,
}
use vps_billing_workbuddy.Capacity.Books.Sweeps.{is_done, Keeps, sweep_expired_reservations-Sweeps}

-- The calls made from a world; `unbroken` says that no sweep of them has failed.
pub data Runs (new_uuid : ℕ → ℕ) (w : World Tables) : Bool → World Tables → Type 0 where
  start : Runs new_uuid w true w
  reserved :
      {b : Bool} {v : World Tables}
      → Runs new_uuid w b v
      → (now : Time) (operation_id node_id : Uuid) (spec : ResourceSpec) (at : Time)
      → Runs new_uuid w b
          (world_after (reserve_for_operation new_uuid now operation_id node_id spec at v))
  committed :
      {b : Bool} {v : World Tables}
      → Runs new_uuid w b v
      → (operation_id node_id : Uuid) (spec : Amounts) (at : Time)
      → Runs new_uuid w b (world_after (commit_reservation operation_id node_id spec at v))
  released :
      {b : Bool} {v : World Tables}
      → Runs new_uuid w b v
      → (operation_id node_id : Uuid) (spec : Amounts) (at : Time)
      → Runs new_uuid w b (world_after (release_reservation operation_id node_id spec at v))
  swept :
      {b : Bool} {v : World Tables}
      → Runs new_uuid w b v
      → (locked : Uuid → Bool) (at : Time)
      → Runs new_uuid w
          (b && is_done (sweep_expired_reservations locked at v))
          (world_after (sweep_expired_reservations locked at v))

-- Every commit and release names the amounts that its receipt does.
abbrev pub AreNamed :
    {new_uuid : ℕ → ℕ} {w : World Tables} {b : Bool} {v : World Tables}
    → Runs new_uuid w b v
    → Type 0
AreNamed start = Unit
AreNamed (reserved h now operation_id node_id spec at) = AreNamed h
AreNamed (committed {v = v} h operation_id node_id spec at) =
    AreNamed h × Names v.db operation_id node_id spec
AreNamed (released {v = v} h operation_id node_id spec at) =
    AreNamed h × Names v.db operation_id node_id spec
AreNamed (swept h locked at) = AreNamed h

-- The books, with the expired receipts that are lost.
abbrev pub IsKept : Debt → Bool → Tables → Type 0
IsKept base unbroken t =
    (lost : Uuid → Bool) × Keeps base lost t × (unbroken ≡ true → (id : Uuid) → lost id ≡ false)

-- The books under a call that keeps what is lost.
IsKept-on :
    (base : Debt) (b : Bool) (t t' : Tables)
    → ((debt : Debt) → IsSound debt t → IsSound debt t')
    → ((lost : Uuid → Bool) → LosesSame lost t t')
    → Allots base t t'
    → IsKept base b t
    → IsKept base b t'
IsKept-on base b t t' sound same allots (lost, k, clean) = (
  lost,
  record {
    sound =
        agreed-IsSound (leaked lost t.reservations) (leaked lost t'.reservations) t'
          (λ p id. sym (same lost p id)) (sound (leaked lost t.reservations) k.sound);
    allotted = allots k.allotted;
  },
  clean,
)

none_lost : (p : Part) (id : Uuid) (rs : List Reservation) → 0 ≡ leaked (λ _. false) rs p id
unfolding leaked
none_lost p id [] = refl
none_lost p id (r ∷ rs) = ground (arith, none_lost p id rs)

-- From sound books, where the allocations of every node are its committed receipts and an amount that
-- no receipt explains, through whatever reservations, commits, releases and sweeps, in any order, with any
-- receipts locked and any statements failing, and where every commit and release names the amounts of
-- its receipt: no node is overbooked, no operation has two open receipts, the allocations of every node
-- are its committed receipts and that same amount, and what every node has reserved is the sum of its
-- open receipts and of some receipts that are expired and were not given back; of these there are none
-- if no sweep has failed.
pub books-IsKept :
    (new_uuid : ℕ → ℕ) (base : Debt) (w : World Tables)
    → IsSound no_debt w.db
    → IsAllotted base no_debt w.db
    → (b : Bool) (v : World Tables) (h : Runs new_uuid w b v) → AreNamed h
    → IsKept base b v.db
books-IsKept new_uuid base w s a b v start named = (
  (λ _. false),
  record {
    sound =
        agreed-IsSound no_debt (leaked (λ _. false) w.db.reservations) w.db
          (λ p id. none_lost p id w.db.reservations) s;
    allotted = a;
  },
  λ h id. refl,
)
books-IsKept new_uuid base w s a b v (reserved {v = u} h now operation_id node_id spec at) named =
    IsKept-on base b u.db _
      (λ debt.
        (reserve_for_operation-Respects debt operation_id node_id at new_uuid now spec).respects u)
      (λ lost.
        (reserve_for_operation-Suits (LosesSame lost) (LosesSame-Suits lost) operation_id node_id at
            new_uuid now spec).respects
          u)
      ((reserve_for_operation-Suits (Allots base) (Allots-Suits base) operation_id node_id at
          new_uuid now spec).respects
        u)
      (books-IsKept new_uuid base w s a b u h named)
books-IsKept new_uuid base w s a b v (committed {v = u} h operation_id node_id spec at)
      (named, this) =
    IsKept-on base b u.db _
      (λ debt. (commit_reservation-Respects debt operation_id node_id at spec).respects u this)
      (λ lost. (commit_reservation-LosesSame lost operation_id node_id spec at).respects u)
      ((commit_reservation-Allots base operation_id node_id spec at).respects u this)
      (books-IsKept new_uuid base w s a b u h named)
books-IsKept new_uuid base w s a b v (released {v = u} h operation_id node_id spec at)
      (named, this) =
    IsKept-on base b u.db _
      (λ debt. (release_reservation-Respects debt operation_id node_id at spec).respects u this)
      (λ lost.
        (release_reservation-Suits (LosesSame lost) (LosesSame-Suits lost) operation_id node_id at
            spec).respects
          u)
      ((release_reservation-Suits (Allots base) (Allots-Suits base) operation_id node_id at
          spec).respects
        u)
      (books-IsKept new_uuid base w s a b u h named)
books-IsKept new_uuid base w s a b v (swept {b = c} {v = u} h locked at) named =
    let (lost, k, clean) = books-IsKept new_uuid base w s a c u h named in
    let (lost', k', same) = sweep_expired_reservations-Sweeps base lost locked at u k in
    (lost', k', λ both id. same (ground arith) id (clean (ground arith) id))
