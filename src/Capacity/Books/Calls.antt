-- ===== src/Capacity/Books/Calls.antt =====
-- The books under the calls of the store that run in a transaction.
use vps_billing_workbuddy.Prelude.{
  ℕ, ◌≡◌, ◌==◌, refl, sym, Bool, Option, none, some, inl, inr, Bool-cases, arith,
}
use vps_billing_workbuddy.Errors.{Error, ok, reservation_lost}
use vps_billing_workbuddy.Database.{
  World, done, failed, ◌>>=◌, pure, statement, Outcome-cases, >>=-eq-done, pure-eq-done,
  throw-eq-done, fresh, fresh-eq-done, statement-eq-done, statement-eq-failed, if_applied, Respects,
  statement-Respects, if_applied-Respects, pure-Respects, >>=-Respects, within_transaction-Respects,
  one_row-found,
}
use vps_billing_workbuddy.Ledger.{Uuid}
use vps_billing_workbuddy.Calendar.{Time}
use vps_billing_workbuddy.Capacity.Sql.{
  Amounts, Reservation, ReservationStatus, Tables, open_reservation, reserve_node_resources,
  commit_node_resources, release_node_resources, latest_reservation, create_resource_reservation,
  mark_reservation_committed, mark_reservation_released,
}
use vps_billing_workbuddy.Capacity.Store.{
  ResourceSpec, reserve, commit, release, or_else, receipt, reserve_body, record_receipt,
  reserve_new, reserve_for_operation, commit_body, commit_marked, commit_reservation,
  already_released, release_marked, release_body, release_reservation,
}
use vps_billing_workbuddy.Capacity.Books.{Debt, IsSound}
use vps_billing_workbuddy.Capacity.Books.Nodes.{
  promise-IsSound, give_back-IsSound, allocate-IsSound,
}
use vps_billing_workbuddy.Capacity.Books.Receipts.{Names, recorded-IsSound, marked-IsSound}

-- What a move of the counters that is done has done.
reserve-eq-done :
    (node_id : Uuid) (spec : Amounts) (at : Time) (w : World Tables) {b : Bool} {w' : World Tables}
    → reserve node_id spec at w ≡ done b w'
    → (n : ℕ) × (b ≡ (n == 1)) × (reserve_node_resources node_id spec at w.db ≡ ok (n, w'.db))
unfolding reserve
reserve-eq-done node_id spec at w h =
    let (n, v, ran, p) =
      >>=-eq-done (statement (reserve_node_resources node_id spec at)) (λ tag. pure (tag == 1)) w
        h in
    let (answer, same) = pure-eq-done (n == 1) v p in
    (n, sym answer, rw same (statement-eq-done (reserve_node_resources node_id spec at) w ran).0)

pub commit-eq-done :
    (node_id : Uuid) (spec : Amounts) (at : Time) (w : World Tables) {b : Bool} {w' : World Tables}
    → commit node_id spec at w ≡ done b w'
    → (n : ℕ) × (commit_node_resources node_id spec at w.db ≡ ok (n, w'.db))
unfolding commit
commit-eq-done node_id spec at w h =
    let (n, v, ran, p) =
      >>=-eq-done (statement (commit_node_resources node_id spec at)) (λ tag. pure (tag == 1)) w
        h in
    let (answer, same) = pure-eq-done (n == 1) v p in
    (n, rw same (statement-eq-done (commit_node_resources node_id spec at) w ran).0)

pub release-eq-done :
    (node_id : Uuid) (spec : Amounts) (at : Time) (w : World Tables) {b : Bool} {w' : World Tables}
    → release node_id spec at w ≡ done b w'
    → (n : ℕ) × (release_node_resources node_id spec at w.db ≡ ok (n, w'.db))
unfolding release
release-eq-done node_id spec at w h =
    let (n, v, ran, p) =
      >>=-eq-done (statement (release_node_resources node_id spec at)) (λ tag. pure (tag == 1)) w
        h in
    let (answer, same) = pure-eq-done (n == 1) v p in
    (n, rw same (statement-eq-done (release_node_resources node_id spec at) w ran).0)

-- A release that fails has moved nothing.
pub release-eq-failed :
    (node_id : Uuid) (spec : Amounts) (at : Time) (w : World Tables) {e : Error} {w' : World Tables}
    → release node_id spec at w ≡ failed e w'
    → w'.db ≡ w.db
unfolding release ◌>>=◌ pure
release-eq-failed node_id spec at w h =
    elim (Outcome-cases (statement (release_node_resources node_id spec at) w)) [
      | inl (n, v, e) ↦ ground arith
      | inr (x, v, e) ↦
          let kept = statement-eq-failed (release_node_resources node_id spec at) w e in
          ground arith
    ]

-- The calls that run in a transaction keep the books, with whatever debt they carry.
abbrev pub KeepsDebt : Debt → Tables → Tables → Type 0
KeepsDebt debt t t' = IsSound debt t → IsSound debt t'

module _ (debt : Debt) (operation_id node_id : Uuid) (at : Time) where
  module _ (new_uuid : ℕ → ℕ) (now : Time) (spec : ResourceSpec) where
    reserve_body-IsSound :
        {u : Unit {0}} (v v' : World Tables)
        → reserve_body new_uuid now operation_id node_id spec at v ≡ done u v'
        → KeepsDebt debt v.db v'.db
    unfolding reserve_body
    reserve_body-IsSound v v' h s =
        let (b, v1, reserved, rest) =
          >>=-eq-done (reserve node_id spec.amounts at)
            (λ b.
              or_else reservation_lost b (record_receipt new_uuid now operation_id node_id spec at))
            v h in
        let (n, answer, moved) = reserve-eq-done node_id spec.amounts at v reserved in
        elim (Bool-cases b) [
          | inr refused ↦ throw-eq-done reservation_lost v1 (rw refused at rest)
          | inl granted ↦
              let (id, v2, drawn, insert) =
                >>=-eq-done (fresh new_uuid)
                  (λ id.
                    statement
                      (create_resource_reservation (receipt id operation_id node_id spec at now)))
                  v1 (rw granted at rest) in
              let r = receipt id operation_id node_id spec at now in
              let ran = (statement-eq-done (create_resource_reservation r) v2 insert).0 in
              let same = fresh-eq-done new_uuid v1 drawn in
              recorded-IsSound debt v2.db r refl
                (rw same (promise-IsSound node_id spec.amounts at debt v.db s moved (ground arith)))
                ran
        ]

    reserve_new-Respects :
        (existing : Option Reservation)
        → Respects (KeepsDebt debt) (reserve_new new_uuid now operation_id node_id spec at existing)
    reserve_new-Respects (some r) = pure-Respects (KeepsDebt debt) (λ d s. s) tt
    reserve_new-Respects none =
        within_transaction-Respects (KeepsDebt debt)
          (reserve_body new_uuid now operation_id node_id spec at) (λ d s. s)
          λ u v v' h. reserve_body-IsSound v v' h

    pub reserve_for_operation-Respects :
        Respects (KeepsDebt debt) (reserve_for_operation new_uuid now operation_id node_id spec at)
    unfolding reserve_for_operation open_reservation
    reserve_for_operation-Respects =
        >>=-Respects (KeepsDebt debt) (λ d e f h k s. k (h s))
          (if_applied (statement (open_reservation operation_id)))
          (reserve_new new_uuid now operation_id node_id spec at)
          (if_applied-Respects (KeepsDebt debt) (statement (open_reservation operation_id)) (
            statement-Respects (KeepsDebt debt) (open_reservation operation_id) (λ d s. s)
              λ d d' r h s. rw (one_row-found _ d d' r h).1 s))
          reserve_new-Respects

  module _ (spec : Amounts) where
    -- What a caller settles, it names as the receipt does.
    abbrev pub KeepsNamed : Tables → Tables → Type 0
    KeepsNamed t t' = Names t operation_id node_id spec → IsSound debt t → IsSound debt t'

    commit_body-IsSound :
        {u : Unit {0}} (v v' : World Tables)
        → commit_body operation_id node_id spec at v ≡ done u v'
        → KeepsNamed v.db v'.db
    unfolding commit_body mark_reservation_committed
    commit_body-IsSound v v' h named s =
        let (n, v1, marked, rest) =
          >>=-eq-done (statement (mark_reservation_committed operation_id node_id at))
            (commit_marked node_id spec at) v h in
        let ran =
          (statement-eq-done (mark_reservation_committed operation_id node_id at) v marked).0 in
        elim (marked-IsSound debt v.db operation_id node_id spec ReservationStatus.committed at refl
          named s ran) [
            | inr (lost, kept) ↦ throw-eq-done reservation_lost v1 (rw lost at rest)
            | inl (won, owed) ↦
                let (b, v2, committed, last) =
                  >>=-eq-done (commit node_id spec at) _ v1 (rw won at rest) in
                let (m, moved) = commit-eq-done node_id spec at v1 committed in
                let sound = allocate-IsSound node_id spec at debt v1.db owed moved in
                elim (Bool-cases b) [
                  | inl accepted ↦ rw (pure-eq-done tt v2 (rw accepted at last)).1 sound
                  | inr refused ↦ throw-eq-done _ v2 (rw refused at last)
                ]
          ]

    pub commit_reservation-Respects :
        Respects KeepsNamed (commit_reservation operation_id node_id spec at)
    unfolding commit_reservation
    commit_reservation-Respects =
        within_transaction-Respects KeepsNamed (commit_body operation_id node_id spec at)
          (λ d named s. s) λ u v v' h. commit_body-IsSound v v' h

    already_released-eq-done :
        {u : Unit {0}} (v v' : World Tables)
        → already_released operation_id node_id v ≡ done u v'
        → v'.db ≡ v.db
    unfolding already_released latest_reservation
    already_released-eq-done v v' h =
        elim (Outcome-cases (statement (latest_reservation operation_id node_id) v)) [
          | inl (r, x, e) ↦
              let ran = (statement-eq-done (latest_reservation operation_id node_id) v e).0 in
              let read = (one_row-found _ v.db x.db r ran).1 in ground arith
          | inr (x, y, e) ↦ ground arith
        ]

    release_body-IsSound :
        {u : Unit {0}} (v v' : World Tables)
        → release_body operation_id node_id spec at v ≡ done u v'
        → KeepsNamed v.db v'.db
    unfolding release_body mark_reservation_released
    release_body-IsSound v v' h named s =
        let (n, v1, marked, rest) =
          >>=-eq-done (statement (mark_reservation_released operation_id node_id at))
            (λ tag. release_marked operation_id node_id spec at (tag == 1)) v h in
        let ran =
          (statement-eq-done (mark_reservation_released operation_id node_id at) v marked).0 in
        elim (marked-IsSound debt v.db operation_id node_id spec ReservationStatus.released at refl
          named s ran) [
            | inr (lost, kept) ↦ rw (already_released-eq-done v1 v' (rw lost at rest)) kept
            | inl (won, owed) ↦
                let (b, v2, released, last) =
                  >>=-eq-done (release node_id spec at) (λ _. pure tt) v1 (rw won at rest) in
                let (m, moved) = release-eq-done node_id spec at v1 released in
                rw (pure-eq-done tt v2 last).1
                  (give_back-IsSound node_id spec at debt v1.db owed moved)
          ]

    pub release_reservation-Respects :
        Respects KeepsNamed (release_reservation operation_id node_id spec at)
    unfolding release_reservation
    release_reservation-Respects =
        within_transaction-Respects KeepsNamed (release_body operation_id node_id spec at)
          (λ d named s. s) λ u v v' h. release_body-IsSound v v' h
