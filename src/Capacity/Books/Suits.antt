-- ===== src/Capacity/Books/Suits.antt =====
-- Relations of the tables that the statements on capacity respect, and with them the calls.
use vps_billing_workbuddy.Prelude.{
  ℕ, ◌≡◌, refl, ◌==◌, Bool, true, false, Option, none, some, List, [], ◌∷◌, inl, inr, Bool-cases,
}
use vps_billing_workbuddy.Errors.{ok, reservation_lost}
use vps_billing_workbuddy.Database.{
  World, pure, throw, statement, fresh, if_applied, within_transaction, world_after, Respects,
  statement-Respects, if_applied-Respects, pure-Respects, fresh-Respects, >>=-Respects,
  within_transaction-Respects, one_row-found, statement-eq-done, statement-eq-failed, Outcome-cases,
}
use vps_billing_workbuddy.Ledger.{Uuid}
use vps_billing_workbuddy.Calendar.{Time}
use vps_billing_workbuddy.Capacity.Sql.{
  Amounts, Reservation, ReservationStatus, Tables, open_reservation, reserve_node_resources,
  commit_node_resources, release_node_resources, create_resource_reservation,
  mark_reservation_committed, mark_reservation_released, latest_reservation,
}
use vps_billing_workbuddy.Capacity.Store.{
  Call, ResourceSpec, reserve, commit, release, or_else, receipt, reserve_body, record_receipt,
  reserve_new, reserve_for_operation, commit_body, commit_reservation, already_released,
  release_marked, is_released, release_body, release_reservation, release_each,
}

-- What the statements of a reservation and of a release do to the tables is in the relation.
pub record Suits (R : Tables → Tables → Type 0) : Type 0 where
  pub same : (t : Tables) → R t t
  pub chain : (t u v : Tables) → R t u → R u v → R t v
  pub on_reserve :
      (node_id : Uuid) (spec : Amounts) (at : Time) (t t' : Tables) (n : ℕ)
      → reserve_node_resources node_id spec at t ≡ ok (n, t')
      → R t t'
  pub on_release :
      (node_id : Uuid) (spec : Amounts) (at : Time) (t t' : Tables) (n : ℕ)
      → release_node_resources node_id spec at t ≡ ok (n, t')
      → R t t'
  pub on_create :
      (r : Reservation) (t t' : Tables) (u : Unit {0})
      → r.status ≡ ReservationStatus.reserved
      → create_resource_reservation r t ≡ ok (u, t')
      → R t t'
  pub on_released :
      (operation_id node_id : Uuid) (at : Time) (t t' : Tables) (n : ℕ)
      → mark_reservation_released operation_id node_id at t ≡ ok (n, t')
      → R t t'

module _ (R : Tables → Tables → Type 0) (s : Suits R) where
  throw-Respects : {A : Type 0} (e : _) → Respects R (throw {D = Tables} {A = A} e)
  unfolding throw
  throw-Respects e = record { respects = λ w. s.same w.db }

  or_else-Respects :
      (b : Bool) (m : Call (Unit {0})) (e : _) → Respects R m → Respects R (or_else e b m)
  or_else-Respects true m e h = h
  or_else-Respects false m e h = throw-Respects e

  transaction-Respects :
      {A : Type 0} (m : Call A) → Respects R m → Respects R (within_transaction m)
  transaction-Respects m h =
      within_transaction-Respects R m s.same λ a v w e. rw e at (h.respects v)

  pub release-Respects :
      (node_id : Uuid) (spec : Amounts) (at : Time) → Respects R (release node_id spec at)
  unfolding release
  release-Respects node_id spec at =
      >>=-Respects R s.chain (statement (release_node_resources node_id spec at)) _
        (statement-Respects R (release_node_resources node_id spec at) s.same
          (λ t t' n h. s.on_release node_id spec at t t' n h))
        λ tag. pure-Respects R s.same (tag == 1)

  pub release_each-Respects :
      (rows : List Reservation) (at : Time) → Respects R (release_each rows at)
  unfolding release_each
  release_each-Respects [] at = pure-Respects R s.same tt
  release_each-Respects (r ∷ rs) at =
      >>=-Respects R s.chain (release r.node_id r.spec at) _ (release-Respects r.node_id r.spec at)
        λ b. release_each-Respects rs at

  module _ (operation_id node_id : Uuid) (at : Time) where
    reserve-Respects : (spec : Amounts) → Respects R (reserve node_id spec at)
    unfolding reserve
    reserve-Respects spec =
        >>=-Respects R s.chain (statement (reserve_node_resources node_id spec at)) _
          (statement-Respects R (reserve_node_resources node_id spec at) s.same
            (λ t t' n h. s.on_reserve node_id spec at t t' n h))
          λ tag. pure-Respects R s.same (tag == 1)

    module _ (new_uuid : ℕ → ℕ) (now : Time) (spec : ResourceSpec) where
      reserve_body-Respects : Respects R (reserve_body new_uuid now operation_id node_id spec at)
      unfolding reserve_body
      reserve_body-Respects =
          >>=-Respects R s.chain (reserve node_id spec.amounts at) _ (reserve-Respects spec.amounts)
            λ b.
              or_else-Respects b (record_receipt new_uuid now operation_id node_id spec at)
                reservation_lost
                (>>=-Respects R s.chain (fresh new_uuid) _ (fresh-Respects R s.same new_uuid) λ id.
                  statement-Respects R
                    (create_resource_reservation (receipt id operation_id node_id spec at now))
                    s.same
                    (λ t t' u h.
                      s.on_create (receipt id operation_id node_id spec at now) t t' u refl h))

      reserve_new-Respects :
          (existing : Option Reservation)
          → Respects R (reserve_new new_uuid now operation_id node_id spec at existing)
      reserve_new-Respects (some r) = pure-Respects R s.same tt
      reserve_new-Respects none = transaction-Respects _ reserve_body-Respects

      pub reserve_for_operation-Suits :
          Respects R (reserve_for_operation new_uuid now operation_id node_id spec at)
      unfolding reserve_for_operation open_reservation
      reserve_for_operation-Suits =
          >>=-Respects R s.chain (if_applied (statement (open_reservation operation_id))) _
            (if_applied-Respects R (statement (open_reservation operation_id)) (
              statement-Respects R (open_reservation operation_id) s.same
                λ d d' r h. rw (one_row-found _ d d' r h).1 (s.same d)))
            reserve_new-Respects

    module _ (spec : Amounts) where
      already_released-db :
          (w : World Tables) → (world_after (already_released operation_id node_id w)).db ≡ w.db
      unfolding already_released latest_reservation
      already_released-db w =
          elim (Outcome-cases (statement (latest_reservation operation_id node_id) w)) [
            | inl (r, x, e) ↦
                let ran = (statement-eq-done (latest_reservation operation_id node_id) w e).0 in
                let read = (one_row-found _ w.db x.db r ran).1 in
                elim (Bool-cases (is_released r.status)) [
                  | inl known ↦ rw (e, known) read
                  | inr unknown ↦ rw (e, unknown) read
                ]
            | inr (x, y, e) ↦
                rw e (statement-eq-failed (latest_reservation operation_id node_id) w e)
          ]

      already_released-Respects : Respects R (already_released operation_id node_id)
      already_released-Respects = record {
        respects = λ w. rw (already_released-db w) (s.same w.db);
      }

      release_marked-Respects :
          (b : Bool) → Respects R (release_marked operation_id node_id spec at b)
      release_marked-Respects false = already_released-Respects
      release_marked-Respects true =
          >>=-Respects R s.chain (release node_id spec at) _ (release-Respects node_id spec at)
            λ b. pure-Respects R s.same tt

      pub release_reservation-Suits : Respects R (release_reservation operation_id node_id spec at)
      unfolding release_reservation release_body
      release_reservation-Suits = transaction-Respects (release_body operation_id node_id spec at) (
          >>=-Respects R s.chain (statement (mark_reservation_released operation_id node_id at)) _
            (statement-Respects R (mark_reservation_released operation_id node_id at) s.same
              (λ t t' n h. s.on_released operation_id node_id at t t' n h))
            λ tag. release_marked-Respects (tag == 1))

      -- A commit is in the relation where its statements are.
      pub commit_reservation-Suits :
          ((t t' : Tables) (n : ℕ)
            → mark_reservation_committed operation_id node_id at t ≡ ok (n, t')
            → R t t')
          → ((t t' : Tables) (n : ℕ)
              → commit_node_resources node_id spec at t ≡ ok (n, t')
              → R t t')
          → Respects R (commit_reservation operation_id node_id spec at)
      unfolding commit_reservation commit_body commit
      commit_reservation-Suits marked moved =
          transaction-Respects (commit_body operation_id node_id spec at) (
            >>=-Respects R s.chain (statement (mark_reservation_committed operation_id node_id at))
              _
              (statement-Respects R (mark_reservation_committed operation_id node_id at) s.same
                (λ t t' n h. marked t t' n h))
              λ tag. or_else-Respects (tag == 1) _ reservation_lost (
                >>=-Respects R s.chain (commit node_id spec at) _
                  (>>=-Respects R s.chain (statement (commit_node_resources node_id spec at)) _
                    (statement-Respects R (commit_node_resources node_id spec at) s.same
                      (λ t t' n h. moved t t' n h))
                    λ tag. pure-Respects R s.same (tag == 1))
                  λ b. or_else-Respects b (pure tt) _ (pure-Respects R s.same tt)))
