-- ===== src/Capacity/Promises.antt =====
-- The promise of an operation: one that is on record is kept by a repeated request.
use vps_billing_workbuddy.Prelude.{ℕ, ◌≡◌, refl, ◌==◌, true, some, [], inl, inr, Bool-cases, arith}
use vps_billing_workbuddy.Errors.{ok, reservation_lost}
use vps_billing_workbuddy.Database.{
  World, done, pure, statement, >>=-eq-done, >>=-done, pure-eq-done, throw-eq-done, fresh,
  statement-eq-done, statement_fair, if_applied, if_applied-eq-done, if_applied-done,
  within_transaction-eq-done, ok_pair, one_row-found,
}
use vps_billing_workbuddy.Ledger.{Uuid}
use vps_billing_workbuddy.Calendar.{Time}
use vps_billing_workbuddy.Rows.{count_where, first_where}
use vps_billing_workbuddy.Rows.Laws.{first_where-append}
use vps_billing_workbuddy.Capacity.Sql.{
  Reservation, Tables, is_open_of, has_receipt_id, open_reservation, create_resource_reservation,
}
use vps_billing_workbuddy.Capacity.Store.{
  ResourceSpec, reserve, or_else, receipt, record_receipt, reserve_body, reserve_new,
  reserve_for_operation,
}

-- A receipt that is recorded is the operation's open one.
recorded_first :
    (r : Reservation) (t t' : Tables) {u : Unit {0}}
    → is_open_of r.operation_id r ≡ true
    → create_resource_reservation r t ≡ ok (u, t')
    → first_where (is_open_of r.operation_id) t'.reservations ≡ some r
unfolding create_resource_reservation
recorded_first r t t' o h =
    elim (Bool-cases (count_where (has_receipt_id r.id) t.reservations == 0)) [
      | inr taken ↦ ground arith
      | inl fresh_id ↦
          elim (Bool-cases (count_where (is_open_of r.operation_id) t.reservations == 0)) [
            | inr taken ↦ ground arith
            | inl first ↦
                let ran = rw (fresh_id, first) at h in
                rw (← (ok_pair ran).1)
                  (first_where-append (is_open_of r.operation_id) t.reservations r (ground arith) o)
          ]
    ]

module _ (new_uuid : ℕ → ℕ) (operation_id : Uuid) where
  module _ (now : Time) (node_id : Uuid) (spec : ResourceSpec) (at : Time) where
    reserve_body-first :
        (v v' : World Tables) {u : Unit {0}}
        → reserve_body new_uuid now operation_id node_id spec at v ≡ done u v'
        → (r : Reservation) × (first_where (is_open_of operation_id) v'.db.reservations ≡ some r)
    unfolding reserve_body
    reserve_body-first v v' h =
        let (b, v1, reserved, rest) =
          >>=-eq-done (reserve node_id spec.amounts at)
            (λ b.
              or_else reservation_lost b (record_receipt new_uuid now operation_id node_id spec at))
            v h in
        elim (Bool-cases b) [
          | inr refused ↦ throw-eq-done reservation_lost v1 (rw refused at rest)
          | inl granted ↦
              let (id, v2, drawn, insert) =
                >>=-eq-done (fresh new_uuid)
                  (λ id.
                    statement
                      (create_resource_reservation (receipt id operation_id node_id spec at now)))
                  v1 (rw granted at rest) in
              let r = receipt id operation_id node_id spec at now in
              (
                r,
                recorded_first r v2.db v'.db (ground arith)
                    (statement-eq-done (create_resource_reservation r) v2 insert).0,
              )
        ]

    -- A reservation that is done has left an open receipt of the operation.
    pub reserve_for_operation-first :
        (w w' : World Tables) {u : Unit {0}}
        → reserve_for_operation new_uuid now operation_id node_id spec at w ≡ done u w'
        → (r : Reservation) × (first_where (is_open_of operation_id) w'.db.reservations ≡ some r)
    unfolding reserve_for_operation open_reservation
    reserve_for_operation-first w w' h =
        let read = statement (open_reservation operation_id) in
        let (o, v, found, rest) =
          >>=-eq-done (if_applied read) (reserve_new new_uuid now operation_id node_id spec at) w
            h in
        elim (if_applied-eq-done read w found) [
          | inr (r, some_row, ran) ↦
              let here =
                one_row-found _ w.db v.db r
                  (statement-eq-done (open_reservation operation_id) w ran).0 in
              let same = (pure-eq-done tt v (rw some_row at rest)).1 in
              (r, rw (same, here.1) here.0)
          | inl (no_row, ran) ↦
              let (b, b', began, body, ended) =
                within_transaction-eq-done (reserve_body new_uuid now operation_id node_id spec at)
                  v (rw no_row at rest) in
              rw ended (reserve_body-first b b' body)
        ]

  -- An operation whose reservation is done keeps that promise: as long as the tables are as the call
  -- left them and no statement fails, a repeated request is done and changes nothing, whatever node
  -- and amounts it names.
  pub reserve_again :
      (now now' : Time) (node_id node_id' : Uuid) (spec spec' : ResourceSpec) (at at' : Time)
      (w w' v : World Tables) {u : Unit {0}}
      → reserve_for_operation new_uuid now operation_id node_id spec at w ≡ done u w'
      → v.db ≡ w'.db
      → v.faults ≡ []
      → reserve_for_operation new_uuid now' operation_id node_id' spec' at' v ≡ done tt v
  unfolding reserve_for_operation open_reservation pure
  reserve_again now now' node_id node_id' spec spec' at at' w w' v h same fair =
      let (r, here) = reserve_for_operation-first now node_id spec at w w' h in
      let there : first_where (is_open_of operation_id) v.db.reservations ≡ some r = rw same here in
      let read = statement (open_reservation operation_id) in
      let ran : read v ≡ done r v =
        statement_fair (open_reservation operation_id) v fair (rw there refl) in
      >>=-done (if_applied read) (reserve_new new_uuid now' operation_id node_id' spec' at') v
        (if_applied-done read v ran)
