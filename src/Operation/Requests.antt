-- ===== src/Operation/Requests.antt =====
-- A request for an operation that is repeated (storage/operation/store.go `Enqueue`).
use vps_billing_workbuddy.Prelude.{
  ◌≡◌, refl, sym, ap, ◌∙◌, Bool, ◌||◌, Option, none, some, List, [], ◌∷◌, ◌++◌, String, str_eq_iff,
  inl, inr, arith,
}
use vps_billing_workbuddy.Errors.{Error}
use vps_billing_workbuddy.Database.{
  World, one_row-found, Outcome, done, failed, pure, statement, one_row, if_applied, inserted,
  inserted-free, Outcome-cases, >>=-eq-done, if_applied-eq-done, pure-eq-done, statement-eq-done,
  statement_fair, >>=-done, if_applied-done,
}
use vps_billing_workbuddy.Ledger.{Uuid}
use vps_billing_workbuddy.Calendar.{Time}
use vps_billing_workbuddy.Rows.{first_where, count_where}
use vps_billing_workbuddy.Rows.Laws.{first_where-append}
use vps_billing_workbuddy.Rows.Places.{count_either}
use vps_billing_workbuddy.Operation.{Operation, Step}
use vps_billing_workbuddy.Operation.Tables.{OperationRow, Tables}
use vps_billing_workbuddy.Operation.Sql
use vps_billing_workbuddy.Operation.Sql.{has_id, has_key, created}
use vps_billing_workbuddy.Operation.Store.{
  clamped, read_created, create_steps, or_raced, enqueue_new, enqueue, from_row,
}

-- The operation is the one that the table holds under the key.
abbrev IsKept : String → Operation → World Tables → Type 0
IsKept key o w =
    (r : OperationRow) × (first_where (has_key key) w.db.operations ≡ some r) × (o ≡ r.operation)

by_key-found :
    (key : String) (w w' : World Tables) (r : OperationRow)
    → statement (Sql.operation_by_idempotency_key key) w ≡ done r w'
    → first_where (has_key key) w'.db.operations ≡ some r
unfolding Sql.operation_by_idempotency_key
by_key-found key w w' r e =
    let (found, same) = one_row-found _ w.db w'.db r (statement-eq-done _ w e).0 in rw same found

some_inj : {A : Type 0} {a b : A} → ◌≡◌ {A = Option A} (some a) (some b) → a ≡ b
some_inj h = ground arith

-- Inserting steps leaves the operations as they are.
create_steps-kept :
    (id : Uuid) (ss : List Step) (w w' : World Tables) (u : Unit {0})
    → create_steps id ss w ≡ done u w'
    → w'.db.operations ≡ w.db.operations
unfolding create_steps Sql.create_operation_step
create_steps-kept id [] w w' u e = let same = pure-eq-done tt w e in ground arith
create_steps-kept id (s ∷ ss) w w' u e =
    let (x, v, one, rest) = >>=-eq-done _ (λ y. create_steps id ss) w e in
    let kept = create_steps-kept id ss v w' u rest in
    let wrote = inserted _ _ _ (statement-eq-done _ w one).0 in
    kept ∙ ap (λ (t : Tables). t.operations) wrote

-- The answer after an insertion of a new row is that row.
read_created-IsKept :
    (o : Operation) (ss : List Step) (at : Time) (old : List OperationRow) (w w' : World Tables)
    (p : Operation)
    → w.db.operations ≡ old ++ created (clamped o) at ∷ []
    → count_where (has_id o.id) old ≡ 0
    → count_where (has_key o.idempotency_key) old ≡ 0
    → read_created o ss w ≡ done p w'
    → IsKept o.idempotency_key p w'
unfolding Sql.operation_by_id
read_created-IsKept o ss at old w w' p table free_id free_key e =
    let (u, v, wrote, rest) = >>=-eq-done (create_steps o.id ss) _ w e in
    let (r, v', read, answered) = >>=-eq-done (statement (Sql.operation_by_id o.id)) _ v rest in
    let (found, same) = one_row-found _ v.db v'.db r (statement-eq-done _ v read).0 in
    let (answer, last) = pure-eq-done (from_row r) v' answered in
    let rows = create_steps-kept o.id ss w v u wrote ∙ table in
    let row : OperationRow = created (clamped o) at in
    let by_id = first_where-append (has_id o.id) old row free_id (ground arith) in
    let by_key =
      first_where-append (has_key o.idempotency_key) old row free_key
        ((str_eq_iff o.idempotency_key o.idempotency_key).1 refl) in
    let unchanged : w'.db.operations ≡ old ++ row ∷ [] =
      ap (λ (x : World Tables). x.db.operations) last
      ∙ ap (λ (t : Tables). t.operations) same
      ∙ rows in
    let picked : some r ≡ some row = sym found ∙ ap (first_where (has_id o.id)) rows ∙ by_id in
    (
      row,
      ap (first_where (has_key o.idempotency_key)) unchanged ∙ by_key,
      sym answer ∙ ap (λ (x : OperationRow). x.operation) (some_inj picked),
    )

-- What is read after an insertion that failed.
abbrev after_race : Operation → Error → Outcome Tables OperationRow → Outcome Tables Operation
after_race o e (done r v) = done (from_row r) v
after_race o e (failed x v) = failed e v

-- An insertion that lost a race answers the row that won it.
raced-IsKept :
    (o : Operation) (ss : List Step) (x : Error) (v w' : World Tables) (p : Operation)
    → after_race o x (statement (Sql.operation_by_idempotency_key o.idempotency_key) v) ≡ done p w'
    → IsKept o.idempotency_key p w'
raced-IsKept o ss x v w' p e =
    elim (Outcome-cases (statement (Sql.operation_by_idempotency_key o.idempotency_key) v)) [
      | inl (r, v', q) ↦
          (r, let key_row = by_key-found o.idempotency_key v v' r q in ground arith, ground arith)
      | inr (y, v', q) ↦ ground arith
    ]

enqueue_new-IsKept :
    (o : Operation) (ss : List Step) (at : Time) (existing : Option OperationRow)
    (w w' : World Tables) (p : Operation)
    → ((r : OperationRow)
        → existing ≡ some r
        → first_where (has_key o.idempotency_key) w.db.operations ≡ some r)
    → enqueue_new o ss at existing w ≡ done p w'
    → IsKept o.idempotency_key p w'
unfolding or_raced Sql.create_operation
enqueue_new-IsKept o ss at (some r) w w' p found e =
    let (answer, last) = pure-eq-done (from_row r) w e in
    (
      r,
      ap (λ (x : World Tables). first_where (has_key o.idempotency_key) x.db.operations) last
          ∙ found r refl,
      sym answer,
    )
enqueue_new-IsKept o ss at none w w' p found e =
    elim (Outcome-cases (statement (Sql.create_operation (clamped o) at) w)) [
      | inl (u, v, q) ↦
          let wrote = (statement-eq-done _ w q).0 in
          let taken : OperationRow → Bool = λ r. has_id o.id r || has_key o.idempotency_key r in
          let free = count_either (has_id o.id) (has_key o.idempotency_key) w.db.operations (
            inserted-free (count_where taken w.db.operations) "operations_idempotency_key_key" _
              wrote) in
          let table =
            inserted (count_where taken w.db.operations) "operations_idempotency_key_key" _ wrote in
          read_created-IsKept o ss at w.db.operations v w' p
            (ap (λ (t : Tables). t.operations) table) free.0 free.1 (rw (or_raced, q) at e)
      | inr (x, v, q) ↦ raced-IsKept o ss x v w' p (rw (or_raced, q) at e)
    ]

-- The operation that was looked up is the one under the key.
seen :
    (key : String) (w v : World Tables) (existing : Option OperationRow) (r : OperationRow)
    → if_applied (statement (Sql.operation_by_idempotency_key key)) w ≡ done existing v
    → existing ≡ some r
    → first_where (has_key key) v.db.operations ≡ some r
seen key w v existing r looked same =
    elim (if_applied-eq-done (statement (Sql.operation_by_idempotency_key key)) w looked) [
      | inl (nothing, q) ↦ cc
      | inr (r', here, q) ↦ by_key-found key w v r (rw (some_inj (sym here ∙ same)) at q)
    ]

enqueue-IsKept :
    (o : Operation) (ss : List Step) (at : Time) (w w' : World Tables) (p : Operation)
    → enqueue o ss at w ≡ done p w'
    → IsKept o.idempotency_key p w'
unfolding enqueue Sql.operation_by_idempotency_key
enqueue-IsKept o ss at w w' p e =
    let (existing, v, looked, rest) =
      >>=-eq-done (if_applied (statement (Sql.operation_by_idempotency_key o.idempotency_key))) _ w
        e in
    enqueue_new-IsKept o ss at existing v w' p
      (λ r same. seen o.idempotency_key w v existing r looked same) rest

-- A request that has been answered is answered by the same operation when it is repeated, whatever
-- else it asks for under the same idempotency key, and the repetition changes nothing: as long as
-- the tables are as the first call left them and no statement fails.
pub enqueue_again :
    (o again : Operation) (ss ss' : List Step) (at at' : Time) (w w' v : World Tables)
    (p : Operation)
    → enqueue o ss at w ≡ done p w'
    → again.idempotency_key ≡ o.idempotency_key
    → v.db ≡ w'.db
    → v.faults ≡ []
    → enqueue again ss' at' v ≡ done p v
unfolding enqueue pure Sql.operation_by_idempotency_key
enqueue_again o again ss ss' at at' w w' v p e same_key same_db fair =
    let (r, found, answer) = enqueue-IsKept o ss at w w' p e in
    let there : first_where (has_key again.idempotency_key) v.db.operations ≡ some r =
      rw (same_key, same_db) found in
    let read =
      statement_fair (Sql.operation_by_idempotency_key again.idempotency_key) v fair
        (ap (λ x. one_row x v.db) there) in
    let looked =
      if_applied-done (statement (Sql.operation_by_idempotency_key again.idempotency_key)) v read in
    >>=-done _ (enqueue_new again ss' at') v looked ∙ ap (λ x. done x v) (sym answer)
