-- ===== src/Operation/Evolution/Lives.antt =====
-- Whole lives of the operation system: calls of the store and ticks of the engine, one after the
-- other, in any order and with any statement failing.
pub mod Tests
use vps_billing_workbuddy.Prelude.{
  ◌≡◌, refl, ◌∙◌, ap, true, false, Bool, Option, none, some, List, [], ◌∷◌, ◌==◌, Bool-cases, inl,
  inr, arith,
}
use vps_billing_workbuddy.Machine.{Moves, Moves-stay}
use vps_billing_workbuddy.Database.{World, Action, world_after, Respects}
use vps_billing_workbuddy.Ledger.{Uuid}
use vps_billing_workbuddy.Calendar.{Time}
use vps_billing_workbuddy.Rows.{first_where}
use vps_billing_workbuddy.Operation.{
  Operation, Step, operation_can_transition, operation_is_terminal,
}
use vps_billing_workbuddy.Operation.Machine.{operation_terminal_iff}
use vps_billing_workbuddy.Operation.Tables.{OperationRow, Tables}
use vps_billing_workbuddy.Operation.Sql.{has_id}
use vps_billing_workbuddy.Operation.Store
use vps_billing_workbuddy.Operation.Engine.{Runners, tick}
use vps_billing_workbuddy.Operation.Evolution.{
  Evolves, appended, continued, Evolves-refl, Evolves-trans, IsSound, Follows, Follows-chain, Keeps,
}
use vps_billing_workbuddy.Operation.Evolution.Calls.{enqueue-Keeps, cancel-Keeps}
use vps_billing_workbuddy.Operation.Evolution.Ticks.{AreLawful, tick-Keeps}

-- What the system does from a world: operations are asked for, cancelled, and worked on.
pub data Runs (runners : Runners) (w : World Tables) : World Tables → Type 0 where
  start : Runs runners w w
  enqueued :
      {v : World Tables}
      → Runs runners w v
      → (o : Operation) (ss : List Step) (at : Time)
      → Runs runners w (world_after (Store.enqueue o ss at v))
  cancelled :
      {v : World Tables}
      → Runs runners w v
      → (id : Uuid) (at : Time) → Runs runners w (world_after (Store.cancel id at v))
  ticked :
      {v : World Tables}
      → Runs runners w v
      → (at : Time) → Runs runners w (world_after (tick runners at v))

-- One more call after those that were made.
one_more :
    {A : Type 0} (w v : World Tables) (m : Action Tables A)
    → Keeps m
    → IsSound v.db × Evolves w.db.operations v.db.operations
    → IsSound (world_after (m v)).db × Evolves w.db.operations (world_after (m v)).db.operations
one_more w v m k (s, e) = let (s', e') = k.respects v s in (s', Evolves-trans e e')

-- With runners whose attempts are lawful, whatever sequence of requests, cancellations and ticks
-- the system goes through and wherever statements fail, the CHECKs and both unique keys of the
-- table of operations hold after it, and every operation is still there, the same by identifier,
-- key and budget, in a status that the machine reaches from the one it had; the operations that
-- were added began queued.
pub runs_lem :
    (runners : Runners) (w v : World Tables)
    → AreLawful runners
    → IsSound w.db
    → Runs runners w v
    → IsSound v.db × Evolves w.db.operations v.db.operations
runs_lem runners w v law s start = (s, Evolves-refl w.db.operations)
runs_lem runners w v law s (enqueued {v = u} h o ss at) =
    one_more w u (Store.enqueue o ss at) (enqueue-Keeps o ss at) (runs_lem runners w u law s h)
runs_lem runners w v law s (cancelled {v = u} h id at) =
    one_more w u (Store.cancel id at) (cancel-Keeps id at) (runs_lem runners w u law s h)
runs_lem runners w v law s (ticked {v = u} h at) =
    one_more w u (tick runners at) (tick-Keeps runners at law) (runs_lem runners w u law s h)

-- A row that ended has the same status in every later table.
Evolves-finished :
    (id : Uuid) (r : OperationRow) {rs rs' : List OperationRow}
    → Evolves rs rs'
    → first_where (has_id id) rs ≡ some r
    → operation_is_terminal r.operation.status ≡ true
    → (r' : OperationRow) × (first_where (has_id id) rs' ≡ some r')
      × (r'.operation.status ≡ r.operation.status)
unfolding first_where
Evolves-finished id r (appended h) f ended = cc
Evolves-finished id r (continued {r = x} {r' = x'} c rest) f ended =
    let kept = c.same_id in
    elim (Bool-cases (x.operation.id == id)) [
      | inl hit ↦
          let same : x ≡ r = ground arith in
          let final =
            (operation_terminal_iff x.operation.status).0 (rw same ended) x'.operation.status
              c.moves in
          (x', ground arith, final ∙ ap (λ (y : OperationRow). y.operation.status) same)
      | inr miss ↦
          let (r', f', e) = Evolves-finished id r rest (ground arith) ended in (r', ground arith, e)
    ]

-- With lawful runners, an operation that has succeeded, failed or been cancelled keeps that status
-- through every sequence of requests, cancellations and ticks.
pub finished_forever :
    (runners : Runners) (w v : World Tables) (id : Uuid) (r : OperationRow)
    → AreLawful runners
    → IsSound w.db
    → Runs runners w v
    → first_where (has_id id) w.db.operations ≡ some r
    → operation_is_terminal r.operation.status ≡ true
    → (r' : OperationRow) × (first_where (has_id id) v.db.operations ≡ some r')
      × (r'.operation.status ≡ r.operation.status)
finished_forever runners w v id r law s h f ended =
    Evolves-finished id r (runs_lem runners w v law s h).1 f ended
