-- ===== src/Capacity/Books/Allotted.antt =====
-- The allocations of the nodes against the committed receipts.
use vps_billing_workbuddy.Prelude.{
  ℕ, ◌≡◌, ◌+◌, ◌==◌, ◌&&◌, refl, sym, Bool, true, false, List, [], ◌∷◌, ◌++◌, All, inl, inr,
  Bool-cases, arith,
}
use vps_billing_workbuddy.Errors.{ok, reservation_lost}
use vps_billing_workbuddy.Database.{
  World, done, statement, ok_pair, >>=-eq-done, pure-eq-done, throw-eq-done, statement-eq-done,
  Respects, within_transaction-Respects,
}
use vps_billing_workbuddy.Ledger.{Uuid}
use vps_billing_workbuddy.Calendar.{Time}
use vps_billing_workbuddy.Rows.{count_where, update_where, all_where}
use vps_billing_workbuddy.Rows.Updates.{All-map, All-of, All-update}
use vps_billing_workbuddy.Capacity.Sql.{
  Part, Amounts, amount, NodeRow, Reservation, ReservationStatus, Tables, is_open, is_open_of,
  is_open_at, has_room, promise, holds, give_back, allocate, is_short, has_node_id, has_receipt_id,
  settled, update_nodes, settle_where, reserve_node_resources, commit_node_resources,
  release_node_resources, create_resource_reservation, mark_reservation_committed,
  mark_reservation_released,
}
use vps_billing_workbuddy.Capacity.Store.{commit, commit_body, commit_marked, commit_reservation}
use vps_billing_workbuddy.Capacity.Books.{
  Debt, no_debt, owing, owing_all, kept, is_committed, IsAllotted,
}
use vps_billing_workbuddy.Capacity.Books.Held.{IsFor, owing-one}
use vps_billing_workbuddy.Capacity.Books.Nodes.{amount-plus}
use vps_billing_workbuddy.Capacity.Books.Receipts.{Names}
use vps_billing_workbuddy.Capacity.Books.Calls.{commit-eq-done}
use vps_billing_workbuddy.Capacity.Books.Suits.{Suits}

open_uncommitted : (s : ReservationStatus) → is_open s ≡ true → is_committed s ≡ false
open_uncommitted ReservationStatus.reserved h = refl
open_uncommitted ReservationStatus.committed h = cc
open_uncommitted ReservationStatus.released h = cc
open_uncommitted ReservationStatus.expired h = cc

kept-append :
    (p : Part) (id : Uuid) (rs : List Reservation) (r : Reservation)
    → is_committed r.status ≡ false
    → kept p id (rs ++ r ∷ []) ≡ kept p id rs
unfolding kept
kept-append p id [] r h = rw h refl
kept-append p id (s ∷ ss) r h = rw (kept-append p id ss r h) refl

module _ (test : Reservation → Bool) (at : Time) where
  -- Open receipts that are settled otherwise than by a commit leave what is kept as it is.
  pub kept-settle :
      (status : ReservationStatus)
      → is_committed status ≡ false
      → (p : Part) (id : Uuid) (rs : List Reservation)
      → All (λ (r : Reservation). test r ≡ true → is_open r.status ≡ true) rs
      → kept p id (update_where test (settled status at) rs) ≡ kept p id rs
  unfolding kept update_where
  kept-settle status h p id [] o = refl
  kept-settle status h p id (r ∷ rs) (first, others) =
      let rest = kept-settle status h p id rs others in
      elim (Bool-cases (test r)) [
        | inl hit ↦ rw (hit, h, open_uncommitted r.status (first hit), rest) refl
        | inr miss ↦ rw (miss, rest) refl
      ]

  -- Open receipts that are committed are kept from then on.
  kept-commit :
      (debt : Debt) (p : Part) (id : Uuid) (rs : List Reservation)
      → All (λ (r : Reservation). test r ≡ true → is_open r.status ≡ true) rs
      → kept p id (update_where test (settled ReservationStatus.committed at) rs) + debt p id
        ≡ kept p id rs + owing_all (all_where test rs) debt p id
  unfolding kept update_where all_where owing_all owing
  kept-commit debt p id [] o = refl
  kept-commit debt p id (r ∷ rs) (first, others) =
      let rest = kept-commit debt p id rs others in
      elim (Bool-cases (test r)) [
        | inl hit ↦
            let shut = open_uncommitted r.status (first hit) in
            elim (Bool-cases (r.node_id == id)) [
              | inl here ↦ rw (hit, shut, here) (omega (arith, rest))
              | inr away ↦ rw (hit, shut, away) (omega (arith, rest))
            ]
        | inr miss ↦ elim (Bool-cases (is_committed r.status && r.node_id == id)) [
          | inl counted ↦ rw (miss, counted) (omega (arith, rest))
          | inr passed ↦ rw (miss, passed) (omega (arith, rest))
        ]
      ]

pub created-row :
    (r : Reservation) (t : Tables) {u : Unit {0}} {t' : Tables}
    → create_resource_reservation r t ≡ ok (u, t')
    → t' ≡ record t { reservations = t.reservations ++ r ∷ [] }
unfolding create_resource_reservation
created-row r t h = elim (Bool-cases (count_where (has_receipt_id r.id) t.reservations == 0)) [
  | inr taken ↦ ground arith
  | inl fresh_id ↦ elim (Bool-cases (count_where (is_open_of r.operation_id) t.reservations == 0)) [
    | inr taken ↦ ground arith
    | inl first ↦ sym (ok_pair (rw (fresh_id, first) at h)).1
  ]
]

module _ (base : Debt) where
  -- The allocations that a step has left alone, with what is kept.
  pub unchanged :
      (due : Debt) (rs rs' : List Reservation) (ns : List NodeRow)
      → ((p : Part) (id : Uuid) → kept p id rs' ≡ kept p id rs)
      → IsAllotted base due (record { nodes = ns; reservations = rs })
      → IsAllotted base due (record { nodes = ns; reservations = rs' })
  unchanged due rs rs' ns same h =
      All-map
        (λ (n : NodeRow).
          (p : Part) → amount p n.allocated + due p n.id ≡ base p n.id + kept p n.id rs)
        (λ (n : NodeRow).
          (p : Part) → amount p n.allocated + due p n.id ≡ base p n.id + kept p n.id rs')
        (λ n e p. rw (same p n.id) (e p)) ns h

  moved_aside :
      (test : NodeRow → Bool) (change : NodeRow → NodeRow) (t t' : Tables) (n : ℕ)
      → ((x : NodeRow) → (change x).allocated ≡ x.allocated)
      → ((x : NodeRow) → (change x).id ≡ x.id)
      → update_nodes test change t ≡ ok (n, t')
      → IsAllotted base no_debt t
      → IsAllotted base no_debt t'
  unfolding update_nodes
  moved_aside test change t t' n same same_id h a =
      let says = λ (x : NodeRow).
        (p : Part)
        → amount p x.allocated + no_debt p x.id ≡ base p x.id + kept p x.id t.reservations in
      rw (← (ok_pair h).1) (
        All-update says says test change (λ x hit e p. rw (same x, same_id x) (e p)) (λ x miss e. e)
          t.nodes a)

  -- An allocation that is due is made.
  allocate-IsAllotted :
      (node_id : Uuid) (spec : Amounts) (at : Time) (t t' : Tables) (n : ℕ)
      → commit_node_resources node_id spec at t ≡ ok (n, t')
      → IsAllotted base (owing node_id spec no_debt) t
      → IsAllotted base no_debt t'
  unfolding commit_node_resources update_nodes owing
  allocate-IsAllotted node_id spec at t t' n h a =
      elim (Bool-cases (count_where (is_short node_id spec) t.nodes == 0)) [
        | inr short ↦ ground arith
        | inl enough ↦ rw (← (ok_pair (rw enough at h)).1) (
            All-update
              (λ (x : NodeRow).
                (p : Part)
                → amount p x.allocated + owing node_id spec no_debt p x.id
                  ≡ base p x.id + kept p x.id t.reservations)
              (λ (x : NodeRow).
                (p : Part)
                → amount p x.allocated + no_debt p x.id ≡ base p x.id + kept p x.id t.reservations)
              (has_node_id node_id) (allocate spec at)
              (λ x hit e p.
                let sum = amount-plus p x.allocated spec in
                let before = e p in
                let here : (node_id == x.id) ≡ true = ground arith in
                omega (arith, rw here at before))
              (λ x miss e p.
                let before = e p in
                let away : (node_id == x.id) ≡ false = ground arith in
                omega (arith, rw away at before))
              t.nodes a)
      ]

  abbrev pub Allots : Tables → Tables → Type 0
  Allots t t' = IsAllotted base no_debt t → IsAllotted base no_debt t'

  pub Allots-Suits : Suits Allots
  unfolding reserve_node_resources release_node_resources mark_reservation_released settle_where
  Allots-Suits = record {
    same = λ t a. a;
    chain = λ t u v h k a. k (h a);
    on_reserve = λ node_id spec at t t' n h a.
        moved_aside (has_room node_id spec) (promise spec at) t t' n (λ x. refl) (λ x. refl) h a;
    on_release = λ node_id spec at t t' n h a.
        moved_aside (holds node_id spec) (give_back spec at) t t' n (λ x. refl) (λ x. refl) h a;
    on_create = λ r t t' u fresh h a. rw (created-row r t h) (
        unchanged no_debt t.reservations (t.reservations ++ r ∷ []) t.nodes
          (λ p id. kept-append p id t.reservations r (rw fresh refl)) a);
    on_released = λ operation_id node_id at t t' n h a.
        let test = is_open_at operation_id node_id in
        rw (← (ok_pair h).1) (
          unchanged no_debt t.reservations
            (update_where test (settled ReservationStatus.released at) t.reservations) t.nodes
            (λ p id.
              kept-settle test at ReservationStatus.released refl p id t.reservations
                (All-of (λ r hit. ground arith) t.reservations))
            a);
  }

  -- A receipt that is committed makes its allocation due.
  committed-IsAllotted :
      (operation_id node_id : Uuid) (spec : Amounts) (at : Time) (t t' : Tables)
      → Names t operation_id node_id spec
      → mark_reservation_committed operation_id node_id at t ≡ ok (1, t')
      → IsAllotted base no_debt t
      → IsAllotted base (owing node_id spec no_debt) t'
  unfolding mark_reservation_committed settle_where
  committed-IsAllotted operation_id node_id spec at t t' named h a =
      let test = is_open_at operation_id node_id in
      let alone = (ok_pair h).0 in
      rw (← (ok_pair h).1) (
        All-map
          (λ (n : NodeRow).
            (p : Part)
            → amount p n.allocated + no_debt p n.id ≡ base p n.id + kept p n.id t.reservations)
          (λ (n : NodeRow).
            (p : Part)
            → amount p n.allocated + owing node_id spec no_debt p n.id
              ≡ base p n.id
                + kept p n.id
                    (update_where test (settled ReservationStatus.committed at) t.reservations))
          (λ n e p.
            let grown =
              kept-commit test at no_debt p n.id t.reservations
                (All-of (λ r hit. ground arith) t.reservations) in
            let one =
              owing-one test node_id spec t.reservations
                (All-map (λ (r : Reservation). test r ≡ true → r.spec ≡ spec)
                  (λ (r : Reservation). test r ≡ true → IsFor node_id spec r)
                  (λ r same hit. record { same_node = ground arith; same_spec = same hit })
                  t.reservations named)
                alone no_debt p n.id in
            let before = e p in omega (arith, grown, one, before))
          t.nodes a)

  module _ (operation_id node_id : Uuid) (spec : Amounts) (at : Time) where
    abbrev pub AllotsNamed : Tables → Tables → Type 0
    AllotsNamed t t' = Names t operation_id node_id spec → Allots t t'

    commit_body-IsAllotted :
        {u : Unit {0}} (v v' : World Tables)
        → commit_body operation_id node_id spec at v ≡ done u v'
        → AllotsNamed v.db v'.db
    unfolding commit_body
    commit_body-IsAllotted v v' h named a =
        let (n, v1, marked, rest) =
          >>=-eq-done (statement (mark_reservation_committed operation_id node_id at))
            (commit_marked node_id spec at) v h in
        let ran =
          (statement-eq-done (mark_reservation_committed operation_id node_id at) v marked).0 in
        elim (Bool-cases (n == 1)) [
          | inr lost ↦ throw-eq-done reservation_lost v1 (rw lost at rest)
          | inl won ↦
              let alone : n ≡ 1 = ground arith in
              let due =
                committed-IsAllotted operation_id node_id spec at v.db v1.db named (rw alone at ran)
                  a in
              let (b, v2, committed, last) =
                >>=-eq-done (commit node_id spec at) _ v1 (rw won at rest) in
              let (m, moved) = commit-eq-done node_id spec at v1 committed in
              let made = allocate-IsAllotted node_id spec at v1.db v2.db m moved due in
              elim (Bool-cases b) [
                | inl accepted ↦ rw (pure-eq-done tt v2 (rw accepted at last)).1 made
                | inr refused ↦ throw-eq-done _ v2 (rw refused at last)
              ]
        ]

    pub commit_reservation-Allots :
        Respects AllotsNamed (commit_reservation operation_id node_id spec at)
    unfolding commit_reservation
    commit_reservation-Allots =
        within_transaction-Respects AllotsNamed (commit_body operation_id node_id spec at)
          (λ d named a. a) λ u v v' h. commit_body-IsAllotted v v' h
