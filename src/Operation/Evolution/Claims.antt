-- ===== src/Operation/Evolution/Claims.antt =====
-- Claims and new operations: the claimed row is the one that the query chose, and a new row is queued.
use vps_billing_workbuddy.Prelude.{
  ℕ, ◌≡◌, ◌≤◌, refl, sym, subst, Bool, true, ◌||◌, ◌==◌, String, str_eq, str_eq_iff, leb, some,
  List, [], ◌∷◌, ◌++◌, All, inl, inr, Bool-cases, arith,
}
use vps_billing_workbuddy.Machine.{here}
use vps_billing_workbuddy.Errors.{ok}
use vps_billing_workbuddy.Database.{ok_pair, inserted, inserted-free}
use vps_billing_workbuddy.Ledger.{Uuid}
use vps_billing_workbuddy.Calendar.{Time}
use vps_billing_workbuddy.Rows.{count_where}
use vps_billing_workbuddy.Rows.Laws.{count_where-append}
use vps_billing_workbuddy.Rows.Places.{
  Option-cases, count_either, Stands, Stands-behind, first_Stands, only,
}
use vps_billing_workbuddy.Operation.{OperationStatus, Operation, operation_can_transition}
use vps_billing_workbuddy.Operation.Tables.{OperationRow, Tables, is_valid}
use vps_billing_workbuddy.Operation.Sql
use vps_billing_workbuddy.Operation.Sql.{
  has_id, has_key, in_state, all_valid, least_where, claim, created,
}
use vps_billing_workbuddy.Operation.Evolution.{
  Continues, IsNew, Evolves, appended, continued, IsValid, Follows, Continues-refl,
}
use vps_billing_workbuddy.Operation.Evolution.Statements.{Carries, updated-Follows, Moves-from}

-- The least row of a test is a row of the table that passes the test.
least_where-Stands :
    (key : OperationRow → ℕ) (test : OperationRow → Bool) (rs : List OperationRow)
    (r : OperationRow)
    → least_where key test rs ≡ some r
    → (test r ≡ true) × Stands r rs
unfolding least_where
least_where-Stands key test [] r h = cc
least_where-Stands key test (x ∷ xs) r h = elim (Bool-cases (test x)) [
  | inl passed ↦ elim (Option-cases (least_where key test xs)) [
    | inl none_behind ↦ (ground arith, first_Stands x r xs (ground arith))
    | inr (y, e) ↦
        let (p, s) = least_where-Stands key test xs y e in
        elim (Bool-cases (leb (key x) (key y))) [
          | inl first ↦
              let same : x ≡ r = ground arith in (rw same at passed, first_Stands x r xs same)
          | inr later ↦
              let same : y ≡ r = ground arith in
              (rw same at p, Stands-behind x r xs (subst (λ z. Stands z xs) same s))
        ]
  ]
  | inr over ↦
      let (p, s) = least_where-Stands key test xs r (ground arith) in (p, Stands-behind x r xs s)
]

-- With distinct identifiers, a change that carries one row carries every row of its identifier.
chosen-Carries :
    (change : OperationRow → OperationRow) (x : OperationRow) (rs : List OperationRow)
    → Stands x rs
    → count_where (has_id x.operation.id) rs ≤ 1
    → Continues x (change x)
    → All (Carries (has_id x.operation.id) change) rs
chosen-Carries change x rs stands one c =
    subst (All (Carries (has_id x.operation.id) change)) (sym stands.split) (
      only (λ (y : OperationRow). Continues y (change y)) (has_id x.operation.id) x stands.before
        stands.after (rw stands.split at one) (ground arith) c)

-- A claim of the row that a query chose, of the state that the query asked for.
claim-Follows :
    (key : OperationRow → ℕ) (test : OperationRow → Bool) (change : OperationRow → OperationRow)
    → ((r : OperationRow) → test r ≡ true → Continues r (change r))
    → (t t' : Tables) (r : OperationRow)
    → claim (least_where key test t.operations) change t ≡ ok (r, t')
    → Follows t t'
claim-Follows key test change carries t t' r e s =
    elim (Option-cases (least_where key test t.operations)) [
      | inl nothing ↦ ground arith
      | inr (x, chosen) ↦
          let (passed, stands) = least_where-Stands key test t.operations x chosen in
          elim (Bool-cases (all_valid (has_id x.operation.id) change t.operations)) [
            | inl checked ↦
                let carried : All (Carries (has_id x.operation.id) change) t.operations =
                  chosen-Carries change x t.operations stands (s.distinct x.operation.id)
                    (carries x passed) in
                subst (Follows t) (ok_pair (rw (chosen, checked) at e)).1
                  (updated-Follows (has_id x.operation.id) change t (λ s'. carried) checked) s
            | inr refused ↦ ground arith
          ]
    ]

pub claim_queued_operation-Follows :
    (at : Time) (t t' : Tables) (r : OperationRow)
    → Sql.claim_queued_operation at t ≡ ok (r, t')
    → Follows t t'
unfolding Sql.claim_queued_operation operation_can_transition
claim_queued_operation-Follows at =
    claim-Follows _ (in_state OperationStatus.queued) (Sql.claimed at) λ r h. record {
      same_id = refl;
      same_key = refl;
      same_budget = refl;
      moves = Moves-from r.operation.status OperationStatus.queued OperationStatus.running h refl;
    }

pub claim_retryable_operation-Follows :
    (at : Time) (t t' : Tables) (r : OperationRow)
    → Sql.claim_retryable_operation at t ≡ ok (r, t')
    → Follows t t'
unfolding Sql.claim_retryable_operation operation_can_transition
claim_retryable_operation-Follows at =
    claim-Follows _ (Sql.is_retryable at) (Sql.reclaimed at) λ r h. record {
      same_id = refl;
      same_key = refl;
      same_budget = refl;
      moves =
          Moves-from r.operation.status OperationStatus.retrying OperationStatus.running
            (ground arith) refl;
    }

append-Evolves :
    (rs : List OperationRow) (new : OperationRow) → IsNew new → Evolves rs (rs ++ new ∷ [])
append-Evolves [] new n = appended (n, tt)
append-Evolves (r ∷ rs) new n = continued (Continues-refl r) (append-Evolves rs new n)

append-All :
    (P : OperationRow → Type 0) (rs : List OperationRow) (new : OperationRow)
    → All P rs
    → P new
    → All P (rs ++ new ∷ [])
append-All P [] new h n = (n, tt)
append-All P (r ∷ rs) new (p, h) n = (p, append-All P rs new h n)

created-distinct :
    (o : Operation) (at : Time) (rs : List OperationRow) (id : Uuid)
    → count_where (has_id o.id) rs ≡ 0
    → count_where (has_id id) rs ≤ 1
    → count_where (has_id id) (rs ++ created o at ∷ []) ≤ 1
unfolding count_where
created-distinct o at rs id free one =
    let grown = count_where-append (has_id id) rs (created o at ∷ []) in
    elim (Bool-cases (o.id == id)) [
      | inl same ↦
          let known : o.id ≡ id = ground arith in let free' = rw known at free in ground arith
      | inr other ↦ ground arith
    ]

created-keyed :
    (o : Operation) (at : Time) (rs : List OperationRow) (key : String)
    → count_where (has_key o.idempotency_key) rs ≡ 0
    → count_where (has_key key) rs ≤ 1
    → count_where (has_key key) (rs ++ created o at ∷ []) ≤ 1
unfolding count_where
created-keyed o at rs key free one =
    let grown = count_where-append (has_key key) rs (created o at ∷ []) in
    elim (Bool-cases (str_eq o.idempotency_key key)) [
      | inl same ↦
          let known = (str_eq_iff o.idempotency_key key).0 same in
          let free' = rw known at free in ground arith
      | inr other ↦ ground arith
    ]

pub create_operation-Follows :
    (o : Operation) (at : Time) (t t' : Tables) (u : Unit {0})
    → Sql.create_operation o at t ≡ ok (u, t')
    → Follows t t'
unfolding Sql.create_operation is_valid
create_operation-Follows o at t t' u e s =
    let taken : OperationRow → Bool = λ r. has_id o.id r || has_key o.idempotency_key r in
    let free =
      count_either (has_id o.id) (has_key o.idempotency_key) t.operations
        (inserted-free (count_where taken t.operations) "operations_idempotency_key_key" _ e) in
    let same = inserted (count_where taken t.operations) "operations_idempotency_key_key" _ e in
    rw same (
      record {
        valid = append-All IsValid t.operations (created o at) s.valid refl;
        distinct = λ id. created-distinct o at t.operations id free.0 (s.distinct id);
        keyed = λ key. created-keyed o at t.operations key free.1 (s.keyed key);
      },
      append-Evolves t.operations (created o at) here,
    )
