-- ===== src/Operation/Updates.antt =====
-- An update of one operation: the row that it changes, and the checks that it passes.
use vps_billing_workbuddy.Prelude.{
  ◌≡◌, ◌≤◌, refl, Bool, true, not, ◌&&◌, ◌||◌, some, List, [], ◌∷◌, ◌++◌, All, inl, inr, Bool-cases,
  arith,
}
use vps_billing_workbuddy.Errors.{ok}
use vps_billing_workbuddy.Ledger.{Uuid}
use vps_billing_workbuddy.Rows.{first_where, update_where, count_where}
use vps_billing_workbuddy.Rows.Places.{first_where-Stands, beside_none, count_one}
use vps_billing_workbuddy.Operation.{OperationStatus, operation_eq}
use vps_billing_workbuddy.Operation.Tables.{OperationRow, Tables, is_valid}
use vps_billing_workbuddy.Operation.Sql.{has_id, is_seen, all_valid, update_operations}
use vps_billing_workbuddy.Operation.Evolution.{IsSound, IsValid}

module _ (test : OperationRow → Bool) (change : OperationRow → OperationRow) where
  all_valid_none :
      (rs : List OperationRow) → count_where test rs ≡ 0 → all_valid test change rs ≡ true
  unfolding count_where
  all_valid_none [] h = refl
  all_valid_none (x ∷ xs) h = ground (arith, all_valid_none xs)

  all_valid-append :
      (rs ss : List OperationRow)
      → all_valid test change (rs ++ ss) ≡ (all_valid test change rs && all_valid test change ss)
  all_valid-append [] ss = refl
  all_valid-append (x ∷ xs) ss = let rest = all_valid-append xs ss in ground arith

-- Where the identifiers are distinct, an update of one operation checks that row alone.
pub all_valid_one :
    (id : Uuid) (test : OperationRow → Bool) (change : OperationRow → OperationRow)
    → ((x : OperationRow) → test x ≡ true → has_id id x ≡ true)
    → (rs : List OperationRow) (r : OperationRow) → count_where (has_id id) rs ≤ 1
    → first_where (has_id id) rs ≡ some r
    → all_valid test change rs ≡ (not (test r) || is_valid (change r))
all_valid_one id test change narrow rs r one f =
    let (hit, stands) = first_where-Stands (has_id id) rs r f in
    let (none_before, none_after) =
      beside_none (has_id id) test narrow r stands.before stands.after hit
        (rw stands.split at one) in
    let checked_before = all_valid_none test change stands.before none_before in
    let checked_after = all_valid_none test change stands.after none_after in
    let sum = all_valid-append test change stands.before (r ∷ stands.after) in
    rw stands.split (ground arith)

pub valid_row :
    (rs : List OperationRow) (r : OperationRow) (id : Uuid)
    → All IsValid rs
    → first_where (has_id id) rs ≡ some r
    → is_valid r ≡ true
unfolding first_where
valid_row [] r id h f = cc
valid_row (x ∷ xs) r id (v, h) f = elim (Bool-cases (has_id id x)) [
  | inl hit ↦ let same : x ≡ r = ground arith in rw (← same) v
  | inr miss ↦ valid_row xs r id h (ground arith)
]

-- An update of the operation as it was seen, where the row after keeps the constraints.
pub seen_update :
    (id : Uuid) (from : OperationStatus) (change : OperationRow → OperationRow) (t : Tables)
    (r : OperationRow)
    → IsSound t
    → first_where (has_id id) t.operations ≡ some r
    → operation_eq r.operation.status from ≡ true
    → is_valid (change r) ≡ true
    → update_operations (is_seen id from) change t
      ≡ ok (1, record t { operations = update_where (is_seen id from) change t.operations })
unfolding update_operations
seen_update id from change t r s f seen kept =
    let (hit, stands) = first_where-Stands (has_id id) t.operations r f in
    let narrow : (x : OperationRow) → is_seen id from x ≡ true → has_id id x ≡ true =
      λ x h. ground arith in
    let checked =
      all_valid_one id (is_seen id from) change narrow t.operations r (s.distinct id) f in
    let counted =
      count_one (has_id id) (is_seen id from) narrow r t.operations stands hit (s.distinct id) in
    let selected : is_seen id from r ≡ true = ground arith in
    let valid : all_valid (is_seen id from) change t.operations ≡ true = ground arith in
    let one : count_where (is_seen id from) t.operations ≡ 1 = ground arith in
    rw (update_operations, valid, one) refl
