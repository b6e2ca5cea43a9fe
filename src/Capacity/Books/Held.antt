-- ===== src/Capacity/Books/Held.antt =====
-- What the open receipts promise, as receipts are added and settled.
use vps_billing_workbuddy.Prelude.{
  ◌≡◌, ◌+◌, ◌==◌, refl, Bool, true, false, List, [], ◌∷◌, ◌++◌, All, inl, inr, Bool-cases, arith,
}
use vps_billing_workbuddy.Ledger.{Uuid}
use vps_billing_workbuddy.Rows.{count_where, update_where, all_where}
use vps_billing_workbuddy.Capacity.Sql.{Part, Amounts, Reservation, is_open}
use vps_billing_workbuddy.Capacity.Books.{held, Debt, owing, owing_all}

-- A receipt that is added promises what it says.
pub held-append :
    (p : Part) (id : Uuid) (rs : List Reservation) (r : Reservation)
    → is_open r.status ≡ true
    → (debt : Debt)
    → held p id (rs ++ r ∷ []) + debt p id ≡ held p id rs + owing r.node_id r.spec debt p id
unfolding held owing
held-append p id [] r o debt = elim (Bool-cases (r.node_id == id)) [
  | inl here ↦ rw (o, here) (omega arith)
  | inr elsewhere ↦ rw (o, elsewhere) (omega arith)
]
held-append p id (s ∷ ss) r o debt = ground (arith, held-append p id ss r o debt)

module _ (test : Reservation → Bool) (change : Reservation → Reservation) where
  -- Receipts that are settled leave a debt for each of them.
  pub held-settle :
      ((r : Reservation) → is_open (change r).status ≡ false)
      → (p : Part) (id : Uuid) (rs : List Reservation)
      → All (λ (r : Reservation). test r ≡ true → is_open r.status ≡ true) rs
      → (debt : Debt)
      → held p id rs + debt p id
        ≡ held p id (update_where test change rs) + owing_all (all_where test rs) debt p id
  unfolding held owing_all owing update_where all_where
  held-settle shut p id [] h debt = omega arith
  held-settle shut p id (r ∷ rs) (open_first, open_rest) debt =
      let rest = held-settle shut p id rs open_rest debt in
      elim (Bool-cases (test r)) [
        | inl hit ↦ elim (Bool-cases (r.node_id == id)) [
          | inl here ↦ rw (hit, open_first hit, shut r, here) (omega (arith, rest))
          | inr elsewhere ↦ rw (hit, open_first hit, shut r, elsewhere) (omega (arith, rest))
        ]
        | inr miss ↦ elim (Bool-cases (is_open r.status)) [
          | inl o ↦ elim (Bool-cases (r.node_id == id)) [
            | inl here ↦ rw (miss, o, here) (omega (arith, rest))
            | inr elsewhere ↦ rw (miss, o, elsewhere) (omega (arith, rest))
          ]
          | inr c ↦ rw (miss, c) (omega (arith, rest))
        ]
      ]

-- The debt of one receipt that a test selects, by what all of the test say.
pub owing-none :
    (test : Reservation → Bool) (rs : List Reservation) (debt : Debt) (p : Part) (id : Uuid)
    → count_where test rs ≡ 0
    → owing_all (all_where test rs) debt p id ≡ debt p id
unfolding owing_all all_where count_where
owing-none test [] debt p id h = refl
owing-none test (r ∷ rs) debt p id h = ground (arith, owing-none test rs debt p id)

-- The receipt is of the node, for the amounts.
pub record IsFor (node_id : Uuid) (spec : Amounts) (r : Reservation) : Type 0 where
  pub same_node : r.node_id ≡ node_id
  pub same_spec : r.spec ≡ spec

pub owing-one :
    (test : Reservation → Bool) (node_id : Uuid) (spec : Amounts) (rs : List Reservation)
    → All (λ (r : Reservation). test r ≡ true → IsFor node_id spec r) rs
    → count_where test rs ≡ 1
    → (debt : Debt) (p : Part) (id : Uuid)
    → owing_all (all_where test rs) debt p id ≡ owing node_id spec debt p id
unfolding owing_all owing all_where count_where
owing-one test node_id spec [] h one debt p id = omega arith
owing-one test node_id spec (r ∷ rs) (first, rest) one debt p id = elim (Bool-cases (test r)) [
  | inl hit ↦
      let none_left = owing-none test rs debt p id (ground arith) in
      let is_for = first hit in rw (hit, none_left, is_for.same_node, is_for.same_spec) refl
  | inr miss ↦ rw miss (owing-one test node_id spec rs rest (ground arith) debt p id)
]
