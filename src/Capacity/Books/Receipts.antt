-- ===== src/Capacity/Books/Receipts.antt =====
-- The books as receipts are recorded and settled.
use vps_billing_workbuddy.Prelude.{
  ℕ, ◌≡◌, ◌≤◌, ◌==◌, refl, sym, ◌∙◌, ◌⊎◌, Bool, true, false, List, [], ◌∷◌, ◌++◌, All, inl, inr,
  Bool-cases, arith,
}
use vps_billing_workbuddy.Errors.{ok}
use vps_billing_workbuddy.Database.{ok_pair}
use vps_billing_workbuddy.Ledger.{Uuid}
use vps_billing_workbuddy.Calendar.{Time}
use vps_billing_workbuddy.Rows.{count_where, update_where, all_where}
use vps_billing_workbuddy.Rows.Laws.{count_where-append}
use vps_billing_workbuddy.Rows.Updates.{
  All-of, All-map, at_most_one, count_where-kept, count_where-less,
}
use vps_billing_workbuddy.Capacity.Sql.{
  Part, Amounts, Reservation, ReservationStatus, Tables, is_open, is_open_of, is_open_at,
  has_receipt_id, settled, settle_where, create_resource_reservation,
}
use vps_billing_workbuddy.Capacity.Books.{Debt, owing, owing_all, IsBalanced, IsSound}
use vps_billing_workbuddy.Capacity.Books.Held.{
  held-append, held-settle, owing-none, owing-one, IsFor,
}

abbrev pub IsOpen : Reservation → Type 0
IsOpen r = is_open r.status ≡ true

appended_id :
    (r : Reservation) (id : Uuid) (rs : List Reservation)
    → count_where (has_receipt_id r.id) rs ≡ 0
    → count_where (has_receipt_id id) rs ≤ 1
    → count_where (has_receipt_id id) (rs ++ r ∷ []) ≤ 1
unfolding count_where
appended_id r id rs none_yet one =
    let sum = count_where-append (has_receipt_id id) rs (r ∷ []) in
    elim (Bool-cases (r.id == id)) [
      | inl same ↦ let this : r.id ≡ id = ground arith in ground arith
      | inr other ↦ ground arith
    ]

appended_open :
    (r : Reservation) (id : Uuid) (rs : List Reservation)
    → count_where (is_open_of r.operation_id) rs ≡ 0
    → count_where (is_open_of id) rs ≤ 1
    → count_where (is_open_of id) (rs ++ r ∷ []) ≤ 1
unfolding count_where
appended_open r id rs none_yet one =
    let sum = count_where-append (is_open_of id) rs (r ∷ []) in
    elim (Bool-cases (r.operation_id == id)) [
      | inl same ↦ let this : r.operation_id ≡ id = ground arith in ground arith
      | inr other ↦ ground arith
    ]

module _ (debt : Debt) (t : Tables) where
  -- A receipt that is recorded explains what was owed.
  pub recorded-IsSound :
      (r : Reservation)
      → IsOpen r
      → IsSound (owing r.node_id r.spec debt) t
      → {u : Unit {0}} {t' : Tables} → create_resource_reservation r t ≡ ok (u, t')
      → IsSound debt t'
  unfolding create_resource_reservation
  recorded-IsSound r o s h =
      elim (Bool-cases (count_where (has_receipt_id r.id) t.reservations == 0)) [
        | inr taken ↦ ground arith
        | inl fresh_id ↦
            elim (Bool-cases (count_where (is_open_of r.operation_id) t.reservations == 0)) [
              | inr taken ↦ ground arith
              | inl first ↦
                  let ran = rw (fresh_id, first) at h in
                  rw (← (ok_pair ran).1) record {
                    node_keys = s.node_keys;
                    keys = λ id. appended_id r id t.reservations (ground arith) (s.keys id);
                    open_once =
                        λ id. appended_open r id t.reservations (ground arith) (s.open_once id);
                    balanced =
                        All-map (IsBalanced (owing r.node_id r.spec debt) t.reservations)
                          (IsBalanced debt (t.reservations ++ r ∷ []))
                          (λ n b. record {
                            fits = b.fits;
                            explained = λ p.
                                b.explained p ∙ sym (held-append p n.id t.reservations r o debt);
                          })
                          t.nodes s.balanced;
                  }
            ]
      ]

  -- Receipts that leave `reserved` are owed.
  pub settled-IsSound :
      (test : Reservation → Bool) (status : ReservationStatus) (at : Time)
      → is_open status ≡ false
      → All (λ (r : Reservation). test r ≡ true → IsOpen r) t.reservations
      → IsSound debt t
      → IsSound
          (owing_all (all_where test t.reservations) debt)
          (record t { reservations = update_where test (settled status at) t.reservations })
  settled-IsSound test status at shut opened s = record {
    node_keys = s.node_keys;
    keys = λ id.
        rw
          (count_where-kept (has_receipt_id id) test (settled status at) (λ r. refl) t.reservations)
          (s.keys id);
    open_once = λ id.
        let fewer =
          count_where-less (is_open_of id) test (settled status at) (λ r. ground arith)
            t.reservations in
        let before = s.open_once id in omega arith;
    balanced =
        All-map (IsBalanced debt t.reservations)
          (IsBalanced (owing_all (all_where test t.reservations) debt)
            (update_where test (settled status at) t.reservations))
          (λ n b. record {
            fits = b.fits;
            explained = λ p.
                b.explained p
                ∙ held-settle test (settled status at) (λ r. shut) p n.id t.reservations opened
                    debt;
          })
          t.nodes s.balanced;
  }

-- Debts that agree are one.
pub agreed-IsSound :
    (debt debt' : Debt) (t : Tables)
    → ((p : Part) (id : Uuid) → debt p id ≡ debt' p id)
    → IsSound debt t
    → IsSound debt' t
agreed-IsSound debt debt' t same s = record {
  node_keys = s.node_keys;
  keys = s.keys;
  open_once = s.open_once;
  balanced =
      All-map (IsBalanced debt t.reservations) (IsBalanced debt' t.reservations)
        (λ n b. record {
          fits = b.fits;
          explained = λ p. let e = b.explained p in let e' = same p n.id in omega arith;
        })
        t.nodes s.balanced;
}

-- The receipt that a caller settles is of the amounts that it names.
abbrev pub Names : Tables → Uuid → Uuid → Amounts → Type 0
Names t operation_id node_id spec =
    All (λ (r : Reservation). is_open_at operation_id node_id r ≡ true → r.spec ≡ spec)
      t.reservations

module _ (debt : Debt) (t : Tables) (operation_id node_id : Uuid) (spec : Amounts) where
  -- The one receipt of an operation that is settled is owed.
  pub marked-IsSound :
      (status : ReservationStatus) (at : Time)
      → is_open status ≡ false
      → Names t operation_id node_id spec
      → IsSound debt t
      → {n : ℕ} {t' : Tables}
      → settle_where (is_open_at operation_id node_id) status at t ≡ ok (n, t')
      → ((n ≡ 1) × IsSound (owing node_id spec debt) t') ⊎ ((n ≡ 0) × IsSound debt t')
  unfolding settle_where
  marked-IsSound status at shut named s h =
      let (counted, moved) = ok_pair h in
      let test = is_open_at operation_id node_id in
      let sound =
        settled-IsSound debt t test status at shut (All-of (λ r hit. ground arith) t.reservations)
          s in
      elim (at_most_one (is_open_of operation_id) test (λ r hit. ground arith) t.reservations
        (s.open_once operation_id)) [
          | inl none_open ↦ inr (
            ground arith,
            rw (← moved) (
                agreed-IsSound (owing_all (all_where test t.reservations) debt) debt
                  (record t { reservations = update_where test (settled status at) t.reservations })
                  (λ p id. owing-none test t.reservations debt p id none_open) sound),
          )
          | inr one_open ↦ inl (
            ground arith,
            rw (← moved) (
                agreed-IsSound (owing_all (all_where test t.reservations) debt)
                  (owing node_id spec debt)
                  (record t { reservations = update_where test (settled status at) t.reservations })
                  (λ p id.
                    owing-one test node_id spec t.reservations
                      (All-map (λ (r : Reservation). test r ≡ true → r.spec ≡ spec)
                        (λ (r : Reservation). test r ≡ true → IsFor node_id spec r)
                        (λ r same hit. record { same_node = ground arith; same_spec = same hit })
                        t.reservations named)
                      one_open debt p id)
                  sound),
          )
        ]
