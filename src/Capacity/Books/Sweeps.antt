-- ===== src/Capacity/Books/Sweeps.antt =====
-- The books under the sweep, which runs in no transaction.
use vps_billing_workbuddy.Prelude.{
  ℕ, ◌≡◌, refl, sym, ap, ◌∙◌, subst, arith, true, false, Bool, List, [], ◌∷◌, length, inl, inr,
}
use vps_billing_workbuddy.Errors.{Error, ok}
use vps_billing_workbuddy.Database.{
  World, Outcome, done, failed, ◌>>=◌, ◌>>◌, pure, statement, Outcome-cases, >>=-done, >>=-failed,
  statement-eq-done, statement-eq-failed, ok_pair, world_after, >>=-Respects, pure-Respects,
}
use vps_billing_workbuddy.Ledger.{Uuid}
use vps_billing_workbuddy.Calendar.{Time}
use vps_billing_workbuddy.Capacity.Sql.{
  Amounts, ReservationStatus, Reservation, Tables, expired_reservations, due_reservations, is_among,
  settled, update_nodes, release_node_resources,
}
use vps_billing_workbuddy.Rows.{update_where, all_where}
use vps_billing_workbuddy.Capacity.Store.{Call, release, release_each, sweep_expired_reservations}
use vps_billing_workbuddy.Capacity.Books.{Debt, no_debt, owing_all, leaked, IsSound, IsAllotted}
use vps_billing_workbuddy.Capacity.Books.Receipts.{agreed-IsSound}
use vps_billing_workbuddy.Capacity.Books.Leaked.{
  IsTail, whole, shorter, names, lost_now, leaked-left,
}
use vps_billing_workbuddy.Capacity.Books.Suits.{release_each-Respects}
use vps_billing_workbuddy.Capacity.Books.Allotted.{kept-settle, unchanged, Allots, Allots-Suits}
use vps_billing_workbuddy.Capacity.Books.Nodes.{give_back-IsSound}
use vps_billing_workbuddy.Capacity.Books.Expiry.{expired-IsSound, due-IsOpen}
use vps_billing_workbuddy.Capacity.Books.Calls.{release-eq-done, release-eq-failed}

-- The first turn of the loop of the sweep.
release_each-go :
    (r : Reservation) (rs : List Reservation) (at : Time) (w : World Tables) {b : Bool}
    {v : World Tables}
    → release r.node_id r.spec at w ≡ done b v
    → release_each (r ∷ rs) at w ≡ release_each rs at v
unfolding release_each
release_each-go r rs at w h = >>=-done (release r.node_id r.spec at) (λ _. release_each rs at) w h

release_each-stop :
    (r : Reservation) (rs : List Reservation) (at : Time) (w : World Tables) {e : Error}
    {v : World Tables}
    → release r.node_id r.spec at w ≡ failed e v
    → release_each (r ∷ rs) at w ≡ failed e v
unfolding release_each
release_each-stop r rs at w h =
    >>=-failed (release r.node_id r.spec at) (λ _. release_each rs at) w h

pub release-reservations :
    (node_id : Uuid) (spec : Amounts) (at : Time) (t t' : Tables) {n : ℕ}
    → release_node_resources node_id spec at t ≡ ok (n, t')
    → t'.reservations ≡ t.reservations
unfolding release_node_resources update_nodes
release-reservations node_id spec at t t' h = ap Tables.reservations (sym (ok_pair h).1)

-- How the loop of the sweep can end: all that was claimed is given back, or the last of it is owed.
-- The receipts are as they were.
abbrev pub Ends :
    {A : Type 0} → Debt → List Reservation → List Reservation → Outcome Tables A → Type 0
Ends debt rows rs (done a w) = IsSound debt w.db × (w.db.reservations ≡ rs)
Ends debt rows rs (failed e w) =
    (left : List Reservation) × IsTail left rows
    × IsSound (owing_all left debt) w.db
    × (w.db.reservations ≡ rs)

none_owed :
    (debt : Debt) (at : Time) (w : World Tables) (rs : List Reservation)
    → IsSound debt w.db
    → w.db.reservations ≡ rs
    → Ends debt [] rs (release_each [] at w)
unfolding release_each pure
none_owed debt at w rs s same = (s, same)

and_pure-Ends :
    {A B : Type 0} (debt : Debt) (rows rs : List Reservation) (m : Call A) (b : B)
    (w : World Tables)
    → Ends debt rows rs (m w)
    → Ends debt rows rs ((m >>= λ _. pure b) w)
unfolding pure
and_pure-Ends debt rows rs m b w h = elim (Outcome-cases (m w)) [
  | inl (a, v, e) ↦ rw (>>=-done m (λ _. pure b) w e) (rw e at h)
  | inr (x, v, e) ↦ rw (>>=-failed m (λ _. pure b) w e) (rw e at h)
]

one_more-Ends :
    {A : Type 0} (debt : Debt) (r : Reservation) (rows rs : List Reservation) (o : Outcome Tables A)
    → Ends debt rows rs o
    → Ends debt (r ∷ rows) rs o
one_more-Ends debt r rows rs (done a w) h = h
one_more-Ends debt r rows rs (failed e w) (left, t, s, same) = (left, shorter t, s, same)

-- The loop of the sweep gives back what is owed, receipt by receipt, up to the first that fails.
pub release_each-IsSound :
    (debt : Debt) (rows : List Reservation) (at : Time) (rs : List Reservation) (w : World Tables)
    → IsSound (owing_all rows debt) w.db
    → w.db.reservations ≡ rs
    → Ends debt rows rs (release_each rows at w)
unfolding owing_all
release_each-IsSound debt [] at rs w s same = none_owed debt at w rs s same
release_each-IsSound debt (r ∷ rows) at rs w s same =
    elim (Outcome-cases (release r.node_id r.spec at w)) [
      | inl (b, v, e) ↦
          let (n, moved) = release-eq-done r.node_id r.spec at w e in
          rw (release_each-go r rows at w e) (
            one_more-Ends debt r rows rs (release_each rows at v) (
              release_each-IsSound debt rows at rs v
                (give_back-IsSound r.node_id r.spec at (owing_all rows debt) w.db s moved)
                (release-reservations r.node_id r.spec at w.db v.db moved ∙ same)))
      | inr (x, v, e) ↦
          let kept = release-eq-failed r.node_id r.spec at w e in
          rw (release_each-stop r rows at w e) (r ∷ rows, whole, rw kept s, rw kept same)
    ]

abbrev pub is_done : {D A : Type 0} → Outcome D A → Bool
is_done (done a w) = true
is_done (failed e w) = false

-- The books with the expired receipts that are lost, and the allocations.
pub record Keeps (base : Debt) (lost : Uuid → Bool) (t : Tables) : Type 0 where
  pub sound : IsSound (leaked lost t.reservations) t
  pub allotted : IsAllotted base no_debt t

-- The books after a sweep: nothing more is lost unless it has failed.
abbrev pub Sweeps : {A : Type 0} → Debt → (Uuid → Bool) → Outcome Tables A → Type 0
Sweeps base lost o =
    (lost' : Uuid → Bool) × Keeps base lost' (world_after o).db
    × (is_done o ≡ true → (id : Uuid) → lost id ≡ false → lost' id ≡ false)

nothing-IsTail : (rs : List Reservation) → IsTail [] rs
nothing-IsTail [] = whole
nothing-IsTail (r ∷ rs) = shorter (nothing-IsTail rs)

module _ (base : Debt) (lost : Uuid → Bool) (locked : Uuid → Bool) (at : Time) where
  -- The tables once the sweep has claimed what is due.
  abbrev claimed_rows : Tables → List Reservation
  claimed_rows t =
      update_where (is_among (due_reservations locked at t.reservations))
        (settled ReservationStatus.expired at) t.reservations

  abbrev now_lost : Tables → List Reservation → Uuid → Bool
  now_lost t left = lost_now lost (due_reservations locked at t.reservations) left

  -- What is owed once the sweep has ended is what is lost.
  owed-IsSound :
      (t u : Tables) (left : List Reservation)
      → IsSound (leaked lost t.reservations) t
      → IsTail left
          (all_where (is_among (due_reservations locked at t.reservations)) t.reservations)
      → u.reservations ≡ claimed_rows t
      → IsSound (owing_all left (leaked lost t.reservations)) u
      → IsSound (leaked (now_lost t left) u.reservations) u
  owed-IsSound t u left before tail same s =
      let due = due_reservations locked at t.reservations in
      agreed-IsSound (owing_all left (leaked lost t.reservations))
        (leaked (now_lost t left) u.reservations) u
        (λ p id. rw same (
          leaked-left lost due left at t.reservations before.keys
            (due-IsOpen (leaked lost t.reservations) locked at t before) tail p id))
        s

  ended-Sweeps :
      {A : Type 0} (t : Tables) (o : Outcome Tables A)
      → IsSound (leaked lost t.reservations) t
      → Ends
          (leaked lost t.reservations)
          (all_where (is_among (due_reservations locked at t.reservations)) t.reservations)
          (claimed_rows t)
          o
      → IsAllotted base no_debt (world_after o).db
      → Sweeps base lost o
  unfolding owing_all names
  ended-Sweeps t (done a w) before (s, same) allotted =
      let rows = all_where (is_among (due_reservations locked at t.reservations)) t.reservations in
      (
        now_lost t [],
        record {
          sound = owed-IsSound t w.db [] before (nothing-IsTail rows) same s;
          allotted = allotted;
        },
        λ h id clean. rw clean refl,
      )
  ended-Sweeps t (failed e w) before (left, tail, s, same) allotted = (
    now_lost t left,
    record { sound = owed-IsSound t w.db left before tail same s; allotted = allotted },
    λ h. ground arith,
  )

  claimed-IsAllotted :
      (t t' : Tables) {rows : List Reservation}
      → IsSound (leaked lost t.reservations) t
      → expired_reservations locked at t ≡ ok (rows, t')
      → IsAllotted base no_debt t
      → IsAllotted base no_debt t'
  unfolding expired_reservations
  claimed-IsAllotted t t' s h a =
      let due = due_reservations locked at t.reservations in
      rw (← (ok_pair h).1) (
        unchanged base no_debt t.reservations (claimed_rows t) t.nodes
          (λ p id.
            kept-settle (is_among due) at ReservationStatus.expired refl p id t.reservations
              (due-IsOpen (leaked lost t.reservations) locked at t s))
          a)

  claimed-rows :
      (t t' : Tables) {rows : List Reservation}
      → expired_reservations locked at t ≡ ok (rows, t')
      → (rows ≡ all_where (is_among (due_reservations locked at t.reservations)) t.reservations)
        × (t'.reservations ≡ claimed_rows t)
  unfolding expired_reservations
  claimed-rows t t' h = (sym (ok_pair h).0, ap Tables.reservations (sym (ok_pair h).1))

  -- A sweep keeps the books; one that breaks off loses what it claimed and did not give back.
  pub sweep_expired_reservations-Sweeps :
      (w : World Tables)
      → Keeps base lost w.db
      → Sweeps base lost (sweep_expired_reservations locked at w)
  unfolding sweep_expired_reservations
  sweep_expired_reservations-Sweeps w k =
      let debt = leaked lost w.db.reservations in
      let claimed = statement (expired_reservations locked at) in
      let give_back = λ (rows : List Reservation). release_each rows at >> pure (length rows) in
      elim (Outcome-cases (claimed w)) [
        | inl (rows, v, e) ↦
            let ran = (statement-eq-done (expired_reservations locked at) w e).0 in
            let (all, same) = claimed-rows w.db v.db ran in
            let owed = expired-IsSound debt locked at w.db k.sound ran in
            let allotted = claimed-IsAllotted w.db v.db k.sound ran k.allotted in
            let after =
              (>>=-Respects (Allots base) (Allots-Suits base).chain (release_each rows at) _
                  (release_each-Respects (Allots base) (Allots-Suits base) rows at)
                  λ u. pure-Respects (Allots base) (Allots-Suits base).same (length rows)).respects
                v allotted in
            let ended =
              and_pure-Ends debt rows (claimed_rows w.db) (release_each rows at) (length rows) v
                (release_each-IsSound debt rows at (claimed_rows w.db) v owed same) in
            rw (>>=-done claimed give_back w e) (
              ended-Sweeps w.db (give_back rows v) k.sound
                (subst (λ z. Ends debt z (claimed_rows w.db) (give_back rows v)) all ended) after)
        | inr (x, v, e) ↦ rw (>>=-failed claimed give_back w e) (
          lost,
          rw (statement-eq-failed (expired_reservations locked at) w e) k,
          λ h id clean. clean,
        )
      ]
