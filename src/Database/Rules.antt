-- ===== src/Database/Rules.antt =====
-- How a call that succeeded or failed is read back.
use vps_billing_workbuddy.Prelude.{◌≡◌, refl, ◌⊎◌, inl, inr, some, [], arith}
use vps_billing_workbuddy.Errors.{Error, Result, ok, err, no_rows}
use vps_billing_workbuddy.Database.Defs.{
  World, Outcome, done, failed, Action, ◌>>=◌, statement, no_change, conclude, within_transaction,
  if_applied,
}

module _ {D : Type 0} where
  pub Outcome-cases :
      {A : Type 0} (o : Outcome D A)
      → ((a : A) × (w : World D) × (o ≡ done a w))
        ⊎ ((e : Error) × (w : World D) × (o ≡ failed e w))
  Outcome-cases (done a w) = inl (a, w, refl)
  Outcome-cases (failed e w) = inr (e, w, refl)

  -- A chain that is done has done its first part.
  pub >>=-eq-done :
      {A B : Type 0} (m : Action D A) (f : A → Action D B) (w : World D) {b : B} {w' : World D}
      → (m >>= f) w ≡ done b w'
      → (a : A) × (v : World D) × (m w ≡ done a v) × (f a v ≡ done b w')
  unfolding ◌>>=◌
  >>=-eq-done m f w h = elim (Outcome-cases (m w)) [
    | inl (a, v, e) ↦ (a, v, e, ground arith)
    | inr (e, v, p) ↦ ground arith
  ]

  -- A chain whose first part is done goes on with its answer.
  pub >>=-done :
      {A B : Type 0} (m : Action D A) (f : A → Action D B) (w : World D) {a : A} {w' : World D}
      → m w ≡ done a w'
      → (m >>= f) w ≡ f a w'
  unfolding ◌>>=◌
  >>=-done m f w h = rw (◌>>=◌, h) refl

  -- A chain whose first part fails fails with it.
  pub >>=-failed :
      {A B : Type 0} (m : Action D A) (f : A → Action D B) (w : World D) {e : Error} {w' : World D}
      → m w ≡ failed e w'
      → (m >>= f) w ≡ failed e w'
  unfolding ◌>>=◌
  >>=-failed m f w h = rw (◌>>=◌, h) refl

  pub if_applied-done :
      {A : Type 0} (m : Action D A) (w : World D) {a : A} {w' : World D}
      → m w ≡ done a w'
      → if_applied m w ≡ done (some a) w'
  unfolding if_applied
  if_applied-done m w h = ground arith

  -- A statement that is done ran on the tables and drew no identifier.
  pub statement-eq-done :
      {A : Type 0} (f : D → Result (A × D)) (w : World D) {a : A} {w' : World D}
      → statement f w ≡ done a w'
      → (f w.db ≡ ok (a, w'.db)) × (w'.drawn ≡ w.drawn)
  unfolding statement
  statement-eq-done f w h = ground arith

  -- A statement that fails changes no table.
  pub statement-eq-failed :
      {A : Type 0} (f : D → Result (A × D)) (w : World D) {e : Error} {w' : World D}
      → statement f w ≡ failed e w'
      → w'.db ≡ w.db
  unfolding statement
  statement-eq-failed f w h = ground arith

  -- A statement that reports no row ran, and found none.
  pub statement-eq-no_rows :
      {A : Type 0} (f : D → Result (A × D)) (w : World D) {w' : World D}
      → statement f w ≡ failed no_rows w'
      → f w.db ≡ err no_rows
  unfolding statement
  statement-eq-no_rows f w h = ground arith

  no_change-eq-done :
      (w : World D) {u : Unit {0}} {w' : World D} → statement no_change w ≡ done u w' → w'.db ≡ w.db
  no_change-eq-done w h = let ran = (statement-eq-done no_change w h).0 in ground arith

  conclude-eq-failed :
      {A : Type 0} (before : World D) (o : Outcome D A) {e : Error} {w' : World D}
      → conclude before o ≡ failed e w'
      → w'.db ≡ before.db
  conclude-eq-failed before (failed e w) h = ground arith
  conclude-eq-failed before (done a w) h = elim (Outcome-cases (statement no_change w)) [
    | inl (u, v, e) ↦ ground arith
    | inr (x, v, e) ↦ ground arith
  ]

  conclude-eq-done :
      {A : Type 0} (before : World D) (o : Outcome D A) {a : A} {w' : World D}
      → conclude before o ≡ done a w'
      → (v : World D) × (o ≡ done a v) × (w'.db ≡ v.db)
  conclude-eq-done before (failed e w) h = cc
  conclude-eq-done before (done a w) h = elim (Outcome-cases (statement no_change w)) [
    | inl (u, v, e) ↦ let kept = no_change-eq-done w e in (w, ground arith, ground arith)
    | inr (x, v, e) ↦ ground arith
  ]

  -- Where no fault is to come, a statement does what it does to the tables.
  pub statement_fair :
      {A : Type 0} (f : D → Result (A × D)) (w : World D) {a : A} {d : D}
      → w.faults ≡ []
      → f w.db ≡ ok (a, d)
      → statement f w ≡ done a (record w { db = d })
  unfolding statement
  statement_fair f w h e = ground arith

  pub statement_fair-err :
      {A : Type 0} (f : D → Result (A × D)) (w : World D) {e : Error}
      → w.faults ≡ []
      → f w.db ≡ err e
      → statement f w ≡ failed e (record w { faults = [] })
  unfolding statement
  statement_fair-err f w h e = ground arith

  -- A transaction that fails leaves the tables as they were.
  pub within_transaction-eq-failed :
      {A : Type 0} (body : Action D A) (w : World D) {e : Error} {w' : World D}
      → within_transaction body w ≡ failed e w'
      → w'.db ≡ w.db
  unfolding within_transaction
  within_transaction-eq-failed body w h = elim (Outcome-cases (statement no_change w)) [
    | inl (u, v, e) ↦ conclude-eq-failed w (body v) (rw (e, within_transaction) at h)
    | inr (x, v, e) ↦ let kept = statement-eq-failed no_change w e in ground arith
  ]

  -- One that is done has run its body on the same tables, and keeps what the body wrote.
  pub within_transaction-eq-done :
      {A : Type 0} (body : Action D A) (w : World D) {a : A} {w' : World D}
      → within_transaction body w ≡ done a w'
      → (v v' : World D) × (v.db ≡ w.db) × (body v ≡ done a v') × (w'.db ≡ v'.db)
  unfolding within_transaction
  within_transaction-eq-done body w h = elim (Outcome-cases (statement no_change w)) [
    | inl (u, v, e) ↦
        let (v', ran, kept) = conclude-eq-done w (body v) (rw (e, within_transaction) at h) in
        (v, v', no_change-eq-done w e, ran, kept)
    | inr (x, v, e) ↦ ground arith
  ]

  -- Where no fault is to come, a transaction whose body is done on the same tables is done.
  pub within_transaction_fair :
      {A : Type 0} (body : Action D A) (w : World D) {a : A} {w' : World D}
      → w.faults ≡ []
      → body w ≡ done a w'
      → w'.faults ≡ []
      → within_transaction body w ≡ done a w'
  unfolding within_transaction
  within_transaction_fair body w {w' = w'} f h f' =
      let begun = statement_fair no_change w f refl in
      let ended = statement_fair no_change w' f' refl in ground arith
