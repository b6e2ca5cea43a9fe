-- ===== src/Database/Done.antt =====
-- What the parts of a call have done when they are done.
use vps_billing_workbuddy.Prelude.{
  ℕ, String, ◌≡◌, refl, sym, ap, ◌⊎◌, inl, inr, Option, none, some, arith,
}
use vps_billing_workbuddy.Errors.{Error, Result, ok, err, no_rows}
use vps_billing_workbuddy.Database.Defs.{
  World, done, failed, Action, lift, pure, throw, map_error, fresh, if_applied, one_row, returning,
  insert_unless,
}
use vps_billing_workbuddy.Database.Rules.{Outcome-cases}

module _ {D A : Type 0} where
  pub lift-eq-done :
      (r : Result A) (w : World D) {a : A} {w' : World D}
      → lift r w ≡ done a w'
      → (r ≡ ok a) × (w' ≡ w)
  unfolding lift
  lift-eq-done (ok x) w h = ground arith
  lift-eq-done (err e) w h = cc

  pub pure-eq-done :
      (x : A) (w : World D) {a : A} {w' : World D} → pure x w ≡ done a w' → (x ≡ a) × (w' ≡ w)
  unfolding pure
  pure-eq-done x w h = ground arith

  pub map_error-eq-done :
      (g : Error → Error) (m : Action D A) (w : World D) {a : A} {w' : World D}
      → map_error g m w ≡ done a w'
      → m w ≡ done a w'
  unfolding map_error
  map_error-eq-done g m w h = elim (Outcome-cases (m w)) [
    | inl (a, v, e) ↦ ground arith
    | inr (x, v, e) ↦ ground arith
  ]

  if_applied-failed :
      (m : Action D A) (x : Error) (v w : World D) {o : Option A} {w' : World D}
      → m w ≡ failed x v
      → if_applied m w ≡ done o w'
      → ((o ≡ none) × (m w ≡ failed no_rows w')) ⊎ ((a : A) × (o ≡ some a) × (m w ≡ done a w'))
  unfolding if_applied
  if_applied-failed m x v w e h = ground arith

  -- An answer "not applied" is a statement that found no row.
  pub if_applied-eq-done :
      (m : Action D A) (w : World D) {o : Option A} {w' : World D}
      → if_applied m w ≡ done o w'
      → ((o ≡ none) × (m w ≡ failed no_rows w')) ⊎ ((a : A) × (o ≡ some a) × (m w ≡ done a w'))
  unfolding if_applied
  if_applied-eq-done m w h = elim (Outcome-cases (m w)) [
    | inl (a, v, e) ↦ inr (a, ground arith, ground arith)
    | inr (x, v, e) ↦ if_applied-failed m x v w e h
  ]

pub ok_pair :
    {D A : Type 0} {a b : A} {t t' : D}
    → ◌≡◌ {A = Result (A × D)} (ok (a, t)) (ok (b, t'))
    → (a ≡ b) × (t ≡ t')
ok_pair h = (ground arith, ground arith)

-- A row that UPDATE … RETURNING answers was selected, and is the changed one.
pub returning-eq-ok :
    {D A : Type 0} (o : Option A) (change : A → A) (t : D) {a : A} {t' : D}
    → returning o change t ≡ ok (a, t')
    → (x : A) × (o ≡ some x) × (a ≡ change x) × (t' ≡ t)
returning-eq-ok none change t h = cc
returning-eq-ok (some x) change t h = (x, refl, sym (ok_pair h).0, sym (ok_pair h).1)

pub returning-eq-err :
    {D A : Type 0} (o : Option A) (change : A → A) (t : D)
    → returning o change t ≡ err no_rows
    → o ≡ none
returning-eq-err none change t h = refl
returning-eq-err (some x) change t h = cc

pub throw-eq-done :
    {D A B : Type 0} (e : Error) (w : World D) {a : A} {w' : World D} → throw e w ≡ done a w' → B
unfolding throw
throw-eq-done e w h = cc

pub fresh-eq-done :
    {D : Type 0} (new_uuid : ℕ → ℕ) (w : World D) {a : ℕ} {w' : World D}
    → fresh new_uuid w ≡ done a w'
    → w'.db ≡ w.db
unfolding fresh
fresh-eq-done new_uuid w h = ground arith

-- A write through `mapWriteError` of rows that were free.
pub inserted :
    {D : Type 0} (taken : ℕ) (constraint : String) (t : D) {u : Unit {0}} {t' : D}
    → insert_unless taken constraint t ≡ ok (u, t')
    → t' ≡ t
inserted taken constraint t h = ground arith

pub inserted-free :
    {D : Type 0} (taken : ℕ) (constraint : String) (t : D) {u : Unit {0}} {t' : D}
    → insert_unless taken constraint t ≡ ok (u, t')
    → taken ≡ 0
inserted-free taken constraint t h = ground arith

-- A query of one row that is done found the row, and gives the tables back.
pub one_row-found :
    {D A : Type 0} (o : Option A) (t t' : D) (a : A)
    → one_row o t ≡ ok (a, t')
    → (o ≡ some a) × (t' ≡ t)
one_row-found none t t' a e = cc
one_row-found (some x) t t' a e = (ap some (ok_pair e).0, sym (ok_pair e).1)
