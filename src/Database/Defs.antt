-- ===== src/Database/Defs.antt =====
-- Actions on a database `D`: a world in, an outcome with the world after it out.
use vps_billing_workbuddy.Prelude.{
  ℕ, ◌+◌, ◌==◌, String, Bool, true, false, Option, none, some, List, [], ◌∷◌, if◌then◌else◌,
}
use vps_billing_workbuddy.Errors.{
  Error, Result, ok, err, statement_failed, no_rows, unique_violation,
}

-- The tables, the faults to come, and how many identifiers have been drawn.
pub record World (D : Type 0) : Type 0 where
  pub db : D
  pub faults : List Bool
  pub drawn : ℕ

-- What is written stays written when a call fails, unless a transaction takes it back.
pub data Outcome (D A : Type 0) : Type 0 where
  done : A → World D → Outcome D A
  failed : Error → World D → Outcome D A

abbrev pub Action : Type 0 → Type 0 → Type 0
Action D A = World D → Outcome D A

infixl 5 ◌>>=◌ ◌>>◌
unfoldable pub ◌>>=◌ : {D A B : Type 0} → Action D A → (A → Action D B) → Action D B
◌>>=◌ m f w = elim (m w) [ done a w' ↦ f a w' | failed e w' ↦ failed e w' ]

abbrev pub ◌>>◌ : {D A B : Type 0} → Action D A → Action D B → Action D B
m >> k = m >>= λ _. k

unfoldable pub pure : {D A : Type 0} → A → Action D A
pure a w = done a w

unfoldable pub throw : {D A : Type 0} → Error → Action D A
throw e w = failed e w

-- A pure result as an action.
unfoldable pub lift : {D A : Type 0} → Result A → Action D A
lift (ok a) w = done a w
lift (err e) w = failed e w

-- `if err != nil { return map(err) }`
unfoldable pub map_error : {D A : Type 0} → (Error → Error) → Action D A → Action D A
map_error f m w = elim (m w) [ done a w' ↦ done a w' | failed e w' ↦ failed (f e) w' ]

-- What a statement that runs does to the tables.
abbrev pub execute : {D A : Type 0} → Result (A × D) → World D → List Bool → Outcome D A
execute (ok (a, d)) w rest = done a (record w { db = d; faults = rest })
execute (err e) w rest = failed e (record w { faults = rest })

unfoldable pub statement : {D A : Type 0} → (D → Result (A × D)) → Action D A
statement f w = elim w.faults [
  | [] ↦ execute (f w.db) w []
  | true ∷ rest ↦ failed statement_failed (record w { faults = rest })
  | false ∷ rest ↦ execute (f w.db) w rest
]

-- BEGIN and COMMIT, as statements that leave the tables alone.
abbrev pub no_change : {D : Type 0} → D → Result (Unit {0} × D)
no_change d = ok (tt, d)

-- The world with the tables of another one: what a rollback leaves.
abbrev pub roll_back : {D : Type 0} → World D → World D → World D
roll_back before w = record w { db = before.db }

-- COMMIT after the body, or ROLLBACK.
abbrev pub conclude : {D A : Type 0} → World D → Outcome D A → Outcome D A
conclude before (failed e w) = failed e (roll_back before w)
conclude before (done a w) = elim (statement no_change w) [
  | done _ w' ↦ done a w'
  | failed e w' ↦ failed e (roll_back before w')
]

-- `WithinTransaction`; the branch for a nested call differs in the statements' names alone.
unfoldable pub within_transaction : {D A : Type 0} → Action D A → Action D A
within_transaction body w = elim (statement no_change w) [
  | done _ w' ↦ conclude w (body w')
  | failed e w' ↦ failed e w'
]

-- `uuid.New()`, by the sequence of identifiers that it draws.
unfoldable pub fresh : {D : Type 0} → (ℕ → ℕ) → Action D ℕ
fresh new_uuid w = done (new_uuid w.drawn) (record w { drawn = w.drawn + 1 })

-- A query of one row.
abbrev pub one_row : {D A : Type 0} → Option A → D → Result (A × D)
one_row none t = err no_rows
one_row (some a) t = ok (a, t)

-- UPDATE … RETURNING: the row as it is after the update.
abbrev pub returning : {D A : Type 0} → Option A → (A → A) → D → Result (A × D)
returning none change t = err no_rows
returning (some a) change t = ok (change a, t)

-- An INSERT that is refused where `taken` counts a row.
abbrev pub insert_unless : {D : Type 0} → ℕ → String → D → Result (Unit {0} × D)
insert_unless taken constraint t =
    if taken == 0 then ok (tt, t) else err (unique_violation constraint)

-- `errors.Is(err, pgx.ErrNoRows)`
abbrev pub when_no_rows : Error → Error → Error
when_no_rows e no_rows = e
when_no_rows e other = other

-- A query of one row whose "no row" is an answer: it was not applied. The zero row
-- that the source returns beside `false` is none here.
unfoldable pub if_applied : {D A : Type 0} → Action D A → Action D (Option A)
if_applied m w = elim (m w) [
  | done a w' ↦ done (some a) w'
  | failed no_rows w' ↦ done none w'
  | failed e w' ↦ failed e w'
]
