-- ===== src/Operation/Evolution.antt =====
-- How the table of operations changes under the calls of the operation system: rows keep their identity
-- and move through the machine, new rows are queued, and the constraints of the table hold throughout.
pub mod Statements
pub mod Claims
pub mod Calls
pub mod Ticks
pub mod Lives
use vps_billing_workbuddy.Prelude.{
  ℕ, ◌≡◌, ◌≤◌, refl, sym, subst, ◌∙◌, true, String, Option, List, [], ◌∷◌, All, inl, inr, arith,
}
use vps_billing_workbuddy.Machine.{Moves, here, Moves-trans}
use vps_billing_workbuddy.Errors.{Error, Result, ok, err}
use vps_billing_workbuddy.Database.{
  Action, ◌>>=◌, lift, pure, map_error, statement, if_applied, fresh, Respects, lift-Respects,
  pure-Respects, fresh-Respects, statement-Respects, map_error-Respects, if_applied-Respects,
  >>=-Respects, after-Respects, World, done,
}
use vps_billing_workbuddy.Ledger.{Uuid}
use vps_billing_workbuddy.Rows.{count_where}
use vps_billing_workbuddy.Operation.{OperationStatus, operation_can_transition}
use vps_billing_workbuddy.Operation.Tables.{OperationRow, Tables, is_valid}
use vps_billing_workbuddy.Operation.Sql.{has_id, has_key}

-- The row after is the same operation, further in its life.
pub record Continues (r r' : OperationRow) : Type 0 where
  pub same_id : r'.operation.id ≡ r.operation.id
  pub same_key : r'.operation.idempotency_key ≡ r.operation.idempotency_key
  pub same_budget : r'.operation.max_retries ≡ r.operation.max_retries
  pub moves : Moves operation_can_transition r.operation.status r'.operation.status

-- A row that was not there before began its life queued.
abbrev pub IsNew : OperationRow → Type 0
IsNew r = Moves operation_can_transition OperationStatus.queued r.operation.status

-- Every row continues, in its place; new rows come after them.
pub data Evolves : List OperationRow → List OperationRow → Type 0 where
  appended : {rs : List OperationRow} → All IsNew rs → Evolves [] rs
  continued :
      {r r' : OperationRow} {rs rs' : List OperationRow}
      → Continues r r'
      → Evolves rs rs'
      → Evolves (r ∷ rs) (r' ∷ rs')

abbrev pub IsValid : OperationRow → Type 0
IsValid r = is_valid r ≡ true

-- The constraints of the table: the CHECKs of each row, the primary key, and the idempotency key.
pub record IsSound (t : Tables) : Type 0 where
  pub valid : All IsValid t.operations
  pub distinct : (id : Uuid) → count_where (has_id id) t.operations ≤ 1
  pub keyed : (key : String) → count_where (has_key key) t.operations ≤ 1

abbrev pub Follows : Tables → Tables → Type 0
Follows t t' = IsSound t → IsSound t' × Evolves t.operations t'.operations

pub Continues-refl : (r : OperationRow) → Continues r r
Continues-refl r = record { same_id = refl; same_key = refl; same_budget = refl; moves = here }

Continues-trans : {r s t : OperationRow} → Continues r s → Continues s t → Continues r t
Continues-trans h k = record {
  same_id = k.same_id ∙ h.same_id;
  same_key = k.same_key ∙ h.same_key;
  same_budget = k.same_budget ∙ h.same_budget;
  moves = Moves-trans h.moves k.moves;
}

pub Evolves-refl : (rs : List OperationRow) → Evolves rs rs
Evolves-refl [] = appended tt
Evolves-refl (r ∷ rs) = continued (Continues-refl r) (Evolves-refl rs)

IsNew-continued :
    (rs : List OperationRow) {rs' : List OperationRow}
    → All IsNew rs
    → Evolves rs rs'
    → All IsNew rs'
IsNew-continued [] h (appended k) = k
IsNew-continued (r ∷ rs) (n, h) (continued c k) = (Moves-trans n c.moves, IsNew-continued rs h k)

pub Evolves-trans : {rs ss ts : List OperationRow} → Evolves rs ss → Evolves ss ts → Evolves rs ts
Evolves-trans {ss = ss} (appended h) k = appended (IsNew-continued ss h k)
Evolves-trans (continued c h) (continued d k) = continued (Continues-trans c d) (Evolves-trans h k)

Follows-refl : (t : Tables) → Follows t t
Follows-refl t s = (s, Evolves-refl t.operations)

Follows-trans : {t u v : Tables} → Follows t u → Follows u v → Follows t v
Follows-trans h k s = let (s', e) = h s in let (s'', e') = k s' in (s'', Evolves-trans e e')

-- Whatever a call answers, the table has evolved.
abbrev pub Keeps : {A : Type 0} → Action Tables A → Type 0
Keeps m = Respects Follows m

pub Follows-chain : (t u v : Tables) → Follows t u → Follows u v → Follows t v
Follows-chain t u v h k = Follows-trans h k

pub lift-Keeps : {A : Type 0} (r : Result A) → Keeps (lift r)
lift-Keeps r = lift-Respects Follows Follows-refl r

pub pure-Keeps : {A : Type 0} (a : A) → Keeps (pure a)
pure-Keeps a = pure-Respects Follows Follows-refl a

pub fresh-Keeps : (new_uuid : ℕ → ℕ) → Keeps (fresh new_uuid)
fresh-Keeps new_uuid = fresh-Respects Follows Follows-refl new_uuid

pub statement-Keeps :
    {A : Type 0} (f : Tables → Result (A × Tables))
    → ((t t' : Tables) (a : A) → f t ≡ ok (a, t') → Follows t t')
    → Keeps (statement f)
statement-Keeps f h = statement-Respects Follows f Follows-refl h

-- A query gives the tables back.
pub query-Keeps :
    {A : Type 0} (f : Tables → Result (A × Tables))
    → ((t t' : Tables) (a : A) → f t ≡ ok (a, t') → t' ≡ t)
    → Keeps (statement f)
query-Keeps f h =
    statement-Keeps f λ t t' a e. subst (Follows t) (sym (h t t' a e)) (Follows-refl t)

pub map_error-Keeps :
    {A : Type 0} (g : Error → Error) (m : Action Tables A) → Keeps m → Keeps (map_error g m)
map_error-Keeps g m h = map_error-Respects Follows g m h

pub if_applied-Keeps : {A : Type 0} (m : Action Tables A) → Keeps m → Keeps (if_applied m)
if_applied-Keeps m h = if_applied-Respects Follows m h

pub >>=-Keeps :
    {A B : Type 0} (m : Action Tables A) (f : A → Action Tables B)
    → Keeps m
    → ((a : A) → Keeps (f a))
    → Keeps (m >>= f)
>>=-Keeps m f h g = >>=-Respects Follows Follows-chain m f h g

-- What comes after may rely on the answer of what comes first.
pub after-Keeps :
    {A B : Type 0} (m : Action Tables A) (f : A → Action Tables B)
    → Keeps m
    → ((a : A) (v w : World Tables) → m v ≡ done a w → Keeps (f a))
    → Keeps (m >>= f)
after-Keeps m f h g = after-Respects Follows Follows-chain m f h g
