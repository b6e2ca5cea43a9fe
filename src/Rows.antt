-- ===== src/Rows.antt =====
-- How the statements of backend/internal/db/sqlcgen select and update the rows of a table.
pub mod Laws
pub mod Places
pub mod Updates
use vps_billing_workbuddy.Prelude.{ℕ, suc, Bool, Option, none, some, List, [], ◌∷◌, if◌then◌else◌}

-- WHERE: the first row, the updated rows, and how many rows there are.
module _ {A : Type 0} where
  unfoldable pub first_where : (A → Bool) → List A → Option A
  first_where test [] = none
  first_where test (x ∷ xs) = if test x then some x else first_where test xs

  unfoldable pub all_where : (A → Bool) → List A → List A
  all_where test [] = []
  all_where test (x ∷ xs) = let rest = all_where test xs in if test x then x ∷ rest else rest

  unfoldable pub update_where : (A → Bool) → (A → A) → List A → List A
  update_where test change [] = []
  update_where test change (x ∷ xs) = (if test x then change x else x) ∷ update_where test change xs

  unfoldable pub count_where : (A → Bool) → List A → ℕ
  count_where test [] = 0
  count_where test (x ∷ xs) = let rest = count_where test xs in if test x then suc rest else rest
