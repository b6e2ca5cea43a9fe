-- ===== src/Rows/Places.antt =====
-- A row by its place in the table, and tables whose key selects one row.
use vps_billing_workbuddy.Prelude.{
  ◌≡◌, ◌≤◌, ◌⊎◌, refl, ap, Bool, true, ◌||◌, Option, none, some, List, [], ◌∷◌, ◌++◌, All, inl, inr,
  Bool-cases, if◌then◌else◌, arith,
}
use vps_billing_workbuddy.Rows.{first_where, count_where}
use vps_billing_workbuddy.Rows.Laws.{count_where-append}

pub Option-cases : {A : Type 0} (o : Option A) → (o ≡ none) ⊎ ((a : A) × (o ≡ some a))
Option-cases none = inl refl
Option-cases (some a) = inr (a, refl)

-- A row in the table, by the rows on either side of it.
pub record Stands {A : Type 0} (r : A) (rs : List A) : Type 0 where
  pub before : List A
  pub after : List A
  pub split : rs ≡ before ++ r ∷ after

module _ {A : Type 0} where
  pub Stands-behind : (x r : A) (rs : List A) → Stands r rs → Stands r (x ∷ rs)
  Stands-behind x r rs s = record {
    before = x ∷ s.before;
    after = s.after;
    split = ap (λ ys. x ∷ ys) s.split;
  }

  pub first_Stands : (x r : A) (rs : List A) → x ≡ r → Stands r (x ∷ rs)
  first_Stands x r rs same = record { before = []; after = rs; split = ap (λ y. y ∷ rs) same }

  -- The first row of a test is a row of the table that passes the test.
  pub first_where-Stands :
      (test : A → Bool) (rs : List A) (r : A)
      → first_where test rs ≡ some r
      → (test r ≡ true) × Stands r rs
  unfolding first_where
  first_where-Stands test [] r h = cc
  first_where-Stands test (x ∷ xs) r h = elim (Bool-cases (test x)) [
    | inl hit ↦ let same : x ≡ r = ground arith in (rw same at hit, first_Stands x r xs same)
    | inr miss ↦
        let (p, s) = first_where-Stands test xs r (ground arith) in (p, Stands-behind x r xs s)
  ]

module _ {A : Type 0} (P : A → Type 0) (test : A → Bool) where
  unselected : (rs : List A) → count_where test rs ≡ 0 → All (λ (x : A). test x ≡ true → P x) rs
  unfolding count_where
  unselected [] h = tt
  unselected (x ∷ xs) h = elim (Bool-cases (test x)) [
    | inl hit ↦ ground arith
    | inr miss ↦ (λ hit. ground arith, unselected xs (ground arith))
  ]

  -- Where a key selects at most one row, and this one, what holds of it holds of all that it selects.
  pub only :
      (r : A) (before after : List A)
      → count_where test (before ++ r ∷ after) ≤ 1
      → test r ≡ true
      → P r
      → All (λ (x : A). test x ≡ true → P x) (before ++ r ∷ after)
  unfolding count_where
  only r [] after h t p = (λ hit. p, unselected after (ground arith))
  only r (x ∷ xs) after h t p = elim (Bool-cases (test x)) [
    | inl hit ↦
        let more = count_where-append test xs (r ∷ after) in
        (λ again. ground arith, only r xs after (ground arith) t p)
    | inr miss ↦ (λ hit. ground arith, only r xs after (ground arith) t p)
  ]

-- A test that is narrower than a key which selects one row.
module _ {A : Type 0} (key test : A → Bool) (narrow : (x : A) → test x ≡ true → key x ≡ true) where
  pub narrow_none : (rs : List A) → count_where key rs ≡ 0 → count_where test rs ≡ 0
  unfolding count_where
  narrow_none [] h = refl
  narrow_none (x ∷ xs) h = ground (arith, narrow x, narrow_none xs)

  -- The rows beside the one that the key selects.
  pub beside_none :
      (r : A) (before after : List A)
      → key r ≡ true
      → count_where key (before ++ r ∷ after) ≤ 1
      → (count_where test before ≡ 0) × (count_where test after ≡ 0)
  unfolding count_where
  beside_none r before after k one =
      let sum = count_where-append key before (r ∷ after) in
      (narrow_none before (ground arith), narrow_none after (ground arith))

  -- The test counts the row or none.
  pub count_one :
      (r : A) (rs : List A)
      → Stands r rs
      → key r ≡ true
      → count_where key rs ≤ 1
      → count_where test rs ≡ (if test r then 1 else 0)
  unfolding count_where
  count_one r rs s k one =
      let (none_before, none_after) = beside_none r s.before s.after k (rw s.split at one) in
      let sum = count_where-append test s.before (r ∷ s.after) in rw s.split (ground arith)

-- No row of either test is no row of each.
pub count_either :
    {A : Type 0} (f g : A → Bool) (rs : List A)
    → count_where (λ (r : A). f r || g r) rs ≡ 0
    → (count_where f rs ≡ 0) × (count_where g rs ≡ 0)
unfolding count_where
count_either f g [] h = (refl, refl)
count_either f g (r ∷ rs) h = elim (Bool-cases (f r || g r)) [
  | inl either ↦ ground arith
  | inr neither ↦ let rest = count_either f g rs (ground arith) in (ground arith, ground arith)
]
