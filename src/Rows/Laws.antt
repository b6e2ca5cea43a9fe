-- ===== src/Rows/Laws.antt =====
-- Laws of selected and updated rows.
use vps_billing_workbuddy.Prelude.{
  ◌≡◌, refl, Bool, true, false, none, some, List, [], ◌∷◌, ◌++◌, arith, ◌+◌, inl, inr, Bool-cases,
  if◌then◌else◌,
}
use vps_billing_workbuddy.Rows.{first_where, update_where, count_where}

module _ {A : Type 0} where
  pub first_where-test :
      (test : A → Bool) (xs : List A) (x : A) → first_where test xs ≡ some x → test x ≡ true
  unfolding first_where
  first_where-test test [] x h = cc
  first_where-test test (y ∷ ys) x h = ground (arith, first_where-test test ys x)

  -- No row is selected exactly when none is counted.
  pub count_where-first :
      (test : A → Bool) (xs : List A) → count_where test xs ≡ 0 → first_where test xs ≡ none
  unfolding count_where first_where
  count_where-first test [] h = refl
  count_where-first test (y ∷ ys) h = ground (arith, count_where-first test ys)

  pub first_where-count :
      (test : A → Bool) (xs : List A) → first_where test xs ≡ none → count_where test xs ≡ 0
  unfolding count_where first_where
  first_where-count test [] h = refl
  first_where-count test (y ∷ ys) h = ground (arith, first_where-count test ys)

  -- An update that takes every row out of a test leaves no row in it.
  pub count_where-update :
      (test : A → Bool) (change : A → A) (xs : List A)
      → ((x : A) → test x ≡ true → test (change x) ≡ false)
      → count_where test (update_where test change xs) ≡ 0
  unfolding count_where update_where
  count_where-update test change [] h = refl
  count_where-update test change (y ∷ ys) h =
      ground (arith, h y, count_where-update test change ys h)

  -- An update of no row changes nothing.
  pub update_where_none :
      (test : A → Bool) (change : A → A) (xs : List A)
      → count_where test xs ≡ 0
      → update_where test change xs ≡ xs
  unfolding count_where update_where
  update_where_none test change [] h = refl
  update_where_none test change (y ∷ ys) h = ground (arith, update_where_none test change ys)

  pub count_where-append :
      (test : A → Bool) (xs ys : List A)
      → count_where test (xs ++ ys) ≡ count_where test xs + count_where test ys
  unfolding count_where
  count_where-append test [] ys = omega arith
  count_where-append test (x ∷ xs) ys = ground (arith, count_where-append test xs ys)

  -- An update that keeps the key changes the row of the key in place.
  pub first_where-update :
      (key test : A → Bool) (change : A → A)
      → ((x : A) → key (change x) ≡ key x)
      → (xs : List A) (r : A) → first_where key xs ≡ some r
      → first_where key (update_where test change xs) ≡ some (if test r then change r else r)
  unfolding first_where update_where
  first_where-update key test change kept [] r h = cc
  first_where-update key test change kept (x ∷ xs) r h = elim (Bool-cases (key x)) [
    | inl hit ↦
        let same : x ≡ r = ground arith in
        elim (Bool-cases (test x)) [
          | inl changed ↦ let kept' = kept x in rw (← same) (ground arith)
          | inr left ↦ rw (← same) (ground arith)
        ]
    | inr miss ↦
        let rest = first_where-update key test change kept xs r (ground arith) in
        let kept' = kept x in
        elim (Bool-cases (test x)) [
          | inl changed ↦ rw changed (ground arith)
          | inr left ↦ rw left (ground arith)
        ]
  ]

  -- A row that is added last is found where no other is.
  pub first_where-append :
      (test : A → Bool) (xs : List A) (y : A)
      → count_where test xs ≡ 0
      → test y ≡ true
      → first_where test (xs ++ y ∷ []) ≡ some y
  unfolding first_where count_where
  first_where-append test [] y h hit = ground arith
  first_where-append test (x ∷ xs) y h hit = ground (arith, first_where-append test xs y)
