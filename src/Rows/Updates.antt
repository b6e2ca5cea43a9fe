-- ===== src/Rows/Updates.antt =====
-- What holds of the rows of a table after an update of some of them.
use vps_billing_workbuddy.Prelude.{
  ◌≡◌, ◌≤◌, ◌⊎◌, some, refl, Bool, true, false, List, [], ◌∷◌, All, inl, inr, Bool-cases, arith,
}
use vps_billing_workbuddy.Rows.{first_where, count_where, update_where, all_where}
use vps_billing_workbuddy.Rows.Places.{narrow_none, Stands, Stands-behind, first_Stands}

module _ {A : Type 0} (P Q : A → Type 0) where
  pub All-both : (xs : List A) → All P xs → All Q xs → All (λ (x : A). P x × Q x) xs
  All-both [] h k = tt
  All-both (x ∷ xs) (h, hs) (k, ks) = ((h, k), All-both xs hs ks)

  pub All-map : ((x : A) → P x → Q x) → (xs : List A) → All P xs → All Q xs
  All-map f [] h = tt
  All-map f (x ∷ xs) (h, hs) = (f x h, All-map f xs hs)

  pub All-update :
      (test : A → Bool) (change : A → A)
      → ((x : A) → test x ≡ true → P x → Q (change x))
      → ((x : A) → test x ≡ false → P x → Q x)
      → (xs : List A) → All P xs
      → All Q (update_where test change xs)
  unfolding update_where
  All-update test change changed left [] h = tt
  All-update test change changed left (x ∷ xs) (h, hs) =
      let rest = All-update test change changed left xs hs in
      elim (Bool-cases (test x)) [
        | inl hit ↦ rw hit (changed x hit h, rest)
        | inr miss ↦ rw miss (left x miss h, rest)
      ]

module _ {A : Type 0} where
  pub All-of : {P : A → Type 0} → ((x : A) → P x) → (xs : List A) → All P xs
  All-of f [] = tt
  All-of f (x ∷ xs) = (f x, All-of f xs)

  -- An update that keeps a key keeps how many rows it selects.
  pub count_where-kept :
      (key test : A → Bool) (change : A → A)
      → ((x : A) → key (change x) ≡ key x)
      → (xs : List A) → count_where key (update_where test change xs) ≡ count_where key xs
  unfolding count_where update_where
  count_where-kept key test change kept [] = refl
  count_where-kept key test change kept (x ∷ xs) =
      let rest = count_where-kept key test change kept xs in
      elim (Bool-cases (test x)) [
        | inl hit ↦ rw (hit, kept x, rest) refl
        | inr miss ↦ rw (miss, rest) refl
      ]

  unkeyed :
      (key test : A → Bool) (xs : List A)
      → count_where key xs ≡ 0
      → All (λ (x : A). key x ≡ true → test x ≡ true) xs
  unfolding count_where
  unkeyed key test [] h = tt
  unkeyed key test (x ∷ xs) h = elim (Bool-cases (key x)) [
    | inl hit ↦ ground arith
    | inr miss ↦ (λ hit. ground arith, unkeyed key test xs (ground arith))
  ]

  -- Where a narrower test selects a row and the key no second one, the test selects what the key does.
  pub selected_by_key :
      (key test : A → Bool)
      → ((x : A) → test x ≡ true → key x ≡ true)
      → (xs : List A) → count_where key xs ≤ 1
      → count_where test xs ≡ 1
      → All (λ (x : A). key x ≡ true → test x ≡ true) xs
  unfolding count_where
  selected_by_key key test narrow [] k t = tt
  selected_by_key key test narrow (x ∷ xs) k t = elim (Bool-cases (test x)) [
    | inl hit ↦ let same = narrow x hit in (λ again. hit, unkeyed key test xs (ground arith))
    | inr miss ↦
        let rest = selected_by_key key test narrow xs (ground arith) (ground arith) in
        (
          λ same. let none_left = narrow_none key test narrow xs (ground arith) in ground arith,
          rest,
        )
  ]

  -- An update that takes rows out of a test leaves no more of them.
  pub count_where-less :
      (key test : A → Bool) (change : A → A)
      → ((x : A) → key (change x) ≡ false)
      → (xs : List A) → count_where key (update_where test change xs) ≤ count_where key xs
  unfolding count_where update_where
  count_where-less key test change out [] = omega arith
  count_where-less key test change out (x ∷ xs) =
      let rest = count_where-less key test change out xs in let gone = out x in ground arith

  -- Every selected row passes the test and stands in the table.
  pub all_where-Stands :
      (test : A → Bool) (xs : List A)
      → All (λ (x : A). (test x ≡ true) × Stands x xs) (all_where test xs)
  unfolding all_where
  all_where-Stands test [] = tt
  all_where-Stands test (x ∷ xs) =
      let rest =
        All-map (λ (y : A). (test y ≡ true) × Stands y xs)
          (λ (y : A). (test y ≡ true) × Stands y (x ∷ xs)) (λ y (h, s). (h, Stands-behind x y xs s))
          (all_where test xs) (all_where-Stands test xs) in
      elim (Bool-cases (test x)) [
        | inl hit ↦ rw hit ((hit, first_Stands x x xs refl), rest)
        | inr miss ↦ rw miss rest
      ]

  -- A test that is narrower than a key which selects at most one row selects none or one.
  pub at_most_one :
      (key test : A → Bool)
      → ((x : A) → test x ≡ true → key x ≡ true)
      → (xs : List A) → count_where key xs ≤ 1
      → (count_where test xs ≡ 0) ⊎ (count_where test xs ≡ 1)
  unfolding count_where
  at_most_one key test narrow [] h = inl refl
  at_most_one key test narrow (x ∷ xs) h = elim (Bool-cases (test x)) [
    | inl hit ↦
        let same = narrow x hit in
        let none_left = narrow_none key test narrow xs (ground arith) in inr (ground arith)
    | inr miss ↦ elim (at_most_one key test narrow xs (ground arith)) [
      | inl zero_left ↦ inl (ground arith)
      | inr one_left ↦ inr (ground arith)
    ]
  ]

  -- Where the test selects one row and its key no second one, that row is the first of the key, and
  -- the update changes it.
  pub one_updated :
      (key test : A → Bool) (change : A → A)
      → ((x : A) → test x ≡ true → key x ≡ true)
      → ((x : A) → key (change x) ≡ key x)
      → (xs : List A) → count_where key xs ≤ 1
      → count_where test xs ≡ 1
      → (x : A) × (first_where key xs ≡ some x)
        × (test x ≡ true)
        × (first_where key (update_where test change xs) ≡ some (change x))
  unfolding count_where first_where update_where
  one_updated key test change narrow same [] k t = ground arith
  one_updated key test change narrow same (x ∷ xs) k t = elim (Bool-cases (test x)) [
    | inl hit ↦ let here = narrow x hit in (x, rw here refl, hit, rw (hit, same x, here) refl)
    | inr miss ↦ elim (Bool-cases (key x)) [
      | inl here ↦ let none_left = narrow_none key test narrow xs (ground arith) in ground arith
      | inr elsewhere ↦
          let (y, found, hit, moved) =
            one_updated key test change narrow same xs (ground arith) (ground arith) in
          (y, rw elsewhere found, hit, rw (miss, elsewhere) moved)
    ]
  ]
