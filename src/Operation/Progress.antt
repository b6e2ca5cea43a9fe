-- ===== src/Operation/Progress.antt =====
-- The progress of an operation (operation/operation.go `ProgressOf`) against its reading, and
-- against the column that the statement `SyncOperationProgress` derives.
use vps_billing_workbuddy.Prelude.{
  ℕ, ◌*◌, ◌/◌, ◌≤◌, ◌<◌, ◌≡◌, ◌↔◌, refl, ap, true, List, [], ◌∷◌, length, All, arith,
}
use native.Mathlib.Nat.{div-le_of_le-mul, div-lt_iff_lt-mul}
use vps_billing_workbuddy.Operation.{Step, is_done, count_done, progress_of}
use vps_billing_workbuddy.Operation.Sql.{sum_progress, derived_progress}

abbrev pub IsDone : Step → Type 0
IsDone s = is_done s.status ≡ true

abbrev pub HasNoneWithin : Step → Type 0
HasNoneWithin s = s.progress ≡ 0

count_done-le : (ss : List Step) → count_done ss ≤ length ss
unfolding count_done
count_done-le [] = omega arith
count_done-le (s ∷ ss) = ground (arith, count_done-le ss)

count_done-All : (ss : List Step) → All IsDone ss → count_done ss ≡ length ss
unfolding count_done
count_done-All [] h = refl
count_done-All (s ∷ ss) (d, h) = ground (arith, count_done-All ss h)

All-count_done : (ss : List Step) → count_done ss ≡ length ss → All IsDone ss
unfolding count_done
All-count_done [] h = tt
All-count_done (s ∷ ss) h =
    let below = count_done-le ss in (ground arith, All-count_done ss (ground arith))

percent-le : (c n : ℕ) → c ≤ n → c * 100 / n ≤ 100
percent-le c n h = div-le_of_le-mul n (omega arith)

percent_full : (c n : ℕ) → 0 < n → c ≤ n → (c * 100 / n ≡ 100) ↔ (c ≡ n)
percent_full c n pos h =
    let below = percent-le c n h in
    let lower = div-lt_iff_lt-mul {k = n} {x = c * 100} {y = 100} pos in
    (λ full. ground (arith, lower.1), λ same. ground (arith, lower.0))

-- The progress of an operation is at most 100, and it is 100 exactly when the operation has a step and
-- each of its steps has succeeded or was skipped.
pub progress_of_lem :
    (ss : List Step)
    → (progress_of ss ≤ 100) × ((progress_of ss ≡ 100) ↔ ((0 < length ss) × All IsDone ss))
unfolding progress_of
progress_of_lem [] = (omega arith, (λ h. omega arith, λ h. omega arith))
progress_of_lem (s ∷ ss) =
    let below = count_done-le (s ∷ ss) in
    let full = percent_full (count_done (s ∷ ss)) (length (s ∷ ss)) (omega arith) below in
    (
      percent-le (count_done (s ∷ ss)) (length (s ∷ ss)) below,
      (
        λ h. (omega arith, All-count_done (s ∷ ss) (full.0 h)),
        λ h. full.1 (count_done-All (s ∷ ss) h.1),
      ),
    )

sum_progress_lem : (ss : List Step) → All HasNoneWithin ss → sum_progress ss ≡ count_done ss * 100
unfolding sum_progress count_done
sum_progress_lem [] h = refl
sum_progress_lem (s ∷ ss) (z, h) = ground (arith, sum_progress_lem ss h)

-- Where no step records progress of its own, the column that the statement derives is the progress that
-- the domain computes.
pub derived_progress_lem :
    (ss : List Step) → All HasNoneWithin ss → derived_progress ss ≡ progress_of ss
unfolding derived_progress progress_of
derived_progress_lem [] h = refl
derived_progress_lem (s ∷ ss) h = ap (λ n. n / length (s ∷ ss)) (sum_progress_lem (s ∷ ss) h)
