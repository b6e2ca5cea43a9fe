-- ===== src/Commerce/Sweep/Counts.antt =====
-- The counts that a sweep reports (commerce/subscription_service.go `Sweep`).
use vps_billing_workbuddy.Prelude.{
  ℕ, suc, ◌+◌, ◌≡◌, refl, sym, ap, ◌∙◌, Option, List, [], ◌∷◌, length, map, arith,
}
use vps_billing_workbuddy.Database.{World, done, >>=-eq-done}
use vps_billing_workbuddy.Ledger.{Uuid}
use vps_billing_workbuddy.Calendar.{Time}
use vps_billing_workbuddy.Commerce.Types.{Plan, Subscription}
use vps_billing_workbuddy.Commerce.Tables.{Tables}
use vps_billing_workbuddy.Commerce.Store.Effects.{pure-eq-done}
use vps_billing_workbuddy.Commerce.Renewal.{SweepSubscription}
use vps_billing_workbuddy.Commerce.Sweep.{
  SweepOutcome, SweepResult, count_outcome, to_sweep, sweep_rows, sweep, swept,
}

-- The sum of the counts by outcome.
abbrev pub counted : SweepResult → ℕ
counted r =
    r.renewed_count + r.cancelled_count + r.past_due_count + r.suspended_count + r.expired_count
    + r.skipped_count

counted-count_outcome :
    (o : SweepOutcome) (r : SweepResult)
    → (counted (count_outcome o r) ≡ counted r + 1) × ((count_outcome o r).scanned ≡ r.scanned)
unfolding count_outcome
counted-count_outcome SweepOutcome.skipped r = (omega arith, refl)
counted-count_outcome SweepOutcome.renewed r = (omega arith, refl)
counted-count_outcome SweepOutcome.cancelled r = (omega arith, refl)
counted-count_outcome SweepOutcome.past_due r = (omega arith, refl)
counted-count_outcome SweepOutcome.suspended r = (omega arith, refl)
counted-count_outcome SweepOutcome.expired r = (omega arith, refl)

length-to_sweep : (rows : List (Subscription × Plan)) → length (map to_sweep rows) ≡ length rows
length-to_sweep [] = refl
length-to_sweep (x ∷ xs) = ap suc (length-to_sweep xs)

module _ (new_uuid : ℕ → Uuid) (now : Time) where
  sweep_rows_lem :
      (rows : List SweepSubscription) (random : ℕ → Option ℕ) (r : SweepResult) (w : World Tables)
      {r' : SweepResult} {w' : World Tables}
      → sweep_rows new_uuid now rows random r w ≡ done r' w'
      → (counted r' ≡ counted r + length rows) × (r'.scanned ≡ r.scanned)
  unfolding sweep_rows
  sweep_rows_lem [] random r w h =
      let same = (pure-eq-done r w h).0 in
      (ap counted (sym same) ∙ omega arith, ap SweepResult.scanned (sym same))
  sweep_rows_lem (row ∷ rows) random r w h =
      let (o, v, one, rest) = >>=-eq-done _ _ w h in
      let (total, kept) = sweep_rows_lem rows (λ n. random (n + 1)) (count_outcome o r) v rest in
      let (step, same) = counted-count_outcome o r in (omega (arith, total, step), kept ∙ same)

  -- A sweep that is done has counted every subscription it scanned under exactly one outcome.
  pub counted-sweep :
      (random : ℕ → Option ℕ) (w : World Tables) (r : SweepResult) (w' : World Tables)
      → sweep new_uuid now random w ≡ done r w'
      → counted r ≡ r.scanned
  unfolding sweep
  counted-sweep random w r w' h =
      let (rows, v, read, rest) = >>=-eq-done _ _ w h in
      let (total, kept) =
        sweep_rows_lem (map to_sweep rows) random (swept new_uuid now (length rows)) v rest in
      let listed = length-to_sweep rows in omega (arith, total, listed, kept)
