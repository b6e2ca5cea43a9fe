-- ===== src/Database/Atomicity.antt =====
-- Calls that only read, and calls that change nothing when they fail.
use vps_billing_workbuddy.Prelude.{ℕ, ◌≡◌, refl, inl, inr, arith}
use vps_billing_workbuddy.Errors.{Error, Result, ok, err}
use vps_billing_workbuddy.Database.Defs.{
  World, Outcome, done, failed, Action, ◌>>=◌, lift, pure, throw, map_error, statement,
  within_transaction, fresh,
}
use vps_billing_workbuddy.Database.Rules.{
  Outcome-cases, statement-eq-done, statement-eq-failed, within_transaction-eq-failed,
}

module _ {D : Type 0} where
  abbrev pub world_after : {A : Type 0} → Outcome D A → World D
  world_after (done a w) = w
  world_after (failed e w) = w

  -- The call leaves the tables alone, whether it is done or fails.
  pub record Reads {A : Type 0} (m : Action D A) : Type 0 where
    pub reads : (w : World D) → (world_after (m w)).db ≡ w.db

  -- The call leaves the tables alone if it fails.
  pub record Atomic {A : Type 0} (m : Action D A) : Type 0 where
    pub atomic : (w : World D) (e : Error) (w' : World D) → m w ≡ failed e w' → w'.db ≡ w.db

  pub lift-Reads : {A : Type 0} (r : Result A) → Reads (lift {D = D} r)
  unfolding lift
  lift-Reads (ok a) = record { reads = λ w. refl }
  lift-Reads (err e) = record { reads = λ w. refl }

  pub pure-Reads : {A : Type 0} (a : A) → Reads (pure {D = D} a)
  unfolding pure
  pure-Reads a = record { reads = λ w. refl }

  pub throw-Reads : {A : Type 0} (e : Error) → Reads (throw {D = D} {A = A} e)
  unfolding throw
  throw-Reads e = record { reads = λ w. refl }

  pub fresh-Reads : (new_uuid : ℕ → ℕ) → Reads (fresh {D = D} new_uuid)
  unfolding fresh
  fresh-Reads new_uuid = record { reads = λ w. refl }

  -- A statement whose result gives the tables back reads.
  pub statement-Reads :
      {A : Type 0} (f : D → Result (A × D))
      → ((d d' : D) (a : A) → f d ≡ ok (a, d') → d' ≡ d)
      → Reads (statement f)
  statement-Reads f h = record {
    reads = λ w. elim (Outcome-cases (statement f w)) [
      | inl (a, v, e) ↦ let kept = h w.db v.db a (statement-eq-done f w e).0 in ground arith
      | inr (x, v, e) ↦ let kept = statement-eq-failed f w e in ground arith
    ];
  }

  pub map_error-Reads :
      {A : Type 0} (g : Error → Error) (m : Action D A) → Reads m → Reads (map_error g m)
  unfolding map_error
  map_error-Reads g m h = record {
    reads = λ w.
        let kept = h.reads w in
        elim (Outcome-cases (m w)) [ inl (a, v, e) ↦ ground arith | inr (x, v, e) ↦ ground arith ];
  }

  pub >>=-Reads :
      {A B : Type 0} (m : Action D A) (f : A → Action D B)
      → Reads m
      → ((a : A) → Reads (f a))
      → Reads (m >>= f)
  unfolding ◌>>=◌
  >>=-Reads m f h k = record {
    reads = λ w.
        let kept = h.reads w in
        elim (Outcome-cases (m w)) [
          | inl (a, v, e) ↦ let kept' = (k a).reads v in ground arith
          | inr (x, v, e) ↦ ground arith
        ];
  }

  pub Reads-Atomic : {A : Type 0} (m : Action D A) → Reads m → Atomic m
  Reads-Atomic m h = record { atomic = λ w e w' p. let kept = h.reads w in ground arith }

  pub within_transaction-Atomic : {A : Type 0} (m : Action D A) → Atomic (within_transaction m)
  within_transaction-Atomic m = record { atomic = λ w e w' p. within_transaction-eq-failed m w p }

  -- What is read first does not break atomicity.
  pub >>=-Atomic :
      {A B : Type 0} (m : Action D A) (f : A → Action D B)
      → Reads m
      → ((a : A) → Atomic (f a))
      → Atomic (m >>= f)
  unfolding ◌>>=◌
  >>=-Atomic m f h k = record {
    atomic = λ w e w' p.
        let kept = h.reads w in
        elim (Outcome-cases (m w)) [
          | inl (a, v, q) ↦ let kept' = (k a).atomic v e w' in ground arith
          | inr (x, v, q) ↦ ground arith
        ];
  }

  -- An answer that is made of what was done does not break it either.
  pub and_pure-Atomic :
      {A B : Type 0} (m : Action D A) (f : A → B) → Atomic m → Atomic (m >>= λ a. pure (f a))
  unfolding ◌>>=◌ pure
  and_pure-Atomic m f h = record {
    atomic = λ w e w' p. elim (Outcome-cases (m w)) [
      | inl (a, v, q) ↦ ground arith
      | inr (x, v, q) ↦ let kept = h.atomic w x v q in ground arith
    ];
  }

  pub ruleset atomicity = (
    lift-Reads, pure-Reads, throw-Reads, fresh-Reads, map_error-Reads, >>=-Reads, Reads-Atomic,
    within_transaction-Atomic, >>=-Atomic,
  )
