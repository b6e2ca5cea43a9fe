-- ===== src/Database/Relations.antt =====
-- Calls after which the tables stand in a relation to those before, whatever the answer: the relation
-- is reflexive and transitive, so that the calls compose.
use vps_billing_workbuddy.Prelude.{ℕ, ◌≡◌, sym, subst, inl, inr, arith}
use vps_billing_workbuddy.Errors.{Error, Result, ok, err}
use vps_billing_workbuddy.Database.Defs.{
  World, done, Action, ◌>>=◌, lift, pure, map_error, statement, fresh, if_applied,
  within_transaction,
}
use vps_billing_workbuddy.Database.Rules.{
  Outcome-cases, statement-eq-done, statement-eq-failed, within_transaction-eq-done,
  within_transaction-eq-failed,
}
use vps_billing_workbuddy.Database.Atomicity.{world_after}

module _ {D : Type 0} (R : D → D → Type 0) where
  pub record Respects {A : Type 0} (m : Action D A) : Type 0 where
    pub respects : (w : World D) → R w.db (world_after (m w)).db

  pub statement-Respects :
      {A : Type 0} (f : D → Result (A × D))
      → ((d : D) → R d d)
      → ((d d' : D) (a : A) → f d ≡ ok (a, d') → R d d')
      → Respects (statement f)
  statement-Respects f same h = record {
    respects = λ w. elim (Outcome-cases (statement f w)) [
      | inl (a, v, e) ↦ rw e (h w.db v.db a (statement-eq-done f w e).0)
      | inr (x, v, e) ↦ rw (e, statement-eq-failed f w e) (same w.db)
    ];
  }

  world_after-map_error :
      {A : Type 0} (g : Error → Error) (m : Action D A) (w : World D)
      → (world_after (map_error g m w)).db ≡ (world_after (m w)).db
  unfolding map_error
  world_after-map_error g m w = elim (Outcome-cases (m w)) [
    | inl (a, v, e) ↦ ground arith
    | inr (x, v, e) ↦ ground arith
  ]

  world_after-if_applied :
      {A : Type 0} (m : Action D A) (w : World D)
      → (world_after (if_applied m w)).db ≡ (world_after (m w)).db
  unfolding if_applied
  world_after-if_applied m w = elim (Outcome-cases (m w)) [
    | inl (a, v, e) ↦ ground arith
    | inr (x, v, e) ↦ ground arith
  ]

  pub map_error-Respects :
      {A : Type 0} (g : Error → Error) (m : Action D A) → Respects m → Respects (map_error g m)
  map_error-Respects g m h = record {
    respects = λ w. subst (R w.db) (sym (world_after-map_error g m w)) (h.respects w);
  }

  pub if_applied-Respects : {A : Type 0} (m : Action D A) → Respects m → Respects (if_applied m)
  if_applied-Respects m h = record {
    respects = λ w. subst (R w.db) (sym (world_after-if_applied m w)) (h.respects w);
  }

  module _ (same : (d : D) → R d d) where
    pub lift-Respects : {A : Type 0} (r : Result A) → Respects (lift r)
    unfolding lift
    lift-Respects (ok a) = record { respects = λ w. same w.db }
    lift-Respects (err e) = record { respects = λ w. same w.db }

    pub pure-Respects : {A : Type 0} (a : A) → Respects (pure a)
    unfolding pure
    pure-Respects a = record { respects = λ w. same w.db }

    pub fresh-Respects : (new_uuid : ℕ → ℕ) → Respects (fresh new_uuid)
    unfolding fresh
    fresh-Respects new_uuid = record { respects = λ w. same w.db }

  -- A transaction does, whose body does where it is done.
  pub within_transaction-Respects :
      {A : Type 0} (body : Action D A)
      → ((d : D) → R d d)
      → ((a : A) (v w : World D) → body v ≡ done a w → R v.db w.db)
      → Respects (within_transaction body)
  within_transaction-Respects body same h = record {
    respects = λ w. elim (Outcome-cases (within_transaction body w)) [
      | inl (a, v, e) ↦
          let (b, b', began, ran, ended) = within_transaction-eq-done body w e in
          rw (e, ended, ← began) (h a b b' ran)
      | inr (x, v, e) ↦ rw (e, within_transaction-eq-failed body w e) (same w.db)
    ];
  }

  -- What comes after may rely on the answer of what comes first.
  pub after-Respects :
      ((d e f : D) → R d e → R e f → R d f)
      → {A B : Type 0} (m : Action D A) (f : A → Action D B) → Respects m
      → ((a : A) (v w : World D) → m v ≡ done a w → Respects (f a))
      → Respects (m >>= f)
  unfolding ◌>>=◌
  after-Respects chain m f h g = record {
    respects = λ w.
        let first = h.respects w in
        elim (Outcome-cases (m w)) [
          | inl (a, v, e) ↦
              let reached = rw e at first in
              let next = (g a w v e).respects v in
              rw (◌>>=◌, e) (chain w.db v.db (world_after (f a v)).db reached next)
          | inr (x, v, e) ↦ rw (◌>>=◌, e) (rw e at first)
        ];
  }

  pub >>=-Respects :
      ((d e f : D) → R d e → R e f → R d f)
      → {A B : Type 0} (m : Action D A) (f : A → Action D B) → Respects m
      → ((a : A) → Respects (f a))
      → Respects (m >>= f)
  >>=-Respects chain m f h g = after-Respects chain m f h λ a v w e. g a
