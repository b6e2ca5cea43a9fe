-- ===== src/Operation/Backoff.antt =====
-- The back-off between attempts against its closed form (operation/operation.go `BackoffFor`).
use vps_billing_workbuddy.Prelude.{
  ℕ, zero, suc, ◌-◌, ◌*◌, ◌^◌, ◌≤◌, ◌<◌, ◌≡◌, ap, sym, ◌∙◌, leb, inl, inr, Bool-cases,
  if◌then◌else◌, arith,
}
use native.Mathlib.Nat.{pow-succ', mul_assoc}
use vps_billing_workbuddy.Operation.{backoff_base, backoff_cap, double, backoff_for}

-- The smaller of a delay and the cap.
abbrev pub capped : ℕ → ℕ
capped n = if leb backoff_cap n then backoff_cap else n

pow_pos : (n : ℕ) → 1 ≤ 2 ^ n
pow_pos zero = omega arith
pow_pos (suc n) = omega (arith, pow_pos n)

regroup : (d n : ℕ) → d * 2 ^ suc n ≡ d * 2 * 2 ^ n
regroup d n = ap (λ m. d * m) (pow-succ' 2 n) ∙ sym (mul_assoc d 2 (2 ^ n))

grows : (d n : ℕ) → d ≤ d * 2 ^ n
grows d zero = omega arith
grows d (suc n) = omega (arith, grows d n, regroup d n)

double_lem : (n d : ℕ) → d < backoff_cap → double n d ≡ capped (d * 2 ^ n)
unfolding double
double_lem zero d h = ground arith
double_lem (suc n) d h = elim (Bool-cases (leb backoff_cap (d * 2))) [
  | inl reached ↦ let more = grows (d * 2) n in let step = regroup d n in ground arith
  | inr below ↦
      let rest = double_lem n (d * 2) (ground arith) in let step = regroup d n in ground arith
]

capped_bounds :
    (n : ℕ)
    → (backoff_base ≤ capped (backoff_base * 2 ^ n)) × (capped (backoff_base * 2 ^ n) ≤ backoff_cap)
capped_bounds n = let more = grows backoff_base n in (ground arith, ground arith)

-- The delay after an attempt is two seconds, doubled once for every attempt before it, or one minute
-- where that is more; it never lies outside these two.
pub backoff_for_lem :
    (attempt : ℕ)
    → (backoff_for attempt ≡ capped (backoff_base * 2 ^ (attempt - 1)))
      × (backoff_base ≤ backoff_for attempt)
      × (backoff_for attempt ≤ backoff_cap)
unfolding backoff_for
backoff_for_lem attempt =
    let closed = double_lem (attempt - 1) backoff_base (omega arith) in
    let bounds = capped_bounds (attempt - 1) in (closed, rw closed bounds.0, rw closed bounds.1)
