-- ===== src/Prelude/Int64.antt =====
-- Go's int64: an integer whose arithmetic wraps around in two's complement.
use vps_billing_workbuddy.Prelude.Tests.{ltb, if◌then◌else◌}
use vps_billing_workbuddy.Prelude.Int.{ℤ, pos, negsuc, ◌+ℤ◌, ◌-ℤ◌, ◌*ℤ◌}
use Prim.Native.Nat.{ℕ, ◌+◌, ◌-◌, ◌%◌, ◌<◌}
use mathlib.Core.Path.{◌≡◌}
use native.Mathlib.Omega.{arith}

abbrev pub two63 : ℕ
two63 = 9223372036854775808

abbrev pub two64 : ℕ
two64 = 18446744073709551616

-- The 64-bit pattern of an integer.
unfoldable pub bits64 : ℤ → ℕ
bits64 (pos n) = n % two64
bits64 (negsuc n) = two64 - 1 - n % two64

-- The integer that a 64-bit pattern stands for.
unfoldable pub signed64 : ℕ → ℤ
signed64 u = if ltb u two63 then pos u else negsuc (two64 - 1 - u)

unfoldable pub wrap64 : ℤ → ℤ
unfolding bits64 signed64
wrap64 a = signed64 (bits64 a)

-- The value fits an int64: -2^63 ≤ a < 2^63.
abbrev pub Fits : ℤ → Type 0
Fits (pos n) = n < two63
Fits (negsuc n) = n < two63

infixl 65 ◌+w◌ ◌-w◌
infixl 70 ◌*w◌
unfoldable pub ◌+w◌ : ℤ → ℤ → ℤ
a +w b = wrap64 (a +ℤ b)

unfoldable pub ◌-w◌ : ℤ → ℤ → ℤ
a -w b = wrap64 (a -ℤ b)

unfoldable pub ◌*w◌ : ℤ → ℤ → ℤ
a *w b = wrap64 (a *ℤ b)

-- Where the value fits there is no wrap.
pub wrap64-Fits : (a : ℤ) → Fits a → wrap64 a ≡ a
unfolding wrap64
wrap64-Fits (pos n) h = ground arith
wrap64-Fits (negsuc n) h = ground arith

pub Fits-wrap64 : (a : ℤ) → Fits (wrap64 a)
unfolding wrap64
Fits-wrap64 (pos n) = ground arith
Fits-wrap64 (negsuc n) = ground arith

-- A wrapped value has the same 64-bit pattern.
pub bits64-wrap64 : (a : ℤ) → bits64 (wrap64 a) ≡ bits64 a
unfolding wrap64
bits64-wrap64 (pos n) = ground arith
bits64-wrap64 (negsuc n) = ground arith

pub bits64-add : (a b : ℤ) → bits64 (a +w b) ≡ (bits64 a + bits64 b) % two64
unfolding ◌+w◌ wrap64 ◌+ℤ◌
bits64-add a b = ground arith

pub bits64-sub : (a b : ℤ) → bits64 (a -w b) ≡ (bits64 a + two64 - bits64 b) % two64
unfolding ◌-w◌ wrap64 ◌-ℤ◌
bits64-sub a b = ground arith

pub bits64-lt : (a : ℤ) → bits64 a < two64
unfolding bits64
bits64-lt (pos n) = omega arith
bits64-lt (negsuc n) = omega arith

-- Values that fit are told apart by their patterns.
pub eq_of_bits64 : (a b : ℤ) → Fits a → Fits b → bits64 a ≡ bits64 b → a ≡ b
unfolding bits64
eq_of_bits64 (pos n) (pos m) h k e = ground arith
eq_of_bits64 (pos n) (negsuc m) h k e = ground arith
eq_of_bits64 (negsuc n) (pos m) h k e = ground arith
eq_of_bits64 (negsuc n) (negsuc m) h k e = ground arith

pub Fits-add : (a b : ℤ) → Fits (a +w b)
unfolding ◌+w◌
Fits-add a b = Fits-wrap64 (a +ℤ b)

pub Fits-sub : (a b : ℤ) → Fits (a -w b)
unfolding ◌-w◌
Fits-sub a b = Fits-wrap64 (a -ℤ b)

-- Adding and taking away again gives the value back, also where the sum wraps around.
pub sub-add : (a b : ℤ) → Fits a → (a +w b) -w b ≡ a
sub-add a b h =
    eq_of_bits64 ((a +w b) -w b) a (Fits-sub (a +w b) b) h
      (omega (arith, bits64-sub (a +w b) b, bits64-add a b, bits64-lt a, bits64-lt b))
