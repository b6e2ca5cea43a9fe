-- ===== src/Identity/Totp.antt =====
-- identity/totp.go: the check of a second factor.
use vps_billing_workbuddy.Prelude.{
  ℕ, ◌+◌, ◌-◌, ◌/◌, ◌%◌, ◌^◌, String, Bool, false, ◌&&◌, ◌||◌, Option, none, some, List, [], ◌∷◌,
  ltb, ◌==◌, str_eq, codes, if◌then◌else◌,
}
use vps_billing_workbuddy.Calendar.{Time, instant}
use vps_billing_workbuddy.Identity.Types.{Env}

-- `len` counts the bytes of UTF-8.
abbrev bytes_of : ℕ → ℕ
bytes_of c = if ltb c 128 then 1 else if ltb c 2048 then 2 else if ltb c 65536 then 3 else 4

unfoldable pub byte_length : List ℕ → ℕ
byte_length [] = 0
byte_length (c ∷ cs) = bytes_of c + byte_length cs

abbrev epoch : Time
epoch = record { year = 1970; month = 1; day = 1; nanos = 0 }

-- `now.Unix()`, of a time that is not before 1970.
unfoldable pub unix : Time → ℕ
unix t = (instant t - instant epoch) / 1_000_000_000

abbrev pub totp_step : ℕ
totp_step = 30

abbrev pub totp_digits : ℕ
totp_digits = 6

abbrev pub drifts : List ℕ
drifts = 0 ∷ 1 ∷ (2 ^ 64 - 1) ∷ []

module _ {K : Type 0} (env : Env K) where
  -- The loop over the steps, on a counter of 64 bits.
  unfoldable pub matches_some : K → String → ℕ → List ℕ → Bool
  matches_some key code counter [] = false
  matches_some key code counter (drift ∷ rest) =
      str_eq (env.hotp key ((counter + drift) % (2 ^ 64))) code
      || matches_some key code counter rest

  abbrev matches_key : Option K → String → ℕ → Bool
  matches_key none code counter = false
  matches_key (some key) code counter = matches_some key code counter drifts

  -- `VerifyTOTP`
  unfoldable pub verify_totp : String → String → Time → Bool
  unfolding byte_length unix matches_some
  verify_totp secret code now =
      (byte_length (codes code) == totp_digits)
      && matches_key (env.decode_secret secret) code ((unix now / totp_step) % (2 ^ 64))
