-- ===== src/Numbers.antt =====
-- backend/internal/commerce/types.go: the numbers that customers see. What `rand.Read` draws is an
-- argument, and its failure is `none`.
use vps_billing_workbuddy.Prelude.{ℕ, String, Bool, ◌&&◌, Option, none, some, ◌==◌, str_eq}
use vps_billing_workbuddy.Errors.{Result, ok, err, number_failed}
use vps_billing_workbuddy.Calendar.{Time}

-- `PREFIX-YYYYMMDD-SUFFIX`, by its parts: the date is that of `now`, the suffix the random bytes.
pub record Number : Type 0 where
  pub prefix : String
  pub year : ℕ
  pub month : ℕ
  pub day : ℕ
  pub suffix : ℕ

abbrev pub number_eq : Number → Number → Bool
number_eq a b =
    str_eq a.prefix b.prefix
    && (a.year == b.year)
    && (a.month == b.month)
    && (a.day == b.day)
    && (a.suffix == b.suffix)

-- `newNumber`
unfoldable pub new_number : String → Time → Option ℕ → Result Number
new_number prefix now none = err number_failed
new_number prefix now (some suffix) =
    ok (record {
      prefix = prefix;
      year = now.year;
      month = now.month;
      day = now.day;
      suffix = suffix;
    })
