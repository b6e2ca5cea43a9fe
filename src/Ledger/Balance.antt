-- ===== src/Ledger/Balance.antt =====
-- What ledger.go's `Verify` accepts, against sums over the entries.
use vps_billing_workbuddy.Prelude.{
  ℕ, ◌≤◌, ◌<◌, ◌+◌, ◌%◌, ◌≡◌, refl, subst, ap, ◌↔◌, ◌≢◌, ◌⊎◌, String, Bool, true, false, not, ◌&&◌,
  ◌||◌, List, [], ◌∷◌, length, ltb, str_eq, str_eq_iff, if◌then◌else◌, All, arith,
}
use vps_billing_workbuddy.Prelude.Int.{ℤ, pos, negsuc, ==ℤ_iff, pos_part, ◌≤ℤ◌}
use vps_billing_workbuddy.Prelude.Int64.{
  bits64, two64, bits64-add, Fits, Fits-add, eq_of_bits64, bits64-lt,
}
use vps_billing_workbuddy.Money.{Currency, is_negative}
use vps_billing_workbuddy.Errors.{
  ok, >>=-eq-ok, refuse_if-eq-ok, refuse_if, single_sided, unbalanced, ◌>>=◌,
}
use vps_billing_workbuddy.Ledger.{
  uuid_nil, contains, known_account_types, direction_debit, direction_credit, Entry, Totals,
  no_totals, add_entry, accumulate, check_entry, sum_entries, all_balanced, verify_entries,
}

-- The entry names a known account, stands on one side, and is a magnitude in a currency.
abbrev pub IsWellFormed : Entry → Type 0
IsWellFormed e =
    (contains known_account_types e.account_type ≡ true)
    × (e.account_id ≢ uuid_nil)
    × ((e.direction ≡ direction_debit) ⊎ (e.direction ≡ direction_credit))
    × (pos 0 ≤ℤ e.amount.amount_minor)
    × (e.amount.currency ≢ "")

-- The sum of one side in one currency, as a number that does not wrap.
abbrev pub side_sum : String → Currency → List Entry → ℕ
side_sum d c [] = 0
side_sum d c (e ∷ es) =
    (if str_eq e.direction d && str_eq e.amount.currency c
      then pos_part e.amount.amount_minor
      else 0)
    + side_sum d c es

check_entry-IsWellFormed : (e : Entry) → check_entry e ≡ ok tt → IsWellFormed e
unfolding check_entry is_negative
check_entry-IsWellFormed e h = ground (
  arith,
  str_eq_iff e.direction direction_debit,
  str_eq_iff e.direction direction_credit,
  str_eq_iff e.amount.currency "",
)

check_entry_ok : (e : Entry) → IsWellFormed e → check_entry e ≡ ok tt
unfolding check_entry is_negative
check_entry_ok e h = ground (
  arith,
  str_eq_iff e.direction direction_debit,
  str_eq_iff e.direction direction_credit,
  str_eq_iff e.amount.currency "",
)

total_of : Currency → List (Currency × Totals) → Totals
total_of c [] = no_totals
total_of c ((k, t) ∷ m) = if str_eq k c then t else total_of c m

total_of-accumulate :
    (c d : Currency) (f : Totals → Totals) (m : List (Currency × Totals))
    → total_of d (accumulate c f m) ≡ (if str_eq c d then f (total_of c m) else total_of d m)
unfolding total_of accumulate
total_of-accumulate c d f [] = ground arith
total_of-accumulate c d f ((k, t) ∷ m) =
    ground (arith, str_eq_iff c d, str_eq_iff k c, str_eq_iff k d, total_of-accumulate c d f m)

-- The currencies of the map are distinct.
abbrev has_key : Currency → List (Currency × Totals) → Bool
has_key c [] = false
has_key c ((k, t) ∷ m) = str_eq k c || has_key c m

abbrev IsKeyed : List (Currency × Totals) → Type 0
IsKeyed [] = Unit
IsKeyed ((k, t) ∷ m) = (has_key k m ≡ false) × IsKeyed m

has_key-accumulate :
    (c d : Currency) (f : Totals → Totals) (m : List (Currency × Totals))
    → has_key d (accumulate c f m) ≡ (str_eq c d || has_key d m)
unfolding accumulate
has_key-accumulate c d f [] = ground arith
has_key-accumulate c d f ((k, t) ∷ m) =
    ground (arith, str_eq_iff c d, str_eq_iff k c, str_eq_iff k d, has_key-accumulate c d f m)

accumulate-IsKeyed :
    (c : Currency) (f : Totals → Totals) (m : List (Currency × Totals))
    → IsKeyed m
    → IsKeyed (accumulate c f m)
unfolding accumulate
accumulate-IsKeyed c f [] h = (refl, tt)
accumulate-IsKeyed c f ((k, t) ∷ m) h = ground (
  arith,
  str_eq_iff c k,
  str_eq_iff k c,
  has_key-accumulate c k f m,
  accumulate-IsKeyed c f m h.1,
)

total_of_absent :
    (c : Currency) (m : List (Currency × Totals)) → has_key c m ≡ false → total_of c m ≡ no_totals
unfolding total_of
total_of_absent c [] h = refl
total_of_absent c ((k, t) ∷ m) h = ground (arith, total_of_absent c m)

abbrev IsEven : Totals → Type 0
IsEven t = t.debit ≡ t.credit

all_balanced_sound :
    (c : Currency) (m : List (Currency × Totals)) → all_balanced m ≡ true → IsEven (total_of c m)
unfolding all_balanced total_of
all_balanced_sound c [] h = refl
all_balanced_sound c ((k, t) ∷ m) h =
    ground (arith, ==ℤ_iff t.debit t.credit, all_balanced_sound c m)

total_of_tail :
    (c k : Currency) (t : Totals) (m : List (Currency × Totals))
    → has_key k m ≡ false
    → IsEven (total_of c ((k, t) ∷ m))
    → IsEven (total_of c m)
unfolding total_of
total_of_tail c k t m a h = ground (arith, str_eq_iff k c, total_of_absent k m)

total_of_head :
    (k : Currency) (t : Totals) (m : List (Currency × Totals)) → total_of k ((k, t) ∷ m) ≡ t
unfolding total_of
total_of_head k t m = ground (arith, str_eq_iff k k)

all_balanced_complete :
    (m : List (Currency × Totals))
    → IsKeyed m
    → ((c : Currency) → IsEven (total_of c m))
    → all_balanced m ≡ true
unfolding all_balanced
all_balanced_complete [] k h = refl
all_balanced_complete ((c, t) ∷ m) k h = ground (
  arith,
  ==ℤ_iff t.debit t.credit,
  h c,
  total_of_head c t m,
  all_balanced_complete m k.1 (λ d. total_of_tail d c t m k.0 (h d)),
)

-- What one entry adds to a side.
abbrev share : String → Entry → ℕ
share d e = if str_eq e.direction d then pos_part e.amount.amount_minor else 0

bits64-pos : (a : ℤ) → pos 0 ≤ℤ a → bits64 a ≡ pos_part a % two64
unfolding bits64
bits64-pos (pos n) h = refl
bits64-pos (negsuc n) h = absurd (omega arith)

debit_not_credit : (d : String) → d ≡ direction_debit → str_eq d direction_credit ≡ false
debit_not_credit d h = rw h refl

add_entry-bits :
    (e : Entry) (t : Totals)
    → IsWellFormed e
    → (bits64 (add_entry e t).debit ≡ (bits64 t.debit + share direction_debit e) % two64)
      × (bits64 (add_entry e t).credit ≡ (bits64 t.credit + share direction_credit e) % two64)
unfolding add_entry
add_entry-bits e t h = ground (
  arith,
  debit_not_credit e.direction,
  str_eq_iff e.direction direction_debit,
  str_eq_iff e.direction direction_credit,
  bits64-add t.debit e.amount.amount_minor,
  bits64-add t.credit e.amount.amount_minor,
  bits64-lt t.debit,
  bits64-lt t.credit,
  bits64-pos e.amount.amount_minor,
)

abbrev TotalsFit : Totals → Type 0
TotalsFit t = Fits t.debit × Fits t.credit

add_entry-TotalsFit : (e : Entry) (t : Totals) → TotalsFit t → TotalsFit (add_entry e t)
unfolding add_entry
add_entry-TotalsFit e t h =
    ground (arith, Fits-add t.debit e.amount.amount_minor, Fits-add t.credit e.amount.amount_minor)

-- The map `m'` holds, for every currency, what `m` holds and the entries' sums on top, mod 2^64.
abbrev Adds : List Entry → List (Currency × Totals) → List (Currency × Totals) → Type 0
Adds es m m' =
    (c : Currency)
    → (bits64 (total_of c m').debit
        ≡ (bits64 (total_of c m).debit + side_sum direction_debit c es) % two64)
      × (bits64 (total_of c m').credit
          ≡ (bits64 (total_of c m).credit + side_sum direction_credit c es) % two64)

accumulate-Adds :
    (e : Entry) (m : List (Currency × Totals))
    → IsWellFormed e
    → Adds (e ∷ []) m (accumulate e.amount.currency (add_entry e) m)
accumulate-Adds e m h c = rw (total_of-accumulate e.amount.currency c (add_entry e) m) (
    ground (
      arith,
      str_eq_iff e.amount.currency c,
      add_entry-bits e (total_of c m) h,
      bits64-lt (total_of c m).debit,
      bits64-lt (total_of c m).credit,
    ))

abbrev MapFits : List (Currency × Totals) → Type 0
MapFits m = (c : Currency) → TotalsFit (total_of c m)

accumulate-MapFits :
    (e : Entry) (m : List (Currency × Totals))
    → MapFits m
    → MapFits (accumulate e.amount.currency (add_entry e) m)
accumulate-MapFits e m h c = rw (total_of-accumulate e.amount.currency c (add_entry e) m) (
    ground (arith, h c, add_entry-TotalsFit e (total_of e.amount.currency m) (h e.amount.currency)))

abbrev Summed : List Entry → List (Currency × Totals) → List (Currency × Totals) → Type 0
Summed es m m' = All IsWellFormed es × Adds es m m' × IsKeyed m' × MapFits m'

Adds-cons :
    (e : Entry) (es : List Entry) (m n m' : List (Currency × Totals))
    → Adds (e ∷ []) m n
    → Adds es n m'
    → Adds (e ∷ es) m m'
Adds-cons e es m n m' h k c = let h0 = h c in let k0 = k c in omega arith

ok-injective : {m n : List (Currency × Totals)} → ok m ≡ ok n → m ≡ n
ok-injective h = cc

-- The loop returns the sums of well-formed entries.
sum_entries-Summed :
    (es : List Entry) (m m' : List (Currency × Totals))
    → IsKeyed m
    → MapFits m
    → sum_entries es m ≡ ok m'
    → Summed es m m'
unfolding sum_entries
sum_entries-Summed [] m m' k f h =
    subst (Summed [] m) (ok-injective h) (
      tt,
      λ c. omega (arith, bits64-lt (total_of c m).debit, bits64-lt (total_of c m).credit),
      k,
      f,
    )
sum_entries-Summed (e ∷ es) m m' k f h =
    let (u, checked, rest) =
      >>=-eq-ok (check_entry e) (λ _. sum_entries es (accumulate e.amount.currency (add_entry e) m))
        h in
    let wf = check_entry-IsWellFormed e checked in
    let (all, adds, keyed, fits) =
      sum_entries-Summed es (accumulate e.amount.currency (add_entry e) m) m'
        (accumulate-IsKeyed e.amount.currency (add_entry e) m k) (accumulate-MapFits e m f) rest in
    (
      (wf, all),
      Adds-cons e es m (accumulate e.amount.currency (add_entry e) m) m' (accumulate-Adds e m wf)
          adds,
      keyed,
      fits,
    )

-- It returns for every list of them.
sum_entries_total :
    (es : List Entry) (m : List (Currency × Totals))
    → All IsWellFormed es
    → (m' : List (Currency × Totals)) × (sum_entries es m ≡ ok m')
unfolding sum_entries
sum_entries_total [] m h = (m, refl)
sum_entries_total (e ∷ es) m h =
    let (m', done) = sum_entries_total es (accumulate e.amount.currency (add_entry e) m) h.1 in
    (m', rw (check_entry_ok e h.0) done)

empty_fits : MapFits []
unfolding total_of
empty_fits c = (omega arith, omega arith)

empty_bits :
    (c : Currency) → (bits64 (total_of c []).debit ≡ 0) × (bits64 (total_of c []).credit ≡ 0)
unfolding total_of bits64
empty_bits c = (refl, refl)

-- In the sums of entries a currency is even exactly when its sides agree modulo 2^64.
Summed-IsEven :
    (es : List Entry) (m' : List (Currency × Totals)) (c : Currency)
    → Summed es [] m'
    → IsEven (total_of c m')
      ↔ (side_sum direction_debit c es % two64 ≡ side_sum direction_credit c es % two64)
Summed-IsEven es m' c s =
    let adds = s.1 c in
    let fits = s.3 c in
    let zeros = empty_bits c in
    (
      λ e. omega (arith, ap bits64 e),
      λ e. eq_of_bits64 (total_of c m').debit (total_of c m').credit fits.0 fits.1 (omega arith),
    )

abbrev pub AgreesModulo : List Entry → Type 0
AgreesModulo es =
    (c : Currency) → side_sum direction_debit c es % two64 ≡ side_sum direction_credit c es % two64

accepted :
    (es : List Entry)
    → verify_entries es ≡ ok tt
    → (2 ≤ length es) × All IsWellFormed es × AgreesModulo es
unfolding verify_entries
accepted es h =
    let (u, two, rest) =
      >>=-eq-ok (refuse_if (ltb (length es) 2) single_sided)
        (λ _. sum_entries es [] >>= λ m. refuse_if (not (all_balanced m)) unbalanced) h in
    let (m', summed, even) =
      >>=-eq-ok (sum_entries es []) (λ m. refuse_if (not (all_balanced m)) unbalanced) rest in
    let sums = sum_entries-Summed es [] m' tt empty_fits summed in
    let all : all_balanced m' ≡ true =
      ground (arith, refuse_if-eq-ok (not (all_balanced m')) unbalanced even) in
    (ground arith, sums.0, λ c. (Summed-IsEven es m' c sums).0 (all_balanced_sound c m' all))

accepts :
    (es : List Entry)
    → (2 ≤ length es) × All IsWellFormed es × AgreesModulo es
    → verify_entries es ≡ ok tt
unfolding verify_entries
accepts es (two, all, agree) =
    let (m', summed) = sum_entries_total es [] all in
    let sums = sum_entries-Summed es [] m' tt empty_fits summed in
    let even = all_balanced_complete m' sums.2 (λ c. (Summed-IsEven es m' c sums).1 (agree c)) in
    ground arith

-- `Verify` accepts exactly the sets of two or more well-formed entries whose debits and credits
-- agree modulo 2^64 in every currency.
pub verify_entries_iff :
    (es : List Entry)
    → (verify_entries es ≡ ok tt) ↔ ((2 ≤ length es) × All IsWellFormed es × AgreesModulo es)
unfolding verify_entries
verify_entries_iff es = (accepted es, accepts es)

-- Where no currency's debits or credits reach 2^64, `Verify` accepts exactly the sets of two or more
-- well-formed entries whose debits equal their credits in every currency.
pub verify_entries_exact :
    (es : List Entry)
    → ((c : Currency)
        → (side_sum direction_debit c es < two64) × (side_sum direction_credit c es < two64))
    → (verify_entries es ≡ ok tt) ↔ (
        (2 ≤ length es)
        × All IsWellFormed es
        × ((c : Currency) → side_sum direction_debit c es ≡ side_sum direction_credit c es))
verify_entries_exact es small = (
  λ h.
      let v = (verify_entries_iff es).0 h in
      (v.0, v.1, λ c. let s = small c in let e = v.2 c in omega arith),
  λ h. (verify_entries_iff es).1 (h.0, h.1, λ c. let e = h.2 c in omega arith),
)
