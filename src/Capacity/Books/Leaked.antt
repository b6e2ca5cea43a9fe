-- ===== src/Capacity/Books/Leaked.antt =====
-- What a sweep that broke off has claimed and not given back: expired receipts, by their identifiers.
use vps_billing_workbuddy.Prelude.{
  ◌≡◌, ◌≤◌, ◌+◌, ◌==◌, ◌&&◌, ◌||◌, not, refl, Bool, true, false, List, [], ◌∷◌, ◌++◌, All, inl, inr,
  Bool-cases, if◌then◌else◌, arith,
}
use vps_billing_workbuddy.Ledger.{Uuid}
use vps_billing_workbuddy.Calendar.{Time}
use vps_billing_workbuddy.Rows.{count_where, update_where, all_where}
use vps_billing_workbuddy.Rows.Updates.{All-map}
use vps_billing_workbuddy.Capacity.Sql.{
  Part, amount, Reservation, ReservationStatus, is_open, has_receipt_id, is_among, settled,
}
use vps_billing_workbuddy.Capacity.Books.{Debt, owing, owing_all, leaked, is_expired_status}

-- A receipt that is added is open, and nothing is lost of it.
pub leaked-append :
    (lost : Uuid → Bool) (p : Part) (id : Uuid) (rs : List Reservation) (r : Reservation)
    → is_expired_status r.status ≡ false
    → leaked lost (rs ++ r ∷ []) p id ≡ leaked lost rs p id
unfolding leaked
leaked-append lost p id [] r h = rw h refl
leaked-append lost p id (s ∷ ss) r h = rw (leaked-append lost p id ss r h) refl

open_unexpired : (s : ReservationStatus) → is_open s ≡ true → is_expired_status s ≡ false
open_unexpired ReservationStatus.reserved h = refl
open_unexpired ReservationStatus.committed h = cc
open_unexpired ReservationStatus.released h = cc
open_unexpired ReservationStatus.expired h = cc

-- Open receipts that are settled otherwise than by expiry leave what is lost as it is.
pub leaked-settle :
    (lost : Uuid → Bool) (test : Reservation → Bool) (status : ReservationStatus) (at : Time)
    → is_expired_status status ≡ false
    → (p : Part) (id : Uuid) (rs : List Reservation)
    → All (λ (r : Reservation). test r ≡ true → is_open r.status ≡ true) rs
    → leaked lost (update_where test (settled status at) rs) p id ≡ leaked lost rs p id
unfolding leaked update_where
leaked-settle lost test status at h p id [] o = refl
leaked-settle lost test status at h p id (r ∷ rs) (first, others) =
    let rest = leaked-settle lost test status at h p id rs others in
    elim (Bool-cases (test r)) [
      | inl hit ↦
          let unexpired = open_unexpired r.status (first hit) in rw (hit, h, unexpired, rest) refl
      | inr miss ↦ rw (miss, rest) refl
    ]

-- The last of some receipts.
pub data IsTail : List Reservation → List Reservation → Type 0 where
  whole : {rs : List Reservation} → IsTail rs rs
  shorter : {left rs : List Reservation} {r : Reservation} → IsTail left rs → IsTail left (r ∷ rs)

-- The identifier is of one of the receipts.
unfoldable pub names : List Reservation → Uuid → Bool
names [] id = false
names (r ∷ rs) id = if id == r.id then true else names rs id

is_among-names : (rs : List Reservation) (r : Reservation) → is_among rs r ≡ names rs r.id
unfolding is_among names
is_among-names [] r = refl
is_among-names (s ∷ ss) r = rw (is_among-names ss r) refl

-- What is lost once a sweep has claimed some receipts and has not given back the last of them.
abbrev pub lost_now : (Uuid → Bool) → List Reservation → List Reservation → Uuid → Bool
lost_now lost due left id = names left id || (lost id && not (names due id))

-- What some receipts promise, of those that a test of identifiers picks.
unfoldable picked : (Uuid → Bool) → List Reservation → Debt
picked g [] p id = 0
picked g (r ∷ rs) p id =
    let rest = picked g rs p id in
    if g r.id && r.node_id == id then amount p r.spec + rest else rest

leaked-expire :
    (lost : Uuid → Bool) (due left : List Reservation) (at : Time)
    → ((id : Uuid) → names due id ≡ false → names left id ≡ false)
    → (p : Part) (id : Uuid) (rs : List Reservation)
    → All (λ (r : Reservation). is_among due r ≡ true → is_open r.status ≡ true) rs
    → leaked
        (lost_now lost due left)
        (update_where (is_among due) (settled ReservationStatus.expired at) rs)
        p
        id
      ≡ picked (names left) (all_where (is_among due) rs) p id + leaked lost rs p id
unfolding leaked update_where all_where picked
leaked-expire lost due left at narrow p id [] o = omega arith
leaked-expire lost due left at narrow p id (r ∷ rs) (first, others) =
    let rest = leaked-expire lost due left at narrow p id rs others in
    let same = is_among-names due r in
    elim (Bool-cases (is_among due r)) [
      | inl hit ↦
          let named : names due r.id ≡ true = ground arith in
          let unexpired = open_unexpired r.status (first hit) in
          elim (Bool-cases (names left r.id)) [
            | inl over ↦ elim (Bool-cases (r.node_id == id)) [
              | inl here ↦ rw (hit, unexpired, over, here) (omega (arith, rest))
              | inr away ↦ rw (hit, unexpired, over, away) (omega (arith, rest))
            ]
            | inr back ↦ elim (Bool-cases (lost r.id)) [
              | inl was ↦ rw (hit, unexpired, back, named, was) (omega (arith, rest))
              | inr not_yet ↦ rw (hit, unexpired, back, named, not_yet) (omega (arith, rest))
            ]
          ]
      | inr miss ↦
          let unnamed : names due r.id ≡ false = ground arith in
          let back = narrow r.id unnamed in
          elim (Bool-cases (is_expired_status r.status && lost r.id && r.node_id == id)) [
            | inl counted ↦
                let same_count : (is_expired_status r.status
                      && lost_now lost due left r.id
                      && r.node_id == id)
                    ≡ true =
                  rw (back, unnamed) (ground arith) in
                rw (miss, same_count, counted) (omega (arith, rest))
            | inr passed ↦
                let same_count : (is_expired_status r.status
                      && lost_now lost due left r.id
                      && r.node_id == id)
                    ≡ false =
                  rw (back, unnamed) (ground arith) in
                rw (miss, same_count, passed) (omega (arith, rest))
          ]
    ]

-- The receipts have different identifiers.
abbrev IsDistinct : List Reservation → Type 0
IsDistinct [] = Unit
IsDistinct (r ∷ rs) = (names rs r.id ≡ false) × IsDistinct rs

unnamed :
    (test : Reservation → Bool) (rs : List Reservation) (id : Uuid)
    → count_where (has_receipt_id id) rs ≡ 0
    → names (all_where test rs) id ≡ false
unfolding names all_where count_where
unnamed test [] id h = refl
unnamed test (r ∷ rs) id h = ground (arith, unnamed test rs id)

all_where-IsDistinct :
    (test : Reservation → Bool) (rs : List Reservation)
    → ((id : Uuid) → count_where (has_receipt_id id) rs ≤ 1)
    → IsDistinct (all_where test rs)
unfolding all_where count_where
all_where-IsDistinct test [] one = tt
all_where-IsDistinct test (r ∷ rs) one =
    let fewer : (id : Uuid) → count_where (has_receipt_id id) rs ≤ 1 =
      λ id. let o = one id in ground arith in
    let rest = all_where-IsDistinct test rs fewer in
    elim (Bool-cases (test r)) [
      | inl hit ↦ let alone = one r.id in rw hit (unnamed test rs r.id (ground arith), rest)
      | inr miss ↦ rw miss rest
    ]

IsTail-names :
    {left rs : List Reservation}
    → IsTail left rs
    → (id : Uuid) → names rs id ≡ false
    → names left id ≡ false
unfolding names
IsTail-names whole id h = h
IsTail-names (shorter t) id h = IsTail-names t id (ground arith)

picked-All :
    (g : Uuid → Bool) (debt : Debt) (p : Part) (id : Uuid) (rs : List Reservation)
    → All (λ (r : Reservation). g r.id ≡ true) rs
    → picked g rs p id + debt p id ≡ owing_all rs debt p id
unfolding picked owing_all owing
picked-All g debt p id [] h = omega arith
picked-All g debt p id (r ∷ rs) (first, others) =
    let rest = picked-All g debt p id rs others in
    elim (Bool-cases (r.node_id == id)) [
      | inl here ↦ rw (first, here) (omega (arith, rest))
      | inr away ↦ rw (first, away) (omega (arith, rest))
    ]

names-itself : (rs : List Reservation) → All (λ (r : Reservation). names rs r.id ≡ true) rs
unfolding names
names-itself [] = tt
names-itself (r ∷ rs) = (
  ground arith,
  All-map (λ (s : Reservation). names rs s.id ≡ true)
      (λ (s : Reservation). names (r ∷ rs) s.id ≡ true) (λ s h. ground arith) rs (names-itself rs),
)

skipped :
    (debt : Debt) (p : Part) (id : Uuid) (left : List Reservation) (r : Reservation)
    (rs : List Reservation)
    → names left r.id ≡ false
    → picked (names left) rs p id + debt p id ≡ owing_all left debt p id
    → picked (names left) (r ∷ rs) p id + debt p id ≡ owing_all left debt p id
unfolding picked
skipped debt p id left r rs h e = rw h e

all_where-names :
    (due rs : List Reservation) (id : Uuid)
    → names due id ≡ false
    → names (all_where (is_among due) rs) id ≡ false
unfolding names all_where
all_where-names due [] id h = refl
all_where-names due (r ∷ rs) id h =
    let rest = all_where-names due rs id h in
    let same = is_among-names due r in
    elim (Bool-cases (is_among due r)) [
      | inr miss ↦ rw miss rest
      | inl hit ↦ rw hit (elim (Bool-cases (id == r.id)) [
        | inl this ↦ let equal : id ≡ r.id = ground arith in ground arith
        | inr other ↦ rw other rest
      ])
    ]

-- What the last of some different receipts promise.
picked-tail :
    (debt : Debt) (p : Part) (id : Uuid) (left rs : List Reservation)
    → IsTail left rs
    → IsDistinct rs
    → picked (names left) rs p id + debt p id ≡ owing_all left debt p id
picked-tail debt p id left rs whole d = picked-All (names rs) debt p id rs (names-itself rs)
picked-tail debt p id left (r ∷ rs) (shorter t) (new, d) =
    skipped debt p id left r rs (IsTail-names t r.id new) (picked-tail debt p id left rs t d)

-- A sweep that has claimed the receipts that are due and has not given back the last of them.
pub leaked-left :
    (lost : Uuid → Bool) (due left : List Reservation) (at : Time) (rs : List Reservation)
    → ((id : Uuid) → count_where (has_receipt_id id) rs ≤ 1)
    → All (λ (r : Reservation). is_among due r ≡ true → is_open r.status ≡ true) rs
    → IsTail left (all_where (is_among due) rs)
    → (p : Part) (id : Uuid)
    → owing_all left (leaked lost rs) p id
      ≡ leaked
          (lost_now lost due left)
          (update_where (is_among due) (settled ReservationStatus.expired at) rs)
          p
          id
leaked-left lost due left at rs keys opened t p id =
    let expired =
      leaked-expire lost due left at (λ id h. IsTail-names t id (all_where-names due rs id h)) p id
        rs opened in
    let sum =
      picked-tail (leaked lost rs) p id left (all_where (is_among due) rs) t
        (all_where-IsDistinct (is_among due) rs keys) in
    omega (arith, expired, sum)
