-- ===== src/Machine.antt =====
-- Lives of a status in a machine that a table of moves describes: the shared part of the machines of
-- backend/internal/commerce and backend/internal/operation.
use vps_billing_workbuddy.Prelude.{◌≡◌, refl, Bool, true, false}

-- A life in a machine: moves that it allows, one after the other.
pub data Moves {A : Type 0} (can : A → A → Bool) (s : A) : A → Type 0 where
  here : Moves can s s
  then : {t u : A} → Moves can s t → can t u ≡ true → Moves can s u

-- Where every move keeps a test true, every life keeps it true.
pub Moves-keep :
    {A : Type 0} (can : A → A → Bool) (test : A → Bool)
    → ((t u : A) → can t u ≡ true → test t ≡ true → test u ≡ true)
    → {s t : A} → Moves can s t
    → test s ≡ true
    → test t ≡ true
Moves-keep can test step here h = h
Moves-keep can test step (then {t = t} {u = u} m c) h = step t u c (Moves-keep can test step m h)

pub Moves-trans :
    {A : Type 0} {can : A → A → Bool} {s t u : A} → Moves can s t → Moves can t u → Moves can s u
Moves-trans m here = m
Moves-trans m (then n c) = then (Moves-trans m n) c

-- Where no move leads out of the states of a test, a life that reaches one of them ends there.
pub Moves-stay :
    {A : Type 0} (can : A → A → Bool) (test : A → Bool)
    → ((t u : A) → test t ≡ true → can t u ≡ false)
    → {s t : A} → Moves can s t
    → test s ≡ true
    → t ≡ s
Moves-stay can test shut here h = refl
Moves-stay can test shut {s} (then {t = t} {u = u} m c) h =
    let same = Moves-stay can test shut m h in
    let closed : can t u ≡ false = rw same (shut s u h) in cc
