-- ===== src/Identity/Sessions.antt =====
-- The sessions of identity/session.go, and their store over Redis (redisx/session.go). A command of
-- Redis is a statement: it may fail, and then changes nothing.
use vps_billing_workbuddy.Prelude.{
  ℕ, ◌+◌, ◌*◌, String, Bool, false, not, ◌&&◌, ◌||◌, Option, none, some, List, [], ◌∷◌, ◌==◌,
  str_eq, if◌then◌else◌,
}
use vps_billing_workbuddy.Errors.{
  Result, ok, err, refuse_if, session_not_found, no_subject_id, session_already_expired,
}
use vps_billing_workbuddy.Database.{Outcome, done, failed, ◌>>=◌, ◌>>◌, lift, pure, statement}
use vps_billing_workbuddy.Ledger.{Uuid}
use vps_billing_workbuddy.Calendar.{Time, after, add_duration}
use vps_billing_workbuddy.Rows.{first_where, all_where, update_where, count_where}
use vps_billing_workbuddy.Identity.Types.{
  Subject, same_subject, Session, Entry, Index, Tables, Call, Env,
}

abbrev day : ℕ
day = 24 * 3600 * 1_000_000_000

-- `SessionTTL`
abbrev pub session_ttl : Subject → ℕ
session_ttl Subject.user = 30 * day
session_ttl Subject.admin = day

abbrev pub is_expired : Session → Time → Bool
is_expired s now = not (after s.expires_at now)

-- The commands of Redis: a key that is past its deadline is not there.
abbrev pub is_entry : Subject → String → Entry → Bool
is_entry subject id e = same_subject e.subject subject && str_eq e.id id

abbrev pub is_live_entry : Subject → String → Time → Entry → Bool
is_live_entry subject id now e = is_entry subject id e && after e.deadline now

unfoldable pub set_entry : Entry → Tables → Result (Unit {0} × Tables)
set_entry e t = ok (
  tt,
  record t { entries = e ∷ all_where (λ (o : Entry). not (is_entry e.subject e.id o)) t.entries },
)

abbrev found_entry : Option Entry → Tables → Result (String × Tables)
found_entry none t = err session_not_found
found_entry (some e) t = ok (e.value, t)

unfoldable pub get_entry : Subject → String → Time → Tables → Result (String × Tables)
get_entry subject id now t = found_entry (first_where (is_live_entry subject id now) t.entries) t

unfoldable pub delete_entry : Subject → String → Tables → Result (Unit {0} × Tables)
delete_entry subject id t =
    ok (tt, record t { entries = all_where (λ (e : Entry). not (is_entry subject id e)) t.entries })

abbrev has_passed : Time → Option Time → Bool
has_passed now none = false
has_passed now (some deadline) = not (after deadline now)

abbrev pub is_index : Subject → Uuid → Index → Bool
is_index subject subject_id i = same_subject i.subject subject && i.subject_id == subject_id

abbrev live_indexes : Time → List Index → List Index
live_indexes now is = all_where (λ (i : Index). not (has_passed now i.deadline)) is

abbrev pub is_id : String → String → Bool
is_id id other = str_eq other id

abbrev with_id : String → Index → Index
with_id id i = record i { ids = if count_where (is_id id) i.ids == 0 then id ∷ i.ids else i.ids }

abbrev new_index : Subject → Uuid → String → Index
new_index subject subject_id id = record {
  subject = subject;
  subject_id = subject_id;
  ids = id ∷ [];
  deadline = none;
}

unfoldable pub add_to_index : Subject → Uuid → String → Time → Tables → Result (Unit {0} × Tables)
add_to_index subject subject_id id now t =
    let live = live_indexes now t.indexes in
    let test = is_index subject subject_id in
    ok (
      tt,
      record t {
        indexes =
            if count_where test live == 0
            then new_index subject subject_id id ∷ live
            else update_where test (with_id id) live;
      },
    )

abbrev with_deadline : Time → Index → Index
with_deadline deadline i = record i { deadline = some deadline }

unfoldable pub expire_index : Subject → Uuid → Time → Time → Tables → Result (Unit {0} × Tables)
expire_index subject subject_id deadline now t = ok (
  tt,
  record t {
    indexes =
        update_where (is_index subject subject_id) (with_deadline deadline)
          (live_indexes now t.indexes);
  },
)

abbrev without_id : String → Index → Index
without_id id i = record i { ids = all_where (λ (o : String). not (is_id id o)) i.ids }

unfoldable pub remove_from_index :
    Subject → Uuid → String → Time → Tables → Result (Unit {0} × Tables)
remove_from_index subject subject_id id now t = ok (
  tt,
  record t {
    indexes =
        update_where (is_index subject subject_id) (without_id id) (live_indexes now t.indexes);
  },
)

abbrev ids_of : Option Index → List String
ids_of none = []
ids_of (some i) = i.ids

unfoldable pub index_members : Subject → Uuid → Time → Tables → Result (List String × Tables)
index_members subject subject_id now t =
    ok (ids_of (first_where (is_index subject subject_id) (live_indexes now t.indexes)), t)

abbrev pub is_among_ids : List String → String → Bool
is_among_ids ids id = not (count_where (is_id id) ids == 0)

-- DEL of the records and of the index, in one command.
unfoldable pub delete_keys : Subject → Uuid → List String → Tables → Result (Unit {0} × Tables)
delete_keys subject subject_id ids t = ok (
  tt,
  record t {
    entries =
        all_where (λ (e : Entry). not (same_subject e.subject subject && is_among_ids ids e.id))
          t.entries;
    indexes = all_where (λ (i : Index). not (is_index subject subject_id i)) t.indexes;
  },
)

module _ {K : Type 0} (env : Env K) where
  -- `newOpaqueToken`
  unfoldable pub new_opaque_token : Call String
  new_opaque_token w = done (env.token w.drawn) (record w { drawn = w.drawn + 1 })

  -- `NewSession`; the zero identifier is no subject.
  unfoldable pub new_session : Subject → Uuid → Time → Call Session
  unfolding new_opaque_token
  new_session subject subject_id now = do
    lift (refuse_if (subject_id == 0) no_subject_id)
    id ← new_opaque_token
    csrf_secret ← new_opaque_token
    pure (record {
      id = id;
      subject = subject;
      subject_id = subject_id;
      issued_at = now;
      expires_at = add_duration now (session_ttl subject);
      csrf_secret = csrf_secret;
    })

  abbrev pub entry_of : Session → Entry
  entry_of s = record {
    subject = s.subject;
    id = s.id;
    value = env.encode_session s;
    deadline = s.expires_at;
  }

  -- `SessionStore.Create`
  unfoldable pub create_session : Session → Time → Call (Unit {0})
  create_session s now = do
    lift (refuse_if (is_expired s now) session_already_expired)
    statement (set_entry (entry_of s))
    statement (add_to_index s.subject s.subject_id s.id now)
    statement (expire_index s.subject s.subject_id s.expires_at now)

  -- A record that does not decode, or is another subject's or expired, is no session.
  abbrev pub decoded : Subject → Time → Option Session → Result Session
  decoded subject now none = err session_not_found
  decoded subject now (some s) =
      if not (same_subject s.subject subject) || is_expired s now
      then err session_not_found
      else ok s

  -- `SessionStore.Get`
  unfoldable pub get_session : Subject → String → Time → Call Session
  get_session subject id now = do
    lift (refuse_if (str_eq id "") session_not_found)
    raw ← statement (get_entry subject id now)
    lift (decoded subject now (env.decode_session raw))

  abbrev delete_found : Subject → String → Time → Session → Call (Unit {0})
  delete_found subject id now s = do
    statement (delete_entry subject id)
    statement (remove_from_index subject s.subject_id id now)

  -- `SessionStore.Delete`: a session that is not there is deleted.
  abbrev or_gone : Outcome Tables Session → (Session → Call (Unit {0})) → Outcome Tables (Unit {0})
  or_gone (done s w) next = next s w
  or_gone (failed session_not_found w) next = done tt w
  or_gone (failed e w) next = failed e w

  unfoldable pub delete_session : Subject → String → Time → Call (Unit {0})
  unfolding get_session
  delete_session subject id now w =
      or_gone (get_session subject id now w) (delete_found subject id now)

  -- `SessionStore.DeleteForSubject`
  unfoldable pub delete_for_subject : Subject → Uuid → Time → Call (Unit {0})
  delete_for_subject subject subject_id now = do
    ids ← statement (index_members subject subject_id now)
    statement (delete_keys subject subject_id ids)
