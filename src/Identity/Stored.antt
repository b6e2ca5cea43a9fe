-- ===== src/Identity/Stored.antt =====
-- The store of sessions: what a session that is made, stored and read is.
use vps_billing_workbuddy.Prelude.{
  String, ◌≡◌, refl, sym, ap, ◌∙◌, Bool, true, false, not, ◌||◌, Option, none, some, List, [], ◌∷◌,
  ◌==◌, str_eq, str_eq_iff, inl, inr, Bool-cases, if◌then◌else◌, arith,
}
use vps_billing_workbuddy.Errors.{
  ok, refuse_if, refuse_if-eq-ok, session_not_found, no_subject_id, session_already_expired,
}
use vps_billing_workbuddy.Database.{
  World, done, failed, ◌>>=◌, lift, statement, >>=-eq-done, >>=-done, >>=-failed, pure-eq-done,
  lift-eq-done, statement-eq-done, statement_fair, statement_fair-err, ok_pair,
}
use vps_billing_workbuddy.Ledger.{Uuid}
use vps_billing_workbuddy.Calendar.{Time, after, add_duration}
use vps_billing_workbuddy.Rows.{first_where, all_where}
use vps_billing_workbuddy.Rows.Places.{Option-cases}
use vps_billing_workbuddy.Identity.Types.{Subject, same_subject, Session, Entry, Tables, Env}
use vps_billing_workbuddy.Identity.Sessions.{
  session_ttl, is_expired, is_entry, is_live_entry, set_entry, get_entry, add_to_index,
  expire_index, new_opaque_token, new_session, entry_of, create_session, decoded, get_session,
}

same_subject-itself : (s : Subject) → same_subject s s ≡ true
same_subject-itself Subject.user = refl
same_subject-itself Subject.admin = refl

-- Once a key is deleted, no test that is narrower finds it.
deleted_none :
    (key test : Entry → Bool)
    → ((e : Entry) → test e ≡ true → key e ≡ true)
    → (es : List Entry) → first_where test (all_where (λ (e : Entry). not (key e)) es) ≡ none
unfolding first_where all_where
deleted_none key test narrow [] = refl
deleted_none key test narrow (e ∷ es) =
    let rest = deleted_none key test narrow es in let hit = narrow e in ground arith

module _ {K : Type 0} (env : Env K) where
  -- A session that is made names its subject and lives as long as such sessions do.
  pub record IsIssued (subject : Subject) (subject_id : Uuid) (now : Time) (s : Session)
      : Type 0 where
    pub for_subject : s.subject ≡ subject
    pub for_id : s.subject_id ≡ subject_id
    pub until : s.expires_at ≡ add_duration now (session_ttl subject)

  new_opaque_token-db :
      (w : World Tables) {a : String} {w' : World Tables}
      → new_opaque_token env w ≡ done a w'
      → w'.db ≡ w.db
  unfolding new_opaque_token
  new_opaque_token-db w h = ground arith

  pub new_session-eq-done :
      (subject : Subject) (subject_id : Uuid) (now : Time) (w : World Tables) {s : Session}
      {w' : World Tables}
      → new_session env subject subject_id now w ≡ done s w'
      → IsIssued subject subject_id now s × (w'.db ≡ w.db)
  unfolding new_session
  new_session-eq-done subject subject_id now w h =
      let (u, v1, checked, rest1) =
        >>=-eq-done (lift (refuse_if (subject_id == 0) no_subject_id)) _ w h in
      let (id, v2, first, rest2) = >>=-eq-done (new_opaque_token env) _ v1 rest1 in
      let (csrf, v3, second, rest3) = >>=-eq-done (new_opaque_token env) _ v2 rest2 in
      let (made, same) = pure-eq-done _ v3 rest3 in
      let kept = (lift-eq-done _ w checked).1 in
      let kept1 = new_opaque_token-db v1 first in
      let kept2 = new_opaque_token-db v2 second in
      (rw (← made) record { for_subject = refl; for_id = refl; until = refl }, ground arith)

  -- What a session that is stored leaves in the store.
  pub record IsStored (s : Session) (now : Time) (t t' : Tables) : Type 0 where
    pub live : after s.expires_at now ≡ true
    pub entries :
        t'.entries
        ≡ entry_of env s ∷ all_where (λ (o : Entry). not (is_entry s.subject s.id o)) t.entries
    pub users : t'.users ≡ t.users
    pub admins : t'.admins ≡ t.admins

  pub create_session-eq-done :
      (s : Session) (now : Time) (w : World Tables) {u : Unit {0}} {w' : World Tables}
      → create_session env s now w ≡ done u w'
      → IsStored s now w.db w'.db
  unfolding create_session set_entry add_to_index expire_index
  create_session-eq-done s now w h =
      let (u, v1, checked, rest1) =
        >>=-eq-done (lift (refuse_if (is_expired s now) session_already_expired)) _ w h in
      let (u2, v2, set, rest2) = >>=-eq-done (statement (set_entry (entry_of env s))) _ v1 rest1 in
      let (u3, v3, added, last) =
        >>=-eq-done (statement (add_to_index s.subject s.subject_id s.id now)) _ v2 rest2 in
      let (checked_ok, same) = lift-eq-done _ w checked in
      let in_time = refuse_if-eq-ok (is_expired s now) session_already_expired checked_ok in
      let was_set = (ok_pair (statement-eq-done (set_entry (entry_of env s)) v1 set).0).1 in
      let was_added =
        (ok_pair (statement-eq-done (add_to_index s.subject s.subject_id s.id now) v2 added).0).1 in
      let was_last =
        (ok_pair
          (statement-eq-done (expire_index s.subject s.subject_id s.expires_at now) v3 last).0).1 in
      record {
        live = ground arith;
        entries = rw (← was_last, ← was_added, ← was_set, same) refl;
        users = rw (← was_last, ← was_added, ← was_set, same) refl;
        admins = rw (← was_last, ← was_added, ← was_set, same) refl;
      }

  -- A session that has just been stored is found.
  pub IsStored-first :
      (s : Session) (now : Time) (t t' : Tables)
      → IsStored s now t t'
      → first_where (is_live_entry s.subject s.id now) t'.entries ≡ some (entry_of env s)
  unfolding first_where
  IsStored-first s now t t' h =
      rw (h.entries, same_subject-itself s.subject, (str_eq_iff s.id s.id).1 refl, h.live) refl

  -- A session that is read was stored under the subject and the identifier, is of that subject, and is
  -- not over.
  pub record IsRead (subject : Subject) (id : String) (now : Time) (t : Tables) (s : Session)
      : Type 0 where
    pub entry : Entry
    pub found : first_where (is_live_entry subject id now) t.entries ≡ some entry
    pub decodes : env.decode_session entry.value ≡ some s
    pub of_subject : same_subject s.subject subject ≡ true
    pub live : after s.expires_at now ≡ true

  found_entry-eq-ok :
      (subject : Subject) (id : String) (now : Time) (t : Tables) {raw : String} {t' : Tables}
      → get_entry subject id now t ≡ ok (raw, t')
      → (e : Entry) × (first_where (is_live_entry subject id now) t.entries ≡ some e)
        × (raw ≡ e.value)
        × (t' ≡ t)
  unfolding get_entry
  found_entry-eq-ok subject id now t h =
      elim (Option-cases (first_where (is_live_entry subject id now) t.entries)) [
        | inl missing ↦ let ran = rw missing at h in ground arith
        | inr (e, found) ↦ let ran = ok_pair (rw found at h) in (e, found, sym ran.0, sym ran.1)
      ]

  decoded-eq-ok :
      (subject : Subject) (now : Time) (o : Option Session) {s : Session}
      → decoded env subject now o ≡ ok s
      → (o ≡ some s) × (same_subject s.subject subject ≡ true) × (after s.expires_at now ≡ true)
  decoded-eq-ok subject now none h = cc
  decoded-eq-ok subject now (some r) {s} h =
      elim (Bool-cases (not (same_subject r.subject subject) || is_expired r now)) [
        | inl bad ↦ let ran = rw bad at h in ground arith
        | inr good ↦
            let same : r ≡ s = ground arith in rw (← same) (refl, ground arith, ground arith)
      ]

  pub get_session-eq-done :
      (subject : Subject) (id : String) (now : Time) (w : World Tables) {s : Session}
      {w' : World Tables}
      → get_session env subject id now w ≡ done s w'
      → IsRead subject id now w.db s × (w'.db ≡ w.db)
  unfolding get_session
  get_session-eq-done subject id now w h =
      let (u, v1, named, rest1) =
        >>=-eq-done (lift (refuse_if (str_eq id "") session_not_found)) _ w h in
      let (raw, v2, got, last) = >>=-eq-done (statement (get_entry subject id now)) _ v1 rest1 in
      let kept = (lift-eq-done _ w named).1 in
      let (e, found, value, same) =
        found_entry-eq-ok subject id now v1.db
          (statement-eq-done (get_entry subject id now) v1 got).0 in
      let (read, kept') = lift-eq-done _ v2 last in
      let (decodes, of_subject, live) = decoded-eq-ok subject now (env.decode_session raw) read in
      (
        record {
          entry = e;
          found = rw (← kept) found;
          decodes = rw (← value) decodes;
          of_subject = of_subject;
          live = live;
        },
        ground arith,
      )

  lift_fair :
      (b : Bool) (v : World Tables) → b ≡ false → lift (refuse_if b session_not_found) v ≡ done tt v
  unfolding lift
  lift_fair b v h = rw h refl

  read_entry :
      (s : Session) (later : Time) (v : World Tables)
      → str_eq s.id "" ≡ false
      → v.faults ≡ []
      → env.decode_session (env.encode_session s) ≡ some s
      → after s.expires_at later ≡ true
      → first_where (is_live_entry s.subject s.id later) v.db.entries ≡ some (entry_of env s)
      → get_session env s.subject s.id later v ≡ done s v
  unfolding get_session get_entry lift
  read_entry s later v named fair codec live found =
      let read = statement (get_entry s.subject s.id later) in
      let next = λ (raw : String). lift (decoded env s.subject later (env.decode_session raw)) in
      let ran : read v ≡ done (env.encode_session s) v =
        statement_fair (get_entry s.subject s.id later) v fair (rw found refl) in
      >>=-done (lift (refuse_if (str_eq s.id "") session_not_found)) (λ _. read >>= next) v
        (lift_fair (str_eq s.id "") v named)
      ∙ >>=-done read next v ran
      ∙ rw (codec, live, same_subject-itself s.subject) refl

  read_nothing :
      (subject : Subject) (id : String) (later : Time) (v : World Tables)
      → str_eq id "" ≡ false
      → v.faults ≡ []
      → first_where (is_live_entry subject id later) v.db.entries ≡ none
      → get_session env subject id later v ≡ failed session_not_found v
  unfolding get_session get_entry
  read_nothing subject id later v named fair missing =
      let read = statement (get_entry subject id later) in
      let next = λ (raw : String). lift (decoded env subject later (env.decode_session raw)) in
      let ran : read v ≡ failed session_not_found v =
        statement_fair-err (get_entry subject id later) v fair (rw missing refl)
        ∙ ap (λ fs. failed session_not_found (record v { faults = fs })) (sym fair) in
      >>=-done (lift (refuse_if (str_eq id "") session_not_found)) (λ _. read >>= next) v
        (lift_fair (str_eq id "") v named)
      ∙ >>=-failed read next v ran

  -- A session whose record is read back as it was written is found, as it was stored, until its end,
  -- and from then on not at all: as long as the tables are as the store left them and no command
  -- fails.
  pub get_session-create_session :
      (s : Session) (now later : Time) (w w' v : World Tables) {u : Unit {0}}
      → env.decode_session (env.encode_session s) ≡ some s
      → str_eq s.id "" ≡ false
      → create_session env s now w ≡ done u w'
      → v.db ≡ w'.db
      → v.faults ≡ []
      → get_session env s.subject s.id later v
        ≡ (if after s.expires_at later then done s v else failed session_not_found v)
  unfolding first_where
  get_session-create_session s now later w w' v codec named h same fair =
      let stored = create_session-eq-done s now w h in
      let there = rw (← same) at stored.entries in
      elim (Bool-cases (after s.expires_at later)) [
        | inl live ↦ rw live (
            read_entry s later v named fair codec live
              (rw (there, same_subject-itself s.subject, (str_eq_iff s.id s.id).1 refl, live) refl))
        | inr over ↦ rw over (
            read_nothing s.subject s.id later v named fair (
              rw (there, same_subject-itself s.subject, (str_eq_iff s.id s.id).1 refl, over)
                (deleted_none (is_entry s.subject s.id) (is_live_entry s.subject s.id later)
                  (λ e hit. ground arith) w.db.entries)))
      ]
