-- ===== src/Identity/Logins.antt =====
-- What a login of an administrator that is granted has seen.
use vps_billing_workbuddy.Prelude.{
  String, ◌≡◌, refl, sym, ap, subst, Bool, true, false, not, ◌&&◌, some, List, inl, inr, Bool-cases,
  arith,
}
use vps_billing_workbuddy.Errors.{
  Error, ok, invalid_credentials, account_suspended, admin_not_found,
}
use vps_billing_workbuddy.Database.{
  World, Outcome, done, failed, ◌>>◌, lift, throw, statement, >>=-eq-done, pure-eq-done,
  lift-eq-done, throw-eq-done, statement-eq-done, statement-eq-failed, map_error-eq-done,
  one_row-found, ok_pair, Outcome-cases,
}
use vps_billing_workbuddy.Calendar.{Time}
use vps_billing_workbuddy.Rows.{first_where}
use vps_billing_workbuddy.Identity.Types.{
  Subject, Admin, Session, ClientContext, AuditEvent, Tables, PasswordVerification, Env,
}
use vps_billing_workbuddy.Identity.Totp.{verify_totp}
use vps_billing_workbuddy.Identity.Sessions.{new_session, create_session, entry_of, is_live_entry}
use vps_billing_workbuddy.Identity.Directory.{
  has_admin_email, get_admin_by_email, find_admin_by_email, permissions_for_admin,
  create_audit_event, record_admin_login,
}
use vps_billing_workbuddy.Identity.Service.{
  LoginInput, AdminLogin, is_active, audit, login_refused, logged_in, refuse_audited, look_up_admin,
  or_refused, authenticate_admin, replace_admin_hash, store_admin_session, open_admin_session,
  login_admin,
}
use vps_billing_workbuddy.Identity.Stored.{
  IsIssued, IsStored-first, new_session-eq-done, create_session-eq-done,
}

find_admin_by_email-eq-done :
    (email : String) (w : World Tables) {a : Admin} {w' : World Tables}
    → find_admin_by_email email w ≡ done a w'
    → (first_where (has_admin_email email) w.db.admins ≡ some a) × (w'.db ≡ w.db)
unfolding find_admin_by_email get_admin_by_email
find_admin_by_email-eq-done email w {a} {w'} h =
    let ran = map_error-eq-done _ (statement (get_admin_by_email email)) w h in
    one_row-found _ w.db w'.db a (statement-eq-done (get_admin_by_email email) w ran).0

module _ {K : Type 0} (env : Env K) where
  -- What refuses is not done.
  refused-eq-done :
      {A B : Type 0} (e : AuditEvent) (x : Error) (w : World Tables) {a : A} {w' : World Tables}
      → (audit env e >> throw x) w ≡ done a w'
      → B
  refused-eq-done e x w h =
      let (u, v, audited, thrown) = >>=-eq-done (audit env e) (λ _. throw x) w h in
      throw-eq-done x v thrown

  refuse_audited-eq-done :
      (b : Bool) (client : ClientContext) (e : Error) (w : World Tables) {u : Unit {0}}
      {w' : World Tables}
      → refuse_audited env b client e w ≡ done u w'
      → (b ≡ false) × (w'.db ≡ w.db)
  refuse_audited-eq-done true client e w h = refused-eq-done (login_refused client) e w h
  refuse_audited-eq-done false client e w h =
      (refl, ap (λ (v : World Tables). v.db) (pure-eq-done tt w h).1)

  or_refused-eq-done :
      (client : ClientContext) (o : Outcome Tables Admin) {a : Admin} {w' : World Tables}
      → or_refused env client o ≡ done a w'
      → o ≡ done a w'
  or_refused-eq-done client (done a w) h = h
  or_refused-eq-done client (failed admin_not_found w) h =
      refused-eq-done (login_refused client) invalid_credentials w h
  or_refused-eq-done client (failed e w) h = cc

  look_up_admin-eq-done :
      (input : LoginInput) (w : World Tables) {a : Admin} {w' : World Tables}
      → look_up_admin env input w ≡ done a w'
      → (first_where (has_admin_email (env.normalize_email input.email)) w.db.admins ≡ some a)
        × (w'.db ≡ w.db)
  unfolding look_up_admin
  look_up_admin-eq-done input w h =
      find_admin_by_email-eq-done (env.normalize_email input.email) w (
        or_refused-eq-done input.client (find_admin_by_email (env.normalize_email input.email) w) h)

  -- The administrator is the one of the address, the password is theirs, the account is active, and
  -- where it has a second factor, the code is one of the moment.
  pub record IsAuthentic (input : LoginInput) (now : Time) (t : Tables) (a : Admin)
      (v : PasswordVerification) : Type 0 where
    pub of_email : first_where (has_admin_email (env.normalize_email input.email)) t.admins ≡ some a
    pub verified : env.verify_password input.password a.password_hash ≡ ok v
    pub matches : v.matches ≡ true
    pub active : is_active a.status ≡ true
    pub second_factor :
        a.two_factor_enabled ≡ true → verify_totp env a.two_factor_secret input.totp_code now ≡ true

  authenticate_admin-eq-done :
      (input : LoginInput) (now : Time) (w : World Tables) {a : Admin} {v : PasswordVerification}
      {w' : World Tables}
      → authenticate_admin env input now w ≡ done (a, v) w'
      → IsAuthentic input now w.db a v
  unfolding authenticate_admin
  authenticate_admin-eq-done input now w {a} {v} h =
      let (b, w1, looked, rest1) = >>=-eq-done (look_up_admin env input) _ w h in
      let (x, w2, checked, rest2) =
        >>=-eq-done (lift (env.verify_password input.password b.password_hash)) _ w1 rest1 in
      let (u3, w3, matched, rest3) =
        >>=-eq-done (refuse_audited env (not x.matches) input.client invalid_credentials) _ w2
          rest2 in
      let (u4, w4, active, rest4) =
        >>=-eq-done (refuse_audited env (not (is_active b.status)) input.client account_suspended) _
          w3 rest3 in
      let (u5, w5, second, last) =
        >>=-eq-done
          (refuse_audited env
            (b.two_factor_enabled && not (verify_totp env b.two_factor_secret input.totp_code now))
            input.client invalid_credentials)
          _ w4 rest4 in
      let answer = (pure-eq-done (b, x) w5 last).0 in
      let same_admin : b ≡ a = ap (λ p. p.0) answer in
      let same_answer : x ≡ v = ap (λ p. p.1) answer in
      let matched' = (refuse_audited-eq-done _ input.client invalid_credentials w2 matched).0 in
      let active' = (refuse_audited-eq-done _ input.client account_suspended w3 active).0 in
      let second' = (refuse_audited-eq-done _ input.client invalid_credentials w4 second).0 in
      rw (← same_admin, ← same_answer)
        record {
          of_email = (look_up_admin-eq-done input w looked).0;
          verified = (lift-eq-done _ w1 checked).0;
          matches = ground arith;
          active = ground arith;
          second_factor = λ on. ground arith;
        }

  audit-entries :
      (e : AuditEvent) (w : World Tables) {u : Unit {0}} {w' : World Tables}
      → audit env e w ≡ done u w'
      → w'.db.entries ≡ w.db.entries
  unfolding audit create_audit_event
  audit-entries e w h = elim (Bool-cases env.has_auditor) [
    | inr unaudited ↦ let ran = rw unaudited at h in ground arith
    | inl audited ↦
        let ran = rw audited at h in
        elim (Outcome-cases (statement (create_audit_event e) w)) [
          | inl (x, v, recorded) ↦
              let moved = (ok_pair (statement-eq-done (create_audit_event e) w recorded).0).1 in
              let last = rw recorded at ran in ground arith
          | inr (x, v, lost) ↦
              let kept = statement-eq-failed (create_audit_event e) w lost in
              let last = rw lost at ran in ground arith
        ]
  ]

  store_admin_session-eq-done :
      (input : LoginInput) (now : Time) (a : Admin) (permissions : List String) (s : Session)
      (w : World Tables) {l : AdminLogin} {w' : World Tables}
      → store_admin_session env input now a permissions s w ≡ done l w'
      → (record { session = s; admin = a; permissions = permissions } ≡ l)
        × (first_where (is_live_entry s.subject s.id now) w'.db.entries ≡ some (entry_of env s))
  unfolding store_admin_session record_admin_login
  store_admin_session-eq-done input now a permissions s w h =
      let (u5, w5, created, rest5) = >>=-eq-done (create_session env s now) _ w h in
      let (u6, w6, recorded, rest6) =
        >>=-eq-done (statement (record_admin_login a.id now)) _ w5 rest5 in
      let (u7, w7, audited, last) = >>=-eq-done (audit env (logged_in a input.client)) _ w6 rest6 in
      let (answer, same) = pure-eq-done _ w7 last in
      let first =
        IsStored-first env s now w.db w5.db (create_session-eq-done env s now w created) in
      let kept = (ok_pair (statement-eq-done (record_admin_login a.id now) w5 recorded).0).1 in
      let kept' = audit-entries (logged_in a input.client) w6 audited in
      (answer, rw (same, kept', ← kept) first)

  -- A login of an administrator that is granted: whose it is, and what it gives.
  pub record IsGranted (input : LoginInput) (now : Time) (t t' : Tables) (l : AdminLogin)
      : Type 0 where
    pub verification : PasswordVerification
    pub authentic : IsAuthentic input now t l.admin verification
    pub issued : IsIssued env Subject.admin l.admin.id now l.session
    pub permitted : l.permissions ≡ env.permissions_for l.admin.id
    pub stored :
        first_where (is_live_entry Subject.admin l.session.id now) t'.entries
        ≡ some (entry_of env l.session)

  granted :
      (input : LoginInput) (now : Time) (w w4 : World Tables) (a : Admin) (v : PasswordVerification)
      (permissions : List String) (s : Session)
      → IsAuthentic input now w.db a v
      → IsIssued env Subject.admin a.id now s
      → permissions ≡ env.permissions_for a.id
      → {l : AdminLogin} {w' : World Tables}
      → store_admin_session env input now a permissions s w4 ≡ done l w'
      → IsGranted input now w.db w'.db l
  granted input now w w4 a v permissions s seen issued permitted {w' = w'} last =
      let (answer, first) = store_admin_session-eq-done input now a permissions s w4 last in
      rw (← answer) record {
        verification = v;
        authentic = seen;
        issued = issued;
        permitted = permitted;
        stored =
            subst
              (λ (subject : Subject).
                first_where (is_live_entry subject s.id now) w'.db.entries ≡ some (entry_of env s))
              issued.for_subject first;
      }

  -- Where LoginAdmin grants a login, the administrator is the one of the normalised address, the
  -- password was verified against their hash and matched, the account is active, and, where it has a
  -- second factor, the code was one of the moment; the session that is answered is theirs, an
  -- administrator's, is stored, and ends after the lifetime of such sessions; the permissions are those
  -- of the account.
  pub login_admin_lem :
      (input : LoginInput) (now : Time) (w w' : World Tables) {l : AdminLogin}
      → login_admin env input now w ≡ done l w'
      → IsGranted input now w.db w'.db l
  unfolding login_admin open_admin_session permissions_for_admin
  login_admin_lem input now w w' {l} h =
      let ((a, v), w1, seen, rest1) =
        >>=-eq-done (authenticate_admin env input now) (open_admin_session env input now) w h in
      let (u2, w2, hashed, rest2) =
        >>=-eq-done (replace_admin_hash env v.needs_rehash a input.password) _ w1 rest1 in
      let (permissions, w3, resolved, rest3) =
        >>=-eq-done (permissions_for_admin env a.id) _ w2 rest2 in
      let (s, w4, made, last) = >>=-eq-done (new_session env Subject.admin a.id now) _ w3 rest3 in
      granted input now w w4 a v permissions s (authenticate_admin-eq-done input now w seen)
        (new_session-eq-done env Subject.admin a.id now w3 made).0
        (sym (ok_pair (statement-eq-done _ w2 resolved).0).0) last
