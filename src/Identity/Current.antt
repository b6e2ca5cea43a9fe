-- ===== src/Identity/Current.antt =====
-- Whom a session of an administrator stands for.
use vps_billing_workbuddy.Prelude.{String, ◌≡◌, sym, true, not, some, List, arith}
use vps_billing_workbuddy.Errors.{
  refuse_if, refuse_if-eq-ok, account_suspended, admin_not_found, user_not_found, session_not_found,
}
use vps_billing_workbuddy.Database.{
  World, Outcome, done, failed, lift, statement, >>=-eq-done, pure-eq-done, lift-eq-done,
  throw-eq-done, statement-eq-done, map_error-eq-done, one_row-found, ok_pair,
}
use vps_billing_workbuddy.Ledger.{Uuid}
use vps_billing_workbuddy.Calendar.{Time}
use vps_billing_workbuddy.Rows.{first_where}
use vps_billing_workbuddy.Identity.Types.{Subject, Admin, Session, Tables, Env}
use vps_billing_workbuddy.Identity.Sessions.{get_session, delete_session}
use vps_billing_workbuddy.Identity.Directory.{
  has_admin_id, get_admin_by_id, find_admin_by_id, permissions_for_admin,
}
use vps_billing_workbuddy.Identity.Service.{
  AdminLogin, is_active, resolve_lookup_failure, admin_of_session, current_admin,
}
use vps_billing_workbuddy.Identity.Stored.{IsRead, get_session-eq-done}

find_admin_by_id-eq-done :
    (id : Uuid) (w : World Tables) {a : Admin} {w' : World Tables}
    → find_admin_by_id id w ≡ done a w'
    → (first_where (has_admin_id id) w.db.admins ≡ some a) × (w'.db ≡ w.db)
unfolding find_admin_by_id get_admin_by_id
find_admin_by_id-eq-done id w {a} {w'} h =
    let ran = map_error-eq-done _ (statement (get_admin_by_id id)) w h in
    one_row-found _ w.db w'.db a (statement-eq-done (get_admin_by_id id) w ran).0

chained :
    (w5 w4 w3 w2 w1 w : World Tables)
    → w5 ≡ w4
    → w4.db ≡ w3.db
    → w3 ≡ w2
    → w2.db ≡ w1.db
    → w1.db ≡ w.db
    → w5.db ≡ w.db
chained w5 w4 w3 w2 w1 w a b c d e = cc

module _ {K : Type 0} (env : Env K) where
  gone_eq_done :
      (subject : Subject) (id : String) (now : Time) (o : Outcome Tables Admin) {a : Admin}
      {w' : World Tables}
      → resolve_lookup_failure env subject id now o ≡ done a w'
      → o ≡ done a w'
  gone_eq_done subject id now (done a w) h = h
  gone_eq_done subject id now (failed user_not_found w) h =
      let (u, v, ended, thrown) = >>=-eq-done (delete_session env subject id now) _ w h in
      throw-eq-done session_not_found v thrown
  gone_eq_done subject id now (failed admin_not_found w) h =
      let (u, v, ended, thrown) = >>=-eq-done (delete_session env subject id now) _ w h in
      throw-eq-done session_not_found v thrown
  gone_eq_done subject id now (failed e w) h = cc

  admin_of_session-eq-done :
      (id : String) (now : Time) (s : Session) (w : World Tables) {a : Admin} {w' : World Tables}
      → admin_of_session env id now s w ≡ done a w'
      → (first_where (has_admin_id s.subject_id) w.db.admins ≡ some a) × (w'.db ≡ w.db)
  unfolding admin_of_session
  admin_of_session-eq-done id now s w h =
      find_admin_by_id-eq-done s.subject_id w
        (gone_eq_done Subject.admin id now (find_admin_by_id s.subject_id w) h)

  -- Whom a session stands for.
  pub record IsCurrent (id : String) (now : Time) (t : Tables) (l : AdminLogin) : Type 0 where
    pub read : IsRead env Subject.admin id now t l.session
    pub account : first_where (has_admin_id l.session.subject_id) t.admins ≡ some l.admin
    pub active : is_active l.admin.status ≡ true
    pub permitted : l.permissions ≡ env.permissions_for l.admin.id

  stands_for :
      (id : String) (now : Time) (w w1 w2 : World Tables) (s : Session) (a : Admin)
      → get_session env Subject.admin id now w ≡ done s w1
      → admin_of_session env id now s w1 ≡ done a w2
      → is_active a.status ≡ true
      → {permissions : List String} {l : AdminLogin} → permissions ≡ env.permissions_for a.id
      → record { session = s; admin = a; permissions = permissions } ≡ l
      → IsCurrent id now w.db l
  stands_for id now w w1 w2 s a got looked active permitted answer =
      let (read, kept) = get_session-eq-done env Subject.admin id now w got in
      rw (← answer) record {
        read = read;
        account = rw (← kept) (admin_of_session-eq-done id now s w1 looked).0;
        active = active;
        permitted = permitted;
      }

  -- Where CurrentAdmin answers, the session was stored as an administrator's under the identifier, is an
  -- administrator's itself and not over; its account is in the table and active, and the permissions
  -- are those that the account has now. Nothing has changed.
  pub current_admin_lem :
      (id : String) (now : Time) (w w' : World Tables) {l : AdminLogin}
      → current_admin env id now w ≡ done l w'
      → IsCurrent id now w.db l × (w'.db ≡ w.db)
  unfolding current_admin permissions_for_admin
  current_admin_lem id now w w' h =
      let (s, w1, got, rest1) = >>=-eq-done (get_session env Subject.admin id now) _ w h in
      let (a, w2, looked, rest2) = >>=-eq-done (admin_of_session env id now s) _ w1 rest1 in
      let (u, w3, checked, rest3) =
        >>=-eq-done (lift (refuse_if (not (is_active a.status)) account_suspended)) _ w2 rest2 in
      let (permissions, w4, resolved, last) =
        >>=-eq-done (permissions_for_admin env a.id) _ w3 rest3 in
      let (answer, same) = pure-eq-done _ w4 last in
      let (accepted, kept3) = lift-eq-done _ w2 checked in
      let active = refuse_if-eq-ok (not (is_active a.status)) account_suspended accepted in
      let (permitted, kept4) = ok_pair (statement-eq-done _ w3 resolved).0 in
      (
        stands_for id now w w1 w2 s a got looked (ground arith) (sym permitted) answer,
        chained w' w4 w3 w2 w1 w same (sym kept4) kept3
            (admin_of_session-eq-done id now s w1 looked).1
            (get_session-eq-done env Subject.admin id now w got).1,
      )
