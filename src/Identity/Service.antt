-- ===== src/Identity/Service.antt =====
-- identity/service.go: logins, logouts, and whom a session stands for. A password of an unknown account is
-- verified too, which takes time and changes nothing, and has no place here.
use vps_billing_workbuddy.Prelude.{
  String, Bool, true, false, not, ◌&&◌, none, some, List, str_eq, if◌then◌else◌,
}
use vps_billing_workbuddy.Errors.{
  Error, refuse_if, invalid_credentials, account_suspended, user_not_found, admin_not_found,
  session_not_found,
}
use vps_billing_workbuddy.Database.{
  Outcome, done, failed, ◌>>=◌, ◌>>◌, lift, pure, throw, map_error, statement, fresh,
}
use vps_billing_workbuddy.Ledger.{Uuid}
use vps_billing_workbuddy.Calendar.{Time}
use vps_billing_workbuddy.Identity.Types.{
  Subject, User, Admin, Session, ClientContext, AuditEvent, Tables, Call, PasswordVerification, Env,
}
use vps_billing_workbuddy.Identity.Totp.{verify_totp}
use vps_billing_workbuddy.Identity.Sessions.{
  new_session, create_session, get_session, delete_session,
}
use vps_billing_workbuddy.Identity.Directory.{
  find_user_by_email, find_user_by_id, find_admin_by_email, find_admin_by_id, record_user_login,
  record_admin_login, update_user_password_hash, update_admin_password_hash, create_audit_event,
  permissions_for_admin,
}

pub record LoginInput : Type 0 where
  pub email : String
  pub password : String
  pub totp_code : String
  pub client : ClientContext

pub record UserLogin : Type 0 where
  pub session : Session
  pub user : User

pub record AdminLogin : Type 0 where
  pub session : Session
  pub admin : Admin
  pub permissions : List String

abbrev pub is_active : String → Bool
is_active status = str_eq status "active"

abbrev pub logged_in : Admin → ClientContext → AuditEvent
logged_in a client = record {
  actor_id = some a.id;
  action = "admin.login.succeeded";
  resource_id = some a.id;
  client = client;
}

abbrev logged_out : Uuid → ClientContext → AuditEvent
logged_out id client = record {
  actor_id = some id;
  action = "admin.logout";
  resource_id = some id;
  client = client;
}

abbrev pub login_refused : ClientContext → AuditEvent
login_refused client = record {
  actor_id = none;
  action = "admin.login.refused";
  resource_id = none;
  client = client;
}

abbrev unknown_user : Error → Error
unknown_user user_not_found = invalid_credentials
unknown_user e = e

-- What a failure of the audit trail leaves of it.
abbrev unreported : Outcome Tables (Unit {0}) → Outcome Tables (Unit {0})
unreported (done _ w) = done tt w
unreported (failed _ w) = done tt w

module _ {K : Type 0} (env : Env K) where
  -- `audit`, and its failure, which is not reported.
  unfoldable pub audit : AuditEvent → Call (Unit {0})
  audit event w =
      if env.has_auditor then unreported (statement (create_audit_event event) w) else done tt w

  -- `auditRefusal`, before the refusal itself.
  abbrev pub refuse_audited : Bool → ClientContext → Error → Call (Unit {0})
  refuse_audited false client e = pure tt
  refuse_audited true client e = audit (login_refused client) >> throw e

  abbrev new_hash : String → Call String
  new_hash password = do salt ← fresh λ n. n; lift (env.hash_password salt password)

  -- `replaceUserHash`
  abbrev pub replace_user_hash : Bool → User → String → Call (Unit {0})
  replace_user_hash false u password = pure tt
  replace_user_hash true u password = do
    hash ← new_hash password
    statement (update_user_password_hash u.id hash)

  -- `replaceAdminHash`
  abbrev pub replace_admin_hash : Bool → Admin → String → Call (Unit {0})
  replace_admin_hash false a password = pure tt
  replace_admin_hash true a password = do
    hash ← new_hash password
    statement (update_admin_password_hash a.id hash)

  -- The checks of a login, in their order.
  unfoldable pub authenticate_user : LoginInput → Call (User × PasswordVerification)
  authenticate_user input = do
    u ← map_error unknown_user (find_user_by_email (env.normalize_email input.email))
    v ← lift (env.verify_password input.password u.password_hash)
    lift (refuse_if (not v.matches) invalid_credentials)
    lift (refuse_if (not (is_active u.status)) account_suspended)
    pure (u, v)

  unfoldable pub open_user_session :
      LoginInput → Time → User × PasswordVerification → Call UserLogin
  open_user_session input now (u, v) = do
    replace_user_hash v.needs_rehash u input.password
    s ← new_session env Subject.user u.id now
    create_session env s now
    statement (record_user_login u.id now)
    pure (record { session = s; user = u })

  -- `LoginUser`
  unfoldable pub login_user : LoginInput → Time → Call UserLogin
  unfolding authenticate_user open_user_session
  login_user input now = authenticate_user input >>= open_user_session input now

  abbrev pub or_refused : ClientContext → Outcome Tables Admin → Outcome Tables Admin
  or_refused client (done a w) = done a w
  or_refused client (failed admin_not_found w) =
      (audit (login_refused client) >> throw invalid_credentials) w
  or_refused client (failed e w) = failed e w

  unfoldable pub look_up_admin : LoginInput → Call Admin
  unfolding audit
  look_up_admin input w =
      or_refused input.client (find_admin_by_email (env.normalize_email input.email) w)

  unfoldable pub authenticate_admin : LoginInput → Time → Call (Admin × PasswordVerification)
  unfolding look_up_admin audit
  authenticate_admin input now = do
    a ← look_up_admin input
    v ← lift (env.verify_password input.password a.password_hash)
    refuse_audited (not v.matches) input.client invalid_credentials
    refuse_audited (not (is_active a.status)) input.client account_suspended
    refuse_audited
        (a.two_factor_enabled && not (verify_totp env a.two_factor_secret input.totp_code now))
        input.client invalid_credentials
    pure (a, v)

  unfoldable pub store_admin_session :
      LoginInput → Time → Admin → List String → Session → Call AdminLogin
  store_admin_session input now a permissions s = do
    create_session env s now
    statement (record_admin_login a.id now)
    audit (logged_in a input.client)
    pure (record { session = s; admin = a; permissions = permissions })

  unfoldable pub open_admin_session :
      LoginInput → Time → Admin × PasswordVerification → Call AdminLogin
  unfolding store_admin_session
  open_admin_session input now (a, v) = do
    replace_admin_hash v.needs_rehash a input.password
    permissions ← permissions_for_admin env a.id
    s ← new_session env Subject.admin a.id now
    store_admin_session input now a permissions s

  -- `LoginAdmin`
  unfoldable pub login_admin : LoginInput → Time → Call AdminLogin
  unfolding authenticate_admin open_admin_session
  login_admin input now = authenticate_admin input now >>= open_admin_session input now

  -- `Logout`
  unfoldable pub logout : Subject → String → Time → Call (Unit {0})
  logout subject id now = delete_session env subject id now

  abbrev end_session :
      String → ClientContext → Time → Outcome Tables Session → Outcome Tables (Unit {0})
  end_session id client now (done s w) =
      (do delete_session env Subject.admin id now; audit (logged_out s.subject_id client)) w
  end_session id client now (failed session_not_found w) = done tt w
  end_session id client now (failed e w) = failed e w

  -- `LogoutAdmin`
  unfoldable pub logout_admin : String → ClientContext → Time → Call (Unit {0})
  unfolding audit
  logout_admin id client now w = end_session id client now (get_session env Subject.admin id now w)

  -- `resolveLookupFailure`: the session of an account that is gone is ended.
  abbrev pub resolve_lookup_failure :
      {A : Type 0} → Subject → String → Time → Outcome Tables A → Outcome Tables A
  resolve_lookup_failure subject id now (done a w) = done a w
  resolve_lookup_failure subject id now (failed user_not_found w) =
      (delete_session env subject id now >> throw session_not_found) w
  resolve_lookup_failure subject id now (failed admin_not_found w) =
      (delete_session env subject id now >> throw session_not_found) w
  resolve_lookup_failure subject id now (failed e w) = failed e w

  unfoldable pub user_of_session : String → Time → Session → Call User
  user_of_session id now s w =
      resolve_lookup_failure Subject.user id now (find_user_by_id s.subject_id w)

  -- `CurrentUser`
  unfoldable pub current_user : String → Time → Call UserLogin
  unfolding user_of_session
  current_user id now = do
    s ← get_session env Subject.user id now
    u ← user_of_session id now s
    lift (refuse_if (not (is_active u.status)) account_suspended)
    pure (record { session = s; user = u })

  unfoldable pub admin_of_session : String → Time → Session → Call Admin
  admin_of_session id now s w =
      resolve_lookup_failure Subject.admin id now (find_admin_by_id s.subject_id w)

  -- `CurrentAdmin`
  unfoldable pub current_admin : String → Time → Call AdminLogin
  unfolding admin_of_session
  current_admin id now = do
    s ← get_session env Subject.admin id now
    a ← admin_of_session id now s
    lift (refuse_if (not (is_active a.status)) account_suspended)
    permissions ← permissions_for_admin env a.id
    pure (record { session = s; admin = a; permissions = permissions })
