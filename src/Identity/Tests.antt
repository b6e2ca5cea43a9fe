-- ===== src/Identity/Tests.antt =====
-- Tests of logins and sessions.
use vps_billing_workbuddy.Prelude.{
  ℕ, ◌≡◌, ◌==◌, refl, true, false, str_eq, none, some, [], ◌∷◌, if◌then◌else◌,
}
use vps_billing_workbuddy.Errors.{ok, invalid_credentials, session_not_found}
use vps_billing_workbuddy.Database.{
  World, done, failed, world_after, ◌>>=◌, statement, lift, pure, throw, map_error, fresh,
}
use vps_billing_workbuddy.Calendar.{
  Time, after, instant, add_duration, add_days, next_day, days_in_month, day_number,
  days_before_month, days_before_year,
}
use vps_billing_workbuddy.Rows.{first_where, all_where, update_where, count_where}
use vps_billing_workbuddy.Identity
use vps_billing_workbuddy.Identity.Types.{Subject, Admin, Session, ClientContext, Tables, Env}
use vps_billing_workbuddy.Identity.Totp.{verify_totp, matches_some, byte_length, unix}
use vps_billing_workbuddy.Identity.Service.{LoginInput, AdminLogin, login_admin, current_admin}
use vps_billing_workbuddy.Identity.Stored.{get_session-create_session}
use vps_billing_workbuddy.Identity.Logins.{IsGranted, login_admin_lem}
use vps_billing_workbuddy.Identity.Current.{IsCurrent, current_admin_lem}

abbrev noon : Time
noon = record { year = 1970; month = 1; day = 2; nanos = 0 }

abbrev next_noon : Time
next_noon = record { year = 1970; month = 1; day = 3; nanos = 0 }

-- The session of the tests, by its tokens.
abbrev a_session : Session
a_session = record {
  id = "token";
  subject = Subject.admin;
  subject_id = 7;
  issued_at = noon;
  expires_at = next_noon;
  csrf_secret = "token";
}

abbrev env : Env ℕ
env = record {
  normalize_email = λ e. e;
  verify_password =
      λ password hash. ok (record { matches = str_eq password hash; needs_rehash = false });
  hash_password = λ salt password. ok password;
  decode_secret = λ secret. some 5;
  hotp = λ key counter. if counter == 2880 then "123456" else "000000";
  token = λ n. "token";
  encode_session = λ s. "session";
  decode_session = λ raw. if str_eq raw "session" then some a_session else none;
  permissions_for = λ id. "orders.read" ∷ [];
  has_auditor = true;
}

abbrev root : Admin
root = record {
  id = 7;
  email = "root@example.com";
  password_hash = "correct horse";
  status = "active";
  display_name = "Root";
  two_factor_enabled = true;
  two_factor_secret = "SECRET";
  last_login_at = none;
}

abbrev client : ClientContext
client = record { ip = ""; user_agent = ""; request_id = ""; trace_id = "" }

abbrev world : World Tables
world = record {
  db = record { users = []; admins = root ∷ []; entries = []; indexes = []; audit_events = [] };
  faults = [];
  drawn = 0;
}

abbrev input : LoginInput
input = record {
  email = "root@example.com";
  password = "correct horse";
  totp_code = "123456";
  client = client;
}

abbrev a_login : AdminLogin
a_login = record { session = a_session; admin = root; permissions = "orders.read" ∷ [] }

abbrev logged_in_world : World Tables
logged_in_world = world_after (login_admin env input noon world)

login_granted : login_admin env input noon world ≡ done a_login logged_in_world
unfolding ◌>>=◌ map_error statement first_where lift pure throw fresh instant after add_duration
    add_days day_number days_before_month days_before_year days_in_month next_day Identity.set_entry
    Identity.add_to_index Identity.expire_index Identity.create_session all_where count_where
    update_where login_admin Identity.find_admin_by_email Identity.get_admin_by_email verify_totp
    byte_length matches_some unix Identity.permissions_for_admin Identity.new_session
    Identity.new_opaque_token Identity.create_audit_event Identity.record_admin_login
    Identity.update_admin_password_hash Identity.audit Identity.authenticate_admin
    Identity.look_up_admin Identity.open_admin_session Identity.store_admin_session
login_granted = refl

-- A wrong code is refused, though the password is right.
code_refused :
    login_admin env (record input { totp_code = "654321" }) noon world
    ≡ failed invalid_credentials
        (world_after (login_admin env (record input { totp_code = "654321" }) noon world))
unfolding ◌>>=◌ map_error statement first_where lift pure throw fresh instant after add_duration
    add_days day_number days_before_month days_before_year days_in_month next_day Identity.set_entry
    Identity.add_to_index Identity.expire_index Identity.create_session all_where count_where
    update_where login_admin Identity.find_admin_by_email Identity.get_admin_by_email verify_totp
    byte_length matches_some unix Identity.permissions_for_admin Identity.new_session
    Identity.new_opaque_token Identity.create_audit_event Identity.record_admin_login
    Identity.update_admin_password_hash Identity.audit Identity.authenticate_admin
    Identity.look_up_admin Identity.open_admin_session Identity.store_admin_session
code_refused = refl

login_admin_example : IsGranted env input noon world.db logged_in_world.db a_login
login_admin_example = login_admin_lem env input noon world logged_in_world login_granted

session_current :
    current_admin env "token" noon logged_in_world
    ≡ done (record a_login { admin = record root { last_login_at = some noon } }) logged_in_world
unfolding ◌>>=◌ map_error statement first_where lift pure throw fresh instant after add_duration
    add_days day_number days_before_month days_before_year days_in_month next_day Identity.set_entry
    Identity.add_to_index Identity.expire_index Identity.create_session all_where count_where
    update_where login_admin Identity.find_admin_by_email Identity.get_admin_by_email verify_totp
    byte_length matches_some unix Identity.permissions_for_admin Identity.new_session
    Identity.new_opaque_token Identity.create_audit_event Identity.record_admin_login
    Identity.update_admin_password_hash Identity.audit Identity.authenticate_admin
    Identity.look_up_admin Identity.open_admin_session Identity.store_admin_session current_admin
    Identity.get_session Identity.get_entry Identity.admin_of_session Identity.find_admin_by_id
    Identity.get_admin_by_id
session_current = refl

current_admin_example :
    IsCurrent env "token" noon logged_in_world.db
      (record a_login { admin = record root { last_login_at = some noon } })
    × (logged_in_world.db ≡ logged_in_world.db)
current_admin_example =
    current_admin_lem env "token" noon logged_in_world logged_in_world session_current

abbrev stored_world : World Tables
stored_world = world_after (Identity.create_session env a_session noon world)

session_stored : Identity.create_session env a_session noon world ≡ done tt stored_world
unfolding ◌>>=◌ map_error statement first_where lift pure throw fresh instant after add_duration
    add_days day_number days_before_month days_before_year days_in_month next_day Identity.set_entry
    Identity.add_to_index Identity.expire_index Identity.create_session all_where count_where
    update_where
session_stored = refl

fair : stored_world.faults ≡ []
unfolding ◌>>=◌ map_error statement first_where lift pure throw fresh instant after add_duration
    add_days day_number days_before_month days_before_year days_in_month next_day Identity.set_entry
    Identity.add_to_index Identity.expire_index Identity.create_session all_where count_where
    update_where
fair = refl

get_session-create_session_example :
    Identity.get_session env Subject.admin "token" next_noon stored_world ≡ (
      if after next_noon next_noon
      then done a_session stored_world
      else failed session_not_found stored_world)
get_session-create_session_example =
    get_session-create_session env a_session noon next_noon world stored_world stored_world refl
      refl session_stored refl fair
