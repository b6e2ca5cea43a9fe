-- ===== src/Identity/Directory.antt =====
-- storage/identity/directory.go over db/sqlcgen/identity.sql.go: the accounts and the audit trail. The
-- column `updated_at`, which nothing here reads, is left out; `now` is the clock of the database.
use vps_billing_workbuddy.Prelude.{String, Bool, some, List, [], ◌∷◌, ◌++◌, ◌==◌, str_eq}
use vps_billing_workbuddy.Errors.{Result, ok, user_not_found, admin_not_found}
use vps_billing_workbuddy.Database.{statement, map_error, one_row, when_no_rows}
use vps_billing_workbuddy.Ledger.{Uuid}
use vps_billing_workbuddy.Calendar.{Time}
use vps_billing_workbuddy.Rows.{first_where, update_where}
use vps_billing_workbuddy.Identity.Types.{User, Admin, AuditEvent, Tables, Call, Env}

abbrev pub has_user_email : String → User → Bool
has_user_email email u = str_eq u.email email

abbrev pub has_user_id : Uuid → User → Bool
has_user_id id u = u.id == id

abbrev pub has_admin_email : String → Admin → Bool
has_admin_email email a = str_eq a.email email

abbrev pub has_admin_id : Uuid → Admin → Bool
has_admin_id id a = a.id == id

unfoldable pub get_user_by_email : String → Tables → Result (User × Tables)
get_user_by_email email t = one_row (first_where (has_user_email email) t.users) t

unfoldable pub get_user_by_id : Uuid → Tables → Result (User × Tables)
get_user_by_id id t = one_row (first_where (has_user_id id) t.users) t

unfoldable pub get_admin_by_email : String → Tables → Result (Admin × Tables)
get_admin_by_email email t = one_row (first_where (has_admin_email email) t.admins) t

unfoldable pub get_admin_by_id : Uuid → Tables → Result (Admin × Tables)
get_admin_by_id id t = one_row (first_where (has_admin_id id) t.admins) t

abbrev seen_user : Time → User → User
seen_user now u = record u { last_login_at = some now }

unfoldable pub record_user_login : Uuid → Time → Tables → Result (Unit {0} × Tables)
record_user_login id now t =
    ok (tt, record t { users = update_where (has_user_id id) (seen_user now) t.users })

abbrev seen_admin : Time → Admin → Admin
seen_admin now a = record a { last_login_at = some now }

unfoldable pub record_admin_login : Uuid → Time → Tables → Result (Unit {0} × Tables)
record_admin_login id now t =
    ok (tt, record t { admins = update_where (has_admin_id id) (seen_admin now) t.admins })

abbrev with_user_hash : String → User → User
with_user_hash hash u = record u { password_hash = hash }

unfoldable pub update_user_password_hash : Uuid → String → Tables → Result (Unit {0} × Tables)
update_user_password_hash id hash t =
    ok (tt, record t { users = update_where (has_user_id id) (with_user_hash hash) t.users })

abbrev with_admin_hash : String → Admin → Admin
with_admin_hash hash a = record a { password_hash = hash }

unfoldable pub update_admin_password_hash : Uuid → String → Tables → Result (Unit {0} × Tables)
update_admin_password_hash id hash t =
    ok (tt, record t { admins = update_where (has_admin_id id) (with_admin_hash hash) t.admins })

unfoldable pub create_audit_event : AuditEvent → Tables → Result (Unit {0} × Tables)
create_audit_event e t = ok (tt, record t { audit_events = t.audit_events ++ e ∷ [] })

unfoldable pub find_user_by_email : String → Call User
find_user_by_email email =
    map_error (when_no_rows user_not_found) (statement (get_user_by_email email))

unfoldable pub find_user_by_id : Uuid → Call User
find_user_by_id id = map_error (when_no_rows user_not_found) (statement (get_user_by_id id))

unfoldable pub find_admin_by_email : String → Call Admin
find_admin_by_email email =
    map_error (when_no_rows admin_not_found) (statement (get_admin_by_email email))

unfoldable pub find_admin_by_id : Uuid → Call Admin
find_admin_by_id id = map_error (when_no_rows admin_not_found) (statement (get_admin_by_id id))

-- The permissions of an administrator: the tables of roles are a parameter.
abbrev read_permissions : List String → Tables → Result (List String × Tables)
read_permissions permissions t = ok (permissions, t)

unfoldable pub permissions_for_admin : {K : Type 0} → Env K → Uuid → Call (List String)
permissions_for_admin env id = statement (read_permissions (env.permissions_for id))
