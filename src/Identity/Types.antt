-- ===== src/Identity/Types.antt =====
-- The records of identity/service.go and identity/session.go, the tables, and what is outside.
use vps_billing_workbuddy.Prelude.{ℕ, String, Bool, true, false, Option, List}
use vps_billing_workbuddy.Errors.{Result}
use vps_billing_workbuddy.Database.{Action}
use vps_billing_workbuddy.Ledger.{Uuid}
use vps_billing_workbuddy.Calendar.{Time}

-- `SubjectType`, less the texts that `Valid` refuses.
pub data Subject : Type 0 where
  user admin : Subject

abbrev pub same_subject : Subject → Subject → Bool
same_subject Subject.user Subject.user = true
same_subject Subject.admin Subject.admin = true
same_subject _ _ = false

pub record User : Type 0 where
  pub id : Uuid
  pub email : String
  pub password_hash : String
  pub status : String
  pub locale : String
  pub timezone : String
  pub last_login_at : Option Time

pub record Admin : Type 0 where
  pub id : Uuid
  pub email : String
  pub password_hash : String
  pub status : String
  pub display_name : String
  pub two_factor_enabled : Bool
  pub two_factor_secret : String
  pub last_login_at : Option Time

pub record Session : Type 0 where
  pub id : String
  pub subject : Subject
  pub subject_id : Uuid
  pub issued_at : Time
  pub expires_at : Time
  pub csrf_secret : String

-- audit/audit.go `Context`
pub record ClientContext : Type 0 where
  pub ip : String
  pub user_agent : String
  pub request_id : String
  pub trace_id : String

-- audit/audit.go `Event`, of an administrator, less its details.
pub record AuditEvent : Type 0 where
  pub actor_id : Option Uuid
  pub action : String
  pub resource_id : Option Uuid
  pub client : ClientContext

-- Redis: a record of one session, and the set of the sessions of a subject. A key is its parts; the
-- texts that sessionKey and subjectSessionsKey make of them are different for different parts.
pub record Entry : Type 0 where
  pub subject : Subject
  pub id : String
  pub value : String
  pub deadline : Time

pub record Index : Type 0 where
  pub subject : Subject
  pub subject_id : Uuid
  pub ids : List String
  pub deadline : Option Time

pub record Tables : Type 0 where
  pub users : List User
  pub admins : List Admin
  pub entries : List Entry
  pub indexes : List Index
  pub audit_events : List AuditEvent

abbrev pub Call : Type 0 → Type 0
Call A = Action Tables A

-- password.go `PasswordVerification`
pub record PasswordVerification : Type 0 where
  pub matches : Bool
  pub needs_rehash : Bool

-- What is outside, over the type of a decoded secret.
pub record Env (K : Type 0) : Type 0 where
  -- `strings.ToLower(strings.TrimSpace(email))`
  pub normalize_email : String → String
  -- `PasswordHasher`: verification, and a hash by the number of its salt.
  pub verify_password : String → String → Result PasswordVerification
  pub hash_password : ℕ → String → Result String
  -- base32 of the upper case, and HMAC-SHA1 cut to six digits.
  pub decode_secret : String → Option K
  pub hotp : K → ℕ → String
  -- `newOpaqueToken`, by the numbers drawn.
  pub token : ℕ → String
  pub encode_session : Session → String
  pub decode_session : String → Option Session
  pub permissions_for : Uuid → List String
  -- Whether the service has an auditor.
  pub has_auditor : Bool
